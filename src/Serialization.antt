-- ===== src/Serialization.antt =====
-- JSON-safe payloads, src/magsag/storage/serialization.py. Of the types that the function treats
-- one by one, those that the values of this development do not have stand as `other`, by the text
-- that they become.
use agdd.Prelude.{◌≡◌, refl, ap}
use agdd.Value.{
  Value, Items, Fields, null, bool, int, str, other, list, tuple, dict, nil, cons, end, field,
}

unfoldable mutual
  pub json_safe : Value → Value
  json_safe (dict fs) = dict (json_safe_fields fs)
  json_safe (list xs) = list (json_safe_items xs)
  json_safe (tuple xs) = list (json_safe_items xs)
  json_safe (other s) = str s
  json_safe null = null
  json_safe (bool b) = bool b
  json_safe (int n) = int n
  json_safe (str s) = str s

  pub json_safe_items : Items → Items
  json_safe_items nil = nil
  json_safe_items (cons v xs) = cons (json_safe v) (json_safe_items xs)

  pub json_safe_fields : Fields → Fields
  json_safe_fields end = end
  json_safe_fields (field k v fs) = field k (json_safe v) (json_safe_fields fs)

mutual
  unfolding json_safe

  json_safe_again : (v : Value) → json_safe (json_safe v) ≡ json_safe v
  json_safe_again (dict fs) = ap dict (json_safe_fields_again fs)
  json_safe_again (list xs) = ap list (json_safe_items_again xs)
  json_safe_again (tuple xs) = ap list (json_safe_items_again xs)
  json_safe_again (other s) = refl
  json_safe_again null = refl
  json_safe_again (bool b) = refl
  json_safe_again (int n) = refl
  json_safe_again (str s) = refl

  json_safe_items_again : (xs : Items) → json_safe_items (json_safe_items xs) ≡ json_safe_items xs
  json_safe_items_again nil = refl
  json_safe_items_again (cons v xs) = cc (json_safe_again v, json_safe_items_again xs)

  json_safe_fields_again :
      (fs : Fields) → json_safe_fields (json_safe_fields fs) ≡ json_safe_fields fs
  json_safe_fields_again end = refl
  json_safe_fields_again (field k v fs) = cc (json_safe_again v, json_safe_fields_again fs)

-- A payload that has been made JSON-safe is left alone when it is made so again.
pub json_safe_idem : (v : Value) → json_safe (json_safe v) ≡ json_safe v
json_safe_idem v = json_safe_again v
