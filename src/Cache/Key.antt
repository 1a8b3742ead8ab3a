-- ===== src/Cache/Key.antt =====
-- src/magsag/cache/key.py. `dumps` is json.dumps with sorted keys, `none` for a TypeError, and the
-- digest is SHA-256 of a text.
pub mod Alike
use agdd.Prelude.{String, Bool, true, false, ◌&&◌, Option, none, some, if◌then◌else◌}
use agdd.Text.{codes, text_leb}
use agdd.Result.{Result, ok, raise}
use agdd.Value.{
  Value, Items, Fields, null, bool, int, str, other, list, tuple, dict, nil, cons, end, field,
}
use agdd.Permissions.{insert_field}

pub data KeyError : Type 0 where
  type_error : KeyError

module _ (dumps : Value → Option String) where
  -- The key that the items of a list are sorted by.
  unfoldable pub text_of : Value → String
  text_of v = elim (dumps v) [ none ↦ "" | some t ↦ t ]

  abbrev pub is_serializable : Value → Bool
  is_serializable v = elim (dumps v) [ none ↦ false | some t ↦ true ]

  unfoldable pub all_serializable : Items → Bool
  all_serializable nil = true
  all_serializable (cons v xs) = is_serializable v && all_serializable xs

  unfoldable pub insert_item : Value → Items → Items
  insert_item v nil = cons v nil
  insert_item v (cons w xs) = elim (text_leb (codes (text_of v)) (codes (text_of w))) [
    | true ↦ cons v (cons w xs)
    | false ↦ cons w (insert_item v xs)
  ]

  unfoldable pub sort_items : Items → Items
  sort_items nil = nil
  sort_items (cons v xs) = insert_item v (sort_items xs)

  -- The order is kept where an item has no JSON text.
  unfoldable pub sort_or_keep : Items → Items
  sort_or_keep xs = if all_serializable xs then sort_items xs else xs

  unfoldable mutual
    unfolding insert_field sort_or_keep

    pub normalize_input : Value → Value
    normalize_input (dict fs) = dict (normalize_entries fs)
    normalize_input (list xs) = list (sort_or_keep (normalize_each xs))
    normalize_input (tuple xs) = tuple xs
    normalize_input null = null
    normalize_input (bool b) = bool b
    normalize_input (int n) = int n
    normalize_input (str s) = str s
    normalize_input (other s) = other s

    pub normalize_each : Items → Items
    normalize_each nil = nil
    normalize_each (cons v xs) = cons (normalize_input v) (normalize_each xs)

    pub normalize_entries : Fields → Fields
    normalize_entries end = end
    normalize_entries (field k v fs) = insert_field k (normalize_input v) (normalize_entries fs)

  unfoldable pub hash_stable : (String → String) → Value → Result KeyError String
  hash_stable sha256 value = elim (dumps value) [ none ↦ raise type_error | some t ↦ ok (sha256 t) ]

  unfoldable pub compute_key :
      (String → String) → String → Items → Fields → Fields → Result KeyError String
  compute_key sha256 template_id tool_specs schema caps = hash_stable sha256 (
      dict (
        field "template" (str template_id) (
          field "tools" (normalize_input (list tool_specs)) (
            field "schema" (normalize_input (dict schema))
              (field "capabilities" (normalize_input (dict caps)) end)))))
