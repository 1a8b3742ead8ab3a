-- ===== src/Value/Equality.antt =====
-- Python's `==`, `<` and `in` on the modelled values.
use agdd.Prelude.{
  ℕ, suc, String, Bool, true, false, ◌&&◌, Option, none, some, ◌==◌, ltb, str_eq, if◌then◌else◌,
}
use agdd.Value.{
  ℤ, pos, negsuc, Value, Items, Fields, null, bool, int, str, other, list, tuple, dict, nil, cons,
  end, field,
}

-- Booleans are integers.
unfoldable pub as_int : Value → Option ℤ
as_int (bool b) = if b then some (pos 1) else some (pos 0)
as_int (int n) = some n
as_int _ = none

unfoldable pub eq_int : ℤ → ℤ → Bool
eq_int (pos a) (pos b) = a == b
eq_int (pos a) (negsuc b) = false
eq_int (negsuc a) (pos b) = false
eq_int (negsuc a) (negsuc b) = a == b

unfoldable pub lt_int : ℤ → ℤ → Bool
lt_int (pos a) (pos b) = ltb a b
lt_int (pos a) (negsuc b) = false
lt_int (negsuc a) (pos b) = true
lt_int (negsuc a) (negsuc b) = ltb b a

-- `d.get(k)`
unfoldable pub get_field : String → Fields → Option Value
get_field k end = none
get_field k (field j v fs) = if str_eq j k then some v else get_field k fs

unfoldable pub size : Fields → ℕ
size end = 0
size (field k v fs) = suc (size fs)

abbrev eq_number : ℤ → Value → Bool
eq_number n w = elim (as_int w) [ none ↦ false | some m ↦ eq_int n m ]

-- Two objects of other types are compared by their texts.
unfoldable mutual
  unfolding as_int eq_int get_field size

  pub py_eq : Value → Value → Bool
  py_eq null w = elim w [ null ↦ true | _ ↦ false ]
  py_eq (bool b) w = eq_number (if b then pos 1 else pos 0) w
  py_eq (int n) w = eq_number n w
  py_eq (str s) w = elim w [ str t ↦ str_eq s t | _ ↦ false ]
  py_eq (other s) w = elim w [ other t ↦ str_eq s t | _ ↦ false ]
  py_eq (list xs) w = elim w [ list ys ↦ eq_items xs ys | _ ↦ false ]
  py_eq (tuple xs) w = elim w [ tuple ys ↦ eq_items xs ys | _ ↦ false ]
  py_eq (dict fs) w = elim w [ dict gs ↦ (size fs == size gs) && fields_in fs gs | _ ↦ false ]

  pub eq_items : Items → Items → Bool
  eq_items nil ys = elim ys [ nil ↦ true | _ ↦ false ]
  eq_items (cons x xs) ys = elim ys [ nil ↦ false | cons y ys' ↦ py_eq x y && eq_items xs ys' ]

  pub fields_in : Fields → Fields → Bool
  fields_in end gs = true
  fields_in (field k v fs) gs = elim (get_field k gs) [
    | none ↦ false
    | some w ↦ py_eq v w && fields_in fs gs
  ]

-- `d[k] = v`
unfoldable pub put_field : String → Value → Fields → Fields
put_field k v end = field k v end
put_field k v (field j w fs) =
    let rest = put_field k v fs in if str_eq j k then field j v fs else field j w rest
