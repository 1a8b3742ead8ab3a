-- ===== src/Examples/KeyCalls.antt =====
-- A cache key over a small `dumps`, for dicts whose keys are sorted and texts without escapes.
use agdd.Prelude.{String, ◌≡◌, ◌≢◌, refl, eq_iff, true, false, Option, none, some}
use Prim.Native.String.{◌++◌ as append}
use agdd.Value.{
  Value, Items, Fields, null, bool, int, str, other, list, tuple, dict, nil, cons, end, field,
}
use agdd.Permissions.{insert_field}
use agdd.Cache.Key.{text_of, all_serializable, normalize_input, normalize_each, compute_key}
use agdd.Cache.Key.Alike.{Alike, AlikeItems, AlikeFields, compute_key-Alike}

abbrev join : String → Option String → Option String → Option String
join glue (some s) (some t) = some (append s (append glue t))
join glue (some s) none = none
join glue none t = none

mutual
  small_dumps : Value → Option String
  small_dumps null = some "null"
  small_dumps (bool b) = some (elim b [ true ↦ "true" | false ↦ "false" ])
  small_dumps (int n) = none
  small_dumps (str s) = some (append "'" (append s "'"))
  small_dumps (other s) = none
  small_dumps (list xs) = join "" (some "[") (dump_items xs)
  small_dumps (tuple xs) = join "" (some "[") (dump_items xs)
  small_dumps (dict fs) = join "" (some "{") (dump_fields fs)

  dump_items : Items → Option String
  dump_items nil = some "]"
  dump_items (cons v xs) = join "," (small_dumps v) (dump_items xs)

  dump_fields : Fields → Option String
  dump_fields end = some "}"
  dump_fields (field k v fs) = join "," (join ":" (some k) (small_dumps v)) (dump_fields fs)

abbrev tool : String → Value
tool name = dict (field "name" (str name) end)

abbrev both : Value → Value → Items
both v w = cons v (cons w nil)

abbrev schema : Fields
schema = field "type" (str "object") (field "id" (bool true) end)

abbrev schema_again : Fields
schema_again = field "id" (bool true) (field "type" (str "object") end)

abbrev digest : String → String
digest s = append "sha256:" s

apart :
    text_of small_dumps (normalize_input small_dumps (tool "b"))
    ≢ text_of small_dumps (normalize_input small_dumps (tool "a"))
unfolding small_dumps text_of normalize_input insert_field
apart e = absurd (cc ((eq_iff "{name:'b',}" "{name:'a',}").1 e))

serializable :
    all_serializable small_dumps (normalize_each small_dumps (both (tool "b") (tool "a"))) ≡ true
unfolding small_dumps all_serializable normalize_input insert_field
serializable = refl

abbrev type_key : String
type_key = "type"

other_keys : type_key ≢ "id"
other_keys e = cc

compute_key-Alike_example :
    compute_key small_dumps digest "v1" (both (tool "b") (tool "a")) schema end
    ≡ compute_key small_dumps digest "v1" (both (tool "a") (tool "b")) schema_again end
compute_key-Alike_example =
    compute_key-Alike small_dumps digest "v1" (both (tool "b") (tool "a"))
      (both (tool "a") (tool "b")) schema schema_again end end
      (Alike.in_list serializable (AlikeItems.swap_items (tool "b") (tool "a") nil apart))
      (Alike.in_dict (AlikeFields.swap "type" "id" (str "object") (bool true) end other_keys))
      (Alike.same (dict end))
