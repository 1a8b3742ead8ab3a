-- ===== src/Examples/PermissionCalls.antt =====
-- Masking and hashing of tool arguments, and JSON-safe payloads.
use agdd.Prelude.{String, ◌≡◌, ◌≢◌, eq_iff, refl, some, [], Memᴰ, arith}
use agdd.Text.{codes, lower}
use agdd.Value.{pos, Value, Fields, int, str, end, field}
use agdd.Permissions.{
  redacted, should_mask, is_sensitive_key, any_occurs, is_long_token, mask_tool_args,
}
use agdd.Permissions.Masking.{leaves_of_fields, mask_hides_sensitive, mask_hides_tokens}

abbrev key_args : Fields
key_args =
    field "API_Key" (int (pos 7))
      (field "path" (str "/tmp/a file with quite a long name in it") end)

key_leaf : Memᴰ (some "API_Key", str redacted) (leaves_of_fields (mask_tool_args key_args))
unfolding mask_tool_args leaves_of_fields should_mask is_sensitive_key any_occurs lower
    is_long_token
key_leaf = Memᴰ.head refl

mask_hides_sensitive_example : str redacted ≡ str redacted
unfolding lower
mask_hides_sensitive_example =
    mask_hides_sensitive key_args "API_Key" "key" (codes "api_") [] (str redacted)
      (Memᴰ.tail (Memᴰ.tail (Memᴰ.tail (Memᴰ.tail (Memᴰ.head refl))))) refl key_leaf

mask_hides_tokens_example : Memᴰ b' ' (codes "/tmp/a file with quite a long name in it")
unfolding mask_tool_args leaves_of_fields should_mask is_sensitive_key any_occurs lower
    is_long_token
mask_hides_tokens_example =
    mask_hides_tokens key_args (some "path") "/tmp/a file with quite a long name in it"
      (Memᴰ.tail (Memᴰ.head refl)) (omega arith)

abbrev two_args : Fields
two_args = field "a" (int (pos 1)) (field "b" (int (pos 2)) end)

abbrev swapped_args : Fields
swapped_args = field "b" (int (pos 2)) (field "a" (int (pos 1)) end)

abbrev show : Value → String
show v = "hash"

abbrev a : String
a = "a"

abbrev b : String
b = "b"

a_ne_b : a ≢ b
a_ne_b e = cc ((eq_iff a b).1 e)

mask_test :
    mask_tool_args (field "API_Key" (int (pos 7)) (field "path" (str "/tmp/a") end))
    ≡ field "API_Key" (str redacted) (field "path" (str "/tmp/a") end)
unfolding mask_tool_args should_mask is_sensitive_key is_long_token any_occurs lower
mask_test = refl
