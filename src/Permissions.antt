-- ===== src/Permissions.antt =====
-- Tool permissions, the masking of tool arguments and their hash, src/magsag/core/permissions.py.
-- The ticket itself is in Approval. SHA-256 over `json.dumps` is the parameter `digest`.
pub mod Masking
pub mod Hash
use agdd.Prelude.{
  ◌≡◌, refl, ℕ, String, Bool, true, false, ◌&&◌, ◌||◌, not, Option, none, some, List, [], ◌∷◌, leb,
  length, if◌then◌else◌, str_eq,
}
use agdd.Text.{codes, lower, occurs_in, text_leb}
use agdd.Value.{
  pos, Value, Items, Fields, null, bool, int, str, other, list, tuple, dict, nil, cons, end, field,
}

pub data ToolPermission : Type 0 where
  always require_approval never : ToolPermission

abbrev pub redacted : String
redacted = "***redacted***"

abbrev pub sensitive_keywords : List String
sensitive_keywords =
    "password" ∷ "passphrase" ∷ "secret" ∷ "token" ∷ "key" ∷ "credential" ∷ "auth" ∷ "api"
    ∷ "session" ∷ "signature" ∷ "cookie" ∷ "bearer" ∷ []

-- `any(keyword in lowered for keyword in keywords)`
unfoldable pub any_occurs : List String → List ℕ → Bool
unfolding occurs_in
any_occurs [] lowered = false
any_occurs (w ∷ ws) lowered = occurs_in (codes w) lowered || any_occurs ws lowered

unfoldable pub is_sensitive_key : Option String → Bool
is_sensitive_key none = false
is_sensitive_key (some key) =
    if str_eq key "" then false else any_occurs sensitive_keywords (lower (codes key))

-- `len(value) >= 32 and " " not in value`
unfoldable pub is_long_token : Value → Bool
unfolding occurs_in
is_long_token (str s) = leb 32 (length (codes s)) && not (occurs_in (codes " ") (codes s))
is_long_token _ = false

unfoldable pub should_mask : Option String → Value → Bool
should_mask key value = is_sensitive_key key || is_long_token value

abbrev pub mask_scalar : Option String → Value → Value
mask_scalar hint v = if should_mask hint v then str redacted else v

unfoldable mutual
  pub mask : Option String → Value → Value
  mask hint (dict fs) = dict (mask_fields fs)
  mask hint (list xs) = list (mask_items hint xs)
  mask hint (tuple xs) = tuple (mask_items hint xs)
  mask hint null = mask_scalar hint null
  mask hint (bool b) = mask_scalar hint (bool b)
  mask hint (int n) = mask_scalar hint (int n)
  mask hint (str s) = mask_scalar hint (str s)
  mask hint (other s) = mask_scalar hint (other s)

  pub mask_items : Option String → Items → Items
  mask_items hint nil = nil
  mask_items hint (cons v xs) = cons (mask hint v) (mask_items hint xs)

  pub mask_fields : Fields → Fields
  mask_fields end = end
  mask_fields (field k v fs) = field k (mask (some k) v) (mask_fields fs)

-- The arguments of a tool are a dict.
unfoldable pub mask_tool_args : Fields → Fields
unfolding mask_fields
mask_tool_args args = mask_fields args

-- `sorted(value)` over the keys of a dict, each with its value.
unfoldable pub insert_field : String → Value → Fields → Fields
insert_field k v end = field k v end
insert_field k v (field j w fs) = elim (text_leb (codes k) (codes j)) [
  | true ↦ field k v (field j w fs)
  | false ↦ field j w (insert_field k v fs)
]

unfoldable mutual
  unfolding insert_field

  pub normalize_for_hash : Value → Value
  normalize_for_hash (dict fs) = dict (normalize_fields fs)
  normalize_for_hash (list xs) = list (normalize_items xs)
  normalize_for_hash (tuple xs) = list (normalize_items xs)
  normalize_for_hash null = null
  normalize_for_hash (bool b) = bool b
  normalize_for_hash (int n) = int n
  normalize_for_hash (str s) = str s
  normalize_for_hash (other s) = str s

  pub normalize_items : Items → Items
  normalize_items nil = nil
  normalize_items (cons v xs) = cons (normalize_for_hash v) (normalize_items xs)

  pub normalize_fields : Fields → Fields
  normalize_fields end = end
  normalize_fields (field k v fs) = insert_field k (normalize_for_hash v) (normalize_fields fs)

unfoldable pub compute_args_hash : (Value → String) → Fields → String
unfolding normalize_for_hash
compute_args_hash digest args = digest (normalize_for_hash (dict args))
