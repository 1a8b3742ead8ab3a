-- ===== src/Memory/Entry.antt =====
-- src/magsag/core/memory.py. Times are microseconds, of one time zone; `N` is the type of floats.
use agdd.Prelude.{
  ℕ, ◌+◌, ◌*◌, String, Bool, true, false, ◌&&◌, ◌||◌, Option, none, some, List, [], ◌∷◌, leb,
  str_eq, if◌then◌else◌, get_or,
}
use agdd.Result.{Result, ok, raise, ◌>>=◌}
use agdd.Value.{Fields, end}

pub data MemoryScope : Type 0 where
  session long_term org : MemoryScope

pub record MemoryEntry (N : Type 0) : Type 0 where
  pub memory_id : String
  pub scope : MemoryScope
  pub agent_slug : String
  pub run_id : Option String
  pub key : String
  pub value : Fields
  pub created_at : ℕ
  pub updated_at : ℕ
  pub expires_at : Option ℕ
  pub pii_tags : List String
  pub retention_policy : Option String
  pub embedding : Option (List N)
  pub tags : List String
  pub metadata : Fields

pub data MemoryError : Type 0 where
  validation_error type_error not_initialized not_implemented : MemoryError
  already_exists does_not_exist : String → MemoryError

-- `not v`, for a text or `None`
abbrev pub is_missing : Option String → Bool
is_missing none = true
is_missing (some t) = str_eq t ""

unfoldable pub validate_session_run_id : MemoryScope → Option String → Bool
validate_session_run_id session run_id = if is_missing run_id then false else true
validate_session_run_id _ run_id = true

abbrev pub known_pii_tags : List String
known_pii_tags =
    "email" ∷ "phone" ∷ "ssn" ∷ "name" ∷ "address" ∷ "credit_card" ∷ "ip_address" ∷ "biometric"
    ∷ "health" ∷ "financial" ∷ []

unfoldable pub contains : List String → String → Bool
contains [] t = false
contains (k ∷ ks) t = str_eq k t || contains ks t

unfoldable pub validate_pii_tags : List String → Bool
unfolding contains
validate_pii_tags [] = true
validate_pii_tags (t ∷ ts) = contains known_pii_tags t && validate_pii_tags ts

module _ {N : Type 0} where
  -- The construction of a MemoryEntry, which runs the validators.
  unfoldable pub validated : MemoryEntry N → Result MemoryError (MemoryEntry N)
  unfolding validate_session_run_id validate_pii_tags
  validated e =
      if validate_session_run_id e.scope e.run_id && validate_pii_tags e.pii_tags
      then ok e
      else raise validation_error

  unfoldable pub is_expired : ℕ → MemoryEntry N → Bool
  is_expired now e = elim e.expires_at [ none ↦ false | some t ↦ leb t now ]

  unfoldable pub set_ttl : ℕ → ℕ → MemoryEntry N → MemoryEntry N
  set_ttl now ttl_seconds e = record e {
    expires_at = some (now + ttl_seconds * 1000000);
    updated_at = now;
  }

  -- The new identifier is the result of `uuid4`.
  unfoldable pub create_memory :
      ℕ
      → String
      → MemoryScope
      → String
      → String
      → Fields
      → Option String
      → Option ℕ
      → Option (List String)
      → Option (List String)
      → Option String
      → Option Fields
      → Result MemoryError (MemoryEntry N)
  unfolding validated set_ttl
  create_memory now id scope agent_slug key value run_id ttl_seconds pii_tags tags policy metadata =
      validated (record {
        memory_id = id;
        scope = scope;
        agent_slug = agent_slug;
        run_id = run_id;
        key = key;
        value = value;
        created_at = now;
        updated_at = now;
        expires_at = none;
        pii_tags = get_or pii_tags [];
        retention_policy = policy;
        embedding = none;
        tags = get_or tags [];
        metadata = get_or metadata end;
      })
      >>= λ e. elim ttl_seconds [ none ↦ ok e | some ttl ↦ ok (set_ttl now ttl e) ]

-- In seconds.
unfoldable pub apply_default_ttl : MemoryScope → ℕ
apply_default_ttl session = 3600
apply_default_ttl long_term = 30 * 24 * 3600
apply_default_ttl org = 90 * 24 * 3600
