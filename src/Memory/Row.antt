-- ===== src/Memory/Row.antt =====
-- The rows of the table of memories and their conversion from and to entries, `_entry_to_row` and
-- `_row_to_entry` of SQLiteMemoryStore in src/magsag/storage/memory_store.py.
use agdd.Prelude.{ℕ, String, Option, none, some, List, [], ◌∷◌, str_eq, if◌then◌else◌}
use agdd.Result.{Result, ok, raise, ◌>>=◌}
use agdd.Value.{Value, Items, Fields, str, list, dict, nil, cons}
use agdd.Memory.Entry.{
  MemoryScope, session, long_term, org, MemoryEntry, MemoryError, validation_error, type_error,
  validated,
}

-- The library calls: `dumps` is json.dumps, `none` for a TypeError, and `isoformat` is that of a
-- datetime.
pub record Codec (N : Type 0) : Type 0 where
  pub dumps : Value → Option String
  pub loads : String → Value
  pub dumps_floats : List N → String
  pub loads_floats : String → List N
  pub isoformat : ℕ → String
  pub fromisoformat : String → ℕ

pub record Row : Type 0 where
  pub memory_id : String
  pub scope : String
  pub agent_slug : String
  pub run_id : Option String
  pub key : String
  pub value : String
  pub created_at : String
  pub updated_at : String
  pub expires_at : Option String
  pub pii_tags : String
  pub retention_policy : Option String
  pub embedding : Option String
  pub tags : String
  pub metadata : String

unfoldable pub scope_value : MemoryScope → String
scope_value session = "session"
scope_value long_term = "long_term"
scope_value org = "org"

-- `MemoryScope(text)`
unfoldable pub scope_of : String → Result MemoryError MemoryScope
scope_of t =
    if str_eq t "session"
    then ok session
    else if str_eq t "long_term"
    then ok long_term
    else if str_eq t "org"
    then ok org
    else raise validation_error

unfoldable pub text_items : List String → Items
text_items [] = nil
text_items (t ∷ ts) = cons (str t) (text_items ts)

-- A field that is declared as a dict takes no other value.
unfoldable pub as_dict : Value → Result MemoryError Fields
as_dict (dict fs) = ok fs
as_dict _ = raise validation_error

abbrev as_text : Value → Result MemoryError String
as_text (str t) = ok t
as_text _ = raise validation_error

abbrev each_text : Items → Result MemoryError (List String)
each_text nil = ok []
each_text (cons v xs) = as_text v >>= λ t. each_text xs >>= λ ts. ok (t ∷ ts)

-- A field that is declared as a list of texts.
unfoldable pub as_texts : Value → Result MemoryError (List String)
as_texts (list xs) = each_text xs
as_texts _ = raise validation_error

abbrev pub or_type_error : Option String → Result MemoryError String
or_type_error none = raise type_error
or_type_error (some t) = ok t

module _ {N : Type 0} (c : Codec N) where
  -- `f(x) if x else None`, for an optional text.
  abbrev pub time_of : Option String → Option ℕ
  time_of none = none
  time_of (some t) = if str_eq t "" then none else some (c.fromisoformat t)

  abbrev pub time_text : Option ℕ → Option String
  time_text none = none
  time_text (some t) = some (c.isoformat t)

  -- An empty embedding is stored as no embedding.
  abbrev pub embedding_text : Option (List N) → Option String
  embedding_text none = none
  embedding_text (some []) = none
  embedding_text (some (x ∷ xs)) = some (c.dumps_floats (x ∷ xs))

  abbrev pub embedding_of : Option String → Option (List N)
  embedding_of none = none
  embedding_of (some t) = if str_eq t "" then none else some (c.loads_floats t)

  unfoldable pub entry_to_row : MemoryEntry N → Result MemoryError Row
  unfolding scope_value text_items
  entry_to_row e = or_type_error (c.dumps (dict e.value)) >>= λ value_text.
      or_type_error (c.dumps (list (text_items e.pii_tags))) >>= λ pii_text.
      or_type_error (c.dumps (list (text_items e.tags))) >>= λ tags_text.
      or_type_error (c.dumps (dict e.metadata)) >>= λ metadata_text. ok (record {
        memory_id = e.memory_id;
        scope = scope_value e.scope;
        agent_slug = e.agent_slug;
        run_id = e.run_id;
        key = e.key;
        value = value_text;
        created_at = c.isoformat e.created_at;
        updated_at = c.isoformat e.updated_at;
        expires_at = time_text e.expires_at;
        pii_tags = pii_text;
        retention_policy = e.retention_policy;
        embedding = embedding_text e.embedding;
        tags = tags_text;
        metadata = metadata_text;
      })

  unfoldable pub row_to_entry : Row → Result MemoryError (MemoryEntry N)
  row_to_entry r = scope_of r.scope >>= λ scope. as_dict (c.loads r.value) >>= λ value.
      as_texts (c.loads r.pii_tags) >>= λ pii_tags. as_texts (c.loads r.tags) >>= λ tags.
      as_dict (c.loads r.metadata) >>= λ metadata. validated (record {
        memory_id = r.memory_id;
        scope = scope;
        agent_slug = r.agent_slug;
        run_id = r.run_id;
        key = r.key;
        value = value;
        created_at = c.fromisoformat r.created_at;
        updated_at = c.fromisoformat r.updated_at;
        expires_at = time_of r.expires_at;
        pii_tags = pii_tags;
        retention_policy = r.retention_policy;
        embedding = embedding_of r.embedding;
        tags = tags;
        metadata = metadata;
      })
