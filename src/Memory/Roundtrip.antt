-- ===== src/Memory/Roundtrip.antt =====
-- An entry of the memory is read back from its row.
use agdd.Prelude.{ℕ, String, ◌≡◌, ◌≢◌, refl, Option, none, some, List, [], ◌∷◌, arith, leb, eq_iff}
use agdd.Text.{codes, text_leb}
use agdd.Result.{ok}
use agdd.Value.{Value, list, dict}
use agdd.Memory.Entry.{MemoryScope, session, long_term, org, MemoryEntry, validated}
use agdd.Memory.Row.{
  Codec, Row, scope_value, scope_of, text_items, as_dict, as_texts, time_of, time_text,
  embedding_text, embedding_of, entry_to_row, row_to_entry,
}

module _ {N : Type 0} (c : Codec N) where
  -- `json.loads` reads back what `json.dumps` writes of the value.
  abbrev pub Faithful : Value → Type 0
  Faithful v = (t : String) × (c.dumps v ≡ some t) × (c.loads t ≡ v)

  -- What the store relies on in `isoformat`, on times of one time zone: it is read back, it is not
  -- empty, and its order as a text is that of the times.
  pub record IsClock : Type 0 where
    pub read_back : (t : ℕ) → c.fromisoformat (c.isoformat t) ≡ t
    pub not_empty : (t : ℕ) → c.isoformat t ≢ ""
    pub in_order : (s t : ℕ) → text_leb (codes (c.isoformat s)) (codes (c.isoformat t)) ≡ leb s t

  -- The parts of the entry are values that JSON keeps.
  pub record IsStorable (e : MemoryEntry N) : Type 0 where
    pub valid : validated e ≡ ok e
    pub value : Faithful (dict e.value)
    pub pii_tags : Faithful (list (text_items e.pii_tags))
    pub tags : Faithful (list (text_items e.tags))
    pub metadata : Faithful (dict e.metadata)
    pub floats :
        (x : N) (xs : List N)
        → e.embedding ≡ some (x ∷ xs)
        → (c.loads_floats (c.dumps_floats (x ∷ xs)) ≡ x ∷ xs) × (c.dumps_floats (x ∷ xs) ≢ "")

  abbrev pub not_empty_list : Option (List N) → Option (List N)
  not_empty_list none = none
  not_empty_list (some []) = none
  not_empty_list (some (x ∷ xs)) = some (x ∷ xs)

  -- What the store keeps of an entry: an empty embedding counts as none.
  abbrev pub stored : MemoryEntry N → MemoryEntry N
  stored e = record e { embedding = not_empty_list e.embedding }

  scope_of-scope_value : (s : MemoryScope) → scope_of (scope_value s) ≡ ok s
  unfolding scope_of scope_value
  scope_of-scope_value session = refl
  scope_of-scope_value long_term = refl
  scope_of-scope_value org = refl

  as_texts-text_items : (ts : List String) → as_texts (list (text_items ts)) ≡ ok ts
  unfolding as_texts text_items
  as_texts-text_items [] = refl
  as_texts-text_items (t ∷ ts) = ground (arith, as_texts-text_items ts)

  time_of-time_text : IsClock → (t : Option ℕ) → time_of c (time_text c t) ≡ t
  time_of-time_text k none = refl
  time_of-time_text k (some t) =
      ground (arith, k.read_back t, k.not_empty t, eq_iff (c.isoformat t) "")

  embedding_of-embedding_text :
      (o : Option (List N))
      → ((x : N) (xs : List N)
          → o ≡ some (x ∷ xs)
          → (c.loads_floats (c.dumps_floats (x ∷ xs)) ≡ x ∷ xs) × (c.dumps_floats (x ∷ xs) ≢ ""))
      → embedding_of c (embedding_text c o) ≡ not_empty_list o
  embedding_of-embedding_text none f = refl
  embedding_of-embedding_text (some []) f = refl
  embedding_of-embedding_text (some (x ∷ xs)) f =
      let (e, ne) = f x xs refl in ground (arith, e, ne, eq_iff (c.dumps_floats (x ∷ xs)) "")

  -- The row of an entry, from the texts of its parts.
  abbrev pub row_of : MemoryEntry N → String → String → String → String → Row
  row_of e value pii_tags tags metadata = record {
    memory_id = e.memory_id;
    scope = scope_value e.scope;
    agent_slug = e.agent_slug;
    run_id = e.run_id;
    key = e.key;
    value = value;
    created_at = c.isoformat e.created_at;
    updated_at = c.isoformat e.updated_at;
    expires_at = time_text c e.expires_at;
    pii_tags = pii_tags;
    retention_policy = e.retention_policy;
    embedding = embedding_text c e.embedding;
    tags = tags;
    metadata = metadata;
  }

  pub entry_to_row_of :
      (e : MemoryEntry N) (v p t m : String)
      → c.dumps (dict e.value) ≡ some v
      → c.dumps (list (text_items e.pii_tags)) ≡ some p
      → c.dumps (list (text_items e.tags)) ≡ some t
      → c.dumps (dict e.metadata) ≡ some m
      → entry_to_row c e ≡ ok (row_of e v p t m)
  unfolding entry_to_row
  entry_to_row_of e v p t m dv dp dt dm = ground arith

  stored_valid : (e : MemoryEntry N) → validated e ≡ ok e → validated (stored e) ≡ ok (stored e)
  unfolding validated
  stored_valid e h = ground arith

  pub read_row :
      IsClock
      → (e : MemoryEntry N) → IsStorable e
      → (v p t m : String) → c.loads v ≡ dict e.value
      → c.loads p ≡ list (text_items e.pii_tags)
      → c.loads t ≡ list (text_items e.tags)
      → c.loads m ≡ dict e.metadata
      → row_to_entry c (row_of e v p t m) ≡ ok (stored e)
  unfolding row_to_entry as_dict
  read_row k e h v p t m lv lp lt lm = ground (
    arith,
    lv,
    lp,
    lt,
    lm,
    scope_of-scope_value e.scope,
    as_texts-text_items e.pii_tags,
    as_texts-text_items e.tags,
    k.read_back e.created_at,
    k.read_back e.updated_at,
    time_of-time_text k e.expires_at,
    embedding_of-embedding_text e.embedding h.floats,
    stored_valid e h.valid,
  )

  -- Whatever the entry, if its parts are values that JSON keeps, it has a row, and from the row it is
  -- read back as it was, but that an empty embedding is none.
  pub row_to_entry-entry_to_row :
      IsClock
      → (e : MemoryEntry N) → IsStorable e
      → (r : Row) × (entry_to_row c e ≡ ok r) × (row_to_entry c r ≡ ok (stored e))
  row_to_entry-entry_to_row k e h =
      let (v, dv, lv) = h.value in
      let (p, dp, lp) = h.pii_tags in
      let (t, dt, lt) = h.tags in
      let (m, dm, lm) = h.metadata in
      (row_of e v p t m, entry_to_row_of e v p t m dv dp dt dm, read_row k e h v p t m lv lp lt lm)
