-- ===== src/Memory/Table.antt =====
-- The map of entries that a table stands for, and what SQL's statements do to it.
use agdd.Prelude.{
  String, Bool, true, false, ◌≡◌, refl, sym, subst, ◌∙◌, Option, none, some, List, [], ◌∷◌, ◌++◌,
  arith, str_eq, eq_iff, if◌then◌else◌, Bool-cases, Option-cases, inl, inr, All, All-append,
}
use agdd.Dict.Distinct.{Distinct}
use agdd.Result.{ok, raise}
use agdd.Value.{list, dict}
use agdd.Memory.Entry.{MemoryEntry}
use agdd.Memory.Row.{Codec, Row, scope_value, text_items, time_text, row_to_entry}
use agdd.Memory.Sqlite.{find_row, delete_rows, update_rows}
use agdd.Memory.Roundtrip.{IsClock, IsStorable, stored, row_of, read_row}
use agdd.Memory.Rows.{
  ids, find_row-append, find_row_id, find_row-delete_rows, find_row-update_rows,
  delete_rows-Distinct, update_rows-Distinct, append-Distinct,
}
use agdd.Memory.Spec.{Memories, drop_if, write}

module _ {N : Type 0} (c : Codec N) where
  -- The row can be read, and its columns that SQL compares are those of the entry.
  pub record IsStored (r : Row) : Type 0 where
    pub entry : MemoryEntry N
    pub read : row_to_entry c r ≡ ok entry
    pub same_id : entry.memory_id ≡ r.memory_id
    pub created : r.created_at ≡ c.isoformat entry.created_at
    pub expires : r.expires_at ≡ time_text c entry.expires_at
    pub scope : r.scope ≡ scope_value entry.scope

  pub record IsTable (rows : List Row) : Type 0 where
    pub distinct : Distinct (ids rows)
    pub stored_rows : All IsStored rows

  abbrev pub entry_of : Row → Option (MemoryEntry N)
  entry_of r = elim (row_to_entry c r) [ raise _ ↦ none | ok e ↦ some e ]

  -- The map that a table stands for.
  abbrev pub view : List Row → Memories c
  view rows = λ id. elim (find_row id rows) [ none ↦ none | some r ↦ entry_of r ]

  pub find_row-All :
      (P : Row → Type 0) (id : String) (rows : List Row) (r : Row)
      → All P rows
      → find_row id rows ≡ some r
      → P r
  unfolding find_row
  find_row-All P id [] r h e = cc
  find_row-All P id (q ∷ rows) r h e = elim (Bool-cases (str_eq q.memory_id id)) [
    | inl b ↦ subst P (ground arith) h.0
    | inr b ↦ find_row-All P id rows r h.1 (ground arith)
  ]

  delete_rows-All :
      (P : Row → Type 0) (test : Row → Bool) (rows : List Row)
      → All P rows
      → All P (delete_rows test rows)
  unfolding delete_rows
  delete_rows-All P test [] h = tt
  delete_rows-All P test (q ∷ rows) h =
      elim (test q)
        as (λ b. All P (if b then delete_rows test rows else q ∷ delete_rows test rows)) [
          | true ↦ delete_rows-All P test rows h.1
          | false ↦ (h.0, delete_rows-All P test rows h.1)
        ]

  pub delete_rows-IsTable :
      (test : Row → Bool) (rows : List Row) → IsTable rows → IsTable (delete_rows test rows)
  delete_rows-IsTable test rows h = record {
    distinct = delete_rows-Distinct test rows h.distinct;
    stored_rows = delete_rows-All IsStored test rows h.stored_rows;
  }

  -- A deletion by a test on rows that says the same of their entries.
  pub view-delete_rows :
      (test : Row → Bool) (keep : MemoryEntry N → Bool) (rows : List Row)
      → IsTable rows
      → ((r : Row) (h : IsStored r) → test r ≡ keep h.entry)
      → (id : String) → view (delete_rows test rows) id ≡ drop_if c keep (view rows id)
  view-delete_rows test keep rows h same id = elim (Option-cases (find_row id rows)) [
    | inl n ↦ ground (arith, n, find_row-delete_rows test id rows h.distinct)
    | inr (r, e) ↦
        let s = find_row-All IsStored id rows r h.stored_rows e in
        ground (arith, e, find_row-delete_rows test id rows h.distinct, same r s, s.read)
  ]

  -- The row of an entry that can be stored.
  pub row_of-IsStored :
      IsClock c
      → (e : MemoryEntry N) → IsStorable c e
      → (v p t m : String) → c.loads v ≡ dict e.value
      → c.loads p ≡ list (text_items e.pii_tags)
      → c.loads t ≡ list (text_items e.tags)
      → c.loads m ≡ dict e.metadata
      → (h : IsStored (row_of c e v p t m)) × (h.entry ≡ stored c e)
  row_of-IsStored k e h v p t m lv lp lt lm = (
    record {
      entry = stored c e;
      read = read_row c k e h v p t m lv lp lt lm;
      same_id = refl;
      created = refl;
      expires = refl;
      scope = refl;
    },
    refl,
  )

  pub find_row-view-none :
      (id : String) (rows : List Row) → IsTable rows → view rows id ≡ none → find_row id rows ≡ none
  find_row-view-none id rows t n = elim (Option-cases (find_row id rows)) [
    | inl e ↦ e
    | inr (r, e) ↦
        let s = find_row-All IsStored id rows r t.stored_rows e in
        absurd (ground (arith, e, s.read))
  ]

  pub find_row-view-some :
      (id : String) (rows : List Row) (old : MemoryEntry N)
      → view rows id ≡ some old
      → (r : Row) × (find_row id rows ≡ some r)
  find_row-view-some id rows old n = elim (Option-cases (find_row id rows)) [
    | inl e ↦ absurd (ground (arith, e))
    | inr (r, e) ↦ (r, e)
  ]

  pub view-append :
      (id : String) (rows : List Row) (r : Row) (h : IsStored r)
      → find_row r.memory_id rows ≡ none
      → view (rows ++ (r ∷ [])) id ≡ write c (view rows) r.memory_id h.entry id
  view-append id rows r h new = elim (Bool-cases (str_eq r.memory_id id)) [
    | inl b ↦
        let same : r.memory_id ≡ id = ground (arith, eq_iff r.memory_id id) in
        let n : find_row id rows ≡ none = subst (λ j. find_row j rows ≡ none) same new in
        ground (arith, find_row-append id rows r, h.read)
    | inr b ↦ elim (Option-cases (find_row id rows)) [
      | inl n ↦ ground (arith, find_row-append id rows r)
      | inr (q, e) ↦ ground (arith, find_row-append id rows r)
    ]
  ]

  pub append-IsTable :
      (rows : List Row) (r : Row)
      → IsStored r
      → IsTable rows
      → find_row r.memory_id rows ≡ none
      → IsTable (rows ++ (r ∷ []))
  append-IsTable rows r h t n = record {
    distinct = append-Distinct rows r t.distinct n;
    stored_rows = All-append IsStored rows (r ∷ []) t.stored_rows (h, tt);
  }

  module _ (new : Row) (f : MemoryEntry N → MemoryEntry N)
      (u : (r : Row) (h : IsStored r)
        → (k : IsStored (record new { created_at = r.created_at })) × (k.entry ≡ f h.entry)) where
    pub view-update_rows :
        (id : String) (rows : List Row) (old : MemoryEntry N)
        → IsTable rows
        → view rows new.memory_id ≡ some old
        → view (update_rows new rows) id ≡ write c (view rows) new.memory_id (f old) id
    view-update_rows id rows old t o = elim (Bool-cases (str_eq new.memory_id id)) [
      | inl b ↦
          let at : new.memory_id ≡ id = (eq_iff new.memory_id id).0 b in
          let o' : view rows id ≡ some old = subst (λ j. view rows j ≡ some old) at o in
          let (r, e) = find_row-view-some id rows old o' in
          let h = find_row-All IsStored id rows r t.stored_rows e in
          let (k, kf) = u r h in
          let mine : str_eq r.memory_id new.memory_id ≡ true =
            (eq_iff r.memory_id new.memory_id).1 (find_row_id id rows r e ∙ sym at) in
          let was : some h.entry ≡ some old = ground (arith, e, h.read) in
          ground (arith, e, find_row-update_rows new id rows, mine, k.read, kf, was)
      | inr b ↦ elim (Option-cases (find_row id rows)) [
        | inl n ↦ ground (arith, find_row-update_rows new id rows)
        | inr (r, e) ↦
            let other : str_eq r.memory_id new.memory_id ≡ false = ground (
              arith,
              eq_iff r.memory_id new.memory_id,
              eq_iff new.memory_id id,
              find_row_id id rows r e,
            ) in
            ground (arith, find_row-update_rows new id rows, other)
      ]
    ]

    update_rows-All : (rows : List Row) → All IsStored rows → All IsStored (update_rows new rows)
    unfolding update_rows
    update_rows-All [] h = tt
    update_rows-All (q ∷ rows) h = (
      elim (str_eq q.memory_id new.memory_id)
          as (λ b. IsStored (if b then record new { created_at = q.created_at } else q)) [
            | true ↦ (u q h.0).0
            | false ↦ h.0
          ],
      update_rows-All rows h.1,
    )

    pub update_rows-IsTable : (rows : List Row) → IsTable rows → IsTable (update_rows new rows)
    update_rows-IsTable rows t = record {
      distinct = update_rows-Distinct new rows t.distinct;
      stored_rows = update_rows-All rows t.stored_rows;
    }
