-- ===== src/Memory/Refine.antt =====
-- `create_memory`, `update_memory` and `get_memory` on SQLite do what they promise of a map.
use mathlib.Core.Path.{fun_ext}
use agdd.Prelude.{
  ℕ, String, true, ◌≡◌, refl, sym, ap, subst, ◌∙◌, none, some, [], ◌∷◌, ◌++◌, arith, Option-cases,
  inl, inr,
}
use agdd.Result.{ok}
use agdd.Memory.Entry.{MemoryEntry, already_exists, does_not_exist, validated}
use agdd.Memory.Row.{Codec, Row, entry_to_row}
use agdd.Memory.Sqlite.{
  SqliteStore, find_row, update_rows, insert_row, change_row, create_memory, get_memory,
  update_memory,
}
use agdd.Memory.Roundtrip.{IsClock, IsStorable, stored, row_of, entry_to_row_of}
use agdd.Memory.Table.{
  IsStored, IsTable, view, view-append, append-IsTable, view-update_rows, update_rows-IsTable,
  row_of-IsStored, find_row-All, find_row-view-none, find_row-view-some,
}
use agdd.Memory.Spec.{
  Operation, Outcome, Memories, create, get, update, done, refused, run, spec_run, write,
}

module _ {N : Type 0} (c : Codec N) (k : IsClock c) where
  -- The store is open, and its table stands for the map.
  pub record Refines (s : SqliteStore) (m : Memories c) : Type 0 where
    pub connected : s.connected ≡ true
    pub table : IsTable c s.memories
    pub same : view c s.memories ≡ m

  -- One step of the store, from its table's map.
  abbrev pub Follows : Operation N → SqliteStore → Type 0
  Follows op s =
      Refines (run c op s).0 (spec_run c op (view c s.memories)).0
      × ((run c op s).1 ≡ (spec_run c op (view c s.memories)).1)

  pub Follows-of :
      (op : Operation N) (s s' : SqliteStore) (m : Memories c) (out : Outcome N)
      → run c op s ≡ (s', out)
      → spec_run c op (view c s.memories) ≡ (m, out)
      → Refines s' m
      → Follows op s
  Follows-of op s s' m out p q r = (
    subst (λ (x : SqliteStore × Outcome N). Refines x.0 (spec_run c op (view c s.memories)).0)
        (sym p) (subst (λ (y : Memories c × Outcome N). Refines s' y.0) (sym q) r),
    ap (λ (x : SqliteStore × Outcome N). x.1) p ∙ sym (ap (λ (y : Memories c × Outcome N). y.1) q),
  )

  run-create_new :
      (e : MemoryEntry N) (r : Row) (s : SqliteStore)
      → s.connected ≡ true
      → entry_to_row c e ≡ ok r
      → find_row r.memory_id s.memories ≡ none
      → run c (create e) s ≡ (record s { memories = s.memories ++ (r ∷ []) }, done)
  unfolding run create_memory insert_row
  run-create_new e r s o w n = ground arith

  run-create_known :
      (e : MemoryEntry N) (r q : Row) (s : SqliteStore)
      → s.connected ≡ true
      → entry_to_row c e ≡ ok r
      → find_row r.memory_id s.memories ≡ some q
      → run c (create e) s ≡ (s, refused (already_exists e.memory_id))
  unfolding run create_memory insert_row
  run-create_known e r q s o w n = ground arith

  spec_create_new :
      (e : MemoryEntry N) (m : Memories c)
      → m e.memory_id ≡ none
      → spec_run c (create e) m ≡ (write c m e.memory_id (stored c e), done)
  unfolding spec_run
  spec_create_new e m n = rw (n, spec_run) refl

  spec_create_known :
      (e old : MemoryEntry N) (m : Memories c)
      → m e.memory_id ≡ some old
      → spec_run c (create e) m ≡ (m, refused (already_exists e.memory_id))
  unfolding spec_run
  spec_create_known e old m n = rw (n, spec_run) refl

  pub create-Follows :
      (e : MemoryEntry N) (s : SqliteStore)
      → IsStorable c e
      → s.connected ≡ true
      → IsTable c s.memories
      → Follows (create e) s
  create-Follows e s h o t =
      let (v, dv, lv) = h.value in
      let (p, dp, lp) = h.pii_tags in
      let (g, dg, lg) = h.tags in
      let (m, dm, lm) = h.metadata in
      let r = row_of c e v p g m in
      let written = entry_to_row_of c e v p g m dv dp dg dm in
      let (kept, of_e) = row_of-IsStored c k e h v p g m lv lp lg lm in
      elim (Option-cases (view c s.memories e.memory_id)) [
        | inl n ↦
            let new = find_row-view-none c e.memory_id s.memories t n in
            Follows-of (create e) s _ _ _ (run-create_new e r s o written new)
              (spec_create_new e (view c s.memories) n)
              (record {
                connected = o;
                table = append-IsTable c s.memories r kept t new;
                same = fun_ext λ id.
                    view-append c id s.memories r kept new
                    ∙ ap (λ x. write c (view c s.memories) e.memory_id x id) of_e;
              })
        | inr (old, n) ↦
            let (q, f) = find_row-view-some c e.memory_id s.memories old n in
            Follows-of (create e) s _ _ _ (run-create_known e r q s o written f)
              (spec_create_known e old (view c s.memories) n)
              (record { connected = o; table = t; same = refl })
      ]

  run_update_known :
      (now : ℕ) (e : MemoryEntry N) (r q : Row) (s : SqliteStore)
      → s.connected ≡ true
      → entry_to_row c (record e { updated_at = now }) ≡ ok r
      → find_row e.memory_id s.memories ≡ some q
      → run c (update now e) s ≡ (record s { memories = update_rows r s.memories }, done)
  unfolding run update_memory change_row
  run_update_known now e r q s o w n = ground arith

  run_update_missing :
      (now : ℕ) (e : MemoryEntry N) (r : Row) (s : SqliteStore)
      → s.connected ≡ true
      → entry_to_row c (record e { updated_at = now }) ≡ ok r
      → find_row e.memory_id s.memories ≡ none
      → run c (update now e) s ≡ (s, refused (does_not_exist e.memory_id))
  unfolding run update_memory change_row
  run_update_missing now e r s o w n = ground arith

  spec_update_known :
      (now : ℕ) (e old : MemoryEntry N) (m : Memories c)
      → m e.memory_id ≡ some old
      → spec_run c (update now e) m ≡ (
        write c m e.memory_id
            (stored c (record e { created_at = old.created_at; updated_at = now })),
        done,
      )
  unfolding spec_run
  spec_update_known now e old m n = rw (n, spec_run) refl

  spec_update_missing :
      (now : ℕ) (e : MemoryEntry N) (m : Memories c)
      → m e.memory_id ≡ none
      → spec_run c (update now e) m ≡ (m, refused (does_not_exist e.memory_id))
  unfolding spec_run
  spec_update_missing now e m n = rw (n, spec_run) refl

  later_valid :
      (now then_at : ℕ) (e : MemoryEntry N)
      → validated e ≡ ok e
      → validated (record e { created_at = then_at; updated_at = now })
        ≡ ok (record e { created_at = then_at; updated_at = now })
  unfolding validated
  later_valid now then_at e h = ground arith

  -- Neither time is a part that JSON writes.
  later-IsStorable :
      (now then_at : ℕ) (e : MemoryEntry N)
      → IsStorable c e
      → IsStorable c (record e { created_at = then_at; updated_at = now })
  later-IsStorable now then_at e h = record {
    valid = later_valid now then_at e h.valid;
    value = h.value;
    pii_tags = h.pii_tags;
    tags = h.tags;
    metadata = h.metadata;
    floats = h.floats;
  }

  pub update-Follows :
      (now : ℕ) (e : MemoryEntry N) (s : SqliteStore)
      → IsStorable c e
      → s.connected ≡ true
      → IsTable c s.memories
      → Follows (update now e) s
  update-Follows now e s h o t =
      let (v, dv, lv) = h.value in
      let (p, dp, lp) = h.pii_tags in
      let (g, dg, lg) = h.tags in
      let (m, dm, lm) = h.metadata in
      let r = row_of c (record e { updated_at = now }) v p g m in
      let written = entry_to_row_of c (record e { updated_at = now }) v p g m dv dp dg dm in
      elim (Option-cases (view c s.memories e.memory_id)) [
        | inl n ↦
            Follows-of (update now e) s _ _ _
              (run_update_missing now e r s o written
                (find_row-view-none c e.memory_id s.memories t n))
              (spec_update_missing now e (view c s.memories) n)
              (record { connected = o; table = t; same = refl })
        | inr (old, n) ↦
            let (q, f) = find_row-view-some c e.memory_id s.memories old n in
            let kept = λ (r₀ : Row) (h₀ : IsStored c r₀).
              subst
                (λ x.
                  (y : IsStored c (record r { created_at = x })) × (y.entry
                    ≡ stored c (record e { created_at = h₀.entry.created_at; updated_at = now })))
                (sym h₀.created)
                (row_of-IsStored c k
                  (record e { created_at = h₀.entry.created_at; updated_at = now })
                  (later-IsStorable now h₀.entry.created_at e h) v p g m lv lp lg lm) in
            let f₀ = λ (x : MemoryEntry N).
              stored c (record e { created_at = x.created_at; updated_at = now }) in
            Follows-of (update now e) s _ _ _ (run_update_known now e r q s o written f)
              (spec_update_known now e old (view c s.memories) n)
              (record {
                connected = o;
                table = update_rows-IsTable c r f₀ kept s.memories t;
                same = fun_ext λ id. view-update_rows c r f₀ kept id s.memories old t n;
              })
      ]

  pub get-Follows :
      (now : ℕ) (id : String) (s : SqliteStore)
      → s.connected ≡ true
      → IsTable c s.memories
      → Follows (get now id) s
  unfolding run spec_run get_memory
  get-Follows now id s o t = elim (Option-cases (find_row id s.memories)) [
    | inl n ↦ (record { connected = o; table = t; same = refl }, ground arith)
    | inr (r, e) ↦
        let h = find_row-All c (IsStored c) id s.memories r t.stored_rows e in
        (record { connected = o; table = t; same = refl }, ground (arith, h.read))
  ]
