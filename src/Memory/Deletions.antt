-- ===== src/Memory/Deletions.antt =====
-- `delete_memory`, `expire_old_memories` and `vacuum` on SQLite do what they promise of a map.
use mathlib.Core.Path.{fun_ext}
use agdd.Prelude.{
  ℕ, ◌-◌, ◌*◌, String, Bool, true, false, ◌≡◌, refl, sym, ap, ◌∙◌, Option, none, some, List, [],
  ◌∷◌, arith, ltb, length, str_eq, eq_iff, if◌then◌else◌, Option-cases, inl, inr,
}
use agdd.Memory.Entry.{MemoryScope, MemoryEntry, is_expired}
use agdd.Memory.Row.{Codec, Row}
use agdd.Memory.Sqlite.{
  SqliteStore, select, delete_rows, delete_memory, expire_old_memories, vacuum, is_over_at,
  is_older, day,
}
use agdd.Memory.Roundtrip.{IsClock}
use agdd.Memory.Rows.{find_row_id}
use agdd.Memory.Table.{
  IsStored, IsTable, view, view-delete_rows, delete_rows-IsTable, find_row-All, find_row-view-none,
  find_row-view-some,
}
use agdd.Memory.Spec.{
  delete, expire, clean, counted, answered, run, spec_run, get_live, drop_if, is_old,
}
use agdd.Memory.Refine.{Follows, Follows-of}

module _ {N : Type 0} (c : Codec N) (k : IsClock c) where
  view_id :
      (id : String) (rows : List Row) (e : MemoryEntry N)
      → IsTable c rows
      → view c rows id ≡ some e
      → e.memory_id ≡ id
  view_id id rows e t v =
      let (r, f) = find_row-view-some c id rows e v in
      let h = find_row-All c (IsStored c) id rows r t.stored_rows f in
      let same : some h.entry ≡ some e = ground (arith, h.read) in
      ground (arith, same, h.same_id, find_row_id id rows r f)

  dropped :
      (id j : String) (rows : List Row)
      → IsTable c rows
      → drop_if c (λ e. str_eq e.memory_id id) (view c rows j)
        ≡ (if str_eq id j then none else view c rows j)
  dropped id j rows t = elim (Option-cases (view c rows j)) [
    | inl n ↦ ground (arith, n)
    | inr (e, f) ↦ ground (arith, f, view_id j rows e t f, eq_iff e.memory_id id, eq_iff id j)
  ]

  run_delete :
      (id : String) (s : SqliteStore)
      → s.connected ≡ true
      → IsTable c s.memories
      → run c (delete id) s ≡ (
        record s { memories = delete_rows (λ r. str_eq r.memory_id id) s.memories },
        answered (elim (view c s.memories id) [ none ↦ false | some _ ↦ true ]),
      )
  unfolding run delete_memory
  run_delete id s o t = elim (Option-cases (view c s.memories id)) [
    | inl n ↦ ground (arith, n, find_row-view-none c id s.memories t n)
    | inr (e, n) ↦ let (r, f) = find_row-view-some c id s.memories e n in ground (arith, n, f)
  ]

  pub delete-Follows :
      (id : String) (s : SqliteStore)
      → s.connected ≡ true
      → IsTable c s.memories
      → Follows c k (delete id) s
  unfolding spec_run
  delete-Follows id s o t =
      Follows-of c k (delete id) s
        (record s { memories = delete_rows (λ r. str_eq r.memory_id id) s.memories }) _ _
        (run_delete id s o t) refl
        (record {
          connected = o;
          table = delete_rows-IsTable c (λ r. str_eq r.memory_id id) s.memories t;
          same = fun_ext λ j.
              view-delete_rows c (λ r. str_eq r.memory_id id) (λ e. str_eq e.memory_id id)
                s.memories t (λ r h. ap (λ x. str_eq x id) (sym h.same_id)) j
              ∙ dropped id j s.memories t;
        })

  over_is_expired :
      (now : ℕ) (r : Row) (h : IsStored c r)
      → is_over_at c (c.isoformat now) r ≡ is_expired now h.entry
  unfolding is_expired
  over_is_expired now r h = elim (Option-cases h.entry.expires_at) [
    | inl n ↦ ground (arith, h.expires)
    | inr (x, e) ↦ ground (arith, h.expires, k.in_order x now)
  ]

  old_is_old :
      (cutoff : ℕ) (scope : Option MemoryScope) (r : Row) (h : IsStored c r)
      → is_older c (c.isoformat cutoff) scope r ≡ is_old c cutoff scope h.entry
  old_is_old cutoff scope r h =
      ground (arith, h.created, h.scope, k.in_order cutoff h.entry.created_at)

  run_expire :
      (now : ℕ) (s : SqliteStore)
      → s.connected ≡ true
      → run c (expire now) s
        ≡ (record s { memories = delete_rows (is_over_at c (c.isoformat now)) s.memories }, counted)
  unfolding run expire_old_memories
  run_expire now s o = ground arith

  live_is_kept :
      (now : ℕ) (o : Option (MemoryEntry N)) → drop_if c (is_expired now) o ≡ get_live c now o
  live_is_kept now none = refl
  live_is_kept now (some e) = refl

  pub expire-Follows :
      (now : ℕ) (s : SqliteStore)
      → s.connected ≡ true
      → IsTable c s.memories
      → Follows c k (expire now) s
  unfolding spec_run
  expire-Follows now s o t = Follows-of c k (expire now) s _ _ _ (run_expire now s o) refl (record {
    connected = o;
    table = delete_rows-IsTable c (is_over_at c (c.isoformat now)) s.memories t;
    same = fun_ext λ j.
        view-delete_rows c (is_over_at c (c.isoformat now)) (is_expired now) s.memories t
          (over_is_expired now) j
        ∙ live_is_kept now (view c s.memories j);
  })

  delete_nothing :
      (test : Row → Bool) (rows : List Row)
      → ltb 0 (length (select test rows)) ≡ false
      → delete_rows test rows ≡ rows
  unfolding select delete_rows
  delete_nothing test [] h = refl
  delete_nothing test (q ∷ rows) h = ground (arith, delete_nothing test rows)

  abbrev old_rows : ℕ → Option MemoryScope → ℕ → Row → Bool
  old_rows now scope days = is_older c (c.isoformat (now - days * day)) scope

  run_clean :
      (now : ℕ) (scope : Option MemoryScope) (days : ℕ) (dry_run : Bool) (s : SqliteStore)
      → s.connected ≡ true
      → run c (clean now scope days dry_run) s ≡ (
        if dry_run
            then s
            else record s { memories = delete_rows (old_rows now scope days) s.memories },
        counted,
      )
  unfolding run vacuum
  run_clean now scope days dry_run s o =
      ground (arith, delete_nothing (old_rows now scope days) s.memories)

  pub clean-Follows :
      (now : ℕ) (scope : Option MemoryScope) (days : ℕ) (dry_run : Bool) (s : SqliteStore)
      → s.connected ≡ true
      → IsTable c s.memories
      → Follows c k (clean now scope days dry_run) s
  unfolding spec_run
  clean-Follows now scope days true s o t =
      Follows-of c k (clean now scope days true) s _ _ _ (run_clean now scope days true s o) refl
        (record { connected = o; table = t; same = refl })
  clean-Follows now scope days false s o t =
      Follows-of c k (clean now scope days false) s _ _ _ (run_clean now scope days false s o) refl
        (record {
          connected = o;
          table = delete_rows-IsTable c (old_rows now scope days) s.memories t;
          same = fun_ext λ j.
              view-delete_rows c (old_rows now scope days) (is_old c (now - days * day) scope)
                s.memories t (old_is_old (now - days * day) scope) j;
        })
