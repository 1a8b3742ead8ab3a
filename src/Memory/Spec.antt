-- ===== src/Memory/Spec.antt =====
-- What a store of memories promises, without rows and texts: a map from identifiers to entries, and
-- the outcome of each operation. How many entries a clean-up removes is left open.
use agdd.Prelude.{
  ℕ, ◌-◌, ◌*◌, String, Bool, true, false, ◌&&◌, Option, none, some, List, [], ◌∷◌, ltb, str_eq,
  if◌then◌else◌,
}
use agdd.Result.{Result, ok, raise}
use agdd.Memory.Entry.{MemoryScope, MemoryEntry, MemoryError, already_exists, does_not_exist}
use agdd.Memory.Row.{Codec, scope_value}
use agdd.Memory.Sqlite.{
  SqliteStore, equals, scope_text, day, hide_expired, create_memory, get_memory, update_memory,
  delete_memory, expire_old_memories, vacuum,
}
use agdd.Memory.Roundtrip.{stored}

pub data Operation (N : Type 0) : Type 0 where
  create : MemoryEntry N → Operation N
  get : ℕ → String → Operation N
  update : ℕ → MemoryEntry N → Operation N
  delete : String → Operation N
  expire : ℕ → Operation N
  clean : ℕ → Option MemoryScope → ℕ → Bool → Operation N

pub data Outcome (N : Type 0) : Type 0 where
  done counted : Outcome N
  refused : MemoryError → Outcome N
  found : Option (MemoryEntry N) → Outcome N
  answered : Bool → Outcome N

module _ {N : Type 0} (c : Codec N) where
  abbrev unit_outcome : Result MemoryError (Unit {0}) → Outcome N
  unit_outcome (ok _) = done
  unit_outcome (raise error) = refused error

  abbrev found_outcome : Result MemoryError (Option (MemoryEntry N)) → Outcome N
  found_outcome (ok e) = found e
  found_outcome (raise error) = refused error

  abbrev bool_outcome : Result MemoryError Bool → Outcome N
  bool_outcome (ok b) = answered b
  bool_outcome (raise error) = refused error

  abbrev count_outcome : {A : Type 0} → Result MemoryError A → Outcome N
  count_outcome (ok _) = counted
  count_outcome (raise error) = refused error

  -- An operation of the store on SQLite.
  unfoldable pub run : Operation N → SqliteStore → SqliteStore × Outcome N
  run (create e) s = let (s', r) = create_memory c e s in (s', unit_outcome r)
  run (get now id) s = (s, found_outcome (get_memory c now id s))
  run (update now e) s = let (s', r) = update_memory c now e s in (s', unit_outcome r)
  run (delete id) s = let (s', r) = delete_memory c id s in (s', bool_outcome r)
  run (expire now) s = let (s', r) = expire_old_memories c now s in (s', count_outcome r)
  run (clean now scope days dry_run) s =
      let (s', r) = vacuum c now scope days dry_run s in (s', count_outcome r)

  unfoldable pub run_all : List (Operation N) → SqliteStore → SqliteStore × List (Outcome N)
  run_all [] s = (s, [])
  run_all (op ∷ ops) s =
      let (s', out) = run op s in let (s'', outs) = run_all ops s' in (s'', out ∷ outs)

  abbrev pub Memories : Type 0
  Memories = String → Option (MemoryEntry N)

  abbrev pub keep_if : (MemoryEntry N → Bool) → Option (MemoryEntry N) → Option (MemoryEntry N)
  keep_if test none = none
  keep_if test (some e) = if test e then some e else none

  abbrev pub is_old : ℕ → Option MemoryScope → MemoryEntry N → Bool
  is_old cutoff scope e = ltb e.created_at cutoff && equals (scope_text scope) (scope_value e.scope)

  abbrev pub drop_if : (MemoryEntry N → Bool) → Option (MemoryEntry N) → Option (MemoryEntry N)
  drop_if test none = none
  drop_if test (some e) = if test e then none else some e

  abbrev pub get_live : ℕ → Option (MemoryEntry N) → Option (MemoryEntry N)
  get_live now none = none
  get_live now (some e) = hide_expired c now e

  abbrev pub write : Memories → String → MemoryEntry N → Memories
  write m id e = λ j. if str_eq id j then some e else m j

  -- The operation on the map.
  unfoldable pub spec_run : Operation N → Memories → Memories × Outcome N
  spec_run (create e) m = elim (m e.memory_id) [
    | some _ ↦ (m, refused (already_exists e.memory_id))
    | none ↦ (write m e.memory_id (stored c e), done)
  ]
  spec_run (get now id) m = (m, found (get_live now (m id)))
  spec_run (update now e) m = elim (m e.memory_id) [
    | none ↦ (m, refused (does_not_exist e.memory_id))
    | some old ↦ (
      write m e.memory_id (stored c (record e { created_at = old.created_at; updated_at = now })),
      done,
    )
  ]
  spec_run (delete id) m = (
    (λ j. if str_eq id j then none else m j),
    answered (elim (m id) [ none ↦ false | some _ ↦ true ]),
  )
  spec_run (expire now) m = ((λ j. get_live now (m j)), counted)
  spec_run (clean now scope days dry_run) m =
      ((if dry_run then m else λ j. drop_if (is_old (now - days * day) scope) (m j)), counted)

  unfoldable pub spec_run_all : List (Operation N) → Memories → Memories × List (Outcome N)
  spec_run_all [] m = (m, [])
  spec_run_all (op ∷ ops) m =
      let (m', out) = spec_run op m in let (m'', outs) = spec_run_all ops m' in (m'', out ∷ outs)
