-- ===== src/Memory/Sqlite.antt =====
-- `SQLiteMemoryStore`, src/magsag/storage/memory_store.py, on the table of memories in the order of
-- its rows. Each method runs its SQL statement by itself. The matches of the full-text index, in the
-- order of their rank, are the argument `matching`.
use agdd.Prelude.{
  ℕ, ◌-◌, ◌*◌, String, Bool, true, false, not, ◌&&◌, ◌||◌, Option, none, some, List, [], ◌∷◌, ◌++◌,
  ltb, ◌==◌, length, str_eq, if◌then◌else◌,
}
use agdd.Text.{codes, text_leb, lower}
use agdd.Result.{Result, ok, raise, ◌>>=◌}
use agdd.Memory.Entry.{
  MemoryScope, MemoryEntry, MemoryError, not_initialized, not_implemented, already_exists,
  does_not_exist, is_expired,
}
use agdd.Memory.Row.{Codec, Row, scope_value, entry_to_row, row_to_entry}

pub record SqliteStore : Type 0 where
  pub connected : Bool
  pub enable_fts : Bool
  pub memories : List Row

-- SELECT * FROM memories WHERE memory_id = ?
unfoldable pub find_row : String → List Row → Option Row
find_row id [] = none
find_row id (r ∷ rows) =
    let rest = find_row id rows in if str_eq r.memory_id id then some r else rest

-- SELECT * … WHERE test
unfoldable pub select : (Row → Bool) → List Row → List Row
select test [] = []
select test (r ∷ rows) = let rest = select test rows in if test r then r ∷ rest else rest

-- DELETE … WHERE test
unfoldable pub delete_rows : (Row → Bool) → List Row → List Row
delete_rows test [] = []
delete_rows test (r ∷ rows) = let rest = delete_rows test rows in if test r then rest else r ∷ rest

-- UPDATE memories SET … WHERE memory_id = ?: all columns but the identifier and `created_at`.
unfoldable pub update_rows : Row → List Row → List Row
update_rows new [] = []
update_rows new (r ∷ rows) =
    (if str_eq r.memory_id new.memory_id then record new { created_at = r.created_at } else r)
    ∷ update_rows new rows

-- `text LIKE pattern`: `%` stands for any text and `_` for any character, and ASCII letters match in
-- either case.
unfoldable pub like_codes : List ℕ → List ℕ → Bool
like_codes [] [] = true
like_codes [] (d ∷ t) = false
like_codes (c ∷ p) [] = (c == b'%') && like_codes p []
like_codes (c ∷ p) (d ∷ t) =
    let any_text = like_codes p (d ∷ t) || like_codes (c ∷ p) t in
    let one = like_codes p t in if c == b'%' then any_text else (c == b'_' || c == d) && one

unfoldable pub like : List ℕ → List ℕ → Bool
unfolding like_codes lower
like pattern text = like_codes (lower pattern) (lower text)

-- `%"tag"%`
abbrev pub tag_pattern : String → List ℕ
tag_pattern tag = codes "%\"" ++ (codes tag ++ codes "\"%")

unfoldable pub has_tags : List String → String → Bool
unfolding like
has_tags [] text = true
has_tags (tag ∷ tags) text = like (tag_pattern tag) (codes text) && has_tags tags text

-- `a < b` on texts, in SQL.
abbrev pub text_lt : String → String → Bool
text_lt a b = not (text_leb (codes b) (codes a))

abbrev pub equals : Option String → String → Bool
equals none t = true
equals (some s) t = str_eq t s

-- A column that may be NULL equals nothing then.
abbrev pub equals_column : Option String → Option String → Bool
equals_column none t = true
equals_column (some s) none = false
equals_column (some s) (some t) = str_eq t s

abbrev pub scope_text : Option MemoryScope → Option String
scope_text none = none
scope_text (some s) = some (scope_value s)

-- expires_at IS NULL OR expires_at > now
abbrev pub is_live_at : String → Row → Bool
is_live_at now r = elim r.expires_at [ none ↦ true | some t ↦ text_lt now t ]

pub record Filters : Type 0 where
  pub scope : Option MemoryScope
  pub agent_slug : Option String
  pub run_id : Option String
  pub key : Option String
  pub tags : List String
  pub include_expired : Bool

unfoldable pub matches : String → Filters → Row → Bool
matches now f r =
    equals (scope_text f.scope) r.scope
    && (equals f.agent_slug r.agent_slug
        && (equals_column f.run_id r.run_id
            && (equals f.key r.key
                && ((f.include_expired || is_live_at now r) && has_tags f.tags r.tags))))

-- ORDER BY created_at DESC
unfoldable pub insert_newest : Row → List Row → List Row
insert_newest r [] = r ∷ []
insert_newest r (s ∷ rows) =
    let rest = insert_newest r rows in
    if text_leb (codes s.created_at) (codes r.created_at) then r ∷ s ∷ rows else s ∷ rest

unfoldable pub order_newest : List Row → List Row
order_newest [] = []
order_newest (r ∷ rows) = insert_newest r (order_newest rows)

-- LIMIT n OFFSET k
unfoldable pub limit_offset : ℕ → ℕ → List Row → List Row
limit_offset n k [] = []
limit_offset n k (r ∷ rows) =
    let skipped = limit_offset n (k - 1) rows in
    let taken = limit_offset (n - 1) 0 rows in
    if k == 0 then (if n == 0 then [] else r ∷ taken) else skipped

abbrev pub day : ℕ
day = 24 * 3600 * 1000000

pub record VacuumReport : Type 0 where
  pub deleted_count : ℕ
  pub would_delete_count : ℕ

module _ {N : Type 0} (c : Codec N) where
  unfoldable pub initialize : SqliteStore → SqliteStore
  initialize s = record s { connected = true }

  unfoldable pub close : SqliteStore → SqliteStore
  close s = record s { connected = false }

  unfoldable pub insert_row :
      MemoryEntry N → SqliteStore → SqliteStore × Result MemoryError (Unit {0})
  insert_row e s = elim (entry_to_row c e) [
    | raise error ↦ (s, raise error)
    | ok r ↦ elim (find_row r.memory_id s.memories) [
      | some _ ↦ (s, raise (already_exists e.memory_id))
      | none ↦ (record s { memories = s.memories ++ (r ∷ []) }, ok tt)
    ]
  ]

  unfoldable pub create_memory :
      MemoryEntry N → SqliteStore → SqliteStore × Result MemoryError (Unit {0})
  create_memory e s = if s.connected then insert_row e s else (s, raise not_initialized)

  abbrev pub hide_expired : ℕ → MemoryEntry N → Option (MemoryEntry N)
  hide_expired now e = if is_expired now e then none else some e

  unfoldable pub get_memory : ℕ → String → SqliteStore → Result MemoryError (Option (MemoryEntry N))
  get_memory now id s =
      if s.connected
      then elim (find_row id s.memories) [
        | none ↦ ok none
        | some r ↦ row_to_entry c r >>= λ e. ok (hide_expired now e)
      ]
      else raise not_initialized

  unfoldable pub change_row :
      MemoryEntry N → SqliteStore → SqliteStore × Result MemoryError (Unit {0})
  change_row e s = elim (entry_to_row c e) [
    | raise error ↦ (s, raise error)
    | ok r ↦ elim (find_row e.memory_id s.memories) [
      | none ↦ (s, raise (does_not_exist e.memory_id))
      | some _ ↦ (record s { memories = update_rows r s.memories }, ok tt)
    ]
  ]

  unfoldable pub update_memory :
      ℕ → MemoryEntry N → SqliteStore → SqliteStore × Result MemoryError (Unit {0})
  update_memory now e s =
      if s.connected
      then change_row (record e { updated_at = now }) s
      else (s, raise not_initialized)

  unfoldable pub delete_memory : String → SqliteStore → SqliteStore × Result MemoryError Bool
  delete_memory id s =
      if s.connected
      then (
        record s { memories = delete_rows (λ r. str_eq r.memory_id id) s.memories },
        ok (elim (find_row id s.memories) [ none ↦ false | some _ ↦ true ]),
      )
      else (s, raise not_initialized)

  unfoldable pub entries_of : List Row → Result MemoryError (List (MemoryEntry N))
  entries_of [] = ok []
  entries_of (r ∷ rows) = row_to_entry c r >>= λ e. entries_of rows >>= λ es. ok (e ∷ es)

  unfoldable pub list_memories :
      ℕ → Filters → ℕ → ℕ → SqliteStore → Result MemoryError (List (MemoryEntry N))
  list_memories now f limit offset s =
      if s.connected
      then entries_of (
          limit_offset limit offset
            (order_newest (select (matches (c.isoformat now) f) s.memories)))
      else raise not_initialized

  unfoldable pub search_memories :
      (String → List Row → List Row)
      → ℕ
      → String
      → Option MemoryScope
      → Option String
      → ℕ
      → SqliteStore
      → Result MemoryError (List (MemoryEntry N))
  search_memories matching now query scope agent_slug limit s =
      if s.connected
      then (if s.enable_fts
          then entries_of (
              limit_offset limit 0 (
                select
                  (λ r.
                    equals (scope_text scope) r.scope
                    && (equals agent_slug r.agent_slug && is_live_at (c.isoformat now) r))
                  (matching query s.memories)))
          else raise not_implemented)
      else raise not_initialized

  -- expires_at IS NOT NULL AND expires_at <= now
  abbrev pub is_over_at : String → Row → Bool
  is_over_at now r = elim r.expires_at [ none ↦ false | some t ↦ text_leb (codes t) (codes now) ]

  unfoldable pub expire_old_memories : ℕ → SqliteStore → SqliteStore × Result MemoryError ℕ
  expire_old_memories now s =
      if s.connected
      then (
        record s { memories = delete_rows (is_over_at (c.isoformat now)) s.memories },
        ok (length (select (is_over_at (c.isoformat now)) s.memories)),
      )
      else (s, raise not_initialized)

  abbrev pub is_older : String → Option MemoryScope → Row → Bool
  is_older cutoff scope r = text_lt r.created_at cutoff && equals (scope_text scope) r.scope

  unfoldable pub vacuum :
      ℕ
      → Option MemoryScope
      → ℕ
      → Bool
      → SqliteStore
      → SqliteStore × Result MemoryError VacuumReport
  vacuum now scope older_than_days dry_run s =
      let old = is_older (c.isoformat (now - older_than_days * day)) scope in
      let count = length (select old s.memories) in
      if s.connected
      then (
        if not dry_run && ltb 0 count
            then record s { memories = delete_rows old s.memories }
            else s,
        ok (record {
          deleted_count = if dry_run then 0 else count;
          would_delete_count = if dry_run then count else 0;
        }),
      )
      else (s, raise not_initialized)
