-- ===== src/Storage/Listing.antt =====
-- The listing of runs and events and the text search in the SQLite backend,
-- src/magsag/storage/backends/sqlite.py. The full-text index is the test `matching`.
use agdd.Prelude.{
  ℕ, String, Bool, true, false, ◌&&◌, Option, none, some, List, ◌==◌, str_eq, if◌then◌else◌, map,
}
use agdd.Result.{Result, ok, raise}
use agdd.Value.{Value}
use agdd.Storage.Tables.{
  Codec, RunRow, EventRow, SqliteBackend, StorageError, no_search, with_connection, keep, ascending,
  descending, limit_offset, given_equals, given_equals_column, not_before, before, map_option,
}
use agdd.Storage.Runs.{RunInfo, run_info}

pub record EventInfo : Type 0 where
  pub row : EventRow
  pub payload : Value

-- The filters of `list_runs`.
pub record RunFilters : Type 0 where
  pub agent_slug : Option String
  pub status : Option String
  pub since : Option ℕ
  pub until : Option ℕ

module _ (c : Codec) where
  unfoldable pub run_matches : RunFilters → RunRow → Bool
  run_matches f r =
      given_equals f.agent_slug r.agent_slug
      && (given_equals f.status r.status
          && (not_before (map_option c.isoformat f.since) r.started_at
              && before (map_option c.isoformat f.until) r.started_at))

  unfoldable pub list_runs :
      RunFilters → ℕ → ℕ → SqliteBackend → SqliteBackend × Result StorageError (List RunInfo)
  unfolding run_matches run_info descending limit_offset keep
  list_runs f limit offset = with_connection (λ d. (
    d,
    ok (
        map (run_info c) (
          limit_offset limit offset
            (descending (λ r. r.started_at) (keep (run_matches f) d.runs)))),
  ))

  -- `if limit: … LIMIT ?`
  abbrev limited : {A : Type 0} → Option ℕ → List A → List A
  limited none l = l
  limited (some n) l = if n == 0 then l else limit_offset n 0 l

  unfoldable pub event_info : EventRow → EventInfo
  event_info e = record { row = e; payload = c.loads e.payload }

  unfoldable pub get_events :
      String
      → Option String
      → Option String
      → Option ℕ
      → SqliteBackend
      → SqliteBackend × Result StorageError (List EventInfo)
  unfolding event_info ascending limit_offset keep
  get_events run_id event_type level limit = with_connection (λ d. (
    d,
    ok (
        map event_info (
          limited limit (
            ascending (λ e. e.ts)
              (keep
                (λ e.
                  str_eq e.run_id run_id
                  && (given_equals event_type e.event_type && given_equals_column level e.level))
                d.events)))),
  ))

  unfoldable pub search_text :
      (EventRow → Bool)
      → Option String
      → Option ℕ
      → ℕ
      → SqliteBackend
      → SqliteBackend × Result StorageError (List EventInfo)
  unfolding event_info descending limit_offset keep
  search_text matching agent_slug since limit s =
      with_connection
        (λ d. elim s.enable_fts [
          | false ↦ (d, raise no_search)
          | true ↦ (
            d,
            ok (
                map event_info (
                  limit_offset limit 0 (
                    descending (λ e. e.ts)
                      (keep
                        (λ e.
                          matching e
                          && (given_equals agent_slug e.agent_slug
                              && not_before (map_option c.isoformat since) e.ts))
                        d.events)))),
          )
        ])
        s
