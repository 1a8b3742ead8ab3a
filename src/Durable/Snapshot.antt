-- ===== src/Durable/Snapshot.antt =====
-- Snapshots of runs, and the parts of `SnapshotStore` that do not touch the storage,
-- src/magsag/runners/durable.py. A stored record has the six fields of a snapshot, so both are one
-- type here.
use Prim.Native.String.{◌++◌ as append}
use agdd.Prelude.{
  ℕ, String, true, false, Option, none, some, List, [], ◌∷◌, leb, if◌then◌else◌, str_eq, get_or,
}
use agdd.Dict
use agdd.Dict.{Dict}
use agdd.Value.{Items, Fields, str, list, nil, cons}
use agdd.Value.Equality.{get_field}
use agdd.Approval.Gate.{first_text}

pub record Snapshot : Type 0 where
  pub snapshot_id : String
  pub run_id : String
  pub step_id : String
  pub created_at : ℕ
  pub state : Fields
  pub metadata : Fields

pub record RunEvent : Type 0 where
  pub run_id : String
  pub agent_slug : String
  pub event_type : String
  pub timestamp : ℕ
  pub payload : Fields

-- f"{run_id}:{step_id}"
unfoldable pub snapshot_key : String → String → String
snapshot_key run_id step_id = append run_id (append ":" step_id)

unfoldable pub extract_agent_slug : Fields → String
unfolding first_text
extract_agent_slug metadata =
    get_or (first_text ("agent_slug" ∷ "agent" ∷ "slug" ∷ "agent_id" ∷ []) metadata) "unknown"

unfoldable pub extract_parent : Fields → Option String
unfolding first_text
extract_parent metadata = first_text ("parent_run_id" ∷ "parent" ∷ []) metadata

-- The tags that are texts with a character.
unfoldable pub clean_tags : Items → List String
clean_tags nil = []
clean_tags (cons v xs) = elim v [
  | str s ↦ if str_eq s "" then clean_tags xs else s ∷ clean_tags xs
  | _ ↦ clean_tags xs
]

abbrev nonempty_list : List String → Option (List String)
nonempty_list [] = none
nonempty_list (s ∷ l) = some (s ∷ l)

unfoldable pub extract_clean_tags : Fields → Option (List String)
unfolding clean_tags get_field
extract_clean_tags metadata = elim (get_field "tags" metadata) [
  | none ↦ none
  | some v ↦ elim v [ list xs ↦ nonempty_list (clean_tags xs) | _ ↦ none ]
]

-- The snapshots of one run, in the order of the dict.
unfoldable pub of_run : String → List (String × Snapshot) → List Snapshot
of_run run_id [] = []
of_run run_id ((_, s) ∷ l) =
    let rest = of_run run_id l in if str_eq s.run_id run_id then s ∷ rest else rest

-- `max(..., key=created_at)`: the first of the greatest.
unfoldable pub latest : Snapshot → List Snapshot → Snapshot
latest best [] = best
latest best (s ∷ l) = elim (leb s.created_at best.created_at) [
  | true ↦ latest best l
  | false ↦ latest s l
]

-- `sort(key=created_at)`, which is stable.
unfoldable pub insert_by_time : Snapshot → List Snapshot → List Snapshot
insert_by_time s [] = s ∷ []
insert_by_time s (t ∷ l) =
    let rest = insert_by_time s l in if leb s.created_at t.created_at then s ∷ t ∷ l else t ∷ rest

unfoldable pub sort_by_time : List Snapshot → List Snapshot
unfolding insert_by_time
sort_by_time [] = []
sort_by_time (s ∷ l) = insert_by_time s (sort_by_time l)

-- `for record in records: if key not in self._snapshots: ...`
unfoldable pub add_missing : List Snapshot → Dict Snapshot → Dict Snapshot
unfolding snapshot_key
add_missing [] d = d
add_missing (r ∷ rs) d =
    let key = snapshot_key r.run_id r.step_id in
    add_missing rs (elim (Dict.get d key) [ none ↦ Dict.put d key r | some _ ↦ d ])

unfoldable pub remove_all : List String → Dict Snapshot → Dict Snapshot
remove_all [] d = d
remove_all (k ∷ ks) d = remove_all ks (Dict.remove d k)

unfoldable pub keys_of_run : String → List (String × Snapshot) → List String
keys_of_run run_id [] = []
keys_of_run run_id ((k, s) ∷ l) =
    let rest = keys_of_run run_id l in if str_eq s.run_id run_id then k ∷ rest else rest
