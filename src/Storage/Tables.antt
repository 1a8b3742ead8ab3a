-- ===== src/Storage/Tables.antt =====
-- The tables of the SQLite backend, src/magsag/storage/backends/sqlite.py, in the order of their rows,
-- and the SQL that its statements share. JSON, `isoformat` and the `datetime` of SQLite are the
-- parameter `Codec`.
use agdd.Prelude.{
  ℕ, ◌-◌, String, Bool, true, false, not, ◌||◌, Option, none, some, List, [], ◌∷◌, ◌==◌, str_eq,
  if◌then◌else◌,
}
use agdd.Text.{codes, text_leb}
use agdd.Result.{Result, ok, raise}
use agdd.Value.{Value}

pub record Codec : Type 0 where
  -- json.dumps, `none` for a TypeError.
  pub dumps : Value → Option String
  pub loads : String → Value
  pub isoformat : ℕ → String
  pub fromisoformat : String → ℕ
  pub datetime : String → String

pub record RunRow : Type 0 where
  pub run_id : String
  pub agent_slug : String
  pub parent_run_id : Option String
  pub started_at : String
  pub ended_at : Option String
  pub status : String
  pub metrics : String
  pub tags : String

pub record EventRow : Type 0 where
  pub ts : String
  pub run_id : String
  pub agent_slug : String
  pub event_type : String
  pub level : Option String
  pub msg : Option String
  pub payload : String
  pub span_id : Option String
  pub parent_span_id : Option String
  pub contract_id : Option String
  pub contract_version : Option String
  pub artifact_uri : Option String

pub record ApprovalRow : Type 0 where
  pub ticket_id : String
  pub run_id : String
  pub agent_slug : String
  pub tool_name : String
  pub tool_args : String
  pub args_hash : String
  pub step_id : Option String
  pub requested_at : String
  pub expires_at : String
  pub status : String
  pub resolved_at : Option String
  pub resolved_by : Option String
  pub decision_reason : Option String
  pub response : Option String
  pub metadata : String

pub record SnapshotRow : Type 0 where
  pub snapshot_id : String
  pub run_id : String
  pub step_id : String
  pub created_at : String
  pub state : String
  pub metadata : String

pub record Database : Type 0 where
  pub runs : List RunRow
  pub events : List EventRow
  pub approvals : List ApprovalRow
  pub snapshots : List SnapshotRow

pub record SqliteBackend : Type 0 where
  pub connected : Bool
  pub enable_fts : Bool
  pub database : Database

pub data StorageError : Type 0 where
  not_initialized integrity_error json_type_error not_a_record no_search : StorageError

-- A method: it fails where there is no connection.
unfoldable pub with_connection :
    {A : Type 0}
    → (Database → Database × Result StorageError A)
    → SqliteBackend
    → SqliteBackend × Result StorageError A
with_connection f s = elim s.connected [
  | false ↦ (s, raise not_initialized)
  | true ↦ let (d, answer) = f s.database in (record s { database = d }, answer)
]

unfoldable pub initialize : SqliteBackend → SqliteBackend
initialize s = record s { connected = true }

unfoldable pub close : SqliteBackend → SqliteBackend
close s = record s { connected = false }

-- SELECT * … WHERE test
unfoldable pub keep : {A : Type 0} → (A → Bool) → List A → List A
keep test [] = []
keep test (x ∷ l) = let rest = keep test l in if test x then x ∷ rest else rest

-- ORDER BY a text: the least first, and equal ones in the order in which they come.
unfoldable pub insert_ascending : {A : Type 0} → (A → String) → A → List A → List A
insert_ascending key x [] = x ∷ []
insert_ascending key x (y ∷ l) =
    let rest = insert_ascending key x l in
    if text_leb (codes (key x)) (codes (key y)) then x ∷ y ∷ l else y ∷ rest

unfoldable pub ascending : {A : Type 0} → (A → String) → List A → List A
unfolding insert_ascending
ascending key [] = []
ascending key (x ∷ l) = insert_ascending key x (ascending key l)

unfoldable pub insert_descending : {A : Type 0} → (A → String) → A → List A → List A
insert_descending key x [] = x ∷ []
insert_descending key x (y ∷ l) =
    let rest = insert_descending key x l in
    if text_leb (codes (key y)) (codes (key x)) then x ∷ y ∷ l else y ∷ rest

unfoldable pub descending : {A : Type 0} → (A → String) → List A → List A
unfolding insert_descending
descending key [] = []
descending key (x ∷ l) = insert_descending key x (descending key l)

-- LIMIT n OFFSET k
unfoldable pub limit_offset : {A : Type 0} → ℕ → ℕ → List A → List A
limit_offset n k [] = []
limit_offset n k (x ∷ l) =
    let skipped = limit_offset n (k - 1) l in
    let taken = limit_offset (n - 1) 0 l in
    if k == 0 then (if n == 0 then [] else x ∷ taken) else skipped

-- `if value: … AND column = ?`
abbrev pub given_equals : Option String → String → Bool
given_equals none column = true
given_equals (some t) column = str_eq t "" || str_eq column t

abbrev pub given_equals_column : Option String → Option String → Bool
given_equals_column none column = true
given_equals_column (some t) none = str_eq t ""
given_equals_column (some t) (some u) = str_eq t "" || str_eq u t

-- `a < b` on texts, in SQL.
abbrev pub text_lt : String → String → Bool
text_lt a b = not (text_leb (codes b) (codes a))

abbrev pub not_before : Option String → String → Bool
not_before none column = true
not_before (some t) column = text_leb (codes t) (codes column)

abbrev pub before : Option String → String → Bool
before none column = true
before (some t) column = text_lt column t

-- The run that a foreign key refers to.
unfoldable pub has_run : String → List RunRow → Bool
has_run id [] = false
has_run id (r ∷ rows) = str_eq r.run_id id || has_run id rows

unfoldable pub find_run : String → List RunRow → Option RunRow
find_run id [] = none
find_run id (r ∷ rows) = let rest = find_run id rows in if str_eq r.run_id id then some r else rest

abbrev pub parent_known : RunRow → List RunRow → Bool
parent_known r rows = elim r.parent_run_id [ none ↦ true | some p ↦ has_run p rows ]

abbrev pub or_type_error : {A : Type 0} → Option A → Result StorageError A
or_type_error none = raise json_type_error
or_type_error (some a) = ok a

-- `f(x) if x else None`, for an optional column.
abbrev pub map_option : {A B : Type 0} → (A → B) → Option A → Option B
map_option f none = none
map_option f (some a) = some (f a)
