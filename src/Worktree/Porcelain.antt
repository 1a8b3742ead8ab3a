-- ===== src/Worktree/Porcelain.antt =====
-- `parse_porcelain_z` of src/magsag/worktree/git.py and `WorktreeInfo` of types.py. Texts are the codes
-- of their characters, and a path is its text.
use agdd.Prelude.{
  ℕ, zero, suc, Bool, true, false, ◌||◌, Option, none, some, List, [], ◌∷◌, ◌==◌, length,
  if◌then◌else◌, get_or,
}
use agdd.Text.{codes, starts_with, eq_codes}
use agdd.Result.{Result, ok, raise, ◌>>=◌}

abbrev pub Text : Type 0
Text = List ℕ

pub data WorktreeError : Type 0 where
  limit_error forbidden_error conflict_error not_found_error dirty_error value_error : WorktreeError
  git_error sha_error : WorktreeError

pub record WorktreeInfo : Type 0 where
  pub path : Text
  pub head : Option Text
  pub branch : Option Text
  pub git_dir : Option Text
  pub is_bare : Bool
  pub is_detached : Bool
  pub locked : Bool
  pub lock_reason : Option Text
  pub prunable : Bool
  pub prunable_reason : Option Text
  pub extras : List (Text × Text)

-- The text before the first such character, and the text after it.
unfoldable pub split_once : ℕ → Text → Text × Option Text
split_once c [] = ([], none)
split_once c (d ∷ s) =
    let (before, rest) = split_once c s in if d == c then ([], some s) else (d ∷ before, rest)

unfoldable pub drop : ℕ → Text → Text
drop n [] = []
drop zero s = s
drop (suc n) (c ∷ s) = drop n s

unfoldable pub remove_prefix : Text → Text → Text
unfolding drop
remove_prefix p s = if starts_with p s then drop (length p) s else s

unfoldable pub branch_short : WorktreeInfo → Option Text
unfolding remove_prefix
branch_short i = elim i.branch [
  | none ↦ none
  | some b ↦ some (remove_prefix (codes "refs/heads/") b)
]

-- The parts of `wt/<run>/<task>`.
abbrev run_of_branch : Text → Option Text
run_of_branch [] = none
run_of_branch (c ∷ s) =
    let (first, second) = split_once b'/' (c ∷ s) in
    elim second [
      | none ↦ none
      | some rest ↦ if eq_codes first (codes "wt") then some (split_once b'/' rest).0 else none
    ]

unfoldable pub info_run_id : WorktreeInfo → Option Text
unfolding branch_short split_once
info_run_id i = elim (branch_short i) [ none ↦ none | some b ↦ run_of_branch b ]

-- `payload.split(b"\0")`
unfoldable pub split_nul : Text → List Text
split_nul [] = [] ∷ []
split_nul (c ∷ s) =
    let rest = split_nul s in
    if c == 0 then [] ∷ rest else elim rest [ [] ↦ (c ∷ []) ∷ [] | w ∷ ws ↦ (c ∷ w) ∷ ws ]

-- What has been read of the current worktree, `data` and `extras`.
pub record Reading : Type 0 where
  pub path : Option Text
  pub head : Option Text
  pub branch : Option Text
  pub is_bare : Bool
  pub is_detached : Bool
  pub locked : Bool
  pub lock_reason : Option Text
  pub prunable : Bool
  pub prunable_reason : Option Text
  pub extras : List (Text × Text)

abbrev pub nothing_read : Reading
nothing_read = record {
  path = none;
  head = none;
  branch = none;
  is_bare = false;
  is_detached = false;
  locked = false;
  lock_reason = none;
  prunable = false;
  prunable_reason = none;
  extras = [];
}

abbrev pub is_given : Option Text → Bool
is_given none = false
is_given (some t) = true

-- `if data`: the extras are not part of it.
abbrev pub has_data : Reading → Bool
has_data r =
    is_given r.path
    || (is_given r.head
        || (is_given r.branch || (r.is_bare || (r.is_detached || (r.locked || r.prunable)))))

unfoldable pub get_extra : Text → List (Text × Text) → Option Text
get_extra k [] = none
get_extra k ((j, v) ∷ l) = if eq_codes j k then some v else get_extra k l

unfoldable pub put_extra : Text → Text → List (Text × Text) → List (Text × Text)
put_extra k v [] = (k, v) ∷ []
put_extra k v ((j, w) ∷ l) =
    let rest = put_extra k v l in if eq_codes j k then (j, v) ∷ l else (j, w) ∷ rest

unfoldable pub without_extra : Text → List (Text × Text) → List (Text × Text)
without_extra k [] = []
without_extra k ((j, w) ∷ l) =
    let rest = without_extra k l in if eq_codes j k then rest else (j, w) ∷ rest

unfoldable pub to_info : Reading → Result WorktreeError WorktreeInfo
unfolding get_extra without_extra
to_info r = elim r.path [
  | none ↦ raise value_error
  | some path ↦ ok (record {
    path = path;
    head = r.head;
    branch = r.branch;
    git_dir = get_extra (codes "gitdir") r.extras;
    is_bare = r.is_bare;
    is_detached = r.is_detached;
    locked = r.locked;
    lock_reason = r.lock_reason;
    prunable = r.prunable;
    prunable_reason = r.prunable_reason;
    extras = without_extra (codes "gitdir") r.extras;
  })
]

-- `entry.split(" ", 1)[1]`, for an entry with a space.
abbrev pub value_of : Text → Text
value_of s = get_or (split_once b' ' s).1 []

-- A reason, where the entry has a space; an earlier one stays.
abbrev pub reason_or : Text → Option Text → Option Text
reason_or s earlier = elim (split_once b' ' s).1 [ none ↦ earlier | some t ↦ some t ]

-- An entry that does not begin a worktree.
unfoldable pub read_entry : Text → Reading → Reading
unfolding split_once put_extra
read_entry s r =
    if starts_with (codes "HEAD ") s
    then record r { head = some (value_of s) }
    else if starts_with (codes "branch ") s
    then record r { branch = some (value_of s) }
    else if starts_with (codes "gitdir ") s
    then record r { extras = put_extra (codes "gitdir") (value_of s) r.extras }
    else if eq_codes s (codes "bare")
    then record r { is_bare = true }
    else if eq_codes s (codes "detached")
    then record r { is_detached = true }
    else if starts_with (codes "locked") s
    then record r { locked = true; lock_reason = reason_or s r.lock_reason }
    else if starts_with (codes "prunable") s
    then record r { prunable = true; prunable_reason = reason_or s r.prunable_reason }
    else record r { extras = put_extra (split_once b' ' s).0 (value_of s) r.extras }

abbrev pub finish : Reading → Result WorktreeError (List WorktreeInfo)
finish r = if has_data r then (to_info r >>= λ i. ok (i ∷ [])) else ok []

-- The loop over the entries.
unfoldable pub read_entries : List Text → Reading → Result WorktreeError (List WorktreeInfo)
unfolding read_entry split_once
read_entries [] r = finish r
read_entries (s ∷ entries) r =
    let same = read_entries entries r in
    let started = read_entries entries (record r { path = some (value_of s) }) in
    let next = read_entries entries (record nothing_read { path = some (value_of s) }) in
    let more = read_entries entries (read_entry s r) in
    if eq_codes s []
    then same
    else if starts_with (codes "worktree ") s
    then (if has_data r then (to_info r >>= λ i. next >>= λ rest. ok (i ∷ rest)) else started)
    else more

unfoldable pub parse_porcelain_z : Text → Result WorktreeError (List WorktreeInfo)
parse_porcelain_z [] = ok []
parse_porcelain_z (c ∷ s) = read_entries (split_nul (c ∷ s)) nothing_read
