-- ===== src/Worktree/Manager.antt =====
-- The helpers of `WorktreeManager`, src/magsag/worktree/manager.py.
use agdd.Prelude.{
  ℕ, suc, String, Bool, false, ◌&&◌, ◌||◌, Option, none, some, List, [], ◌∷◌, ◌++◌, leb, ◌==◌,
  if◌then◌else◌,
}
use agdd.Text.{codes, starts_with, eq_codes}
use agdd.Result.{Result, ok, raise}
use agdd.Worktree.Names.{is_space, strip}
use agdd.Worktree.Porcelain.{
  Text, WorktreeError, limit_error, forbidden_error, conflict_error, not_found_error, value_error,
  git_error, sha_error, WorktreeInfo, split_once, remove_prefix, branch_short, parse_porcelain_z,
}
use agdd.Worktree.World.{
  World, WorktreeSettings, WorktreeEvent, Step, ◌>>=◌, ◌>>◌, return, throw, from_result, refuse_if,
}
use agdd.Worktree.Resolve.{WorktreeRecord}

unfoldable pub text_in : Text → List Text → Bool
text_in t [] = false
text_in t (u ∷ us) = eq_codes u t || text_in t us

abbrev pub protected_branches : List Text
protected_branches = codes "main" ∷ []

abbrev pub is_protected : Text → Bool
is_protected t = text_in t protected_branches || starts_with (codes "release/") t

unfoldable pub normalize_base_ref : Text → Text
normalize_base_ref ref =
    let value =
      remove_prefix (codes "refs/remotes/")
        (remove_prefix (codes "refs/heads/") (strip is_space ref)) in
    let (first, second) = split_once b'/' value in
    elim second [
      | none ↦ value
      | some rest ↦ if text_in first (codes "origin" ∷ codes "upstream" ∷ []) then rest else value
    ]

unfoldable pub is_protected_base : Text → Bool
unfolding normalize_base_ref text_in
is_protected_base ref = is_protected (normalize_base_ref ref)

abbrev pub metadata_filename : String
metadata_filename = ".magsag-worktree.json"

abbrev drop_two : Text → Text
drop_two [] = []
drop_two (a ∷ []) = []
drop_two (a ∷ b ∷ s) = s

unfoldable pub is_metadata_entry : Text → Bool
is_metadata_entry line =
    let stripped = strip is_space line in
    starts_with (codes "??") stripped
    && eq_codes (remove_prefix (codes "./") (strip is_space (drop_two stripped)))
        (codes metadata_filename)

-- A line ends at any of the characters at which `splitlines` breaks; blank lines are left out later.
unfoldable pub is_line_break : ℕ → Bool
is_line_break c =
    (leb 10 c && leb c 13)
    || ((leb 28 c && leb c 30) || ((c == 133) || ((c == 8232) || (c == 8233))))

unfoldable pub lines : Text → List Text
lines [] = [] ∷ []
lines (c ∷ s) =
    let rest = lines s in
    if is_line_break c then [] ∷ rest else elim rest [ [] ↦ (c ∷ []) ∷ [] | w ∷ ws ↦ (c ∷ w) ∷ ws ]

-- The lines of `git status` that are no blank lines and not about the metadata.
unfoldable pub changes_in : List Text → List Text
changes_in [] = []
changes_in (w ∷ ws) =
    let rest = changes_in ws in
    if eq_codes (strip is_space w) [] || is_metadata_entry w then rest else w ∷ rest

unfoldable pub force_flags : List Text
force_flags = codes "1" ∷ codes "true" ∷ codes "yes" ∷ []

module _ {S : Type 0} (w : World S) (settings : WorktreeSettings) (repo_root : Text) where
  -- `git_run`, which raises for another exit code than 0.
  unfoldable pub git_run : List Text → Text → Step S Text
  git_run args cwd s =
      let (s', (code, output)) = w.git args cwd s in
      if code == 0 then (s', ok output) else (s', raise git_error)

  unfoldable pub records_of : List WorktreeInfo → S → Result WorktreeError (List WorktreeRecord)
  records_of [] s = ok []
  records_of (i ∷ infos) s = elim (w.load_metadata i.path s) [
    | raise error ↦ raise error
    | ok m ↦ elim (records_of infos s) [
      | raise error ↦ raise error
      | ok rest ↦ ok (record { info = i; metadata = m } ∷ rest)
    ]
  ]

  unfoldable pub list_records : Step S (List WorktreeRecord)
  list_records =
      git_run (codes "worktree" ∷ codes "list" ∷ codes "--porcelain" ∷ codes "-z" ∷ []) repo_root
      >>= λ output. from_result (parse_porcelain_z output) >>= λ infos. λ s. (s, records_of infos s)

  unfoldable pub filter_managed : S → List WorktreeRecord → List WorktreeRecord
  filter_managed s [] = []
  filter_managed s (r ∷ records) =
      let rest = filter_managed s records in
      if w.is_under (w.resolve r.info.path s) settings.root then r ∷ rest else rest

  unfoldable pub managed_records : Step S (List WorktreeRecord)
  managed_records = list_records >>= λ records. λ s. (s, ok (filter_managed s records))

  -- How many of the records have a directory.
  unfoldable pub count_active : S → List WorktreeRecord → ℕ
  count_active s [] = 0
  count_active s (r ∷ records) =
      let rest = count_active s records in if w.exists r.info.path s then suc rest else rest

  unfoldable pub enforce_concurrency_limit : Step S (Unit {0})
  enforce_concurrency_limit = managed_records >>= λ managed.
      λ s. refuse_if (leb settings.max_concurrency (count_active s managed)) limit_error s

  unfoldable pub short_sha : Text → Step S Text
  short_sha ref = git_run (codes "rev-parse" ∷ codes "--short" ∷ ref ∷ []) repo_root >>= λ output.
      elim (strip is_space output) [ [] ↦ throw sha_error | c ∷ t ↦ return (c ∷ t) ]

  unfoldable pub ensure_within_root : Text → Step S Text
  ensure_within_root path s =
      let resolved = w.resolve (w.join settings.root path) s in
      if w.is_under resolved settings.root then (s, ok resolved) else (s, raise value_error)

  unfoldable pub uses_branch : Text → List WorktreeRecord → Bool
  uses_branch branch [] = false
  uses_branch branch (r ∷ records) =
      elim (branch_short r.info) [ none ↦ false | some b ↦ eq_codes b branch ]
      || uses_branch branch records

  -- `git_run(…, check=False)`
  unfoldable pub branch_exists : Text → Step S Bool
  branch_exists branch s =
      let (s', (code, output)) =
        w.git
          (codes "show-ref"
            ∷ codes "--verify"
            ∷ codes "--quiet"
            ∷ (codes "refs/heads/" ++ branch)
            ∷ [])
          repo_root s in
      (s', ok (code == 0))

  unfoldable pub ensure_branch_available : Text → Step S (Unit {0})
  ensure_branch_available branch =
      refuse_if (is_protected branch) forbidden_error
      >> (branch_exists branch >>= λ there.
          refuse_if there conflict_error
          >> (list_records >>= λ records. refuse_if (uses_branch branch records) conflict_error))

  unfoldable pub find_path : Text → S → List WorktreeRecord → Option WorktreeRecord
  find_path resolved s [] = none
  find_path resolved s (r ∷ records) =
      let rest = find_path resolved s records in
      if eq_codes (w.resolve r.info.path s) resolved then some r else rest

  abbrev or_not_found : Option WorktreeRecord → Step S WorktreeRecord
  or_not_found none = throw not_found_error
  or_not_found (some r) = return r

  -- An empty list of records is read again.
  unfoldable pub record_for_path : Text → List WorktreeRecord → Step S WorktreeRecord
  record_for_path path [] s =
      (list_records >>= λ records. λ s'. or_not_found (find_path (w.resolve path s) s' records) s')
        s
  record_for_path path (r ∷ records) s =
      or_not_found (find_path (w.resolve path s) s (r ∷ records)) s

  abbrev pub record_at : Text → Step S WorktreeRecord
  record_at path = list_records >>= λ records. record_for_path path records

  abbrev pub publish : WorktreeEvent → Step S (Unit {0})
  publish event s = (w.publish event s, ok tt)

  abbrev reason_args : Option Text → List Text
  reason_args none = []
  reason_args (some []) = []
  reason_args (some (c ∷ t)) = codes "--reason" ∷ (c ∷ t) ∷ []

  unfoldable pub lock_path : Text → Option Text → Step S Text
  lock_path path reason =
      git_run (codes "worktree" ∷ codes "lock" ∷ (reason_args reason ++ (path ∷ []))) repo_root
