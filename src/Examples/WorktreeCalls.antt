-- ===== src/Examples/WorktreeCalls.antt =====
-- Names of worktrees, and the resolution of a run whose name begins another's.
use agdd.Prelude.{
  ℕ, ◌≡◌, ◌<◌, refl, Bool, true, false, ◌&&◌, ◌||◌, if◌then◌else◌, List, [], ◌∷◌, ◌++◌, Option,
  none, some, All,
}
use agdd.Text.{codes, lower, to_lower, starts_with, eq_codes}
use agdd.Worktree.Names.{
  is_space, is_edge, is_safe, strip_start, strip_end, strip, replace_unsafe, replace_spaces, or_x,
  sanitize_segment, directory_name, branch_name,
}
use agdd.Result.{ok}
use agdd.Worktree.Porcelain.{
  Text, WorktreeInfo, split_once, drop, remove_prefix, branch_short, info_run_id, split_nul,
  get_extra, put_extra, without_extra, to_info, read_entry, read_entries, parse_porcelain_z,
}
use agdd.Worktree.Printed.{
  entries_of, all_entries, with_nuls, has_no_nul, IsListed, parse_porcelain_z-with_nuls,
}
use agdd.Worktree.World.{World, WorktreeSettings}
use agdd.Worktree.Manager.{
  text_in, normalize_base_ref, is_protected_base, is_metadata_entry, is_line_break, lines,
  changes_in, git_run, records_of, list_records, filter_managed, managed_records, count_active,
  enforce_concurrency_limit, short_sha, ensure_within_root, uses_branch, branch_exists,
  ensure_branch_available, find_path, record_for_path,
}
use agdd.Worktree.Operations.{
  Wanted, new_branch, add_worktree, lock_new, create_free, create_in, create_at, create_allowed,
  create_limited, create, ensure_clean, resolve_or_raise, prune, remove_worktree, check_force,
  check_clean, remove_found, remove,
}
use agdd.Worktree.Guards.{IsPermitted, create_is_guarded, remove_is_guarded}
use agdd.Worktree.Resolve.{WorktreeRecord, is_run, has_slash, path_name, answers_to, resolve_run_id}
use agdd.Worktree.Safe.{IsSegment, sanitize_segment-IsSegment}

sanitize_test : sanitize_segment true (codes " ../Fix the Bug!_ ") ≡ codes "fix-the-bug"
unfolding sanitize_segment is_space is_edge is_safe strip_start strip_end strip replace_unsafe
    replace_spaces or_x lower to_lower
sanitize_test = refl

sanitize_segment-IsSegment_example : IsSegment (sanitize_segment true (codes " ../Fix the Bug!_ "))
sanitize_segment-IsSegment_example = sanitize_segment-IsSegment true (codes " ../Fix the Bug!_ ")

abbrev listed : Text → Option Text → WorktreeInfo
listed path branch = record {
  path = path;
  head = some (codes "abc1234");
  branch = branch;
  git_dir = none;
  is_bare = false;
  is_detached = false;
  locked = false;
  lock_reason = none;
  prunable = false;
  prunable_reason = none;
  extras = [];
}

abbrev worktree : Text → WorktreeRecord
worktree run_id = record {
  info = listed (codes "/wt/" ++ directory_name run_id (codes "fix") (codes "abc1234")) none;
  metadata = none;
}

-- The run `a` has a worktree, but the one of the run `a-b` is found, since git lists it first.
other_run_found :
    resolve_run_id (codes "a") (worktree (codes "a-b") ∷ worktree (codes "a") ∷ [])
    ≡ some (worktree (codes "a-b"))
unfolding resolve_run_id answers_to is_run info_run_id branch_short path_name has_slash eq_codes
    starts_with directory_name sanitize_segment is_space is_edge is_safe strip_start strip_end strip
    replace_unsafe replace_spaces or_x lower to_lower
other_run_found = refl

abbrev locked_worktree : WorktreeInfo
locked_worktree = record (listed (codes "/wt/a b") (some (codes "refs/heads/wt/a/b"))) {
  locked = true;
  lock_reason = some (codes "in use");
}

listed-IsListed :
    (path : Text) (branch : Option Text)
    → has_no_nul path ≡ true
    → All (λ t. has_no_nul t ≡ true) (entries_of (listed path branch))
    → IsListed (listed path branch)
listed-IsListed path branch h all = record {
  no_git_dir = refl;
  no_extras = refl;
  lock_flag = λ e. refl;
  prune_flag = λ e. refl;
  no_nul = all;
}

locked_worktree-IsListed : IsListed locked_worktree
locked_worktree-IsListed = record {
  no_git_dir = refl;
  no_extras = refl;
  lock_flag = λ e. cc;
  prune_flag = λ e. refl;
  no_nul = (refl, (refl, (refl, (refl, (refl, tt)))));
}

parse_porcelain_z-with_nuls_example :
    parse_porcelain_z (with_nuls (all_entries (locked_worktree ∷ listed (codes "/repo") none ∷ [])))
    ≡ ok (locked_worktree ∷ listed (codes "/repo") none ∷ [])
parse_porcelain_z-with_nuls_example =
    parse_porcelain_z-with_nuls (locked_worktree ∷ listed (codes "/repo") none ∷ []) (
      locked_worktree-IsListed,
      (listed-IsListed (codes "/repo") none refl (refl, (refl, (refl, tt))), tt),
    )

-- A git whose state is the list of its worktrees.
abbrev added : List Text → List WorktreeInfo
added (flag ∷ branch ∷ path ∷ base ∷ []) = listed path (some (codes "refs/heads/" ++ branch)) ∷ []
added args = []

abbrev git : List Text → Text → List WorktreeInfo → List WorktreeInfo × (ℕ × Text)
git (command ∷ verb ∷ args) cwd s =
    if eq_codes verb (codes "list")
    then (s, (0, with_nuls (all_entries s)))
    else if eq_codes verb (codes "add")
    then (s ++ added args, (0, []))
    else if eq_codes verb (codes "remove")
    then ([], (0, []))
    else if eq_codes command (codes "rev-parse")
    then (s, (0, codes "abc1234 "))
    else if eq_codes command (codes "show-ref")
    then (s, (1, []))
    else (s, (0, []))
git args cwd s = (s, (0, []))

abbrev path_listed : Text → List WorktreeInfo → Bool
path_listed path [] = false
path_listed path (i ∷ s) = eq_codes i.path path || path_listed path s

abbrev world : World (List WorktreeInfo)
world = record {
  git = git;
  exists = path_listed;
  resolve = λ path s. path;
  is_under = λ path root. starts_with root path;
  join = λ root path. root ++ (codes "/" ++ path);
  load_metadata = λ path s. ok none;
  write_metadata = λ path m s. (s, ok tt);
  unlink_metadata = λ path s. s;
  allow_force = λ s. codes "no";
  now = λ s. 0;
  publish = λ event s. s;
}

abbrev settings : WorktreeSettings
settings = record { root = codes "/wt"; max_concurrency = 1; ttl_spec = codes "14d" }

abbrev wanted : Wanted
wanted = record {
  run_id = codes "a";
  task = codes "fix";
  base = codes "main";
  detach = false;
  no_checkout = false;
  lock_reason = none;
  auto_lock = false;
}

abbrev new_worktree : WorktreeInfo
new_worktree = listed (codes "/wt/wt-a-fix-abc1234") (some (codes "refs/heads/wt/a/fix"))

abbrev one_listed : List WorktreeInfo
one_listed = new_worktree ∷ []

abbrev new_record : WorktreeRecord
new_record = record { info = new_worktree; metadata = none }

created_test : create world settings (codes "/repo") wanted [] ≡ (one_listed, ok new_record)
unfolding create create_limited create_allowed create_at create_in create_free new_branch
    add_worktree lock_new text_in normalize_base_ref is_protected_base git_run records_of
    list_records filter_managed managed_records count_active enforce_concurrency_limit short_sha
    ensure_within_root uses_branch branch_exists ensure_branch_available find_path record_for_path
    split_once drop remove_prefix branch_short split_nul get_extra put_extra without_extra to_info
    read_entry read_entries parse_porcelain_z eq_codes starts_with directory_name branch_name
    sanitize_segment is_space is_edge is_safe strip_start strip_end strip replace_unsafe
    replace_spaces or_x lower to_lower
created_test = refl

create_is_guarded_example :
    (t v : List WorktreeInfo) × (managed : List WorktreeRecord) × (path sha : Text)
    × (managed_records world settings (codes "/repo") [] ≡ (t, ok managed))
    × (count_active world settings (codes "/repo") t managed < 1)
    × ((false && is_protected_base (codes "main")) ≡ false)
    × (starts_with (codes "/wt") path ≡ true)
    × (path_listed path v ≡ false)
    × (create_free world settings (codes "/repo") wanted sha path v ≡ (one_listed, ok new_record))
create_is_guarded_example =
    create_is_guarded world settings (codes "/repo") wanted [] one_listed new_record created_test

removed_test : remove world settings (codes "/repo") (codes "a") false one_listed ≡ ([], ok tt)
unfolding remove resolve_or_raise resolve_run_id answers_to is_run info_run_id has_slash path_name
    remove_found check_force check_clean ensure_clean remove_worktree prune is_metadata_entry
    is_line_break lines changes_in text_in git_run records_of list_records filter_managed
    managed_records split_once drop remove_prefix branch_short split_nul get_extra put_extra
    without_extra to_info read_entry read_entries parse_porcelain_z eq_codes starts_with
    directory_name branch_name sanitize_segment is_space is_edge is_safe strip_start strip_end strip
    replace_unsafe replace_spaces or_x lower to_lower
removed_test = refl

remove_is_guarded_example :
    (t : List WorktreeInfo) × (managed : List WorktreeRecord) × (r : WorktreeRecord)
    × (managed_records world settings (codes "/repo") one_listed ≡ (t, ok managed))
    × (resolve_run_id (codes "a") managed ≡ some r)
    × IsPermitted world settings (codes "/repo") false r t
remove_is_guarded_example =
    remove_is_guarded world settings (codes "/repo") (codes "a") false one_listed [] removed_test
