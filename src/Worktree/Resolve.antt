-- ===== src/Worktree/Resolve.antt =====
-- How the manager of src/magsag/worktree/manager.py finds a worktree by the identifier of its run.
use agdd.Prelude.{
  ℕ, Bool, true, false, ◌||◌, Option, none, some, List, [], ◌∷◌, ◌++◌, ◌==◌, if◌then◌else◌,
}
use agdd.Text.{codes, starts_with, eq_codes}
use agdd.Worktree.Names.{sanitize_segment}
use agdd.Worktree.Porcelain.{Text, WorktreeInfo, info_run_id}

-- `created_at` in microseconds.
pub record WorktreeMetadata : Type 0 where
  pub run_id : Text
  pub task : Text
  pub base : Text
  pub short_sha : Text
  pub branch : Option Text
  pub created_at : ℕ
  pub detach : Bool
  pub no_checkout : Bool

pub record WorktreeRecord : Type 0 where
  pub info : WorktreeInfo
  pub metadata : Option WorktreeMetadata

unfoldable pub is_run : Text → Option Text → Bool
is_run run_id none = false
is_run run_id (some other_id) = eq_codes other_id run_id

abbrev metadata_run_id : Option WorktreeMetadata → Option Text
metadata_run_id none = none
metadata_run_id (some m) = some m.run_id

unfoldable pub has_slash : Text → Bool
has_slash [] = false
has_slash (d ∷ t) = d == b'/' || has_slash t

-- `path.name`: what follows the last slash.
unfoldable pub path_name : Text → Text
unfolding has_slash
path_name [] = []
path_name (c ∷ s) = let rest = path_name s in if has_slash (c ∷ s) then rest else c ∷ s

unfoldable pub answers_to : Text → WorktreeRecord → Bool
answers_to run_id r =
    is_run run_id (metadata_run_id r.metadata)
    || (is_run run_id (info_run_id r.info)
        || (eq_codes (path_name r.info.path) run_id
            || starts_with (codes "wt-" ++ (sanitize_segment true run_id ++ codes "-"))
                (path_name r.info.path)))

-- Over the managed records, in the order in which git lists them.
unfoldable pub resolve_run_id : Text → List WorktreeRecord → Option WorktreeRecord
resolve_run_id run_id [] = none
resolve_run_id run_id (r ∷ records) =
    let rest = resolve_run_id run_id records in if answers_to run_id r then some r else rest
