-- ===== src/Worktree/Operations.antt =====
-- The operations of `WorktreeManager`, src/magsag/worktree/manager.py, on the world of git.
use agdd.Prelude.{
  ℕ, Bool, true, false, not, ◌&&◌, ◌||◌, Option, none, some, List, [], ◌∷◌, ◌++◌, length,
  if◌then◌else◌,
}
use agdd.Text.{codes, lower}
use agdd.Result.{ok, raise}
use agdd.Worktree.Names.{is_space, strip, branch_name, directory_name}
use agdd.Worktree.Porcelain.{
  Text, forbidden_error, conflict_error, not_found_error, dirty_error, value_error,
}
use agdd.Worktree.Resolve.{WorktreeMetadata, WorktreeRecord, resolve_run_id}
use agdd.Worktree.World.{
  World, WorktreeSettings, created, locked, unlocked, removed, pruned, repaired, Step, ◌>>=◌, ◌>>◌,
  return, throw, refuse_if,
}
use agdd.Worktree.Manager.{
  text_in, is_protected_base, lines, changes_in, force_flags, git_run, list_records,
  managed_records, enforce_concurrency_limit, short_sha, ensure_within_root,
  ensure_branch_available, record_at, publish, lock_path,
}

pub record Wanted : Type 0 where
  pub run_id : Text
  pub task : Text
  pub base : Text
  pub detach : Bool
  pub no_checkout : Bool
  pub lock_reason : Option Text
  pub auto_lock : Bool

-- `auto_lock or lock_reason`
abbrev pub wants_lock : Wanted → Bool
wants_lock a =
    a.auto_lock || elim a.lock_reason [ none ↦ false | some t ↦ elim t [ [] ↦ false | _ ↦ true ] ]

abbrev flag : Bool → List Text → List Text
flag true args = args
flag false args = []

abbrev branch_args : Option Text → List Text
branch_args none = []
branch_args (some b) = codes "-b" ∷ b ∷ []

module _ {S : Type 0} (w : World S) (settings : WorktreeSettings) (repo_root : Text) where
  abbrev run_git : List Text → Step S Text
  run_git args = git_run w settings repo_root args repo_root

  abbrev records : Step S (List WorktreeRecord)
  records = list_records w settings repo_root

  -- The branch of a new worktree, none where it is detached.
  unfoldable pub new_branch : Wanted → Step S (Option Text)
  new_branch a =
      if a.detach
      then return none
      else (ensure_branch_available w settings repo_root (branch_name a.run_id a.task)
          >> return (some (branch_name a.run_id a.task)))

  unfoldable pub metadata_of : Wanted → Text → Option Text → ℕ → WorktreeMetadata
  metadata_of a sha branch now = record {
    run_id = a.run_id;
    task = a.task;
    base = a.base;
    short_sha = sha;
    branch = branch;
    created_at = now;
    detach = a.detach;
    no_checkout = a.no_checkout;
  }

  -- `git worktree add`, the metadata and the record.
  unfoldable pub add_worktree : Wanted → Text → Text → Option Text → Step S WorktreeRecord
  add_worktree a path sha branch s =
      let metadata = metadata_of a sha branch (w.now s) in
      (run_git (
            codes "worktree"
            ∷ codes "add"
            ∷ (flag a.detach (codes "--detach" ∷ [])
                ++ (flag a.no_checkout (codes "--no-checkout" ∷ [])
                    ++ (branch_args branch ++ (path ∷ a.base ∷ [])))))
          >> (w.write_metadata path metadata >> record_at w settings repo_root path))
        s

  -- The lock of a new worktree, if it is wanted.
  unfoldable pub lock_new : Wanted → Text → WorktreeRecord → Step S WorktreeRecord
  lock_new a path r =
      if wants_lock a
      then (lock_path w settings repo_root path a.lock_reason
          >> record_at w settings repo_root path)
      else return r

  -- The parts of `create`, each with its check first.
  unfoldable pub create_free : Wanted → Text → Text → Step S WorktreeRecord
  create_free a sha path = new_branch a >>= λ branch. add_worktree a path sha branch >>= λ added.
      lock_new a path added >>= λ r.
      publish w settings repo_root (created r)
      >> ((if wants_lock a then publish w settings repo_root (locked r) else return tt) >> return r)

  unfoldable pub create_in : Wanted → Text → Text → Step S WorktreeRecord
  create_in a sha path =
      (λ s. refuse_if (w.exists path s) conflict_error s) >> create_free a sha path

  unfoldable pub create_at : Wanted → Text → Step S WorktreeRecord
  create_at a sha =
      ensure_within_root w settings repo_root (directory_name a.run_id a.task sha)
      >>= create_in a sha

  unfoldable pub create_allowed : Wanted → Step S WorktreeRecord
  create_allowed a = short_sha w settings repo_root a.base >>= create_at a

  unfoldable pub create_limited : Wanted → Step S WorktreeRecord
  create_limited a =
      refuse_if (a.detach && is_protected_base a.base) forbidden_error >> create_allowed a

  unfoldable pub create : Wanted → Step S WorktreeRecord
  create a = enforce_concurrency_limit w settings repo_root >> create_limited a

  unfoldable pub ensure_clean : Text → Step S (Unit {0})
  ensure_clean path =
      git_run w settings repo_root (codes "status" ∷ codes "--porcelain" ∷ []) path >>= λ output.
      refuse_if (elim (changes_in (lines (strip is_space output))) [ [] ↦ false | _ ↦ true ])
        dirty_error

  abbrev pub or_missing : Option WorktreeRecord → Step S WorktreeRecord
  or_missing none = throw not_found_error
  or_missing (some r) = return r

  unfoldable pub resolve_or_raise : Text → Step S WorktreeRecord
  resolve_or_raise run_id =
      managed_records w settings repo_root >>= λ managed. or_missing (resolve_run_id run_id managed)

  -- `expire or self.settings.ttl_spec`
  abbrev ttl_or_default : Option Text → Text
  ttl_or_default none = settings.ttl_spec
  ttl_or_default (some []) = settings.ttl_spec
  ttl_or_default (some (c ∷ t)) = c ∷ t

  unfoldable pub prune : Option Text → Step S (Unit {0})
  prune expire =
      let ttl = ttl_or_default expire in
      managed_records w settings repo_root >>= λ before.
      run_git (codes "worktree" ∷ codes "prune" ∷ (codes "--expire=" ++ ttl) ∷ [])
      >> (managed_records w settings repo_root >>= λ after.
          publish w settings repo_root (pruned ttl (length before) (length after)))

  -- `try: … except WorktreeError: pass`; a ValueError is none.
  abbrev quietly : Step S (Unit {0}) → Step S (Unit {0})
  quietly m s =
      let (s', r) = m s in
      elim r [
        | ok _ ↦ (s', ok tt)
        | raise error ↦ elim error [ value_error ↦ (s', raise value_error) | _ ↦ (s', ok tt) ]
      ]

  abbrev pub force_allowed : S → Bool
  force_allowed s = text_in (lower (w.allow_force s)) force_flags

  unfoldable pub remove_worktree : WorktreeRecord → Bool → Step S (Unit {0})
  remove_worktree r force =
      (λ s. (w.unlink_metadata r.info.path s, ok tt))
      >> (run_git (
            codes "worktree"
            ∷ codes "remove"
            ∷ (flag force (codes "--force" ∷ []) ++ (r.info.path ∷ [])))
          >> (records >>= λ rest.
              publish w settings repo_root (removed r force) >> quietly (prune none)))

  unfoldable pub check_force : Bool → Step S (Unit {0})
  check_force force s = refuse_if (force && not (force_allowed s)) forbidden_error s

  unfoldable pub check_clean : WorktreeRecord → Bool → Step S (Unit {0})
  check_clean r force = if force then return tt else ensure_clean r.info.path

  unfoldable pub remove_found : Bool → WorktreeRecord → Step S (Unit {0})
  remove_found force r = check_force force >> (check_clean r force >> remove_worktree r force)

  unfoldable pub remove : Text → Bool → Step S (Unit {0})
  remove run_id force = resolve_or_raise run_id >>= remove_found force

  unfoldable pub lock : Text → Option Text → Step S WorktreeRecord
  lock run_id reason = resolve_or_raise run_id >>= λ r.
      lock_path w settings repo_root r.info.path reason
      >> (record_at w settings repo_root r.info.path >>= λ updated.
          publish w settings repo_root (locked updated) >> return updated)

  unfoldable pub unlock : Text → Step S WorktreeRecord
  unlock run_id = resolve_or_raise run_id >>= λ r.
      run_git (codes "worktree" ∷ codes "unlock" ∷ r.info.path ∷ [])
      >> (record_at w settings repo_root r.info.path >>= λ updated.
          publish w settings repo_root (unlocked updated) >> return updated)

  unfoldable pub repair : Step S (Unit {0})
  repair = run_git (codes "worktree" ∷ codes "repair" ∷ []) >> publish w settings repo_root repaired
