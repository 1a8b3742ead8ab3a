-- ===== src/Worktree/Guards.antt =====
-- What the manager has checked when it creates or removes a worktree.
use agdd.Prelude.{
  subst, leb→lt, ◌<◌, Bool, true, false, not, ◌&&◌, ◌≡◌, refl, sym, ap, ◌∙◌, Option, none, some,
  List, [], ◌∷◌, arith, leb,
}
use agdd.Text.{codes}
use agdd.Result.{Result, ok, raise}
use agdd.Worktree.Names.{is_space, strip, directory_name}
use agdd.Worktree.Porcelain.{
  Text, WorktreeError, limit_error, conflict_error, forbidden_error, dirty_error,
}
use agdd.Worktree.Resolve.{WorktreeRecord, resolve_run_id}
use agdd.Worktree.World.{World, WorktreeSettings, Step, ◌>>=◌, ◌>>◌, refuse_if}
use agdd.Worktree.Manager.{
  is_protected_base, lines, changes_in, git_run, managed_records, count_active,
  enforce_concurrency_limit, short_sha, ensure_within_root,
}
use agdd.Worktree.Operations.{
  Wanted, create, create_limited, create_allowed, create_at, create_in, create_free, remove,
  remove_found, remove_worktree, check_force, check_clean, or_missing, resolve_or_raise,
  ensure_clean, force_allowed,
}

after_eq-ok :
    {S A B : Type 0} (x : S × Result WorktreeError A) (f : A → Step S B) (s' : S) (b : B)
    → (let (t, r) = x in
        elim r as (λ q. S × Result WorktreeError B) [
          | raise error ↦ (t, raise error)
          | ok a ↦ f a t
        ])
      ≡ (s', ok b)
    → (t : S) × (a : A) × (x ≡ (t, ok a)) × (f a t ≡ (s', ok b))
after_eq-ok (t, raise e) f s' b h = absurd (ground arith)
after_eq-ok (t, ok a) f s' b h = (t, a, refl, h)

-- A step in sequence that returns has two parts that return.
>>=-eq-ok :
    {S A B : Type 0} (m : Step S A) (f : A → Step S B) (s s' : S) (b : B)
    → (m >>= f) s ≡ (s', ok b)
    → (t : S) × (a : A) × (m s ≡ (t, ok a)) × (f a t ≡ (s', ok b))
>>=-eq-ok m f s s' b h = after_eq-ok (m s) f s' b h

refuse_if-eq-ok :
    {S : Type 0} (b : Bool) (e : WorktreeError) (s t : S) (u : Unit {0})
    → refuse_if b e s ≡ (t, ok u)
    → (b ≡ false) × (t ≡ s)
refuse_if-eq-ok true e s t u h = absurd (ground arith)
refuse_if-eq-ok false e s t u h =
    (refl, sym (ap (λ (x : _ × Result WorktreeError (Unit {0})). x.0) h))

not-false : (b : Bool) → not b ≡ false → b ≡ true
not-false true h = refl
not-false false h = cc

module _ {S : Type 0} (w : World S) (settings : WorktreeSettings) (repo_root : Text) where
  abbrev pub IsPermitted : Bool → WorktreeRecord → S → Type 0
  IsPermitted true r s = force_allowed w settings repo_root s ≡ true
  IsPermitted false r s =
      (t : S) × (output : Text) × (git_run w settings repo_root
          (codes "status" ∷ codes "--porcelain" ∷ []) r.info.path s
        ≡ (t, ok output))
      × (changes_in (lines (strip is_space output)) ≡ [])

  no_changes :
      (changes : List Text)
      → elim changes as (λ c. Bool) [ [] ↦ false | _ ↦ true ] ≡ false
      → changes ≡ []
  no_changes [] h = refl
  no_changes (c ∷ cs) h = cc

  checked-IsPermitted :
      (force : Bool) (r : WorktreeRecord) (s t u : S)
      → check_force w settings repo_root force s ≡ (t, ok tt)
      → check_clean w settings repo_root r force t ≡ (u, ok tt)
      → IsPermitted force r s
  unfolding check_force check_clean ensure_clean
  checked-IsPermitted true r s t u f c =
      let (allowed, _) =
        refuse_if-eq-ok (true && not (force_allowed w settings repo_root s)) forbidden_error s t tt
          f in
      not-false (force_allowed w settings repo_root s) allowed
  checked-IsPermitted false r s t u f c =
      let (_, same) =
        refuse_if-eq-ok (false && not (force_allowed w settings repo_root s)) forbidden_error s t tt
          f in
      let (v, output, ran, rest) =
        >>=-eq-ok
          (git_run w settings repo_root (codes "status" ∷ codes "--porcelain" ∷ []) r.info.path)
          (λ output.
            refuse_if
              (elim (changes_in (lines (strip is_space output))) as (λ c. Bool) [
                | [] ↦ false
                | _ ↦ true
              ])
              dirty_error)
          t u tt c in
      let (clean, _) =
        refuse_if-eq-ok
          (elim (changes_in (lines (strip is_space output))) as (λ c. Bool) [
            | [] ↦ false
            | _ ↦ true
          ])
          dirty_error v u tt rest in
      (
        v,
        output,
        subst
            (λ x.
              git_run w settings repo_root (codes "status" ∷ codes "--porcelain" ∷ []) r.info.path x
              ≡ (v, ok output))
            same ran,
        no_changes _ clean,
      )

  missing-ok :
      (found : Option WorktreeRecord) (t u : S) (r : WorktreeRecord)
      → or_missing w settings repo_root found t ≡ (u, ok r)
      → (found ≡ some r) × (t ≡ u)
  missing-ok none t u r h = absurd (ground arith)
  missing-ok (some q) t u r h = (ground arith, ground arith)

  resolved-ok :
      (run_id : Text) (s t : S) (r : WorktreeRecord)
      → resolve_or_raise w settings repo_root run_id s ≡ (t, ok r)
      → (managed : List WorktreeRecord) × (managed_records w settings repo_root s ≡ (t, ok managed))
        × (resolve_run_id run_id managed ≡ some r)
  unfolding resolve_or_raise
  resolved-ok run_id s t r h =
      let (v, managed, read, rest) =
        >>=-eq-ok (managed_records w settings repo_root)
          (λ managed. or_missing w settings repo_root (resolve_run_id run_id managed)) s t r h in
      let (found, same) = missing-ok (resolve_run_id run_id managed) v t r rest in
      (
        managed,
        subst (λ x. managed_records w settings repo_root s ≡ (x, ok managed)) same read,
        found,
      )

  -- A `remove` that returns has found the record among the managed ones, and either `force` is asked
  -- for and the environment allows it, or `git status` ran in the directory and reported no change
  -- but the metadata.
  pub remove_is_guarded :
      (run_id : Text) (force : Bool) (s s' : S)
      → remove w settings repo_root run_id force s ≡ (s', ok tt)
      → (t : S) × (managed : List WorktreeRecord) × (r : WorktreeRecord) × (managed_records w
            settings repo_root s
          ≡ (t, ok managed))
        × (resolve_run_id run_id managed ≡ some r)
        × IsPermitted force r t
  unfolding remove remove_found
  remove_is_guarded run_id force s s' h =
      let (t, r, found, rest) =
        >>=-eq-ok (resolve_or_raise w settings repo_root run_id)
          (remove_found w settings repo_root force) s s' tt h in
      let (managed, read, among) = resolved-ok run_id s t r found in
      let (u, _, forced, rest) =
        >>=-eq-ok (check_force w settings repo_root force)
          (λ _.
            check_clean w settings repo_root r force
            >> remove_worktree w settings repo_root r force)
          t s' tt rest in
      let (v, _, clean, _) =
        >>=-eq-ok (check_clean w settings repo_root r force)
          (λ _. remove_worktree w settings repo_root r force) u s' tt rest in
      (t, managed, r, read, among, checked-IsPermitted force r t u v forced clean)

  limited-ok :
      (s t : S)
      → enforce_concurrency_limit w settings repo_root s ≡ (t, ok tt)
      → (managed : List WorktreeRecord) × (managed_records w settings repo_root s ≡ (t, ok managed))
        × (count_active w settings repo_root t managed < settings.max_concurrency)
  unfolding enforce_concurrency_limit
  limited-ok s t h =
      let (v, managed, read, rest) =
        >>=-eq-ok (managed_records w settings repo_root)
          (λ managed. λ v.
            refuse_if (leb settings.max_concurrency (count_active w settings repo_root v managed))
              limit_error v)
          s t tt h in
      let (below, same) =
        refuse_if-eq-ok (leb settings.max_concurrency (count_active w settings repo_root v managed))
          limit_error v t tt rest in
      (
        managed,
        subst (λ x. managed_records w settings repo_root s ≡ (x, ok managed)) (sym same) read,
        subst (λ x. count_active w settings repo_root x managed < settings.max_concurrency)
            (sym same)
            (leb→lt settings.max_concurrency (count_active w settings repo_root v managed) below),
      )

  within-ok :
      (path : Text) (s t : S) (resolved : Text)
      → ensure_within_root w settings repo_root path s ≡ (t, ok resolved)
      → w.is_under resolved settings.root ≡ true
  unfolding ensure_within_root
  within-ok path s t resolved h = ground arith

  -- A `create` that returns was below the limit when it listed the managed records, does not detach
  -- a worktree from a protected base, and had a path under the root at which nothing was.
  pub create_is_guarded :
      (a : Wanted) (s s' : S) (r : WorktreeRecord)
      → create w settings repo_root a s ≡ (s', ok r)
      → (t v : S) × (managed : List WorktreeRecord) × (path sha : Text) × (managed_records w
            settings repo_root s
          ≡ (t, ok managed))
        × (count_active w settings repo_root t managed < settings.max_concurrency)
        × ((a.detach && is_protected_base a.base) ≡ false)
        × (w.is_under path settings.root ≡ true)
        × (w.exists path v ≡ false)
        × (create_free w settings repo_root a sha path v ≡ (s', ok r))
  unfolding create create_limited create_allowed create_at create_in
  create_is_guarded a s s' r h =
      let (t, _, limit, rest) =
        >>=-eq-ok (enforce_concurrency_limit w settings repo_root)
          (λ _. create_limited w settings repo_root a) s s' r h in
      let (managed, read, below) = limited-ok s t limit in
      let (t₁, _, base, rest) =
        >>=-eq-ok (refuse_if (a.detach && is_protected_base a.base) forbidden_error)
          (λ _. create_allowed w settings repo_root a) t s' r rest in
      let (t₂, sha, _, rest) =
        >>=-eq-ok (short_sha w settings repo_root a.base) (create_at w settings repo_root a) t₁ s' r
          rest in
      let (t₃, path, under, rest) =
        >>=-eq-ok (ensure_within_root w settings repo_root (directory_name a.run_id a.task sha))
          (create_in w settings repo_root a sha) t₂ s' r rest in
      let (t₄, _, free, rest) =
        >>=-eq-ok (λ v. refuse_if (w.exists path v) conflict_error v)
          (λ _. create_free w settings repo_root a sha path) t₃ s' r rest in
      let (missing, same) = refuse_if-eq-ok (w.exists path t₃) conflict_error t₃ t₄ tt free in
      (
        t,
        t₄,
        managed,
        path,
        sha,
        read,
        below,
        (refuse_if-eq-ok (a.detach && is_protected_base a.base) forbidden_error t t₁ tt base).0,
        within-ok (directory_name a.run_id a.task sha) t₂ t₃ path under,
        ap (w.exists path) same ∙ missing,
        rest,
      )
