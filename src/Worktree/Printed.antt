-- ===== src/Worktree/Printed.antt =====
-- `parse_porcelain_z` reads back the listing that git prints of worktrees.
use mathlib.Core.List.{append_assoc}
use agdd.Prelude.{
  Bool, true, false, ◌&&◌, ◌≡◌, refl, sym, ap, ◌∙◌, Option, none, some, List, [], ◌∷◌, ◌++◌, arith,
  ◌==◌, All, All-append, get_or, not,
}
use agdd.Text.{codes, starts_with, eq_codes}
use agdd.Result.{ok}
use agdd.Worktree.Porcelain.{
  Text, WorktreeInfo, Reading, nothing_read, split_once, split_nul, to_info, read_entry,
  read_entries, parse_porcelain_z,
}

abbrev option_entry : Text → Option Text → List Text
option_entry name none = []
option_entry name (some t) = (name ++ t) ∷ []

abbrev flag_entry : Text → Bool → List Text
flag_entry name false = []
flag_entry name true = name ∷ []

-- A flag with a reason, which git leaves out where there is none.
abbrev reason_entry : Text → Bool → Option Text → List Text
reason_entry name false reason = []
reason_entry name true none = name ∷ []
reason_entry name true (some t) = (name ++ (b' ' ∷ t)) ∷ []

-- The entries of a worktree in `git worktree list --porcelain -z`, with an empty one at their end.
abbrev pub entries_of : WorktreeInfo → List Text
entries_of i =
    (codes "worktree " ++ i.path)
    ∷ (option_entry (codes "HEAD ") i.head
        ++ (flag_entry (codes "bare") i.is_bare
            ++ (flag_entry (codes "detached") i.is_detached
                ++ (option_entry (codes "branch ") i.branch
                    ++ (reason_entry (codes "locked") i.locked i.lock_reason
                        ++ (reason_entry (codes "prunable") i.prunable i.prunable_reason
                            ++ ([] ∷ [])))))))

abbrev pub all_entries : List WorktreeInfo → List Text
all_entries [] = []
all_entries (i ∷ infos) = entries_of i ++ all_entries infos

-- Each entry is followed by a NUL.
abbrev pub with_nuls : List Text → Text
with_nuls [] = []
with_nuls (t ∷ ts) = t ++ (0 ∷ with_nuls ts)

abbrev pub has_no_nul : Text → Bool
has_no_nul [] = true
has_no_nul (c ∷ s) = not (c == 0) && has_no_nul s

-- What git lists: no reason without its flag, and nothing that the parser does not know.
pub record IsListed (i : WorktreeInfo) : Type 0 where
  pub no_git_dir : i.git_dir ≡ none
  pub no_extras : i.extras ≡ []
  pub lock_flag : i.locked ≡ false → i.lock_reason ≡ none
  pub prune_flag : i.prunable ≡ false → i.prunable_reason ≡ none
  pub no_nul : All (λ t. has_no_nul t ≡ true) (entries_of i)

read_path :
    (rest : List Text) (p : Text)
    → read_entries ((codes "worktree " ++ p) ∷ rest) nothing_read
      ≡ read_entries rest (record nothing_read { path = some p })
unfolding read_entries eq_codes starts_with
read_path rest p = refl

-- The reading of the entries of one worktree, an entry at a time.
module _ (rest : List Text) (r : Reading) where
  read_head :
      (h : Option Text)
      → r.head ≡ none
      → read_entries (option_entry (codes "HEAD ") h ++ rest) r
        ≡ read_entries rest (record r { head = h })
  unfolding read_entries eq_codes starts_with
  read_head none e = ap (λ h. read_entries rest (record r { head = h })) e
  read_head (some t) e = refl

  read_branch :
      (b : Option Text)
      → r.branch ≡ none
      → read_entries (option_entry (codes "branch ") b ++ rest) r
        ≡ read_entries rest (record r { branch = b })
  unfolding read_entries eq_codes starts_with
  read_branch none e = ap (λ b. read_entries rest (record r { branch = b })) e
  read_branch (some t) e = refl

  read_bare :
      (b : Bool)
      → r.is_bare ≡ false
      → read_entries (flag_entry (codes "bare") b ++ rest) r
        ≡ read_entries rest (record r { is_bare = b })
  unfolding read_entries eq_codes starts_with
  read_bare false e = ap (λ b. read_entries rest (record r { is_bare = b })) e
  read_bare true e = refl

  read_detached :
      (b : Bool)
      → r.is_detached ≡ false
      → read_entries (flag_entry (codes "detached") b ++ rest) r
        ≡ read_entries rest (record r { is_detached = b })
  unfolding read_entries eq_codes starts_with
  read_detached false e = ap (λ b. read_entries rest (record r { is_detached = b })) e
  read_detached true e = refl

  read_locked :
      (b : Bool) (reason : Option Text)
      → (b ≡ false → reason ≡ none)
      → r.locked ≡ false
      → r.lock_reason ≡ none
      → read_entries (reason_entry (codes "locked") b reason ++ rest) r
        ≡ read_entries rest (record r { locked = b; lock_reason = reason })
  unfolding read_entries eq_codes starts_with
  read_locked false reason f e d =
      λ j. read_entries rest (record r { locked = e j; lock_reason = (d ∙ sym (f refl)) j })
  read_locked true none f e d =
      λ j. read_entries rest (record r { locked = true; lock_reason = d j })
  read_locked true (some t) f e d = refl

  read_prunable :
      (b : Bool) (reason : Option Text)
      → (b ≡ false → reason ≡ none)
      → r.prunable ≡ false
      → r.prunable_reason ≡ none
      → read_entries (reason_entry (codes "prunable") b reason ++ rest) r
        ≡ read_entries rest (record r { prunable = b; prunable_reason = reason })
  unfolding read_entries eq_codes starts_with
  read_prunable false reason f e d =
      λ j. read_entries rest (record r { prunable = e j; prunable_reason = (d ∙ sym (f refl)) j })
  read_prunable true none f e d =
      λ j. read_entries rest (record r { prunable = true; prunable_reason = d j })
  read_prunable true (some t) f e d = refl

abbrev reading_of : WorktreeInfo → Reading
reading_of i = record {
  path = some i.path;
  head = i.head;
  branch = i.branch;
  is_bare = i.is_bare;
  is_detached = i.is_detached;
  locked = i.locked;
  lock_reason = i.lock_reason;
  prunable = i.prunable;
  prunable_reason = i.prunable_reason;
  extras = [];
}

abbrev body_of : WorktreeInfo → List Text → List Text
body_of i rest =
    option_entry (codes "HEAD ") i.head
    ++ (flag_entry (codes "bare") i.is_bare
        ++ (flag_entry (codes "detached") i.is_detached
            ++ (option_entry (codes "branch ") i.branch
                ++ (reason_entry (codes "locked") i.locked i.lock_reason
                    ++ (reason_entry (codes "prunable") i.prunable i.prunable_reason
                        ++ ([] ∷ rest))))))

read_body :
    (i : WorktreeInfo) (rest : List Text)
    → IsListed i
    → read_entries (body_of i rest) (record nothing_read { path = some i.path })
      ≡ read_entries rest (reading_of i)
unfolding read_entries eq_codes
read_body i rest h =
    read_head _ _ i.head refl
    ∙ read_bare _ _ i.is_bare refl
    ∙ read_detached _ _ i.is_detached refl
    ∙ read_branch _ _ i.branch refl
    ∙ read_locked _ _ i.locked i.lock_reason h.lock_flag refl refl
    ∙ read_prunable ([] ∷ rest) _ i.prunable i.prunable_reason h.prune_flag refl refl

to_info-reading_of : (i : WorktreeInfo) → IsListed i → to_info (reading_of i) ≡ ok i
unfolding to_info
to_info-reading_of i h =
    let p = sym h.no_git_dir in
    let q = sym h.no_extras in λ j. ok (record i { git_dir = p j; extras = q j })

read_trailing :
    (entries : List Text) (r : Reading)
    → read_entries (entries ++ ([] ∷ [])) r ≡ read_entries entries r
unfolding read_entries eq_codes
read_trailing [] r = refl
read_trailing (t ∷ entries) r = ground (
  arith,
  read_trailing entries r,
  read_trailing entries (record r { path = some (get_or (split_once b' ' t).1 []) }),
  read_trailing entries (record nothing_read { path = some (get_or (split_once b' ' t).1 []) }),
  read_trailing entries (read_entry t r),
)

split_entry : (t s : Text) → has_no_nul t ≡ true → split_nul (t ++ (0 ∷ s)) ≡ t ∷ split_nul s
unfolding split_nul
split_entry [] s h = refl
split_entry (c ∷ t) s h = ground (arith, split_entry t s)

split_nul-with_nuls :
    (ts : List Text)
    → All (λ t. has_no_nul t ≡ true) ts
    → split_nul (with_nuls ts) ≡ ts ++ ([] ∷ [])
unfolding split_nul
split_nul-with_nuls [] h = refl
split_nul-with_nuls (t ∷ ts) h =
    split_entry t (with_nuls ts) h.0 ∙ ap (λ (l : List Text). t ∷ l) (split_nul-with_nuls ts h.1)

body_of-append : (i : WorktreeInfo) (rest : List Text) → body_of i [] ++ rest ≡ body_of i rest
body_of-append i rest = simp append_assoc

no_nul-All :
    (infos : List WorktreeInfo)
    → All IsListed infos
    → All (λ t. has_no_nul t ≡ true) (all_entries infos)
no_nul-All [] h = tt
no_nul-All (i ∷ infos) h =
    All-append _ (entries_of i) (all_entries infos) h.0.no_nul (no_nul-All infos h.1)

-- After a worktree has been read, the others follow.
read_others :
    (i : WorktreeInfo) (infos : List WorktreeInfo)
    → IsListed i
    → All IsListed infos
    → read_entries (all_entries infos) (reading_of i) ≡ ok (i ∷ infos)
unfolding read_entries eq_codes starts_with
read_others i [] h hs = ground (arith, to_info-reading_of i h)
read_others i (j ∷ infos) h hs =
    let next =
      ap (λ l. read_entries l (record nothing_read { path = some j.path }))
        (body_of-append j (all_entries infos))
      ∙ read_body j (all_entries infos) hs.0
      ∙ read_others j infos hs.0 hs.1 in
    ground (arith, to_info-reading_of i h, next)

-- Whatever the worktrees, the listing that git prints of them, each entry followed by a NUL and each
-- worktree by an empty entry, is read back as the same worktrees in the same order. No text has a
-- NUL, a reason stands only with its flag, and there are no entries of other kinds.
pub parse_porcelain_z-with_nuls :
    (infos : List WorktreeInfo)
    → All IsListed infos
    → parse_porcelain_z (with_nuls (all_entries infos)) ≡ ok infos
unfolding parse_porcelain_z
parse_porcelain_z-with_nuls [] h = refl
parse_porcelain_z-with_nuls (i ∷ infos) h =
    ap (λ l. read_entries l nothing_read)
      (split_nul-with_nuls (all_entries (i ∷ infos)) (no_nul-All (i ∷ infos) h))
    ∙ read_trailing (all_entries (i ∷ infos)) nothing_read
    ∙ read_path (body_of i [] ++ all_entries infos) i.path
    ∙ ap (λ l. read_entries l (record nothing_read { path = some i.path }))
        (body_of-append i (all_entries infos))
    ∙ read_body i (all_entries infos) h.0
    ∙ read_others i infos h.0 h.1
