-- ===== src/Storage/Cascade.antt =====
-- What a deletion of runs leaves: the fuel of `drop_orphans` is enough.
use agdd.Prelude.{
  ℕ, zero, suc, ◌≤◌, ◌<◌, ◌≡◌, ◌⊎◌, refl, sym, ap, ◌∙◌, subst, Bool, true, List, [], ◌∷◌, arith,
  All, length, Bool-cases, inl, inr,
}
use agdd.Storage.Tables.{RunRow, keep, parent_known}
use agdd.Storage.Vacuum.{drop_orphans}

module _ {A : Type 0} (test : A → Bool) where
  pub keep-All : (l : List A) → All (λ x. test x ≡ true) (keep test l)
  unfolding keep
  keep-All [] = tt
  keep-All (x ∷ l) = elim (Bool-cases (test x)) [
    | inl e ↦ rw e (e, keep-All l)
    | inr e ↦ rw e (keep-All l)
  ]

  pub All-keep : (P : A → Type 0) (l : List A) → All P l → All P (keep test l)
  unfolding keep
  All-keep P [] h = tt
  All-keep P (x ∷ l) h = elim (Bool-cases (test x)) [
    | inl e ↦ rw e (h.0, All-keep P l h.1)
    | inr e ↦ rw e (All-keep P l h.1)
  ]

  keep_whole : (l : List A) → All (λ x. test x ≡ true) l → keep test l ≡ l
  unfolding keep
  keep_whole [] h = refl
  keep_whole (x ∷ l) h = ground (arith, h.0, keep_whole l h.1)

  length-keep : (l : List A) → length (keep test l) ≤ length l
  unfolding keep
  length-keep [] = omega arith
  length-keep (x ∷ l) = ground (arith, length-keep l)

  -- A selection takes every element, or it is shorter.
  keep-cases : (l : List A) → All (λ x. test x ≡ true) l ⊎ (length (keep test l) < length l)
  unfolding keep
  keep-cases [] = inl tt
  keep-cases (x ∷ l) = elim (Bool-cases (test x)) [
    | inl e ↦ elim (keep-cases l) [ inl h ↦ inl (e, h) | inr h ↦ inr (ground arith) ]
    | inr e ↦ inr (ground (arith, length-keep l))
  ]

-- Every parent is one of the runs.
abbrev pub AllParents : List RunRow → Type 0
AllParents rows = All (λ (r : RunRow). parent_known r rows ≡ true) rows

drop_orphans-whole : (n : ℕ) (rows : List RunRow) → AllParents rows → drop_orphans n rows ≡ rows
unfolding drop_orphans
drop_orphans-whole zero rows h = refl
drop_orphans-whole (suc n) rows h =
    ap (drop_orphans n) (keep_whole (λ r. parent_known r rows) rows h) ∙ drop_orphans-whole n rows h

-- One pass for each run is enough: no orphan is left.
pub drop_orphans-AllParents :
    (n : ℕ) (rows : List RunRow) → length rows ≤ n → AllParents (drop_orphans n rows)
unfolding drop_orphans
drop_orphans-AllParents zero [] h = tt
drop_orphans-AllParents zero (r ∷ rows) h = absurd (omega (arith, h))
drop_orphans-AllParents (suc n) rows h = elim (keep-cases (λ r. parent_known r rows) rows) [
  | inl all ↦
      subst AllParents
        (sym (
          ap (drop_orphans n) (keep_whole (λ r. parent_known r rows) rows all)
          ∙ drop_orphans-whole n rows all))
        all
  | inr less ↦
      drop_orphans-AllParents n (keep (λ r. parent_known r rows) rows) (omega (arith, h, less))
]
