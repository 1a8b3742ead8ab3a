-- ===== src/Worktree/Safe.antt =====
-- What the names of worktrees are made of.
use agdd.Prelude.{
  ℕ, ◌≡◌, ◌≢◌, refl, Bool, true, false, not, ◌||◌, List, [], ◌∷◌, ◌++◌, subst, ◌≤◌, ◌⊎◌, ◌==◌,
  if◌then◌else◌, arith, All, Bool-cases, inl, inr,
}
use agdd.Text.{lower}
use agdd.Worktree.Names.{
  is_space, is_edge, is_safe, strip_start, strip_end, strip, replace_unsafe, replace_spaces, or_x,
  sanitize_segment,
}

-- One of `-`, `.` and `_`.
abbrev pub IsMark : ℕ → Type 0
IsMark c = (c ≡ 45) ⊎ ((c ≡ 46) ⊎ (c ≡ 95))

-- A small letter, a digit or a mark.
abbrev pub IsPlain : ℕ → Type 0
IsPlain c = ((97 ≤ c) × (c ≤ 122)) ⊎ (((48 ≤ c) × (c ≤ 57)) ⊎ IsMark c)

-- A character that the replacement writes.
unfoldable IsWritten : ℕ → Type 0
IsWritten c = ((c == 45) || is_safe c) ≡ true

IsWritten-IsPlain : (c : ℕ) → IsWritten c → IsPlain c
unfolding IsWritten is_safe
IsWritten-IsPlain c h = ground arith

All-IsPlain : (s : List ℕ) → All IsWritten s → All IsPlain s
All-IsPlain [] h = tt
All-IsPlain (c ∷ s) h = (IsWritten-IsPlain c h.0, All-IsPlain s h.1)

IsMark-is_edge : (c : ℕ) → IsMark c → is_edge c ≡ true
unfolding is_edge
IsMark-is_edge c h = ground arith

-- The first character is none that `drop` names.
abbrev pub head_kept : (ℕ → Bool) → List ℕ → Bool
head_kept drop [] = true
head_kept drop (c ∷ s) = not (drop c)

abbrev pub last_kept : (ℕ → Bool) → List ℕ → Bool
last_kept drop [] = true
last_kept drop (c ∷ []) = not (drop c)
last_kept drop (c ∷ d ∷ s) = last_kept drop (d ∷ s)

-- A name that is one segment of a path: it is not empty, it has small letters, digits and marks
-- only, and it neither begins nor ends with a mark.
pub record IsSegment (s : List ℕ) : Type 0 where
  pub plain : All IsPlain s
  pub not_empty : s ≢ []
  pub starts : (c : ℕ) (t : List ℕ) → s ≡ c ∷ t → ¬ (IsMark c)
  pub ends : (t : List ℕ) (c : ℕ) → s ≡ t ++ (c ∷ []) → ¬ (IsMark c)

head_kept-IsMark :
    (s : List ℕ) → head_kept is_edge s ≡ true → (c : ℕ) (t : List ℕ) → s ≡ c ∷ t → ¬ (IsMark c)
head_kept-IsMark s h c t e mark =
    ground (arith, IsMark-is_edge c mark, subst (λ u. head_kept is_edge u ≡ true) e h)

last_kept-IsMark : (t : List ℕ) (c : ℕ) → last_kept is_edge (t ++ (c ∷ [])) ≡ true → ¬ (IsMark c)
last_kept-IsMark [] c h mark = ground (arith, IsMark-is_edge c mark, h)
last_kept-IsMark (d ∷ []) c h mark = ground (arith, IsMark-is_edge c mark, h)
last_kept-IsMark (d ∷ e ∷ t) c h mark = last_kept-IsMark (e ∷ t) c h mark

replace_unsafe-All : (before : Bool) (s : List ℕ) → All IsWritten (replace_unsafe before s)
unfolding replace_unsafe IsWritten
replace_unsafe-All before [] = tt
replace_unsafe-All before (c ∷ s) = elim (Bool-cases (is_safe c)) [
  | inl e ↦ rw (e, replace_unsafe) (ground arith, replace_unsafe-All false s)
  | inr e ↦ elim before as (λ b. All IsWritten (replace_unsafe b (c ∷ s))) [
    | true ↦ rw (e, replace_unsafe) (replace_unsafe-All true s)
    | false ↦ rw (e, replace_unsafe) (refl, replace_unsafe-All true s)
  ]
]

module _ (drop : ℕ → Bool) where
  strip_start-All : (s : List ℕ) → All IsWritten s → All IsWritten (strip_start drop s)
  unfolding strip_start
  strip_start-All [] h = tt
  strip_start-All (c ∷ s) h =
      elim (drop c) as (λ b. All IsWritten (if b then strip_start drop s else c ∷ s)) [
        | true ↦ strip_start-All s h.1
        | false ↦ h
      ]

  strip_end-All : (s : List ℕ) → All IsWritten s → All IsWritten (strip_end drop s)
  unfolding strip_end
  strip_end-All [] h = tt
  strip_end-All (c ∷ s) h =
      (elim (strip_end drop s)
          as (λ r.
            All IsWritten r
            → All IsWritten (elim r [ [] ↦ if drop c then [] else c ∷ [] | d ∷ t ↦ c ∷ d ∷ t ])) [
              | [] ↦ λ a. elim (drop c) as (λ b. All IsWritten (if b then [] else c ∷ [])) [
                | true ↦ tt
                | false ↦ (h.0, tt)
              ]
              | d ∷ t ↦ λ a. (h.0, a)
            ])
        (strip_end-All s h.1)

  strip_start_head : (s : List ℕ) → head_kept drop (strip_start drop s) ≡ true
  unfolding strip_start
  strip_start_head [] = refl
  strip_start_head (c ∷ s) = ground (arith, strip_start_head s)

  strip_end_head : (s : List ℕ) → head_kept drop s ≡ true → head_kept drop (strip_end drop s) ≡ true
  unfolding strip_end
  strip_end_head [] h = refl
  strip_end_head (c ∷ s) h = ground arith

  strip_end_last : (s : List ℕ) → last_kept drop (strip_end drop s) ≡ true
  unfolding strip_end
  strip_end_last [] = refl
  strip_end_last (c ∷ s) = ground (arith, strip_end_last s)

or_x-IsSegment :
    (s : List ℕ)
    → All IsWritten s
    → head_kept is_edge s ≡ true
    → last_kept is_edge s ≡ true
    → IsSegment (or_x s)
unfolding or_x is_edge is_safe IsWritten
or_x-IsSegment [] a h l = record {
  plain = (inl (omega arith, omega arith), tt);
  not_empty = λ e. ground arith;
  starts = head_kept-IsMark (120 ∷ []) refl;
  ends = λ t c e. last_kept-IsMark t c (subst (λ u. last_kept is_edge u ≡ true) e refl);
}
or_x-IsSegment (c ∷ s) a h l = record {
  plain = All-IsPlain (c ∷ s) a;
  not_empty = λ e. ground arith;
  starts = head_kept-IsMark (c ∷ s) h;
  ends = λ t d e. last_kept-IsMark t d (subst (λ u. last_kept is_edge u ≡ true) e l);
}

-- Whatever the text, and whether it is put in small letters first or not, the segment that
-- `sanitize_segment` makes of it is not empty, consists of small letters, digits, `-`, `.` and `_`,
-- and neither begins nor ends with one of these three. So it has no slash and is not `..`, and it is
-- one segment of a path.
pub sanitize_segment-IsSegment :
    (lowered : Bool) (segment : List ℕ) → IsSegment (sanitize_segment lowered segment)
unfolding sanitize_segment strip
sanitize_segment-IsSegment lowered segment =
    let cleaned = strip is_space segment in
    let replaced =
      replace_unsafe false (replace_spaces (if lowered then lower cleaned else cleaned)) in
    let started = strip_start is_edge replaced in
    or_x-IsSegment (strip_end is_edge started)
      (strip_end-All is_edge started
        (strip_start-All is_edge replaced (replace_unsafe-All false _)))
      (strip_end_head is_edge started (strip_start_head is_edge replaced))
      (strip_end_last is_edge started)
