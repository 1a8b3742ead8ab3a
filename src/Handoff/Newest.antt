-- ===== src/Handoff/Newest.antt =====
-- The order of the listing of requests of handoffs.
use agdd.Prelude.{
  ℕ, ◌≤◌, ◌≡◌, refl, sym, subst, true, false, List, [], ◌∷◌, arith, All, swap_first, keep_head,
  Memᴰ, ltb, Bool-cases, inl, inr,
}
use agdd.Handoff.Request.{HandoffRequest}
use agdd.Handoff.Tool.{insert_newest, newest_first}

abbrev pub IsNewestFirst : List HandoffRequest → Type 0
IsNewestFirst [] = Unit
IsNewestFirst (r ∷ l) =
    All (λ (q : HandoffRequest). q.created_at ≤ r.created_at) l × IsNewestFirst l

All-older :
    (n m : ℕ)
    → n ≤ m
    → (l : List HandoffRequest) → All (λ (q : HandoffRequest). q.created_at ≤ n) l
    → All (λ (q : HandoffRequest). q.created_at ≤ m) l
All-older n m le [] h = tt
All-older n m le (q ∷ l) h = (omega (arith, le, h.0), All-older n m le l h.1)

insert_newest-All :
    (P : HandoffRequest → Type 0) (r : HandoffRequest) (l : List HandoffRequest)
    → P r
    → All P l
    → All P (insert_newest r l)
unfolding insert_newest
insert_newest-All P r [] p h = (p, tt)
insert_newest-All P r (q ∷ l) p h = elim (Bool-cases (ltb r.created_at q.created_at)) [
  | inl e ↦ rw e (h.0, insert_newest-All P r l p h.1)
  | inr e ↦ rw e (p, h)
]

insert_newest-IsNewestFirst :
    (r : HandoffRequest) (l : List HandoffRequest)
    → IsNewestFirst l
    → IsNewestFirst (insert_newest r l)
unfolding insert_newest
insert_newest-IsNewestFirst r [] h = (tt, tt)
insert_newest-IsNewestFirst r (q ∷ l) h = elim (Bool-cases (ltb r.created_at q.created_at)) [
  | inl e ↦ rw e (
    insert_newest-All (λ (u : HandoffRequest). u.created_at ≤ q.created_at) r l (ground arith) h.0,
    insert_newest-IsNewestFirst r l h.1,
  )
  | inr e ↦ rw e ((ground arith, All-older q.created_at r.created_at (ground arith) l h.0), h)
]

pub newest_first-IsNewestFirst : (l : List HandoffRequest) → IsNewestFirst (newest_first l)
unfolding newest_first
newest_first-IsNewestFirst [] = tt
newest_first-IsNewestFirst (r ∷ l) =
    insert_newest-IsNewestFirst r (newest_first l) (newest_first-IsNewestFirst l)

insert_newest_behind :
    (r q : HandoffRequest) (l : List HandoffRequest)
    → ltb r.created_at q.created_at ≡ true
    → insert_newest r (q ∷ l) ≡ q ∷ insert_newest r l
unfolding insert_newest
insert_newest_behind r q l e = rw e refl

insert_newest_before :
    (r q : HandoffRequest) (l : List HandoffRequest)
    → ltb r.created_at q.created_at ≡ false
    → insert_newest r (q ∷ l) ≡ r ∷ (q ∷ l)
unfolding insert_newest
insert_newest_before r q l e = rw e refl

module _ (x : HandoffRequest) where
  mem_of_insert_newest :
      (r : HandoffRequest) (l : List HandoffRequest) → Memᴰ x (insert_newest r l) → Memᴰ x (r ∷ l)
  unfolding insert_newest
  mem_of_insert_newest r [] h = h
  mem_of_insert_newest r (q ∷ l) h = elim (Bool-cases (ltb r.created_at q.created_at)) [
    | inl e ↦
        swap_first
          (keep_head (mem_of_insert_newest r l) (subst (Memᴰ x) (insert_newest_behind r q l e) h))
    | inr e ↦ subst (Memᴰ x) (insert_newest_before r q l e) h
  ]

  mem_to_insert_newest :
      (r : HandoffRequest) (l : List HandoffRequest) → Memᴰ x (r ∷ l) → Memᴰ x (insert_newest r l)
  unfolding insert_newest
  mem_to_insert_newest r [] m = m
  mem_to_insert_newest r (q ∷ l) m = elim (Bool-cases (ltb r.created_at q.created_at)) [
    | inl e ↦
        subst (Memᴰ x) (sym (insert_newest_behind r q l e))
          (keep_head (mem_to_insert_newest r l) (swap_first m))
    | inr e ↦ subst (Memᴰ x) (sym (insert_newest_before r q l e)) m
  ]

  pub mem_of_newest_first : (l : List HandoffRequest) → Memᴰ x (newest_first l) → Memᴰ x l
  unfolding newest_first
  mem_of_newest_first [] m = m
  mem_of_newest_first (r ∷ l) m =
      keep_head (mem_of_newest_first l) (mem_of_insert_newest r (newest_first l) m)

  pub mem_to_newest_first : (l : List HandoffRequest) → Memᴰ x l → Memᴰ x (newest_first l)
  unfolding newest_first
  mem_to_newest_first [] m = m
  mem_to_newest_first (r ∷ l) m =
      mem_to_insert_newest r (newest_first l) (keep_head (mem_to_newest_first l) m)
