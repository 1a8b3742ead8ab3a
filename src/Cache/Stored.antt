-- ===== src/Cache/Stored.antt =====
-- Training keeps the maps, the buffer and the index of the cache consistent.
use agdd.Prelude.{
  ℕ, ◌≡◌, refl, sym, ap, subst, Bool, true, false, not, ◌&&◌, ◌||◌, Option, none, some, List, [],
  ◌∷◌, ◌++◌, map, arith, leb, length, ◌==◌, Bool-cases, Option-cases, inl, inr,
}
use agdd.Cache.Semantic.{Vectors, Entry, Cache, entry_at, active, train_on, ensure_trained}
use agdd.Cache.Consistent.{holds, IsIndex, placed, IsConsistent}

abbrev is_some {ℓ} : {A : Type ℓ} → Option A → Bool
is_some none = false
is_some (some x) = true

pub holds_snoc :
    {E : Type 0} (i n : ℕ) (e : E) (l : List (ℕ × E))
    → holds i (l ++ ((n, e) ∷ [])) ≡ (holds i l || (n == i))
holds_snoc i n e [] = ground arith
holds_snoc i n e ((j, u) ∷ l) = ground (arith, holds_snoc i n e l)

holds-active :
    {E : Type 0} (m : List (ℕ × Option (Entry E))) (i : ℕ) (l : List (ℕ × E))
    → holds i (active m l) ≡ (holds i l && is_some (entry_at m i))
unfolding active
holds-active m i [] = refl
holds-active m i ((j, e) ∷ l) = elim (Bool-cases (j == i)) [
  | inl q ↦
      let same : j ≡ i = ground arith in
      elim (Option-cases (entry_at m i)) [
        | inl n ↦ ground (arith, holds-active m i l, ap (entry_at m) same)
        | inr (u, h) ↦ ground (arith, holds-active m i l, ap (entry_at m) same)
      ]
  | inr q ↦ ground (arith, holds-active m i l)
]

module _ {E I C : Type 0} (v : Vectors E I C) (x : IsIndex v) where
  -- The cache after a training run with the embeddings `l`.
  abbrev run_of : List (ℕ × E) → Cache E I → Cache E I
  run_of l c = record c {
    index = v.add_with_ids (v.train c.index (map (λ (p : ℕ × E). p.1) l)) l;
    trained = true;
    training_buffer = [];
  }

  train_on_enough :
      (l : List (ℕ × E)) (c : Cache E I)
      → leb c.nlist (length l) ≡ true
      → train_on v l c ≡ run_of l c
  unfolding train_on
  train_on_enough l c e = rw (e, train_on) refl

  train_on_few :
      (l : List (ℕ × E)) (c : Cache E I) → leb c.nlist (length l) ≡ false → train_on v l c ≡ c
  unfolding train_on
  train_on_few l c e = rw (e, train_on) refl

  module _ (c : Cache E I) (h : IsConsistent v x c) (open_buffer : c.trained ≡ false) where
    abbrev live_buffer : List (ℕ × E)
    live_buffer = active c.metadata c.training_buffer

    index_empty : (i : ℕ) → x.has c.index i ≡ false
    index_empty i = elim (Bool-cases (x.has c.index i)) [
      | inr q ↦ q
      | inl q ↦ absurd (cc (open_buffer, (h.only_live i q).0))
    ]

    has_run : (i : ℕ) → x.has (run_of live_buffer c).index i ≡ holds i live_buffer
    has_run i = ground (
      arith,
      index_empty i,
      x.has_add (v.train c.index (map (λ (p : ℕ × E). p.1) live_buffer)) live_buffer i,
      x.has_train c.index (map (λ (p : ℕ × E). p.1) live_buffer) i,
    )

    run-IsConsistent : IsConsistent v x (run_of live_buffer c)
    run-IsConsistent = record {
      below = h.below;
      named = h.named;
      names = h.names;
      has_vector = λ i e f.
          let was : placed v x c i ≡ true = h.has_vector i e f in
          ground (arith, was, has_run i, holds-active c.metadata i c.training_buffer);
      only_live = λ i g. (
        refl,
        elim (Option-cases (entry_at c.metadata i)) [
          | inr (e, f) ↦ (e, f)
          | inl n ↦ absurd (ground (arith, has_run i, holds-active c.metadata i c.training_buffer))
        ],
      );
      flat = λ e. refl;
    }

    train_on-IsConsistent : IsConsistent v x (train_on v live_buffer c)
    train_on-IsConsistent = elim (Bool-cases (leb c.nlist (length live_buffer))) [
      | inl e ↦ subst (IsConsistent v x) (sym (train_on_enough live_buffer c e)) run-IsConsistent
      | inr e ↦ subst (IsConsistent v x) (sym (train_on_few live_buffer c e)) h
    ]

    pub ensure_trained-IsConsistent : IsConsistent v x (ensure_trained v c)
    unfolding ensure_trained
    ensure_trained-IsConsistent =
        elim (Bool-cases (c.is_ivf && (not c.trained && leb c.nlist (length c.training_buffer)))) [
          | inl e ↦ subst (IsConsistent v x) (rw (e, ensure_trained) refl) train_on-IsConsistent
          | inr e ↦ subst (IsConsistent v x) (rw (e, ensure_trained) refl) h
        ]
