-- ===== src/Cache/Consistent.antt =====
-- The maps of the cache, its buffer and its index agree, and `set` keeps it so.
use agdd.Prelude.{
  ℕ, ◌<◌, String, ◌≡◌, ◌≢◌, refl, sym, ap, subst, ◌∙◌, Bool, true, false, ◌||◌, inl, inr, Option,
  none, some, List, [], ◌∷◌, arith, ◌==◌, if◌then◌else◌, Bool-cases, Option-cases,
}
use agdd.Dict
use agdd.Dict.{Dict, get-put, get-put_self, get-empty}
use agdd.Cache.Slots.{write, read-write}
use agdd.Cache.Semantic.{Vectors, Entry, Cache, entry_at, forget}

abbrev pub holds {ℓ} : {A : Type ℓ} → ℕ → List (ℕ × A) → Bool
holds i [] = false
holds i ((j, e) ∷ l) = (j == i) || holds i l

-- What the cache relies on in faiss: which identifiers an index holds.
pub record IsIndex {E I C : Type 0} (v : Vectors E I C) : Type 0 where
  pub has : I → ℕ → Bool
  pub has_new : (i : ℕ) → has v.new_index i ≡ false
  pub has_reset : (x : I) (i : ℕ) → has (v.reset x) i ≡ false
  pub has_train : (x : I) (es : List E) (i : ℕ) → has (v.train x es) i ≡ has x i
  pub has_add :
      (x : I) (l : List (ℕ × E)) (i : ℕ) → has (v.add_with_ids x l) i ≡ (holds i l || has x i)
  pub has_remove : (x : I) (j i : ℕ) → has (v.remove_id x j) i ≡ (if j == i then false else has x i)

module _ {E I C : Type 0} (v : Vectors E I C) (x : IsIndex v) where
  -- The identifier has a vector: in the index, or in the buffer while the index is not trained.
  abbrev pub placed : Cache E I → ℕ → Bool
  placed c i = if c.trained then x.has c.index i else holds i c.training_buffer

  pub record IsConsistent (c : Cache E I) : Type 0 where
    -- Identifiers are below the next one.
    pub below : (i : ℕ) (e : Entry E) → entry_at c.metadata i ≡ some e → i < c.next_id
    -- A key names its live entry, and a live entry is named by its key.
    pub named :
        (k : String) (i : ℕ)
        → Dict.get c.key_to_id k ≡ some i
        → (e : Entry E) × (entry_at c.metadata i ≡ some e) × (e.key ≡ k)
    pub names :
        (i : ℕ) (e : Entry E) → entry_at c.metadata i ≡ some e → Dict.get c.key_to_id e.key ≡ some i
    -- Every live entry has a vector, and the index has vectors of live entries only.
    pub has_vector : (i : ℕ) (e : Entry E) → entry_at c.metadata i ≡ some e → placed c i ≡ true
    pub only_live :
        (i : ℕ)
        → x.has c.index i ≡ true
        → (c.trained ≡ true) × ((e : Entry E) × (entry_at c.metadata i ≡ some e))
    pub flat : c.is_ivf ≡ false → c.trained ≡ true

  pub entry_at-write :
      (m : List (ℕ × Option (Entry E))) (i j : ℕ) (o : Option (Entry E))
      → entry_at (write i o m) j ≡ (if i == j then o else entry_at m j)
  unfolding entry_at
  entry_at-write m i j o = ground (arith, read-write m i j o)

  -- The state between the deletion of an old entry and the recording of the new one: no live entry has
  -- the key.
  pub record IsFree (k : String) (c : Cache E I) : Type 0 where
    pub below : (i : ℕ) (e : Entry E) → entry_at c.metadata i ≡ some e → i < c.next_id
    pub named :
        (j : String) (i : ℕ)
        → j ≢ k
        → Dict.get c.key_to_id j ≡ some i
        → (e : Entry E) × (entry_at c.metadata i ≡ some e) × (e.key ≡ j)
    pub names :
        (i : ℕ) (e : Entry E)
        → entry_at c.metadata i ≡ some e
        → (e.key ≢ k) × (Dict.get c.key_to_id e.key ≡ some i)
    pub has_vector : (i : ℕ) (e : Entry E) → entry_at c.metadata i ≡ some e → placed c i ≡ true
    pub only_live :
        (i : ℕ)
        → x.has c.index i ≡ true
        → (c.trained ≡ true) × ((e : Entry E) × (entry_at c.metadata i ≡ some e))
    pub flat : c.is_ivf ≡ false → c.trained ≡ true

  abbrev forgotten : ℕ → Cache E I → Cache E I
  forgotten old c = record c {
    metadata = write old none c.metadata;
    index = if c.trained then v.remove_id c.index old else c.index;
  }

  forget_known :
      (k : String) (old : ℕ) (c : Cache E I)
      → Dict.get c.key_to_id k ≡ some old
      → forget v k c ≡ forgotten old c
  unfolding forget write
  forget_known k old c h = rw (h, forget) refl

  forget_unknown : (k : String) (c : Cache E I) → Dict.get c.key_to_id k ≡ none → forget v k c ≡ c
  unfolding forget
  forget_unknown k c h = rw (h, forget) refl

  unknown-IsFree :
      (k : String) (c : Cache E I) → IsConsistent c → Dict.get c.key_to_id k ≡ none → IsFree k c
  unknown-IsFree k c h new = record {
    below = h.below;
    named = λ j i ne g. h.named j i g;
    names = λ i e f.
        ((λ q. absurd (cc (ap (Dict.get c.key_to_id) q, h.names i e f, new))), h.names i e f);
    has_vector = h.has_vector;
    only_live = h.only_live;
    flat = h.flat;
  }

  pub some-injective : {A : Type 0} (a b : A) → some a ≡ some b → a ≡ b
  some-injective a b e = ground arith

  module _ (k : String) (old : ℕ) (c : Cache E I) (h : IsConsistent c)
      (known : Dict.get c.key_to_id k ≡ some old) where
    -- What is live after the deletion was live before, and is not the deleted entry.
    still_live :
        (i : ℕ) (e : Entry E)
        → entry_at (write old none c.metadata) i ≡ some e
        → ((old == i) ≡ false) × (entry_at c.metadata i ≡ some e)
    still_live i e f = (
      ground (arith, entry_at-write c.metadata old i none),
      ground (arith, entry_at-write c.metadata old i none),
    )

    stays_live :
        (i : ℕ) (e : Entry E)
        → (old == i) ≡ false
        → entry_at c.metadata i ≡ some e
        → entry_at (write old none c.metadata) i ≡ some e
    stays_live i e ne f = ground (arith, entry_at-write c.metadata old i none)

    other_id : (j : String) (i : ℕ) → j ≢ k → Dict.get c.key_to_id j ≡ some i → (old == i) ≡ false
    other_id j i ne g = elim (Bool-cases (old == i)) [
      | inr q ↦ q
      | inl q ↦
          let same : old ≡ i = ground arith in
          let (e, f, a) = h.named j i g in
          let (u, w, b) = h.named k old known in
          let eu : e ≡ u = some-injective e u (sym f ∙ ap (entry_at c.metadata) (sym same) ∙ w) in
          absurd (ne (sym a ∙ ap (λ (y : Entry E). y.key) eu ∙ b))
    ]

    other_key :
        (i : ℕ) (e : Entry E) → (old == i) ≡ false → entry_at c.metadata i ≡ some e → e.key ≢ k
    other_key i e ne f q =
        let same : some i ≡ some old = sym (h.names i e f) ∙ ap (Dict.get c.key_to_id) q ∙ known in
        absurd (ground (arith, same))

    vector_stays : (i : ℕ) → (old == i) ≡ false → placed (forgotten old c) i ≡ placed c i
    vector_stays i ne = ground (arith, x.has_remove c.index old i)

    index_live :
        (i : ℕ)
        → x.has (forgotten old c).index i ≡ true
        → ((old == i) ≡ false) × (x.has c.index i ≡ true)
    index_live i g = elim (Bool-cases c.trained) [
      | inl t ↦
          (ground (arith, x.has_remove c.index old i), ground (arith, x.has_remove c.index old i))
      | inr t ↦
          let held : x.has c.index i ≡ true = ground arith in
          absurd (cc (t, (h.only_live i held).0))
    ]

    forgotten-IsFree : IsFree k (forgotten old c)
    forgotten-IsFree = record {
      below = λ i e f. h.below i e (still_live i e f).1;
      named =
          λ j i ne g. let (e, f, a) = h.named j i g in (e, stays_live i e (other_id j i ne g) f, a);
      names = λ i e f. let (ne, f') = still_live i e f in (other_key i e ne f', h.names i e f');
      has_vector =
          λ i e f. let (ne, f') = still_live i e f in vector_stays i ne ∙ h.has_vector i e f';
      only_live = λ i g.
          let (ne, g') = index_live i g in
          let (t, (e, f)) = h.only_live i g' in (t, (e, stays_live i e ne f));
      flat = h.flat;
    }

  pub forget-IsFree : (k : String) (c : Cache E I) → IsConsistent c → IsFree k (forget v k c)
  forget-IsFree k c h = elim (Option-cases (Dict.get c.key_to_id k)) [
    | inl e ↦ subst (IsFree k) (sym (forget_unknown k c e)) (unknown-IsFree k c h e)
    | inr (old, e) ↦ subst (IsFree k) (sym (forget_known k old c e)) (forgotten-IsFree k old c h e)
  ]
