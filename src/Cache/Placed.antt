-- ===== src/Cache/Placed.antt =====
-- `set` of the cache keeps its maps, its buffer and its index consistent.
use agdd.Prelude.{
  ℕ, ◌<◌, String, ◌≡◌, ◌≢◌, refl, sym, ap, subst, ◌∙◌, true, false, not, ◌&&◌, some, [], ◌∷◌, ◌++◌,
  arith, ◌==◌, str_eq, eq_iff, if◌then◌else◌, Bool-cases, inl, inr, ◌⊎◌,
}
use agdd.Dict
use agdd.Dict.{Dict, get-put, get-put_self}
use agdd.Value.{Fields}
use agdd.Cache.Semantic.{
  Vectors, Entry, Cache, entry_at, forget, record_entry, place, store_entry, set,
}
use agdd.Cache.Consistent.{
  IsIndex, placed, IsConsistent, IsFree, entry_at-write, forget-IsFree, some-injective,
}
use agdd.Cache.Stored.{holds_snoc, ensure_trained-IsConsistent}

module _ {E I C : Type 0} (v : Vectors E I C) (x : IsIndex v) where
  module _ (u : Entry E) (c : Cache E I) (h : IsFree v x u.key c) where
    abbrev noted : Cache E I
    noted = record_entry v u c

    entry_noted :
        (i : ℕ)
        → entry_at noted.metadata i ≡ (if c.next_id == i then some u else entry_at c.metadata i)
    unfolding record_entry
    entry_noted i = entry_at-write v x c.metadata c.next_id i (some u)

    -- What is live after the recording is the new entry or was live before.
    noted_live :
        (i : ℕ) (e : Entry E)
        → entry_at noted.metadata i ≡ some e
        → ((c.next_id ≡ i) × (u ≡ e))
          ⊎ (((c.next_id == i) ≡ false) × (entry_at c.metadata i ≡ some e))
    noted_live i e f = elim (Bool-cases (c.next_id == i)) [
      | inl q ↦ inl (ground arith, some-injective v x u e (ground (arith, entry_noted i)))
      | inr q ↦ inr (q, ground (arith, entry_noted i))
    ]

    -- What was live stays, since its identifier is below the next one.
    stays_noted :
        (i : ℕ) (e : Entry E) → entry_at c.metadata i ≡ some e → entry_at noted.metadata i ≡ some e
    stays_noted i e f =
        let under : i < c.next_id = h.below i e f in ground (arith, under, entry_noted i)

    noted_new : entry_at noted.metadata c.next_id ≡ some u
    noted_new = ground (arith, entry_noted c.next_id)

    key_noted :
        (k : String)
        → Dict.get noted.key_to_id k
          ≡ (if str_eq u.key k then some c.next_id else Dict.get c.key_to_id k)
    unfolding record_entry
    key_noted k = get-put c.key_to_id u.key k c.next_id

    noted_key : Dict.get noted.key_to_id u.key ≡ some c.next_id
    unfolding record_entry
    noted_key = get-put_self c.key_to_id u.key c.next_id

    noted_below : (i : ℕ) (e : Entry E) → entry_at noted.metadata i ≡ some e → i < noted.next_id
    unfolding record_entry
    noted_below i e f = elim (noted_live i e f) [
      | inl (q, _) ↦ omega arith
      | inr (_, g) ↦ let under : i < c.next_id = h.below i e g in omega arith
    ]

    noted_named :
        (k : String) (i : ℕ)
        → Dict.get noted.key_to_id k ≡ some i
        → (e : Entry E) × (entry_at noted.metadata i ≡ some e) × (e.key ≡ k)
    noted_named k i g = elim (Bool-cases (str_eq u.key k)) [
      | inl q ↦
          let same : u.key ≡ k = ground (arith, eq_iff u.key k) in
          let new : c.next_id ≡ i =
            some-injective v x c.next_id i
              (sym noted_key ∙ ap (Dict.get noted.key_to_id) same ∙ g) in
          (u, ap (entry_at noted.metadata) (sym new) ∙ noted_new, same)
      | inr q ↦
          let ne : k ≢ u.key = λ r. ground (arith, eq_iff u.key k) in
          let was : Dict.get c.key_to_id k ≡ some i = ground (arith, key_noted k) in
          let (e, f, a) = h.named k i ne was in (e, stays_noted i e f, a)
    ]

    noted_names :
        (i : ℕ) (e : Entry E)
        → entry_at noted.metadata i ≡ some e
        → Dict.get noted.key_to_id e.key ≡ some i
    noted_names i e f = elim (noted_live i e f) [
      | inl (q, s) ↦
          subst (λ (y : Entry E). Dict.get noted.key_to_id y.key ≡ some i) s
            (subst (λ j. Dict.get noted.key_to_id u.key ≡ some j) q noted_key)
      | inr (_, g) ↦
          let (ne, d) = h.names i e g in ground (arith, key_noted e.key, eq_iff u.key e.key, d, ne)
    ]

    -- The identifier of a live entry is the new one, or had a vector before.
    vector_before :
        (i : ℕ) (e : Entry E)
        → entry_at noted.metadata i ≡ some e
        → ((c.next_id == i) ≡ true) ⊎ (placed v x c i ≡ true)
    vector_before i e f = elim (noted_live i e f) [
      | inl (q, _) ↦ inl (ground arith)
      | inr (_, g) ↦ inr (h.has_vector i e g)
    ]

    index_noted :
        (i : ℕ)
        → x.has c.index i ≡ true
        → (c.trained ≡ true) × ((e : Entry E) × (entry_at noted.metadata i ≡ some e))
    index_noted i g = let (t, (e, f)) = h.only_live i g in (t, (e, stays_noted i e f))

    abbrev buffered : Cache E I
    buffered = record noted {
      training_buffer = noted.training_buffer ++ ((c.next_id, u.embedding) ∷ []);
    }

    abbrev indexed : Cache E I
    indexed = record noted { index = v.add_with_ids noted.index ((c.next_id, u.embedding) ∷ []) }

    buffered-IsConsistent : c.trained ≡ false → IsConsistent v x buffered
    unfolding record_entry
    buffered-IsConsistent t = record {
      below = noted_below;
      named = noted_named;
      names = noted_names;
      has_vector = λ i e f. elim (vector_before i e f) [
        | inl q ↦ ground (arith, holds_snoc i c.next_id u.embedding c.training_buffer)
        | inr q ↦ ground (arith, holds_snoc i c.next_id u.embedding c.training_buffer)
      ];
      only_live = index_noted;
      flat = h.flat;
    }

    indexed-IsConsistent : c.trained ≡ true → IsConsistent v x indexed
    unfolding record_entry
    indexed-IsConsistent t = record {
      below = noted_below;
      named = noted_named;
      names = noted_names;
      has_vector = λ i e f. elim (vector_before i e f) [
        | inl q ↦ ground (arith, x.has_add c.index ((c.next_id, u.embedding) ∷ []) i)
        | inr q ↦ ground (arith, x.has_add c.index ((c.next_id, u.embedding) ∷ []) i)
      ];
      only_live = λ i g. elim (Bool-cases (c.next_id == i)) [
        | inl q ↦
            let same : c.next_id ≡ i = ground arith in
            (t, (u, ap (entry_at noted.metadata) (sym same) ∙ noted_new))
        | inr q ↦
            index_noted i (ground (arith, x.has_add c.index ((c.next_id, u.embedding) ∷ []) i))
      ];
      flat = h.flat;
    }

    place-IsConsistent : IsConsistent v x (place v c.next_id u.embedding noted)
    unfolding place record_entry
    place-IsConsistent = elim (Bool-cases (c.is_ivf && not c.trained)) [
      | inl e ↦
          let t : c.trained ≡ false = ground arith in
          subst (IsConsistent v x) (rw (e, place) refl)
            (ensure_trained-IsConsistent v x buffered (buffered-IsConsistent t) t)
      | inr e ↦
          let t : c.trained ≡ true = ground (arith, h.flat) in
          subst (IsConsistent v x) (rw (e, place) refl) (indexed-IsConsistent t)
    ]

  store_entry-IsConsistent :
      (u : Entry E) (c : Cache E I) → IsConsistent v x c → IsConsistent v x (store_entry v u c)
  unfolding store_entry
  store_entry-IsConsistent u c h =
      place-IsConsistent u (forget v u.key c) (forget-IsFree v x u.key c h)

  -- Every call of `set`, for a new key and for a key that is replaced, also when it raises,
  -- keeps the maps, the buffer and the index of a cache consistent.
  pub set-IsConsistent :
      (key : String) (embedding : E) (value : Fields) (c : Cache E I)
      → IsConsistent v x c
      → IsConsistent v x (set v key embedding value c).0
  unfolding set
  set-IsConsistent key embedding value c h =
      elim (Bool-cases (v.dimension embedding == c.dimension)) [
        | inl e ↦ subst (IsConsistent v x) (rw (e, set) refl) (
            store_entry-IsConsistent
              (record { key = key; value = value; embedding = v.normalize embedding }) c h)
        | inr e ↦ subst (IsConsistent v x) (rw (e, set) refl) h
      ]
