-- ===== src/Cache/Search.antt =====
-- What `search` of the cache returns.
use agdd.Prelude.{
  ℕ, ◌-◌, ◌≤◌, ◌≡◌, refl, true, false, ◌&&◌, some, List, [], ◌∷◌, arith, min, ltb, length, ◌==◌,
  if◌then◌else◌, Bool-cases, Option-cases, inl, inr, All, All-append,
}
use agdd.Dict
use agdd.Dict.{Dict}
use agdd.Result.{ok}
use agdd.Cache.Semantic.{
  Vectors, Cache, Match, entry_at, search_buffer, search_index, insert_match, sort_matches, take,
  found_in, search,
}
use agdd.Cache.Consistent.{IsIndex, IsConsistent}

module _ {E I C : Type 0} (v : Vectors E I C) where
  module _ (P : Match E C → Type 0) where
    insert_match-All :
        (y : Match E C) (l : List (Match E C)) → P y → All P l → All P (insert_match v y l)
    unfolding insert_match
    insert_match-All y [] p a = (p, a)
    insert_match-All y (z ∷ l) p a =
        elim (v.at_least z.distance y.distance)
          as (λ b. All P (if b then y ∷ z ∷ l else z ∷ insert_match v y l)) [
            | true ↦ (p, a)
            | false ↦ (a.0, insert_match-All y l p a.1)
          ]

    sort_matches-All : (l : List (Match E C)) → All P l → All P (sort_matches v l)
    unfolding sort_matches
    sort_matches-All [] a = a
    sort_matches-All (y ∷ l) a = insert_match-All y (sort_matches v l) a.0 (sort_matches-All l a.1)

    take-All : (n : ℕ) (l : List (Match E C)) → All P l → All P (take v n l)
    unfolding take
    take-All n [] a = a
    take-All n (y ∷ l) a = elim (n == 0) as (λ b. All P (if b then [] else y ∷ take v (n - 1) l)) [
      | true ↦ tt
      | false ↦ (a.0, take-All (n - 1) l a.1)
    ]

  length-take : (n : ℕ) (l : List (Match E C)) → length (take v n l) ≤ n
  unfolding take
  length-take n [] = omega arith
  length-take n (y ∷ l) = let h = length-take (n - 1) l in ground arith

  -- The match is an entry that stands under its key, with a similarity of the threshold or more.
  pub record IsLive (threshold : C) (c : Cache E I) (y : Match E C) : Type 0 where
    pub id : ℕ
    pub current : Dict.get c.key_to_id y.entry.key ≡ some id
    pub stored : entry_at c.metadata id ≡ some y.entry
    pub similarity : C
    pub far : y.distance ≡ v.distance_of similarity
    pub similar : v.at_least similarity threshold ≡ true

  module _ (x : IsIndex v) (threshold : C) (c : Cache E I) (h : IsConsistent v x c) where
    search_buffer-IsLive :
        (q : E) (l : List (ℕ × E))
        → All (IsLive threshold c) (search_buffer v q threshold c.metadata l)
    unfolding search_buffer
    search_buffer-IsLive q [] = tt
    search_buffer-IsLive q ((i, e) ∷ l) =
        let rest = search_buffer-IsLive q l in
        elim (Bool-cases (v.at_least (v.dot q e) threshold)) [
          | inr a ↦ rw (a, search_buffer) rest
          | inl a ↦ elim (Option-cases (entry_at c.metadata i)) [
            | inl n ↦ rw (a, n, search_buffer) rest
            | inr (u, f) ↦
                rw (a, f, search_buffer)
                  (
                    record {
                      id = i;
                      current = h.names i u f;
                      stored = f;
                      similarity = v.dot q e;
                      far = refl;
                      similar = a;
                    },
                    rest,
                  )
          ]
        ]

    search_index-IsLive :
        (l : List (C × ℕ)) → All (IsLive threshold c) (search_index v threshold c.metadata l)
    unfolding search_index
    search_index-IsLive [] = tt
    search_index-IsLive ((s, i) ∷ l) =
        let rest = search_index-IsLive l in
        elim (Bool-cases (v.at_least s threshold)) [
          | inr a ↦ rw (a, search_index) rest
          | inl a ↦ elim (Option-cases (entry_at c.metadata i)) [
            | inl n ↦ rw (a, n, search_index) rest
            | inr (u, f) ↦
                rw (a, f, search_index)
                  (
                    record {
                      id = i;
                      current = h.names i u f;
                      stored = f;
                      similarity = s;
                      far = refl;
                      similar = a;
                    },
                    rest,
                  )
          ]
        ]

    found_in-IsLive : (q : E) (k : ℕ) → All (IsLive threshold c) (found_in v q k threshold c)
    unfolding found_in
    found_in-IsLive q k =
        All-append (IsLive threshold c) _ _ (search_buffer-IsLive q c.training_buffer)
          (elim (c.trained && ltb 0 (v.ntotal c.index))
            as (λ b. All (IsLive threshold c) (
              if b
              then search_index v threshold c.metadata
                  (v.search c.index q (min k (v.ntotal c.index)))
              else [])) [
                | true ↦ search_index-IsLive (v.search c.index q (min k (v.ntotal c.index)))
                | false ↦ tt
              ])

    -- A search with a query of the right dimension returns at most `k` matches, whatever the
    -- index answers, and each is the entry that stands in the cache under its key, never a
    -- replaced one, with a similarity of the threshold or more. The cache is consistent.
    pub search-IsLive :
        (q : E) (k : ℕ)
        → v.dimension q ≡ c.dimension
        → (l : List (Match E C)) × (search v q k threshold c ≡ ok l)
          × (length l ≤ k)
          × All (IsLive threshold c) l
    unfolding search
    search-IsLive q k d = elim (Bool-cases (c.next_id == 0)) [
      | inl e ↦ ([], ground (arith, d), omega arith, tt)
      | inr e ↦
          let l = sort_matches v (found_in v (v.normalize q) k threshold c) in
          (
            take v k l,
            ground (arith, d),
            length-take k l,
            take-All (IsLive threshold c) k l
                (sort_matches-All (IsLive threshold c) _ (found_in-IsLive (v.normalize q) k)),
          )
    ]
