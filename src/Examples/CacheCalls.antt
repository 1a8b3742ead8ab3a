-- ===== src/Examples/CacheCalls.antt =====
-- A cache of vectors with one component, whose index is the list of its vectors.
use agdd.Prelude.{
  ℕ, ◌≤◌, ◌≡◌, refl, true, false, ◌||◌, List, [], ◌∷◌, ◌++◌, map, leb, length, ◌==◌, if◌then◌else◌,
  arith, All,
}
use agdd.Dict
use agdd.Value.{int, end, pos, field, Fields}
use agdd.Result.{ok}
use agdd.Cache.Semantic.{
  Vectors, Cache, Match, new_cache, set, search, store_entry, forget, record_entry, place,
  ensure_trained, train_on, active, entry_at,
}
use agdd.Cache.Slots.{read, write}
use agdd.Cache.Consistent.{holds, IsIndex, IsConsistent}
use agdd.Cache.Runs.{Reached, Reached-IsConsistent}
use agdd.Cache.Search.{IsLive, search-IsLive}

abbrev without_id : List (ℕ × ℕ) → ℕ → List (ℕ × ℕ)
without_id [] j = []
without_id ((i, e) ∷ l) j = let rest = without_id l j in if j == i then rest else (i, e) ∷ rest

abbrev flat_vectors : Vectors ℕ (List (ℕ × ℕ)) ℕ
flat_vectors = record {
  dimension = λ e. 1;
  normalize = λ e. e;
  dot = λ a b. if a == b then 1 else 0;
  at_least = λ s t. leb t s;
  distance_of = λ s. if s == 0 then 1 else 0;
  new_index = [];
  train = λ x es. x;
  add_with_ids = λ x l. l ++ x;
  remove_id = without_id;
  reset = λ x. [];
  ntotal = λ x. length x;
  search = λ x q k. map (λ (p : ℕ × ℕ). ((if p.1 == q then 1 else 0), p.0)) x;
}

holds_append : (i : ℕ) (l m : List (ℕ × ℕ)) → holds i (l ++ m) ≡ (holds i l || holds i m)
holds_append i [] m = refl
holds_append i ((j, e) ∷ l) m = ground (arith, holds_append i l m)

holds_without :
    (l : List (ℕ × ℕ)) (j i : ℕ) → holds i (without_id l j) ≡ (if j == i then false else holds i l)
holds_without [] j i = ground arith
holds_without ((k, e) ∷ l) j i = ground (arith, holds_without l j i)

abbrev flat_index : IsIndex flat_vectors
flat_index = record {
  has = λ x i. holds i x;
  has_new = λ i. refl;
  has_reset = λ x i. refl;
  has_train = λ x es i. refl;
  has_add = λ x l i. holds_append i l x;
  has_remove = λ x j i. holds_without x j i;
}

abbrev answer : ℕ → Fields
answer n = field "answer" (int (pos n)) end

-- The key is replaced once.
abbrev replaced : Cache ℕ (List (ℕ × ℕ))
replaced =
    (set flat_vectors "q" 8 (answer 2)
      (set flat_vectors "q" 7 (answer 1) (new_cache flat_vectors true 2 1)).0).0

replaced-Reached : Reached flat_vectors true 2 1 replaced
replaced-Reached =
    Reached.after_set "q" 8 (answer 2) (Reached.after_set "q" 7 (answer 1) Reached.created)

Reached-IsConsistent_example : IsConsistent flat_vectors flat_index replaced
Reached-IsConsistent_example = Reached-IsConsistent flat_vectors flat_index replaced-Reached

replaced-IsConsistent : IsConsistent flat_vectors flat_index replaced
replaced-IsConsistent = Reached-IsConsistent flat_vectors flat_index replaced-Reached

same_dimension : 1 ≡ replaced.dimension
unfolding set new_cache store_entry forget record_entry place ensure_trained train_on active
    entry_at read write Dict.get Dict.put
same_dimension = refl

search-IsLive_example :
    (l : List (Match ℕ ℕ)) × (search flat_vectors 8 5 1 replaced ≡ ok l)
    × (length l ≤ 5)
    × All (IsLive flat_vectors 1 replaced) l
search-IsLive_example =
    search-IsLive flat_vectors flat_index 1 replaced replaced-IsConsistent 8 5 same_dimension
