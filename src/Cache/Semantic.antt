-- ===== src/Cache/Semantic.antt =====
-- `FAISSCache`, src/magsag/optimization/cache.py. The arithmetic of the vectors and the FAISS index
-- are parameters: `E` is the type of embeddings, `I` of indexes and `C` of similarities. An entry that
-- was replaced stands in `_metadata` as `none`.
use agdd.Prelude.{
  ℕ, ◌+◌, ◌-◌, String, Bool, true, not, ◌&&◌, Option, none, some, List, [], ◌∷◌, ◌++◌, map, min,
  leb, ltb, length, ◌==◌, if◌then◌else◌,
}
use agdd.Dict
use agdd.Dict.{Dict}
use agdd.Value.{Fields}
use agdd.Result.{Result, ok, raise}
use agdd.Cache.Slots.{read, write}

-- What numpy and faiss compute. `normalize` leaves the zero vector alone; `train` also wraps the index
-- in an IndexIDMap2; `distance_of s` is `1.0 - s`; `search` leaves out the -1 that faiss answers when
-- it finds less than it was asked for, which names no entry.
pub record Vectors (E I C : Type 0) : Type 0 where
  pub dimension : E → ℕ
  pub normalize : E → E
  pub dot : E → E → C
  pub at_least : C → C → Bool
  pub distance_of : C → C
  pub new_index : I
  pub train : I → List E → I
  pub add_with_ids : I → List (ℕ × E) → I
  pub remove_id : I → ℕ → I
  pub reset : I → I
  pub ntotal : I → ℕ
  pub search : I → E → ℕ → List (C × ℕ)

pub record Entry (E : Type 0) : Type 0 where
  pub key : String
  pub value : Fields
  pub embedding : E

pub record Cache (E I : Type 0) : Type 0 where
  pub is_ivf : Bool
  pub nlist : ℕ
  pub dimension : ℕ
  pub metadata : List (ℕ × Option (Entry E))
  pub key_to_id : Dict ℕ
  pub next_id : ℕ
  pub training_buffer : List (ℕ × E)
  pub trained : Bool
  pub index : I

-- `CacheEntry`
pub record Match (E C : Type 0) : Type 0 where
  pub entry : Entry E
  pub distance : C

pub data CacheError : Type 0 where
  dimension_error : CacheError

-- `_metadata.get(id)`: an absent and a deleted entry are alike.
unfoldable pub entry_at : {E : Type 0} → List (ℕ × Option (Entry E)) → ℕ → Option (Entry E)
entry_at m i = elim (read m i) [ none ↦ none | some e ↦ e ]

unfoldable pub active : {E : Type 0} → List (ℕ × Option (Entry E)) → List (ℕ × E) → List (ℕ × E)
active m [] = []
active m ((i, e) ∷ l) =
    let rest = active m l in elim (entry_at m i) [ none ↦ rest | some _ ↦ (i, e) ∷ rest ]

module _ {E I C : Type 0} (v : Vectors E I C) where
  -- `__init__` and `clear`
  unfoldable pub new_cache : Bool → ℕ → ℕ → Cache E I
  new_cache is_ivf nlist dimension = record {
    is_ivf = is_ivf;
    nlist = nlist;
    dimension = dimension;
    metadata = [];
    key_to_id = Dict.empty;
    next_id = 0;
    training_buffer = [];
    trained = not is_ivf;
    index = v.new_index;
  }

  unfoldable pub clear : Cache E I → Cache E I
  clear c = if c.is_ivf then new_cache true c.nlist c.dimension else record c {
    metadata = [];
    key_to_id = Dict.empty;
    next_id = 0;
    training_buffer = [];
    index = v.reset c.index;
  }

  -- The training, once there are enough active embeddings.
  unfoldable pub train_on : List (ℕ × E) → Cache E I → Cache E I
  train_on l c =
      if leb c.nlist (length l)
      then record c {
        index = v.add_with_ids (v.train c.index (map (λ (p : ℕ × E). p.1) l)) l;
        trained = true;
        training_buffer = [];
      }
      else c

  unfoldable pub ensure_trained : Cache E I → Cache E I
  ensure_trained c =
      if c.is_ivf && (not c.trained && leb c.nlist (length c.training_buffer))
      then train_on (active c.metadata c.training_buffer) c
      else c

  -- The deletion of the entry that stands at the key.
  unfoldable pub forget : String → Cache E I → Cache E I
  forget key c = elim (Dict.get c.key_to_id key) [
    | none ↦ c
    | some old ↦ record c {
      metadata = write old none c.metadata;
      index = if c.trained then v.remove_id c.index old else c.index;
    }
  ]

  -- The new entry, under the next identifier.
  unfoldable pub record_entry : Entry E → Cache E I → Cache E I
  record_entry e c = record c {
    metadata = write c.next_id (some e) c.metadata;
    key_to_id = Dict.put c.key_to_id e.key c.next_id;
    next_id = c.next_id + 1;
  }

  -- The embedding goes to the buffer or to the index.
  unfoldable pub place : ℕ → E → Cache E I → Cache E I
  place id e c =
      if c.is_ivf && not c.trained
      then ensure_trained (record c { training_buffer = c.training_buffer ++ ((id, e) ∷ []) })
      else record c { index = v.add_with_ids c.index ((id, e) ∷ []) }

  unfoldable pub store_entry : Entry E → Cache E I → Cache E I
  store_entry e c = let d = forget e.key c in place d.next_id e.embedding (record_entry e d)

  unfoldable pub set : String → E → Fields → Cache E I → Cache E I × Result CacheError (Unit {0})
  set key embedding value c =
      if v.dimension embedding == c.dimension
      then (
        store_entry (record { key = key; value = value; embedding = v.normalize embedding }) c,
        ok tt,
      )
      else (c, raise dimension_error)

  unfoldable pub search_buffer :
      E → C → List (ℕ × Option (Entry E)) → List (ℕ × E) → List (Match E C)
  search_buffer query threshold m [] = []
  search_buffer query threshold m ((i, e) ∷ l) =
      let rest = search_buffer query threshold m l in
      if v.at_least (v.dot query e) threshold
      then elim (entry_at m i) [
        | none ↦ rest
        | some x ↦ record { entry = x; distance = v.distance_of (v.dot query e) } ∷ rest
      ]
      else rest

  unfoldable pub search_index : C → List (ℕ × Option (Entry E)) → List (C × ℕ) → List (Match E C)
  search_index threshold m [] = []
  search_index threshold m ((s, i) ∷ l) =
      let rest = search_index threshold m l in
      if v.at_least s threshold
      then elim (entry_at m i) [
        | none ↦ rest
        | some x ↦ record { entry = x; distance = v.distance_of s } ∷ rest
      ]
      else rest

  -- `sort(key=distance)`: the nearest first, in the order found where equal.
  unfoldable pub insert_match : Match E C → List (Match E C) → List (Match E C)
  insert_match x [] = x ∷ []
  insert_match x (y ∷ l) =
      let rest = insert_match x l in
      if v.at_least y.distance x.distance then x ∷ y ∷ l else y ∷ rest

  unfoldable pub sort_matches : List (Match E C) → List (Match E C)
  sort_matches [] = []
  sort_matches (x ∷ l) = insert_match x (sort_matches l)

  unfoldable pub take : ℕ → List (Match E C) → List (Match E C)
  take n [] = []
  take n (x ∷ l) = if n == 0 then [] else x ∷ take (n - 1) l

  -- The matches in the buffer and then those in the index.
  unfoldable pub found_in : E → ℕ → C → Cache E I → List (Match E C)
  found_in q k threshold c =
      search_buffer q threshold c.metadata c.training_buffer
      ++ (if c.trained && ltb 0 (v.ntotal c.index)
          then search_index threshold c.metadata (v.search c.index q (min k (v.ntotal c.index)))
          else [])

  unfoldable pub search : E → ℕ → C → Cache E I → Result CacheError (List (Match E C))
  search query k threshold c =
      if v.dimension query == c.dimension
      then (if c.next_id == 0
          then ok []
          else ok (take k (sort_matches (found_in (v.normalize query) k threshold c))))
      else raise dimension_error

  unfoldable pub size : Cache E I → ℕ
  size c = length (Dict.items c.key_to_id)
