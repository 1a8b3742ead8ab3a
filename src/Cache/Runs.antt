-- ===== src/Cache/Runs.antt =====
-- Every cache that calls of `set` and `clear` reach from a new one is consistent.
use agdd.Prelude.{
  ℕ, String, ◌≡◌, ◌≢◌, refl, subst, Bool, true, false, some, [], Bool-cases, inl, inr, arith,
}
use agdd.Dict
use agdd.Dict.{get-empty}
use agdd.Value.{Fields}
use agdd.Cache.Slots.{read}
use agdd.Cache.Semantic.{Vectors, Entry, Cache, entry_at, new_cache, clear, set}
use agdd.Cache.Consistent.{IsIndex, IsConsistent}
use agdd.Cache.Placed.{set-IsConsistent}

no_entry : {E : Type 0} (i : ℕ) (e : Entry E) → entry_at [] i ≢ some e
unfolding entry_at read
no_entry i e f = ground arith

no_key : (k : String) (i : ℕ) → Dict.get (Dict.empty {V = ℕ}) k ≢ some i
no_key k i g = ground (arith, get-empty {V = ℕ} k)

module _ {E I C : Type 0} (v : Vectors E I C) where
  -- The caches of a configuration that calls reach, also calls that raise.
  pub data Reached (is_ivf : Bool) (nlist dimension : ℕ) : Cache E I → Type 0 where
    created : Reached is_ivf nlist dimension (new_cache v is_ivf nlist dimension)
    after_set :
        {c : Cache E I} (key : String) (embedding : E) (value : Fields)
        → Reached is_ivf nlist dimension c
        → Reached is_ivf nlist dimension (set v key embedding value c).0
    after_clear :
        {c : Cache E I}
        → Reached is_ivf nlist dimension c
        → Reached is_ivf nlist dimension (clear v c)

  module _ (x : IsIndex v) where
    new_cache-IsConsistent :
        (is_ivf : Bool) (nlist dimension : ℕ)
        → IsConsistent v x (new_cache v is_ivf nlist dimension)
    unfolding new_cache
    new_cache-IsConsistent is_ivf nlist dimension = record {
      below = λ i e f. absurd (no_entry i e f);
      named = λ k i g. absurd (no_key k i g);
      names = λ i e f. absurd (no_entry i e f);
      has_vector = λ i e f. absurd (no_entry i e f);
      only_live = λ i g. absurd (ground (arith, x.has_new i));
      flat = λ e. ground arith;
    }

    reset_empty : (c : Cache E I) (i : ℕ) → x.has (v.reset c.index) i ≢ true
    reset_empty c i g = ground (arith, x.has_reset c.index i)

    -- `clear` of a flat index
    abbrev emptied : Cache E I → Cache E I
    emptied c = record c {
      metadata = [];
      key_to_id = Dict.empty;
      next_id = 0;
      training_buffer = [];
      index = v.reset c.index;
    }

    emptied-IsConsistent :
        (c : Cache E I) → IsConsistent v x c → c.is_ivf ≡ false → IsConsistent v x (emptied c)
    emptied-IsConsistent c h e = record {
      below = λ i u f. absurd (no_entry i u f);
      named = λ k i g. absurd (no_key k i g);
      names = λ i u f. absurd (no_entry i u f);
      has_vector = λ i u f. absurd (no_entry i u f);
      only_live = λ i g. absurd (reset_empty c i g);
      flat = h.flat;
    }

    clear-IsConsistent : (c : Cache E I) → IsConsistent v x c → IsConsistent v x (clear v c)
    unfolding clear
    clear-IsConsistent c h = elim (Bool-cases c.is_ivf) [
      | inl e ↦
          subst (IsConsistent v x) (rw (e, clear) refl)
            (new_cache-IsConsistent true c.nlist c.dimension)
      | inr e ↦ subst (IsConsistent v x) (rw (e, clear) refl) (emptied-IsConsistent c h e)
    ]

    -- In every cache that calls of `set` and `clear` reach from a new one, of either type of
    -- index and also past calls that raise: a key names its live entry and a live entry is
    -- named by its key, every live entry has a vector in the index or in the training
    -- buffer, and the index holds vectors of live entries only.
    pub Reached-IsConsistent :
        {is_ivf : Bool} {nlist dimension : ℕ} {c : Cache E I}
        → Reached is_ivf nlist dimension c
        → IsConsistent v x c
    Reached-IsConsistent {is_ivf} {nlist} {dimension} created =
        new_cache-IsConsistent is_ivf nlist dimension
    Reached-IsConsistent (after_set k e f r) = set-IsConsistent v x k e f _ (Reached-IsConsistent r)
    Reached-IsConsistent (after_clear r) = clear-IsConsistent _ (Reached-IsConsistent r)
