-- ===== src/Cache/Slots.antt =====
-- A Python dict with integer keys, for `_metadata` of src/magsag/optimization/cache.py.
use agdd.Prelude.{ℕ, ◌≡◌, refl, Option, none, some, List, [], ◌∷◌, ◌==◌, if◌then◌else◌, arith}

module _ {ℓ} {V : Type ℓ} where
  -- m.get(i)
  unfoldable pub read : List (ℕ × V) → ℕ → Option V
  read [] i = none
  read ((j, v) ∷ l) i = if j == i then some v else read l i

  -- m[i] = v
  unfoldable pub write : ℕ → V → List (ℕ × V) → List (ℕ × V)
  write i v [] = (i, v) ∷ []
  write i v ((j, w) ∷ l) = let rest = write i v l in if j == i then (j, v) ∷ l else (j, w) ∷ rest

  pub read-write :
      (l : List (ℕ × V)) (i j : ℕ) (v : V)
      → read (write i v l) j ≡ (if i == j then some v else read l j)
  unfolding read write
  read-write [] i j v = refl
  read-write ((k, w) ∷ l) i j v = ground (arith, read-write l i j v)
