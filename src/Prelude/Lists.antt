-- ===== src/Prelude/Lists.antt =====
-- Lists measured by native numbers, under the library's names, and options in sequence.
use Prim.Native.Nat.{ℕ, suc, ◌+◌}
use mathlib.Core.Path.{◌≡◌, sym, subst}
use mathlib.Core.List.{List, [], ◌∷◌, ◌++◌, Memᴰ}
use mathlib.Core.Option.{Option, none, some}
use native.Mathlib.Omega.{arith}

module _ {ℓ} {A : Type ℓ} where
  abbrev pub length : List A → ℕ
  length [] = 0
  length (x ∷ xs) = suc (length xs)

  pub length-append : (xs ys : List A) → length (xs ++ ys) ≡ length xs + length ys
  length-append [] ys = omega arith
  length-append (x ∷ xs) ys = omega (arith, length-append xs ys)

  -- Python's `a or b` on a value that may be `None`.
  abbrev pub get_or : Option A → A → A
  get_or none d = d
  get_or (some a) d = a

-- A predicate of every element.
abbrev pub All {ℓ κ} : {A : Type ℓ} → (A → Type κ) → List A → Type κ
All P [] = Unit
All P (x ∷ xs) = P x × All P xs

module _ {ℓ κ} {A : Type ℓ} (P : A → Type κ) where
  pub All-append : (xs ys : List A) → All P xs → All P ys → All P (xs ++ ys)
  All-append [] ys hx hy = hy
  All-append (x ∷ xs) ys hx hy = (hx.0, All-append xs ys hx.1 hy)

  pub All-mem : {x : A} (xs : List A) → All P xs → Memᴰ x xs → P x
  All-mem [] h m = elim m [ ]
  All-mem (y ∷ ys) h (Memᴰ.head e) = subst P (sym e) h.0
  All-mem (y ∷ ys) h (Memᴰ.tail m) = All-mem ys h.1 m

module _ {ℓ} {A : Type ℓ} where
  pub swap_first : {x y z : A} {l : List A} → Memᴰ x (y ∷ z ∷ l) → Memᴰ x (z ∷ y ∷ l)
  swap_first (Memᴰ.head e) = Memᴰ.tail (Memᴰ.head e)
  swap_first (Memᴰ.tail (Memᴰ.head e)) = Memᴰ.head e
  swap_first (Memᴰ.tail (Memᴰ.tail m)) = Memᴰ.tail (Memᴰ.tail m)

  pub keep_head : {x y : A} {l m : List A} → (Memᴰ x l → Memᴰ x m) → Memᴰ x (y ∷ l) → Memᴰ x (y ∷ m)
  keep_head f (Memᴰ.head e) = Memᴰ.head e
  keep_head f (Memᴰ.tail q) = Memᴰ.tail (f q)

module _ {ℓ κ μ} {A : Type ℓ} {P : A → Type κ} {Q : A → Type μ} where
  pub All-weaken : ((x : A) → P x → Q x) → (xs : List A) → All P xs → All Q xs
  All-weaken f [] h = tt
  All-weaken f (x ∷ xs) h = (f x h.0, All-weaken f xs h.1)
