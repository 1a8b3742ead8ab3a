-- ===== src/Dict.antt =====
-- Python's `dict` with text keys: the entries in the order of their insertion.
pub mod Distinct
use agdd.Prelude.{
  String, ◌≡◌, ◌≢◌, ap, ◌++◌, map, refl, Option, none, some, List, [], ◌∷◌, arith, str_eq, eq_iff,
  sym, eq_refl, if◌then◌else◌, All, Bool-cases, inl, inr, subst,
}

pub record Dict {ℓ} (V : Type ℓ) : Type ℓ where
  pub entries : List (String × V)

module _ {ℓ} {V : Type ℓ} where
  abbrev lookup : String → List (String × V) → Option V
  lookup k [] = none
  lookup k ((j, v) ∷ l) = if str_eq j k then some v else lookup k l

  abbrev store : String → V → List (String × V) → List (String × V)
  store k v [] = (k, v) ∷ []
  store k v ((j, w) ∷ l) =
      let rest = store k v l in if str_eq j k then (j, v) ∷ l else (j, w) ∷ rest

  abbrev without : String → List (String × V) → List (String × V)
  without k [] = []
  without k ((j, v) ∷ l) = let rest = without k l in if str_eq j k then rest else (j, v) ∷ rest

  unfoldable pub empty : Dict V
  empty = record { entries = [] }

  -- d.get(k)
  unfoldable pub get : Dict V → String → Option V
  unfolding empty
  get d k = lookup k d.entries

  -- d[k] = v
  unfoldable pub put : Dict V → String → V → Dict V
  unfolding empty
  put d k v = record { entries = store k v d.entries }

  -- d.pop(k, None)
  unfoldable pub remove : Dict V → String → Dict V
  unfolding empty
  remove d k = record { entries = without k d.entries }

  -- d.items()
  abbrev pub items : Dict V → List (String × V)
  items d = d.entries

  lookup-store :
      (k j : String) (v : V) (l : List (String × V))
      → lookup j (store k v l) ≡ (if str_eq k j then some v else lookup j l)
  lookup-store k j v [] = refl
  lookup-store k j v ((i, w) ∷ l) =
      ground (arith, eq_iff k j, eq_iff i k, eq_iff i j, lookup-store k j v l)

  lookup-without :
      (k j : String) (l : List (String × V))
      → lookup j (without k l) ≡ (if str_eq k j then none else lookup j l)
  lookup-without k j [] = ground arith
  lookup-without k j ((i, w) ∷ l) =
      ground (arith, eq_iff k j, eq_iff i k, eq_iff i j, lookup-without k j l)

  pub get-put :
      (d : Dict V) (k j : String) (v : V)
      → get (put d k v) j ≡ (if str_eq k j then some v else get d j)
  unfolding get put
  get-put d k j v = lookup-store k j v d.entries

  pub get-remove :
      (d : Dict V) (k j : String) → get (remove d k) j ≡ (if str_eq k j then none else get d j)
  unfolding get remove
  get-remove d k j = lookup-without k j d.entries

  store-store :
      (k : String) (v w : V) (l : List (String × V)) → store k w (store k v l) ≡ store k w l
  store-store k v w [] = simp eq_refl
  store-store k v w ((j, u) ∷ l) = elim (Bool-cases (str_eq j k)) [
    | inl e ↦ rw (e, e) refl
    | inr e ↦ rw (e, e) (ap (λ (r : List (String × V)). (j, u) ∷ r) (store-store k v w l))
  ]

  -- The later of two writes to a key stays.
  pub put-put : (d : Dict V) (k : String) (v w : V) → put (put d k v) k w ≡ put d k w
  unfolding put
  put-put d k v w =
      ap (λ (l : List (String × V)). record { entries = l }) (store-store k v w d.entries)

  store_new :
      (k : String) (v : V) (l : List (String × V))
      → lookup k l ≡ none
      → store k v l ≡ l ++ ((k, v) ∷ [])
  store_new k v [] h = refl
  store_new k v ((j, w) ∷ l) h = elim (Bool-cases (str_eq j k)) [
    | inl e ↦ absurd (ground arith)
    | inr e ↦ ground (arith, store_new k v l)
  ]

  store_apart :
      (j k : String) (v w u : V) (l : List (String × V))
      → lookup j l ≡ some u
      → j ≢ k
      → store j v (store k w l) ≡ store k w (store j v l)
  store_apart j k v w u [] h ne = cc
  store_apart j k v w u ((i, x) ∷ l) h ne = elim (Bool-cases (str_eq i j)) [
    | inl e ↦ ground (arith, eq_iff i j, eq_iff i k)
    | inr e ↦ elim (Bool-cases (str_eq i k)) [
      | inl a ↦ rw (e, a, e) refl
      | inr a ↦
          rw (e, a, e)
            (ap (λ (r : List (String × V)). (i, x) ∷ r) (store_apart j k v w u l (ground arith) ne))
    ]
  ]

  -- A write to a key that is there can come before a write to another key.
  pub put-put_apart :
      (d : Dict V) (j k : String) (v w u : V)
      → get d j ≡ some u
      → j ≢ k
      → put (put d k w) j v ≡ put (put d j v) k w
  unfolding get put
  put-put_apart d j k v w u h ne =
      ap (λ (l : List (String × V)). record { entries = l }) (store_apart j k v w u d.entries h ne)

  -- A new key comes last.
  pub items-put_new :
      (d : Dict V) (k : String) (v : V)
      → get d k ≡ none
      → items (put d k v) ≡ items d ++ ((k, v) ∷ [])
  unfolding get put
  items-put_new d k v h = store_new k v d.entries h

  -- The keys, in their order.
  abbrev pub keys : Dict V → List String
  keys d = map (λ (e : String × V). e.0) d.entries

  store_known :
      (k : String) (v w : V) (l : List (String × V))
      → lookup k l ≡ some w
      → map (λ (e : String × V). e.0) (store k v l) ≡ map (λ (e : String × V). e.0) l
  store_known k v w [] h = cc
  store_known k v w ((j, u) ∷ l) h = elim (Bool-cases (str_eq j k)) [
    | inl e ↦ rw e refl
    | inr e ↦ rw e (ap (λ (ks : List String). j ∷ ks) (store_known k v w l (ground arith)))
  ]

  -- A key that is there keeps its place.
  pub keys-put_known :
      (d : Dict V) (k : String) (v w : V) → get d k ≡ some w → keys (put d k v) ≡ keys d
  unfolding get put
  keys-put_known d k v w h = store_known k v w d.entries h

module _ {ℓ κ} {V : Type ℓ} (P : String × V → Type κ) where
  All-without :
      (k : String) (l : List (String × V)) → All P l → All (λ e. P e × (e.0 ≢ k)) (without k l)
  All-without k [] h = tt
  All-without k ((j, w) ∷ l) h = elim (Bool-cases (str_eq j k)) [
    | inl e ↦ rw (e, without) (All-without k l h.1)
    | inr e ↦ rw (e, without) ((h.0, λ q. ground (arith, eq_iff j k)), All-without k l h.1)
  ]

  -- What is left after a removal has another key.
  pub All-remove :
      (d : Dict V) (k : String) → All P (items d) → All (λ e. P e × (e.0 ≢ k)) (items (remove d k))
  unfolding remove
  All-remove d k h = All-without k d.entries h

  All-store :
      (k : String) (v : V) (l : List (String × V)) → P (k, v) → All P l → All P (store k v l)
  All-store k v [] p h = (p, tt)
  All-store k v ((j, w) ∷ l) p h = elim (Bool-cases (str_eq j k)) [
    | inl e ↦ rw e (subst (λ i. P (i, v)) (sym ((eq_iff j k).0 e)) p, h.1)
    | inr e ↦ rw e (h.0, All-store k v l p h.1)
  ]

  -- What holds of every entry and of the one that is written holds of every entry after it.
  pub All-put :
      (d : Dict V) (k : String) (v : V) → P (k, v) → All P (items d) → All P (items (put d k v))
  unfolding put
  All-put d k v p h = All-store k v d.entries p h

  All-lookup :
      (k : String) (l : List (String × V)) {v : V} → All P l → lookup k l ≡ some v → P (k, v)
  All-lookup k [] h e = cc
  All-lookup k ((j, w) ∷ l) {v} h e = elim (Bool-cases (str_eq j k)) [
    | inl b ↦ subst P (ground (arith, eq_iff j k)) h.0
    | inr b ↦ All-lookup k l h.1 (ground arith)
  ]

  -- What holds of every entry holds of the one that is read.
  pub All-get : (d : Dict V) (k : String) {v : V} → All P (items d) → get d k ≡ some v → P (k, v)
  unfolding get
  All-get d k h e = All-lookup k d.entries h e

pub get-empty {ℓ} : {V : Type ℓ} (k : String) → get (empty {V = V}) k ≡ none
unfolding get
get-empty k = refl

pub get-put_self {ℓ} : {V : Type ℓ} (d : Dict V) (k : String) (v : V) → get (put d k v) k ≡ some v
get-put_self d k v = simp (get-put, eq_refl)

pub ruleset dict_laws = (get-empty, get-put, get-remove)
