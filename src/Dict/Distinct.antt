-- ===== src/Dict/Distinct.antt =====
-- Every key of a Python dict is there once.
use agdd.Prelude.{
  keep_head, String, ◌≡◌, ◌≢◌, refl, sym, ap, subst, none, some, List, [], ◌∷◌, ◌++◌, map, Memᴰ,
  arith, str_eq, eq_iff, Bool-cases, Option-cases, true, false, inl, inr,
}
use agdd.Dict
use agdd.Dict.{Dict, lookup, without, items-put_new, keys-put_known, get-remove}

abbrev pub Absent : String → List String → Type 0
Absent k ks = Memᴰ k ks → ⊥

abbrev pub Distinct : List String → Type 0
Distinct [] = Unit
Distinct (k ∷ ks) = Absent k ks × Distinct ks

-- No key stands twice.
pub record HasDistinctKeys {ℓ} {V : Type ℓ} (d : Dict V) : Type 0 where
  pub distinct : Distinct (Dict.keys d)

pub Absent-last :
    (j k : String) (ks : List String) → Absent j ks → j ≢ k → Absent j (ks ++ (k ∷ []))
Absent-last j k [] h ne (Memᴰ.head e) = ne e
Absent-last j k [] h ne (Memᴰ.tail m) = elim m [ ]
Absent-last j k (i ∷ ks) h ne (Memᴰ.head e) = h (Memᴰ.head e)
Absent-last j k (i ∷ ks) h ne (Memᴰ.tail m) = Absent-last j k ks (λ q. h (Memᴰ.tail q)) ne m

pub Distinct-last :
    (k : String) (ks : List String) → Distinct ks → Absent k ks → Distinct (ks ++ (k ∷ []))
Distinct-last k [] h a = ((λ m. elim m [ ]), tt)
Distinct-last k (j ∷ ks) h a = (
  Absent-last j k ks h.0 (λ e. a (Memᴰ.head (sym e))),
  Distinct-last k ks h.1 (λ m. a (Memᴰ.tail m)),
)

module _ {ℓ} {V : Type ℓ} where
  abbrev keys_of : List (String × V) → List String
  keys_of = map (λ (e : String × V). e.0)

  lookup-Absent : (k : String) (l : List (String × V)) → lookup k l ≡ none → Absent k (keys_of l)
  lookup-Absent k [] h m = elim m [ ]
  lookup-Absent k ((j, v) ∷ l) h (Memᴰ.head e) = absurd (ground (arith, eq_iff j k, sym e))
  lookup-Absent k ((j, v) ∷ l) h (Memᴰ.tail m) = elim (Bool-cases (str_eq j k)) [
    | inl e ↦ absurd (ground arith)
    | inr e ↦ lookup-Absent k l (ground arith) m
  ]

  pub get-Absent : (d : Dict V) (k : String) → Dict.get d k ≡ none → Absent k (Dict.keys d)
  unfolding Dict.get
  get-Absent d k h = lookup-Absent k d.entries h

  key_mem : (k : String) (w : V) (l : List (String × V)) → Memᴰ (k, w) l → Memᴰ k (keys_of l)
  key_mem k w [] m = elim m [ ]
  key_mem k w (e ∷ l) (Memᴰ.head q) = Memᴰ.head (ap (λ (x : String × V). x.0) q)
  key_mem k w (e ∷ l) (Memᴰ.tail m) = Memᴰ.tail (key_mem k w l m)

  lookup_entry :
      (k : String) (v w : V) (l : List (String × V))
      → Distinct (keys_of l)
      → lookup k l ≡ some v
      → Memᴰ (k, w) l
      → w ≡ v
  lookup_entry k v w [] h e m = elim m [ ]
  lookup_entry k v w ((j, u) ∷ l) h e (Memᴰ.head q) =
      ground (arith, eq_iff j k, ap (λ (x : String × V). x.0) q, ap (λ (x : String × V). x.1) q)
  lookup_entry k v w ((j, u) ∷ l) h e (Memᴰ.tail m) = elim (Bool-cases (str_eq j k)) [
    | inl b ↦
        absurd (h.0 (subst (λ i. Memᴰ i (keys_of l)) (sym ((eq_iff j k).0 b)) (key_mem k w l m)))
    | inr b ↦ lookup_entry k v w l h.1 (ground arith) m
  ]

  -- Where no key stands twice, what is read at a key is its one entry.
  pub get_entry :
      (d : Dict V) (k : String) (v w : V)
      → HasDistinctKeys d
      → Dict.get d k ≡ some v
      → Memᴰ (k, w) (Dict.items d)
      → w ≡ v
  unfolding Dict.get
  get_entry d k v w h e m = lookup_entry k v w d.entries h.distinct e m

  keys_last :
      (l : List (String × V)) (k : String) (v : V)
      → keys_of (l ++ ((k, v) ∷ [])) ≡ keys_of l ++ (k ∷ [])
  keys_last [] k v = refl
  keys_last ((j, w) ∷ l) k v = ap (λ (ks : List String). j ∷ ks) (keys_last l k v)

  pub put-HasDistinctKeys :
      (d : Dict V) (k : String) (v : V) → HasDistinctKeys d → HasDistinctKeys (Dict.put d k v)
  put-HasDistinctKeys d k v h = elim (Option-cases (Dict.get d k)) [
    | inl e ↦ record {
      distinct = rw (items-put_new d k v e) (
          rw (keys_last (Dict.items d) k v)
            (Distinct-last k (Dict.keys d) h.distinct (get-Absent d k e)));
    }
    | inr (w, e) ↦ record { distinct = subst Distinct (sym (keys-put_known d k v w e)) h.distinct }
  ]

  mem_without :
      (j k : String) (l : List (String × V)) → Memᴰ j (keys_of (without k l)) → Memᴰ j (keys_of l)
  mem_without j k [] m = elim m [ ]
  mem_without j k ((i, w) ∷ l) m = elim (Bool-cases (str_eq i k)) [
    | inl e ↦
        Memᴰ.tail (
          mem_without j k l (subst (λ (es : List (String × V)). Memᴰ j (keys_of es)) (dropped e) m))
    | inr e ↦
        keep_head (mem_without j k l)
          (subst (λ (es : List (String × V)). Memᴰ j (keys_of es)) (kept e) m)
  ]
    where
      dropped : str_eq i k ≡ true → without k ((i, w) ∷ l) ≡ without k l
      dropped e = rw e refl

      kept : str_eq i k ≡ false → without k ((i, w) ∷ l) ≡ (i, w) ∷ without k l
      kept e = rw e refl

  Distinct-without :
      (k : String) (l : List (String × V)) → Distinct (keys_of l) → Distinct (keys_of (without k l))
  Distinct-without k [] h = tt
  Distinct-without k ((i, w) ∷ l) h = elim (Bool-cases (str_eq i k)) [
    | inl e ↦ rw e (Distinct-without k l h.1)
    | inr e ↦ rw e ((λ m. h.0 (mem_without i k l m)), Distinct-without k l h.1)
  ]

  pub remove-HasDistinctKeys :
      (d : Dict V) (k : String) → HasDistinctKeys d → HasDistinctKeys (Dict.remove d k)
  unfolding Dict.remove
  remove-HasDistinctKeys d k h = record { distinct = Distinct-without k d.entries h.distinct }

pub empty-HasDistinctKeys {ℓ} : {V : Type ℓ} → HasDistinctKeys (Dict.empty {V = V})
unfolding Dict.empty
empty-HasDistinctKeys = record { distinct = tt }
