-- ===== src/Api/Cleanup.antt =====
-- What the periodic cleanup does to the entry of one key.
use agdd.Prelude.{
  ℕ, ◌+◌, ◌%◌, ◌==◌, String, ◌≡◌, ◌≢◌, refl, sym, ap, subst, ◌∙◌, true, false, none, some, List, [],
  ◌∷◌, Memᴰ, arith, eq_iff, Bool-cases, inl, inr,
}
use agdd.Dict
use agdd.Dict.{Dict, get-put_self, get-remove}
use agdd.Dict.Distinct.{Absent, HasDistinctKeys, get_entry, remove-HasDistinctKeys}
use agdd.Api.Idempotency.{
  Entry, Middleware, is_expired_at, expired_keys, delete_keys, cleanup_expired, count_request,
}

mem_expired :
    (now ttl : ℕ) (k : String) (l : List (String × Entry))
    → Memᴰ k (expired_keys now ttl l)
    → (e : Entry) × Memᴰ (k, e) l × (is_expired_at now ttl e ≡ true)
unfolding expired_keys
mem_expired now ttl k [] m = elim m [ ]
mem_expired now ttl k ((j, e) ∷ l) m = elim (Bool-cases (is_expired_at now ttl e)) [
  | inl b ↦ among (λ q. mem_expired now ttl k l q) (subst (Memᴰ k) (first b) m) b
  | inr b ↦ later (mem_expired now ttl k l (subst (Memᴰ k) (rest b) m))
]
  where
    first :
        is_expired_at now ttl e ≡ true
        → expired_keys now ttl ((j, e) ∷ l) ≡ j ∷ expired_keys now ttl l
    first b = ground arith

    rest :
        is_expired_at now ttl e ≡ false → expired_keys now ttl ((j, e) ∷ l) ≡ expired_keys now ttl l
    rest b = ground arith

    later :
        (u : Entry) × Memᴰ (k, u) l × (is_expired_at now ttl u ≡ true)
        → (u : Entry) × Memᴰ (k, u) ((j, e) ∷ l) × (is_expired_at now ttl u ≡ true)
    later (u, mu, b) = (u, Memᴰ.tail mu, b)

    among :
        (Memᴰ k (expired_keys now ttl l)
          → (u : Entry) × Memᴰ (k, u) l × (is_expired_at now ttl u ≡ true))
        → Memᴰ k (j ∷ expired_keys now ttl l)
        → is_expired_at now ttl e ≡ true
        → (u : Entry) × Memᴰ (k, u) ((j, e) ∷ l) × (is_expired_at now ttl u ≡ true)
    among f (Memᴰ.head q) b = (e, Memᴰ.head (ap (λ (i : String). (i, e)) q), b)
    among f (Memᴰ.tail mu) b = later (f mu)

get-delete_keys :
    (k : String) (ks : List String) (d : Dict Entry)
    → Absent k ks
    → Dict.get (delete_keys ks d) k ≡ Dict.get d k
unfolding delete_keys
get-delete_keys k [] d a = refl
get-delete_keys k (j ∷ ks) d a =
    let apart : j ≢ k = λ e. a (Memᴰ.head (sym e)) in
    get-delete_keys k ks (Dict.remove d j) (λ m. a (Memᴰ.tail m))
    ∙ ground (arith, get-remove d j k, eq_iff j k, apart)

delete_keys-HasDistinctKeys :
    (ks : List String) (d : Dict Entry) → HasDistinctKeys d → HasDistinctKeys (delete_keys ks d)
unfolding delete_keys
delete_keys-HasDistinctKeys [] d h = h
delete_keys-HasDistinctKeys (k ∷ ks) d h =
    delete_keys-HasDistinctKeys ks (Dict.remove d k) (remove-HasDistinctKeys d k h)

-- A cleanup keeps the entries that have not expired.
cleanup_live :
    (now : ℕ) (k : String) (e : Entry) (m : Middleware)
    → HasDistinctKeys m.store
    → Dict.get m.store k ≡ some e
    → is_expired_at now m.ttl e ≡ false
    → Dict.get (cleanup_expired now m).store k ≡ some e
unfolding cleanup_expired
cleanup_live now k e m h g live =
    get-delete_keys k (expired_keys now m.ttl (Dict.items m.store)) m.store (λ q.
      let (u, mu, b) = mem_expired now m.ttl k (Dict.items m.store) q in
      let same : u ≡ e = get_entry m.store k e u h g mu in
      absurd (cc (subst (λ x. is_expired_at now m.ttl x ≡ true) same b, live)))
    ∙ g

-- Where a key has no entry, a deletion gives it none.
delete_none :
    (k : String) (ks : List String) (d : Dict Entry)
    → Dict.get d k ≡ none
    → Dict.get (delete_keys ks d) k ≡ none
unfolding delete_keys
delete_none k [] d h = h
delete_none k (j ∷ ks) d h = delete_none k ks (Dict.remove d j) (ground (arith, get-remove d j k))

module _ (now : ℕ) (k : String) (m : Middleware) where
  pub ttl-count_request : (count_request now m).ttl ≡ m.ttl
  unfolding count_request cleanup_expired
  ttl-count_request = ground arith

  pub count_live :
      (e : Entry)
      → HasDistinctKeys m.store
      → Dict.get m.store k ≡ some e
      → is_expired_at now m.ttl e ≡ false
      → Dict.get (count_request now m).store k ≡ some e
  unfolding count_request
  count_live e h g live =
      ground
        (arith, cleanup_live now k e (record m { request_count = m.request_count + 1 }) h g live)

  pub count_none : Dict.get m.store k ≡ none → Dict.get (count_request now m).store k ≡ none
  unfolding count_request cleanup_expired
  count_none g =
      ground (arith, delete_none k (expired_keys now m.ttl (Dict.items m.store)) m.store g)

  pub count-HasDistinctKeys : HasDistinctKeys m.store → HasDistinctKeys (count_request now m).store
  unfolding count_request cleanup_expired
  count-HasDistinctKeys h =
      elim (Bool-cases ((((m.request_count + 1) % m.cleanup_interval) == 0))) [
        | inl e ↦
            rw e
              (delete_keys-HasDistinctKeys (expired_keys now m.ttl (Dict.items m.store)) m.store h)
        | inr e ↦ rw e h
      ]
