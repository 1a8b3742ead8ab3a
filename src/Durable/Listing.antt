-- ===== src/Durable/Listing.antt =====
-- The listing and the deletion of a run's snapshots.
use agdd.Prelude.{
  ℕ, ◌≤◌, String, ◌≡◌, ◌≢◌, refl, sym, subst, List, [], ◌∷◌, arith, All, Memᴰ, leb, str_eq, eq_iff,
  Bool-cases, Option-cases, inl, inr,
}
use agdd.Dict
use agdd.Dict.{Dict, All-remove}
use agdd.Result.{Result, ok, ok-injective}
use agdd.Durable.Snapshot.{
  Snapshot, of_run, insert_by_time, sort_by_time, add_missing, remove_all, keys_of_run,
}
use agdd.Durable.Store.{
  World, Store, StorageError, ensure_backend, list_snapshots, delete_snapshots,
}
use agdd.Durable.Memory.{snapshots-ensure_backend}

-- Oldest first.
abbrev pub IsByTime : List Snapshot → Type 0
IsByTime [] = Unit
IsByTime (s ∷ l) = All (λ (t : Snapshot). s.created_at ≤ t.created_at) l × IsByTime l

module _ (P : Snapshot → Type 0) where
  insert_by_time-All :
      (s : Snapshot) (l : List Snapshot) → P s → All P l → All P (insert_by_time s l)
  unfolding insert_by_time
  insert_by_time-All s [] h hl = (h, tt)
  insert_by_time-All s (t ∷ l) h hl = elim (Bool-cases (leb s.created_at t.created_at)) [
    | inl e ↦ rw e (h, hl)
    | inr e ↦ rw e (hl.0, insert_by_time-All s l h hl.1)
  ]

  sort_by_time-All : (l : List Snapshot) → All P l → All P (sort_by_time l)
  unfolding sort_by_time
  sort_by_time-All [] h = tt
  sort_by_time-All (s ∷ l) h = insert_by_time-All s (sort_by_time l) h.0 (sort_by_time-All l h.1)

module _ (n m : ℕ) (le : n ≤ m) where
  All-earlier :
      (l : List Snapshot)
      → All (λ (t : Snapshot). m ≤ t.created_at) l
      → All (λ (t : Snapshot). n ≤ t.created_at) l
  All-earlier [] h = tt
  All-earlier (t ∷ l) h = (omega (arith, le, h.0), All-earlier l h.1)

insert_by_time-IsByTime :
    (s : Snapshot) (l : List Snapshot) → IsByTime l → IsByTime (insert_by_time s l)
unfolding insert_by_time
insert_by_time-IsByTime s [] h = (tt, tt)
insert_by_time-IsByTime s (t ∷ l) h = elim (Bool-cases (leb s.created_at t.created_at)) [
  | inl e ↦ rw e ((ground arith, All-earlier s.created_at t.created_at (ground arith) l h.0), h)
  | inr e ↦ rw e (
    insert_by_time-All (λ (u : Snapshot). t.created_at ≤ u.created_at) s l (ground arith) h.0,
    insert_by_time-IsByTime s l h.1,
  )
]

sort_by_time-IsByTime : (l : List Snapshot) → IsByTime (sort_by_time l)
unfolding sort_by_time
sort_by_time-IsByTime [] = tt
sort_by_time-IsByTime (s ∷ l) = insert_by_time-IsByTime s (sort_by_time l) (sort_by_time-IsByTime l)

of_run-All :
    (run_id : String) (l : List (String × Snapshot))
    → All (λ (s : Snapshot). s.run_id ≡ run_id) (of_run run_id l)
unfolding of_run
of_run-All run_id [] = tt
of_run-All run_id ((k, s) ∷ l) = elim (Bool-cases (str_eq s.run_id run_id)) [
  | inl e ↦ rw e ((eq_iff s.run_id run_id).0 e, of_run-All run_id l)
  | inr e ↦ rw e (of_run-All run_id l)
]

abbrev IsListing : String → List Snapshot → Type 0
IsListing run_id l = IsByTime l × All (λ (s : Snapshot). s.run_id ≡ run_id) l

listing :
    (run_id : String) (l : List (String × Snapshot))
    → IsListing run_id (sort_by_time (of_run run_id l))
listing run_id l = (
  sort_by_time-IsByTime (of_run run_id l),
  sort_by_time-All (λ (s : Snapshot). s.run_id ≡ run_id) (of_run run_id l) (of_run-All run_id l),
)

-- The keys of the snapshots of the run are all among `ks`.
abbrev Covers : String → List String → String × Snapshot → Type 0
Covers run_id ks (k, s) = s.run_id ≡ run_id → Memᴰ k ks

drop_key :
    (run_id k : String) (ks : List String) (l : List (String × Snapshot))
    → All (λ (e : String × Snapshot). Covers run_id (k ∷ ks) e × (e.0 ≢ k)) l
    → All (Covers run_id ks) l
drop_key run_id k ks [] h = tt
drop_key run_id k ks (e ∷ l) h = (λ q. other (h.0.0 q) h.0.1, drop_key run_id k ks l h.1)
  where
    other : {j : String} → Memᴰ j (k ∷ ks) → j ≢ k → Memᴰ j ks
    other (Memᴰ.head e) ne = absurd (ne e)
    other (Memᴰ.tail m) ne = m

remove_all-Covers :
    (run_id : String) (ks : List String) (d : Dict Snapshot)
    → All (Covers run_id ks) (Dict.items d)
    → All (Covers run_id []) (Dict.items (remove_all ks d))
unfolding remove_all
remove_all-Covers run_id [] d h = h
remove_all-Covers run_id (k ∷ ks) d h = remove_all-Covers run_id ks (Dict.remove d k) (
    drop_key run_id k ks (Dict.items (Dict.remove d k)) (All-remove (Covers run_id (k ∷ ks)) d k h))

weaken :
    (run_id k : String) (ks : List String) (l : List (String × Snapshot))
    → All (Covers run_id ks) l
    → All (Covers run_id (k ∷ ks)) l
weaken run_id k ks [] h = tt
weaken run_id k ks (e ∷ l) h = (λ q. Memᴰ.tail (h.0 q), weaken run_id k ks l h.1)

keys_of_run-Covers :
    (run_id : String) (l : List (String × Snapshot)) → All (Covers run_id (keys_of_run run_id l)) l
unfolding keys_of_run
keys_of_run-Covers run_id [] = tt
keys_of_run-Covers run_id ((k, s) ∷ l) = elim (Bool-cases (str_eq s.run_id run_id)) [
  | inl e ↦
      subst (λ ks. All (Covers run_id ks) ((k, s) ∷ l))
        (first (k ∷ keys_of_run run_id l) (ground arith))
        (
          (λ q. Memᴰ.head refl),
          weaken run_id k (keys_of_run run_id l) l (keys_of_run-Covers run_id l),
        )
  | inr e ↦
      subst (λ ks. All (Covers run_id ks) ((k, s) ∷ l))
        (first (keys_of_run run_id l) (ground arith))
        ((λ q. absurd (ground (arith, eq_iff s.run_id run_id))), keys_of_run-Covers run_id l)
]
  where
    first :
        (ks : List String)
        → keys_of_run run_id ((k, s) ∷ l) ≡ ks
        → ks ≡ keys_of_run run_id ((k, s) ∷ l)
    first ks h = sym h

none_of_run :
    (run_id : String) (l : List (String × Snapshot))
    → All (Covers run_id []) l
    → of_run run_id l ≡ []
unfolding of_run
none_of_run run_id [] h = refl
none_of_run run_id ((k, s) ∷ l) h = elim (Bool-cases (str_eq s.run_id run_id)) [
  | inl e ↦ absurd (elim (h.0 ((eq_iff s.run_id run_id).0 e)) [ ])
  | inr e ↦ rw e (none_of_run run_id l h.1)
]

ok-IsListing :
    (run_id : String) (l : List Snapshot) (d : List (String × Snapshot))
    → ◌≡◌ {A = Result StorageError (List Snapshot)} (ok (sort_by_time (of_run run_id d))) (ok l)
    → IsListing run_id l
ok-IsListing run_id l d h =
    subst (IsListing run_id) (ok-injective {E = StorageError} (sort_by_time (of_run run_id d)) l h)
      (listing run_id d)

module _ {W : Type 0} (w : World W) where
  snapshots-delete_snapshots :
      (run_id : String) (g : Store W)
      → (delete_snapshots w run_id g).0.snapshots
        ≡ remove_all (keys_of_run run_id (Dict.items g.snapshots)) g.snapshots
  unfolding delete_snapshots
  snapshots-delete_snapshots run_id g = ground (
    arith,
    snapshots-ensure_backend w (record g {
      snapshots = remove_all (keys_of_run run_id (Dict.items g.snapshots)) g.snapshots;
    }),
  )

  -- After a deletion, even one at which the storage raised, no snapshot of the run is in memory.
  pub delete_forgets :
      (run_id : String) (g : Store W)
      → of_run run_id (Dict.items (delete_snapshots w run_id g).0.snapshots) ≡ []
  delete_forgets run_id g = rw (snapshots-delete_snapshots) (
      none_of_run run_id _ (
        remove_all-Covers run_id (keys_of_run run_id (Dict.items g.snapshots)) g.snapshots
          (keys_of_run-Covers run_id (Dict.items g.snapshots))))

  -- A listing that does not raise has only snapshots of the run, oldest first, whatever the storage
  -- returned.
  pub list_snapshots-IsListing :
      (run_id : String) (l : List Snapshot) (g : Store W)
      → (list_snapshots w run_id g).1 ≡ ok l
      → IsByTime l × All (λ (s : Snapshot). s.run_id ≡ run_id) l
  unfolding list_snapshots
  list_snapshots-IsListing run_id l g h = elim (Bool-cases (ensure_backend w g).0) [
    | inl e ↦ elim (Option-cases (w.list_run_snapshots (ensure_backend w g).1.world run_id).0) [
      | inl e' ↦ absurd (ground arith)
      | inr (records, e') ↦
          ok-IsListing run_id l (Dict.items (add_missing records (ensure_backend w g).1.snapshots))
            (ground arith)
    ]
    | inr e ↦ ok-IsListing run_id l (Dict.items (ensure_backend w g).1.snapshots) (ground arith)
  ]
