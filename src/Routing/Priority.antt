-- ===== src/Routing/Priority.antt =====
-- The route of a task is one of the highest priority that matches it.
use agdd.Prelude.{
  String, ◌≡◌, refl, sym, ◌∙◌, true, false, none, some, List, [], ◌∷◌, Memᴰ, arith, All, All-mem,
  Bool-cases, inl, inr, subst,
}
use agdd.Value.{ℤ, pos, negsuc}
use agdd.Value.Equality.{lt_int}
use agdd.Routing.Policy.{
  Route, RoutingPolicy, insert_route, sort_routes, from_entries, matches_task, find_route,
  get_route,
}

lt_int_asymm : (a b : ℤ) → lt_int a b ≡ true → lt_int b a ≡ false
unfolding lt_int
lt_int_asymm (pos a) (pos b) h = ground arith
lt_int_asymm (pos a) (negsuc b) h = ground arith
lt_int_asymm (negsuc a) (pos b) h = ground arith
lt_int_asymm (negsuc a) (negsuc b) h = ground arith

ge_int_trans : (a b c : ℤ) → lt_int a b ≡ false → lt_int b c ≡ false → lt_int a c ≡ false
unfolding lt_int
ge_int_trans (pos a) (pos b) (pos c) h k = ground arith
ge_int_trans (pos a) (pos b) (negsuc c) h k = ground arith
ge_int_trans (pos a) (negsuc b) (pos c) h k = ground arith
ge_int_trans (pos a) (negsuc b) (negsuc c) h k = ground arith
ge_int_trans (negsuc a) (pos b) (pos c) h k = ground arith
ge_int_trans (negsuc a) (pos b) (negsuc c) h k = ground arith
ge_int_trans (negsuc a) (negsuc b) (pos c) h k = ground arith
ge_int_trans (negsuc a) (negsuc b) (negsuc c) h k = ground arith

irreflexive : (a : ℤ) → lt_int a a ≡ false
unfolding lt_int
irreflexive (pos a) = ground arith
irreflexive (negsuc a) = ground arith

-- No route of the list has a higher priority than `r`.
abbrev pub Tops : Route → List Route → Type 0
Tops r l = All (λ (u : Route). lt_int r.priority u.priority ≡ false) l

abbrev Descending : List Route → Type 0
Descending [] = Unit
Descending (r ∷ l) = Tops r l × Descending l

module _ (P : Route → Type 0) where
  insert_route-All : (r : Route) (l : List Route) → P r → All P l → All P (insert_route r l)
  unfolding insert_route
  insert_route-All r [] h hl = (h, tt)
  insert_route-All r (u ∷ l) h hl = elim (Bool-cases (lt_int r.priority u.priority)) [
    | inl e ↦ rw e (hl.0, insert_route-All r l h hl.1)
    | inr e ↦ rw e (h, hl)
  ]

Tops-later :
    (r u : Route) (l : List Route) → lt_int r.priority u.priority ≡ false → Tops u l → Tops r l
Tops-later r u [] h t = tt
Tops-later r u (v ∷ l) h t =
    (ge_int_trans r.priority u.priority v.priority h t.0, Tops-later r u l h t.1)

insert_route-Descending :
    (r : Route) (l : List Route) → Descending l → Descending (insert_route r l)
unfolding insert_route
insert_route-Descending r [] h = (tt, tt)
insert_route-Descending r (u ∷ l) h = elim (Bool-cases (lt_int r.priority u.priority)) [
  | inl e ↦ rw e (
    insert_route-All (λ (v : Route). lt_int u.priority v.priority ≡ false) r l
        (lt_int_asymm r.priority u.priority e) h.0,
    insert_route-Descending r l h.1,
  )
  | inr e ↦ rw e ((e, Tops-later r u l e h.0), h)
]

sort_routes-Descending : (l : List Route) → Descending (sort_routes l)
unfolding sort_routes
sort_routes-Descending [] = tt
sort_routes-Descending (r ∷ l) =
    insert_route-Descending r (sort_routes l) (sort_routes-Descending l)

module _ (P : Route → Type 0) where
  insert_route_back : (r : Route) (l : List Route) → All P (insert_route r l) → P r × All P l
  unfolding insert_route
  insert_route_back r [] h = (h.0, tt)
  insert_route_back r (u ∷ l) h = elim (Bool-cases (lt_int r.priority u.priority)) [
    | inl e ↦ below (λ q. insert_route_back r l q) (subst (All P) (first e) h)
    | inr e ↦ above (subst (All P) (second e) h)
  ]
    where
      first : lt_int r.priority u.priority ≡ true → insert_route r (u ∷ l) ≡ u ∷ insert_route r l
      first e = ground arith

      second : lt_int r.priority u.priority ≡ false → insert_route r (u ∷ l) ≡ r ∷ u ∷ l
      second e = ground arith

      above : P r × (P u × All P l) → P r × (P u × All P l)
      above q = q

      below :
          (All P (insert_route r l) → P r × All P l)
          → P u × All P (insert_route r l)
          → P r × (P u × All P l)
      below f q = let (a, b) = f q.1 in (a, (q.0, b))

  sort_routes-All : (l : List Route) → All P l → All P (sort_routes l)
  unfolding sort_routes
  sort_routes-All [] h = tt
  sort_routes-All (r ∷ l) h = insert_route-All P r (sort_routes l) h.0 (sort_routes-All l h.1)

  sort_routes_back : (l : List Route) → All P (sort_routes l) → All P l
  unfolding sort_routes
  sort_routes_back [] h = tt
  sort_routes_back (r ∷ l) h =
      let (a, b) = insert_route_back r (sort_routes l) h in (a, sort_routes_back l b)

abbrev Ranks : String → Route → List Route → Type 0
Ranks task_type r l =
    All (λ (u : Route). matches_task task_type u ≡ true → lt_int r.priority u.priority ≡ false) l

Tops-Ranks : (task_type : String) (r : Route) (l : List Route) → Tops r l → Ranks task_type r l
Tops-Ranks task_type r [] t = tt
Tops-Ranks task_type r (u ∷ l) t = ((λ m. t.0), Tops-Ranks task_type r l t.1)

find_route_first :
    (task_type : String) (r : Route) (l : List Route)
    → Descending l
    → find_route task_type l ≡ some r
    → Memᴰ r l × (matches_task task_type r ≡ true) × Ranks task_type r l
unfolding find_route
find_route_first task_type r [] d h = cc
find_route_first task_type r (u ∷ l) d h = elim (Bool-cases (matches_task task_type u)) [
  | inl e ↦
      let same : u ≡ r = ground arith in
      subst (λ v. Memᴰ v (u ∷ l) × (matches_task task_type v ≡ true) × Ranks task_type v (u ∷ l))
        same (Memᴰ.head refl, e, ((λ m. irreflexive u.priority), Tops-Ranks task_type u l d.0))
  | inr e ↦
      let (m, good, low) = find_route_first task_type r l d.1 (ground arith) in
      (Memᴰ.tail m, good, ((λ q. absurd (cc (q, e))), low))
]

find_route-none :
    (task_type : String) (l : List Route)
    → find_route task_type l ≡ none
    → All (λ (u : Route). matches_task task_type u ≡ false) l
unfolding find_route
find_route-none task_type [] h = tt
find_route-none task_type (u ∷ l) h = elim (Bool-cases (matches_task task_type u)) [
  | inl e ↦ absurd (ground arith)
  | inr e ↦ (e, find_route-none task_type l (ground arith))
]

All-members :
    (l m : List Route) → ((u : Route) → Memᴰ u l → Memᴰ u m) → All (λ (u : Route). Memᴰ u m) l
All-members [] m f = tt
All-members (u ∷ l) m f = (f u (Memᴰ.head refl), All-members l m (λ v q. f v (Memᴰ.tail q)))

get_route-find_route :
    (policy : RoutingPolicy) (task_type : String)
    → get_route policy task_type none ≡ find_route task_type policy.routes
unfolding get_route
get_route-find_route policy task_type = ground arith

-- The route that a loaded policy gives a task is one of the file's entries, it matches the task, and
-- no entry that matches has a higher priority.
pub get_route_highest :
    (name description task_type : String) (entries : List Route) (r : Route)
    → get_route (from_entries name description entries) task_type none ≡ some r
    → Memᴰ r entries
      × (matches_task task_type r ≡ true)
      × All
          (λ (u : Route). matches_task task_type u ≡ true → lt_int r.priority u.priority ≡ false)
          entries
unfolding from_entries
get_route_highest name description task_type entries r h =
    let (m, good, low) =
      find_route_first task_type r (sort_routes entries) (sort_routes-Descending entries)
        (sym (get_route-find_route (from_entries name description entries) task_type) ∙ h) in
    (
      All-mem (λ (u : Route). Memᴰ u entries) (sort_routes entries)
          (sort_routes-All (λ (u : Route). Memᴰ u entries) entries
            (All-members entries entries (λ u q. q)))
          m,
      good,
      sort_routes_back
          (λ (u : Route). matches_task task_type u ≡ true → lt_int r.priority u.priority ≡ false)
          entries low,
    )

-- A loaded policy has no route for a task only if none of the file's entries matches it.
pub get_route_missing :
    (name description task_type : String) (entries : List Route)
    → get_route (from_entries name description entries) task_type none ≡ none
    → All (λ (u : Route). matches_task task_type u ≡ false) entries
unfolding from_entries
get_route_missing name description task_type entries h =
    sort_routes_back (λ (u : Route). matches_task task_type u ≡ false) entries
      (find_route-none task_type (sort_routes entries)
        (sym (get_route-find_route (from_entries name description entries) task_type) ∙ h))
