-- ===== src/Memory/Rows.antt =====
-- The statements of SQL on the table of memories, as seen through the rows found by identifier.
use agdd.Prelude.{
  keep_head, String, Bool, true, false, ◌≡◌, ◌≢◌, refl, sym, ap, subst, none, some, List, [], ◌∷◌,
  ◌++◌, map, Memᴰ, arith, str_eq, eq_iff, if◌then◌else◌, Bool-cases, inl, inr,
}
use agdd.Dict.Distinct.{Absent, Distinct, Distinct-last}
use agdd.Memory.Row.{Row}
use agdd.Memory.Sqlite.{find_row, delete_rows, update_rows}

abbrev pub ids : List Row → List String
ids = map (λ (r : Row). r.memory_id)

pub find_row-append :
    (id : String) (rows : List Row) (r : Row)
    → find_row id (rows ++ (r ∷ [])) ≡ elim (find_row id rows) [
      | none ↦ if str_eq r.memory_id id then some r else none
      | some q ↦ some q
    ]
unfolding find_row
find_row-append id [] r = refl
find_row-append id (q ∷ rows) r = ground (arith, find_row-append id rows r)

pub find_row_id :
    (id : String) (rows : List Row) (r : Row) → find_row id rows ≡ some r → r.memory_id ≡ id
unfolding find_row
find_row_id id [] r h = cc
find_row_id id (q ∷ rows) r h = ground (arith, eq_iff q.memory_id id, find_row_id id rows r)

pub find_row-Absent :
    (id : String) (rows : List Row) → find_row id rows ≡ none → Absent id (ids rows)
unfolding find_row
find_row-Absent id [] h m = elim m [ ]
find_row-Absent id (q ∷ rows) h (Memᴰ.head e) =
    absurd (ground (arith, eq_iff q.memory_id id, sym e))
find_row-Absent id (q ∷ rows) h (Memᴰ.tail m) = elim (Bool-cases (str_eq q.memory_id id)) [
  | inl e ↦ absurd (ground arith)
  | inr e ↦ find_row-Absent id rows (ground arith) m
]

pub Absent-find_row :
    (id : String) (rows : List Row) → Absent id (ids rows) → find_row id rows ≡ none
unfolding find_row
Absent-find_row id [] h = refl
Absent-find_row id (q ∷ rows) h =
    let ne : q.memory_id ≢ id = λ e. h (Memᴰ.head (sym e)) in
    ground (arith, eq_iff q.memory_id id, Absent-find_row id rows (λ m. h (Memᴰ.tail m)))

module _ (test : Row → Bool) where
  mem_deleted :
      (id : String) (rows : List Row) → Memᴰ id (ids (delete_rows test rows)) → Memᴰ id (ids rows)
  unfolding delete_rows
  mem_deleted id [] m = m
  mem_deleted id (q ∷ rows) m =
      (elim (test q)
          as (λ b.
            Memᴰ id (ids (if b then delete_rows test rows else q ∷ delete_rows test rows))
            → Memᴰ id (ids (q ∷ rows))) [
              | true ↦ λ n. Memᴰ.tail (mem_deleted id rows n)
              | false ↦ keep_head (mem_deleted id rows)
            ])
        m

  pub delete_rows-Distinct :
      (rows : List Row) → Distinct (ids rows) → Distinct (ids (delete_rows test rows))
  unfolding delete_rows
  delete_rows-Distinct [] h = tt
  delete_rows-Distinct (q ∷ rows) h =
      elim (test q)
        as (λ b. Distinct (ids (if b then delete_rows test rows else q ∷ delete_rows test rows))) [
          | true ↦ delete_rows-Distinct rows h.1
          | false ↦ ((λ m. h.0 (mem_deleted q.memory_id rows m)), delete_rows-Distinct rows h.1)
        ]

  -- Where no two rows have one identifier, a row is found after a deletion if it was and is not
  -- deleted.
  pub find_row-delete_rows :
      (id : String) (rows : List Row)
      → Distinct (ids rows)
      → find_row id (delete_rows test rows)
        ≡ elim (find_row id rows) [ none ↦ none | some r ↦ if test r then none else some r ]
  unfolding find_row delete_rows
  find_row-delete_rows id [] h = refl
  find_row-delete_rows id (q ∷ rows) h = elim (Bool-cases (str_eq q.memory_id id)) [
    | inl e ↦
        let gone : Absent id (ids (delete_rows test rows)) = λ m. h.0 (
          mem_deleted q.memory_id rows (
            subst (λ j. Memᴰ j (ids (delete_rows test rows))) (sym ((eq_iff q.memory_id id).0 e))
              m)) in
        ground (arith, Absent-find_row id (delete_rows test rows) gone)
    | inr e ↦ ground (arith, find_row-delete_rows id rows h.1)
  ]

module _ (new : Row) where
  ids-update_rows : (rows : List Row) → ids (update_rows new rows) ≡ ids rows
  unfolding update_rows
  ids-update_rows [] = refl
  ids-update_rows (q ∷ rows) =
      ground (arith, ids-update_rows rows, eq_iff q.memory_id new.memory_id)

  pub update_rows-Distinct :
      (rows : List Row) → Distinct (ids rows) → Distinct (ids (update_rows new rows))
  update_rows-Distinct rows h = subst Distinct (sym (ids-update_rows rows)) h

  pub find_row-update_rows :
      (id : String) (rows : List Row)
      → find_row id (update_rows new rows) ≡ elim (find_row id rows) [
        | none ↦ none
        | some r ↦ some (
            if str_eq r.memory_id new.memory_id
            then record new { created_at = r.created_at }
            else r)
      ]
  unfolding find_row update_rows
  find_row-update_rows id [] = refl
  find_row-update_rows id (q ∷ rows) = ground (
    arith,
    find_row-update_rows id rows,
    eq_iff q.memory_id new.memory_id,
    eq_iff q.memory_id id,
    eq_iff new.memory_id id,
  )

ids-append : (rows : List Row) (r : Row) → ids (rows ++ (r ∷ [])) ≡ ids rows ++ (r.memory_id ∷ [])
ids-append [] r = refl
ids-append (q ∷ rows) r = ap (λ l. q.memory_id ∷ l) (ids-append rows r)

pub append-Distinct :
    (rows : List Row) (r : Row)
    → Distinct (ids rows)
    → find_row r.memory_id rows ≡ none
    → Distinct (ids (rows ++ (r ∷ [])))
append-Distinct rows r h e =
    subst Distinct (sym (ids-append rows r))
      (Distinct-last r.memory_id (ids rows) h (find_row-Absent r.memory_id rows e))
