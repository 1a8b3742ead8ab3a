-- ===== src/Storage/References.antt =====
-- The foreign keys hold whatever is written.
use agdd.Prelude.{
  String, ◌≡◌, refl, ◌∙◌, if◌then◌else◌, Bool, true, false, not, ◌||◌, Option, none, some, List, [],
  ◌∷◌, ◌++◌, arith, All, All-append, All-weaken, length, str_eq, Bool-cases, inl, inr,
}
use agdd.Result.{Result, ok, raise}
use agdd.Storage.Tables.{
  RunRow, EventRow, ApprovalRow, SnapshotRow, Database, StorageError, keep, has_run, parent_known,
  integrity_error,
}
use agdd.Storage.Runs.{
  RunUpdate, insert_run, insert_event, update_rows, write_update, is_run_status,
}
use agdd.Storage.Records.{
  upsert_ticket, write_ticket, is_step, taken_elsewhere, upsert_step, write_snapshot,
}
use agdd.Storage.Vacuum.{delete_runs}
use agdd.Storage.Cascade.{keep-All, AllParents, drop_orphans-AllParents}

-- Every parent, event, ticket and snapshot refers to a run that is there.
pub record HasReferences (d : Database) : Type 0 where
  pub parents : AllParents d.runs
  pub events : All (λ (e : EventRow). has_run e.run_id d.runs ≡ true) d.events
  pub approvals : All (λ (a : ApprovalRow). has_run a.run_id d.runs ≡ true) d.approvals
  pub snapshots : All (λ (s : SnapshotRow). has_run s.run_id d.runs ≡ true) d.snapshots

-- Runs that are there stay there.
abbrev Grows : List RunRow → List RunRow → Type 0
Grows rows rows' = (id : String) → has_run id rows ≡ true → has_run id rows' ≡ true

parent_known-Grows :
    (rows rows' : List RunRow)
    → Grows rows rows'
    → (r : RunRow) → parent_known r rows ≡ true
    → parent_known r rows' ≡ true
parent_known-Grows rows rows' g r h = by_parent r.parent_run_id h
  where
    by_parent :
        (p : Option String)
        → elim p as (λ q. Bool) [ none ↦ true | some q ↦ has_run q rows ] ≡ true
        → elim p as (λ q. Bool) [ none ↦ true | some q ↦ has_run q rows' ] ≡ true
    by_parent none k = refl
    by_parent (some p) k = g p k

grown :
    (d : Database) (rows : List RunRow)
    → Grows d.runs rows
    → AllParents rows
    → HasReferences d
    → HasReferences (record d { runs = rows })
grown d rows g parents h = record {
  parents = parents;
  events = All-weaken (λ e. g e.run_id) d.events h.events;
  approvals = All-weaken (λ a. g a.run_id) d.approvals h.approvals;
  snapshots = All-weaken (λ s. g s.run_id) d.snapshots h.snapshots;
}

append-Grows : (rows l : List RunRow) → Grows rows (rows ++ l)
unfolding has_run
append-Grows [] l id h = cc
append-Grows (r ∷ rows) l id h = ground (arith, append-Grows rows l id)

-- A statement that is refused on a test, and otherwise writes `d'`.
checked :
    (bad : Bool) (e : StorageError) (d d' : Database)
    → HasReferences d
    → (bad ≡ false → HasReferences d')
    → HasReferences
        (if◌then◌else◌ {A = Database × Result StorageError (Unit {0})} bad
          (d, raise e)
          (d', ok tt)).0
checked true e d d' h f = h
checked false e d d' h f = f refl

parts_false : (a b c : Bool) → (a || (b || not c)) ≡ false → c ≡ true
parts_false a b c h = ground arith

pub insert_run-HasReferences :
    (r : RunRow) (d : Database) → HasReferences d → HasReferences (insert_run r d).0
unfolding insert_run
insert_run-HasReferences r d h =
    let rows = d.runs ++ (r ∷ []) in
    let g = append-Grows d.runs (r ∷ []) in
    checked (has_run r.run_id d.runs || (not (is_run_status r.status) || not (parent_known r rows)))
      integrity_error d (record d { runs = rows }) h
      (λ fine.
        grown d rows g
          (All-append _ d.runs (r ∷ [])
            (All-weaken (parent_known-Grows d.runs rows g) d.runs h.parents)
            (
              parts_false (has_run r.run_id d.runs) (not (is_run_status r.status))
                  (parent_known r rows) fine,
              tt,
            ))
          h)

pub insert_event-HasReferences :
    (e : EventRow) (d : Database) → HasReferences d → HasReferences (insert_event e d).0
unfolding insert_event
insert_event-HasReferences e d h = elim (Bool-cases (has_run e.run_id d.runs)) [
  | inl known ↦ rw known (record {
    parents = h.parents;
    events = All-append _ d.events (e ∷ []) h.events (known, tt);
    approvals = h.approvals;
    snapshots = h.snapshots;
  })
  | inr known ↦ rw known h
]

has_run-update_rows :
    (id i : String) (u : RunUpdate) (rows : List RunRow)
    → has_run id (update_rows i u rows) ≡ has_run id rows
unfolding has_run update_rows
has_run-update_rows id i u [] = refl
has_run-update_rows id i u (r ∷ rows) = ground (arith, has_run-update_rows id i u rows)

update_rows-All :
    (i : String) (u : RunUpdate) (all rows : List RunRow)
    → All (λ (r : RunRow). parent_known r all ≡ true) rows
    → All (λ (r : RunRow). parent_known r all ≡ true) (update_rows i u rows)
unfolding update_rows
update_rows-All i u all [] h = tt
update_rows-All i u all (r ∷ rows) h = elim (Bool-cases (str_eq r.run_id i)) [
  | inl e ↦ rw e (h.0, update_rows-All i u all rows h.1)
  | inr e ↦ rw e (h.0, update_rows-All i u all rows h.1)
]

pub write_update-HasReferences :
    (id : String) (u : RunUpdate) (d : Database)
    → HasReferences d
    → HasReferences (write_update id u d).0
unfolding write_update
write_update-HasReferences id u d h =
    let rows = update_rows id u d.runs in
    let g : Grows d.runs rows = λ j k. has_run-update_rows j id u d.runs ∙ k in
    checked _ integrity_error d (record d { runs = rows }) h
      (λ fine.
        grown d rows g
          (All-weaken (parent_known-Grows d.runs rows g) rows
            (update_rows-All id u d.runs d.runs h.parents))
          h)

upsert_ticket-All :
    (P : ApprovalRow → Type 0) (new : ApprovalRow) (rows : List ApprovalRow)
    → P new
    → All P rows
    → All P (upsert_ticket new rows)
unfolding upsert_ticket
upsert_ticket-All P new [] p h = (p, tt)
upsert_ticket-All P new (r ∷ rows) p h = elim (Bool-cases (str_eq r.ticket_id new.ticket_id)) [
  | inl e ↦ rw e (p, h.1)
  | inr e ↦ rw e (h.0, upsert_ticket-All P new rows p h.1)
]

pub write_ticket-HasReferences :
    (r : ApprovalRow) (d : Database) → HasReferences d → HasReferences (write_ticket r d).0
unfolding write_ticket
write_ticket-HasReferences r d h = elim (Bool-cases (has_run r.run_id d.runs)) [
  | inl known ↦ rw known (record {
    parents = h.parents;
    events = h.events;
    approvals = upsert_ticket-All _ r d.approvals known h.approvals;
    snapshots = h.snapshots;
  })
  | inr known ↦ rw known h
]

upsert_step-All :
    (P : SnapshotRow → Type 0) (new : SnapshotRow) (rows : List SnapshotRow)
    → P new
    → All P rows
    → All P (upsert_step new rows)
unfolding upsert_step
upsert_step-All P new [] p h = (p, tt)
upsert_step-All P new (r ∷ rows) p h = elim (Bool-cases (is_step new.run_id new.step_id r)) [
  | inl e ↦ rw e (p, h.1)
  | inr e ↦ rw e (h.0, upsert_step-All P new rows p h.1)
]

first_false : (a b : Bool) → (not a || b) ≡ false → a ≡ true
first_false a b h = ground arith

pub write_snapshot-HasReferences :
    (r : SnapshotRow) (d : Database) → HasReferences d → HasReferences (write_snapshot r d).0
unfolding write_snapshot
write_snapshot-HasReferences r d h =
    checked (not (has_run r.run_id d.runs) || taken_elsewhere r d.snapshots) integrity_error d
      (record d { snapshots = upsert_step r d.snapshots }) h
      (λ fine. record {
        parents = h.parents;
        events = h.events;
        approvals = h.approvals;
        snapshots =
            upsert_step-All _ r d.snapshots
              (first_false (has_run r.run_id d.runs) (taken_elsewhere r d.snapshots) fine)
              h.snapshots;
      })

pub delete_runs-HasReferences :
    (test : RunRow → Bool) (d : Database) → HasReferences (delete_runs test d)
unfolding delete_runs
delete_runs-HasReferences test d =
    let rest = keep (λ r. not (test r)) d.runs in
    record {
      parents = drop_orphans-AllParents (length rest) rest (omega arith);
      events = keep-All _ d.events;
      approvals = keep-All _ d.approvals;
      snapshots = keep-All _ d.snapshots;
    }
