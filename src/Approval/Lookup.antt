-- ===== src/Approval/Lookup.antt =====
-- What the operations do to the tickets in memory.
use agdd.Prelude.{
  ℕ, String, ◌≡◌, refl, Bool, Option, none, some, arith, eq_iff, Option-cases, inl, inr,
}
use agdd.Dict
use agdd.Dict.{Dict, get-put, dict_laws}
use agdd.Value.{Fields}
use agdd.Approval.Ticket.{Status, Ticket, TicketRecord, pending, ticket_from_record}
use agdd.Approval.Gate.{Outside, Backend, Gate}
use agdd.Approval.Create.{new_ticket, persist, ensure_run_record, ensure_run, create_ticket}
use agdd.Approval.Resolve.{keep_first, load_ticket, get_ticket, resolve_ticket}

module _ {S : Type 0} (b : Backend S) (out : Outside) where
  pub tickets-persist :
      (write : S → TicketRecord → Bool × S) (now : ℕ) (event_type : String) (extras : Fields)
      (t : Ticket) (g : Gate S)
      → (persist b out write now event_type extras t g).tickets ≡ g.tickets
  unfolding persist
  tickets-persist write now event_type extras t g = ground arith

  pub tickets-ensure_run_record :
      (now : ℕ) (run_id agent_slug : String) (metadata : Option Fields) (g : Gate S) (s : S)
      → (ensure_run_record b out now run_id agent_slug metadata g s).tickets ≡ g.tickets
  unfolding ensure_run_record
  tickets-ensure_run_record now run_id agent_slug metadata g s = ground arith

  pub tickets-ensure_run :
      (now : ℕ) (run_id agent_slug : String) (metadata : Option Fields) (g : Gate S)
      → (ensure_run b out now run_id agent_slug metadata g).tickets ≡ g.tickets
  unfolding ensure_run
  tickets-ensure_run now run_id agent_slug metadata g = elim (Option-cases g.ticket_store) [
    | inl e ↦ ground arith
    | inr (s, e) ↦ ground (arith, tickets-ensure_run_record now run_id agent_slug metadata g s)
  ]

  pub tickets-create_ticket :
      (now : ℕ) (fresh run_id agent_slug tool_name : String) (tool_args : Fields)
      (step_id : Option String) (timeout : Option ℕ) (metadata : Option Fields) (g : Gate S)
      → let (g1, t) =
          create_ticket b out now fresh run_id agent_slug tool_name tool_args step_id timeout
            metadata g in
        (g1.tickets ≡ Dict.put g.tickets fresh t)
        × (t.ticket_id ≡ fresh)
        × (t.status ≡ pending)
        × (t.tool_args ≡ tool_args)
  unfolding create_ticket new_ticket
  tickets-create_ticket now fresh run_id agent_slug tool_name tool_args step_id timeout metadata g =
      (rw tickets-persist (rw tickets-ensure_run), refl, refl, refl)

  pub tickets-resolve_ticket :
      (now : ℕ) (status : Status) (by : String) (reason : Option String) (response : Fields)
      (t : Ticket) (g : Gate S)
      → let (g1, t1) = resolve_ticket b out now status by reason response t g in
        (g1.tickets ≡ Dict.put g.tickets t.ticket_id t1)
        × (t1.ticket_id ≡ t.ticket_id)
        × (t1.status ≡ status)
        × (t1.expires_at ≡ t.expires_at)
  unfolding resolve_ticket
  tickets-resolve_ticket now status by reason response t g = (rw tickets-persist, refl, refl, refl)

  pub get_ticket_known :
      (id : String) (t : Ticket) (g : Gate S)
      → Dict.get g.tickets id ≡ some t
      → get_ticket b out id g ≡ (g, some t)
  unfolding get_ticket
  get_ticket_known id t g h = ground arith

get-keep_first :
    (d : Dict Ticket) (t u : Ticket) (id : String)
    → Dict.get d id ≡ some u
    → Dict.get (keep_first d t) id ≡ some u
get-keep_first d t u id h = ground (arith, get-put d t.ticket_id id t, eq_iff t.ticket_id id)

-- The three ways in which `get_ticket` ends.
pub data Fetched {S : Type 0} (b : Backend S) (out : Outside) (j : String) (g : Gate S)
    : Type 0 where
  known :
      (t : Ticket)
      → Dict.get g.tickets j ≡ some t
      → get_ticket b out j g ≡ (g, some t)
      → Fetched b out j g
  missing :
      (get_ticket b out j g).0.tickets ≡ g.tickets
      → (get_ticket b out j g).1 ≡ none
      → Fetched b out j g
  loaded :
      (s : S) (r : TicketRecord)
      → (b.get_approval_ticket s j).0 ≡ some (some r)
      → (get_ticket b out j g).0.tickets ≡ keep_first g.tickets (ticket_from_record r)
      → (get_ticket b out j g).1 ≡ some (ticket_from_record r)
      → Fetched b out j g

module _ {S : Type 0} (b : Backend S) (out : Outside) (j : String) (g : Gate S) where
  fetch_stored : (s : S) → Dict.get g.tickets j ≡ none → g.ticket_store ≡ some s → Fetched b out j g
  unfolding get_ticket load_ticket
  fetch_stored s e f = elim (Option-cases (b.get_approval_ticket s j).0) [
    | inl a ↦ missing (ground arith) (ground arith)
    | inr (answer, a) ↦ elim (Option-cases answer) [
      | inl c ↦ missing (ground arith) (ground arith)
      | inr (r, c) ↦ loaded s r (cc) (ground arith) (ground arith)
    ]
  ]

  pub fetch : Fetched b out j g
  unfolding get_ticket
  fetch = elim (Option-cases (Dict.get g.tickets j)) [
    | inr (t, e) ↦ known t e (get_ticket_known b out j t g e)
    | inl e ↦ elim (Option-cases g.ticket_store) [
      | inl f ↦ missing (ground arith) (ground arith)
      | inr (s, f) ↦ fetch_stored s e f
    ]
  ]
