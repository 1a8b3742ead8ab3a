-- ===== src/Approval/Create.antt =====
-- `create_ticket` and its writes to the store, src/magsag/governance/approval_gate.py.
-- Each operation takes the time that `datetime.now` returns in it; nothing else of the gate runs
-- between the steps of one operation.
use agdd.Prelude.{
  ℕ, ◌+◌, ◌*◌, String, Bool, false, Option, none, some, ◌∷◌, ◌==◌, if◌then◌else◌, str_eq, get_or,
}
use agdd.Dict
use agdd.Dict.{Dict}
use agdd.Value.{pos, Fields, int, dict, end, field}
use agdd.Serialization.{json_safe}
use agdd.Permissions.{mask_tool_args, compute_args_hash}
use agdd.Approval.Ticket.{pending, Ticket, TicketRecord, ticket_to_record}
use agdd.Approval.Gate.{
  Outside, NewRun, Backend, Gate, contains, extract_parent_run_id, extract_tags, event_payload,
}

-- A minute in microseconds.
abbrev minutes : ℕ → ℕ
minutes n = n * 60000000

-- `timeout_minutes or self.default_timeout_minutes`
abbrev pub timeout_of : Option ℕ → ℕ → ℕ
timeout_of none default = default
timeout_of (some n) default = if n == 0 then default else n

unfoldable pub new_ticket :
    Outside
    → ℕ
    → String
    → String
    → String
    → String
    → Fields
    → Option String
    → ℕ
    → Option Fields
    → Ticket
new_ticket out now fresh run_id agent_slug tool_name tool_args step_id timeout metadata = record {
  ticket_id = fresh;
  run_id = run_id;
  agent_slug = agent_slug;
  tool_name = tool_name;
  tool_args = tool_args;
  args_hash = compute_args_hash out.digest tool_args;
  requested_at = now;
  expires_at = now + minutes timeout;
  status = pending;
  masked_args = mask_tool_args tool_args;
  step_id = step_id;
  metadata = get_or metadata end;
  resolved_at = none;
  resolved_by = none;
  decision_reason = none;
  response = none;
}

module _ {S : Type 0} (b : Backend S) (out : Outside) where
  unfoldable pub ensure_run_record : ℕ → String → String → Option Fields → Gate S → S → Gate S
  unfolding contains extract_parent_run_id extract_tags
  ensure_run_record now run_id agent_slug metadata g s =
      if str_eq run_id ""
      then g
      else if contains run_id g.initialized_runs
      then g
      else let (existing, s1) = b.get_run s run_id in
        if elim existing [ none ↦ false | some e ↦ e ]
        then record g { initialized_runs = run_id ∷ g.initialized_runs; ticket_store = some s1 }
        else let new_run : NewRun = record {
          run_id = run_id;
          agent_slug = if str_eq agent_slug "" then "unknown" else agent_slug;
          parent_run_id = extract_parent_run_id metadata;
          started_at = now;
          tags = extract_tags metadata;
        } in
          let (created, s2) = b.create_run s1 new_run in
          if created
          then record g { initialized_runs = run_id ∷ g.initialized_runs; ticket_store = some s2 }
          else record g { ticket_store = some s2 }

  -- An exception of the backend is logged, and so leaves no trace here.
  unfoldable pub emit_event : ℕ → String → Ticket → Fields → S → S
  unfolding event_payload
  emit_event now event_type t extras s = b.append_event s (record {
    run_id = t.run_id;
    agent_slug = t.agent_slug;
    event_type = event_type;
    timestamp = now;
    payload = json_safe (dict (event_payload out t extras));
  })

  -- The part of `create_ticket` and `_resolve_ticket` that writes to the store: the event is
  -- appended only if the record was written.
  unfoldable pub persist :
      (S → TicketRecord → Bool × S) → ℕ → String → Fields → Ticket → Gate S → Gate S
  unfolding emit_event
  persist write now event_type extras t g = elim g.ticket_store [
    | none ↦ g
    | some s ↦
        let (written, s1) = write s (ticket_to_record t) in
        record g {
          ticket_store = some (if written then emit_event now event_type t extras s1 else s1);
        }
  ]

  unfoldable pub ensure_run : ℕ → String → String → Option Fields → Gate S → Gate S
  ensure_run now run_id agent_slug metadata g = elim g.ticket_store [
    | none ↦ g
    | some s ↦ ensure_run_record now run_id agent_slug metadata g s
  ]

  unfoldable pub create_ticket :
      ℕ
      → String
      → String
      → String
      → String
      → Fields
      → Option String
      → Option ℕ
      → Option Fields
      → Gate S
      → Gate S × Ticket
  create_ticket now fresh run_id agent_slug tool_name tool_args step_id timeout_minutes metadata g =
      let timeout = timeout_of timeout_minutes g.default_timeout_minutes in
      let t =
        new_ticket out now fresh run_id agent_slug tool_name tool_args step_id timeout metadata in
      let g1 : Gate S = record g { tickets = Dict.put g.tickets t.ticket_id t } in
      let g2 = ensure_run now run_id agent_slug metadata g1 in
      (
        persist b.create_approval_ticket now "approval.required"
            (field "timeout_minutes" (int (pos timeout)) end) t g2,
        t,
      )
