-- ===== src/Approval/Ticket.antt =====
-- Tickets, their records in the storage backend and their events.
use native.Mathlib.Omega.{arith}
use agdd.Prelude.{ℕ, ◌≡◌, String, Bool, true, false, Option, none, some}
use agdd.Value.{Value, Fields, null, str, end, field}

pub data Status : Type 0 where
  pending approved denied expired : Status

abbrev pub is_pending : Status → Bool
is_pending pending = true
is_pending _ = false

abbrev pub is_expired : Status → Bool
is_expired expired = true
is_expired _ = false

pub record Ticket : Type 0 where
  pub ticket_id : String
  pub run_id : String
  pub agent_slug : String
  pub tool_name : String
  pub tool_args : Fields
  pub args_hash : String
  pub requested_at : ℕ
  pub expires_at : ℕ
  pub status : Status
  pub masked_args : Fields
  pub step_id : Option String
  pub metadata : Fields
  pub resolved_at : Option ℕ
  pub resolved_by : Option String
  pub decision_reason : Option String
  pub response : Option Fields

-- ApprovalTicketRecord of src/magsag/storage/models.py
pub record TicketRecord : Type 0 where
  pub ticket_id : String
  pub run_id : String
  pub agent_slug : String
  pub tool_name : String
  pub masked_args : Fields
  pub args_hash : String
  pub step_id : Option String
  pub metadata : Fields
  pub requested_at : ℕ
  pub expires_at : ℕ
  pub status : Status
  pub resolved_at : Option ℕ
  pub resolved_by : Option String
  pub decision_reason : Option String
  pub response : Option Fields

-- `dict(response) if response else None`
unfoldable pub nonempty : Option Fields → Option Fields
nonempty (some (field k v fs)) = some (field k v fs)
nonempty (some end) = none
nonempty none = none

unfoldable pub ticket_to_record : Ticket → TicketRecord
unfolding nonempty
ticket_to_record t = record {
  ticket_id = t.ticket_id;
  run_id = t.run_id;
  agent_slug = t.agent_slug;
  tool_name = t.tool_name;
  masked_args = t.masked_args;
  args_hash = t.args_hash;
  step_id = t.step_id;
  metadata = t.metadata;
  requested_at = t.requested_at;
  expires_at = t.expires_at;
  status = t.status;
  resolved_at = t.resolved_at;
  resolved_by = t.resolved_by;
  decision_reason = t.decision_reason;
  response = nonempty t.response;
}

unfoldable pub ticket_from_record : TicketRecord → Ticket
unfolding nonempty
ticket_from_record r = record {
  ticket_id = r.ticket_id;
  run_id = r.run_id;
  agent_slug = r.agent_slug;
  tool_name = r.tool_name;
  tool_args = r.masked_args;
  args_hash = r.args_hash;
  requested_at = r.requested_at;
  expires_at = r.expires_at;
  status = r.status;
  masked_args = r.masked_args;
  step_id = r.step_id;
  metadata = r.metadata;
  resolved_at = r.resolved_at;
  resolved_by = r.resolved_by;
  decision_reason = r.decision_reason;
  response = nonempty r.response;
}

pub record Event : Type 0 where
  pub run_id : String
  pub agent_slug : String
  pub event_type : String
  pub timestamp : ℕ
  pub payload : Value

unfoldable pub status_text : Status → String
status_text pending = "pending"
status_text approved = "approved"
status_text denied = "denied"
status_text expired = "expired"

abbrev pub text_or_null : Option String → Value
text_or_null none = null
text_or_null (some s) = str s

-- A ticket that went through the store and back is itself, but for the original arguments, which
-- are the masked ones now, and an empty response, which is absent.
pub ticket_from_record-ticket_to_record :
    (t : Ticket)
    → ticket_from_record (ticket_to_record t)
      ≡ record t { tool_args = t.masked_args; response = nonempty t.response }
unfolding ticket_from_record ticket_to_record nonempty
ticket_from_record-ticket_to_record t = ground arith
