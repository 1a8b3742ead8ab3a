-- ===== src/Approval/Gate.antt =====
-- The state of the approval gate, the backend that it writes to, and what the gate reads out of
-- metadata, src/magsag/governance/approval_gate.py.
use agdd.Prelude.{
  ℕ, String, Bool, true, false, Option, none, some, List, [], ◌∷◌, if◌then◌else◌, str_eq,
}
use agdd.Dict.{Dict}
use agdd.Value.{Value, Items, Fields, null, str, list, dict, nil, cons, field}
use agdd.Value.Equality.{get_field}
use agdd.Approval.Ticket.{Ticket, TicketRecord, Event, status_text, text_or_null}

-- SHA-256 over `json.dumps`, and `datetime.isoformat`.
pub record Outside : Type 0 where
  pub digest : Value → String
  pub isoformat : ℕ → String

pub record NewRun : Type 0 where
  pub run_id : String
  pub agent_slug : String
  pub parent_run_id : Option String
  pub started_at : ℕ
  pub tags : Option (List String)

-- The methods of StorageBackend (src/magsag/storage/base.py) that the gate calls, on a state `S`.
pub record Backend (S : Type 0) : Type 0 where
  pub get_run : S → String → Option Bool × S
  pub create_run : S → NewRun → Bool × S
  pub create_approval_ticket : S → TicketRecord → Bool × S
  pub update_approval_ticket : S → TicketRecord → Bool × S
  pub get_approval_ticket : S → String → Option (Option TicketRecord) × S
  pub list_approval_tickets : S → Option String → Option String → Option (List TicketRecord) × S
  pub append_event : S → Event → S

pub record Gate (S : Type 0) : Type 0 where
  pub default_timeout_minutes : ℕ
  pub tickets : Dict Ticket
  pub initialized_runs : List String
  pub ticket_store : Option S

pub data GateError : Type 0 where
  gate_error timeout_error denied_error value_error type_error : GateError

unfoldable pub contains : String → List String → Bool
contains k [] = false
contains k (j ∷ l) = let rest = contains k l in if str_eq j k then true else rest

-- `value = metadata.get(key)`, if it is a text with a character
abbrev nonempty_text : Option Value → Option String
nonempty_text (some (str s)) = if str_eq s "" then none else some s
nonempty_text _ = none

unfoldable pub first_text : List String → Fields → Option String
unfolding get_field
first_text [] metadata = none
first_text (key ∷ keys) metadata = elim (nonempty_text (get_field key metadata)) [
  | none ↦ first_text keys metadata
  | some s ↦ some s
]

unfoldable pub extract_parent_run_id : Option Fields → Option String
unfolding first_text
extract_parent_run_id none = none
extract_parent_run_id (some metadata) =
    first_text ("parent_run_id" ∷ "parent" ∷ "parent_run" ∷ []) metadata

unfoldable pub texts_of : Items → Option (List String)
texts_of nil = some []
texts_of (cons v xs) = elim v [
  | str s ↦ elim (texts_of xs) [ none ↦ none | some l ↦ some (s ∷ l) ]
  | _ ↦ none
]

unfoldable pub extract_tags : Option Fields → Option (List String)
unfolding texts_of get_field
extract_tags none = none
extract_tags (some metadata) = elim (get_field "tags" metadata) [
  | none ↦ none
  | some v ↦ elim v [ list xs ↦ texts_of xs | _ ↦ none ]
]

unfoldable pub event_payload : Outside → Ticket → Fields → Fields
event_payload out t extras = field "ticket_id" (str t.ticket_id) (
    field "tool_name" (str t.tool_name) (
      field "args_hash" (str t.args_hash) (
        field "masked_args" (dict t.masked_args) (
          field "status" (str (status_text t.status)) (
            field "step_id" (text_or_null t.step_id) (
              field "decision_reason" (text_or_null t.decision_reason) (
                field "requested_at" (str (out.isoformat t.requested_at)) (
                  field "expires_at" (str (out.isoformat t.expires_at)) (
                    field "resolved_at"
                      (elim t.resolved_at [ none ↦ null | some n ↦ str (out.isoformat n) ])
                      (field "resolved_by" (text_or_null t.resolved_by)
                        (field "metadata" (dict t.metadata) extras)))))))))))
