-- ===== src/Handoff/Request.antt =====
-- Requests of handoffs, `HandoffRequest` of src/magsag/routing/handoff_tool.py.
use agdd.Prelude.{ℕ, String, Option, none, some}
use agdd.Value.{Value, Fields, null, str, dict, end, field}

pub data HandoffStatus : Type 0 where
  pending in_progress completed failed rejected : HandoffStatus

pub record HandoffRequest : Type 0 where
  pub handoff_id : String
  pub source_agent : String
  pub target_agent : String
  pub task : String
  pub context : Fields
  pub payload : Option Fields
  pub created_at : ℕ
  pub status : HandoffStatus
  pub result : Option Fields
  pub error : Option String
  pub metadata : Fields

abbrev pub status_text : HandoffStatus → String
status_text pending = "pending"
status_text in_progress = "in_progress"
status_text completed = "completed"
status_text failed = "failed"
status_text rejected = "rejected"

abbrev pub dict_or_null : Option Fields → Value
dict_or_null none = null
dict_or_null (some fs) = dict fs

abbrev pub text_or_null : Option String → Value
text_or_null none = null
text_or_null (some s) = str s

-- The time is printed by `isoformat`.
unfoldable pub to_dict : (ℕ → String) → HandoffRequest → Fields
to_dict isoformat r = field "handoff_id" (str r.handoff_id) (
    field "source_agent" (str r.source_agent) (
      field "target_agent" (str r.target_agent) (
        field "task" (str r.task) (
          field "context" (dict r.context) (
            field "payload" (dict_or_null r.payload) (
              field "created_at" (str (isoformat r.created_at)) (
                field "status" (str (status_text r.status)) (
                  field "result" (dict_or_null r.result) (
                    field "error" (text_or_null r.error)
                      (field "metadata" (dict r.metadata) end))))))))))
