-- ===== src/Approvals/Store/Cells.antt =====
-- The contract of the approval store, apart from any backend: each id has a cell that holds an
-- approval or nothing, and an operation reads and writes the cell of its id alone.
use mcp_zero_trust_layer.Base.{if◌then◌else◌, ℤ, String, Bool, false, Option, none, some}
use mcp_zero_trust_layer.Value.{key_error, value_error, Outcome, ok, raise}
use mcp_zero_trust_layer.Host.{Host}
use mcp_zero_trust_layer.Config.{RequestContext}
use mcp_zero_trust_layer.Approvals.Model.{
  Status, consumed, ApprovalRequest, valid_transition, with_status, is_valid,
}

-- What `set_status` leaves in the cell.
abbrev pub cell_status :
    ℤ → Status → Option String → Option String → Option ApprovalRequest → Option ApprovalRequest
cell_status now status decided_by comment none = none
cell_status now status decided_by comment (some a) =
    if valid_transition a.status status
    then some (with_status now a status decided_by comment)
    else some a

-- What `set_status` returns or raises.
abbrev pub reply_status :
    ℤ
    → String
    → Status
    → Option String
    → Option String
    → Option ApprovalRequest
    → Outcome ApprovalRequest
reply_status now id status decided_by comment none = raise (key_error id)
reply_status now id status decided_by comment (some a) =
    if valid_transition a.status status
    then ok (with_status now a status decided_by comment)
    else raise (value_error "invalid approval transition")

module _ (host : Host) where
  -- What `consume_if_valid` returns.
  abbrev pub reply_consume : ℤ → RequestContext → String → Option ApprovalRequest → Bool
  reply_consume now context policy_id none = false
  reply_consume now context policy_id (some a) = is_valid host now a context policy_id

  -- What `consume_if_valid` leaves in the cell.
  abbrev pub cell_consume :
      ℤ → RequestContext → String → Option ApprovalRequest → Option ApprovalRequest
  cell_consume now context policy_id none = none
  cell_consume now context policy_id (some a) =
      if is_valid host now a context policy_id
      then some (with_status now a consumed a.decided_by none)
      else some a
