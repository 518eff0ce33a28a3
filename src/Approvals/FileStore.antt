-- ===== src/Approvals/FileStore.antt =====
-- approvals/store.py, the backend "file": one JSON file that holds a dict, read and replaced under
-- an exclusive lock. The file is `none` before the first write; encoding a dict as JSON and
-- decoding it again gives the same dict.
use mcp_zero_trust_layer.Base.{
  if◌then◌else◌, nat_eq, string_eq, option_eq, ℤ, int_eq, bool_eq, String, Bool, true, false, not,
  Option, none, some, [],
}
use mcp_zero_trust_layer.Base.Dict.{Dict, lookup, insert}
use mcp_zero_trust_layer.Value.{key_error, value_error, Outcome, ok, raise}
use mcp_zero_trust_layer.Host.{Host}
use mcp_zero_trust_layer.Config.{capability_type_eq, RequestContext}
use mcp_zero_trust_layer.Approvals.Model.{
  Status, consumed, ApprovalRequest, valid_transition, with_status, is_valid,
}

abbrev pub ApprovalFile : Type 0
ApprovalFile = Option (Dict String ApprovalRequest)

-- `_load_unlocked`, and `_load`
unfoldable pub load : ApprovalFile → Dict String ApprovalRequest
load none = []
load (some approvals) = approvals

-- `_save_unlocked`
abbrev pub save : Dict String ApprovalRequest → ApprovalFile
save approvals = some approvals

unfoldable pub file_create : ApprovalRequest → ApprovalFile → ApprovalFile
unfolding load insert
file_create request file = save (insert request.id request (load file))

unfoldable pub file_get : String → ApprovalFile → Option ApprovalRequest
unfolding load lookup
file_get id file = lookup id (load file)

unfoldable pub file_set_status :
    ℤ
    → String
    → Status
    → Option String
    → Option String
    → ApprovalFile
    → Outcome ApprovalRequest × ApprovalFile
unfolding file_get valid_transition with_status insert
file_set_status now id status decided_by comment file = elim (file_get id file) [
  | none ↦ (raise (key_error id), file)
  | some approval ↦
      if not (valid_transition approval.status status)
      then (raise (value_error "invalid approval transition"), file)
      else let updated = with_status now approval status decided_by comment in
        (ok updated, save (insert id updated (load file)))
]

unfoldable pub file_consume_if_valid :
    Host → ℤ → String → RequestContext → String → ApprovalFile → Bool × ApprovalFile
unfolding file_get is_valid with_status insert
file_consume_if_valid host now id context policy_id file = elim (file_get id file) [
  | none ↦ (false, file)
  | some approval ↦ if not (is_valid host now approval context policy_id) then (false, file) else (
    true,
    save (insert id (with_status now approval consumed approval.decided_by none) (load file)),
  )
]
