-- ===== src/Core/Approval.antt =====
-- core/pipeline.py: `_handle_approval_required`: asking for an approval, and using one.
use mcp_zero_trust_layer.Base.{
  if◌then◌else◌, truthy, nat_eq, string_eq, option_eq, int_eq, bool_eq, String, ◌<>◌, Bool, false,
  not, ◌&&◌, Option, none, some,
}
use mcp_zero_trust_layer.Value.{Value, null, int, str, dict, Fields, end, field, put}
use mcp_zero_trust_layer.Config.{
  capability_type_eq, ServerConfig, opt_value, RequestContext, PolicyDecision,
}
use mcp_zero_trust_layer.Policy.Adapter.{effect_name}
use mcp_zero_trust_layer.Protocol.Envelope.{approval_needed, error_response}
use mcp_zero_trust_layer.Approvals.Model.{status_eq, ApprovalRequest}
use mcp_zero_trust_layer.Approvals.Store.{create, consume_if_valid}
use mcp_zero_trust_layer.Core.Action.{
  Headers, approval_audited, notified, Action, Gateway, ◌>>=◌, ◌>>◌, pure, attempt, write_audit,
  on_disk, on_disk_raising, ask,
}
use mcp_zero_trust_layer.Core.Messages.{extract_approval_id, strip_approval_id}
use mcp_zero_trust_layer.Core.Dispatch.{log_decision}
use mcp_zero_trust_layer.Core.Enforcement.{send_and_enforce_output}

module _ (g : Gateway) where
  -- the policy id, or "unknown" where there is none or it is empty
  abbrev pub policy_id_or_unknown : PolicyDecision → String
  policy_id_or_unknown d = elim d.policy_id [
    | none ↦ "unknown"
    | some id ↦ if truthy id then id else "unknown"
  ]

  unfoldable pub approval_needed_response : Value → PolicyDecision → ApprovalRequest → Fields
  approval_needed_response request_id d approval =
      error_response request_id approval_needed "Approval required" (
        some (
          dict (
            field "decision" (str (effect_name d.decision)) (
              field "policy_id" (opt_value d.policy_id) (
                field "reason" (str d.reason) (
                  field "approval_id" (str approval.id) (
                    field "expires_at" (elim approval.expires_at [ none ↦ null | some t ↦ int t ])
                      end)))))))

  unfoldable pub create_approval_response : RequestContext → PolicyDecision → Value → Action Fields
  create_approval_response context d request_id = do
    time ← ask g.env.now
    fresh ← ask g.env.fresh_id
    approval ←
        on_disk_raising (
          create g.host g.config.approvals ("appr_" <> fresh) time context (policy_id_or_unknown d))
    log_decision g context d (some false) none
    write_audit g (approval_audited "created" approval)
    attempt g.env.webhook_failure (notified "created" approval)
    pure (approval_needed_response request_id d approval)

  -- `approval_id and decision.policy_id and consume_if_valid(...)`
  unfoldable pub try_consume : Option String → RequestContext → PolicyDecision → Action Bool
  try_consume none context d = pure false
  try_consume (some id) context d = elim d.policy_id [
    | none ↦ pure false
    | some policy_id ↦
        if not (truthy id && truthy policy_id)
        then pure false
        else (ask g.env.now >>= λ time.
            on_disk (consume_if_valid g.host g.config.approvals time id context policy_id))
  ]

  abbrev pub id_value : Option String → Value
  id_value = opt_value

  unfoldable pub handle_approval_required :
      ServerConfig → Fields → Headers → RequestContext → PolicyDecision → Value → Action Fields
  handle_approval_required server message headers context d request_id = do
    let id = extract_approval_id message
    consumed' ← try_consume id context d
    (if consumed'
        then send_and_enforce_output g server (strip_approval_id message) headers
            (record context { metadata = put "approval_id" (id_value id) context.metadata }) d
            request_id
        else create_approval_response context d request_id)
