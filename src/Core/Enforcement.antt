-- ===== src/Core/Enforcement.antt =====
-- core/pipeline.py: `_enforce_output`: what a response becomes on its way to the client.
use mcp_zero_trust_layer.Base.{
  if◌then◌else◌, ◌==◌, truthy, nat_eq, string_eq, option_eq, int_eq, bool_eq, String, Bool, true,
  false, not, ◌&&◌, ◌||◌, Option, none, some,
}
use mcp_zero_trust_layer.Value.{Value, Fields, put, Outcome, ok, and_then}
use mcp_zero_trust_layer.Config.{
  Effect, redact, limit, transform, capability_type_eq, PolicyConfig, ServerConfig, outbound,
  RequestContext, PolicyDecision,
}
use mcp_zero_trust_layer.Policy.Engine.{is_require_approval, blocks, evaluate}
use mcp_zero_trust_layer.Output.Enforcer.{Enforced, enforce}
use mcp_zero_trust_layer.Protocol.Envelope.{output_blocked, error_response}
use mcp_zero_trust_layer.Approvals.Model.{status_eq}
use mcp_zero_trust_layer.Core.Action.{Headers, Gateway, Action, ◌>>=◌, ◌>>◌, pure, lift}
use mcp_zero_trust_layer.Core.Responses.{
  is_some, is_implicit, upstream_no_response, output_blocked_response, payload_of,
}
use mcp_zero_trust_layer.Core.Dispatch.{policy_by_id, log_decision, dispatch}

module _ (g : Gateway) where
  -- the part of `_enforce_output` behind the choice of the policy
  abbrev pub apply_enforced : Enforced → Fields → String → PolicyConfig → Value → Fields
  apply_enforced (true, transformed, reason) response key policy request_id =
      put key transformed response
  apply_enforced (false, transformed, reason) response key policy request_id =
      output_blocked_response request_id (some policy.id) reason

  abbrev pub not_configured : Value → Fields
  not_configured request_id =
      error_response request_id output_blocked "Output enforcement policy is not configured" none

  -- `self._policy_by_id(decision.policy_id) if decision.policy_id else None`
  unfoldable pub policy_of : PolicyDecision → Option PolicyConfig
  policy_of d = elim d.policy_id [
    | none ↦ none
    | some id ↦ if truthy id then policy_by_id g id else none
  ]

  -- the part of `_enforce_output` for the effects that rewrite the output
  unfoldable pub rewrite_response :
      PolicyDecision → Fields → String → Value → Value → Outcome Fields
  rewrite_response d response key payload request_id = elim (policy_of d) [
    | none ↦ ok (not_configured request_id)
    | some policy ↦
        if not (g.config.policy_engine.adapter == "builtin") && not (is_some policy.output)
        then ok (not_configured request_id)
        else and_then (enforce g.host payload policy)
            λ enforced. ok (apply_enforced enforced response key policy request_id)
  ]

  abbrev pub rewrites : Effect → Bool
  rewrites redact = true
  rewrites limit = true
  rewrites transform = true
  rewrites _ = false

  -- whether the decision on an output blocks it
  unfoldable pub blocks_output : PolicyDecision → Bool
  blocks_output d =
      (blocks d.decision
        || is_require_approval d.decision && not (g.config.policy_engine.adapter == "builtin"))
      && not (is_implicit d)

  -- `_enforce_output` behind its log entry: what the client gets, by the decision on the output
  unfoldable pub apply_output_decision :
      PolicyDecision → Fields → String → Value → Value → Outcome Fields
  apply_output_decision d response key payload request_id =
      if d.dry_run
      then ok response
      else if blocks_output d
      then ok (output_blocked_response request_id d.policy_id (some d.reason))
      else if rewrites d.decision
      then rewrite_response d response key payload request_id
      else ok response

  unfoldable pub enforce_payload : RequestContext → Fields → Value → String → Value → Action Fields
  enforce_payload inbound_context response request_id key payload = do
    let context = record inbound_context { direction = outbound; output = payload }
    d ← lift (evaluate g.host g.basic g.config context)
    (if is_implicit d then pure tt else log_decision g context d none none)
    lift (apply_output_decision d response key payload request_id)

  unfoldable pub enforce_output : RequestContext → Fields → Value → Action Fields
  enforce_output inbound_context response request_id = elim (payload_of response) [
    | none ↦ pure response
    | some (key, payload) ↦ enforce_payload inbound_context response request_id key payload
  ]

  unfoldable pub send_and_enforce_output :
      ServerConfig → Fields → Headers → RequestContext → PolicyDecision → Value → Action Fields
  send_and_enforce_output server message headers context d request_id = do
    reply ← dispatch g server message headers context d
    elim reply [
      | none ↦ pure (upstream_no_response request_id)
      | some response ↦ enforce_output context response request_id
    ]
