-- ===== src/Core/Responses.antt =====
-- core/pipeline.py: the responses that the gateway makes itself, and the readings of a decision.
use mcp_zero_trust_layer.Base.{String, Bool, true, false, not, ◌&&◌, Option, none, some, List}
use mcp_zero_trust_layer.Base.Text.{join}
use mcp_zero_trust_layer.Value.{
  Value, bool, str, list, dict, nil, cons, Fields, end, field, get, get_or_null, is_truthy,
}
use mcp_zero_trust_layer.Config.{opt_value, texts, PolicyDecision}
use mcp_zero_trust_layer.Policy.Adapter.{effect_name}
use mcp_zero_trust_layer.Policy.Engine.{is_require_approval, blocks}
use mcp_zero_trust_layer.Protocol.Envelope.{
  denied_by_policy, output_blocked, internal_error, error_response,
}

abbrev pub is_some {ℓ} : {A : Type ℓ} → Option A → Bool
is_some none = false
is_some (some _) = true

-- `decision.metadata.get("implicit_default")`
abbrev pub is_implicit : PolicyDecision → Bool
is_implicit d = is_truthy (get_or_null "implicit_default" d.metadata)

abbrev pub denies : PolicyDecision → Bool
denies d = blocks d.decision && not d.dry_run

abbrev pub wants_approval : PolicyDecision → Bool
wants_approval d = is_require_approval d.decision && not d.dry_run

unfoldable pub upstream_no_response : Value → Fields
unfolding error_response
upstream_no_response request_id =
    error_response request_id internal_error "Upstream returned no response" none

unfoldable pub tool_validation_error_response : Value → List String → Fields
tool_validation_error_response request_id errors = field "jsonrpc" (str "2.0") (
    field "id" request_id (
      field "result"
        (dict (
          field "content"
            (list (
              cons (dict (field "type" (str "text") (field "text" (str (join "; " errors)) end)))
                nil))
            (field "isError" (bool true) end)))
        end))

unfoldable pub deny_response : Value → PolicyDecision → Fields
unfolding error_response effect_name
deny_response request_id d = error_response request_id denied_by_policy "Request denied by policy" (
    some (
      dict (
        field "decision" (str (effect_name d.decision)) (
          field "policy_id" (opt_value d.policy_id) (
            field "reason" (str d.reason)
              (field "validation_errors" (texts d.validation_errors) end))))))

abbrev pub output_blocked_response : Value → Option String → Option String → Fields
output_blocked_response request_id policy_id reason =
    error_response request_id output_blocked "Output blocked by policy" (
      some (dict (field "policy_id" (opt_value policy_id) (field "reason" (opt_value reason) end))))

-- the key of the payload, and the payload
abbrev pub payload_of : Fields → Option (String × Value)
payload_of response = elim (get "result" response) [
  | some v ↦ some ("result", v)
  | none ↦ elim (get "error" response) [ some v ↦ some ("error", v) | none ↦ none ]
]
