-- ===== src/Policy/Adapter.antt =====
-- policy/adapters.py: decisions of an external OPA server.
use mcp_zero_trust_layer.Base.{
  if◌then◌else◌, ◌==◌, truthy, nat_eq, string_eq, option_eq, int_eq, bool_eq, String, ◌<>◌, Bool,
  true, false, not, Option, none, some, List, [], ◌∷◌, map,
}
use mcp_zero_trust_layer.Value.{
  Value, null, bool, str, list, dict, nil, Fields, end, field, items, get_or_null, is_truthy,
  Raised, type_error, value_error, foreign, Outcome, ok, raise, ◌>>=◌,
}
use mcp_zero_trust_layer.Host.{Host}
use mcp_zero_trust_layer.Config.{
  Effect, allow, deny, hide, require_approval, redact, limit, transform, log, capability_type_name,
  capability_type_eq, CapabilityMetadata, PolicyEngineConfig, opt_value, texts, identity_dump,
  inbound, outbound, RequestContext, PolicyDecision, plain_decision,
}

unfoldable pub effect_name : Effect → String
effect_name allow = "allow"
effect_name deny = "deny"
effect_name hide = "hide"
effect_name require_approval = "require_approval"
effect_name redact = "redact"
effect_name limit = "limit"
effect_name transform = "transform"
effect_name log = "log"

-- membership in `SUPPORTED_DECISIONS`, with the decision that the text names
unfoldable pub effect_of : String → Option Effect
effect_of name =
    if name == "allow"
    then some allow
    else if name == "deny"
    then some deny
    else if name == "hide"
    then some hide
    else if name == "require_approval"
    then some require_approval
    else if name == "redact"
    then some redact
    else if name == "limit"
    then some limit
    else if name == "transform"
    then some transform
    else if name == "log"
    then some log
    else none

-- A field of the pydantic model `PolicyDecision` refuses a value of another type.
abbrev pub validation_error : Raised
validation_error = foreign "ValidationError"

abbrev pub require_str : Value → Outcome String
require_str (str s) = ok s
require_str _ = raise validation_error

abbrev pub require_opt_str : Value → Outcome (Option String)
require_opt_str null = ok none
require_opt_str (str s) = ok (some s)
require_opt_str _ = raise validation_error

-- `a or b`
abbrev pub py_or : Value → Value → Value
py_or a b = if is_truthy a then a else b

unfoldable pub is_true : Value → Bool
is_true (bool b) = b
is_true _ = false

abbrev adapter_field : String → Fields
adapter_field name = field "policy_adapter" (str name) end

abbrev decide : Bool → Effect → String → PolicyDecision
decide dry_run effect reason = record (plain_decision effect reason) { dry_run = dry_run }

-- The text of an exception, as in `f"{exc}"`.
module _ (host : Host) (dry_run : Bool) where
  abbrev unsupported : Outcome PolicyDecision
  unsupported = ok (record (decide dry_run deny "OPA result returned unsupported decision") {
    metadata = adapter_field "opa";
  })

  unfoldable pub error_texts : Value → List String
  error_texts (list vs) = map host.to_str (items vs)
  error_texts v = host.to_str v ∷ []

  unfoldable pub decision_from_fields : Fields → String → Effect → Outcome PolicyDecision
  unfolding get_or_null is_truthy error_texts
  decision_from_fields result name effect = do
    policy_id ←
        require_opt_str (py_or (get_or_null "policy_id" result) (get_or_null "policy" result))
    reason ←
        require_str (py_or (get_or_null "reason" result) (str ("OPA result decision: " <> name)))
    risk ← require_opt_str (get_or_null "risk" result)
    ok (record {
      decision = effect;
      policy_id = policy_id;
      reason = reason;
      risk = risk;
      redactions = [];
      validation_errors = error_texts (py_or (get_or_null "validation_errors" result) (list nil));
      approval_required = name == "require_approval";
      dry_run = dry_run;
      metadata = adapter_field "opa";
    })

  -- `decision`, or what `allow` says where there is none
  unfoldable pub decision_name : Fields → Value
  unfolding get_or_null is_true
  decision_name result = elim (get_or_null "decision" result) [
    | null ↦ if is_true (get_or_null "allow" result) then str "allow" else str "deny"
    | v ↦ v
  ]

  unfoldable pub decision_from_name : Fields → Value → Outcome PolicyDecision
  unfolding effect_of decision_from_fields
  decision_from_name result (str name) = elim (effect_of name) [
    | none ↦ unsupported
    | some effect ↦ decision_from_fields result name effect
  ]
  decision_from_name result (list _) = raise type_error
  decision_from_name result (dict _) = raise type_error
  decision_from_name result _ = unsupported

  unfoldable pub decision_from_opa_result : Value → Outcome PolicyDecision
  unfolding decision_name decision_from_name
  decision_from_opa_result (bool true) = ok (decide dry_run allow "OPA result allowed")
  decision_from_opa_result (bool false) = ok (decide dry_run deny "OPA result denied")
  decision_from_opa_result null = ok (decide dry_run deny "OPA result denied")
  decision_from_opa_result (dict result) = decision_from_name result (decision_name result)
  decision_from_opa_result _ = ok (decide dry_run deny "OPA result has invalid shape")

abbrev risk_of : Option CapabilityMetadata → Option String
risk_of none = none
risk_of (some m) = m.risk

-- `context.model_dump(mode="json")` and `metadata.model_dump(mode="json")`
unfoldable pub context_dump : RequestContext → Value
unfolding identity_dump
context_dump c = dict (
    field "server" (str c.server) (
      field "method" (str c.method) (
        field "capability_type" (str (capability_type_name c.capability_type)) (
          field "capability" (opt_value c.capability) (
            field "arguments" (dict c.arguments) (
              field "output" c.output (
                field "direction"
                  (str (elim c.direction [ inbound ↦ "inbound" | outbound ↦ "outbound" ]))
                  (field "identity" (dict (identity_dump c.identity)) (
                    field "environment" (str c.environment) (
                      field "metadata" (dict c.metadata) (
                        field "correlation_id" (opt_value c.correlation_id)
                          (field "config_base_dir" (opt_value c.config_base_dir) end))))))))))))

unfoldable pub metadata_dump : Option CapabilityMetadata → Value
metadata_dump none = null
metadata_dump (some m) = dict (
    field "action" (opt_value m.action) (
      field "risk" (opt_value m.risk) (
        field "access" (opt_value m.access) (
          field "resource_type" (opt_value m.resource_type) (
            field "tags" (texts m.tags) (
              field "data_classification" (opt_value m.data_classification)
                (field "owner" (opt_value m.owner) end)))))))

-- `response.json().get("result")`
unfoldable pub result_of : Value → Outcome Value
unfolding get_or_null
result_of (dict body) = ok (get_or_null "result" body)
result_of _ = raise (foreign "AttributeError")

module _ (host : Host) where
  -- the `try` part
  unfoldable pub ask_opa :
      String → RequestContext → Option CapabilityMetadata → Bool → Outcome PolicyDecision
  unfolding context_dump metadata_dump result_of decision_from_opa_result
  ask_opa endpoint context metadata dry_run = do
    body ← host.post endpoint (
        dict (
          field "input"
            (dict (
              field "context" (context_dump context)
                (field "metadata" (metadata_dump metadata) end)))
            end))
    result ← result_of body
    decision_from_opa_result host dry_run result

  -- The reasons of the two fallbacks leave out the text of the exception.
  unfoldable pub fall_back :
      PolicyEngineConfig
      → Option CapabilityMetadata
      → Bool
      → Outcome PolicyDecision
      → PolicyDecision
  fall_back config metadata dry_run (ok decision) = decision
  fall_back config metadata dry_run (raise e) =
      if config.fail_closed
      then record (decide dry_run deny "external policy adapter failed closed") {
        risk = risk_of metadata;
        metadata = adapter_field config.adapter;
      }
      else record (decide dry_run allow "external policy adapter failed open") {
        risk = risk_of metadata;
        metadata = adapter_field config.adapter;
      }

  unfoldable pub evaluate_external_policy :
      PolicyEngineConfig
      → RequestContext
      → Option CapabilityMetadata
      → Bool
      → Outcome PolicyDecision
  unfolding ask_opa fall_back
  evaluate_external_policy config context metadata dry_run =
      if not (config.adapter == "opa")
      then raise (value_error "unsupported policy adapter")
      else elim config.endpoint [
        | none ↦ raise (value_error "OPA policy adapter requires an endpoint")
        | some endpoint ↦
            if not (truthy endpoint)
            then raise (value_error "OPA policy adapter requires an endpoint")
            else ok (fall_back config metadata dry_run (ask_opa endpoint context metadata dry_run))
      ]
