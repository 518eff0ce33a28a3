-- ===== src/Core/Messages.antt =====
-- core/pipeline.py: what is read from a message, and the context that is made of it.
use mcp_zero_trust_layer.Base.{
  if◌then◌else◌, ◌==◌, nat_eq, string_eq, option_eq, int_eq, bool_eq, String, ◌<>◌, Bool, true,
  false, Option, none, some, List, [], ◌∷◌,
}
use mcp_zero_trust_layer.Value.{
  Value, null, str, dict, Fields, end, field, get, get_or_null, put, without, as_str,
}
use mcp_zero_trust_layer.Host.{Host}
use mcp_zero_trust_layer.Config.{
  CapabilityType, tool, resource, prompt, method, capability_type_eq, ServerConfig, McpztConfig,
  Identity, opt_value, inbound, RequestContext,
}
use mcp_zero_trust_layer.Policy.Adapter.{require_opt_str}
use mcp_zero_trust_layer.Core.Action.{Environment, Action, ◌>>=◌, pure, lift, ask}

abbrev pub approval_key : String
approval_key = "_mcpzt_approval_id"

-- `_extract_approval_id`
unfoldable pub extract_from_arguments : Fields → Option String
unfolding get_or_null
extract_from_arguments params = elim (get_or_null "arguments" params) [
  | dict arguments ↦ as_str (get_or_null approval_key arguments)
  | _ ↦ none
]

unfoldable pub extract_approval_id : Fields → Option String
unfolding get_or_null extract_from_arguments
extract_approval_id message = elim (get_or_null "params" message) [
  | dict params ↦ elim (get_or_null approval_key params) [
    | str direct ↦ some direct
    | _ ↦ extract_from_arguments params
  ]
  | _ ↦ none
]

-- `_strip_approval_id`: `params` without the key, and its `arguments` without the key
unfoldable pub strip_params : Fields → Fields
unfolding get_or_null put without
strip_params params = elim (get_or_null "arguments" params) [
  | dict arguments ↦
      put "arguments" (dict (without approval_key arguments)) (without approval_key params)
  | _ ↦ without approval_key params
]

unfoldable pub strip_approval_id : Fields → Fields
unfolding get_or_null put strip_params
strip_approval_id message = elim (get_or_null "params" message) [
  | dict params ↦ put "params" (dict (strip_params params)) message
  | _ ↦ message
]

-- `CALL_METHODS`: the type, the key of the capability, and whether there are `arguments`
pub record CallShape : Type 0 where
  pub kind : CapabilityType
  pub capability_key : String
  pub has_arguments : Bool

unfoldable pub call_shape : String → Option CallShape
call_shape name =
    if name == "tools/call"
    then some (record { kind = tool; capability_key = "name"; has_arguments = true })
    else if name == "resources/read"
    then some (record { kind = resource; capability_key = "uri"; has_arguments = false })
    else if name == "prompts/get"
    then some (record { kind = prompt; capability_key = "name"; has_arguments = true })
    else none

-- `LIST_RESULT_KEYS`: the type, and the key of the list in the result
unfoldable pub list_shape : String → Option (CapabilityType × String)
list_shape name =
    if name == "tools/list"
    then some (tool, "tools")
    else if name == "resources/list"
    then some (resource, "resources")
    else if name == "prompts/list"
    then some (prompt, "prompts")
    else none

abbrev pub safe_notification_methods : List String
safe_notification_methods =
    "notifications/initialized" ∷ "notifications/cancelled" ∷ "notifications/roots/list_changed"
    ∷ []

abbrev pub dict_or_empty : Value → Fields
dict_or_empty (dict fs) = fs
dict_or_empty _ = end

-- the type, the capability and the arguments of the context
unfoldable pub described : String → Fields → CapabilityType × Value × Fields
unfolding call_shape get_or_null without
described name params = elim (call_shape name) [
  | none ↦ (method, str name, without approval_key params)
  | some shape ↦ (
    shape.kind,
    get_or_null shape.capability_key params,
    if shape.has_arguments
        then without approval_key (dict_or_empty (get_or_null "arguments" params))
        else without approval_key params,
  )
]

-- `message.get("method", "")` of a message that was validated
abbrev pub method_of : Fields → String
method_of message = elim (get_or_null "method" message) [ str s ↦ s | _ ↦ "" ]

module _ (host : Host) (env : Environment) (config : McpztConfig) where
  -- `request_binding`: the hash of the stripped parameters and of the configuration that decides
  unfoldable pub request_binding : ServerConfig → Fields → String
  unfolding get strip_approval_id
  request_binding server message = host.sha256 (
      host.canonical_dumps (
        dict (
          field "params"
            (elim (get "params" (strip_approval_id message)) [ none ↦ dict end | some v ↦ v ])
            (field "server" (env.dump_server (server.evidence.mode == "off") server) (
              field "policies" (env.dump_policies config.policies)
                (field "policy_engine" (env.dump_policy_engine config.policy_engine) end))))))

  unfoldable pub context_for_message : ServerConfig → Fields → Identity → Action RequestContext
  context_for_message server message identity = do
    let name = method_of message
    let params = dict_or_empty (get_or_null "params" message)
    let (kind, capability, arguments) = described name params
    capability' ← lift (require_opt_str capability)
    corr ← ask env.fresh_id
    pure (record {
      server = server.name;
      method = name;
      capability_type = kind;
      capability = capability';
      arguments = arguments;
      output = null;
      direction = inbound;
      identity = identity;
      environment = config.project.environment;
      metadata =
          field "identity_authority"
            (dict (
              field "mode" (str config.auth.mode) (
                field "issuer" (opt_value config.auth.issuer)
                  (field "audience" (opt_value config.auth.audience) end))))
            (field "request_binding" (str (request_binding server message)) end);
      correlation_id = some ("corr_" <> corr);
      config_base_dir = config.config_base_dir;
    })
