-- ===== src/Config/Context.antt =====
-- identity/models.py and core/context.py: the principal of a request, and the context that
-- policies are evaluated in.
use mcp_zero_trust_layer.Base.{
  nat_eq, string_eq, option_eq, int_eq, String, Bool, false, Option, none, some, List, [], map,
}
use mcp_zero_trust_layer.Value.{Value, null, str, list, Fields, end, field, of_items}
use mcp_zero_trust_layer.Config.Models.{Effect, CapabilityType, capability_type_eq}

pub record Identity : Type 0 where
  pub subject : String
  pub email : Option String
  pub groups : List String
  pub roles : List String
  pub client_id : Option String
  pub agent_id : Option String
  pub session_id : Option String
  pub conversation_id : Option String
  pub project_id : Option String
  pub source_ip : Option String
  pub auth_method : String
  pub machine_id : Option String
  pub environment : Option String

-- `Identity(environment=...)` with the defaults for the rest
abbrev pub anonymous : Option String → Identity
anonymous environment = record {
  subject = "anonymous";
  email = none;
  groups = [];
  roles = [];
  client_id = none;
  agent_id = none;
  session_id = none;
  conversation_id = none;
  project_id = none;
  source_ip = none;
  auth_method = "none";
  machine_id = none;
  environment = environment;
}

abbrev pub opt_value : Option String → Value
opt_value none = null
opt_value (some s) = str s

abbrev pub texts : List String → Value
texts xs = list (of_items (map str xs))

-- `identity.model_dump()`
unfoldable pub identity_dump : Identity → Fields
identity_dump i = field "subject" (str i.subject) (
    field "email" (opt_value i.email) (
      field "groups" (texts i.groups) (
        field "roles" (texts i.roles) (
          field "client_id" (opt_value i.client_id) (
            field "agent_id" (opt_value i.agent_id) (
              field "session_id" (opt_value i.session_id) (
                field "conversation_id" (opt_value i.conversation_id) (
                  field "project_id" (opt_value i.project_id) (
                    field "source_ip" (opt_value i.source_ip) (
                      field "auth_method" (str i.auth_method) (
                        field "machine_id" (opt_value i.machine_id)
                          (field "environment" (opt_value i.environment) end))))))))))))

pub data Direction : Type 0 where
  inbound outbound : Direction

-- `output` is `null` where the source has `None`.
pub record RequestContext : Type 0 where
  pub server : String
  pub method : String
  pub capability_type : CapabilityType
  pub capability : Option String
  pub arguments : Fields
  pub output : Value
  pub direction : Direction
  pub identity : Identity
  pub environment : String
  pub metadata : Fields
  pub correlation_id : Option String
  pub config_base_dir : Option String

-- policy/models.py
pub record PolicyDecision : Type 0 where
  pub decision : Effect
  pub policy_id : Option String
  pub reason : String
  pub risk : Option String
  pub redactions : List String
  pub validation_errors : List String
  pub approval_required : Bool
  pub dry_run : Bool
  pub metadata : Fields

-- `PolicyDecision(decision=..., reason=...)` with the defaults for the rest
abbrev pub plain_decision : Effect → String → PolicyDecision
plain_decision effect reason = record {
  decision = effect;
  policy_id = none;
  reason = reason;
  risk = none;
  redactions = [];
  validation_errors = [];
  approval_required = false;
  dry_run = false;
  metadata = end;
}
