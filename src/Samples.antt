-- ===== src/Samples.antt =====
-- Concrete values for the tests: a host, validators, a configuration and a request.
use mcp_zero_trust_layer.Base.{
  if◌then◌else◌, ◌==◌, nat_eq, string_eq, option_eq, pos, int_eq, bool_eq, String, ◌<>◌, true,
  false, ◌||◌, none, some, [], ◌∷◌,
}
use mcp_zero_trust_layer.Value.{null, str, Fields, end, foreign, Outcome, raise}
use mcp_zero_trust_layer.Host.{Host}
use mcp_zero_trust_layer.Config.{
  Effect, allow, deny, tool, capability_type_eq, PolicyMatch, PolicyConfig, RuntimeConfig,
  AuthConfig, ApprovalsConfig, McpztConfig, anonymous, inbound, RequestContext,
}
use mcp_zero_trust_layer.Validators.Engine.{BasicValidators}
use mcp_zero_trust_layer.Approvals.Store.{Disk}
use mcp_zero_trust_layer.Approvals.Model.{approved, status_eq, ApprovalRequest}
use mcp_zero_trust_layer.Validators.InputPolicy.{ValidatorResult}

-- A host whose functions compute: patterns match by equality or as "*", texts stand for themselves.
abbrev pub sample_host : Host
sample_host = record {
  fnmatchcase = λ name pattern. pattern == "*" || pattern == name;
  search = λ pattern text. some (pattern == text);
  sub = λ pattern text. some (if pattern == text then "[REDACTED]" else text);
  to_str = λ v. elim v [ str s ↦ s | _ ↦ "value" ];
  repr = λ s. "'" <> s <> "'";
  dumps = λ v. "json";
  canonical_dumps = λ v. "json";
  sha256 = λ s. "hash of " <> s;
  attribute = λ v name. none;
  post = λ url body. raise (foreign "ConnectError");
}

abbrev valid_result : Fields → Fields → Outcome ValidatorResult
valid_result options arguments = raise (foreign "ValueError")

abbrev pub sample_basic : BasicValidators
sample_basic = record {
  sql_read_only = valid_result;
  filesystem_path = valid_result;
  url = valid_result;
  email = valid_result;
  regex = valid_result;
  required_forbidden_fields = valid_result;
  max_field_bytes = valid_result;
}

abbrev any_match : PolicyMatch
any_match = record {
  server = none;
  method = none;
  capability_type = none;
  capability = none;
  capabilities = [];
  action = none;
  risk = none;
  access = none;
  resource_type = none;
  tag = none;
  tags = [];
  data_classification = none;
  environment = none;
  user = none;
  group = none;
  role = none;
  client_id = none;
  agent_id = none;
}

-- A policy for one capability.
abbrev pub sample_policy : String → Effect → String → PolicyConfig
sample_policy id effect capability = record {
  id = id;
  effect = effect;
  match = record any_match { capability = some capability };
  when = end;
  input = none;
  validators = [];
  output = none;
  reason = none;
}

abbrev pub allow_all : PolicyConfig
allow_all = sample_policy "allow_all" allow "*"

abbrev pub no_deletion : PolicyConfig
no_deletion = sample_policy "no_deletion" deny "delete"

abbrev sample_auth : AuthConfig
sample_auth = record {
  mode = "none";
  token = none;
  token_env = none;
  header = "authorization";
  trust_identity_headers = false;
  issuer = none;
  audience = none;
  jwks_url = none;
  algorithms = [];
  authorization_servers = [];
  required_scopes = [];
  subject_claim = "sub";
  email_claim = "email";
  scopes_claim = "scope";
  groups_claim = "groups";
  roles_claim = "roles";
  client_id_claim = "client_id";
  agent_id_claim = "agent_id";
}

abbrev sample_runtime : RuntimeConfig
sample_runtime = record {
  mode = "enforce";
  default_decision = deny;
  dry_run = false;
  allow_dry_run_in_production = false;
  allow_auth_none_in_production = false;
  allowed_origins = [];
  trusted_hosts = [];
  public_base_url = none;
  max_request_bytes = pos 1000000;
}

abbrev pub sample_approvals : ApprovalsConfig
sample_approvals = record {
  backend = "file";
  path = "approvals.json";
  default_ttl_seconds = pos 600;
  webhook_url = none;
  webhook_strict = false;
  require_separation_of_duties = false;
}

abbrev pub sample_config : McpztConfig
sample_config = record {
  config_base_dir = none;
  project = record { name = "sample"; environment = "development" };
  runtime = sample_runtime;
  auth = sample_auth;
  servers = [];
  capability_mappings = [];
  policies = allow_all ∷ no_deletion ∷ [];
  audit = record {
    destination = "stdout";
    path = "audit.jsonl";
    strict = true;
    hash_chain = true;
    hmac_key = none;
    hmac_key_env = none;
  };
  approvals = sample_approvals;
  policy_engine = record { adapter = "builtin"; endpoint = none; fail_closed = true };
}

-- A call of the tool "delete" by a client that is not known.
abbrev pub sample_context : RequestContext
sample_context = record {
  server = "files";
  method = "tools/call";
  capability_type = tool;
  capability = some "delete";
  arguments = end;
  output = null;
  direction = inbound;
  identity = anonymous (some "development");
  environment = "development";
  metadata = end;
  correlation_id = none;
  config_base_dir = none;
}

-- An approval of that call, granted and not used.
abbrev pub sample_approval : ApprovalRequest
sample_approval = record {
  id = "appr_1";
  status = approved;
  server = "files";
  method = some "tools/call";
  capability = some "delete";
  capability_type = tool;
  policy_id = "ask";
  identity_subject = "anonymous";
  client_id = none;
  agent_id = none;
  request_binding = none;
  arguments_hash = "hash of json";
  arguments_redacted = end;
  created_at = pos 0;
  expires_at = some (pos 1000);
  consumed_at = none;
  decided_at = some (pos 1);
  decided_by = some "admin";
  decision_comment = none;
}

abbrev pub sample_disk : Disk
sample_disk = record { file = some (("appr_1", sample_approval) ∷ []); table = [] }
