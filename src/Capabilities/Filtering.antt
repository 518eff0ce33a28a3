-- ===== src/Capabilities/Filtering.antt =====
-- capabilities/filtering.py: the entries of a list response that are visible to a client.
pub mod Visible
use mcp_zero_trust_layer.Base.{if◌then◌else◌, String, Bool, true, false, Option, none}
use mcp_zero_trust_layer.Value.{
  Value, null, dict, Items, nil, cons, end, get_or_null, foreign, Outcome, ok, raise, ◌>>=◌,
}
use mcp_zero_trust_layer.Host.{Host}
use mcp_zero_trust_layer.Config.{
  Effect, allow, require_approval, redact, limit, transform, log, CapabilityType, tool, resource,
  prompt, method, McpztConfig, Identity, inbound, RequestContext, PolicyDecision,
}
use mcp_zero_trust_layer.Policy.Adapter.{require_opt_str}
use mcp_zero_trust_layer.Validators.Engine.{BasicValidators}
use mcp_zero_trust_layer.Policy.Engine.{evaluate}

-- `method_by_type` and `name_key_by_type`; the source has no entry for "method"
abbrev pub method_by_type : CapabilityType → String
method_by_type tool = "tools/list"
method_by_type resource = "resources/list"
method_by_type prompt = "prompts/list"
method_by_type method = ""

abbrev pub name_key_by_type : CapabilityType → String
name_key_by_type tool = "name"
name_key_by_type resource = "uri"
name_key_by_type prompt = "name"
name_key_by_type method = ""

unfoldable pub is_visible : Effect → Bool
is_visible allow = true
is_visible require_approval = true
is_visible redact = true
is_visible limit = true
is_visible transform = true
is_visible log = true
is_visible _ = false

abbrev pub item_context :
    McpztConfig → String → CapabilityType → Option String → Identity → String → RequestContext
item_context config server capability_type name identity environment = record {
  server = server;
  method = method_by_type capability_type;
  capability_type = capability_type;
  capability = name;
  arguments = end;
  output = null;
  direction = inbound;
  identity = identity;
  environment = environment;
  metadata = end;
  correlation_id = none;
  config_base_dir = config.config_base_dir;
}

module _ (host : Host) (basic : BasicValidators) (config : McpztConfig) (server : String)
    (capability_type : CapabilityType) (identity : Identity) (environment : String) where
  -- `capability.get(name_key)` raises on a value that is no dict
  unfoldable pub item_name : Value → Outcome (Option String)
  unfolding get_or_null
  item_name (dict fs) = require_opt_str (get_or_null (name_key_by_type capability_type) fs)
  item_name _ = raise (foreign "AttributeError")

  unfoldable pub item_decision : Value → Outcome PolicyDecision
  unfolding item_name
  item_decision capability = do
    name ← item_name capability
    evaluate host basic config
        (item_context config server capability_type name identity environment)

  unfoldable pub visible_items : Items → Outcome Items
  unfolding item_decision is_visible
  visible_items nil = ok nil
  visible_items (cons capability rest) =
      let later = visible_items rest in
      item_decision capability >>= λ d.
      later >>= λ shown. ok (if is_visible d.decision then cons capability shown else shown)

  unfoldable pub filter_capabilities : Items → Outcome Items
  unfolding visible_items
  filter_capabilities capabilities =
      if config.runtime.dry_run then ok capabilities else visible_items capabilities
