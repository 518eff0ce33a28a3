-- ===== src/Policy/Analysis.antt =====
-- policy/analysis.py: what the policies decide on each known capability.
pub mod Known
pub mod Risks
use mcp_zero_trust_layer.Base.{String, Bool, not, Option, none, some, List, [], ◌∷◌, ◌++◌, map}
use mcp_zero_trust_layer.Base.Dict.{Dict}
use mcp_zero_trust_layer.Base.Text.{sorted_set}
use mcp_zero_trust_layer.Value.{
  null, Fields, end, items, get_or_null, as_str, Outcome, ok, ◌>>=◌, ◌>>◌,
}
use mcp_zero_trust_layer.Host.{Host}
use mcp_zero_trust_layer.Config.{
  Effect, CapabilityType, tool, resource, prompt, method, CapabilityMetadata,
  ServerCapabilityMappings, McpztConfig, anonymous, inbound, RequestContext,
}
use mcp_zero_trust_layer.Policy.Matching.{lookup_capability_metadata}
use mcp_zero_trust_layer.Policy.Engine.{evaluate}
use mcp_zero_trust_layer.Validators.Engine.{BasicValidators}
use mcp_zero_trust_layer.Validators.InputPolicy.{is_missing}

-- A capability to look at, from the configuration or from a snapshot.
pub record Capability : Type 0 where
  pub server : String
  pub capability_type : CapabilityType
  pub capability : String
  pub source : String

-- capabilities/discovery.py: what a server was found to offer.
pub record CapabilitySnapshot : Type 0 where
  pub server : String
  pub tools : List Fields
  pub resources : List Fields
  pub prompts : List Fields

pub record PolicyCoverageItem : Type 0 where
  pub server : String
  pub capability_type : CapabilityType
  pub capability : String
  pub mapped : Bool
  pub source : String
  pub decision : Effect
  pub policy_id : Option String
  pub risk : Option String
  pub access : Option String
  pub action : Option String
  pub resource_type : Option String

-- `METHOD_BY_TYPE`
abbrev method_by_type : CapabilityType → String
method_by_type tool = "tools/call"
method_by_type resource = "resources/read"
method_by_type prompt = "prompts/get"
method_by_type method = ""

abbrev pub capability_named : String → CapabilityType → String → String → Capability
capability_named server kind source name = record {
  server = server;
  capability_type = kind;
  capability = name;
  source = source;
}

-- the mapped capabilities of one type, by name
abbrev pub mapped_capabilities :
    String → CapabilityType → Dict String CapabilityMetadata → List Capability
mapped_capabilities server kind mapped =
    map (capability_named server kind "config") (sorted_set (map (λ entry. entry.0) mapped))

unfoldable pub config_capabilities : Dict String ServerCapabilityMappings → List Capability
unfolding sorted_set
config_capabilities [] = []
config_capabilities ((server, mappings) ∷ rest) =
    mapped_capabilities server tool mappings.tools
    ++ mapped_capabilities server resource mappings.resources
    ++ mapped_capabilities server prompt mappings.prompts
    ++ config_capabilities rest

-- the items that have a text for their name
unfoldable pub named_items : String → CapabilityType → String → List Fields → List Capability
unfolding get_or_null
named_items server kind key [] = []
named_items server kind key (item ∷ items) =
    let rest = named_items server kind key items in
    elim (as_str (get_or_null key item)) [
      | none ↦ rest
      | some name ↦ capability_named server kind "snapshot" name ∷ rest
    ]

-- `_snapshot_capabilities`
unfoldable pub snapshot_capabilities : CapabilitySnapshot → List Capability
unfolding named_items
snapshot_capabilities s =
    named_items s.server tool "name" s.tools
    ++ named_items s.server resource "uri" s.resources
    ++ named_items s.server prompt "name" s.prompts

-- `_capabilities`
unfoldable pub capabilities : McpztConfig → Option CapabilitySnapshot → List Capability
unfolding config_capabilities snapshot_capabilities
capabilities config none = config_capabilities config.capability_mappings
capabilities config (some snapshot) = snapshot_capabilities snapshot

-- `_context_for_capability`
unfoldable pub context_for_capability : McpztConfig → Capability → RequestContext
context_for_capability config c = record {
  server = c.server;
  method = method_by_type c.capability_type;
  capability_type = c.capability_type;
  capability = some c.capability;
  arguments = end;
  output = null;
  direction = inbound;
  identity = record (anonymous (some config.project.environment)) { subject = "policy-analysis" };
  environment = config.project.environment;
  metadata = end;
  correlation_id = none;
  config_base_dir = config.config_base_dir;
}

module _ (host : Host) (basic : BasicValidators) (config : McpztConfig) where
  -- the item of one capability
  unfoldable pub coverage_item : Capability → Outcome PolicyCoverageItem
  unfolding context_for_capability evaluate lookup_capability_metadata
  coverage_item c = do
    let metadata = lookup_capability_metadata config (context_for_capability config c)
    decision ← evaluate host basic config (context_for_capability config c)
    ok (record {
      server = c.server;
      capability_type = c.capability_type;
      capability = c.capability;
      mapped = not (is_missing metadata);
      source = c.source;
      decision = decision.decision;
      policy_id = decision.policy_id;
      risk = (elim metadata [ none ↦ none | some m ↦ m.risk ]);
      access = (elim metadata [ none ↦ none | some m ↦ m.access ]);
      action = (elim metadata [ none ↦ none | some m ↦ m.action ]);
      resource_type = (elim metadata [ none ↦ none | some m ↦ m.resource_type ]);
    })

  unfoldable pub coverage_items : List Capability → Outcome (List PolicyCoverageItem)
  unfolding coverage_item
  coverage_items [] = ok []
  coverage_items (c ∷ cs) =
      coverage_item c >>= λ item. coverage_items cs >>= λ items. ok (item ∷ items)

  unfoldable pub build_policy_coverage :
      Option CapabilitySnapshot → Outcome (List PolicyCoverageItem)
  unfolding capabilities coverage_items
  build_policy_coverage snapshot = coverage_items (capabilities config snapshot)
