-- ===== src/Policy/Analysis/Risks.antt =====
-- policy/analysis.py: the risks in what the policies decide.
pub mod Sound
use mcp_zero_trust_layer.Base.{
  if◌then◌else◌, ◌==◌, truthy, nat_eq, string_eq, option_eq, contains, is_empty, any, first, int_eq,
  bool_eq, String, ◌<>◌, Bool, true, false, not, ◌&&◌, ◌||◌, Option, none, some, List, [], ◌∷◌,
  ◌++◌,
}
use mcp_zero_trust_layer.Value.{Fields, end, field, items, Outcome, ok, ◌>>=◌, ◌>>◌}
use mcp_zero_trust_layer.Host.{Host}
use mcp_zero_trust_layer.Config.{
  Effect, CapabilityType, tool, capability_type_eq, PolicyConfig, McpztConfig, opt_value,
}
use mcp_zero_trust_layer.Policy.Engine.{default_decision}
use mcp_zero_trust_layer.Policy.Adapter.{effect_name}
use mcp_zero_trust_layer.Validators.Engine.{BasicValidators}
use mcp_zero_trust_layer.Policy.Analysis.{
  CapabilitySnapshot, PolicyCoverageItem, build_policy_coverage,
}

pub data AnalysisSeverity : Type 0 where
  info low medium high critical : AnalysisSeverity

pub record PolicyRiskFinding : Type 0 where
  pub severity : AnalysisSeverity
  pub rule_id : String
  pub server : String
  pub capability_type : Option CapabilityType
  pub capability : Option String
  pub policy_id : Option String
  pub message : String
  pub evidence : Fields

-- the severity makes a report fail
abbrev pub is_severe : AnalysisSeverity → Bool
is_severe high = true
is_severe critical = true
is_severe _ = false

-- `PolicyRiskReport.failed`
unfoldable pub has_failed : List PolicyRiskFinding → Bool
unfolding any
has_failed findings = any (λ finding. is_severe finding.severity) findings

-- `_policy_by_id`
unfoldable pub policy_by_id : McpztConfig → String → Option PolicyConfig
unfolding first
policy_by_id config id = first (λ policy. policy.id == id) config.policies

abbrev pub is_allowed : Effect → Bool
is_allowed effect = effect_name effect == "allow"

-- `policy and ... and not policy.input and not policy.validators`
abbrev pub is_unconstrained : Option PolicyConfig → Bool
is_unconstrained none = false
is_unconstrained (some policy) =
    (elim policy.input [ none ↦ true | some _ ↦ false ]) && is_empty policy.validators

-- `item.risk in {"high", "critical"}`
abbrev pub is_high_risk : PolicyCoverageItem → Bool
is_high_risk item = elim item.risk [
  | none ↦ false
  | some risk ↦ risk == "high" || risk == "critical"
]

-- a tool that writes, deletes, administers or executes
abbrev pub has_side_effects : PolicyCoverageItem → Bool
has_side_effects item = item.capability_type == tool && (elim item.access [
  | none ↦ false
  | some access ↦ contains ("write" ∷ "delete" ∷ "admin" ∷ "execute" ∷ []) access
])

-- `item.decision == config.runtime.default_decision and item.policy_id is None`
abbrev pub falls_through : McpztConfig → PolicyCoverageItem → Bool
falls_through config item =
    effect_name item.decision == effect_name config.runtime.default_decision
    && (elim item.policy_id [ none ↦ true | some _ ↦ false ])

-- the policy that allows the item, if the item has its id
abbrev pub allowing_policy : McpztConfig → PolicyCoverageItem → Option PolicyConfig
allowing_policy config item = elim item.policy_id [
  | none ↦ none
  | some id ↦ if truthy id then policy_by_id config id else none
]

abbrev pub finding_on :
    PolicyCoverageItem
    → AnalysisSeverity
    → String
    → Option String
    → String
    → Fields
    → PolicyRiskFinding
finding_on item severity rule_id policy_id message evidence = record {
  severity = severity;
  rule_id = rule_id;
  server = item.server;
  capability_type = some item.capability_type;
  capability = some item.capability;
  policy_id = policy_id;
  message = message;
  evidence = evidence;
}

-- a finding, or none
abbrev pub finding_if : Bool → PolicyRiskFinding → List PolicyRiskFinding
finding_if b finding = if b then finding ∷ [] else []

-- the four checks of `_coverage_risks`
abbrev pub mapping_risk : PolicyCoverageItem → List PolicyRiskFinding
mapping_risk item = finding_if (not item.mapped) (
    finding_on item medium "missing-capability-mapping" none "capability has no semantic mapping"
      end)

abbrev pub direct_allow_risk : PolicyCoverageItem → List PolicyRiskFinding
direct_allow_risk item = finding_if (is_high_risk item && is_allowed item.decision) (
    finding_on item (if item.risk == some "critical" then critical else high)
      "high-risk-direct-allow" item.policy_id
      "high-risk capability is directly allowed without approval"
      (field "risk" (opt_value item.risk) (field "access" (opt_value item.access) end)))

abbrev pub side_effect_risk : McpztConfig → PolicyCoverageItem → List PolicyRiskFinding
side_effect_risk config item =
    finding_if
      (is_allowed item.decision
        && has_side_effects item
        && is_unconstrained (allowing_policy config item))
      (finding_on item high "side-effect-allow-without-input-constraints" item.policy_id
        "side-effecting tool is allowed without input or validator constraints"
        (field "access" (opt_value item.access) end))

abbrev pub default_risk : McpztConfig → PolicyCoverageItem → List PolicyRiskFinding
default_risk config item = finding_if (falls_through config item) (
    finding_on item (if effect_name item.decision == "deny" then medium else high)
      ("default-" <> (effect_name item.decision <> "-decision")) none
      ("capability falls through to default " <> effect_name item.decision) end)

-- `_coverage_risks`
unfoldable pub coverage_risks : McpztConfig → PolicyCoverageItem → List PolicyRiskFinding
unfolding policy_by_id contains
coverage_risks config item =
    mapping_risk item
    ++ (direct_allow_risk item ++ (side_effect_risk config item ++ default_risk config item))

module _ (host : Host) (basic : BasicValidators) (config : McpztConfig) where
  abbrev pub default_allow : PolicyRiskFinding
  default_allow = record {
    severity = high;
    rule_id = "default-allow";
    server = "*";
    capability_type = none;
    capability = none;
    policy_id = none;
    message = "runtime.default_decision allows unmatched capabilities";
    evidence = end;
  }

  -- the findings of the items
  abbrev pub item_risks : List PolicyCoverageItem → List PolicyRiskFinding
  item_risks [] = []
  item_risks (item ∷ items) = coverage_risks config item ++ item_risks items

  unfoldable pub find_policy_risks : Option CapabilitySnapshot → Outcome (List PolicyRiskFinding)
  unfolding build_policy_coverage
  find_policy_risks snapshot = do
    items ← build_policy_coverage host basic config snapshot
    ok (finding_if (is_allowed config.runtime.default_decision) default_allow ++ item_risks items)
