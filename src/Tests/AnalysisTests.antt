-- ===== src/Tests/AnalysisTests.antt =====
-- policy/analysis.py at a concrete snapshot.
use mcp_zero_trust_layer.Base.{
  nat_eq, string_eq, option_eq, contains, length, first, int_eq, bool_eq, ◌≡◌, refl, some, List, [],
  ◌∷◌,
}
use mcp_zero_trust_layer.Value.{str, end, field, items, get, get_or_null, ok, raise}
use mcp_zero_trust_layer.Config.{capability_type_eq}
use mcp_zero_trust_layer.Samples.{sample_host, sample_basic, sample_config}
use mcp_zero_trust_layer.Policy.Engine.{engine_runs}
use mcp_zero_trust_layer.Policy.Adapter.{effect_name}
use mcp_zero_trust_layer.Policy.Analysis.{
  CapabilitySnapshot, PolicyCoverageItem, named_items, snapshot_capabilities, capabilities,
  context_for_capability, coverage_item, coverage_items, build_policy_coverage,
}
use mcp_zero_trust_layer.Policy.Analysis.Risks.{
  PolicyRiskFinding, policy_by_id, coverage_risks, item_risks, find_policy_risks,
}

abbrev sample_snapshot : CapabilitySnapshot
sample_snapshot = record {
  server = "files";
  tools = field "name" (str "read") end ∷ field "name" (str "delete") end ∷ [];
  resources = field "name" (str "no uri") end ∷ [];
  prompts = [];
}

abbrev two_items : List PolicyCoverageItem
two_items =
    elim (build_policy_coverage sample_host sample_basic sample_config (some sample_snapshot)) [
      | ok items ↦ items
      | raise e ↦ []
    ]

abbrev sample_findings : List PolicyRiskFinding
sample_findings = item_risks sample_host sample_basic sample_config two_items

two_findings : length sample_findings ≡ 2
unfolding find_policy_risks build_policy_coverage capabilities snapshot_capabilities named_items
    coverage_items coverage_item context_for_capability coverage_risks policy_by_id get_or_null get
    engine_runs effect_name first contains
two_findings = refl
