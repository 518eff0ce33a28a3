-- ===== src/Policy/Analysis/Risks/Sound.antt =====
-- policy/analysis.py: reports that do not fail.
use mcp_zero_trust_layer.Base.{
  ◌==◌, nat_eq, string_eq, option_eq, int_eq, bool_eq, ◌≡◌, true, false,
}
use mcp_zero_trust_layer.Host.{Host}
use mcp_zero_trust_layer.Config.{capability_type_eq, McpztConfig}
use mcp_zero_trust_layer.Policy.Adapter.{effect_name}
use mcp_zero_trust_layer.Policy.Analysis.{PolicyCoverageItem}
use mcp_zero_trust_layer.Policy.Analysis.Risks.{
  is_allowed, is_unconstrained, is_high_risk, has_side_effects, falls_through, allowing_policy,
}

module _ (config : McpztConfig) where
  -- The decision on the capability is without the risks that make a report fail.
  abbrev pub IsSafe : PolicyCoverageItem → Type 0
  IsSafe item =
      (is_high_risk item ≡ true → is_allowed item.decision ≡ false)
      × (is_allowed item.decision ≡ true
          → has_side_effects item ≡ true
          → is_unconstrained (allowing_policy config item) ≡ false)
      × (falls_through config item ≡ true → (effect_name item.decision == "deny") ≡ true)
