-- ===== src/Tests/PolicyTests.antt =====
-- policy/engine.py at concrete inputs.
use mcp_zero_trust_layer.Base.{◌≡◌, refl, ◌↔◌, inl, inr, true, none, some, [], ◌∷◌}
use mcp_zero_trust_layer.Value.{ok}
use mcp_zero_trust_layer.Samples.{
  sample_host, sample_basic, allow_all, no_deletion, sample_config, sample_context,
}
use mcp_zero_trust_layer.Config.{deny, PolicyConfig, PolicyDecision}
use mcp_zero_trust_layer.Policy.Engine.{selected_decision, policy_applies, evaluate, engine_runs}
use mcp_zero_trust_layer.Policy.Engine.Decisions.{evaluate_deny_overrides}
use mcp_zero_trust_layer.Policy.Select.{select_by_precedence}
use mcp_zero_trust_layer.Policy.Select.Laws.{select_deny_overrides}
use mcp_zero_trust_layer.Policy.Matching.{lookup_capability_metadata, policy_matches}
use mcp_zero_trust_layer.Policy.Matching.Single.{MeetsRequest, Meets}
use mcp_zero_trust_layer.Policy.Matching.Laws.{policy_matches_iff}

abbrev denial : PolicyDecision
denial = selected_decision sample_config no_deletion none (allow_all ∷ no_deletion ∷ [])

sample-evaluate : evaluate sample_host sample_basic sample_config sample_context ≡ ok denial
unfolding engine_runs
sample-evaluate = refl

no_deletion-applies :
    policy_applies sample_host sample_context
      (lookup_capability_metadata sample_config sample_context)
      no_deletion
    ≡ ok true
unfolding engine_runs
no_deletion-applies = refl

evaluate_deny_overrides_example : denial.decision ≡ deny
evaluate_deny_overrides_example =
    evaluate_deny_overrides sample_host sample_basic sample_config sample_context no_deletion denial
      refl (inr (inl refl)) no_deletion-applies refl sample-evaluate

select_deny_overrides_example :
    (p : PolicyConfig) × (select_by_precedence (allow_all ∷ no_deletion ∷ []) ≡ some p)
    × (p.effect ≡ deny)
select_deny_overrides_example =
    select_deny_overrides (allow_all ∷ no_deletion ∷ []) no_deletion (inr (inl refl)) refl

policy_matches_iff_example :
    (policy_matches sample_host no_deletion sample_context none ≡ true)
    ↔ (MeetsRequest sample_host no_deletion.match sample_context × Meets no_deletion.match none)
policy_matches_iff_example = policy_matches_iff sample_host no_deletion sample_context none
