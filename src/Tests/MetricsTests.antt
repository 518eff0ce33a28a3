-- ===== src/Tests/MetricsTests.antt =====
-- observability/metrics.py at a concrete decision.
use mcp_zero_trust_layer.Base.{◌≡◌, refl, none, [], ◌∷◌}
use mcp_zero_trust_layer.Config.{PolicyDecision}
use mcp_zero_trust_layer.Samples.{no_deletion, sample_config, sample_context}
use mcp_zero_trust_layer.Metrics.{
  Counters, count_of, metric_key, record_decision, increment, escape_label,
}
use mcp_zero_trust_layer.Policy.Adapter.{effect_name}
use mcp_zero_trust_layer.Policy.Engine.{selected_decision}

abbrev denied : PolicyDecision
denied = selected_decision sample_config no_deletion none (no_deletion ∷ [])

abbrev two_counters : Counters
two_counters =
    (metric_key sample_context denied, 4)
    ∷ (record (metric_key sample_context denied) { policy_id = "default" }, 1)
    ∷ []

escaped : escape_label "a\"b\\" ≡ "a\\\"b\\\\"
unfolding escape_label
escaped = refl

-- A recorded decision counts under its own key, which has the id of the policy.
recorded :
    (count_of
        (metric_key sample_context denied)
        (record_decision sample_context denied two_counters)
      ≡ 5)
    × ((metric_key sample_context denied).policy_id ≡ no_deletion.id)
unfolding count_of record_decision increment effect_name selected_decision
recorded = (refl, refl)
