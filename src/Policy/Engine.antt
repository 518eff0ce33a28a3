-- ===== src/Policy/Engine.antt =====
-- policy/engine.py, `PolicyEngine`: the decision on a request.
mod Matching
pub mod Decisions
use mcp_zero_trust_layer.Base.{
  if◌then◌else◌, ◌==◌, truthy, nat_eq, string_eq, option_eq, contains, is_empty, int_eq, bool_eq,
  String, ◌<>◌, Bool, true, false, not, ◌&&◌, Option, none, some, List, [], ◌∷◌, map,
}
use mcp_zero_trust_layer.Value.{Value, bool, str, end, field, Outcome, ok, ◌>>=◌}
use mcp_zero_trust_layer.Host.{Host}
use mcp_zero_trust_layer.Config.{
  Effect, deny, hide, require_approval, method, capability_type_eq, CapabilityMetadata,
  PolicyConfig, McpztConfig, texts, RequestContext, PolicyDecision,
}
use mcp_zero_trust_layer.Validators.InputPolicy.{validate_input_policy}
use mcp_zero_trust_layer.Validators.Engine.{BasicValidators, validate}
use mcp_zero_trust_layer.Policy.Matching.{lookup_capability_metadata, policy_matches}
use mcp_zero_trust_layer.Policy.Conditions.{evaluate_conditions}
use mcp_zero_trust_layer.Policy.Select.{select_by_precedence}
use mcp_zero_trust_layer.Policy.Adapter.{effect_name, evaluate_external_policy}

abbrev pub list_methods : List String
list_methods = "tools/list" ∷ "resources/list" ∷ "prompts/list" ∷ []

-- `{"matched_policies": [...]}`
abbrev pub matched_ids : List PolicyConfig → Value
matched_ids matching = texts (map (λ p. p.id) matching)

abbrev pub risk_of_metadata : Option CapabilityMetadata → Option String
risk_of_metadata none = none
risk_of_metadata (some m) = m.risk

unfoldable pub default_decision : McpztConfig → Option CapabilityMetadata → PolicyDecision
unfolding effect_name
default_decision config metadata = record {
  decision = config.runtime.default_decision;
  policy_id = none;
  reason = "default decision: " <> effect_name config.runtime.default_decision;
  risk = risk_of_metadata metadata;
  redactions = [];
  validation_errors = [];
  approval_required = false;
  dry_run = config.runtime.dry_run;
  metadata = field "implicit_default" (bool true) end;
}

abbrev pub is_require_approval : Effect → Bool
is_require_approval require_approval = true
is_require_approval _ = false

-- `selected.reason or f"matched policy {selected.id}"`
abbrev reason_of : PolicyConfig → String
reason_of selected = elim selected.reason [
  | none ↦ "matched policy " <> selected.id
  | some reason ↦ if truthy reason then reason else "matched policy " <> selected.id
]

unfoldable pub selected_decision :
    McpztConfig → PolicyConfig → Option CapabilityMetadata → List PolicyConfig → PolicyDecision
selected_decision config selected metadata matching = record {
  decision = selected.effect;
  policy_id = some selected.id;
  reason = reason_of selected;
  risk = risk_of_metadata metadata;
  redactions = [];
  validation_errors = [];
  approval_required = is_require_approval selected.effect;
  dry_run = config.runtime.dry_run;
  metadata = field "matched_policies" (matched_ids matching) end;
}

unfoldable pub validation_denied :
    McpztConfig
    → PolicyConfig
    → RequestContext
    → Option CapabilityMetadata
    → List PolicyConfig
    → List String
    → PolicyDecision
validation_denied config selected context metadata matching errors = record {
  decision = deny;
  policy_id = some selected.id;
  reason = "validator failed";
  risk = risk_of_metadata metadata;
  redactions = [];
  validation_errors = errors;
  approval_required = false;
  dry_run = config.runtime.dry_run;
  metadata =
      field "matched_policies" (matched_ids matching)
        (field "validated_policy" (str selected.id) (field "server" (str context.server) end));
}

abbrev pub blocks : Effect → Bool
blocks deny = true
blocks hide = true
blocks _ = false

unfoldable pub should_validate_request : PolicyConfig → RequestContext → Bool
unfolding contains
should_validate_request selected context =
    not (blocks selected.effect) && not (contains list_methods context.method)

module _ (host : Host) where
  -- the errors of the input constraints, which come before the validators
  unfoldable pub input_errors : PolicyConfig → RequestContext → List String
  unfolding validate_input_policy
  input_errors selected context = elim selected.input [
    | none ↦ []
    | some policy ↦
        let result = validate_input_policy host context.arguments policy in
        if result.passed then [] else result.errors
  ]

  -- `self._matches(...) and evaluate_conditions(...)`
  unfoldable pub policy_applies :
      RequestContext → Option CapabilityMetadata → PolicyConfig → Outcome Bool
  unfolding policy_matches evaluate_conditions
  policy_applies context metadata policy =
      if policy_matches host policy context metadata
      then evaluate_conditions host policy.when context
      else ok false

  -- the list comprehension of `_matching_policies`; an exception of a condition ends it
  unfoldable pub matching_policies :
      RequestContext → Option CapabilityMetadata → List PolicyConfig → Outcome (List PolicyConfig)
  unfolding policy_applies
  matching_policies context metadata [] = ok []
  matching_policies context metadata (policy ∷ policies) =
      let rest = matching_policies context metadata policies in
      policy_applies context metadata policy >>= λ b.
      rest >>= λ found. ok (if b then policy ∷ found else found)

module _ (host : Host) (basic : BasicValidators) where
  unfoldable pub custom_errors : PolicyConfig → RequestContext → List String
  unfolding validate
  custom_errors selected context =
      if is_empty selected.validators
      then []
      else let result = validate basic host selected.validators context in
        if result.passed then [] else result.errors

  -- The empty list is the `None` of the source.
  unfoldable pub request_validation_errors : PolicyConfig → RequestContext → List String
  unfolding should_validate_request input_errors custom_errors
  request_validation_errors selected context =
      if not (should_validate_request selected context)
      then []
      else if not (is_empty (input_errors host selected context))
      then input_errors host selected context
      else custom_errors selected context

module _ (host : Host) (basic : BasicValidators) (config : McpztConfig) where
  unfoldable pub decide_selected :
      RequestContext → Option CapabilityMetadata → List PolicyConfig → PolicyConfig → PolicyDecision
  decide_selected context metadata matching selected =
      let errors = request_validation_errors host basic selected context in
      if is_empty errors
      then selected_decision config selected metadata matching
      else validation_denied config selected context metadata matching errors

  unfoldable pub decide_builtin :
      RequestContext → Option CapabilityMetadata → List PolicyConfig → PolicyDecision
  decide_builtin context metadata matching = elim (select_by_precedence matching) [
    | none ↦ default_decision config metadata
    | some selected ↦ decide_selected context metadata matching selected
  ]

  -- `PolicyEngine.evaluate`, behind its first test
  unfoldable pub evaluate_builtin :
      RequestContext → Option CapabilityMetadata → Outcome PolicyDecision
  evaluate_builtin context metadata =
      matching_policies host context metadata config.policies >>= λ matching.
      ok (decide_builtin context metadata matching)

  -- `PolicyEngine.evaluate`
  unfoldable pub evaluate : RequestContext → Outcome PolicyDecision
  evaluate context =
      let metadata = lookup_capability_metadata config context in
      if not (config.policy_engine.adapter == "builtin")
      then evaluate_external_policy host config.policy_engine context metadata
          config.runtime.dry_run
      else evaluate_builtin context metadata

-- Whoever unfolds this runs the engine.
unfoldable pub engine_runs : Unit {0}
unfolding request_validation_errors validation_denied selected_decision select_by_precedence
    decide_selected default_decision lookup_capability_metadata evaluate_external_policy
    matching_policies decide_builtin evaluate_builtin evaluate
engine_runs = tt
