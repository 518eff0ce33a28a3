-- ===== src/Policy/Engine/Decisions.antt =====
-- policy/engine.py, `PolicyEngine.evaluate`: why a decision was made, for the builtin adapter.
use mcp_zero_trust_layer.Base.{
  if_not, is_empty, All, IsIn, All_at, ◌≤◌, String, ◌≡◌, refl, sym, ap, ◌∙◌, ◌≢◌, ◌⊎◌, inl, inr,
  true, false, Option, List, [], ◌∷◌, arith, eq_iff,
}
use mcp_zero_trust_layer.Value.{ok, >>=-eq-ok, ok-injective}
use mcp_zero_trust_layer.Host.{Host}
use mcp_zero_trust_layer.Config.{
  Effect, deny, CapabilityMetadata, PolicyConfig, McpztConfig, RequestContext, PolicyDecision,
}
use mcp_zero_trust_layer.Validators.Engine.{BasicValidators}
use mcp_zero_trust_layer.Policy.Matching.{lookup_capability_metadata}
use mcp_zero_trust_layer.Policy.Select.{precedence, least}
use mcp_zero_trust_layer.Policy.Select.Laws.{
  IsFirstLeast, select_by_precedence-IsFirstLeast, IsFirstLeast-le, IsFirstLeast-IsIn,
  deny_of_le_zero,
}
use mcp_zero_trust_layer.Policy.Engine.{
  default_decision, selected_decision, validation_denied, policy_applies, matching_policies,
  request_validation_errors, decide_selected, decide_builtin, evaluate_builtin, evaluate,
}
use mcp_zero_trust_layer.Policy.Engine.Matching.{Applies, NotApplies, collected, settled}
use mathlib.Core.Path.{subst}

module _ (host : Host) (basic : BasicValidators) (config : McpztConfig)
    (context : RequestContext) where
  abbrev pub metadata_of : Option CapabilityMetadata
  metadata_of = lookup_capability_metadata config context

  -- A policy that does not apply, or that applies and comes no earlier than `p`.
  abbrev pub Yields : PolicyConfig → PolicyConfig → Type 0
  Yields p q =
      NotApplies host context metadata_of q
      ⊎ (Applies host context metadata_of q × (precedence p.effect ≤ precedence q.effect))

  -- `p` is configured, applies, and no policy that applies comes earlier in the precedence.
  pub record IsSelected (p : PolicyConfig) : Type 0 where
    pub listed : IsIn p config.policies
    pub applies : Applies host context metadata_of p
    pub first_ranked : All (Yields p) config.policies

  -- The three reasons of a decision.
  pub data IsDecided (d : PolicyDecision) : Type 0 where
    by_default :
        All (NotApplies host context metadata_of) config.policies
        → d ≡ default_decision config metadata_of
        → IsDecided d
    by_policy :
        (p : PolicyConfig) (ms : List PolicyConfig)
        → IsSelected p
        → request_validation_errors host basic p context ≡ []
        → d ≡ selected_decision config p metadata_of ms
        → IsDecided d
    by_validation :
        (p : PolicyConfig) (ms : List PolicyConfig)
        → IsSelected p
        → request_validation_errors host basic p context ≢ []
        → d
          ≡ validation_denied config p context metadata_of ms
              (request_validation_errors host basic p context)
        → IsDecided d

  none_apply :
      (policies : List PolicyConfig)
      → All
          (λ q.
            NotApplies host context metadata_of q
            ⊎ (Applies host context metadata_of q × IsIn q []))
          policies
      → All (NotApplies host context metadata_of) policies
  none_apply [] h = tt
  none_apply (p ∷ ps) (inl n, h) = (n, none_apply ps h)
  none_apply (p ∷ ps) (inr (a, m), h) = absurd m

  yields :
      (p : PolicyConfig) (ms policies : List PolicyConfig)
      → All (λ q. precedence p.effect ≤ precedence q.effect) ms
      → All
          (λ q.
            NotApplies host context metadata_of q
            ⊎ (Applies host context metadata_of q × IsIn q ms))
          policies
      → All (Yields p) policies
  yields p ms [] least h = tt
  yields p ms (q ∷ qs) least (inl n, h) = (inl n, yields p ms qs least h)
  yields p ms (q ∷ qs) least (inr (a, m), h) = (
    inr (a, All_at (λ r. precedence p.effect ≤ precedence r.effect) ms least m),
    yields p ms qs least h,
  )

  select-IsSelected :
      (ms : List PolicyConfig) (p : PolicyConfig)
      → matching_policies host context metadata_of config.policies ≡ ok ms
      → IsFirstLeast ms p
      → IsSelected p
  select-IsSelected ms p h f =
      let (listed, applies) =
        All_at (λ q. IsIn q config.policies × Applies host context metadata_of q) ms
          (collected host context metadata_of config.policies ms h) (IsFirstLeast-IsIn f) in
      record {
        listed = listed;
        applies = applies;
        first_ranked =
            yields p ms config.policies (IsFirstLeast-le f)
              (settled host context metadata_of config.policies ms h);
      }

  is_empty_cases : (xs : List String) → (xs ≡ []) ⊎ ((is_empty xs ≡ false) × (xs ≢ []))
  is_empty_cases [] = inl refl
  is_empty_cases (x ∷ xs) = inr (refl, λ e. cc)

  decide_selected-IsDecided :
      (ms : List PolicyConfig) (p : PolicyConfig)
      → IsSelected p
      → IsDecided (decide_selected host basic config context metadata_of ms p)
  unfolding decide_selected
  decide_selected-IsDecided ms p s =
      elim (is_empty_cases (request_validation_errors host basic p context)) [
        | inl clean ↦ rw clean (by_policy p ms s clean refl)
        | inr (found, some_errors) ↦ rw found (by_validation p ms s some_errors refl)
      ]

  decide_builtin-IsDecided :
      (ms : List PolicyConfig)
      → matching_policies host context metadata_of config.policies ≡ ok ms
      → IsDecided (decide_builtin host basic config context metadata_of ms)
  unfolding decide_builtin
  decide_builtin-IsDecided ms h = elim (select_by_precedence-IsFirstLeast ms) [
    | inl (empty, none_selected) ↦
        rw (none_selected, decide_builtin)
          (by_default
            (none_apply config.policies (
              settled host context metadata_of config.policies [] (
                subst (λ m. matching_policies host context metadata_of config.policies ≡ ok m) empty
                  h)))
            refl)
    | inr (p, selected, f) ↦
        rw (selected, decide_builtin) (decide_selected-IsDecided ms p (select-IsSelected ms p h f))
  ]

evaluate-eq-builtin :
    (host : Host) (basic : BasicValidators) (config : McpztConfig) (context : RequestContext)
    → config.policy_engine.adapter ≡ "builtin"
    → evaluate host basic config context
      ≡ evaluate_builtin host basic config context (metadata_of host basic config context)
unfolding evaluate
evaluate-eq-builtin host basic config context builtin =
    if_not _ _ _ ((eq_iff config.policy_engine.adapter "builtin").1 builtin)

pub evaluate-IsDecided :
    (host : Host) (basic : BasicValidators) (config : McpztConfig) (context : RequestContext)
    (d : PolicyDecision)
    → config.policy_engine.adapter ≡ "builtin"
    → evaluate host basic config context ≡ ok d
    → IsDecided host basic config context d
unfolding evaluate_builtin
evaluate-IsDecided host basic config context d builtin h =
    let (ms, matched, same) =
      >>=-eq-ok _ _ (sym (evaluate-eq-builtin host basic config context builtin) ∙ h) in
    subst (IsDecided host basic config context) (ok-injective same)
      (decide_builtin-IsDecided host basic config context ms matched)

precedence-zero : (e : Effect) → e ≡ deny → precedence e ≤ 0
unfolding precedence
precedence-zero e h = ground arith

module _ (host : Host) (basic : BasicValidators) (config : McpztConfig)
    (context : RequestContext) where
  abbrev AppliesHere : PolicyConfig → Type 0
  AppliesHere = Applies host context (metadata_of host basic config context)

  not_both :
      (q : PolicyConfig)
      → AppliesHere q
      → NotApplies host context (metadata_of host basic config context) q
      → ⊥
  not_both q a n = cc

  deny_selected :
      (p q : PolicyConfig)
      → AppliesHere q
      → q.effect ≡ deny
      → Yields host basic config context p q
      → p.effect ≡ deny
  deny_selected p q a e (inl n) = absurd (not_both q a n)
  deny_selected p q a e (inr (_, le)) =
      deny_of_le_zero p.effect (omega (arith, precedence-zero q.effect e))

  deny_overrides_cases :
      (q : PolicyConfig) (d : PolicyDecision)
      → IsIn q config.policies
      → AppliesHere q
      → q.effect ≡ deny
      → IsDecided host basic config context d
      → d.decision ≡ deny
  unfolding selected_decision validation_denied
  deny_overrides_cases q d m a e (by_default n _) = absurd (
      not_both q a (
        All_at (NotApplies host context (metadata_of host basic config context)) config.policies n
          m))
  deny_overrides_cases q d m a e (by_policy p ms s _ same) =
      ap (λ (x : PolicyDecision). x.decision) same
      ∙ deny_selected p q a e
          (All_at (Yields host basic config context p) config.policies s.first_ranked m)
  deny_overrides_cases q d m a e (by_validation p ms s _ same) =
      ap (λ (x : PolicyDecision). x.decision) same

-- With the builtin adapter, when a configured policy with the effect "deny" applies to a request,
-- every decision that `evaluate` returns for it is a denial, whatever the other policies say.
pub evaluate_deny_overrides :
    (host : Host) (basic : BasicValidators) (config : McpztConfig) (context : RequestContext)
    (q : PolicyConfig) (d : PolicyDecision)
    → config.policy_engine.adapter ≡ "builtin"
    → IsIn q config.policies
    → policy_applies host context (lookup_capability_metadata config context) q ≡ ok true
    → q.effect ≡ deny
    → evaluate host basic config context ≡ ok d
    → d.decision ≡ deny
evaluate_deny_overrides host basic config context q d builtin m a e h =
    deny_overrides_cases host basic config context q d m a e
      (evaluate-IsDecided host basic config context d builtin h)
