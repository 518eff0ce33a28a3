-- ===== src/Policy/Engine/Matching.antt =====
-- policy/engine.py, `_matching_policies`: exactly the policies that apply are collected.
use mcp_zero_trust_layer.Base.{
  if◌then◌else◌, All, IsIn, ◌≡◌, refl, ◌⊎◌, inl, inr, Bool, true, false, Option, List, [], ◌∷◌,
}
use mcp_zero_trust_layer.Value.{ok, >>=-eq-ok}
use mcp_zero_trust_layer.Host.{Host}
use mcp_zero_trust_layer.Config.{CapabilityMetadata, PolicyConfig, RequestContext}
use mcp_zero_trust_layer.Policy.Engine.{policy_applies, matching_policies}
use mathlib.Core.Path.{subst}

module _ (host : Host) (context : RequestContext) (metadata : Option CapabilityMetadata) where
  abbrev pub Applies : PolicyConfig → Type 0
  Applies p = policy_applies host context metadata p ≡ ok true

  abbrev pub NotApplies : PolicyConfig → Type 0
  NotApplies p = policy_applies host context metadata p ≡ ok false

  weaken :
      (p : PolicyConfig) (policies ms : List PolicyConfig)
      → All (λ q. IsIn q policies × Applies q) ms
      → All (λ q. IsIn q (p ∷ policies) × Applies q) ms
  weaken p policies [] h = tt
  weaken p policies (m ∷ ms) ((i, a), h) = ((inr i, a), weaken p policies ms h)

  -- what one round of the loop adds
  abbrev added : PolicyConfig → Bool → List PolicyConfig → List PolicyConfig
  added p b found = if b then p ∷ found else found

  round :
      (p : PolicyConfig) (policies : List PolicyConfig) {ms : List PolicyConfig}
      → matching_policies host context metadata (p ∷ policies) ≡ ok ms
      → (b : Bool) × (found : List PolicyConfig) × (policy_applies host context metadata p ≡ ok b)
        × (matching_policies host context metadata policies ≡ ok found)
        × (added p b found ≡ ms)
  unfolding matching_policies
  round p policies h =
      let (b, applied, h1) = >>=-eq-ok (policy_applies host context metadata p) _ h in
      let (found, rest, h2) = >>=-eq-ok (matching_policies host context metadata policies) _ h1 in
      (b, found, applied, rest, cc)

  abbrev Collected : List PolicyConfig → List PolicyConfig → Type 0
  Collected policies ms = All (λ q. IsIn q policies × Applies q) ms

  abbrev Settled : List PolicyConfig → List PolicyConfig → Type 0
  Settled ms policies = All (λ q. NotApplies q ⊎ (Applies q × IsIn q ms)) policies

  step-Collected :
      (p : PolicyConfig) (policies : List PolicyConfig) (b : Bool) (found : List PolicyConfig)
      → policy_applies host context metadata p ≡ ok b
      → Collected policies found
      → Collected (p ∷ policies) (added p b found)
  step-Collected p policies true found applied c = ((inl refl, applied), weaken p policies found c)
  step-Collected p policies false found applied c = weaken p policies found c

  widen :
      (p : PolicyConfig) (b : Bool) (found policies : List PolicyConfig)
      → Settled found policies
      → Settled (added p b found) policies
  widen p b found [] s = tt
  widen p b found (q ∷ policies) (inl n, s) = (inl n, widen p b found policies s)
  widen p true found (q ∷ policies) (inr (a, i), s) =
      (inr (a, inr i), widen p true found policies s)
  widen p false found (q ∷ policies) (inr (a, i), s) = (inr (a, i), widen p false found policies s)

  here_settled :
      (p : PolicyConfig) (b : Bool) (found : List PolicyConfig)
      → policy_applies host context metadata p ≡ ok b
      → NotApplies p ⊎ (Applies p × IsIn p (added p b found))
  here_settled p true found applied = inr (applied, inl refl)
  here_settled p false found applied = inl applied

  -- Whatever is collected is a policy of the list, and applies.
  pub collected :
      (policies : List PolicyConfig) (ms : List PolicyConfig)
      → matching_policies host context metadata policies ≡ ok ms
      → All (λ q. IsIn q policies × Applies q) ms
  unfolding matching_policies
  collected [] [] h = tt
  collected [] (m ∷ ms) h = cc
  collected (p ∷ policies) ms h =
      let (b, found, applied, rest, same) = round p policies h in
      subst (Collected (p ∷ policies)) same
        (step-Collected p policies b found applied (collected policies found rest))

  -- Each policy of the list applies and is collected, or does not apply.
  pub settled :
      (policies : List PolicyConfig) (ms : List PolicyConfig)
      → matching_policies host context metadata policies ≡ ok ms
      → All (λ q. NotApplies q ⊎ (Applies q × IsIn q ms)) policies
  settled [] ms h = tt
  settled (p ∷ policies) ms h =
      let (b, found, applied, rest, same) = round p policies h in
      subst (λ m. Settled m (p ∷ policies)) same
        (here_settled p b found applied, widen p b found policies (settled policies found rest))
