-- ===== src/Config/Validation/Laws.antt =====
-- config/models.py: what a configuration that loads guarantees.
use mcp_zero_trust_layer.Base.{
  if◌then◌else◌, ◌==◌, truthy, nat_eq, string_eq, option_eq, contains, is_empty, int_eq, String,
  ◌≡◌, refl, ◌↔◌, ◌⊎◌, inl, inr, Bool, true, false, not, ◌&&◌, ◌||◌, Option, none, List, [], ◌∷◌,
  map, arith, eq_iff,
}
use mcp_zero_trust_layer.Config.Models.{Effect, deny, capability_type_eq, McpztConfig}
use mcp_zero_trust_layer.Config.Validation.{
  Refusal, then_check, refuse_if, has_duplicate, validate_production_jwt_claims, is_deny,
  validate_production_settings, validate_config,
}

-- No text of the list stands in it twice.
abbrev pub Distinct : List String → Type 0
Distinct [] = Unit
Distinct (x ∷ xs) = (contains xs x ≡ false) × Distinct xs

pub has_duplicate_iff : (xs : List String) → (has_duplicate xs ≡ false) ↔ Distinct xs
unfolding has_duplicate
has_duplicate_iff [] = (λ _. tt, λ _. refl)
has_duplicate_iff (x ∷ xs) =
    let (there, back) = has_duplicate_iff xs in
    (λ h. (ground arith, there (ground arith)), λ d. ground (arith, back d.1))

-- A text that is there and is not empty.
abbrev pub IsGiven : Option String → Type 0
IsGiven t = truthy t ≡ true

-- The demands on a production configuration, each on its own.
pub record IsProductionSafe (c : McpztConfig) : Type 0 where
  pub denies : c.runtime.default_decision ≡ deny
  pub enforces : c.runtime.dry_run ≡ true → c.runtime.allow_dry_run_in_production ≡ true
  pub authenticates : c.auth.mode ≡ "none" → c.runtime.allow_auth_none_in_production ≡ true
  pub hosted : IsGiven c.runtime.public_base_url ⊎ (is_empty c.runtime.trusted_hosts ≡ false)
  pub issued : (c.auth.mode ≡ "jwt") ⊎ (c.auth.mode ≡ "oidc") → IsGiven c.auth.issuer
  pub addressed : (c.auth.mode ≡ "jwt") ⊎ (c.auth.mode ≡ "oidc") → IsGiven c.auth.audience

then_check_iff : (a b : Option Refusal) → (then_check a b ≡ none) ↔ ((a ≡ none) × (b ≡ none))
then_check_iff a b = ground arith

refuse_if_iff : (b : Bool) (r : Refusal) → (refuse_if b r ≡ none) ↔ (b ≡ false)
refuse_if_iff b r = ground arith

-- the two shapes of the guards
implies_iff : (a b : Bool) → ((a && not b) ≡ false) ↔ (a ≡ true → b ≡ true)
implies_iff a b = ground arith

either_iff : (a b : Bool) → ((not a && b) ≡ false) ↔ ((a ≡ true) ⊎ (b ≡ false))
either_iff a b = ground arith

denies_iff : (e : Effect) → (not (is_deny e) ≡ false) ↔ (e ≡ deny)
denies_iff e = ground arith

not_iff : (b : Bool) → (not b ≡ false) ↔ (b ≡ true)
not_iff b = ground arith

guarded_iff :
    (b : Bool) (r : Option Refusal) → ((if not b then none else r) ≡ none) ↔ (b ≡ true → r ≡ none)
guarded_iff b r = ground arith

or_iff : (a b : Bool) → ((a || b) ≡ true) ↔ ((a ≡ true) ⊎ (b ≡ true))
or_iff a b = ground arith

module _ (c : McpztConfig) where
  is_jwt :
      (c.auth.mode ≡ "jwt") ⊎ (c.auth.mode ≡ "oidc")
      → (c.auth.mode == "jwt" || c.auth.mode == "oidc") ≡ true
  is_jwt (inl e) = (or_iff _ _).1 (inl ((eq_iff _ _).1 e))
  is_jwt (inr e) = (or_iff _ _).1 (inr ((eq_iff _ _).1 e))

  of_jwt :
      (c.auth.mode == "jwt" || c.auth.mode == "oidc") ≡ true
      → (c.auth.mode ≡ "jwt") ⊎ (c.auth.mode ≡ "oidc")
  of_jwt h = elim ((or_iff _ _).0 h) [
    | inl e ↦ inl ((eq_iff _ _).0 e)
    | inr e ↦ inr ((eq_iff _ _).0 e)
  ]

  jwt_iff : (validate_production_jwt_claims c ≡ none) ↔ (
      (c.auth.mode ≡ "jwt") ⊎ (c.auth.mode ≡ "oidc")
      → IsGiven c.auth.issuer × IsGiven c.auth.audience)
  unfolding validate_production_jwt_claims
  jwt_iff = (
    λ h m.
        let (i, a) = (then_check_iff _ _).0 ((guarded_iff _ _).0 h (is_jwt m)) in
        ((not_iff _).0 ((refuse_if_iff _ _).0 i), (not_iff _).0 ((refuse_if_iff _ _).0 a)),
    λ g. (guarded_iff _ _).1 λ m.
        let (i, a) = g (of_jwt m) in
        (then_check_iff _ _).1
          ((refuse_if_iff _ _).1 ((not_iff _).1 i), (refuse_if_iff _ _).1 ((not_iff _).1 a)),
  )

  production_iff :
      (validate_production_settings c ≡ none)
      ↔ (c.project.environment ≡ "production" → IsProductionSafe c)
  unfolding validate_production_settings
  production_iff = (
    λ h p.
        let (d, h1) = (then_check_iff _ _).0 ((guarded_iff _ _).0 h ((eq_iff _ _).1 p)) in
        let (e, h2) = (then_check_iff _ _).0 h1 in
        let (a, h3) = (then_check_iff _ _).0 h2 in
        let (o, j) = (then_check_iff _ _).0 h3 in
        record {
          denies = (denies_iff _).0 ((refuse_if_iff _ _).0 d);
          enforces = (implies_iff _ _).0 ((refuse_if_iff _ _).0 e);
          authenticates = λ m. (implies_iff _ _).0 ((refuse_if_iff _ _).0 a) ((eq_iff _ _).1 m);
          hosted = (either_iff _ _).0 ((refuse_if_iff _ _).0 o);
          issued = λ m. (jwt_iff.0 j m).0;
          addressed = λ m. (jwt_iff.0 j m).1;
        },
    λ g. (guarded_iff _ _).1 λ m.
        let s = g ((eq_iff _ _).0 m) in
        (then_check_iff _ _).1 (
          (refuse_if_iff _ _).1 ((denies_iff _).1 s.denies),
          (then_check_iff _ _).1 (
            (refuse_if_iff _ _).1 ((implies_iff _ _).1 s.enforces),
            (then_check_iff _ _).1 (
              (refuse_if_iff _ _).1 ((implies_iff _ _).1 λ e. s.authenticates ((eq_iff _ _).0 e)),
              (then_check_iff _ _).1 (
                (refuse_if_iff _ _).1 ((either_iff _ _).1 s.hosted),
                jwt_iff.1 λ m. (s.issued m, s.addressed m),
              ),
            ),
          ),
        ),
  )

-- What a loaded configuration satisfies.
pub record IsAdmissible (c : McpztConfig) : Type 0 where
  pub servers_distinct : Distinct (map (λ s. s.name) c.servers)
  pub policies_distinct : Distinct (map (λ p. p.id) c.policies)
  pub production : c.project.environment ≡ "production" → IsProductionSafe c
  pub endpoint : c.policy_engine.adapter ≡ "opa" → IsGiven c.policy_engine.endpoint

-- `validate_config` accepts a configuration exactly when its server names and its policy ids are
-- distinct, a production environment satisfies all six demands of `IsProductionSafe`, and the
-- adapter "opa" has an endpoint.
pub validate_config_iff : (c : McpztConfig) → (validate_config c ≡ none) ↔ IsAdmissible c
unfolding validate_config
validate_config_iff c = (
  λ h.
      let (n, h1) = (then_check_iff _ _).0 h in
      let (s, p) = (then_check_iff _ _).0 n in
      let (q, o) = (then_check_iff _ _).0 h1 in
      record {
        servers_distinct = (has_duplicate_iff _).0 ((refuse_if_iff _ _).0 s);
        policies_distinct = (has_duplicate_iff _).0 ((refuse_if_iff _ _).0 p);
        production = (production_iff c).0 q;
        endpoint = λ e. (implies_iff _ _).0 ((refuse_if_iff _ _).0 o) ((eq_iff _ _).1 e);
      },
  λ a. (then_check_iff _ _).1 (
    (then_check_iff _ _).1 (
      (refuse_if_iff _ _).1 ((has_duplicate_iff _).1 a.servers_distinct),
      (refuse_if_iff _ _).1 ((has_duplicate_iff _).1 a.policies_distinct),
    ),
    (then_check_iff _ _).1 (
      (production_iff c).1 a.production,
      (refuse_if_iff _ _).1 ((implies_iff _ _).1 λ e. a.endpoint ((eq_iff _ _).0 e)),
    ),
  ),
)
