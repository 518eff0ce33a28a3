-- ===== src/Config/Validation.antt =====
-- The model validators of config/models.py: `none` is a configuration that loads, `some` the reason
-- for which it is refused.
pub mod Laws
use mcp_zero_trust_layer.Base.{
  if◌then◌else◌, ◌==◌, truthy, nat_eq, string_eq, option_eq, contains, is_empty, int_eq, String,
  Bool, true, false, not, ◌&&◌, ◌||◌, Option, none, some, List, [], ◌∷◌, map,
}
use mcp_zero_trust_layer.Value.{py_eq}
use mcp_zero_trust_layer.Config.Models.{
  Effect, deny, capability_type_eq, AuthConfig, EvidenceConfig, ServerConfig, McpztConfig,
}

pub data Refusal : Type 0 where
  token_and_token_env http_needs_upstream stdio_needs_command evidence_incomplete : Refusal
  duplicate_server duplicate_policy default_not_deny dry_run_in_production : Refusal
  auth_none_in_production no_public_host jwt_needs_issuer jwt_needs_audience : Refusal
  opa_needs_endpoint : Refusal

-- the first refusal of a sequence of checks; `raise` ends the sequence
abbrev pub then_check : Option Refusal → Option Refusal → Option Refusal
then_check none later = later
then_check (some r) later = some r

abbrev pub refuse_if : Bool → Refusal → Option Refusal
refuse_if b r = if b then some r else none

-- `len(xs) != len(set(xs))`
unfoldable pub has_duplicate : List String → Bool
unfolding contains
has_duplicate [] = false
has_duplicate (x ∷ xs) = contains xs x || has_duplicate xs

unfoldable pub validate_token_sources : AuthConfig → Option Refusal
validate_token_sources a = refuse_if (truthy a.token && truthy a.token_env) token_and_token_env

-- `EvidenceConfig.complete`
unfoldable pub complete : EvidenceConfig → Option Refusal
complete e =
    refuse_if
      (not (e.mode == "off")
        && not (
            truthy e.issuer
            && truthy e.destination
            && truthy e.tenant
            && truthy e.scope
            && truthy e.key_id
            && truthy e.private_key_file
            && truthy e.trust_store))
      evidence_incomplete

unfoldable pub validate_target : ServerConfig → Option Refusal
validate_target s =
    then_check (refuse_if (s.transport == "http" && not (truthy s.upstream)) http_needs_upstream)
      (refuse_if (s.transport == "stdio" && is_empty s.command) stdio_needs_command)

unfoldable pub validate_unique_names : McpztConfig → Option Refusal
unfolding has_duplicate
validate_unique_names c =
    then_check (refuse_if (has_duplicate (map (λ s. s.name) c.servers)) duplicate_server)
      (refuse_if (has_duplicate (map (λ p. p.id) c.policies)) duplicate_policy)

unfoldable pub validate_production_jwt_claims : McpztConfig → Option Refusal
validate_production_jwt_claims c =
    if not (c.auth.mode == "jwt" || c.auth.mode == "oidc")
    then none
    else then_check (refuse_if (not (truthy c.auth.issuer)) jwt_needs_issuer)
        (refuse_if (not (truthy c.auth.audience)) jwt_needs_audience)

abbrev pub is_deny : Effect → Bool
is_deny deny = true
is_deny _ = false

unfoldable pub validate_production_settings : McpztConfig → Option Refusal
unfolding validate_production_jwt_claims
validate_production_settings c =
    if not (c.project.environment == "production")
    then none
    else then_check (refuse_if (not (is_deny c.runtime.default_decision)) default_not_deny) (
        then_check
          (refuse_if (c.runtime.dry_run && not c.runtime.allow_dry_run_in_production)
            dry_run_in_production)
          (then_check
            (refuse_if (c.auth.mode == "none" && not c.runtime.allow_auth_none_in_production)
              auth_none_in_production)
            (then_check
              (refuse_if
                (not (truthy c.runtime.public_base_url) && is_empty c.runtime.trusted_hosts)
                no_public_host)
              (validate_production_jwt_claims c))))

unfoldable pub validate_policy_engine_settings : McpztConfig → Option Refusal
validate_policy_engine_settings c =
    refuse_if (c.policy_engine.adapter == "opa" && not (truthy c.policy_engine.endpoint))
      opa_needs_endpoint

-- `MCPZTConfig.validate_config`
unfoldable pub validate_config : McpztConfig → Option Refusal
unfolding validate_unique_names validate_production_settings validate_policy_engine_settings
validate_config c =
    then_check (validate_unique_names c)
      (then_check (validate_production_settings c) (validate_policy_engine_settings c))
