-- ===== src/Identity/Resolver.antt =====
-- identity/auth.py: AuthResolver.resolve_http_identity.
pub mod Trust
pub mod Authenticated
use mcp_zero_trust_layer.Base.{
  if◌then◌else◌, ◌==◌, nat_eq, string_eq, option_eq, int_eq, bool_eq, String, ◌<>◌, ◌||◌, Option,
  none, some, [],
}
use mcp_zero_trust_layer.Base.Dict.{Dict, lookup}
use mcp_zero_trust_layer.Value.{
  Fields, get_or_null, is_truthy, auth_error, Outcome, ok, raise, ◌>>=◌, ◌>>◌,
}
use mcp_zero_trust_layer.Host.{Host}
use mcp_zero_trust_layer.Config.{capability_type_eq, AuthConfig, Identity, anonymous}
use mcp_zero_trust_layer.Identity.Secrets.{SecretSources}
use mcp_zero_trust_layer.Identity.Auth.{
  AuthLibraries, HttpRequest, normalize_onto, normalized, split_header, as_str_list, optional_str,
  or_else, read_token, validate_secret, decode_jwt, validate_scopes,
}

-- an identity without what headers and claims say
abbrev pub bare_identity : String → String → HttpRequest → Identity
bare_identity subject auth_method request = record (anonymous request.environment) {
  subject = subject;
  source_ip = request.source_ip;
  auth_method = auth_method;
}

module _ (host : Host) (libraries : AuthLibraries) (sources : SecretSources)
    (config : AuthConfig) where
  -- `_identity_from_headers`
  unfoldable pub identity_from_headers : Dict String String → HttpRequest → String → Identity
  unfolding lookup split_header
  identity_from_headers headers request auth_method =
      if config.trust_identity_headers
      then record {
        subject = (elim (lookup "x-mcpzt-subject" headers) [
          | none ↦ request.fallback_subject
          | some s ↦ s
        ]);
        email = lookup "x-mcpzt-email" headers;
        groups = split_header libraries (lookup "x-mcpzt-groups" headers);
        roles = split_header libraries (lookup "x-mcpzt-roles" headers);
        client_id = lookup "x-mcpzt-client-id" headers;
        agent_id = lookup "x-mcpzt-agent-id" headers;
        session_id = lookup "x-mcpzt-session-id" headers;
        conversation_id = lookup "x-mcpzt-conversation-id" headers;
        project_id = lookup "x-mcpzt-project-id" headers;
        source_ip = request.source_ip;
        auth_method = auth_method;
        machine_id = lookup "x-mcpzt-machine-id" headers;
        environment = request.environment;
      }
      else bare_identity request.fallback_subject auth_method request

  -- a claim, or the header that stands for it
  abbrev claim_or_header : String → String → Fields → Dict String String → Option String
  claim_or_header claim header claims headers =
      or_else (optional_str host (get_or_null claim claims)) (lookup header headers)

  -- `str(claims.get(self.config.subject_claim) or "unknown")`
  abbrev subject_of : Fields → String
  subject_of claims =
      let claim = get_or_null config.subject_claim claims in
      if is_truthy claim then host.to_str claim else "unknown"

  -- `_identity_from_claims`, of the headers that count
  unfoldable pub identity_on : Fields → HttpRequest → String → Dict String String → Identity
  unfolding lookup get_or_null is_truthy as_str_list optional_str
  identity_on claims request auth_method headers = record {
    subject = subject_of claims;
    email = optional_str host (get_or_null config.email_claim claims);
    groups = as_str_list host (get_or_null config.groups_claim claims);
    roles = as_str_list host (get_or_null config.roles_claim claims);
    client_id = claim_or_header config.client_id_claim "x-mcpzt-client-id" claims headers;
    agent_id = claim_or_header config.agent_id_claim "x-mcpzt-agent-id" claims headers;
    session_id = lookup "x-mcpzt-session-id" headers;
    conversation_id = lookup "x-mcpzt-conversation-id" headers;
    project_id = lookup "x-mcpzt-project-id" headers;
    source_ip = request.source_ip;
    auth_method = auth_method;
    machine_id = lookup "x-mcpzt-machine-id" headers;
    environment = request.environment;
  }

  -- `headers if self.config.trust_identity_headers else {}`
  abbrev pub trusted : Dict String String → Dict String String
  trusted headers = if config.trust_identity_headers then headers else []

  unfoldable pub identity_from_claims :
      Fields → Dict String String → HttpRequest → String → Identity
  unfolding identity_on
  identity_from_claims claims headers request auth_method =
      identity_on claims request auth_method (trusted headers)

  -- the modes with claims
  unfoldable pub resolve_claims :
      Option String → String → Dict String String → HttpRequest → Outcome Identity
  unfolding decode_jwt validate_scopes identity_from_claims
  resolve_claims client token headers request =
      decode_jwt host libraries sources config client token >>= λ claims.
      validate_scopes host libraries sources config claims
      >> ok (identity_from_claims claims headers request config.mode)

  -- a mode with a secret
  unfoldable pub resolve_secret :
      String → String → String → Dict String String → HttpRequest → Outcome Identity
  unfolding validate_secret identity_from_headers
  resolve_secret unconfigured invalid token headers request =
      validate_secret host libraries sources config unconfigured invalid token
      >> ok (identity_from_headers headers request config.mode)

  -- the modes that read a token
  unfoldable pub resolve_token :
      Option String → String → Dict String String → HttpRequest → Outcome Identity
  unfolding resolve_secret resolve_claims
  resolve_token client token headers request =
      if config.mode == "static_token"
      then resolve_secret "static_token auth is configured without a token" "invalid static token"
          token headers request
      else if config.mode == "api_key"
      then resolve_secret "api_key auth is configured without a token" "invalid API key" token
          headers request
      else if config.mode == "jwt" || config.mode == "oidc"
      then resolve_claims client token headers request
      else raise (auth_error ("unsupported auth mode: " <> config.mode))

  -- on headers with names in lower case
  unfoldable pub resolve_normalized :
      Option String → Dict String String → HttpRequest → Outcome Identity
  unfolding read_token resolve_token identity_from_headers
  resolve_normalized client headers request =
      if config.mode == "none"
      then ok (identity_from_headers headers request "none")
      else (read_token host libraries sources config headers >>= λ token.
          resolve_token client token headers request)

  unfoldable pub resolve_http_identity : Option String → HttpRequest → Outcome Identity
  unfolding normalize_onto resolve_normalized
  resolve_http_identity client request =
      resolve_normalized client (normalized libraries request.headers) request
