-- ===== src/Identity/Resolver/Trust.antt =====
-- identity/auth.py: headers that are not trusted.
use mcp_zero_trust_layer.Base.{
  if◌then◌else◌, if_fails, ◌==◌, nat_eq, string_eq, option_eq, int_eq, bool_eq, String, ◌≡◌, refl,
  sym, ap, ◌∙◌, false, Option, [],
}
use mcp_zero_trust_layer.Base.Dict.{Dict, lookup}
use mcp_zero_trust_layer.Value.{Fields, Outcome, ok, ◌>>◌, >>=-congr}
use mcp_zero_trust_layer.Host.{Host}
use mcp_zero_trust_layer.Config.{capability_type_eq, AuthConfig, Identity}
use mcp_zero_trust_layer.Identity.Secrets.{SecretSources}
use mcp_zero_trust_layer.Identity.Auth.{
  AuthLibraries, HttpRequest, normalized, token_of, read_token, validate_secret, decode_jwt,
  validate_scopes,
}
use mcp_zero_trust_layer.Identity.Resolver.{
  identity_from_headers, identity_on, identity_from_claims, resolve_claims, resolve_secret,
  resolve_token, resolve_normalized, resolve_http_identity,
}

module _ (host : Host) (libraries : AuthLibraries) (sources : SecretSources) (config : AuthConfig)
    (untrusted : config.trust_identity_headers ≡ false) (a b : Dict String String) where
  identity_from_headers_same :
      (request : HttpRequest) (auth_method : String)
      → identity_from_headers host libraries sources config a request auth_method
        ≡ identity_from_headers host libraries sources config b request auth_method
  unfolding identity_from_headers
  identity_from_headers_same request auth_method =
      if_fails config.trust_identity_headers _ _ untrusted
      ∙ sym (if_fails config.trust_identity_headers _ _ untrusted)

  identity_from_claims_same :
      (claims : Fields) (request : HttpRequest) (auth_method : String)
      → identity_from_claims host libraries sources config claims a request auth_method
        ≡ identity_from_claims host libraries sources config claims b request auth_method
  unfolding identity_from_claims
  identity_from_claims_same claims request auth_method =
      ap (identity_on host libraries sources config claims request auth_method) (
        if_fails config.trust_identity_headers a [] untrusted
        ∙ sym (if_fails config.trust_identity_headers b [] untrusted))

  resolve_secret_same :
      (unconfigured invalid token : String) (request : HttpRequest)
      → resolve_secret host libraries sources config unconfigured invalid token a request
        ≡ resolve_secret host libraries sources config unconfigured invalid token b request
  unfolding resolve_secret
  resolve_secret_same unconfigured invalid token request =
      ap
        (λ (i : Identity).
          validate_secret host libraries sources config unconfigured invalid token >> ok i)
        (identity_from_headers_same request config.mode)

  resolve_claims_same :
      (client : Option String) (token : String) (request : HttpRequest)
      → resolve_claims host libraries sources config client token a request
        ≡ resolve_claims host libraries sources config client token b request
  unfolding resolve_claims
  resolve_claims_same client token request =
      >>=-congr (decode_jwt host libraries sources config client token) _ _ (λ claims.
        ap (λ (i : Identity). validate_scopes host libraries sources config claims >> ok i)
          (identity_from_claims_same claims request config.mode))

  resolve_token_same :
      (client : Option String) (token : String) (request : HttpRequest)
      → resolve_token host libraries sources config client token a request
        ≡ resolve_token host libraries sources config client token b request
  unfolding resolve_token
  resolve_token_same client token request =
      rw
        (
          resolve_secret_same "static_token auth is configured without a token"
              "invalid static token" token request,
          resolve_secret_same "api_key auth is configured without a token" "invalid API key" token
              request,
          resolve_claims_same client token request,
        )
        refl

  resolve_normalized_same :
      (client : Option String) (request : HttpRequest)
      → lookup (libraries.lower config.header) a ≡ lookup (libraries.lower config.header) b
      → resolve_normalized host libraries sources config client a request
        ≡ resolve_normalized host libraries sources config client b request
  unfolding resolve_normalized read_token
  resolve_normalized_same client request same =
      rw (identity_from_headers_same request "none", same)
        (ap
          (λ (rest : Outcome Identity).
            if config.mode == "none"
            then ok (identity_from_headers host libraries sources config b request "none")
            else rest)
          (>>=-congr
            (token_of host libraries sources config (lookup (libraries.lower config.header) b)) _ _
            (λ token. resolve_token_same client token request)))

-- While identity headers are not trusted, of all headers only the value of the configured
-- authentication header decides what a request resolves to: two requests that agree on it and
-- differ in other headers alone get the same identity or the same exception, in every mode.
pub resolve_http_identity_untrusted :
    (host : Host) (libraries : AuthLibraries) (sources : SecretSources) (config : AuthConfig)
    (client : Option String) (request : HttpRequest) (headers : Dict String String)
    → config.trust_identity_headers ≡ false
    → lookup (libraries.lower config.header) (normalized libraries request.headers)
      ≡ lookup (libraries.lower config.header) (normalized libraries headers)
    → resolve_http_identity host libraries sources config client request
      ≡ resolve_http_identity host libraries sources config client
          (record request { headers = headers })
unfolding resolve_http_identity
resolve_http_identity_untrusted host libraries sources config client request headers untrusted
      same =
    resolve_normalized_same host libraries sources config untrusted
      (normalized libraries request.headers) (normalized libraries headers) client request same
