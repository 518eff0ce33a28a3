-- ===== src/Tests/IdentityTests.antt =====
-- identity/auth.py at concrete requests.
use mcp_zero_trust_layer.Base.{
  if◌then◌else◌, ◌==◌, nat_eq, string_eq, option_eq, int_eq, bool_eq, String, ◌≡◌, refl, false,
  none, some, [], ◌∷◌,
}
use mcp_zero_trust_layer.Base.Dict.{Dict, lookup, insert}
use mcp_zero_trust_layer.Base.Text.{split, behind, after_first}
use mcp_zero_trust_layer.Value.{ok}
use mcp_zero_trust_layer.Config.{capability_type_eq, AuthConfig}
use mcp_zero_trust_layer.Samples.{sample_host, sample_config}
use mcp_zero_trust_layer.Identity.Secrets.{
  no_program, plain, SecretSources, read_env, resolve_secret_value,
}
use mcp_zero_trust_layer.Identity.Auth.{
  refused, AuthLibraries, HttpRequest, normalize_onto, normalized, token_of, read_token,
  secret_as_auth, configured_token, accept, check_secret, validate_secret,
}
use mcp_zero_trust_layer.Identity.Resolver.{
  bare_identity, identity_from_headers, resolve_secret, resolve_token, resolve_normalized,
  resolve_http_identity,
}
use mcp_zero_trust_layer.Identity.Resolver.Trust.{resolve_http_identity_untrusted}
use mcp_zero_trust_layer.Identity.Resolver.Authenticated.{
  IsAuthenticated, IsOf, resolve_http_identity-IsAuthenticated,
}

abbrev sample_libraries : AuthLibraries
sample_libraries = record {
  lower = λ s.
      if s == "Authorization"
      then "authorization"
      else if s == "Bearer key"
      then "bearer key"
      else s;
  strip = λ s. s;
  strip_slashes = λ s. s;
  words = split 32;
  compare_digest = λ a b. ok (a == b);
  jwt_decode = λ token key algorithms audience issuer. refused "no key";
  signing_key = λ url token. refused "no key";
  get_json = λ url. refused "no network";
}

abbrev sample_sources : SecretSources
sample_sources = record {
  getenv = λ name. if name == "TOKEN" then some "key" else none;
  url_path = λ s. ok s;
  expand_user = λ s. s;
  read_text = λ s. ok none;
  run = λ command. no_program;
  json_loads = λ s. none;
  env_parts = λ s. plain s ∷ [];
  is_installed = λ s. false;
}

abbrev static_auth : AuthConfig
static_auth = record sample_config.auth {
  mode = "static_token";
  token_env = some "TOKEN";
  header = "Authorization";
}

abbrev sample_request : HttpRequest
sample_request = record {
  headers = ("Authorization", "Bearer key") ∷ ("x-mcpzt-roles", "admin") ∷ [];
  source_ip = some "192.0.2.7";
  fallback_subject = "http-client";
  environment = none;
}

abbrev without_roles : Dict String String
without_roles = ("Authorization", "Bearer key") ∷ []

request_resolves :
    resolve_http_identity sample_host sample_libraries sample_sources static_auth none
      sample_request
    ≡ ok (bare_identity "http-client" "static_token" sample_request)
unfolding resolve_http_identity resolve_normalized normalize_onto read_token token_of resolve_token
    resolve_secret validate_secret check_secret accept configured_token secret_as_auth
    resolve_secret_value read_env behind after_first identity_from_headers lookup insert
request_resolves = refl

resolve_http_identity_untrusted_example :
    resolve_http_identity sample_host sample_libraries sample_sources static_auth none
      sample_request
    ≡ resolve_http_identity sample_host sample_libraries sample_sources static_auth none
        (record sample_request { headers = without_roles })
unfolding normalize_onto lookup insert
resolve_http_identity_untrusted_example =
    resolve_http_identity_untrusted sample_host sample_libraries sample_sources static_auth none
      sample_request without_roles refl refl

resolve_http_identity-IsAuthenticated_example :
    IsAuthenticated sample_host sample_libraries sample_sources static_auth none
      (normalized sample_libraries sample_request.headers)
    × IsOf sample_host sample_libraries sample_sources static_auth sample_request
        (bare_identity "http-client" "static_token" sample_request)
resolve_http_identity-IsAuthenticated_example =
    resolve_http_identity-IsAuthenticated sample_host sample_libraries sample_sources static_auth
      none sample_request (bare_identity "http-client" "static_token" sample_request)
      request_resolves
