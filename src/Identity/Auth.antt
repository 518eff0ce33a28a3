-- ===== src/Identity/Auth.antt =====
-- identity/auth.py: the identity of an HTTP request, by the mode of authentication.
use mcp_zero_trust_layer.Base.{
  if◌then◌else◌, ◌==◌, truthy, nat_eq, string_eq, option_eq, contains, is_empty, keep, int_eq,
  bool_eq, String, ◌<>◌, Bool, true, false, not, ◌||◌, Option, none, some, List, [], ◌∷◌, ◌++◌, map,
}
use mcp_zero_trust_layer.Base.Dict.{Dict, lookup, insert}
use mcp_zero_trust_layer.Base.Text.{split, join, behind, after_first, sorted_set}
use mcp_zero_trust_layer.Value.{
  Value, null, str, list, dict, Fields, items, get_or_null, Raised, auth_error, secret_error,
  foreign, Outcome, ok, raise, ◌>>=◌,
}
use mcp_zero_trust_layer.Host.{Host}
use mcp_zero_trust_layer.Config.{capability_type_eq, AuthConfig}
use mcp_zero_trust_layer.Identity.Secrets.{SecretSources, resolve_secret_value}

-- What a library gives: a result, an exception that the code catches (with its text), or another one.
pub data Called (A : Type 0) : Type 0 where
  done : A → Called A
  refused : String → Called A
  broke : Raised → Called A

-- The key a JWT is checked with: a secret, or a signing key of a key set.
pub data JwtKey : Type 0 where
  shared : String → JwtKey
  signing : String → JwtKey

-- `s.lower()`, `s.strip()`, `s.rstrip("/")`, `s.split()`; `hmac.compare_digest`, which may raise;
-- `jwt.decode` of a token with a key, the algorithms, the audience and the issuer, `exp` required;
-- `get_signing_key_from_jwt` of a `PyJWKClient` of a URL, both catching `PyJWTError`; `httpx.get` with
-- `raise_for_status` and `json`, catching `HTTPError`.
pub record AuthLibraries : Type 0 where
  pub lower : String → String
  pub strip : String → String
  pub strip_slashes : String → String
  pub words : String → List String
  pub compare_digest : String → String → Outcome Bool
  pub jwt_decode : String → JwtKey → List String → Option String → Option String → Called Value
  pub signing_key : String → String → Called JwtKey
  pub get_json : String → Called Value

-- What a request brings.
pub record HttpRequest : Type 0 where
  pub headers : Dict String String
  pub source_ip : Option String
  pub fallback_subject : String
  pub environment : Option String

-- `except ... as exc: raise AuthError(f"...{exc}")`
abbrev pub reraise : {A : Type 0} → String → Called A → Outcome A
reraise prefix (done a) = ok a
reraise prefix (refused text) = raise (auth_error (prefix <> text))
reraise prefix (broke e) = raise e

module _ (libraries : AuthLibraries) where
  -- `{key.lower(): value for key, value in headers.items()}`
  unfoldable pub normalize_onto : Dict String String → Dict String String → Dict String String
  unfolding insert
  normalize_onto acc [] = acc
  normalize_onto acc ((key, value) ∷ headers) =
      normalize_onto (insert (libraries.lower key) value acc) headers

  abbrev pub normalized : Dict String String → Dict String String
  normalized headers = normalize_onto [] headers

  -- `_split_header`
  unfoldable pub split_header : Option String → List String
  unfolding keep split
  split_header none = []
  split_header (some value) =
      if truthy value
      then keep (λ piece. truthy piece) (map libraries.strip (split b',' value))
      else []

  -- `_as_scope_set`, as the list of its elements
  unfoldable pub as_scope_set : Host → Value → List String
  unfolding keep
  as_scope_set host (str s) = libraries.words s
  as_scope_set host (list vs) = keep (λ s. truthy s) (map host.to_str (items vs))
  as_scope_set host _ = []

-- `_as_str_list`
unfoldable pub as_str_list : Host → Value → List String
as_str_list host (str s) = s ∷ []
as_str_list host (list vs) = map host.to_str (items vs)
as_str_list host _ = []

-- `_optional_str`
unfoldable pub optional_str : Host → Value → Option String
optional_str host null = none
optional_str host v = some (host.to_str v)

-- `a or b` of optional texts
abbrev pub or_else : Option String → Option String → Option String
or_else none other = other
or_else (some s) other = if truthy s then some s else other

module _ (host : Host) (libraries : AuthLibraries) (sources : SecretSources)
    (config : AuthConfig) where
  -- `_read_token`, of the value of the header
  unfoldable pub token_of : Option String → Outcome String
  unfolding behind after_first
  token_of none = raise (auth_error ("missing auth header: " <> config.header))
  token_of (some value) =
      if truthy value
      then (elim (behind "bearer " (libraries.lower value)) [
        | none ↦ ok (libraries.strip value)
        | some _ ↦ ok (
            libraries.strip (
              if libraries.lower config.header == "authorization"
              then after_first 32 value
              else value))
      ])
      else raise (auth_error ("missing auth header: " <> config.header))

  unfoldable pub read_token : Dict String String → Outcome String
  unfolding lookup token_of
  read_token headers = token_of (lookup (libraries.lower config.header) headers)

  -- `except SecretError`
  unfoldable pub secret_as_auth : Outcome String → Outcome (Option String)
  secret_as_auth (raise (secret_error message)) = raise (auth_error message)
  secret_as_auth (raise e) = raise e
  secret_as_auth (ok secret) = ok (some secret)

  -- the reference to the token
  abbrev pub raw_token : Option String
  raw_token = elim config.token_env [
    | none ↦ config.token
    | some name ↦ if truthy name then some ("env:" <> name) else config.token
  ]

  -- `_configured_token`
  unfoldable pub configured_token : Outcome (Option String)
  unfolding resolve_secret_value secret_as_auth
  configured_token = elim raw_token [
    | none ↦ ok none
    | some raw ↦
        if truthy raw
        then secret_as_auth (resolve_secret_value host sources "auth.token" raw)
        else ok none
  ]

  -- `if not hmac.compare_digest(...)`
  unfoldable pub accept : String → Outcome Bool → Outcome (Unit {0})
  accept invalid (raise e) = raise e
  accept invalid (ok true) = ok tt
  accept invalid (ok false) = raise (auth_error invalid)

  -- the token against the expected one
  unfoldable pub check_secret :
      String → String → String → Outcome (Option String) → Outcome (Unit {0})
  unfolding accept
  check_secret unconfigured invalid token (raise e) = raise e
  check_secret unconfigured invalid token (ok none) = raise (auth_error unconfigured)
  check_secret unconfigured invalid token (ok (some secret)) =
      if truthy secret
      then accept invalid (libraries.compare_digest token secret)
      else raise (auth_error unconfigured)

  -- `_validate_static_token` and `_validate_api_key`, which differ in their messages
  unfoldable pub validate_secret : String → String → String → Outcome (Unit {0})
  unfolding configured_token check_secret
  validate_secret unconfigured invalid token =
      check_secret unconfigured invalid token configured_token

  -- `_discover_jwks_url`
  unfoldable pub discover_jwks_url : Outcome String
  unfolding get_or_null
  discover_jwks_url =
      let missing : Outcome String = raise (auth_error "oidc auth requires issuer or jwks_url") in
      elim config.issuer [
        | none ↦ missing
        | some issuer ↦
            if truthy issuer
            then (reraise "OIDC discovery failed: " (
                  libraries.get_json
                    (libraries.strip_slashes issuer <> "/.well-known/openid-configuration"))
                >>= λ payload. elim payload [
                  | dict fs ↦ elim (get_or_null "jwks_uri" fs) [
                    | str uri ↦ ok uri
                    | _ ↦ raise (auth_error "OIDC discovery response did not include jwks_uri")
                  ]
                  | _ ↦ raise (foreign "AttributeError")
                ])
            else missing
      ]

  -- `_jwk_client_for_config`, by its URL; `client` is the one that is kept
  unfoldable pub jwk_client_for_config : Option String → Outcome String
  unfolding discover_jwks_url
  jwk_client_for_config (some url) = ok url
  jwk_client_for_config none = elim (or_else config.jwks_url none) [
    | some url ↦ ok url
    | none ↦ discover_jwks_url
  ]

  -- the test for a key set
  abbrev pub uses_key_set : Bool
  uses_key_set =
      (elim config.jwks_url [ none ↦ false | some url ↦ truthy url ]) || config.mode == "oidc"

  -- the key and the algorithms of `_decode_jwt`
  unfoldable pub jwt_key : Option String → String → Outcome (JwtKey × List String)
  unfolding configured_token jwk_client_for_config
  jwt_key client token =
      if uses_key_set
      then (jwk_client_for_config client >>= λ url.
          reraise "invalid JWT: " (libraries.signing_key url token) >>= λ key.
          ok (key, config.algorithms))
      else (configured_token >>= λ secret. elim (or_else secret none) [
        | none ↦ raise (auth_error "jwt auth requires token secret or jwks_url")
        | some s ↦
            ok (shared s, if is_empty config.algorithms then "HS256" ∷ [] else config.algorithms)
      ])

  -- `if not isinstance(claims, dict)`
  unfoldable pub claims_of : Called Value → Outcome Fields
  claims_of (done (dict fs)) = ok fs
  claims_of (done _) = raise (auth_error "invalid JWT claims")
  claims_of (refused text) = raise (auth_error ("invalid JWT: " <> text))
  claims_of (broke e) = raise e

  -- `_decode_jwt`
  unfoldable pub decode_jwt : Option String → String → Outcome Fields
  unfolding jwt_key claims_of
  decode_jwt client token = do
    (key, algorithms) ← jwt_key client token
    claims_of (libraries.jwt_decode token key algorithms config.audience config.issuer)

  -- the scopes that the claims grant
  unfoldable pub granted_scopes : Fields → List String
  unfolding as_scope_set get_or_null
  granted_scopes claims =
      as_scope_set libraries host (get_or_null config.scopes_claim claims)
      ++ (if config.scopes_claim == "scope"
          then as_scope_set libraries host (get_or_null "scp" claims)
          else [])

  -- `_validate_scopes`
  unfoldable pub validate_scopes : Fields → Outcome (Unit {0})
  unfolding granted_scopes keep contains sorted_set join
  validate_scopes claims =
      let missing =
        keep (λ scope. not (contains (granted_scopes claims) scope)) config.required_scopes in
      if is_empty missing
      then ok tt
      else raise (auth_error ("missing required scopes: " <> join ", " (sorted_set missing)))
