-- ===== src/Identity/Resolver/Authenticated.antt =====
-- identity/auth.py: the credentials of each mode.
use mcp_zero_trust_layer.Base.{
  Bool-cases, ◌==◌, truthy, nat_eq, string_eq, option_eq, contains, is_empty, keep, All, All-map,
  keep-All, int_eq, bool_eq, String, ◌≡◌, refl, sym, ◌⊎◌, inl, inr, Bool, true, false, not, ◌||◌,
  Option, none, some, List, arith, eq_iff,
}
use mcp_zero_trust_layer.Base.Dict.{Dict}
use mcp_zero_trust_layer.Value.{
  Value, null, bool, int, str, list, dict, Fields, auth_error, Outcome, ok, raise, ◌>>◌, >>=-eq-ok,
  ok-injective, if-eq-ok, if_or_raise-eq-ok,
}
use mcp_zero_trust_layer.Host.{Host}
use mcp_zero_trust_layer.Config.{capability_type_eq, AuthConfig, Identity}
use mcp_zero_trust_layer.Identity.Secrets.{SecretSources}
use mcp_zero_trust_layer.Identity.Auth.{
  Called, done, refused, broke, JwtKey, AuthLibraries, HttpRequest, normalized, read_token,
  configured_token, accept, check_secret, validate_secret, jwt_key, claims_of, decode_jwt,
  granted_scopes, validate_scopes,
}
use mcp_zero_trust_layer.Identity.Resolver.{
  identity_from_headers, identity_on, identity_from_claims, resolve_claims, resolve_secret,
  resolve_token, resolve_normalized, resolve_http_identity,
}
use mathlib.Core.Path.{subst}

module _ (host : Host) (libraries : AuthLibraries) (sources : SecretSources)
    (config : AuthConfig) where
  -- The token is the configured secret, by `compare_digest`.
  abbrev pub KnowsSecret : String → Type 0
  KnowsSecret token =
      (secret : String) × (configured_token host libraries sources config ≡ ok (some secret))
      × (truthy secret ≡ true)
      × (libraries.compare_digest token secret ≡ ok true)

  -- `jwt.decode` accepts the token with these claims, for the configured audience and issuer.
  abbrev pub HasClaims : Option String → String → Fields → Type 0
  HasClaims client token claims =
      (key : JwtKey) × (algorithms : List String) × (jwt_key host libraries sources config client
          token
        ≡ ok (key, algorithms))
      × (libraries.jwt_decode token key algorithms config.audience config.issuer
          ≡ done (dict claims))

  -- The claims grant all required scopes.
  abbrev pub HasScopes : Fields → Type 0
  HasScopes claims =
      All (λ scope. contains (granted_scopes host libraries sources config claims) scope ≡ true)
        config.required_scopes

  -- What the mode asks of the token of the request.
  pub data IsCredential (client : Option String) (token : String) : Type 0 where
    by_static_token : config.mode ≡ "static_token" → KnowsSecret token → IsCredential client token
    by_api_key : config.mode ≡ "api_key" → KnowsSecret token → IsCredential client token
    by_claims :
        (config.mode ≡ "jwt") ⊎ (config.mode ≡ "oidc")
        → (claims : Fields) → HasClaims client token claims
        → HasScopes claims
        → IsCredential client token

  pub data IsAuthenticated (client : Option String) (headers : Dict String String) : Type 0 where
    -- the mode asks for nothing
    by_no_mode : config.mode ≡ "none" → IsAuthenticated client headers
    by_token :
        (token : String)
        → read_token host libraries sources config headers ≡ ok token
        → IsCredential client token
        → IsAuthenticated client headers

  accept-true :
      (invalid : String) (m : Outcome Bool)
      → accept host libraries sources config invalid m ≡ ok tt
      → m ≡ ok true
  unfolding accept
  accept-true invalid (raise e) h = cc
  accept-true invalid (ok true) h = refl
  accept-true invalid (ok false) h = cc

  check_secret-lem :
      (unconfigured invalid token : String) (m : Outcome (Option String))
      → check_secret host libraries sources config unconfigured invalid token m ≡ ok tt
      → (secret : String) × (m ≡ ok (some secret))
        × (truthy secret ≡ true)
        × (libraries.compare_digest token secret ≡ ok true)
  unfolding check_secret
  check_secret-lem unconfigured invalid token (raise e) h = cc
  check_secret-lem unconfigured invalid token (ok none) h = cc
  check_secret-lem unconfigured invalid token (ok (some secret)) h =
      let (given, a) =
        if_or_raise-eq-ok (truthy secret)
          (accept host libraries sources config invalid (libraries.compare_digest token secret))
          (auth_error unconfigured) h in
      (secret, refl, given, accept-true invalid (libraries.compare_digest token secret) a)

  -- What holds of an identity, whatever the claims and the headers say.
  abbrev pub IsOf : HttpRequest → Identity → Type 0
  IsOf request identity =
      (identity.source_ip ≡ request.source_ip)
      × (identity.environment ≡ request.environment)
      × (identity.auth_method ≡ config.mode)

  IsOf-headers :
      (headers : Dict String String) (request : HttpRequest) (auth_method : String)
      → auth_method ≡ config.mode
      → IsOf request
          (identity_from_headers host libraries sources config headers request auth_method)
  unfolding identity_from_headers
  IsOf-headers headers request auth_method h = elim (Bool-cases config.trust_identity_headers) [
    | inl trust ↦ rw trust (refl, refl, h)
    | inr doubt ↦ rw doubt (refl, refl, h)
  ]

  resolve_secret-lem :
      (unconfigured invalid token : String) (headers : Dict String String) (request : HttpRequest)
      (identity : Identity)
      → resolve_secret host libraries sources config unconfigured invalid token headers request
        ≡ ok identity
      → KnowsSecret token × IsOf request identity
  unfolding resolve_secret validate_secret
  resolve_secret-lem unconfigured invalid token headers request identity h =
      let (_, v, k) =
        >>=-eq-ok (validate_secret host libraries sources config unconfigured invalid token)
          (λ (_ : Unit {0}).
            ok (identity_from_headers host libraries sources config headers request config.mode))
          h in
      (
        check_secret-lem unconfigured invalid token (configured_token host libraries sources config)
            v,
        subst (IsOf request) (ok-injective k) (IsOf-headers headers request config.mode refl),
      )

  claims_of-lem :
      (m : Called Value) (claims : Fields)
      → claims_of host libraries sources config m ≡ ok claims
      → m ≡ done (dict claims)
  unfolding claims_of
  claims_of-lem (done (dict fs)) claims h = cc
  claims_of-lem (done null) claims h = cc
  claims_of-lem (done (bool b)) claims h = cc
  claims_of-lem (done (int n)) claims h = cc
  claims_of-lem (done (str s)) claims h = cc
  claims_of-lem (done (list vs)) claims h = cc
  claims_of-lem (refused text) claims h = cc
  claims_of-lem (broke e) claims h = cc

  decode_jwt-lem :
      (client : Option String) (token : String) (claims : Fields)
      → decode_jwt host libraries sources config client token ≡ ok claims
      → HasClaims client token claims
  unfolding decode_jwt
  decode_jwt-lem client token claims h =
      let ((key, algorithms), k, c) =
        >>=-eq-ok (jwt_key host libraries sources config client token)
          (λ (used : JwtKey × List String).
            claims_of host libraries sources config
              (libraries.jwt_decode token used.0 used.1 config.audience config.issuer))
          h in
      (key, algorithms, k, claims_of-lem _ claims c)

  validate_scopes-HasScopes :
      (claims : Fields)
      → validate_scopes host libraries sources config claims ≡ ok tt
      → HasScopes claims
  unfolding validate_scopes
  validate_scopes-HasScopes claims h =
      let granted = granted_scopes host libraries sources config claims in
      let (none_missing, _) =
        if_or_raise-eq-ok
          (is_empty (keep (λ scope. not (contains granted scope)) config.required_scopes)) (ok tt) _
          h in
      All-map (λ scope there. ground arith) config.required_scopes
        (keep-All (λ scope. not (contains granted scope)) config.required_scopes none_missing)

  resolve_claims-lem :
      (client : Option String) (token : String) (headers : Dict String String)
      (request : HttpRequest) (identity : Identity)
      → resolve_claims host libraries sources config client token headers request ≡ ok identity
      → (claims : Fields) × HasClaims client token claims × HasScopes claims × IsOf request identity
  unfolding resolve_claims identity_from_claims identity_on
  resolve_claims-lem client token headers request identity h =
      let (claims, d, k) =
        >>=-eq-ok (decode_jwt host libraries sources config client token)
          (λ (claims : Fields).
            validate_scopes host libraries sources config claims
            >> ok (
                identity_from_claims host libraries sources config claims headers request
                  config.mode))
          h in
      let (_, s, i) =
        >>=-eq-ok (validate_scopes host libraries sources config claims)
          (λ (_ : Unit {0}).
            ok (
              identity_from_claims host libraries sources config claims headers request
                config.mode))
          k in
      (
        claims,
        decode_jwt-lem client token claims d,
        validate_scopes-HasScopes claims s,
        subst (IsOf request) (ok-injective i) (refl, refl, refl),
      )

  resolve_token-lem :
      (client : Option String) (token : String) (headers : Dict String String)
      (request : HttpRequest) (identity : Identity)
      → resolve_token host libraries sources config client token headers request ≡ ok identity
      → IsCredential client token × IsOf request identity
  unfolding resolve_token
  resolve_token-lem client token headers request identity h =
      elim (if-eq-ok (config.mode == "static_token") _ _ h) [
        | inl (m, k) ↦
            let (s, i) = resolve_secret-lem _ _ token headers request identity k in
            (by_static_token ((eq_iff config.mode "static_token").0 m) s, i)
        | inr (_, k) ↦ elim (if-eq-ok (config.mode == "api_key") _ _ k) [
          | inl (m, k) ↦
              let (s, i) = resolve_secret-lem _ _ token headers request identity k in
              (by_api_key ((eq_iff config.mode "api_key").0 m) s, i)
          | inr (_, k) ↦
              let (m, k) =
                if_or_raise-eq-ok (config.mode == "jwt" || config.mode == "oidc") _ _ k in
              let (claims, c, s, i) = resolve_claims-lem client token headers request identity k in
              (by_claims (claims_mode m) claims c s, i)
        ]
      ]
    where
      claims_mode :
          (config.mode == "jwt" || config.mode == "oidc") ≡ true
          → (config.mode ≡ "jwt") ⊎ (config.mode ≡ "oidc")
      claims_mode m = elim (Bool-cases (config.mode == "jwt")) [
        | inl j ↦ inl ((eq_iff config.mode "jwt").0 j)
        | inr n ↦ inr ((eq_iff config.mode "oidc").0 (ground arith))
      ]

  resolve_normalized-lem :
      (client : Option String) (headers : Dict String String) (request : HttpRequest)
      (identity : Identity)
      → resolve_normalized host libraries sources config client headers request ≡ ok identity
      → IsAuthenticated client headers × IsOf request identity
  unfolding resolve_normalized
  resolve_normalized-lem client headers request identity h =
      elim (if-eq-ok (config.mode == "none") _ _ h) [
        | inl (m, k) ↦
            let none_mode = (eq_iff config.mode "none").0 m in
            (
              by_no_mode none_mode,
              subst (IsOf request) (ok-injective k)
                  (IsOf-headers headers request "none" (sym none_mode)),
            )
        | inr (_, k) ↦
            let (token, r, t) =
              >>=-eq-ok (read_token host libraries sources config headers)
                (λ (token : String).
                  resolve_token host libraries sources config client token headers request)
                k in
            let (c, i) = resolve_token-lem client token headers request identity t in
            (by_token token r c, i)
      ]

-- A request that gets an identity has authenticated itself the way the configured mode asks: with a
-- token equal to the configured secret, or with a token that `jwt.decode` accepts for the configured
-- audience and issuer and whose claims grant all required scopes; only the mode "none" asks for
-- nothing. The identity has the address of the request, the environment and the mode as they are,
-- whatever headers and claims say.
pub resolve_http_identity-IsAuthenticated :
    (host : Host) (libraries : AuthLibraries) (sources : SecretSources) (config : AuthConfig)
    (client : Option String) (request : HttpRequest) (identity : Identity)
    → resolve_http_identity host libraries sources config client request ≡ ok identity
    → IsAuthenticated host libraries sources config client (normalized libraries request.headers)
      × IsOf host libraries sources config request identity
unfolding resolve_http_identity
resolve_http_identity-IsAuthenticated host libraries sources config client request identity h =
    resolve_normalized-lem host libraries sources config client
      (normalized libraries request.headers) request identity h
