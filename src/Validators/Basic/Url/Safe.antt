-- ===== src/Validators/Basic/Url/Safe.antt =====
-- validators/basic.py: what a URL that passes cannot reach.
use mcp_zero_trust_layer.Base.{
  if◌then◌else◌, nat_eq, string_eq, option_eq, contains, is_empty, any, All, any-All, All-map,
  int_eq, bool_eq, String, ◌≡◌, refl, true, false, Option, none, some, List, arith,
}
use mcp_zero_trust_layer.Value.{
  Value, str, list, nil, Fields, Outcome, ok, raise, ◌>>=◌, ok-injective,
}
use mcp_zero_trust_layer.Host.{Host}
use mcp_zero_trust_layer.Config.{capability_type_eq}
use mcp_zero_trust_layer.Validators.InputPolicy.{ValidatorResult, is_passed}
use mcp_zero_trust_layer.Validators.Platform.{ParsedUrl, Platform}
use mcp_zero_trust_layer.Validators.Options.{as_set, mem_set, get_by, option, with_text-passed}
use mcp_zero_trust_layer.Validators.Basic.Url.{
  cloud_metadata_hosts, local_hosts, default_schemes, is_private_ip, url_parse_error,
  matches_domain, is_on, allowed_error, url_host_error, is_internal_address, url_dns_error, fail_or,
  host_name, check_parsed, check_url, validate_url,
}

module _ (platform : Platform) (host : Host) (options : Fields) where
  -- The name of a host that the options allow: not blocked, on the list of allowed domains when
  -- there is one, not this machine, not a private address and not a metadata service.
  abbrev pub IsAllowedHost : String → Type 0
  IsAllowedHost name =
      (blocked : List Value) × (allowed : List Value) × (as_set
          (option "blocked_domains" (list nil) options)
        ≡ ok blocked)
      × (as_set (option "allowed_domains" (list nil) options) ≡ ok allowed)
      × (mem_set name blocked ≡ false)
      × (is_empty allowed ≡ false → any (matches_domain platform host name) allowed ≡ true)
      × (is_on platform "block_localhost" options ≡ true → contains local_hosts name ≡ false)
      × (is_on platform "block_private_ips" options ≡ true → is_private_ip platform name ≡ false)
      × (contains cloud_metadata_hosts name ≡ false)

  -- Every address the name resolves to can be reached from outside, when the name is resolved.
  abbrev pub IsPublicName : String → Type 0
  IsPublicName name =
      (addresses : List String)
      → is_on platform "block_private_ips" options ≡ true
      → is_on platform "resolve_dns" options ≡ true
      → platform.getaddrinfo name ≡ some addresses
      → All (λ ip. (is_private_ip platform ip ≡ false) × (contains cloud_metadata_hosts ip ≡ false))
          addresses

  allowed_error-lem :
      (name : String) (allowed : List Value)
      → allowed_error platform host name options allowed ≡ none
      → (is_empty allowed ≡ false → any (matches_domain platform host name) allowed ≡ true)
        × (is_on platform "block_localhost" options ≡ true → contains local_hosts name ≡ false)
        × (is_on platform "block_private_ips" options ≡ true → is_private_ip platform name ≡ false)
        × (contains cloud_metadata_hosts name ≡ false)
  unfolding allowed_error
  allowed_error-lem name allowed h = ground arith

  -- the two sets, and the rest on them
  sets_then :
      (name : String) (m n : Outcome (List Value)) (rest : List Value → Option String)
      → (m >>= λ blocked.
          if mem_set name blocked
          then ok (some "url validator blocked domain")
          else (n >>= λ allowed. ok (rest allowed)))
        ≡ ok none
      → (blocked : List Value) × (allowed : List Value) × (m ≡ ok blocked)
        × (n ≡ ok allowed)
        × (mem_set name blocked ≡ false)
        × (rest allowed ≡ none)
  sets_then name (raise e) n rest h = cc
  sets_then name (ok blocked) (raise e) rest h = ground arith
  sets_then name (ok blocked) (ok allowed) rest h =
      (blocked, allowed, refl, refl, ground arith, ground arith)

  url_host_error-IsAllowedHost :
      (name : String) → url_host_error platform host name options ≡ ok none → IsAllowedHost name
  unfolding url_host_error
  url_host_error-IsAllowedHost name h =
      let (blocked, allowed, b, a, e, r) =
        sets_then name (as_set (option "blocked_domains" (list nil) options))
          (as_set (option "allowed_domains" (list nil) options))
          (allowed_error platform host name options) h in
      let (d, l, i, c) = allowed_error-lem name allowed r in (blocked, allowed, b, a, e, d, l, i, c)

  url_dns_error-IsPublicName :
      (name : String) → url_dns_error platform name options ≡ none → IsPublicName name
  unfolding url_dns_error is_internal_address
  url_dns_error-IsPublicName name h addresses private dns found =
      All-map (λ ip internal. (ground arith, ground arith)) addresses
        (any-All (is_internal_address platform) addresses (ground arith))

  -- the scheme is allowed
  abbrev pub HasAllowedScheme : ParsedUrl → Type 0
  HasAllowedScheme parsed =
      (schemes : List Value) × (as_set (option "allowed_schemes" default_schemes options)
        ≡ ok schemes)
      × (mem_set parsed.scheme schemes ≡ true)

  scheme_then :
      (parsed : ParsedUrl) (m : Outcome (List Value)) (o : Option String)
      → (m >>= λ schemes. ok (
          if mem_set parsed.scheme schemes
          then o
          else some "url validator blocked disallowed scheme"))
        ≡ ok none
      → (schemes : List Value) × (m ≡ ok schemes) × (mem_set parsed.scheme schemes ≡ true)
  scheme_then parsed (raise e) o h = cc
  scheme_then parsed (ok schemes) o h = (schemes, refl, ground arith)

  url_parse_error-HasAllowedScheme :
      (parsed : ParsedUrl)
      → url_parse_error platform parsed options ≡ ok none
      → HasAllowedScheme parsed
  unfolding url_parse_error
  url_parse_error-HasAllowedScheme parsed h =
      scheme_then parsed (as_set (option "allowed_schemes" default_schemes options)) _ h

  fail_or-passed :
      (m : Outcome (Option String)) (next : Outcome ValidatorResult)
      → is_passed (fail_or platform m next) ≡ true
      → (m ≡ ok none) × (is_passed next ≡ true)
  unfolding fail_or
  fail_or-passed (raise e) next h = cc
  fail_or-passed (ok (some message)) next h = cc
  fail_or-passed (ok none) next h = (refl, h)

  -- What the checks of a parsed URL leave.
  abbrev pub IsSafeUrl : ParsedUrl → Type 0
  IsSafeUrl parsed =
      HasAllowedScheme parsed
      × IsAllowedHost (host_name platform parsed)
      × IsPublicName (host_name platform parsed)

  check_parsed-IsSafeUrl :
      (parsed : ParsedUrl)
      → is_passed (check_parsed platform host options parsed) ≡ true
      → IsSafeUrl parsed
  unfolding check_parsed
  check_parsed-IsSafeUrl parsed h =
      let (p, h1) = fail_or-passed (url_parse_error platform parsed options) _ h in
      let (q, h2) =
        fail_or-passed (url_host_error platform host (host_name platform parsed) options) _ h1 in
      let (r, h3) =
        fail_or-passed (ok (url_dns_error platform (host_name platform parsed) options)) _ h2 in
      (
        url_parse_error-HasAllowedScheme parsed p,
        url_host_error-IsAllowedHost (host_name platform parsed) q,
        url_dns_error-IsPublicName (host_name platform parsed) (ok-injective r),
      )

  parsed_then :
      (m : Outcome ParsedUrl)
      → is_passed (m >>= check_parsed platform host options) ≡ true
      → (parsed : ParsedUrl) × (m ≡ ok parsed) × IsSafeUrl parsed
  parsed_then (raise e) h = cc
  parsed_then (ok parsed) h = (parsed, refl, check_parsed-IsSafeUrl parsed h)

-- A call whose URL passes has a text for its URL, which `urlparse` takes apart into an allowed
-- scheme and a host that is not blocked, that is under an allowed domain if there are any, and that
-- is no metadata service; while the option for it is on, the host is not this machine, and not a
-- private address; and while private addresses are blocked and names are resolved, none of the
-- addresses that the host resolves to is private or a metadata service.
pub validate_url-IsSafeUrl :
    (platform : Platform) (host : Host) (arguments options : Fields)
    → is_passed (validate_url platform host arguments options) ≡ true
    → (url : String) × (parsed : ParsedUrl) × (get_by
          (option "url_arg" (str "url") options)
          arguments
        ≡ ok (str url))
      × (platform.urlparse url ≡ ok parsed)
      × IsSafeUrl platform host options parsed
unfolding validate_url check_url
validate_url-IsSafeUrl platform host arguments options h =
    let (url, found, passed) =
      with_text-passed _ (λ url. check_url platform host url options)
        (get_by (option "url_arg" (str "url") options) arguments) h in
    let (parsed, p, s) = parsed_then platform host options (platform.urlparse url) passed in
    (url, parsed, found, p, s)
