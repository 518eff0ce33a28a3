-- ===== src/Validators/Basic/Url.antt =====
-- validators/basic.py: the scheme, the host and the addresses of a URL.
pub mod Safe
use mcp_zero_trust_layer.Base.{
  leb, if◌then◌else◌, ◌==◌, truthy, nat_eq, string_eq, option_eq, contains, length, is_empty, any,
  ℤ, pos, negsuc, int_eq, bool_eq, ℕ, String, ◌<>◌, Bool, true, false, not, ◌&&◌, ◌||◌, Option,
  none, some, List, [], ◌∷◌,
}
use mcp_zero_trust_layer.Base.Text.{split}
use mcp_zero_trust_layer.Value.{
  Value, bool, str, list, nil, Fields, is_truthy, py_eq, Outcome, ok, raise, ◌>>=◌, ◌>>◌,
}
use mcp_zero_trust_layer.Host.{Host}
use mcp_zero_trust_layer.Config.{capability_type_eq, texts}
use mcp_zero_trust_layer.Validators.InputPolicy.{ValidatorResult, result_ok, result_fail}
use mcp_zero_trust_layer.Validators.Platform.{IpAddress, ParsedUrl, Platform}
use mcp_zero_trust_layer.Validators.Options.{as_set, mem_set, get_by, option, with_text}
use mcp_zero_trust_layer.Validators.Basic.Paths.{repr_of}
use text.Mathlib.Text.{starts_with}

abbrev pub cloud_metadata_hosts : List String
cloud_metadata_hosts = "169.254.169.254" ∷ "metadata.google.internal" ∷ []

abbrev pub local_hosts : List String
local_hosts = "localhost" ∷ "127.0.0.1" ∷ "::1" ∷ []

abbrev pub default_schemes : Value
default_schemes = texts ("http" ∷ "https" ∷ [])

-- the text without its first characters that ends in `suffix`
abbrev pub ends_with : String → String → Bool
ends_with suffix String.[] = suffix == ""
ends_with suffix (String.◌∷◌ c s) = ((String.◌∷◌ c s) == suffix) || ends_with suffix s

-- the number is an octet
abbrev octet : ℤ → Option ℕ
octet (pos n) = if leb n 255 then some n else none
octet (negsuc n) = none

-- the list, when its head and its tail are there
abbrev both {ℓ} : {A : Type ℓ} → Option A → Option (List A) → Option (List A)
both (some x) (some xs) = some (x ∷ xs)
both _ _ = none

abbrev octets_of : List ℤ → Option (List ℕ)
octets_of [] = some []
octets_of (z ∷ zs) = both (octet z) (octets_of zs)

-- the base that an octet is read in
abbrev octet_base : String → ℕ
octet_base part = if starts_with part "0" && not (part == "0") then 8 else 10

module _ (platform : Platform) where
  -- `int(part, 0)` for a hexadecimal literal and `int(part, base)` else
  unfoldable pub read_int : ℕ → String → Option ℤ
  read_int base part =
      if starts_with (platform.lower part) "0x"
      then platform.parse_int part 0
      else platform.parse_int part base

  abbrev read_octets : List String → Option (List ℤ)
  read_octets [] = some []
  read_octets (part ∷ parts) = both (read_int (octet_base part) part) (read_octets parts)

  -- four parts, each an octet in decimal, octal or hexadecimal
  unfoldable pub dotted_ip : List String → Option IpAddress
  dotted_ip parts =
      if length parts == 4
      then (elim (read_octets parts) [
        | none ↦ none
        | some numbers ↦ (elim (octets_of numbers) [
          | none ↦ none
          | some octets ↦ some (platform.ip_of_bytes octets)
        ])
      ])
      else none

  -- a number of 32 bits stands for an address; any other text is read as four parts
  unfoldable pub number_ip : List String → Option ℤ → Option IpAddress
  unfolding dotted_ip
  number_ip parts (some (pos n)) =
      if leb n 4294967295 then some (platform.ip_of_number n) else dotted_ip parts
  number_ip parts _ = dotted_ip parts

  -- `_normalize_ip`
  unfoldable pub normalize_ip : String → Option IpAddress
  unfolding number_ip read_int
  normalize_ip host =
      let stripped = platform.strip_brackets host in
      elim (platform.ip_address host) [
        | some ip ↦ some ip
        | none ↦ number_ip (split 46 stripped) (read_int 10 stripped)
      ]

  abbrev is_internal : IpAddress → Bool
  is_internal ip =
      ip.is_private
      || ip.is_loopback
      || ip.is_link_local
      || ip.is_reserved
      || ip.is_multicast
      || ip.is_unspecified
      || (ip.is_version4 && ip.in_cgnat)

  -- `_is_private_ip`
  unfoldable pub is_private_ip : String → Bool
  unfolding normalize_ip
  is_private_ip host = elim (normalize_ip host) [ none ↦ false | some ip ↦ is_internal ip ]

  -- `_url_parse_error`
  unfoldable pub url_parse_error : ParsedUrl → Fields → Outcome (Option String)
  unfolding option as_set
  url_parse_error parsed options = do
    allowed ← as_set (option "allowed_schemes" default_schemes options)
    ok (
        if mem_set parsed.scheme allowed
        then (elim parsed.hostname [
          | none ↦ some "url validator requires hostname"
          | some name ↦ (if truthy name then none else some "url validator requires hostname")
        ])
        else some "url validator blocked disallowed scheme")

  -- `domain == host`, or the host is under it
  unfoldable pub matches_domain : Host → String → Value → Bool
  matches_domain host name domain =
      py_eq domain (str name) || ends_with ("." <> host.to_str domain) name

  -- a setting that is on by default
  abbrev pub is_on : String → Fields → Bool
  is_on key options = is_truthy (option key (bool true) options)

  -- what comes after the blocked domains
  unfoldable pub allowed_error : Host → String → Fields → List Value → Option String
  unfolding option any is_truthy is_private_ip matches_domain contains
  allowed_error host name options allowed =
      if not (is_empty allowed) && not (any (matches_domain host name) allowed)
      then some "url validator blocked domain outside allowed_domains"
      else if is_on "block_localhost" options && contains local_hosts name
      then some "url validator blocked localhost"
      else if is_on "block_private_ips" options && is_private_ip name
      then some "url validator blocked private IP"
      else if contains cloud_metadata_hosts name
      then some "url validator blocked cloud metadata service"
      else none

  -- `_url_host_error`
  unfoldable pub url_host_error : Host → String → Fields → Outcome (Option String)
  unfolding option as_set allowed_error
  url_host_error host name options = do
    blocked ← as_set (option "blocked_domains" (list nil) options)
    (if mem_set name blocked
        then ok (some "url validator blocked domain")
        else (as_set (option "allowed_domains" (list nil) options) >>= λ allowed.
            ok (allowed_error host name options allowed)))

  -- a resolved address that is private or a metadata service
  unfoldable pub is_internal_address : String → Bool
  unfolding is_private_ip contains
  is_internal_address ip = is_private_ip ip || contains cloud_metadata_hosts ip

  -- `_url_dns_error`
  unfoldable pub url_dns_error : String → Fields → Option String
  unfolding option any is_truthy is_internal_address
  url_dns_error name options =
      if not (is_on "block_private_ips" options) || not (is_on "resolve_dns" options)
      then none
      else (elim (platform.getaddrinfo name) [
        | none ↦
            if is_truthy (option "allow_unresolved" (bool false) options)
            then none
            else some "url validator could not resolve hostname"
        | some resolved ↦
            if any is_internal_address resolved
            then some "url validator blocked hostname resolving to private IP"
            else none
      ])

  -- `ValidatorResult.fail` of an error, or the next check
  unfoldable pub fail_or :
      Outcome (Option String) → Outcome ValidatorResult → Outcome ValidatorResult
  fail_or (raise e) next = raise e
  fail_or (ok (some message)) next = ok (result_fail message)
  fail_or (ok none) next = next

  -- `(parsed.hostname or "").lower()`
  abbrev pub host_name : ParsedUrl → String
  host_name parsed = platform.lower (elim parsed.hostname [ none ↦ "" | some name ↦ name ])

  -- the three checks, in turn
  unfoldable pub check_parsed : Host → Fields → ParsedUrl → Outcome ValidatorResult
  unfolding url_parse_error url_host_error url_dns_error fail_or
  check_parsed host options parsed = fail_or (url_parse_error parsed options) (
      fail_or (url_host_error host (host_name parsed) options)
        (fail_or (ok (url_dns_error (host_name parsed) options)) (ok result_ok)))

  -- what comes after the argument is found
  unfoldable pub check_url : Host → String → Fields → Outcome ValidatorResult
  unfolding check_parsed
  check_url host raw options = platform.urlparse raw >>= check_parsed host options

  unfoldable pub validate_url : Host → Fields → Fields → Outcome ValidatorResult
  unfolding option get_by with_text check_url
  validate_url host arguments options =
      let url_arg = option "url_arg" (str "url") options in
      with_text ("url validator could not find URL argument " <> repr_of host platform url_arg)
        (λ url. check_url host url options) (get_by url_arg arguments)
