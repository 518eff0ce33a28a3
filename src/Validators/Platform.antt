-- ===== src/Validators/Platform.antt =====
-- What validators/basic.py takes from Python beyond Host, as an argument of the validators.
use mcp_zero_trust_layer.Base.{ℤ, ℕ, String, Bool, Option, List}
use mcp_zero_trust_layer.Value.{Outcome}

-- An address as `ipaddress` gives it, with the properties that are read.
pub record IpAddress : Type 0 where
  pub is_private : Bool
  pub is_loopback : Bool
  pub is_link_local : Bool
  pub is_reserved : Bool
  pub is_multicast : Bool
  pub is_unspecified : Bool
  pub is_version4 : Bool
  pub in_cgnat : Bool

-- `urlparse(url)`
pub record ParsedUrl : Type 0 where
  pub scheme : String
  pub hostname : Option String

-- `Address(addr_spec=s)`
pub record Mailbox : Type 0 where
  pub username : String
  pub domain : String
  pub addr_spec : String

-- `s.lower()`, `s.strip()`, `s.strip("[]")`, `c.isspace()` of a code point;
-- `re.finditer`, as the first groups of the matches; `Path(s)` as text: `is_absolute`, `base / s`,
-- `expanduser().resolve(strict=False)`, `os.path.normcase`, and its parts; `urlparse`, which may raise;
-- `ipaddress.ip_address` of a text and of a number, and of four bytes; `int(s, base)` with base 0 for
-- the prefix of the literal; `getaddrinfo`, where `none` is a failure; `Address`, where `none` is any
-- exception.
pub record Platform : Type 0 where
  pub lower : String → String
  pub strip : String → String
  pub strip_brackets : String → String
  pub is_space : ℕ → Bool
  pub find_groups : String → String → List String
  pub is_absolute : String → Bool
  pub path_join : String → String → String
  pub resolve_path : String → String
  pub normcase : String → String
  pub path_parts : String → List String
  pub urlparse : String → Outcome ParsedUrl
  pub ip_address : String → Option IpAddress
  pub ip_of_number : ℕ → IpAddress
  pub ip_of_bytes : List ℕ → IpAddress
  pub parse_int : String → ℕ → Option ℤ
  pub getaddrinfo : String → Option (List String)
  pub parse_address : String → Option Mailbox
