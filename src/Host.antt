-- ===== src/Host.antt =====
-- What the program takes from Python's standard library and from third-party packages. The
-- repository does not hold this code, so it is a parameter of the model.
use mcp_zero_trust_layer.Base.{nat_eq, string_eq, option_eq, int_eq, bool_eq, String, Bool, Option}
use mcp_zero_trust_layer.Value.{Value, Outcome}

-- `fnmatchcase` of `fnmatch`; `search` and `sub` of `re`, where `none` is `re.error` (`sub` puts
-- "[REDACTED]" for each match); `str(v)`; `repr` of a text; `json.dumps` in its default and in its canonical form
-- (sorted keys, no spaces); `sha256` as hexadecimal text; `getattr` on a value that is no dict;
-- `httpx.post` of a JSON body, which gives the decoded body of a successful response.
pub record Host : Type 0 where
  pub fnmatchcase : String → String → Bool
  pub search : String → String → Option Bool
  pub sub : String → String → Option String
  pub to_str : Value → String
  pub repr : String → String
  pub dumps : Value → String
  pub canonical_dumps : Value → String
  pub sha256 : String → String
  pub attribute : Value → String → Option Value
  pub post : String → Value → Outcome Value
