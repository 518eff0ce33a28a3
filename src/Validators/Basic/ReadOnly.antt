-- ===== src/Validators/Basic/ReadOnly.antt =====
-- validators/basic.py: SQL that only reads, on the text that the lexer has masked.
pub mod Reads
use mcp_zero_trust_layer.Base.{
  ltb, if◌then◌else◌, truthy, nat_eq, string_eq, option_eq, contains, length, all, int_eq, bool_eq,
  String, ◌<>◌, Bool, not, List, [], ◌∷◌,
}
use mcp_zero_trust_layer.Value.{
  Value, str, Fields, get_or_null, value_error, regex_error, Outcome, ok, raise, ◌>>=◌, or_raise,
}
use mcp_zero_trust_layer.Host.{Host}
use mcp_zero_trust_layer.Config.{capability_type_eq}
use mcp_zero_trust_layer.Validators.InputPolicy.{ValidatorResult, result_ok, result_fail}
use mcp_zero_trust_layer.Validators.Platform.{Platform}
use mcp_zero_trust_layer.Validators.Options.{first_value}
use mcp_zero_trust_layer.Validators.Basic.Sql.{sql_code, split_sql_statements}

-- `FORBIDDEN_SQL_RE`, with its flag written in front
abbrev pub forbidden_sql : String
forbidden_sql =
    "(?i)\\b(DROP|DELETE|UPDATE|INSERT|ALTER|TRUNCATE|CREATE|GRANT|REVOKE|MERGE|CALL|EXEC|EXECUTE|"
    <> ("ATTACH|DETACH|COPY|PRAGMA|VACUUM|REPLACE|LOAD|SET|PREPARE|DEALLOCATE|DO|HANDLER|"
        <> ("REINDEX|ANALYZE|LOCK|UNLOCK|RENAME|IMPORT|INSTALL|KILL|BEGIN|COMMIT|ROLLBACK|SAVEPOINT|"
            <> "INTO|NEXT|FOR)\\b"))

-- the start of a statement that is allowed
abbrev pub reading_start : String
reading_start = "(?i)^(SELECT|WITH|EXPLAIN)\\b"

-- `SQL_FUNCTION_RE`
abbrev pub sql_function : String
sql_function = "((?:[\\w\"$]+\\s*\\.\\s*)*[\\w\"$]+)\\s*\\("

-- `SAFE_SQL_FUNCTIONS | SQL_PAREN_KEYWORDS`
abbrev pub safe_calls : List String
safe_calls =
    "abs" ∷ "avg" ∷ "ceil" ∷ "ceiling" ∷ "coalesce" ∷ "count" ∷ "floor" ∷ "length" ∷ "lower"
    ∷ "ltrim" ∷ "max" ∷ "min" ∷ "nullif" ∷ "round" ∷ "rtrim" ∷ "substr" ∷ "substring" ∷ "sum"
    ∷ "trim" ∷ "upper" ∷ "select" ∷ "as" ∷ "in" ∷ "exists" ∷ "not" ∷ "and" ∷ "or" ∷ "where" ∷ "on"
    ∷ "having" ∷ []

module _ (host : Host) (platform : Platform) where
  -- `pattern.search(text)`, where the pattern is one of the constants
  abbrev found_in : String → String → Outcome Bool
  found_in pattern code = or_raise regex_error (host.search pattern code)

  -- the loop over the matches of `SQL_FUNCTION_RE`
  abbrev pub calls_allowed : List String → Bool
  calls_allowed names = all (λ name. contains safe_calls (platform.lower name)) names

  -- the checks on the masked text
  unfoldable pub check_code : String → Outcome ValidatorResult
  unfolding split_sql_statements contains all
  check_code code =
      if ltb 1 (length (split_sql_statements platform code))
      then ok (result_fail "sql_read_only blocked multiple SQL statements")
      else (found_in forbidden_sql code >>= λ destructive.
          if destructive
          then ok (result_fail "sql_read_only blocked a destructive SQL keyword")
          else (found_in reading_start code >>= λ reads. ok (
              if not reads
              then result_fail "sql_read_only only allows SELECT, WITH, or EXPLAIN statements"
              else if calls_allowed (platform.find_groups sql_function code)
              then result_ok
              else result_fail "sql_read_only blocked an unsupported SQL function or syntax")))

  -- the masked text, or `except ValueError`
  unfoldable pub check_masked : Outcome String → Outcome ValidatorResult
  unfolding check_code
  check_masked (ok code) = check_code (platform.strip code)
  check_masked (raise (value_error reason)) =
      ok (result_fail ("sql_read_only blocked unsupported SQL: " <> reason))
  check_masked (raise e) = raise e

  unfoldable pub check_query : String → Outcome ValidatorResult
  unfolding sql_code check_masked
  check_query query = check_masked (sql_code platform query)

  -- `if not isinstance(query, str) or not query.strip()`, and what follows
  unfoldable pub check_found : Outcome Value → Outcome ValidatorResult
  unfolding check_query
  check_found (raise e) = raise e
  check_found (ok (str query)) =
      if truthy (platform.strip query)
      then check_query query
      else ok (result_fail "sql_read_only could not find a SQL string")
  check_found (ok _) = ok (result_fail "sql_read_only could not find a SQL string")

  unfoldable pub validate_sql_read_only : Fields → Fields → Outcome ValidatorResult
  unfolding get_or_null first_value check_found
  validate_sql_read_only arguments options = check_found (
      first_value arguments
        (get_or_null "query_arg" options ∷ str "query" ∷ str "sql" ∷ str "statement" ∷ []))
