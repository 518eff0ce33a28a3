-- ===== src/Validators/Basic/ReadOnly/Reads.antt =====
-- validators/basic.py: what SQL that passes consists of.
use mcp_zero_trust_layer.Base.{
  ltb, if◌then◌else◌, nat_eq, string_eq, option_eq, contains, length, All, all-All, int_eq, bool_eq,
  ◌≤◌, String, ◌≡◌, refl, Bool, true, false, not, Option, none, some, [], ◌∷◌, arith,
}
use mcp_zero_trust_layer.Value.{
  Value, null, bool, int, str, list, dict, Fields, get_or_null, json_rpc, type_error, key_error,
  value_error, overflow_error, regex_error, auth_error, secret_error, foreign, Outcome, ok, raise,
  ◌>>=◌, or_raise,
}
use mcp_zero_trust_layer.Host.{Host}
use mcp_zero_trust_layer.Config.{capability_type_eq}
use mcp_zero_trust_layer.Validators.InputPolicy.{result_ok, result_fail, is_passed}
use mcp_zero_trust_layer.Validators.Platform.{Platform}
use mcp_zero_trust_layer.Validators.Options.{first_value}
use mcp_zero_trust_layer.Validators.Basic.Sql.{sql_code, split_sql_statements}
use mcp_zero_trust_layer.Validators.Basic.ReadOnly.{
  forbidden_sql, reading_start, sql_function, safe_calls, calls_allowed, check_code, check_masked,
  check_query, check_found, validate_sql_read_only,
}

module _ (host : Host) (platform : Platform) where
  -- One statement that starts like a reading one, without a destructive word, and that calls
  -- only functions of the safe list.
  abbrev pub IsReadingCode : String → Type 0
  IsReadingCode code =
      (length (split_sql_statements platform code) ≤ 1)
      × (host.search forbidden_sql code ≡ some false)
      × (host.search reading_start code ≡ some true)
      × All (λ name. contains safe_calls (platform.lower name) ≡ true)
          (platform.find_groups sql_function code)

  searches_then :
      (b : Bool) (m n : Option Bool) (safe : Bool)
      → is_passed (
          if b
          then ok (result_fail "sql_read_only blocked multiple SQL statements")
          else (or_raise regex_error m >>= λ destructive.
              if destructive
              then ok (result_fail "sql_read_only blocked a destructive SQL keyword")
              else (or_raise regex_error n >>= λ reads. ok (
                  if not reads
                  then result_fail "sql_read_only only allows SELECT, WITH, or EXPLAIN statements"
                  else if safe
                  then result_ok
                  else result_fail "sql_read_only blocked an unsupported SQL function or syntax"))))
        ≡ true
      → (b ≡ false) × (m ≡ some false) × (n ≡ some true) × (safe ≡ true)
  searches_then true m n safe h = cc
  searches_then false none n safe h = cc
  searches_then false (some true) n safe h = cc
  searches_then false (some false) none safe h = cc
  searches_then false (some false) (some false) safe h = cc
  searches_then false (some false) (some true) safe h = (refl, refl, refl, ground arith)

  check_code-IsReadingCode :
      (code : String) → is_passed (check_code host platform code) ≡ true → IsReadingCode code
  unfolding check_code
  check_code-IsReadingCode code h =
      let (one, f, s, c) =
        searches_then (ltb 1 (length (split_sql_statements platform code)))
          (host.search forbidden_sql code) (host.search reading_start code)
          (calls_allowed host platform (platform.find_groups sql_function code)) h in
      (ground arith, f, s, all-All _ (platform.find_groups sql_function code) c)

  masked_then :
      (m : Outcome String)
      → is_passed (check_masked host platform m) ≡ true
      → (code : String) × (m ≡ ok code) × IsReadingCode (platform.strip code)
  unfolding check_masked
  masked_then (ok code) h = (code, refl, check_code-IsReadingCode (platform.strip code) h)
  masked_then (raise (value_error reason)) h = cc
  masked_then (raise (json_rpc c m d)) h = cc
  masked_then (raise type_error) h = cc
  masked_then (raise (key_error k)) h = cc
  masked_then (raise overflow_error) h = cc
  masked_then (raise (auth_error m)) h = cc
  masked_then (raise (secret_error m)) h = cc
  masked_then (raise regex_error) h = cc
  masked_then (raise (foreign e)) h = cc

  query_then :
      (m : Outcome Value)
      → is_passed (check_found host platform m) ≡ true
      → (query : String) × (code : String) × (m ≡ ok (str query))
        × (sql_code platform query ≡ ok code)
        × IsReadingCode (platform.strip code)
  unfolding check_found check_query
  query_then (raise e) h = cc
  query_then (ok (str query)) h =
      let (code, c, r) = masked_then (sql_code platform query) (ground arith) in
      (query, code, refl, c, r)
  query_then (ok null) h = cc
  query_then (ok (bool b)) h = cc
  query_then (ok (int n)) h = cc
  query_then (ok (list vs)) h = cc
  query_then (ok (dict fs)) h = cc

-- A query that passes is a text that the lexer accepts, and what is left of it without its strings
-- and comments is one statement at most, starts with SELECT, WITH or EXPLAIN, has no
-- destructive word in it, and calls only functions of the safe list.
pub validate_sql_read_only-IsReadingCode :
    (host : Host) (platform : Platform) (arguments options : Fields)
    → is_passed (validate_sql_read_only host platform arguments options) ≡ true
    → (query : String) × (code : String) × (first_value arguments
          (get_or_null "query_arg" options ∷ str "query" ∷ str "sql" ∷ str "statement" ∷ [])
        ≡ ok (str query))
      × (sql_code platform query ≡ ok code)
      × IsReadingCode host platform (platform.strip code)
unfolding validate_sql_read_only
validate_sql_read_only-IsReadingCode host platform arguments options h =
    query_then host platform
      (first_value arguments
        (get_or_null "query_arg" options ∷ str "query" ∷ str "sql" ∷ str "statement" ∷ []))
      h
