-- ===== src/Tests/ValidatorTests.antt =====
-- validators/basic.py at concrete arguments.
use mcp_zero_trust_layer.Base.{
  eqb, if◌then◌else◌, ◌==◌, nat_eq, string_eq, option_eq, contains, all, any, keep, All, int_eq,
  bool_eq, String, ◌<>◌, ◌≡◌, refl, ◌↔◌, true, false, ◌&&◌, none, some, List, [], ◌∷◌,
}
use mcp_zero_trust_layer.Base.Text.{split, is_substring}
use mcp_zero_trust_layer.Value.{
  Value, bool, str, list, nil, Fields, end, field, get, get_or_null, is_truthy, py_eq, ok,
}
use mcp_zero_trust_layer.Host.{Host}
use mcp_zero_trust_layer.Config.{capability_type_eq, ValidatorConfig, texts}
use mcp_zero_trust_layer.Samples.{sample_host, sample_context}
use mcp_zero_trust_layer.Validators.InputPolicy.{is_passed, is_prefix, get_argument}
use mcp_zero_trust_layer.Validators.Platform.{IpAddress, ParsedUrl, Platform}
use mcp_zero_trust_layer.Validators.Options.{
  iterate, as_set, get_by, option, get_by_or, first_value, get_path_value, with_text,
}
use mcp_zero_trust_layer.Validators.Basic.Paths.{
  is_relative_to, base_dir, resolve_from, under_any, operation_result, check_path,
  validate_filesystem_path,
}
use mcp_zero_trust_layer.Validators.Basic.Paths.Confined.{
  IsWithinRoots, IsOutsideBlocked, OnlyReads, validate_filesystem_path-lem,
}
use mcp_zero_trust_layer.Validators.Basic.Url.{
  read_int, dotted_ip, number_ip, normalize_ip, is_private_ip, url_parse_error, allowed_error,
  url_host_error, is_internal_address, url_dns_error, fail_or, check_parsed, check_url,
  validate_url,
}
use mcp_zero_trust_layer.Validators.Basic.Url.Safe.{IsSafeUrl, validate_url-IsSafeUrl}
use mcp_zero_trust_layer.Validators.Basic.Email.{
  domain_set, mailbox_error, parsed_error, recipient_error, recipients_error, check_recipients,
  validate_email,
}
use mcp_zero_trust_layer.Validators.Basic.Email.Recipients.{
  recipients_of, AreAccepted, validate_email-AreAccepted,
}
use mcp_zero_trust_layer.Validators.Basic.Sql.{
  skip_line, read_quoted, sql_token, sql_code_from, sql_code, split_from, split_sql_statements,
}
use mcp_zero_trust_layer.Validators.Basic.Sql.Lexical.{Ends, sql_code-Ends}
use mcp_zero_trust_layer.Validators.Basic.ReadOnly.{
  reading_start, check_code, check_masked, check_query, check_found, validate_sql_read_only,
}
use mcp_zero_trust_layer.Validators.Basic.ReadOnly.Reads.{
  IsReadingCode, validate_sql_read_only-IsReadingCode,
}
use mcp_zero_trust_layer.Validators.Basic.Fields.{
  first_field, report, check_presence, validate_required_forbidden_fields,
}
use mcp_zero_trust_layer.Validators.Basic.Fields.Presence.{
  is_present, is_absent, validate_required_forbidden_fields-lem,
}
use mcp_zero_trust_layer.Validators.Engine.{
  with_base_dir, dispatch_validator, run_validator, errors_of, validator_errors, validate,
}
use mcp_zero_trust_layer.Validators.Engine.Closed.{IsClean, validate_iff}
use mcp_zero_trust_layer.Validators.Basic.All.{basic_validators}
use text.Mathlib.Text.{starts_with}

abbrev public_ip : IpAddress
public_ip = record {
  is_private = false;
  is_loopback = false;
  is_link_local = false;
  is_reserved = false;
  is_multicast = false;
  is_unspecified = false;
  is_version4 = true;
  in_cgnat = false;
}

-- A platform that knows one host and one mailbox, and whose paths are texts with slashes.
abbrev sample_platform : Platform
sample_platform = record {
  lower = λ s. s;
  strip = λ s. s;
  strip_brackets = λ s. s;
  is_space = λ c. eqb c 10;
  find_groups = λ pattern s. [];
  is_absolute = λ s. starts_with s "/";
  path_join = λ base s. base <> ("/" <> s);
  resolve_path = λ s. s;
  normcase = λ s. s;
  path_parts = split 47;
  urlparse = λ s. ok (record { scheme = "https"; hostname = some "example.org" });
  ip_address = λ s. if s == "192.0.2.1" then some public_ip else none;
  ip_of_number = λ n. public_ip;
  ip_of_bytes = λ bytes. public_ip;
  parse_int = λ s base. none;
  getaddrinfo = λ s. some ("192.0.2.1" ∷ []);
  parse_address =
      λ s. some (record { username = "a"; domain = "example.org"; addr_spec = "a@example.org" });
}

-- a host that finds no pattern but the start of a query
abbrev reading_host : Host
reading_host = record sample_host { search = λ pattern s. some (pattern == reading_start) }

abbrev url_arguments : Fields
url_arguments = field "url" (str "https://example.org/x") end

url_passes : is_passed (validate_url sample_platform sample_host url_arguments end) ≡ true
unfolding validate_url with_text check_url check_parsed fail_or url_parse_error url_host_error
    allowed_error url_dns_error is_internal_address is_private_ip normalize_ip number_ip dotted_ip
    read_int option get_by get_or_null get as_set iterate all any py_eq is_truthy contains split
url_passes = refl

validate_url-IsSafeUrl_example :
    (url : String) × (parsed : ParsedUrl) × (get_by (option "url_arg" (str "url") end) url_arguments
      ≡ ok (str url))
    × (sample_platform.urlparse url ≡ ok parsed)
    × IsSafeUrl sample_platform sample_host end parsed
validate_url-IsSafeUrl_example =
    validate_url-IsSafeUrl sample_platform sample_host url_arguments end url_passes

abbrev path_arguments : Fields
path_arguments = field "path" (str "/data/report") end

abbrev path_options : Fields
path_options = field "allowed_roots" (texts ("/data" ∷ [])) (field "read_only" (bool true) end)

path_passes :
    is_passed (validate_filesystem_path sample_host sample_platform path_arguments path_options)
    ≡ true
unfolding validate_filesystem_path with_text check_path base_dir resolve_from under_any
    is_relative_to operation_result option get_by get_or_null get iterate any is_truthy contains
    split is_prefix
path_passes = refl

validate_filesystem_path-lem_example :
    (path : String) × (get_by (option "path_arg" (str "path") path_options) path_arguments
      ≡ ok (str path))
    × IsWithinRoots sample_host sample_platform path_options path
    × IsOutsideBlocked sample_host sample_platform path_options path
    × OnlyReads sample_host sample_platform path_options path path_arguments
validate_filesystem_path-lem_example =
    validate_filesystem_path-lem sample_host sample_platform path_arguments path_options path_passes

abbrev email_arguments : Fields
email_arguments = field "to" (str "a@example.org") end

abbrev email_options : Fields
email_options = field "allowed_domains" (texts ("example.org" ∷ [])) end

email_passes :
    is_passed (validate_email sample_host sample_platform email_arguments email_options) ≡ true
unfolding validate_email check_recipients domain_set recipients_error recipient_error parsed_error
    mailbox_error option get_by_or get_or_null get iterate is_truthy contains is_substring
email_passes = refl

validate_email-AreAccepted_example :
    (raw : Value) × (get_by_or
        (option "recipients_arg" (str "to") email_options)
        (list nil)
        email_arguments
      ≡ ok raw)
    × AreAccepted sample_host sample_platform email_arguments email_options (recipients_of raw)
validate_email-AreAccepted_example =
    validate_email-AreAccepted sample_host sample_platform email_arguments email_options
      email_passes

abbrev query : Fields
query = field "sql" (str "SELECT 'it''s' FROM t -- all") end

query_is_masked : sql_code sample_platform "SELECT 'it''s' FROM t -- all" ≡ ok "SELECT   FROM t  "
unfolding sql_code sql_code_from sql_token read_quoted skip_line
query_is_masked = refl

query_passes : is_passed (validate_sql_read_only reading_host sample_platform query end) ≡ true
unfolding validate_sql_read_only first_value check_found check_query check_masked check_code
    sql_code sql_code_from sql_token read_quoted skip_line split_sql_statements split_from keep all
    get_or_null get is_truthy
query_passes = refl

validate_sql_read_only-IsReadingCode_example :
    (q : String) × (code : String) × (first_value query
        (get_or_null "query_arg" end ∷ str "query" ∷ str "sql" ∷ str "statement" ∷ [])
      ≡ ok (str q))
    × (sql_code sample_platform q ≡ ok code)
    × IsReadingCode reading_host sample_platform (sample_platform.strip code)
validate_sql_read_only-IsReadingCode_example =
    validate_sql_read_only-IsReadingCode reading_host sample_platform query end query_passes

sql_code-Ends_example : Ends sample_platform (sql_code sample_platform "SELECT 'it''s' FROM t")
sql_code-Ends_example = sql_code-Ends sample_platform "SELECT 'it''s' FROM t"

abbrev required_id : Fields
required_id =
    field "required" (texts ("user.id" ∷ [])) (field "forbidden" (texts ("admin" ∷ [])) end)

validate_required_forbidden_fields-lem_example :
    is_passed (validate_required_forbidden_fields sample_host url_arguments required_id) ≡ (
      all (is_present sample_host url_arguments) ("user.id" ∷ [])
      && all (is_absent sample_host url_arguments) ("admin" ∷ []))
unfolding option get
validate_required_forbidden_fields-lem_example =
    validate_required_forbidden_fields-lem sample_host url_arguments required_id ("user.id" ∷ [])
      ("admin" ∷ []) refl refl

-- the engine on the validators of basic.py
abbrev known_validators : List ValidatorConfig
known_validators =
    record { name = "url"; options = end }
    ∷ record { name = "required_forbidden_fields"; options = required_id }
    ∷ []

validate_iff_example :
    ((validate
        (basic_validators sample_host sample_platform "bad pattern")
        sample_host
        known_validators
        (record sample_context { arguments = url_arguments })).passed
      ≡ true)
    ↔ All
        (IsClean
          (basic_validators sample_host sample_platform "bad pattern")
          sample_host
          (record sample_context { arguments = url_arguments }))
        known_validators
validate_iff_example =
    validate_iff (basic_validators sample_host sample_platform "bad pattern") sample_host
      (record sample_context { arguments = url_arguments }) known_validators

missing_field_fails :
    (validate
      (basic_validators sample_host sample_platform "bad pattern")
      sample_host
      known_validators
      (record sample_context { arguments = url_arguments })).errors
    ≡ "required field missing: user.id" ∷ []
unfolding validate validator_errors errors_of run_validator dispatch_validator with_base_dir
    basic_validators validate_url with_text check_url check_parsed fail_or url_parse_error
    url_host_error allowed_error url_dns_error is_internal_address is_private_ip normalize_ip
    number_ip dotted_ip read_int option get_by get_or_null get as_set iterate all any py_eq
    is_truthy contains split validate_required_forbidden_fields check_presence first_field report
    get_path_value get_argument
missing_field_fails = refl
