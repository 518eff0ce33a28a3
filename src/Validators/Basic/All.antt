-- ===== src/Validators/Basic/All.antt =====
-- The validators of validators/basic.py, as the interface of the validator engine.
use mcp_zero_trust_layer.Base.{String}
use mcp_zero_trust_layer.Host.{Host}
use mcp_zero_trust_layer.Validators.Platform.{Platform}
use mcp_zero_trust_layer.Validators.Engine.{BasicValidators}
use mcp_zero_trust_layer.Validators.Basic.ReadOnly.{validate_sql_read_only}
use mcp_zero_trust_layer.Validators.Basic.Paths.{validate_filesystem_path}
use mcp_zero_trust_layer.Validators.Basic.Url.{validate_url}
use mcp_zero_trust_layer.Validators.Basic.Email.{validate_email}
use mcp_zero_trust_layer.Validators.Basic.Fields.{
  validate_regex, validate_required_forbidden_fields, validate_max_field_bytes,
}

-- `reason` is the text that `re.error` gives for a bad pattern
unfoldable pub basic_validators : Host → Platform → String → BasicValidators
basic_validators host platform reason = record {
  sql_read_only = validate_sql_read_only host platform;
  filesystem_path = validate_filesystem_path host platform;
  url = validate_url platform host;
  email = validate_email host platform;
  regex = validate_regex host reason;
  required_forbidden_fields = validate_required_forbidden_fields host;
  max_field_bytes = validate_max_field_bytes host;
}
