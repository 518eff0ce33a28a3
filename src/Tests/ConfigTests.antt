-- ===== src/Tests/ConfigTests.antt =====
-- config/models.py at a concrete configuration.
use mcp_zero_trust_layer.Base.{◌≡◌, ◌↔◌, none}
use mcp_zero_trust_layer.Samples.{sample_config}
use mcp_zero_trust_layer.Config.Validation.{validate_config}
use mcp_zero_trust_layer.Config.Validation.Laws.{IsAdmissible, validate_config_iff}

validate_config_iff_example : (validate_config sample_config ≡ none) ↔ IsAdmissible sample_config
validate_config_iff_example = validate_config_iff sample_config
