-- ===== src/Tests/MessageTests.antt =====
-- protocol/jsonrpc.py, output/enforcer.py and capabilities/filtering.py at concrete inputs.
use mcp_zero_trust_layer.Base.{
  nat_eq, string_eq, option_eq, contains, pos, int_eq, bool_eq, String, ◌≡◌, refl, ◌↔◌, true, none,
  some, [], ◌∷◌,
}
use mcp_zero_trust_layer.Value.{
  Value, int, str, list, dict, nil, cons, Fields, end, field, py_eq, ok,
}
use mcp_zero_trust_layer.Samples.{sample_host, sample_basic, sample_policy, sample_config}
use mcp_zero_trust_layer.Config.{
  redact, tool, capability_type_eq, OutputPolicy, PolicyConfig, anonymous,
}
use mcp_zero_trust_layer.Protocol.Envelope.{
  is_request, is_notification, is_response, require_jsonrpc_message,
}
use mcp_zero_trust_layer.Protocol.Envelope.Classes.{ExactlyOne, require_jsonrpc_message-ExactlyOne}
use mcp_zero_trust_layer.Output.Enforcer.{
  redact_fields, sub_patterns, redact_patterns, rewrite_output, enforce,
}
use mcp_zero_trust_layer.Output.Enforcer.Redacted.{IsMasked, masked_text, enforce-IsMasked}
use mcp_zero_trust_layer.Policy.Engine.{engine_runs}
use mcp_zero_trust_layer.Capabilities.Filtering.{filter_capabilities}
use mcp_zero_trust_layer.Capabilities.Filtering.Visible.{
  of_tools, IsVisiblePart, filter_capabilities_iff,
}

abbrev ping : Fields
ping = field "jsonrpc" (str "2.0") (field "id" (int (pos 7)) (field "method" (str "ping") end))

ping-accepted : require_jsonrpc_message (dict ping) ≡ ok ping
unfolding require_jsonrpc_message py_eq
ping-accepted = refl

require_jsonrpc_message-ExactlyOne_example :
    (dict ping ≡ dict ping) × ExactlyOne (is_request ping) (is_notification ping) (is_response ping)
require_jsonrpc_message-ExactlyOne_example =
    require_jsonrpc_message-ExactlyOne (dict ping) ping ping-accepted

abbrev masking : OutputPolicy
masking = record {
  redact_fields = "token" ∷ [];
  redact_patterns = "secret" ∷ [];
  deny_if_matches = [];
  max_bytes = none;
  include_fields = [];
}

abbrev masking_policy : PolicyConfig
masking_policy = record (sample_policy "masking" redact "*") { output = some masking }

-- An account with a token, once at the top and once in a list.
abbrev account : Value → Value → Value
account token note = dict (
    field "token" token
      (field "notes" (list (cons (dict (field "token" token (field "text" note end))) nil)) end))

account-enforced :
    enforce sample_host (account (str "abc") (str "secret")) masking_policy
    ≡ ok (true, account (str "[REDACTED]") (str "[REDACTED]"), none)
unfolding enforce rewrite_output redact_fields redact_patterns contains sub_patterns
account-enforced = refl

enforce-IsMasked_example :
    IsMasked
      ("token" ∷ [])
      (masked_text sample_host ("token" ∷ []) ("secret" ∷ []))
      (account (str "[REDACTED]") (str "[REDACTED]"))
enforce-IsMasked_example =
    enforce-IsMasked sample_host (account (str "abc") (str "secret")) masking_policy masking
      (account (str "[REDACTED]") (str "[REDACTED]")) none refl account-enforced

abbrev tool_of : String → Value
tool_of name = dict (field "name" (str name) end)

filter_capabilities_iff_example :
    (filter_capabilities sample_host sample_basic sample_config "files" tool
        (anonymous none)
        "development"
        (cons (tool_of "read") (cons (tool_of "delete") nil))
      ≡ ok (cons (tool_of "read") nil))
    ↔ IsVisiblePart sample_host sample_basic sample_config "files" tool
        (anonymous none)
        "development"
        "tools/list"
        "name"
        (cons (tool_of "read") (cons (tool_of "delete") nil))
        (cons (tool_of "read") nil)
filter_capabilities_iff_example =
    filter_capabilities_iff sample_host sample_basic sample_config "files" tool (anonymous none)
      "development" "tools/list" "name" (cons (tool_of "read") (cons (tool_of "delete") nil))
      (cons (tool_of "read") nil) of_tools refl

-- The left side of the example holds.
delete_is_hidden :
    filter_capabilities sample_host sample_basic sample_config "files" tool
      (anonymous none)
      "development"
      (cons (tool_of "read") (cons (tool_of "delete") nil))
    ≡ ok (cons (tool_of "read") nil)
unfolding filter_capabilities engine_runs
delete_is_hidden = refl
