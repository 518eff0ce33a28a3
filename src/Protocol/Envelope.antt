-- ===== src/Protocol/Envelope.antt =====
-- protocol/jsonrpc.py: messages, their classes and their validation.
pub mod Classes
use mcp_zero_trust_layer.Base.{
  if◌then◌else◌, ◌==◌, truthy, nat_eq, string_eq, option_eq, ℤ, negsuc, int_eq, bool_eq, String,
  Bool, true, false, not, ◌&&◌, ◌||◌, Option, none, some, [], ◌∷◌,
}
use mcp_zero_trust_layer.Base.Dict.{Dict}
use mcp_zero_trust_layer.Value.{
  Value, int, str, dict, Fields, end, field, items, get, get_or_null, has, put, py_eq, Raised,
  json_rpc, foreign, Outcome, ok, raise, ◌>>=◌, ◌>>◌,
}

-- The codes of the errors.
abbrev pub invalid_request : ℤ
invalid_request = negsuc 32599

abbrev pub unknown_server : ℤ
unknown_server = negsuc 32003

abbrev pub denied_by_policy : ℤ
denied_by_policy = negsuc 32000

abbrev pub approval_needed : ℤ
approval_needed = negsuc 32009

abbrev pub output_blocked : ℤ
output_blocked = negsuc 32019

abbrev pub internal_error : ℤ
internal_error = negsuc 32602

unfoldable pub is_request : Fields → Bool
unfolding has
is_request message = has "method" message && has "id" message

unfoldable pub is_notification : Fields → Bool
unfolding has
is_notification message = has "method" message && not (has "id" message)

unfoldable pub is_response : Fields → Bool
unfolding has
is_response message =
    not (has "method" message) && (has "id" message && has "result" message || has "error" message)

unfoldable pub success_response : Value → Value → Fields
success_response request_id result =
    field "jsonrpc" (str "2.0") (field "id" request_id (field "result" result end))

-- `data` is `none` where the source leaves it out or gives `None`.
unfoldable pub error_response : Value → ℤ → String → Option Value → Fields
error_response request_id code message extra = field "jsonrpc" (str "2.0") (
    field "id" request_id (
      field "error"
        (dict (
          field "code" (int code) (
            field "message" (str message)
              (elim extra [ none ↦ end | some v ↦ field "data" v end ]))))
        end))

-- `invalid(reason)`
abbrev pub invalid : String → Raised
invalid reason =
    json_rpc invalid_request "Invalid Request" (some (dict (field "reason" (str reason) end)))

abbrev pub demand : Bool → String → Outcome (Unit {0})
demand b reason = if b then ok tt else raise (invalid reason)

-- `type(v) in (str, int)`, which leaves out `bool`
abbrev pub is_id : Value → Bool
is_id (str _) = true
is_id (int _) = true
is_id _ = false

abbrev pub is_text : Value → Bool
is_text (str _) = true
is_text _ = false

abbrev pub is_int : Value → Bool
is_int (int _) = true
is_int _ = false

abbrev pub is_dict : Value → Bool
is_dict (dict _) = true
is_dict _ = false

-- `isinstance(v, str) and v`
abbrev pub is_given_text : Value → Bool
is_given_text (str s) = truthy s
is_given_text _ = false

-- A test on the value of a key, which holds where the key is absent.
abbrev pub if_has : String → (Value → Bool) → Fields → Bool
if_has key test message = elim (get key message) [ none ↦ true | some v ↦ test v ]

-- the test of a response's `error`
abbrev pub is_error_object : Value → Bool
is_error_object (dict e) = is_int (get_or_null "code" e) && is_text (get_or_null "message" e)
is_error_object _ = false

abbrev pub error_reason : Value → String
error_reason (dict e) = "error requires an integer code and a string message"
error_reason _ = "error must be an object"

unfoldable pub check_call : Fields → Outcome (Unit {0})
unfolding get has
check_call message = do
  demand (if_has "method" is_given_text message) "method must be a non-empty string"
  demand (not (has "result" message || has "error" message))
      "requests and notifications must not contain result or error"
  demand (if_has "params" is_dict message) "MCP params must be an object"

unfoldable pub check_reply : Fields → Outcome (Unit {0})
unfolding get has get_or_null
check_reply message = do
  demand (not (has "result" message && not (has "id" message))) "result responses require an id"
  demand (not (has "result" message == has "error" message))
      "responses require exactly one of result or error"
  demand (not (has "params" message)) "responses must not contain params"
  demand (if_has "result" is_dict message) "MCP result must be an object"
  demand (if_has "error" is_error_object message) (error_reason (get_or_null "error" message))

unfoldable pub check_fields : Fields → Outcome (Unit {0})
unfolding get has get_or_null check_call check_reply
check_fields message = do
  demand (py_eq (get_or_null "jsonrpc" message) (str "2.0")) "jsonrpc must be '2.0'"
  demand (if_has "id" is_id message) "id must be a non-null string or integer"
  (if has "method" message then check_call message else check_reply message)

unfoldable pub require_jsonrpc_message : Value → Outcome Fields
unfolding check_fields
require_jsonrpc_message (dict message) = check_fields message >>= λ _. ok message
require_jsonrpc_message _ = raise (invalid "message must be an object")

-- the hook `pairs` of `strict_json_loads`, from the entry on, with the keys that came before
unfoldable pub pairs_from : Fields → Dict String Value → Outcome Fields
unfolding has put
pairs_from value [] = ok value
pairs_from value ((key, child) ∷ rest) =
    let more = pairs_from (put key child value) rest in
    if has key value then raise (foreign "JSONDecodeError") else more

unfoldable pub pairs : Dict String Value → Outcome Fields
unfolding pairs_from
pairs items = pairs_from end items
