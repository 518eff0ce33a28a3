-- ===== src/Core/Handlers.antt =====
-- core/pipeline.py: `handle` and the handlers that it chooses from.
use mcp_zero_trust_layer.Base.{
  if◌then◌else◌, ◌==◌, nat_eq, string_eq, option_eq, contains, is_empty, first, int_eq, bool_eq,
  String, false, not, ◌&&◌, ◌||◌, Option, none, some,
}
use mcp_zero_trust_layer.Value.{
  Value, null, list, dict, Fields, field, get, get_or_null, has, put, without, json_rpc, Outcome,
  ok, raise, and_then,
}
use mcp_zero_trust_layer.Config.{
  allow, CapabilityType, capability_type_eq, ServerConfig, Identity, anonymous, RequestContext,
  PolicyDecision, plain_decision,
}
use mcp_zero_trust_layer.Policy.Engine.{evaluate, engine_runs}
use mcp_zero_trust_layer.Capabilities.Filtering.{filter_capabilities}
use mcp_zero_trust_layer.Protocol.Envelope.{
  invalid_request, is_notification, is_response, error_response, require_jsonrpc_message,
}
use mcp_zero_trust_layer.Approvals.Model.{status_eq}
use mcp_zero_trust_layer.Core.Action.{
  Headers, Action, Gateway, ◌>>=◌, ◌>>◌, pure, throw, lift, attempt, after_write, write_audit, emit,
  on_disk, on_disk_raising, ask,
}
use mcp_zero_trust_layer.Core.Messages.{
  extract_approval_id, strip_approval_id, call_shape, list_shape, safe_notification_methods,
  described, method_of, request_binding, context_for_message,
}
use mcp_zero_trust_layer.Core.Responses.{
  is_some, is_implicit, denies, wants_approval, upstream_no_response,
  tool_validation_error_response, deny_response,
}
use mcp_zero_trust_layer.Core.Dispatch.{
  find_server, uses_evidence, policy_by_id, log_decision, call_upstream, dispatch,
}
use mcp_zero_trust_layer.Core.Enforcement.{
  policy_of, rewrite_response, blocks_output, apply_output_decision, enforce_payload,
  enforce_output, send_and_enforce_output,
}
use mcp_zero_trust_layer.Core.Approval.{
  approval_needed_response, create_approval_response, try_consume, handle_approval_required,
}
use mcp_zero_trust_layer.Policy.Adapter.{effect_name}
use mcp_zero_trust_layer.Output.Enforcer.{enforce}
use mcp_zero_trust_layer.Approvals.Store.{create, consume_if_valid}

module _ (g : Gateway) where
  unfoldable pub handle_call_request :
      ServerConfig → Fields → Headers → RequestContext → PolicyDecision → Value → Action Fields
  handle_call_request server message headers context d request_id =
      if denies d
      then (log_decision g context d (some false) none
          >> pure (
              if method_of message == "tools/call" && not (is_empty d.validation_errors)
              then tool_validation_error_response request_id d.validation_errors
              else deny_response request_id d))
      else if wants_approval d
      then handle_approval_required g server message headers context d request_id
      else send_and_enforce_output g server message headers context d request_id

  -- `_filter_list_response`, on the list of a well-shaped response
  unfoldable pub filter_list_response :
      String → CapabilityType → String → Fields → Identity → Outcome Fields
  filter_list_response server_name kind key response identity = elim (get "result" response) [
    | some (dict result) ↦ elim (get_or_null key result) [
      | list raw_items ↦
          and_then
            (filter_capabilities g.host g.basic g.config server_name kind identity
              g.config.project.environment raw_items)
            λ filtered. ok (put "result" (dict (put key (list filtered) result)) response)
      | _ ↦ ok response
    ]
    | _ ↦ ok response
  ]

  unfoldable pub handle_list_request :
      ServerConfig
      → Fields
      → Identity
      → Headers
      → RequestContext
      → PolicyDecision
      → Value
      → CapabilityType
      → String
      → Action Fields
  handle_list_request server message identity headers context d request_id kind key =
      if denies d && not (is_implicit d)
      then (log_decision g context d (some false) none >> pure (deny_response request_id d))
      else (dispatch g server message headers context d >>= λ reply. elim reply [
        | none ↦ pure (upstream_no_response request_id)
        | some response ↦
            if g.config.runtime.dry_run
            then pure response
            else lift (filter_list_response server.name kind key response identity)
      ])

  -- `upstream_response or ...`: an empty response counts as none
  unfoldable pub handle_other_request :
      ServerConfig → Fields → Headers → RequestContext → PolicyDecision → Value → Action Fields
  handle_other_request server message headers context d request_id =
      if denies d
      then (log_decision g context d (some false) none >> pure (deny_response request_id d))
      else (dispatch g server message headers context d >>= λ reply. pure (elim reply [
        | some (field k v rest) ↦ field k v rest
        | _ ↦ upstream_no_response request_id
      ]))

  -- `_handle_request` behind the decision
  unfoldable pub handle_decided :
      ServerConfig
      → Fields
      → Identity
      → Headers
      → RequestContext
      → PolicyDecision
      → Value
      → Action Fields
  handle_decided server message identity headers context d request_id =
      if wants_approval d && not (is_some (call_shape (method_of message)))
      then (log_decision g context d (some false) none >> pure (deny_response request_id d))
      else elim (list_shape (method_of message)) [
        | some (kind, key) ↦
            handle_list_request server message identity headers context d request_id kind key
        | none ↦
            if is_some (call_shape (method_of message))
            then handle_call_request server message headers context d request_id
            else handle_other_request server message headers context d request_id
      ]

  unfoldable pub handle_request : ServerConfig → Fields → Identity → Headers → Action Fields
  handle_request server message identity headers = do
    context ← context_for_message g.host g.env g.config server message identity
    d ← lift (evaluate g.host g.basic g.config context)
    handle_decided server message identity headers context d (get_or_null "id" message)

  -- `_handle_notification` behind the decision
  unfoldable pub notify_decided :
      ServerConfig → Fields → Headers → RequestContext → PolicyDecision → Action (Unit {0})
  notify_decided server message headers context d =
      if denies d || wants_approval d
      then log_decision g context d (some false) none
      else (dispatch g server message headers context d >>= λ _. pure tt)

  unfoldable pub handle_notification :
      ServerConfig → Fields → Identity → Headers → Action (Unit {0})
  handle_notification server message identity headers = do
    context ← context_for_message g.host g.env g.config server message identity
    (if contains safe_notification_methods (method_of message)
        then (dispatch g server message headers context
              (plain_decision allow "client protocol notification")
            >>= λ _. pure tt)
        else (lift (evaluate g.host g.basic g.config context) >>= λ d.
            notify_decided server message headers context d))

  -- The `try` part of `handle`; the answer to a notification is `none`. A server with evidence has
  -- a path of its own, a parameter here.
  unfoldable pub handle_checked : String → Value → Identity → Headers → Action (Option Fields)
  handle_checked server_name message identity headers = do
    fs ← lift (require_jsonrpc_message message)
    server ← lift (find_server g server_name)
    (if uses_evidence g server_name
        then g.with_evidence server fs identity headers
        else if is_response fs
        then throw (json_rpc invalid_request "Unsolicited responses are not supported" none)
        else if is_notification fs
        then (handle_notification server fs identity headers >>= λ _. pure none)
        else (handle_request server fs identity headers >>= λ response. pure (some response)))

  -- `message.get("id") if isinstance(message, dict) else None`
  abbrev pub id_of : Value → Value
  id_of (dict fs) = get_or_null "id" fs
  id_of _ = null

  -- `except JSONRPCError`; any other exception goes on to the caller
  unfoldable pub answer_error : Value → Outcome (Option Fields) → Outcome (Option Fields)
  answer_error request_id (raise (json_rpc code message extra)) =
      ok (some (error_response request_id code message extra))
  answer_error request_id r = r

  unfoldable pub handle : String → Value → Option Identity → Headers → Action (Option Fields)
  handle server_name message identity headers w =
      let who : Identity = elim identity [
        | none ↦ anonymous (some g.config.project.environment)
        | some i ↦ i
      ] in
      let (r, w') = handle_checked server_name message who headers w in
      (answer_error (id_of message) r, w')

-- Whoever unfolds this runs the pipeline.
unfoldable pub pipeline_runs : Unit {0}
unfolding engine_runs uses_evidence after_write write_audit find_server policy_by_id log_decision
    call_upstream dispatch policy_of rewrite_response blocks_output apply_output_decision
    enforce_payload enforce_output send_and_enforce_output approval_needed_response
    create_approval_response try_consume handle_approval_required handle_call_request
    filter_list_response handle_list_request handle_other_request handle_decided handle_request
    notify_decided handle_notification handle_checked answer_error handle context_for_message
    request_binding ◌>>=◌ pure throw lift attempt emit on_disk on_disk_raising ask
    extract_approval_id strip_approval_id described call_shape list_shape get_or_null get has put
    without first error_response deny_response upstream_no_response tool_validation_error_response
    require_jsonrpc_message is_response is_notification filter_capabilities enforce create
    consume_if_valid contains effect_name
pipeline_runs = tt
