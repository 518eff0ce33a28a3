-- ===== src/Core/Dispatch.antt =====
-- core/pipeline.py: the server of a message, the log of a decision, and the call of the upstream server.
use mcp_zero_trust_layer.Base.{
  if◌then◌else◌, ◌==◌, nat_eq, string_eq, option_eq, first, int_eq, bool_eq, String, Bool, true,
  false, not, ◌&&◌, Option, none, some,
}
use mcp_zero_trust_layer.Value.{
  str, dict, Fields, end, field, get_or_null, json_rpc, Outcome, ok, raise,
}
use mcp_zero_trust_layer.Config.{
  capability_type_eq, PolicyConfig, ServerConfig, RequestContext, PolicyDecision,
}
use mcp_zero_trust_layer.Protocol.Envelope.{unknown_server}
use mcp_zero_trust_layer.Approvals.Model.{status_eq}
use mcp_zero_trust_layer.Core.Action.{
  Headers, audited, counted, sent, Action, Gateway, ◌>>=◌, ◌>>◌, pure, throw, write_audit, emit,
  ask,
}
use mcp_zero_trust_layer.Core.Responses.{is_some}

module _ (g : Gateway) where
  unfoldable pub find_server : String → Outcome ServerConfig
  find_server name = elim (first (λ s. s.name == name) g.config.servers) [
    | none ↦
        raise (
          json_rpc unknown_server "Unknown MCP server"
            (some (dict (field "server" (str name) end))))
    | some server ↦ ok server
  ]

  -- `server_name in self.evidence`: the table has the servers whose evidence is not off.
  unfoldable pub uses_evidence : String → Bool
  uses_evidence name =
      is_some (first (λ s. s.name == name && not (s.evidence.mode == "off")) g.config.servers)

  unfoldable pub policy_by_id : String → Option PolicyConfig
  policy_by_id id = first (λ p. p.id == id) g.config.policies

  -- `self.audit.log_decision` with the approval id of the context
  abbrev pub audit :
      RequestContext → PolicyDecision → Option Bool → Option String → Action (Unit {0})
  audit context d called status =
      write_audit g (audited context d called status (get_or_null "approval_id" context.metadata))

  unfoldable pub log_decision :
      RequestContext → PolicyDecision → Option Bool → Option String → Action (Unit {0})
  log_decision context d called status = do
    audit context d called status
    (if g.metrics then emit (counted context d) else pure tt)

  -- `self.upstream.send`, with the log entry of an exception before it goes on
  unfoldable pub call_upstream :
      ServerConfig → Fields → Headers → RequestContext → PolicyDecision → Action (Option Fields)
  call_upstream server message headers context d = do
    reply ← ask (λ trace. g.env.send trace server message headers)
    emit (sent server message headers)
    elim reply [
      | raise e ↦ (log_decision context d (some true) (some "unknown") >> throw e)
      | ok response ↦ pure response
    ]

  unfoldable pub dispatch :
      ServerConfig → Fields → Headers → RequestContext → PolicyDecision → Action (Option Fields)
  dispatch server message headers context d = do
    audit context d (some false) (some "dispatch_intent")
    response ← call_upstream server message headers context d
    log_decision context d (some true)
        (some (if is_some response then "response_received" else "accepted"))
    pure response
