-- ===== src/Tests/CoreTests.antt =====
-- core/pipeline.py at concrete inputs.
use mcp_zero_trust_layer.Base.{
  if◌then◌else◌, first, pos, ℕ, suc, String, ◌≡◌, refl, Bool, true, false, none, some, List, [],
  ◌∷◌,
}
use mcp_zero_trust_layer.Value.{Value, null, int, str, dict, end, field, get_or_null, ok}
use mcp_zero_trust_layer.Samples.{sample_host, sample_basic, sample_config}
use mcp_zero_trust_layer.Protocol.Envelope.{success_response}
use mcp_zero_trust_layer.Config.{ServerConfig}
use mcp_zero_trust_layer.Approvals.Store.{empty_disk}
use mcp_zero_trust_layer.Core.Action.{
  Event, sent, World, goes_well, os_error, Environment, Gateway, pure,
}
use mcp_zero_trust_layer.Core.Handlers.{handle, pipeline_runs}
use mcp_zero_trust_layer.Core.Safety.Justified.{IsSound}
use mcp_zero_trust_layer.Core.Safety.Handling.{handle-IsSound}
use mcp_zero_trust_layer.Core.Dispatch.{uses_evidence}

abbrev sample_server : ServerConfig
sample_server = record {
  name = "files";
  transport = "http";
  upstream = some "http://127.0.0.1:9000";
  upstream_headers = [];
  command = [];
  env = [];
  max_response_bytes = pos 1000000;
  evidence = record {
    mode = "off";
    issuer = "";
    destination = "";
    tenant = "";
    scope = "";
    key_id = "";
    private_key_file = "";
    trust_store = "";
    store = "";
    ttl_seconds = pos 60;
  };
}

-- An upstream server that answers every request with an empty result; no write fails.
abbrev sample_environment : Environment
sample_environment = record {
  send = λ trace server message headers.
      ok (some (success_response (get_or_null "id" message) (dict end)));
  now = λ trace. pos 5;
  fresh_id = λ trace. "1";
  audit_write = λ trace event. goes_well;
  webhook_failure = λ trace event. none;
  dump_server = λ on server. str server.name;
  dump_policies = λ policies. null;
  dump_policy_engine = λ engine. null;
}

abbrev sample_gateway : Gateway
sample_gateway = record {
  host = sample_host;
  env = sample_environment;
  basic = sample_basic;
  config = record sample_config { servers = sample_server ∷ [] };
  metrics = false;
  with_evidence = λ server message identity headers. pure none;
}

-- A call of a tool.
abbrev call_of : String → Value
call_of name = dict (
    field "jsonrpc" (str "2.0") (
      field "id" (int (pos 1)) (
        field "method" (str "tools/call") (
          field "params" (dict (field "name" (str name) (field "arguments" (dict end) end))) end))))

abbrev start : World
start = record { disk = empty_disk; trace = [] }

abbrev is_sent : Event → Bool
is_sent (sent _ _ _) = true
is_sent _ = false

-- how many calls of the upstream server a trace has
abbrev calls_in : List Event → ℕ
calls_in [] = 0
calls_in (event ∷ earlier) = if is_sent event then suc (calls_in earlier) else calls_in earlier

-- The allowed tool is called, the denied one is not.
allowed_is_sent :
    calls_in (handle sample_gateway "files" (call_of "read") none none start).1.trace ≡ 1
unfolding pipeline_runs success_response
allowed_is_sent = refl

denied_is_not_sent :
    calls_in (handle sample_gateway "files" (call_of "delete") none none start).1.trace ≡ 0
unfolding pipeline_runs
denied_is_not_sent = refl

-- A disk of the audit log that is full: the call is made without `audit.strict`, and not with it.
abbrev full_gateway : Bool → Gateway
full_gateway strict = record sample_gateway {
  env = record sample_environment { audit_write = λ trace event. os_error };
  config = record sample_config {
    servers = sample_server ∷ [];
    audit = record sample_config.audit { destination = "file"; strict = strict };
  };
}

full_disk :
    (calls_in (handle (full_gateway false) "files" (call_of "read") none none start).1.trace ≡ 1)
    × (calls_in (handle (full_gateway true) "files" (call_of "read") none none start).1.trace ≡ 0)
unfolding pipeline_runs success_response
full_disk = (refl, refl)

handle-IsSound_example :
    IsSound sample_gateway (handle sample_gateway "files" (call_of "read") none none start).1
unfolding uses_evidence first
handle-IsSound_example =
    handle-IsSound sample_gateway "files" (call_of "read") none none start refl (tt, tt)
