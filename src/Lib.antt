-- ===== src/Lib.antt =====
-- A model of the gateway of MCP Zero Trust Layer (src/mcp_zero_trust_layer/). The gateway stands
-- between clients and MCP servers: each JSON-RPC message is validated, turned into a request
-- context, decided on by the policy engine, perhaps held for an approval, logged, sent to the
-- upstream server, and the answer is filtered or redacted.
--
-- Files and code, paths below src/mcp_zero_trust_layer/:
-- - Base, Value: numbers, lists, texts and dicts; the JSON values, and results that may be an
--   exception. A dict is an association list in insertion order. A Python exception is a value
--   of the type Raised, and code that may raise returns an Outcome.
-- - Host: the functions of Python's standard library that the code relies on (fnmatchcase, re,
--   json.dumps, sha256, httpx), as a record that the definitions take as an argument. Nothing is
--   assumed of them.
-- - Config: config/models.py (records and model validators), core/context.py, identity/models.py
--   and policy/models.py.
-- - Policy: policy/engine.py (Matching, Select, Engine), policy/conditions.py (Conditions),
--   policy/adapters.py (Adapter), capabilities/mapping.py, and the coverage and risks of
--   policy/analysis.py (Analysis).
-- - Validators: validators/input_policy.py, validators/engine.py and, in Basic, validators/basic.py,
--   which All assembles into the interface that the engine takes. Platform has what basic.py
--   takes from pathlib, ipaddress, urllib, the resolver and the parser of addresses.
-- - Approvals: approvals/models.py and approvals/store.py. A disk holds the JSON file of the
--   backend "file" and the rows of the backend "sqlite"; an operation is one step, as its lock or
--   its transaction makes it. Times are microseconds. Store/Cells is the contract: the store as a
--   function from ids to optional approvals.
-- - Audit: audit/logger.py (Redaction; Logger with the events, the writes and the check of the hash
--   chain) and audit/search.py. A line of the log is the JSON value it holds, or a blank or broken
--   line. A write of the file may fail before, in or after its line, and so may the read of the last
--   event.
-- - Identity: identity/auth.py (Auth: tokens and claims; Resolver: the modes) and config/secrets.py
--   (Secrets).
-- - Metrics: observability/metrics.py.
-- - Evidence: evidence/canonical.py (Canonical) and evidence/store.py (Tables: rows and reservations;
--   Store: receipts, observations, delivery). Each operation is one transaction on the tables;
--   Store/Keeps is the interface for properties that all calls keep.
-- - Protocol: protocol/jsonrpc.py. Output: output/enforcer.py. Capabilities:
--   capabilities/filtering.py.
-- - Core: core/pipeline.py. An action takes a world (the disk of approvals and the trace of what
--   was done, newest first) to an outcome and a new world, which an exception keeps. The upstream
--   server, the clock, fresh ids, and failures of the audit log and of the webhook are an
--   environment whose answers may depend on the whole trace. The trace also has each operation on
--   the approval store. Core/Safety is about the calls of the upstream server: Justified has the
--   claim, Rules one lemma for each way to build an action, Calls, Paths and Handling the code.
-- - Transports: transports/http/sessions.py. The registry of sessions and what it tells the
--   upstream client.
-- - Samples, Tests: concrete inputs.
--
-- Recursion is structural, over values, lists, texts and dicts. Only the loop of _sql_code has fuel,
-- one more than the characters of the query: each round reads one at least. Integers are
-- unbounded, as in Python. The JSON values have no floating-point numbers.
--
-- Not modelled: the command line, the transports and upstream clients (I/O); the rest of
-- the evidence protocol, and with it what core/pipeline.py does for servers whose evidence is on:
-- handle_checked passes their messages to a parameter, so that the branches on evidence in
-- _handle_approval_required and _send_and_enforce_output are left out of the handlers;
-- the unused policies of the analysis; capability discovery and onboarding; the file locks of
-- the audit log; the field constraints that pydantic checks.
pub mod Base
pub mod Value
pub mod Host
pub mod Config
pub mod Validators
pub mod Policy
pub mod Audit
pub mod Metrics
pub mod Evidence
pub mod Identity
pub mod Approvals
pub mod Protocol
pub mod Output
pub mod Capabilities
pub mod Core
pub mod Transports
pub mod Samples
pub mod Tests
