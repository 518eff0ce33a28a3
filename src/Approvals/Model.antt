-- ===== src/Approvals/Model.antt =====
-- approvals/models.py, and the functions of approvals/store.py that both backends share. A time is
-- a number of microseconds; the clock and the fresh id of a request are arguments.
use mcp_zero_trust_layer.Base.{
  if◌then◌else◌, Eq, ◌==◌, nat_eq, string_eq, option_eq, ℤ, pos, ltb_ℤ, int_eq, bool_eq, ◌+ℤ◌, ◌*ℤ◌,
  String, ◌≡◌, ◌↔◌, Bool, true, false, not, ◌&&◌, ◌||◌, Option, none, some, arith,
}
use mcp_zero_trust_layer.Value.{Value, dict, Fields, get_or_null, py_eq, Outcome, ok, ◌>>=◌}
use mcp_zero_trust_layer.Host.{Host}
use mcp_zero_trust_layer.Config.{CapabilityType, capability_type_eq, opt_value, RequestContext}
use mcp_zero_trust_layer.Policy.Adapter.{require_opt_str}
use mcp_zero_trust_layer.Audit.Redaction.{redact_sensitive, redact_entries}

pub data Status : Type 0 where
  pending approved denied expired consumed : Status

abbrev pub status_beq : Status → Status → Bool
status_beq pending pending = true
status_beq approved approved = true
status_beq denied denied = true
status_beq expired expired = true
status_beq consumed consumed = true
status_beq _ _ = false

pub status_beq_iff : (a b : Status) → (status_beq a b ≡ true) ↔ (a ≡ b)
status_beq_iff a b = ground arith

instance abbrev pub status_eq : Eq Status
status_eq = record { beq = status_beq; beq_iff = status_beq_iff; truthy = λ _. true }

pub record ApprovalRequest : Type 0 where
  pub id : String
  pub status : Status
  pub server : String
  pub method : Option String
  pub capability : Option String
  pub capability_type : CapabilityType
  pub policy_id : String
  pub identity_subject : String
  pub client_id : Option String
  pub agent_id : Option String
  pub request_binding : Option String
  pub arguments_hash : String
  pub arguments_redacted : Fields
  pub created_at : ℤ
  pub expires_at : Option ℤ
  pub consumed_at : Option ℤ
  pub decided_at : Option ℤ
  pub decided_by : Option String
  pub decision_comment : Option String

-- `ApprovalRequest.is_active`, at the time `now`
unfoldable pub is_active : ℤ → ApprovalRequest → Bool
is_active now a =
    if not (a.status == approved)
    then false
    else elim a.expires_at [ none ↦ true | some t ↦ ltb_ℤ now t ]

-- `_ALLOWED_TRANSITIONS`
unfoldable pub allowed_transition : Status → Status → Bool
allowed_transition pending approved = true
allowed_transition pending denied = true
allowed_transition pending expired = true
allowed_transition approved consumed = true
allowed_transition approved expired = true
allowed_transition _ _ = false

-- `_assert_valid_transition` does not raise
unfoldable pub valid_transition : Status → Status → Bool
unfolding allowed_transition
valid_transition current new = new == current || allowed_transition current new

-- `_with_status`
unfoldable pub with_status :
    ℤ → ApprovalRequest → Status → Option String → Option String → ApprovalRequest
with_status now approval status decided_by decision_comment =
    if status == approval.status
    then approval
    else if status == consumed
    then record approval { status = status; consumed_at = some now }
    else record approval {
      status = status;
      decided_at = some now;
      decided_by = decided_by;
      decision_comment = decision_comment;
    }

-- `context.metadata.get("request_binding")`
abbrev pub binding_of : RequestContext → Value
binding_of context = get_or_null "request_binding" context.metadata

module _ (host : Host) where
  unfoldable pub hash_arguments : Fields → String
  hash_arguments arguments = host.sha256 (host.canonical_dumps (dict arguments))

  -- the ten comparisons of `_is_valid`
  unfoldable pub binds : ApprovalRequest → RequestContext → String → Bool
  unfolding hash_arguments py_eq get_or_null
  binds a context policy_id =
      a.policy_id == policy_id
      && a.server == context.server
      && a.method == some context.method
      && a.capability == context.capability
      && a.capability_type == context.capability_type
      && a.identity_subject == context.identity.subject
      && a.client_id == context.identity.client_id
      && a.agent_id == context.identity.agent_id
      && a.arguments_hash == hash_arguments context.arguments
      && py_eq (opt_value a.request_binding) (binding_of context)

  -- `_is_valid` of an approval that is there
  unfoldable pub is_valid : ℤ → ApprovalRequest → RequestContext → String → Bool
  unfolding is_active binds
  is_valid now a context policy_id = is_active now a && binds a context policy_id

  -- `_new_request`; the binding must be a text or `None`
  unfoldable pub new_request : String → ℤ → ℤ → RequestContext → String → Outcome ApprovalRequest
  unfolding hash_arguments redact_sensitive get_or_null
  new_request id now ttl context policy_id = do
    binding ← require_opt_str (binding_of context)
    ok (record {
      id = id;
      status = pending;
      server = context.server;
      method = some context.method;
      capability = context.capability;
      capability_type = context.capability_type;
      policy_id = policy_id;
      identity_subject = context.identity.subject;
      client_id = context.identity.client_id;
      agent_id = context.identity.agent_id;
      request_binding = binding;
      arguments_hash = hash_arguments context.arguments;
      arguments_redacted = redact_entries host context.arguments;
      created_at = now;
      expires_at = some (now +ℤ pos 1000000 *ℤ ttl);
      consumed_at = none;
      decided_at = none;
      decided_by = none;
      decision_comment = none;
    })
