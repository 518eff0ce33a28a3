-- ===== src/Approvals/SqliteStore.antt =====
-- approvals/store.py, the backend "sqlite": the table `approvals` as its rows in the order of
-- insertion. A statement runs in a transaction that an exception rolls back.
use mcp_zero_trust_layer.Base.{
  if◌then◌else◌, ◌==◌, nat_eq, string_eq, option_eq, ℤ, int_eq, bool_eq, String, Bool, true, false,
  not, Option, none, some, List, [], ◌∷◌, ◌++◌,
}
use mcp_zero_trust_layer.Value.{key_error, value_error, foreign, Outcome, ok, raise}
use mcp_zero_trust_layer.Host.{Host}
use mcp_zero_trust_layer.Config.{CapabilityType, capability_type_eq, RequestContext}
use mcp_zero_trust_layer.Approvals.Model.{
  Status, consumed, ApprovalRequest, valid_transition, with_status, is_valid,
}

pub record Row : Type 0 where
  pub id : String
  pub status : Status
  pub server : String
  pub capability : Option String
  pub capability_type : CapabilityType
  pub policy_id : String
  pub identity_subject : String
  pub client_id : Option String
  pub agent_id : Option String
  pub arguments_hash : String
  pub created_at : ℤ
  pub expires_at : Option ℤ
  pub payload : ApprovalRequest

-- `_sqlite_row_values`
unfoldable pub row_values : ApprovalRequest → Row
row_values a = record {
  id = a.id;
  status = a.status;
  server = a.server;
  capability = a.capability;
  capability_type = a.capability_type;
  policy_id = a.policy_id;
  identity_subject = a.identity_subject;
  client_id = a.client_id;
  agent_id = a.agent_id;
  arguments_hash = a.arguments_hash;
  created_at = a.created_at;
  expires_at = a.expires_at;
  payload = a;
}

-- `SELECT payload FROM approvals WHERE id = ?`
unfoldable pub select_payload : String → List Row → Option ApprovalRequest
select_payload id [] = none
select_payload id (row ∷ rows) = if row.id == id then some row.payload else select_payload id rows

-- `UPDATE approvals SET status = ?, payload = ? WHERE id = ?`
unfoldable pub update_row : String → ApprovalRequest → List Row → List Row
update_row id a [] = []
update_row id a (row ∷ rows) =
    (if row.id == id then record row { status = a.status; payload = a } else row)
    ∷ update_row id a rows

-- `INSERT`, where `id` is the primary key
unfoldable pub sqlite_insert : ApprovalRequest → List Row → Outcome (Unit {0}) × List Row
unfolding row_values select_payload
sqlite_insert a rows = elim (select_payload a.id rows) [
  | none ↦ (ok tt, rows ++ row_values a ∷ [])
  | some _ ↦ (raise (foreign "IntegrityError"), rows)
]

unfoldable pub sqlite_get : String → List Row → Option ApprovalRequest
unfolding select_payload
sqlite_get id rows = select_payload id rows

unfoldable pub sqlite_set_status :
    ℤ
    → String
    → Status
    → Option String
    → Option String
    → List Row
    → Outcome ApprovalRequest × List Row
unfolding select_payload valid_transition with_status update_row
sqlite_set_status now id status decided_by comment rows = elim (select_payload id rows) [
  | none ↦ (raise (key_error id), rows)
  | some existing ↦
      if not (valid_transition existing.status status)
      then (raise (value_error "invalid approval transition"), rows)
      else let updated = with_status now existing status decided_by comment in
        (ok updated, update_row id updated rows)
]

-- `consume_in_transaction`, and `_sqlite_consume_if_valid` around it
unfoldable pub consume_in_transaction :
    Host → ℤ → String → RequestContext → String → List Row → Bool × List Row
unfolding select_payload is_valid with_status update_row
consume_in_transaction host now id context policy_id rows = elim (select_payload id rows) [
  | none ↦ (false, rows)
  | some approval ↦
      if not (is_valid host now approval context policy_id)
      then (false, rows)
      else (true, update_row id (with_status now approval consumed approval.decided_by none) rows)
]
