-- ===== src/Approvals/Store/Consumption.antt =====
-- approvals/store.py: `consume_if_valid` of each backend, against the contract.
use mcp_zero_trust_layer.Base.{
  Bool-cases, Option-cases, nat_eq, string_eq, option_eq, ℤ, int_eq, bool_eq, String, ◌≡◌, refl,
  inl, inr, Option, none, some, List,
}
use mcp_zero_trust_layer.Base.Dict.{insert}
use mcp_zero_trust_layer.Host.{Host}
use mcp_zero_trust_layer.Config.{capability_type_eq, RequestContext}
use mcp_zero_trust_layer.Approvals.Model.{consumed, ApprovalRequest, with_status, is_valid}
use mcp_zero_trust_layer.Approvals.FileStore.{ApprovalFile, load, file_get, file_consume_if_valid}
use mcp_zero_trust_layer.Approvals.SqliteStore.{
  Row, select_payload, update_row, consume_in_transaction,
}
use mcp_zero_trust_layer.Approvals.Store.Cells.{reply_consume, cell_consume}
use mcp_zero_trust_layer.Approvals.Store.Writes.{
  file_get-insert, select-update, Moves, keeps, writes,
}

module _ (host : Host) (now : ℤ) (id : String) (context : RequestContext) (policy_id : String) where
  abbrev pub after_use : Option ApprovalRequest → Option ApprovalRequest
  after_use = cell_consume host now context policy_id

  abbrev pub used : ApprovalRequest → ApprovalRequest
  used a = with_status now a consumed a.decided_by none

  pub file_consume-refines :
      (f : ApprovalFile)
      → ((file_consume_if_valid host now id context policy_id f).0
          ≡ reply_consume host now context policy_id (file_get id f))
        × Moves after_use id
            (λ j. file_get j f)
            (λ j. file_get j (file_consume_if_valid host now id context policy_id f).1)
  unfolding file_consume_if_valid
  file_consume-refines f = elim (Option-cases (file_get id f)) [
    | inl missing ↦
        rw (missing, file_consume_if_valid)
          (refl, keeps after_use id (λ j. file_get j f) (rw missing))
    | inr (a, found) ↦ elim (Bool-cases (is_valid host now a context policy_id)) [
      | inl valid ↦
          rw (found, file_consume_if_valid)
            (rw valid (
              refl,
              writes after_use id (λ j. file_get j f)
                  (λ j. file_get j (some (insert id (used a) (load f)))) (used a)
                  (λ j. file_get-insert id j (used a) f) (rw found (rw valid)),
            ))
      | inr invalid ↦
          rw (found, file_consume_if_valid)
            (rw invalid (refl, keeps after_use id (λ j. file_get j f) (rw found (rw invalid))))
    ]
  ]

  pub sqlite_consume-refines :
      (rows : List Row)
      → ((consume_in_transaction host now id context policy_id rows).0
          ≡ reply_consume host now context policy_id (select_payload id rows))
        × Moves after_use id
            (λ j. select_payload j rows)
            (λ j. select_payload j (consume_in_transaction host now id context policy_id rows).1)
  unfolding consume_in_transaction
  sqlite_consume-refines rows = elim (Option-cases (select_payload id rows)) [
    | inl missing ↦
        rw (missing, consume_in_transaction)
          (refl, keeps after_use id (λ j. select_payload j rows) (rw missing))
    | inr (a, found) ↦ elim (Bool-cases (is_valid host now a context policy_id)) [
      | inl valid ↦
          rw (found, consume_in_transaction)
            (rw valid (
              refl,
              writes after_use id (λ j. select_payload j rows)
                  (λ j. select_payload j (update_row id (used a) rows)) (used a)
                  (λ j. select-update id j (used a) a rows found) (rw found (rw valid)),
            ))
      | inr invalid ↦
          rw (found, consume_in_transaction)
            (rw invalid
              (refl, keeps after_use id (λ j. select_payload j rows) (rw found (rw invalid))))
    ]
  ]
