-- ===== src/Approvals/Store/Transitions.antt =====
-- approvals/store.py: `set_status` of each backend, against the contract.
use mcp_zero_trust_layer.Base.{
  Bool-cases, Option-cases, nat_eq, string_eq, option_eq, ℤ, int_eq, bool_eq, String, ◌≡◌, refl,
  inl, inr, Option, some, List,
}
use mcp_zero_trust_layer.Base.Dict.{insert}
use mcp_zero_trust_layer.Config.{capability_type_eq}
use mcp_zero_trust_layer.Approvals.Model.{Status, ApprovalRequest, valid_transition, with_status}
use mcp_zero_trust_layer.Approvals.FileStore.{ApprovalFile, load, file_get, file_set_status}
use mcp_zero_trust_layer.Approvals.SqliteStore.{Row, select_payload, update_row, sqlite_set_status}
use mcp_zero_trust_layer.Approvals.Store.Cells.{cell_status, reply_status}
use mcp_zero_trust_layer.Approvals.Store.Writes.{
  file_get-insert, select-update, Moves, keeps, writes,
}

module _ (now : ℤ) (id : String) (status : Status) (decided_by comment : Option String) where
  abbrev pub cell_of : Option ApprovalRequest → Option ApprovalRequest
  cell_of = cell_status now status decided_by comment

  abbrev pub updated_of : ApprovalRequest → ApprovalRequest
  updated_of a = with_status now a status decided_by comment

  pub file_status-refines :
      (f : ApprovalFile)
      → ((file_set_status now id status decided_by comment f).0
          ≡ reply_status now id status decided_by comment (file_get id f))
        × Moves cell_of id
            (λ j. file_get j f)
            (λ j. file_get j (file_set_status now id status decided_by comment f).1)
  unfolding file_set_status
  file_status-refines f = elim (Option-cases (file_get id f)) [
    | inl missing ↦
        rw (missing, file_set_status) (refl, keeps cell_of id (λ j. file_get j f) (rw missing))
    | inr (a, found) ↦ elim (Bool-cases (valid_transition a.status status)) [
      | inl valid ↦
          rw (found, file_set_status)
            (rw valid (
              refl,
              writes cell_of id (λ j. file_get j f)
                  (λ j. file_get j (some (insert id (updated_of a) (load f)))) (updated_of a)
                  (λ j. file_get-insert id j (updated_of a) f) (rw found (rw valid)),
            ))
      | inr invalid ↦
          rw (found, file_set_status)
            (rw invalid (refl, keeps cell_of id (λ j. file_get j f) (rw found (rw invalid))))
    ]
  ]

  pub sqlite_status-refines :
      (rows : List Row)
      → ((sqlite_set_status now id status decided_by comment rows).0
          ≡ reply_status now id status decided_by comment (select_payload id rows))
        × Moves cell_of id
            (λ j. select_payload j rows)
            (λ j. select_payload j (sqlite_set_status now id status decided_by comment rows).1)
  unfolding sqlite_set_status
  sqlite_status-refines rows = elim (Option-cases (select_payload id rows)) [
    | inl missing ↦
        rw (missing, sqlite_set_status)
          (refl, keeps cell_of id (λ j. select_payload j rows) (rw missing))
    | inr (a, found) ↦ elim (Bool-cases (valid_transition a.status status)) [
      | inl valid ↦
          rw (found, sqlite_set_status)
            (rw valid (
              refl,
              writes cell_of id (λ j. select_payload j rows)
                  (λ j. select_payload j (update_row id (updated_of a) rows)) (updated_of a)
                  (λ j. select-update id j (updated_of a) a rows found) (rw found (rw valid)),
            ))
      | inr invalid ↦
          rw (found, sqlite_set_status)
            (rw invalid
              (refl, keeps cell_of id (λ j. select_payload j rows) (rw found (rw invalid))))
    ]
  ]
