-- ===== src/Approvals/Store/Refinement.antt =====
-- approvals/store.py: both backends implement the contract of Cells.
use mcp_zero_trust_layer.Base.{
  if◌then◌else◌, Bool-cases, ◌==◌, nat_eq, string_eq, option_eq, ℤ, int_eq, bool_eq, String, ◌≡◌,
  refl, sym, ap, ◌∙◌, inl, inr, true, false, Option, none, some, arith,
}
use mcp_zero_trust_layer.Value.{ok, >>=-eq-ok, ok-injective, Outcome-cases}
use mcp_zero_trust_layer.Host.{Host}
use mcp_zero_trust_layer.Policy.Adapter.{require_opt_str}
use mcp_zero_trust_layer.Config.{capability_type_eq, ApprovalsConfig, RequestContext}
use mcp_zero_trust_layer.Approvals.Model.{
  Status, status_eq, ApprovalRequest, binding_of, new_request,
}
use mcp_zero_trust_layer.Approvals.SqliteStore.{select_payload, sqlite_get}
use mcp_zero_trust_layer.Approvals.Store.{
  Disk, on_sqlite, store_request, create, get_approval, set_status, consume_if_valid,
}
use mcp_zero_trust_layer.Approvals.Store.Cells.{
  cell_status, reply_status, reply_consume, cell_consume,
}
use mcp_zero_trust_layer.Approvals.Store.Writes.{
  file_get-insert, select-insert, sqlite_insert-fresh, select-insert_other,
}
use mcp_zero_trust_layer.Approvals.Store.Transitions.{file_status-refines, sqlite_status-refines}
use mcp_zero_trust_layer.Approvals.Store.Consumption.{file_consume-refines, sqlite_consume-refines}
use mathlib.Core.Path.{subst}

-- With either backend, `set_status` returns or raises what the contract says of the cell of its id,
-- moves that cell as the contract says, and leaves every other cell.
pub set_status-refines :
    (host : Host) (config : ApprovalsConfig) (now : ℤ) (id : String) (status : Status)
    (decided_by comment : Option String) (disk : Disk)
    → ((set_status host config now id status decided_by comment disk).0
        ≡ reply_status now id status decided_by comment (get_approval host config id disk))
      × ((j : String)
          → get_approval host config j
              (set_status host config now id status decided_by comment disk).1
            ≡ (if id == j
                then cell_status now status decided_by comment (get_approval host config j disk)
                else get_approval host config j disk))
unfolding set_status get_approval
set_status-refines host config now id status decided_by comment disk =
    elim (Bool-cases (on_sqlite host config)) [
      | inl sqlite ↦ rw sqlite (sqlite_status-refines now id status decided_by comment disk.table)
      | inr file ↦ rw file (file_status-refines now id status decided_by comment disk.file)
    ]

-- With either backend, `consume_if_valid` returns what the contract says of the cell of its id,
-- moves that cell as the contract says, and leaves every other cell.
pub consume_if_valid-refines :
    (host : Host) (config : ApprovalsConfig) (now : ℤ) (id : String) (context : RequestContext)
    (policy_id : String) (disk : Disk)
    → ((consume_if_valid host config now id context policy_id disk).0
        ≡ reply_consume host now context policy_id (get_approval host config id disk))
      × ((j : String)
          → get_approval host config j
              (consume_if_valid host config now id context policy_id disk).1
            ≡ (if id == j
                then cell_consume host now context policy_id (get_approval host config j disk)
                else get_approval host config j disk))
unfolding consume_if_valid get_approval
consume_if_valid-refines host config now id context policy_id disk =
    elim (Bool-cases (on_sqlite host config)) [
      | inl sqlite ↦ rw sqlite (sqlite_consume-refines host now id context policy_id disk.table)
      | inr file ↦ rw file (file_consume-refines host now id context policy_id disk.file)
    ]

of_sqlite :
    (host : Host) (config : ApprovalsConfig) (id : String) (disk : Disk)
    → on_sqlite host config ≡ true
    → get_approval host config id disk ≡ none
    → select_payload id disk.table ≡ none
unfolding get_approval sqlite_get
of_sqlite host config id disk sqlite fresh = ground arith

-- With either backend, storing a request under an id that is not in use succeeds, fills the cell
-- of that id with the request and leaves every other cell.
pub store_request-refines :
    (host : Host) (config : ApprovalsConfig) (request : ApprovalRequest) (disk : Disk)
    → get_approval host config request.id disk ≡ none
    → ((store_request host config request disk).0 ≡ ok request)
      × ((j : String)
          → get_approval host config j (store_request host config request disk).1
            ≡ (if request.id == j then some request else get_approval host config j disk))
unfolding store_request get_approval
store_request-refines host config request disk fresh = elim (Bool-cases (on_sqlite host config)) [
  | inl sqlite ↦
      let unused : select_payload request.id disk.table ≡ none =
        of_sqlite host config request.id disk sqlite fresh in
      rw sqlite (
        rw (sqlite_insert-fresh request disk.table unused)
          (refl, select-insert request disk.table unused))
  | inr file ↦ rw file (refl, λ j. file_get-insert request.id j request disk.file)
]

store_request-other :
    (host : Host) (config : ApprovalsConfig) (request : ApprovalRequest) (disk : Disk) (j : String)
    → (request.id == j) ≡ false
    → get_approval host config j (store_request host config request disk).1
      ≡ get_approval host config j disk
unfolding store_request get_approval
store_request-other host config request disk j h = elim (Bool-cases (on_sqlite host config)) [
  | inl sqlite ↦ rw sqlite (select-insert_other request disk.table j h)
  | inr file ↦ rw file (file_get-insert request.id j request disk.file ∙ rw h)
]

new_request-id :
    (host : Host) (id : String) (now ttl : ℤ) (context : RequestContext) (policy_id : String)
    {r : ApprovalRequest}
    → new_request host id now ttl context policy_id ≡ ok r
    → r.id ≡ id
unfolding new_request
new_request-id host id now ttl context policy_id h =
    let (binding, _, made) = >>=-eq-ok (require_opt_str (binding_of context)) _ h in
    sym (ap (λ (x : ApprovalRequest). x.id) (ok-injective made))

-- `create` leaves the cells of the other ids, whether it succeeds or raises.
pub create-other :
    (host : Host) (config : ApprovalsConfig) (id : String) (now : ℤ) (context : RequestContext)
    (policy_id : String) (disk : Disk) (j : String)
    → (id == j) ≡ false
    → get_approval host config j (create host config id now context policy_id disk).1
      ≡ get_approval host config j disk
unfolding create
create-other host config id now context policy_id disk j h =
    elim (Outcome-cases (new_request host id now config.default_ttl_seconds context policy_id)) [
      | inl (r, made) ↦
          rw (made, create)
            (store_request-other host config r disk j (
              subst (λ k. (k == j) ≡ false)
                (sym (new_request-id host id now config.default_ttl_seconds context policy_id made))
                h))
      | inr (e, failed) ↦ rw (failed, create)
    ]
