-- ===== src/Approvals/Store.antt =====
-- approvals/store.py, `ApprovalStore`: each operation on the backend that is configured.
pub mod Cells
pub mod Writes
pub mod Transitions
pub mod Consumption
pub mod Refinement
pub mod Lifecycle
use mcp_zero_trust_layer.Base.{
  if◌then◌else◌, ◌==◌, nat_eq, string_eq, option_eq, ℤ, int_eq, bool_eq, String, Bool, false,
  Option, none, some, List, [],
}
use mcp_zero_trust_layer.Value.{Outcome, ok, raise, ◌>>=◌}
use mcp_zero_trust_layer.Host.{Host}
use mcp_zero_trust_layer.Config.{capability_type_eq, ApprovalsConfig, RequestContext}
use mcp_zero_trust_layer.Approvals.Model.{Status, ApprovalRequest, is_valid, new_request}
use mcp_zero_trust_layer.Approvals.FileStore.{
  ApprovalFile, file_create, file_get, file_set_status, file_consume_if_valid,
}
use mcp_zero_trust_layer.Approvals.SqliteStore.{
  Row, sqlite_insert, sqlite_get, sqlite_set_status, consume_in_transaction,
}

-- Both backends; the one that is not configured is never touched.
pub record Disk : Type 0 where
  pub file : ApprovalFile
  pub table : List Row

abbrev pub empty_disk : Disk
empty_disk = record { file = none; table = [] }

abbrev put_file {ℓ} : {A : Type ℓ} → Disk → A × ApprovalFile → A × Disk
put_file disk (a, file) = (a, record disk { file = file })

abbrev put_table {ℓ} : {A : Type ℓ} → Disk → A × List Row → A × Disk
put_table disk (a, table) = (a, record disk { table = table })

module _ (host : Host) (config : ApprovalsConfig) where
  abbrev pub on_sqlite : Bool
  on_sqlite = config.backend == "sqlite"

  -- `create`, once the request is made
  unfoldable pub store_request : ApprovalRequest → Disk → Outcome ApprovalRequest × Disk
  unfolding sqlite_insert file_create
  store_request request disk =
      if on_sqlite
      then (let (r, table) = sqlite_insert request disk.table in
          (r >>= λ _. ok request, record disk { table = table }))
      else (ok request, record disk { file = file_create request disk.file })

  unfoldable pub create :
      String → ℤ → RequestContext → String → Disk → Outcome ApprovalRequest × Disk
  unfolding new_request store_request
  create id now context policy_id disk =
      elim (new_request host id now config.default_ttl_seconds context policy_id) [
        | raise e ↦ (raise e, disk)
        | ok request ↦ store_request request disk
      ]

  unfoldable pub get_approval : String → Disk → Option ApprovalRequest
  unfolding sqlite_get file_get
  get_approval id disk = if on_sqlite then sqlite_get id disk.table else file_get id disk.file

  unfoldable pub set_status :
      ℤ → String → Status → Option String → Option String → Disk → Outcome ApprovalRequest × Disk
  unfolding sqlite_set_status file_set_status
  set_status now id status decided_by comment disk =
      if on_sqlite
      then put_table disk (sqlite_set_status now id status decided_by comment disk.table)
      else put_file disk (file_set_status now id status decided_by comment disk.file)

  unfoldable pub is_valid_for : ℤ → String → RequestContext → String → Disk → Bool
  unfolding get_approval is_valid
  is_valid_for now id context policy_id disk = elim (get_approval id disk) [
    | none ↦ false
    | some approval ↦ is_valid host now approval context policy_id
  ]

  unfoldable pub consume_if_valid : ℤ → String → RequestContext → String → Disk → Bool × Disk
  unfolding consume_in_transaction file_consume_if_valid
  consume_if_valid now id context policy_id disk =
      if on_sqlite
      then put_table disk (consume_in_transaction host now id context policy_id disk.table)
      else put_file disk (file_consume_if_valid host now id context policy_id disk.file)
