-- ===== src/Tests/ApprovalTests.antt =====
-- approvals/store.py at concrete inputs.
use mcp_zero_trust_layer.Base.{
  if◌then◌else◌, ◌==◌, nat_eq, string_eq, option_eq, pos, int_eq, bool_eq, String, ◌≡◌, refl, true,
  false, none, some, List, [], ◌∷◌,
}
use mcp_zero_trust_layer.Value.{ok}
use mcp_zero_trust_layer.Samples.{
  sample_host, sample_approvals, sample_context, sample_approval, sample_disk,
}
use mcp_zero_trust_layer.Config.{capability_type_eq}
use mcp_zero_trust_layer.Approvals.Model.{denied, status_eq, ApprovalRequest, is_valid}
use mcp_zero_trust_layer.Approvals.Evolution.{Evolves}
use mcp_zero_trust_layer.Approvals.FileStore.{load, file_get, file_consume_if_valid}
use mcp_zero_trust_layer.Approvals.Store.{
  empty_disk, store_request, get_approval, set_status, consume_if_valid,
}
use mcp_zero_trust_layer.Approvals.Store.Cells.{
  cell_status, reply_status, reply_consume, cell_consume,
}
use mcp_zero_trust_layer.Approvals.Store.Refinement.{
  set_status-refines, consume_if_valid-refines, store_request-refines,
}
use mcp_zero_trust_layer.Approvals.Store.Lifecycle.{
  Call, creation, decision, consumption, perform_all, perform_all-Evolves, consume_once,
}

sample_consumed :
    (consume_if_valid sample_host sample_approvals
      (pos 5)
      "appr_1"
      sample_context
      "ask"
      sample_disk).0
    ≡ true
unfolding consume_if_valid file_consume_if_valid is_valid load
sample_consumed = refl

sample_held : get_approval sample_host sample_approvals "appr_1" sample_disk ≡ some sample_approval
unfolding get_approval file_get load
sample_held = refl

sample_fresh : get_approval sample_host sample_approvals "appr_1" empty_disk ≡ none
unfolding get_approval file_get load
sample_fresh = refl

-- The approval is used, an operator denies it, and another request is stored.
abbrev sample_calls : List Call
sample_calls =
    consumption (pos 5) "appr_1" sample_context "ask"
    ∷ decision (pos 6) "appr_1" denied (some "admin") none
    ∷ creation "appr_2" (pos 7) sample_context "ask"
    ∷ []

perform_all-Evolves_example :
    (b : ApprovalRequest) × (get_approval sample_host sample_approvals "appr_1"
        (perform_all sample_host sample_approvals sample_calls sample_disk)
      ≡ some b)
    × Evolves sample_approval b
perform_all-Evolves_example =
    perform_all-Evolves sample_host sample_approvals sample_calls "appr_1" sample_disk
      sample_approval (tt, (tt, (refl, tt))) sample_held

consume_once_example :
    (consume_if_valid sample_host sample_approvals (pos 9) "appr_1" sample_context "ask" (
      perform_all sample_host sample_approvals sample_calls
        (consume_if_valid sample_host sample_approvals
          (pos 5)
          "appr_1"
          sample_context
          "ask"
          sample_disk).1)).0
    ≡ false
consume_once_example =
    consume_once sample_host sample_approvals (pos 5) "appr_1" sample_context "ask" sample_disk
      sample_calls (pos 9) sample_context "ask" sample_consumed (tt, (tt, (refl, tt)))

set_status-refines_example :
    ((set_status sample_host sample_approvals
        (pos 6)
        "appr_1"
        denied
        (some "admin")
        none
        sample_disk).0
      ≡ reply_status
          (pos 6)
          "appr_1"
          denied
          (some "admin")
          none
          (get_approval sample_host sample_approvals "appr_1" sample_disk))
    × ((j : String)
        → get_approval sample_host sample_approvals j
            (set_status sample_host sample_approvals
              (pos 6)
              "appr_1"
              denied
              (some "admin")
              none
              sample_disk).1
          ≡ (if "appr_1" == j
              then cell_status
                  (pos 6)
                  denied
                  (some "admin")
                  none
                  (get_approval sample_host sample_approvals j sample_disk)
              else get_approval sample_host sample_approvals j sample_disk))
set_status-refines_example =
    set_status-refines sample_host sample_approvals (pos 6) "appr_1" denied (some "admin") none
      sample_disk

consume_if_valid-refines_example :
    ((consume_if_valid sample_host sample_approvals
        (pos 5)
        "appr_1"
        sample_context
        "ask"
        sample_disk).0
      ≡ reply_consume sample_host
          (pos 5)
          sample_context
          "ask"
          (get_approval sample_host sample_approvals "appr_1" sample_disk))
    × ((j : String)
        → get_approval sample_host sample_approvals j
            (consume_if_valid sample_host sample_approvals
              (pos 5)
              "appr_1"
              sample_context
              "ask"
              sample_disk).1
          ≡ (if "appr_1" == j
              then cell_consume sample_host
                  (pos 5)
                  sample_context
                  "ask"
                  (get_approval sample_host sample_approvals j sample_disk)
              else get_approval sample_host sample_approvals j sample_disk))
consume_if_valid-refines_example =
    consume_if_valid-refines sample_host sample_approvals (pos 5) "appr_1" sample_context "ask"
      sample_disk

store_request-refines_example :
    ((store_request sample_host sample_approvals sample_approval empty_disk).0 ≡ ok sample_approval)
    × ((j : String)
        → get_approval sample_host sample_approvals j
            (store_request sample_host sample_approvals sample_approval empty_disk).1
          ≡ (if "appr_1" == j
              then some sample_approval
              else get_approval sample_host sample_approvals j empty_disk))
store_request-refines_example =
    store_request-refines sample_host sample_approvals sample_approval empty_disk sample_fresh
