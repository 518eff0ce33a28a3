-- ===== src/Tests/EvidenceTests.antt =====
-- evidence/store.py at a concrete store.
use mcp_zero_trust_layer.Base.{
  nat_eq, string_eq, option_eq, keep, pos, int_eq, bool_eq, ℕ, String, ◌≡◌, refl, true, false, some,
  List, [], ◌∷◌, arith,
}
use mcp_zero_trust_layer.Value.{
  Value, int, str, dict, Fields, end, field, get, get_or_null, py_eq, value_error, foreign, ok,
  raise,
}
use mcp_zero_trust_layer.Config.{capability_type_eq}
use mcp_zero_trust_layer.Evidence.Tables.{Operation, Database, EvidenceLibraries, item, phase_event}
use mcp_zero_trust_layer.Evidence.Store.{is_terminal, observations_of}
use mcp_zero_trust_layer.Evidence.Store.Keeps.{Call, recording, flushing, perform_all}
use mcp_zero_trust_layer.Evidence.Store.Receipts.{Equals, receipt_of, terminal_receipt_stays}
use mcp_zero_trust_layer.Evidence.Store.Rows.{rows_of}
use mcp_zero_trust_layer.Evidence.Store.Bounds.{IsBounded, perform_all-IsBounded}

abbrev sample_evidence : EvidenceLibraries
sample_evidence = record {
  digests = record { jcs = λ v. ok "json"; sha256 = λ s. s };
  text_column = λ v. elim v [ str s ↦ ok s | _ ↦ raise (foreign "IntegrityError") ];
  parse_observation = λ v. raise (value_error "invalid");
  observation_digest = λ v. ok "digest";
}

abbrev empty_store : Database ℕ
empty_store = record { operations = []; events = []; observations = []; approvals = 0 }

abbrev authorization : Value
authorization = dict (field "operation_id" (str "op1") (field "tenant" (str "t1") end))

abbrev sample_bundle : Fields
sample_bundle =
    field "permit" (dict (field "authorization" (dict (field "payload" authorization end)) end)) end

abbrev receipt_with : String → Fields
receipt_with effect =
    field "payload" (dict (field "effect" (str effect) (field "sequence" (int (pos 1)) end))) end

abbrev f1 : String
f1 = "f1"

abbrev f2 : String
f2 = "f2"

abbrev calls_between : List (Call ℕ)
calls_between =
    recording "e2" "e3" "op1" "t1" end (some (receipt_with "committed"))
    ∷ flushing (λ event. ok tt)
    ∷ []

abbrev settled_operation : Operation
settled_operation = record {
  operation_id = "op1";
  tenant = "t1";
  scope = "s1";
  fingerprint = "f1";
  bundle = field "receipt" (dict (receipt_with "committed")) end;
}

abbrev settled_store : Database ℕ
settled_store = record {
  operations = settled_operation ∷ [];
  events =
      record {
        event_id = "e1";
        event_operation = "op1";
        payload = phase_event "receipt_conflict";
        delivered = false;
      }
      ∷ [];
  observations = [];
  approvals = 0;
}

abbrev later_receipts : List (Call ℕ)
later_receipts =
    recording "e2" "e3" "op1" "t1" end (some (receipt_with "failed"))
    ∷ recording "e4" "e5" "op1" "t1" end (some (receipt_with "committed"))
    ∷ []

settled_is_terminal : is_terminal (receipt_of settled_operation) ≡ ok true
unfolding is_terminal item get_or_null get py_eq
settled_is_terminal = refl

settled_is_alone : rows_of "op1" settled_store.operations ≡ settled_operation ∷ []
unfolding keep
settled_is_alone = refl

terminal_receipt_stays_example :
    (p : Operation) × (rows_of "op1"
        (perform_all sample_evidence later_receipts settled_store).operations
      ≡ p ∷ [])
    × (is_terminal (receipt_of p) ≡ ok true)
    × Equals (receipt_of settled_operation) (receipt_of p)
terminal_receipt_stays_example =
    terminal_receipt_stays sample_evidence "op1" settled_store settled_operation later_receipts
      settled_is_alone settled_is_terminal

no_observations-IsBounded : IsBounded sample_evidence settled_store
unfolding observations_of keep
no_observations-IsBounded id = omega arith

perform_all-IsBounded_example :
    IsBounded sample_evidence (perform_all sample_evidence later_receipts settled_store)
perform_all-IsBounded_example =
    perform_all-IsBounded sample_evidence later_receipts settled_store no_observations-IsBounded
