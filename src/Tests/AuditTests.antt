-- ===== src/Tests/AuditTests.antt =====
-- audit/logger.py and audit/search.py at a concrete log.
use mcp_zero_trust_layer.Base.{
  if◌then◌else◌, ◌==◌, nat_eq, string_eq, option_eq, length, pos, int_eq, bool_eq, ◌+ℤ◌, String,
  ◌≡◌, refl, inr, Bool, true, false, none, some, List, [], ◌∷◌, map, eq_iff,
}
use mcp_zero_trust_layer.Value.{
  null, int, str, dict, Fields, end, field, get, get_or_null, has, put, without, py_eq, ok,
}
use mcp_zero_trust_layer.Host.{Host}
use mcp_zero_trust_layer.Config.{capability_type_eq, AuditConfig}
use mcp_zero_trust_layer.Samples.{sample_host}
use mcp_zero_trust_layer.Audit.Logger.{
  Line, blank, holds, AuditState, last_line, last_event, previous_chain_state, Trouble, fine,
  fails_before, torn, unread, seen, after_line, passed, digest, event_hash, with_hash, next_line,
  write_file, write, event_failure, verify_from, verify_audit_hash_chain,
}
use mcp_zero_trust_layer.Audit.Logger.Writes.{
  printed_lines, write_all, empty_log, write_all-verifies,
}
use mcp_zero_trust_layer.Audit.Logger.Tamper.{body, events_of, NoCollision, verify_from-same}
use mcp_zero_trust_layer.Audit.Search.{
  Filters, iter_audit_events, field_matches, approval_matches, time_matches, event_matches,
  collect_matches, search_audit_events,
}

-- a host whose canonical form tells the numbers of the events apart
abbrev chain_host : Host
chain_host = record sample_host {
  canonical_dumps = λ v. elim v [
    | dict fs ↦ if py_eq (get_or_null "sequence" fs) (int (pos 1)) then "first" else "later"
    | _ ↦ "value"
  ];
}

abbrev log_config : AuditConfig
log_config = record {
  destination = "file";
  path = "audit.jsonl";
  strict = true;
  hash_chain = true;
  hmac_key = none;
  hmac_key_env = none;
}

abbrev two_events : List (Trouble × Fields)
two_events =
    (fine, field "event_type" (str "approval") end)
    ∷ (fails_before, field "event_type" (str "lost") end)
    ∷ (fine, field "event_type" (str "policy_decision") end)
    ∷ []

abbrev no_hmac : String → String → String
no_hmac key payload = payload

abbrev chained : AuditState
chained = write_all chain_host no_hmac none log_config two_events empty_log

two_lines : length chained.lines ≡ 2
unfolding write_all write write_file after_line seen next_line with_hash previous_chain_state
    last_event last_line put event_hash digest get_or_null get py_eq ◌+ℤ◌
two_lines = refl

write_all-verifies_example :
    ((verify_audit_hash_chain chain_host no_hmac none (inr chained.lines)).0 ≡ true)
    × ((verify_audit_hash_chain chain_host no_hmac none (inr (printed_lines chained.printed))).0
        ≡ true)
write_all-verifies_example =
    write_all-verifies chain_host no_hmac none log_config two_events refl refl

-- A failed read of the last event starts the chain again, and a line cut short is no JSON: then
-- the check fails.
abbrev after_trouble : Trouble → Bool
after_trouble t =
    (verify_audit_hash_chain chain_host no_hmac none (
      inr
        (write_all chain_host no_hmac none log_config
          ((fine, field "event_type" (str "approval") end)
            ∷ (t, field "event_type" (str "policy_decision") end)
            ∷ [])
          empty_log).lines)).0

unread_fails : (after_trouble (unread fine) ≡ false) × (after_trouble torn ≡ false)
unfolding write_all write write_file after_line seen next_line with_hash previous_chain_state
    last_event last_line put event_hash digest get_or_null get py_eq ◌+ℤ◌ verify_audit_hash_chain
    verify_from event_failure without has
unread_fails = (refl, refl)

abbrev first_event : Fields
first_event =
    field "sequence" (int (pos 1))
      (field "previous_event_hash" null (field "event_hash" (str "hash of first") end))

abbrev second_event : Fields
second_event = field "sequence" (int (pos 2)) (
    field "previous_event_hash" (str "hash of first")
      (field "event_hash" (str "hash of later") end))

abbrev two_line_log : List Line
two_line_log = holds (dict first_event) ∷ holds (dict second_event) ∷ []

two_line_log-passes :
    verify_from chain_host no_hmac none 1 none 0 two_line_log ≡ passed (some "hash of later") 2
unfolding verify_from event_failure event_hash digest without has get_or_null get py_eq
two_line_log-passes = refl

-- two texts that a test tells apart
apart : {A : Type 0} (s t : String) → (s == t) ≡ false → s ≡ t → A
apart s t differ same = let equal = (eq_iff s t).1 same in cc

two_line_log-NoCollision :
    NoCollision chain_host no_hmac none (events_of two_line_log) (events_of two_line_log)
unfolding event_hash digest without get_or_null get py_eq
two_line_log-NoCollision = (
  (λ h. refl, (apart "hash of first" "hash of later" refl, tt)),
  ((apart "hash of later" "hash of first" refl, (λ h. refl, tt)), tt),
)

verify_from-same_example : map body (events_of two_line_log) ≡ map body (events_of two_line_log)
verify_from-same_example =
    verify_from-same chain_host no_hmac none two_line_log two_line_log (some "hash of later") 2 2
      two_line_log-NoCollision two_line_log-passes two_line_log-passes

abbrev of_approvals : Filters
of_approvals = record {
  event_type = some "approval";
  server = none;
  decision = none;
  policy_id = none;
  correlation_id = none;
  approval_id = none;
  since = none;
  until = none;
}

abbrev approval_line : Fields
approval_line = field "event_type" (str "approval") end

abbrev mixed_log : List Line
mixed_log =
    holds (dict (field "event_type" (str "policy_decision") end))
    ∷ blank
    ∷ holds (dict approval_line)
    ∷ holds (dict approval_line)
    ∷ []

-- The search of the example finds the first of the two approvals.
first_approval_is_found :
    search_audit_events (λ s. none) of_approvals (pos 1) mixed_log ≡ ok (approval_line ∷ [])
unfolding search_audit_events iter_audit_events event_matches time_matches field_matches
    approval_matches collect_matches get_or_null get py_eq
first_approval_is_found = refl
