-- ===== src/Audit/Search.antt =====
-- audit/search.py: reading the audit log with filters. A time is a whole number; `fromisoformat` is
-- an argument, where `none` is a `ValueError`.
pub mod Window
pub mod Meaning
pub mod Failures
pub mod Results
use mcp_zero_trust_layer.Base.{
  ℤ, pos, negsuc, ltb_ℤ, ℕ, zero, suc, String, Bool, true, false, not, ◌&&◌, Option, none, some,
  List, [], ◌∷◌,
}
use mcp_zero_trust_layer.Value.{
  str, dict, Fields, get_or_null, py_eq, value_error, Outcome, ok, raise, ◌>>=◌, ◌>>◌,
}
use mcp_zero_trust_layer.Audit.Logger.{Line, blank, spaces, broken, holds}

pub record Filters : Type 0 where
  pub event_type : Option String
  pub server : Option String
  pub decision : Option String
  pub policy_id : Option String
  pub correlation_id : Option String
  pub approval_id : Option String
  pub since : Option ℤ
  pub until : Option ℤ

-- `iter_audit_events`, from line `number` on; empty lines and lines of spaces are skipped. A file that does not exist
-- has no lines.
unfoldable pub iter_audit_events : ℕ → List Line → Outcome (List Fields)
iter_audit_events number [] = ok []
iter_audit_events number (line ∷ lines) =
    let rest = iter_audit_events (suc number) lines in
    elim line [
      | blank ↦ rest
      | spaces ↦ rest
      | broken ↦ raise (value_error "invalid JSON")
      | holds (dict e) ↦ rest >>= λ events. ok (e ∷ events)
      | holds _ ↦ raise (value_error "audit event must be a JSON object")
    ]

-- `_field_matches`
unfoldable pub field_matches : Fields → String → Option String → Bool
unfolding get_or_null py_eq
field_matches event key none = true
field_matches event key (some expected) = py_eq (get_or_null key event) (str expected)

-- `_approval_matches`
unfoldable pub approval_matches : Fields → Option String → Bool
unfolding get_or_null py_eq
approval_matches event none = true
approval_matches event (some id) = elim (get_or_null "approval" event) [
  | dict approval ↦ py_eq (get_or_null "id" approval) (str id)
  | _ ↦ false
]

-- `parsed < since` and `parsed > until` both fail
unfoldable pub in_window : Option ℤ → Option ℤ → ℤ → Bool
in_window since until time =
    (elim since [ none ↦ true | some s ↦ not (ltb_ℤ time s) ])
    && (elim until [ none ↦ true | some u ↦ not (ltb_ℤ u time) ])

module _ (parse_timestamp : String → Option ℤ) where
  -- `_time_matches`
  unfoldable pub time_matches : Fields → Option ℤ → Option ℤ → Outcome Bool
  unfolding get_or_null in_window
  time_matches event none none = ok true
  time_matches event since until = elim (get_or_null "timestamp" event) [
    | str text ↦ elim (parse_timestamp text) [
      | none ↦ raise (value_error "Invalid isoformat string")
      | some time ↦ ok (in_window since until time)
    ]
    | _ ↦ ok false
  ]

  -- `_event_matches`: all checks are made before the first answer counts
  unfoldable pub event_matches : Filters → Fields → Outcome Bool
  unfolding field_matches approval_matches time_matches
  event_matches f event = do
    timely ← time_matches event f.since f.until
    ok (
        field_matches event "event_type" f.event_type
        && field_matches event "server" f.server
        && field_matches event "decision" f.decision
        && field_matches event "policy_id" f.policy_id
        && field_matches event "correlation_id" f.correlation_id
        && approval_matches event f.approval_id
        && timely)

  -- the loop, with `room` more matches to find
  unfoldable pub collect_matches : Filters → ℕ → List Fields → Outcome (List Fields)
  unfolding event_matches
  collect_matches f zero events = ok []
  collect_matches f (suc room) [] = ok []
  collect_matches f (suc room) (event ∷ events) =
      let found = collect_matches f room events in
      let skipped = collect_matches f (suc room) events in
      event_matches f event >>= λ matched. elim matched [
        | true ↦ (found >>= λ rest. ok (event ∷ rest))
        | false ↦ skipped
      ]

  -- `search_audit_events`; a limit that is not positive gives nothing
  unfoldable pub search_audit_events : Filters → ℤ → List Line → Outcome (List Fields)
  unfolding iter_audit_events collect_matches
  search_audit_events f (negsuc _) lines = ok []
  search_audit_events f (pos zero) lines = ok []
  search_audit_events f (pos (suc n)) lines =
      iter_audit_events 1 lines >>= λ events. collect_matches f (suc n) events
