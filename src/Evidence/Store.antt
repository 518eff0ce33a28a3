-- ===== src/Evidence/Store.antt =====
-- evidence/store.py: reading an operation, its receipts, its observations and the delivery of events.
pub mod Keeps
pub mod Terminal
pub mod Rows
pub mod Reserved
pub mod Receipts
pub mod Bounds
pub mod Delivery
use mcp_zero_trust_layer.Base.{
  leb, if◌then◌else◌, ◌==◌, nat_eq, string_eq, option_eq, length, any, keep, pos, int_eq, bool_eq,
  ℕ, zero, suc, String, Bool, true, false, not, Option, none, some, List, [], ◌∷◌, ◌++◌, map,
}
use mcp_zero_trust_layer.Value.{
  Value, null, int, str, list, dict, Fields, end, field, of_items, get_or_null, put, py_eq, py_lt,
  type_error, value_error, foreign, Outcome, ok, raise, ◌>>=◌, ◌>>◌,
}
use mcp_zero_trust_layer.Config.{capability_type_eq}
use mcp_zero_trust_layer.Evidence.Canonical.{canonical, digest}
use mcp_zero_trust_layer.Evidence.Tables.{
  EventRow, ObservationRow, Database, Observation, EvidenceLibraries, item, find_operation,
  has_conflict, set_bundle, phase_event, commit, append,
}

-- `old["payload"]["effect"] != "pending"`
unfoldable pub is_terminal : Value → Outcome Bool
unfolding item py_eq
is_terminal old = do
  payload ← item "payload" old
  effect ← item "effect" payload
  ok (not (py_eq effect (str "pending")))

-- `receipt["payload"]["sequence"] <= old["payload"]["sequence"]`
unfoldable pub is_stale : Value → Value → Outcome Bool
unfolding item py_lt
is_stale old receipt = do
  payload ← item "payload" receipt
  sequence ← item "sequence" payload
  old_payload ← item "payload" old
  old_sequence ← item "sequence" old_payload
  elim (py_lt old_sequence sequence) [ none ↦ raise type_error | some later ↦ ok (not later) ]

-- the test for a conflict of a receipt with the one that is there
unfoldable pub conflicts : Value → Value → Outcome Bool
unfolding py_eq is_terminal is_stale
conflicts null receipt = ok false
conflicts old receipt =
    if py_eq old receipt
    then ok false
    else (is_terminal old >>= λ terminal. if terminal then ok true else is_stale old receipt)

-- the payloads of the events of an operation, in order
unfoldable pub events_of_operation : String → List EventRow → List Fields
events_of_operation id [] = []
events_of_operation id (row ∷ rows) =
    let rest = events_of_operation id rows in
    if row.event_operation == id then row.payload ∷ rest else rest

-- the observations of an operation, in order
unfoldable pub observations_of : String → List ObservationRow → List ObservationRow
unfolding keep
observations_of id rows = keep (λ row. row.observed_operation == id) rows

-- the hash of the last row
unfoldable pub last_hash : List ObservationRow → Option String
last_hash [] = none
last_hash (row ∷ []) = some row.observation_hash
last_hash (row ∷ next ∷ rows) = last_hash (next ∷ rows)

-- up to `n` of the rows that are not delivered
unfoldable pub undelivered : ℕ → List EventRow → List Fields
undelivered zero rows = []
undelivered (suc n) [] = []
undelivered (suc n) (row ∷ rows) =
    let later = undelivered n rows in
    let same = undelivered (suc n) rows in if row.delivered then same else row.payload ∷ later

-- the rows with these marked as delivered
unfoldable pub mark_delivered : ℕ → List EventRow → List EventRow
mark_delivered zero rows = rows
mark_delivered (suc n) [] = []
mark_delivered (suc n) (row ∷ rows) =
    let later = mark_delivered n rows in
    let same = mark_delivered (suc n) rows in
    if row.delivered then row ∷ same else record row { delivered = true } ∷ later

-- `emit` of each, which stops at the first exception
unfoldable pub emit_all : (Fields → Outcome (Unit {0})) → List Fields → Outcome (Unit {0})
emit_all emit [] = ok tt
emit_all emit (event ∷ events) = emit event >> emit_all emit events

-- the event of an observation
abbrev pub recorded_check : String → Observation → Fields
recorded_check hash parsed =
    field "phase" (str "external_check_recorded")
      (field "observation_digest" (str hash) (field "result" (str parsed.result) end))

module _ {D : Type 0} where
  -- `get`
  unfoldable pub get_bundle : String → String → Database D → Outcome Fields
  unfolding find_operation has_conflict
  get_bundle id tenant s = elim (find_operation id tenant s.operations) [
    | none ↦ raise (value_error "OPERATION_NOT_FOUND")
    | some o ↦
        if has_conflict id s.events then raise (value_error "RECEIPT_CONFLICT") else ok o.bundle
  ]

  -- `events`
  unfoldable pub events : String → String → Database D → Outcome (List Fields)
  unfolding get_bundle events_of_operation
  events id tenant s = get_bundle id tenant s >>= λ bundle. ok (events_of_operation id s.events)

  -- `checked_bundle`
  unfoldable pub checked_bundle : String → String → Database D → Outcome Value
  unfolding get_bundle observations_of
  checked_bundle id tenant s = get_bundle id tenant s >>= λ bundle. ok (
      dict (
        field "version" (int (pos 2)) (
          field "evidence" (dict bundle) (
            field "observations"
              (list (of_items (map (λ row. row.document) (observations_of id s.observations))))
              end))))

  -- `flush`; what was emitted before an exception is not marked
  unfoldable pub flush :
      (Fields → Outcome (Unit {0})) → Database D → Outcome (Unit {0}) × Database D
  unfolding undelivered mark_delivered emit_all
  flush emit s = elim (emit_all emit (undelivered 1000 s.events)) [
    | raise e ↦ (raise e, s)
    | ok _ ↦ (ok tt, record s { events = mark_delivered 1000 s.events })
  ]

module _ (libraries : EvidenceLibraries) {D : Type 0} where
  -- the receipt of `record` on the bundle that is there; true is a conflict
  unfoldable pub take_receipt :
      String → String → Fields → Option Fields → Database D → Outcome (Bool × Database D)
  unfolding get_or_null conflicts append put canonical set_bundle
  take_receipt fresh id bundle none s = ok (false, s)
  take_receipt fresh id bundle (some receipt) s = do
    conflict ← conflicts (get_or_null "receipt" bundle) (dict receipt)
    (if conflict
        then (append libraries fresh (str id) (phase_event "receipt_conflict") s >>= λ s1.
            ok (true, s1))
        else (canonical libraries.digests (dict (put "receipt" (dict receipt) bundle)) >>= λ text.
            ok (
              false,
              record s {
                operations = set_bundle id (put "receipt" (dict receipt) bundle) s.operations;
              },
            )))

  -- the transaction of `record`
  unfoldable pub record_in :
      String
      → String
      → String
      → String
      → Fields
      → Option Fields
      → Database D
      → Outcome (Bool × Database D)
  unfolding find_operation take_receipt append
  record_in fresh other id tenant event receipt s = elim (find_operation id tenant s.operations) [
    | none ↦ raise (value_error "OPERATION_NOT_FOUND")
    | some o ↦ take_receipt fresh id o.bundle receipt s >>= λ (conflict, s1).
        append libraries other (str id) event s1 >>= λ s2. ok (conflict, s2)
  ]

  -- `if conflict: raise`, after the transaction
  abbrev pub refuse_conflict : Outcome Bool × Database D → Outcome (Unit {0}) × Database D
  refuse_conflict (raise e, s) = (raise e, s)
  refuse_conflict (ok true, s) = (raise (value_error "RECEIPT_CONFLICT"), s)
  refuse_conflict (ok false, s) = (ok tt, s)

  unfoldable pub record_event :
      String
      → String
      → String
      → String
      → Fields
      → Option Fields
      → Database D
      → Outcome (Unit {0}) × Database D
  unfolding record_in commit
  record_event fresh other id tenant event receipt s =
      refuse_conflict (commit (record_in fresh other id tenant event receipt s) s)

  -- the row of an observation and its event
  unfoldable pub insert_observation :
      String → String → Value → Observation → Database D → Outcome (Database D)
  unfolding canonical append any
  insert_observation fresh id document parsed s = do
    hash ← libraries.observation_digest document
    text ← canonical libraries.digests document
    (if any (λ row. row.observation_hash == hash) s.observations
        then raise (foreign "IntegrityError")
        else append libraries fresh (str id) (recorded_check hash parsed) (record s {
          observations =
              s.observations
              ++ record { observed_operation = id; observation_hash = hash; document = document }
                ∷ [];
        }))

  -- the checks of `append_observation` on the operation, in order
  unfoldable pub observe :
      String → String → Value → Observation → Fields → Database D → Outcome (Database D)
  unfolding digest has_conflict observations_of last_hash insert_observation
  observe fresh id document parsed bundle s = do
    bound ← digest libraries.digests "checked_bundle" (dict bundle) ""
    let rows = observations_of id s.observations
    (if not (bound == parsed.evidence_digest)
        then raise (value_error "OBSERVATION_BINDING_MISMATCH")
        else if has_conflict id s.events
        then raise (value_error "RECEIPT_CONFLICT")
        else if leb 256 (length rows)
        then raise (value_error "OBSERVATION_LIMIT")
        else if not (parsed.previous_digest == last_hash rows)
        then raise (value_error "OBSERVATION_CONCURRENT_UPDATE")
        else insert_observation fresh id document parsed s)

  unfoldable pub append_observation :
      String → String → String → Value → Database D → Outcome (Unit {0}) × Database D
  unfolding find_operation observe commit
  append_observation fresh id tenant document s = elim (libraries.parse_observation document) [
    | raise e ↦ (raise e, s)
    | ok parsed ↦ (elim (find_operation id tenant s.operations) [
      | none ↦ (raise (value_error "OPERATION_NOT_FOUND"), s)
      | some o ↦ commit (observe fresh id document parsed o.bundle s >>= λ s1. ok (tt, s1)) s
    ])
  ]
