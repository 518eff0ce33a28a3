-- ===== src/Evidence/Tables.antt =====
-- evidence/store.py: the tables of the evidence store and its operations. A document is the value
-- that `json.loads` gives for the stored text, which is its canonical form. Each operation is one
-- step, as `BEGIN IMMEDIATE` makes it, and an exception undoes it.
use mcp_zero_trust_layer.Base.{
  if◌then◌else◌, ◌==◌, nat_eq, string_eq, option_eq, any, first, int_eq, bool_eq, String, ◌<>◌,
  Bool, false, ◌&&◌, Option, none, some, List, [], ◌∷◌, ◌++◌,
}
use mcp_zero_trust_layer.Value.{
  Value, str, dict, Fields, end, field, get, get_or_null, put, py_eq, type_error, key_error,
  value_error, foreign, Outcome, ok, raise, ◌>>=◌,
}
use mcp_zero_trust_layer.Config.{capability_type_eq}
use mcp_zero_trust_layer.Evidence.Canonical.{Digests, canonical}

pub record Operation : Type 0 where
  pub operation_id : String
  pub tenant : String
  pub scope : String
  pub fingerprint : String
  pub bundle : Fields

pub record EventRow : Type 0 where
  pub event_id : String
  pub event_operation : String
  pub payload : Fields
  pub delivered : Bool

pub record ObservationRow : Type 0 where
  pub observed_operation : String
  pub observation_hash : String
  pub document : Value

-- The tables; `approvals` stands for the tables of the approval store in the same database.
pub record Database (D : Type 0) : Type 0 where
  pub operations : List Operation
  pub events : List EventRow
  pub observations : List ObservationRow
  pub approvals : D

-- What `SignedObservation.model_validate` gives of a document.
pub record Observation : Type 0 where
  pub evidence_digest : String
  pub previous_digest : Option String
  pub result : String

-- `text_column` is a value as SQLite keeps it in a column of texts; `model_validate` and
-- `observation_digest`, which may raise.
pub record EvidenceLibraries : Type 0 where
  pub digests : Digests
  pub text_column : Value → Outcome String
  pub parse_observation : Value → Outcome Observation
  pub observation_digest : Value → Outcome String

-- `d[key]`
unfoldable pub item : String → Value → Outcome Value
unfolding get
item key (dict fs) = elim (get key fs) [ none ↦ raise (key_error key) | some v ↦ ok v ]
item key _ = raise type_error

-- `{**base, **fs}`
unfoldable pub merge : Fields → Fields → Fields
unfolding put
merge base end = base
merge base (field key v fs) = merge (put key v base) fs

-- the row of an operation of a tenant
unfoldable pub find_operation : String → String → List Operation → Option Operation
unfolding first
find_operation id tenant operations =
    first (λ o. o.operation_id == id && o.tenant == tenant) operations

-- the event is a conflict of receipts of this operation
abbrev pub is_conflict_of : String → EventRow → Bool
is_conflict_of id row =
    row.event_operation == id && py_eq (get_or_null "phase" row.payload) (str "receipt_conflict")

unfoldable pub has_conflict : String → List EventRow → Bool
unfolding any py_eq get_or_null
has_conflict id events = any (is_conflict_of id) events

-- `UPDATE evidence_v1_operations SET bundle=? WHERE operation_id=?`
unfoldable pub set_bundle : String → Fields → List Operation → List Operation
set_bundle id bundle [] = []
set_bundle id bundle (o ∷ operations) =
    let rest = set_bundle id bundle operations in
    if o.operation_id == id then record o { bundle = bundle } ∷ rest else o ∷ rest

abbrev pub phase_event : String → Fields
phase_event phase = field "phase" (str phase) (field "effect" (str "unknown") end)

-- the payload of a new event
abbrev pub event_payload : String → Value → Fields → Fields
event_payload fresh operation event =
    merge
      (field "event_id" (str ("ev_" <> fresh))
        (field "event_type" (str "execution_evidence") (field "operation_id" operation end)))
      event

-- `bundle["permit"]["authorization"]["payload"]`, with its operation
unfoldable pub authorization_of : Fields → Outcome Value
unfolding item
authorization_of bundle = do
  permit ← item "permit" (dict bundle)
  authorization ← item "authorization" permit
  payload ← item "payload" authorization
  operation ← item "operation_id" payload
  ok payload

module _ {D : Type 0} where
  -- the transaction: an exception leaves the tables as they were
  unfoldable pub commit :
      {A : Type 0} → Outcome (A × Database D) → Database D → Outcome A × Database D
  commit (ok (a, after)) before = (ok a, after)
  commit (raise e) before = (raise e, before)

module _ (libraries : EvidenceLibraries) {D : Type 0} where
  -- `append`; the column `event_id` is unique
  unfoldable pub append : String → Value → Fields → Database D → Outcome (Database D)
  unfolding merge canonical get_or_null any
  append fresh operation event s = do
    let payload = event_payload fresh operation event
    text ← canonical libraries.digests (dict payload)
    id ← libraries.text_column (get_or_null "event_id" payload)
    column ← libraries.text_column operation
    (if any (λ row. row.event_id == id) s.events
        then raise (foreign "IntegrityError")
        else ok (record s {
          events =
              s.events
              ++ record {
                event_id = id;
                event_operation = column;
                payload = payload;
                delivered = false;
              }
                ∷ [];
        }))

  -- the row of a new operation; its id and its scope are unique
  unfoldable pub insert_operation : Operation → Database D → Outcome (Database D)
  unfolding any
  insert_operation o s =
      if any (λ p. p.operation_id == o.operation_id) s.operations
      then raise (foreign "IntegrityError")
      else ok (record s { operations = s.operations ++ o ∷ [] })

  -- `if consume is not None and not consume(db)`
  unfoldable pub consume_approval : Option (D → Bool × D) → Database D → Outcome (Database D)
  consume_approval none s = ok s
  consume_approval (some consume) s =
      let (consumed, approvals) = consume s.approvals in
      if consumed
      then ok (record s { approvals = approvals })
      else raise (value_error "APPROVAL_NOT_ACTIVE")

  -- `reserve` of a scope that is free
  unfoldable pub reserve_new :
      String
      → Fields
      → String
      → String
      → Option (D → Bool × D)
      → Value
      → Database D
      → Outcome (Option String × Database D)
  unfolding item canonical consume_approval insert_operation append
  reserve_new fresh bundle scope fingerprint consume auth s = do
    operation ← item "operation_id" auth
    s1 ← consume_approval consume s
    tenant ← item "tenant" auth
    text ← canonical libraries.digests (dict bundle)
    id ← libraries.text_column operation
    tenant_text ← libraries.text_column tenant
    s2 ←
        insert_operation
          (record {
            operation_id = id;
            tenant = tenant_text;
            scope = scope;
            fingerprint = fingerprint;
            bundle = bundle;
          })
          s1
    s3 ← append fresh operation (phase_event "dispatch_intent") s2
    ok (none, s3)

  -- the scope is taken, by the same request or another, or free
  unfoldable pub reserve_found :
      String
      → Fields
      → String
      → String
      → Option (D → Bool × D)
      → Value
      → Database D
      → Option Operation
      → Outcome (Option String) × Database D
  unfolding reserve_new commit
  reserve_found fresh bundle scope fingerprint consume auth s (some previous) = (
    if previous.fingerprint == fingerprint
        then ok (some previous.operation_id)
        else raise (value_error "IDEMPOTENCY_CONFLICT"),
    s,
  )
  reserve_found fresh bundle scope fingerprint consume auth s none =
      commit (reserve_new fresh bundle scope fingerprint consume auth s) s

  unfoldable pub reserve_authorized :
      String
      → Fields
      → String
      → String
      → Option (D → Bool × D)
      → Database D
      → Outcome Value
      → Outcome (Option String) × Database D
  unfolding reserve_found first
  reserve_authorized fresh bundle scope fingerprint consume s (raise e) = (raise e, s)
  reserve_authorized fresh bundle scope fingerprint consume s (ok auth) =
      reserve_found fresh bundle scope fingerprint consume auth s
        (first (λ o. o.scope == scope) s.operations)

  unfoldable pub reserve :
      String
      → Fields
      → String
      → String
      → Option (D → Bool × D)
      → Database D
      → Outcome (Option String) × Database D
  unfolding authorization_of reserve_authorized
  reserve fresh bundle scope fingerprint consume s =
      reserve_authorized fresh bundle scope fingerprint consume s (authorization_of bundle)
