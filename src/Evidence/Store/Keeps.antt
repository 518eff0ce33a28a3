-- ===== src/Evidence/Store/Keeps.antt =====
-- evidence/store.py: the operations as calls, and what a property has to meet that they all keep.
pub mod Calls
use mcp_zero_trust_layer.Base.{
  if◌then◌else◌, ◌==◌, nat_eq, string_eq, option_eq, length, any, first, int_eq, bool_eq, ℕ, ◌<◌,
  String, ◌≡◌, refl, Bool, true, false, Option, none, some, List, [], ◌∷◌, ◌++◌,
}
use mcp_zero_trust_layer.Value.{Value, dict, Fields, get_or_null, put, Outcome, ok, raise, ◌>>=◌}
use mcp_zero_trust_layer.Config.{capability_type_eq}
use mcp_zero_trust_layer.Evidence.Tables.{
  Operation, EventRow, ObservationRow, Database, EvidenceLibraries, find_operation, set_bundle,
  reserve,
}
use mcp_zero_trust_layer.Evidence.Store.{
  conflicts, observations_of, mark_delivered, events, flush, record_event, append_observation,
}

-- A call that writes to the store, with the fresh ids it gets.
pub data Call (D : Type 0) : Type 0 where
  reservation :
      (fresh : String) (bundle : Fields) (scope fingerprint : String)
      → Option (D → Bool × D)
      → Call D
  recording : (fresh other id tenant : String) (event : Fields) (receipt : Option Fields) → Call D
  observation : (fresh id tenant : String) (document : Value) → Call D
  flushing : (Fields → Outcome (Unit {0})) → Call D

-- A result, if there is one, has the property.
abbrev pub Gives : {A : Type 0} → (A → Type 0) → Outcome A → Type 0
Gives Q (ok a) = Q a
Gives Q (raise e) = Unit

pub Gives-then :
    {A B : Type 0} (R : B → Type 0) (m : Outcome A) (f : A → Outcome B)
    → ((a : A) → m ≡ ok a → Gives R (f a))
    → Gives R (m >>= f)
Gives-then R (ok a) f h = h a refl
Gives-then R (raise e) f h = tt

pub Gives-bind :
    {A B : Type 0} (Q : A → Type 0) (R : B → Type 0) (m : Outcome A) (f : A → Outcome B)
    → Gives Q m
    → ((a : A) → Q a → Gives R (f a))
    → Gives R (m >>= f)
Gives-bind Q R (ok a) f q h = h a q
Gives-bind Q R (raise e) f q h = tt

pub Gives-if :
    {A : Type 0} (R : A → Type 0) (b : Bool) (x y : Outcome A)
    → (b ≡ true → Gives R x)
    → (b ≡ false → Gives R y)
    → Gives R (if b then x else y)
Gives-if R true x y hx hy = hx refl
Gives-if R false x y hx hy = hy refl

module _ (libraries : EvidenceLibraries) {D : Type 0} where
  -- the tables after a call
  unfoldable pub perform : Call D → Database D → Database D
  perform (reservation fresh bundle scope fingerprint consume) s =
      (reserve libraries fresh bundle scope fingerprint consume s).1
  perform (recording fresh other id tenant event receipt) s =
      (record_event libraries fresh other id tenant event receipt s).1
  perform (observation fresh id tenant document) s =
      (append_observation libraries fresh id tenant document s).1
  perform (flushing emit) s = (flush emit s).1

  abbrev pub perform_all : List (Call D) → Database D → Database D
  perform_all [] s = s
  perform_all (call ∷ calls) s = perform_all calls (perform call s)

  -- The writes of the calls, each with what was checked before it.
  pub record IsKept (P : Database D → Type 0) : Type 0 where
    pub of_approvals : (s : Database D) (a : D) → P s → P (record s { approvals = a })
    pub of_event :
        (s : Database D) (row : EventRow) → P s → P (record s { events = s.events ++ row ∷ [] })
    pub of_operation :
        (s : Database D) (o : Operation)
        → first (λ p. p.scope == o.scope) s.operations ≡ none
        → any (λ p. p.operation_id == o.operation_id) s.operations ≡ false
        → P s
        → P (record s { operations = s.operations ++ o ∷ [] })
    pub of_receipt :
        (s : Database D) (id tenant : String) (o : Operation) (receipt : Fields)
        → find_operation id tenant s.operations ≡ some o
        → conflicts (get_or_null "receipt" o.bundle) (dict receipt) ≡ ok false
        → P s
        → P (record s {
          operations = set_bundle id (put "receipt" (dict receipt) o.bundle) s.operations;
        })
    pub of_observation :
        (s : Database D) (row : ObservationRow)
        → length (observations_of row.observed_operation s.observations) < 256
        → P s
        → P (record s { observations = s.observations ++ row ∷ [] })
    pub of_delivery :
        (s : Database D) (n : ℕ) → P s → P (record s { events = mark_delivered n s.events })
