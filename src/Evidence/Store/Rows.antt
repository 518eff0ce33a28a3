-- ===== src/Evidence/Store/Rows.antt =====
-- evidence/store.py: the rows of one operation.
use mcp_zero_trust_layer.Base.{
  Bool-cases, ◌==◌, nat_eq, string_eq, option_eq, any, keep, first, int_eq, bool_eq, String, ◌≡◌,
  refl, sym, ap, ◌∙◌, inl, inr, true, false, some, List, [], ◌∷◌, ◌++◌, map, arith, eq_iff,
}
use mcp_zero_trust_layer.Value.{Fields}
use mcp_zero_trust_layer.Config.{capability_type_eq}
use mcp_zero_trust_layer.Evidence.Tables.{Operation, find_operation, set_bundle}

-- the rows of an operation
abbrev pub rows_of : String → List Operation → List Operation
rows_of id operations = keep (λ o. o.operation_id == id) operations

pub rows_of-append :
    (id : String) (operations : List Operation) (o : Operation)
    → (o.operation_id == id) ≡ false
    → rows_of id (operations ++ o ∷ []) ≡ rows_of id operations
unfolding keep
rows_of-append id [] o h = rw h refl
rows_of-append id (p ∷ ps) o h = rw (rows_of-append id ps o h) refl

pub rows_of-any :
    (id : String) (operations : List Operation) (o : Operation)
    → rows_of id operations ≡ o ∷ []
    → any (λ p. p.operation_id == id) operations ≡ true
unfolding keep any
rows_of-any id [] o h = cc
rows_of-any id (p ∷ ps) o h = elim (Bool-cases (p.operation_id == id)) [
  | inl hit ↦ rw hit refl
  | inr miss ↦ rw miss (rows_of-any id ps o (ground arith))
]

abbrev pub with_bundle : Fields → Operation → Operation
with_bundle bundle o = record o { bundle = bundle }

pub rows_of-set_bundle :
    (id : String) (bundle : Fields) (operations : List Operation)
    → rows_of id (set_bundle id bundle operations)
      ≡ map (with_bundle bundle) (rows_of id operations)
unfolding keep set_bundle
rows_of-set_bundle id bundle [] = refl
rows_of-set_bundle id bundle (p ∷ ps) = elim (Bool-cases (p.operation_id == id)) [
  | inl hit ↦ rw hit (rw hit (rw (rows_of-set_bundle id bundle ps) refl))
  | inr miss ↦ rw miss (rw miss (rows_of-set_bundle id bundle ps))
]

pub rows_of-set_bundle-other :
    (id other : String) (bundle : Fields) (operations : List Operation)
    → (other == id) ≡ false
    → rows_of id (set_bundle other bundle operations) ≡ rows_of id operations
unfolding keep set_bundle
rows_of-set_bundle-other id other bundle [] h = refl
rows_of-set_bundle-other id other bundle (p ∷ ps) h = elim (Bool-cases (p.operation_id == other)) [
  | inl hit ↦ rw hit (
      rw (rows_of-set_bundle-other id other bundle ps h)
        (rw (differs ((eq_iff p.operation_id other).0 hit)) refl))
  | inr miss ↦ rw miss (rw (rows_of-set_bundle-other id other bundle ps h) refl)
]
  where
    differs : p.operation_id ≡ other → (p.operation_id == id) ≡ false
    differs e = rw e h

find_operation-first :
    (id tenant : String) (operations : List Operation)
    → find_operation id tenant operations ≡ first (λ o. o.tenant == tenant) (rows_of id operations)
unfolding keep find_operation first
find_operation-first id tenant [] = refl
find_operation-first id tenant (q ∷ qs) = elim (Bool-cases (q.operation_id == id)) [
  | inl hit ↦ rw hit (rw (find_operation-first id tenant qs) refl)
  | inr miss ↦ rw miss (find_operation-first id tenant qs)
]

pub find_operation-rows :
    (id tenant : String) (operations : List Operation) (o p : Operation)
    → rows_of id operations ≡ o ∷ []
    → find_operation id tenant operations ≡ some p
    → p ≡ o
unfolding first
find_operation-rows id tenant operations o p r f = only (
    sym (ap (first (λ q. q.tenant == tenant)) r)
    ∙ sym (find_operation-first id tenant operations)
    ∙ f)
  where
    only : first (λ q. q.tenant == tenant) (o ∷ []) ≡ some p → p ≡ o
    only h = elim (Bool-cases (o.tenant == tenant)) [
      | inl hit ↦ ground arith
      | inr miss ↦ ground arith
    ]
