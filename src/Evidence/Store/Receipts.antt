-- ===== src/Evidence/Store/Receipts.antt =====
-- evidence/store.py: the receipts of an operation over calls.
use mcp_zero_trust_layer.Base.{
  Bool-cases, ◌==◌, nat_eq, string_eq, option_eq, any, int_eq, bool_eq, String, ◌≡◌, sym, ap, ◌∙◌,
  inl, inr, true, false, some, List, [], ◌∷◌, ◌++◌, map, eq_iff,
}
use mcp_zero_trust_layer.Value.{Value, dict, Fields, get_or_null, put, py_eq, ok}
use mcp_zero_trust_layer.Config.{capability_type_eq}
use mcp_zero_trust_layer.Evidence.Tables.{
  Operation, Database, EvidenceLibraries, find_operation, set_bundle,
}
use mcp_zero_trust_layer.Evidence.Store.{is_terminal, conflicts}
use mcp_zero_trust_layer.Evidence.Store.Keeps.{Call, perform_all, IsKept}
use mcp_zero_trust_layer.Evidence.Store.Keeps.Calls.{perform_all-kept}
use mcp_zero_trust_layer.Evidence.Store.Terminal.{
  is_terminal-py_eq, get_or_null-put, conflicts-terminal,
}
use mcp_zero_trust_layer.Evidence.Store.Rows.{
  rows_of, rows_of-append, rows_of-any, with_bundle, rows_of-set_bundle, rows_of-set_bundle-other,
  find_operation-rows,
}
use mathlib.Core.Path.{subst}

-- Receipts that follow one another, each equal to the one before.
pub data Equals : Value → Value → Type 0 where
  same : (r : Value) → Equals r r
  step : {r s : Value} (t : Value) → Equals r s → py_eq s t ≡ true → Equals r t

abbrev pub receipt_of : Operation → Value
receipt_of o = get_or_null "receipt" o.bundle

module _ (libraries : EvidenceLibraries) {D : Type 0} (id : String) (settled : Value) where
  -- The operation has one row, whose receipt is terminal and follows this one.
  abbrev pub IsSettled : Database D → Type 0
  IsSettled s =
      (o : Operation) × (rows_of id s.operations ≡ o ∷ [])
      × (is_terminal (receipt_of o) ≡ ok true)
      × Equals settled (receipt_of o)

  IsSettled-operation :
      (s : Database D) (new : Operation)
      → any (λ p. p.operation_id == new.operation_id) s.operations ≡ false
      → IsSettled s
      → IsSettled (record s { operations = s.operations ++ new ∷ [] })
  IsSettled-operation s new fresh (o, r, t, q) = elim (Bool-cases (new.operation_id == id)) [
    | inl hit ↦ absurd (
        clash (
          sym (rows_of-any id s.operations o r)
          ∙ ap (λ (i : String). any (λ (p : Operation). p.operation_id == i) s.operations)
              (sym ((eq_iff new.operation_id id).0 hit))
          ∙ fresh))
    | inr miss ↦ (o, rows_of-append id s.operations new miss ∙ r, t, q)
  ]
    where
      clash : true ≡ false → ⊥
      clash h = cc

  IsSettled-receipt :
      (s : Database D) (other tenant : String) (p : Operation) (receipt : Fields)
      → find_operation other tenant s.operations ≡ some p
      → conflicts (receipt_of p) (dict receipt) ≡ ok false
      → IsSettled s
      → IsSettled (record s {
        operations = set_bundle other (put "receipt" (dict receipt) p.bundle) s.operations;
      })
  IsSettled-receipt s other tenant p receipt found fits (o, r, t, q) =
      elim (Bool-cases (other == id)) [
        | inl hit ↦
            let e = (eq_iff other id).0 hit in
            let row : p ≡ o =
              find_operation-rows other tenant s.operations o p
                (ap (λ (i : String). rows_of i s.operations) e ∙ r) found in
            let equal : py_eq (receipt_of p) (dict receipt) ≡ true =
              conflicts-terminal (receipt_of p) (dict receipt)
                (ap (λ (x : Operation). is_terminal (receipt_of x)) row ∙ t) fits in
            let bundle = put "receipt" (dict receipt) p.bundle in
            let stored : receipt_of (with_bundle bundle o) ≡ dict receipt =
              get_or_null-put p.bundle receipt in
            (
              with_bundle bundle o,
              ap (λ (i : String). rows_of i (set_bundle other bundle s.operations)) (sym e)
                  ∙ rows_of-set_bundle other bundle s.operations
                  ∙ ap (map (with_bundle bundle))
                      (ap (λ (i : String). rows_of i s.operations) e ∙ r),
              ap is_terminal stored
                  ∙ is_terminal-py_eq (receipt_of p) (dict receipt) equal
                      (ap (λ (x : Operation). is_terminal (receipt_of x)) row ∙ t),
              subst (Equals settled) (sym stored) (
                  step (dict receipt) q (
                    ap (λ (x : Operation). py_eq (receipt_of x) (dict receipt)) (sym row) ∙ equal)),
            )
        | inr miss ↦ (o, rows_of-set_bundle-other id other _ s.operations miss ∙ r, t, q)
      ]

  IsSettled-IsKept : IsKept libraries IsSettled
  IsSettled-IsKept = record {
    of_approvals = λ s a p. p;
    of_event = λ s row p. p;
    of_operation = λ s o free new p. IsSettled-operation s o new p;
    of_receipt = IsSettled-receipt;
    of_observation = λ s row room p. p;
    of_delivery = λ s n p. p;
  }

-- Once the one row of an operation has a receipt with another effect than "pending", this receipt
-- stays, whatever calls of the store follow: the row stays, its receipt stays terminal, and it is
-- equal to the first one (it can be written again, as an equal value).
pub terminal_receipt_stays :
    (libraries : EvidenceLibraries) {D : Type 0} (id : String) (s : Database D) (o : Operation)
    (calls : List (Call D))
    → rows_of id s.operations ≡ o ∷ []
    → is_terminal (receipt_of o) ≡ ok true
    → (p : Operation) × (rows_of id (perform_all libraries calls s).operations ≡ p ∷ [])
      × (is_terminal (receipt_of p) ≡ ok true)
      × Equals (receipt_of o) (receipt_of p)
terminal_receipt_stays libraries id s o calls r t =
    perform_all-kept libraries (IsSettled libraries id (receipt_of o))
      (IsSettled-IsKept libraries id (receipt_of o)) calls s (o, r, t, same (receipt_of o))
