-- ===== src/Evidence/Store/Bounds.antt =====
-- evidence/store.py: the number of observations and the conflicts on record.
use mcp_zero_trust_layer.Base.{
  if◌then◌else◌, Bool-cases, ◌==◌, nat_eq, string_eq, option_eq, length, keep, int_eq, bool_eq, suc,
  ◌≤◌, ◌<◌, String, ◌≡◌, ap, ◌∙◌, inl, inr, Bool, true, List, [], ◌∷◌, ◌++◌, arith, eq_iff,
}
use mcp_zero_trust_layer.Config.{capability_type_eq}
use mcp_zero_trust_layer.Evidence.Tables.{ObservationRow, Database, EvidenceLibraries, has_conflict}
use mcp_zero_trust_layer.Evidence.Store.{observations_of}
use mcp_zero_trust_layer.Evidence.Store.Keeps.{Call, perform_all, IsKept}
use mcp_zero_trust_layer.Evidence.Store.Keeps.Calls.{perform_all-kept}
use mathlib.Core.Path.{subst}

length-observations_of :
    (id : String) (rows : List ObservationRow) (row : ObservationRow)
    → length (observations_of id (rows ++ row ∷ [])) ≡ (
        if row.observed_operation == id
        then suc (length (observations_of id rows))
        else length (observations_of id rows))
unfolding observations_of keep
length-observations_of id [] row = ground arith
length-observations_of id (r ∷ rows) row = ground (arith, length-observations_of id rows row)

module _ (libraries : EvidenceLibraries) {D : Type 0} where
  -- No operation has more than 256 observations.
  abbrev pub IsBounded : Database D → Type 0
  IsBounded s = (id : String) → length (observations_of id s.observations) ≤ 256

  IsBounded-observation :
      (s : Database D) (row : ObservationRow)
      → length (observations_of row.observed_operation s.observations) < 256
      → IsBounded s
      → IsBounded (record s { observations = s.observations ++ row ∷ [] })
  IsBounded-observation s row room p id = elim (Bool-cases (row.observed_operation == id)) [
    | inl hit ↦
        let one_more =
          length-observations_of id s.observations row
          ∙ ap
              (λ (b : Bool).
                if b
                then suc (length (observations_of id s.observations))
                else length (observations_of id s.observations))
              hit in
        let short : length (observations_of id s.observations) < 256 =
          subst (λ (i : String). length (observations_of i s.observations) < 256)
            ((eq_iff row.observed_operation id).0 hit) room in
        omega (arith, one_more, short)
    | inr miss ↦
        let unchanged =
          length-observations_of id s.observations row
          ∙ ap
              (λ (b : Bool).
                if b
                then suc (length (observations_of id s.observations))
                else length (observations_of id s.observations))
              miss in
        omega (arith, unchanged, p id)
  ]

  IsBounded-IsKept : IsKept libraries IsBounded
  IsBounded-IsKept = record {
    of_approvals = λ s a p. p;
    of_event = λ s row p. p;
    of_operation = λ s o free new p. p;
    of_receipt = λ s other tenant o receipt found fits p. p;
    of_observation = IsBounded-observation;
    of_delivery = λ s n p. p;
  }

  -- A conflict of receipts is on record for the operation.
  abbrev pub InConflict : String → Database D → Type 0
  InConflict id s = has_conflict id s.events ≡ true

-- If no operation has more than 256 observations in the store, then none has after any calls.
pub perform_all-IsBounded :
    (libraries : EvidenceLibraries) {D : Type 0} (calls : List (Call D)) (s : Database D)
    → IsBounded libraries s
    → IsBounded libraries (perform_all libraries calls s)
perform_all-IsBounded libraries calls s b =
    perform_all-kept libraries (IsBounded libraries) (IsBounded-IsKept libraries) calls s b
