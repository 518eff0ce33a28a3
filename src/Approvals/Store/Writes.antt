-- ===== src/Approvals/Store/Writes.antt =====
-- approvals/store.py: what reading a backend gives after a write.
use mcp_zero_trust_layer.Base.{
  if◌then◌else◌, Bool-cases, Option-cases, ◌==◌, nat_eq, string_eq, option_eq, int_eq, bool_eq,
  String, ◌≡◌, refl, sym, ◌∙◌, inl, inr, false, Option, none, some, List, [], ◌∷◌, ◌++◌, arith,
  eq_iff,
}
use mcp_zero_trust_layer.Base.Dict.{Dict, lookup, insert, lookup-insert}
use mcp_zero_trust_layer.Value.{get, ok}
use mcp_zero_trust_layer.Config.{capability_type_eq}
use mcp_zero_trust_layer.Approvals.Model.{status_eq, ApprovalRequest}
use mcp_zero_trust_layer.Approvals.FileStore.{ApprovalFile, load, file_get}
use mcp_zero_trust_layer.Approvals.SqliteStore.{
  Row, row_values, select_payload, update_row, sqlite_insert,
}
use mathlib.Core.Path.{subst}

file_get-save : (id : String) (d : Dict String ApprovalRequest) → file_get id (some d) ≡ lookup id d
unfolding file_get
file_get-save id d = refl

file_get-load : (id : String) (f : ApprovalFile) → file_get id f ≡ lookup id (load f)
unfolding file_get
file_get-load id f = refl

pub file_get-insert :
    (id j : String) (a : ApprovalRequest) (f : ApprovalFile)
    → file_get j (some (insert id a (load f))) ≡ (if id == j then some a else file_get j f)
unfolding file_get
file_get-insert id j a f = lookup-insert id j a (load f)

-- `UPDATE` changes the rows of its id, and there is one.
select-update_ne :
    (id j : String) (a : ApprovalRequest) (rows : List Row)
    → (id == j) ≡ false
    → select_payload j (update_row id a rows) ≡ select_payload j rows
unfolding select_payload update_row
select-update_ne id j a [] h = refl
select-update_ne id j a (row ∷ rows) h =
    ground (arith, select-update_ne id j a rows h, eq_iff row.id id, eq_iff row.id j, eq_iff id j)

select-update_eq :
    (id : String) (a b : ApprovalRequest) (rows : List Row)
    → select_payload id rows ≡ some b
    → select_payload id (update_row id a rows) ≡ some a
unfolding select_payload update_row
select-update_eq id a b [] h = cc
select-update_eq id a b (row ∷ rows) h = ground (arith, select-update_eq id a b rows)

pub select-update :
    (id j : String) (a b : ApprovalRequest) (rows : List Row)
    → select_payload id rows ≡ some b
    → select_payload j (update_row id a rows) ≡ (if id == j then some a else select_payload j rows)
select-update id j a b rows h = elim (Bool-cases (id == j)) [
  | inl same ↦ rw same (
      subst (λ k. select_payload k (update_row id a rows) ≡ some a) ((eq_iff id j).0 same)
        (select-update_eq id a b rows h))
  | inr other ↦ rw other (select-update_ne id j a rows other)
]

-- `first or second`
abbrev or_else : Option ApprovalRequest → Option ApprovalRequest → Option ApprovalRequest
or_else none second = second
or_else (some a) second = some a

select-append :
    (j : String) (rows : List Row) (r : Row)
    → select_payload j (rows ++ r ∷ [])
      ≡ or_else (select_payload j rows) (if r.id == j then some r.payload else none)
unfolding select_payload
select-append j [] r = refl
select-append j (row ∷ rows) r = ground (arith, select-append j rows r)

-- A store as the function from ids to cells, and an operation on the cell of `id`.
module _ (cell : Option ApprovalRequest → Option ApprovalRequest) (id : String) where
  abbrev pub Moves : (String → Option ApprovalRequest) → (String → Option ApprovalRequest) → Type 0
  Moves before after = (j : String) → after j ≡ (if id == j then cell (before j) else before j)

  pub keeps : (get : String → Option ApprovalRequest) → cell (get id) ≡ get id → Moves get get
  keeps get h j = elim (Bool-cases (id == j)) [
    | inl same ↦ rw same (sym (subst (λ k. cell (get k) ≡ get k) ((eq_iff id j).0 same) h))
    | inr other ↦ rw other
  ]

  pub writes :
      (get after : String → Option ApprovalRequest) (a : ApprovalRequest)
      → ((j : String) → after j ≡ (if id == j then some a else get j))
      → cell (get id) ≡ some a
      → Moves get after
  writes get after a w h j = w j ∙ (elim (Bool-cases (id == j)) [
    | inl same ↦ rw same (sym (subst (λ k. cell (get k) ≡ some a) ((eq_iff id j).0 same) h))
    | inr other ↦ rw other
  ])

or_else-none : (o : Option ApprovalRequest) → or_else o none ≡ o
or_else-none none = refl
or_else-none (some b) = refl

pub select-insert :
    (a : ApprovalRequest) (rows : List Row)
    → select_payload a.id rows ≡ none
    → (j : String)
    → select_payload j (rows ++ row_values a ∷ [])
      ≡ (if a.id == j then some a else select_payload j rows)
unfolding row_values
select-insert a rows fresh j =
    select-append j rows (row_values a) ∙ (elim (Bool-cases (a.id == j)) [
      | inl same ↦
          rw (subst (λ k. select_payload k rows ≡ none) ((eq_iff a.id j).0 same) fresh) (rw same)
      | inr other ↦ rw other (or_else-none (select_payload j rows))
    ])

pub sqlite_insert-fresh :
    (a : ApprovalRequest) (rows : List Row)
    → select_payload a.id rows ≡ none
    → sqlite_insert a rows ≡ (ok tt, rows ++ row_values a ∷ [])
unfolding sqlite_insert
sqlite_insert-fresh a rows fresh = rw (fresh, sqlite_insert)

-- An insertion, which fails or not, leaves the other ids.
pub select-insert_other :
    (a : ApprovalRequest) (rows : List Row) (j : String)
    → (a.id == j) ≡ false
    → select_payload j (sqlite_insert a rows).1 ≡ select_payload j rows
unfolding sqlite_insert row_values
select-insert_other a rows j h = elim (Option-cases (select_payload a.id rows)) [
  | inl fresh ↦
      rw (fresh, sqlite_insert)
        (select-append j rows (row_values a) ∙ rw h (or_else-none (select_payload j rows)))
  | inr (b, found) ↦ rw (found, sqlite_insert)
]
