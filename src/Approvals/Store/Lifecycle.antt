-- ===== src/Approvals/Store/Lifecycle.antt =====
-- approvals/store.py: the life of one approval under any sequence of operations, on either backend.
use mcp_zero_trust_layer.Base.{
  if◌then◌else◌, Bool-cases, ◌==◌, nat_eq, string_eq, option_eq, beq_refl, All, ℤ, int_eq, bool_eq,
  String, ◌≡◌, refl, sym, ◌∙◌, inl, inr, Bool, true, false, Option, none, some, List, [], ◌∷◌,
  arith,
}
use mcp_zero_trust_layer.Host.{Host}
use mcp_zero_trust_layer.Config.{capability_type_eq, ApprovalsConfig, RequestContext}
use mcp_zero_trust_layer.Approvals.Model.{
  Status, consumed, status_eq, ApprovalRequest, is_active, allowed_transition, valid_transition,
  with_status, is_valid,
}
use mcp_zero_trust_layer.Approvals.Evolution.{
  Leads, here, next, Evolves, Evolves-refl, Evolves-trans, with_status-status, with_status-Evolves,
  consume-Evolves,
}
use mcp_zero_trust_layer.Approvals.Store.{Disk, create, get_approval, set_status, consume_if_valid}
use mcp_zero_trust_layer.Approvals.Store.Cells.{cell_status, reply_consume, cell_consume}
use mcp_zero_trust_layer.Approvals.Store.Refinement.{
  set_status-refines, consume_if_valid-refines, create-other,
}
use mathlib.Core.Path.{subst}

-- A call of the store, with the clock and the fresh id that it gets.
pub data Call : Type 0 where
  creation : (id : String) (now : ℤ) (context : RequestContext) (policy_id : String) → Call
  decision : (now : ℤ) (id : String) (status : Status) (decided_by comment : Option String) → Call
  consumption : (now : ℤ) (id : String) (context : RequestContext) (policy_id : String) → Call

-- The call does not create the id anew.
abbrev pub Avoids : String → Call → Type 0
Avoids id (creation fresh _ _ _) = (fresh == id) ≡ false
Avoids id _ = Unit

-- The cell of `id` after an operation on the cell of `other` by `cell`.
abbrev moved_cell :
    Bool
    → (Option ApprovalRequest → Option ApprovalRequest)
    → Option ApprovalRequest
    → Option ApprovalRequest
moved_cell b cell o = if b then cell o else o

-- A cell that holds `a` still holds an approval, which has evolved from `a`.
abbrev pub StillThere : ApprovalRequest → Option ApprovalRequest → Type 0
StillThere a o = (b : ApprovalRequest) × (o ≡ some b) × Evolves a b

cell_status-StillThere :
    (now : ℤ) (status : Status) (by comment : Option String) (a : ApprovalRequest)
    → StillThere a (cell_status now status by comment (some a))
cell_status-StillThere now status by comment a =
    elim (Bool-cases (valid_transition a.status status)) [
      | inl valid ↦ (
        with_status now a status by comment,
        rw valid,
        with_status-Evolves now a status by comment valid,
      )
      | inr invalid ↦ (a, rw invalid, Evolves-refl a)
    ]

cell_consume-StillThere :
    (host : Host) (now : ℤ) (context : RequestContext) (policy_id : String) (a : ApprovalRequest)
    → StillThere a (cell_consume host now context policy_id (some a))
cell_consume-StillThere host now context policy_id a =
    elim (Bool-cases (is_valid host now a context policy_id)) [
      | inl valid ↦ (
        with_status now a consumed a.decided_by none,
        rw valid,
        consume-Evolves host now a context policy_id a.decided_by none valid,
      )
      | inr invalid ↦ (a, rw invalid, Evolves-refl a)
    ]

if_still :
    (b : Bool) (a : ApprovalRequest) (x : Option ApprovalRequest)
    → StillThere a x
    → StillThere a (if b then x else some a)
if_still true a x h = h
if_still false a x h = (a, refl, Evolves-refl a)

module _ (host : Host) (config : ApprovalsConfig) where
  pub perform : Call → Disk → Disk
  perform (creation id now context policy_id) disk =
      (create host config id now context policy_id disk).1
  perform (decision now id status decided_by comment) disk =
      (set_status host config now id status decided_by comment disk).1
  perform (consumption now id context policy_id) disk =
      (consume_if_valid host config now id context policy_id disk).1

  pub perform_all : List Call → Disk → Disk
  perform_all [] disk = disk
  perform_all (call ∷ calls) disk = perform_all calls (perform call disk)

  perform-StillThere :
      (call : Call) (id : String) (disk : Disk) (a : ApprovalRequest)
      → Avoids id call
      → get_approval host config id disk ≡ some a
      → StillThere a (get_approval host config id (perform call disk))
  unfolding perform
  perform-StillThere (creation fresh now context policy_id) id disk a away h =
      (a, create-other host config fresh now context policy_id disk id away ∙ h, Evolves-refl a)
  perform-StillThere (decision now other status by comment) id disk a _ h =
      rw ((set_status-refines host config now other status by comment disk).1 id)
        (rw h (if_still (other == id) a _ (cell_status-StillThere now status by comment a)))
  perform-StillThere (consumption now other context policy_id) id disk a _ h =
      rw ((consume_if_valid-refines host config now other context policy_id disk).1 id)
        (rw h (if_still (other == id) a _ (cell_consume-StillThere host now context policy_id a)))

-- Under any sequence of calls that do not create its id anew, on either backend and whether they
-- succeed or raise, an approval is never lost; what it is bound to and its expiry never change;
-- and its status moves along the allowed transitions alone.
pub perform_all-Evolves :
    (host : Host) (config : ApprovalsConfig) (calls : List Call) (id : String) (disk : Disk)
    (a : ApprovalRequest)
    → All (Avoids id) calls
    → get_approval host config id disk ≡ some a
    → (b : ApprovalRequest) × (get_approval host config id (perform_all host config calls disk)
        ≡ some b)
      × Evolves a b
unfolding perform_all
perform_all-Evolves host config [] id disk a away h = (a, h, Evolves-refl a)
perform_all-Evolves host config (call ∷ calls) id disk a (away, rest) h =
    let (b, held, first_step) = perform-StillThere host config call id disk a away h in
    let (c, found, later) =
      perform_all-Evolves host config calls id (perform host config call disk) b rest held in
    (c, found, Evolves-trans first_step later)

-- A consumed approval leads nowhere else.
Leads-consumed : {t : Status} → Leads consumed t → t ≡ consumed
unfolding allowed_transition
Leads-consumed here = refl
Leads-consumed (next {t} {u} p h) = no_exit t u (Leads-consumed p) h
  where
    no_exit : (t u : Status) → t ≡ consumed → allowed_transition t u ≡ true → u ≡ consumed
    no_exit t u e h = ground arith

-- A consumed approval is valid for nothing.
is_valid-consumed :
    (host : Host) (now : ℤ) (b : ApprovalRequest) (context : RequestContext) (policy_id : String)
    → b.status ≡ consumed
    → is_valid host now b context policy_id ≡ false
unfolding is_valid is_active
is_valid-consumed host now b context policy_id e = rw e

-- What a successful consumption leaves: a consumed approval.
consumed_after :
    (host : Host) (config : ApprovalsConfig) (now : ℤ) (id : String) (context : RequestContext)
    (policy_id : String) (disk : Disk)
    → (consume_if_valid host config now id context policy_id disk).0 ≡ true
    → (a : ApprovalRequest) × (get_approval host config id
          (consume_if_valid host config now id context policy_id disk).1
        ≡ some a)
      × (a.status ≡ consumed)
consumed_after host config now id context policy_id disk h =
    let (reply, moves) = consume_if_valid-refines host config now id context policy_id disk in
    let valid = sym reply ∙ h in
    cell_case (get_approval host config id disk) valid (moves id ∙ rw (beq_refl id))
  where
    cell_case :
        (o : Option ApprovalRequest)
        → reply_consume host now context policy_id o ≡ true
        → get_approval host config id (consume_if_valid host config now id context policy_id disk).1
          ≡ cell_consume host now context policy_id o
        → (a : ApprovalRequest) × (get_approval host config id
              (consume_if_valid host config now id context policy_id disk).1
            ≡ some a)
          × (a.status ≡ consumed)
    cell_case none v e = cc
    cell_case (some a) v e = (
      with_status now a consumed a.decided_by none,
      e ∙ rw v,
      with_status-status now a consumed a.decided_by none,
    )

-- An approval is used once: after a successful consumption, whatever calls follow that do not
-- create its id anew, every later consumption of it returns false, for every request, policy and
-- time, on either backend.
pub consume_once :
    (host : Host) (config : ApprovalsConfig) (now : ℤ) (id : String) (context : RequestContext)
    (policy_id : String) (disk : Disk) (calls : List Call) (later : ℤ) (context' : RequestContext)
    (policy_id' : String)
    → (consume_if_valid host config now id context policy_id disk).0 ≡ true
    → All (Avoids id) calls
    → (consume_if_valid host config later id context' policy_id' (
        perform_all host config calls
          (consume_if_valid host config now id context policy_id disk).1)).0
      ≡ false
consume_once host config now id context policy_id disk calls later context' policy_id' h away =
    let (a, held, is_consumed) = consumed_after host config now id context policy_id disk h in
    let (b, found, evolved) =
      perform_all-Evolves host config calls id
        (consume_if_valid host config now id context policy_id disk).1 a away held in
    let still = Leads-consumed (subst (λ s. Leads s b.status) is_consumed evolved.leads) in
    (consume_if_valid-refines host config later id context' policy_id' _).0
    ∙ (rw found (is_valid-consumed host later b context' policy_id' still))
