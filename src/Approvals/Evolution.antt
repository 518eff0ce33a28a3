-- ===== src/Approvals/Evolution.antt =====
-- approvals/store.py, `_with_status` and `_is_valid`: how an approval may change.
use mcp_zero_trust_layer.Base.{
  if◌then◌else◌, Bool-cases, ◌==◌, nat_eq, string_eq, option_eq, ℤ, int_eq, bool_eq, String, ◌≡◌,
  refl, sym, ◌∙◌, inl, inr, Bool, true, false, not, ◌&&◌, ◌||◌, Option, arith,
}
use mcp_zero_trust_layer.Host.{Host}
use mcp_zero_trust_layer.Config.{capability_type_eq, RequestContext}
use mcp_zero_trust_layer.Approvals.Model.{
  Status, approved, consumed, status_beq_iff, status_eq, ApprovalRequest, is_active,
  allowed_transition, valid_transition, with_status, is_valid,
}
use mathlib.Core.Path.{subst}

-- The status moves along the allowed transitions.
pub data Leads (s : Status) : Status → Type 0 where
  here : Leads s s
  next : {t u : Status} → Leads s t → allowed_transition t u ≡ true → Leads s u

-- What an approval is bound to, which no operation may change.
pub record SameSubject (a b : ApprovalRequest) : Type 0 where
  pub server : b.server ≡ a.server
  pub method : b.method ≡ a.method
  pub capability : b.capability ≡ a.capability
  pub capability_type : b.capability_type ≡ a.capability_type
  pub policy_id : b.policy_id ≡ a.policy_id
  pub identity_subject : b.identity_subject ≡ a.identity_subject
  pub client_id : b.client_id ≡ a.client_id
  pub agent_id : b.agent_id ≡ a.agent_id
  pub arguments_hash : b.arguments_hash ≡ a.arguments_hash
  pub request_binding : b.request_binding ≡ a.request_binding
  pub expires_at : b.expires_at ≡ a.expires_at

pub SameSubject-refl : (a : ApprovalRequest) → SameSubject a a
SameSubject-refl a = ground arith

SameSubject-trans : {a b c : ApprovalRequest} → SameSubject a b → SameSubject b c → SameSubject a c
SameSubject-trans p q = record {
  server = q.server ∙ p.server;
  method = q.method ∙ p.method;
  capability = q.capability ∙ p.capability;
  capability_type = q.capability_type ∙ p.capability_type;
  policy_id = q.policy_id ∙ p.policy_id;
  identity_subject = q.identity_subject ∙ p.identity_subject;
  client_id = q.client_id ∙ p.client_id;
  agent_id = q.agent_id ∙ p.agent_id;
  arguments_hash = q.arguments_hash ∙ p.arguments_hash;
  request_binding = q.request_binding ∙ p.request_binding;
  expires_at = q.expires_at ∙ p.expires_at;
}

-- How one operation may change an approval.
pub record Evolves (a b : ApprovalRequest) : Type 0 where
  pub subject : SameSubject a b
  pub leads : Leads a.status b.status

pub Evolves-refl : (a : ApprovalRequest) → Evolves a a
Evolves-refl a = record { subject = SameSubject-refl a; leads = here }

Leads-trans : {s t u : Status} → Leads s t → Leads t u → Leads s u
Leads-trans p here = p
Leads-trans p (next q h) = next (Leads-trans p q) h

pub Evolves-trans : {a b c : ApprovalRequest} → Evolves a b → Evolves b c → Evolves a c
Evolves-trans p q = record {
  subject = SameSubject-trans p.subject q.subject;
  leads = Leads-trans p.leads q.leads;
}

with_status-subject :
    (now : ℤ) (a : ApprovalRequest) (status : Status) (by comment : Option String)
    → SameSubject a (with_status now a status by comment)
unfolding with_status
with_status-subject now a status by comment = elim (Bool-cases (status == a.status)) [
  | inl same ↦ rw same (SameSubject-refl a)
  | inr other ↦ rw other (elim (Bool-cases (status == consumed)) [
    | inl c ↦ rw c (record {
      server = refl;
      method = refl;
      capability = refl;
      capability_type = refl;
      policy_id = refl;
      identity_subject = refl;
      client_id = refl;
      agent_id = refl;
      arguments_hash = refl;
      request_binding = refl;
      expires_at = refl;
    })
    | inr n ↦ rw n (record {
      server = refl;
      method = refl;
      capability = refl;
      capability_type = refl;
      policy_id = refl;
      identity_subject = refl;
      client_id = refl;
      agent_id = refl;
      arguments_hash = refl;
      request_binding = refl;
      expires_at = refl;
    })
  ])
]

pub with_status-status :
    (now : ℤ) (a : ApprovalRequest) (status : Status) (by comment : Option String)
    → (with_status now a status by comment).status ≡ status
unfolding with_status
with_status-status now a status by comment = elim (Bool-cases (status == a.status)) [
  | inl same ↦ rw same (sym ((status_beq_iff status a.status).0 same))
  | inr other ↦ rw other (elim (Bool-cases (status == consumed)) [ inl c ↦ rw c | inr n ↦ rw n ])
]

second_of : (a b : Bool) → a ≡ false → (a || b) ≡ true → b ≡ true
second_of a b h k = ground arith

pub with_status-Evolves :
    (now : ℤ) (a : ApprovalRequest) (status : Status) (by comment : Option String)
    → valid_transition a.status status ≡ true
    → Evolves a (with_status now a status by comment)
unfolding valid_transition
with_status-Evolves now a status by comment h = record {
  subject = with_status-subject now a status by comment;
  leads = moved;
}
  where
    reached : Leads a.status status
    reached = elim (Bool-cases (status == a.status)) [
      | inl same ↦ subst (Leads a.status) (sym ((status_beq_iff status a.status).0 same)) here
      | inr other ↦ next here (second_of _ _ other h)
    ]

    moved : Leads a.status (with_status now a status by comment).status
    moved = subst (Leads a.status) (sym (with_status-status now a status by comment)) reached

-- What an active approval is: approved, so that it may be consumed.
first_and : (a b : Bool) → (a && b) ≡ true → a ≡ true
first_and a b h = ground arith

first_test : (a b : Bool) → (if not a then false else b) ≡ true → a ≡ true
first_test a b h = ground arith

is_active-approved : (now : ℤ) (a : ApprovalRequest) → is_active now a ≡ true → a.status ≡ approved
unfolding is_active
is_active-approved now a h = (status_beq_iff a.status approved).0 (first_test _ _ h)

pub consume-Evolves :
    (host : Host) (now : ℤ) (a : ApprovalRequest) (context : RequestContext) (policy_id : String)
    (by comment : Option String)
    → is_valid host now a context policy_id ≡ true
    → Evolves a (with_status now a consumed by comment)
unfolding is_valid valid_transition
consume-Evolves host now a context policy_id by comment h =
    with_status-Evolves now a consumed by comment (
      subst (λ s. valid_transition s consumed ≡ true)
        (sym (is_active-approved now a (first_and _ _ h))) refl)
