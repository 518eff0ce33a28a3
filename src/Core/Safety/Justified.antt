-- ===== src/Core/Safety/Justified.antt =====
-- What it is for a call of the upstream server to be announced in the audit log and justified, and
-- for an action to keep this of every call in the trace.
use mcp_zero_trust_layer.Base.{
  nat_eq, string_eq, option_eq, contains, ℤ, int_eq, bool_eq, String, ◌≡◌, true, false, Option,
  some, List, [], ◌∷◌,
}
use mcp_zero_trust_layer.Value.{Value, Fields, put, Outcome, ok, raise}
use mcp_zero_trust_layer.Config.{
  allow, CapabilityType, capability_type_eq, ServerConfig, opt_value, RequestContext,
  PolicyDecision, plain_decision,
}
use mcp_zero_trust_layer.Policy.Engine.{evaluate}
use mcp_zero_trust_layer.Approvals.Store.{Disk, consume_if_valid}
use mcp_zero_trust_layer.Core.Action.{
  Event, audited, counted, approval_audited, notified, unwritten, stored, sent, World, Action,
  Gateway,
}
use mcp_zero_trust_layer.Core.Messages.{list_shape, safe_notification_methods, method_of}
use mcp_zero_trust_layer.Core.Responses.{is_implicit, denies, wants_approval}

module _ (g : Gateway) where
  -- The decision of the policy engine on a context.
  abbrev pub IsDecision : RequestContext → PolicyDecision → Type 0
  IsDecision context d = evaluate g.host g.basic g.config context ≡ ok d

  -- The context of a call that used up an approval.
  abbrev pub with_approval : RequestContext → Option String → RequestContext
  with_approval context id = record context {
    metadata = put "approval_id" (opt_value id) context.metadata;
  }

  -- The last thing done was the consumption of the approval `id` for this context, which succeeded
  -- on the store as it was then.
  pub record WasConsumed (id : Option String) (context : RequestContext) (d : PolicyDecision)
      (earlier : List Event) : Type 0 where
    pub approval_id : String
    pub given : id ≡ some approval_id
    pub policy_id : String
    pub policy : d.policy_id ≡ some policy_id
    pub time : ℤ
    pub before : Disk
    pub after : Disk
    pub older : List Event
    pub last : earlier ≡ stored before after ∷ older
    pub succeeded :
        consume_if_valid g.host g.config.approvals time approval_id context policy_id before
        ≡ (true, after)

  -- Why a call may be made after the events `earlier`: the policies allow it without more; an
  -- approval was consumed for it just before; it asks for a list, and the refusal is only the
  -- implicit default (the entries are filtered then); or it is one of the three notifications that
  -- the protocol needs.
  pub data Justified (earlier : List Event) (context : RequestContext) (d : PolicyDecision)
      : Type 0 where
    by_policy :
        IsDecision context d
        → denies d ≡ false
        → wants_approval d ≡ false
        → Justified earlier context d
    by_approval :
        (id : Option String) (asked : RequestContext)
        → IsDecision asked d
        → wants_approval d ≡ true
        → WasConsumed id asked d earlier
        → context ≡ with_approval asked id
        → Justified earlier context d
    by_default_list :
        (asked_list : CapabilityType × String)
        → IsDecision context d
        → list_shape context.method ≡ some asked_list
        → is_implicit d ≡ true
        → wants_approval d ≡ false
        → Justified earlier context d
    by_protocol :
        contains safe_notification_methods context.method ≡ true
        → d ≡ plain_decision allow "client protocol notification"
        → Justified earlier context d

  -- The context is that of this message to this server.
  abbrev pub IsContextOf : ServerConfig → Fields → RequestContext → Type 0
  IsContextOf server message context =
      (context.server ≡ server.name) × (context.method ≡ method_of message)

  -- The newest event is the log entry that announces this call, or the failed write of it where the
  -- configuration excuses that, and the call is justified.
  pub data Announced (server : ServerConfig) (message : Fields) : List Event → Type 0 where
    announced :
        (context : RequestContext) (d : PolicyDecision) (id : Value) (earlier : List Event)
        → IsContextOf server message context
        → Justified earlier context d
        → Announced server message
            (audited context d (some false) (some "dispatch_intent") id ∷ earlier)
    excused :
        (context : RequestContext) (d : PolicyDecision) (id : Value) (earlier : List Event)
        → g.config.audit.strict ≡ false
        → IsContextOf server message context
        → Justified earlier context d
        → Announced server message
            (unwritten (audited context d (some false) (some "dispatch_intent") id) ∷ earlier)

  -- Every call in the trace was announced by the event before it.
  abbrev pub AllAnnounced : List Event → Type 0
  AllAnnounced [] = Unit
  AllAnnounced (sent server message headers ∷ earlier) =
      Announced server message earlier × AllAnnounced earlier
  AllAnnounced (audited _ _ _ _ _ ∷ earlier) = AllAnnounced earlier
  AllAnnounced (counted _ _ ∷ earlier) = AllAnnounced earlier
  AllAnnounced (approval_audited _ _ ∷ earlier) = AllAnnounced earlier
  AllAnnounced (notified _ _ ∷ earlier) = AllAnnounced earlier
  AllAnnounced (unwritten _ ∷ earlier) = AllAnnounced earlier
  AllAnnounced (stored _ _ ∷ earlier) = AllAnnounced earlier

  -- The operations on the store follow each other: each began with the disk that the one before it
  -- left, and the last one left `disk`.
  abbrev pub IsHistory : Disk → List Event → Type 0
  IsHistory disk [] = Unit
  IsHistory disk (stored before after ∷ earlier) = (after ≡ disk) × IsHistory before earlier
  IsHistory disk (sent _ _ _ ∷ earlier) = IsHistory disk earlier
  IsHistory disk (audited _ _ _ _ _ ∷ earlier) = IsHistory disk earlier
  IsHistory disk (counted _ _ ∷ earlier) = IsHistory disk earlier
  IsHistory disk (approval_audited _ _ ∷ earlier) = IsHistory disk earlier
  IsHistory disk (notified _ _ ∷ earlier) = IsHistory disk earlier
  IsHistory disk (unwritten _ ∷ earlier) = IsHistory disk earlier

  abbrev pub IsSound : World → Type 0
  IsSound w = AllAnnounced w.trace × IsHistory w.disk w.trace

  -- `Q` of the value, if there is one.
  abbrev pub IfOk : {A : Type 0} → Outcome A → (A → Type 0) → Type 0
  IfOk (ok a) Q = Q a
  IfOk (raise e) Q = Unit

  -- From a trace that satisfies `P`, the action keeps worlds sound, whether it returns or raises,
  -- and what it returns satisfies `Q` with the new trace.
  pub record Keeps {A : Type 0} (P : List Event → Type 0) (m : Action A)
      (Q : A → List Event → Type 0) : Type 0 where
    pub trace : (w : World) → P w.trace → IsSound w → IsSound (m w).1
    pub value : (w : World) → P w.trace → IfOk (m w).0 (λ a. Q a (m w).1.trace)
