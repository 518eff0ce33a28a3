-- ===== src/Core/Safety/Handling.antt =====
-- core/pipeline.py: `handle`, and the handlers that it chooses from.
use mcp_zero_trust_layer.Base.{
  Bool-cases, ◌==◌, nat_eq, string_eq, option_eq, contains, int_eq, bool_eq, String, ◌≡◌, refl, sym,
  ◌⊎◌, inl, inr, Bool, true, false, not, ◌&&◌, ◌||◌, Option, none, some, List, arith, eq_iff,
}
use mcp_zero_trust_layer.Value.{Value, Fields}
use mcp_zero_trust_layer.Config.{
  CapabilityType, capability_type_eq, ServerConfig, Identity, RequestContext, PolicyDecision,
}
use mcp_zero_trust_layer.Core.Action.{Headers, Event, World, Gateway, ◌>>◌, pure}
use mcp_zero_trust_layer.Core.Messages.{
  call_shape, list_shape, safe_notification_methods, method_of, context_for_message,
}
use mcp_zero_trust_layer.Core.Responses.{is_some, is_implicit, denies, wants_approval}
use mcp_zero_trust_layer.Core.Dispatch.{uses_evidence, log_decision, dispatch}
use mcp_zero_trust_layer.Core.Handlers.{
  handle_call_request, handle_list_request, handle_other_request, handle_decided, handle_request,
  notify_decided, handle_notification, handle_checked, handle,
}
use mcp_zero_trust_layer.Protocol.Envelope.{is_notification, is_response}
use mcp_zero_trust_layer.Core.Safety.Justified.{
  IsDecision, Justified, by_policy, by_default_list, by_protocol, IsContextOf, IsSound,
}
use mcp_zero_trust_layer.Core.Safety.Rules.{
  Always, Safe, Anything, Whatever, Keeps-Anything, Keeps-where, Keeps-option, Keeps-pure,
  Keeps-throw, Keeps-lift, Keeps-ask, Keeps-bind, Keeps-if, Keeps-then,
}
use mcp_zero_trust_layer.Core.Safety.Calls.{Keeps-log_decision, Keeps-dispatch}
use mcp_zero_trust_layer.Core.Safety.Paths.{
  Keeps-send_and_enforce_output, Keeps-handle_approval_required,
}
use mathlib.Core.Path.{subst}

-- no method is both a list and a call
shapes_apart :
    (name : String) {s : CapabilityType × String}
    → list_shape name ≡ some s
    → is_some (call_shape name) ≡ false
unfolding list_shape call_shape
shapes_apart name h = elim (Bool-cases (name == "tools/list")) [
  | inl e ↦ rw ((eq_iff name "tools/list").0 e)
  | inr a ↦ elim (Bool-cases (name == "resources/list")) [
    | inl e ↦ rw ((eq_iff name "resources/list").0 e)
    | inr b ↦ elim (Bool-cases (name == "prompts/list")) [
      | inl e ↦ rw ((eq_iff name "prompts/list").0 e)
      | inr c ↦ cc
    ]
  ]
]

left_false : (a b : Bool) → (a && not b) ≡ false → b ≡ false → a ≡ false
left_false a b h k = ground arith

implicit_of : (a b : Bool) → (a && not b) ≡ false → (a ≡ false) ⊎ (b ≡ true)
implicit_of a b h = ground arith

both_false : (a b : Bool) → (a || b) ≡ false → (a ≡ false) × (b ≡ false)
both_false a b h = ground arith

clash : {b : Bool} → b ≡ true → b ≡ false → ⊥
clash h k = ground arith

module _ (g : Gateway) where
  -- a refusal: one log entry and an answer
  refused :
      {A : Type 0} (context : RequestContext) (d : PolicyDecision) (answer : A)
      → Safe g (log_decision g context d (some false) none >> pure answer) (Anything g)
  refused context d answer =
      Keeps-then g _ _ (Anything g) (Keeps-log_decision g context d (some false) none)
        (Keeps-pure g answer (Anything g) tt)

  -- A call with a reason that holds whatever was done before.
  dispatched :
      (server : ServerConfig) (message : Fields) (headers : Headers) (context : RequestContext)
      (d : PolicyDecision)
      → IsContextOf g server message context
      → ((earlier : List Event) → Justified g earlier context d)
      → Safe g (dispatch g server message headers context d) (Anything g)
  dispatched server message headers context d of_message j =
      Keeps-where g (Always g) _ _ (Whatever g) (λ earlier _. j earlier)
        (Keeps-dispatch g server message headers context d of_message)

  module _ (server : ServerConfig) (message : Fields) (headers : Headers) (context : RequestContext)
      (d : PolicyDecision) (of_message : IsContextOf g server message context) where
    Keeps-handle_call_request :
        (request_id : Value)
        → IsDecision g context d
        → Safe g (handle_call_request g server message headers context d request_id) (Anything g)
    unfolding handle_call_request
    Keeps-handle_call_request request_id decided =
        Keeps-if g (denies d) _ _ (Whatever g) (λ _. refused context d _)
          λ open_.
            Keeps-if g (wants_approval d) _ _ (Whatever g)
              (λ wants.
                Keeps-handle_approval_required g server message headers context d request_id
                  of_message decided wants)
              (λ free.
                Keeps-where g (Always g) _ _ (Whatever g)
                  (λ earlier _. by_policy decided open_ free)
                  (Keeps-send_and_enforce_output g server message headers context d request_id
                    of_message))

    list-Justified :
        IsDecision g context d
        → wants_approval d ≡ false
        → (asked_list : CapabilityType × String) → list_shape (method_of message) ≡ some asked_list
        → (denies d && not (is_implicit d)) ≡ false
        → (earlier : List Event) → Justified g earlier context d
    list-Justified decided free asked_list listed h earlier = elim (implicit_of _ _ h) [
      | inl open_ ↦ by_policy decided open_ free
      | inr implicit ↦
          by_default_list asked_list decided
            (subst (λ m. list_shape m ≡ some asked_list) (sym of_message.1) listed) implicit free
    ]

    Keeps-handle_list_request :
        (identity : Identity) (request_id : Value) (kind : CapabilityType) (key : String)
        → IsDecision g context d
        → wants_approval d ≡ false
        → list_shape (method_of message) ≡ some (kind, key)
        → Safe g
            (handle_list_request g server message identity headers context d request_id kind key)
            (Anything g)
    unfolding handle_list_request
    Keeps-handle_list_request identity request_id kind key decided free listed =
        Keeps-if g (denies d && not (is_implicit d)) _ _ (Whatever g) (λ _. refused context d _)
          λ h.
            Keeps-bind g _ _ (Anything g) (Anything g)
              (dispatched server message headers context d of_message
                (list-Justified decided free (kind, key) listed h))
              λ reply _.
                Keeps-option g reply _ _ (Whatever g) (Keeps-pure g _ (Anything g) tt) λ response _.
                  Keeps-if g g.config.runtime.dry_run _ _ (Whatever g)
                    (λ _. Keeps-pure g _ (Anything g) tt)
                    (λ _. Keeps-Anything g (Always g) _ _ (Keeps-lift g _))

    Keeps-handle_other_request :
        (request_id : Value)
        → IsDecision g context d
        → wants_approval d ≡ false
        → Safe g (handle_other_request g server message headers context d request_id) (Anything g)
    unfolding handle_other_request
    Keeps-handle_other_request request_id decided free =
        Keeps-if g (denies d) _ _ (Whatever g) (λ _. refused context d _)
          λ open_.
            Keeps-bind g _ _ (Anything g) (Anything g)
              (dispatched server message headers context d of_message
                (λ _. by_policy decided open_ free))
              (λ reply _. Keeps-pure g _ (Anything g) tt)

    Keeps-handle_decided :
        (identity : Identity) (request_id : Value)
        → IsDecision g context d
        → Safe g
            (handle_decided g server message identity headers context d request_id)
            (Anything g)
    unfolding handle_decided
    Keeps-handle_decided identity request_id decided =
        Keeps-if g (wants_approval d && not (is_some (call_shape (method_of message)))) _ _
          (Whatever g) (λ _. refused context d _)
          λ h.
            Keeps-option g (list_shape (method_of message)) _ _ (Whatever g)
              (Keeps-if g (is_some (call_shape (method_of message))) _ _ (Whatever g)
                (λ _. Keeps-handle_call_request request_id decided)
                (λ other. Keeps-handle_other_request request_id decided (left_false _ _ h other)))
              (λ (kind, key) listed.
                Keeps-handle_list_request identity request_id kind key decided
                  (left_false _ _ h (shapes_apart (method_of message) listed)) listed)

    Keeps-notify_decided :
        IsDecision g context d
        → Safe g (notify_decided g server message headers context d) (Anything g)
    unfolding notify_decided
    Keeps-notify_decided decided =
        Keeps-if g (denies d || wants_approval d) _ _ (Whatever g)
          (λ _. Keeps-log_decision g context d (some false) none)
          λ h.
            let (open_, free) = both_false _ _ h in
            Keeps-bind g _ _ (Anything g) (Anything g)
              (dispatched server message headers context d of_message
                (λ _. by_policy decided open_ free))
              (λ _ _. Keeps-pure g tt (Anything g) tt)

  module _ (server : ServerConfig) (message : Fields) (identity : Identity)
      (headers : Headers) where
    -- The context is that of the message.
    Keeps-context_for_message :
        Safe g
          (context_for_message g.host g.env g.config server message identity)
          (IsContextOf g server message)
    unfolding context_for_message
    Keeps-context_for_message = Keeps-bind g _ _ _ _ (Keeps-lift g _) λ capability _.
        Keeps-bind g _ _ (Anything g) _ (Keeps-ask g _) λ corr _. Keeps-pure g _ _ (refl, refl)

    Keeps-handle_request : Safe g (handle_request g server message identity headers) (Anything g)
    unfolding handle_request
    Keeps-handle_request =
        Keeps-bind g _ _ _ (Anything g) Keeps-context_for_message λ context of_message.
          Keeps-bind g _ _ _ (Anything g) (Keeps-lift g _) λ d decided.
            Keeps-handle_decided server message headers context d of_message identity _ decided

    Keeps-handle_notification :
        Safe g (handle_notification g server message identity headers) (Anything g)
    unfolding handle_notification
    Keeps-handle_notification =
        Keeps-bind g _ _ _ (Anything g) Keeps-context_for_message λ context of_message.
          Keeps-if g (contains safe_notification_methods (method_of message)) _ _ (Whatever g)
            (λ safe.
              Keeps-bind g _ _ (Anything g) (Anything g)
                (dispatched server message headers context _ of_message (λ _.
                  by_protocol
                    (subst (λ m. contains safe_notification_methods m ≡ true) (sym of_message.1)
                      safe)
                    refl))
                (λ _ _. Keeps-pure g tt (Anything g) tt))
            (λ _. Keeps-bind g _ _ _ (Anything g) (Keeps-lift g _) (λ d decided.
              Keeps-notify_decided server message headers context d of_message decided))

  Keeps-handle_checked :
      (server_name : String) (message : Value) (identity : Identity) (headers : Headers)
      → uses_evidence g server_name ≡ false
      → Safe g (handle_checked g server_name message identity headers) (Anything g)
  unfolding handle_checked
  Keeps-handle_checked server_name message identity headers off =
      Keeps-bind g _ _ _ (Anything g) (Keeps-lift g _) λ fs _.
        Keeps-bind g _ _ _ (Anything g) (Keeps-lift g _) λ server _.
          Keeps-if g (uses_evidence g server_name) _ _ (Whatever g) (λ on. absurd (clash on off))
            λ _.
              Keeps-if g (is_response fs) _ _ (Whatever g) (λ _. Keeps-throw g _ (Anything g))
                λ _.
                  Keeps-if g (is_notification fs) _ _ (Whatever g)
                    (λ _.
                      Keeps-bind g _ _ (Anything g) (Anything g)
                        (Keeps-handle_notification server fs identity headers)
                        (λ _ _. Keeps-pure g none (Anything g) tt))
                    (λ _.
                      Keeps-bind g _ _ (Anything g) (Anything g)
                        (Keeps-handle_request server fs identity headers)
                        (λ response _. Keeps-pure g _ (Anything g) tt))

-- Whatever message a client sends to a server for which evidence is off, and whatever the upstream
-- server, the clock, the audit log and the webhook do: `handle` leaves a sound world if it starts from one, whether it returns or
-- raises. In a sound world the operations on the store follow each other, and each call of the
-- upstream server stands directly on an audit entry with the status "dispatch_intent" for a
-- context with the server and the method of the call and for a decision, of which one of these
-- holds: the policy engine made the decision for the context, and it neither refuses nor asks for
-- an approval; or the decision asks for an approval, and the event before the audit entry is the
-- successful consumption of one for this context and policy; or the message asks for one of
-- the three lists, and the decision of the engine is an implicit default and asks for no approval;
-- or the decision is "allow" for one of the three notifications of the protocol. Where `audit.strict` is off, an entry whose write failed with an `OSError` and
-- was given up may stand in its place.
pub handle-IsSound :
    (g : Gateway) (server_name : String) (message : Value) (identity : Option Identity)
    (headers : Headers) (w : World)
    → uses_evidence g server_name ≡ false
    → IsSound g w
    → IsSound g (handle g server_name message identity headers w).1
unfolding handle
handle-IsSound g server_name message identity headers w off h =
    (Keeps-handle_checked g server_name message _ headers off).trace w tt h
