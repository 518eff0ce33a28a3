-- ===== src/Core/Safety/Paths.antt =====
-- The parts of the handlers that send a message, ask for an approval or use one.
use mcp_zero_trust_layer.Base.{
  truthy, nat_eq, string_eq, option_eq, ℤ, int_eq, bool_eq, String, ◌≡◌, refl, sym, ap, ◌∙◌, Bool,
  true, false, not, ◌&&◌, Option, none, some, List,
}
use mcp_zero_trust_layer.Value.{
  Value, null, bool, int, str, list, dict, Fields, get_or_null, put, get-put,
}
use mcp_zero_trust_layer.Config.{capability_type_eq, ServerConfig, RequestContext, PolicyDecision}
use mcp_zero_trust_layer.Approvals.Store.{consume_if_valid}
use mcp_zero_trust_layer.Core.Action.{Headers, Event, Gateway, pure, on_disk}
use mcp_zero_trust_layer.Core.Messages.{
  extract_approval_id, strip_params, strip_approval_id, method_of,
}
use mcp_zero_trust_layer.Core.Responses.{is_implicit, wants_approval, payload_of}
use mcp_zero_trust_layer.Core.Enforcement.{enforce_payload, enforce_output, send_and_enforce_output}
use mcp_zero_trust_layer.Core.Approval.{
  create_approval_response, try_consume, handle_approval_required,
}
use mcp_zero_trust_layer.Core.Safety.Justified.{
  IsDecision, WasConsumed, Justified, by_approval, IsContextOf, Keeps,
}
use mcp_zero_trust_layer.Core.Safety.Rules.{
  SafeFrom, Always, Safe, Anything, Whatever, Keeps-Anything, Keeps-where, Keeps-weaken,
  Keeps-option, Keeps-pure, Keeps-lift, Keeps-ask, Keeps-on_disk, Keeps-on_disk_raising,
  Keeps-bind_from, Keeps-bind, Keeps-attempt, Keeps-write_audit, Keeps-if, Keeps-if_from,
  Keeps-then,
}
use mcp_zero_trust_layer.Core.Safety.Calls.{Keeps-log_decision, Keeps-dispatch}

-- `_strip_approval_id` keeps the method of a message.
method_of-put :
    (v : Value) (message : Fields) → method_of (put "params" v message) ≡ method_of message
unfolding get_or_null
method_of-put v message = rw (get-put "params" "method" v message, method_of)

method_of-strip_approval_id :
    (message : Fields) → method_of (strip_approval_id message) ≡ method_of message
unfolding strip_approval_id
method_of-strip_approval_id message = of_params (get_or_null "params" message)
  where
    of_params :
        (v : Value)
        → method_of (elim v [
          | dict params ↦ put "params" (dict (strip_params params)) message
          | _ ↦ message
        ])
          ≡ method_of message
    of_params (dict params) = method_of-put (dict (strip_params params)) message
    of_params null = refl
    of_params (bool b) = refl
    of_params (int n) = refl
    of_params (str t) = refl
    of_params (list vs) = refl

module _ (g : Gateway) where
  Keeps-enforce_payload :
      (context : RequestContext) (response : Fields) (request_id : Value) (key : String)
      (payload : Value)
      → Safe g (enforce_payload g context response request_id key payload) (Anything g)
  unfolding enforce_payload
  Keeps-enforce_payload context response request_id key payload =
      Keeps-bind g _ _ _ (Anything g) (Keeps-lift g _) λ d _.
        Keeps-then g _ _ (Anything g)
          (Keeps-if g (is_implicit d) _ _ (Whatever g) (λ _. Keeps-pure g tt (Anything g) tt)
            (λ _. Keeps-log_decision g _ d none none))
          (Keeps-Anything g (Always g) _ _ (Keeps-lift g _))

  Keeps-enforce_output :
      (context : RequestContext) (response : Fields) (request_id : Value)
      → Safe g (enforce_output g context response request_id) (Anything g)
  unfolding enforce_output
  Keeps-enforce_output context response request_id =
      Keeps-option g (payload_of response) _ _ (Whatever g) (Keeps-pure g response (Anything g) tt)
        (λ (key, payload) _. Keeps-enforce_payload context response request_id key payload)

  pub Keeps-send_and_enforce_output :
      (server : ServerConfig) (message : Fields) (headers : Headers) (context : RequestContext)
      (d : PolicyDecision) (request_id : Value)
      → IsContextOf g server message context
      → SafeFrom g
          (λ earlier. Justified g earlier context d)
          (send_and_enforce_output g server message headers context d request_id)
          (Anything g)
  unfolding send_and_enforce_output
  Keeps-send_and_enforce_output server message headers context d request_id of_message =
      Keeps-bind_from g (λ earlier. Justified g earlier context d) _ _ (Whatever g) (Whatever g)
        (Keeps-dispatch g server message headers context d of_message)
        λ reply.
          Keeps-option g reply _ _ (Whatever g) (Keeps-pure g _ (Anything g) tt)
            (λ response _. Keeps-enforce_output context response request_id)

  Keeps-create_approval_response :
      (context : RequestContext) (d : PolicyDecision) (request_id : Value)
      → Safe g (create_approval_response g context d request_id) (Anything g)
  unfolding create_approval_response
  Keeps-create_approval_response context d request_id =
      Keeps-bind g _ _ (Anything g) (Anything g) (Keeps-ask g _) λ time _.
        Keeps-bind g _ _ (Anything g) (Anything g) (Keeps-ask g _) λ fresh _.
          Keeps-bind g _ _ (Anything g) (Anything g) (Keeps-on_disk_raising g _) λ approval _.
            Keeps-then g _ _ (Anything g) (Keeps-log_decision g context d (some false) none) (
              Keeps-then g _ _ (Anything g) (Keeps-write_audit g _ tt) (
                Keeps-then g _ _ (Anything g) (Keeps-attempt g _ _ tt)
                  (Keeps-pure g _ (Anything g) tt)))

  -- What `try_consume` claims of its answer and of the trace that it leaves.
  abbrev pub IsUsed : Option String → RequestContext → PolicyDecision → Bool → List Event → Type 0
  IsUsed id context d b trace = b ≡ true → WasConsumed g id context d trace

  pure-IsUsed :
      (id : Option String) (context : RequestContext) (d : PolicyDecision)
      → Keeps g (Always g) (pure false) (IsUsed id context d)
  unfolding pure
  pure-IsUsed id context d = record { trace = λ w _ h. h; value = λ w _ e. cc }

  on_disk-IsUsed :
      (id : String) (context : RequestContext) (d : PolicyDecision) (policy_id : String)
      → d.policy_id ≡ some policy_id
      → (time : ℤ)
      → Keeps g
          (Always g)
          (on_disk (consume_if_valid g.host g.config.approvals time id context policy_id))
          (IsUsed (some id) context d)
  on_disk-IsUsed id context d policy_id e time =
      Keeps-weaken g _ _ _ (IsUsed (some id) context d) (Keeps-on_disk g _)
        λ b trace (before, after, older, last, answer) yes. record {
          approval_id = id;
          given = refl;
          policy_id = policy_id;
          policy = e;
          time = time;
          before = before;
          after = after;
          older = older;
          last = last;
          succeeded = answer ∙ ap (λ x. (x, after)) yes;
        }

  Keeps-try_consume :
      (id : Option String) (context : RequestContext) (d : PolicyDecision)
      → Keeps g (Always g) (try_consume g id context d) (IsUsed id context d)
  unfolding try_consume
  Keeps-try_consume none context d = pure-IsUsed none context d
  Keeps-try_consume (some id) context d =
      Keeps-option g d.policy_id _ _ (IsUsed (some id) context d) (pure-IsUsed (some id) context d)
        λ policy_id e.
          Keeps-if g (not (truthy id && truthy policy_id)) _ _ (IsUsed (some id) context d)
            (λ _. pure-IsUsed (some id) context d)
            (λ _.
              Keeps-bind_from g (Always g) _ _ (Whatever g) (IsUsed (some id) context d)
                (Keeps-ask g g.env.now) (λ time. on_disk-IsUsed id context d policy_id e time))

  pub Keeps-handle_approval_required :
      (server : ServerConfig) (message : Fields) (headers : Headers) (context : RequestContext)
      (d : PolicyDecision) (request_id : Value)
      → IsContextOf g server message context
      → IsDecision g context d
      → wants_approval d ≡ true
      → Safe g (handle_approval_required g server message headers context d request_id) (Anything g)
  unfolding handle_approval_required
  Keeps-handle_approval_required server message headers context d request_id of_message decided
        wants =
      let id = extract_approval_id message in
      Keeps-bind_from g (Always g) _ _ (IsUsed id context d) (Whatever g)
        (Keeps-try_consume id context d)
        λ b.
          Keeps-if_from g b _ _ (IsUsed id context d b) (Whatever g)
            (λ yes.
              Keeps-where g _ _ _ _
                (λ earlier used. by_approval id context decided wants (used yes) refl)
                (Keeps-send_and_enforce_output server _ headers _ d request_id
                  (of_message.0, of_message.1 ∙ sym (method_of-strip_approval_id message))))
            (λ _.
              Keeps-where g _ _ _ _ (λ earlier _. tt)
                (Keeps-create_approval_response context d request_id))
