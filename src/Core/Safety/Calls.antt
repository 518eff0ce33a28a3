-- ===== src/Core/Safety/Calls.antt =====
-- core/pipeline.py, `_dispatch`: the announced call of the upstream server.
use mcp_zero_trust_layer.Base.{
  if◌then◌else◌, String, ◌≡◌, refl, Bool, true, false, not, ◌&&◌, Option, some, ◌∷◌, arith,
}
use mcp_zero_trust_layer.Value.{Fields, get_or_null, Outcome, ok, raise}
use mcp_zero_trust_layer.Config.{ServerConfig, RequestContext, PolicyDecision}
use mcp_zero_trust_layer.Core.Action.{
  Headers, Event, audited, counted, unwritten, sent, World, Written, goes_well, os_error,
  other_error, Action, Gateway, continue, ◌>>=◌, ◌>>◌, pure, throw, after_write, excused_by,
  write_audit, emit, ask,
}
use mcp_zero_trust_layer.Core.Responses.{is_some}
use mcp_zero_trust_layer.Core.Dispatch.{log_decision, call_upstream, dispatch}
use mcp_zero_trust_layer.Core.Safety.Justified.{
  Justified, IsContextOf, Announced, announced, excused, IsSound,
}
use mcp_zero_trust_layer.Core.Safety.Rules.{
  SafeFrom, Safe, Anything, Whatever, any_value, Keeps-pure, Keeps-throw, Keeps-emit,
  Keeps-write_audit, Keeps-if, Keeps-then,
}

not_strict : (a b : Bool) → (not a && not b) ≡ true → a ≡ false
not_strict a b h = ground arith

module _ (g : Gateway) where
  pub Keeps-log_decision :
      (context : RequestContext) (d : PolicyDecision) (called : Option Bool)
      (status : Option String)
      → Safe g (log_decision g context d called status) (Anything g)
  unfolding log_decision
  Keeps-log_decision context d called status =
      Keeps-then g _ _ (Anything g)
        (Keeps-write_audit g
          (audited context d called status (get_or_null "approval_id" context.metadata)) tt)
        (Keeps-if g g.metrics _ _ (Whatever g) (λ _. Keeps-emit g (counted context d) tt)
          (λ _. Keeps-pure g tt (Anything g) tt))

  -- what `call_upstream` does with the answer
  answered :
      (reply : Outcome (Option Fields)) (context : RequestContext) (d : PolicyDecision)
      → Safe g
          (elim reply [
            | raise e ↦ (log_decision g context d (some true) (some "unknown") >> throw e)
            | ok response ↦ pure response
          ])
          (Anything g)
  answered (raise e) context d =
      Keeps-then g _ _ (Anything g) (Keeps-log_decision context d (some true) (some "unknown"))
        (Keeps-throw g e (Anything g))
  answered (ok response) context d = Keeps-pure g response (Anything g) tt

  module _ (server : ServerConfig) (message : Fields) (headers : Headers) (context : RequestContext)
      (d : PolicyDecision) where
    call_upstream-IsSound :
        (w : World)
        → Announced g server message w.trace
        → IsSound g w
        → IsSound g (call_upstream g server message headers context d w).1
    unfolding call_upstream ◌>>=◌ ask emit
    call_upstream-IsSound w a h =
        (answered (g.env.send w.trace server message headers) context d).trace
          (record w { trace = sent server message headers ∷ w.trace }) tt ((a, h.0), h.1)

    abbrev intent : World → Event
    intent w =
        audited context d (some false) (some "dispatch_intent")
          (get_or_null "approval_id" context.metadata)

    abbrev afterwards_code : Option Fields → Action (Option Fields)
    afterwards_code reply =
        log_decision g context d (some true)
          (some (if is_some reply then "response_received" else "accepted"))
        >> pure reply

    -- what follows the announced call
    afterwards : (reply : Option Fields) → Safe g (afterwards_code reply) (Anything g)
    afterwards reply =
        Keeps-then g _ _ (Anything g) (Keeps-log_decision context d (some true) _)
          (Keeps-pure g reply (Anything g) tt)

    -- a step that leaves a sound world, and a safe rest
    continue-IsSound :
        {A B : Type 0} (r : Outcome A) (f : A → Action B) (w : World)
        → ((a : A) → Safe g (f a) (Anything g))
        → IsSound g w
        → IsSound g (continue r f w).1
    continue-IsSound (ok a) f w kf h = (kf a).trace w tt h
    continue-IsSound (raise e) f w kf h = h

    -- The call that follows the entry, in any state that announces it.
    send_code : Unit {0} → Action (Option Fields)
    send_code _ = call_upstream g server message headers context d >>= afterwards_code

    send_code-IsSound :
        (w : World)
        → Announced g server message w.trace
        → IsSound g w
        → IsSound g (send_code tt w).1
    unfolding send_code ◌>>=◌
    send_code-IsSound w a h =
        continue-IsSound (call_upstream g server message headers context d w).0 afterwards_code
          (call_upstream g server message headers context d w).1 afterwards
          (call_upstream-IsSound w a h)

    -- Whatever became of the entry: the call is made only where it is announced.
    after_intent-IsSound :
        (answer : Written) (is_excused : Bool) (w : World)
        → (is_excused ≡ true → g.config.audit.strict ≡ false)
        → IsContextOf g server message context
        → Justified g w.trace context d
        → IsSound g w
        → IsSound g
            (continue
              (after_write answer is_excused (intent w) w).0
              send_code
              (after_write answer is_excused (intent w) w).1).1
    unfolding after_write
    after_intent-IsSound goes_well is_excused w only of_message j h =
        send_code-IsSound (record w { trace = intent w ∷ w.trace })
          (announced context d _ w.trace of_message j) h
    after_intent-IsSound os_error true w only of_message j h =
        send_code-IsSound (record w { trace = unwritten (intent w) ∷ w.trace })
          (excused context d _ w.trace (only refl) of_message j) h
    after_intent-IsSound os_error false w only of_message j h = h
    after_intent-IsSound (other_error e) is_excused w only of_message j h = h

    pub Keeps-dispatch :
        IsContextOf g server message context
        → SafeFrom g
            (λ earlier. Justified g earlier context d)
            (dispatch g server message headers context d)
            (Anything g)
    unfolding dispatch ◌>>=◌ write_audit send_code
    Keeps-dispatch of_message = record {
      trace = λ w j h.
          after_intent-IsSound (g.env.audit_write w.trace (intent w)) (excused_by g) w
            (not_strict _ _) of_message j h;
      value = λ w j. any_value g (dispatch g server message headers context d w).0;
    }
