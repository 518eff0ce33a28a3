-- ===== src/Protocol/Envelope/Classes.antt =====
-- protocol/jsonrpc.py: the class of a message that `require_jsonrpc_message` accepts.
use mcp_zero_trust_layer.Base.{
  if◌then◌else◌, if_fails, ◌==◌, nat_eq, string_eq, option_eq, int_eq, bool_eq, String, ◌≡◌, refl,
  sym, ap, ◌∙◌, Bool, true, false, not, ◌&&◌, ◌||◌,
}
use mcp_zero_trust_layer.Value.{
  Value, null, bool, int, str, list, dict, Fields, get_or_null, has, py_eq, Outcome, ok, ◌>>◌,
  >>=-eq-ok, ok-injective,
}
use mcp_zero_trust_layer.Protocol.Envelope.{
  is_request, is_notification, is_response, demand, is_id, if_has, check_call, check_reply,
  check_fields, require_jsonrpc_message,
}
use mathlib.Core.Path.{subst}

-- Exactly one of three tests holds.
pub data ExactlyOne (a b c : Bool) : Type 0 where
  is_first : a ≡ true → b ≡ false → c ≡ false → ExactlyOne a b c
  is_second : a ≡ false → b ≡ true → c ≡ false → ExactlyOne a b c
  is_third : a ≡ false → b ≡ false → c ≡ true → ExactlyOne a b c

demand-ok : (b : Bool) (reason : String) → demand b reason ≡ ok tt → b ≡ true
demand-ok true reason h = refl
demand-ok false reason h = cc

-- the passing of one demand, and what is left
demand-then :
    (b : Bool) (reason : String) (rest : Outcome (Unit {0}))
    → (demand b reason >> rest) ≡ ok tt
    → (b ≡ true) × (rest ≡ ok tt)
demand-then true reason rest h = (refl, h)
demand-then false reason rest h = cc

-- the keys of a message that decide its class
classes :
    (m i r e : Bool)
    → ((m ≡ false) → (not (r && not i) ≡ true) × (not (r == e) ≡ true))
    → ExactlyOne (m && i) (m && not i) (not m && (i && r || e))
classes true true r e h = is_first refl refl refl
classes true false r e h = is_second refl refl refl
classes false i r e h = is_third refl refl (reply i r e (h refl).0 (h refl).1)
  where
    reply : (i r e : Bool) → not (r && not i) ≡ true → not (r == e) ≡ true → (i && r || e) ≡ true
    reply true true true h k = refl
    reply true true false h k = refl
    reply true false true h k = refl
    reply true false false h k = cc
    reply false true e h k = cc
    reply false false true h k = refl
    reply false false false h k = cc

check_reply-keys :
    (message : Fields)
    → check_reply message ≡ ok tt
    → (not (has "result" message && not (has "id" message)) ≡ true)
      × (not (has "result" message == has "error" message) ≡ true)
unfolding check_reply
check_reply-keys message h =
    let (first_, rest) = demand-then _ _ _ h in
    let (second_, _) = demand-then _ _ _ rest in (first_, second_)

check_fields-reply :
    (message : Fields)
    → check_fields message ≡ ok tt
    → has "method" message ≡ false
    → check_reply message ≡ ok tt
unfolding check_fields
check_fields-reply message h none_ =
    let call_or_reply : Outcome (Unit {0}) =
      if has "method" message then check_call message else check_reply message in
    let (_, rest) =
      demand-then (py_eq (get_or_null "jsonrpc" message) (str "2.0")) "jsonrpc must be '2.0'"
        (demand (if_has "id" is_id message) "id must be a non-null string or integer"
          >> call_or_reply)
        h in
    let (_, last) =
      demand-then (if_has "id" is_id message) "id must be a non-null string or integer"
        call_or_reply rest in
    sym (if_fails (has "method" message) (check_call message) (check_reply message) none_) ∙ last

-- A message that `require_jsonrpc_message` accepts is returned unchanged, and it is exactly one of
-- a request, a notification and a response.
pub require_jsonrpc_message-ExactlyOne :
    (v : Value) (message : Fields)
    → require_jsonrpc_message v ≡ ok message
    → (v ≡ dict message)
      × ExactlyOne (is_request message) (is_notification message) (is_response message)
unfolding require_jsonrpc_message is_request is_notification is_response
require_jsonrpc_message-ExactlyOne (dict fs) message h =
    let (u, checked, same) = >>=-eq-ok _ _ h in
    (
      ap dict (ok-injective same),
      subst (λ m. ExactlyOne (is_request m) (is_notification m) (is_response m)) (ok-injective same)
          (classes (has "method" fs) (has "id" fs) (has "result" fs) (has "error" fs)
            λ none_. check_reply-keys fs (check_fields-reply fs checked none_)),
    )
require_jsonrpc_message-ExactlyOne null message h = cc
require_jsonrpc_message-ExactlyOne (bool b) message h = cc
require_jsonrpc_message-ExactlyOne (int n) message h = cc
require_jsonrpc_message-ExactlyOne (str s) message h = cc
require_jsonrpc_message-ExactlyOne (list vs) message h = cc
