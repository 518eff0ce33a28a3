-- ===== src/Audit/Search/Meaning.antt =====
-- audit/search.py: what it is for an event to pass the filters of a search.
use mcp_zero_trust_layer.Base.{
  ℤ, String, ◌≡◌, refl, ap, Bool, true, false, ◌&&◌, Option, none, some, arith,
}
use mcp_zero_trust_layer.Value.{
  Value, null, bool, int, str, list, dict, Fields, get_or_null, py_eq, Outcome, ok, raise, ◌>>=◌,
}
use mcp_zero_trust_layer.Audit.Search.{Filters, field_matches, approval_matches, event_matches}
use mcp_zero_trust_layer.Audit.Search.Window.{
  ok_injective, IsTimely, time_matches-IsTimely, IsTimely-time_matches,
}

-- A filter on a text: the event has this text at the key.

pub data HasText (event : Fields) (key : String) : Option String → Type 0 where
  unasked : HasText event key none
  equal : (t : String) → py_eq (get_or_null key event) (str t) ≡ true → HasText event key (some t)

-- The filter on the approval: the event holds an approval with this id.
pub data HasApproval (event : Fields) : Option String → Type 0 where
  unasked : HasApproval event none
  of_approval :
      (id : String) (approval : Fields)
      → get_or_null "approval" event ≡ dict approval
      → py_eq (get_or_null "id" approval) (str id) ≡ true
      → HasApproval event (some id)

field_matches-HasText :
    (event : Fields) (key : String) (o : Option String)
    → field_matches event key o ≡ true
    → HasText event key o
unfolding field_matches
field_matches-HasText event key none h = unasked
field_matches-HasText event key (some t) h = equal t h

HasText-field_matches :
    (event : Fields) (key : String) (o : Option String)
    → HasText event key o
    → field_matches event key o ≡ true
unfolding field_matches
HasText-field_matches event key none unasked = refl
HasText-field_matches event key (some t) (equal _ h) = h

approval_value :
    (event : Fields) (id : String) (v : Value)
    → get_or_null "approval" event ≡ v
    → (elim v [ dict approval ↦ py_eq (get_or_null "id" approval) (str id) | _ ↦ false ]) ≡ true
    → HasApproval event (some id)
approval_value event id (dict approval) e h = of_approval id approval e h
approval_value event id null e h = cc
approval_value event id (bool b) e h = cc
approval_value event id (int n) e h = cc
approval_value event id (str t) e h = cc
approval_value event id (list vs) e h = cc

approval_matches-HasApproval :
    (event : Fields) (o : Option String) → approval_matches event o ≡ true → HasApproval event o
unfolding approval_matches
approval_matches-HasApproval event none h = unasked
approval_matches-HasApproval event (some id) h = approval_value event id _ refl h

HasApproval-approval_matches :
    (event : Fields) (o : Option String) → HasApproval event o → approval_matches event o ≡ true
unfolding approval_matches
HasApproval-approval_matches event none unasked = refl
HasApproval-approval_matches event (some id) (of_approval _ approval e h) =
    rw (e, approval_matches) h

all_seven :
    (a b c d e f g : Bool)
    → (a && b && c && d && e && f && g) ≡ true
    → (a ≡ true) × (b ≡ true) × (c ≡ true) × (d ≡ true) × (e ≡ true) × (f ≡ true) × (g ≡ true)
all_seven a b c d e f g h = ground arith

module _ (parse_timestamp : String → Option ℤ) where
  -- The event passes every filter.
  pub record Meets (f : Filters) (event : Fields) : Type 0 where
    pub of_type : HasText event "event_type" f.event_type
    pub of_server : HasText event "server" f.server
    pub of_decision : HasText event "decision" f.decision
    pub of_policy : HasText event "policy_id" f.policy_id
    pub of_correlation : HasText event "correlation_id" f.correlation_id
    pub of_approval : HasApproval event f.approval_id
    pub of_time : IsTimely parse_timestamp event f.since f.until

  timely_and :
      (r : Outcome Bool) (a b c d e f : Bool)
      → (r >>= λ timely. ok (a && b && c && d && e && f && timely)) ≡ ok true
      → (r ≡ ok true) × (a ≡ true) × (b ≡ true) × (c ≡ true) × (d ≡ true) × (e ≡ true) × (f ≡ true)
  timely_and (raise x) a b c d e f h = cc
  timely_and (ok timely) a b c d e f h =
      let (ha, hb, hc, hd, he, hf, ht) = all_seven a b c d e f timely (ok_injective h) in
      (ap (λ (x : Bool). ok x) ht, ha, hb, hc, hd, he, hf)

  pub event_matches-Meets :
      (f : Filters) (event : Fields)
      → event_matches parse_timestamp f event ≡ ok true
      → Meets f event
  unfolding event_matches
  event_matches-Meets f event h =
      let (t, a, b, c, d, e, g) = timely_and _ _ _ _ _ _ _ h in
      record {
        of_type = field_matches-HasText event _ _ a;
        of_server = field_matches-HasText event _ _ b;
        of_decision = field_matches-HasText event _ _ c;
        of_policy = field_matches-HasText event _ _ d;
        of_correlation = field_matches-HasText event _ _ e;
        of_approval = approval_matches-HasApproval event _ g;
        of_time = time_matches-IsTimely parse_timestamp event _ _ t;
      }

  pub Meets-event_matches :
      (f : Filters) (event : Fields)
      → Meets f event
      → event_matches parse_timestamp f event ≡ ok true
  unfolding event_matches
  Meets-event_matches f event m = rw (IsTimely-time_matches parse_timestamp event _ _ m.of_time) (
      rw (HasText-field_matches event _ _ m.of_type) (
        rw (HasText-field_matches event _ _ m.of_server) (
          rw (HasText-field_matches event _ _ m.of_decision) (
            rw (HasText-field_matches event _ _ m.of_policy) (
              rw (HasText-field_matches event _ _ m.of_correlation)
                (rw (HasApproval-approval_matches event _ m.of_approval) refl))))))
