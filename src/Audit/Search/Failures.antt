-- ===== src/Audit/Search/Failures.antt =====
-- audit/search.py: the only reasons for which a search fails.
use mcp_zero_trust_layer.Base.{
  Option-cases, IsIn, ℤ, ℕ, zero, suc, String, ◌≡◌, refl, inl, inr, Bool, true, false, Option, none,
  some, List, [], ◌∷◌,
}
use mcp_zero_trust_layer.Value.{
  Value, null, bool, int, str, list, dict, Fields, get_or_null, Raised, value_error, Outcome, ok,
  raise, ◌>>=◌,
}
use mcp_zero_trust_layer.Audit.Logger.{Line, blank, spaces, broken, holds}
use mcp_zero_trust_layer.Audit.Search.{
  Filters, iter_audit_events, in_window, time_matches, event_matches, collect_matches,
}

-- A line that is neither empty nor the JSON of an object.
abbrev pub IsBadLine : Line → Type 0
IsBadLine blank = ⊥
IsBadLine spaces = ⊥
IsBadLine broken = Unit
IsBadLine (holds (dict e)) = ⊥
IsBadLine (holds _) = Unit

abbrev pub HasBadLine : List Line → Type 0
HasBadLine lines = (line : Line) × (IsIn line lines) × IsBadLine line

one_raise :
    {A B : Type 0} (r : Outcome A) (f : A → B) {e : Raised}
    → (r >>= λ a. ok (f a)) ≡ raise e
    → r ≡ raise e
one_raise (ok a) f h = cc
one_raise (raise e) f h = cc

later_bad : (line : Line) (lines : List Line) → HasBadLine lines → HasBadLine (line ∷ lines)
later_bad line lines (bad, m, b) = (bad, inr m, b)

pub iter_audit_events-HasBadLine :
    (n : ℕ) (lines : List Line) {e : Raised}
    → iter_audit_events n lines ≡ raise e
    → HasBadLine lines
unfolding iter_audit_events
iter_audit_events-HasBadLine n [] h = cc
iter_audit_events-HasBadLine n (blank ∷ lines) h =
    later_bad blank lines (iter_audit_events-HasBadLine (suc n) lines h)
iter_audit_events-HasBadLine n (spaces ∷ lines) h =
    later_bad spaces lines (iter_audit_events-HasBadLine (suc n) lines h)
iter_audit_events-HasBadLine n (broken ∷ lines) h = (broken, inl refl, tt)
iter_audit_events-HasBadLine n (holds null ∷ lines) h = (holds null, inl refl, tt)
iter_audit_events-HasBadLine n (holds (bool b) ∷ lines) h = (holds (bool b), inl refl, tt)
iter_audit_events-HasBadLine n (holds (int z) ∷ lines) h = (holds (int z), inl refl, tt)
iter_audit_events-HasBadLine n (holds (str t) ∷ lines) h = (holds (str t), inl refl, tt)
iter_audit_events-HasBadLine n (holds (list vs) ∷ lines) h = (holds (list vs), inl refl, tt)
iter_audit_events-HasBadLine n (holds (dict fs) ∷ lines) h = later_bad (holds (dict fs)) lines (
    iter_audit_events-HasBadLine (suc n) lines
      (one_raise (iter_audit_events (suc n) lines) (λ rest. fs ∷ rest) h))

-- A window is asked for.
abbrev pub IsWindow : Option ℤ → Option ℤ → Type 0
IsWindow none none = ⊥
IsWindow (some s) _ = Unit
IsWindow none (some u) = Unit

module _ (parse_timestamp : String → Option ℤ) where
  -- The timestamp of the event is a text that is no time.
  pub record IsUndated (event : Fields) : Type 0 where
    pub text : String
    pub stamp : get_or_null "timestamp" event ≡ str text
    pub unparsed : parse_timestamp text ≡ none

  undated :
      (event : Fields) (since until : Option ℤ) (v : Value) (e : Raised)
      → get_or_null "timestamp" event ≡ v
      → (elim v [
        | str text ↦ elim (parse_timestamp text) [
          | none ↦ raise (value_error "Invalid isoformat string")
          | some time ↦ ok (in_window since until time)
        ]
        | _ ↦ ok false
      ])
        ≡ raise e
      → IsUndated event
  undated event since until (str text) e s h = elim (Option-cases (parse_timestamp text)) [
    | inl unparsed ↦ record { text = text; stamp = s; unparsed = unparsed }
    | inr (time, parsed) ↦ absurd (no_raise (parse_timestamp text) parsed h)
  ]
    where
      no_raise :
          {time : ℤ} {e : Raised} (o : Option ℤ)
          → o ≡ some time
          → (elim o [
            | none ↦ raise (value_error "Invalid isoformat string")
            | some time ↦ ok (in_window since until time)
          ])
            ≡ raise e
          → ⊥
      no_raise none p h = cc
      no_raise (some time) p h = cc
  undated event since until null e s h = cc
  undated event since until (bool b) e s h = cc
  undated event since until (int n) e s h = cc
  undated event since until (list vs) e s h = cc
  undated event since until (dict fs) e s h = cc

  time_matches-IsUndated :
      (event : Fields) (since until : Option ℤ) (e : Raised)
      → time_matches parse_timestamp event since until ≡ raise e
      → IsWindow since until × IsUndated event
  unfolding time_matches
  time_matches-IsUndated event none none e h = cc
  time_matches-IsUndated event (some s) none e h = (tt, undated event (some s) none _ e refl h)
  time_matches-IsUndated event none (some u) e h = (tt, undated event none (some u) _ e refl h)
  time_matches-IsUndated event (some s) (some u) e h =
      (tt, undated event (some s) (some u) _ e refl h)

  event_matches-IsUndated :
      (f : Filters) (event : Fields) (e : Raised)
      → event_matches parse_timestamp f event ≡ raise e
      → IsWindow f.since f.until × IsUndated event
  unfolding event_matches
  event_matches-IsUndated f event e h =
      time_matches-IsUndated event f.since f.until e
        (one_raise (time_matches parse_timestamp event f.since f.until) _ h)

  -- A window is asked for, and one of the events is undated.
  abbrev pub HasUndated : Filters → List Fields → Type 0
  HasUndated f events =
      IsWindow f.since f.until × ((event : Fields) × (IsIn event events) × IsUndated event)

  later_undated :
      (f : Filters) (event : Fields) (events : List Fields)
      → HasUndated f events
      → HasUndated f (event ∷ events)
  later_undated f event events (w, (bad, m, u)) = (w, (bad, inr m, u))

  step-HasUndated :
      (f : Filters) (event : Fields) (events : List Fields) (r : Outcome Bool)
      (kept skipped : Outcome (List Fields)) (e : Raised)
      → event_matches parse_timestamp f event ≡ r
      → ((x : Raised) → kept ≡ raise x → HasUndated f events)
      → ((x : Raised) → skipped ≡ raise x → HasUndated f events)
      → (r >>= λ matched. elim matched [
        | true ↦ (kept >>= λ rest. ok (event ∷ rest))
        | false ↦ skipped
      ])
        ≡ raise e
      → HasUndated f (event ∷ events)
  step-HasUndated f event events (raise x) kept skipped e m k l h =
      let (w, u) = event_matches-IsUndated f event x m in (w, (event, inl refl, u))
  step-HasUndated f event events (ok true) kept skipped e m k l h =
      later_undated f event events (k e (one_raise kept (λ rest. event ∷ rest) h))
  step-HasUndated f event events (ok false) kept skipped e m k l h =
      later_undated f event events (l e h)

  pub collect_matches-HasUndated :
      (f : Filters) (n : ℕ) (events : List Fields) (e : Raised)
      → collect_matches parse_timestamp f n events ≡ raise e
      → HasUndated f events
  unfolding collect_matches
  collect_matches-HasUndated f zero events e h = cc
  collect_matches-HasUndated f (suc n) [] e h = cc
  collect_matches-HasUndated f (suc n) (event ∷ events) e h =
      step-HasUndated f event events (event_matches parse_timestamp f event) _ _ e refl
        (collect_matches-HasUndated f n events) (collect_matches-HasUndated f (suc n) events) h
