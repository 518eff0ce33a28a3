-- ===== src/Audit/Search/Window.antt =====
-- audit/search.py: what it is for the time of an event to be in the window of a search.
use mcp_zero_trust_layer.Base.{
  ℤ, ltb_ℤ, String, ◌≡◌, refl, ap, ◌∙◌, Bool, true, false, Option, none, some, arith,
}
use mcp_zero_trust_layer.Value.{
  Value, null, bool, int, str, list, dict, Fields, get_or_null, value_error, Outcome, ok, raise,
}
use mcp_zero_trust_layer.Audit.Search.{in_window, time_matches}

abbrev pub IsNotBefore : ℤ → Option ℤ → Type 0
IsNotBefore time none = Unit
IsNotBefore time (some since) = ltb_ℤ time since ≡ false

abbrev pub IsNotAfter : ℤ → Option ℤ → Type 0
IsNotAfter time none = Unit
IsNotAfter time (some until) = ltb_ℤ until time ≡ false

in_window-bounds :
    (since until : Option ℤ) (time : ℤ)
    → in_window since until time ≡ true
    → IsNotBefore time since × IsNotAfter time until
unfolding in_window
in_window-bounds none none time h = (tt, tt)
in_window-bounds (some s) none time h = (ground arith, tt)
in_window-bounds none (some u) time h = (tt, ground arith)
in_window-bounds (some s) (some u) time h = (ground arith, ground arith)

bounds-in_window :
    (since until : Option ℤ) (time : ℤ)
    → IsNotBefore time since
    → IsNotAfter time until
    → in_window since until time ≡ true
unfolding in_window
bounds-in_window none none time a b = refl
bounds-in_window (some s) none time a b = ground arith
bounds-in_window none (some u) time a b = ground arith
bounds-in_window (some s) (some u) time a b = ground arith

pub ok_injective : {A : Type 0} {a b : A} → ok a ≡ ok b → a ≡ b
ok_injective h = cc

module _ (parse_timestamp : String → Option ℤ) where
  -- The filter on the time: none is asked for, or the time of the event is in the window.
  pub data IsTimely (event : Fields) (since until : Option ℤ) : Type 0 where
    any_time : since ≡ none → until ≡ none → IsTimely event since until
    at_time :
        (text : String) (time : ℤ)
        → get_or_null "timestamp" event ≡ str text
        → parse_timestamp text ≡ some time
        → IsNotBefore time since
        → IsNotAfter time until
        → IsTimely event since until

  abbrev checked_time : Option ℤ → Option ℤ → Option ℤ → Outcome Bool
  checked_time since until o = elim o [
    | none ↦ raise (value_error "Invalid isoformat string")
    | some time ↦ ok (in_window since until time)
  ]

  abbrev checked_stamp : Option ℤ → Option ℤ → Value → Outcome Bool
  checked_stamp since until v = elim v [
    | str text ↦ checked_time since until (parse_timestamp text)
    | _ ↦ ok false
  ]

  time_IsTimely :
      (event : Fields) (since until : Option ℤ) (text : String) (o : Option ℤ)
      → get_or_null "timestamp" event ≡ str text
      → parse_timestamp text ≡ o
      → checked_time since until o ≡ ok true
      → IsTimely event since until
  time_IsTimely event since until text none e p h = cc
  time_IsTimely event since until text (some time) e p h =
      let (a, b) = in_window-bounds since until time (ok_injective h) in at_time text time e p a b

  stamp_IsTimely :
      (event : Fields) (since until : Option ℤ) (v : Value)
      → get_or_null "timestamp" event ≡ v
      → checked_stamp since until v ≡ ok true
      → IsTimely event since until
  stamp_IsTimely event since until (str text) e h =
      time_IsTimely event since until text (parse_timestamp text) e refl h
  stamp_IsTimely event since until null e h = cc
  stamp_IsTimely event since until (bool b) e h = cc
  stamp_IsTimely event since until (int n) e h = cc
  stamp_IsTimely event since until (list vs) e h = cc
  stamp_IsTimely event since until (dict fs) e h = cc

  pub time_matches-IsTimely :
      (event : Fields) (since until : Option ℤ)
      → time_matches parse_timestamp event since until ≡ ok true
      → IsTimely event since until
  unfolding time_matches
  time_matches-IsTimely event none none h = any_time refl refl
  time_matches-IsTimely event (some s) none h = stamp_IsTimely event (some s) none _ refl h
  time_matches-IsTimely event none (some u) h = stamp_IsTimely event none (some u) _ refl h
  time_matches-IsTimely event (some s) (some u) h = stamp_IsTimely event (some s) (some u) _ refl h

  checked_stamp-true :
      (event : Fields) (since until : Option ℤ) (text : String) (time : ℤ)
      → get_or_null "timestamp" event ≡ str text
      → parse_timestamp text ≡ some time
      → IsNotBefore time since
      → IsNotAfter time until
      → checked_stamp since until (get_or_null "timestamp" event) ≡ ok true
  checked_stamp-true event since until text time e p a b =
      ap (checked_stamp since until) e
      ∙ (ap (checked_time since until) p
          ∙ ap (λ (x : Bool). ok x) (bounds-in_window since until time a b))

  pub IsTimely-time_matches :
      (event : Fields) (since until : Option ℤ)
      → IsTimely event since until
      → time_matches parse_timestamp event since until ≡ ok true
  unfolding time_matches
  IsTimely-time_matches event none none t = refl
  IsTimely-time_matches event (some s) none (any_time h k) = cc
  IsTimely-time_matches event none (some u) (any_time h k) = cc
  IsTimely-time_matches event (some s) (some u) (any_time h k) = cc
  IsTimely-time_matches event (some s) none (at_time text time e p a b) =
      checked_stamp-true event (some s) none text time e p a b
  IsTimely-time_matches event none (some u) (at_time text time e p a b) =
      checked_stamp-true event none (some u) text time e p a b
  IsTimely-time_matches event (some s) (some u) (at_time text time e p a b) =
      checked_stamp-true event (some s) (some u) text time e p a b
