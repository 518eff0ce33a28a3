-- ===== src/Audit/Logger/Tamper.antt =====
-- audit/logger.py: what the last hash of a checked log says about the events before it.
use mcp_zero_trust_layer.Base.{
  if◌then◌else◌, Option-cases, All, ℕ, suc, String, ◌≡◌, refl, sym, ap, ◌∙◌, inl, inr, Bool, true,
  false, not, Option, none, some, List, [], ◌∷◌, ◌++◌, map, eq_iff,
}
use mcp_zero_trust_layer.Value.{
  Value, null, bool, int, str, list, dict, Fields, get, get_or_null, without, get-without, py_eq,
}
use mcp_zero_trust_layer.Host.{Host}
use mcp_zero_trust_layer.Config.{opt_value}
use mcp_zero_trust_layer.Audit.Logger.{
  Line, blank, spaces, broken, holds, passed, event_hash, event_failure, verify_from,
}
use mcp_zero_trust_layer.Audit.Logger.Chain.{passed-injective, passed_not_failed}
use mathlib.Core.Path.{subst}
use mathlib.Core.List.{append-nil}

-- What the hash of an event covers.
abbrev pub body : Fields → Fields
body e = without "event_hash" e

-- the events of the lines that hold one
abbrev pub events_of : List Line → List Fields
events_of [] = []
events_of (holds (dict e) ∷ lines) = e ∷ events_of lines
events_of (_ ∷ lines) = events_of lines

py_eq-opt_value_eq :
    (v : Value) (o : Option String) → py_eq v (opt_value o) ≡ true → v ≡ opt_value o
unfolding py_eq
py_eq-opt_value_eq null none h = refl
py_eq-opt_value_eq null (some s) h = cc
py_eq-opt_value_eq (bool b) none h = cc
py_eq-opt_value_eq (bool b) (some s) h = cc
py_eq-opt_value_eq (int n) none h = cc
py_eq-opt_value_eq (int n) (some s) h = cc
py_eq-opt_value_eq (str t) none h = cc
py_eq-opt_value_eq (str t) (some s) h = ap str ((eq_iff t s).0 h)
py_eq-opt_value_eq (list vs) none h = cc
py_eq-opt_value_eq (list vs) (some s) h = cc
py_eq-opt_value_eq (dict fs) none h = cc
py_eq-opt_value_eq (dict fs) (some s) h = cc

opt_value-injective : (a b : Option String) → opt_value a ≡ opt_value b → a ≡ b
opt_value-injective none none h = refl
opt_value-injective none (some s) h = cc
opt_value-injective (some s) none h = cc
opt_value-injective (some s) (some t) h = cc

module _ (host : Host) (hmac : String → String → String) (key : Option String) where
  abbrev hash : Fields → String
  hash = event_hash host hmac key

  -- No event of the first list and event of the second have the same hash and different content.
  abbrev pub NoCollision : List Fields → List Fields → Type 0
  NoCollision es fs = All (λ e. All (λ f. hash e ≡ hash f → body e ≡ body f) fs) es

  -- The events, newest first, form a chain that ends with this hash.
  data IsChain : List Fields → Option String → Type 0 where
    start : IsChain [] none
    link :
        {es : List Fields} {p : Option String} (e : Fields)
        → get_or_null "previous_event_hash" e ≡ opt_value p
        → IsChain es p
        → IsChain (e ∷ es) (some (hash e))

  -- `reverse es ++ acc`
  onto : List Fields → List Fields → List Fields
  onto [] acc = acc
  onto (e ∷ es) acc = onto es (e ∷ acc)

  event_failure-previous :
      (p : Option String) (n : ℕ) (e : Fields)
      → event_failure host hmac key p n e ≡ none
      → get_or_null "previous_event_hash" e ≡ opt_value p
  unfolding event_failure
  event_failure-previous p n e h = py_eq-opt_value_eq _ p (first_test _ _ _ h)
    where
      first_test :
          (a : Bool) (x : String) (rest : Option String)
          → (if not a then some x else rest) ≡ none
          → a ≡ true
      first_test true x rest h = refl
      first_test false x rest h = cc

  verify_from-IsChain :
      (lines : List Line) (index : ℕ) (p : Option String) (n : ℕ) {q : Option String} {m : ℕ}
      (acc : List Fields)
      → verify_from host hmac key index p n lines ≡ passed q m
      → IsChain acc p
      → IsChain (onto (events_of lines) acc) q
  unfolding verify_from onto
  verify_from-IsChain [] index p n acc h c = subst (IsChain acc) (passed-injective h).0 c
  verify_from-IsChain (blank ∷ lines) index p n acc h c = cc
  verify_from-IsChain (spaces ∷ lines) index p n acc h c = cc
  verify_from-IsChain (broken ∷ lines) index p n acc h c = cc
  verify_from-IsChain (holds null ∷ lines) index p n acc h c = cc
  verify_from-IsChain (holds (bool b) ∷ lines) index p n acc h c = cc
  verify_from-IsChain (holds (int z) ∷ lines) index p n acc h c = cc
  verify_from-IsChain (holds (str t) ∷ lines) index p n acc h c = cc
  verify_from-IsChain (holds (list vs) ∷ lines) index p n acc h c = cc
  verify_from-IsChain (holds (dict e) ∷ lines) index p n acc h c =
      elim (Option-cases (event_failure host hmac key p n e)) [
        | inl good ↦
            verify_from-IsChain lines (suc index) (some (hash e)) _ (e ∷ acc)
              (rw (good, verify_from) at h) (link e (event_failure-previous p n e good) c)
        | inr (reason, bad) ↦ absurd (passed_not_failed (rw (bad, verify_from) at h))
      ]

  -- what the hash covers fixes the hash before
  previous-body :
      (e f : Fields)
      → body e ≡ body f
      → get_or_null "previous_event_hash" e ≡ get_or_null "previous_event_hash" f
  unfolding get_or_null
  previous-body e f h =
      let same : get "previous_event_hash" e ≡ get "previous_event_hash" f =
        sym (get-without "event_hash" "previous_event_hash" e)
        ∙ ap (get "previous_event_hash") h
        ∙ get-without "event_hash" "previous_event_hash" f in
      ap (λ (o : Option Value). elim o as (λ _. Value) [ none ↦ null | some v ↦ v ]) same

  NoCollision-tails :
      (e f : Fields) (es fs : List Fields) → NoCollision (e ∷ es) (f ∷ fs) → NoCollision es fs
  NoCollision-tails e f es fs (_, rest) = drop_heads es rest
    where
      drop_heads : (es : List Fields) → NoCollision es (f ∷ fs) → NoCollision es fs
      drop_heads [] h = tt
      drop_heads (x ∷ xs) (h, hs) = (h.1, drop_heads xs hs)

  IsChain-same :
      {es fs : List Fields} {p q : Option String}
      → IsChain es p
      → IsChain fs q
      → p ≡ q
      → NoCollision es fs
      → map body es ≡ map body fs
  IsChain-same start start same nc = refl
  IsChain-same start (link f _ d) same nc = cc
  IsChain-same (link e _ c) start same nc = cc
  IsChain-same (link {es} e pe c) (link {es = fs} f pf d) same nc =
      let equal = nc.0.0 (some-injective same) in
      let before = opt_value-injective _ _ (sym pe ∙ previous-body e f equal ∙ pf) in
      cons_eq equal (IsChain-same c d before (NoCollision-tails e f es fs nc))
    where
      some-injective : {s t : String} → ◌≡◌ {A = Option String} (some s) (some t) → s ≡ t
      some-injective h = cc

      cons_eq :
          {x y : Fields} {xs ys : List Fields}
          → x ≡ y
          → xs ≡ ys
          → ◌≡◌ {A = List Fields} (x ∷ xs) (y ∷ ys)
      cons_eq h k = cc

  onto-append : (es acc rest : List Fields) → onto (onto es acc) rest ≡ onto acc (es ++ rest)
  unfolding onto
  onto-append [] acc rest = refl
  onto-append (e ∷ es) acc rest = onto-append es (e ∷ acc) rest

  map-onto : (es acc : List Fields) → map body (onto es acc) ≡ onto (map body es) (map body acc)
  unfolding onto
  map-onto [] acc = refl
  map-onto (e ∷ es) acc = map-onto es (e ∷ acc)

  onto-injective : (xs ys : List Fields) → onto xs [] ≡ onto ys [] → xs ≡ ys
  unfolding onto
  onto-injective xs ys h =
      sym (onto-append xs [] [] ∙ append-nil xs)
      ∙ ap (λ (zs : List Fields). onto zs []) h
      ∙ onto-append ys [] []
      ∙ append-nil ys

  All-onto :
      (P : Fields → Type 0) (es acc : List Fields) → All P es → All P acc → All P (onto es acc)
  unfolding onto
  All-onto P [] acc a b = b
  All-onto P (e ∷ es) acc (p, a) b = All-onto P es (e ∷ acc) a (p, b)

  -- the order does not matter
  NoCollision-onto :
      (es fs : List Fields) → NoCollision es fs → NoCollision (onto es []) (onto fs [])
  NoCollision-onto es fs nc =
      All-onto (λ e. All (λ f. hash e ≡ hash f → body e ≡ body f) (onto fs [])) es [] (inside es nc)
        tt
    where
      inside :
          (es : List Fields)
          → NoCollision es fs
          → All (λ e. All (λ f. hash e ≡ hash f → body e ≡ body f) (onto fs [])) es
      inside [] h = tt
      inside (x ∷ xs) (h, hs) =
          (All-onto (λ f. hash x ≡ hash f → body x ≡ body f) fs [] h tt, inside xs hs)

-- If two logs pass the check and end with the same hash, then, unless two different events of
-- theirs have the same hash, they hold the same events (the hashes left out) in the same order: no event before the last
-- can be changed, removed, added or moved while the last hash is kept.
pub verify_from-same :
    (host : Host) (hmac : String → String → String) (key : Option String) (a b : List Line)
    (q : Option String) (m n : ℕ)
    → NoCollision host hmac key (events_of a) (events_of b)
    → verify_from host hmac key 1 none 0 a ≡ passed q m
    → verify_from host hmac key 1 none 0 b ≡ passed q n
    → map body (events_of a) ≡ map body (events_of b)
verify_from-same host hmac key a b q m n nc h k =
    let c = verify_from-IsChain host hmac key a 1 none 0 [] h (start) in
    let d = verify_from-IsChain host hmac key b 1 none 0 [] k (start) in
    let same =
      IsChain-same host hmac key c d refl
        (NoCollision-onto host hmac key (events_of a) (events_of b) nc) in
    onto-injective host hmac key _ _ (
      sym (map-onto host hmac key (events_of a) [])
      ∙ same
      ∙ map-onto host hmac key (events_of b) [])
