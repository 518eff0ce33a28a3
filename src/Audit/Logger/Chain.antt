-- ===== src/Audit/Logger/Chain.antt =====
-- audit/logger.py: the log that `_write` leaves, checked by `verify_audit_hash_chain`.
use mcp_zero_trust_layer.Base.{
  if◌then◌else◌, Option-cases, nat_eq, string_eq, option_eq, beq_refl, ℤ, pos, int_eq, bool_eq, ℕ,
  suc, String, ◌≡◌, refl, sym, ap, ◌∙◌, inl, inr, Bool, true, not, ◌&&◌, Option, none, some, List,
  [], ◌∷◌, ◌++◌, arith, eq_iff,
}
use mcp_zero_trust_layer.Value.{
  Value, null, bool, int, str, list, dict, Fields, end, field, get, get_or_null, has, put, without,
  as_str, get-put, py_eq,
}
use mcp_zero_trust_layer.Host.{Host}
use mcp_zero_trust_layer.Config.{capability_type_eq, opt_value}
use mcp_zero_trust_layer.Audit.Logger.{
  Line, blank, spaces, broken, holds, last_line, int_or_zero, previous_chain_state, Verdict, passed,
  failed, digest, event_hash, placed, with_hash, event_failure, verify_from,
}

-- A write at a key does not show where the key is left out.
pub without-put : (k : String) (v : Value) (fs : Fields) → without k (put k v fs) ≡ without k fs
unfolding without put
without-put k v end = ground (arith, eq_iff k k)
without-put k v (field j w fs) = ground (arith, eq_iff k j, eq_iff j k, without-put k v fs)

last_line-append :
    (lines : List Line) (v : Value) → last_line (lines ++ holds v ∷ []) ≡ some (holds v)
unfolding last_line
last_line-append [] v = refl
last_line-append (line ∷ lines) v = rw (last_line-append lines v)

pub previous_chain_state-append :
    (lines : List Line) (e : Fields)
    → previous_chain_state (lines ++ holds (dict e) ∷ [])
      ≡ (as_str (get_or_null "event_hash" e), int_or_zero (get_or_null "sequence" e))
unfolding previous_chain_state
previous_chain_state-append lines e = rw (last_line-append lines (dict e), previous_chain_state)

pub get_or_null-some :
    (k : String) (e : Fields) {v : Value} → get k e ≡ some v → get_or_null k e ≡ v
unfolding get_or_null
get_or_null-some k e h = rw (h, get_or_null)

has-some : (k : String) (e : Fields) {v : Value} → get k e ≡ some v → has k e ≡ true
unfolding has
has-some k e h = rw (h, has)

py_eq-opt_value : (o : Option String) → py_eq (opt_value o) (opt_value o) ≡ true
unfolding py_eq
py_eq-opt_value none = refl
py_eq-opt_value (some s) = beq_refl s

py_eq-int : (n : ℤ) → py_eq (int n) (int n) ≡ true
unfolding py_eq
py_eq-int n = beq_refl n

py_eq-str : (s : String) → py_eq (str s) (str s) ≡ true
unfolding py_eq
py_eq-str s = beq_refl s

three_tests :
    (a b c d : Bool) (x y z : String)
    → a ≡ true
    → c ≡ true
    → d ≡ true
    → (if not a then some x else if b && not c then some y else if not d then some z else none)
      ≡ none
three_tests a b c d x y z h k l = rw (h, k, l) (ground arith)

pub passed-injective : {p q : Option String} {n m : ℕ} → passed p n ≡ passed q m → (p ≡ q) × (n ≡ m)
passed-injective h = (cc, cc)

pub passed_not_failed : {q : Option String} {i m : ℕ} {r : String} → failed i r ≡ passed q m → ⊥
passed_not_failed h = cc

module _ (host : Host) (hmac : String → String → String) (key : Option String) where
  abbrev pub verified : ℕ → Option String → ℕ → List Line → Verdict
  verified = verify_from host hmac key

  -- the hash depends on the event without its hash alone
  pub event_hash_same :
      (a b : Fields)
      → without "event_hash" a ≡ without "event_hash" b
      → event_hash host hmac key a ≡ event_hash host hmac key b
  unfolding event_hash
  event_hash_same a b same =
      ap (λ (x : Fields). digest host hmac key (host.canonical_dumps (dict x))) same

  pub event_hash-with_hash :
      (event : Fields) (previous : Option String) (sequence : ℤ)
      → event_hash host hmac key (with_hash host hmac key event previous sequence)
        ≡ event_hash host hmac key (placed host hmac key event previous sequence)
  unfolding with_hash
  event_hash-with_hash event previous sequence =
      event_hash_same _ _
        (without-put "event_hash" _ (placed host hmac key event previous sequence))

  with_hash-event_hash :
      (event : Fields) (previous : Option String) (sequence : ℤ)
      → get "event_hash" (with_hash host hmac key event previous sequence)
        ≡ some (str (event_hash host hmac key (placed host hmac key event previous sequence)))
  unfolding with_hash
  with_hash-event_hash event previous sequence = simp get-put

  -- the three entries that `_with_hash` sets
  pub with_hash-entries :
      (event : Fields) (previous : Option String) (sequence : ℤ)
      → (get "previous_event_hash" (with_hash host hmac key event previous sequence)
          ≡ some (opt_value previous))
        × (get "sequence" (with_hash host hmac key event previous sequence) ≡ some (int sequence))
        × (get "event_hash" (with_hash host hmac key event previous sequence)
            ≡ some
                (str (event_hash host hmac key (with_hash host hmac key event previous sequence))))
  with_hash-entries event previous sequence = (
    unfold with_hash in simp get-put,
    unfold with_hash in simp get-put,
    with_hash-event_hash event previous sequence
        ∙ ap (λ (h : String). some (str h)) (sym (event_hash-with_hash event previous sequence)),
  )

  -- an event of the logger passes the checks
  pub event_failure-with_hash :
      (event : Fields) (previous : Option String) (n : ℕ)
      → event_failure host hmac key previous n
          (with_hash host hmac key event previous (pos (suc n)))
        ≡ none
  unfolding event_failure
  event_failure-with_hash event previous n =
      let (p, s, h) = with_hash-entries event previous (pos (suc n)) in
      three_tests _ _ _ _ _ _ _
        (ap (λ (v : Value). py_eq v (opt_value previous)) (get_or_null-some _ _ p)
          ∙ py_eq-opt_value previous)
        (ap (λ (v : Value). py_eq v (int (pos (suc n)))) (get_or_null-some _ _ s)
          ∙ py_eq-int (pos (suc n)))
        (ap
            (λ (v : Value). py_eq v (
              str
                (event_hash host hmac key (with_hash host hmac key event previous (pos (suc n))))))
            (get_or_null-some _ _ h)
          ∙ py_eq-str _)

  pub with_hash-has_sequence :
      (event : Fields) (previous : Option String) (sequence : ℤ)
      → has "sequence" (with_hash host hmac key event previous sequence) ≡ true
  with_hash-has_sequence event previous sequence =
      has-some _ _ (with_hash-entries event previous sequence).1

  -- one more event that passes, at the end
  pub verified-append :
      (lines : List Line) (index : ℕ) (p : Option String) (n : ℕ) {q : Option String} {m : ℕ}
      (e : Fields)
      → verified index p n lines ≡ passed q m
      → event_failure host hmac key q m e ≡ none
      → verified index p n (lines ++ holds (dict e) ∷ [])
        ≡ passed (some (event_hash host hmac key e)) (if has "sequence" e then suc m else m)
  unfolding verify_from
  verified-append [] index p n {q} {m} e h fine_ = empty_log (passed-injective h) fine_
    where
      empty_log :
          (p ≡ q) × (n ≡ m)
          → event_failure host hmac key q m e ≡ none
          → verified index p n (holds (dict e) ∷ [])
            ≡ passed (some (event_hash host hmac key e)) (if has "sequence" e then suc m else m)
      empty_log (a, b) good = rw a (rw b (rw (good, verify_from)))
  verified-append (blank ∷ lines) index p n e h fine_ = cc
  verified-append (spaces ∷ lines) index p n e h fine_ = cc
  verified-append (broken ∷ lines) index p n e h fine_ = cc
  verified-append (holds null ∷ lines) index p n e h fine_ = cc
  verified-append (holds (bool b) ∷ lines) index p n e h fine_ = cc
  verified-append (holds (int z) ∷ lines) index p n e h fine_ = cc
  verified-append (holds (str t) ∷ lines) index p n e h fine_ = cc
  verified-append (holds (list vs) ∷ lines) index p n e h fine_ = cc
  verified-append (holds (dict f) ∷ lines) index p n e h fine_ =
      elim (Option-cases (event_failure host hmac key p n f)) [
        | inl good ↦
            rw (good, verify_from)
              (verified-append lines (suc index) _ _ e (rw (good, verify_from) at h) fine_)
        | inr (reason, bad) ↦ absurd (passed_not_failed (rw (bad, verify_from) at h))
      ]
