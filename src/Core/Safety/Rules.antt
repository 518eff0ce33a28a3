-- ===== src/Core/Safety/Rules.antt =====
-- One rule for each way to build an action.
use mcp_zero_trust_layer.Base.{
  if◌then◌else◌, Option-cases, ◌≡◌, refl, inl, inr, Bool, true, false, Option, none, some, List,
  ◌∷◌,
}
use mcp_zero_trust_layer.Value.{Raised, Outcome, ok, raise}
use mcp_zero_trust_layer.Approvals.Store.{Disk}
use mcp_zero_trust_layer.Core.Action.{
  Event, audited, counted, approval_audited, notified, unwritten, stored, sent, World, Written,
  goes_well, os_error, other_error, Action, Gateway, continue, ◌>>=◌, ◌>>◌, pure, throw, lift,
  attempt, after_write, excused_by, write_audit, emit, on_disk, on_disk_raising, ask,
}
use mcp_zero_trust_layer.Core.Safety.Justified.{IsSound, IfOk, Keeps}

module _ (g : Gateway) where
  -- `m` is safe after a trace that satisfies `P`.
  abbrev pub SafeFrom : {A : Type 0} → (List Event → Type 0) → Action A → (A → Type 0) → Type 0
  SafeFrom P m Q = Keeps g P m (λ a _. Q a)

  abbrev pub Always : List Event → Type 0
  Always trace = Unit

  abbrev pub Safe : {A : Type 0} → Action A → (A → Type 0) → Type 0
  Safe m Q = SafeFrom Always m Q

  abbrev pub Anything : {A : Type 0} → A → Type 0
  Anything a = Unit

  abbrev pub Whatever : {A : Type 0} → A → List Event → Type 0
  Whatever a trace = Unit

  -- every value is something
  pub any_value : {A : Type 0} (r : Outcome A) → IfOk g r Anything
  any_value (ok a) = tt
  any_value (raise e) = tt

  -- an action whose value nothing is claimed of
  pub Keeps-Anything :
      {A : Type 0} (P : List Event → Type 0) (m : Action A) (Q : A → List Event → Type 0)
      → Keeps g P m Q
      → SafeFrom P m Anything
  Keeps-Anything P m Q k = record { trace = k.trace; value = λ w p. any_value (m w).0 }

  -- an action that is safe where `P` holds is safe where something stronger holds
  pub Keeps-where :
      {A : Type 0} (P' P : List Event → Type 0) (m : Action A) (Q : A → List Event → Type 0)
      → ((trace : List Event) → P' trace → P trace)
      → Keeps g P m Q
      → Keeps g P' m Q
  Keeps-where P' P m Q stronger k = record {
    trace = λ w p h. k.trace w (stronger w.trace p) h;
    value = λ w p. k.value w (stronger w.trace p);
  }

  pub Keeps-weaken :
      {A : Type 0} (P : List Event → Type 0) (m : Action A) (Q R : A → List Event → Type 0)
      → Keeps g P m Q
      → ((a : A) (trace : List Event) → Q a trace → R a trace)
      → Keeps g P m R
  Keeps-weaken {A = A} P m Q R k imp = record {
    trace = k.trace;
    value = λ w p. implied (m w).0 (m w).1.trace (k.value w p);
  }
    where
      implied :
          (r : Outcome A) (trace : List Event)
          → IfOk g r (λ a. Q a trace)
          → IfOk g r (λ a. R a trace)
      implied (ok a) trace q = imp a trace q
      implied (raise e) trace q = tt

  pub Keeps-option :
      {A B : Type 0} (o : Option A) (m : Action B) (f : A → Action B) (Q : B → List Event → Type 0)
      → Keeps g Always m Q
      → ((a : A) → o ≡ some a → Keeps g Always (f a) Q)
      → Keeps g Always (elim o [ none ↦ m | some a ↦ f a ]) Q
  Keeps-option none m f Q km kf = km
  Keeps-option (some a) m f Q km kf = kf a refl

  pub Keeps-pure : {A : Type 0} (a : A) (Q : A → Type 0) → Q a → Safe (pure a) Q
  unfolding pure
  Keeps-pure a Q q = record { trace = λ w _ h. h; value = λ w _. q }

  pub Keeps-throw : {A : Type 0} (e : Raised) (Q : A → Type 0) → Safe (throw e) Q
  unfolding throw
  Keeps-throw e Q = record { trace = λ w _ h. h; value = λ w _. tt }

  pub Keeps-lift : {A : Type 0} (r : Outcome A) → Safe (lift r) (λ a. r ≡ ok a)
  unfolding lift
  Keeps-lift r = record { trace = λ w _ h. h; value = λ w _. of_self r }
    where
      of_self : {A : Type 0} (r : Outcome A) → IfOk g r (λ a. r ≡ ok a)
      of_self (ok a) = refl
      of_self (raise e) = tt

  pub Keeps-ask : {A : Type 0} (f : List Event → A) → Safe (ask f) Anything
  unfolding ask
  Keeps-ask f = record { trace = λ w _ h. h; value = λ w _. tt }

  -- The new trace has the operation, with its answer, at the head.
  pub Keeps-on_disk :
      {A : Type 0} (f : Disk → A × Disk)
      → Keeps g Always (on_disk f) (λ a trace.
        (before : Disk) × (after : Disk) × (older : List Event) × (trace
          ≡ stored before after ∷ older)
        × (f before ≡ (a, after)))
  unfolding on_disk
  Keeps-on_disk f = record {
    trace = λ w _ h. (h.0, (refl, h.1));
    value = λ w _. (w.disk, (f w.disk).1, w.trace, refl, refl);
  }

  pub Keeps-on_disk_raising :
      {A : Type 0} (f : Disk → Outcome A × Disk) → Safe (on_disk_raising f) Anything
  unfolding on_disk_raising
  Keeps-on_disk_raising f = record {
    trace = λ w _ h. (h.0, (refl, h.1));
    value = λ w _. any_value (f w.disk).0;
  }

  -- What follows may rely on what is claimed of the first value and of the trace then.
  pub Keeps-bind_from :
      {A B : Type 0} (P : List Event → Type 0) (m : Action A) (f : A → Action B)
      (Q : A → List Event → Type 0) (R : B → List Event → Type 0)
      → Keeps g P m Q
      → ((a : A) → Keeps g (Q a) (f a) R)
      → Keeps g P (m >>= f) R
  unfolding ◌>>=◌
  Keeps-bind_from {A = A} {B = B} P m f Q R km kf = record {
    trace = λ w p h. go_trace (m w).0 (m w).1 (km.value w p) (km.trace w p h);
    value = λ w p. go_value (m w).0 (m w).1 (km.value w p);
  }
    where
      go_trace :
          (r : Outcome A) (w : World)
          → IfOk g r (λ a. Q a w.trace)
          → IsSound g w
          → IsSound g (continue r f w).1
      go_trace (ok a) w q h = (kf a).trace w q h
      go_trace (raise e) w q h = h

      go_value :
          (r : Outcome A) (w : World)
          → IfOk g r (λ a. Q a w.trace)
          → IfOk g (continue r f w).0 (λ b. R b (continue r f w).1.trace)
      go_value (ok a) w q = (kf a).value w q
      go_value (raise e) w q = tt

  pub Keeps-bind :
      {A B : Type 0} (m : Action A) (f : A → Action B) (Q : A → Type 0) (R : B → Type 0)
      → Safe m Q
      → ((a : A) → Q a → Safe (f a) R)
      → Safe (m >>= f) R
  Keeps-bind m f Q R km kf =
      Keeps-bind_from Always m f (λ a _. Q a) (λ b _. R b) km
        λ a. record { trace = λ w q h. (kf a q).trace w tt h; value = λ w q. (kf a q).value w tt }

  -- An event that is no call of the upstream server and no operation on the store.
  abbrev pub IsQuiet : Event → Type 0
  IsQuiet (sent _ _ _) = ⊥
  IsQuiet (stored _ _) = ⊥
  IsQuiet _ = Unit

  quiet-IsSound :
      (event : Event) (w : World)
      → IsQuiet event
      → IsSound g w
      → IsSound g (record w { trace = event ∷ w.trace })
  quiet-IsSound (sent _ _ _) w q h = absurd q
  quiet-IsSound (stored _ _) w q h = absurd q
  quiet-IsSound (audited _ _ _ _ _) w q h = h
  quiet-IsSound (counted _ _) w q h = h
  quiet-IsSound (approval_audited _ _) w q h = h
  quiet-IsSound (notified _ _) w q h = h
  quiet-IsSound (unwritten _) w q h = h

  pub Keeps-emit : (event : Event) → IsQuiet event → Safe (emit event) Anything
  unfolding emit
  Keeps-emit event q = record { trace = λ w _ h. quiet-IsSound event w q h; value = λ w _. tt }

  pub Keeps-attempt :
      (failure : List Event → Event → Option Raised) (event : Event)
      → IsQuiet event
      → Safe (attempt failure event) Anything
  unfolding attempt
  Keeps-attempt failure event q = record {
    trace = λ w _ h. elim (Option-cases (failure w.trace event)) [
      | inl fine ↦ rw (fine, attempt) (quiet-IsSound event w q h)
      | inr (e, failed) ↦ rw (failed, attempt) h
    ];
    value = λ w _. any_value (attempt failure event w).0;
  }

  after_write-IsSound :
      (answer : Written) (is_excused : Bool) (event : Event) (w : World)
      → IsQuiet event
      → IsSound g w
      → IsSound g (after_write answer is_excused event w).1
  unfolding after_write
  after_write-IsSound goes_well is_excused event w q h = quiet-IsSound event w q h
  after_write-IsSound os_error true event w q h = h
  after_write-IsSound os_error false event w q h = h
  after_write-IsSound (other_error e) is_excused event w q h = h

  pub Keeps-write_audit : (event : Event) → IsQuiet event → Safe (write_audit g event) Anything
  unfolding write_audit
  Keeps-write_audit event q = record {
    trace =
        λ w _ h. after_write-IsSound (g.env.audit_write w.trace event) (excused_by g) event w q h;
    value = λ w _. any_value (write_audit g event w).0;
  }

  pub Keeps-if :
      {A : Type 0} (b : Bool) (m n : Action A) (Q : A → List Event → Type 0)
      → (b ≡ true → Keeps g Always m Q)
      → (b ≡ false → Keeps g Always n Q)
      → Keeps g Always (if b then m else n) Q
  Keeps-if true m n Q km kn = km refl
  Keeps-if false m n Q km kn = kn refl

  pub Keeps-if_from :
      {A : Type 0} (b : Bool) (m n : Action A) (P : List Event → Type 0)
      (Q : A → List Event → Type 0)
      → (b ≡ true → Keeps g P m Q)
      → (b ≡ false → Keeps g P n Q)
      → Keeps g P (if b then m else n) Q
  Keeps-if_from true m n P Q km kn = km refl
  Keeps-if_from false m n P Q km kn = kn refl

  pub Keeps-then :
      {B : Type 0} (m : Action (Unit {0})) (n : Action B) (R : B → Type 0)
      → Safe m Anything
      → Safe n R
      → Safe (m >> n) R
  Keeps-then m n R km kn = Keeps-bind m (λ _. n) Anything R km (λ _ _. kn)
