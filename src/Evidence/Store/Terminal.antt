-- ===== src/Evidence/Store/Terminal.antt =====
-- evidence/store.py: what equality of receipts keeps, and which receipts conflict.
use mcp_zero_trust_layer.Base.{
  if◌then◌else◌, Bool-cases, ◌==◌, nat_eq, string_eq, option_eq, int_eq, bool_eq, String, ◌≡◌, refl,
  sym, ap, ◌∙◌, inl, inr, Bool, true, false, not, Option, none, some, arith, eq_iff,
}
use mcp_zero_trust_layer.Value.{
  Value, null, bool, int, str, list, dict, Fields, end, field, get, get_or_null, put, get-put,
  py_eq, eq_fields, key_error, Outcome, ok, raise, ◌>>=◌, >>=-eq-ok, ok-injective,
}
use mcp_zero_trust_layer.Config.{capability_type_eq}
use mcp_zero_trust_layer.Evidence.Tables.{item}
use mcp_zero_trust_layer.Evidence.Store.{is_terminal, is_stale, conflicts}

-- Equal dicts have equal entries.
get-eq_fields :
    (k : String) (fs gs : Fields) (v : Value)
    → eq_fields fs gs ≡ true
    → get k fs ≡ some v
    → (w : Value) × (get k gs ≡ some w) × (py_eq v w ≡ true)
unfolding py_eq get
get-eq_fields k end gs v h g = cc
get-eq_fields k (field j x fs) gs v h g = elim (Bool-cases (j == k)) [
  | inl here ↦
      let (w, e, q) = entry (get j gs) (ground arith) in
      (
        w,
        ap (λ (key : String). get key gs) (sym ((eq_iff j k).0 here)) ∙ e,
        ap (λ (y : Value). py_eq y w) (same here) ∙ q,
      )
  | inr there ↦ get-eq_fields k fs gs v (ground arith) (ground arith)
]
  where
    entry :
        (o : Option Value)
        → elim o as (λ _. Bool) [ none ↦ false | some w ↦ py_eq x w ] ≡ true
        → (w : Value) × (o ≡ some w) × (py_eq x w ≡ true)
    entry none h = cc
    entry (some w) h = (w, refl, h)

    same : (j == k) ≡ true → v ≡ x
    same here = ground arith

item-py_eq :
    (k : String) (a b v : Value)
    → py_eq a b ≡ true
    → item k a ≡ ok v
    → (w : Value) × (item k b ≡ ok w) × (py_eq v w ≡ true)
unfolding item py_eq
item-py_eq k (dict fs) (dict gs) v h g =
    let (w, e, q) = get-eq_fields k fs gs v (ground arith) (found (get k fs) g) in
    (w, rw (e, item) refl, q)
  where
    found :
        (o : Option Value)
        → elim o as (λ _. Outcome Value) [ none ↦ raise (key_error k) | some v ↦ ok v ] ≡ ok v
        → o ≡ some v
    found none h = cc
    found (some x) h = cc
item-py_eq k (dict fs) null v h g = cc
item-py_eq k (dict fs) (bool b) v h g = cc
item-py_eq k (dict fs) (int b) v h g = cc
item-py_eq k (dict fs) (str b) v h g = cc
item-py_eq k (dict fs) (list b) v h g = cc
item-py_eq k null b v h g = cc
item-py_eq k (bool c) b v h g = cc
item-py_eq k (int c) b v h g = cc
item-py_eq k (str c) b v h g = cc
item-py_eq k (list c) b v h g = cc

-- a value that is not the text "pending", and one equal to it
not_pending :
    (v w : Value)
    → py_eq v w ≡ true
    → py_eq v (str "pending") ≡ false
    → py_eq w (str "pending") ≡ false
unfolding py_eq
not_pending (str s) (str t) h n = rw (sym ((eq_iff s t).0 h)) n
not_pending v null h n = refl
not_pending v (bool b) h n = refl
not_pending v (int b) h n = refl
not_pending v (list b) h n = refl
not_pending v (dict b) h n = refl
not_pending null (str t) h n = cc
not_pending (bool b) (str t) h n = cc
not_pending (int b) (str t) h n = cc
not_pending (list b) (str t) h n = cc
not_pending (dict b) (str t) h n = cc

pub is_terminal-py_eq :
    (a b : Value) → py_eq a b ≡ true → is_terminal a ≡ ok true → is_terminal b ≡ ok true
unfolding is_terminal
is_terminal-py_eq a b h t =
    let (p, ep, t1) =
      >>=-eq-ok (item "payload" a)
        (λ (payload : Value).
          item "effect" payload >>= λ effect. ok (not (py_eq effect (str "pending"))))
        t in
    let (f, ef, t2) =
      >>=-eq-ok (item "effect" p) (λ (effect : Value). ok (not (py_eq effect (str "pending"))))
        t1 in
    let (q, eq, same) = item-py_eq "payload" a b p h ep in
    let (g, eg, same_effect) = item-py_eq "effect" p q f same ef in
    rw (eq, is_terminal)
      (rw eg (
        ap ok (
          ap not
            (not_pending f g same_effect (not_true (py_eq f (str "pending")) (ok-injective t2))))))
  where
    not_true : (b : Bool) → not b ≡ true → b ≡ false
    not_true true h = cc
    not_true false h = refl

settle :
    (b : Bool) (m x : Outcome Bool)
    → m ≡ ok true
    → (if b then ok false else (m >>= λ terminal. if terminal then ok true else x)) ≡ ok false
    → b ≡ true
settle true m x e h = refl
settle false (ok true) x e h = cc
settle false (ok false) x e h = cc
settle false (raise r) x e h = cc

null_is_not_terminal : is_terminal null ≡ ok true → ⊥
unfolding is_terminal item
null_is_not_terminal h = cc

pub get_or_null-put :
    (bundle receipt : Fields)
    → get_or_null "receipt" (put "receipt" (dict receipt) bundle) ≡ dict receipt
unfolding get_or_null
get_or_null-put bundle receipt =
    rw (get-put "receipt" "receipt" (dict receipt) bundle, get_or_null) refl

-- a receipt that does not conflict with a terminal one is equal to it
pub conflicts-terminal :
    (old receipt : Value)
    → is_terminal old ≡ ok true
    → conflicts old receipt ≡ ok false
    → py_eq old receipt ≡ true
unfolding conflicts
conflicts-terminal null receipt t c = absurd (null_is_not_terminal t)
conflicts-terminal (bool b) receipt t c =
    settle (py_eq (bool b) receipt) (is_terminal (bool b)) (is_stale (bool b) receipt) t c
conflicts-terminal (int b) receipt t c =
    settle (py_eq (int b) receipt) (is_terminal (int b)) (is_stale (int b) receipt) t c
conflicts-terminal (str b) receipt t c =
    settle (py_eq (str b) receipt) (is_terminal (str b)) (is_stale (str b) receipt) t c
conflicts-terminal (list b) receipt t c =
    settle (py_eq (list b) receipt) (is_terminal (list b)) (is_stale (list b) receipt) t c
conflicts-terminal (dict b) receipt t c =
    settle (py_eq (dict b) receipt) (is_terminal (dict b)) (is_stale (dict b) receipt) t c
