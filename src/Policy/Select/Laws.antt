-- ===== src/Policy/Select/Laws.antt =====
-- policy/engine.py, `_select_by_precedence`: the selected policy is the first of least precedence.
use mcp_zero_trust_layer.Base.{
  ltb, ltb→lt, Bool-cases, All, IsIn, IsIn-append, All_at, All-append, ℕ, suc, ◌≤◌, ◌<◌, ◌≡◌, refl,
  ap, ◌∙◌, ◌⊎◌, inl, inr, true, false, none, some, List, [], ◌∷◌, ◌++◌, arith,
}
use mcp_zero_trust_layer.Config.{Effect, deny, PolicyConfig}
use mcp_zero_trust_layer.Policy.Select.{precedence, least, select_by_precedence}
use mathlib.Core.List.{append-nil, append_assoc}
use mathlib.Core.Path.{subst}

-- Where the selected policy stands: all before it come later in the precedence, none after it
-- comes earlier.
pub record IsFirstLeast (policies : List PolicyConfig) (p : PolicyConfig) : Type 0 where
  pub before : List PolicyConfig
  pub after : List PolicyConfig
  pub place : policies ≡ before ++ p ∷ after
  pub greater : All (λ q. precedence p.effect < precedence q.effect) before
  pub not_less : All (λ q. precedence p.effect ≤ precedence q.effect) after

All-weaken :
    {m n : ℕ} (qs : List PolicyConfig)
    → m ≤ n
    → All (λ q. n ≤ precedence q.effect) qs
    → All (λ q. m ≤ precedence q.effect) qs
All-weaken [] h a = tt
All-weaken (q ∷ qs) h (a, as_) = (omega arith, All-weaken qs h as_)

less_of_test :
    (a b : Effect) → ltb (precedence a) (precedence b) ≡ true → precedence a < precedence b
less_of_test a b h = ltb→lt _ _ h

le_of_test : (m n : ℕ) → ltb m n ≡ false → n ≤ m
le_of_test m n h = ground arith

-- The loop's invariant: `best` is the first least of what has been read, `before ++ best ∷ after`.
least-IsFirstLeast :
    (before after : List PolicyConfig) (best : PolicyConfig) (rest : List PolicyConfig)
    → All (λ q. suc (precedence best.effect) ≤ precedence q.effect) before
    → All (λ q. precedence best.effect ≤ precedence q.effect) after
    → IsFirstLeast (before ++ best ∷ (after ++ rest)) (least best rest)
unfolding least
least-IsFirstLeast before after best [] g n = record {
  before = before;
  after = after;
  place = rw append-nil;
  greater = g;
  not_less = n;
}
least-IsFirstLeast before after best (p ∷ rest) g n =
    let ahead = least-IsFirstLeast (before ++ best ∷ after) [] p rest in
    let kept = least-IsFirstLeast before (after ++ p ∷ []) best rest in
    elim (Bool-cases (ltb (precedence p.effect) (precedence best.effect))) [
      | inl test ↦
          let less = less_of_test p.effect best.effect test in
          rw test (
            rw append_assoc at (
              ahead
                (All-append _ before (best ∷ after) (All-weaken before (omega arith) g)
                  (less, All-weaken after less n))
                tt))
      | inr test ↦
          rw test
            (rw append_assoc at (kept g (All-append _ after (p ∷ []) n (le_of_test _ _ test, tt))))
    ]

-- When some policy matches, the selected one stands at a place where every policy before it has a
-- strictly later precedence and no policy after it has an earlier one; when none matches, none is
-- selected.
pub select_by_precedence-IsFirstLeast :
    (policies : List PolicyConfig)
    → ((policies ≡ []) × (select_by_precedence policies ≡ none))
      ⊎ ((p : PolicyConfig) × (select_by_precedence policies ≡ some p) × IsFirstLeast policies p)
unfolding select_by_precedence
select_by_precedence-IsFirstLeast [] = inl (refl, refl)
select_by_precedence-IsFirstLeast (p ∷ ps) =
    inr (least p ps, refl, least-IsFirstLeast [] [] p ps tt tt)

-- No policy of the list comes earlier than the selected one.
pub IsFirstLeast-le :
    {policies : List PolicyConfig} {p : PolicyConfig}
    → IsFirstLeast policies p
    → All (λ q. precedence p.effect ≤ precedence q.effect) policies
IsFirstLeast-le {p} f = rw (f.place) (
    All-append _ f.before (p ∷ f.after) (All-weaken f.before (omega arith) f.greater)
      (omega arith, f.not_less))

pub IsFirstLeast-IsIn :
    {policies : List PolicyConfig} {p : PolicyConfig} → IsFirstLeast policies p → IsIn p policies
IsFirstLeast-IsIn {p} f = rw (f.place) (IsIn-append p f.before f.after)

precedence-deny : precedence deny ≡ 0
unfolding precedence
precedence-deny = refl

pub deny_of_le_zero : (e : Effect) → precedence e ≤ 0 → e ≡ deny
unfolding precedence
deny_of_le_zero e h = ground arith

-- If some policy of the list denies, the selected policy denies, wherever they stand.
pub select_deny_overrides :
    (policies : List PolicyConfig) (q : PolicyConfig)
    → IsIn q policies
    → q.effect ≡ deny
    → (p : PolicyConfig) × (select_by_precedence policies ≡ some p) × (p.effect ≡ deny)
select_deny_overrides policies q m e = elim (select_by_precedence-IsFirstLeast policies) [
  | inl (empty, _) ↦ absurd (subst (IsIn q) empty m)
  | inr (p, selected, f) ↦ (
    p,
    selected,
    deny_of_le_zero p.effect (
        subst (λ k. precedence p.effect ≤ k) (ap precedence e ∙ precedence-deny)
          (All_at _ policies (IsFirstLeast-le f) m)),
  )
]
