-- ===== src/Output/Enforcer/Redacted.antt =====
-- output/enforcer.py: what the redaction of fields leaves.
use mcp_zero_trust_layer.Base.{
  if◌then◌else◌, nat_eq, string_eq, option_eq, contains, int_eq, bool_eq, String, ◌<>◌, ◌≡◌, refl,
  sym, ap, ◌∙◌, Bool, true, false, Option, none, some, List,
}
use mcp_zero_trust_layer.Value.{
  Value, null, bool, int, str, list, dict, Items, nil, cons, Fields, end, field, Outcome, ok, raise,
  ◌>>=◌, >>=-eq-ok, ok-injective,
}
use mcp_zero_trust_layer.Host.{Host}
use mcp_zero_trust_layer.Config.{capability_type_eq, OutputPolicy, PolicyConfig}
use mcp_zero_trust_layer.Output.Enforcer.{
  redact_fields, redact_dict, redact_items, include_only, Enforced, sub_patterns, redact_patterns,
  redact_patterns_dict, redact_patterns_items, denied_by_pattern, compile_all, exceeds,
  rewrite_output, enforce_policy, enforce,
}
use mathlib.Core.Path.{subst}

module _ (hidden : List String) (mark : Value) where
  -- At every depth, each key of `hidden` has the value `mark`.
  mutual
    pub IsMasked : Value → Type 0
    IsMasked (dict fs) = AreFieldsMasked fs
    IsMasked (list vs) = AreItemsMasked vs
    IsMasked null = Unit
    IsMasked (bool b) = Unit
    IsMasked (int n) = Unit
    IsMasked (str s) = Unit

    pub AreFieldsMasked : Fields → Type 0
    AreFieldsMasked end = Unit
    AreFieldsMasked (field key v fs) =
        (contains hidden key ≡ true → v ≡ mark) × IsMasked v × AreFieldsMasked fs

    pub AreItemsMasked : Items → Type 0
    AreItemsMasked nil = Unit
    AreItemsMasked (cons v vs) = IsMasked v × AreItemsMasked vs

module _ (host : Host) (hidden : List String) (patterns : List String) where
  -- what the patterns make of the text "[REDACTED]"
  abbrev pub masked_text : Value
  masked_text = str (sub_patterns host patterns "[REDACTED]")

  -- one field, by whether its key is hidden
  field-IsMasked :
      (b : Bool) (v : Value)
      → IsMasked hidden masked_text (redact_patterns host (redact_fields v hidden) patterns)
      → (b ≡ true
          → redact_patterns host
              (elim b [ true ↦ str "[REDACTED]" | false ↦ redact_fields v hidden ])
              patterns
            ≡ masked_text)
        × IsMasked hidden masked_text (
            redact_patterns host
              (elim b [ true ↦ str "[REDACTED]" | false ↦ redact_fields v hidden ])
              patterns)
  unfolding redact_patterns IsMasked
  field-IsMasked true v h = (λ _. refl, tt)
  field-IsMasked false v h = (λ e. cc, h)

  mutual
    unfolding redact_fields redact_patterns IsMasked

    value-IsMasked :
        (v : Value)
        → IsMasked hidden masked_text (redact_patterns host (redact_fields v hidden) patterns)
    value-IsMasked (dict fs) = fields-AreFieldsMasked fs
    value-IsMasked (list vs) = items-AreItemsMasked vs
    value-IsMasked null = tt
    value-IsMasked (bool b) = tt
    value-IsMasked (int n) = tt
    value-IsMasked (str s) = tt

    fields-AreFieldsMasked :
        (fs : Fields)
        → AreFieldsMasked hidden masked_text
            (redact_patterns_dict host (redact_dict fs hidden) patterns)
    fields-AreFieldsMasked end = tt
    fields-AreFieldsMasked (field key v fs) =
        let (marked, deeper) = field-IsMasked (contains hidden key) v (value-IsMasked v) in
        (marked, deeper, fields-AreFieldsMasked fs)

    items-AreItemsMasked :
        (vs : Items)
        → AreItemsMasked hidden masked_text
            (redact_patterns_items host (redact_items vs hidden) patterns)
    items-AreItemsMasked nil = tt
    items-AreItemsMasked (cons v vs) = (value-IsMasked v, items-AreItemsMasked vs)

differ : {A : Type 0} → false ≡ true → A
differ h = cc

abbrev blocked : Option String → Outcome Enforced
blocked why = ok (false, null, why)

abbrev released : Value → Outcome Enforced
released v = ok (true, v, none)

-- An output that passes the two tests is the rewritten one.
passed :
    (denied over : Bool) (compiled : Outcome (Unit {0})) (why why' reason : Option String)
    (v shown : Value)
    → (if denied
        then blocked why
        else if over
        then blocked why'
        else (compiled >>= λ _. released v))
      ≡ ok (true, shown, reason)
    → v ≡ shown
passed true over compiled why why' reason v shown h =
    differ (ap (λ (x : Enforced). x.0) (ok-injective h))
passed false true compiled why why' reason v shown h =
    differ (ap (λ (x : Enforced). x.0) (ok-injective h))
passed false false (raise e) why why' reason v shown h = cc
passed false false (ok u) why why' reason v shown h = ap (λ (x : Enforced). x.1) (ok-injective h)

enforce_policy-passed :
    (host : Host) (output : Value) (policy_id : String) (rules : OutputPolicy) (shown : Value)
    (reason : Option String)
    → enforce_policy host output policy_id rules ≡ ok (true, shown, reason)
    → rewrite_output host output rules ≡ shown
unfolding enforce_policy
enforce_policy-passed host output policy_id rules shown reason h =
    let (denied, _, h1) =
      >>=-eq-ok (denied_by_pattern host rules.deny_if_matches (host.dumps output)) _ h in
    passed denied (exceeds host rules.max_bytes (host.dumps output))
      (compile_all host rules.redact_patterns)
      (some ("output matched deny pattern for policy " <> policy_id))
      (some ("output exceeded max_bytes for policy " <> policy_id)) reason
      (rewrite_output host output rules) shown h1

rewrite_output-IsMasked :
    (host : Host) (output : Value) (rules : OutputPolicy)
    → IsMasked rules.redact_fields
        (masked_text host rules.redact_fields rules.redact_patterns)
        (rewrite_output host output rules)
unfolding rewrite_output
rewrite_output-IsMasked host output rules =
    value-IsMasked host rules.redact_fields rules.redact_patterns
      (include_only rules.include_fields output)

-- An output that `enforce` lets pass under output rules holds, at every depth, under each redacted
-- key nothing but what the redaction patterns make of the text "[REDACTED]".
pub enforce-IsMasked :
    (host : Host) (output : Value) (policy : PolicyConfig) (rules : OutputPolicy) (shown : Value)
    (reason : Option String)
    → policy.output ≡ some rules
    → enforce host output policy ≡ ok (true, shown, reason)
    → IsMasked rules.redact_fields
        (masked_text host rules.redact_fields rules.redact_patterns)
        shown
unfolding enforce
enforce-IsMasked host output policy rules shown reason given h =
    subst
      (IsMasked rules.redact_fields (masked_text host rules.redact_fields rules.redact_patterns))
      (enforce_policy-passed host output policy.id rules shown reason
        (sym (option_rules policy.output given) ∙ h))
      (rewrite_output-IsMasked host output rules)
  where
    option_rules :
        (o : Option OutputPolicy)
        → o ≡ some rules
        → ◌≡◌ {A = Outcome Enforced}
            (elim o [
              | none ↦ ok (true, output, none)
              | some r ↦ enforce_policy host output policy.id r
            ])
            (enforce_policy host output policy.id rules)
    option_rules o e = rw e
