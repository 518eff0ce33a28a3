-- ===== src/Output/Enforcer.antt =====
-- output/enforcer.py: denial, size limit, projection and redaction of an output.
pub mod Redacted
use mcp_zero_trust_layer.Base.{
  if◌then◌else◌, nat_eq, string_eq, option_eq, contains, ℤ, pos, ltb_ℤ, int_eq, bool_eq, String,
  ◌<>◌, Bool, true, false, Option, none, some, List, [], ◌∷◌,
}
use mcp_zero_trust_layer.Value.{
  Value, null, bool, int, str, list, dict, Items, nil, cons, Fields, end, field, get, put,
  regex_error, Outcome, ok, raise, ◌>>=◌, ◌>>◌,
}
use mcp_zero_trust_layer.Host.{Host}
use mcp_zero_trust_layer.Config.{capability_type_eq, OutputPolicy, PolicyConfig}
use Prim.Native.String.{len}

unfoldable mutual
  pub redact_fields : Value → List String → Value
  redact_fields (dict fs) hidden = dict (redact_dict fs hidden)
  redact_fields (list vs) hidden = list (redact_items vs hidden)
  redact_fields null hidden = null
  redact_fields (bool b) hidden = bool b
  redact_fields (int n) hidden = int n
  redact_fields (str s) hidden = str s

  pub redact_dict : Fields → List String → Fields
  redact_dict end hidden = end
  redact_dict (field key item fs) hidden =
      field key
        (elim (contains hidden key) [ true ↦ str "[REDACTED]" | false ↦ redact_fields item hidden ])
        (redact_dict fs hidden)

  pub redact_items : Items → List String → Items
  redact_items nil hidden = nil
  redact_items (cons v vs) hidden = cons (redact_fields v hidden) (redact_items vs hidden)

-- `{key: output.get(key) for key in include_fields if key in output}`
unfoldable pub include_from : Fields → List String → Fields → Fields
unfolding get put
include_from out [] fs = out
include_from out (key ∷ keys) fs =
    include_from (elim (get key fs) [ none ↦ out | some v ↦ put key v out ]) keys fs

unfoldable pub include_only : List String → Value → Value
unfolding include_from
include_only [] v = v
include_only keys (dict fs) = dict (include_from end keys fs)
include_only keys v = v

-- what `enforce` gives: allowed with the output, or blocked with the reason
abbrev pub Enforced : Type 0
Enforced = Bool × Value × Option String

module _ (host : Host) where
  -- the patterns in turn; a pattern that compiles substitutes
  unfoldable pub sub_patterns : List String → String → String
  sub_patterns [] text = text
  sub_patterns (pattern ∷ patterns) text =
      sub_patterns patterns (elim (host.sub pattern text) [ none ↦ text | some t ↦ t ])

  unfoldable mutual
    pub redact_patterns : Value → List String → Value
    redact_patterns (dict fs) patterns = dict (redact_patterns_dict fs patterns)
    redact_patterns (list vs) patterns = list (redact_patterns_items vs patterns)
    redact_patterns (str s) patterns = str (sub_patterns patterns s)
    redact_patterns null patterns = null
    redact_patterns (bool b) patterns = bool b
    redact_patterns (int n) patterns = int n

    pub redact_patterns_dict : Fields → List String → Fields
    redact_patterns_dict end patterns = end
    redact_patterns_dict (field key item fs) patterns =
        field key (redact_patterns item patterns) (redact_patterns_dict fs patterns)

    pub redact_patterns_items : Items → List String → Items
    redact_patterns_items nil patterns = nil
    redact_patterns_items (cons v vs) patterns =
        cons (redact_patterns v patterns) (redact_patterns_items vs patterns)

  -- the loop over `deny_if_matches`, which stops at the first match
  unfoldable pub denied_by_pattern : List String → String → Outcome Bool
  denied_by_pattern [] text = ok false
  denied_by_pattern (pattern ∷ patterns) text =
      let rest = denied_by_pattern patterns text in
      elim (host.search pattern text) [
        | none ↦ raise regex_error
        | some found ↦ if found then ok true else rest
      ]

  -- `re.compile` of each pattern
  unfoldable pub compile_all : List String → Outcome (Unit {0})
  compile_all [] = ok tt
  compile_all (pattern ∷ patterns) =
      let rest = compile_all patterns in
      elim (host.sub pattern "") [ none ↦ raise regex_error | some _ ↦ rest ]

  abbrev pub exceeds : Option ℤ → String → Bool
  exceeds none text = false
  exceeds (some most) text = ltb_ℤ most (pos (len text))

  -- the three rewritings, in order
  unfoldable pub rewrite_output : Value → OutputPolicy → Value
  unfolding include_only redact_fields redact_patterns
  rewrite_output output policy =
      redact_patterns
        (redact_fields (include_only policy.include_fields output) policy.redact_fields)
        policy.redact_patterns

  unfoldable pub enforce_policy : Value → String → OutputPolicy → Outcome Enforced
  unfolding denied_by_pattern compile_all
  enforce_policy output policy_id policy = do
    let serialized = host.dumps output
    denied ← denied_by_pattern policy.deny_if_matches serialized
    (if denied
        then ok (false, null, some ("output matched deny pattern for policy " <> policy_id))
        else if exceeds policy.max_bytes serialized
        then ok (false, null, some ("output exceeded max_bytes for policy " <> policy_id))
        else (compile_all policy.redact_patterns >>= λ _.
            ok (true, rewrite_output output policy, none)))

  unfoldable pub enforce : Value → PolicyConfig → Outcome Enforced
  unfolding enforce_policy
  enforce output policy = elim policy.output [
    | none ↦ ok (true, output, none)
    | some rules ↦ enforce_policy output policy.id rules
  ]
