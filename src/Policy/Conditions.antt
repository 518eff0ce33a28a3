-- ===== src/Policy/Conditions.antt =====
-- policy/conditions.py: the `when` part of a policy.
use mcp_zero_trust_layer.Base.{
  if◌then◌else◌, ◌==◌, nat_eq, string_eq, option_eq, int_eq, bool_eq, String, Bool, true, false,
  not, ◌||◌, none, some, List, [], ◌∷◌,
}
use mcp_zero_trust_layer.Base.Text.{split, is_substring}
use mcp_zero_trust_layer.Value.{
  Value, null, str, list, dict, Fields, fields, get_or_null, has, is_truthy, py_eq, mem_items,
  py_lt, type_error, regex_error, Outcome, ok, raise, ◌>>=◌, all_ok, or_raise,
}
use mcp_zero_trust_layer.Host.{Host}
use mcp_zero_trust_layer.Config.{capability_type_eq, identity_dump, RequestContext}

-- `a in b`
unfoldable pub py_in : Value → Value → Outcome Bool
unfolding mem_items is_substring has
py_in v (list xs) = ok (mem_items v xs)
py_in (str s) (dict fs) = ok (has s fs)
py_in (list _) (dict fs) = raise type_error
py_in (dict _) (dict fs) = raise type_error
py_in _ (dict fs) = ok false
py_in (str s) (str t) = ok (is_substring s t)
py_in _ (str t) = raise type_error
py_in _ _ = raise type_error

-- `a < b`
unfoldable pub less : Value → Value → Outcome Bool
unfolding py_lt
less a b = or_raise type_error (py_lt a b)

abbrev negate : Bool → Outcome Bool
negate b = ok (not b)

abbrev pub is_null : Value → Bool
is_null null = true
is_null _ = false

module _ (host : Host) where
  -- One round of the loop in `_get_path`. On a value that is no dict it is `getattr`.
  unfoldable pub step_into : Value → String → Value
  unfolding get_or_null
  step_into (dict fs) part = get_or_null part fs
  step_into v part = elim (host.attribute v part) [ none ↦ null | some w ↦ w ]

  unfoldable pub walk : Value → List String → Value
  unfolding step_into
  walk v [] = v
  walk v (part ∷ parts) = elim (step_into v part) [ null ↦ null | w ↦ walk w parts ]

  unfoldable pub root : RequestContext → String → Value
  unfolding identity_dump
  root context name =
      if name == "args" || name == "arguments"
      then dict context.arguments
      else if name == "identity"
      then dict (identity_dump context.identity)
      else if name == "metadata"
      then dict context.metadata
      else if name == "output"
      then context.output
      else null

  unfoldable pub get_path_parts : RequestContext → List String → Value
  unfolding root walk
  get_path_parts context [] = null
  get_path_parts context (name ∷ parts) = elim (root context name) [
    | null ↦ null
    | v ↦ walk v parts
  ]

  unfoldable pub get_path : RequestContext → String → Value
  unfolding get_path_parts split
  get_path context path = get_path_parts context (split b'.' path)

  unfoldable pub compare_values : String → Value → Value → Outcome Bool
  unfolding py_in less py_eq is_truthy
  compare_values operator actual operand =
      if operator == "equals"
      then ok (py_eq actual operand)
      else if operator == "not_equals"
      then ok (not (py_eq actual operand))
      else if operator == "in"
      then py_in actual operand
      else if operator == "not_in"
      then py_in actual operand >>= negate
      else if operator == "contains"
      then (if is_null actual then ok false else py_in operand actual)
      else if operator == "matches"
      then or_raise regex_error
          (host.search (host.to_str operand) (if is_truthy actual then host.to_str actual else ""))
      else if operator == "exists"
      then ok (not (is_null actual) == is_truthy operand)
      else if operator == "gt"
      then less operand actual
      else if operator == "gte"
      then less actual operand >>= negate
      else if operator == "lt"
      then less actual operand
      else if operator == "lte"
      then less operand actual >>= negate
      else ok false

  unfoldable pub evaluate_condition : RequestContext → String × Value → Outcome Bool
  unfolding get_path compare_values all_ok
  evaluate_condition context (path, dict operators) =
      all_ok (λ (operator, operand). compare_values operator (get_path context path) operand)
        (fields operators)
  evaluate_condition context (path, expected) = ok (py_eq (get_path context path) expected)

  unfoldable pub evaluate_conditions : Fields → RequestContext → Outcome Bool
  unfolding evaluate_condition
  evaluate_conditions conditions context = all_ok (evaluate_condition context) (fields conditions)
