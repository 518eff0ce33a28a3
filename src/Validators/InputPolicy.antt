-- ===== src/Validators/InputPolicy.antt =====
-- validators/input_policy.py: the constraints of a policy on the arguments of a call.
use mcp_zero_trust_layer.Base.{
  if◌then◌else◌, ◌==◌, nat_eq, string_eq, option_eq, length, is_empty, any, keep, ℤ, pos, ltb_ℤ,
  int_eq, bool_eq, ℕ, String, ◌<>◌, Bool, true, false, not, ◌&&◌, Option, none, some, List, [], ◌∷◌,
  ◌++◌, map,
}
use mcp_zero_trust_layer.Base.Text.{split, join}
use mcp_zero_trust_layer.Value.{
  Value, int, str, list, dict, Items, Fields, end, field, items, get, mem_items, Outcome, ok, raise,
}
use mcp_zero_trust_layer.Host.{Host}
use mcp_zero_trust_layer.Config.{capability_type_eq, InputPolicy}
use Prim.Native.String.{len}

-- validators/models.py
pub record ValidatorResult : Type 0 where
  pub passed : Bool
  pub errors : List String

abbrev pub result_ok : ValidatorResult
result_ok = record { passed = true; errors = [] }

abbrev pub result_fail : String → ValidatorResult
result_fail message = record { passed = false; errors = message ∷ [] }

-- the validator returned, and without an error
abbrev pub is_passed : Outcome ValidatorResult → Bool
is_passed (ok result) = result.passed
is_passed (raise e) = false

-- `ValidatorResult(passed=not errors, errors=errors)`
abbrev pub result_of_errors : List String → ValidatorResult
result_of_errors errors = record { passed = is_empty errors; errors = errors }

-- `path[: len(p)] == p and len(path) >= len(p)`
unfoldable pub is_prefix : List String → List String → Bool
is_prefix [] path = true
is_prefix (x ∷ p) [] = false
is_prefix (x ∷ p) (y ∷ path) = x == y && is_prefix p path

-- The same, and `len(p) < len(path)`.
unfoldable pub is_strict_prefix : List String → List String → Bool
is_strict_prefix [] [] = false
is_strict_prefix [] (y ∷ path) = true
is_strict_prefix (x ∷ p) [] = false
is_strict_prefix (x ∷ p) (y ∷ path) = x == y && is_strict_prefix p path

unfoldable pub is_allowed_leaf : List String → List (List String) → Bool
unfolding any is_prefix
is_allowed_leaf path allowed_paths = any (λ allowed. is_prefix allowed path) allowed_paths

unfoldable pub is_allowed_ancestor : List String → List (List String) → Bool
unfolding any is_strict_prefix
is_allowed_ancestor path allowed_paths =
    any (λ allowed. is_strict_prefix path allowed) allowed_paths

-- `_get_path`; `none` is `MISSING`
unfoldable pub get_argument : List String → Value → Option Value
unfolding get
get_argument [] v = some v
get_argument (piece ∷ pieces) (dict fs) = elim (get piece fs) [
  | none ↦ none
  | some w ↦ get_argument pieces w
]
get_argument (piece ∷ pieces) _ = none

abbrev pub argument : Fields → String → Option Value
argument arguments path = get_argument (split b'.' path) (dict arguments)

abbrev pub is_missing {ℓ} : {A : Type ℓ} → Option A → Bool
is_missing none = true
is_missing (some _) = false

module _ (host : Host) where
  unfoldable mutual
    pub collect_disallowed : Value → List String → List (List String) → List String
    collect_disallowed (dict fs) prefix allowed = collect_fields fs prefix allowed
    collect_disallowed _ prefix allowed =
        ("field "
          <> (host.repr (join "." prefix) <> " must be an object for nested allowed_fields"))
        ∷ []

    pub collect_fields : Fields → List String → List (List String) → List String
    collect_fields end prefix allowed = []
    collect_fields (field key item fs) prefix allowed =
        let path = prefix ++ key ∷ [] in
        (if is_allowed_leaf path allowed
          then []
          else if is_allowed_ancestor path allowed
          then collect_disallowed item path allowed
          else ("field " <> (host.repr (join "." path) <> " is not allowed")) ∷ [])
        ++ collect_fields fs prefix allowed

  unfoldable pub allowed_field_errors : Fields → InputPolicy → List String
  unfolding collect_disallowed is_allowed_leaf is_allowed_ancestor split
  allowed_field_errors arguments policy =
      if is_empty policy.allowed_fields
      then []
      else collect_disallowed (dict arguments) [] (map (split b'.') policy.allowed_fields)

  unfoldable pub required_field_errors : Fields → InputPolicy → List String
  unfolding keep get_argument split
  required_field_errors arguments policy =
      map (λ path. "field " <> (host.repr path <> " is required"))
        (keep (λ path. is_missing (argument arguments path)) policy.required_fields)

  unfoldable pub forbidden_field_errors : Fields → InputPolicy → List String
  unfolding keep get_argument split
  forbidden_field_errors arguments policy =
      map (λ path. "field " <> (host.repr path <> " is forbidden"))
        (keep (λ path. not (is_missing (argument arguments path))) policy.forbidden_fields)

  -- a rule of the policy for one path, on the value found there
  abbrev violates {ℓ} : {A : Type ℓ} → (A → Value → Bool) → Fields → String × A → Bool
  violates bad arguments (path, bound) = elim (argument arguments path) [
    | none ↦ false
    | some v ↦ bad bound v
  ]

  abbrev not_among : Items → Value → Bool
  not_among allowed v = not (mem_items v allowed)

  unfoldable pub allowed_value_errors : Fields → InputPolicy → List String
  unfolding keep get_argument split mem_items
  allowed_value_errors arguments policy =
      map
        (λ (path, allowed).
          "field " <> (host.repr path <> (" must be one of " <> host.to_str (list allowed))))
        (keep (violates not_among arguments) policy.allowed_values)

  -- `_encoded_size`
  unfoldable pub encoded_size : Value → ℕ
  encoded_size (str s) = len s
  encoded_size v = len (host.canonical_dumps v)

  abbrev too_long : ℤ → Value → Bool
  too_long most v = ltb_ℤ most (pos (encoded_size v))

  unfoldable pub max_field_bytes_errors : Fields → InputPolicy → List String
  unfolding keep get_argument split encoded_size
  max_field_bytes_errors arguments policy =
      map
        (λ (path, most).
          "field " <> (host.repr path <> (" exceeds " <> (host.to_str (int most) <> " bytes"))))
        (keep (violates too_long arguments) policy.max_field_bytes)

  abbrev too_many : ℤ → Value → Bool
  too_many most (list vs) = ltb_ℤ most (pos (length (items vs)))
  too_many most _ = false

  unfoldable pub max_list_items_errors : Fields → InputPolicy → List String
  unfolding keep get_argument split
  max_list_items_errors arguments policy =
      map
        (λ (path, most).
          "field "
          <> (host.repr path <> (" has more than " <> (host.to_str (int most) <> " item(s)"))))
        (keep (violates too_many arguments) policy.max_list_items)

  unfoldable pub validate_input_policy : Fields → InputPolicy → ValidatorResult
  unfolding allowed_field_errors required_field_errors forbidden_field_errors allowed_value_errors
      max_field_bytes_errors max_list_items_errors
  validate_input_policy arguments policy = result_of_errors (
      allowed_field_errors arguments policy
      ++ (required_field_errors arguments policy
          ++ (forbidden_field_errors arguments policy
              ++ (allowed_value_errors arguments policy
                  ++ (max_field_bytes_errors arguments policy
                      ++ max_list_items_errors arguments policy)))))
