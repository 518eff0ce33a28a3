-- ===== src/Validators/Basic/Fields.antt =====
-- validators/basic.py: patterns on a field, required and forbidden fields, and the size of a field.
pub mod Presence
use mcp_zero_trust_layer.Base.{
  if◌then◌else◌, ◌==◌, nat_eq, string_eq, option_eq, ℤ, pos, ltb_ℤ, int_eq, bool_eq, String, ◌<>◌,
  Bool, true, false, Option, none, some, List, [], ◌∷◌,
}
use mcp_zero_trust_layer.Value.{
  Value, null, bool, int, str, list, nil, Fields, get_or_null, is_truthy, type_error, regex_error,
  Outcome, ok, raise, ◌>>=◌, ◌>>◌, or_raise,
}
use mcp_zero_trust_layer.Host.{Host}
use mcp_zero_trust_layer.Config.{capability_type_eq}
use mcp_zero_trust_layer.Validators.InputPolicy.{
  ValidatorResult, result_ok, result_fail, is_missing,
}
use mcp_zero_trust_layer.Validators.Options.{iterate, option, get_path_value}
use Prim.Native.String.{len}

-- the value or `none`
abbrev present : Option Value → Option Value
present (some null) = none
present found = found

module _ (host : Host) where
  -- `re.search(pattern, value)`; `none` is `re.error`
  unfoldable pub pattern_found : Value → String → Outcome Bool
  pattern_found (str pattern) text = or_raise regex_error (host.search pattern text)
  pattern_found _ text = raise type_error

  -- `not pattern or ...`
  abbrev matches_if : Value → String → Outcome Bool → Outcome Bool
  matches_if pattern text default =
      if is_truthy pattern then pattern_found pattern text else default

  -- the two searches
  unfoldable pub search_patterns : Value → Value → String → Outcome ValidatorResult
  unfolding pattern_found is_truthy
  search_patterns allowed denied text = do
    found ← matches_if allowed text (ok true)
    (if found
        then (matches_if denied text (ok false) >>= λ hit.
            ok (if hit then result_fail "regex validator matched deny pattern" else result_ok))
        else ok (result_fail "regex validator did not match allow pattern"))

  -- `except re.error`
  unfoldable pub guard_pattern : String → Outcome ValidatorResult → Outcome ValidatorResult
  guard_pattern reason (raise regex_error) =
      ok (result_fail ("regex validator has an invalid pattern: " <> reason))
  guard_pattern reason outcome = outcome

  -- the text that is searched
  abbrev searched : Option Value → String
  searched found = elim (present found) [ none ↦ "" | some v ↦ host.to_str v ]

  -- `reason` is the text of the error
  unfoldable pub validate_regex : String → Fields → Fields → Outcome ValidatorResult
  unfolding get_or_null is_truthy get_path_value search_patterns guard_pattern
  validate_regex reason arguments options =
      let key = get_or_null "field" options in
      if is_truthy key
      then (get_path_value arguments key >>= λ found. guard_pattern reason (
          search_patterns (get_or_null "allow" options) (get_or_null "deny" options)
            (searched found)))
      else ok (result_fail "regex validator requires field option")

  -- one of the two loops: the first field that is missing, or that is there
  unfoldable pub first_field : Bool → Fields → List Value → Outcome (Option Value)
  unfolding get_path_value
  first_field missing arguments [] = ok none
  first_field missing arguments (key ∷ keys) = do
    found ← get_path_value arguments key
    (if is_missing found == missing then ok (some key) else first_field missing arguments keys)

  -- the failure of a loop that found a field, or what comes after the loop
  unfoldable pub report :
      String → Outcome (Option Value) → Outcome ValidatorResult → Outcome ValidatorResult
  report message (raise e) next = raise e
  report message (ok (some key)) next = ok (result_fail (message <> host.to_str key))
  report message (ok none) next = next

  -- the two loops
  unfoldable pub check_presence :
      Fields → Outcome (List Value) → Outcome (List Value) → Outcome ValidatorResult
  unfolding first_field report
  check_presence arguments required forbidden = do
    keys ← required
    report "required field missing: " (first_field true arguments keys) (
        forbidden >>= λ others.
        report "forbidden field present: " (first_field false arguments others) (ok result_ok))

  unfoldable pub validate_required_forbidden_fields : Fields → Fields → Outcome ValidatorResult
  unfolding option iterate check_presence
  validate_required_forbidden_fields arguments options =
      check_presence arguments (iterate (option "required" (list nil) options))
        (iterate (option "forbidden" (list nil) options))

  -- `isinstance(max_bytes, int)`: a Boolean is one
  abbrev as_int : Value → Option ℤ
  as_int (int z) = some z
  as_int (bool true) = some (pos 1)
  as_int (bool false) = some (pos 0)
  as_int _ = none

  -- `str(value or "")`
  abbrev text_or_empty : Value → String
  text_or_empty v = if is_truthy v then host.to_str v else ""

  unfoldable pub validate_max_field_bytes : Fields → Fields → Outcome ValidatorResult
  unfolding get_or_null is_truthy get_path_value
  validate_max_field_bytes arguments options =
      let key = get_or_null "field" options in
      let bad : Outcome ValidatorResult =
        ok (result_fail "max_field_bytes requires field and integer max_bytes") in
      elim (as_int (get_or_null "max_bytes" options)) [
        | none ↦ bad
        | some bound ↦
            if is_truthy key
            then (get_path_value arguments key >>= λ found. ok (elim found [
              | none ↦ result_ok
              | some v ↦
                  if ltb_ℤ bound (pos (len (text_or_empty v)))
                  then result_fail ("field exceeds max_bytes: " <> host.to_str key)
                  else result_ok
            ]))
            else bad
      ]
