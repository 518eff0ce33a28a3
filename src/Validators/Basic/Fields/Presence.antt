-- ===== src/Validators/Basic/Fields/Presence.antt =====
-- validators/basic.py: required and forbidden fields against the presence of each.
use mcp_zero_trust_layer.Base.{
  Bool-cases, all, String, ◌≡◌, refl, ap, ◌⊎◌, inl, inr, Bool, true, false, not, ◌&&◌, Option, none,
  some, List, [], ◌∷◌, map,
}
use mcp_zero_trust_layer.Value.{Value, str, list, nil, Fields, items, of_items, Outcome, ok}
use mcp_zero_trust_layer.Host.{Host}
use mcp_zero_trust_layer.Config.{texts}
use mcp_zero_trust_layer.Validators.InputPolicy.{is_passed, argument, is_missing}
use mcp_zero_trust_layer.Validators.Options.{iterate, option, get_path_value}
use mcp_zero_trust_layer.Validators.Basic.Fields.{
  first_field, report, check_presence, validate_required_forbidden_fields,
}

module _ (host : Host) (arguments : Fields) where
  abbrev pub is_present : String → Bool
  is_present path = not (is_missing (argument arguments path))

  abbrev pub is_absent : String → Bool
  is_absent path = is_missing (argument arguments path)

  -- the loop finds nothing exactly when no path is like this
  abbrev finds_none : Outcome (Option Value) → Bool
  finds_none (ok none) = true
  finds_none _ = false

  first_field-required :
      (paths : List String)
      → (first_field host true arguments (map str paths) ≡ ok none) × (all is_present paths ≡ true)
        ⊎ ((key : Value) × (first_field host true arguments (map str paths) ≡ ok (some key))
            × (all is_present paths ≡ false))
  unfolding first_field all get_path_value
  first_field-required [] = inl (refl, refl)
  first_field-required (p ∷ ps) = elim (Bool-cases (is_missing (argument arguments p))) [
    | inl gone ↦ inr (str p, rw gone refl, rw gone refl)
    | inr there ↦ rw there (first_field-required ps)
  ]

  first_field-forbidden :
      (paths : List String)
      → (first_field host false arguments (map str paths) ≡ ok none) × (all is_absent paths ≡ true)
        ⊎ ((key : Value) × (first_field host false arguments (map str paths) ≡ ok (some key))
            × (all is_absent paths ≡ false))
  unfolding first_field all get_path_value
  first_field-forbidden [] = inl (refl, refl)
  first_field-forbidden (p ∷ ps) = elim (Bool-cases (is_missing (argument arguments p))) [
    | inl gone ↦ rw gone (first_field-forbidden ps)
    | inr there ↦ inr (str p, rw there refl, rw there refl)
  ]

  check_presence-lem :
      (required forbidden : List String)
      → is_passed (check_presence host arguments (ok (map str required)) (ok (map str forbidden)))
        ≡ (all is_present required && all is_absent forbidden)
  unfolding check_presence report
  check_presence-lem required forbidden = elim (first_field-required required) [
    | inl (n, a) ↦ elim (first_field-forbidden forbidden) [
      | inl (m, b) ↦ rw (n, a) (rw (m, b) refl)
      | inr (key, m, b) ↦ rw (n, a) (rw (m, b) refl)
    ]
    | inr (key, n, a) ↦ rw (n, a) refl
  ]

items-texts : (paths : List String) → items (of_items (map str paths)) ≡ map str paths
items-texts [] = refl
items-texts (p ∷ ps) = ap (λ (vs : List Value). str p ∷ vs) (items-texts ps)

iterate-texts : (v : Value) (paths : List String) → v ≡ texts paths → iterate v ≡ ok (map str paths)
unfolding iterate
iterate-texts v paths h = rw (h, iterate) (ap ok (items-texts paths))

-- With lists of texts as its options, the check passes exactly when each of the required paths
-- leads to an argument and none of the forbidden ones does.
pub validate_required_forbidden_fields-lem :
    (host : Host) (arguments options : Fields) (required forbidden : List String)
    → option "required" (list nil) options ≡ texts required
    → option "forbidden" (list nil) options ≡ texts forbidden
    → is_passed (validate_required_forbidden_fields host arguments options)
      ≡ (all (is_present host arguments) required && all (is_absent host arguments) forbidden)
unfolding validate_required_forbidden_fields
validate_required_forbidden_fields-lem host arguments options required forbidden r f =
    rw
      (
        iterate-texts (option "required" (list nil) options) required r,
        iterate-texts (option "forbidden" (list nil) options) forbidden f,
      )
      (check_presence-lem host arguments required forbidden)
