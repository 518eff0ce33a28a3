-- ===== src/Validators/Engine/Closed.antt =====
-- validators/engine.py: the result of the engine against the runs of the validators.
use mcp_zero_trust_layer.Base.{
  if◌then◌else◌, ◌==◌, nat_eq, string_eq, option_eq, is_empty, All, int_eq, bool_eq, String, ◌≡◌,
  refl, ◌↔◌, ◌⊎◌, inl, inr, Bool, true, false, List, [], ◌∷◌, ◌++◌, eq_iff,
}
use mcp_zero_trust_layer.Value.{Fields, Outcome, ok, raise}
use mcp_zero_trust_layer.Host.{Host}
use mcp_zero_trust_layer.Config.{capability_type_eq, ValidatorConfig, RequestContext}
use mcp_zero_trust_layer.Validators.InputPolicy.{ValidatorResult, result_fail}
use mcp_zero_trust_layer.Validators.Engine.{
  BasicValidators, with_base_dir, dispatch_validator, run_validator, errors_of, validator_errors,
  validate,
}

-- an `if` with a known value
chosen :
    {A : Type 0} (b : Bool) {x y r : A}
    → (if b then x else y) ≡ r
    → ((b ≡ true) × (x ≡ r)) ⊎ (y ≡ r)
chosen true h = inl (refl, h)
chosen false h = inr h

unknown_fails :
    (t : String) (result : ValidatorResult)
    → ok (result_fail t) ≡ ok result
    → result.errors ≡ []
    → ⊥
unknown_fails t result h k = cc

module _ (basic : BasicValidators) (host : Host) (context : RequestContext) where
  -- The options of a validator, where the base directory of the configuration stands in for a
  -- missing one.
  abbrev options_of : ValidatorConfig → Fields
  options_of v = with_base_dir context.config_base_dir v.options

  -- The validator has one of the seven names, and the function of that name, on the arguments of
  -- the call and these options, returned this result.
  pub data Returned (v : ValidatorConfig) (result : ValidatorResult) : Type 0 where
    by_sql_read_only :
        v.name ≡ "sql_read_only"
        → basic.sql_read_only context.arguments (options_of v) ≡ ok result
        → Returned v result
    by_filesystem_path :
        v.name ≡ "filesystem_path"
        → basic.filesystem_path context.arguments (options_of v) ≡ ok result
        → Returned v result
    by_url :
        v.name ≡ "url" → basic.url context.arguments (options_of v) ≡ ok result → Returned v result
    by_email :
        v.name ≡ "email"
        → basic.email context.arguments (options_of v) ≡ ok result
        → Returned v result
    by_regex :
        v.name ≡ "regex"
        → basic.regex context.arguments (options_of v) ≡ ok result
        → Returned v result
    by_required_forbidden_fields :
        v.name ≡ "required_forbidden_fields"
        → basic.required_forbidden_fields context.arguments (options_of v) ≡ ok result
        → Returned v result
    by_max_field_bytes :
        v.name ≡ "max_field_bytes"
        → basic.max_field_bytes context.arguments (options_of v) ≡ ok result
        → Returned v result

  -- The validator is known, ran to its end and found no error.
  abbrev pub IsClean : ValidatorConfig → Type 0
  IsClean v = (result : ValidatorResult) × Returned v result × (result.errors ≡ [])

  run_validator-Returned :
      (v : ValidatorConfig) (result : ValidatorResult)
      → run_validator basic v context ≡ ok result
      → result.errors ≡ []
      → Returned v result
  unfolding run_validator dispatch_validator
  run_validator-Returned v result h empty = elim (chosen (v.name == "sql_read_only") h) [
    | inl (e, r) ↦ by_sql_read_only ((eq_iff v.name "sql_read_only").0 e) r
    | inr h1 ↦ elim (chosen (v.name == "filesystem_path") h1) [
      | inl (e, r) ↦ by_filesystem_path ((eq_iff v.name "filesystem_path").0 e) r
      | inr h2 ↦ elim (chosen (v.name == "url") h2) [
        | inl (e, r) ↦ by_url ((eq_iff v.name "url").0 e) r
        | inr h3 ↦ elim (chosen (v.name == "email") h3) [
          | inl (e, r) ↦ by_email ((eq_iff v.name "email").0 e) r
          | inr h4 ↦ elim (chosen (v.name == "regex") h4) [
            | inl (e, r) ↦ by_regex ((eq_iff v.name "regex").0 e) r
            | inr h5 ↦ elim (chosen (v.name == "required_forbidden_fields") h5) [
              | inl (e, r) ↦
                  by_required_forbidden_fields ((eq_iff v.name "required_forbidden_fields").0 e) r
              | inr h6 ↦ elim (chosen (v.name == "max_field_bytes") h6) [
                | inl (e, r) ↦ by_max_field_bytes ((eq_iff v.name "max_field_bytes").0 e) r
                | inr h7 ↦ absurd (unknown_fails _ result h7 empty)
              ]
            ]
          ]
        ]
      ]
    ]
  ]

  Returned-run_validator :
      (v : ValidatorConfig) (result : ValidatorResult)
      → Returned v result
      → run_validator basic v context ≡ ok result
  unfolding run_validator dispatch_validator
  Returned-run_validator v result (by_sql_read_only e r) = rw e r
  Returned-run_validator v result (by_filesystem_path e r) = rw e r
  Returned-run_validator v result (by_url e r) = rw e r
  Returned-run_validator v result (by_email e r) = rw e r
  Returned-run_validator v result (by_regex e r) = rw e r
  Returned-run_validator v result (by_required_forbidden_fields e r) = rw e r
  Returned-run_validator v result (by_max_field_bytes e r) = rw e r

  append-empty :
      (xs ys : List String) → is_empty (xs ++ ys) ≡ true → (xs ≡ []) × (is_empty ys ≡ true)
  append-empty [] ys h = (refl, h)
  append-empty (x ∷ xs) ys h = cc

  errors_of-IsClean :
      (v : ValidatorConfig) (m : Outcome ValidatorResult)
      → run_validator basic v context ≡ m
      → errors_of basic host v.name m ≡ []
      → IsClean v
  unfolding errors_of
  errors_of-IsClean v (ok result) e h = (result, run_validator-Returned v result e h, h)
  errors_of-IsClean v (raise x) e h = cc

  validator_errors-All :
      (vs : List ValidatorConfig)
      → is_empty (validator_errors basic host vs context) ≡ true
      → All IsClean vs
  unfolding validator_errors
  validator_errors-All [] h = tt
  validator_errors-All (v ∷ vs) h =
      let (here, there) =
        append-empty (errors_of basic host v.name (run_validator basic v context))
          (validator_errors basic host vs context) h in
      (errors_of-IsClean v (run_validator basic v context) refl here, validator_errors-All vs there)

  All-validator_errors :
      (vs : List ValidatorConfig)
      → All IsClean vs
      → is_empty (validator_errors basic host vs context) ≡ true
  unfolding validator_errors errors_of
  All-validator_errors [] h = refl
  All-validator_errors (v ∷ vs) ((result, r, empty), h) =
      rw (Returned-run_validator v result r, empty) (All-validator_errors vs h)

-- The engine passes a call exactly when each of the validators has one of the seven known names and
-- the function of that name returns, on the arguments of the call, a result without errors: a
-- validator that raises, or that is not known, fails the call.
pub validate_iff :
    (basic : BasicValidators) (host : Host) (context : RequestContext) (vs : List ValidatorConfig)
    → ((validate basic host vs context).passed ≡ true) ↔ All (IsClean basic host context) vs
unfolding validate
validate_iff basic host context vs =
    (validator_errors-All basic host context vs, All-validator_errors basic host context vs)
