-- ===== src/Validators/Engine.antt =====
-- validators/engine.py: the validators of a policy, run in turn and failing closed.
pub mod Closed
use mcp_zero_trust_layer.Base.{
  if◌then◌else◌, ◌==◌, truthy, nat_eq, string_eq, option_eq, int_eq, bool_eq, String, ◌<>◌, not,
  ◌&&◌, Option, none, some, List, [], ◌∷◌, ◌++◌,
}
use mcp_zero_trust_layer.Value.{str, Fields, has, put, Outcome, ok, raise}
use mcp_zero_trust_layer.Host.{Host}
use mcp_zero_trust_layer.Config.{capability_type_eq, ValidatorConfig, RequestContext}
use mcp_zero_trust_layer.Validators.InputPolicy.{ValidatorResult, result_fail, result_of_errors}

-- The seven functions of validators/basic.py that the engine dispatches to, each on the arguments
-- and the options. They are an interface here: any of them may pass, fail or raise.
pub record BasicValidators : Type 0 where
  pub sql_read_only : Fields → Fields → Outcome ValidatorResult
  pub filesystem_path : Fields → Fields → Outcome ValidatorResult
  pub url : Fields → Fields → Outcome ValidatorResult
  pub email : Fields → Fields → Outcome ValidatorResult
  pub regex : Fields → Fields → Outcome ValidatorResult
  pub required_forbidden_fields : Fields → Fields → Outcome ValidatorResult
  pub max_field_bytes : Fields → Fields → Outcome ValidatorResult

-- `if context.config_base_dir and "base_dir" not in options`
unfoldable pub with_base_dir : Option String → Fields → Fields
unfolding has put
with_base_dir none options = options
with_base_dir (some base) options =
    if truthy base && not (has "base_dir" options)
    then put "base_dir" (str base) options
    else options

module _ (basic : BasicValidators) where
  unfoldable pub dispatch_validator : String → Fields → Fields → Outcome ValidatorResult
  dispatch_validator name arguments options =
      if name == "sql_read_only"
      then basic.sql_read_only arguments options
      else if name == "filesystem_path"
      then basic.filesystem_path arguments options
      else if name == "url"
      then basic.url arguments options
      else if name == "email"
      then basic.email arguments options
      else if name == "regex"
      then basic.regex arguments options
      else if name == "required_forbidden_fields"
      then basic.required_forbidden_fields arguments options
      else if name == "max_field_bytes"
      then basic.max_field_bytes arguments options
      else ok (result_fail ("unknown validator: " <> name))

  unfoldable pub run_validator : ValidatorConfig → RequestContext → Outcome ValidatorResult
  unfolding dispatch_validator with_base_dir
  run_validator validator context =
      dispatch_validator validator.name context.arguments
        (with_base_dir context.config_base_dir validator.options)

  -- `except Exception`: the text of the exception is left out of the message
  unfoldable pub errors_of : Host → String → Outcome ValidatorResult → List String
  errors_of host name (ok result) = result.errors
  errors_of host name (raise e) =
      (result_fail ("validator " <> (host.repr name <> " failed to evaluate"))).errors

  unfoldable pub validator_errors : Host → List ValidatorConfig → RequestContext → List String
  unfolding run_validator errors_of
  validator_errors host [] context = []
  validator_errors host (v ∷ vs) context =
      errors_of host v.name (run_validator v context) ++ validator_errors host vs context

  -- `ValidatorEngine.validate`
  unfoldable pub validate : Host → List ValidatorConfig → RequestContext → ValidatorResult
  unfolding validator_errors
  validate host validators context = result_of_errors (validator_errors host validators context)
