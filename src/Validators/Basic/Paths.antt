-- ===== src/Validators/Basic/Paths.antt =====
-- validators/basic.py: the path of a file operation against allowed and blocked directories.
pub mod Confined
use mcp_zero_trust_layer.Base.{
  if◌then◌else◌, nat_eq, string_eq, option_eq, contains, any, int_eq, bool_eq, String, ◌<>◌, Bool,
  false, not, ◌&&◌, Option, none, some, List, [], ◌∷◌,
}
use mcp_zero_trust_layer.Value.{
  Value, bool, str, list, nil, Fields, get_or_null, is_truthy, Outcome, ok, ◌>>=◌, ◌>>◌,
}
use mcp_zero_trust_layer.Host.{Host}
use mcp_zero_trust_layer.Config.{capability_type_eq, texts}
use mcp_zero_trust_layer.Validators.InputPolicy.{ValidatorResult, result_ok, result_fail, is_prefix}
use mcp_zero_trust_layer.Validators.Platform.{Platform}
use mcp_zero_trust_layer.Validators.Options.{iterate, get_by, option, with_text}

abbrev pub default_blocked_paths : Value
default_blocked_paths = texts (
    "/etc" ∷ "/var/run" ∷ "/private/etc" ∷ "/proc" ∷ "/sys" ∷ "/root" ∷ "~/.ssh" ∷ "~/.aws"
    ∷ "~/.config" ∷ "~/.kube" ∷ [])

module _ (host : Host) (platform : Platform) where
  -- `_is_relative_to`
  unfoldable pub is_relative_to : String → String → Bool
  unfolding is_prefix
  is_relative_to candidate root =
      is_prefix (platform.path_parts (platform.normcase root))
        (platform.path_parts (platform.normcase candidate))

  -- `_base_dir`
  unfoldable pub base_dir : Fields → Option String
  unfolding get_or_null is_truthy
  base_dir options =
      let raw = get_or_null "base_dir" options in
      if is_truthy raw then some (platform.resolve_path (host.to_str raw)) else none

  -- `_path_relative_to_base(path, base_dir).expanduser().resolve(strict=False)`
  unfoldable pub resolve_from : Option String → String → String
  resolve_from none path = platform.resolve_path path
  resolve_from (some base) path =
      platform.resolve_path
        (if platform.is_absolute path then path else platform.path_join base path)

  -- the resolved path lies under one of these
  unfoldable pub under_any : Option String → String → List Value → Bool
  unfolding any is_relative_to resolve_from
  under_any base resolved roots =
      any (λ root. is_relative_to resolved (resolve_from base (host.to_str root))) roots

  -- the last checks of `validate_filesystem_path`
  unfoldable pub operation_result : Fields → Fields → ValidatorResult
  unfolding option is_truthy contains
  operation_result arguments options =
      if is_truthy (option "read_only" (bool false) options)
        && not (
            contains ("read" ∷ "list" ∷ "stat" ∷ [])
              (platform.lower (host.to_str (option "operation" (str "read") arguments))))
      then result_fail "filesystem_path blocked non-read operation"
      else result_ok

  -- what comes after the argument is found
  unfoldable pub check_path : String → Fields → Fields → Outcome ValidatorResult
  unfolding option is_truthy iterate base_dir resolve_from under_any operation_result
  check_path raw arguments options = do
    let base = base_dir options
    let resolved = resolve_from base raw
    let allowed = option "allowed_roots" (list nil) options
    roots ← (if is_truthy allowed then iterate allowed else ok [])
    (if is_truthy allowed && not (under_any base resolved roots)
        then ok (result_fail "filesystem_path blocked path outside allowed_roots")
        else (iterate (option "blocked_paths" default_blocked_paths options) >>= λ blocked. ok (
            if under_any base resolved blocked
            then result_fail "filesystem_path blocked sensitive path"
            else operation_result arguments options)))

  -- `{name!r}` of an option
  abbrev pub repr_of : Value → String
  repr_of (str s) = host.repr s
  repr_of v = host.to_str v

  unfoldable pub validate_filesystem_path : Fields → Fields → Outcome ValidatorResult
  unfolding option get_by with_text check_path
  validate_filesystem_path arguments options =
      let path_arg = option "path_arg" (str "path") options in
      with_text ("filesystem_path could not find path argument " <> repr_of path_arg)
        (λ path. check_path path arguments options) (get_by path_arg arguments)
