-- ===== src/Validators/Basic/Paths/Confined.antt =====
-- validators/basic.py: where a path that passes can point.
use mcp_zero_trust_layer.Base.{
  if◌then◌else◌, nat_eq, string_eq, option_eq, contains, All, IsIn, any-All, any-IsIn, All-map,
  int_eq, bool_eq, String, ◌≡◌, refl, Bool, true, false, not, ◌&&◌, List, [], ◌∷◌, arith,
}
use mcp_zero_trust_layer.Value.{
  Value, bool, str, list, nil, Fields, is_truthy, Outcome, ok, raise, ◌>>=◌,
}
use mcp_zero_trust_layer.Host.{Host}
use mcp_zero_trust_layer.Config.{capability_type_eq}
use mcp_zero_trust_layer.Validators.InputPolicy.{ValidatorResult, result_fail, is_passed}
use mcp_zero_trust_layer.Validators.Platform.{Platform}
use mcp_zero_trust_layer.Validators.Options.{iterate, get_by, option, with_text-passed}
use mcp_zero_trust_layer.Validators.Basic.Paths.{
  default_blocked_paths, is_relative_to, base_dir, resolve_from, under_any, operation_result,
  check_path, validate_filesystem_path,
}

module _ (host : Host) (platform : Platform) (options : Fields) (path : String) where
  -- the path lies under this root
  abbrev pub IsUnder : Value → Type 0
  IsUnder root =
      is_relative_to host platform
        (resolve_from host platform (base_dir host platform options) path)
        (resolve_from host platform (base_dir host platform options) (host.to_str root))
      ≡ true

  -- When there are allowed roots, the path lies under one of them.
  abbrev pub IsWithinRoots : Type 0
  IsWithinRoots =
      is_truthy (option "allowed_roots" (list nil) options) ≡ true
      → (roots : List Value) × (iterate (option "allowed_roots" (list nil) options) ≡ ok roots)
        × ((root : Value) × (IsIn root roots) × IsUnder root)

  -- The path lies under none of the blocked paths.
  abbrev pub IsOutsideBlocked : Type 0
  IsOutsideBlocked =
      (blocked : List Value) × (iterate (option "blocked_paths" default_blocked_paths options)
        ≡ ok blocked)
      × All (λ root. ¬ (IsUnder root)) blocked

  -- the decision of `check_path` on what the options give
  roots_then :
      (t : Bool) (m n : Outcome (List Value)) (u : List Value → Bool) (last : ValidatorResult)
      → is_passed (
          (if t then m else ok []) >>= λ roots.
          if t && not (u roots)
          then ok (result_fail "filesystem_path blocked path outside allowed_roots")
          else (n >>= λ blocked.
              ok
                (if u blocked then result_fail "filesystem_path blocked sensitive path" else last)))
        ≡ true
      → (t ≡ true → (roots : List Value) × (m ≡ ok roots) × (u roots ≡ true))
        × ((blocked : List Value) × (n ≡ ok blocked) × (u blocked ≡ false))
        × (last.passed ≡ true)
  roots_then true (raise e) n u last h = cc
  roots_then true (ok roots) (raise e) u last h = ground arith
  roots_then true (ok roots) (ok blocked) u last h =
      (λ _. (roots, refl, ground arith), (blocked, refl, ground arith), ground arith)
  roots_then false m (raise e) u last h = cc
  roots_then false m (ok blocked) u last h = (λ e. cc, (blocked, refl, ground arith), ground arith)

  -- what the last checks leave
  abbrev pub OnlyReads : Fields → Type 0
  OnlyReads arguments =
      is_truthy (option "read_only" (bool false) options) ≡ true
      → contains ("read" ∷ "list" ∷ "stat" ∷ [])
          (platform.lower (host.to_str (option "operation" (str "read") arguments)))
        ≡ true

  operation_result-OnlyReads :
      (arguments : Fields)
      → (operation_result host platform arguments options).passed ≡ true
      → OnlyReads arguments
  unfolding operation_result
  operation_result-OnlyReads arguments h = ground arith

  check_path-lem :
      (arguments : Fields)
      → is_passed (check_path host platform path arguments options) ≡ true
      → IsWithinRoots × IsOutsideBlocked × OnlyReads arguments
  unfolding check_path under_any
  check_path-lem arguments h =
      let under =
        under_any host platform (base_dir host platform options)
          (resolve_from host platform (base_dir host platform options) path) in
      let (w, (blocked, b, o), r) =
        roots_then (is_truthy (option "allowed_roots" (list nil) options))
          (iterate (option "allowed_roots" (list nil) options))
          (iterate (option "blocked_paths" default_blocked_paths options)) under
          (operation_result host platform arguments options) h in
      (
        λ t. let (roots, i, u) = w t in (roots, i, any-IsIn _ roots u),
        (blocked, b, All-map (λ root outside inside. cc) blocked (any-All _ blocked o)),
        operation_result-OnlyReads arguments r,
      )

-- A file operation that passes names a path, and where the path points, from the base directory
-- if it is relative, is under one of the allowed roots if there are any and under none of the blocked
-- paths; with `read_only` on, the operation is a read, a list or a stat.
pub validate_filesystem_path-lem :
    (host : Host) (platform : Platform) (arguments options : Fields)
    → is_passed (validate_filesystem_path host platform arguments options) ≡ true
    → (path : String) × (get_by (option "path_arg" (str "path") options) arguments ≡ ok (str path))
      × IsWithinRoots host platform options path
      × IsOutsideBlocked host platform options path
      × OnlyReads host platform options path arguments
unfolding validate_filesystem_path
validate_filesystem_path-lem host platform arguments options h =
    let (path, found, passed) =
      with_text-passed _ (λ p. check_path host platform p arguments options)
        (get_by (option "path_arg" (str "path") options) arguments) h in
    let (w, o, r) = check_path-lem host platform options path arguments passed in
    (path, found, w, o, r)
