-- ===== src/Tests/SessionTests.antt =====
-- transports/http/sessions.py at a concrete registry.
use mcp_zero_trust_layer.Base.{
  nat_eq, string_eq, option_eq, length, pos, int_eq, bool_eq, ◌+ℤ◌, ◌≤◌, ◌≡◌, refl, true, none,
  some, [], ◌∷◌, arith,
}
use mcp_zero_trust_layer.Base.Dict.{lookup, erase}
use mcp_zero_trust_layer.Value.{overflow_error, ok, raise}
use mcp_zero_trust_layer.Config.{capability_type_eq, anonymous}
use mcp_zero_trust_layer.Transports.Sessions.{
  SessionRegistry, owner_of, remove, is_expired, sweep, resolve_new, resolve,
}
use mcp_zero_trust_layer.Transports.Sessions.Bounds.{resolve-IsBounded}

abbrev two_sessions : SessionRegistry
two_sessions = record {
  entries =
      ("s1", record { server = "files"; owner = owner_of (anonymous none); touched = pos 10 })
      ∷ ("s2", record { server = "files"; owner = owner_of (anonymous none); touched = pos 90 })
      ∷ [];
  told = [];
}

-- The first session has expired, so that a third one fits.
third_fits :
    (resolve (pos 50) 2 (pos 100) "s3" "files" (anonymous none) none true two_sessions).0
    ≡ ok (some "s3")
unfolding resolve resolve_new sweep is_expired remove lookup erase ◌+ℤ◌
third_fits = refl

full_raises :
    (resolve (pos 500) 2 (pos 100) "s3" "files" (anonymous none) none true two_sessions).0
    ≡ raise overflow_error
unfolding resolve resolve_new sweep is_expired remove lookup erase ◌+ℤ◌
full_raises = refl

resolve-IsBounded_example :
    length
      (resolve (pos 50) 2 (pos 100) "s3" "files" (anonymous none) none true two_sessions).1.entries
    ≤ 2
resolve-IsBounded_example =
    resolve-IsBounded (pos 50) 2 (pos 100) "s3" "files" (anonymous none) none true two_sessions
      (omega arith)
