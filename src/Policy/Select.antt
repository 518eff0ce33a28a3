-- ===== src/Policy/Select.antt =====
-- policy/engine.py, `_select_by_precedence`: which of the matching policies decides.
pub mod Laws
use mcp_zero_trust_layer.Base.{
  ltb, if◌then◌else◌, nat_eq, string_eq, option_eq, int_eq, bool_eq, ℕ, Option, none, some, List,
  [], ◌∷◌,
}
use mcp_zero_trust_layer.Config.{
  Effect, allow, deny, hide, require_approval, redact, limit, transform, log, capability_type_eq,
  PolicyConfig,
}

unfoldable pub precedence : Effect → ℕ
precedence deny = 0
precedence hide = 1
precedence require_approval = 2
precedence redact = 3
precedence limit = 4
precedence transform = 5
precedence allow = 6
precedence log = 7

-- the loop of `min`, which keeps the first of the least
unfoldable pub least : PolicyConfig → List PolicyConfig → PolicyConfig
unfolding precedence
least best [] = best
least best (policy ∷ policies) =
    least (if ltb (precedence policy.effect) (precedence best.effect) then policy else best)
      policies

unfoldable pub select_by_precedence : List PolicyConfig → Option PolicyConfig
unfolding least
select_by_precedence [] = none
select_by_precedence (policy ∷ policies) = some (least policy policies)
