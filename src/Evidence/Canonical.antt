-- ===== src/Evidence/Canonical.antt =====
-- evidence/canonical.py: the bounded canonical form of a JSON value and its digests.
use mcp_zero_trust_layer.Base.{
  ltb, if◌then◌else◌, ℕ, zero, suc, String, ◌<>◌, Bool, true, false, ◌&&◌,
}
use mcp_zero_trust_layer.Value.{
  Value, str, list, dict, Items, nil, cons, Fields, end, field, value_error, Outcome, ok, raise,
  ◌>>=◌,
}
use Prim.Native.String.{len}

-- `rfc8785.dumps`, as text, which may raise; `sha256` as hexadecimal text.
pub record Digests : Type 0 where
  pub jcs : Value → Outcome String
  pub sha256 : String → String

abbrev pub max_bytes : ℕ
max_bytes = 1048576

abbrev pub max_depth : ℕ
max_depth = 32

-- `check`, with the levels that are left: each value within them
unfoldable mutual
  pub is_within : ℕ → Value → Bool
  is_within left (dict fs) = fields_within left fs
  is_within left (list vs) = items_within left vs
  is_within left _ = true

  pub fields_within : ℕ → Fields → Bool
  fields_within left end = true
  fields_within zero (field key v fs) = false
  fields_within (suc left) (field key v fs) = is_within left v && fields_within (suc left) fs

  pub items_within : ℕ → Items → Bool
  items_within left nil = true
  items_within zero (cons v vs) = false
  items_within (suc left) (cons v vs) = is_within left v && items_within (suc left) vs

module _ (digests : Digests) where
  -- `canonical`; the values of the model are JSON values
  unfoldable pub canonical : Value → Outcome String
  unfolding is_within
  canonical v =
      if is_within max_depth v
      then (digests.jcs v >>= λ result.
          if ltb max_bytes (len result)
          then raise (value_error "evidence size limit")
          else ok result)
      else raise (value_error "evidence nesting limit")

  -- `digest`, with an empty nonce unless there is one
  unfoldable pub digest : String → Value → String → Outcome String
  unfolding canonical
  digest kind v nonce =
      canonical (dict (field "nonce" (str nonce) (field "value" v end))) >>= λ result.
      ok (digests.sha256 ("mcpzt.evidence.v1:" <> (kind <> (":" <> result))))
