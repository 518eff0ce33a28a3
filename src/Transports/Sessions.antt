-- ===== src/Transports/Sessions.antt =====
-- transports/http/sessions.py: the session identifiers of the gateway. The clock and the fresh key
-- are arguments; times are whole ticks. A call holds the lock, so it is one step.
pub mod Bounds
use mcp_zero_trust_layer.Base.{
  ltb, if◌then◌else◌, ◌==◌, truthy, nat_eq, string_eq, option_eq, length, ℤ, ltb_ℤ, int_eq, bool_eq,
  ◌+ℤ◌, ℕ, String, Bool, not, ◌&&◌, Option, none, some, List, [], ◌∷◌,
}
use mcp_zero_trust_layer.Base.Dict.{Dict, lookup, insert, erase}
use mcp_zero_trust_layer.Value.{key_error, value_error, overflow_error, Outcome, ok, raise}
use mcp_zero_trust_layer.Config.{capability_type_eq, Identity}

-- identity.subject, identity.client_id, identity.agent_id
abbrev pub Owner : Type 0
Owner = String × Option String × Option String

pub record Session : Type 0 where
  pub server : String
  pub owner : Owner
  pub touched : ℤ

-- What the upstream client was told, newest first.
pub data Told : Type 0 where
  registered forgotten : (server key : String) → Told

-- `ttl` and `capacity` are fixed, so they are arguments of the operations.
pub record SessionRegistry : Type 0 where
  pub entries : Dict String Session
  pub told : List Told

abbrev pub owner_of : Identity → Owner
owner_of identity = (identity.subject, identity.client_id, identity.agent_id)

-- `entry.owner == owner`
abbrev pub same_owner : Owner → Owner → Bool
same_owner (subject, client_id, agent_id) (subject', client_id', agent_id') =
    subject == subject' && client_id == client_id' && agent_id == agent_id'

-- `_remove`, and `remove`
unfoldable pub remove : String → SessionRegistry → SessionRegistry
remove key r = elim (lookup key r.entries) [
  | none ↦ r
  | some s ↦ record { entries = erase key r.entries; told = forgotten s.server key ∷ r.told }
]

-- `now - existing.touched >= self.ttl`
unfoldable pub is_expired : ℤ → ℤ → Session → Bool
is_expired ttl now s = not (ltb_ℤ now (s.touched +ℤ ttl))

-- the loop over a copy of the entries
unfoldable pub sweep : ℤ → ℤ → Dict String Session → SessionRegistry → SessionRegistry
sweep ttl now [] r = r
sweep ttl now ((key, s) ∷ rest) r =
    sweep ttl now rest (if is_expired ttl now s then remove key r else r)

-- the branch of a session identifier that the client supplied
unfoldable pub resolve_supplied :
    ℤ → String → Owner → String → Bool → SessionRegistry → Outcome (Option String) × SessionRegistry
resolve_supplied now server owner supplied initialize r = elim (lookup supplied r.entries) [
  | none ↦ (raise (key_error "Unknown session"), r)
  | some entry ↦
      if not (entry.server == server && same_owner entry.owner owner)
      then (raise (key_error "Unknown session"), r)
      else if initialize
      then (raise (value_error "Initialize must start a new session"), r)
      else (
        ok (some supplied),
        record r { entries = insert supplied (record entry { touched = now }) r.entries },
      )
]

-- the branch without one
unfoldable pub resolve_new :
    ℕ
    → ℤ
    → String
    → Owner
    → String
    → Bool
    → SessionRegistry
    → Outcome (Option String) × SessionRegistry
resolve_new capacity now server owner key initialize r =
    if not initialize
    then (ok none, r)
    else if not (ltb (length r.entries) capacity)
    then (raise overflow_error, r)
    else (
      ok (some key),
      record {
        entries = insert key (record { server = server; owner = owner; touched = now }) r.entries;
        told = registered server key ∷ r.told;
      },
    )

-- `if supplied`: the empty text counts as none.
unfoldable pub resolve :
    ℤ
    → ℕ
    → ℤ
    → String
    → String
    → Identity
    → Option String
    → Bool
    → SessionRegistry
    → Outcome (Option String) × SessionRegistry
resolve ttl capacity now key server identity supplied initialize r =
    let swept = sweep ttl now r.entries r in
    elim supplied [
      | none ↦ resolve_new capacity now server (owner_of identity) key initialize swept
      | some id ↦
          if truthy id
          then resolve_supplied now server (owner_of identity) id initialize swept
          else resolve_new capacity now server (owner_of identity) key initialize swept
    ]
