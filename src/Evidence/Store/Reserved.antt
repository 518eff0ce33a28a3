-- ===== src/Evidence/Store/Reserved.antt =====
-- evidence/store.py: the scopes that belong to an operation.
use mcp_zero_trust_layer.Base.{
  if◌then◌else◌, ◌==◌, nat_eq, string_eq, option_eq, int_eq, bool_eq, String, ◌≡◌, Option, none,
  some, List, [], ◌∷◌,
}
use mcp_zero_trust_layer.Value.{Value}
use mcp_zero_trust_layer.Config.{capability_type_eq}
use mcp_zero_trust_layer.Evidence.Tables.{Operation, Database, EvidenceLibraries}

-- the id and the fingerprint of the operation of a scope
unfoldable pub find_scope : String → List Operation → Option (String × String)
find_scope scope [] = none
find_scope scope (o ∷ operations) =
    if o.scope == scope then some (o.operation_id, o.fingerprint) else find_scope scope operations

abbrev key_of : Option Operation → Option (String × String)
key_of none = none
key_of (some o) = some (o.operation_id, o.fingerprint)

module _ (libraries : EvidenceLibraries) {D : Type 0} (scope fingerprint id : String) where
  -- The scope belongs to this operation, with this fingerprint.
  abbrev pub BelongsTo : Database D → Type 0
  BelongsTo s = find_scope scope s.operations ≡ some (id, fingerprint)
