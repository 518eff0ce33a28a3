-- ===== src/Policy/Matching.antt =====
-- policy/engine.py and capabilities/mapping.py: which policies match a request.
pub mod Single
pub mod Laws
use mcp_zero_trust_layer.Base.{
  if◌then◌else◌, Eq, ◌==◌, truthy, nat_eq, string_eq, option_eq, contains, is_empty, all, any,
  somes, int_eq, bool_eq, String, Bool, false, not, ◌&&◌, ◌||◌, Option, none, some, List, [], ◌∷◌,
  ◌++◌,
}
use mcp_zero_trust_layer.Base.Dict.{lookup}
use mcp_zero_trust_layer.Host.{Host}
use mcp_zero_trust_layer.Config.{
  tool, resource, prompt, method, capability_type_eq, CapabilityMetadata, PolicyMatch, PolicyConfig,
  McpztConfig, Identity, RequestContext,
}

-- capabilities/mapping.py
unfoldable pub lookup_capability_metadata : McpztConfig → RequestContext → Option CapabilityMetadata
unfolding lookup
lookup_capability_metadata config context = elim context.capability [
  | none ↦ none
  | some capability ↦
      if not (truthy capability)
      then none
      else elim (lookup context.server config.capability_mappings) [
        | none ↦ none
        | some mappings ↦ elim context.capability_type [
          | tool ↦ lookup capability mappings.tools
          | resource ↦ lookup capability mappings.resources
          | prompt ↦ lookup capability mappings.prompts
          | method ↦ none
        ]
      ]
]

-- The texts of the failures, without the values that they show.
pub data Failure : Type 0 where
  mismatch not_present : String → Failure
  method_pattern capability_pattern capability_patterns user_mismatch : Failure
  metadata_missing tags_missing : Failure

module _ {A : Type 0} ⦃e : Eq A⦄ where
  -- `if expected and expected != actual`
  unfoldable pub exact_failure : String → Option A → Option A → Option Failure
  exact_failure label actual expected =
      if truthy expected && not (expected == actual) then some (mismatch label) else none

  -- `if expected and expected not in values`
  unfoldable pub contains_failure : String → Option A → List A → Option Failure
  contains_failure label none values = none
  contains_failure label (some expected) values =
      if truthy expected && not (contains values expected) then some (not_present label) else none

module _ (host : Host) where
  unfoldable pub matches_pattern : Option String → String → Bool
  matches_pattern none pattern = false
  matches_pattern (some actual) pattern = host.fnmatchcase actual pattern

  unfoldable pub method_failure : String → Option String → Option Failure
  method_failure actual none = none
  method_failure actual (some expected) =
      if truthy expected && not (host.fnmatchcase actual expected)
      then some method_pattern
      else none

  unfoldable pub pattern_failure : Option String → Option String → Option Failure
  unfolding matches_pattern
  pattern_failure actual none = none
  pattern_failure actual (some expected) =
      if truthy expected && not (matches_pattern actual expected)
      then some capability_pattern
      else none

  unfoldable pub patterns_failure : Option String → List String → Option Failure
  unfolding matches_pattern any
  patterns_failure actual patterns =
      if not (is_empty patterns) && not (any (matches_pattern actual) patterns)
      then some capability_patterns
      else none

  -- `match.user not in {identity.subject, identity.email}`
  unfoldable pub identity_user_failure : Option String → Identity → Option Failure
  identity_user_failure user identity =
      if truthy user && not (some identity.subject == user || identity.email == user)
      then some user_mismatch
      else none

  -- the list that `_compact_failures` gets
  abbrev pub request_checks : PolicyMatch → RequestContext → List (Option Failure)
  request_checks m context =
      exact_failure "server" (some context.server) m.server
      ∷ method_failure context.method m.method
      ∷ exact_failure "capability_type" (some context.capability_type) m.capability_type
      ∷ pattern_failure context.capability m.capability
      ∷ patterns_failure context.capability m.capabilities
      ∷ exact_failure "environment" (some context.environment) m.environment
      ∷ identity_user_failure m.user context.identity
      ∷ contains_failure "group" m.group context.identity.groups
      ∷ contains_failure "role" m.role context.identity.roles
      ∷ exact_failure "client_id" context.identity.client_id m.client_id
      ∷ exact_failure "agent_id" context.identity.agent_id m.agent_id
      ∷ []

  unfoldable pub request_match_failures : PolicyMatch → RequestContext → List Failure
  unfolding exact_failure contains_failure method_failure pattern_failure patterns_failure
      identity_user_failure somes
  request_match_failures m context = somes (request_checks m context)

  -- `any(self._metadata_requirements(match))`
  unfoldable pub has_metadata_requirements : PolicyMatch → Bool
  has_metadata_requirements m =
      truthy m.action
      || truthy m.risk
      || truthy m.access
      || truthy m.resource_type
      || truthy m.data_classification
      || truthy m.tag
      || not (is_empty m.tags)

  -- `match.tags and not set(match.tags).issubset(set(metadata.tags))`
  unfoldable pub tags_failure : List String → List String → Option Failure
  unfolding all contains
  tags_failure wanted present =
      if not (is_empty wanted) && not (all (contains present) wanted)
      then some tags_missing
      else none

  abbrev pub metadata_checks : PolicyMatch → CapabilityMetadata → List (Option Failure)
  metadata_checks m metadata =
      exact_failure "action" metadata.action m.action
      ∷ exact_failure "risk" metadata.risk m.risk
      ∷ exact_failure "access" metadata.access m.access
      ∷ exact_failure "resource_type" metadata.resource_type m.resource_type
      ∷ exact_failure "data_classification" metadata.data_classification m.data_classification
      ∷ contains_failure "tag" m.tag metadata.tags
      ∷ tags_failure m.tags metadata.tags
      ∷ []

  unfoldable pub metadata_match_failures : PolicyMatch → Option CapabilityMetadata → List Failure
  unfolding exact_failure contains_failure has_metadata_requirements tags_failure somes
  metadata_match_failures m none = if has_metadata_requirements m then metadata_missing ∷ [] else []
  metadata_match_failures m (some metadata) = somes (metadata_checks m metadata)

  unfoldable pub match_failures :
      PolicyConfig → RequestContext → Option CapabilityMetadata → List Failure
  unfolding request_match_failures metadata_match_failures
  match_failures policy context metadata =
      request_match_failures policy.match context ++ metadata_match_failures policy.match metadata

  unfoldable pub policy_matches : PolicyConfig → RequestContext → Option CapabilityMetadata → Bool
  unfolding match_failures
  policy_matches policy context metadata = is_empty (match_failures policy context metadata)
