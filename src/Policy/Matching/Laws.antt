-- ===== src/Policy/Matching/Laws.antt =====
-- policy/engine.py, `_matches`: all conditions of a policy together.
use mcp_zero_trust_layer.Base.{
  string_eq, option_eq, is_empty, ◌≡◌, refl, ◌↔◌, true, Option, none, some, List, [], ◌∷◌, ◌++◌,
  arith,
}
use mcp_zero_trust_layer.Host.{Host}
use mcp_zero_trust_layer.Config.{
  capability_type_eq, CapabilityMetadata, PolicyMatch, PolicyConfig, RequestContext,
}
use mcp_zero_trust_layer.Policy.Matching.{
  Failure, request_checks, request_match_failures, metadata_checks, metadata_match_failures,
  match_failures, policy_matches,
}
use mcp_zero_trust_layer.Policy.Matching.Single.{
  MeetsRequest, somes_iff, exact_iff, method_iff, pattern_iff, patterns_iff, contains_iff, user_iff,
  MeetsMetadata, Meets, tags_iff,
}

-- The eleven conditions on the request, in both directions.
request_sound :
    (host : Host) (m : PolicyMatch) (c : RequestContext)
    → is_empty (request_match_failures host m c) ≡ true
    → MeetsRequest host m c
unfolding request_match_failures
request_sound host m c h =
    let (f0, (f1, (f2, (f3, (f4, (f5, (f6, (f7, (f8, (f9, (f10, _))))))))))) =
      (somes_iff (request_checks host m c)).0 h in
    record {
      server = (exact_iff "server" (some c.server) m.server).0 f0;
      method = (method_iff host c.method m.method).0 f1;
      capability_type =
          (exact_iff "capability_type" (some c.capability_type) m.capability_type).0 f2;
      capability = (pattern_iff host c.capability m.capability).0 f3;
      capabilities = (patterns_iff host c.capability m.capabilities).0 f4;
      environment = (exact_iff "environment" (some c.environment) m.environment).0 f5;
      user = (user_iff host m.user c.identity).0 f6;
      group = (contains_iff "group" m.group c.identity.groups).0 f7;
      role = (contains_iff "role" m.role c.identity.roles).0 f8;
      client_id = (exact_iff "client_id" c.identity.client_id m.client_id).0 f9;
      agent_id = (exact_iff "agent_id" c.identity.agent_id m.agent_id).0 f10;
    }

request_complete :
    (host : Host) (m : PolicyMatch) (c : RequestContext)
    → MeetsRequest host m c
    → is_empty (request_match_failures host m c) ≡ true
unfolding request_match_failures
request_complete host m c r = (somes_iff (request_checks host m c)).1 (
  (exact_iff "server" (some c.server) m.server).1 r.server,
  (
    (method_iff host c.method m.method).1 r.method,
    (
      (exact_iff "capability_type" (some c.capability_type) m.capability_type).1 r.capability_type,
      (
        (pattern_iff host c.capability m.capability).1 r.capability,
        (
          (patterns_iff host c.capability m.capabilities).1 r.capabilities,
          (
            (exact_iff "environment" (some c.environment) m.environment).1 r.environment,
            (
              (user_iff host m.user c.identity).1 r.user,
              (
                (contains_iff "group" m.group c.identity.groups).1 r.group,
                (
                  (contains_iff "role" m.role c.identity.roles).1 r.role,
                  (
                    (exact_iff "client_id" c.identity.client_id m.client_id).1 r.client_id,
                    ((exact_iff "agent_id" c.identity.agent_id m.agent_id).1 r.agent_id, tt),
                  ),
                ),
              ),
            ),
          ),
        ),
      ),
    ),
  ),
)

metadata_sound :
    (host : Host) (m : PolicyMatch) (d : CapabilityMetadata)
    → is_empty (metadata_match_failures host m (some d)) ≡ true
    → MeetsMetadata m d
unfolding metadata_match_failures
metadata_sound host m d h =
    let (f0, (f1, (f2, (f3, (f4, (f5, (f6, _))))))) = (somes_iff (metadata_checks host m d)).0 h in
    record {
      action = (exact_iff "action" d.action m.action).0 f0;
      risk = (exact_iff "risk" d.risk m.risk).0 f1;
      access = (exact_iff "access" d.access m.access).0 f2;
      resource_type = (exact_iff "resource_type" d.resource_type m.resource_type).0 f3;
      data_classification =
          (exact_iff "data_classification" d.data_classification m.data_classification).0 f4;
      tag = (contains_iff "tag" m.tag d.tags).0 f5;
      tags = (tags_iff host m.tags d.tags).0 f6;
    }

metadata_complete :
    (host : Host) (m : PolicyMatch) (d : CapabilityMetadata)
    → MeetsMetadata m d
    → is_empty (metadata_match_failures host m (some d)) ≡ true
unfolding metadata_match_failures
metadata_complete host m d r = (somes_iff (metadata_checks host m d)).1 (
  (exact_iff "action" d.action m.action).1 r.action,
  (
    (exact_iff "risk" d.risk m.risk).1 r.risk,
    (
      (exact_iff "access" d.access m.access).1 r.access,
      (
        (exact_iff "resource_type" d.resource_type m.resource_type).1 r.resource_type,
        (
          (exact_iff "data_classification" d.data_classification m.data_classification).1
              r.data_classification,
          ((contains_iff "tag" m.tag d.tags).1 r.tag, ((tags_iff host m.tags d.tags).1 r.tags, tt)),
        ),
      ),
    ),
  ),
)

is_empty-append :
    (xs ys : List Failure)
    → (is_empty (xs ++ ys) ≡ true) ↔ ((is_empty xs ≡ true) × (is_empty ys ≡ true))
is_empty-append [] ys = (λ h. (refl, h), λ (_, h). h)
is_empty-append (x ∷ xs) ys = (λ h. cc, λ (h, _). cc)

metadata_iff :
    (host : Host) (m : PolicyMatch) (d : Option CapabilityMetadata)
    → (is_empty (metadata_match_failures host m d) ≡ true) ↔ Meets m d
unfolding metadata_match_failures
metadata_iff host m none = (λ h. ground arith, λ h. ground arith)
metadata_iff host m (some d) = (metadata_sound host m d, metadata_complete host m d)

-- A policy matches a request exactly when the request meets each of the eleven conditions on the
-- request, and the metadata of the capability meets the seven conditions on metadata; where there
-- is no metadata, exactly when no condition on metadata is set.
pub policy_matches_iff :
    (host : Host) (policy : PolicyConfig) (context : RequestContext)
    (metadata : Option CapabilityMetadata)
    → (policy_matches host policy context metadata ≡ true)
      ↔ (MeetsRequest host policy.match context × Meets policy.match metadata)
unfolding policy_matches match_failures
policy_matches_iff host policy context metadata =
    let (split_up, joined) =
      is_empty-append (request_match_failures host policy.match context)
        (metadata_match_failures host policy.match metadata) in
    (
      λ h. (
        request_sound host policy.match context (split_up h).0,
        (metadata_iff host policy.match metadata).0 (split_up h).1,
      ),
      λ (r, d). joined (
        request_complete host policy.match context r,
        (metadata_iff host policy.match metadata).1 d,
      ),
    )
