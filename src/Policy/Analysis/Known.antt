-- ===== src/Policy/Analysis/Known.antt =====
-- policy/analysis.py: the coverage of the policies has an item for each known capability.
use mcp_zero_trust_layer.Base.{
  Option-cases, first, IsIn, IsIn-left, IsIn-right, IsIn-map, String, ◌≡◌, refl, sym, ap, ◌∙◌, inl,
  inr, Option, none, some, List, [], ◌∷◌, ◌++◌,
}
use mcp_zero_trust_layer.Base.Dict.{Dict}
use mcp_zero_trust_layer.Base.Text.{sorted_set-IsIn}
use mcp_zero_trust_layer.Value.{
  Fields, items, get_or_null, as_str, Outcome, ok, ◌>>=◌, >>=-eq-ok, ok-injective,
}
use mcp_zero_trust_layer.Host.{Host}
use mcp_zero_trust_layer.Config.{
  CapabilityType, tool, resource, prompt, CapabilityMetadata, ServerCapabilityMappings, McpztConfig,
  PolicyDecision,
}
use mcp_zero_trust_layer.Policy.Engine.{evaluate}
use mcp_zero_trust_layer.Validators.Engine.{BasicValidators}
use mcp_zero_trust_layer.Policy.Analysis.{
  Capability, CapabilitySnapshot, PolicyCoverageItem, capability_named, mapped_capabilities,
  config_capabilities, named_items, snapshot_capabilities, capabilities, context_for_capability,
  coverage_item, coverage_items, build_policy_coverage,
}
use mathlib.Core.Path.{subst}

-- The capabilities to look at: those that the configuration maps, or, with a snapshot, the entries
-- of the snapshot that have a text for their name.
pub data IsKnown (config : McpztConfig)
    : Option CapabilitySnapshot → String → CapabilityType → String → Type 0 where
  mapped_tool :
      (server name : String) (m : ServerCapabilityMappings) (v : CapabilityMetadata)
      → IsIn (server, m) config.capability_mappings
      → IsIn (name, v) m.tools
      → IsKnown config none server tool name
  mapped_resource :
      (server name : String) (m : ServerCapabilityMappings) (v : CapabilityMetadata)
      → IsIn (server, m) config.capability_mappings
      → IsIn (name, v) m.resources
      → IsKnown config none server resource name
  mapped_prompt :
      (server name : String) (m : ServerCapabilityMappings) (v : CapabilityMetadata)
      → IsIn (server, m) config.capability_mappings
      → IsIn (name, v) m.prompts
      → IsKnown config none server prompt name
  found_tool :
      (s : CapabilitySnapshot) (entry : Fields) (name : String)
      → IsIn entry s.tools
      → as_str (get_or_null "name" entry) ≡ some name
      → IsKnown config (some s) s.server tool name
  found_resource :
      (s : CapabilitySnapshot) (entry : Fields) (name : String)
      → IsIn entry s.resources
      → as_str (get_or_null "uri" entry) ≡ some name
      → IsKnown config (some s) s.server resource name
  found_prompt :
      (s : CapabilitySnapshot) (entry : Fields) (name : String)
      → IsIn entry s.prompts
      → as_str (get_or_null "name" entry) ≡ some name
      → IsKnown config (some s) s.server prompt name

mapped_capabilities-IsIn :
    (server : String) (kind : CapabilityType) (mapped : Dict String CapabilityMetadata)
    (name : String) (v : CapabilityMetadata)
    → IsIn (name, v) mapped
    → IsIn (capability_named server kind "config" name) (mapped_capabilities server kind mapped)
mapped_capabilities-IsIn server kind mapped name v m =
    IsIn-map (capability_named server kind "config") name _ (
      sorted_set-IsIn name _
        (IsIn-map (λ (entry : String × CapabilityMetadata). entry.0) (name, v) mapped m))

-- a capability among three lists of them
among_first : (c : Capability) (xs ys zs : List Capability) → IsIn c xs → IsIn c (xs ++ ys ++ zs)
among_first c xs ys zs m = IsIn-left c (xs ++ ys) zs (IsIn-left c xs ys m)

among_second : (c : Capability) (xs ys zs : List Capability) → IsIn c ys → IsIn c (xs ++ ys ++ zs)
among_second c xs ys zs m = IsIn-left c (xs ++ ys) zs (IsIn-right c xs ys m)

among_third : (c : Capability) (xs ys zs : List Capability) → IsIn c zs → IsIn c (xs ++ ys ++ zs)
among_third c xs ys zs m = IsIn-right c (xs ++ ys) zs m

-- the capabilities of one server
abbrev own_capabilities : String → ServerCapabilityMappings → List Capability
own_capabilities server m =
    mapped_capabilities server tool m.tools
    ++ mapped_capabilities server resource m.resources
    ++ mapped_capabilities server prompt m.prompts

-- the capabilities of each server are among those of all
config_capabilities-IsIn :
    (c : Capability) (server : String) (m : ServerCapabilityMappings)
    (all_mappings : Dict String ServerCapabilityMappings)
    → IsIn (server, m) all_mappings
    → IsIn c (own_capabilities server m)
    → IsIn c (config_capabilities all_mappings)
unfolding config_capabilities
config_capabilities-IsIn c server m [] e h = absurd e
config_capabilities-IsIn c server m (entry ∷ rest) (inl e) h =
    subst (λ p. IsIn c (config_capabilities (p ∷ rest))) e
      (IsIn-left c (own_capabilities server m) (config_capabilities rest) h)
config_capabilities-IsIn c server m ((name, mappings) ∷ rest) (inr later) h =
    IsIn-right c (own_capabilities name mappings) (config_capabilities rest)
      (config_capabilities-IsIn c server m rest later h)

named_items-IsIn :
    (server : String) (kind : CapabilityType) (key : String) (entries : List Fields)
    (entry : Fields) (name : String)
    → IsIn entry entries
    → as_str (get_or_null key entry) ≡ some name
    → IsIn (capability_named server kind "snapshot" name) (named_items server kind key entries)
unfolding named_items
named_items-IsIn server kind key [] entry name m h = absurd m
named_items-IsIn server kind key (other ∷ entries) entry name (inl e) h =
    rw (ap (λ (x : Fields). as_str (get_or_null key x)) (sym e) ∙ h, named_items) (inl refl)
named_items-IsIn server kind key (other ∷ entries) entry name (inr m) h =
    elim (Option-cases (as_str (get_or_null key other))) [
      | inl unnamed ↦
          rw (unnamed, named_items) (named_items-IsIn server kind key entries entry name m h)
      | inr (t, named) ↦
          rw (named, named_items) (inr (named_items-IsIn server kind key entries entry name m h))
    ]

module _ (host : Host) (basic : BasicValidators) (config : McpztConfig) where
  -- An item of the report for this capability, with the effect that the policy engine decides on
  -- for it.
  pub record IsCovered (server : String) (kind : CapabilityType) (name : String)
      (items : List PolicyCoverageItem) : Type 0 where
    pub item : PolicyCoverageItem
    pub within : IsIn item items
    pub of_server : item.server ≡ server
    pub of_kind : item.capability_type ≡ kind
    pub of_name : item.capability ≡ name
    pub source : String
    pub d : PolicyDecision
    pub decided :
        evaluate host basic config
          (context_for_capability config (capability_named server kind source name))
        ≡ ok d
    pub of_decision : item.decision ≡ d.decision

  -- what is known is looked at
  IsKnown-IsIn :
      (snapshot : Option CapabilitySnapshot) (server : String) (kind : CapabilityType)
      (name : String)
      → IsKnown config snapshot server kind name
      → (source : String) × IsIn
          (capability_named server kind source name)
          (capabilities config snapshot)
  unfolding capabilities snapshot_capabilities
  IsKnown-IsIn _ _ _ _ (mapped_tool server name m v s t) = (
    "config",
    config_capabilities-IsIn (capability_named server tool "config" name) server m _ s (
        among_first (capability_named server tool "config" name)
          (mapped_capabilities server tool m.tools)
          (mapped_capabilities server resource m.resources)
          (mapped_capabilities server prompt m.prompts)
          (mapped_capabilities-IsIn server tool m.tools name v t)),
  )
  IsKnown-IsIn _ _ _ _ (mapped_resource server name m v s t) = (
    "config",
    config_capabilities-IsIn (capability_named server resource "config" name) server m _ s (
        among_second (capability_named server resource "config" name)
          (mapped_capabilities server tool m.tools)
          (mapped_capabilities server resource m.resources)
          (mapped_capabilities server prompt m.prompts)
          (mapped_capabilities-IsIn server resource m.resources name v t)),
  )
  IsKnown-IsIn _ _ _ _ (mapped_prompt server name m v s t) = (
    "config",
    config_capabilities-IsIn (capability_named server prompt "config" name) server m _ s (
        among_third (capability_named server prompt "config" name)
          (mapped_capabilities server tool m.tools)
          (mapped_capabilities server resource m.resources)
          (mapped_capabilities server prompt m.prompts)
          (mapped_capabilities-IsIn server prompt m.prompts name v t)),
  )
  IsKnown-IsIn _ _ _ _ (found_tool s entry name t h) = (
    "snapshot",
    among_first (capability_named s.server tool "snapshot" name)
        (named_items s.server tool "name" s.tools) (named_items s.server resource "uri" s.resources)
        (named_items s.server prompt "name" s.prompts)
        (named_items-IsIn s.server tool "name" s.tools entry name t h),
  )
  IsKnown-IsIn _ _ _ _ (found_resource s entry name t h) = (
    "snapshot",
    among_second (capability_named s.server resource "snapshot" name)
        (named_items s.server tool "name" s.tools) (named_items s.server resource "uri" s.resources)
        (named_items s.server prompt "name" s.prompts)
        (named_items-IsIn s.server resource "uri" s.resources entry name t h),
  )
  IsKnown-IsIn _ _ _ _ (found_prompt s entry name t h) = (
    "snapshot",
    among_third (capability_named s.server prompt "snapshot" name)
        (named_items s.server tool "name" s.tools) (named_items s.server resource "uri" s.resources)
        (named_items s.server prompt "name" s.prompts)
        (named_items-IsIn s.server prompt "name" s.prompts entry name t h),
  )

  abbrev with_rest : List Capability → PolicyCoverageItem → Outcome (List PolicyCoverageItem)
  with_rest cs item = coverage_items host basic config cs >>= λ later. ok (item ∷ later)

  -- what is looked at has an item
  coverage_items-IsIn :
      (c : Capability) (cs : List Capability) (items : List PolicyCoverageItem)
      → IsIn c cs
      → coverage_items host basic config cs ≡ ok items
      → (item : PolicyCoverageItem) × (IsIn item items)
        × (coverage_item host basic config c ≡ ok item)
  unfolding coverage_items
  coverage_items-IsIn c [] items m h = absurd m
  coverage_items-IsIn c (first ∷ cs) items (inl e) h =
      let (item, one, h1) = >>=-eq-ok (coverage_item host basic config first) (with_rest cs) h in
      let (rest, others, h2) =
        >>=-eq-ok (coverage_items host basic config cs)
          (λ (later : List PolicyCoverageItem). ok (item ∷ later)) h1 in
      (
        item,
        subst (IsIn item) (ok-injective h2) (inl refl),
        ap (coverage_item host basic config) e ∙ one,
      )
  coverage_items-IsIn c (first ∷ cs) items (inr m) h =
      let (item, one, h1) = >>=-eq-ok (coverage_item host basic config first) (with_rest cs) h in
      let (rest, others, h2) =
        >>=-eq-ok (coverage_items host basic config cs)
          (λ (later : List PolicyCoverageItem). ok (item ∷ later)) h1 in
      let (found, within, made) = coverage_items-IsIn c cs rest m others in
      (found, subst (IsIn found) (ok-injective h2) (inr within), made)

  covered :
      (server : String) (kind : CapabilityType) (name source : String)
      (items : List PolicyCoverageItem) (item : PolicyCoverageItem)
      → IsIn item items
      → coverage_item host basic config (capability_named server kind source name) ≡ ok item
      → IsCovered server kind name items
  unfolding coverage_item
  covered server kind name source items item within made =
      let (d, decided, h) = >>=-eq-ok _ _ made in
      let same = ok-injective h in
      record {
        item = item;
        within = within;
        of_server = sym (ap (λ (x : PolicyCoverageItem). x.server) same);
        of_kind = sym (ap (λ (x : PolicyCoverageItem). x.capability_type) same);
        of_name = sym (ap (λ (x : PolicyCoverageItem). x.capability) same);
        source = source;
        d = d;
        decided = decided;
        of_decision = sym (ap (λ (x : PolicyCoverageItem). x.decision) same);
      }

  -- Each known capability has an item in the report.
  pub build_policy_coverage-IsCovered :
      (snapshot : Option CapabilitySnapshot) (items : List PolicyCoverageItem)
      → build_policy_coverage host basic config snapshot ≡ ok items
      → (server : String) (kind : CapabilityType) (name : String)
      → IsKnown config snapshot server kind name
      → IsCovered server kind name items
  unfolding build_policy_coverage
  build_policy_coverage-IsCovered snapshot items h server kind name known =
      let (source, m) = IsKnown-IsIn snapshot server kind name known in
      let (item, within, made) = coverage_items-IsIn _ _ items m h in
      covered server kind name source items item within made
