-- ===== src/Policy/Matching/Single.antt =====
-- policy/engine.py: what each condition of a policy means, and its test.
use mcp_zero_trust_layer.Base.{
  Bool-cases, Eq, truthy, nat_eq, string_eq, option_beq_iff, option_eq, contains, is_empty, all,
  any, somes, All, int_eq, bool_eq, String, ◌≡◌, refl, ◌↔◌, ◌⊎◌, inl, inr, true, false, Option,
  none, some, List, [], ◌∷◌, arith,
}
use mcp_zero_trust_layer.Host.{Host}
use mcp_zero_trust_layer.Config.{
  capability_type_eq, CapabilityMetadata, PolicyMatch, Identity, RequestContext,
}
use mcp_zero_trust_layer.Policy.Matching.{
  Failure, exact_failure, contains_failure, matches_pattern, method_failure, pattern_failure,
  patterns_failure, identity_user_failure, tags_failure,
}

-- The condition is not set, or `P` holds.
abbrev pub UnsetOr : {A : Type 0} ⦃e : Eq A⦄ → Option A → Type 0 → Type 0
UnsetOr expected P = (truthy expected ≡ false) ⊎ P

-- The expected value is one of the values.
abbrev pub Holds : Option String → List String → Type 0
Holds expected values = (x : String) × (expected ≡ some x) × (contains values x ≡ true)

module _ (host : Host) where
  -- The capability of the request is there and fits the pattern.
  abbrev pub Fits : Option String → String → Type 0
  Fits actual pattern =
      (name : String) × (actual ≡ some name) × (host.fnmatchcase name pattern ≡ true)

  abbrev pub FitsOption : Option String → Option String → Type 0
  FitsOption actual pattern = (p : String) × (pattern ≡ some p) × Fits actual p

  abbrev pub FitsOne : Option String → List String → Type 0
  FitsOne actual [] = ⊥
  FitsOne actual (p ∷ ps) = Fits actual p ⊎ FitsOne actual ps

  pub record MeetsRequest (m : PolicyMatch) (c : RequestContext) : Type 0 where
    pub server : UnsetOr m.server (m.server ≡ some c.server)
    pub method : UnsetOr m.method (FitsOption (some c.method) m.method)
    pub capability_type : UnsetOr m.capability_type (m.capability_type ≡ some c.capability_type)
    pub capability : UnsetOr m.capability (FitsOption c.capability m.capability)
    pub capabilities : (m.capabilities ≡ []) ⊎ FitsOne c.capability m.capabilities
    pub environment : UnsetOr m.environment (m.environment ≡ some c.environment)
    pub user : UnsetOr m.user ((some c.identity.subject ≡ m.user) ⊎ (c.identity.email ≡ m.user))
    pub group : UnsetOr m.group (Holds m.group c.identity.groups)
    pub role : UnsetOr m.role (Holds m.role c.identity.roles)
    pub client_id : UnsetOr m.client_id (m.client_id ≡ c.identity.client_id)
    pub agent_id : UnsetOr m.agent_id (m.agent_id ≡ c.identity.agent_id)

-- `somes` is empty when each entry is `none`.
abbrev pub AllNone : List (Option Failure) → Type 0
AllNone fs = All (λ f. f ≡ none) fs

pub somes_iff : (fs : List (Option Failure)) → (is_empty (somes fs) ≡ true) ↔ AllNone fs
unfolding somes
somes_iff [] = (λ _. tt, λ _. refl)
somes_iff (none ∷ fs) = let (there, back) = somes_iff fs in (λ h. (refl, there h), λ (_, h). back h)
somes_iff (some f ∷ fs) = (λ h. cc, λ (e, _). cc)

pub exact_iff :
    {A : Type 0} ⦃e : Eq A⦄ (label : String) (actual expected : Option A)
    → (exact_failure label actual expected ≡ none) ↔ UnsetOr expected (expected ≡ actual)
unfolding exact_failure
exact_iff ⦃e⦄ label actual expected = ground (arith, option_beq_iff ⦃e = e⦄ expected actual)

pub method_iff :
    (host : Host) (actual : String) (expected : Option String)
    → (method_failure host actual expected ≡ none)
      ↔ UnsetOr expected (FitsOption host (some actual) expected)
unfolding method_failure
method_iff host actual none = (λ _. inl refl, λ _. refl)
method_iff host actual (some p) = (
  λ h. elim (Bool-cases (truthy p)) [
    | inl set ↦ inr (p, refl, (actual, refl, ground arith))
    | inr unset ↦ inl unset
  ],
  λ u. elim u [ inl unset ↦ ground arith | inr (q, same, (name, is_name, fits)) ↦ ground arith ],
)

Fits-of :
    (host : Host) (actual : Option String) (p : String)
    → matches_pattern host actual p ≡ true
    → Fits host actual p
unfolding matches_pattern
Fits-of host none p h = cc
Fits-of host (some a) p h = (a, refl, h)

of_Fits :
    (host : Host) (actual : Option String) (p : String)
    → Fits host actual p
    → matches_pattern host actual p ≡ true
unfolding matches_pattern
of_Fits host none p (a, e, h) = cc
of_Fits host (some a) p (b, e, h) = ground arith

pub pattern_iff :
    (host : Host) (actual expected : Option String)
    → (pattern_failure host actual expected ≡ none)
      ↔ UnsetOr expected (FitsOption host actual expected)
unfolding pattern_failure
pattern_iff host actual none = (λ _. inl refl, λ _. refl)
pattern_iff host actual (some p) = (
  λ h. elim (Bool-cases (truthy p)) [
    | inl set ↦ inr (p, refl, Fits-of host actual p (ground arith))
    | inr unset ↦ inl unset
  ],
  λ u. elim u [
    | inl unset ↦ ground arith
    | inr (q, same, fits) ↦ ground (arith, of_Fits host actual q fits)
  ],
)

pub any_iff :
    (host : Host) (actual : Option String) (ps : List String)
    → (any (matches_pattern host actual) ps ≡ true) ↔ FitsOne host actual ps
unfolding any
any_iff host actual [] = (λ h. cc, λ h. absurd h)
any_iff host actual (p ∷ ps) = (
  λ h. elim (Bool-cases (matches_pattern host actual p)) [
    | inl fits ↦ inl (Fits-of host actual p fits)
    | inr other ↦ inr ((any_iff host actual ps).0 (ground arith))
  ],
  λ u. elim u [
    | inl fits ↦ ground (arith, of_Fits host actual p fits)
    | inr rest ↦ ground (arith, (any_iff host actual ps).1 rest)
  ],
)

pub patterns_iff :
    (host : Host) (actual : Option String) (ps : List String)
    → (patterns_failure host actual ps ≡ none) ↔ ((ps ≡ []) ⊎ FitsOne host actual ps)
unfolding patterns_failure
patterns_iff host actual [] = (λ _. inl refl, λ _. refl)
patterns_iff host actual (p ∷ ps) = (
  λ h. inr ((any_iff host actual (p ∷ ps)).0 (ground arith)),
  λ u. elim u [ inl e ↦ cc | inr fits ↦ ground (arith, (any_iff host actual (p ∷ ps)).1 fits) ],
)

pub contains_iff :
    (label : String) (expected : Option String) (values : List String)
    → (contains_failure label expected values ≡ none) ↔ UnsetOr expected (Holds expected values)
unfolding contains_failure
contains_iff label none values = (λ _. inl refl, λ _. refl)
contains_iff label (some x) values = (
  λ h. elim (Bool-cases (truthy x)) [
    | inl set ↦ inr (x, refl, ground arith)
    | inr unset ↦ inl unset
  ],
  λ u. elim u [ inl unset ↦ ground arith | inr (y, same, there) ↦ ground arith ],
)

pub user_iff :
    (host : Host) (user : Option String) (i : Identity)
    → (identity_user_failure host user i ≡ none)
      ↔ UnsetOr user ((some i.subject ≡ user) ⊎ (i.email ≡ user))
unfolding identity_user_failure
user_iff host user i = ground (
  arith,
  option_beq_iff ⦃e = string_eq⦄ (some i.subject) user,
  option_beq_iff ⦃e = string_eq⦄ i.email user,
)

-- What a policy demands of the metadata of the capability.
pub record MeetsMetadata (m : PolicyMatch) (d : CapabilityMetadata) : Type 0 where
  pub action : UnsetOr m.action (m.action ≡ d.action)
  pub risk : UnsetOr m.risk (m.risk ≡ d.risk)
  pub access : UnsetOr m.access (m.access ≡ d.access)
  pub resource_type : UnsetOr m.resource_type (m.resource_type ≡ d.resource_type)
  pub data_classification :
      UnsetOr m.data_classification (m.data_classification ≡ d.data_classification)
  pub tag : UnsetOr m.tag (Holds m.tag d.tags)
  pub tags : All (λ t. contains d.tags t ≡ true) m.tags

-- Without metadata, no condition on it may be set.
abbrev pub Meets : PolicyMatch → Option CapabilityMetadata → Type 0
Meets m none =
    (truthy m.action ≡ false)
    × (truthy m.risk ≡ false)
    × (truthy m.access ≡ false)
    × (truthy m.resource_type ≡ false)
    × (truthy m.data_classification ≡ false)
    × (truthy m.tag ≡ false)
    × (m.tags ≡ [])
Meets m (some d) = MeetsMetadata m d

pub all_iff :
    (present wanted : List String)
    → (all (contains present) wanted ≡ true) ↔ All (λ t. contains present t ≡ true) wanted
unfolding all
all_iff present [] = (λ _. tt, λ _. refl)
all_iff present (t ∷ ts) =
    let (there, back) = all_iff present ts in
    (λ h. (ground arith, there (ground arith)), λ (h, hs). ground (arith, back hs))

pub tags_iff :
    (host : Host) (wanted present : List String)
    → (tags_failure host wanted present ≡ none) ↔ All (λ t. contains present t ≡ true) wanted
unfolding tags_failure
tags_iff host [] present = (λ _. tt, λ _. refl)
tags_iff host (t ∷ ts) present =
    let (there, back) = all_iff present (t ∷ ts) in
    (λ h. there (ground arith), λ h. ground (arith, back h))
