-- ===== src/Capabilities/Filtering/Visible.antt =====
-- capabilities/filtering.py: which entries of a list a client sees.
use mcp_zero_trust_layer.Base.{
  if◌then◌else◌, Bool-cases, if_fails, String, ◌≡◌, refl, sym, ap, ◌∙◌, ◌↔◌, inl, inr, Bool, true,
  false, Option, none,
}
use mcp_zero_trust_layer.Value.{
  Value, null, bool, int, str, list, dict, Items, nil, cons, Fields, end, get_or_null, Outcome, ok,
  >>=-eq-ok, ok-injective,
}
use mcp_zero_trust_layer.Host.{Host}
use mcp_zero_trust_layer.Config.{
  Effect, allow, deny, hide, require_approval, redact, limit, transform, log, CapabilityType, tool,
  resource, prompt, McpztConfig, Identity, inbound, PolicyDecision,
}
use mcp_zero_trust_layer.Validators.Engine.{BasicValidators}
use mcp_zero_trust_layer.Capabilities.Filtering.{
  is_visible, item_context, item_name, item_decision, visible_items, filter_capabilities,
}
use mcp_zero_trust_layer.Policy.Adapter.{require_opt_str}
use mcp_zero_trust_layer.Policy.Engine.{evaluate}
use mathlib.Core.Path.{subst}

-- The method that asks for a list of this type, and the key of a name in its entries.
pub data IsListed : CapabilityType → String → String → Type 0 where
  of_tools : IsListed tool "tools/list" "name"
  of_resources : IsListed resource "resources/list" "uri"
  of_prompts : IsListed prompt "prompts/list" "name"

-- A client sees what is decided upon with any effect but these two.
pub data IsConcealing : Effect → Type 0 where
  denied : IsConcealing deny
  hidden_away : IsConcealing hide

is_visible-IsConcealing : (e : Effect) → is_visible e ≡ false → IsConcealing e
unfolding is_visible
is_visible-IsConcealing deny h = denied
is_visible-IsConcealing hide h = hidden_away
is_visible-IsConcealing allow h = cc
is_visible-IsConcealing require_approval h = cc
is_visible-IsConcealing redact h = cc
is_visible-IsConcealing limit h = cc
is_visible-IsConcealing transform h = cc
is_visible-IsConcealing log h = cc

IsConcealing-is_visible : (e : Effect) → IsConcealing e → is_visible e ≡ false
unfolding is_visible
IsConcealing-is_visible _ denied = refl
IsConcealing-is_visible _ hidden_away = refl

visible_not_concealing : (e : Effect) → is_visible e ≡ true → IsConcealing e → ⊥
visible_not_concealing e h c = let no = IsConcealing-is_visible e c in cc

not_concealing_visible : (e : Effect) → (IsConcealing e → ⊥) → is_visible e ≡ true
not_concealing_visible e n = elim (Bool-cases (is_visible e)) [
  | inl seen ↦ seen
  | inr unseen ↦ absurd (n (is_visible-IsConcealing e unseen))
]

module _ (host : Host) (basic : BasicValidators) (config : McpztConfig) (server : String)
    (capability_type : CapabilityType) (identity : Identity) (environment : String)
    (list_method key : String) where
  -- The policy engine made this decision about the entry: on an inbound call of the list method of
  -- the server, without arguments, for the name that the entry has at the key.
  pub record Judged (v : Value) (d : PolicyDecision) : Type 0 where
    pub fields : Fields
    pub is_dict : v ≡ dict fields
    pub name : Option String
    pub named : require_opt_str (get_or_null key fields) ≡ ok name
    pub decided :
        evaluate host basic config (record {
          server = server;
          method = list_method;
          capability_type = capability_type;
          capability = name;
          arguments = end;
          output = null;
          direction = inbound;
          identity = identity;
          environment = environment;
          metadata = end;
          correlation_id = none;
          config_base_dir = config.config_base_dir;
        })
        ≡ ok d

  -- The second list is the first without the entries whose decision conceals them, in the same
  -- order.
  pub data IsVisiblePart : Items → Items → Type 0 where
    finished : IsVisiblePart nil nil
    shown :
        {v : Value} {vs ws : Items} (d : PolicyDecision)
        → Judged v d
        → (IsConcealing d.decision → ⊥)
        → IsVisiblePart vs ws
        → IsVisiblePart (cons v vs) (cons v ws)
    hidden :
        {v : Value} {vs ws : Items} (d : PolicyDecision)
        → Judged v d
        → IsConcealing d.decision
        → IsVisiblePart vs ws
        → IsVisiblePart (cons v vs) ws

module _ (host : Host) (basic : BasicValidators) (config : McpztConfig) (server : String)
    (identity : Identity) (environment : String) where
  dict-Judged :
      (capability_type : CapabilityType) (list_method key : String) (fs : Fields)
      (d : PolicyDecision)
      → IsListed capability_type list_method key
      → item_decision host basic config server capability_type identity environment (dict fs) ≡ ok d
      → Judged host basic config server capability_type identity environment list_method key
          (dict fs)
          d
  unfolding item_decision item_name
  dict-Judged _ _ _ fs d of_tools h =
      let (name, named, decided) = >>=-eq-ok _ _ h in
      record { fields = fs; is_dict = refl; name = name; named = named; decided = decided }
  dict-Judged _ _ _ fs d of_resources h =
      let (name, named, decided) = >>=-eq-ok _ _ h in
      record { fields = fs; is_dict = refl; name = name; named = named; decided = decided }
  dict-Judged _ _ _ fs d of_prompts h =
      let (name, named, decided) = >>=-eq-ok _ _ h in
      record { fields = fs; is_dict = refl; name = name; named = named; decided = decided }

  Judged-dict :
      (capability_type : CapabilityType) (list_method key : String) (fs : Fields)
      (d : PolicyDecision) (name : Option String)
      → IsListed capability_type list_method key
      → require_opt_str (get_or_null key fs) ≡ ok name
      → evaluate host basic config
          (record (item_context config server capability_type name identity environment) {
            method = list_method;
          })
        ≡ ok d
      → item_decision host basic config server capability_type identity environment (dict fs) ≡ ok d
  unfolding item_decision item_name
  Judged-dict _ _ _ fs d name of_tools named decided = rw named decided
  Judged-dict _ _ _ fs d name of_resources named decided = rw named decided
  Judged-dict _ _ _ fs d name of_prompts named decided = rw named decided

module _ (host : Host) (basic : BasicValidators) (config : McpztConfig) (server : String)
    (capability_type : CapabilityType) (identity : Identity) (environment : String)
    (list_method key : String) (listed : IsListed capability_type list_method key) where
  abbrev IsJudged : Value → PolicyDecision → Type 0
  IsJudged = Judged host basic config server capability_type identity environment list_method key

  abbrev IsPart : Items → Items → Type 0
  IsPart =
      IsVisiblePart host basic config server capability_type identity environment list_method key

  abbrev decision_of : Value → Outcome PolicyDecision
  decision_of = item_decision host basic config server capability_type identity environment

  item_decision-Judged : (v : Value) (d : PolicyDecision) → decision_of v ≡ ok d → IsJudged v d
  unfolding item_decision item_name
  item_decision-Judged (dict fs) d h =
      dict-Judged host basic config server identity environment capability_type list_method key fs d
        listed h
  item_decision-Judged null d h = cc
  item_decision-Judged (bool b) d h = cc
  item_decision-Judged (int n) d h = cc
  item_decision-Judged (str t) d h = cc
  item_decision-Judged (list vs) d h = cc

  Judged-item_decision : (v : Value) (d : PolicyDecision) → IsJudged v d → decision_of v ≡ ok d
  Judged-item_decision v d j =
      ap decision_of j.is_dict
      ∙ Judged-dict host basic config server identity environment capability_type list_method key
          j.fields d j.name listed j.named j.decided

  -- the code's name for the filtered list
  abbrev filtered : Items → Outcome Items
  filtered vs = visible_items host basic config server capability_type identity environment vs

  -- one entry, by whether its decision shows it
  entry-IsVisiblePart :
      (v : Value) (vs ws : Items) (d : PolicyDecision) (b : Bool)
      → is_visible d.decision ≡ b
      → decision_of v ≡ ok d
      → IsPart vs ws
      → IsPart (cons v vs) (if b then cons v ws else ws)
  entry-IsVisiblePart v vs ws d true seen decision part =
      shown d (item_decision-Judged v d decision) (visible_not_concealing d.decision seen) part
  entry-IsVisiblePart v vs ws d false unseen decision part =
      hidden d (item_decision-Judged v d decision) (is_visible-IsConcealing d.decision unseen) part

  visible_items_sound : (vs ws : Items) → filtered vs ≡ ok ws → IsPart vs ws
  unfolding visible_items
  visible_items_sound nil ws h = subst (IsPart nil) (ok-injective h) finished
  visible_items_sound (cons v vs) ws h =
      let (d, decision, h1) = >>=-eq-ok _ _ h in
      let (rest, later, h2) = >>=-eq-ok _ _ h1 in
      subst (IsPart (cons v vs)) (ok-injective h2) (
        entry-IsVisiblePart v vs rest d (is_visible d.decision) refl decision
          (visible_items_sound vs rest later))

  visible_items_complete : (vs ws : Items) → IsPart vs ws → filtered vs ≡ ok ws
  unfolding visible_items
  visible_items_complete _ _ finished = refl
  visible_items_complete _ _ (shown {v} {vs} {ws} d judged seen part) =
      rw (Judged-item_decision v d judged)
        (rw (visible_items_complete vs ws part) (rw (not_concealing_visible d.decision seen)))
  visible_items_complete _ _ (hidden {v} {vs} {ws} d judged unseen part) =
      rw (Judged-item_decision v d judged)
        (rw (visible_items_complete vs ws part) (rw (IsConcealing-is_visible d.decision unseen)))

-- Outside dry run, on a list of tools, resources or prompts: `filter_capabilities` returns a list
-- exactly when each entry is a dict, with a text or nothing at the key of its name ("name", "uri" for
-- resources), and the policy engine decides on an inbound call of the list method by this identity
-- for that name; the list has, in their order, the entries that are neither denied nor hidden.
pub filter_capabilities_iff :
    (host : Host) (basic : BasicValidators) (config : McpztConfig) (server : String)
    (capability_type : CapabilityType) (identity : Identity) (environment : String)
    (list_method key : String) (vs ws : Items)
    → IsListed capability_type list_method key
    → config.runtime.dry_run ≡ false
    → (filter_capabilities host basic config server capability_type identity environment vs ≡ ok ws)
      ↔ IsVisiblePart host basic config server capability_type identity environment list_method key
          vs ws
unfolding filter_capabilities
filter_capabilities_iff host basic config server capability_type identity environment list_method
      key vs ws listed live =
    let same =
      if_fails config.runtime.dry_run (ok vs)
        (visible_items host basic config server capability_type identity environment vs) live in
    (
      λ h.
          visible_items_sound host basic config server capability_type identity environment
            list_method key listed vs ws (sym same ∙ h),
      λ part.
          same
          ∙ visible_items_complete host basic config server capability_type identity environment
              list_method key listed vs ws part,
    )
