-- ===== src/Metrics.antt =====
-- observability/metrics.py: the counters of decisions and their text.
use mcp_zero_trust_layer.Base.{
  eqb, if◌then◌else◌, ◌==◌, truthy, nat_eq, string_eq, option_eq, pos, int_eq, bool_eq, ℕ, suc,
  String, ◌<>◌, Bool, ◌&&◌, none, some, List, [], ◌∷◌, map,
}
use mcp_zero_trust_layer.Base.Text.{str_lt, join}
use mcp_zero_trust_layer.Value.{int}
use mcp_zero_trust_layer.Host.{Host}
use mcp_zero_trust_layer.Config.{RequestContext, PolicyDecision}
use mcp_zero_trust_layer.Policy.Adapter.{effect_name}
use Prim.Native.Char.{code}

-- server, method, decision and policy id
pub record MetricKey : Type 0 where
  pub server : String
  pub called : String
  pub decision : String
  pub policy_id : String

abbrev pub Counters : Type 0
Counters = List (MetricKey × ℕ)

abbrev pub same_key : MetricKey → MetricKey → Bool
same_key a b =
    a.server == b.server
    && a.called == b.called
    && a.decision == b.decision
    && a.policy_id == b.policy_id

-- `self._decisions[key]`, which is 0 when it is missing
unfoldable pub count_of : MetricKey → Counters → ℕ
count_of key [] = 0
count_of key ((other, n) ∷ counters) = if same_key other key then n else count_of key counters

-- `self._decisions[key] += 1`
unfoldable pub increment : MetricKey → Counters → Counters
increment key [] = (key, 1) ∷ []
increment key ((other, n) ∷ counters) =
    if same_key other key then (other, suc n) ∷ counters else (other, n) ∷ increment key counters

-- `decision.policy_id or "default"`
abbrev pub metric_key : RequestContext → PolicyDecision → MetricKey
metric_key context d = record {
  server = context.server;
  called = context.method;
  decision = effect_name d.decision;
  policy_id = (elim d.policy_id [
    | none ↦ "default"
    | some id ↦ if truthy id then id else "default"
  ]);
}

unfoldable pub record_decision : RequestContext → PolicyDecision → Counters → Counters
unfolding increment
record_decision context d counters = increment (metric_key context d) counters

-- `_escape_label`; the three replacements meet different characters, so one pass does them
unfoldable pub escape_label : String → String
escape_label String.[] = ""
escape_label (String.◌∷◌ c s) =
    let rest = escape_label s in
    if eqb (code c) b'\\'
    then "\\\\" <> rest
    else if eqb (code c) b'\n'
    then "\\n" <> rest
    else if eqb (code c) 34
    then "\\\"" <> rest
    else String.◌∷◌ c rest

-- the order of the keys, as tuples
unfoldable pub key_lt : MetricKey → MetricKey → Bool
unfolding str_lt
key_lt a b =
    if a.server == b.server
    then (if a.called == b.called
        then (if a.decision == b.decision
            then str_lt a.policy_id b.policy_id
            else str_lt a.decision b.decision)
        else str_lt a.called b.called)
    else str_lt a.server b.server

insert_counter : MetricKey × ℕ → Counters → Counters
insert_counter entry [] = entry ∷ []
insert_counter entry (other ∷ counters) =
    let rest = insert_counter entry counters in
    if key_lt entry.0 other.0 then entry ∷ other ∷ counters else other ∷ rest

-- `sorted(self._decisions.items())`
unfoldable pub sorted_counters : Counters → Counters
unfolding insert_counter key_lt
sorted_counters [] = []
sorted_counters (entry ∷ counters) = insert_counter entry (sorted_counters counters)

abbrev label : String → String → String
label name text = name <> ("=\"" <> (escape_label text <> "\""))

-- the line of one counter
unfoldable pub counter_line : Host → MetricKey × ℕ → String
unfolding escape_label join
counter_line host (key, n) =
    "mcpzt_policy_decisions_total{"
    <> (join "," (
          label "server" key.server
          ∷ label "method" key.called
          ∷ label "decision" key.decision
          ∷ label "policy_id" key.policy_id
          ∷ [])
        <> ("} " <> host.to_str (int (pos n))))

unfoldable pub render_prometheus : Host → Counters → String
unfolding sorted_counters counter_line join
render_prometheus host counters =
    join "\n" (
      "# HELP mcpzt_policy_decisions_total Policy decisions made by MCP Zero Trust Layer."
      ∷ "# TYPE mcpzt_policy_decisions_total counter"
      ∷ map (counter_line host) (sorted_counters counters))
    <> "\n"
