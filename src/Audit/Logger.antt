-- ===== src/Audit/Logger.antt =====
-- audit/logger.py: the events of the audit log, the chain of hashes through them, and its check. A
-- line of the file is what `json.loads` makes of it; writing a dict and reading it again gives the
-- same dict. Fresh ids and times are arguments.
pub mod Chain
pub mod Writes
pub mod Tamper
use mcp_zero_trust_layer.Base.{
  if◌then◌else◌, ◌==◌, truthy, nat_eq, string_eq, option_eq, length, ℤ, pos, int_eq, bool_eq, ◌+ℤ◌,
  ℕ, suc, String, ◌<>◌, ◌⊎◌, inl, inr, Bool, true, false, not, ◌&&◌, Option, none, some, List, [],
  ◌∷◌, ◌++◌,
}
use mcp_zero_trust_layer.Value.{
  Value, null, bool, int, str, dict, Fields, end, field, of_fields, get, get_or_null, has, put,
  without, as_str, py_eq, foreign, Outcome, ok, raise,
}
use mcp_zero_trust_layer.Host.{Host}
use mcp_zero_trust_layer.Config.{
  method, capability_type_name, capability_type_eq, AuditConfig, opt_value, identity_dump,
  Direction, inbound, outbound, RequestContext, PolicyDecision,
}
use mcp_zero_trust_layer.Policy.Adapter.{effect_name}
use mcp_zero_trust_layer.Audit.Redaction.{redact_sensitive, redact_entries}

-- A line of the log: empty, spaces alone, other text that is no JSON, or the JSON of a value.
pub data Line : Type 0 where
  blank spaces broken : Line
  holds : Value → Line

-- What `_write` keeps in the process, and what it has written: the lines of the file, and what was
-- printed, oldest first. `cut`: the last line of the file has no line end, since a write stopped in
-- the middle.
pub record AuditState : Type 0 where
  pub lines : List Line
  pub cut : Bool
  pub printed : List Fields
  pub stdout_previous : Option String
  pub stdout_sequence : ℤ

-- The chain so far: the hash of the last event and its number.
abbrev pub ChainState : Type 0
ChainState = Option String × ℤ

-- the line that is last when the empty lines at the end are left out
unfoldable pub last_line : List Line → Option Line
last_line [] = none
last_line (line ∷ lines) = elim (last_line lines) [
  | some last ↦ some last
  | none ↦ elim line [
    | blank ↦ none
    | spaces ↦ some spaces
    | broken ↦ some broken
    | holds v ↦ some (holds v)
  ]
]

-- `_last_event`
unfoldable pub last_event : List Line → Option Fields
unfolding last_line
last_event lines = elim (last_line lines) [ some (holds (dict e)) ↦ some e | _ ↦ none ]

-- `sequence if isinstance(sequence, int) else 0`, where a `bool` is an `int`
abbrev pub int_or_zero : Value → ℤ
int_or_zero (int n) = n
int_or_zero (bool true) = pos 1
int_or_zero _ = pos 0

-- `_previous_chain_state` of a file that can be read
unfoldable pub previous_chain_state : List Line → ChainState
unfolding last_event get_or_null
previous_chain_state lines = elim (last_event lines) [
  | none ↦ (none, pos 0)
  | some e ↦ (as_str (get_or_null "event_hash" e), int_or_zero (get_or_null "sequence" e))
]

-- How a write of the file goes: it raises an `OSError` before the line is in the file, or after it;
-- in the middle of the line; or at its line end alone, which is left out. `unread t`: reading the
-- last event fails, which `_last_event` takes for an empty file, and the write then goes as in `t`.
pub data Trouble : Type 0 where
  fine fails_before fails_after torn unended : Trouble
  unread : Trouble → Trouble

-- the lines that `_last_event` sees
unfoldable pub seen : Trouble → List Line → List Line
seen (unread t) lines = []
seen _ lines = lines

-- whether an `OSError` leaves the block
unfoldable pub stops : Trouble → Bool
stops fine = false
stops (unread t) = stops t
stops _ = true

-- the text after a line without an end makes it one that is no JSON
unfoldable pub break_last : List Line → List Line
break_last [] = []
break_last (line ∷ []) = broken ∷ []
break_last (line ∷ next ∷ lines) = line ∷ break_last (next ∷ lines)

-- Text at the end of the file: a line of its own, unless the last one has no end.
abbrev pub put_line : Line → Bool → AuditState → AuditState
put_line line cut s = record s {
  lines = if s.cut then break_last s.lines else s.lines ++ line ∷ [];
  cut = cut;
}

-- what the write of a line leaves
unfoldable pub after_line : Trouble → Line → AuditState → AuditState
after_line fine line s = put_line line false s
after_line fails_before line s = s
after_line fails_after line s = put_line line false s
after_line torn line s = put_line broken true s
after_line unended line s = put_line line true s
after_line (unread t) line s = after_line t line s

-- What `verify_audit_hash_chain` finds.
pub data Verdict : Type 0 where
  passed : (previous : Option String) (sequence : ℕ) → Verdict
  failed : (line : ℕ) (reason : String) → Verdict

-- `hmac` is `hmac.new(key, payload, sha256).hexdigest()`.
module _ (host : Host) (hmac : String → String → String) (key : Option String) where
  -- the last lines of `event_hash`
  unfoldable pub digest : String → String
  digest payload = elim key [ none ↦ host.sha256 payload | some k ↦ hmac k payload ]

  unfoldable pub event_hash : Fields → String
  unfolding digest
  event_hash event = digest (host.canonical_dumps (dict (without "event_hash" event)))

  -- the event with its place in the chain
  abbrev pub placed : Fields → Option String → ℤ → Fields
  placed event previous sequence =
      put "sequence" (int sequence) (put "previous_event_hash" (opt_value previous) event)

  -- `_with_hash`
  unfoldable pub with_hash : Fields → Option String → ℤ → Fields
  with_hash event previous sequence =
      let e = placed event previous sequence in put "event_hash" (str (event_hash e)) e

  -- `_write` to the standard output
  unfoldable pub write_stdout : Bool → Fields → AuditState → AuditState
  unfolding with_hash ◌+ℤ◌
  write_stdout hash_chain event s =
      if hash_chain
      then (let e = with_hash event s.stdout_previous (s.stdout_sequence +ℤ pos 1) in
          record s {
            printed = s.printed ++ e ∷ [];
            stdout_previous =
                some (event_hash (placed event s.stdout_previous (s.stdout_sequence +ℤ pos 1)));
            stdout_sequence = s.stdout_sequence +ℤ pos 1;
          })
      else record s { printed = s.printed ++ event ∷ [] }

  -- what `_write` puts at the end of the file
  unfoldable pub next_line : Bool → Fields → List Line → Line
  next_line hash_chain event lines =
      if hash_chain
      then (let (previous, sequence) = previous_chain_state lines in
          holds (dict (with_hash event previous (sequence +ℤ pos 1))))
      else holds (dict event)

  -- `_write` to the file; without `strict`, an `OSError` is only printed
  unfoldable pub write_file :
      AuditConfig → Trouble → Fields → AuditState → Outcome (Unit {0}) × AuditState
  write_file config trouble event s =
      let line = next_line config.hash_chain event (seen trouble s.lines) in
      let result : Outcome (Unit {0}) =
        if stops trouble && config.strict then raise (foreign "OSError") else ok tt in
      (result, after_line trouble line s)

  -- `_write`
  unfoldable pub write :
      AuditConfig → Trouble → Fields → AuditState → Outcome (Unit {0}) × AuditState
  write config trouble event s =
      if config.destination == "stdout"
      then (ok tt, write_stdout config.hash_chain event s)
      else write_file config trouble event s

  -- the checks of one event, in order; `none` is an event that passes
  unfoldable pub event_failure : Option String → ℕ → Fields → Option String
  event_failure previous sequence e =
      if not (py_eq (get_or_null "previous_event_hash" e) (opt_value previous))
      then some "previous_event_hash mismatch"
      else if has "sequence" e && not (py_eq (get_or_null "sequence" e) (int (pos (suc sequence))))
      then some "sequence mismatch"
      else if not (py_eq (get_or_null "event_hash" e) (str (event_hash e)))
      then some "event_hash mismatch"
      else none

  -- the loop, from line `index` on
  unfoldable pub verify_from : ℕ → Option String → ℕ → List Line → Verdict
  verify_from index previous sequence [] = passed previous sequence
  verify_from index previous sequence (blank ∷ lines) = failed index "invalid JSON"
  verify_from index previous sequence (spaces ∷ lines) = failed index "invalid JSON"
  verify_from index previous sequence (broken ∷ lines) = failed index "invalid JSON"
  verify_from index previous sequence (holds (dict e) ∷ lines) =
      let rest =
        verify_from (suc index) (some (event_hash e))
          (if has "sequence" e then suc sequence else sequence) lines in
      elim (event_failure previous sequence e) [ some reason ↦ failed index reason | none ↦ rest ]
  verify_from index previous sequence (holds _ ∷ lines) = failed index "event must be a JSON object"

  -- `verify_audit_hash_chain` of the lines of a file, or of an `OSError` with its text
  unfoldable pub verify_audit_hash_chain : String ⊎ List Line → Bool × String
  unfolding verify_from
  verify_audit_hash_chain (inl error) = (false, error)
  verify_audit_hash_chain (inr lines) = elim (verify_from 1 none 0 lines) [
    | passed _ _ ↦ (true, "verified " <> (host.to_str (int (pos (length lines))) <> " event(s)"))
    | failed index reason ↦ (false, "line " <> (host.to_str (int (pos index)) <> (": " <> reason)))
  ]

-- `context.direction`
abbrev pub direction_name : Direction → String
direction_name inbound = "inbound"
direction_name outbound = "outbound"

abbrev opt_bool : Option Bool → Value
opt_bool none = null
opt_bool (some b) = bool b

-- the event of `log_decision`
unfoldable pub decision_event :
    Host
    → String
    → String
    → String
    → RequestContext
    → PolicyDecision
    → Option Bool
    → Option String
    → Value
    → Fields
unfolding redact_entries identity_dump effect_name
decision_event host fresh_id time fresh_correlation context d called status approval_id =
    let base : Fields = of_fields (
      ("event_id", str ("evt_" <> fresh_id))
      ∷ ("timestamp", str time)
      ∷ (
        "correlation_id",
        (elim context.correlation_id [
          | none ↦ str ("corr_" <> fresh_correlation)
          | some c ↦ str (if truthy c then c else "corr_" <> fresh_correlation)
        ]),
      )
      ∷ ("event_type", str "policy_decision")
      ∷ ("identity", dict (redact_entries host (identity_dump context.identity)))
      ∷ ("server", str context.server)
      ∷ ("method", str context.method)
      ∷ ("direction", str (direction_name context.direction))
      ∷ ("approval_id", approval_id)
      ∷ ("request_binding", get_or_null "request_binding" context.metadata)
      ∷ ("arguments_hash", str (host.sha256 (host.canonical_dumps (dict context.arguments))))
      ∷ ("capability_type", str (capability_type_name context.capability_type))
      ∷ ("capability", opt_value context.capability)
      ∷ ("decision", str (effect_name d.decision))
      ∷ ("policy_id", opt_value d.policy_id)
      ∷ ("reason", str d.reason)
      ∷ ("arguments_redacted", dict (redact_entries host context.arguments))
      ∷ ("dry_run", bool d.dry_run)
      ∷ ("approval_required", bool d.approval_required)
      ∷ ("upstream_called", opt_bool called)
      ∷ ("upstream_status", opt_value status)
      ∷ []) in
    elim (get "operation_id" context.metadata) [ none ↦ base | some v ↦ put "operation_id" v base ]

-- the event of `log_approval`
unfoldable pub approval_event : Host → String → String → String → Value → Fields
unfolding redact_sensitive
approval_event host fresh_id time action approval = field "event_id" (str ("evt_" <> fresh_id)) (
    field "timestamp" (str time) (
      field "event_type" (str "approval")
        (field "action" (str action) (field "approval" (redact_sensitive host approval) end))))
