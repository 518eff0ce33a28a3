-- ===== src/Core/Action.antt =====
-- The state of a pipeline, its environment, and actions that change the state and may raise. What
-- was done before an exception stays done.
use mcp_zero_trust_layer.Base.{
  ℤ, String, Bool, true, false, not, ◌&&◌, ◌==◌, string_eq, Option, none, some, List, ◌∷◌,
}
use mcp_zero_trust_layer.Base.Dict.{Dict}
use mcp_zero_trust_layer.Value.{Value, Fields, Raised, foreign, Outcome, ok, raise}
use mcp_zero_trust_layer.Host.{Host}
use mcp_zero_trust_layer.Validators.Engine.{BasicValidators}
use mcp_zero_trust_layer.Config.{
  PolicyConfig, ServerConfig, PolicyEngineConfig, McpztConfig, Identity, RequestContext,
  PolicyDecision,
}
use mcp_zero_trust_layer.Approvals.Model.{ApprovalRequest}
use mcp_zero_trust_layer.Approvals.Store.{Disk}

abbrev pub Headers : Type 0
Headers = Option (Dict String String)

-- What a pipeline does that others can see, in order. `audited` is an entry of the audit log by
-- `log_decision`, `unwritten` an entry whose write failed while the configuration tells the logger
-- to go on, `counted` one more decision in the metrics, `sent` a call of the upstream server,
-- `stored` one operation on the approval store, with the disk before and after it.
pub data Event : Type 0 where
  audited :
      (context : RequestContext) (decision : PolicyDecision) (upstream_called : Option Bool)
      (upstream_status : Option String) (approval_id : Value)
      → Event
  counted : (context : RequestContext) (decision : PolicyDecision) → Event
  approval_audited : (action : String) (approval : ApprovalRequest) → Event
  notified : (action : String) (approval : ApprovalRequest) → Event
  unwritten : (entry : Event) → Event
  stored : (before after : Disk) → Event
  sent : (server : ServerConfig) (message : Fields) (headers : Headers) → Event

-- The trace has its last event at the head.
pub record World : Type 0 where
  pub disk : Disk
  pub trace : List Event

-- How a write to the audit log ends: well, by an `OSError`, or by another exception.
pub data Written : Type 0 where
  goes_well : Written
  os_error : Written
  other_error : Raised → Written

-- What the pipeline meets: the upstream server, the clock, fresh ids, and the writes to the audit
-- log and to the approval webhook, which may fail. All depend on the whole trace before them, so
-- nothing is assumed of them. The last three are `model_dump` of the configuration's records.
pub record Environment : Type 0 where
  pub send : List Event → ServerConfig → Fields → Headers → Outcome (Option Fields)
  pub now : List Event → ℤ
  pub fresh_id : List Event → String
  pub audit_write : List Event → Event → Written
  pub webhook_failure : List Event → Event → Option Raised
  pub dump_server : Bool → ServerConfig → Value
  pub dump_policies : List PolicyConfig → Value
  pub dump_policy_engine : PolicyEngineConfig → Value

abbrev pub Action : Type 0 → Type 0
Action A = World → Outcome A × World

-- A pipeline: its configuration, whether it has a metrics collector, and what it stands on. The
-- messages to a server with an evidence configuration go to `with_evidence`, which is not modelled.
pub record Gateway : Type 0 where
  pub host : Host
  pub env : Environment
  pub basic : BasicValidators
  pub config : McpztConfig
  pub metrics : Bool
  pub with_evidence : ServerConfig → Fields → Identity → Headers → Action (Option Fields)

abbrev pub continue : {A B : Type 0} → Outcome A → (A → Action B) → Action B
continue (ok a) f w = f a w
continue (raise e) f w = (raise e, w)

infixl 5 ◌>>=◌ ◌>>◌
unfoldable pub ◌>>=◌ : {A B : Type 0} → Action A → (A → Action B) → Action B
◌>>=◌ m f w = let (r, w') = m w in continue r f w'

abbrev pub ◌>>◌ : {B : Type 0} → Action (Unit {0}) → Action B → Action B
m >> k = m >>= λ _. k

unfoldable pub pure : {A : Type 0} → A → Action A
pure a w = (ok a, w)

unfoldable pub throw : {A : Type 0} → Raised → Action A
throw e w = (raise e, w)

unfoldable pub lift : {A : Type 0} → Outcome A → Action A
lift r w = (r, w)

-- An event that the world may refuse: it is in the trace only if the write did not raise.
unfoldable pub attempt : (List Event → Event → Option Raised) → Event → Action (Unit {0})
attempt failure event w = elim (failure w.trace event) [
  | none ↦ (ok tt, record w { trace = event ∷ w.trace })
  | some e ↦ (raise e, w)
]

-- `excused`: the logger prints a message in place of an `OSError`.
unfoldable pub after_write : Written → Bool → Event → Action (Unit {0})
after_write goes_well excused event w = (ok tt, record w { trace = event ∷ w.trace })
after_write os_error true event w = (ok tt, record w { trace = unwritten event ∷ w.trace })
after_write os_error false event w = (raise (foreign "OSError"), w)
after_write (other_error e) excused event w = (raise e, w)

-- `AuditLogger._write`
abbrev pub excused_by : Gateway → Bool
excused_by g = not g.config.audit.strict && not (g.config.audit.destination == "stdout")

unfoldable pub write_audit : Gateway → Event → Action (Unit {0})
write_audit g event w = after_write (g.env.audit_write w.trace event) (excused_by g) event w

unfoldable pub emit : Event → Action (Unit {0})
emit event w = (ok tt, record w { trace = event ∷ w.trace })

-- an operation on the approval store
unfoldable pub on_disk : {A : Type 0} → (Disk → A × Disk) → Action A
on_disk f w =
    let (a, disk) = f w.disk in (ok a, record { disk = disk; trace = stored w.disk disk ∷ w.trace })

unfoldable pub on_disk_raising : {A : Type 0} → (Disk → Outcome A × Disk) → Action A
on_disk_raising f w =
    let (a, disk) = f w.disk in (a, record { disk = disk; trace = stored w.disk disk ∷ w.trace })

unfoldable pub ask : {A : Type 0} → (List Event → A) → Action A
ask f w = (ok (f w.trace), w)
