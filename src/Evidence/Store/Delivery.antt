-- ===== src/Evidence/Store/Delivery.antt =====
-- evidence/store.py, `flush`: what is emitted, and what is left to deliver.
use mcp_zero_trust_layer.Base.{take, drop, keep, All, ◌≡◌, not, List, ◌∷◌, ◌++◌}
use mcp_zero_trust_layer.Value.{Fields, Raised, Outcome, ok, raise}
use mcp_zero_trust_layer.Evidence.Tables.{EventRow, Database}

-- the events that are still to deliver
abbrev pub pending : List EventRow → List EventRow
pending rows = keep (λ row. not row.delivered) rows

module _ (emit : Fields → Outcome (Unit {0})) where
  abbrev pub IsEmitted : EventRow → Type 0
  IsEmitted row = emit row.payload ≡ ok tt

  -- The first of the rows whose delivery failed, with its exception.
  pub record StoppedAt (rows : List EventRow) (e : Raised) : Type 0 where
    pub emitted : List EventRow
    pub row : EventRow
    pub rest : List EventRow
    pub split : rows ≡ emitted ++ row ∷ rest
    pub before : All IsEmitted emitted
    pub here : emit row.payload ≡ raise e

  -- What a flush of a store came to: each of the first thousand events to deliver was emitted, and
  -- the others are what is left to deliver; or the delivery of one of them failed, after those
  -- before it were emitted, and the store is as it was.
  pub data Flushed {D : Type 0} (s : Database D) : Outcome (Unit {0}) × Database D → Type 0 where
    delivered :
        (s' : Database D)
        → All IsEmitted (take 1000 (pending s.events))
        → pending s'.events ≡ drop 1000 (pending s.events)
        → s' ≡ record s { events = s'.events }
        → Flushed s (ok tt, s')
    stopped : (e : Raised) → StoppedAt (take 1000 (pending s.events)) e → Flushed s (raise e, s)

  Ended : List EventRow → Outcome (Unit {0}) → Type 0
  Ended rows (ok _) = All IsEmitted rows
  Ended rows (raise e) = StoppedAt rows e
