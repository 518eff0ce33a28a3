-- ===== src/Audit/Search/Results.antt =====
-- audit/search.py: what a search finds, against the meaning of its filters.
use mcp_zero_trust_layer.Base.{ℤ, ℕ, suc, String, Option, List, [], ◌∷◌}
use mcp_zero_trust_layer.Value.{Fields, Raised, Outcome, ok, raise}
use mcp_zero_trust_layer.Audit.Logger.{Line}
use mcp_zero_trust_layer.Audit.Logger.Tamper.{events_of}
use mcp_zero_trust_layer.Audit.Search.{Filters}
use mcp_zero_trust_layer.Audit.Search.Meaning.{Meets}
use mcp_zero_trust_layer.Audit.Search.Failures.{HasBadLine, HasUndated}

module _ (parse_timestamp : String → Option ℤ) where
  -- The first `n` of the events that pass, in the order of the events. Those after the last one
  -- found are not looked at.
  pub data Selected (f : Filters) : ℕ → List Fields → List Fields → Type 0 where
    full : (events : List Fields) → Selected f 0 events []
    ended : (n : ℕ) → Selected f n [] []
    keeps :
        (n : ℕ) (event : Fields) (events found : List Fields)
        → Meets parse_timestamp f event
        → Selected f n events found
        → Selected f (suc n) (event ∷ events) (event ∷ found)
    skips :
        (n : ℕ) (event : Fields) (events found : List Fields)
        → (Meets parse_timestamp f event → ⊥)
        → Selected f (suc n) events found
        → Selected f (suc n) (event ∷ events) found

-- What a search of a log can come to: the first `n` events of the log that pass; or an exception,
-- since a line is neither empty nor the JSON of an object, or since a window is asked for and the
-- timestamp of an event is a text that is no time.
pub data Searched (parse_timestamp : String → Option ℤ) (f : Filters) (n : ℕ) (lines : List Line)
    : Outcome (List Fields) → Type 0 where
  found :
      (events : List Fields)
      → Selected parse_timestamp f n (events_of lines) events
      → Searched parse_timestamp f n lines (ok events)
  bad_line : (e : Raised) → HasBadLine lines → Searched parse_timestamp f n lines (raise e)
  undated_event :
      (e : Raised)
      → HasUndated parse_timestamp f (events_of lines)
      → Searched parse_timestamp f n lines (raise e)
