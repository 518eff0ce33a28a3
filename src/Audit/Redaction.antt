-- ===== src/Audit/Redaction.antt =====
-- audit/logger.py, `redact_sensitive`: secrets are taken out of what is logged. A pattern that is
-- compiled with flags is written with the same flags inline.
use mcp_zero_trust_layer.Base.{String, Bool, true, false, none, some, List, [], ◌∷◌}
use mcp_zero_trust_layer.Value.{
  Value, null, bool, int, str, list, dict, Items, nil, cons, Fields, end, field,
}
use mcp_zero_trust_layer.Host.{Host}

abbrev pub secret_key : String
secret_key =
    "(?i)(password|passwd|passphrase|pwd|token|api[_-]?key|secret|credential|authorization|cookie|private[_-]?key|access[_-]?key|session[_-]?key)"

abbrev pub secret_values : List String
secret_values =
    "(?i)Bearer\\s+\\S+" ∷ "sk-[A-Za-z0-9]{20,}" ∷ "AKIA[0-9A-Z]{16}"
    ∷ "eyJ[A-Za-z0-9_-]+\\.[A-Za-z0-9_-]+\\.[A-Za-z0-9_-]+"
    ∷ "(?s)-----BEGIN [A-Z ]*PRIVATE KEY-----.*?-----END [A-Z ]*PRIVATE KEY-----" ∷ []

module _ (host : Host) where
  -- A pattern of the program compiles, so the case `none` does not arise.
  unfoldable pub is_secret_key : String → Bool
  is_secret_key key = elim (host.search secret_key key) [ none ↦ false | some found ↦ found ]

  unfoldable pub sub_all : List String → String → String
  sub_all [] text = text
  sub_all (pattern ∷ patterns) text =
      sub_all patterns (elim (host.sub pattern text) [ none ↦ text | some t ↦ t ])

  unfoldable mutual
    pub redact_sensitive : Value → Value
    redact_sensitive (dict fs) = dict (redact_entries fs)
    redact_sensitive (list vs) = list (redact_elements vs)
    redact_sensitive (str s) = str (sub_all secret_values s)
    redact_sensitive null = null
    redact_sensitive (bool b) = bool b
    redact_sensitive (int n) = int n

    pub redact_entries : Fields → Fields
    redact_entries end = end
    redact_entries (field key item fs) =
        field key
          (elim (is_secret_key key) [ true ↦ str "[REDACTED]" | false ↦ redact_sensitive item ])
          (redact_entries fs)

    pub redact_elements : Items → Items
    redact_elements nil = nil
    redact_elements (cons v vs) = cons (redact_sensitive v) (redact_elements vs)
