-- ===== src/Validators/Basic/Email/Recipients.antt =====
-- validators/basic.py: whom an email that passes is sent to.
use mcp_zero_trust_layer.Base.{
  if◌then◌else◌, ◌==◌, nat_eq, string_eq, option_eq, contains, is_empty, All, int_eq, bool_eq,
  String, ◌≡◌, refl, Bool, true, false, ◌&&◌, Option, none, some, List, [], ◌∷◌, arith,
}
use mcp_zero_trust_layer.Base.Text.{is_substring}
use mcp_zero_trust_layer.Value.{
  Value, null, bool, int, str, list, dict, nil, Fields, items, get_or_null, is_truthy, Outcome, ok,
  raise, ◌>>=◌,
}
use mcp_zero_trust_layer.Host.{Host}
use mcp_zero_trust_layer.Config.{capability_type_eq}
use mcp_zero_trust_layer.Validators.InputPolicy.{result_ok, result_fail, is_passed}
use mcp_zero_trust_layer.Validators.Platform.{Mailbox, Platform}
use mcp_zero_trust_layer.Validators.Options.{option, get_by_or}
use mcp_zero_trust_layer.Validators.Basic.Email.{
  domain_set, mailbox_error, parsed_error, recipient_error, recipients_error, check_recipients,
  validate_email,
}

module _ (platform : Platform) (allowed blocked : List String) where
  -- The text is one address, as the parser of addresses reads it, on a domain that is allowed.
  abbrev pub IsAcceptedText : String → Type 0
  IsAcceptedText text =
      (mailbox : Mailbox) × (platform.parse_address text ≡ some mailbox)
      × (mailbox.addr_spec == platform.strip text ≡ true)
      × (contains blocked (platform.lower mailbox.domain) ≡ false)
      × (is_empty allowed ≡ false → contains allowed (platform.lower mailbox.domain) ≡ true)

  -- a recipient is such a text, without a line break
  abbrev pub IsAccepted : Value → Type 0
  IsAccepted recipient =
      (text : String) × (recipient ≡ str text)
      × (is_substring "\r" text ≡ false)
      × (is_substring "\n" text ≡ false)
      × IsAcceptedText text

module _ (host : Host) (platform : Platform) (allowed blocked : List String) where
  mailbox_then :
      (text : String) (o : Option Mailbox)
      → parsed_error host platform allowed blocked text o ≡ none
      → (mailbox : Mailbox) × (o ≡ some mailbox)
        × (mailbox.addr_spec == platform.strip text ≡ true)
        × (contains blocked (platform.lower mailbox.domain) ≡ false)
        × (is_empty allowed ≡ false → contains allowed (platform.lower mailbox.domain) ≡ true)
  unfolding parsed_error mailbox_error
  mailbox_then text none h = cc
  mailbox_then text (some mailbox) h = (mailbox, refl, ground arith, ground arith, ground arith)

  recipient_error-IsAccepted :
      (recipient : Value)
      → recipient_error host platform allowed blocked recipient ≡ none
      → IsAccepted platform allowed blocked recipient
  unfolding recipient_error
  recipient_error-IsAccepted (str text) h = (
    text,
    refl,
    ground arith,
    ground arith,
    mailbox_then text (platform.parse_address text) (ground arith),
  )
  recipient_error-IsAccepted null h = cc
  recipient_error-IsAccepted (bool b) h = cc
  recipient_error-IsAccepted (int n) h = cc
  recipient_error-IsAccepted (list vs) h = cc
  recipient_error-IsAccepted (dict fs) h = cc

  recipients_error-All :
      (recipients : List Value)
      → recipients_error host platform allowed blocked recipients ≡ none
      → All (IsAccepted platform allowed blocked) recipients
  unfolding recipients_error
  recipients_error-All [] h = tt
  recipients_error-All (r ∷ rs) h =
      (recipient_error-IsAccepted r (ground arith), recipients_error-All rs (ground arith))

-- the two sets of domains, and the rest on them
sets_of_domains_then :
    (m n : Outcome (List String)) (e : List String → List String → Option String) (b : Bool)
    → is_passed (
        m >>= λ allowed. n >>= λ blocked. ok (elim (e allowed blocked) [
          | some error ↦ result_fail error
          | none ↦ if b then result_fail "email validator blocked attachments" else result_ok
        ]))
      ≡ true
    → (allowed : List String) × (blocked : List String) × (m ≡ ok allowed)
      × (n ≡ ok blocked)
      × (e allowed blocked ≡ none)
      × (b ≡ false)
sets_of_domains_then (raise x) n e b h = cc
sets_of_domains_then (ok allowed) (raise x) e b h = cc
sets_of_domains_then (ok allowed) (ok blocked) e b h =
    (allowed, blocked, refl, refl, ground arith, ground arith)

-- the recipients that an argument stands for
abbrev pub recipients_of : Value → List Value
recipients_of (list vs) = items vs
recipients_of v = v ∷ []

module _ (host : Host) (platform : Platform) (arguments options : Fields) where
  -- Every recipient is accepted, and there are no attachments where these are blocked.
  abbrev pub AreAccepted : List Value → Type 0
  AreAccepted recipients =
      (allowed : List String) × (blocked : List String) × (domain_set host platform
          "allowed_domains" options
        ≡ ok allowed)
      × (domain_set host platform "blocked_domains" options ≡ ok blocked)
      × (All (IsAccepted platform allowed blocked) recipients)
      × (is_truthy (option "block_attachments" (bool false) options)
            && is_truthy (get_or_null "attachments" arguments)
          ≡ false)

  check_recipients-AreAccepted :
      (recipients : List Value)
      → is_passed (check_recipients host platform recipients arguments options) ≡ true
      → AreAccepted recipients
  unfolding check_recipients
  check_recipients-AreAccepted recipients h =
      let (allowed, blocked, a, b, e, f) =
        sets_of_domains_then (domain_set host platform "allowed_domains" options)
          (domain_set host platform "blocked_domains" options)
          (λ a b. recipients_error host platform a b recipients)
          (is_truthy (option "block_attachments" (bool false) options)
            && is_truthy (get_or_null "attachments" arguments))
          h in
      (allowed, blocked, a, b, recipients_error-All host platform allowed blocked recipients e, f)

  argument_then :
      (m : Outcome Value)
      → is_passed (
          m >>= λ raw. elim raw [
            | str recipient ↦ check_recipients host platform (str recipient ∷ []) arguments options
            | list recipients ↦ check_recipients host platform (items recipients) arguments options
            | _ ↦ ok (result_fail "email validator could not read recipients")
          ])
        ≡ true
      → (raw : Value) × (m ≡ ok raw) × AreAccepted (recipients_of raw)
  argument_then (raise e) h = cc
  argument_then (ok (str s)) h = (str s, refl, check_recipients-AreAccepted (str s ∷ []) h)
  argument_then (ok (list vs)) h = (list vs, refl, check_recipients-AreAccepted (items vs) h)
  argument_then (ok null) h = cc
  argument_then (ok (bool b)) h = cc
  argument_then (ok (int n)) h = cc
  argument_then (ok (dict fs)) h = cc

-- An email that passes has, for each of its recipients, a text without line breaks that the parser of
-- addresses reads as exactly one address, whose domain is not blocked and is one of the allowed
-- domains if there are any; it has no attachments where the options block them.
pub validate_email-AreAccepted :
    (host : Host) (platform : Platform) (arguments options : Fields)
    → is_passed (validate_email host platform arguments options) ≡ true
    → (raw : Value) × (get_by_or (option "recipients_arg" (str "to") options) (list nil) arguments
        ≡ ok raw)
      × AreAccepted host platform arguments options (recipients_of raw)
unfolding validate_email
validate_email-AreAccepted host platform arguments options h =
    argument_then host platform arguments options
      (get_by_or (option "recipients_arg" (str "to") options) (list nil) arguments) h
