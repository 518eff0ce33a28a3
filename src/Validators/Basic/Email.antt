-- ===== src/Validators/Basic/Email.antt =====
-- validators/basic.py: the recipients and the attachments of an email.
pub mod Recipients
use mcp_zero_trust_layer.Base.{
  if◌then◌else◌, ◌==◌, truthy, nat_eq, string_eq, option_eq, contains, is_empty, int_eq, bool_eq,
  String, false, not, ◌&&◌, ◌||◌, Option, none, some, List, [], ◌∷◌, map,
}
use mcp_zero_trust_layer.Base.Text.{is_substring}
use mcp_zero_trust_layer.Value.{
  Value, bool, str, list, nil, Fields, items, get_or_null, is_truthy, Outcome, ok, ◌>>=◌, ◌>>◌,
}
use mcp_zero_trust_layer.Host.{Host}
use mcp_zero_trust_layer.Config.{capability_type_eq}
use mcp_zero_trust_layer.Validators.InputPolicy.{ValidatorResult, result_ok, result_fail}
use mcp_zero_trust_layer.Validators.Platform.{Mailbox, Platform}
use mcp_zero_trust_layer.Validators.Options.{iterate, option, get_by_or}

module _ (host : Host) (platform : Platform) where
  -- `{str(domain).lower() for domain in options.get(key, [])}`
  unfoldable pub domain_set : String → Fields → Outcome (List String)
  unfolding option iterate
  domain_set key options = do
    domains ← iterate (option key (list nil) options)
    ok (map (λ domain. platform.lower (host.to_str domain)) domains)

  -- the checks on a mailbox; `none` when it passes
  unfoldable pub mailbox_error : List String → List String → String → Mailbox → Option String
  unfolding contains
  mailbox_error allowed blocked recipient mailbox =
      let domain = platform.lower mailbox.domain in
      if not (truthy mailbox.username)
        || not (truthy domain)
        || not (mailbox.addr_spec == platform.strip recipient)
      then some "email validator found invalid recipient"
      else if contains blocked domain
      then some "email validator blocked recipient domain"
      else if not (is_empty allowed) && not (contains allowed domain)
      then some "email validator blocked recipient outside allowed_domains"
      else none

  -- the mailbox, or a failure of the parser
  unfoldable pub parsed_error : List String → List String → String → Option Mailbox → Option String
  unfolding mailbox_error
  parsed_error allowed blocked recipient none = some "email validator found invalid recipient"
  parsed_error allowed blocked recipient (some mailbox) =
      mailbox_error allowed blocked recipient mailbox

  -- one round of the loop over the recipients
  unfoldable pub recipient_error : List String → List String → Value → Option String
  unfolding parsed_error is_substring
  recipient_error allowed blocked (str recipient) =
      if is_substring "\r" recipient || is_substring "\n" recipient
      then some "email validator found invalid recipient"
      else parsed_error allowed blocked recipient (platform.parse_address recipient)
  recipient_error allowed blocked _ = some "email validator found invalid recipient"

  unfoldable pub recipients_error : List String → List String → List Value → Option String
  unfolding recipient_error
  recipients_error allowed blocked [] = none
  recipients_error allowed blocked (recipient ∷ recipients) =
      elim (recipient_error allowed blocked recipient) [
        | none ↦ recipients_error allowed blocked recipients
        | some error ↦ some error
      ]

  -- the checks when the recipients are a list
  unfoldable pub check_recipients : List Value → Fields → Fields → Outcome ValidatorResult
  unfolding option domain_set recipients_error get_or_null is_truthy
  check_recipients recipients arguments options = do
    allowed ← domain_set "allowed_domains" options
    blocked ← domain_set "blocked_domains" options
    ok (elim (recipients_error allowed blocked recipients) [
      | some error ↦ result_fail error
      | none ↦
          if is_truthy (option "block_attachments" (bool false) options)
            && is_truthy (get_or_null "attachments" arguments)
          then result_fail "email validator blocked attachments"
          else result_ok
    ])

  unfoldable pub validate_email : Fields → Fields → Outcome ValidatorResult
  unfolding option get_by_or check_recipients
  validate_email arguments options = do
    raw ← get_by_or (option "recipients_arg" (str "to") options) (list nil) arguments
    elim raw [
      | str recipient ↦ check_recipients (str recipient ∷ []) arguments options
      | list recipients ↦ check_recipients (items recipients) arguments options
      | _ ↦ ok (result_fail "email validator could not read recipients")
    ]
