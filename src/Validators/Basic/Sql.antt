-- ===== src/Validators/Basic/Sql.antt =====
-- validators/basic.py: the lexer that masks strings and comments, and the split into statements.
-- A position in the query is the text from there on.
pub mod Lexical
use mcp_zero_trust_layer.Base.{
  ltb, eqb, if◌then◌else◌, truthy, nat_eq, string_eq, option_eq, keep, int_eq, bool_eq, ℕ, zero,
  suc, String, ◌<>◌, Bool, false, not, ◌&&◌, ◌||◌, Option, none, some, List, [], ◌∷◌,
}
use mcp_zero_trust_layer.Base.Text.{is_substring}
use mcp_zero_trust_layer.Value.{value_error, foreign, Outcome, ok, raise, ◌>>=◌}
use mcp_zero_trust_layer.Config.{capability_type_eq}
use mcp_zero_trust_layer.Validators.Platform.{Platform}
use Prim.Native.Char.{Char, code}
use Prim.Native.String.{count}

abbrev pub double_quote : ℕ
double_quote = 34

abbrev pub char_text : Char → String
char_text c = String.◌∷◌ c String.[]

-- after the next newline, or at the end
unfoldable pub skip_line : String → String
skip_line String.[] = ""
skip_line (String.◌∷◌ c s) = let rest = skip_line s in if eqb (code c) b'\n' then s else rest

-- `query.find("*/", position)`: the text before it and the text after it
unfoldable pub split_comment : String → Option (String × String)
split_comment String.[] = none
split_comment (String.◌∷◌ c s) =
    let later : Option (String × String) = elim (split_comment s) [
      | none ↦ none
      | some (body, rest) ↦ some (String.◌∷◌ c body, rest)
    ] in
    elim s [
      | String.[] ↦ none
      | String.◌∷◌ d t ↦ if eqb (code c) b'*' && eqb (code d) b'/' then some ("", t) else later
    ]

-- the text behind its first character
abbrev pub after_one : String → String
after_one String.[] = ""
after_one (String.◌∷◌ c s) = s

-- the first character is the one of this code
abbrev pub begins : ℕ → String → Bool
begins a String.[] = false
begins a (String.◌∷◌ c s) = eqb (code c) a

-- `query[position : position + 1] in {"!", "+"}`
abbrev pub starts_executable : String → Bool
starts_executable s = begins b'!' s || begins b'+' s

-- The rest of a quoted value behind its first quote: what is read, with the last quote, and the
-- text after it. A doubled quote stands for one.
unfoldable pub read_quoted : Char → String → Outcome (String × String)
read_quoted q String.[] = raise (value_error "unterminated quoted value")
read_quoted q (String.◌∷◌ c String.[]) =
    if eqb (code c) b'\\'
    then raise (value_error "backslash escapes are not supported")
    else if eqb (code c) (code q)
    then ok (char_text c, "")
    else raise (value_error "unterminated quoted value")
read_quoted q (String.◌∷◌ c (String.◌∷◌ d s)) =
    let next : Outcome (String × String) =
      read_quoted q (String.◌∷◌ d s) >>= λ (body, rest). ok (String.◌∷◌ c body, rest) in
    let doubled : Outcome (String × String) =
      read_quoted q s >>= λ (body, rest). ok (String.◌∷◌ c (String.◌∷◌ d body), rest) in
    if eqb (code c) b'\\'
    then raise (value_error "backslash escapes are not supported")
    else if eqb (code c) (code q)
    then (if eqb (code d) (code q) then doubled else ok (char_text c, String.◌∷◌ d s))
    else next

-- the characters of "`[]$\\#"
abbrev pub is_dialect : ℕ → Bool
is_dialect c = eqb c b'`' || eqb c b'[' || eqb c b']' || eqb c b'$' || eqb c b'\\' || eqb c b'#'

module _ (platform : Platform) where
  abbrev pub is_rejected : ℕ → Bool
  is_rejected c = is_dialect c || ltb c 32 && not (platform.is_space c)

  -- What one round of the loop appends, and the text that is left.
  unfoldable pub block_comment : String → Outcome (String × String)
  unfolding split_comment is_substring
  block_comment s = elim (split_comment s) [
    | none ↦ raise (value_error "unterminated or executable comment")
    | some (body, rest) ↦
        if starts_executable s
        then raise (value_error "unterminated or executable comment")
        else if is_substring "/*" body
        then raise (value_error "nested comments are not supported")
        else ok (" ", rest)
  ]

  unfoldable pub sql_token : Char → String → Outcome (String × String)
  unfolding skip_line block_comment read_quoted
  sql_token c s =
      if eqb (code c) b'-' && begins b'-' s
      then ok (" ", skip_line s)
      else if eqb (code c) b'/' && begins b'*' s
      then block_comment (after_one s)
      else if eqb (code c) b'\''
      then (read_quoted c s >>= λ (body, rest). ok (" ", rest))
      else if eqb (code c) double_quote
      then (read_quoted c s >>= λ (body, rest). ok (String.◌∷◌ c body, rest))
      else if is_rejected (code c)
      then raise (value_error "dialect-dependent quoting or control character")
      else ok (char_text c, s)

  -- `_sql_code`; each round reads a character at least, so a fuel of the length is enough
  unfoldable pub sql_code_from : ℕ → String → Outcome String
  unfolding sql_token
  sql_code_from zero s = raise (foreign "out of fuel")
  sql_code_from (suc fuel) String.[] = ok ""
  sql_code_from (suc fuel) (String.◌∷◌ c s) =
      sql_token c s >>= λ (piece, rest). sql_code_from fuel rest >>= λ more. ok (piece <> more)

  unfoldable pub sql_code : String → Outcome String
  unfolding sql_code_from
  sql_code query = sql_code_from (suc (count query)) query

-- the loop of `_split_sql_statements`; `quote` is the open quote, `current` what was read
unfoldable pub split_from : Option ℕ → String → String → List String
split_from quote current String.[] = current ∷ []
split_from quote current (String.◌∷◌ c s) =
    let longer = current <> char_text c in
    let inside = split_from quote longer s in
    let closed = split_from none longer s in
    let opened = split_from (some (code c)) longer s in
    let next = current ∷ split_from none "" s in
    elim quote [
      | some q ↦ if eqb (code c) q then closed else inside
      | none ↦
          if eqb (code c) b'\'' || eqb (code c) double_quote
          then opened
          else if eqb (code c) b';'
          then next
          else inside
    ]

-- `_split_sql_statements`
unfoldable pub split_sql_statements : Platform → String → List String
unfolding split_from keep
split_sql_statements platform query =
    keep (λ statement. truthy (platform.strip statement)) (split_from none "" query)
