-- ===== src/Validators/Basic/Sql/Lexical.antt =====
-- validators/basic.py: what a round of the lexer leaves of the query.
use mcp_zero_trust_layer.Base.{
  eqb, if◌then◌else◌, ℕ, zero, suc, ◌≤◌, ◌<◌, String, ◌<>◌, Bool, true, false, ◌&&◌, Option, none,
  some, arith,
}
use mcp_zero_trust_layer.Base.Text.{is_substring}
use mcp_zero_trust_layer.Value.{
  json_rpc, type_error, key_error, value_error, overflow_error, regex_error, auth_error,
  secret_error, foreign, Outcome, ok, raise, ◌>>=◌,
}
use mcp_zero_trust_layer.Validators.Platform.{Platform}
use mcp_zero_trust_layer.Validators.Basic.Sql.{
  double_quote, skip_line, split_comment, after_one, begins, starts_executable, read_quoted,
  is_rejected, block_comment, sql_token, sql_code_from, sql_code,
}
use Prim.Native.Char.{Char, code}
use Prim.Native.String.{count}
use text.Mathlib.TextLemmas.{length-cons}

-- What a round of the loop may do: leave a text of this length at most, or raise `ValueError`.
abbrev Shrinks : ℕ → Outcome (String × String) → Type 0
Shrinks n (ok (piece, rest)) = count rest ≤ n
Shrinks n (raise (value_error reason)) = Unit
Shrinks n (raise _) = ⊥

-- the same, when the round appends another piece
Shrinks-then :
    (n k : ℕ) (m : Outcome (String × String)) (f : String → String)
    → k ≤ n
    → Shrinks k m
    → Shrinks n (m >>= λ (body, rest). ok (f body, rest))
Shrinks-then n k (ok (piece, rest)) f h s = omega arith
Shrinks-then n k (raise (value_error reason)) f h s = tt
Shrinks-then n k (raise (json_rpc c m d)) f h s = s
Shrinks-then n k (raise type_error) f h s = s
Shrinks-then n k (raise (key_error e)) f h s = s
Shrinks-then n k (raise overflow_error) f h s = s
Shrinks-then n k (raise (auth_error x)) f h s = s
Shrinks-then n k (raise (secret_error x)) f h s = s
Shrinks-then n k (raise regex_error) f h s = s
Shrinks-then n k (raise (foreign e)) f h s = s

Shrinks-mono : (n k : ℕ) (m : Outcome (String × String)) → k ≤ n → Shrinks k m → Shrinks n m
Shrinks-mono n k (ok (piece, rest)) h s = omega arith
Shrinks-mono n k (raise (value_error reason)) h s = tt
Shrinks-mono n k (raise (json_rpc c m d)) h s = s
Shrinks-mono n k (raise type_error) h s = s
Shrinks-mono n k (raise (key_error e)) h s = s
Shrinks-mono n k (raise overflow_error) h s = s
Shrinks-mono n k (raise (auth_error x)) h s = s
Shrinks-mono n k (raise (secret_error x)) h s = s
Shrinks-mono n k (raise regex_error) h s = s
Shrinks-mono n k (raise (foreign e)) h s = s

-- a test with two outcomes
Shrinks-if :
    (n : ℕ) (b : Bool) (x y : Outcome (String × String))
    → Shrinks n x
    → Shrinks n y
    → Shrinks n (if b then x else y)
Shrinks-if n true x y hx hy = hx
Shrinks-if n false x y hx hy = hy

count-skip_line : (s : String) → count (skip_line s) ≤ count s
unfolding skip_line
count-skip_line String.[] = omega arith
count-skip_line (String.◌∷◌ c s) = ground (arith, length-cons c s, count-skip_line s)

count-after_one : (s : String) → count (after_one s) ≤ count s
count-after_one String.[] = omega arith
count-after_one (String.◌∷◌ d s) = omega (arith, length-cons d s)

-- what a search for the end of a comment leaves
abbrev IsShorter : ℕ → Option (String × String) → Type 0
IsShorter n none = Unit
IsShorter n (some (body, rest)) = count rest ≤ n

IsShorter-if :
    (n : ℕ) (b : Bool) (x y : Option (String × String))
    → IsShorter n x
    → IsShorter n y
    → IsShorter n (if b then x else y)
IsShorter-if n true x y hx hy = hx
IsShorter-if n false x y hx hy = hy

later-IsShorter :
    (c : Char) (k n : ℕ) (o : Option (String × String))
    → k ≤ n
    → IsShorter k o
    → IsShorter n (elim o [ none ↦ none | some (body, rest) ↦ some (String.◌∷◌ c body, rest) ])
later-IsShorter c k n none e h = tt
later-IsShorter c k n (some (body, rest)) e h = omega arith

split_comment-IsShorter : (s : String) → IsShorter (count s) (split_comment s)
unfolding split_comment
split_comment-IsShorter String.[] = tt
split_comment-IsShorter (String.◌∷◌ c String.[]) = tt
split_comment-IsShorter (String.◌∷◌ c (String.◌∷◌ d t)) =
    IsShorter-if _ (eqb (code c) b'*' && eqb (code d) b'/') _ _
      (omega (arith, length-cons c (String.◌∷◌ d t), length-cons d t))
      (later-IsShorter c _ _ (split_comment (String.◌∷◌ d t))
        (omega (arith, length-cons c (String.◌∷◌ d t))) (split_comment-IsShorter (String.◌∷◌ d t)))

module _ (platform : Platform) where
  block_comment-Shrinks : (s : String) → Shrinks (count s) (block_comment platform s)
  unfolding block_comment
  block_comment-Shrinks s = body_then (split_comment s) (split_comment-IsShorter s)
    where
      body_then :
          (o : Option (String × String))
          → IsShorter (count s) o
          → Shrinks (count s) (elim o [
            | none ↦ raise (value_error "unterminated or executable comment")
            | some (body, rest) ↦
                if starts_executable s
                then raise (value_error "unterminated or executable comment")
                else if is_substring "/*" body
                then raise (value_error "nested comments are not supported")
                else ok (" ", rest)
          ])
      body_then none h = tt
      body_then (some (body, rest)) h =
          Shrinks-if _ (starts_executable s) _ _ tt (Shrinks-if _ (is_substring "/*" body) _ _ tt h)

read_quoted-Shrinks : (q : Char) (s : String) → Shrinks (count s) (read_quoted q s)
unfolding read_quoted
read_quoted-Shrinks q String.[] = tt
read_quoted-Shrinks q (String.◌∷◌ c String.[]) =
    Shrinks-if _ (eqb (code c) b'\\') _ _ tt
      (Shrinks-if _ (eqb (code c) (code q)) _ _ (omega arith) tt)
read_quoted-Shrinks q (String.◌∷◌ c (String.◌∷◌ d s)) =
    let after : count (String.◌∷◌ d s) ≤ count (String.◌∷◌ c (String.◌∷◌ d s)) =
      omega (arith, length-cons c (String.◌∷◌ d s)) in
    let next =
      Shrinks-then _ (count (String.◌∷◌ d s)) (read_quoted q (String.◌∷◌ d s)) (λ b. String.◌∷◌ c b)
        (omega (arith, length-cons c (String.◌∷◌ d s))) (read_quoted-Shrinks q (String.◌∷◌ d s)) in
    let doubled =
      Shrinks-then _ (count s) (read_quoted q s) (λ b. String.◌∷◌ c (String.◌∷◌ d b))
        (omega (arith, length-cons c (String.◌∷◌ d s), length-cons d s))
        (read_quoted-Shrinks q s) in
    Shrinks-if _ (eqb (code c) b'\\') _ _ tt (
      Shrinks-if _ (eqb (code c) (code q)) _ _
        (Shrinks-if _ (eqb (code d) (code q)) _ _ doubled after) next)

module _ (platform : Platform) where
  sql_token-Shrinks : (c : Char) (s : String) → Shrinks (count s) (sql_token platform c s)
  unfolding sql_token
  sql_token-Shrinks c s =
      Shrinks-if _ (eqb (code c) b'-' && begins b'-' s) _ _ (count-skip_line s) (
        Shrinks-if _ (eqb (code c) b'/' && begins b'*' s) _ _
          (Shrinks-mono _ _ (block_comment platform (after_one s)) (count-after_one s)
            (block_comment-Shrinks platform (after_one s)))
          (Shrinks-if _ (eqb (code c) b'\'') _ _
            (Shrinks-then _ _ (read_quoted c s) (λ _. " ") (omega arith) (read_quoted-Shrinks c s))
            (Shrinks-if _ (eqb (code c) double_quote) _ _
              (Shrinks-then _ _ (read_quoted c s) (λ body. String.◌∷◌ c body) (omega arith)
                (read_quoted-Shrinks c s))
              (Shrinks-if _ (is_rejected platform (code c)) _ _ tt (omega arith)))))

  -- the lexer returns, or raises `ValueError`
  abbrev pub Ends : Outcome String → Type 0
  Ends (ok masked) = Unit
  Ends (raise (value_error reason)) = Unit
  Ends (raise _) = ⊥

  Ends-then :
      (n : ℕ) (m : Outcome (String × String)) (f : String → Outcome String)
      → Shrinks n m
      → ((rest : String) → count rest ≤ n → Ends (f rest))
      → Ends (m >>= λ (piece, rest). f rest >>= λ more. ok (piece <> more))
  Ends-then n (ok (piece, rest)) f s h = more_then (f rest) (h rest s)
    where
      more_then : (m : Outcome String) → Ends m → Ends (m >>= λ more. ok (piece <> more))
      more_then (ok more) e = tt
      more_then (raise (value_error reason)) e = tt
      more_then (raise (json_rpc c m d)) e = e
      more_then (raise type_error) e = e
      more_then (raise (key_error k)) e = e
      more_then (raise overflow_error) e = e
      more_then (raise (auth_error x)) e = e
      more_then (raise (secret_error x)) e = e
      more_then (raise regex_error) e = e
      more_then (raise (foreign k)) e = e
  Ends-then n (raise (value_error reason)) f s h = tt
  Ends-then n (raise (json_rpc c m d)) f s h = s
  Ends-then n (raise type_error) f s h = s
  Ends-then n (raise (key_error e)) f s h = s
  Ends-then n (raise overflow_error) f s h = s
  Ends-then n (raise (auth_error x)) f s h = s
  Ends-then n (raise (secret_error x)) f s h = s
  Ends-then n (raise regex_error) f s h = s
  Ends-then n (raise (foreign e)) f s h = s

  sql_code_from-Ends :
      (fuel : ℕ) (s : String) → count s < fuel → Ends (sql_code_from platform fuel s)
  unfolding sql_code_from
  sql_code_from-Ends zero s h = omega arith
  sql_code_from-Ends (suc fuel) String.[] h = tt
  sql_code_from-Ends (suc fuel) (String.◌∷◌ c s) h =
      Ends-then (count s) (sql_token platform c s) (sql_code_from platform fuel)
        (sql_token-Shrinks c s)
        (λ rest shorter. sql_code_from-Ends fuel rest (omega (arith, length-cons c s, h, shorter)))

-- The lexer ends on every query: it gives the masked text or raises `ValueError`, which the validator
-- turns into a failure, and no other exception.
pub sql_code-Ends : (platform : Platform) (query : String) → Ends platform (sql_code platform query)
unfolding sql_code
sql_code-Ends platform query = sql_code_from-Ends platform (suc (count query)) query (omega arith)
