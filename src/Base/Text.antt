-- ===== src/Base/Text.antt =====
-- The operations on texts that the program uses.
use Prim.Native.Nat.{ℕ}
use Prim.Native.Char.{Char, code}
use Prim.Native.String.{String, [], ◌∷◌, ◌++◌}
use text.Mathlib.Text.{starts_with}
use mathlib.Core.Bool.{Bool, true, false, ◌||◌}
use mathlib.Core.List.{List}
use mathlib.Core.Option.{Option}
use mathlib.Core.Path.{◌≡◌, refl, sym, subst}
use mathlib.Core.Logic.{inl, inr}
use native.Mathlib.Omega.{arith}
use text.Mathlib.TextEquality.{Char-path}
use mcp_zero_trust_layer.Base.Tests.{eqb, ltb, if◌then◌else◌, Bool-cases}
use mcp_zero_trust_layer.Base.Lists.{IsIn}

-- puts a character in front of the first piece
push_first : Char → List String → List String
push_first c List.[] = List.◌∷◌ (c ∷ []) List.[]
push_first c (List.◌∷◌ piece pieces) = List.◌∷◌ (c ∷ piece) pieces

-- `text.split(sep)` for a separator of one character, given by its code
unfoldable pub split : ℕ → String → List String
unfolding push_first
split sep [] = List.◌∷◌ "" List.[]
split sep (c ∷ s) =
    let pieces = split sep s in if eqb (code c) sep then List.◌∷◌ "" pieces else push_first c pieces

-- `a < b`, by code points
unfoldable pub str_lt : String → String → Bool
str_lt [] [] = false
str_lt [] (d ∷ t) = true
str_lt (c ∷ s) [] = false
str_lt (c ∷ s) (d ∷ t) = if eqb (code c) (code d) then str_lt s t else ltb (code c) (code d)

-- `needle in text`
unfoldable pub is_substring : String → String → Bool
is_substring needle [] = starts_with "" needle
is_substring needle (c ∷ s) = starts_with (c ∷ s) needle || is_substring needle s

-- `sep.join(texts)`
unfoldable pub join : String → List String → String
join sep List.[] = ""
join sep (List.◌∷◌ text List.[]) = text
join sep (List.◌∷◌ text (List.◌∷◌ next texts)) = text ++ (sep ++ join sep (List.◌∷◌ next texts))

-- the text behind a prefix, if it has the prefix
unfoldable pub behind : String → String → Option String
behind [] s = Option.some s
behind (c ∷ p) [] = Option.none
behind (c ∷ p) (d ∷ s) = if eqb (code c) (code d) then behind p s else Option.none

-- `text.split(sep, 1)[1]` for a separator of one character
unfoldable pub after_first : ℕ → String → String
after_first sep [] = ""
after_first sep (c ∷ s) = let rest = after_first sep s in if eqb (code c) sep then s else rest

-- `text.rsplit(sep, 1)` for a separator of one character that is in the text
unfoldable pub split_last : ℕ → String → Option (String × String)
split_last sep [] = Option.none
split_last sep (c ∷ s) = elim (split_last sep s) [
  | Option.some (before, after) ↦ Option.some (c ∷ before, after)
  | Option.none ↦ if eqb (code c) sep then Option.some ("", s) else Option.none
]

-- puts a text in its place in a sorted list without duplicates
insert_sorted : String → List String → List String
insert_sorted s List.[] = List.◌∷◌ s List.[]
insert_sorted s (List.◌∷◌ t ts) =
    let rest = insert_sorted s ts in
    if str_lt s t
    then List.◌∷◌ s (List.◌∷◌ t ts)
    else if str_lt t s
    then List.◌∷◌ t rest
    else List.◌∷◌ t ts

-- `sorted(set(texts))`
unfoldable pub sorted_set : List String → List String
unfolding insert_sorted str_lt
sorted_set List.[] = List.[]
sorted_set (List.◌∷◌ t ts) = insert_sorted t (sorted_set ts)

then_part : {A : Type 0} (b : Bool) (x y : A) {z : A} → b ≡ true → (if b then x else y) ≡ z → x ≡ z
then_part true x y h k = k
then_part false x y h k = cc

else_part : {A : Type 0} (b : Bool) (x y : A) {z : A} → b ≡ false → (if b then x else y) ≡ z → y ≡ z
else_part true x y h k = cc
else_part false x y h k = k

same_codes : (m n : ℕ) → eqb m n ≡ true → (m ≡ n) × (eqb n m ≡ true)
same_codes m n h = (ground arith, ground arith)

other_codes :
    (m n : ℕ) → eqb m n ≡ false → (eqb n m ≡ false) × (ltb m n ≡ false → ltb n m ≡ false → ⊥)
other_codes m n h = (ground arith, λ a b. ground arith)

pair_of : {c d : Char} {s t : String} → c ≡ d → s ≡ t → ◌≡◌ {A = String} (c ∷ s) (d ∷ t)
pair_of h k = cc

-- texts of which none is before the other
str_lt_same : (s t : String) → str_lt s t ≡ false → str_lt t s ≡ false → s ≡ t
unfolding str_lt
str_lt_same [] [] h k = refl
str_lt_same [] (d ∷ t) h k = cc
str_lt_same (c ∷ s) [] h k = cc
str_lt_same (c ∷ s) (d ∷ t) h k = elim (Bool-cases (eqb (code c) (code d))) [
  | inl same ↦
      let (e, back) = same_codes (code c) (code d) same in
      pair_of (Char-path c d e) (str_lt_same s t (then_part _ _ _ same h) (then_part _ _ _ back k))
  | inr other ↦
      let (back, neither) = other_codes (code c) (code d) other in
      absurd (neither (else_part _ _ _ other h) (else_part _ _ _ back k))
]

insert_sorted-new : (s : String) (ts : List String) → IsIn s (insert_sorted s ts)
unfolding insert_sorted
insert_sorted-new s List.[] = inl refl
insert_sorted-new s (List.◌∷◌ t ts) = elim (Bool-cases (str_lt s t)) [
  | inl before ↦ rw before (inl refl)
  | inr a ↦ elim (Bool-cases (str_lt t s)) [
    | inl after ↦ rw a (rw after (inr (insert_sorted-new s ts)))
    | inr b ↦ rw a (rw b (inl (str_lt_same s t a b)))
  ]
]

one_or_other :
    (u t : String) (ts us : List String)
    → (IsIn u ts → IsIn u us)
    → IsIn u (List.◌∷◌ t ts)
    → IsIn u (List.◌∷◌ t us)
one_or_other u t ts us f (inl e) = inl e
one_or_other u t ts us f (inr m) = inr (f m)

insert_sorted-old : (u s : String) (ts : List String) → IsIn u ts → IsIn u (insert_sorted s ts)
unfolding insert_sorted
insert_sorted-old u s List.[] m = absurd m
insert_sorted-old u s (List.◌∷◌ t ts) m = elim (Bool-cases (str_lt s t)) [
  | inl before ↦ rw before (inr m)
  | inr a ↦ elim (Bool-cases (str_lt t s)) [
    | inl after ↦ rw a (rw after (one_or_other u t ts _ (insert_sorted-old u s ts) m))
    | inr b ↦ rw a (rw b m)
  ]
]

-- No text is lost.
pub sorted_set-IsIn : (u : String) (ts : List String) → IsIn u ts → IsIn u (sorted_set ts)
unfolding sorted_set
sorted_set-IsIn u List.[] m = absurd m
sorted_set-IsIn u (List.◌∷◌ t ts) (inl e) =
    subst (λ x. IsIn x (insert_sorted t (sorted_set ts))) (sym e)
      (insert_sorted-new t (sorted_set ts))
sorted_set-IsIn u (List.◌∷◌ t ts) (inr m) =
    insert_sorted-old u t (sorted_set ts) (sorted_set-IsIn u ts m)
