-- ===== src/Value/Errors.antt =====
-- What a call returns or raises, with the exceptions of the program and of the language.
use mcp_zero_trust_layer.Base.{
  if◌then◌else◌, ℤ, String, ◌≡◌, refl, ◌⊎◌, inl, inr, Bool, true, false, Option, none, some, List,
  [], ◌∷◌,
}
use mcp_zero_trust_layer.Value.Defs.{Value}

pub data Raised : Type 0 where
  -- `JSONRPCError(code, message, data)`
  json_rpc : ℤ → String → Option Value → Raised
  type_error : Raised
  key_error : String → Raised
  value_error : String → Raised
  overflow_error : Raised
  -- `re.error`
  regex_error : Raised
  -- `AuthError(message)` and `SecretError(message)`
  auth_error : String → Raised
  secret_error : String → Raised
  -- any exception of code outside the repository
  foreign : String → Raised

pub data Outcome {ℓ} (A : Type ℓ) : Type ℓ where
  ok : A → Outcome A
  raise : Raised → Outcome A

infixl 5 ◌>>=◌ ◌>>◌
abbrev pub ◌>>=◌ {ℓ κ} :
    {Mid : Type ℓ} {Out : Type κ} → Outcome Mid → (Mid → Outcome Out) → Outcome Out
raise e >>= rest = raise e
ok mid >>= rest = rest mid

abbrev pub ◌>>◌ {ℓ} : {B : Type ℓ} → Outcome (Unit {0}) → Outcome B → Outcome B
m >> k = m >>= λ _. k

-- `all(f(x) for x in xs)`, which stops at the first false and at the first exception
unfoldable pub all_ok {ℓ} : {A : Type ℓ} → (A → Outcome Bool) → List A → Outcome Bool
all_ok f [] = ok true
all_ok f (x ∷ xs) = let rest = all_ok f xs in f x >>= λ b. elim b [ true ↦ rest | false ↦ ok false ]

-- an operation that gives `none` raises `e`
abbrev pub or_raise {ℓ} : {A : Type ℓ} → Raised → Option A → Outcome A
or_raise e none = raise e
or_raise e (some a) = ok a

-- A chain that returned was entered with a value.
pub >>=-eq-ok {ℓ κ} :
    {Mid : Type ℓ} {Out : Type κ} (first : Outcome Mid) (rest : Mid → Outcome Out) {out : Out}
    → (first >>= rest) ≡ ok out
    → (mid : Mid) × (first ≡ ok mid) × (rest mid ≡ ok out)
>>=-eq-ok (raise e) rest h = cc
>>=-eq-ok (ok mid) rest h = (mid, refl, h)

pub ok-injective {ℓ} : {A : Type ℓ} {a b : A} → ok a ≡ ok b → a ≡ b
ok-injective h = cc

pub Outcome-cases {ℓ} :
    {A : Type ℓ} (m : Outcome A) → ((a : A) × (m ≡ ok a)) ⊎ ((e : Raised) × (m ≡ raise e))
Outcome-cases (ok a) = inl (a, refl)
Outcome-cases (raise e) = inr (e, refl)

-- the same as `>>=`, by a name of its own
abbrev pub and_then {ℓ κ} : {A : Type ℓ} {B : Type κ} → Outcome A → (A → Outcome B) → Outcome B
and_then (ok a) f = f a
and_then (raise e) f = raise e

-- Chains with the same first operation, whose rests agree.
pub >>=-congr {ℓ κ} :
    {Mid : Type ℓ} {Out : Type κ} (m : Outcome Mid) (f g : Mid → Outcome Out)
    → ((mid : Mid) → f mid ≡ g mid)
    → (m >>= f) ≡ (m >>= g)
>>=-congr (raise e) f g h = refl
>>=-congr (ok mid) f g h = h mid

-- A test that returned took one of its branches.
pub if-eq-ok {ℓ} :
    {A : Type ℓ} (b : Bool) (x y : Outcome A) {a : A}
    → (if b then x else y) ≡ ok a
    → ((b ≡ true) × (x ≡ ok a)) ⊎ ((b ≡ false) × (y ≡ ok a))
if-eq-ok true x y h = inl (refl, h)
if-eq-ok false x y h = inr (refl, h)

pub if_or_raise-eq-ok {ℓ} :
    {A : Type ℓ} (b : Bool) (x : Outcome A) (e : Raised) {a : A}
    → (if b then x else raise e) ≡ ok a
    → (b ≡ true) × (x ≡ ok a)
if_or_raise-eq-ok true x e h = (refl, h)
if_or_raise-eq-ok false x e h = cc
