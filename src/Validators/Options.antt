-- ===== src/Validators/Options.antt =====
-- validators/basic.py: reading options and arguments, which are Python values of any type.
use mcp_zero_trust_layer.Base.{
  if◌then◌else◌, truthy, nat_eq, string_eq, option_eq, all, any, int_eq, bool_eq, String, ◌≡◌, refl,
  Bool, true, false, not, ◌&&◌, Option, none, some, List, [], ◌∷◌, arith,
}
use mcp_zero_trust_layer.Value.{
  Value, null, bool, int, str, list, dict, Fields, end, field, items, get, get_or_null, is_truthy,
  py_eq, type_error, foreign, Outcome, ok, raise, ◌>>=◌,
}
use mcp_zero_trust_layer.Config.{capability_type_eq}
use mcp_zero_trust_layer.Validators.InputPolicy.{
  ValidatorResult, result_fail, is_passed, get_argument, argument,
}

-- the characters of a text, as texts
abbrev pub characters : String → List Value
characters String.[] = []
characters (String.◌∷◌ c s) = str (String.◌∷◌ c String.[]) ∷ characters s

abbrev keys : Fields → List Value
keys end = []
keys (field k v fs) = str k ∷ keys fs

-- `for x in v`
unfoldable pub iterate : Value → Outcome (List Value)
iterate (list vs) = ok (items vs)
iterate (dict fs) = ok (keys fs)
iterate (str s) = ok (characters s)
iterate _ = raise type_error

abbrev is_hashable : Value → Bool
is_hashable (list _) = false
is_hashable (dict _) = false
is_hashable _ = true

-- `set(v)`, as the list of its elements
unfoldable pub as_set : Value → Outcome (List Value)
unfolding iterate all
as_set v = do
  elements ← iterate v
  (if all is_hashable elements then ok elements else raise type_error)

-- `s in {...}`
abbrev pub mem_set : String → List Value → Bool
mem_set s elements = any (λ v. py_eq v (str s)) elements

-- `d.get(k)` where `k` is any value
unfoldable pub get_by : Value → Fields → Outcome Value
unfolding get_or_null
get_by (str k) fs = ok (get_or_null k fs)
get_by (list _) fs = raise type_error
get_by (dict _) fs = raise type_error
get_by _ fs = ok null

-- `options.get(key, default)`
unfoldable pub option : String → Value → Fields → Value
unfolding get
option key default options = elim (get key options) [ none ↦ default | some v ↦ v ]

-- `d.get(k, default)` where `k` is any value
unfoldable pub get_by_or : Value → Value → Fields → Outcome Value
unfolding option
get_by_or (str k) default fs = ok (option k default fs)
get_by_or (list _) default fs = raise type_error
get_by_or (dict _) default fs = raise type_error
get_by_or _ default fs = ok default

-- `_first_value`; a key that is no text is not among the arguments
unfoldable pub first_value : Fields → List Value → Outcome Value
unfolding get
first_value arguments [] = ok null
first_value arguments (str key ∷ rest) =
    let later = first_value arguments rest in
    if truthy key then (elim (get key arguments) [ none ↦ later | some v ↦ ok v ]) else later
first_value arguments (key ∷ rest) =
    let later = first_value arguments rest in
    if is_truthy key && not (is_hashable key) then raise type_error else later

-- `_get_path`, where `path` must be a text; `none` is `MISSING`
unfoldable pub get_path_value : Fields → Value → Outcome (Option Value)
unfolding get_argument
get_path_value fs (str path) = ok (argument fs path)
get_path_value fs _ = raise (foreign "AttributeError")

-- `if not isinstance(raw, str) or not raw`, and what follows
unfoldable pub with_text :
    String → (String → Outcome ValidatorResult) → Outcome Value → Outcome ValidatorResult
with_text message f (raise e) = raise e
with_text message f (ok (str text)) = if truthy text then f text else ok (result_fail message)
with_text message f (ok _) = ok (result_fail message)

-- A check of a text argument that passes has found the text.
pub with_text-passed :
    (message : String) (f : String → Outcome ValidatorResult) (m : Outcome Value)
    → is_passed (with_text message f m) ≡ true
    → (text : String) × (m ≡ ok (str text)) × (is_passed (f text) ≡ true)
unfolding with_text
with_text-passed message f (raise e) h = cc
with_text-passed message f (ok (str text)) h = (text, refl, ground arith)
with_text-passed message f (ok null) h = cc
with_text-passed message f (ok (bool b)) h = cc
with_text-passed message f (ok (int n)) h = cc
with_text-passed message f (ok (list vs)) h = cc
with_text-passed message f (ok (dict fs)) h = cc
