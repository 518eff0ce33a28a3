-- ===== src/Value/Defs.antt =====
-- The values that JSON messages, arguments and outputs are made of: Python's `None`, `bool`, `int`,
-- `str`, `list` and `dict`. Numbers with a fraction are left out.
use mcp_zero_trust_layer.Base.{
  if◌then◌else◌, ◌==◌, truthy, nat_eq, string_eq, option_eq, ℤ, int_eq, String, ◌≡◌, refl, Bool,
  true, false, Option, none, some, List, [], ◌∷◌, arith, eq_iff,
}
use mcp_zero_trust_layer.Base.Dict.{Dict}

mutual
  pub data Value : Type 0 where
    null : Value
    bool : Bool → Value
    int : ℤ → Value
    str : String → Value
    list : Items → Value
    dict : Fields → Value

  pub data Items : Type 0 where
    nil : Items
    cons : Value → Items → Items

  -- The entries in insertion order, as a `dict` iterates over them.
  pub data Fields : Type 0 where
    end : Fields
    field : String → Value → Fields → Fields

abbrev pub items : Items → List Value
items nil = []
items (cons v vs) = v ∷ items vs

abbrev pub of_items : List Value → Items
of_items [] = nil
of_items (v ∷ vs) = cons v (of_items vs)

abbrev pub fields : Fields → Dict String Value
fields end = []
fields (field k v fs) = (k, v) ∷ fields fs

abbrev pub of_fields : Dict String Value → Fields
of_fields [] = end
of_fields ((k, v) ∷ fs) = field k v (of_fields fs)

-- `d.get(k)`
unfoldable pub get : String → Fields → Option Value
get k end = none
get k (field j v fs) = if j == k then some v else get k fs

-- `d.get(k)` where a missing key gives `None`
unfoldable pub get_or_null : String → Fields → Value
unfolding get
get_or_null k fs = elim (get k fs) [ none ↦ null | some v ↦ v ]

-- `k in d`
unfoldable pub has : String → Fields → Bool
unfolding get
has k fs = elim (get k fs) [ none ↦ false | some _ ↦ true ]

-- `d[k] = v`
unfoldable pub put : String → Value → Fields → Fields
put k v end = field k v end
put k v (field j w fs) = if j == k then field j v fs else field j w (put k v fs)

-- `{k: v for k, v in d.items() if k != key}`, and `d.pop(key, None)`
unfoldable pub without : String → Fields → Fields
without key end = end
without key (field k v fs) = let rest = without key fs in if k == key then rest else field k v rest

-- `bool(v)`
unfoldable pub is_truthy : Value → Bool
is_truthy null = false
is_truthy (bool b) = b
is_truthy (int n) = truthy n
is_truthy (str s) = truthy s
is_truthy (list nil) = false
is_truthy (list (cons _ _)) = true
is_truthy (dict end) = false
is_truthy (dict (field _ _ _)) = true

-- `v if isinstance(v, str) else None`
abbrev pub as_str : Value → Option String
as_str (str s) = some s
as_str _ = none

-- `v if isinstance(v, dict) else None`
abbrev pub as_dict : Value → Option Fields
as_dict (dict fs) = some fs
as_dict _ = none

pub get-put :
    (k j : String) (v : Value) (fs : Fields)
    → get j (put k v fs) ≡ (if k == j then some v else get j fs)
unfolding get put
get-put k j v end = refl
get-put k j v (field i w fs) = ground (arith, eq_iff k j, eq_iff i k, eq_iff i j, get-put k j v fs)

pub get-without :
    (k j : String) (fs : Fields) → get j (without k fs) ≡ (if k == j then none else get j fs)
unfolding get without
get-without k j end = ground arith
get-without k j (field i w fs) =
    ground (arith, eq_iff k j, eq_iff i k, eq_iff i j, get-without k j fs)

pub without-without : (k : String) (fs : Fields) → without k (without k fs) ≡ without k fs
unfolding without
without-without k end = refl
without-without k (field i w fs) = ground (arith, without-without k fs)
