-- ===== src/Value/Compare.antt =====
-- Python's `==` and `<` between values: a `bool` is the number 0 or 1, the order of a dict's entries
-- does not count, and `<` raises (`none`) on values that have no order.
use mcp_zero_trust_layer.Base.{
  eqb, ◌==◌, nat_eq, string_eq, option_eq, length, ℤ, pos, ltb_ℤ, int_eq, Bool, true, false, ◌&&◌,
  ◌||◌, Option, none, some,
}
use mcp_zero_trust_layer.Base.Text.{str_lt}
use mcp_zero_trust_layer.Value.Defs.{
  Value, null, bool, int, str, list, dict, Items, nil, cons, Fields, end, field, fields, get,
}

abbrev of_bool : Bool → ℤ
of_bool true = pos 1
of_bool false = pos 0

unfoldable mutual
  -- `v == w`
  pub py_eq : Value → Value → Bool
  py_eq null null = true
  py_eq (bool b) (bool c) = of_bool b == of_bool c
  py_eq (bool b) (int n) = of_bool b == n
  py_eq (int m) (bool c) = m == of_bool c
  py_eq (int m) (int n) = m == n
  py_eq (str s) (str t) = s == t
  py_eq (list xs) (list ys) = eq_items xs ys
  py_eq (dict fs) (dict gs) = eqb (length (fields fs)) (length (fields gs)) && eq_fields fs gs
  py_eq _ _ = false

  pub eq_items : Items → Items → Bool
  eq_items nil nil = true
  eq_items (cons x xs) (cons y ys) = py_eq x y && eq_items xs ys
  eq_items _ _ = false

  -- each entry of the first is in the second
  pub eq_fields : Fields → Fields → Bool
  eq_fields end gs = true
  eq_fields (field k v fs) gs =
      (elim (get k gs) [ none ↦ false | some w ↦ py_eq v w ]) && eq_fields fs gs

-- `v in xs`
unfoldable pub mem_items : Value → Items → Bool
unfolding py_eq
mem_items v nil = false
mem_items v (cons x xs) = py_eq x v || mem_items v xs

unfoldable mutual
  -- `v < w`; `none` is a `TypeError`
  pub py_lt : Value → Value → Option Bool
  py_lt (bool b) (bool c) = some (ltb_ℤ (of_bool b) (of_bool c))
  py_lt (bool b) (int n) = some (ltb_ℤ (of_bool b) n)
  py_lt (int m) (bool c) = some (ltb_ℤ m (of_bool c))
  py_lt (int m) (int n) = some (ltb_ℤ m n)
  py_lt (str s) (str t) = some (str_lt s t)
  py_lt (list xs) (list ys) = lt_items xs ys
  py_lt _ _ = none

  -- the first unequal pair decides
  pub lt_items : Items → Items → Option Bool
  lt_items nil nil = some false
  lt_items nil (cons y ys) = some true
  lt_items (cons x xs) nil = some false
  lt_items (cons x xs) (cons y ys) = elim (py_eq x y) [ true ↦ lt_items xs ys | false ↦ py_lt x y ]
