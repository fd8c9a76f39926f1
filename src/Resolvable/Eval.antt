-- ===== src/Resolvable/Eval.antt =====
-- pip/skmap/src/skmap/code_generator_parse_resolvable.py: `resolvable_to_int`, and the questions that
-- the generators ask of a tree.
use hdlskel.Base.{◌-◌, leb, not, ◌&&◌, ◌||◌, if◌then◌else◌, Bool, true, false, List, [], ◌∷◌}
use hdlskel.Base.Int.{ℤ, pos, negsuc, ◌+ℤ◌, ◌-ℤ◌, ltb_ℤ, leb_ℤ}
use hdlskel.Base.Result.{
  Result, ok, err, value_error, type_error, index_error, attribute_error, map_ok, ◌>>=◌,
}
use hdlskel.Basic.{bit_length, bool_to_int}
use hdlskel.Resolvable.{
  Op, Func, Number, int, flt, Floats, Expr, number, param, operation, lnot, built_in, named,
  unvalued, Exprs, nil, cons, or_arithmetic, ◌*ℤ◌, neg_ℤ, floor_div, floor_mod, int_power,
}
use hdlskel.Types.{VType}

abbrev same_ℤ : ℤ → ℤ → Bool
same_ℤ a b = leb_ℤ a b && leb_ℤ b a

-- `ceil_div`: `-((-l)//r)`
unfoldable pub ceil_div : ℤ → ℤ → Result ℤ
unfolding floor_div ◌-ℤ◌
ceil_div l r = map_ok neg_ℤ (floor_div (neg_ℤ l) r)

-- `int(b)`
abbrev pub of_bool : {F : Type 0} → Bool → Number F
of_bool b = int (pos (bool_to_int b))

abbrev pub not_zero_ℤ : ℤ → Bool
not_zero_ℤ z = not (same_ℤ z (pos 0))

-- The result of an operation on two integers.
module _ {F : Type 0} (fl : Floats F) where
  -- `bool(x)`
  abbrev pub truth : Number F → Bool
  truth (int z) = not_zero_ℤ z
  truth (flt x) = not (fl.is_zero x)

  unfoldable pub int_operation : ℤ → Op → ℤ → Result (Number F)
  unfolding ceil_div int_power floor_mod ◌+ℤ◌ ◌-ℤ◌ ◌*ℤ◌
  int_operation a Op.add b = ok (int (a +ℤ b))
  int_operation a Op.sub b = ok (int (a -ℤ b))
  int_operation a Op.mult b = ok (int (a *ℤ b))
  int_operation a Op.div b = map_ok int (ceil_div a b)
  int_operation a Op.power b = int_power fl a b
  int_operation a Op.mod' b = map_ok int (floor_mod a b)
  int_operation a Op.eq b = ok (of_bool (same_ℤ a b))
  int_operation a Op.ne b = ok (of_bool (not (same_ℤ a b)))
  int_operation a Op.lt b = ok (of_bool (ltb_ℤ a b))
  int_operation a Op.le b = ok (of_bool (leb_ℤ a b))
  int_operation a Op.gt b = ok (of_bool (ltb_ℤ b a))
  int_operation a Op.ge b = ok (of_bool (leb_ℤ b a))
  int_operation a Op.land b = ok (of_bool (not_zero_ℤ a && not_zero_ℤ b))
  int_operation a Op.lor b = ok (of_bool (not_zero_ℤ a || not_zero_ℤ b))

  -- The same where one side is a float.
  unfoldable pub float_operation : Number F → Op → Number F → Result (Number F)
  float_operation a Op.add b = or_arithmetic (fl.arith Op.add a b)
  float_operation a Op.sub b = or_arithmetic (fl.arith Op.sub a b)
  float_operation a Op.mult b = or_arithmetic (fl.arith Op.mult a b)
  float_operation a Op.div b = or_arithmetic (fl.arith Op.div a b)
  float_operation a Op.power b = or_arithmetic (fl.arith Op.power a b)
  float_operation a Op.mod' b = or_arithmetic (fl.arith Op.mod' a b)
  float_operation a Op.land b = ok (of_bool (truth a && truth b))
  float_operation a Op.lor b = ok (of_bool (truth a || truth b))
  float_operation a op b = ok (of_bool (fl.compare op a b))

  unfoldable pub apply_operation : Op → Number F → Number F → Result (Number F)
  unfolding int_operation float_operation
  apply_operation op (int a) (int b) = int_operation a op b
  apply_operation op (int a) (flt b) = float_operation (int a) op (flt b)
  apply_operation op (flt a) b = float_operation (flt a) op b

  -- `$clog2` of an integer: `0 if v <= 1 else (v-1).bit_length()`
  unfoldable pub clog2 : ℤ → Number F
  unfolding bit_length
  clog2 (pos n) = int (pos (if leb n 1 then 0 else bit_length (n - 1)))
  clog2 (negsuc n) = int (pos 0)

  -- A float above 1 has no `bit_length`, and `-((-l)//r)` of floats is a float.
  unfoldable pub apply_function : Func → List (Number F) → Result (Number F)
  unfolding clog2 ceil_div
  apply_function f [] = err index_error
  apply_function Func.clog2 (int z ∷ rest) = ok (clog2 z)
  apply_function Func.clog2 (flt x ∷ rest) =
      if fl.compare Op.le (flt x) (int (pos 1)) then ok (int (pos 0)) else err attribute_error
  apply_function Func.cdiv (int a ∷ int b ∷ rest) = map_ok int (ceil_div a b)
  apply_function Func.cdiv (int a ∷ flt b ∷ rest) = or_arithmetic (fl.ceil_div (int a) (flt b))
  apply_function Func.cdiv (flt a ∷ b ∷ rest) = or_arithmetic (fl.ceil_div (flt a) b)
  apply_function Func.cdiv (a ∷ []) = err index_error
  apply_function Func.float (int z ∷ rest) = map_ok flt (or_arithmetic (fl.of_int z))
  apply_function Func.float (flt x ∷ rest) = ok (flt x)
  apply_function Func.round (int z ∷ rest) = ok (int z)
  apply_function Func.round (flt x ∷ rest) = map_ok int (or_arithmetic (fl.to_int Func.round x))
  apply_function Func.ceil (int z ∷ rest) = ok (int z)
  apply_function Func.ceil (flt x ∷ rest) = map_ok int (or_arithmetic (fl.to_int Func.ceil x))
  apply_function Func.floor (int z ∷ rest) = ok (int z)
  apply_function Func.floor (flt x ∷ rest) = map_ok int (or_arithmetic (fl.to_int Func.floor x))

  unfoldable mutual
    unfolding apply_operation apply_function

    pub resolvable_to_int : Expr F → Result (Number F)
    resolvable_to_int (number n) = ok n
    resolvable_to_int (param name t) = err value_error
    resolvable_to_int (built_in f args) = all_to_int args >>= λ vs. apply_function f vs
    resolvable_to_int (operation l op r) =
        resolvable_to_int l >>= λ a. resolvable_to_int r >>= λ b. apply_operation op a b
    resolvable_to_int (lnot e) = map_ok (λ a. of_bool (not (truth a))) (resolvable_to_int e)
    resolvable_to_int (named name value) = resolvable_to_int value
    resolvable_to_int (unvalued name) = err type_error

    pub all_to_int : Exprs F → Result (List (Number F))
    all_to_int nil = ok []
    all_to_int (cons e es) = resolvable_to_int e >>= λ v. all_to_int es >>= λ vs. ok (v ∷ vs)

unfoldable mutual
  pub contains_float_value : {F : Type 0} → Expr F → Bool
  contains_float_value (number (flt x)) = true
  contains_float_value (number (int z)) = false
  contains_float_value (param name VType.f) = true
  contains_float_value (param name VType.u) = false
  contains_float_value (param name VType.s) = false
  contains_float_value (operation l op r) = contains_float_value l || contains_float_value r
  contains_float_value (lnot e) = contains_float_value e
  contains_float_value (built_in Func.float args) = true
  contains_float_value (built_in f args) = any_float_value args
  contains_float_value (named name value) = false
  contains_float_value (unvalued name) = false

  pub any_float_value : {F : Type 0} → Exprs F → Bool
  any_float_value nil = false
  any_float_value (cons e es) = contains_float_value e || any_float_value es

unfoldable mutual
  pub contains_value_param : {F : Type 0} → Expr F → Bool
  contains_value_param (param name t) = true
  contains_value_param (operation l op r) = contains_value_param l || contains_value_param r
  contains_value_param (lnot e) = contains_value_param e
  contains_value_param (built_in f args) = any_value_param args
  contains_value_param (number n) = false
  contains_value_param (named name value) = false
  contains_value_param (unvalued name) = false

  pub any_value_param : {F : Type 0} → Exprs F → Bool
  any_value_param nil = false
  any_value_param (cons e es) = contains_value_param e || any_value_param es

unfoldable mutual
  pub retype_value_params : {F : Type 0} → VType → Expr F → Expr F
  retype_value_params t (param name old) = param name t
  retype_value_params t (operation l op r) =
      operation (retype_value_params t l) op (retype_value_params t r)
  retype_value_params t (lnot e) = lnot (retype_value_params t e)
  retype_value_params t (built_in f args) = built_in f (retype_all t args)
  retype_value_params t (number n) = number n
  retype_value_params t (named name value) = named name value
  retype_value_params t (unvalued name) = unvalued name

  pub retype_all : {F : Type 0} → VType → Exprs F → Exprs F
  retype_all t nil = nil
  retype_all t (cons e es) = cons (retype_value_params t e) (retype_all t es)

-- `is_bool_expr`: a comparison, logic, or the value itself.
abbrev pub is_logic : Op → Bool
is_logic Op.add = false
is_logic Op.sub = false
is_logic Op.mult = false
is_logic Op.div = false
is_logic Op.power = false
is_logic Op.mod' = false
is_logic op = true

unfoldable pub is_bool_expr : {F : Type 0} → Expr F → Bool
is_bool_expr (param name t) = true
is_bool_expr (lnot e) = true
is_bool_expr (operation l op r) = is_logic op
is_bool_expr (number n) = false
is_bool_expr (built_in f args) = false
is_bool_expr (named name value) = false
is_bool_expr (unvalued name) = false
