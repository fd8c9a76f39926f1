-- ===== src/Resolvable.antt =====
-- pip/skmap/src/skmap/code_generator_parse_resolvable.py: recipe expressions as trees. What Python
-- does with floats is a parameter. The tokens of an expression are the parser's input; splitting a
-- text into tokens is `re`, and is not modelled. A fraction, which only the reversal of a conversion
-- makes, is not modelled either.
pub mod Parser
pub mod Eval
pub mod Folding
mod Tests
use hdlskel.Base.{
  ℕ, zero, suc, ◌+◌, ◌-◌, ◌*◌, ◌/◌, ◌^◌, ◌%◌, ◌==◌, if◌then◌else◌, Bool, true, false, ◌||◌, Option,
  none, some, List,
}
use hdlskel.Base.Int.{ℤ, pos, negsuc, ◌+ℤ◌, ◌-ℤ◌, pos_part, neg_part, sub_ℕ}
use hdlskel.Base.Result.{Result, ok, err, arithmetic_error, map_ok}
use hdlskel.Types.{VType}

-- `BultiInOperation`, but for `lnot`, which is a tree of its own.
pub data Op : Type 0 where
  -- `mod` is a word of the language.
  add sub mult div power mod' : Op
  eq ne lt le gt ge land lor : Op

-- `BuiltInFunctionEnum`
pub data Func : Type 0 where
  clog2 cdiv round ceil floor float : Func

abbrev pub parameters : Func → ℕ
parameters Func.clog2 = 1
parameters Func.cdiv = 2
parameters Func.round = 1
parameters Func.ceil = 1
parameters Func.floor = 1
parameters Func.float = 1

pub data Number (F : Type 0) : Type 0 where
  int : ℤ → Number F
  flt : F → Number F

-- What the code uses of floats. Arithmetic is asked for where one side is a float, or for a power
-- with a negative exponent; `none` is a ZeroDivisionError or an OverflowError.
pub record Floats (F : Type 0) : Type 0 where
  pub literal : List ℕ → F
  pub arith : Op → Number F → Number F → Option (Number F)
  pub compare : Op → Number F → Number F → Bool
  pub is_zero : F → Bool
  pub of_int : ℤ → Option F
  -- `round`, `ceil` and `floor`, and `-((-l)//r)`.
  pub to_int : Func → F → Option ℤ
  pub ceil_div : Number F → Number F → Option (Number F)

-- A `ResolvableT`. A recipe constant has a name and the tree of its value, or a name only.
mutual
  pub data Expr (F : Type 0) : Type 0 where
    number : Number F → Expr F
    param : List ℕ → VType → Expr F
    operation : Expr F → Op → Expr F → Expr F
    lnot : Expr F → Expr F
    built_in : Func → Exprs F → Expr F
    named : List ℕ → Expr F → Expr F
    unvalued : List ℕ → Expr F

  pub data Exprs (F : Type 0) : Type 0 where
    nil : Exprs F
    cons : Expr F → Exprs F → Exprs F

abbrev pub or_arithmetic {ℓ} : {A : Type ℓ} → Option A → Result A
or_arithmetic none = err arithmetic_error
or_arithmetic (some a) = ok a

infixl 70 ◌*ℤ◌
unfoldable pub ◌*ℤ◌ : ℤ → ℤ → ℤ
a *ℤ b =
    sub_ℕ (pos_part a * pos_part b + neg_part a * neg_part b)
      (pos_part a * neg_part b + neg_part a * pos_part b)

-- `-x`, and Python's `//` and `%` for a divisor other than 0: they round down.
abbrev pub neg_ℤ : ℤ → ℤ
neg_ℤ z = pos 0 -ℤ z

-- `n // d` for d above 0.
abbrev pub div_pos : ℤ → ℕ → ℤ
div_pos (pos n) d = pos (n / d)
div_pos (negsuc n) d = negsuc (n / d)

unfoldable pub floor_div : ℤ → ℤ → Result ℤ
unfolding ◌-ℤ◌
floor_div a (pos zero) = err arithmetic_error
floor_div a (pos (suc d)) = ok (div_pos a (suc d))
floor_div a (negsuc d) = ok (div_pos (neg_ℤ a) (suc d))

unfoldable pub floor_mod : ℤ → ℤ → Result ℤ
unfolding floor_div ◌-ℤ◌ ◌*ℤ◌
floor_mod a b = map_ok (λ q. a -ℤ (q *ℤ b)) (floor_div a b)

unfoldable pub power_ℤ : ℤ → ℕ → ℤ
unfolding ◌*ℤ◌
power_ℤ a zero = pos 1
power_ℤ a (suc n) = power_ℤ a n *ℤ a

module _ {F : Type 0} (fl : Floats F) where
  -- `a ** b` of two integers.
  unfoldable pub int_power : ℤ → ℤ → Result (Number F)
  unfolding power_ℤ
  int_power a (pos n) = ok (int (power_ℤ a n))
  int_power a (negsuc n) = or_arithmetic (fl.arith Op.power (int a) (int (negsuc n)))

  -- The folding of two integers; what is not folded stays a tree.
  unfoldable pub fold_ints : ℤ → Op → ℤ → Result (Expr F)
  unfolding ◌+ℤ◌ ◌-ℤ◌ ◌*ℤ◌ floor_div int_power
  fold_ints a Op.add b = ok (number (int (a +ℤ b)))
  fold_ints a Op.sub b = ok (number (int (a -ℤ b)))
  fold_ints a Op.mult b = ok (number (int (a *ℤ b)))
  fold_ints a Op.div b = map_ok (λ q. number (int q)) (floor_div a b)
  fold_ints a Op.power b = map_ok number (int_power a b)
  fold_ints a op b = ok (operation (number (int a)) op (number (int b)))

  -- The folding of two numbers of which one is a float.
  unfoldable pub fold_floats : Number F → Op → Number F → Result (Expr F)
  fold_floats a Op.add b = map_ok number (or_arithmetic (fl.arith Op.add a b))
  fold_floats a Op.sub b = map_ok number (or_arithmetic (fl.arith Op.sub a b))
  fold_floats a Op.mult b = map_ok number (or_arithmetic (fl.arith Op.mult a b))
  fold_floats a Op.div b = map_ok number (or_arithmetic (fl.arith Op.div a b))
  fold_floats a Op.power b = map_ok number (or_arithmetic (fl.arith Op.power a b))
  fold_floats a op b = ok (operation (number a) op (number b))

  -- `make_resolvable_function`: `(x + c) + d` becomes `x + (c + d)`.
  unfoldable pub make_resolvable_function : Expr F → Op → Expr F → Result (Expr F)
  unfolding fold_ints fold_floats ◌+ℤ◌
  make_resolvable_function (number (int a)) op (number (int b)) = fold_ints a op b
  make_resolvable_function (number (int a)) op (number (flt b)) = fold_floats (int a) op (flt b)
  make_resolvable_function (number (flt a)) op (number b) = fold_floats (flt a) op b
  make_resolvable_function (operation x Op.add (number (int c))) Op.add (number (int d)) =
      ok (operation x Op.add (number (int (c +ℤ d))))
  make_resolvable_function l op r = ok (operation l op r)
