-- ===== src/Resolvable/Tests.antt =====
-- Runs of the parser and of the evaluation of recipe expressions, and the theorems about them at
-- concrete inputs.
use hdlskel.Base.{ℕ, ◌+◌, ◌==◌, ◌≡◌, ◌≢◌, refl, false, none, some, List, [], ◌∷◌}
use hdlskel.Base.Int.{pos, ◌+ℤ◌}
use hdlskel.Base.Result.{ok, err, stuck, ◌>>=◌}
use hdlskel.Resolvable.{
  Op, Func, int, flt, Floats, Expr, number, param, operation, built_in, named, cons, nil,
  make_resolvable_function, ◌*ℤ◌,
}
use hdlskel.Resolvable.Parser.{
  Token, op_token, number_token, name_token, lparen, rparen, parse, parse_binary, resolve_name,
}
use hdlskel.Resolvable.Parser.Total.{parse-NotStuck}
use hdlskel.Resolvable.Eval.{resolvable_to_int}
use hdlskel.Resolvable.Folding.{make_resolvable_function-value, make_resolvable_function-div}
use hdlskel.Types.{VType}

-- Numbers stand for floats.
abbrev floats : Floats ℕ
floats = record {
  literal = λ cs. 0;
  arith = λ op a b. none;
  compare = λ op a b. false;
  is_zero = λ x. x == 0;
  of_int = λ z. none;
  to_int = λ f x. some (pos x);
  ceil_div = λ a b. none;
}

abbrev v_name : List ℕ
v_name = b'v' ∷ []

abbrev depth_name : List ℕ
depth_name = b'D' ∷ []

abbrev digit : ℕ → Token
digit n = number_token ((n + b'0') ∷ [])

-- `D * (2 + 3) == v`, where D is a constant of value 4.
abbrev tokens : List Token
tokens =
    name_token depth_name
    ∷ op_token Op.mult
    ∷ lparen
    ∷ digit 2
    ∷ op_token Op.add
    ∷ digit 3
    ∷ rparen
    ∷ op_token Op.eq
    ∷ name_token v_name
    ∷ []

abbrev depth : Expr ℕ
depth = named depth_name (number (int (pos 4)))

parse_run :
    parse floats ((v_name, VType.s) ∷ []) ((depth_name, depth) ∷ []) tokens
    ≡ ok (operation (operation depth Op.mult (number (int (pos 5)))) Op.eq (param v_name VType.s))
unfolding parse parse_binary resolve_name make_resolvable_function ◌+ℤ◌
parse_run = refl

-- `D + 1 + 2` is folded to `D + 3`.
fold_run :
    parse floats []
      ((depth_name, depth) ∷ [])
      (name_token depth_name ∷ op_token Op.add ∷ digit 1 ∷ op_token Op.add ∷ digit 2 ∷ [])
    ≡ ok (operation depth Op.add (number (int (pos 3))))
unfolding parse parse_binary resolve_name make_resolvable_function ◌+ℤ◌
fold_run = refl

eval_run :
    resolvable_to_int floats (operation depth Op.mult (built_in Func.clog2 (cons depth nil)))
    ≡ ok (int (pos 8))
unfolding resolvable_to_int ◌*ℤ◌
eval_run = refl

parse-NotStuck_example :
    parse floats ((v_name, VType.s) ∷ []) ((depth_name, depth) ∷ []) tokens ≢ err stuck
parse-NotStuck_example =
    parse-NotStuck floats ((v_name, VType.s) ∷ []) ((depth_name, depth) ∷ []) tokens

depth-int : (f : ℕ) → resolvable_to_int floats depth ≢ ok (flt f)
unfolding resolvable_to_int
depth-int f h = cc

make_resolvable_function-value_example :
    (make_resolvable_function floats
        (operation depth Op.add (number (int (pos 1))))
        Op.add
        (number (int (pos 2)))
      >>= resolvable_to_int floats)
    ≡ resolvable_to_int floats
        (operation (operation depth Op.add (number (int (pos 1)))) Op.add (number (int (pos 2))))
make_resolvable_function-value_example =
    make_resolvable_function-value floats (operation depth Op.add (number (int (pos 1)))) Op.add
      (number (int (pos 2))) (λ h. h) depth-int

-- 7 / 2 is 3 where it is folded, and 4 where it is evaluated.
make_resolvable_function-div_example :
    (make_resolvable_function floats (number (int (pos 7))) Op.div (number (int (pos 2)))
      ≡ ok (number (int (pos 3))))
    × (resolvable_to_int floats (operation (number (int (pos 7))) Op.div (number (int (pos 2))))
        ≡ ok (int (pos 4)))
make_resolvable_function-div_example = make_resolvable_function-div floats 7 1
