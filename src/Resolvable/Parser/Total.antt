-- ===== src/Resolvable/Parser/Total.antt =====
-- pip/skmap/src/skmap/code_generator_parse_resolvable.py: the parser comes to an end.
use hdlskel.Base.{
  ℕ, zero, suc, ◌+◌, ◌*◌, ◌==◌, ◌≤◌, ◌<◌, ◌≡◌, ◌≢◌, refl, ap, arith, Option, none, some, List, [],
  ◌∷◌, length, inl, inr, Bool-cases,
}
use hdlskel.Base.Int.{ℤ, pos, negsuc}
use hdlskel.Base.Result.{Result, ok, err, stuck, key_error, map_ok, ◌>>=◌}
use hdlskel.Resolvable.{
  Op, Func, parameters, Number, Floats, Expr, number, int, flt, operation, lnot, param, Exprs, cons,
  or_arithmetic, floor_div, int_power, fold_ints, fold_floats, make_resolvable_function,
}
use hdlskel.Resolvable.Parser.{
  Token, name_token, func_token, float_token, number_token, op_token, not_token, lparen, rparen,
  comma, Level, in_level, peek_op, expect_lparen, expect_rparen, find_name, builtin_functions,
  find_function, call_function, length_exprs, Parsed, resolve_name, parse_binary, parse_loop,
  parse_step, parse_lower, parse_factor, parse_power, parse_exponent, parse_atom, parse_args,
  parse_more, parse, at_end,
}
use hdlskel.Types.{VType}

abbrev pub NotStuck : {A : Type 0} → Result A → Type 0
NotStuck r = r ≢ err stuck

-- No stuck call, and fewer than `k` tokens left.
abbrev pub Ends : {A : Type 0} → ℕ → Result (A × List Token) → Type 0
Ends k (ok (a, rest)) = length rest < k
Ends k (err e) = e ≢ stuck

map_ok-NotStuck : {A B : Type 0} (f : A → B) (r : Result A) → NotStuck r → NotStuck (map_ok f r)
map_ok-NotStuck f (ok a) h = λ e. cc
map_ok-NotStuck f (err x) h = λ e. h (cc)

or_arithmetic-NotStuck : {A : Type 0} (o : Option A) → NotStuck (or_arithmetic o)
or_arithmetic-NotStuck none = λ e. cc
or_arithmetic-NotStuck (some a) = λ e. cc

floor_div-NotStuck : (a b : ℤ) → NotStuck (floor_div a b)
unfolding floor_div
floor_div-NotStuck a (pos zero) = λ e. cc
floor_div-NotStuck a (pos (suc d)) = λ e. cc
floor_div-NotStuck a (negsuc d) = λ e. cc

module _ {F : Type 0} (fl : Floats F) where
  int_power-NotStuck : (a b : ℤ) → NotStuck (int_power fl a b)
  unfolding int_power
  int_power-NotStuck a (pos n) = λ e. cc
  int_power-NotStuck a (negsuc n) =
      or_arithmetic-NotStuck (fl.arith Op.power (int a) (int (negsuc n)))

  fold_ints-NotStuck : (a : ℤ) (op : Op) (b : ℤ) → NotStuck (fold_ints fl a op b)
  unfolding fold_ints
  fold_ints-NotStuck a Op.div b = map_ok-NotStuck _ (floor_div a b) (floor_div-NotStuck a b)
  fold_ints-NotStuck a Op.power b =
      map_ok-NotStuck number (int_power fl a b) (int_power-NotStuck a b)
  fold_ints-NotStuck a op b = λ e. cc

  fold_float-NotStuck : (o : Option (Number F)) → NotStuck (map_ok number (or_arithmetic o))
  fold_float-NotStuck o = map_ok-NotStuck number (or_arithmetic o) (or_arithmetic-NotStuck o)

  fold_floats-NotStuck : (a : Number F) (op : Op) (b : Number F) → NotStuck (fold_floats fl a op b)
  unfolding fold_floats
  fold_floats-NotStuck a Op.add b = fold_float-NotStuck (fl.arith Op.add a b)
  fold_floats-NotStuck a Op.sub b = fold_float-NotStuck (fl.arith Op.sub a b)
  fold_floats-NotStuck a Op.mult b = fold_float-NotStuck (fl.arith Op.mult a b)
  fold_floats-NotStuck a Op.div b = fold_float-NotStuck (fl.arith Op.div a b)
  fold_floats-NotStuck a Op.power b = fold_float-NotStuck (fl.arith Op.power a b)
  fold_floats-NotStuck a op b = λ e. cc

  pub make-NotStuck :
      (l : Expr F) (op : Op) (r : Expr F) → NotStuck (make_resolvable_function fl l op r)
  unfolding make_resolvable_function
  make-NotStuck (number (int a)) op (number (int b)) = fold_ints-NotStuck a op b
  make-NotStuck (number (int a)) op (number (flt b)) = fold_floats-NotStuck (int a) op (flt b)
  make-NotStuck (number (flt a)) op (number b) = fold_floats-NotStuck (flt a) op b
  make-NotStuck (operation x Op.add (number (int c))) Op.add (number (int d)) = λ e. cc
  make-NotStuck l op r = λ e. cc

module _ {A B : Type 0} where
  pub Ends-bind :
      (k k' : ℕ) (r : Result (A × List Token)) (f : A × List Token → Result (B × List Token))
      → Ends k r
      → ((a : A) (rest : List Token) → length rest < k → Ends k' (f (a, rest)))
      → Ends k' (r >>= f)
  Ends-bind k k' (ok (a, rest)) f h g = g a rest h
  Ends-bind k k' (err e) f h g = h

  pub plain-bind :
      (k' : ℕ) (r : Result A) (f : A → Result (B × List Token))
      → NotStuck r
      → ((a : A) → r ≡ ok a → Ends k' (f a))
      → Ends k' (r >>= f)
  plain-bind k' (ok a) f h g = g a refl
  plain-bind k' (err e) f h g = λ s. h (ap err s)

  pub Ends-map :
      (k : ℕ) (r : Result (A × List Token)) (f : A → B)
      → Ends k r
      → Ends k (map_ok (λ (res : A × List Token). (f res.0, res.1)) r)
  Ends-map k (ok (a, rest)) f h = h
  Ends-map k (err e) f h = h

and_rest-Ends :
    {A : Type 0} (k : ℕ) (ts : List Token) (r : Result A)
    → NotStuck r
    → length ts < k
    → Ends k (map_ok (λ a. (a, ts)) r)
and_rest-Ends k ts (ok a) h g = g
and_rest-Ends k ts (err e) h g = λ s. h (ap err s)

weaken : {A : Type 0} (k k' : ℕ) (r : Result (A × List Token)) → k ≤ k' → Ends k r → Ends k' r
weaken k k' (ok (a, rest)) h g = omega arith
weaken k k' (err e) h g = g

-- The operator that a loop takes is a token.
abbrev IsTaken : List Token → Option (Op × List Token) → Type 0
IsTaken ts none = Unit
IsTaken ts (some (op, ts')) = length ts ≡ suc (length ts')

peek_op-IsTaken : (l : Level) (ts : List Token) → IsTaken ts (peek_op l ts)
peek_op-IsTaken l [] = tt
peek_op-IsTaken l (op_token op ∷ ts) = elim (Bool-cases (in_level l op)) [
  | inl t ↦ rw t refl
  | inr t ↦ rw t tt
]
peek_op-IsTaken l (name_token n ∷ ts) = tt
peek_op-IsTaken l (func_token n ∷ ts) = tt
peek_op-IsTaken l (float_token n ∷ ts) = tt
peek_op-IsTaken l (number_token n ∷ ts) = tt
peek_op-IsTaken l (not_token ∷ ts) = tt
peek_op-IsTaken l (lparen ∷ ts) = tt
peek_op-IsTaken l (rparen ∷ ts) = tt
peek_op-IsTaken l (comma ∷ ts) = tt

module _ {B : Type 0} (k : ℕ) (f : List Token → Result (B × List Token)) where
  expect_lparen-Ends :
      (ts : List Token)
      → ((ts' : List Token) → length ts ≡ suc (length ts') → Ends k (f ts'))
      → Ends k (expect_lparen ts >>= f)
  expect_lparen-Ends (lparen ∷ ts) g = g ts refl
  expect_lparen-Ends [] g = λ e. cc
  expect_lparen-Ends ts g = λ e. cc

  expect_rparen-Ends :
      (ts : List Token)
      → ((ts' : List Token) → length ts ≡ suc (length ts') → Ends k (f ts'))
      → Ends k (expect_rparen ts >>= f)
  expect_rparen-Ends (rparen ∷ ts) g = g ts refl
  expect_rparen-Ends [] g = λ e. cc
  expect_rparen-Ends ts g = λ e. cc

close :
    {A : Type 0} (k : ℕ) (a : A) (ts : List Token)
    → length ts < suc k
    → Ends k (map_ok (λ rest. (a, rest)) (expect_rparen ts))
close k a (rparen ∷ ts) h = omega arith
close k a [] h = λ e. cc
close k a ts h = λ e. cc

find_function-NotStuck :
    (o : Option Func) → NotStuck (elim o [ none ↦ err key_error | some f ↦ ok f ])
find_function-NotStuck none = λ e. cc
find_function-NotStuck (some f) = λ e. cc

-- How far a level stands above the factors.
abbrev pub height : Level → ℕ
height Level.logic_or = 14
height Level.logic_and = 12
height Level.equality = 10
height Level.compare = 8
height Level.additive = 6
height Level.term = 4

height-le : (l : Level) → height l ≤ 14
height-le Level.logic_or = omega arith
height-le l = omega arith

module _ {F : Type 0} (fl : Floats F) (params : List (List ℕ × VType))
    (name_to_k : List (List ℕ × Expr F)) where
  resolve_name-NotStuck : (name : List ℕ) → NotStuck (resolve_name fl params name_to_k name)
  unfolding resolve_name
  resolve_name-NotStuck name = by_param (find_name name params) (find_name name name_to_k)
    where
      by_param :
          (o : Option VType) (p : Option (Expr F))
          → NotStuck (elim o [
            | some t ↦ ok (param name t)
            | none ↦ elim p [ none ↦ err key_error | some e ↦ ok e ]
          ])
      by_param (some t) p = λ e. cc
      by_param none none = λ e. cc
      by_param none (some x) = λ e. cc

  call_function-NotStuck :
      (f : Func) (args : Exprs F) → NotStuck (call_function fl params name_to_k f args)
  call_function-NotStuck f args = elim (Bool-cases (length_exprs args == parameters f)) [
    | inl t ↦ rw t (λ e. cc)
    | inr t ↦ rw t (λ e. cc)
  ]

  mutual
    unfolding parse_binary parse_loop parse_step parse_lower parse_factor parse_power parse_exponent
        parse_atom parse_args parse_more

    binary-Ends :
        (n : ℕ) (l : Level) (ts : List Token)
        → 16 * length ts + height l + 1 < n
        → Ends (length ts) (parse_binary fl params name_to_k n l ts)
    binary-Ends zero l ts h = absurd (omega arith)
    binary-Ends (suc n) l ts h =
        Ends-bind (length ts) (length ts) (parse_lower fl params name_to_k n l ts) _
          (lower-Ends n l ts (omega arith))
          (λ node rest q.
            weaken (suc (length rest)) (length ts) (parse_loop fl params name_to_k n l node rest)
              (omega arith) (loop-Ends n l node rest (omega arith)))

    loop-Ends :
        (n : ℕ) (l : Level) (node : Expr F) (ts : List Token)
        → 16 * length ts + 1 < n
        → Ends (suc (length ts)) (parse_loop fl params name_to_k n l node ts)
    loop-Ends zero l node ts h = absurd (omega arith)
    loop-Ends (suc n) l node ts h =
        step-Ends n l node ts (peek_op l ts) (peek_op-IsTaken l ts) (omega arith)

    step-Ends :
        (n : ℕ) (l : Level) (node : Expr F) (ts : List Token) (o : Option (Op × List Token))
        → IsTaken ts o
        → 16 * length ts < n
        → Ends (suc (length ts)) (parse_step fl params name_to_k n l node ts o)
    step-Ends zero l node ts o taken h = absurd (omega arith)
    step-Ends (suc n) l node ts none taken h = omega arith
    step-Ends (suc n) l node ts (some (op, ts')) taken h =
        Ends-bind (length ts') (suc (length ts)) (parse_lower fl params name_to_k n l ts') _
          (lower-Ends n l ts' (omega (arith, height-le l)))
          (λ r rest q.
            plain-bind (suc (length ts)) (make_resolvable_function fl node op r) _
              (make-NotStuck fl node op r)
              (λ node' e.
                weaken (suc (length rest)) (suc (length ts))
                  (parse_loop fl params name_to_k n l node' rest) (omega arith)
                  (loop-Ends n l node' rest (omega arith))))

    lower-Ends :
        (n : ℕ) (l : Level) (ts : List Token)
        → 16 * length ts + height l < n
        → Ends (length ts) (parse_lower fl params name_to_k n l ts)
    lower-Ends zero l ts h = absurd (omega arith)
    lower-Ends (suc n) Level.logic_or ts h = binary-Ends n Level.logic_and ts (omega arith)
    lower-Ends (suc n) Level.logic_and ts h = binary-Ends n Level.equality ts (omega arith)
    lower-Ends (suc n) Level.equality ts h = binary-Ends n Level.compare ts (omega arith)
    lower-Ends (suc n) Level.compare ts h = binary-Ends n Level.additive ts (omega arith)
    lower-Ends (suc n) Level.additive ts h = binary-Ends n Level.term ts (omega arith)
    lower-Ends (suc n) Level.term ts h = factor-Ends n ts (omega arith)

    factor-Ends :
        (n : ℕ) (ts : List Token)
        → 16 * length ts + 3 < n
        → Ends (length ts) (parse_factor fl params name_to_k n ts)
    factor-Ends zero ts h = absurd (omega arith)
    factor-Ends (suc n) (op_token Op.sub ∷ ts) h =
        Ends-bind (length ts) (suc (length ts)) (parse_factor fl params name_to_k n ts) _
          (factor-Ends n ts (omega arith))
          (λ r rest q.
            and_rest-Ends (suc (length ts)) rest
              (make_resolvable_function fl (number (int (pos 0))) Op.sub r)
              (make-NotStuck fl (number (int (pos 0))) Op.sub r) (omega arith))
    factor-Ends (suc n) (op_token Op.add ∷ ts) h =
        weaken (length ts) (suc (length ts)) (parse_factor fl params name_to_k n ts) (omega arith)
          (factor-Ends n ts (omega arith))
    factor-Ends (suc n) (not_token ∷ ts) h = weaken (length ts) (suc (length ts)) _ (omega arith) (
        Ends-map (length ts) (parse_factor fl params name_to_k n ts) lnot
          (factor-Ends n ts (omega arith)))
    factor-Ends (suc n) ts h = power-Ends n ts (omega arith)

    power-Ends :
        (n : ℕ) (ts : List Token)
        → 16 * length ts + 2 < n
        → Ends (length ts) (parse_power fl params name_to_k n ts)
    power-Ends zero ts h = absurd (omega arith)
    power-Ends (suc n) ts h =
        Ends-bind (length ts) (length ts) (parse_atom fl params name_to_k n ts) _
          (atom-Ends n ts (omega arith))
          (λ base rest q.
            weaken (suc (length rest)) (length ts) (parse_exponent fl params name_to_k n base rest)
              (omega arith) (exponent-Ends n base rest (omega arith)))

    exponent-Ends :
        (n : ℕ) (base : Expr F) (ts : List Token)
        → 16 * length ts < n
        → Ends (suc (length ts)) (parse_exponent fl params name_to_k n base ts)
    exponent-Ends zero base ts h = absurd (omega arith)
    exponent-Ends (suc n) base (op_token Op.power ∷ ts) h =
        Ends-bind (length ts) (suc (suc (length ts))) (parse_factor fl params name_to_k n ts) _
          (factor-Ends n ts (omega arith))
          (λ r rest q.
            and_rest-Ends (suc (suc (length ts))) rest (make_resolvable_function fl base Op.power r)
              (make-NotStuck fl base Op.power r) (omega arith))
    exponent-Ends (suc n) base [] h = omega arith
    exponent-Ends (suc n) base ts h = omega arith

    atom-Ends :
        (n : ℕ) (ts : List Token)
        → 16 * length ts + 1 < n
        → Ends (length ts) (parse_atom fl params name_to_k n ts)
    atom-Ends zero ts h = absurd (omega arith)
    atom-Ends (suc n) [] h = λ e. cc
    atom-Ends (suc n) (number_token cs ∷ ts) h = omega arith
    atom-Ends (suc n) (float_token cs ∷ ts) h = omega arith
    atom-Ends (suc n) (name_token name ∷ ts) h =
        and_rest-Ends (suc (length ts)) ts (resolve_name fl params name_to_k name)
          (resolve_name-NotStuck name) (omega arith)
    atom-Ends (suc n) (lparen ∷ ts) h =
        Ends-bind (length ts) (suc (length ts))
          (parse_binary fl params name_to_k n Level.logic_or ts) _
          (binary-Ends n Level.logic_or ts (omega arith))
          (λ e rest q. close (suc (length ts)) e rest (omega arith))
    atom-Ends (suc n) (func_token name ∷ ts) h =
        plain-bind (suc (length ts)) (find_function fl params name_to_k name) _
          (find_function-NotStuck (find_name name builtin_functions))
          (λ f e. expect_lparen-Ends (suc (length ts)) _ ts (λ ts' len.
            Ends-bind (length ts') (suc (length ts)) (parse_args fl params name_to_k n ts') _
              (args-Ends n ts' (omega arith))
              (λ args rest q. expect_rparen-Ends (suc (length ts)) _ rest (λ ts'' len'.
                and_rest-Ends (suc (length ts)) ts'' (call_function fl params name_to_k f args)
                  (call_function-NotStuck f args) (omega arith)))))
    atom-Ends (suc n) (op_token op ∷ ts) h = λ e. cc
    atom-Ends (suc n) (not_token ∷ ts) h = λ e. cc
    atom-Ends (suc n) (rparen ∷ ts) h = λ e. cc
    atom-Ends (suc n) (comma ∷ ts) h = λ e. cc

    args-Ends :
        (n : ℕ) (ts : List Token)
        → 16 * length ts + 16 < n
        → Ends (length ts) (parse_args fl params name_to_k n ts)
    args-Ends zero ts h = absurd (omega arith)
    args-Ends (suc n) ts h =
        Ends-bind (length ts) (length ts) (parse_binary fl params name_to_k n Level.logic_or ts) _
          (binary-Ends n Level.logic_or ts (omega arith))
          (λ e rest q.
            weaken (suc (length rest)) (length ts) (parse_more fl params name_to_k n e rest)
              (omega arith) (more-Ends n e rest (omega arith)))

    more-Ends :
        (n : ℕ) (e : Expr F) (ts : List Token)
        → 16 * length ts + 1 < n
        → Ends (suc (length ts)) (parse_more fl params name_to_k n e ts)
    more-Ends zero e ts h = absurd (omega arith)
    more-Ends (suc n) e (comma ∷ ts) h =
        weaken (length ts) (suc (suc (length ts))) _ (omega arith) (
          Ends-map (length ts) (parse_args fl params name_to_k n ts) (cons e)
            (args-Ends n ts (omega arith)))
    more-Ends (suc n) e [] h = omega arith
    more-Ends (suc n) e ts h = omega arith

  finish :
      (k : ℕ) (r : Parsed fl params name_to_k (Expr F))
      → Ends k r
      → NotStuck (r >>= at_end fl params name_to_k)
  unfolding at_end
  finish k (ok (e, [])) h = λ s. cc
  finish k (ok (e, t ∷ ts)) h = λ s. cc
  finish k (err x) h = λ s. h (cc)

  -- The parser comes to an end on every list of tokens: its recursion never runs out of the fuel
  -- that it is given, 16 for each token and 16 more. It gives a tree or raises.
  pub parse-NotStuck : (ts : List Token) → parse fl params name_to_k ts ≢ err stuck
  unfolding parse
  parse-NotStuck ts =
      finish (length ts) (parse_binary fl params name_to_k (16 * length ts + 16) Level.logic_or ts)
        (binary-Ends (16 * length ts + 16) Level.logic_or ts (omega arith))
