-- ===== src/Resolvable/Parser.antt =====
-- pip/skmap/src/skmap/code_generator_parse_resolvable.py: `_RecipeExprParser`, on the list of the
-- tokens that are left. Each call takes fuel.
pub mod Total
use hdlskel.Base.{
  ℕ, zero, suc, ◌+◌, ◌-◌, ◌*◌, ◌==◌, if◌then◌else◌, Bool, true, false, Option, none, some, List, [],
  ◌∷◌, length,
}
use hdlskel.Base.Bytes.{same_bytes}
use hdlskel.Base.Int.{pos}
use hdlskel.Base.Result.{
  Result, ok, err, syntax_error, key_error, type_error, stuck, guard, map_ok, ◌>>=◌, ◌>>◌,
}
use hdlskel.Resolvable.{
  Op, Func, parameters, Floats, Expr, number, int, flt, param, operation, lnot, built_in, Exprs,
  nil, cons, make_resolvable_function,
}
use hdlskel.Types.{VType}

-- A `_Token`: those of `_TOKEN_SPEC`, with the text where it matters (of a FUNC without its `$`).
pub data Token : Type 0 where
  name_token : List ℕ → Token
  func_token : List ℕ → Token
  float_token : List ℕ → Token
  number_token : List ℕ → Token
  op_token : Op → Token
  not_token : Token
  lparen rparen comma : Token

-- The binary levels of precedence, lowest first.
pub data Level : Type 0 where
  logic_or logic_and equality compare additive term : Level

-- The operators of a level.
abbrev pub in_level : Level → Op → Bool
in_level logic_or Op.lor = true
in_level logic_and Op.land = true
in_level equality Op.eq = true
in_level equality Op.ne = true
in_level compare Op.lt = true
in_level compare Op.le = true
in_level compare Op.gt = true
in_level compare Op.ge = true
in_level additive Op.add = true
in_level additive Op.sub = true
in_level term Op.mult = true
in_level term Op.div = true
in_level term Op.mod' = true
in_level _ _ = false

-- `_peek`, where the token decides: an operator of the level, and what follows it.
abbrev pub peek_op : Level → List Token → Option (Op × List Token)
peek_op l (op_token op ∷ ts) = if in_level l op then some (op, ts) else none
peek_op l ts = none

-- `_expect`
abbrev pub expect_lparen : List Token → Result (List Token)
expect_lparen (lparen ∷ ts) = ok ts
expect_lparen ts = err syntax_error

abbrev pub expect_rparen : List Token → Result (List Token)
expect_rparen (rparen ∷ ts) = ok ts
expect_rparen ts = err syntax_error

-- `int(tok.value)` of digits.
abbrev pub decimal : ℕ → List ℕ → ℕ
decimal n [] = n
decimal n (c ∷ cs) = decimal (n * 10 + (c - b'0')) cs

abbrev pub find_name : {V : Type 0} → List ℕ → List (List ℕ × V) → Option V
find_name k [] = none
find_name k ((j, v) ∷ m) = if same_bytes j k then some v else find_name k m

-- The codes of the names of `_BUILTIN_FUNCTIONS`.
abbrev pub builtin_functions : List (List ℕ × Func)
builtin_functions =
    (b'c' ∷ b'l' ∷ b'o' ∷ b'g' ∷ b'2' ∷ [], Func.clog2)
    ∷ (b'c' ∷ b'd' ∷ b'i' ∷ b'v' ∷ [], Func.cdiv)
    ∷ (b'r' ∷ b'o' ∷ b'u' ∷ b'n' ∷ b'd' ∷ [], Func.round)
    ∷ (b'c' ∷ b'e' ∷ b'i' ∷ b'l' ∷ [], Func.ceil)
    ∷ (b'f' ∷ b'l' ∷ b'o' ∷ b'o' ∷ b'r' ∷ [], Func.floor)
    ∷ (b'f' ∷ b'l' ∷ b'o' ∷ b'a' ∷ b't' ∷ [], Func.float)
    ∷ []

abbrev pub length_exprs : {F : Type 0} → Exprs F → ℕ
length_exprs nil = 0
length_exprs (cons e es) = suc (length_exprs es)

module _ {F : Type 0} (fl : Floats F) (params : List (List ℕ × VType))
    (name_to_k : List (List ℕ × Expr F)) where
  abbrev pub Parsed : Type 0 → Type 0
  Parsed A = Result (A × List Token)

  -- A NAME: a parameter, else a recipe constant.
  unfoldable pub resolve_name : List ℕ → Result (Expr F)
  resolve_name name = elim (find_name name params) [
    | some t ↦ ok (param name t)
    | none ↦ elim (find_name name name_to_k) [ none ↦ err key_error | some e ↦ ok e ]
  ]

  abbrev pub and_rest : {A : Type 0} → List Token → Result A → Parsed A
  and_rest ts r = map_ok (λ a. (a, ts)) r

  abbrev pub find_function : List ℕ → Result Func
  find_function name = elim (find_name name builtin_functions) [
    | none ↦ err key_error
    | some f ↦ ok f
  ]

  -- The check of the number of arguments.
  abbrev pub call_function : Func → Exprs F → Result (Expr F)
  call_function f args =
      if length_exprs args == parameters f then ok (built_in f args) else err type_error

  unfoldable mutual
    unfolding make_resolvable_function resolve_name

    -- `_parse_binary` of a level, and its loop.
    pub parse_binary : ℕ → Level → List Token → Parsed (Expr F)
    parse_binary zero l ts = err stuck
    parse_binary (suc n) l ts = parse_lower n l ts >>= λ res. parse_loop n l res.0 res.1

    pub parse_loop : ℕ → Level → Expr F → List Token → Parsed (Expr F)
    parse_loop zero l node ts = err stuck
    parse_loop (suc n) l node ts = parse_step n l node ts (peek_op l ts)

    pub parse_step : ℕ → Level → Expr F → List Token → Option (Op × List Token) → Parsed (Expr F)
    parse_step zero l node ts o = err stuck
    parse_step (suc n) l node ts none = ok (node, ts)
    parse_step (suc n) l node ts (some (op, ts')) = parse_lower n l ts' >>= λ res.
        make_resolvable_function fl node op res.0 >>= λ node'. parse_loop n l node' res.1

    -- The `parse_lower` of a level.
    pub parse_lower : ℕ → Level → List Token → Parsed (Expr F)
    parse_lower zero l ts = err stuck
    parse_lower (suc n) logic_or ts = parse_binary n logic_and ts
    parse_lower (suc n) logic_and ts = parse_binary n equality ts
    parse_lower (suc n) equality ts = parse_binary n compare ts
    parse_lower (suc n) compare ts = parse_binary n additive ts
    parse_lower (suc n) additive ts = parse_binary n term ts
    parse_lower (suc n) term ts = parse_factor n ts

    pub parse_factor : ℕ → List Token → Parsed (Expr F)
    parse_factor zero ts = err stuck
    parse_factor (suc n) (op_token Op.sub ∷ ts) = parse_factor n ts >>= λ res.
        and_rest res.1 (make_resolvable_function fl (number (int (pos 0))) Op.sub res.0)
    parse_factor (suc n) (op_token Op.add ∷ ts) = parse_factor n ts
    parse_factor (suc n) (not_token ∷ ts) = map_ok (λ res. (lnot res.0, res.1)) (parse_factor n ts)
    parse_factor (suc n) ts = parse_power n ts

    pub parse_power : ℕ → List Token → Parsed (Expr F)
    parse_power zero ts = err stuck
    parse_power (suc n) ts = parse_atom n ts >>= λ res. parse_exponent n res.0 res.1

    pub parse_exponent : ℕ → Expr F → List Token → Parsed (Expr F)
    parse_exponent zero base ts = err stuck
    parse_exponent (suc n) base (op_token Op.power ∷ ts) = parse_factor n ts >>= λ res.
        and_rest res.1 (make_resolvable_function fl base Op.power res.0)
    parse_exponent (suc n) base ts = ok (base, ts)

    pub parse_atom : ℕ → List Token → Parsed (Expr F)
    parse_atom zero ts = err stuck
    parse_atom (suc n) [] = err syntax_error
    parse_atom (suc n) (number_token cs ∷ ts) = ok (number (int (pos (decimal 0 cs))), ts)
    parse_atom (suc n) (float_token cs ∷ ts) = ok (number (flt (fl.literal cs)), ts)
    parse_atom (suc n) (name_token name ∷ ts) = and_rest ts (resolve_name name)
    parse_atom (suc n) (lparen ∷ ts) =
        parse_binary n logic_or ts >>= λ res. map_ok (λ rest. (res.0, rest)) (expect_rparen res.1)
    parse_atom (suc n) (func_token name ∷ ts) = find_function name >>= λ f.
        expect_lparen ts >>= λ ts'. parse_args n ts' >>= λ args.
        expect_rparen args.1 >>= λ rest. and_rest rest (call_function f args.0)
    parse_atom (suc n) (op_token op ∷ ts) = err syntax_error
    parse_atom (suc n) (not_token ∷ ts) = err syntax_error
    parse_atom (suc n) (rparen ∷ ts) = err syntax_error
    parse_atom (suc n) (comma ∷ ts) = err syntax_error

    -- The arguments of a function: one, and one more behind each comma.
    pub parse_args : ℕ → List Token → Parsed (Exprs F)
    parse_args zero ts = err stuck
    parse_args (suc n) ts = parse_binary n logic_or ts >>= λ res. parse_more n res.0 res.1

    pub parse_more : ℕ → Expr F → List Token → Parsed (Exprs F)
    parse_more zero e ts = err stuck
    parse_more (suc n) e (comma ∷ ts) = map_ok (λ res. (cons e res.0, res.1)) (parse_args n ts)
    parse_more (suc n) e ts = ok (cons e nil, ts)

  -- `parse`, once the first expression is read: no token may be left.
  unfoldable pub at_end : Expr F × List Token → Result (Expr F)
  at_end (e, []) = ok e
  at_end (e, t ∷ ts) = err syntax_error

  -- `parse`, with fuel for the nesting and for the levels of precedence.
  unfoldable pub parse : List Token → Result (Expr F)
  unfolding parse_binary at_end
  parse ts = parse_binary (16 * length ts + 16) logic_or ts >>= at_end
