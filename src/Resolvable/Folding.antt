-- ===== src/Resolvable/Folding.antt =====
-- pip/skmap/src/skmap/code_generator_parse_resolvable.py: folding against evaluation.
use hdlskel.Base.{
  ℕ, zero, suc, Bool-cases, inl, inr, ==_iff, ◌+◌, ◌/◌, ◌%◌, ◌==◌, if◌then◌else◌, ◌≡◌, ◌≢◌, refl,
  sym, ap, ◌∙◌, arith,
}
use hdlskel.Base.Int.{ℤ, pos, ◌+ℤ◌, ◌-ℤ◌}
use hdlskel.Base.Result.{Result, ok, err, map_ok, ◌>>=◌}
use native.Mathlib.Nat.{
  div-eq_of_lt, add-div_right, div-add-mod', div-eq_of_lt-le, mod-lt, zero-add,
}
use hdlskel.Resolvable.{
  Op, Number, int, flt, Floats, Expr, number, operation, or_arithmetic, neg_ℤ, div_pos, floor_div,
  int_power, fold_ints, fold_floats, make_resolvable_function,
}
use hdlskel.Resolvable.Eval.{
  ceil_div, int_operation, float_operation, apply_operation, resolvable_to_int,
}

pub +ℤ_assoc : (a b c : ℤ) → (a +ℤ b) +ℤ c ≡ a +ℤ (b +ℤ c)
unfolding ◌+ℤ◌
+ℤ_assoc a b c = ground arith

module _ {F : Type 0} (fl : Floats F) where
  abbrev eval : Expr F → Result (Number F)
  eval e = resolvable_to_int fl e

  -- Two integers are divided.
  abbrev pub DividesInts : Expr F → Op → Expr F → Type 0
  DividesInts (number (int a)) Op.div (number (int b)) = Unit
  DividesInts l op r = ⊥

  -- In a sum `x + c` the tree x has no float for its value.
  abbrev pub AddsInts : Expr F → Type 0
  AddsInts (operation x Op.add c) = (f : F) → eval x ≢ ok (flt f)
  AddsInts l = Unit

  folded_numbers : (r : Result (Number F)) → (map_ok number r >>= eval) ≡ r
  unfolding resolvable_to_int
  folded_numbers (ok n) = refl
  folded_numbers (err e) = refl

  fold_ints-value :
      (a : ℤ) (op : Op) (b : ℤ)
      → ¬ DividesInts (number (int a)) op (number (int b))
      → (fold_ints fl a op b >>= eval) ≡ eval (operation (number (int a)) op (number (int b)))
  unfolding fold_ints resolvable_to_int apply_operation int_operation
  fold_ints-value a Op.div b h = absurd (h tt)
  fold_ints-value a Op.power b h = folded_numbers (int_power fl a b)
  fold_ints-value a Op.add b h = refl
  fold_ints-value a op b h = refl

  fold_floats-value :
      (a : Number F) (op : Op) (b : Number F)
      → apply_operation fl op a b ≡ float_operation fl a op b
      → (fold_floats fl a op b >>= eval) ≡ eval (operation (number a) op (number b))
  unfolding fold_floats resolvable_to_int float_operation
  fold_floats-value a Op.add b h = folded_numbers (or_arithmetic (fl.arith Op.add a b)) ∙ sym h
  fold_floats-value a Op.sub b h = folded_numbers (or_arithmetic (fl.arith Op.sub a b)) ∙ sym h
  fold_floats-value a Op.mult b h = folded_numbers (or_arithmetic (fl.arith Op.mult a b)) ∙ sym h
  fold_floats-value a Op.div b h = folded_numbers (or_arithmetic (fl.arith Op.div a b)) ∙ sym h
  fold_floats-value a Op.power b h = folded_numbers (or_arithmetic (fl.arith Op.power a b)) ∙ sym h
  fold_floats-value a op b h = refl

  add_twice :
      (v : Result (Number F)) (c d : ℤ)
      → ((f : F) → v ≢ ok (flt f))
      → (v >>= λ a. apply_operation fl Op.add a (int (c +ℤ d))) ≡ (
          (v >>= λ a. apply_operation fl Op.add a (int c)) >>= λ a.
          apply_operation fl Op.add a (int d))
  unfolding apply_operation int_operation
  add_twice (ok (int z)) c d h = ap (λ t. ok (int t)) (sym (+ℤ_assoc z c d))
  add_twice (ok (flt f)) c d h = absurd (h f refl)
  add_twice (err e) c d h = refl

  int_float :
      (a : ℤ) (op : Op) (b : F)
      → apply_operation fl op (int a) (flt b) ≡ float_operation fl (int a) op (flt b)
  unfolding apply_operation
  int_float a op b = refl

  float_any :
      (a : F) (op : Op) (b : Number F)
      → apply_operation fl op (flt a) b ≡ float_operation fl (flt a) op b
  unfolding apply_operation
  float_any a op b = refl

  sum_twice :
      (x : Expr F) (c d : ℤ)
      → ((f : F) → eval x ≢ ok (flt f))
      → eval (operation x Op.add (number (int (c +ℤ d))))
        ≡ eval (operation (operation x Op.add (number (int c))) Op.add (number (int d)))
  unfolding resolvable_to_int
  sum_twice x c d h = add_twice (eval x) c d h

  -- Folding while a tree is built keeps its value: what `make_resolvable_function` gives evaluates
  -- to what the operation on the two trees evaluates to, errors included. Two integers that are
  -- divided are left out, and a sum to which a number is added must not be one of floats.
  pub make_resolvable_function-value :
      (l : Expr F) (op : Op) (r : Expr F)
      → ¬ DividesInts l op r
      → AddsInts l
      → (make_resolvable_function fl l op r >>= resolvable_to_int fl)
        ≡ resolvable_to_int fl (operation l op r)
  unfolding make_resolvable_function
  make_resolvable_function-value (number (int a)) op (number (int b)) h k = fold_ints-value a op b h
  make_resolvable_function-value (number (int a)) op (number (flt b)) h k =
      fold_floats-value (int a) op (flt b) (int_float a op b)
  make_resolvable_function-value (number (flt a)) op (number b) h k =
      fold_floats-value (flt a) op b (float_any a op b)
  make_resolvable_function-value (operation x Op.add (number (int c))) Op.add (number (int d)) h k =
      sum_twice x c d k
  make_resolvable_function-value l op r h k = refl

  negated : (a d : ℕ) → neg_ℤ (div_pos (neg_ℤ (pos (suc a))) (suc d)) ≡ pos (suc (a / suc d))
  unfolding ◌-ℤ◌
  negated a d = ground arith

  up_div : (a d : ℕ) → ceil_div (pos a) (pos (suc d)) ≡ ok (pos ((a + d) / suc d))
  unfolding ceil_div floor_div ◌-ℤ◌
  up_div zero d =
      let none_left : (0 + d) / suc d ≡ 0 =
        ap (λ t. t / suc d) (zero-add d) ∙ div-eq_of_lt (omega arith) in
      rw (none_left, div-eq_of_lt {n = 0} {m = suc d} (omega arith)) refl
  up_div (suc a) d =
      let e : (suc a + d) / suc d ≡ suc (a / suc d) =
        ap (λ t. t / suc d) (omega arith)
        ∙ add-div_right a {k = suc d} (omega arith)
        ∙ omega arith in
      rw e (ap ok (negated a d))

  rounded_up : (a d : ℕ) → (a + d) / suc d ≡ (if a % suc d == 0 then a / suc d else a / suc d + 1)
  rounded_up a d = elim (Bool-cases (a % suc d == 0)) [
    | inl t ↦
        let exact : a % suc d ≡ 0 = (==_iff (a % suc d) 0).0 t in
        rw t (
          div-eq_of_lt-le {k = a / suc d} (suc d) {m = a + d}
            (grind (arith, div-add-mod' a (suc d))) (grind (arith, div-add-mod' a (suc d))))
    | inr t ↦ rw t (
        div-eq_of_lt-le {k = a / suc d + 1} (suc d) {m = a + d}
          (grind (arith, div-add-mod' a (suc d)))
          (grind (arith, div-add-mod' a (suc d), mod-lt a {m = suc d})))
  ]

  -- A number that is divided by a number above 0: as two literals they fold to the quotient rounded
  -- down, while the tree of the same operation evaluates to the quotient rounded up.
  pub make_resolvable_function-div :
      (a d : ℕ)
      → (make_resolvable_function fl (number (int (pos a))) Op.div (number (int (pos (suc d))))
          ≡ ok (number (int (pos (a / suc d)))))
        × (resolvable_to_int fl
              (operation (number (int (pos a))) Op.div (number (int (pos (suc d)))))
            ≡ ok (int (pos (if a % suc d == 0 then a / suc d else a / suc d + 1))))
  unfolding make_resolvable_function fold_ints floor_div resolvable_to_int apply_operation
      int_operation
  make_resolvable_function-div a d =
      (refl, ap (map_ok int) (up_div a d ∙ ap (λ t. ok (pos t)) (rounded_up a d)))
