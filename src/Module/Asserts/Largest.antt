-- ===== src/Module/Asserts/Largest.antt =====
-- The assert of a module against those of its registers.
use hdlskel.Base.{◌≤◌, ◌≡◌, refl, sym, ap, ◌∙◌, arith, ◌⊎◌, inl, inr, List, [], ◌∷◌, ◌++◌, All}
use mathlib.Core.Path.{subst₂, ap₂}
use hdlskel.Base.Result.{Result, ok}
use hdlskel.Base.Exec.{continue, ◌>>=◌, pure}
use hdlskel.Base.Effects.{Keeps, bind-Keeps, bind-inverse, pure-inverse}
use hdlskel.Types.{Ass, rank}
use hdlskel.Module.Access.{Module, ModuleState}
use hdlskel.Module.Layout.{AnyReg, plain, vec, flags}
use hdlskel.Module.Asserts.{
  Logged, Answer, later_if_not_less, any_ass_check_cached, check_assert_loop, check_assert_cached,
}
use hdlskel.Reg.{read_uint_cached, ass_check_cached}
use hdlskel.Reg.Vec.Asserts
use hdlskel.Reg.Flags
use hdlskel.Reg.Keeps.{read_uint_cached-Keeps, ass_check_cached-Keeps, ass_check_vec-Keeps}

-- The later of two asserts is the larger of them.
later_if_not_less_lem :
    (a b : Ass)
    → (rank a ≤ rank (later_if_not_less a b))
      × (rank b ≤ rank (later_if_not_less a b))
      × ((later_if_not_less a b ≡ a) ⊎ (later_if_not_less a b ≡ b))
later_if_not_less_lem a b = ground arith

module _ {F S : Type 0} (m : Module S) where
  any-Keeps : (log_ass : Ass) (r : AnyReg F) → Keeps (any_ass_check_cached m log_ass r)
  unfolding any_ass_check_cached Flags.ass_check_cached
  any-Keeps log_ass (plain r) =
      bind-Keeps (ass_check_cached m r log_ass) _ (ass_check_cached-Keeps m r log_ass)
        (λ res s. refl)
  any-Keeps log_ass (vec r) =
      bind-Keeps (Asserts.ass_check_cached m r log_ass) _ (ass_check_vec-Keeps m r log_ass)
        (λ res s. refl)
  any-Keeps log_ass (flags r) =
      bind-Keeps (Flags.ass_check_cached m r log_ass []) _
        (bind-Keeps (read_uint_cached m r.reg) _ (read_uint_cached-Keeps m r.reg) (λ v s. refl))
        (λ res s. refl)

  -- The register answers, with an assert that is at most `ass`.
  abbrev pub AnswersUpTo : ModuleState S → Ass → Ass → AnyReg F → Type 0
  AnswersUpTo s log_ass ass r =
      (a : Ass × List (Logged F)) × ((any_ass_check_cached m log_ass r s).0 ≡ ok a)
      × (rank a.0 ≤ rank ass)

  -- One of the registers answers with `ass`.
  abbrev pub Attained : ModuleState S → Ass → Ass → List (AnyReg F) → Type 0
  Attained s log_ass ass [] = ⊥
  Attained s log_ass ass (r ∷ rs) =
      ((log : List (Logged F)) × ((any_ass_check_cached m log_ass r s).0 ≡ ok (ass, log)))
      ⊎ Attained s log_ass ass rs

  abbrev IsLargest : ModuleState S → Ass → List (AnyReg F) → Ass → Ass → ModuleState S → Type 0
  IsLargest s log_ass rs before ass s' =
      (s' ≡ s)
      × (rank before ≤ rank ass)
      × All (AnswersUpTo s log_ass ass) rs
      × ((ass ≡ before) ⊎ Attained s log_ass ass rs)

  -- One more register in front.
  cons-IsLargest :
      (s : ModuleState S) (log_ass : Ass) (r : AnyReg F) (rs : List (AnyReg F)) (before ass : Ass)
      (s' : ModuleState S) (a : Ass × List (Logged F))
      → (any_ass_check_cached m log_ass r s).0 ≡ ok a
      → IsLargest s log_ass rs (later_if_not_less before a.0) ass s'
      → IsLargest s log_ass (r ∷ rs) before ass s'
  cons-IsLargest s log_ass r rs before ass s' a ea (same, le, all, att) =
      let (lb, la, which) = later_if_not_less_lem before a.0 in
      (
        same,
        omega arith,
        ((a, ea, omega arith), all),
        elim att [
          | inr t ↦ inr (inr t)
          | inl q ↦ elim which [
            | inl w ↦ inl (q ∙ w)
            | inr w ↦ inr (inl (a.1, ea ∙ ap (λ x. ok (x, a.1)) (sym (q ∙ w))))
          ]
        ],
      )

  loop-IsLargest :
      (log_ass : Ass) (rs : List (AnyReg F)) (before : Ass) (s : ModuleState S)
      (res : Ass × List (Logged F)) (s' : ModuleState S)
      → check_assert_loop m log_ass rs before s ≡ (ok res, s')
      → IsLargest s log_ass rs before res.0 s'
  unfolding check_assert_loop
  loop-IsLargest log_ass [] before s res s' e =
      let (q, same) = pure-inverse (before, []) res s s' e in
      (sym same, omega (arith, ap (λ t. rank t.0) q), tt, inl (sym (ap (λ t. t.0) q)))
  loop-IsLargest log_ass (r ∷ rs) before s res s' e =
      let after : Ass × List (Logged F) → Answer F S = λ a.
        check_assert_loop m log_ass rs (later_if_not_less before a.0) >>= λ rest.
        pure (rest.0, a.1 ++ rest.1) in
      let (a, ea, e1) = bind-inverse (any_ass_check_cached m log_ass r) after s res s' e in
      let e2 : after a s ≡ (ok res, s') = ap (after a) (sym (any-Keeps log_ass r s)) ∙ e1 in
      let (rest, er, e3) =
        bind-inverse (check_assert_loop m log_ass rs (later_if_not_less before a.0))
          (λ rest. pure (rest.0, a.1 ++ rest.1)) s res s' e2 in
      let largest =
        loop-IsLargest log_ass rs (later_if_not_less before a.0) s rest
          (check_assert_loop m log_ass rs (later_if_not_less before a.0) s).1
          (ap (λ x. (x, (check_assert_loop m log_ass rs (later_if_not_less before a.0) s).1)) er) in
      let (qr, qs) = pure-inverse (rest.0, a.1 ++ rest.1) res _ s' e3 in
      cons-IsLargest s log_ass r rs before res.0 s' a ea (
        subst₂ (IsLargest s log_ass rs (later_if_not_less before a.0)) (ap (λ t. t.0) qr) qs
          largest)

  -- The register answers.
  abbrev pub Answers : ModuleState S → Ass → AnyReg F → Type 0
  Answers s log_ass r =
      (a : Ass × List (Logged F)) × ((any_ass_check_cached m log_ass r s).0 ≡ ok a)

  loop_returns :
      (log_ass : Ass) (rs : List (AnyReg F)) (before : Ass) (s : ModuleState S)
      → All (Answers s log_ass) rs
      → (res : Ass × List (Logged F)) × (check_assert_loop m log_ass rs before s ≡ (ok res, s))
  unfolding check_assert_loop
  loop_returns log_ass [] before s h = ((before, []), refl)
  loop_returns log_ass (r ∷ rs) before s ((a, ea), h) =
      let after : Ass × List (Logged F) → Answer F S = λ a.
        check_assert_loop m log_ass rs (later_if_not_less before a.0) >>= λ rest.
        pure (rest.0, a.1 ++ rest.1) in
      let (rest, er) = loop_returns log_ass rs (later_if_not_less before a.0) s h in
      (
        (rest.0, a.1 ++ rest.1),
        ap₂ (λ x y. continue x after y) ea (any-Keeps log_ass r s)
            ∙ ap
                (λ (t : Result (Ass × List (Logged F)) × ModuleState S).
                  continue t.0 (λ rest. pure (rest.0, a.1 ++ rest.1)) t.1)
                er,
      )

  -- Where every register of a module's list answers, `check_assert_cached` returns and leaves the
  -- module's state as it is; no register answers with a larger assert than the result, and the
  -- result is the answer of one of them, or unset.
  pub check_assert_cached-IsLargest :
      (log_ass : Ass) (rs : List (AnyReg F)) (s : ModuleState S)
      → All (Answers s log_ass) rs
      → (res : Ass × List (Logged F)) × (check_assert_cached m log_ass rs s ≡ (ok res, s))
        × All (AnswersUpTo s log_ass res.0) rs
        × ((res.0 ≡ Ass.unset) ⊎ Attained s log_ass res.0 rs)
  unfolding check_assert_cached
  check_assert_cached-IsLargest log_ass rs s h =
      let (res, e) = loop_returns log_ass rs Ass.unset s h in
      let (_, _, answers, which) = loop-IsLargest log_ass rs Ass.unset s res s e in
      (res, e, answers, which)
