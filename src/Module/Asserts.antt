-- ===== src/Module/Asserts.antt =====
-- pip/skmap/src/skmap/module.py: the asserts of a module's registers, and clearing what is read once.
pub mod Largest
mod Tests
use hdlskel.Base.{ℕ, leb, ◌==◌, ◌&&◌, if◌then◌else◌, Bool, true, false, List, [], ◌∷◌, ◌++◌, map}
use hdlskel.Base.Result.{Result, assertion_error}
use hdlskel.Base.Exec.{Exec, ◌>>=◌, ◌>>◌, pure, check, get_state}
use hdlskel.Types.{Acc, Ass, rank}
use hdlskel.Module.Access.{Module, ModuleState, read_bytes}
use hdlskel.Module.Layout.{AnyReg, plain, vec, flags, base_reg}
use hdlskel.Reg
use hdlskel.Reg.Values.{FloatOps}
use hdlskel.Reg.Vec.Asserts
use hdlskel.Reg.Flags
use hdlskel.Reg.Flags.{RFlag}

-- An entry of `log_f`.
pub data Logged (F : Type 0) : Type 0 where
  logged_reg : AnyReg F → Logged F
  logged_flag : RFlag → Logged F

abbrev pub is_rc : Acc → Bool
is_rc Acc.rc = true
is_rc Acc.na = false
is_rc Acc.k = false
is_rc Acc.ro = false
is_rc Acc.rw' = false
is_rc Acc.wt = false

abbrev pub Answer : (F S : Type 0) → Type 0
Answer F S = Exec (ModuleState S) (Ass × List (Logged F))

-- The assert so far, and that of the next register.
abbrev pub later_if_not_less : Ass → Ass → Ass
later_if_not_less ass f_ass = if leb (rank ass) (rank f_ass) then f_ass else ass

module _ {F S : Type 0} (m : Module S) where
  -- The assert, with the register where it is added to the log.
  abbrev pub with_log : AnyReg F → Ass × Bool → Ass × List (Logged F)
  with_log r (ass, true) = (ass, logged_reg r ∷ [])
  with_log r (ass, false) = (ass, [])

  -- `ass_check_cached` of the register's class.
  unfoldable pub any_ass_check_cached : Ass → AnyReg F → Answer F S
  any_ass_check_cached log_ass (plain r) = do
    res ← Reg.ass_check_cached m r log_ass
    pure (with_log (plain r) res)
  any_ass_check_cached log_ass (vec r) = do
    res ← Asserts.ass_check_cached m r log_ass
    pure (with_log (vec r) res)
  any_ass_check_cached log_ass (flags r) = do
    res ← Flags.ass_check_cached m r log_ass []
    pure (res.0, map logged_flag res.1)

  -- The loop of `check_assert_cached`.
  unfoldable pub check_assert_loop : Ass → List (AnyReg F) → Ass → Answer F S
  unfolding any_ass_check_cached
  check_assert_loop log_ass [] ass = pure (ass, [])
  check_assert_loop log_ass (r ∷ rs) ass = do
    res ← any_ass_check_cached log_ass r
    rest ← check_assert_loop log_ass rs (later_if_not_less ass res.0)
    pure (rest.0, res.1 ++ rest.1)

  -- `check_assert_cached` over `_arr_reg_var_ass`
  unfoldable pub check_assert_cached : Ass → List (AnyReg F) → Answer F S
  unfolding check_assert_loop
  check_assert_cached log_ass arr_reg_var_ass = check_assert_loop log_ass arr_reg_var_ass Ass.unset

module _ {F S : Type 0} (ops : FloatOps F) (m : Module S) where
  abbrev pub Clearing : Type 0
  Clearing = Exec (ModuleState S) (Unit {0})

  abbrev pub clear_one : AnyReg F → Clearing
  clear_one r = if is_rc (base_reg r).acc then Reg.write_zero ops m (base_reg r) else pure tt

  unfoldable pub clear_assert : List (AnyReg F) → Clearing
  unfolding any_ass_check_cached
  clear_assert [] = pure tt
  clear_assert (r ∷ rs) = do
    res ← any_ass_check_cached m Ass.unset r
    if leb (rank Ass.debug) (rank res.0) then clear_one r else pure tt
    clear_assert rs

  -- `clear_reg_rc`, and `write_zero_all_rc`, whose loop is the same.
  unfoldable pub clear_reg_rc : List (AnyReg F) → Clearing
  clear_reg_rc [] = pure tt
  clear_reg_rc (r ∷ rs) = do clear_one r; clear_reg_rc rs

  -- `write_zero_all_rc_cached` over `_arr_reg_var`, with every access kind.
  unfoldable pub write_zero_all_rc_cached : List (AnyReg F) → Clearing
  write_zero_all_rc_cached [] = pure tt
  write_zero_all_rc_cached (r ∷ rs) = do
    Reg.write_zero_cached ops m (base_reg r)
    write_zero_all_rc_cached rs
