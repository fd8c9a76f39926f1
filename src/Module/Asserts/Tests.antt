-- ===== src/Module/Asserts/Tests.antt =====
-- The asserts of two registers.
use hdlskel.Base.{ℕ, ◌≡◌, ◌⊎◌, refl, All, false, none, some, List, [], ◌∷◌}
use hdlskel.Base.Result.{ok}
use hdlskel.Cache.{Region}
use hdlskel.Cache.Device.{cache_device}
use hdlskel.Types.{Acc, Ass, VType, ValueKind}
use hdlskel.Module.Access.{Module, ModuleState, read_cached}
use hdlskel.Module.Layout.{AnyReg, plain}
use hdlskel.Module.Asserts.{Logged, logged_reg, any_ass_check_cached, check_assert_cached}
use hdlskel.Module.Asserts.Largest.{AnswersUpTo, Attained, check_assert_cached-IsLargest, Answers}
use hdlskel.Reg.{ass_check_cached}

abbrev m : Module (List Region)
m = record {
  regio = record {
    device = cache_device;
    error_on_write = false;
    pre_write_callback_func = none;
    post_read_callback_func = none;
    mtu = 4;
  };
  base_addr = 0x10;
  byte_align = 1;
  base_addr_var = 0x10;
  size_var = 2;
}

-- The first register holds 5, the second 0.
abbrev s : ModuleState (List Region)
s = record { dev = []; cache = 5 ∷ 0 ∷ []; use_cache = false }

abbrev reg : ℕ → Ass → AnyReg ℕ
reg addr ass = plain (record {
  value_type = record { kind = ValueKind.bits; width = 8; vec_len = none };
  acc = Acc.rc;
  ass = ass;
  size = 1;
  elem_size = 1;
  addr = some addr;
  v_check = none;
  v_convert = none;
  v_type = VType.u;
})

abbrev two : List (AnyReg ℕ)
two = reg 0x10 Ass.warn ∷ reg 0x11 Ass.fatal ∷ []

warned :
    check_assert_cached m Ass.warn two s ≡ (ok (Ass.warn, logged_reg (reg 0x10 Ass.warn) ∷ []), s)
unfolding check_assert_cached ass_check_cached read_cached
warned = refl

both_answer : All (Answers m s Ass.warn) two
unfolding any_ass_check_cached ass_check_cached read_cached
both_answer =
    (((Ass.warn, logged_reg (reg 0x10 Ass.warn) ∷ []), refl), (((Ass.passed, []), refl), tt))

check_assert_cached-IsLargest_example :
    (res : Ass × List (Logged ℕ)) × (check_assert_cached m Ass.warn two s ≡ (ok res, s))
    × All (AnswersUpTo m s Ass.warn res.0) two
    × ((res.0 ≡ Ass.unset) ⊎ Attained m s Ass.warn res.0 two)
check_assert_cached-IsLargest_example = check_assert_cached-IsLargest m Ass.warn two s both_answer
