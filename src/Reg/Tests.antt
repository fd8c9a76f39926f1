-- ===== src/Reg/Tests.antt =====
-- Runs of registers, vectors and flags, and the theorems about them at concrete inputs.
use hdlskel.Base.{
  ℕ, ◌+◌, ◌≤◌, ◌<◌, ◌==◌, if◌then◌else◌, ◌≡◌, refl, arith, Bool, true, false, none, some, List, [],
  ◌∷◌, length, get_elem?, ◌⊎◌, All, replicate,
}
use hdlskel.Base.Effects.{KeepsOnError, Refuses}
use hdlskel.Base.Int.{pos, negsuc, leb_ℤ, ◌-ℤ◌}
use hdlskel.Base.Result.{Result, ok, err, map_ok, value_error}
use hdlskel.Cache.{Region}
use hdlskel.Cache.Device.{cache_device, cache_memory}
use hdlskel.Regio.Memory.{IsPlain}
use hdlskel.Types.{Acc, Ass, VType, ValueKind, rank}
use hdlskel.Module.Access.{Module, ModuleState, cache_addr}
use hdlskel.Module.Through.{IsReady}
use hdlskel.Basic.{ceil_multiple, ceil_div}
use hdlskel.Reg.Values.{
  Value, FloatOps, ReadValue, num, ValueConvert, Reg, check_value_limit, ass_check_value_limit,
  to_raw, from_raw, check_raw, check_value_fits_reg, fits_width, int_of, round_half_away,
  value_to_bytes, mask_width, may_write,
}
use hdlskel.Reg.Values as V
use hdlskel.Reg.{
  read_value_cached, read_converted, write_converted_cached, write_converted, write_bytes,
  write_uint, write_sint, write_bool, write_zero, write_cache,
}
use hdlskel.Reg.Stored.{IsPlaced}
use hdlskel.Reg.RoundTrip.{read_value-write_converted}
use hdlskel.Reg.Through.{read_converted-write_converted}
use hdlskel.Reg.Refusals.{no_access-Refuses}
use hdlskel.Reg.AllOrNothing.{cached_writes-KeepOnError}
use hdlskel.Reg.Vec.{RegVec}
use hdlskel.Reg.Vec.Write
use hdlskel.Reg.Vec.Write.{write_converted_idx_cached}
use hdlskel.Reg.Flags.{
  RFlag, is_single, read_bool_cached, write_bool_cached, write_list_bool_cached, scan_flags,
}
use hdlskel.Reg.Flags.RoundTrip.{read_bool-write_bool}
use hdlskel.Reg.Flags.Scan.{Any, IsAnswer, IsLog, scan_flags-largest}

-- Numbers stand for floats.
abbrev ops : FloatOps ℕ
ops = record {
  to_int = λ x. ok (pos x);
  is_ge_zero = λ x. true;
  neg = λ x. x;
  floor_half_up = λ x. ok (pos x);
}

abbrev m : Module (List Region)
m = record {
  regio = record {
    device = cache_device;
    error_on_write = false;
    pre_write_callback_func = none;
    post_read_callback_func = none;
    mtu = 4;
  };
  base_addr = 0x10;
  byte_align = 4;
  base_addr_var = 0x10;
  size_var = 8;
}

abbrev s : ModuleState (List Region)
s = record { dev = []; cache = replicate 8 0; use_cache = false }

abbrev at_most_100 : Value ℕ → Result Bool
at_most_100 (V.int z) = ok (leb_ℤ z (pos 100))
at_most_100 (V.float x) = ok false

abbrev minus_one : Value ℕ → Result (Value ℕ)
minus_one (V.int z) = ok (V.int (z -ℤ pos 1))
minus_one (V.float x) = ok (V.float x)

-- A signed value of 12 bits in two bytes, that stands for one more.
abbrev r : Reg ℕ
r = record {
  value_type = record { kind = ValueKind.sint; width = 12; vec_len = none };
  acc = Acc.rw';
  ass = Ass.unset;
  size = 2;
  elem_size = 2;
  addr = some 0x14;
  v_check = some at_most_100;
  v_convert = some (record { fn = minus_one; fn_inv = λ v. ok v });
  v_type = VType.s;
}

placed : IsPlaced m r 0x14 s
unfolding cache_addr
placed = record { addr_set = refl; wide = omega arith; inside = omega arith }

-- The user value 0 is stored as -1, which is 0xFFFF in two bytes and reads as -1 in 12 bits.
limit : check_value_limit r (V.int (pos 0)) ≡ ok tt
unfolding check_value_limit
limit = refl

raw : to_raw ops r (V.int (pos 0)) ≡ ok (V.int (negsuc 0))
unfolding to_raw ◌-ℤ◌
raw = refl

passes : check_raw ops r (V.int (negsuc 0)) ≡ ok tt
unfolding check_raw ◌-ℤ◌
passes = refl

-- 101 does not pass the check.
too_large : (write_converted_cached ops m r (V.int (pos 101)) s).0 ≡ err value_error
unfolding write_converted_cached
too_large = refl

read_value-write_converted_example :
    (s' : ModuleState (List Region)) × (write_converted_cached ops m r (V.int (pos 0)) s
      ≡ (ok tt, s'))
    × (read_value_cached m r s' ≡ (ok (num (V.int (negsuc 0))), s'))
    × (s'.dev ≡ [])
    × ((x : ℕ)
        → (x < cache_addr m 0x14) ⊎ (cache_addr m 0x14 + 2 ≤ x)
        → get_elem? s'.cache x ≡ get_elem? s.cache x)
read_value-write_converted_example =
    read_value-write_converted ops m r s 0x14 (V.int (pos 0)) (negsuc 0) placed refl (λ b. refl)
      limit raw passes

plain : IsPlain m.regio cache_memory
unfolding cache_memory
plain = record {
  mtu_pos = omega arith;
  mtu_fits = omega arith;
  writes = refl;
  no_pre_write = refl;
  no_post_read = refl;
}

ready : IsReady m cache_memory plain 0x14 2 s
unfolding cache_memory cache_addr ceil_multiple ceil_div
ready = record {
  valid = record { chain = tt; fits = tt };
  direct = refl;
  align_pos = omega arith;
  aligned = refl;
  room = omega arith;
  below = omega arith;
}

read_converted-write_converted_example :
    (s1 : ModuleState (List Region)) × (write_converted ops m r (V.int (pos 0)) s ≡ (ok tt, s1))
    × ((c : List ℕ)
        → length c ≡ 8
        → (s2 : ModuleState (List Region)) × (read_converted m r (record s1 { cache = c })
            ≡ (map_ok num (from_raw r (V.int (negsuc 0))), s2)))
read_converted-write_converted_example =
    read_converted-write_converted ops m r cache_memory plain s 0x14 (V.int (pos 0)) (negsuc 0)
      placed ready refl (λ b. refl) limit raw passes

abbrev read_only : Reg ℕ
read_only = record r { acc = Acc.ro }

no_access-Refuses_example :
    ((b : List ℕ) → Refuses (write_bytes m read_only b))
    × ((v : Value ℕ) → Refuses (write_uint ops m read_only v))
    × ((v : Value ℕ) → Refuses (write_sint ops m read_only v))
    × ((v : Value ℕ) → Refuses (write_converted ops m read_only v))
    × ((v : Bool) → Refuses (write_bool ops m read_only v))
    × Refuses (write_zero ops m read_only)
    × Refuses (write_cache m read_only)
no_access-Refuses_example = no_access-Refuses ops m read_only (λ b. refl)

abbrev flag : ℕ → RFlag
flag bit = record { bit = bit; ass = Ass.warn; vec_len = none }

abbrev flag_reg : Reg ℕ
flag_reg = record r {
  value_type = record { kind = ValueKind.flag; width = 12; vec_len = none };
  v_check = none;
  v_convert = none;
}

abbrev vector : RegVec ℕ
vector = record { reg = record r { size = 4 }; elem_offset = 2; vec_len = 2 }

cached_writes-KeepOnError_example :
    ((v : Value ℕ) → KeepsOnError (write_converted_cached ops m r v))
    × ((vs : List (Value ℕ)) → KeepsOnError (Write.write_converted_cached ops m vector vs))
    × ((idx : ℕ) (v : Value ℕ) → KeepsOnError (write_converted_idx_cached ops m vector idx v))
    × ((v : Bool) → KeepsOnError (write_bool_cached m r (flag 9) v))
    × ((vs : List Bool) → KeepsOnError (write_list_bool_cached m r (flag 9) ops vs))
cached_writes-KeepOnError_example = cached_writes-KeepOnError ops m r vector (flag 9)

flag-IsPlaced : IsPlaced m flag_reg 0x14 s
unfolding cache_addr
flag-IsPlaced = record { addr_set = refl; wide = omega arith; inside = omega arith }

zeros : All (λ b. b < 256) s.cache
zeros = omega arith

read_bool-write_bool_example :
    (t : ModuleState (List Region)) × (write_bool_cached m flag_reg (flag 9) true s ≡ (ok tt, t))
    × (t.dev ≡ [])
    × ((g : RFlag)
        → is_single g.vec_len ≡ true
        → g.bit < 12
        → (read_bool_cached m flag_reg g t).0
          ≡ (if g.bit == 9 then ok true else (read_bool_cached m flag_reg g s).0))
read_bool-write_bool_example =
    read_bool-write_bool m flag_reg flag-IsPlaced zeros (flag 9) true (λ b. refl) (omega arith)

abbrev some_flags : List RFlag
some_flags = flag 0 ∷ record (flag 3) { ass = Ass.error } ∷ flag 5 ∷ []

scan_run :
    scan_flags 0b101001 Ass.error some_flags Ass.unset []
    ≡ (Ass.error, record (flag 3) { ass = Ass.error } ∷ [])
unfolding scan_flags
scan_run = refl

scan_flags-largest_example :
    All
      (λ f.
        (a : Ass) × IsAnswer 0b101001 f a
        × (rank a ≤ rank (scan_flags 0b101001 Ass.error some_flags Ass.unset []).0))
      some_flags
    × (((scan_flags 0b101001 Ass.error some_flags Ass.unset []).0 ≡ Ass.unset)
        ⊎ Any
            (λ f. IsAnswer 0b101001 f (scan_flags 0b101001 Ass.error some_flags Ass.unset []).0)
            some_flags)
    × IsLog 0b101001 Ass.error some_flags (scan_flags 0b101001 Ass.error some_flags Ass.unset []).1
scan_flags-largest_example = scan_flags-largest 0b101001 Ass.error some_flags
