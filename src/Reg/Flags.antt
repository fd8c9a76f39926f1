-- ===== src/Reg/Flags.antt =====
-- pip/skmap/src/skmap/reg.py: `RFlag` and `RegFlags`, named bits of a register.
pub mod Bits
pub mod RoundTrip
pub mod Scan
use hdlskel.Base.{
  ℕ, zero, suc, ◌+◌, ◌-◌, ◌*◌, ◌/◌, ◌%◌, ◌^◌, ltb, leb, ◌==◌, not, if◌then◌else◌, Bool, true, false,
  Option, none, some, List, [], ◌∷◌, ◌++◌, length,
}
use hdlskel.Base.Int.{pos}
use hdlskel.Base.Result.{Result, ok, err, assertion_error}
use hdlskel.Base.Exec.{Exec, ◌>>=◌, ◌>>◌, pure, lift, check}
use hdlskel.Basic.{set_bit, set_bits, bool_to_int}
use hdlskel.Cache.{splice}
use hdlskel.Head.{at}
use hdlskel.Types.{Ass, rank}
use hdlskel.Module.Access.{Module, ModuleState}
use hdlskel.Reg.Values.{int, FloatOps, Reg, is_unset}
use hdlskel.Reg.{
  is_logged, read_bytes_cached, read_bytes, read_uint_cached, write_bytes_cached, write_cache,
  write_uint_cached,
}
use hdlskel.Reg.Vec.Asserts.{max_ass}
use Prim.Native.Nat.{bit_and, bit_or}

pub record RFlag : Type 0 where
  pub bit : ℕ
  pub ass : Ass
  pub vec_len : Option ℕ

pub record RegFlags (F : Type 0) : Type 0 where
  pub reg : Reg F
  pub flags : List RFlag

-- `vec_len is None or vec_len == 1`
abbrev pub is_single : Option ℕ → Bool
is_single none = true
is_single (some n) = n == 1

-- `assert self.vec_len is not None`
abbrev pub the_vec_len : Option ℕ → Result ℕ
the_vec_len none = err assertion_error
the_vec_len (some n) = ok n

-- `_ass_check` of a bool.
unfoldable pub flag_assert : Ass → Bool → Ass
flag_assert ass v = if is_unset ass then Ass.unset else if v then ass else Ass.passed

-- `(value & (1<<bit)) != 0`
unfoldable pub has_bit : ℕ → ℕ → Bool
has_bit value bit = not (bit_and value (2 ^ bit) == 0)

-- The loop of `read_list_bool_cached`, `n` bits from `bit` on.
unfoldable pub bits_from : ℕ → ℕ → ℕ → List Bool
unfolding has_bit
bits_from value bit zero = []
bits_from value bit (suc n) = has_bit value bit ∷ bits_from value (suc bit) n

-- The loop of `write_list_bool_cached`: `wr_uint |= int(b)<<(bit+ii)`
unfoldable pub or_bits : ℕ → ℕ → List Bool → ℕ
or_bits wr_uint bit [] = wr_uint
or_bits wr_uint bit (b ∷ bs) = or_bits (bit_or wr_uint (bool_to_int b * 2 ^ bit)) (suc bit) bs

module _ {F S : Type 0} (m : Module S) (r : Reg F) (f : RFlag) where
  abbrev Call : Type 0 → Type 0
  Call A = Exec (ModuleState S) A

  unfoldable pub read_bool_cached : Call Bool
  unfolding read_uint_cached has_bit
  read_bool_cached = do
    check (is_single f.vec_len) assertion_error
    v ← read_uint_cached m r
    pure (has_bit v f.bit)

  unfoldable pub read_bool : Call Bool
  unfolding read_bytes read_bool_cached
  read_bool = do b ← read_bytes m r; read_bool_cached

  unfoldable pub write_bool_cached : Bool → Call (Unit {0})
  unfolding read_bytes_cached write_bytes_cached set_bit splice
  write_bool_cached v = do
    b ← read_bytes_cached m r
    old ← lift (at b (f.bit / 8))
    write_bytes_cached m r (splice b (f.bit / 8) (set_bit old (f.bit % 8) v ∷ []))

  unfoldable pub write_bool : Bool → Call (Unit {0})
  unfolding write_bool_cached write_cache
  write_bool v = do write_bool_cached v; write_cache m r

  unfoldable pub read_list_bool_cached : Call (List Bool)
  unfolding read_uint_cached bits_from
  read_list_bool_cached = do
    n ← lift (the_vec_len f.vec_len)
    value_uint ← read_uint_cached m r
    pure (bits_from value_uint f.bit n)

  unfoldable pub read_list_bool : Call (List Bool)
  unfolding read_bytes read_list_bool_cached
  read_list_bool = do b ← read_bytes m r; read_list_bool_cached

  unfoldable pub write_list_bool_cached : FloatOps F → List Bool → Call (Unit {0})
  unfolding read_uint_cached write_uint_cached set_bits or_bits
  write_list_bool_cached ops value = do
    n ← lift (the_vec_len f.vec_len)
    check (length value == n) assertion_error
    rd_uint ← read_uint_cached m r
    let wr_mask = (2 ^ n - 1) * 2 ^ f.bit
    write_uint_cached ops m r (int (pos (set_bits rd_uint wr_mask (or_bits 0 f.bit value))))

  unfoldable pub write_list_bool : FloatOps F → List Bool → Call (Unit {0})
  unfolding write_list_bool_cached write_cache
  write_list_bool ops v = do write_list_bool_cached ops v; write_cache m r

  unfoldable pub flag_ass_check_cached : Call Ass
  unfolding read_bool_cached flag_assert
  flag_ass_check_cached = do v ← read_bool_cached; pure (flag_assert f.ass v)

  unfoldable pub flag_ass_check : Call Ass
  unfolding read_bool flag_assert
  flag_ass_check = do v ← read_bool; pure (flag_assert f.ass v)

-- The flags that an assert scan adds to the log.
abbrev pub log_flag : Ass → Ass → RFlag → List RFlag → List RFlag
log_flag log_ass ass f log_f = if is_logged log_ass ass then log_f ++ (f ∷ []) else log_f

-- The loop of `RegFlags.ass_check_cached`: `(value_int >> f.bit) & 1`
unfoldable pub scan_flags : ℕ → Ass → List RFlag → Ass → List RFlag → Ass × List RFlag
unfolding flag_assert
scan_flags value_int log_ass [] result log_f = (result, log_f)
scan_flags value_int log_ass (f ∷ fs) result log_f =
    let ass = flag_assert f.ass (value_int / 2 ^ f.bit % 2 == 1) in
    scan_flags value_int log_ass fs (max_ass result ass) (log_flag log_ass ass f log_f)

module _ {F S : Type 0} (m : Module S) (r : RegFlags F) where
  unfoldable pub ass_check_cached : Ass → List RFlag → Exec (ModuleState S) (Ass × List RFlag)
  unfolding read_uint_cached scan_flags
  ass_check_cached log_ass log_f = do
    value_int ← read_uint_cached m r.reg
    pure (scan_flags value_int log_ass r.flags Ass.unset log_f)

  unfoldable pub ass_check : Ass → List RFlag → Exec (ModuleState S) (Ass × List RFlag)
  unfolding read_bytes ass_check_cached
  ass_check log_ass log_f = do b ← read_bytes m r.reg; ass_check_cached log_ass log_f

unfoldable pub flags_have_ass : List RFlag → Bool
flags_have_ass [] = false
flags_have_ass (f ∷ fs) = if is_unset f.ass then flags_have_ass fs else true
