-- ===== src/Reg.antt =====
-- pip/skmap/src/skmap/reg.py: `Reg`, one register of a module. Names and printing are not modelled.
pub mod Values
pub mod Stored
pub mod RoundTrip
pub mod Keeps
pub mod Refusals
pub mod Through
pub mod AllOrNothing
mod Tests
pub mod Vec
pub mod Flags
use hdlskel.Base.{ℕ, ltb, leb, ◌==◌, not, if◌then◌else◌, Bool, true, false, List, length}
use hdlskel.Base.Bytes.{from_le}
use hdlskel.Base.Int.{ℤ, pos}
use hdlskel.Base.Result.{Result, ok, assertion_error}
use hdlskel.Base.Exec.{Exec, ◌>>=◌, ◌>>◌, pure, raise, lift, check}
use hdlskel.Basic.{cast_uint_to_sint, bool_to_int}
use hdlskel.Types.{Acc, Ass, rank, ValueKind}
use hdlskel.Module.Access.{Module, ModuleState}
use hdlskel.Module.Access
use hdlskel.Reg.Values.{
  Value, int, FloatOps, ReadValue, num, char, Reg, may_write, is_k, is_unset, the_addr, has_limit,
  ass_check_value_limit, check_value_limit, check_value_fits_reg, check_raw, to_raw, from_raw_read,
  value_to_bytes, mask_width,
}

-- The assert of a value read back: a text has no `v_check`.
unfoldable pub ass_check_read : {F : Type 0} → Reg F → ReadValue F → Result Ass
unfolding ass_check_value_limit
ass_check_read r (num v) = ass_check_value_limit r v
ass_check_read r (char c) = ok Ass.unset

-- `log_ass != Ass.none and ass >= log_ass`: whether an assert is logged.
abbrev pub is_logged : Ass → Ass → Bool
is_logged log_ass ass = if is_unset log_ass then false else leb (rank log_ass) (rank ass)

abbrev pub assert_of : Ass → Bool → Ass
assert_of ass true = ass
assert_of ass false = Ass.passed

module _ {F S : Type 0} (m : Module S) (r : Reg F) where
  abbrev pub Call : Type 0 → Type 0
  Call A = Exec (ModuleState S) A

  unfoldable pub read_bytes_cached : Call (List ℕ)
  read_bytes_cached = do addr ← lift (the_addr r.addr); Access.read_cached m addr r.size

  unfoldable pub read_bytes : Call (List ℕ)
  unfolding read_bytes_cached
  read_bytes =
      if is_k r.acc
      then read_bytes_cached
      else (do addr ← lift (the_addr r.addr); Access.read_bytes m addr r.size)

  unfoldable pub read_uint_cached : Call ℕ
  unfolding read_bytes_cached mask_width
  read_uint_cached = do
    b ← read_bytes_cached
    pure (mask_width r.size r.value_type.width (from_le b))

  unfoldable pub read_uint : Call ℕ
  unfolding read_bytes read_uint_cached
  read_uint = do b ← read_bytes; read_uint_cached

  unfoldable pub read_sint_cached : Call ℤ
  unfolding read_uint_cached
  read_sint_cached = do
    value_int ← read_uint_cached
    lift (cast_uint_to_sint value_int r.value_type.width)

  unfoldable pub read_sint : Call ℤ
  unfolding read_bytes read_sint_cached
  read_sint = do b ← read_bytes; read_sint_cached

  unfoldable pub read_bool_cached : Call Bool
  unfolding read_uint_cached
  read_bool_cached = do v ← read_uint_cached; pure (not (v == 0))

  unfoldable pub read_bool : Call Bool
  unfolding read_bytes read_bool_cached
  read_bool = do b ← read_bytes; read_bool_cached

  -- The character by its code point, which `chr` takes for any 8-bit value.
  unfoldable pub read_char_cached : Call ℕ
  unfolding read_uint_cached
  read_char_cached = do check (r.value_type.width == 8) assertion_error; read_uint_cached

  unfoldable pub read_char : Call ℕ
  unfolding read_bytes read_char_cached
  read_char = do b ← read_bytes; read_char_cached

  abbrev pub read_of_kind : ValueKind → Call (ReadValue F)
  read_of_kind ValueKind.uint = do v ← read_uint_cached; pure (num (int (pos v)))
  read_of_kind ValueKind.sint = do v ← read_sint_cached; pure (num (int v))
  read_of_kind ValueKind.bits = do v ← read_uint_cached; pure (num (int (pos v)))
  read_of_kind ValueKind.flag = do v ← read_uint_cached; pure (num (int (pos v)))
  read_of_kind ValueKind.char = do c ← read_char_cached; pure (char c)

  unfoldable pub read_value_cached : Call (ReadValue F)
  unfolding read_uint_cached read_sint_cached read_char_cached
  read_value_cached = read_of_kind r.value_type.kind

  unfoldable pub read_converted_cached : Call (ReadValue F)
  unfolding read_value_cached from_raw_read
  read_converted_cached = do v ← read_value_cached; lift (from_raw_read r v)

  unfoldable pub read_converted : Call (ReadValue F)
  unfolding read_bytes read_converted_cached
  read_converted = do b ← read_bytes; read_converted_cached

  unfoldable pub ass_check_limit_cached : Call Ass
  unfolding read_converted_cached ass_check_read
  ass_check_limit_cached = do v ← read_converted_cached; lift (ass_check_read r v)

  -- The assert, and whether the register is added to the log.
  unfoldable pub ass_check_cached : Ass → Call (Ass × Bool)
  unfolding ass_check_limit_cached read_bool_cached has_limit
  ass_check_cached log_ass =
      if has_limit r
      then (do ass ← ass_check_limit_cached; pure (ass, is_logged log_ass ass))
      else if is_unset r.ass
      then pure (Ass.unset, false)
      else (do
        value ← read_bool_cached
        let ass = assert_of r.ass value
        pure (ass, is_logged log_ass ass))

  unfoldable pub ass_check : Ass → Call (Ass × Bool)
  unfolding read_bytes ass_check_cached
  ass_check log_ass =
      if is_unset r.ass
      then pure (Ass.unset, false)
      else (do b ← read_bytes; ass_check_cached log_ass)

  unfoldable pub write_cache : Call (Unit {0})
  unfolding read_bytes_cached
  write_cache = do
    addr ← lift (the_addr r.addr)
    b ← read_bytes_cached
    check (may_write r.acc b) assertion_error
    Access.write_bytes m addr b

  unfoldable pub write_bytes_cached : List ℕ → Call (Unit {0})
  write_bytes_cached b = do
    addr ← lift (the_addr r.addr)
    check (may_write r.acc b) assertion_error
    check (length b == r.size) assertion_error
    Access.write_bytes_cached m addr b

  unfoldable pub write_bytes : List ℕ → Call (Unit {0})
  unfolding write_bytes_cached write_cache
  write_bytes b = do write_bytes_cached b; write_cache

module _ {F S : Type 0} (ops : FloatOps F) (m : Module S) (r : Reg F) where
  unfoldable pub write_uint_cached : Value F → Exec (ModuleState S) (Unit {0})
  unfolding check_raw value_to_bytes write_bytes_cached
  write_uint_cached v = do
    lift (check_raw ops r v)
    b ← lift (value_to_bytes v r.size false)
    write_bytes_cached m r b

  unfoldable pub write_uint : Value F → Exec (ModuleState S) (Unit {0})
  unfolding write_uint_cached write_cache
  write_uint v = do write_uint_cached v; write_cache m r

  unfoldable pub write_sint_cached : Value F → Exec (ModuleState S) (Unit {0})
  unfolding check_raw value_to_bytes write_bytes_cached
  write_sint_cached v = do
    lift (check_raw ops r v)
    b ← lift (value_to_bytes v r.size true)
    write_bytes_cached m r b

  unfoldable pub write_sint : Value F → Exec (ModuleState S) (Unit {0})
  unfolding write_sint_cached write_cache
  write_sint v = do write_sint_cached v; write_cache m r

  abbrev pub write_of_kind : ValueKind → Value F → Exec (ModuleState S) (Unit {0})
  write_of_kind ValueKind.sint v = write_sint_cached v
  write_of_kind ValueKind.uint v = write_uint_cached v
  write_of_kind ValueKind.bits v = write_uint_cached v
  write_of_kind ValueKind.flag v = write_uint_cached v
  write_of_kind ValueKind.char v = raise assertion_error

  unfoldable pub write_converted_cached : Value F → Exec (ModuleState S) (Unit {0})
  unfolding check_value_limit to_raw check_value_fits_reg write_sint_cached write_uint_cached
  write_converted_cached value = do
    lift (check_value_limit r value)
    value_raw ← lift (to_raw ops r value)
    lift (check_value_fits_reg ops r value_raw)
    write_of_kind r.value_type.kind value_raw

  unfoldable pub write_converted : Value F → Exec (ModuleState S) (Unit {0})
  unfolding write_converted_cached write_cache
  write_converted value = do write_converted_cached value; write_cache m r

  unfoldable pub write_bool_cached : Bool → Exec (ModuleState S) (Unit {0})
  unfolding write_uint_cached
  write_bool_cached v = write_uint_cached (int (pos (bool_to_int v)))

  unfoldable pub write_bool : Bool → Exec (ModuleState S) (Unit {0})
  unfolding write_bool_cached write_cache
  write_bool v = do write_bool_cached v; write_cache m r

  unfoldable pub write_zero_cached : Exec (ModuleState S) (Unit {0})
  unfolding write_uint_cached
  write_zero_cached = write_uint_cached (int (pos 0))

  unfoldable pub write_zero : Exec (ModuleState S) (Unit {0})
  unfolding write_zero_cached write_cache
  write_zero = do write_zero_cached; write_cache m r
