-- ===== src/Reg/Vec/Write.antt =====
-- pip/skmap/src/skmap/reg.py: the writes of `RegVec`, and its values as the user sees them.
use hdlskel.Base.{ℕ, ◌==◌, Bool, true, false, List, length, map}
use hdlskel.Base.{◌*◌, zero, suc, [], ◌∷◌}
use hdlskel.Base.Int.{pos}
use hdlskel.Base.Result.{assertion_error, traverse}
use hdlskel.Base.Exec.{Exec, ◌>>=◌, ◌>>◌, pure, raise, lift, check}
use hdlskel.Basic.{bool_to_int}
use hdlskel.Head.{at}
use hdlskel.Types.{ValueKind}
use hdlskel.Module.Access.{Module, ModuleState}
use hdlskel.Reg.Values.{
  Value, int, FloatOps, check_value_limit, check_value_fits_reg, check_raw, to_raw, from_raw,
  value_to_bytes,
}
use hdlskel.Reg.{read_bytes_cached, read_bytes, write_cache, write_bytes_cached}
use hdlskel.Reg.Vec.{
  RegVec, check_raw_list, to_raw_list, list_int_to_bytes, write_idx_bytes_cached, write_idx_cache,
  read_list_uint_cached, read_list_sint_cached, read_list_bool_cached,
}

-- `range(i, i + n)`
abbrev pub range_from : ℕ → ℕ → List ℕ
range_from i zero = []
range_from i (suc n) = i ∷ range_from (suc i) n

module _ {F S : Type 0} (m : Module S) (r : RegVec F) where
  abbrev Call : Type 0 → Type 0
  Call A = Exec (ModuleState S) A

  abbrev read_raw_of_kind : ValueKind → Call (List (Value F))
  read_raw_of_kind ValueKind.sint = do vs ← read_list_sint_cached m r; pure (map int vs)
  read_raw_of_kind ValueKind.uint = do
    vs ← read_list_uint_cached m r
    pure (map (λ v. int (pos v)) vs)
  read_raw_of_kind ValueKind.bits = do
    vs ← read_list_uint_cached m r
    pure (map (λ v. int (pos v)) vs)
  read_raw_of_kind ValueKind.flag = do
    vs ← read_list_bool_cached m r
    pure (map (λ v. int (pos (bool_to_int v))) vs)
  read_raw_of_kind ValueKind.char = raise assertion_error

  -- `_read_list_raw_cached`
  unfoldable pub read_list_raw_cached : Call (List (Value F))
  unfolding read_list_uint_cached read_list_sint_cached read_list_bool_cached
  read_list_raw_cached = read_raw_of_kind r.reg.value_type.kind

  unfoldable pub read_converted_cached : Call (List (Value F))
  unfolding read_list_raw_cached from_raw
  read_converted_cached = do vs ← read_list_raw_cached; lift (traverse (from_raw r.reg) vs)

  unfoldable pub read_converted : Call (List (Value F))
  unfolding read_bytes read_converted_cached
  read_converted = do b ← read_bytes m r.reg; read_converted_cached

  -- The characters by their code points: the low byte of each element.
  unfoldable pub read_str_cached : Call (List ℕ)
  unfolding read_bytes_cached
  read_str_cached = do
    b ← read_bytes_cached m r.reg
    lift (traverse (λ ii. at b (ii * r.elem_offset)) (range_from 0 r.vec_len))

  unfoldable pub read_str : Call (List ℕ)
  unfolding read_bytes read_str_cached
  read_str = do b ← read_bytes m r.reg; read_str_cached

module _ {F S : Type 0} (ops : FloatOps F) (m : Module S) (r : RegVec F) where
  abbrev pub Done : Type 0
  Done = Exec (ModuleState S) (Unit {0})

  unfoldable pub write_idx_int_cached : Bool → ℕ → Value F → Done
  unfolding check_raw value_to_bytes write_idx_bytes_cached
  write_idx_int_cached signed idx val = do
    lift (check_raw ops r.reg val)
    b ← lift (value_to_bytes val r.reg.elem_size signed)
    write_idx_bytes_cached m r idx b

  unfoldable pub write_idx_uint_cached : ℕ → Value F → Done
  unfolding write_idx_int_cached
  write_idx_uint_cached idx val = write_idx_int_cached false idx val

  unfoldable pub write_idx_uint : ℕ → Value F → Done
  unfolding write_idx_uint_cached write_idx_cache
  write_idx_uint idx val = do write_idx_uint_cached idx val; write_idx_cache m r idx

  unfoldable pub write_idx_sint_cached : ℕ → Value F → Done
  unfolding write_idx_int_cached
  write_idx_sint_cached idx val = write_idx_int_cached true idx val

  unfoldable pub write_idx_sint : ℕ → Value F → Done
  unfolding write_idx_sint_cached write_idx_cache
  write_idx_sint idx val = do write_idx_sint_cached idx val; write_idx_cache m r idx

  abbrev pub write_idx_of_kind : ValueKind → ℕ → Value F → Done
  write_idx_of_kind ValueKind.sint idx v = write_idx_sint_cached idx v
  write_idx_of_kind ValueKind.uint idx v = write_idx_uint_cached idx v
  write_idx_of_kind ValueKind.bits idx v = write_idx_uint_cached idx v
  write_idx_of_kind ValueKind.flag idx v = write_idx_uint_cached idx v
  write_idx_of_kind ValueKind.char idx v = raise assertion_error

  unfoldable pub write_converted_idx_cached : ℕ → Value F → Done
  unfolding check_value_limit to_raw check_value_fits_reg write_idx_sint_cached
      write_idx_uint_cached
  write_converted_idx_cached idx value = do
    lift (check_value_limit r.reg value)
    value_raw ← lift (to_raw ops r.reg value)
    lift (check_value_fits_reg ops r.reg value_raw)
    write_idx_of_kind r.reg.value_type.kind idx value_raw

  unfoldable pub write_converted_idx : ℕ → Value F → Done
  unfolding write_converted_idx_cached write_idx_cache
  write_converted_idx idx value = do write_converted_idx_cached idx value; write_idx_cache m r idx

  -- `write_list_uint_cached` and `write_list_sint_cached` differ in `signed`.
  unfoldable pub write_list_int_cached : Bool → List (Value F) → Done
  unfolding check_raw_list list_int_to_bytes write_bytes_cached
  write_list_int_cached signed value = do
    lift (check_raw_list r ops value)
    b ← lift (list_int_to_bytes r value signed)
    write_bytes_cached m r.reg b

  unfoldable pub write_list_uint_cached : List (Value F) → Done
  unfolding write_list_int_cached
  write_list_uint_cached value = write_list_int_cached false value

  unfoldable pub write_list_uint : List (Value F) → Done
  unfolding write_list_uint_cached write_cache
  write_list_uint value = do write_list_uint_cached value; write_cache m r.reg

  unfoldable pub write_list_sint_cached : List (Value F) → Done
  unfolding write_list_int_cached
  write_list_sint_cached value = write_list_int_cached true value

  unfoldable pub write_list_sint : List (Value F) → Done
  unfolding write_list_sint_cached write_cache
  write_list_sint value = do write_list_sint_cached value; write_cache m r.reg

  abbrev pub write_list_of_kind : ValueKind → List (Value F) → Done
  write_list_of_kind ValueKind.sint vs = write_list_sint_cached vs
  write_list_of_kind ValueKind.uint vs = write_list_uint_cached vs
  write_list_of_kind ValueKind.bits vs = write_list_uint_cached vs
  write_list_of_kind ValueKind.flag vs = raise assertion_error
  write_list_of_kind ValueKind.char vs = raise assertion_error

  unfoldable pub write_converted_cached : List (Value F) → Done
  unfolding to_raw_list write_list_sint_cached write_list_uint_cached
  write_converted_cached value = do
    check (length value == r.vec_len) assertion_error
    value_raw ← lift (to_raw_list r ops value)
    write_list_of_kind r.reg.value_type.kind value_raw

  unfoldable pub write_converted : List (Value F) → Done
  unfolding write_converted_cached write_cache
  write_converted value = do write_converted_cached value; write_cache m r.reg
