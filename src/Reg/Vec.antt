-- ===== src/Reg/Vec.antt =====
-- pip/skmap/src/skmap/reg.py: `RegVec`, a register that holds a vector of values. Its writes and
-- its asserts are in the children.
pub mod Write
pub mod Asserts
use hdlskel.Base.{
  ℕ, suc, ◌+◌, ◌*◌, ◌%◌, ◌^◌, ◌==◌, not, if◌then◌else◌, Bool, true, false, Option, none, some, List,
  [], ◌∷◌, length, map, replicate,
}
use hdlskel.Base.Bytes.{from_le}
use hdlskel.Base.Int.{ℤ, pos, pos_part}
use hdlskel.Base.Result.{
  Result, ok, err, assertion_error, value_error, map_ok, guard, traverse, check_each,
}
use hdlskel.Base.Result as R
use hdlskel.Base.Exec.{Exec, ◌>>=◌, ◌>>◌, pure, raise, lift, check}
use hdlskel.Basic.{Endian, cast_uint_to_sint, bytes_to_list_int, bool_to_int}
use hdlskel.Cache.{splice}
use hdlskel.Head.{at}
use hdlskel.Types.{Ass, rank, ValueKind}
use hdlskel.Module.Access.{Module, ModuleState, byte_aligment_from_val_width}
use hdlskel.Module.Access
use hdlskel.Reg.Values.{
  Value, int, FloatOps, ReadValue, num, char, Reg, may_write, is_k, is_unset, the_addr, has_limit,
  check_value_limit, check_value_fits_reg, check_raw, to_raw, from_raw, from_raw_read,
  value_to_bytes, mask_width,
}
use hdlskel.Reg.{
  ass_check_read, is_logged, assert_of, read_bytes_cached, read_bytes, write_cache,
  write_bytes_cached,
}

-- `reg.size` is the size of the whole vector, `reg.elem_size` that of a value, and `elem_offset`
-- the distance of two values.
pub record RegVec (F : Type 0) : Type 0 where
  pub reg : Reg F
  pub elem_offset : ℕ
  pub vec_len : ℕ

abbrev the_len : Option ℕ → Result ℕ
the_len none = err assertion_error
the_len (some n) = ok n

-- `max` of the values of flags: an empty list is a ValueError.
abbrev pub max_bool : List Bool → Result Bool
max_bool [] = err value_error
max_bool (b ∷ []) = ok b
max_bool (b ∷ c ∷ bs) = map_ok (λ rest. if b then true else rest) (max_bool (c ∷ bs))

-- `RegVec.__init__`, on the register that `Reg.__init__` gives.
unfoldable pub init_vec : {F S : Type 0} → Module S → Reg F → Result (RegVec F)
unfolding byte_aligment_from_val_width
init_vec m r =
    map_ok
      (λ n.
        let off = byte_aligment_from_val_width m (r.size * 8) in
        record { reg = record r { size = off * n }; elem_offset = off; vec_len = n })
      (the_len r.value_type.vec_len)

module _ {F : Type 0} (r : RegVec F) where
  abbrev pub width : ℕ
  width = r.reg.value_type.width

  unfoldable pub bytes_to_list_uint : List ℕ → Result (List ℕ)
  unfolding bytes_to_list_int mask_width
  bytes_to_list_uint b =
      map_ok (map (λ z. mask_width r.reg.elem_size width (pos_part z)))
        (bytes_to_list_int b r.elem_offset Endian.little false)

  unfoldable pub bytes_to_list_sint : List ℕ → Result (List ℤ)
  unfolding bytes_to_list_uint cast_uint_to_sint
  bytes_to_list_sint b =
      R.◌>>=◌ (bytes_to_list_uint b) (λ vs. traverse (λ v. cast_uint_to_sint v width) vs)

  unfoldable pub bytes_to_list_bool : List ℕ → Result (List Bool)
  unfolding bytes_to_list_uint
  bytes_to_list_bool b = map_ok (map (λ v. not (v == 0))) (bytes_to_list_uint b)

  -- The loop of `_list_int_to_bytes`, from element `ii` on.
  unfoldable pub lay_values : ℕ → List (Value F) → Bool → List ℕ → Result (List ℕ)
  unfolding value_to_bytes splice
  lay_values ii [] signed b = ok b
  lay_values ii (v ∷ vs) signed b =
      R.◌>>=◌ (value_to_bytes v r.reg.elem_size signed)
        (λ chunk. lay_values (suc ii) vs signed (splice b (ii * r.elem_offset) chunk))

  unfoldable pub list_int_to_bytes : List (Value F) → Bool → Result (List ℕ)
  unfolding lay_values
  list_int_to_bytes value signed = lay_values 0 value signed (replicate r.reg.size 0)

  unfoldable pub check_value_list : List (Value F) → Result (Unit {0})
  unfolding check_value_limit
  check_value_list value = check_each (check_value_limit r.reg) value

  -- The checks of `write_list_uint_cached` and `write_list_sint_cached`.
  unfoldable pub check_raw_list : FloatOps F → List (Value F) → Result (Unit {0})
  unfolding check_value_list check_value_fits_reg from_raw
  check_raw_list ops value =
      R.◌>>=◌ (traverse (from_raw r.reg) value)
        (λ user. R.◌>>◌ (check_value_list user) (check_each (check_value_fits_reg ops r.reg) value))

  -- The loop of `write_converted_cached`.
  unfoldable pub to_raw_list : FloatOps F → List (Value F) → Result (List (Value F))
  unfolding check_value_limit to_raw check_value_fits_reg
  to_raw_list ops value =
      traverse
        (λ v. R.◌>>◌ (check_value_limit r.reg v) (
          R.◌>>=◌ (to_raw ops r.reg v)
            (λ raw. R.◌>>◌ (check_value_fits_reg ops r.reg raw) (ok raw))))
        value

module _ {F S : Type 0} (m : Module S) (r : RegVec F) where
  abbrev Call : Type 0 → Type 0
  Call A = Exec (ModuleState S) A

  unfoldable pub read_list_uint_cached : Call (List ℕ)
  unfolding read_bytes_cached bytes_to_list_uint
  read_list_uint_cached = do b ← read_bytes_cached m r.reg; lift (bytes_to_list_uint r b)

  unfoldable pub read_list_uint : Call (List ℕ)
  unfolding read_bytes read_list_uint_cached
  read_list_uint = do b ← read_bytes m r.reg; read_list_uint_cached

  unfoldable pub read_list_sint_cached : Call (List ℤ)
  unfolding read_bytes_cached bytes_to_list_sint
  read_list_sint_cached = do b ← read_bytes_cached m r.reg; lift (bytes_to_list_sint r b)

  unfoldable pub read_list_sint : Call (List ℤ)
  unfolding read_bytes read_list_sint_cached
  read_list_sint = do b ← read_bytes m r.reg; read_list_sint_cached

  unfoldable pub read_list_bool_cached : Call (List Bool)
  unfolding read_bytes_cached bytes_to_list_bool
  read_list_bool_cached = do b ← read_bytes_cached m r.reg; lift (bytes_to_list_bool r b)

  unfoldable pub read_list_bool : Call (List Bool)
  unfolding read_bytes bytes_to_list_bool
  read_list_bool = do b ← read_bytes m r.reg; lift (bytes_to_list_bool r b)

  -- `_idx_elem_offset`
  unfoldable pub idx_elem_offset : ℕ → Result ℕ
  idx_elem_offset idx = map_ok (λ a. a + idx * r.elem_offset) (the_addr r.reg.addr)

  unfoldable pub read_idx_bytes_cached : ℕ → Call (List ℕ)
  unfolding idx_elem_offset
  read_idx_bytes_cached idx = do
    addr ← lift (idx_elem_offset idx)
    Access.read_cached m addr r.reg.elem_size

  unfoldable pub fetch_idx : ℕ → Call (List ℕ)
  unfolding idx_elem_offset
  fetch_idx idx = do addr ← lift (idx_elem_offset idx); Access.read_bytes m addr r.reg.elem_size

  unfoldable pub read_idx_bytes : ℕ → Call (List ℕ)
  unfolding fetch_idx read_idx_bytes_cached
  read_idx_bytes idx =
      if is_k r.reg.acc
      then read_idx_bytes_cached idx
      else (do b ← fetch_idx idx; read_idx_bytes_cached idx)

  unfoldable pub write_idx_cache : ℕ → Call (Unit {0})
  unfolding read_idx_bytes_cached idx_elem_offset
  write_idx_cache idx = do
    b ← read_idx_bytes_cached idx
    addr ← lift (idx_elem_offset idx)
    Access.write_bytes m addr b

  unfoldable pub write_idx_bytes_cached : ℕ → List ℕ → Call (Unit {0})
  unfolding idx_elem_offset
  write_idx_bytes_cached idx b = do
    check (may_write r.reg.acc b) assertion_error
    check (length b == r.reg.elem_size) assertion_error
    addr ← lift (idx_elem_offset idx)
    Access.write_bytes_cached m addr b

  unfoldable pub write_idx_bytes : ℕ → List ℕ → Call (Unit {0})
  unfolding write_idx_bytes_cached write_idx_cache
  write_idx_bytes idx b = do write_idx_bytes_cached idx b; write_idx_cache idx

  unfoldable pub read_idx_uint_cached : ℕ → Call ℕ
  unfolding read_idx_bytes_cached
  read_idx_uint_cached idx = do b ← read_idx_bytes_cached idx; pure (from_le b % 2 ^ width r)

  unfoldable pub read_idx_uint : ℕ → Call ℕ
  unfolding read_idx_bytes read_idx_uint_cached
  read_idx_uint idx = do b ← read_idx_bytes idx; read_idx_uint_cached idx

  unfoldable pub read_idx_sint_cached : ℕ → Call ℤ
  unfolding read_idx_uint_cached
  read_idx_sint_cached idx = do
    value_int ← read_idx_uint_cached idx
    lift (cast_uint_to_sint value_int (width r))

  unfoldable pub read_idx_sint : ℕ → Call ℤ
  unfolding read_idx_bytes read_idx_sint_cached
  read_idx_sint idx = do b ← read_idx_bytes idx; read_idx_sint_cached idx

  unfoldable pub read_idx_bool_cached : ℕ → Call Bool
  unfolding read_idx_uint_cached
  read_idx_bool_cached idx = do v ← read_idx_uint_cached idx; pure (not (v == 0))

  unfoldable pub read_idx_bool : ℕ → Call Bool
  unfolding read_idx_uint
  read_idx_bool idx = do v ← read_idx_uint idx; pure (not (v == 0))

  unfoldable pub read_idx_char_cached : ℕ → Call ℕ
  unfolding read_idx_uint_cached
  read_idx_char_cached idx = do check (width r == 8) assertion_error; read_idx_uint_cached idx

  -- A `bool` of Python is the integer 0 or 1.
  abbrev pub read_idx_of_kind : ValueKind → ℕ → Call (ReadValue F)
  read_idx_of_kind ValueKind.uint idx = do v ← read_idx_uint_cached idx; pure (num (int (pos v)))
  read_idx_of_kind ValueKind.sint idx = do v ← read_idx_sint_cached idx; pure (num (int v))
  read_idx_of_kind ValueKind.bits idx = do v ← read_idx_uint_cached idx; pure (num (int (pos v)))
  read_idx_of_kind ValueKind.flag idx = do
    check (width r == 1) assertion_error
    v ← read_idx_bool_cached idx
    pure (num (int (pos (bool_to_int v))))
  read_idx_of_kind ValueKind.char idx = do c ← read_idx_char_cached idx; pure (char c)

  unfoldable pub read_idx_value_cached : ℕ → Call (ReadValue F)
  unfolding read_idx_uint_cached read_idx_sint_cached read_idx_bool_cached read_idx_char_cached
  read_idx_value_cached idx = read_idx_of_kind r.reg.value_type.kind idx

  unfoldable pub read_converted_idx_cached : ℕ → Call (ReadValue F)
  unfolding read_idx_value_cached from_raw_read
  read_converted_idx_cached idx = do v ← read_idx_value_cached idx; lift (from_raw_read r.reg v)

  unfoldable pub read_converted_idx : ℕ → Call (ReadValue F)
  unfolding read_idx_bytes read_converted_idx_cached
  read_converted_idx idx = do b ← read_idx_bytes idx; read_converted_idx_cached idx
