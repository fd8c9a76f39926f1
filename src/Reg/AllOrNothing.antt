-- ===== src/Reg/AllOrNothing.antt =====
-- pip/skmap/src/skmap/reg.py: writes of registers, vectors and flags that raise.
use hdlskel.Base.{ℕ, ◌==◌, ◌/◌, ◌%◌, ◌*◌, ◌-◌, ◌^◌, refl, Bool, true, false, List, [], ◌∷◌, length}
use hdlskel.Base.Int.{pos}
use hdlskel.Base.Effects.{Keeps, KeepsOnError, bind-Keeps, bind-KeepsOnError}
use hdlskel.Base.Result.{assertion_error}
use hdlskel.Base.Exec.{lift, check}
use hdlskel.Basic.{set_bit, set_bits}
use hdlskel.Cache.{splice}
use hdlskel.Head.{at}
use hdlskel.Types.{ValueKind}
use hdlskel.Module.Access.{Module}
use hdlskel.Module.Access
use hdlskel.Reg.Values.{
  Value, int, FloatOps, Reg, may_write, check_raw, check_value_limit, check_value_fits_reg, to_raw,
  value_to_bytes,
}
use hdlskel.Reg.{read_bytes_cached, read_uint_cached, write_converted_cached}
use hdlskel.Reg.Vec.{
  RegVec, idx_elem_offset, write_idx_bytes_cached, check_raw_list, list_int_to_bytes, to_raw_list,
}
use hdlskel.Reg.Vec.Write.{
  write_idx_int_cached, write_idx_uint_cached, write_idx_sint_cached, write_idx_of_kind,
  write_converted_idx_cached, write_list_int_cached, write_list_uint_cached, write_list_sint_cached,
  write_list_of_kind,
}
use hdlskel.Reg.Vec.Write
use hdlskel.Reg.Flags.{RFlag, the_vec_len, or_bits, write_bool_cached, write_list_bool_cached}
use hdlskel.Reg.Refusals.{
  read_bytes_cached-Keeps, write_bytes_cached-KeepsOnError, write_uint_cached-KeepsOnError,
  write_converted_cached-KeepsOnError,
}

module _ {F S : Type 0} (ops : FloatOps F) (m : Module S) (r : RegVec F) where
  idx_bytes : (idx : ℕ) (b : List ℕ) → KeepsOnError (write_idx_bytes_cached m r idx b)
  unfolding write_idx_bytes_cached Access.write_bytes_cached
  idx_bytes idx b =
      bind-KeepsOnError (check (may_write r.reg.acc b) assertion_error) _ (λ s. refl)
        λ _.
          bind-KeepsOnError (check (length b == r.reg.elem_size) assertion_error) _ (λ s. refl)
            λ _.
              bind-KeepsOnError (lift (idx_elem_offset m r idx)) _ (λ s. refl)
                λ addr s e x. absurd (cc)

  idx_int :
      (signed : Bool) (idx : ℕ) (v : Value F)
      → KeepsOnError (write_idx_int_cached ops m r signed idx v)
  unfolding write_idx_int_cached
  idx_int signed idx v =
      bind-KeepsOnError (lift (check_raw ops r.reg v)) _ (λ s. refl)
        λ _.
          bind-KeepsOnError (lift (value_to_bytes v r.reg.elem_size signed)) _ (λ s. refl)
            (idx_bytes idx)

  idx_kind :
      (k : ValueKind) (idx : ℕ) (v : Value F) → KeepsOnError (write_idx_of_kind ops m r k idx v)
  unfolding write_idx_uint_cached write_idx_sint_cached
  idx_kind ValueKind.sint idx v = idx_int true idx v
  idx_kind ValueKind.uint idx v = idx_int false idx v
  idx_kind ValueKind.bits idx v = idx_int false idx v
  idx_kind ValueKind.flag idx v = idx_int false idx v
  idx_kind ValueKind.char idx v = λ s e x. refl

  idx_converted : (idx : ℕ) (v : Value F) → KeepsOnError (write_converted_idx_cached ops m r idx v)
  unfolding write_converted_idx_cached
  idx_converted idx v =
      bind-KeepsOnError (lift (check_value_limit r.reg v)) _ (λ s. refl)
        λ _.
          bind-KeepsOnError (lift (to_raw ops r.reg v)) _ (λ s. refl)
            λ raw.
              bind-KeepsOnError (lift (check_value_fits_reg ops r.reg raw)) _ (λ s. refl)
                λ _. idx_kind r.reg.value_type.kind idx raw

  list_int :
      (signed : Bool) (vs : List (Value F)) → KeepsOnError (write_list_int_cached ops m r signed vs)
  unfolding write_list_int_cached
  list_int signed vs =
      bind-KeepsOnError (lift (check_raw_list r ops vs)) _ (λ s. refl)
        λ _.
          bind-KeepsOnError (lift (list_int_to_bytes r vs signed)) _ (λ s. refl)
            (write_bytes_cached-KeepsOnError m r.reg)

  list_kind : (k : ValueKind) (vs : List (Value F)) → KeepsOnError (write_list_of_kind ops m r k vs)
  unfolding write_list_uint_cached write_list_sint_cached
  list_kind ValueKind.sint vs = list_int true vs
  list_kind ValueKind.uint vs = list_int false vs
  list_kind ValueKind.bits vs = list_int false vs
  list_kind ValueKind.flag vs = λ s e x. refl
  list_kind ValueKind.char vs = λ s e x. refl

  list_converted : (vs : List (Value F)) → KeepsOnError (Write.write_converted_cached ops m r vs)
  unfolding Write.write_converted_cached
  list_converted vs =
      bind-KeepsOnError (check (length vs == r.vec_len) assertion_error) _ (λ s. refl)
        λ _.
          bind-KeepsOnError (lift (to_raw_list r ops vs)) _ (λ s. refl)
            (list_kind r.reg.value_type.kind)

module _ {F S : Type 0} (ops : FloatOps F) (m : Module S) (r : Reg F) (f : RFlag) where
  flag_bool : (v : Bool) → KeepsOnError (write_bool_cached m r f v)
  unfolding write_bool_cached
  flag_bool v = bind-KeepsOnError (read_bytes_cached m r) _ (read_bytes_cached-Keeps m r) λ b.
      bind-KeepsOnError (lift (at b (f.bit / 8))) _ (λ s. refl)
        λ old.
          write_bytes_cached-KeepsOnError m r
            (splice b (f.bit / 8) (set_bit old (f.bit % 8) v ∷ []))

  read_uint_cached-Keeps : Keeps (read_uint_cached m r)
  unfolding read_uint_cached
  read_uint_cached-Keeps =
      bind-Keeps (read_bytes_cached m r) _ (read_bytes_cached-Keeps m r) (λ b s. refl)

  flag_list : (vs : List Bool) → KeepsOnError (write_list_bool_cached m r f ops vs)
  unfolding write_list_bool_cached
  flag_list vs =
      bind-KeepsOnError (lift (the_vec_len f.vec_len)) _ (λ s. refl)
        λ n.
          bind-KeepsOnError (check (length vs == n) assertion_error) _ (λ s. refl)
            λ _. bind-KeepsOnError (read_uint_cached m r) _ read_uint_cached-Keeps λ rd.
              write_uint_cached-KeepsOnError ops m r
                (int (pos (set_bits rd ((2 ^ n - 1) * 2 ^ f.bit) (or_bits 0 f.bit vs))))

-- A write of user values to the cache is done in full or not at all: where the write of a register,
-- of a vector, of an element, of a flag or of a vector of flags raises, for an address that is not
-- set, a value that fails its check or does not fit, a wrong count or a missing access, the whole
-- state is what it was before the call.
pub cached_writes-KeepOnError :
    {F S : Type 0} (ops : FloatOps F) (m : Module S) (r : Reg F) (vec : RegVec F) (f : RFlag)
    → ((v : Value F) → KeepsOnError (write_converted_cached ops m r v))
      × ((vs : List (Value F)) → KeepsOnError (Write.write_converted_cached ops m vec vs))
      × ((idx : ℕ) (v : Value F) → KeepsOnError (write_converted_idx_cached ops m vec idx v))
      × ((v : Bool) → KeepsOnError (write_bool_cached m r f v))
      × ((vs : List Bool) → KeepsOnError (write_list_bool_cached m r f ops vs))
cached_writes-KeepOnError ops m r vec f = (
  write_converted_cached-KeepsOnError ops m r,
  list_converted ops m vec,
  idx_converted ops m vec,
  flag_bool ops m r f,
  flag_list ops m r f,
)
