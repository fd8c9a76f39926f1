-- ===== src/Reg/Refusals.antt =====
-- pip/skmap/src/skmap/reg.py: writes that are refused, for their value or for the register's access.
use hdlskel.Base.{ℕ, ◌==◌, ◌≡◌, refl, Bool, true, false, List}
use hdlskel.Base.{length}
use hdlskel.Base.Int.{pos}
use hdlskel.Base.Effects.{
  Keeps, KeepsOnError, Refuses, bind-Keeps, bind-KeepsOnError, bind-Refuses, first-Refuses,
}
use hdlskel.Base.Result.{Result, assertion_error}
use hdlskel.Base.Exec.{lift, check}
use hdlskel.Basic.{bool_to_int}
use hdlskel.Types.{ValueKind}
use hdlskel.Module.Access.{Module, ModuleState}
use hdlskel.Module.Access
use hdlskel.Reg.Values.{
  Value, int, FloatOps, Reg, may_write, check_raw, check_value_limit, check_value_fits_reg, to_raw,
  value_to_bytes, the_addr,
}
use hdlskel.Reg.{
  read_bytes_cached, write_bytes_cached, write_uint_cached, write_sint_cached, write_of_kind,
  write_converted_cached, write_cache, write_bytes, write_uint, write_sint, write_converted,
  write_bool, write_zero, write_bool_cached, write_zero_cached,
}

lift-Keeps : {S A : Type 0} (r : Result A) → Keeps (lift {S = S} r)
lift-Keeps r s = refl

module _ {F S : Type 0} (m : Module S) (r : Reg F) where
  pub read_bytes_cached-Keeps : Keeps (read_bytes_cached m r)
  unfolding read_bytes_cached Access.read_cached
  read_bytes_cached-Keeps = bind-Keeps (lift (the_addr r.addr)) _ (λ s. refl) (λ a s. refl)

  pub write_bytes_cached-KeepsOnError : (b : List ℕ) → KeepsOnError (write_bytes_cached m r b)
  unfolding write_bytes_cached Access.write_bytes_cached
  write_bytes_cached-KeepsOnError b =
      bind-KeepsOnError (lift (the_addr r.addr)) _ (λ s. refl)
        λ addr.
          bind-KeepsOnError (check (may_write r.acc b) assertion_error) _ (λ s. refl)
            λ _.
              bind-KeepsOnError (check (length b == r.size) assertion_error) _ (λ s. refl)
                λ _ s e x. absurd (cc)

  -- A register without write access takes no bytes.
  module _ (no_access : (b : List ℕ) → may_write r.acc b ≡ false) where
    check-Refuses :
        (b : List ℕ) → Refuses (check {S = ModuleState S} (may_write r.acc b) assertion_error)
    check-Refuses b s = rw (no_access b) (refl, refl)

    pub write_bytes_cached-Refuses : (b : List ℕ) → Refuses (write_bytes_cached m r b)
    unfolding write_bytes_cached
    write_bytes_cached-Refuses b =
        bind-Refuses (lift (the_addr r.addr)) _ (λ s. refl)
          λ addr. first-Refuses (check (may_write r.acc b) assertion_error) _ (check-Refuses b)

    pub write_cache-Refuses : Refuses (write_cache m r)
    unfolding write_cache
    write_cache-Refuses =
        bind-Refuses (lift (the_addr r.addr)) _ (λ s. refl)
          λ addr.
            bind-Refuses (read_bytes_cached m r) _ read_bytes_cached-Keeps
              λ b. first-Refuses (check (may_write r.acc b) assertion_error) _ (check-Refuses b)

module _ {F S : Type 0} (ops : FloatOps F) (m : Module S) (r : Reg F) where
  pub write_uint_cached-KeepsOnError : (v : Value F) → KeepsOnError (write_uint_cached ops m r v)
  unfolding write_uint_cached
  write_uint_cached-KeepsOnError v =
      bind-KeepsOnError (lift (check_raw ops r v)) _ (λ s. refl)
        λ _.
          bind-KeepsOnError (lift (value_to_bytes v r.size false)) _ (λ s. refl)
            (write_bytes_cached-KeepsOnError m r)

  pub write_sint_cached-KeepsOnError : (v : Value F) → KeepsOnError (write_sint_cached ops m r v)
  unfolding write_sint_cached
  write_sint_cached-KeepsOnError v =
      bind-KeepsOnError (lift (check_raw ops r v)) _ (λ s. refl)
        λ _.
          bind-KeepsOnError (lift (value_to_bytes v r.size true)) _ (λ s. refl)
            (write_bytes_cached-KeepsOnError m r)

  write_of_kind-KeepsOnError :
      (k : ValueKind) (v : Value F) → KeepsOnError (write_of_kind ops m r k v)
  write_of_kind-KeepsOnError ValueKind.sint v = write_sint_cached-KeepsOnError v
  write_of_kind-KeepsOnError ValueKind.uint v = write_uint_cached-KeepsOnError v
  write_of_kind-KeepsOnError ValueKind.bits v = write_uint_cached-KeepsOnError v
  write_of_kind-KeepsOnError ValueKind.flag v = write_uint_cached-KeepsOnError v
  write_of_kind-KeepsOnError ValueKind.char v = λ s e x. refl

  pub write_converted_cached-KeepsOnError :
      (v : Value F) → KeepsOnError (write_converted_cached ops m r v)
  unfolding write_converted_cached
  write_converted_cached-KeepsOnError v =
      bind-KeepsOnError (lift (check_value_limit r v)) _ (λ s. refl)
        λ _.
          bind-KeepsOnError (lift (to_raw ops r v)) _ (λ s. refl)
            λ raw.
              bind-KeepsOnError (lift (check_value_fits_reg ops r raw)) _ (λ s. refl)
                λ _. write_of_kind-KeepsOnError r.value_type.kind raw

  module _ (no_access : (b : List ℕ) → may_write r.acc b ≡ false) where
    refuse_bytes : (b : List ℕ) → Refuses (write_bytes_cached m r b)
    refuse_bytes = write_bytes_cached-Refuses m r no_access

    refuse_uint : (v : Value F) → Refuses (write_uint_cached ops m r v)
    unfolding write_uint_cached
    refuse_uint v =
        bind-Refuses (lift (check_raw ops r v)) _ (λ s. refl)
          λ _. bind-Refuses (lift (value_to_bytes v r.size false)) _ (λ s. refl) refuse_bytes

    refuse_sint : (v : Value F) → Refuses (write_sint_cached ops m r v)
    unfolding write_sint_cached
    refuse_sint v =
        bind-Refuses (lift (check_raw ops r v)) _ (λ s. refl)
          λ _. bind-Refuses (lift (value_to_bytes v r.size true)) _ (λ s. refl) refuse_bytes

    refuse_kind : (k : ValueKind) (v : Value F) → Refuses (write_of_kind ops m r k v)
    refuse_kind ValueKind.sint v = refuse_sint v
    refuse_kind ValueKind.uint v = refuse_uint v
    refuse_kind ValueKind.bits v = refuse_uint v
    refuse_kind ValueKind.flag v = refuse_uint v
    refuse_kind ValueKind.char v = λ s. (refl, refl)

    refuse_converted : (v : Value F) → Refuses (write_converted_cached ops m r v)
    unfolding write_converted_cached
    refuse_converted v =
        bind-Refuses (lift (check_value_limit r v)) _ (λ s. refl)
          λ _.
            bind-Refuses (lift (to_raw ops r v)) _ (λ s. refl)
              λ raw.
                bind-Refuses (lift (check_value_fits_reg ops r raw)) _ (λ s. refl)
                  λ _. refuse_kind r.value_type.kind raw

  -- A register whose access allows no write is never changed by one: `write_bytes`, `write_uint`,
  -- `write_sint`, `write_converted`, `write_bool`, `write_zero` and `write_cache` raise, whatever
  -- they are given, and leave the cache, the device and the caching mode as they were.
  pub no_access-Refuses :
      ((b : List ℕ) → may_write r.acc b ≡ false)
      → ((b : List ℕ) → Refuses (write_bytes m r b))
        × ((v : Value F) → Refuses (write_uint ops m r v))
        × ((v : Value F) → Refuses (write_sint ops m r v))
        × ((v : Value F) → Refuses (write_converted ops m r v))
        × ((v : Bool) → Refuses (write_bool ops m r v))
        × Refuses (write_zero ops m r)
        × Refuses (write_cache m r)
  unfolding write_bytes write_uint write_sint write_converted write_bool write_zero
      write_bool_cached write_zero_cached
  no_access-Refuses h = (
    λ b. first-Refuses (write_bytes_cached m r b) _ (refuse_bytes h b),
    λ v. first-Refuses (write_uint_cached ops m r v) _ (refuse_uint h v),
    λ v. first-Refuses (write_sint_cached ops m r v) _ (refuse_sint h v),
    λ v. first-Refuses (write_converted_cached ops m r v) _ (refuse_converted h v),
    λ v.
        first-Refuses (write_uint_cached ops m r (int (pos (bool_to_int v)))) _
          (refuse_uint h (int (pos (bool_to_int v)))),
    first-Refuses (write_uint_cached ops m r (int (pos 0))) _ (refuse_uint h (int (pos 0))),
    write_cache-Refuses m r h,
  )
