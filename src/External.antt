-- ===== src/External.antt =====
-- pip/skmap/src/skmap/external_mem.py: memories outside of a module's registers, over the device
-- of the `Regio` that holds them. Names and descriptions are text and are left out.
pub mod Shift
pub mod Coherence
pub mod Through
pub mod Vector
mod Tests
use hdlskel.Base.{
  ℕ, ◌+◌, ◌*◌, leb, ◌==◌, ◌&&◌, if◌then◌else◌, Bool, true, false, List, length, take, drop,
}
use hdlskel.Base.Bytes.{from_le}
use hdlskel.Base.Int.{ℤ, pos}
use hdlskel.Base.Result.{Result, ok, err, assertion_error, guard}
use hdlskel.Base.Exec.{Exec, ◌>>=◌, ◌>>◌, pure, raise, lift, check}
use hdlskel.Basic.{Endian, to_bytes, cast_uint_to_sint}
use hdlskel.Cache.{splice}
use hdlskel.Regio.{Device, Regio, init, write, read}
use hdlskel.Types.{Acc, ValueType, ValueKind, elem_size}

-- The fields of an `ExternalMem`; the device is that of `_regio`.
pub record ExternalMem (S : Type 0) : Type 0 where
  pub regio : Device S
  pub base_addr : ℕ
  pub size : ℕ
  pub acc : Acc
  pub value_type : ValueType

-- What changes in an `ExternalMemCached`.
pub record Cached (S : Type 0) : Type 0 where
  pub dev : S
  pub cache : List ℕ
  pub cache_loaded : Bool

module _ {S : Type 0} (m : ExternalMem S) where
  unfoldable pub regio_addr : ℕ → ℕ
  regio_addr addr = addr + m.base_addr

  unfoldable pub check_size : ℕ → ℕ → Result (Unit {0})
  check_size addr size = guard (leb (addr + size) m.size) assertion_error

  -- `ExternalMem.dev_write` and `ExternalMem.dev_read`
  unfoldable pub dev_write : ℕ → List ℕ → Exec S (Unit {0})
  unfolding regio_addr check_size
  dev_write addr bytes = do
    lift (check_size addr (length bytes))
    m.regio.dev_write (regio_addr addr) bytes

  unfoldable pub dev_read : ℕ → ℕ → Exec S (List ℕ)
  unfolding regio_addr check_size
  dev_read addr size = do lift (check_size addr size); m.regio.dev_read (regio_addr addr) size

  abbrev pub external_device : Device S
  external_device = record { dev_write = dev_write; dev_read = dev_read }

  -- A call of the base class.
  abbrev pub on_base : {A : Type 0} → Exec S A → Exec (Cached S) A
  on_base call s = let res = call s.dev in (res.0, record s { dev = res.1 })

  abbrev stored : ℕ → List ℕ → Cached S → Cached S
  stored addr bytes s = record s {
    cache = splice s.cache addr bytes;
    cache_loaded = if addr == 0 && length bytes == m.size then true else s.cache_loaded;
  }

  unfoldable pub write_cached : ℕ → List ℕ → Exec (Cached S) (Unit {0})
  unfolding check_size
  write_cached addr bytes = do
    lift (check_size addr (length bytes))
    λ s. (ok tt, stored addr bytes s)

  unfoldable pub read_cached : ℕ → ℕ → Exec (Cached S) (List ℕ)
  unfolding check_size
  read_cached addr size = do
    lift (check_size addr size)
    λ s. (ok (take size (drop addr s.cache)), s)

  -- `ExternalMemCached.dev_write` and `ExternalMemCached.dev_read`
  unfoldable pub cached_dev_write : ℕ → List ℕ → Exec (Cached S) (Unit {0})
  unfolding dev_write write_cached
  cached_dev_write addr bytes = do on_base (dev_write addr bytes); write_cached addr bytes

  unfoldable pub cached_dev_read : ℕ → ℕ → Exec (Cached S) (List ℕ)
  unfolding dev_read write_cached
  cached_dev_read addr size = do
    bytes ← on_base (dev_read addr size)
    write_cached addr bytes
    pure bytes

  abbrev pub cached_device : Device (Cached S)
  cached_device = record { dev_write = cached_dev_write; dev_read = cached_dev_read }

  -- `ExternalMemVec`, on elements of `elem_size` bytes.
  unfoldable pub read_idx_bytes_cached : ℕ → Exec (Cached S) (List ℕ)
  unfolding read_cached
  read_idx_bytes_cached idx = read_cached (elem_size m.value_type * idx) (elem_size m.value_type)

  unfoldable pub read_idx_uint_cached : ℕ → Exec (Cached S) ℕ
  unfolding read_idx_bytes_cached
  read_idx_uint_cached idx = do b ← read_idx_bytes_cached idx; pure (from_le b)

  unfoldable pub read_idx_sint_cached : ℕ → Exec (Cached S) ℤ
  unfolding read_idx_uint_cached
  read_idx_sint_cached idx = do
    value_int ← read_idx_uint_cached idx
    lift (cast_uint_to_sint value_int m.value_type.width)

  unfoldable pub read_idx_value_cached : ℕ → Exec (Cached S) ℤ
  unfolding read_idx_uint_cached read_idx_sint_cached
  read_idx_value_cached idx = of_kind m.value_type.kind
    where
      of_kind : ValueKind → Exec (Cached S) ℤ
      of_kind ValueKind.uint = do v ← read_idx_uint_cached idx; pure (pos v)
      of_kind ValueKind.sint = read_idx_sint_cached idx
      of_kind ValueKind.bits = do v ← read_idx_uint_cached idx; pure (pos v)
      of_kind ValueKind.flag = raise assertion_error
      of_kind ValueKind.char = raise assertion_error

  unfoldable pub write_idx_bytes_cached : ℕ → List ℕ → Exec (Cached S) (Unit {0})
  unfolding write_cached
  write_idx_bytes_cached idx b = do
    check (length b == elem_size m.value_type) assertion_error
    write_cached (elem_size m.value_type * idx) b

  unfoldable pub write_idx_uint_cached : ℕ → ℤ → Exec (Cached S) (Unit {0})
  unfolding write_idx_bytes_cached
  write_idx_uint_cached idx val = do
    b ← lift (to_bytes val (elem_size m.value_type) Endian.little false)
    write_idx_bytes_cached idx b

  unfoldable pub write_idx_sint_cached : ℕ → ℤ → Exec (Cached S) (Unit {0})
  unfolding write_idx_bytes_cached
  write_idx_sint_cached idx val = do
    b ← lift (to_bytes val (elem_size m.value_type) Endian.little true)
    write_idx_bytes_cached idx b

  -- The methods that reach the device: `r` is the memory itself, as a `Regio`.
  module _ (r : Regio (Cached S)) where
    unfoldable pub read_idx_bytes : ℕ → Exec (Cached S) (List ℕ)
    read_idx_bytes idx = read r (elem_size m.value_type * idx) (elem_size m.value_type)

    unfoldable pub read_idx_uint : ℕ → Exec (Cached S) ℕ
    unfolding read_idx_bytes read_idx_uint_cached
    read_idx_uint idx = do b ← read_idx_bytes idx; read_idx_uint_cached idx

    unfoldable pub read_idx_sint : ℕ → Exec (Cached S) ℤ
    unfolding read_idx_bytes read_idx_sint_cached
    read_idx_sint idx = do b ← read_idx_bytes idx; read_idx_sint_cached idx

    unfoldable pub write_idx_cache : ℕ → Exec (Cached S) (Unit {0})
    unfolding read_idx_bytes_cached
    write_idx_cache idx = do b ← read_idx_bytes_cached idx; write r (elem_size m.value_type * idx) b

    unfoldable pub write_idx_bytes : ℕ → List ℕ → Exec (Cached S) (Unit {0})
    unfolding write_idx_bytes_cached write_idx_cache
    write_idx_bytes idx b = do write_idx_bytes_cached idx b; write_idx_cache idx

    unfoldable pub write_idx_uint : ℕ → ℤ → Exec (Cached S) (Unit {0})
    unfolding write_idx_uint_cached write_idx_cache
    write_idx_uint idx val = do write_idx_uint_cached idx val; write_idx_cache idx

    unfoldable pub write_idx_sint : ℕ → ℤ → Exec (Cached S) (Unit {0})
    unfolding write_idx_sint_cached write_idx_cache
    write_idx_sint idx val = do write_idx_sint_cached idx val; write_idx_cache idx
