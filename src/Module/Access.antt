-- ===== src/Module/Access.antt =====
-- pip/skmap/src/skmap/module.py: how a module reaches its registers, through its cache and through
-- the `Regio` behind it.
use hdlskel.Base.{ℕ, ◌-◌, ◌/◌, ◌%◌, max, ◌==◌, if◌then◌else◌, not, Bool, List, length, take, drop}
use hdlskel.Base.Result.{ok, assertion_error}
use hdlskel.Base.Exec.{Exec, ◌>>=◌, ◌>>◌, pure, check, get_state}
use hdlskel.Basic.{ceil_multiple, promote_to_sw_w}
use hdlskel.Cache.{splice}
use hdlskel.Regio.{Regio, read, write}

-- The fields of a `Module` that are fixed once it is set up.
pub record Module (S : Type 0) : Type 0 where
  pub regio : Regio S
  pub base_addr : ℕ
  pub byte_align : ℕ
  pub base_addr_var : ℕ
  pub size_var : ℕ

-- The fields that change, and the state of the device behind `_regio`.
pub record ModuleState (S : Type 0) : Type 0 where
  pub dev : S
  pub cache : List ℕ
  pub use_cache : Bool

module _ {S : Type 0} (m : Module S) where
  -- No register stands below the base address of its module.
  unfoldable pub cache_addr : ℕ → ℕ
  cache_addr addr = addr - m.base_addr

  -- A slice of the cache, cut short at its end.
  unfoldable pub read_cached : ℕ → ℕ → Exec (ModuleState S) (List ℕ)
  unfolding cache_addr
  read_cached addr size s = (ok (take size (drop (cache_addr addr) s.cache)), s)

  unfoldable pub write_bytes_cached : ℕ → List ℕ → Exec (ModuleState S) (Unit {0})
  unfolding cache_addr
  write_bytes_cached addr b s = (ok tt, record s { cache = splice s.cache (cache_addr addr) b })

  -- `_byte_align_size`, as it is called: with an address.
  unfoldable pub byte_align_size : ℕ → ℕ → Exec (ModuleState S) ℕ
  byte_align_size size addr = do
    check (addr % m.byte_align == 0) assertion_error
    pure (ceil_multiple size m.byte_align)

  -- `_byte_aligment_from_val_width`
  unfoldable pub byte_aligment_from_val_width : ℕ → ℕ
  unfolding promote_to_sw_w
  byte_aligment_from_val_width width = max m.byte_align (promote_to_sw_w width / 8)

  -- A call of `self._regio`.
  abbrev pub on_regio : {A : Type 0} → Exec S A → Exec (ModuleState S) A
  on_regio call s = let res = call s.dev in (res.0, record s { dev = res.1 })

  unfoldable pub fetch : ℕ → ℕ → Exec (ModuleState S) (List ℕ)
  unfolding byte_align_size write_bytes_cached
  fetch addr size = do
    op_size ← byte_align_size size addr
    b ← on_regio (read m.regio addr op_size)
    write_bytes_cached addr b
    pure (take size b)

  unfoldable pub read_bytes : ℕ → ℕ → Exec (ModuleState S) (List ℕ)
  unfolding fetch read_cached
  read_bytes addr size = do
    s ← get_state
    if s.use_cache then read_cached addr size else fetch addr size

  unfoldable pub store : ℕ → ℕ → Exec (ModuleState S) (Unit {0})
  unfolding byte_align_size read_cached
  store addr size = do
    op_size ← byte_align_size size addr
    b ← read_cached addr op_size
    on_regio (write m.regio addr b)

  -- The cache is written first, so it keeps the bytes if the device then refuses them.
  unfoldable pub write_bytes : ℕ → List ℕ → Exec (ModuleState S) (Unit {0})
  unfolding store write_bytes_cached
  write_bytes addr b = do
    write_bytes_cached addr b
    s ← get_state
    if s.use_cache then pure tt else store addr (length b)

  -- The module's own part of `read_all`.
  unfoldable pub read_var : Exec (ModuleState S) (Unit {0})
  unfolding read_bytes
  read_var = do
    s ← get_state
    check (not s.use_cache) assertion_error
    b ← read_bytes m.base_addr_var m.size_var
    pure tt

  unfoldable pub write_cache : Exec (ModuleState S) (Unit {0})
  unfolding write_bytes read_cached
  write_cache = do
    s ← get_state
    check (not s.use_cache) assertion_error
    b ← read_cached m.base_addr_var m.size_var
    write_bytes m.base_addr_var b

-- The setter of `use_cache`.
unfoldable pub set_use_cache : {S : Type 0} → Bool → Exec (ModuleState S) (Unit {0})
set_use_cache value s = (ok tt, record s { use_cache = value })
