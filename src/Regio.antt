-- ===== src/Regio.antt =====
-- pip/regio/src/regio/regio.py: the base class `Regio`. A device of any subclass is a record of its
-- two abstract methods over a state, which also holds what the callbacks change. Printing
-- (`log_regio`) is not modelled.
pub mod Chunks
pub mod Memory
pub mod ReadBack
pub mod Files
mod Tests
use hdlskel.Base.{
  ℕ, zero, suc, ◌+◌, ◌-◌, ◌%◌, min, ltb, ◌==◌, if◌then◌else◌, not, Bool, true, false,
}
use hdlskel.Base.{Option, none, some, List, [], ◌++◌, length, take, drop}
use hdlskel.Base.Result.{Result, ok, err, assertion_error, stuck, guard}
use hdlskel.Base.Exec.{Exec, ◌>>=◌, ◌>>◌, pure, raise, check}

-- `dev_write` and `dev_read`
pub record Device (S : Type 0) : Type 0 where
  pub dev_write : ℕ → List ℕ → Exec S (Unit {0})
  pub dev_read : ℕ → ℕ → Exec S (List ℕ)

-- `CallbackFunc`
abbrev pub CallbackFunc : Type 0 → Type 0
CallbackFunc S = ℕ → List ℕ → Exec S ℕ

-- The fields of a `Regio`.
pub record Regio (S : Type 0) : Type 0 where
  pub device : Device S
  pub error_on_write : Bool
  pub pre_write_callback_func : Option (CallbackFunc S)
  pub post_read_callback_func : Option (CallbackFunc S)
  pub mtu : ℕ

-- `REGIO_MTU_DEFAULT`
abbrev pub regio_mtu_default : ℕ
regio_mtu_default = 4096

module _ {S : Type 0} where
  -- `Regio.__init__`
  unfoldable pub init : Device S → Regio S
  init d = record {
    device = d;
    error_on_write = false;
    pre_write_callback_func = none;
    post_read_callback_func = none;
    mtu = regio_mtu_default;
  }

  -- The setter of `mtu`, and the four that set the callbacks.
  unfoldable pub set_mtu : ℕ → Regio S → Result (Regio S)
  set_mtu value r = if ltb 0 value then ok (record r { mtu = value }) else err assertion_error

  unfoldable pub add_pre_write_callback_func : CallbackFunc S → Regio S → Regio S
  add_pre_write_callback_func f r = record r { pre_write_callback_func = some f }

  unfoldable pub add_post_read_callback_func : CallbackFunc S → Regio S → Regio S
  add_post_read_callback_func f r = record r { post_read_callback_func = some f }

  unfoldable pub clear_pre_write_callback_func : Regio S → Regio S
  clear_pre_write_callback_func r = record r { pre_write_callback_func = none }

  unfoldable pub clear_post_read_callback_func : Regio S → Regio S
  clear_post_read_callback_func r = record r { post_read_callback_func = none }

  -- `if self._callback is not None: self._callback(addr, data)`
  unfoldable pub run_callback : Option (CallbackFunc S) → ℕ → List ℕ → Exec S (Unit {0})
  run_callback none addr bytes = pure tt
  run_callback (some f) addr bytes = do _ ← f addr bytes; pure tt

  -- `_write`
  unfoldable pub write_chunk : Regio S → ℕ → List ℕ → Exec S (Unit {0})
  unfolding run_callback
  write_chunk r addr bytes = do
    run_callback r.pre_write_callback_func addr bytes
    if r.error_on_write then pure tt else r.device.dev_write addr bytes

  -- `_read`
  unfoldable pub read_chunk : Regio S → ℕ → ℕ → Exec S (List ℕ)
  unfolding run_callback
  read_chunk r addr size = do
    bytes ← r.device.dev_read addr size
    check (length bytes == size) assertion_error
    run_callback r.post_read_callback_func addr bytes
    pure bytes

  -- `first_chunk_size_to_align`
  unfoldable pub first_chunk_size_to_align : Regio S → ℕ → ℕ
  first_chunk_size_to_align r addr =
      let mtu_addr_off = addr % r.mtu in if mtu_addr_off == 0 then r.mtu else r.mtu - mtu_addr_off

  -- The loop of `write`: `done_size` bytes of `bytes` are written.
  unfoldable pub write_loop : ℕ → Regio S → ℕ → List ℕ → ℕ → ℕ → Exec S (Unit {0})
  write_loop zero r addr bytes done_size chunk_size = raise stuck
  write_loop (suc fuel) r addr bytes done_size chunk_size =
      let size = min chunk_size (length bytes - done_size) in
      let next = write_loop fuel r addr bytes (done_size + size) r.mtu in
      let chunk = take size (drop done_size bytes) in
      if ltb done_size (length bytes)
      then (do write_chunk r (addr + done_size) chunk; next)
      else pure tt

  -- `write`: each round writes a byte at least, as `mtu` is above 0.
  unfoldable pub write : Regio S → ℕ → List ℕ → Exec S (Unit {0})
  unfolding write_loop
  write r addr bytes =
      write_loop (suc (length bytes)) r addr bytes 0 (first_chunk_size_to_align r addr)

  -- The loop of `read`.
  unfoldable pub read_loop : ℕ → Regio S → ℕ → ℕ → ℕ → ℕ → List ℕ → Exec S (List ℕ)
  read_loop zero r addr size done_size chunk_size collected = raise stuck
  read_loop (suc fuel) r addr size done_size chunk_size collected =
      let n = min chunk_size (size - done_size) in
      let next =
        λ (chunk : List ℕ). read_loop fuel r addr size (done_size + n) r.mtu (collected ++ chunk) in
      if ltb done_size size
      then (do chunk ← read_chunk r (addr + done_size) n; next chunk)
      else pure collected

  -- `read`
  unfoldable pub read : Regio S → ℕ → ℕ → Exec S (List ℕ)
  unfolding read_loop
  read r addr size = read_loop (suc size) r addr size 0 (first_chunk_size_to_align r addr) []
