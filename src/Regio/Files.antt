-- ===== src/Regio/Files.antt =====
-- pip/regio/src/regio/regio.py: copying between a file and the device. A file is the list of the
-- bytes that are still to be read, or of those written; `f.read(n)` gives fewer than `n` only at
-- its end.
pub mod SameAsWrite
use hdlskel.Base.{ℕ, zero, suc, ◌+◌, ◌-◌, ltb, ◌==◌, if◌then◌else◌, not, Bool, true, false}
use hdlskel.Base.{Option, none, some, List, ◌++◌, length, take, drop}
use hdlskel.Base.Result.{Result, ok, err, assertion_error, stuck}
use hdlskel.Base.Exec.{Exec, ◌>>=◌, ◌>>◌, pure, raise, check}
use hdlskel.Regio.{Regio, write_chunk, read_chunk, first_chunk_size_to_align}

-- `size is None or done_size < size`
abbrev pub wants_more : Option ℕ → ℕ → Bool
wants_more none done_size = true
wants_more (some size) done_size = ltb done_size size

-- The chunk size, cut down to what is left.
abbrev pub limited : Option ℕ → ℕ → ℕ → ℕ
limited none done_size chunk_size = chunk_size
limited (some size) done_size chunk_size =
    if ltb (size - done_size) chunk_size then size - done_size else chunk_size

module _ {S : Type 0} where
  -- The loop of `write_from_read_file`: how much was written, and what is left of the file.
  unfoldable pub write_file_loop : ℕ → Regio S → ℕ → List ℕ → ℕ → ℕ → Option ℕ → Exec S (ℕ × List ℕ)
  write_file_loop zero r addr file done_size chunk_size size = raise stuck
  write_file_loop (suc fuel) r addr file done_size chunk_size size =
      let n = limited size done_size chunk_size in
      let chunk = take n file in
      let left = drop n file in
      let done = done_size + length chunk in
      let next = write_file_loop fuel r (addr + length chunk) left done r.mtu size in
      let go_on = if not (n == length chunk) then pure (done, left) else next in
      if not (wants_more size done_size)
      then pure (done_size, file)
      else if length chunk == 0
      then pure (done_size, left)
      else (do write_chunk r addr chunk; go_on)

  -- `if size is not None: assert done_size == size`
  abbrev pub check_done : Option ℕ → ℕ → Exec S (Unit {0})
  check_done none done_size = pure tt
  check_done (some size) done_size = check (done_size == size) assertion_error

  -- `write_from_read_file`: what is left of the file. Each round takes a byte at least.
  unfoldable pub write_from_read_file : Regio S → ℕ → List ℕ → Option ℕ → Exec S (List ℕ)
  unfolding write_file_loop
  write_from_read_file r addr file size = do
    res ← write_file_loop (suc (length file)) r addr file 0 (first_chunk_size_to_align r addr) size
    check_done size res.0
    pure res.1

  -- The loop of `read_to_write_file`.
  unfoldable pub read_file_loop : ℕ → Regio S → ℕ → List ℕ → ℕ → ℕ → ℕ → Exec S (List ℕ)
  read_file_loop zero r addr file size done_size chunk_size = raise stuck
  read_file_loop (suc fuel) r addr file size done_size chunk_size =
      let n = limited (some size) done_size chunk_size in
      let next = λ (chunk : List ℕ).
        read_file_loop fuel r (addr + n) (file ++ chunk) size (done_size + n) r.mtu in
      if ltb done_size size
      then (do chunk ← read_chunk r addr n; check (n == length chunk) assertion_error; next chunk)
      else pure file

  -- `read_to_write_file`: the file with what was written to it.
  unfoldable pub read_to_write_file : Regio S → ℕ → List ℕ → ℕ → Exec S (List ℕ)
  unfolding read_file_loop
  read_to_write_file r addr file size =
      read_file_loop (suc size) r addr file size 0 (first_chunk_size_to_align r addr)
