-- ===== src/Tcp/Single.antt =====
-- pip/regio/src/regio/tcp_server_single.py: one client at a time, over a blocking socket. The
-- socket is the list of the pieces that are still to arrive; then the peer has closed it. An
-- accepted connection starts anew, so `start` is a run of `handle_client` for each.
pub mod Stream
pub mod Equivalent
use hdlskel.Base.{
  Bool, true, false, ℕ, zero, suc, ◌-◌, ltb, leb, ◌==◌, if◌then◌else◌, not, List, [], ◌∷◌, ◌++◌,
  length, take, drop,
}
use hdlskel.Base.Result.{Result, ok, err, eof_error, stuck}
use hdlskel.Base.Exec.{Exec, ◌>>=◌, ◌>>◌, pure, raise, lift}
use hdlskel.Regio.{Regio, read, write}
use hdlskel.Tcp.{RqstHead, rqst_head_size, rqst_payload_size, unpack_rqst_head, pack_rply_head}
use hdlskel.Tcp.Server.{Link, on_dev, sendall}

-- `conn.recv(n)`: at most `n` bytes of the first piece.
abbrev pub recv : ℕ → List (List ℕ) → List ℕ × List (List ℕ)
recv n [] = ([], [])
recv n (piece ∷ pieces) =
    if leb (length piece) n then (piece, pieces) else (take n piece, drop n piece ∷ pieces)

abbrev is_empty : List ℕ → Bool
is_empty [] = true
is_empty (b ∷ bs) = false

-- The loop of `_recv_exact`.
unfoldable pub recv_loop : ℕ → ℕ → List ℕ → List (List ℕ) → Result (List ℕ) × List (List ℕ)
recv_loop zero n buf pieces = (err stuck, pieces)
recv_loop (suc fuel) n buf pieces =
    let got = recv (n - length buf) pieces in
    let next = recv_loop fuel n (buf ++ got.0) got.1 in
    if ltb (length buf) n
    then if is_empty got.0 then (err eof_error, got.1) else next
    else (ok buf, pieces)

-- Each round adds a byte at least.
unfoldable pub recv_exact : ℕ → List (List ℕ) → Result (List ℕ) × List (List ℕ)
unfolding recv_loop
recv_exact n pieces = recv_loop (suc n) n [] pieces

-- A read request: the bytes of the device, or the error flag and no bytes where the device gave
-- another number of them.
unfoldable pub answer_read : {S : Type 0} → Regio S → RqstHead → Exec (Link S) (Unit {0})
unfolding pack_rply_head
answer_read r head = do
  rd_data ← on_dev (read r head.addr head.size)
  let flag_error = not (length rd_data == head.size)
  rply_head_bytes ← lift (
      pack_rply_head
        (record { flag_error = if flag_error then 1 else 0; size = head.size; addr = head.addr }))
  sendall rply_head_bytes
  sendall (if flag_error then [] else rd_data)

module _ {S : Type 0} (r : Regio S) (rest : List (List ℕ) → Exec (Link S) (Unit {0})) where
  -- The payload of a write has been received, or not.
  unfoldable pub after_payload :
      RqstHead → Result (List ℕ) × List (List ℕ) → Exec (Link S) (Unit {0})
  after_payload head (err e, pieces) = pure tt
  after_payload head (ok wr_data, pieces) = do on_dev (write r head.addr wr_data); rest pieces

  unfoldable pub after_unpack : Result RqstHead → List (List ℕ) → Exec (Link S) (Unit {0})
  unfolding after_payload answer_read
  after_unpack (err e) pieces = pure tt
  after_unpack (ok head) pieces =
      if not (head.flag_we == 0)
      then after_payload head (recv_exact (rqst_payload_size head) pieces)
      else (do answer_read r head; rest pieces)

  unfoldable pub after_head : Result (List ℕ) × List (List ℕ) → Exec (Link S) (Unit {0})
  unfolding after_unpack
  after_head (err e, pieces) = pure tt
  after_head (ok rqst_head_bytes, pieces) = after_unpack (unpack_rqst_head rqst_head_bytes) pieces

-- All the bytes that are still to arrive.
abbrev pub joined : List (List ℕ) → List ℕ
joined [] = []
joined (piece ∷ pieces) = piece ++ joined pieces

module _ {S : Type 0} where
  -- The loop of `_handle_client`.
  unfoldable pub handle_loop : ℕ → Regio S → List (List ℕ) → Exec (Link S) (Unit {0})
  unfolding after_head recv_exact
  handle_loop zero r pieces = raise stuck
  handle_loop (suc fuel) r pieces =
      after_head r (handle_loop fuel r) (recv_exact rqst_head_size pieces)

  -- Each request takes a head at least.
  unfoldable pub handle_client : Regio S → List (List ℕ) → Exec (Link S) (Unit {0})
  unfolding handle_loop
  handle_client r pieces = handle_loop (suc (length (joined pieces))) r pieces
