-- ===== src/Tcp/Server.antt =====
-- pip/regio/src/regio/tcp_server_async_multi.py: the requests in one client's buffer, and what
-- is sent back. `Link` is the device behind the server and the bytes sent to the client; the
-- buffer of a client that was dropped is gone, so it is `none` then.
use hdlskel.Base.{ℕ, zero, suc, ◌+◌, ltb, ◌==◌, if◌then◌else◌, not}
use hdlskel.Base.{List, [], ◌++◌, length, take, drop, Option, none, some}
use hdlskel.Base.Result.{Result, ok, err, stuck}
use hdlskel.Base.Exec.{Exec, ◌>>=◌, ◌>>◌, pure, raise, lift}
use hdlskel.Regio.{Regio, write, read}
use hdlskel.Tcp.{RqstHead, rqst_head_size, rqst_payload_size}
use hdlskel.Tcp.{unpack_rqst_head, pack_rply_head}

pub record Link (S : Type 0) : Type 0 where
  pub dev : S
  pub sent : List ℕ

-- What the buffer begins with.
pub data Next : Type 0 where
  wait malformed : Next
  request : RqstHead → List ℕ → List ℕ → Next

-- A request with its payload, and what of the buffer is behind it.
unfoldable pub next_of : List ℕ → Result RqstHead → Next
next_of buf (err e) = malformed
next_of buf (ok head) =
    let total = rqst_head_size + rqst_payload_size head in
    if ltb (length buf) total
    then wait
    else request head (drop rqst_head_size (take total buf)) (drop total buf)

unfoldable pub next_request : List ℕ → Next
unfolding next_of
next_request buf =
    if ltb (length buf) rqst_head_size
    then wait
    else next_of buf (unpack_rqst_head (take rqst_head_size buf))

module _ {S : Type 0} where
  -- An operation of the device behind the server.
  abbrev pub on_dev : {A : Type 0} → Exec S A → Exec (Link S) A
  on_dev m l = let res = m l.dev in (res.0, record l { dev = res.1 })

  -- `sock.sendall(data)`
  abbrev pub sendall : List ℕ → Exec (Link S) (Unit {0})
  sendall bytes l = (ok tt, record l { sent = l.sent ++ bytes })

  -- The reply to a read: an error and no bytes where the device gave another number of them.
  unfoldable pub reply : RqstHead → List ℕ → Exec (Link S) (Unit {0})
  reply head rd_data =
      let flag_error = not (length rd_data == head.size) in
      let payload = if flag_error then [] else rd_data in
      do
        rply_head_bytes ← lift (
            pack_rply_head (record {
              flag_error = if flag_error then 1 else 0;
              size = head.size;
              addr = head.addr;
            }))
        sendall rply_head_bytes
        sendall payload

  -- One request: a write gets no reply.
  unfoldable pub serve_request : Regio S → RqstHead → List ℕ → Exec (Link S) (Unit {0})
  unfolding reply
  serve_request r head payload =
      if not (head.flag_we == 0)
      then on_dev (write r head.addr payload)
      else do rd_data ← on_dev (read r head.addr head.size); reply head rd_data

  -- What follows for each beginning of the buffer; `rest` goes on with what is behind the request.
  unfoldable pub serve_next :
      Regio S
      → (List ℕ → Exec (Link S) (Option (List ℕ)))
      → List ℕ
      → Next
      → Exec (Link S) (Option (List ℕ))
  unfolding serve_request
  serve_next r rest buf wait = pure (some buf)
  serve_next r rest buf malformed = pure none
  serve_next r rest buf (request head payload behind) = do serve_request r head payload; rest behind

  -- `_process_requests`: the buffer that is left, and none if the client is dropped.
  unfoldable pub process_loop : ℕ → Regio S → List ℕ → Exec (Link S) (Option (List ℕ))
  unfolding next_request serve_next
  process_loop zero r buf = raise stuck
  process_loop (suc fuel) r buf = serve_next r (process_loop fuel r) buf (next_request buf)

  -- Each request takes the bytes of a head at least.
  unfoldable pub process_requests : Regio S → List ℕ → Exec (Link S) (Option (List ℕ))
  unfolding process_loop
  process_requests r buf = process_loop (suc (length buf)) r buf

  -- An exception of the device drops the client, in the loop of `start`.
  abbrev pub drop_on_error : Result (Option (List ℕ)) × Link S → Option (List ℕ) × Link S
  drop_on_error (ok left, l) = (left, l)
  drop_on_error (err e, l) = (none, l)

  -- `_on_data` for bytes that arrive, and the round of `start` that follows. A client that was
  -- dropped is no longer found.
  unfoldable pub on_data : Regio S → List ℕ → Option (List ℕ) × Link S → Option (List ℕ) × Link S
  unfolding process_requests
  on_data r bytes (none, l) = (none, l)
  on_data r bytes (some buf, l) = drop_on_error (process_requests r (buf ++ bytes) l)
