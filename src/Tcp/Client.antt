-- ===== src/Tcp/Client.antt =====
-- pip/regio/src/regio/tcp_client.py: the client's device methods over a connection. The streams
-- of the connection, with the peer behind them, are a parameter. A timeout is an exception of
-- `open_connection` or `readexactly`; no call runs beside another, as the lock is held.
use hdlskel.Base.{
  ℕ, ltb, ◌==◌, if◌then◌else◌, not, ◌||◌, Bool, false, Option, none, some, List, [], ◌++◌, length,
}
use hdlskel.Base.Int.{ℤ, pos, ltb_ℤ, leb_ℤ}
use hdlskel.Base.Result.{Result, ok, value_error, io_error, guard}
use hdlskel.Base.Exec.{Exec, ◌>>=◌, ◌>>◌, pure, lift, check, get_state}
use hdlskel.Regio.{Device}
use hdlskel.Tcp.{rqst_head_size, rply_payload_size, size_max, addr_max}
use hdlskel.Tcp.{pack_rqst_head, unpack_rply_head}

-- `asyncio.open_connection` and the two streams that it gives.
pub record Transport (N : Type 0) : Type 0 where
  pub open_connection : Exec N (Unit {0})
  pub close_connection : Exec N (Unit {0})
  pub send : List ℕ → Exec N (Unit {0})
  pub readexactly : ℕ → Exec N (List ℕ)

-- `writer` is none, or whether the writer is closing.
pub record ClientState (N : Type 0) : Type 0 where
  pub writer : Option Bool
  pub net : N

unfoldable pub check_size : ℤ → Result (Unit {0})
check_size size = guard (not (ltb_ℤ (pos size_max) size || leb_ℤ size (pos 0))) value_error

unfoldable pub check_addr : ℤ → Result (Unit {0})
check_addr addr = guard (not (ltb_ℤ (pos addr_max) addr || ltb_ℤ addr (pos 0))) value_error

-- `self._writer is not None and not self._writer.is_closing()`
abbrev pub is_open : Option Bool → Bool
is_open none = false
is_open (some closing) = not closing

module _ {N : Type 0} (t : Transport N) where
  -- A call on the connection.
  abbrev pub on_net : {A : Type 0} → Exec N A → Exec (ClientState N) A
  on_net m s = let res = m s.net in (res.0, record s { net = res.1 })

  abbrev set_writer : Option Bool → Exec (ClientState N) (Unit {0})
  set_writer w s = (ok tt, record s { writer = w })

  unfoldable pub connect : Exec (ClientState N) (Unit {0})
  connect = do
    s ← get_state
    if is_open s.writer then pure tt else (do on_net t.open_connection; set_writer (some false))

  -- The streams are forgotten also when closing them raises.
  unfoldable pub close : Exec (ClientState N) (Unit {0})
  close s = close_writer s.writer
    where
      close_writer : Option Bool → Result (Unit {0}) × ClientState N
      close_writer none = (ok tt, s)
      close_writer (some closing) =
          let res = t.close_connection s.net in (res.0, record { writer = none; net = res.1 })

  -- The request and what follows it, on a connection that is opened first where there is none.
  unfoldable pub send_request : List ℕ → Exec (ClientState N) (Unit {0})
  unfolding connect
  send_request bytes = do connect; on_net (t.send bytes)

  unfoldable pub dev_write : ℕ → List ℕ → Exec (ClientState N) (Unit {0})
  unfolding check_addr check_size send_request
  dev_write addr bytes = do
    lift (check_addr (pos addr))
    lift (check_size (pos (length bytes)))
    rqst_head_bytes ←
        lift (pack_rqst_head (record { flag_we = 1; size = length bytes; addr = addr }))
    send_request (rqst_head_bytes ++ bytes)

  -- The reply to a read of `size` bytes: what follows its head.
  unfoldable pub read_payload : ℕ → List ℕ → Exec (ClientState N) (List ℕ)
  read_payload size rply_head_bytes = do
    rply_head ← lift (unpack_rply_head rply_head_bytes)
    check (rply_head.flag_error == 0) io_error
    check (rply_head.size == size) io_error
    if ltb 0 (rply_payload_size rply_head)
        then on_net (t.readexactly (rply_payload_size rply_head))
        else pure []

  unfoldable pub read_reply : ℕ → Exec (ClientState N) (List ℕ)
  unfolding read_payload
  read_reply size = on_net (t.readexactly rqst_head_size) >>= read_payload size

  unfoldable pub dev_read : ℕ → ℕ → Exec (ClientState N) (List ℕ)
  unfolding check_addr check_size send_request read_reply
  dev_read addr size = do
    lift (check_addr (pos addr))
    lift (check_size (pos size))
    rqst_head_bytes ← lift (pack_rqst_head (record { flag_we = 0; size = size; addr = addr }))
    send_request rqst_head_bytes
    read_reply size

  abbrev pub client_device : Device (ClientState N)
  client_device = record { dev_write = dev_write; dev_read = dev_read }
