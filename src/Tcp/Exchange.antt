-- ===== src/Tcp/Exchange.antt =====
-- One `dev_write` and one `dev_read` of the client (pip/regio/src/regio/tcp_client.py), with what
-- the server (pip/regio/src/regio/tcp_server_async_multi.py) does for them.
use hdlskel.Base.{ℕ, ◌≤◌, ◌<◌, ltb, ◌==◌, ◌≡◌, refl, sym, ap, ◌∙◌}
use hdlskel.Base.{arith, List, [], ◌++◌, length, take, drop, some, true, false}
use hdlskel.Base.{length-append, ==_refl, take-length-append, drop-length-append}
use hdlskel.Base.Result.{ok}
use hdlskel.Base.Exec.{continue}
use mathlib.Core.List.{append-nil}
use hdlskel.Regio.{Regio, write, read}
use hdlskel.Tcp.{RqstHead, RplyHead, rqst_head_size, size_max, addr_max}
use hdlskel.Tcp.{pack_rply_head, pack_rqst_head}
use hdlskel.Tcp.Heads.{
  IsWire, wire, rqst_fields, rply_fields, unpack_rply_head-wire, struct_pack-wire,
}
use hdlskel.Tcp.Server.{serve_request, reply}
use hdlskel.Tcp.Client.{
  ClientState, on_net, read_payload, send_request, read_reply, dev_write, dev_read,
}
use hdlskel.Tcp.Loopback.{
  Net, loopback, at_rest, IsIdle, under_way, answer, on_data-wire, connect-rest, checks,
  rqst-IsWire,
}

module _ {S : Type 0} (r : Regio S) where
  serve_write :
      (a : ℕ) (bytes : List ℕ) (dev dev' : S) (sent : List ℕ)
      → write r a bytes dev ≡ (ok tt, dev')
      → serve_request r
          (record { flag_we = 1; size = length bytes; addr = a })
          bytes
          (record { dev = dev; sent = sent })
        ≡ (ok tt, record { dev = dev'; sent = sent })
  unfolding serve_request
  serve_write a bytes dev dev' sent e = rw e refl

  pub dev_write-rest :
      (s : ClientState (Net S)) (a : ℕ) (bytes : List ℕ) (dev : S)
      → IsIdle s
      → 0 < length bytes
      → length bytes ≤ size_max
      → a ≤ addr_max
      → write r a bytes s.net.1.dev ≡ (ok tt, dev)
      → dev_write (loopback r) a bytes s ≡ (ok tt, at_rest dev)
  unfolding dev_write send_request pack_rqst_head
  dev_write-rest s a bytes dev idle n h k e =
      let head : RqstHead = record { flag_we = 1; size = length bytes; addr = a } in
      let w = rqst-IsWire r 1 a (length bytes) (omega arith) h k in
      let (c1, c2) = checks r a (length bytes) n h k in
      rw (c1, c2, struct_pack-wire (rqst_fields head) w, connect-rest r s idle)
        (ap (λ (t : Net S). (ok tt, record { writer = some false; net = t }))
          (on_data-wire r head bytes (record { dev = s.net.1.dev; sent = [] })
            (record { dev = dev; sent = [] }) w (omega arith)
            (serve_write a bytes s.net.1.dev dev [] e)))

  serve_read :
      (a : ℕ) (bytes : List ℕ) (dev dev' : S)
      → length bytes ≤ size_max
      → a ≤ addr_max
      → read r a (length bytes) dev ≡ (ok bytes, dev')
      → serve_request r
          (record { flag_we = 0; size = length bytes; addr = a })
          []
          (record { dev = dev; sent = [] })
        ≡ (ok tt, record { dev = dev'; sent = answer a bytes })
  unfolding serve_request reply pack_rply_head
  serve_read a bytes dev dev' h k e =
      let head : RplyHead = record { flag_error = 0; size = length bytes; addr = a } in
      let w : IsWire (rply_fields head) = record {
        sync_fits = omega arith;
        flag_fits = omega arith;
        size_fits = h;
        addr_fits = k;
      } in
      rw (e, ==_refl (length bytes), struct_pack-wire (rply_fields head) w) refl

  take_front :
      (front back : List ℕ) (n : ℕ) (dev : S)
      → length front ≡ n
      → on_net (loopback r) ((loopback r).readexactly n) (under_way dev (front ++ back))
        ≡ (ok front, under_way dev back)
  take_front front back n dev e =
      let enough : ltb (length (front ++ back)) n ≡ false =
        ground (arith, length-append front back) in
      let t : take n (front ++ back) ≡ front =
        ap (λ m. take m (front ++ back)) (sym e) ∙ take-length-append front back in
      let d : drop n (front ++ back) ≡ back =
        ap (λ m. drop m (front ++ back)) (sym e) ∙ drop-length-append front back in
      rw (enough, t, d) refl

  read_payload-rest :
      (a : ℕ) (bytes : List ℕ) (dev : S) (size : ℕ)
      → length bytes ≡ size
      → size ≤ size_max
      → a ≤ addr_max
      → 0 < size
      → read_payload
          (loopback r)
          size
          (wire (rply_fields (record { flag_error = 0; size = length bytes; addr = a })))
          (under_way dev bytes)
        ≡ (ok bytes, at_rest dev)
  unfolding read_payload
  read_payload-rest a bytes dev size q h k n =
      let head : RplyHead = record { flag_error = 0; size = length bytes; addr = a } in
      let w : IsWire (rply_fields head) = record {
        sync_fits = omega arith;
        flag_fits = omega arith;
        size_fits = omega arith;
        addr_fits = k;
      } in
      let same : (length bytes == size) ≡ true = ground arith in
      let some_bytes : ltb 0 (length bytes) ≡ true = ground arith in
      let all =
        ap (on_net (loopback r) ((loopback r).readexactly (length bytes)))
          (ap (λ t. under_way dev t) (sym (append-nil bytes)))
        ∙ take_front bytes [] (length bytes) dev refl in
      rw (unpack_rply_head-wire head w, same, some_bytes) all

  -- The client takes the answer off the stream, whole.
  read_reply-answer :
      (a : ℕ) (bytes : List ℕ) (dev : S) (size : ℕ)
      → length bytes ≡ size
      → size ≤ size_max
      → a ≤ addr_max
      → 0 < size
      → read_reply (loopback r) size (under_way dev (answer a bytes)) ≡ (ok bytes, at_rest dev)
  unfolding read_reply
  read_reply-answer a bytes dev size q h k n =
      let front = wire (rply_fields (record { flag_error = 0; size = length bytes; addr = a })) in
      ap (λ res. continue res.0 (read_payload (loopback r) size) res.1)
        (take_front front bytes rqst_head_size dev refl)
      ∙ read_payload-rest a bytes dev size q h k n

  send_request-read :
      (s : ClientState (Net S)) (a : ℕ) (bytes : List ℕ) (dev : S)
      → IsIdle s
      → length bytes ≤ size_max
      → a ≤ addr_max
      → read r a (length bytes) s.net.1.dev ≡ (ok bytes, dev)
      → send_request
          (loopback r)
          (wire (rqst_fields (record { flag_we = 0; size = length bytes; addr = a })))
          s
        ≡ (ok tt, under_way dev (answer a bytes))
  unfolding send_request
  send_request-read s a bytes dev idle h k e =
      let head : RqstHead = record { flag_we = 0; size = length bytes; addr = a } in
      rw (connect-rest r s idle) (
        ap (λ (t : Net S). (ok tt, record { writer = some false; net = t }))
          (on_data-wire r head [] (record { dev = s.net.1.dev; sent = [] })
            (record { dev = dev; sent = answer a bytes })
            (rqst-IsWire r 0 a (length bytes) (omega arith) h k) (omega arith)
            (serve_read a bytes s.net.1.dev dev h k e)))

  pub dev_read-rest :
      (s : ClientState (Net S)) (a : ℕ) (bytes : List ℕ) (dev : S)
      → IsIdle s
      → 0 < length bytes
      → length bytes ≤ size_max
      → a ≤ addr_max
      → read r a (length bytes) s.net.1.dev ≡ (ok bytes, dev)
      → dev_read (loopback r) a (length bytes) s ≡ (ok bytes, at_rest dev)
  unfolding dev_read pack_rqst_head
  dev_read-rest s a bytes dev idle n h k e =
      let head : RqstHead = record { flag_we = 0; size = length bytes; addr = a } in
      let w = rqst-IsWire r 0 a (length bytes) (omega arith) h k in
      let (c1, c2) = checks r a (length bytes) n h k in
      rw (c1, c2, struct_pack-wire (rqst_fields head) w)
        (ap (λ res. continue res.0 (λ _. read_reply (loopback r) (length bytes)) res.1)
            (send_request-read s a bytes dev idle h k e)
          ∙ read_reply-answer a bytes dev (length bytes) refl h k n)
