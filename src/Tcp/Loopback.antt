-- ===== src/Tcp/Loopback.antt =====
-- A client (pip/regio/src/regio/tcp_client.py) that is connected to the server
-- (pip/regio/src/regio/tcp_server_async_multi.py): the transport between them, and one request.
use hdlskel.Base.{ℕ, ◌+◌, ◌≤◌, ◌<◌, ltb, if◌then◌else◌, ◌≡◌, refl, sym, ap, ◌∙◌}
use hdlskel.Base.{arith, List, [], ◌++◌, length, take, drop, Option, none, some, Bool, true, false}
use hdlskel.Base.{◌⊎◌, inl, inr, Bool-cases, length-append, drop-length-append}
use hdlskel.Base.{take-all, drop-all}
use hdlskel.Base.Int.{pos}
use hdlskel.Base.Result.{ok, err, eof_error}
use hdlskel.Regio.{Regio}
use hdlskel.Tcp.{RqstHead, rqst_head_size, rqst_payload_size, size_max, addr_max}
use hdlskel.Tcp.Heads.{IsWire, wire, rqst_fields, rply_fields, unpack_rqst_head-wire}
use hdlskel.Tcp.Server.{
  Link, request, next_of, next_request, serve_next, serve_request, process_loop, process_requests,
  on_data,
}
use hdlskel.Tcp.Client.{Transport, ClientState, check_size, check_addr, is_open, connect}

-- The server's side: the buffer of the client, the device and the bytes under way to the client.
abbrev pub Net : Type 0 → Type 0
Net S = Option (List ℕ) × Link S

-- Bytes arrive in the order they were sent; a stream that ends too early raises.
abbrev pub loopback : {S : Type 0} → Regio S → Transport (Net S)
loopback r = record {
  open_connection = λ st. (ok tt, (some [], record { dev = st.1.dev; sent = [] }));
  close_connection = λ st. (ok tt, (none, st.1));
  send = λ bytes st. (ok tt, on_data r bytes st);
  readexactly = λ n st.
      if ltb (length st.1.sent) n
      then (err eof_error, st)
      else (ok (take n st.1.sent), (st.0, record st.1 { sent = drop n st.1.sent }));
}

-- A connected client over a device in state `dev`, with nothing under way.
abbrev pub at_rest : {S : Type 0} → S → ClientState (Net S)
at_rest dev = record { writer = some false; net = (some [], record { dev = dev; sent = [] }) }

-- Not connected, or connected with nothing under way.
abbrev pub IsIdle : {S : Type 0} → ClientState (Net S) → Type 0
IsIdle s = (is_open s.writer ≡ false) ⊎ ((s.net.0 ≡ some []) × (s.net.1.sent ≡ []))

-- A connected client for which `sent` is under way.
abbrev pub under_way : {S : Type 0} → S → List ℕ → ClientState (Net S)
under_way dev sent = record {
  writer = some false;
  net = (some [], record { dev = dev; sent = sent });
}

-- What the server sends for a read that gave `bytes`.
abbrev pub answer : ℕ → List ℕ → List ℕ
answer a bytes =
    wire (rply_fields (record { flag_error = 0; size = length bytes; addr = a })) ++ bytes

next_of-whole :
    (head : RqstHead) (front payload : List ℕ)
    → length front ≡ rqst_head_size
    → length payload ≡ rqst_payload_size head
    → next_of (front ++ payload) (ok head) ≡ request head payload []
unfolding next_of
next_of-whole head front payload g h =
    let total = rqst_head_size + rqst_payload_size head in
    let size : length (front ++ payload) ≡ total = omega (arith, length-append front payload) in
    let long : ltb (length (front ++ payload)) total ≡ false = ground arith in
    let behind : drop rqst_head_size (front ++ payload) ≡ payload =
      ap (λ t. drop t (front ++ payload)) (sym g) ∙ drop-length-append front payload in
    rw
      (
        long,
        take-all total (front ++ payload) (omega arith),
        drop-all total (front ++ payload) (omega arith),
        behind,
      )
      refl

-- One whole request stands in the buffer.
next_request-wire :
    (head : RqstHead) (payload : List ℕ)
    → IsWire (rqst_fields head)
    → length payload ≡ rqst_payload_size head
    → next_request (wire (rqst_fields head) ++ payload) ≡ request head payload []
unfolding next_request
next_request-wire head payload w h =
    let front = wire (rqst_fields head) in
    let long : ltb (length (front ++ payload)) rqst_head_size ≡ false = ground arith in
    rw long (
      ap (next_of (front ++ payload)) (unpack_rqst_head-wire head w)
      ∙ next_of-whole head front payload refl h)

module _ {S : Type 0} (r : Regio S) where
  -- A whole request that arrives at an empty buffer is served, and the buffer is empty again.
  pub on_data-wire :
      (head : RqstHead) (payload : List ℕ) (l l' : Link S)
      → IsWire (rqst_fields head)
      → length payload ≡ rqst_payload_size head
      → serve_request r head payload l ≡ (ok tt, l')
      → on_data r (wire (rqst_fields head) ++ payload) (some [], l) ≡ (some [], l')
  unfolding on_data process_requests process_loop serve_next
  on_data-wire head payload l l' w h e = rw (next_request-wire head payload w h, e) refl

  open_writer : (w : Option Bool) → is_open w ≡ true → w ≡ some false
  open_writer none e = cc
  open_writer (some true) e = cc
  open_writer (some false) e = refl

  same_rest :
      (s : ClientState (Net S))
      → s.writer ≡ some false
      → s.net.0 ≡ some []
      → s.net.1.sent ≡ []
      → s ≡ at_rest s.net.1.dev
  same_rest s p q q' =
      λ i. record { writer = p i; net = (q i, record { dev = s.net.1.dev; sent = q' i }) }

  pub connect-rest :
      (s : ClientState (Net S)) → IsIdle s → connect (loopback r) s ≡ (ok tt, at_rest s.net.1.dev)
  unfolding connect
  connect-rest s idle = elim (Bool-cases (is_open s.writer)) [
    | inr e ↦ rw e refl
    | inl e ↦ elim idle [
      | inl shut ↦ cc
      | inr (q, q') ↦ rw e (ap (λ t. (ok tt, t)) (same_rest s (open_writer s.writer e) q q'))
    ]
  ]

  pub checks :
      (a size : ℕ)
      → 0 < size
      → size ≤ size_max
      → a ≤ addr_max
      → (check_addr (pos a) ≡ ok tt) × (check_size (pos size) ≡ ok tt)
  unfolding check_addr check_size
  checks a size n h k = (ground arith, ground arith)

  pub rqst-IsWire :
      (flag a size : ℕ)
      → flag ≤ 1
      → size ≤ size_max
      → a ≤ addr_max
      → IsWire (rqst_fields (record { flag_we = flag; size = size; addr = a }))
  rqst-IsWire flag a size f h k = record {
    sync_fits = omega arith;
    flag_fits = omega arith;
    size_fits = h;
    addr_fits = k;
  }
