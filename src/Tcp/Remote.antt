-- ===== src/Tcp/Remote.antt =====
-- pip/regio/src/regio/tcp_client.py: a client that is connected to the server, as a byte memory.
use hdlskel.Base.{ℕ, ◌+◌, ◌≤◌, ◌<◌, min, ◌≡◌, ◌≢◌, refl, sym, ap, ◌∙◌}
use hdlskel.Base.{arith, List, length, get_elem?, Option, none, false}
use hdlskel.Base.{inr}
use hdlskel.Base.Cells.{byte_at, or_else}
use hdlskel.Base.Result.{ok}
use hdlskel.Regio.{Regio, write, read}
use hdlskel.Regio.Memory.{Memory, IsPlain, write-Written}
use hdlskel.Regio.ReadBack.{read-ReadsBack}
use hdlskel.Tcp.{size_max, addr_max}
use hdlskel.Tcp.Server.{}
use hdlskel.Tcp.Client.{ClientState, dev_write, dev_read, client_device}
use hdlskel.Tcp.Loopback.{Net, loopback, at_rest, IsIdle}
use hdlskel.Tcp.Exchange.{dev_write-rest, dev_read-rest}
use hdlskel.Regio.ReadBack.{read-write}

module _ {S : Type 0} (r : Regio S) (mem : Memory r.device) (plain : IsPlain r mem) where
  -- The client is idle, and the device behind the server is valid.
  abbrev pub IsServed : ClientState (Net S) → Type 0
  IsServed s = mem.IsValid s.net.1.dev × IsIdle s

  abbrev pub far_cell : ClientState (Net S) → ℕ → Option ℕ
  far_cell s = mem.cell s.net.1.dev

  abbrev pub far_limit : ℕ
  far_limit = min mem.limit (addr_max + 1)

  pub write_law :
      (s : ClientState (Net S)) (a : ℕ) (bytes : List ℕ)
      → IsServed s
      → 0 < length bytes
      → length bytes ≤ size_max
      → a + length bytes ≤ far_limit
      → (s' : ClientState (Net S)) × (dev_write (loopback r) a bytes s ≡ (ok tt, s'))
        × IsServed s'
        × ((x : ℕ) → far_cell s' x ≡ or_else (byte_at a bytes x) (far_cell s x))
  write_law s a bytes (v, idle) n h k =
      let (dev, e, (v', w)) = write-Written r mem plain s.net.1.dev a bytes v (omega arith) in
      (
        at_rest dev,
        dev_write-rest r s a bytes dev idle n h (omega arith) e,
        (v', inr (refl, refl)),
        w,
      )

  pub read_law :
      (s : ClientState (Net S)) (a size : ℕ)
      → IsServed s
      → 0 < size
      → size ≤ size_max
      → a + size ≤ far_limit
      → ((j : ℕ) → j < size → far_cell s (a + j) ≢ none)
      → (bytes : List ℕ) × (s' : ClientState (Net S)) × (dev_read (loopback r) a size s
          ≡ (ok bytes, s'))
        × IsServed s'
        × ((x : ℕ) → far_cell s' x ≡ far_cell s x)
        × (length bytes ≡ size)
        × ((j : ℕ) → j < size → get_elem? bytes j ≡ far_cell s (a + j))
  read_law s a size (v, idle) n h k c =
      let (bytes, dev, e, (v', same, len, get)) =
        read-ReadsBack r mem plain s.net.1.dev a size v (omega arith) c in
      (
        bytes,
        at_rest dev,
        ap (λ t. dev_read (loopback r) a t s) (sym len)
            ∙ dev_read-rest r s a bytes dev idle (omega arith) (omega arith) (omega arith)
                (ap (λ t. read r a t s.net.1.dev) len ∙ e),
        (v', inr (refl, refl)),
        same,
        len,
        get,
      )

  -- The client keeps the contract of a byte memory: its `dev_write` sets exactly the bytes that
  -- it is given in the device behind the server, and its `dev_read` gives what stands there.
  unfoldable pub client_memory : Memory (client_device (loopback r))
  client_memory = record {
    IsValid = IsServed;
    cell = far_cell;
    limit = far_limit;
    max_size = size_max;
    write_law = write_law;
    read_law = read_law;
  }

  -- A `Regio` that is such a client, with MTU `m`.
  abbrev pub remote : ℕ → Regio (ClientState (Net S))
  remote m = record {
    device = client_device (loopback r);
    error_on_write = false;
    pre_write_callback_func = none;
    post_read_callback_func = none;
    mtu = m;
  }

  remote-IsPlain : (m : ℕ) → 0 < m → m ≤ size_max → IsPlain (remote m) client_memory
  unfolding client_memory
  remote-IsPlain m n h = record {
    mtu_pos = n;
    mtu_fits = h;
    writes = refl;
    no_pre_write = refl;
    no_post_read = refl;
  }

  -- Data of any size that a client writes stands in the device behind the server afterwards, and
  -- nothing else has changed there, whatever the MTU on each side cuts the data into, if the
  -- client's MTU fits a request, the addresses are below both limits, and the client is idle.
  pub write-remote :
      (m : ℕ) (s : ClientState (Net S)) (a : ℕ) (bytes : List ℕ)
      → 0 < m
      → m ≤ size_max
      → IsServed s
      → a + length bytes ≤ far_limit
      → (s' : ClientState (Net S)) × (write (remote m) a bytes s ≡ (ok tt, s'))
        × IsServed s'
        × ((x : ℕ) → far_cell s' x ≡ or_else (byte_at a bytes x) (far_cell s x))
  unfolding client_memory
  write-remote m s a bytes n h v k =
      let (s', e, (v', w)) =
        write-Written (remote m) client_memory (remote-IsPlain m n h) s a bytes v k in
      (s', e, v', w)

  -- Data of any size that a client writes is what it then reads at the same address, whatever the
  -- MTU on each side cuts the data into, if the client's MTU fits a request, the addresses are below
  -- both limits, the client is idle, and the device behind the server is a valid byte memory.
  pub read-write-remote :
      (m : ℕ) (s : ClientState (Net S)) (a : ℕ) (bytes : List ℕ)
      → 0 < m
      → m ≤ size_max
      → IsServed s
      → a + length bytes ≤ far_limit
      → (s1 : ClientState (Net S)) × (s2 : ClientState (Net S)) × (write (remote m) a bytes s
          ≡ (ok tt, s1))
        × (read (remote m) a (length bytes) s1 ≡ (ok bytes, s2))
  unfolding client_memory
  read-write-remote m s a bytes n h v k =
      read-write (remote m) client_memory (remote-IsPlain m n h) s a bytes v k
