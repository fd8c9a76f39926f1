-- ===== src/Tcp/Tests.antt =====
-- Runs of the client and the servers over a cache, and their theorems at concrete inputs.
use hdlskel.Base.{ℕ, ◌≤◌, ◌<◌, ◌≡◌, ◌⊎◌, inl, refl, arith, none, some, false}
use hdlskel.Base.{List, [], ◌∷◌, ◌++◌, length, take, drop, All}
use hdlskel.Base.Cells.{byte_at, or_else}
use hdlskel.Base.Result.{ok, err, eof_error}
use hdlskel.Cache.{Region}
use hdlskel.Cache.Device.{cache_device, cache_memory}
use hdlskel.Regio.{Regio, write, read}
use hdlskel.Regio.Memory.{IsPlain}
use hdlskel.Tcp.{RqstHead, rqst_head_size, pack_rqst_head, unpack_rqst_head}
use hdlskel.Tcp.Heads.{IsWire, unpack-pack_rqst_head, rqst_fields}
use hdlskel.Tcp.Server.{Link, on_data, process_requests}
use hdlskel.Tcp.Segments.{on_data-append}
use hdlskel.Tcp.Client.{ClientState}
use hdlskel.Tcp.Loopback.{Net}
use hdlskel.Tcp.Remote.{IsServed, far_cell, remote, write-remote, read-write-remote}
use hdlskel.Tcp.Single.{recv_exact, joined, handle_client}
use hdlskel.Tcp.Single.Stream.{HasByte, recv_exact-stream}
use hdlskel.Tcp.Single.Equivalent.{forget, handle_client-process_requests}

abbrev a_write : RqstHead
a_write = record { flag_we = 1; size = 2; addr = 0x10 }

abbrev write_bytes : List ℕ
write_bytes = 0x9A ∷ 1 ∷ 2 ∷ 0 ∷ 0x10 ∷ 0 ∷ 0 ∷ 0 ∷ []

pack_run : pack_rqst_head a_write ≡ ok write_bytes
unfolding pack_rqst_head
pack_run = refl

a_write-IsWire : IsWire (rqst_fields a_write)
a_write-IsWire = record {
  sync_fits = omega arith;
  flag_fits = omega arith;
  size_fits = omega arith;
  addr_fits = omega arith;
}

unpack-pack_rqst_head_example :
    (bs : List ℕ) × (pack_rqst_head a_write ≡ ok bs)
    × (length bs ≡ rqst_head_size)
    × (unpack_rqst_head bs ≡ ok a_write)
unpack-pack_rqst_head_example = unpack-pack_rqst_head a_write a_write-IsWire

abbrev behind_cache : Regio (List Region)
behind_cache = record {
  device = cache_device;
  error_on_write = false;
  pre_write_callback_func = none;
  post_read_callback_func = none;
  mtu = 4096;
}

behind_cache-IsPlain : IsPlain behind_cache cache_memory
unfolding cache_memory
behind_cache-IsPlain = record {
  mtu_pos = omega arith;
  mtu_fits = omega arith;
  writes = refl;
  no_pre_write = refl;
  no_post_read = refl;
}

abbrev fresh : Link (List Region)
fresh = record { dev = []; sent = [] }

on_data-append_example :
    on_data behind_cache (write_bytes ++ (7 ∷ 8 ∷ [])) (some [], fresh)
    ≡ on_data behind_cache (7 ∷ 8 ∷ []) (on_data behind_cache write_bytes (some [], fresh))
on_data-append_example = on_data-append behind_cache write_bytes (7 ∷ 8 ∷ []) (some [], fresh)

abbrev offline : ClientState (Net (List Region))
offline = record { writer = none; net = (none, fresh) }

offline-IsServed : IsServed behind_cache cache_memory behind_cache-IsPlain offline
unfolding cache_memory
offline-IsServed = (record { chain = tt; fits = tt }, inl refl)

write-remote_example :
    (s' : ClientState (Net (List Region))) × (write
        (remote behind_cache cache_memory behind_cache-IsPlain 4)
        0x10
        (1 ∷ 2 ∷ 3 ∷ 4 ∷ 5 ∷ [])
        offline
      ≡ (ok tt, s'))
    × IsServed behind_cache cache_memory behind_cache-IsPlain s'
    × ((x : ℕ)
        → far_cell behind_cache cache_memory behind_cache-IsPlain s' x
          ≡ or_else
              (byte_at 0x10 (1 ∷ 2 ∷ 3 ∷ 4 ∷ 5 ∷ []) x)
              (far_cell behind_cache cache_memory behind_cache-IsPlain offline x))
unfolding cache_memory
write-remote_example =
    write-remote behind_cache cache_memory behind_cache-IsPlain 4 offline 0x10
      (1 ∷ 2 ∷ 3 ∷ 4 ∷ 5 ∷ []) (omega arith) (omega arith) offline-IsServed (omega arith)

read-write-remote_example :
    (s1 : ClientState (Net (List Region))) × (s2 : ClientState (Net (List Region))) × (write
        (remote behind_cache cache_memory behind_cache-IsPlain 4)
        0x10
        (1 ∷ 2 ∷ 3 ∷ 4 ∷ 5 ∷ [])
        offline
      ≡ (ok tt, s1))
    × (read (remote behind_cache cache_memory behind_cache-IsPlain 4) 0x10 5 s1
        ≡ (ok (1 ∷ 2 ∷ 3 ∷ 4 ∷ 5 ∷ []), s2))
unfolding cache_memory
read-write-remote_example =
    read-write-remote behind_cache cache_memory behind_cache-IsPlain 4 offline 0x10
      (1 ∷ 2 ∷ 3 ∷ 4 ∷ 5 ∷ []) (omega arith) (omega arith) offline-IsServed (omega arith)

abbrev pieces : List (List ℕ)
pieces = (0x9A ∷ 1 ∷ 2 ∷ []) ∷ (0 ∷ 0x10 ∷ 0 ∷ 0 ∷ 0 ∷ 7 ∷ []) ∷ (8 ∷ []) ∷ []

recv_exact-stream_example :
    ((4 ≤ length (joined pieces))
      × ((recv_exact 4 pieces).0 ≡ ok (take 4 (joined pieces)))
      × (joined (recv_exact 4 pieces).1 ≡ drop 4 (joined pieces))
      × All HasByte (recv_exact 4 pieces).1)
    ⊎ ((length (joined pieces) < 4) × ((recv_exact 4 pieces).0 ≡ err eof_error))
recv_exact-stream_example = recv_exact-stream 4 pieces (omega arith)

handle_client-process_requests_example :
    handle_client behind_cache pieces fresh
    ≡ forget behind_cache (process_requests behind_cache (joined pieces) fresh)
handle_client-process_requests_example =
    handle_client-process_requests behind_cache pieces fresh (omega arith)
