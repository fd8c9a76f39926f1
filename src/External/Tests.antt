-- ===== src/External/Tests.antt =====
-- Runs of an external memory over the cache of regio, and its theorems at concrete inputs.
use hdlskel.Base.{
  ℕ, zero, suc, ◌+◌, ◌≤◌, ◌<◌, ◌≡◌, ◌≢◌, ◌⊎◌, refl, arith, none, some, true, List, [], ◌∷◌,
}
use hdlskel.Base.Int.{pos, negsuc}
use hdlskel.Base.Result.{ok}
use hdlskel.Cache.{Region, splice}
use hdlskel.Cache.Content.{content, byte_in}
use hdlskel.Cache.Device.{cache_device, cache_memory}
use hdlskel.Cache.Write.{IsCache}
use hdlskel.Regio.{write}
use hdlskel.Types.{Acc, ValueKind, elem_size}
use hdlskel.Basic.{
  promote_to_sw_w, ceil_log2, bit_length, ceil_multiple, ceil_div, to_bytes, cast_uint_to_sint,
}
use hdlskel.External.{
  ExternalMem, Cached, read_cached, write_cached, check_size, cached_dev_write, cached_dev_read,
  read_idx_bytes_cached, read_idx_uint_cached, read_idx_sint_cached, write_idx_bytes_cached,
  write_idx_uint_cached, write_idx_sint_cached,
}
use hdlskel.External.Coherence.{IsSized, IsSynced, Synced, BothSet, Fetched}
use hdlskel.External.Through.{cached_write-Synced, cached_read-Synced, read_cached-write, as_regio}
use hdlskel.External.Vector.{read_idx_uint-write}

-- Two elements of 12 bits, at address 0x10 of the cache.
abbrev mem : ExternalMem (List Region)
mem = record {
  regio = cache_device;
  base_addr = 0x10;
  size = 4;
  acc = Acc.rw';
  value_type = record { kind = ValueKind.sint; width = 12; vec_len = some 2 };
}

abbrev device_bytes : List Region
device_bytes = (record { start = 0x10; bytes = 1 ∷ 2 ∷ 3 ∷ 4 ∷ [] }) ∷ []

abbrev start : Cached (List Region)
start = record { dev = device_bytes; cache = 1 ∷ 2 ∷ 3 ∷ 4 ∷ []; cache_loaded = true }

fits : mem.base_addr + mem.size ≤ cache_memory.limit
unfolding cache_memory
fits = omega arith

-- -1 in an element of 12 bits is stored as 0xFFFF, and read back as 0xFFFF - 0x1000.
sint_run : (write_idx_sint_cached mem 0 (negsuc 0) start).1.cache ≡ 0xFF ∷ 0xFF ∷ 3 ∷ 4 ∷ []
unfolding write_idx_sint_cached write_idx_bytes_cached write_cached check_size to_bytes elem_size
    promote_to_sw_w ceil_log2 bit_length ceil_multiple ceil_div splice
sint_run = refl

sint_read_run :
    (read_idx_sint_cached mem 0 (record start { cache = 0xFF ∷ 0xFF ∷ 3 ∷ 4 ∷ [] })).0
    ≡ ok (pos 61439)
unfolding read_idx_sint_cached read_idx_uint_cached read_idx_bytes_cached read_cached check_size
    elem_size promote_to_sw_w ceil_log2 bit_length ceil_multiple ceil_div cast_uint_to_sint
sint_read_run = refl

device_bytes-IsCache : IsCache device_bytes
device_bytes-IsCache = record { chain = omega arith; fits = omega arith }

start-IsSized : IsSized mem cache_memory fits start
unfolding cache_memory
start-IsSized = (device_bytes-IsCache, refl)

start-Synced : (x : ℕ) → x < 4 → Synced mem cache_memory fits start x
unfolding cache_memory content byte_in
start-Synced zero h = refl
start-Synced (suc zero) h = refl
start-Synced (suc (suc zero)) h = refl
start-Synced (suc (suc (suc zero))) h = refl
start-Synced (suc (suc (suc (suc x)))) h = absurd (omega arith)

cached_write-Synced_example :
    (s' : Cached (List Region)) × (cached_dev_write mem 1 (7 ∷ 8 ∷ []) start ≡ (ok tt, s'))
    × BothSet mem cache_memory fits start 1 (7 ∷ 8 ∷ []) s'
    × ((x : ℕ)
        → Synced mem cache_memory fits start x ⊎ ((1 ≤ x) × (x < 1 + 2))
        → Synced mem cache_memory fits s' x)
unfolding cache_memory
cached_write-Synced_example =
    cached_write-Synced mem cache_memory fits start 1 (7 ∷ 8 ∷ []) start-IsSized (omega arith)
      (omega arith) (omega arith)

held : (j : ℕ) → j < 2 → content device_bytes (1 + j + 0x10) ≢ none
unfolding content byte_in
held zero h = ground arith
held (suc zero) h = ground arith
held (suc (suc j)) h = absurd (omega arith)

cached_read-Synced_example :
    (bytes : List ℕ) × (s' : Cached (List Region)) × (cached_dev_read mem 1 2 start
      ≡ (ok bytes, s'))
    × Fetched mem cache_memory fits start 1 2 bytes s'
    × ((x : ℕ)
        → Synced mem cache_memory fits start x ⊎ ((1 ≤ x) × (x < 1 + 2))
        → Synced mem cache_memory fits s' x)
unfolding cache_memory
cached_read-Synced_example =
    cached_read-Synced mem cache_memory fits start 1 2 start-IsSized (omega arith) (omega arith)
      (omega arith) held

read_cached-write_example :
    (s' : Cached (List Region)) × (write (as_regio mem cache_memory fits) 1 (7 ∷ 8 ∷ []) start
      ≡ (ok tt, s'))
    × IsSynced mem cache_memory fits s'
    × (read_cached mem 1 2 s' ≡ (ok (7 ∷ 8 ∷ []), s'))
unfolding cache_memory
read_cached-write_example =
    read_cached-write mem cache_memory fits start 1 (7 ∷ 8 ∷ []) (omega arith)
      (start-IsSized, start-Synced) (omega arith)

read_idx_uint-write_example :
    (s' : Cached (List Region)) × (write_idx_uint_cached mem 1 (pos 0x123) start ≡ (ok tt, s'))
    × (read_idx_uint_cached mem 1 s' ≡ (ok 0x123, s'))
    × ((k : ℕ) → k ≢ 1 → (read_idx_bytes_cached mem k s').0 ≡ (read_idx_bytes_cached mem k start).0)
unfolding elem_size promote_to_sw_w ceil_log2 bit_length ceil_multiple ceil_div
read_idx_uint-write_example = read_idx_uint-write mem start 1 0x123 refl (omega arith) (omega arith)
