-- ===== src/Cache/Device.antt =====
-- `RegioCache` as a device of `Regio`: its `dev_write` and `dev_read`.
use hdlskel.Base.{ℕ, ◌+◌, ◌≤◌, ◌<◌, ◌≡◌, ◌≢◌, refl, arith, none, List, length, get_elem?}
use hdlskel.Base.Int.{pos}
use hdlskel.Base.Result.{Result, ok, err}
use hdlskel.Base.Exec.{Exec}
use hdlskel.Cache.{Region, cache_write, cache_read, uint32_max}
use hdlskel.Base.Cells.{byte_at, or_else}
use hdlskel.Cache.Content.{content, byte_in}
use hdlskel.Cache.Read.{ReadsContent, cache_read-ReadsContent}
use hdlskel.Cache.Write.{IsCache, cache_write-Written}
use hdlskel.Regio.{Device}
use hdlskel.Regio.Memory.{Memory}

-- The state after a call that may raise.
abbrev keep_on_error : List Region → Result (List Region) → Result (Unit {0}) × List Region
keep_on_error regions (ok regions') = (ok tt, regions')
keep_on_error regions (err x) = (err x, regions)

unfoldable pub dev_write : ℕ → List ℕ → Exec (List Region) (Unit {0})
dev_write addr bytes regions = keep_on_error regions (cache_write regions (pos addr) bytes)

unfoldable pub dev_read : ℕ → ℕ → Exec (List Region) (List ℕ)
dev_read addr size regions = (cache_read regions (pos addr) (pos size), regions)

abbrev pub cache_device : Device (List Region)
cache_device = record { dev_write = dev_write; dev_read = dev_read }

pub write_law :
    (s : List Region) (a : ℕ) (bytes : List ℕ)
    → IsCache s
    → 0 < length bytes
    → length bytes ≤ uint32_max
    → a + length bytes ≤ uint32_max + 1
    → (s' : List Region) × (dev_write a bytes s ≡ (ok tt, s'))
      × IsCache s'
      × ((x : ℕ) → content s' x ≡ or_else (byte_at a bytes x) (content s x))
unfolding dev_write byte_in
write_law s a bytes v n m h =
    let (s', e, v', w) = cache_write-Written s a bytes v (omega arith, omega arith) in
    (s', rw e, v', w)

read_from :
    (s : List Region) (a size : ℕ)
    → IsCache s
    → ((j : ℕ) → j < size → content s (a + j) ≢ none)
    → (res : Result (List ℕ)) → cache_read s (pos a) (pos size) ≡ res
    → ReadsContent s a size res
    → (bytes : List ℕ) × (s' : List Region) × (dev_read a size s ≡ (ok bytes, s'))
      × IsCache s'
      × ((x : ℕ) → content s' x ≡ content s x)
      × (length bytes ≡ size)
      × ((j : ℕ) → j < size → get_elem? bytes j ≡ content s (a + j))
unfolding dev_read
read_from s a size v c (ok bytes) e (len, get) = (bytes, s, rw e, v, λ x. refl, len, get)
read_from s a size v c (err x) e (_, j, k, hole) = absurd (c j k hole)

pub read_law :
    (s : List Region) (a size : ℕ)
    → IsCache s
    → 0 < size
    → size ≤ uint32_max
    → a + size ≤ uint32_max + 1
    → ((j : ℕ) → j < size → content s (a + j) ≢ none)
    → (bytes : List ℕ) × (s' : List Region) × (dev_read a size s ≡ (ok bytes, s'))
      × IsCache s'
      × ((x : ℕ) → content s' x ≡ content s x)
      × (length bytes ≡ size)
      × ((j : ℕ) → j < size → get_elem? bytes j ≡ content s (a + j))
read_law s a size v n m h c =
    read_from s a size v c (cache_read s (pos a) (pos size)) refl
      (cache_read-ReadsContent s a size v.chain (omega arith, omega arith))

-- The cache is a byte memory of 32-bit addresses.
unfoldable pub cache_memory : Memory cache_device
cache_memory = record {
  IsValid = IsCache;
  cell = content;
  limit = uint32_max + 1;
  max_size = uint32_max;
  write_law = write_law;
  read_law = read_law;
}
