-- ===== src/Cache/Write.antt =====
-- `cache_write` against the bytes that the cache holds.
use hdlskel.Base.{ℕ, ◌+◌, ◌≤◌, ◌≡◌, arith}
use hdlskel.Base.{List, [], ◌∷◌, length, All}
use hdlskel.Base.Int.{ℤ, pos}
use hdlskel.Base.Result.{ok, err, value_error}
use hdlskel.Cache.{Region, end, merge_write, cache_write, uint32_max}
use hdlskel.Base.Cells.{or_else}
use hdlskel.Cache.Content.{byte_in, content, IsChain}
use hdlskel.Cache.Merge.{merge_write-IsChain, content-merge_write, merge_write-Fits}
use hdlskel.Cache.Space.{InSpace, IsAccess, validate-InSpace, validate_refuses}

-- A region that ends in the 32-bit address space.
abbrev pub Fits : Region → Type 0
Fits r = end r ≤ uint32_max + 1

-- The shape in which `self._regions` always is.
pub record IsCache (rs : List Region) : Type 0 where
  pub chain : IsChain rs
  pub fits : All Fits rs

pub IsCache-empty : IsCache []
IsCache-empty = record { chain = tt; fits = tt }

-- What a write leaves: every address of the written range has its new byte.
abbrev pub Written : List Region → ℕ → List ℕ → List Region → Type 0
Written rs a bytes rs' =
    (x : ℕ)
    → content rs' x ≡ or_else (byte_in (record { start = a; bytes = bytes }) x) (content rs x)

-- On a cache whose regions are sorted and apart, a write inside the 32-bit address space succeeds,
-- leaves such a cache, and changes exactly the bytes that it names: each address of the written
-- range then holds its new byte, and every other address holds what it held, or nothing still.
pub cache_write-Written :
    (rs : List Region) (a : ℕ) (bytes : List ℕ)
    → IsCache rs
    → InSpace a (length bytes)
    → (rs' : List Region) × (cache_write rs (pos a) bytes ≡ ok rs')
      × IsCache rs'
      × Written rs a bytes rs'
unfolding cache_write byte_in
cache_write-Written rs a [] c v = (rs, rw (validate-InSpace a 0 v), c, λ x. ground arith)
cache_write-Written rs a (b ∷ bytes) c v = (
  merge_write rs a (b ∷ bytes),
  ground (arith, validate-InSpace a (length (b ∷ bytes)) v),
  record {
    chain = merge_write-IsChain rs a (b ∷ bytes) c.chain (omega arith);
    fits = merge_write-Fits rs a (b ∷ bytes) c.chain (uint32_max + 1) (omega arith) c.fits;
  },
  λ x. content-merge_write rs a (b ∷ bytes) c.chain x (omega arith),
)

pub cache_write-outside :
    (rs : List Region) (addr : ℤ) (bytes : List ℕ)
    → ¬ IsAccess addr (pos (length bytes))
    → cache_write rs addr bytes ≡ err value_error
unfolding cache_write
cache_write-outside rs addr bytes h = rw (validate_refuses addr (pos (length bytes)) h)
