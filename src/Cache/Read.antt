-- ===== src/Cache/Read.antt =====
-- `cache_read` against the bytes that the cache holds.
use hdlskel.Base.{ℕ, zero, suc, ◌+◌, ◌-◌, ◌≤◌, ◌<◌, max, ltb, ◌||◌, ◌≡◌}
use hdlskel.Base.{refl, arith, ◌⊎◌, inl, inr, Option, none, some, List, [], ◌∷◌, length}
use hdlskel.Base.{take, drop, get_elem?, length-take, length-drop, get_elem?-take, get_elem?-drop}
use hdlskel.Base.{All-map_of, get_elem?-none, get_elem?-some, Bool-cases}
use hdlskel.Base.Int.{ℤ, pos}
use hdlskel.Base.Result.{Result, ok, err, value_error}
use hdlskel.Cache.{Region, end, start_at, read_index, read_region, read_at, cache_read}
use hdlskel.Cache.Space.{InSpace, IsAccess, validate_refuses, validate-InSpace}
use hdlskel.Cache.Content.{byte_in, content, Before, IsChain, byte_in-above, content-below}
use hdlskel.Cache.Bisect.{IsLast, read_index-IsLast}

start_at-get :
    (rs : List Region) (i : ℕ) (r : Region) → get_elem? rs i ≡ some r → start_at rs i ≡ r.start
start_at-get [] i r e = absurd (cc)
start_at-get (q ∷ rs) zero r e = ground arith
start_at-get (q ∷ rs) (suc i) r e = start_at-get rs i r e

Before-get :
    (q : Region) (rs : List Region) (i : ℕ) → Before q rs → i < length rs → end q < start_at rs i
Before-get q [] i b k = absurd (omega arith)
Before-get q (r ∷ rs) zero (b, bs) k = b
Before-get q (r ∷ rs) (suc i) (b, bs) k = Before-get q rs i bs (omega arith)

-- A region ends below the start of the next.
end-lt :
    (rs : List Region) (i : ℕ) (r : Region)
    → IsChain rs
    → get_elem? rs i ≡ some r
    → suc i < length rs
    → end r < start_at rs (suc i)
end-lt [] i r h e k = absurd (omega arith)
end-lt (q ∷ rs) zero r (n, b, h) e k = ground (arith, Before-get q rs 0 b)
end-lt (q ∷ rs) (suc i) r (n, b, h) e k = end-lt rs i r h e (omega arith)

first_below :
    (rs : List Region) (x : ℕ)
    → IsChain rs
    → (length rs ≡ 0) ⊎ (x < start_at rs 0)
    → content rs x ≡ none
first_below [] x h k = content-below [] x tt
first_below (r ∷ rs) x (n, b, h) k =
    content-below (r ∷ rs) x (omega arith, All-map_of (λ q l. omega arith) rs b)

-- Between the start of a region and that of the next, the cache holds what the region holds.
content-region :
    (rs : List Region) (i : ℕ) (r : Region) (x : ℕ)
    → IsChain rs
    → get_elem? rs i ≡ some r
    → r.start ≤ x
    → (suc i ≡ length rs) ⊎ (x < start_at rs (suc i))
    → content rs x ≡ byte_in r x
unfolding content
content-region [] i r x h e k l = absurd (cc)
content-region (q ∷ rs) zero r x (n, b, h) e k l = ground (arith, first_below rs x h (omega arith))
content-region (q ∷ rs) (suc i) r x (n, b, h) e k l = ground (
  arith,
  byte_in-above q x,
  Before-get q rs i b,
  start_at-get rs i r e,
  get_elem?-none rs i,
  content-region rs i r x h e k (omega arith),
)

-- `r` is the region at `i`, and the next one starts above `x`.
module _ (rs : List Region) (i : ℕ) (r : Region) (a size : ℕ) (h : IsChain rs)
    (e : get_elem? rs i ≡ some r) (k : r.start ≤ a)
    (l : (suc i ≡ length rs) ⊎ (a < start_at rs (suc i))) (n : 0 < size) where
  in_list : i < length rs
  in_list = ground (arith, get_elem?-none rs i)

  -- Up to the end of the region the cache holds what the region holds.
  content-within : (x : ℕ) → a ≤ x → (x ≤ end r) ⊎ (x ≡ a) → content rs x ≡ byte_in r x
  content-within x p q =
      content-region rs i r x h e (omega arith) (ground (arith, end-lt rs i r h e, in_list))

  slice_byte :
      (j : ℕ)
      → a + size ≤ end r
      → j < size
      → get_elem? (take size (drop (a - r.start) r.bytes)) j ≡ content rs (a + j)
  unfolding byte_in
  slice_byte j p q = ground (
    arith,
    content-within (a + j),
    get_elem?-take size (drop (a - r.start) r.bytes) j,
    get_elem?-drop (a - r.start) r.bytes j,
  )

  length-slice : a + size ≤ end r → length (take size (drop (a - r.start) r.bytes)) ≡ size
  length-slice p =
      omega
        (arith, length-take size (drop (a - r.start) r.bytes), length-drop (a - r.start) r.bytes)

  -- Past the end of the region the read meets a hole.
  hole : end r < a + size → content rs (max a (end r)) ≡ none
  hole p = ground (arith, content-within (max a (end r)), byte_in-above r (max a (end r)))

-- What a read of `size` bytes at `a` may answer: the bytes held there, or an error for a hole.
abbrev pub ReadsContent : List Region → ℕ → ℕ → Result (List ℕ) → Type 0
ReadsContent rs a size (ok bytes) =
    (length bytes ≡ size) × ((j : ℕ) → j < size → get_elem? bytes j ≡ content rs (a + j))
ReadsContent rs a size (err x) =
    (x ≡ value_error) × (j : ℕ) × (j < size) × (content rs (a + j) ≡ none)

read_region-ReadsContent :
    (rs : List Region) (i : ℕ) (r : Region) (a size : ℕ)
    → IsChain rs
    → get_elem? rs i ≡ some r
    → r.start ≤ a
    → (suc i ≡ length rs) ⊎ (a < start_at rs (suc i))
    → 0 < size
    → ReadsContent rs a size (read_region r a size)
unfolding read_region
read_region-ReadsContent rs i r a size h e k l n =
    elim (Bool-cases (ltb (end r) (a + size) || ltb a r.start)) [
      | inl c ↦
          let at_end : a + (max a (end r) - a) ≡ max a (end r) = omega arith in
          rw c (
            refl,
            max a (end r) - a,
            ground arith,
            rw at_end (hole rs i r a size h e k l n (ground arith)),
          )
      | inr c ↦ rw c (
        length-slice rs i r a size h e k l n (ground arith),
        λ j q. slice_byte rs i r a size h e k l n j (ground arith) q,
      )
    ]

read_at-ReadsContent :
    (rs : List Region) (o : Option ℕ) (a size : ℕ)
    → IsChain rs
    → IsLast rs a o
    → 0 < size
    → ReadsContent rs a size (read_at rs o a size)
unfolding read_at
read_at-ReadsContent rs none a size h l n =
    let at_start : a + 0 ≡ a = omega arith in (refl, 0, n, rw at_start (first_below rs a h l))
read_at-ReadsContent rs (some i) a size h (l, k, m) n =
    let (r, e) = get_elem?-some rs i l in
    let found : read_at rs (some i) a size ≡ read_region r a size = ground (arith, e) in
    rw found (read_region-ReadsContent rs i r a size h e (omega (arith, start_at-get rs i r e)) m n)

-- On a cache whose regions are sorted and apart, a read inside the 32-bit address space gives the
-- bytes that the cache holds at these addresses, or a ValueError, and then one of the addresses
-- holds nothing.
pub cache_read-ReadsContent :
    (rs : List Region) (a size : ℕ)
    → IsChain rs
    → InSpace a size
    → ReadsContent rs a size (cache_read rs (pos a) (pos size))
unfolding cache_read
cache_read-ReadsContent rs a zero h v =
    rw (validate-InSpace a 0 v) (refl, λ j k. absurd (omega arith))
cache_read-ReadsContent rs a (suc size) h v =
    let accepted : cache_read rs (pos a) (pos (suc size))
        ≡ read_at rs (read_index rs a) a (suc size) =
      ground (arith, validate-InSpace a (suc size) v) in
    rw accepted (
      read_at-ReadsContent rs (read_index rs a) a (suc size) h (read_index-IsLast rs a h)
        (omega arith))

-- The byte that a cache holds at an address is the one read there.
pub cache_read-outside :
    (rs : List Region) (addr size : ℤ)
    → ¬ IsAccess addr size
    → cache_read rs addr size ≡ err value_error
unfolding cache_read
cache_read-outside rs addr size h = rw (validate_refuses addr size h)
