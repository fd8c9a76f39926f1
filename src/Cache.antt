-- ===== src/Cache.antt =====
-- pip/regio/src/regio/cache.py: `RegioCache`, a sparse memory kept as a list of regions sorted by
-- address. Addresses and sizes are Python integers; a byte is a number, and a `bytearray` a list.
pub mod Content
pub mod Scan
pub mod Splice
pub mod Sort
pub mod Merge
pub mod Bisect
pub mod Space
pub mod Read
pub mod Write
pub mod File
pub mod RoundTrip
pub mod Persist
pub mod Device
mod Tests
use hdlskel.Base.{ℕ, zero, suc, ◌+◌, ◌-◌, ◌/◌, min, max, ltb, leb, ◌==◌, if◌then◌else◌}
use hdlskel.Base.{not, ◌||◌, Option, none, some}
use hdlskel.Base.{List, [], ◌∷◌, ◌++◌, length, get_elem?, take, drop, replicate}
use hdlskel.Base.Int.{ℤ, pos, ltb_ℤ, ◌+ℤ◌, pos_part}
use hdlskel.Base.Result.{Result, ok, err, value_error, index_error, guard, ◌>>◌}

-- `UINT32_MAX`
abbrev pub uint32_max : ℕ
uint32_max = 0xffff_ffff

-- An entry (address, bytearray) of `self._regions`.
pub record Region : Type 0 where
  pub start : ℕ
  pub bytes : List ℕ

-- `rend = rstart + len(rdata)`
abbrev pub end : Region → ℕ
end r = r.start + length r.bytes

-- `_validate_addr_size`
unfoldable pub validate_addr_size : ℤ → ℤ → Result (Unit {0})
unfolding ◌+ℤ◌
validate_addr_size addr size = do
  guard (not (ltb_ℤ addr (pos 0) || ltb_ℤ size (pos 0))) value_error
  guard (not (ltb_ℤ (pos uint32_max) addr || ltb_ℤ (pos (uint32_max + 1)) (addr +ℤ size)))
      value_error

-- The four locals of the first loop of `_merge_write`.
pub record MergeScan : Type 0 where
  pub overlapping : List Region
  pub remaining : List Region
  pub merged_start : ℕ
  pub merged_end : ℕ

-- The body of that loop: touching counts as adjacent, hence the strict comparisons.
unfoldable pub scan_region : ℕ → ℕ → MergeScan → Region → MergeScan
scan_region new_start new_end s r =
    if ltb (end r) new_start || ltb new_end r.start
    then record s { remaining = s.remaining ++ (r ∷ []) }
    else record s {
      overlapping = s.overlapping ++ (r ∷ []);
      merged_start = min s.merged_start r.start;
      merged_end = max s.merged_end (end r);
    }

unfoldable pub scan : ℕ → ℕ → List Region → MergeScan → MergeScan
scan new_start new_end [] s = s
scan new_start new_end (r ∷ rs) s = scan new_start new_end rs (scan_region new_start new_end s r)

-- `buf[off:off + len(data)] = data` on a bytearray.
unfoldable pub splice : List ℕ → ℕ → List ℕ → List ℕ
splice buf off bytes = take off buf ++ (bytes ++ drop (off + length bytes) buf)

-- `for rstart, rdata in overlapping: merged_buf[off:off + len(rdata)] = rdata`
unfoldable pub lay_down : ℕ → List Region → List ℕ → List ℕ
lay_down merged_start [] buf = buf
lay_down merged_start (r ∷ rs) buf =
    lay_down merged_start rs (splice buf (r.start - merged_start) r.bytes)

-- `list.sort(key=lambda r: r[0])` is a stable sort by address.
unfoldable pub insert : Region → List Region → List Region
insert r [] = r ∷ []
insert r (q ∷ qs) = if leb r.start q.start then r ∷ q ∷ qs else q ∷ insert r qs

unfoldable pub sort : List Region → List Region
unfolding insert
sort [] = []
sort (r ∷ rs) = insert r (sort rs)

-- `_merge_write`
unfoldable pub merge_write : List Region → ℕ → List ℕ → List Region
merge_write regions addr bytes =
    let new_end = addr + length bytes in
    let s =
      scan addr new_end regions
        (record { overlapping = []; remaining = []; merged_start = addr; merged_end = new_end }) in
    let blank = replicate (s.merged_end - s.merged_start) 0 in
    let old = lay_down s.merged_start s.overlapping blank in
    let merged = splice old (addr - s.merged_start) bytes in
    sort (s.remaining ++ (record { start = s.merged_start; bytes = merged } ∷ []))

-- `cache_write`: an empty write is checked and does nothing.
unfoldable pub cache_write : List Region → ℤ → List ℕ → Result (List Region)
cache_write regions addr bytes = do
  validate_addr_size addr (pos (length bytes))
  if length bytes == 0 then ok regions else ok (merge_write regions (pos_part addr) bytes)

-- `starts[i]`, for an index that is in range.
abbrev pub start_at : List Region → ℕ → ℕ
start_at [] i = 0
start_at (r ∷ rs) zero = r.start
start_at (r ∷ rs) (suc i) = start_at rs i

-- `bisect.bisect_left(starts, x)`: binary search by halving, with the length for fuel.
unfoldable pub bisect_loop : ℕ → List Region → ℕ → ℕ → ℕ → ℕ
bisect_loop zero regions x lo hi = lo
bisect_loop (suc fuel) regions x lo hi =
    let mid = (lo + hi) / 2 in
    let above = bisect_loop fuel regions x (mid + 1) hi in
    let below = bisect_loop fuel regions x lo mid in
    if ltb lo hi then (if ltb (start_at regions mid) x then above else below) else lo

unfoldable pub bisect_left : List Region → ℕ → ℕ
unfolding bisect_loop
bisect_left regions x = bisect_loop (suc (length regions)) regions x 0 (length regions)

-- The index that `cache_read` settles on; `none` is an index below 0.
unfoldable pub read_index : List Region → ℕ → Option ℕ
read_index regions x =
    let idx = bisect_left regions x in
    if idx == length regions || not (start_at regions idx == x)
    then elim idx [ zero ↦ none | suc i ↦ some i ]
    else some idx

-- The tests on the region found, and the slice of it.
unfoldable pub read_region : Region → ℕ → ℕ → Result (List ℕ)
read_region r read_start size =
    if ltb (end r) (read_start + size) || ltb read_start r.start
    then err value_error
    else ok (take size (drop (read_start - r.start) r.bytes))

unfoldable pub read_at : List Region → Option ℕ → ℕ → ℕ → Result (List ℕ)
read_at regions none read_start size = err value_error
read_at regions (some idx) read_start size = elim (get_elem? regions idx) [
  | none ↦ err index_error
  | some r ↦ read_region r read_start size
]

-- `cache_read`
unfoldable pub cache_read : List Region → ℤ → ℤ → Result (List ℕ)
cache_read regions addr size = do
  validate_addr_size addr size
  let a = pos_part addr
  let n = pos_part size
  if n == 0 then ok [] else read_at regions (read_index regions a) a n

-- `clear`, and `regions`, which gives a copy.
unfoldable pub clear : List Region → List Region
clear regions = []

unfoldable pub snapshot : List Region → List (ℕ × List ℕ)
snapshot [] = []
snapshot (r ∷ rs) = (r.start, r.bytes) ∷ snapshot rs
