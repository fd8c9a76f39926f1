-- ===== src/Cache/Splice.antt =====
-- Slice assignment on the merged buffer, and the second loop of `_merge_write`.
use hdlskel.Base.{
  ℕ, ◌+◌, ◌-◌, ◌≤◌, ◌<◌, leb, ltb, ◌&&◌, if◌then◌else◌, ◌≡◌, ◌≢◌, none, arith, list_ext,
  get_elem?-some,
}
use hdlskel.Base.{List, [], ◌∷◌, ◌++◌, length, get_elem?, take, drop, All}
use hdlskel.Base.{length-append, length-take, length-drop, get_elem?-append, get_elem?-take}
use hdlskel.Base.{get_elem?-drop, get_elem?-none}
use hdlskel.Cache.{Region, end, splice, lay_down}
use hdlskel.Base.Cells.{byte_at, or_else}
use hdlskel.Cache.Content.{byte_in, content, IsChain}
use hdlskel.Cache.Content.{content-Apart, Apart-Before, byte_in-ne_none}

module _ (buf : List ℕ) (off : ℕ) (bytes : List ℕ) (fits : off + length bytes ≤ length buf) where
  pub length-splice : length (splice buf off bytes) ≡ length buf
  unfolding splice
  length-splice = omega (
    arith,
    length-append (take off buf) (bytes ++ drop (off + length bytes) buf),
    length-append bytes (drop (off + length bytes) buf),
    length-take off buf,
    length-drop (off + length bytes) buf,
  )

  -- The slice holds the new bytes, and all else is as before.
  pub get_elem?-splice :
      (i : ℕ)
      → get_elem? (splice buf off bytes) i ≡ (
          if leb off i && ltb i (off + length bytes)
          then get_elem? bytes (i - off)
          else get_elem? buf i)
  unfolding splice
  get_elem?-splice i = ground (
    arith,
    get_elem?-append (take off buf) (bytes ++ drop (off + length bytes) buf) i,
    get_elem?-append bytes (drop (off + length bytes) buf) (i - off),
    get_elem?-take off buf i,
    length-take off buf,
    get_elem?-drop (off + length bytes) buf (i - off - length bytes),
  )

-- After the loop the buffer holds the regions laid down, and elsewhere what it held before.
module _ (merged_start : ℕ) where
  abbrev pub Inside : ℕ → Region → Type 0
  Inside size r = (merged_start ≤ r.start) × (end r ≤ merged_start + size)

  pub length-lay_down :
      (rs : List Region) (buf : List ℕ) (size : ℕ)
      → length buf ≡ size
      → All (Inside size) rs
      → length (lay_down merged_start rs buf) ≡ size
  unfolding lay_down
  length-lay_down [] buf size e h = e
  length-lay_down (r ∷ rs) buf size e (p, h) =
      length-lay_down rs (splice buf (r.start - merged_start) r.bytes) size
        (omega (arith, length-splice buf (r.start - merged_start) r.bytes)) h

  -- One round of the loop.
  splice_byte :
      (r : Region) (buf : List ℕ) (x : ℕ)
      → Inside (length buf) r
      → merged_start ≤ x
      → get_elem? (splice buf (r.start - merged_start) r.bytes) (x - merged_start)
        ≡ or_else (byte_in r x) (get_elem? buf (x - merged_start))
  unfolding byte_in
  splice_byte r buf x p k = ground (
    arith,
    get_elem?-splice buf (r.start - merged_start) r.bytes (omega arith) (x - merged_start),
    byte_in-ne_none r x,
    get_elem?-none r.bytes (x - r.start),
  )

  pub get_elem?-lay_down :
      (rs : List Region) (buf : List ℕ) (size x : ℕ)
      → length buf ≡ size
      → IsChain rs
      → All (Inside size) rs
      → merged_start ≤ x
      → get_elem? (lay_down merged_start rs buf) (x - merged_start)
        ≡ or_else (content rs x) (get_elem? buf (x - merged_start))
  unfolding lay_down content
  get_elem?-lay_down [] buf size x e c h k = ground arith
  get_elem?-lay_down (r ∷ rs) buf size x e (n, b, c) (p, h) k = ground (
    arith,
    get_elem?-lay_down rs (splice buf (r.start - merged_start) r.bytes) size x
        (omega (arith, length-splice buf (r.start - merged_start) r.bytes)) c h k,
    splice_byte r buf x,
    content-Apart r rs x (Apart-Before r rs b),
  )

pub get_elem?-ne_none : (bytes : List ℕ) (i : ℕ) → i < length bytes → get_elem? bytes i ≢ none
get_elem?-ne_none bytes i h = ground (arith, get_elem?-some bytes i h)

-- A slice assignment sets the bytes of the slice and no other.
pub get_elem?-stored :
    (buf : List ℕ) (off : ℕ) (bytes : List ℕ) (x : ℕ)
    → off + length bytes ≤ length buf
    → get_elem? (splice buf off bytes) x ≡ or_else (byte_at off bytes x) (get_elem? buf x)
get_elem?-stored buf off bytes x h = ground (
  arith,
  get_elem?-splice buf off bytes h x,
  get_elem?-none bytes (x - off),
  get_elem?-ne_none bytes (x - off),
)

-- Bytes that stand somewhere are the slice there.
pub slice_stands :
    (buf : List ℕ) (a : ℕ) (bytes : List ℕ)
    → a + length bytes ≤ length buf
    → ((j : ℕ) → j < length bytes → get_elem? buf (a + j) ≡ get_elem? bytes j)
    → take (length bytes) (drop a buf) ≡ bytes
slice_stands buf a bytes k h =
    let got = take (length bytes) (drop a buf) in
    list_ext got bytes (omega (arith, length-take (length bytes) (drop a buf), length-drop a buf))
      (λ j q. ground (
        arith,
        get_elem?-take (length bytes) (drop a buf) j,
        get_elem?-drop a buf j,
        h j,
        length-take (length bytes) (drop a buf),
      ))

-- A slice that was assigned reads back.
pub slice-splice :
    (buf : List ℕ) (off : ℕ) (bytes : List ℕ)
    → off + length bytes ≤ length buf
    → take (length bytes) (drop off (splice buf off bytes)) ≡ bytes
slice-splice buf off bytes h =
    slice_stands (splice buf off bytes) off bytes (omega (arith, length-splice buf off bytes h))
      (λ j q. ground (arith, get_elem?-splice buf off bytes h (off + j)))
