-- ===== src/Cache/Merge.antt =====
-- `_merge_write` as one step of a byte memory: the new bytes at their addresses, all else as before.
use hdlskel.Base.{ℕ, ◌+◌, ◌-◌, ◌≤◌, ◌<◌, ltb, leb, ◌&&◌, if◌then◌else◌, ◌≡◌, ◌≢◌}
use hdlskel.Base.{arith, inl, inr, true, none, List, [], ◌∷◌, ◌++◌}
use hdlskel.Base.{length, get_elem?, All, All-map_of, All-both, replicate, length-replicate}
use hdlskel.Base.{All-append, Bool-cases, ltb→lt}
use hdlskel.Cache.{Region, end, splice, lay_down, sort, merge_write}
use hdlskel.Base.Cells.{or_else}
use hdlskel.Cache.Content.{byte_in, content, IsChain, Apart, byte_in-below, byte_in-above}
use hdlskel.Cache.Content.{byte_in-ne_none, content-below, content-above, content-Apart, Apart-sym}
use hdlskel.Cache.Scan.{keep_if-All, keep_if-IsChain, keep_if-test, low, high, low-le}
use hdlskel.Cache.Scan.{le-high, touching, missing, misses, scan_lem, content-parts}
use hdlskel.Cache.Scan.{missing-Apart-touching, low_covered, high_covered, lt-low, high-lt, high-le}
use hdlskel.Cache.Splice.{Inside, length-splice, get_elem?-splice, length-lay_down}
use hdlskel.Cache.Splice.{get_elem?-lay_down}
use hdlskel.Cache.Sort.{PairsApart, PairsApart-append, IsChain-PairsApart, sort-IsChain, sort-All}
use hdlskel.Cache.Sort.{content-sort, content-append}

module _ (regions : List Region) (addr : ℕ) (bytes : List ℕ) where
  abbrev new_end : ℕ
  new_end = addr + length bytes

  -- The regions merged and kept, and the range of the merged one.
  abbrev merging : List Region
  merging = touching addr new_end regions

  abbrev keeping : List Region
  keeping = missing addr new_end regions

  abbrev merged_start : ℕ
  merged_start = low addr merging

  abbrev merged_end : ℕ
  merged_end = high new_end merging

  old_bytes : List ℕ
  old_bytes = lay_down merged_start merging (replicate (merged_end - merged_start) 0)

  merged : Region
  merged = record { start = merged_start; bytes = splice old_bytes (addr - merged_start) bytes }

  new_region : Region
  new_region = record { start = addr; bytes = bytes }

  merge_write_parts : merge_write regions addr bytes ≡ sort (keeping ++ merged ∷ [])
  unfolding merge_write merged old_bytes
  merge_write_parts = rw (scan_lem addr new_end regions)

  range : (merged_start ≤ addr) × (new_end ≤ merged_end)
  range = ((low-le addr merging).0, (le-high new_end merging).0)

  merging-Inside : All (Inside merged_start (merged_end - merged_start)) merging
  merging-Inside =
      All-map_of (λ q h. (h.0, omega (arith, range))) merging
        (All-both (λ r. merged_start ≤ r.start) (λ r. end r ≤ merged_end) merging
          (low-le addr merging).1 (le-high new_end merging).1)

  length-old_bytes : length old_bytes ≡ merged_end - merged_start
  unfolding old_bytes
  length-old_bytes =
      length-lay_down merged_start merging _ (merged_end - merged_start) (length-replicate _ 0)
        merging-Inside

  end-merged : end merged ≡ merged_end
  unfolding merged
  end-merged =
      omega (arith, range, length-old_bytes, length-splice old_bytes (addr - merged_start) bytes)

  module _ (chain : IsChain regions) where
    merging-IsChain : IsChain merging
    merging-IsChain = keep_if-IsChain _ regions chain

    old_byte :
        (x : ℕ)
        → merged_start ≤ x
        → content merging x ≢ none
        → get_elem? old_bytes (x - merged_start) ≡ content merging x
    unfolding old_bytes
    old_byte x h k = ground (
      arith,
      get_elem?-lay_down merged_start merging (replicate (merged_end - merged_start) 0)
          (merged_end - merged_start) x (length-replicate _ 0) merging-IsChain merging-Inside h,
    )

    below_merged : (x : ℕ) → x < merged_start → content merging x ≡ none
    below_merged x h =
        content-below merging x (All-map_of (λ q k. omega arith) merging (low-le addr merging).1)

    above_merged : (x : ℕ) → merged_end ≤ x → content merging x ≡ none
    above_merged x h =
        content-above merging x
          (All-map_of (λ q k. omega arith) merging (le-high new_end merging).1)

    spliced :
        (x : ℕ)
        → merged_start ≤ x
        → byte_in merged x ≡ (
            if leb addr x && ltb x new_end
            then get_elem? bytes (x - addr)
            else get_elem? old_bytes (x - merged_start))
    unfolding byte_in merged
    spliced x h = ground (
      arith,
      get_elem?-splice old_bytes (addr - merged_start) bytes
          (omega (arith, range, length-old_bytes)) (x - merged_start),
      range,
    )

    merged_above : (x : ℕ) → merged_end ≤ x → byte_in merged x ≡ none
    merged_above x h = byte_in-above merged x (omega (arith, end-merged))

    merged_below : (x : ℕ) → x < merged_start → byte_in merged x ≡ none
    unfolding merged
    merged_below x h = byte_in-below merged x h

    new_byte : (x : ℕ) → addr ≤ x → byte_in new_region x ≡ get_elem? bytes (x - addr)
    unfolding byte_in new_region
    new_byte x h = ground arith

    new_below : (x : ℕ) → x < addr → byte_in new_region x ≡ none
    unfolding new_region
    new_below x h = byte_in-below new_region x h

    new_above : (x : ℕ) → new_end ≤ x → byte_in new_region x ≡ none
    unfolding new_region
    new_above x h = byte_in-above new_region x h

    new_inside : (x : ℕ) → addr ≤ x → x < new_end → byte_in new_region x ≢ none
    unfolding new_region
    new_inside x h k = byte_in-ne_none new_region x h k

    -- The merged region holds the new bytes, and elsewhere what the regions merged held.
    byte_in-merged : (x : ℕ) → byte_in merged x ≡ or_else (byte_in new_region x) (content merging x)
    byte_in-merged x = ground (
      arith,
      range,
      spliced x,
      merged_above x,
      merged_below x,
      new_byte x,
      new_below x,
      new_above x,
      new_inside x,
      below_merged x,
      above_merged x,
      old_byte x,
      low_covered addr new_end addr regions x,
      high_covered addr new_end new_end regions x,
    )

    keep-Apart :
        (r : Region) → misses addr new_end r ≡ true → All (Apart r) merging → Apart r merged
    unfolding merged misses
    keep-Apart r h a = elim (Bool-cases (ltb (end r) addr)) [
      | inl e ↦
          let below : end r < addr = ltb→lt _ _ e in
          inl (lt-low addr new_end r addr merging below below a (keep_if-test _ regions))
      | inr e ↦
          let above : new_end < r.start = ground arith in
          inr (
            omega (
              arith,
              end-merged,
              high-lt addr new_end r new_end merging above above a (keep_if-test _ regions),
            ))
    ]

    keeping-Apart : All (λ r. Apart r merged) keeping
    keeping-Apart =
        All-map_of (λ r h. keep-Apart r h.0 h.1) keeping
          (All-both (λ r. misses addr new_end r ≡ true) (λ r. All (Apart r) merging) keeping
            (keep_if-test _ regions) (missing-Apart-touching addr new_end regions chain))

    merged_pos : 0 < length bytes → 0 < length merged.bytes
    unfolding merged
    merged_pos n = omega (arith, end-merged, range)

    parts-Apart : 0 < length bytes → PairsApart (keeping ++ merged ∷ [])
    parts-Apart n =
        PairsApart-append keeping merged
          (IsChain-PairsApart keeping (keep_if-IsChain _ regions chain)) keeping-Apart
          (merged_pos n)

    -- After the write the list is a chain again.
    pub merge_write-IsChain : 0 < length bytes → IsChain (merge_write regions addr bytes)
    merge_write-IsChain n = rw merge_write_parts (sort-IsChain _ (parts-Apart n))

    -- The new bytes are found at their addresses, and at every other address what was there.
    pub content-merge_write :
        (x : ℕ)
        → 0 < length bytes
        → content (merge_write regions addr bytes) x
          ≡ or_else (byte_in (record { start = addr; bytes = bytes }) x) (content regions x)
    unfolding content new_region
    content-merge_write x n = rw merge_write_parts (
        ground (
          arith,
          content-sort (keeping ++ merged ∷ []) x (parts-Apart n),
          content-append keeping (merged ∷ []) x,
          content-parts addr new_end regions x chain,
          byte_in-merged x,
          content-Apart merged keeping x (All-map_of (Apart-sym merged) keeping keeping-Apart),
        ))

    -- The list ends where the new range or an old region ended.
    pub merge_write-Fits :
        (limit : ℕ)
        → new_end ≤ limit
        → All (λ r. end r ≤ limit) regions
        → All (λ r. end r ≤ limit) (merge_write regions addr bytes)
    merge_write-Fits limit h a = rw merge_write_parts (
        sort-All (λ r. end r ≤ limit) (keeping ++ merged ∷ [])
          (All-append (λ r. end r ≤ limit) keeping (merged ∷ []) (keep_if-All _ _ regions a)
            (
              omega (
                arith,
                end-merged,
                high-le new_end merging limit h (keep_if-All _ (λ r. end r ≤ limit) regions a),
              ),
              tt,
            )))
