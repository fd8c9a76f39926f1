-- ===== src/Cache/Scan.antt =====
-- The first loop of `_merge_write`: which regions it keeps, which it merges, and how far.
use hdlskel.Base.{ℕ, ◌≤◌, ◌<◌, min, max, ltb, if◌then◌else◌, not, ◌||◌, ◌≡◌, refl, arith}
use hdlskel.Base.{◌≢◌, ◌⊎◌, inl, inr, Bool, none, Bool-cases, true}
use hdlskel.Base.{List, [], ◌∷◌, ◌++◌, All, All-map_of, All-both, ◌∙◌}
use mathlib.Core.List.{append-nil, append_assoc}
use hdlskel.Cache.{Region, end, MergeScan, scan_region, scan}
use hdlskel.Base.Cells.{or_else}
use hdlskel.Cache.Content.{content, IsChain, Apart, Apart-Before}
use hdlskel.Cache.Content.{content-Apart, byte_in-ne_none}

unfoldable pub keep_if : (Region → Bool) → List Region → List Region
keep_if p [] = []
keep_if p (r ∷ rs) = let rest = keep_if p rs in if p r then r ∷ rest else rest

unfoldable pub low : ℕ → List Region → ℕ
low m [] = m
low m (r ∷ rs) = low (min m r.start) rs

unfoldable pub high : ℕ → List Region → ℕ
high m [] = m
high m (r ∷ rs) = high (max m (end r)) rs

-- The merged range takes in the new one and every region that is merged.
pub low-le : (m : ℕ) (rs : List Region) → (low m rs ≤ m) × All (λ r. low m rs ≤ r.start) rs
unfolding low
low-le m [] = (omega arith, tt)
low-le m (r ∷ rs) =
    let (a, h) = low-le (min m r.start) rs in (omega (arith, a), (omega (arith, a), h))

pub le-high : (m : ℕ) (rs : List Region) → (m ≤ high m rs) × All (λ r. end r ≤ high m rs) rs
unfolding high
le-high m [] = (omega arith, tt)
le-high m (r ∷ rs) =
    let (a, h) = le-high (max m (end r)) rs in (omega (arith, a), (omega (arith, a), h))

pub high-le :
    (m : ℕ) (rs : List Region) (limit : ℕ)
    → m ≤ limit
    → All (λ r. end r ≤ limit) rs
    → high m rs ≤ limit
unfolding high
high-le m [] limit h a = h
high-le m (r ∷ rs) limit h (p, a) = high-le (max m (end r)) rs limit (omega arith) a

module _ (p : Region → Bool) where
  pub keep_if-All {κ} : (P : Region → Type κ) (rs : List Region) → All P rs → All P (keep_if p rs)
  unfolding keep_if
  keep_if-All P [] h = tt
  keep_if-All P (r ∷ rs) (x, h) = elim (Bool-cases (p r)) [
    | inl e ↦ rw e (x, keep_if-All P rs h)
    | inr e ↦ rw e (keep_if-All P rs h)
  ]

  pub keep_if-IsChain : (rs : List Region) → IsChain rs → IsChain (keep_if p rs)
  unfolding keep_if
  keep_if-IsChain [] h = tt
  keep_if-IsChain (r ∷ rs) (n, b, h) = elim (Bool-cases (p r)) [
    | inl e ↦ rw e (n, keep_if-All (λ q. end r < q.start) rs b, keep_if-IsChain rs h)
    | inr e ↦ rw e (keep_if-IsChain rs h)
  ]

  pub keep_if-test : (rs : List Region) → All (λ r. p r ≡ true) (keep_if p rs)
  unfolding keep_if
  keep_if-test [] = tt
  keep_if-test (r ∷ rs) = elim (Bool-cases (p r)) [
    | inl e ↦ rw e (e, keep_if-test rs)
    | inr e ↦ rw e (keep_if-test rs)
  ]

module _ (new_start new_end : ℕ) where
  -- The test of the loop, and its negation.
  unfoldable pub misses : Region → Bool
  misses r = ltb (end r) new_start || ltb new_end r.start

  unfoldable pub touches : Region → Bool
  touches r = not (misses r)

  abbrev pub touching : List Region → List Region
  touching = keep_if touches

  abbrev pub missing : List Region → List Region
  missing = keep_if misses

  pub scan_lem :
      (rs : List Region) (s : MergeScan)
      → scan new_start new_end rs s ≡ (record {
        overlapping = s.overlapping ++ touching rs;
        remaining = s.remaining ++ missing rs;
        merged_start = low s.merged_start (touching rs);
        merged_end = high s.merged_end (touching rs);
      })
  unfolding scan scan_region keep_if low high touches misses
  scan_lem [] s = ground (arith, append-nil s.overlapping, append-nil s.remaining)
  scan_lem (r ∷ rs) s = elim (Bool-cases (misses r)) [
    | inl e ↦ rw e (scan_lem rs _ ∙ rw (append_assoc s.remaining (r ∷ []) (missing rs)))
    | inr e ↦ rw e (scan_lem rs _ ∙ rw (append_assoc s.overlapping (r ∷ []) (touching rs)))
  ]

  -- What the loop keeps and what it merges hold together what the list held.
  pub content-parts :
      (rs : List Region) (x : ℕ)
      → IsChain rs
      → content rs x ≡ or_else (content (touching rs) x) (content (missing rs) x)
  unfolding content keep_if touches
  content-parts [] x h = refl
  content-parts (r ∷ rs) x (n, b, h) = ground (
    arith,
    content-parts rs x h,
    content-Apart r (touching rs) x (Apart-Before r _ (keep_if-All touches _ rs b)),
  )

  -- Whatever the loop keeps has a hole before whatever it merges, or after it.
  pub missing-Apart-touching :
      (rs : List Region) → IsChain rs → All (λ r. All (Apart r) (touching rs)) (missing rs)
  unfolding keep_if touches
  missing-Apart-touching [] h = tt
  missing-Apart-touching (r ∷ rs) (n, b, h) = elim (Bool-cases (misses r)) [
    | inl e ↦ rw e (Apart-Before r _ (keep_if-All touches _ rs b), missing-Apart-touching rs h)
    | inr e ↦ rw e (
        All-map_of (λ q k. (inr k.0, k.1)) (missing rs)
          (All-both (λ q. end r < q.start) (λ q. All (Apart q) (touching rs)) (missing rs)
            (keep_if-All misses _ rs b) (missing-Apart-touching rs h)))
  ]

  -- What the range has before the new bytes, and behind them, is held by a merged region.
  pub low_covered :
      (m : ℕ) (rs : List Region) (x : ℕ)
      → low m (touching rs) ≤ x
      → x < new_start
      → (m ≤ x) ⊎ (content (touching rs) x ≢ none)
  unfolding content keep_if touches misses low
  low_covered m [] x h k = inl h
  low_covered m (r ∷ rs) x h k =
      ground (arith, low_covered (min m r.start) rs x, low_covered m rs x, byte_in-ne_none r x)

  pub high_covered :
      (m : ℕ) (rs : List Region) (x : ℕ)
      → x < high m (touching rs)
      → new_end ≤ x
      → (x < m) ⊎ (content (touching rs) x ≢ none)
  unfolding content keep_if touches misses high
  high_covered m [] x h k = inl h
  high_covered m (r ∷ rs) x h k =
      ground (arith, high_covered (max m (end r)) rs x, high_covered m rs x, byte_in-ne_none r x)

  -- A region that the loop keeps lies outside the merged range, with a hole between.
  pub lt-low :
      (r : Region) (m : ℕ) (rs : List Region)
      → end r < new_start
      → end r < m
      → All (Apart r) rs
      → All (λ q. touches q ≡ true) rs
      → end r < low m rs
  unfolding low touches misses
  lt-low r m [] h k a t = k
  lt-low r m (q ∷ qs) h k (p, a) (e, t) = lt-low r (min m q.start) qs h (ground arith) a t

  pub high-lt :
      (r : Region) (m : ℕ) (rs : List Region)
      → new_end < r.start
      → m < r.start
      → All (Apart r) rs
      → All (λ q. touches q ≡ true) rs
      → high m rs < r.start
  unfolding high touches misses
  high-lt r m [] h k a t = k
  high-lt r m (q ∷ qs) h k (p, a) (e, t) = high-lt r (max m (end q)) qs h (ground arith) a t
