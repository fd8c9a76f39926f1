-- ===== src/Cache/Content.antt =====
-- What a list of regions holds at each address, and the shape that `RegioCache` keeps it in.
use hdlskel.Base.{ℕ, ◌-◌, ◌≤◌, ◌<◌, ◌≡◌, refl, arith}
use hdlskel.Base.{◌≢◌, ◌⊎◌, inl, inr, Option, none, some, List, [], ◌∷◌}
use hdlskel.Base.{length, All, All-map_of, get_elem?-none, get_elem?-some}
use hdlskel.Base.Cells.{byte_at, or_else}
use hdlskel.Cache.{Region, end}

-- The byte at an address: what a byte memory with holes answers.
unfoldable pub byte_in : Region → ℕ → Option ℕ
byte_in r x = byte_at r.start r.bytes x

unfoldable pub content : List Region → ℕ → Option ℕ
content [] x = none
content (r ∷ rs) x = or_else (byte_in r x) (content rs x)

-- `r` ends below every region of the list, with a hole between.
abbrev pub Before : Region → List Region → Type 0
Before r = All (λ q. end r < q.start)

-- Sorted by address, no region empty, no two that overlap or touch.
abbrev pub IsChain : List Region → Type 0
IsChain [] = Unit
IsChain (r ∷ rs) = (0 < length r.bytes) × Before r rs × IsChain rs

-- Two regions with a hole between them.
abbrev pub Apart : Region → Region → Type 0
Apart r q = (end r < q.start) ⊎ (end q < r.start)

module _ (r : Region) (x : ℕ) where
  pub byte_in-below : x < r.start → byte_in r x ≡ none
  unfolding byte_in
  byte_in-below h = ground arith

  pub byte_in-above : end r ≤ x → byte_in r x ≡ none
  unfolding byte_in
  byte_in-above h = ground (arith, get_elem?-none r.bytes (x - r.start))

  pub byte_in-ne_none : r.start ≤ x → x < end r → byte_in r x ≢ none
  unfolding byte_in
  byte_in-ne_none h k =
      let (v, e) = get_elem?-some r.bytes (x - r.start) (omega arith) in ground (arith, e)

pub byte_in_bounds : (r : Region) (x v : ℕ) → byte_in r x ≡ some v → (r.start ≤ x) × (x < end r)
byte_in_bounds r x v h = ground (arith, byte_in-below r x, byte_in-above r x)

-- Of two regions that are apart at most one holds a byte.
pub byte_in-Apart : (r q : Region) (x : ℕ) → Apart r q → (byte_in r x ≡ none) ⊎ (byte_in q x ≡ none)
byte_in-Apart r q x (inl h) = ground (arith, byte_in-above r x, byte_in-below q x)
byte_in-Apart r q x (inr h) = ground (arith, byte_in-above q x, byte_in-below r x)

-- Below the first region, and at an address that all regions leave out, there is nothing.
pub content-below : (rs : List Region) (x : ℕ) → All (λ q. x < q.start) rs → content rs x ≡ none
unfolding content
content-below [] x h = refl
content-below (r ∷ rs) x (p, h) = ground (arith, byte_in-below r x p, content-below rs x h)

pub content-above : (rs : List Region) (x : ℕ) → All (λ q. end q ≤ x) rs → content rs x ≡ none
unfolding content
content-above [] x h = refl
content-above (r ∷ rs) x (p, h) = ground (arith, byte_in-above r x p, content-above rs x h)

-- A region that is apart from all of a list shares no address with it.
pub content-Apart :
    (r : Region) (rs : List Region) (x : ℕ)
    → All (Apart r) rs
    → (byte_in r x ≡ none) ⊎ (content rs x ≡ none)
unfolding content
content-Apart r [] x h = inr refl
content-Apart r (q ∷ qs) x (p, h) = ground (arith, byte_in-Apart r q x p, content-Apart r qs x h)

pub Apart-Before : (r : Region) (rs : List Region) → Before r rs → All (Apart r) rs
Apart-Before r = All-map_of (λ q h. inl h)

pub Apart-sym : (r q : Region) → Apart q r → Apart r q
Apart-sym r q (inl h) = inr h
Apart-sym r q (inr h) = inl h
