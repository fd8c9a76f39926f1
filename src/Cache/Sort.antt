-- ===== src/Cache/Sort.antt =====
-- The sort at the end of `_merge_write`.
use hdlskel.Base.{ℕ, ◌<◌, leb, ◌≡◌, refl, arith, Bool-cases}
use hdlskel.Base.{inl, inr, List, [], ◌∷◌, ◌++◌, length, All, All-map_of, All-append}
use hdlskel.Cache.{Region, end, insert, sort}
use hdlskel.Base.Cells.{or_else}
use hdlskel.Cache.Content.{byte_in, content, Before, IsChain, Apart, byte_in-Apart}
use hdlskel.Cache.Content.{Apart-Before}

insert-All {κ} :
    (P : Region → Type κ) (r : Region) (rs : List Region) → P r → All P rs → All P (insert r rs)
unfolding insert
insert-All P r [] p h = (p, tt)
insert-All P r (q ∷ qs) p (pq, h) = elim (Bool-cases (leb r.start q.start)) [
  | inl e ↦ rw e (p, (pq, h))
  | inr e ↦ rw e (pq, insert-All P r qs p h)
]

pub sort-All {κ} : (P : Region → Type κ) (rs : List Region) → All P rs → All P (sort rs)
unfolding sort
sort-All P [] h = tt
sort-All P (r ∷ rs) (p, h) = insert-All P r (sort rs) p (sort-All P rs h)

-- Any two regions of the list are apart.
abbrev pub PairsApart : List Region → Type 0
PairsApart [] = Unit
PairsApart (r ∷ rs) = (0 < length r.bytes) × All (Apart r) rs × PairsApart rs

pub IsChain-PairsApart : (rs : List Region) → IsChain rs → PairsApart rs
IsChain-PairsApart [] h = tt
IsChain-PairsApart (r ∷ rs) (n, b, h) = (n, Apart-Before r rs b, IsChain-PairsApart rs h)

pub PairsApart-append :
    (rs : List Region) (m : Region)
    → PairsApart rs
    → All (λ r. Apart r m) rs
    → 0 < length m.bytes
    → PairsApart (rs ++ m ∷ [])
PairsApart-append [] m h k n = (n, tt, tt)
PairsApart-append (r ∷ rs) m (p, a, h) (x, k) n =
    (p, All-append (Apart r) rs (m ∷ []) a (x, tt), PairsApart-append rs m h k n)

Before-trans : (r q : Region) (qs : List Region) → end r < q.start → Before q qs → Before r qs
Before-trans r q qs h = All-map_of (λ s k. omega arith) qs

insert-IsChain :
    (r : Region) (rs : List Region)
    → 0 < length r.bytes
    → All (Apart r) rs
    → IsChain rs
    → IsChain (insert r rs)
unfolding insert
insert-IsChain r [] n a h = (n, tt, tt)
insert-IsChain r (q ∷ qs) n (p, a) (m, b, h) = elim (Bool-cases (leb r.start q.start)) [
  | inl e ↦
      let lt : end r < q.start = ground arith in rw e (n, (lt, Before-trans r q qs lt b), (m, b, h))
  | inr e ↦
      let lt : end q < r.start = ground arith in
      rw e (m, insert-All (λ s. end q < s.start) r qs lt b, insert-IsChain r qs n a h)
]

-- Sorting regions that are apart from one another makes a chain of them.
pub sort-IsChain : (rs : List Region) → PairsApart rs → IsChain (sort rs)
unfolding sort
sort-IsChain [] h = tt
sort-IsChain (r ∷ rs) (n, a, h) =
    insert-IsChain r (sort rs) n (sort-All (Apart r) rs a) (sort-IsChain rs h)

content-insert :
    (r : Region) (rs : List Region) (x : ℕ)
    → All (Apart r) rs
    → content (insert r rs) x ≡ or_else (byte_in r x) (content rs x)
unfolding insert content
content-insert r [] x a = refl
content-insert r (q ∷ qs) x (p, a) = ground (arith, content-insert r qs x a, byte_in-Apart r q x p)

-- It moves no byte to another address.
pub content-sort : (rs : List Region) (x : ℕ) → PairsApart rs → content (sort rs) x ≡ content rs x
unfolding sort content
content-sort [] x h = refl
content-sort (r ∷ rs) x (n, a, h) =
    ground (arith, content-insert r (sort rs) x (sort-All (Apart r) rs a), content-sort rs x h)

pub content-append :
    (rs qs : List Region) (x : ℕ) → content (rs ++ qs) x ≡ or_else (content rs x) (content qs x)
unfolding content
content-append [] qs x = refl
content-append (r ∷ rs) qs x = ground (arith, content-append rs qs x)
