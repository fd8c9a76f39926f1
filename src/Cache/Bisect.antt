-- ===== src/Cache/Bisect.antt =====
-- The search of `cache_read`: the index that `bisect_left` and the test behind it settle on.
use hdlskel.Base.{ℕ, zero, suc, ◌+◌, ◌-◌, ◌/◌, ◌≤◌, ◌<◌, ltb, ◌==◌, not, ◌||◌, if◌then◌else◌, ◌≡◌}
use hdlskel.Base.{refl, true, arith, ◌⊎◌, inl, inr, Option, none, some, List, [], ◌∷◌, length}
use hdlskel.Base.{Bool-cases}
use hdlskel.Cache.{Region, start_at, bisect_loop, bisect_left, read_index}
use hdlskel.Cache.Content.{IsChain}

ltb-mid : (lo hi : ℕ) → ltb lo hi ≡ true → (lo + hi) / 2 + 1 ≤ hi
ltb-mid lo hi e = ground arith

ltb-room : (lo hi fuel : ℕ) → ltb lo hi ≡ true → hi < lo + suc fuel → (lo + hi) / 2 < lo + fuel
ltb-room lo hi fuel e f = ground arith

module _ (rs : List Region) (x : ℕ) where
  -- `i` is where `x` would go in.
  abbrev Splits : ℕ → Type 0
  Splits i = ((i ≡ 0) ⊎ (start_at rs (i - 1) < x)) × ((i ≡ length rs) ⊎ (x ≤ start_at rs i))

  bisect_loop-Splits :
      (fuel lo hi : ℕ)
      → hi < lo + fuel
      → lo ≤ hi
      → hi ≤ length rs
      → (lo ≡ 0) ⊎ (start_at rs (lo - 1) < x)
      → (hi ≡ length rs) ⊎ (x ≤ start_at rs hi)
      → (bisect_loop fuel rs x lo hi ≤ length rs) × Splits (bisect_loop fuel rs x lo hi)
  unfolding bisect_loop
  bisect_loop-Splits zero lo hi f l h a b = absurd (omega arith)
  bisect_loop-Splits (suc fuel) lo hi f l h a b =
      let mid = (lo + hi) / 2 in
      elim (Bool-cases (ltb lo hi)) [
        | inr e ↦ let same : lo ≡ hi = ground arith in rw e (omega arith, (a, rw same b))
        | inl e ↦ elim (Bool-cases (ltb (start_at rs mid) x)) [
          | inl c ↦
              let past : start_at rs (mid + 1 - 1) < x = ground arith in
              rw (e, c)
                (bisect_loop-Splits fuel (mid + 1) hi (omega arith) (ltb-mid lo hi e) h (inr past)
                  b)
          | inr c ↦
              rw (e, c)
                (bisect_loop-Splits fuel lo mid (ltb-room lo hi fuel e f) (omega arith)
                  (omega arith) a (inr (ground arith)))
        ]
      ]

  pub bisect_left-Splits : (bisect_left rs x ≤ length rs) × Splits (bisect_left rs x)
  unfolding bisect_left
  bisect_left-Splits =
      bisect_loop-Splits (suc (length rs)) 0 (length rs) (omega arith) (omega arith) (omega arith)
        (inl refl) (inl refl)

-- The index is that of the last region that starts at `x` or below.
abbrev pub IsLast : List Region → ℕ → Option ℕ → Type 0
IsLast rs x none = (length rs ≡ 0) ⊎ (x < start_at rs 0)
IsLast rs x (some i) =
    (i < length rs) × (start_at rs i ≤ x) × ((suc i ≡ length rs) ⊎ (x < start_at rs (suc i)))

pub start_at-lt :
    (rs : List Region) (i : ℕ)
    → IsChain rs
    → suc i < length rs
    → start_at rs i < start_at rs (suc i)
start_at-lt [] i h k = absurd (omega arith)
start_at-lt (r ∷ []) i h k = absurd (omega arith)
start_at-lt (r ∷ q ∷ rs) zero h k = omega arith
start_at-lt (r ∷ q ∷ rs) (suc i) (n, b, h) k = start_at-lt (q ∷ rs) i h (omega arith)

settle :
    (rs : List Region) (x j : ℕ)
    → IsChain rs
    → j ≤ length rs
    → Splits rs x j
    → IsLast rs x (
        if j == length rs || not (start_at rs j == x)
        then elim j [ zero ↦ none | suc i ↦ some i ]
        else some j)
settle rs x zero h k s = ground (arith, start_at-lt rs 0 h)
settle rs x (suc j) h k s = ground (arith, start_at-lt rs (suc j) h)

pub read_index-IsLast : (rs : List Region) (x : ℕ) → IsChain rs → IsLast rs x (read_index rs x)
unfolding read_index
read_index-IsLast rs x h =
    let (k, s) = bisect_left-Splits rs x in settle rs x (bisect_left rs x) h k s
