-- ===== src/Basic/Rounding.antt =====
-- pip/skmap/src/skmap/basic.py: what the rounding helpers compute.
use hdlskel.Base.{ℕ, zero, suc, ◌+◌, ◌-◌, ◌*◌, ◌/◌, ◌%◌, ◌^◌, ◌≤◌, ◌<◌, ltb, ◌==◌}
use hdlskel.Base.{◌≡◌, refl, arith, Bool-cases, inl, inr, true}
use native.Mathlib.Nat.{pow-suc, mul-mod_left, div-add-mod, mod-lt}
use hdlskel.Basic.{bit_length_fuel, bit_length, ceil_log2, ceil_div, ceil_multiple, promote_to_sw_w}

bit_length_fuel-fits : (fuel x : ℕ) → x ≤ fuel → x < 2 ^ bit_length_fuel fuel x
bit_length_fuel-fits zero x h = omega arith
bit_length_fuel-fits (suc fuel) x h = elim (Bool-cases (x == 0)) [
  | inl e ↦ rw e (ground arith)
  | inr e ↦ rw e (
      omega (
        arith,
        pow-suc 2 (bit_length_fuel fuel (x / 2)),
        bit_length_fuel-fits fuel (x / 2) (ground arith),
      ))
]

bit_length_fuel-least : (fuel x k : ℕ) → x < 2 ^ k → bit_length_fuel fuel x ≤ k
bit_length_fuel-least zero x k h = omega arith
bit_length_fuel-least (suc fuel) x zero h =
    let e : (x == 0) ≡ true = ground arith in rw e (omega arith)
bit_length_fuel-least (suc fuel) x (suc k) h = elim (Bool-cases (x == 0)) [
  | inl e ↦ rw e (omega arith)
  | inr e ↦ rw e (omega (arith, bit_length_fuel-least fuel (x / 2) k (omega (arith, pow-suc 2 k))))
]

-- `ceil_log2` is an exponent whose power of two reaches the number, and no smaller exponent's
-- power does.
pub ceil_log2-least : (x : ℕ) → (x ≤ 2 ^ ceil_log2 x) × ((k : ℕ) → x ≤ 2 ^ k → ceil_log2 x ≤ k)
unfolding ceil_log2 bit_length
ceil_log2-least zero = (omega arith, λ k h. omega arith)
ceil_log2-least (suc x) =
    let pred : suc x - 1 ≡ x = omega arith in
    let above : ltb 0 (suc x) ≡ true = ground arith in
    rw (above, pred) (bit_length_fuel-fits x x (omega arith), λ k h. bit_length_fuel-least x x k h)

-- For a multiple above 0, `ceil_multiple` reaches the number, stays less than one multiple above
-- it, and is a multiple.
pub ceil_multiple-least :
    (n m : ℕ)
    → 0 < m
    → (n ≤ ceil_multiple n m) × (ceil_multiple n m < n + m) × (ceil_multiple n m % m ≡ 0)
unfolding ceil_multiple ceil_div
ceil_multiple-least n m h = (
  omega (arith, div-add-mod (n + m - 1) m, mod-lt (n + m - 1) h),
  omega (arith, div-add-mod (n + m - 1) m),
  mul-mod_left ((n + m - 1) / m) m,
)

pow_mono : (a d : ℕ) → 2 ^ a ≤ 2 ^ (a + d)
pow_mono a zero = let e : a + 0 ≡ a = omega arith in rw e (omega arith)
pow_mono a (suc d) =
    let e : a + suc d ≡ suc (a + d) = omega arith in
    rw e (omega (arith, pow-suc 2 (a + d), pow_mono a d))

le_pow_eq : {a b c : ℕ} → b ≡ c → a ≤ 2 ^ c → a ≤ 2 ^ b
le_pow_eq e h = rw e h

pow_le : (a b : ℕ) → a ≤ b → 2 ^ a ≤ 2 ^ b
pow_le a b h = let e : b ≡ a + (b - a) = omega arith in le_pow_eq e (pow_mono a (b - a))

eight_power : (k : ℕ) → 2 ^ (k + 3) ≡ 8 * 2 ^ k
eight_power k =
    let e : k + 3 ≡ suc (suc (suc k)) = omega arith in
    rw e (omega (arith, pow-suc 2 (suc (suc k)), pow-suc 2 (suc k), pow-suc 2 k))

-- For a width above 0, `promote_to_sw_w` is a power of two, at least the width and at least 8, and
-- no power of two from 8 on that holds the width is below it.
pub promote_to_sw_w-least :
    (w : ℕ)
    → 0 < w
    → (w ≤ promote_to_sw_w w)
      × (8 ≤ promote_to_sw_w w)
      × ((k : ℕ) × (promote_to_sw_w w ≡ 2 ^ k))
      × ((k : ℕ) → w ≤ 2 ^ (k + 3) → promote_to_sw_w w ≤ 2 ^ (k + 3))
unfolding promote_to_sw_w
promote_to_sw_w-least w h =
    let (reach, least) = ceil_log2-least (ceil_multiple w 8) in
    let (up, tight, multiple) = ceil_multiple-least w 8 (omega arith) in
    (
      omega arith,
      omega arith,
      (ceil_log2 (ceil_multiple w 8), refl),
      λ k g.
          pow_le (ceil_log2 (ceil_multiple w 8)) (k + 3)
            (least (k + 3) (omega (arith, eight_power k))),
    )
