-- ===== src/Base/ByteBits.antt =====
-- The bits of a number that is given by its bytes, and of a number cut to a width.
use Prim.Native.Nat.{ℕ, zero, suc, ◌+◌, ◌-◌, ◌*◌, ◌/◌, ◌%◌, ◌^◌, ◌≤◌, ◌<◌, bit_and}
use mathlib.Core.Path.{◌≡◌, refl, sym, ap, ◌∙◌}
use mathlib.Core.Logic.{inl, inr}
use mathlib.Core.List.{List, [], ◌∷◌}
use mathlib.Core.Option.{Option, none, some}
use native.Mathlib.Omega.{arith}
use native.Mathlib.Nat.{pow-suc, div-add-mod, mod-lt, mod-eq_of_lt, mul-add-mod_self_left}
use hdlskel.Base.Tests.{ltb, ltb→lt, Bool-cases}
use hdlskel.Base.Lists.{All, get_elem?}
use hdlskel.Base.Bits.{bit_at, bit_at-high, bit_at-bit_and, bit_and_halves, bits_ext}
use hdlskel.Base.Bytes.{IsByte, from_le}
use hdlskel.Base.Powers.{pow_pos}

-- A number whose bits from `n` on are 0.
pub lt_of_bits : (n x : ℕ) → ((i : ℕ) → n ≤ i → bit_at x i ≡ 0) → x < 2 ^ n
lt_of_bits zero x h =
    let same : x ≡ 0 = bits_ext x 0 (λ i. h i (omega arith) ∙ sym (bit_at-high 0 i (pow_pos i))) in
    omega arith
lt_of_bits (suc n) x h =
    omega (arith, pow-suc 2 n, lt_of_bits n (x / 2) (λ i le. h (suc i) (omega arith)))

bit_and_zero : (x : ℕ) → bit_and x 0 ≡ 0
bit_and_zero x =
    bits_ext (bit_and x 0) 0 λ i. omega (arith, bit_at-bit_and x 0 i, bit_at-high 0 i (pow_pos i))

-- A mask of one bit.
pub bit_and_power : (x p : ℕ) → bit_and x (2 ^ p) ≡ bit_at x p * 2 ^ p
bit_and_power x zero = omega (arith, bit_and_halves x 1, bit_and_zero (x / 2))
bit_and_power x (suc p) =
    let half : 2 ^ suc p / 2 ≡ 2 ^ p = omega (arith, pow-suc 2 p) in
    let even : 2 ^ suc p % 2 ≡ 0 = omega (arith, pow-suc 2 p) in
    let halves = bit_and_halves x (2 ^ suc p) in
    let rec = bit_and_power (x / 2) p in halves ∙ rw (half, even, rec) (grind (arith, pow-suc 2 p))

halve_mod : (x m : ℕ) → 0 < m → x % (m * 2) / 2 ≡ x / 2 % m
halve_mod x m h =
    let q = x / (m * 2) in
    let r = x % (m * 2) in
    let parts : m * 2 * q + r ≡ x = div-add-mod x (m * 2) in
    let small : r < m * 2 = mod-lt x (omega arith) in
    let assoc : m * 2 * q ≡ 2 * (m * q) = grind arith in
    let split : x / 2 ≡ m * q + r / 2 = omega arith in
    sym (ap (λ t. t % m) split ∙ mul-add-mod_self_left m q (r / 2) ∙ mod-eq_of_lt (omega arith))

-- The bits below the width stay.
pub bit_at-mod : (w x i : ℕ) → i < w → bit_at (x % 2 ^ w) i ≡ bit_at x i
bit_at-mod zero x i h = elim h [ ]
bit_at-mod (suc w) x zero h = rw (pow-suc 2 w) (omega (arith, div-add-mod x (2 ^ w * 2), even))
  where
    even : 2 ^ w * 2 * (x / (2 ^ w * 2)) ≡ 2 * (2 ^ w * (x / (2 ^ w * 2)))
    even = grind arith
bit_at-mod (suc w) x (suc i) h =
    let e : x % 2 ^ suc w / 2 ≡ x / 2 % 2 ^ w =
      ap (λ t. x % t / 2) (pow-suc 2 w) ∙ halve_mod x (2 ^ w) (pow_pos w) in
    rw e (bit_at-mod w (x / 2) i (omega arith))

-- The byte that a bit stands in.
abbrev pub bit_of : Option ℕ → ℕ → ℕ
bit_of none i = 0
bit_of (some b) i = bit_at b i

low_bits : (b x i : ℕ) → i < 8 → bit_at (b + 256 * x) i ≡ bit_at b i
low_bits b x zero h = omega arith
low_bits b x (suc zero) h = omega arith
low_bits b x (suc (suc zero)) h = omega arith
low_bits b x (suc (suc (suc zero))) h = omega arith
low_bits b x (suc (suc (suc (suc zero)))) h = omega arith
low_bits b x (suc (suc (suc (suc (suc zero))))) h = omega arith
low_bits b x (suc (suc (suc (suc (suc (suc zero)))))) h = omega arith
low_bits b x (suc (suc (suc (suc (suc (suc (suc zero))))))) h = omega arith
low_bits b x (suc (suc (suc (suc (suc (suc (suc (suc i)))))))) h = absurd (omega arith)

high_bits :
    (b x j : ℕ)
    → b < 256
    → bit_at (b + 256 * x) (suc (suc (suc (suc (suc (suc (suc (suc j)))))))) ≡ bit_at x j
high_bits b x j h =
    let e : (b + 256 * x) / 2 / 2 / 2 / 2 / 2 / 2 / 2 / 2 ≡ x = omega arith in
    ap (λ t. bit_at t j) e

pub bit_at-from_le :
    (bs : List ℕ) (i : ℕ)
    → All IsByte bs
    → bit_at (from_le bs) i ≡ bit_of (get_elem? bs (i / 8)) (i % 8)
bit_at-from_le [] i h = bit_at-high 0 i (pow_pos i)
bit_at-from_le (b ∷ bs) i (p, h) = elim (Bool-cases (ltb i 8)) [
  | inl t ↦
      let first : i / 8 ≡ 0 = ground arith in
      let same : i % 8 ≡ i = ground arith in
      rw (first, same) (low_bits b (from_le bs) i (ltb→lt i 8 t))
  | inr t ↦
      let j = i - 8 in
      let up : i ≡ suc (suc (suc (suc (suc (suc (suc (suc j))))))) = ground arith in
      let next : i / 8 ≡ suc (j / 8) = omega arith in
      let same : i % 8 ≡ j % 8 = omega arith in
      ap (bit_at (b + 256 * from_le bs)) up
      ∙ high_bits b (from_le bs) j p
      ∙ bit_at-from_le bs j h
      ∙ rw (next, same) refl
]
