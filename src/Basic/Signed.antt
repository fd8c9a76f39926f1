-- ===== src/Basic/Signed.antt =====
-- pip/skmap/src/skmap/basic.py: what the bit helpers do to each bit, and the cast to a signed value.
use hdlskel.Base.{ℕ, zero, suc, ◌-◌, ◌*◌, ◌/◌, ◌^◌, ◌≤◌, ◌<◌, leb, ◌==◌, if◌then◌else◌}
use hdlskel.Base.{◌≡◌, refl, ◌∙◌, arith, Bool-cases, inl, inr, Bool, true, false}
use hdlskel.Base.Bits.{
  bit_at, bit_at-le, bit_at-bit_and, bit_at-bit_or, bit_at-without_bits, without_bits,
}
use hdlskel.Base.Int.{ℤ, pos, negsuc}
use hdlskel.Base.Result.{ok}
use Prim.Native.Nat.{bit_and, min, max}
use native.Mathlib.Nat.{pow-suc}
use hdlskel.Basic.{set_bits, set_bit, bool_to_int, cast_uint_to_sint}

choose :
    (v m b : ℕ) → v ≤ 1 → m ≤ 1 → b ≤ 1 → max (v - min v m) (min m b) ≡ (if m == 1 then b else v)
choose v m b h g k = ground arith

-- Each bit of `set_bits` is the new value's where the mask has a 1, and the old value's elsewhere.
pub set_bits-each :
    (value mask vals i : ℕ)
    → bit_at (set_bits value mask vals) i
      ≡ (if bit_at mask i == 1 then bit_at vals i else bit_at value i)
unfolding set_bits
set_bits-each value mask vals i =
    bit_at-bit_or (without_bits value mask) (bit_and mask vals) i
    ∙ rw (bit_at-without_bits value mask i, bit_at-bit_and mask vals i)
        (choose (bit_at value i) (bit_at mask i) (bit_at vals i) (bit_at-le value i)
          (bit_at-le mask i) (bit_at-le vals i))

bit_at_zero : (i : ℕ) → bit_at 0 i ≡ 0
bit_at_zero zero = refl
bit_at_zero (suc i) = bit_at_zero i

bit_at_power : (p i : ℕ) → bit_at (2 ^ p) i ≡ (if i == p then 1 else 0)
bit_at_power zero zero = refl
bit_at_power zero (suc i) =
    let e : (suc i == 0) ≡ false = ground arith in rw (e, bit_at_zero i) refl
bit_at_power (suc p) zero =
    let e : (0 == suc p) ≡ false = ground arith in rw e (omega (arith, pow-suc 2 p))
bit_at_power (suc p) (suc i) =
    let half : 2 ^ suc p / 2 ≡ 2 ^ p = omega (arith, pow-suc 2 p) in
    let e : (suc i == suc p) ≡ (i == p) = ground arith in rw (half, e) (bit_at_power p i)

bit_at_bool : (b : Bool) (p i : ℕ) → i ≡ p → bit_at (bool_to_int b * 2 ^ p) i ≡ bool_to_int b
bit_at_bool true p i h =
    let e : 1 * 2 ^ p ≡ 2 ^ p = omega arith in
    let t : (i == p) ≡ true = ground arith in rw (e, bit_at_power p i, t) refl
bit_at_bool false p i h = let e : 0 * 2 ^ p ≡ 0 = omega arith in rw (e, bit_at_zero i) refl

-- Bit `p` of what `set_bit` gives for the position `p` is the new bit, and each other bit is the
-- old value's.
pub set_bit-each :
    (value p i : ℕ) (b : Bool)
    → bit_at (set_bit value p b) i ≡ (if i == p then bool_to_int b else bit_at value i)
unfolding set_bit
set_bit-each value p i b =
    set_bits-each value (2 ^ p) (bool_to_int b * 2 ^ p) i
    ∙ rw (bit_at_power p i) (set_bit_choice value p i b)
  where
    set_bit_choice :
        (value p i : ℕ) (b : Bool)
        → (if (if i == p then 1 else 0) == 1
            then bit_at (bool_to_int b * 2 ^ p) i
            else bit_at value i)
          ≡ (if i == p then bool_to_int b else bit_at value i)
    set_bit_choice value p i b = elim (Bool-cases (i == p)) [
      | inl e ↦ rw e (bit_at_bool b p i (ground arith))
      | inr e ↦ rw e refl
    ]

-- The two's complement form of `z` in `w` bits.
abbrev pub twos_complement : ℕ → ℤ → ℕ
twos_complement w (pos v) = v
twos_complement w (negsuc v) = 2 ^ w - suc v

-- The numbers that `w + 1` bits hold as signed values.
abbrev pub IsSigned : ℕ → ℤ → Type 0
IsSigned w (pos v) = v < 2 ^ w
IsSigned w (negsuc v) = v < 2 ^ w

-- A value that fits in `w + 1` bits is cast to an integer in the signed range of `w + 1` bits
-- whose two's complement is the value.
pub cast_uint_to_sint-IsSigned :
    (value w : ℕ)
    → value < 2 ^ suc w
    → (z : ℤ) × (cast_uint_to_sint value (suc w) ≡ ok z)
      × IsSigned w z
      × (twos_complement (suc w) z ≡ value)
unfolding cast_uint_to_sint
cast_uint_to_sint-IsSigned value w h = elim (Bool-cases (leb (2 ^ w) value)) [
  | inl e ↦
      let below : leb (2 ^ w * 2) value ≡ false = ground (arith, pow-suc 2 w) in
      rw (e, below)
        (
          negsuc (2 ^ w * 2 - value - 1),
          refl,
          ground (arith, pow-suc 2 w),
          ground (arith, pow-suc 2 w),
        )
  | inr e ↦ rw e (pos value, refl, ground arith, refl)
]

-- Casting the two's complement, in `w + 1` bits, of an integer in the signed range gives the
-- integer back.
pub cast_uint_to_sint-inverse :
    (z : ℤ) (w : ℕ) → IsSigned w z → cast_uint_to_sint (twos_complement (suc w) z) (suc w) ≡ ok z
unfolding cast_uint_to_sint
cast_uint_to_sint-inverse (pos v) w h = let e : leb (2 ^ w) v ≡ false = ground arith in rw e refl
cast_uint_to_sint-inverse (negsuc v) w h =
    let e : leb (2 ^ w) (2 ^ suc w - suc v) ≡ true = ground (arith, pow-suc 2 w) in
    let below : leb (2 ^ w * 2) (2 ^ suc w - suc v) ≡ false = ground (arith, pow-suc 2 w) in
    let back : 2 ^ w * 2 - (2 ^ suc w - suc v) - 1 ≡ v = omega (arith, pow-suc 2 w) in
    rw (e, below, back) refl
