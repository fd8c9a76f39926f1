-- ===== src/Reg/Flags/Bits.antt =====
-- pip/skmap/src/skmap/reg.py: the bits that `RFlag` reads and writes.
use hdlskel.Base.{
  ℕ, zero, suc, ◌+◌, ◌-◌, ◌*◌, ◌/◌, ◌%◌, ◌^◌, ◌≤◌, ◌<◌, ltb, ◌==◌, not, if◌then◌else◌, ◌≡◌, refl,
  ap, ◌∙◌, arith, Bool, true, false, some, List, [], ◌∷◌, length, get_elem?, take, drop, All, inl,
  inr, Bool-cases, All-take, All-drop, All-append, leb, get_elem?-none,
}
use hdlskel.Base.Bits.{bit_at, bit_at-le, bit_at-high}
use hdlskel.Base.ByteBits.{bit_and_power, bit_of, bit_at-from_le, lt_of_bits}
use hdlskel.Base.Bytes.{IsByte, from_le}
use hdlskel.Base.Powers.{pow_pos}
use native.Mathlib.Nat.{pow-le-pow_right}
use hdlskel.Basic.{set_bit, bool_to_int}
use hdlskel.Basic.Signed.{set_bit-each}
use hdlskel.Cache.{splice}
use hdlskel.Cache.Splice.{length-splice, get_elem?-splice}
use hdlskel.Reg.Stored.{}
use hdlskel.Reg.Flags.{has_bit}

pub has_bit-bit_at : (v p : ℕ) → has_bit v p ≡ (bit_at v p == 1)
unfolding has_bit
has_bit-bit_at v p = ground (arith, bit_and_power v p, by_bit (bit_at v p) (bit_at-le v p))
  where
    by_bit : (b : ℕ) → b ≤ 1 → not (b * 2 ^ p == 0) ≡ (b == 1)
    by_bit zero h = let e : 0 * 2 ^ p ≡ 0 = omega arith in rw e refl
    by_bit (suc zero) h = let e : (1 * 2 ^ p == 0) ≡ false = ground (arith, pow_pos p) in rw e refl
    by_bit (suc (suc b)) h = absurd (omega arith)

-- Setting a bit of a byte gives a byte.
set_bit-IsByte : (old p : ℕ) (v : Bool) → old < 256 → p < 8 → set_bit old p v < 256
set_bit-IsByte old p v h k = lt_of_bits 8 (set_bit old p v) λ i le.
    let other : (i == p) ≡ false = ground arith in
    set_bit-each old p i v ∙ rw other (bit_at-high old i (omega (arith, pow_le i le)))
  where
    pow_le : (i : ℕ) → 8 ≤ i → 256 ≤ 2 ^ i
    pow_le i le = pow-le-pow_right {n = 2} (omega arith) {i = 8} {j = i} le

-- The bytes after `write_bool_cached`.
module _ (b : List ℕ) (bit old : ℕ) (v : Bool) (here : get_elem? b (bit / 8) ≡ some old)
    (bytes : All IsByte b) where
  abbrev pub set_flag : List ℕ
  set_flag = splice b (bit / 8) (set_bit old (bit % 8) v ∷ [])

  inside : bit / 8 + 1 ≤ length b
  inside = ground (arith, get_elem?-none b (bit / 8))

  byte_bound : (bs : List ℕ) (i : ℕ) (x : ℕ) → All IsByte bs → get_elem? bs i ≡ some x → x < 256
  byte_bound [] i x h e = absurd (cc)
  byte_bound (y ∷ ys) zero x (p, h) e = ground arith
  byte_bound (y ∷ ys) (suc i) x (p, h) e = byte_bound ys i x h e

  splice-IsByte :
      (bs : List ℕ) (i y : ℕ) → All IsByte bs → y < 256 → All IsByte (splice bs i (y ∷ []))
  unfolding splice
  splice-IsByte bs i y h p =
      All-append IsByte (take i bs) (y ∷ drop (i + 1) bs) (All-take IsByte i bs h)
        (p, All-drop IsByte (i + 1) bs h)

  new_byte-IsByte : set_bit old (bit % 8) v < 256
  new_byte-IsByte =
      set_bit-IsByte old (bit % 8) v (byte_bound b (bit / 8) old bytes here) (omega arith)

  pub set_flag-each :
      (i : ℕ)
      → bit_at (from_le set_flag) i ≡ (if i == bit then bool_to_int v else bit_at (from_le b) i)
  set_flag-each i =
      bit_at-from_le set_flag i (splice-IsByte b (bit / 8) _ bytes new_byte-IsByte)
      ∙ ap (λ o. bit_of o (i % 8))
          (get_elem?-splice b (bit / 8) (set_bit old (bit % 8) v ∷ []) inside (i / 8))
      ∙ elim (Bool-cases (i / 8 == bit / 8)) [
        | inl same ↦
            let first : i / 8 - bit / 8 ≡ 0 = ground arith in
            let up : leb (bit / 8) (i / 8) ≡ true = ground arith in
            let down : ltb (i / 8) (bit / 8 + 1) ≡ true = ground arith in
            let eq : i / 8 ≡ bit / 8 = ground arith in
            rw (up, down, first)
              (set_bit-each old (bit % 8) (i % 8) v
                ∙ ground (arith, bit_at-from_le b i bytes, eq, here, ap (get_elem? b) eq))
        | inr other ↦ ground (arith, bit_at-from_le b i bytes)
      ]

  pub set_flag-IsByte : All IsByte set_flag
  set_flag-IsByte = splice-IsByte b (bit / 8) _ bytes new_byte-IsByte

  pub length-set_flag : length set_flag ≡ length b
  length-set_flag = length-splice b (bit / 8) (set_bit old (bit % 8) v ∷ []) inside
