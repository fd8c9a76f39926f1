-- ===== src/Basic/Bytes.antt =====
-- pip/skmap/src/skmap/basic.py: lists of integers as bytes.
use hdlskel.Base.{ℕ, suc, ◌-◌, ◌*◌, ◌^◌, ◌≤◌, ◌<◌, ltb, leb, if◌then◌else◌}
use hdlskel.Base.{◌≡◌, refl, sym, ap, ◌∙◌, arith, Bool-cases, inl, inr, Bool, true, false}
use hdlskel.Base.{List, [], ◌∷◌, length, All, length-append, All-append}
use hdlskel.Base.Bytes.{
  le_bytes, from_le, IsByte, length-le_bytes, from_le-le_bytes, from_le-lt, le_bytes-from_le,
}
use hdlskel.Base.Int.{ℤ, pos, negsuc, sub_ℕ}
use hdlskel.Base.Result.{ok, err, overflow_error}
use mathlib.Core.List.{reverse, reverse-reverse, reverse-cons}
use hdlskel.Basic.{Endian, ordered, to_bytes, from_bytes}

ordered-ordered : (e : Endian) (bs : List ℕ) → ordered e (ordered e bs) ≡ bs
ordered-ordered Endian.little bs = refl
ordered-ordered Endian.big bs = reverse-reverse bs

length-reverse : (bs : List ℕ) → length (reverse bs) ≡ length bs
length-reverse [] = refl
length-reverse (b ∷ bs) =
    ap length (reverse-cons b bs)
    ∙ omega (arith, length-append (reverse bs) (b ∷ []), length-reverse bs)

length-ordered : (e : Endian) (bs : List ℕ) → length (ordered e bs) ≡ length bs
length-ordered Endian.little bs = refl
length-ordered Endian.big bs = length-reverse bs

reverse-IsByte : (bs : List ℕ) → All IsByte bs → All IsByte (reverse bs)
reverse-IsByte [] h = tt
reverse-IsByte (b ∷ bs) (p, h) =
    rw (reverse-cons b bs) (All-append IsByte (reverse bs) (b ∷ []) (reverse-IsByte bs h) (p, tt))

ordered-IsByte : (e : Endian) (bs : List ℕ) → All IsByte bs → All IsByte (ordered e bs)
ordered-IsByte Endian.little bs h = h
ordered-IsByte Endian.big bs h = reverse-IsByte bs h

-- The integers that `n` bytes hold.
abbrev pub Fits : Bool → ℕ → ℤ → Type 0
Fits false n (pos v) = v < 256 ^ n
Fits false n (negsuc v) = ⊥
Fits true n (pos v) = 2 * v < 256 ^ n
Fits true n (negsuc v) = 2 * suc v ≤ 256 ^ n

-- The number whose bytes stand for an integer.
abbrev pub code : ℕ → ℤ → ℕ
code n (pos v) = v
code n (negsuc v) = 256 ^ n - suc v

pub code-lt : (n : ℕ) (s : Bool) (z : ℤ) → Fits s n z → code n z < 256 ^ n
code-lt n false (pos v) h = h
code-lt n false (negsuc v) h = absurd h
code-lt n true (pos v) h = omega arith
code-lt n true (negsuc v) h = omega arith

pub to_bytes-code :
    (n : ℕ) (e : Endian) (s : Bool) (z : ℤ)
    → Fits s n z
    → to_bytes z n e s ≡ ok (ordered e (le_bytes n (code n z)))
unfolding to_bytes
to_bytes-code n e false (pos v) h = let t : leb (256 ^ n) v ≡ false = ground arith in rw t refl
to_bytes-code n e false (negsuc v) h = absurd h
to_bytes-code n e true (pos v) h = let t : leb (256 ^ n) (2 * v) ≡ false = ground arith in rw t refl
to_bytes-code n e true (negsuc v) h =
    let t : ltb (256 ^ n) (2 * suc v) ≡ false = ground arith in rw t refl

-- The integer that `n` bytes with the number `v` stand for.
abbrev decode : ℕ → ℕ → Bool → ℤ
decode n v false = pos v
decode n v true = if leb (256 ^ n) (2 * v) then sub_ℕ v (256 ^ n) else pos v

from_bytes-decode :
    (n v : ℕ) (e : Endian) (s : Bool) (bs : List ℕ)
    → length bs ≡ n
    → from_le (ordered e bs) ≡ v
    → from_bytes bs e s ≡ decode n v s
unfolding from_bytes
from_bytes-decode n v e false bs h g = rw g refl
from_bytes-decode n v e true bs h g = rw (h, g) refl

decode-code : (n : ℕ) (s : Bool) (z : ℤ) → Fits s n z → decode n (code n z) s ≡ z
decode-code n false (pos v) h = refl
decode-code n false (negsuc v) h = absurd h
decode-code n true (pos v) h = let t : leb (256 ^ n) (2 * v) ≡ false = ground arith in rw t refl
decode-code n true (negsuc v) h =
    let t : leb (256 ^ n) (2 * (256 ^ n - suc v)) ≡ true = ground arith in
    let t' : leb (256 ^ n) (256 ^ n - suc v) ≡ false = ground arith in
    let back : 256 ^ n - (256 ^ n - suc v) - 1 ≡ v = omega arith in rw (t, t', back) refl

decode-Fits :
    (n v : ℕ) (s : Bool) → v < 256 ^ n → Fits s n (decode n v s) × (code n (decode n v s) ≡ v)
decode-Fits n v false h = (h, refl)
decode-Fits n v true h = elim (Bool-cases (leb (256 ^ n) (2 * v))) [
  | inl e ↦
      let t' : leb (256 ^ n) v ≡ false = ground arith in rw (e, t') (ground arith, ground arith)
  | inr e ↦ rw e (ground arith, refl)
]

-- `to_bytes` writes `size` bytes for an integer that fits, and `from_bytes` reads it back.
pub to_bytes-inverse :
    (n : ℕ) (e : Endian) (s : Bool) (z : ℤ)
    → Fits s n z
    → (bs : List ℕ) × (to_bytes z n e s ≡ ok bs) × (length bs ≡ n) × (from_bytes bs e s ≡ z)
to_bytes-inverse n e s z h =
    let raw = le_bytes n (code n z) in
    let size = length-ordered e raw ∙ length-le_bytes n (code n z) in
    let value =
      ap from_le (ordered-ordered e raw) ∙ from_le-le_bytes n (code n z) (code-lt n s z h) in
    (
      ordered e raw,
      to_bytes-code n e s z h,
      size,
      from_bytes-decode n (code n z) e s (ordered e raw) size value ∙ decode-code n s z h,
    )

-- The other way: bytes become an integer that fits, and `to_bytes` gives them back.
pub from_bytes-inverse :
    (n : ℕ) (e : Endian) (s : Bool) (bs : List ℕ)
    → length bs ≡ n
    → All IsByte bs
    → Fits s n (from_bytes bs e s) × (to_bytes (from_bytes bs e s) n e s ≡ ok bs)
from_bytes-inverse n e s bs size h =
    let v = from_le (ordered e bs) in
    let raw = length-ordered e bs ∙ size in
    let below : v < 256 ^ n =
      omega (arith, from_le-lt (ordered e bs) (ordered-IsByte e bs h), ap (λ t. 256 ^ t) raw) in
    let (fits, same) = decode-Fits n v s below in
    let written =
      to_bytes-code n e s (decode n v s) fits
      ∙ ap (λ t. ok (ordered e (le_bytes n t))) same
      ∙ ap (λ t. ok (ordered e (le_bytes t v))) (sym raw)
      ∙ ap (λ t. ok (ordered e t)) (le_bytes-from_le (ordered e bs) (ordered-IsByte e bs h))
      ∙ ap ok (ordered-ordered e bs) in
    rw (from_bytes-decode n v e s bs size refl) (fits, written)

-- An integer out of range is an OverflowError.
pub to_bytes-overflow :
    (n : ℕ) (e : Endian) (s : Bool) (z : ℤ) → ¬ Fits s n z → to_bytes z n e s ≡ err overflow_error
unfolding to_bytes
to_bytes-overflow n e false (pos v) h = let t : leb (256 ^ n) v ≡ true = ground arith in rw t refl
to_bytes-overflow n e false (negsuc v) h = refl
to_bytes-overflow n e true (pos v) h =
    let t : leb (256 ^ n) (2 * v) ≡ true = ground arith in rw t refl
to_bytes-overflow n e true (negsuc v) h =
    let t : ltb (256 ^ n) (2 * suc v) ≡ true = ground arith in rw t refl
