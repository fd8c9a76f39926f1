-- ===== src/Basic/ByteLists.antt =====
-- pip/skmap/src/skmap/basic.py: `bytes_to_list_int` and `list_int_to_bytes`.
use hdlskel.Base.{ℕ, zero, suc, ◌-◌, ◌*◌, ◌%◌, ◌≤◌, ◌<◌, ◌==◌, ltb, ltb→lt}
use hdlskel.Base.{◌≡◌, refl, sym, ap, ◌∙◌, arith, Bool-cases, inl, inr, Bool, true}
use hdlskel.Base.{
  List, [], ◌∷◌, ◌++◌, length, take, drop, All, length-append, length-take, length-drop,
}
use hdlskel.Base.{take-length-append, drop-length-append, take-append-drop, All-take, All-drop}
use hdlskel.Base.Bytes.{IsByte}
use hdlskel.Base.Int.{ℤ}
use hdlskel.Base.Result.{ok}
use native.Mathlib.Nat.{mul-mod_left, mod-eq_of_lt, mod-eq-sub-mod}
use hdlskel.Basic.{Endian, from_bytes, chunks_to_ints, bytes_to_list_int, list_int_to_bytes}
use hdlskel.Basic.Bytes.{Fits, to_bytes-inverse, from_bytes-inverse}

mod-reaches : (a n : ℕ) → a % n ≡ 0 → 0 < a → n ≤ a
mod-reaches a n m h = elim (Bool-cases (ltb a n)) [
  | inl e ↦ absurd (omega (arith, mod-eq_of_lt (ltb→lt a n e)))
  | inr e ↦ ground arith
]

mod-less : (a n : ℕ) → n ≤ a → a % n ≡ 0 → (a - n) % n ≡ 0
mod-less a n h m = sym (mod-eq-sub-mod h) ∙ m

module _ (n : ℕ) (e : Endian) (s : Bool) (h : 0 < n) where
  chunks-append :
      (fuel : ℕ) (chunk rest : List ℕ)
      → length chunk ≡ n
      → length (chunk ++ rest) ≤ fuel
      → chunks_to_ints fuel (chunk ++ rest) n e s
        ≡ from_bytes chunk e s ∷ chunks_to_ints (fuel - 1) rest n e s
  unfolding chunks_to_ints
  chunks-append fuel [] rest g k = absurd (omega arith)
  chunks-append zero (b ∷ chunk) rest g k = absurd (omega arith)
  chunks-append (suc fuel) (b ∷ chunk) rest g k =
      let front : take n ((b ∷ chunk) ++ rest) ≡ b ∷ chunk =
        ap (λ t. take t ((b ∷ chunk) ++ rest)) (sym g) ∙ take-length-append (b ∷ chunk) rest in
      let back : drop n ((b ∷ chunk) ++ rest) ≡ rest =
        ap (λ t. drop t ((b ∷ chunk) ++ rest)) (sym g) ∙ drop-length-append (b ∷ chunk) rest in
      let fuel_left : suc fuel - 1 ≡ fuel = omega arith in rw (front, back, fuel_left) refl

  chunks_nil : (fuel : ℕ) → chunks_to_ints fuel [] n e s ≡ []
  unfolding chunks_to_ints
  chunks_nil zero = refl
  chunks_nil (suc fuel) = refl

  written :
      (vs : List ℤ)
      → All (Fits s n) vs
      → (bs : List ℕ) × (list_int_to_bytes vs n e s ≡ ok bs)
        × (length bs ≡ length vs * n)
        × ((fuel : ℕ) → length bs ≤ fuel → chunks_to_ints fuel bs n e s ≡ vs)
  unfolding list_int_to_bytes chunks_to_ints
  written [] g = ([], refl, omega arith, λ fuel k. chunks_nil fuel)
  written (v ∷ vs) (g, gs) =
      let (chunk, out, size, value) = to_bytes-inverse n e s v g in
      let (rest, outs, sizes, values) = written vs gs in
      (
        chunk ++ rest,
        rw (out, outs) refl,
        omega (arith, length-append chunk rest),
        λ fuel k.
            chunks-append fuel chunk rest size k
            ∙ rw (value, values (fuel - 1) (omega (arith, length-append chunk rest))) refl,
      )

  -- Integers that fit in `n` bytes each, for `n` above 0 and either order and sign, are written by
  -- `list_int_to_bytes` as `n` bytes each, and `bytes_to_list_int` reads the same integers back.
  pub bytes_to_list_int-inverse :
      (vs : List ℤ)
      → All (Fits s n) vs
      → (bs : List ℕ) × (list_int_to_bytes vs n e s ≡ ok bs)
        × (length bs ≡ length vs * n)
        × (bytes_to_list_int bs n e s ≡ ok vs)
  unfolding bytes_to_list_int
  bytes_to_list_int-inverse vs g =
      let (bs, out, size, values) = written vs g in
      let whole : (length bs % n == 0) ≡ true = ground (arith, size, mul-mod_left (length vs) n) in
      (bs, out, size, rw (whole, values (length bs) (omega arith)) refl)

  parsed :
      (fuel : ℕ) (bs : List ℕ)
      → All IsByte bs
      → length bs ≤ fuel
      → length bs % n ≡ 0
      → All (Fits s n) (chunks_to_ints fuel bs n e s)
        × (list_int_to_bytes (chunks_to_ints fuel bs n e s) n e s ≡ ok bs)
  unfolding chunks_to_ints list_int_to_bytes
  parsed zero [] g k m = (tt, refl)
  parsed (suc fuel) [] g k m = (tt, refl)
  parsed zero (b ∷ bs) g k m = absurd (omega arith)
  parsed (suc fuel) (b ∷ bs) g k m =
      let full : n ≤ length (b ∷ bs) = mod-reaches (length (b ∷ bs)) n m (omega arith) in
      let front = take n (b ∷ bs) in
      let back = drop n (b ∷ bs) in
      let left : length back ≡ length (b ∷ bs) - n = length-drop n (b ∷ bs) in
      let size : length front ≡ n = omega (arith, length-take n (b ∷ bs)) in
      let (fits, out) = from_bytes-inverse n e s front size (All-take IsByte n (b ∷ bs) g) in
      let (rest_fits, rest) =
        parsed fuel back (All-drop IsByte n (b ∷ bs) g) (omega arith)
          (ap (λ t. t % n) left ∙ mod-less (length (b ∷ bs)) n full m) in
      ((fits, rest_fits), rw (out, rest) (ap ok (take-append-drop n (b ∷ bs))))

  -- Bytes whose number is a multiple of `n`, which is above 0, are split by `bytes_to_list_int`
  -- into integers that fit in `n` bytes, from which `list_int_to_bytes` makes the same bytes.
  pub list_int_to_bytes-inverse :
      (bs : List ℕ)
      → All IsByte bs
      → length bs % n ≡ 0
      → (vs : List ℤ) × (bytes_to_list_int bs n e s ≡ ok vs)
        × All (Fits s n) vs
        × (list_int_to_bytes vs n e s ≡ ok bs)
  unfolding bytes_to_list_int
  list_int_to_bytes-inverse bs g m =
      let (fits, out) = parsed (length bs) bs g (omega arith) m in
      let whole : (length bs % n == 0) ≡ true = ground arith in
      (chunks_to_ints (length bs) bs n e s, rw whole refl, fits, out)
