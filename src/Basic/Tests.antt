-- ===== src/Basic/Tests.antt =====
-- Runs of the helpers of pip/skmap/src/skmap/basic.py, and their theorems at concrete inputs.
use hdlskel.Base.{ℕ, ◌+◌, ◌*◌, ◌^◌, ◌≤◌, ◌≡◌, refl, arith, true, false}
use hdlskel.Base.{List, [], ◌∷◌, length, All}
use hdlskel.Base.Int.{ℤ, pos, negsuc}
use hdlskel.Base.Result.{ok, err, overflow_error}
use hdlskel.Basic.{Endian, ceil_log2, bit_length, ceil_div, ceil_multiple, round_multiple}
use hdlskel.Basic.{promote_to_sw_w, set_bits, set_bit, cast_uint_to_sint}
use hdlskel.Basic.{bytes_to_list_int, list_int_to_bytes, to_bytes}
use hdlskel.Basic.Bytes.{Fits}
use hdlskel.Basic.ByteLists.{bytes_to_list_int-inverse, list_int_to_bytes-inverse}
use hdlskel.Basic.Rounding.{promote_to_sw_w-least}
use hdlskel.Basic.Signed.{
  cast_uint_to_sint-IsSigned, cast_uint_to_sint-inverse, IsSigned, twos_complement,
}

ceil_log2_run : ceil_log2 9 ≡ 4
unfolding ceil_log2 bit_length
ceil_log2_run = refl

round_multiple_run : round_multiple 11 8 ≡ 8
unfolding round_multiple
round_multiple_run = refl

promote_run : promote_to_sw_w 17 ≡ 32
unfolding promote_to_sw_w ceil_log2 bit_length ceil_multiple ceil_div
promote_run = refl

set_bit_run : set_bit 0b1010 0 true ≡ 0b1011
unfolding set_bit set_bits
set_bit_run = refl

cast_run : cast_uint_to_sint 0xFE 8 ≡ ok (negsuc 1)
unfolding cast_uint_to_sint
cast_run = refl

too_big_run : to_bytes (pos 256) 1 Endian.little false ≡ err overflow_error
unfolding to_bytes
too_big_run = refl

promote_to_sw_w-least_example :
    (17 ≤ promote_to_sw_w 17)
    × (8 ≤ promote_to_sw_w 17)
    × ((k : ℕ) × (promote_to_sw_w 17 ≡ 2 ^ k))
    × ((k : ℕ) → 17 ≤ 2 ^ (k + 3) → promote_to_sw_w 17 ≤ 2 ^ (k + 3))
promote_to_sw_w-least_example = promote_to_sw_w-least 17 (omega arith)

cast_uint_to_sint-IsSigned_example :
    (z : ℤ) × (cast_uint_to_sint 0xFE 8 ≡ ok z) × IsSigned 7 z × (twos_complement 8 z ≡ 0xFE)
cast_uint_to_sint-IsSigned_example = cast_uint_to_sint-IsSigned 0xFE 7 (omega arith)

cast_uint_to_sint-inverse_example :
    cast_uint_to_sint (twos_complement 8 (negsuc 1)) 8 ≡ ok (negsuc 1)
cast_uint_to_sint-inverse_example = cast_uint_to_sint-inverse (negsuc 1) 7 (omega arith)

bytes_to_list_int-inverse_example :
    (bs : List ℕ) × (list_int_to_bytes (pos 5 ∷ negsuc 2 ∷ []) 2 Endian.big true ≡ ok bs)
    × (length bs ≡ 2 * 2)
    × (bytes_to_list_int bs 2 Endian.big true ≡ ok (pos 5 ∷ negsuc 2 ∷ []))
bytes_to_list_int-inverse_example =
    bytes_to_list_int-inverse 2 Endian.big true (omega arith) (pos 5 ∷ negsuc 2 ∷ []) (omega arith)

list_int_to_bytes-inverse_example :
    (vs : List ℤ) × (bytes_to_list_int (1 ∷ 2 ∷ 3 ∷ 4 ∷ []) 2 Endian.big true ≡ ok vs)
    × All (Fits true 2) vs
    × (list_int_to_bytes vs 2 Endian.big true ≡ ok (1 ∷ 2 ∷ 3 ∷ 4 ∷ []))
list_int_to_bytes-inverse_example =
    list_int_to_bytes-inverse 2 Endian.big true (omega arith) (1 ∷ 2 ∷ 3 ∷ 4 ∷ []) (omega arith)
      refl
