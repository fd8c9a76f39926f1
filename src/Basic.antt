-- ===== src/Basic.antt =====
-- pip/skmap/src/skmap/basic.py: rounding, bit and byte helpers. Integers that the callers never
-- make negative (widths, sizes, addresses) are numbers.
pub mod Rounding
pub mod Bytes
pub mod ByteLists
pub mod Signed
mod Tests
use hdlskel.Base.{ℕ, zero, suc, ◌+◌, ◌-◌, ◌*◌, ◌/◌, ◌%◌, ◌^◌, ltb, leb, ◌==◌, if◌then◌else◌, not}
use hdlskel.Base.{◌||◌, Bool, true, false, List, [], ◌∷◌, ◌++◌, length, take, drop}
use hdlskel.Base.Bits.{without_bits}
use hdlskel.Base.Bytes.{le_bytes, from_le}
use hdlskel.Base.Int.{ℤ, pos, negsuc, sub_ℕ}
use hdlskel.Base.Result.{Result, ok, err, value_error, overflow_error, stuck, ◌>>=◌}
use Prim.Native.Nat.{bit_and, bit_or}
use mathlib.Core.List.{reverse}

-- `int.bit_length()` of a number, with fuel.
abbrev bit_length_fuel : ℕ → ℕ → ℕ
bit_length_fuel zero x = 0
bit_length_fuel (suc fuel) x =
    let high = bit_length_fuel fuel (x / 2) in if x == 0 then 0 else suc high

unfoldable pub bit_length : ℕ → ℕ
bit_length x = bit_length_fuel x x

unfoldable pub ceil_log2 : ℕ → ℕ
unfolding bit_length
ceil_log2 x = if ltb 0 x then bit_length (x - 1) else 0

-- For d = 0 Python raises, and no caller passes it.
unfoldable pub ceil_div : ℕ → ℕ → ℕ
ceil_div n d = (n + d - 1) / d

unfoldable pub ceil_multiple : ℕ → ℕ → ℕ
unfolding ceil_div
ceil_multiple num multiple = ceil_div num multiple * multiple

unfoldable pub round_multiple : ℕ → ℕ → ℕ
round_multiple n d = (n + d / 2) / d * d

unfoldable pub promote_to_sw_w : ℕ → ℕ
unfolding ceil_log2 ceil_multiple
promote_to_sw_w w = 2 ^ ceil_log2 (ceil_multiple w 8)

-- `(value & ~bit_mask) | (bit_mask & bit_vals)`
unfoldable pub set_bits : ℕ → ℕ → ℕ → ℕ
set_bits value bit_mask bit_vals = bit_or (without_bits value bit_mask) (bit_and bit_mask bit_vals)

abbrev pub bool_to_int : Bool → ℕ
bool_to_int true = 1
bool_to_int false = 0

-- `1 << n` is `2 ^ n`.
unfoldable pub set_bit : ℕ → ℕ → Bool → ℕ
unfolding set_bits
set_bit value bit_pos bit_val = set_bits value (2 ^ bit_pos) (bool_to_int bit_val * 2 ^ bit_pos)

-- `value -= sgn_bit*2` from the sign bit on. A width of 0 makes a negative shift, which raises.
unfoldable pub cast_uint_to_sint : ℕ → ℕ → Result ℤ
cast_uint_to_sint value zero = err value_error
cast_uint_to_sint value (suc w) =
    let sgn_bit = 2 ^ w in ok (if leb sgn_bit value then sub_ℕ value (sgn_bit * 2) else pos value)

-- `byteorder` and `signed` of `int.to_bytes` and `int.from_bytes`.
pub data Endian : Type 0 where
  little big : Endian

abbrev pub ordered : Endian → List ℕ → List ℕ
ordered little bs = bs
ordered big bs = reverse bs

-- `int.to_bytes(size, byteorder, signed)`: OverflowError for a value that does not fit.
unfoldable pub to_bytes : ℤ → ℕ → Endian → Bool → Result (List ℕ)
to_bytes (pos v) size e signed =
    if (if signed then leb (256 ^ size) (2 * v) else leb (256 ^ size) v)
    then err overflow_error
    else ok (ordered e (le_bytes size v))
to_bytes (negsuc v) size e signed =
    if not signed || ltb (256 ^ size) (2 * suc v)
    then err overflow_error
    else ok (ordered e (le_bytes size (256 ^ size - suc v)))

-- `int.from_bytes(bs, byteorder, signed)`
unfoldable pub from_bytes : List ℕ → Endian → Bool → ℤ
from_bytes bs e false = pos (from_le (ordered e bs))
from_bytes bs e true =
    let v = from_le (ordered e bs) in
    if leb (256 ^ length bs) (2 * v) then sub_ℕ v (256 ^ length bs) else pos v

-- The loop of `bytes_to_list_int`, with fuel.
unfoldable pub chunks_to_ints : ℕ → List ℕ → ℕ → Endian → Bool → List ℤ
unfolding from_bytes
chunks_to_ints fuel [] int_bytes e signed = []
chunks_to_ints zero (b ∷ bs) int_bytes e signed = []
chunks_to_ints (suc fuel) (b ∷ bs) int_bytes e signed =
    from_bytes (take int_bytes (b ∷ bs)) e signed
    ∷ chunks_to_ints fuel (drop int_bytes (b ∷ bs)) int_bytes e signed

-- Each round takes a byte at least, as `int_bytes` is above 0.
unfoldable pub bytes_to_list_int : List ℕ → ℕ → Endian → Bool → Result (List ℤ)
unfolding chunks_to_ints
bytes_to_list_int b int_bytes e signed =
    if length b % int_bytes == 0
    then ok (chunks_to_ints (length b) b int_bytes e signed)
    else err value_error

-- The bytearray is filled from its front, so the chunks stand one behind the other.
unfoldable pub list_int_to_bytes : List ℤ → ℕ → Endian → Bool → Result (List ℕ)
unfolding to_bytes
list_int_to_bytes [] int_bytes e signed = ok []
list_int_to_bytes (v ∷ vs) int_bytes e signed = do
  chunk ← to_bytes v int_bytes e signed
  rest ← list_int_to_bytes vs int_bytes e signed
  ok (chunk ++ rest)
