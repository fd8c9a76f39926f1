-- ===== src/Reg/RoundTrip.antt =====
-- pip/skmap/src/skmap/reg.py: a value that is written to a register, and read from it.
use hdlskel.Base.{
  ℕ, zero, suc, ◌*◌, ◌+◌, ◌-◌, ◌^◌, ◌≤◌, ◌<◌, ◌≡◌, refl, ap, ◌∙◌, arith, Bool, true, false, List,
  get_elem?, ◌⊎◌,
}
use hdlskel.Base.Bytes.{le_bytes, from_le, length-le_bytes, from_le-le_bytes}
use hdlskel.Base.Int.{ℤ, pos, negsuc, ◌-ℤ◌}
use hdlskel.Base.Powers.{pow_pos}
use hdlskel.Base.Result.{Result, ok}
use hdlskel.Base.Exec.{continue, pure}
use hdlskel.Basic.{Endian}
use hdlskel.Basic.Bytes.{Fits, code, code-lt, to_bytes-code}
use hdlskel.Basic.Signed.{IsSigned, twos_complement, cast_uint_to_sint-inverse}
use hdlskel.Types.{ValueKind}
use hdlskel.Module.Access.{Module, ModuleState, cache_addr}
use hdlskel.Reg.Values.{
  Value, int, FloatOps, num, Reg, may_write, is_number, check_raw, check_value_limit,
  check_value_fits_reg, fits_width, int_of, to_raw, mask_width, value_to_bytes,
}
use native.Mathlib.Nat.{pow-suc}
use hdlskel.Reg.{
  read_bytes_cached, write_bytes_cached, read_uint_cached, read_sint_cached, read_value_cached,
  write_uint_cached, write_sint_cached, write_converted_cached, write_of_kind, read_of_kind,
}
use hdlskel.Reg.Stored.{
  IsPlaced, with_bytes, write_bytes_cached-stored, read_bytes_cached-stored, other_bytes,
  mask_width-small, mask_width-negated, fits_size,
}

-- A check that raised nothing let each of its parts pass.
check_raw-fits :
    {F : Type 0} (ops : FloatOps F) (r : Reg F) (z : ℤ)
    → check_raw ops r (int z) ≡ ok tt
    → (fits_width r.value_type.kind r.value_type.width z ≡ true)
      × (check_value_fits_reg ops r (int z) ≡ ok tt)
unfolding check_raw check_value_fits_reg int_of
check_raw-fits ops r z h = ground arith

abbrev pub is_sint : ValueKind → Bool
is_sint ValueKind.sint = true
is_sint ValueKind.uint = false
is_sint ValueKind.bits = false
is_sint ValueKind.char = false
is_sint ValueKind.flag = false

-- What a kind of width `w` can hold.
abbrev pub Holds : Bool → ℕ → ℤ → Type 0
Holds true w z = (w' : ℕ) × (w ≡ suc w') × IsSigned w' z
Holds false w z = (v : ℕ) × (z ≡ pos v) × (v < 2 ^ w)

unsigned-Holds : (w : ℕ) (z : ℤ) → fits_width ValueKind.uint w z ≡ true → Holds false w z
unfolding fits_width
unsigned-Holds w (pos v) h = (v, refl, ground (arith, pow_pos w))
unsigned-Holds w (negsuc v) h = absurd (ground arith)

signed-Holds : (w : ℕ) (z : ℤ) → fits_width ValueKind.sint w z ≡ true → Holds true w z
unfolding fits_width ◌-ℤ◌
signed-Holds zero z h = absurd (cc)
signed-Holds (suc w) (pos v) h = (w, refl, ground (arith, pow_pos w))
signed-Holds (suc w) (negsuc v) h = (w, refl, ground (arith, pow_pos w))

fits_width-Holds :
    (k : ValueKind) (w : ℕ) (z : ℤ)
    → is_number k ≡ true
    → fits_width k w z ≡ true
    → Holds (is_sint k) w z
unfolding fits_width
fits_width-Holds ValueKind.uint w z n h = unsigned-Holds w z h
fits_width-Holds ValueKind.bits w z n h = unsigned-Holds w z h
fits_width-Holds ValueKind.sint w z n h = signed-Holds w z h
fits_width-Holds ValueKind.char w z n h = absurd (cc)
fits_width-Holds ValueKind.flag w z n h = absurd (cc)

-- The bytes of a value that the register can hold, and the number that their bits are.
module _ (n w : ℕ) (wide : w ≤ 8 * n) where
  halves : (w' : ℕ) → w ≡ suc w' → 2 ^ w ≡ 2 ^ w' * 2
  halves w' e = ap (λ t. 2 ^ t) e ∙ pow-suc 2 w'

  all_bits : 2 ^ w ≤ 256 ^ n
  all_bits = omega (arith, fits_size n w wide (2 ^ w - 1) (omega (arith, pow_pos w)), pow_pos w)

  Holds-Fits : (signed : Bool) (z : ℤ) → Holds signed w z → Fits signed n z
  Holds-Fits false z (v, e, h) = rw e (fits_size n w wide v h)
  Holds-Fits true (pos v) (w', e, h) = omega (arith, halves w' e, all_bits)
  Holds-Fits true (negsuc v) (w', e, h) = omega (arith, halves w' e, all_bits)

  mask_width-code :
      (signed : Bool) (z : ℤ) → Holds signed w z → mask_width n w (code n z) ≡ twos_complement w z
  mask_width-code false z (v, e, h) = rw e (mask_width-small n w wide v h)
  mask_width-code true (pos v) (w', e, h) = mask_width-small n w wide v (omega (arith, halves w' e))
  mask_width-code true (negsuc v) (w', e, h) =
      mask_width-negated n w wide (suc v) (omega arith) (omega (arith, halves w' e))

module _ {F S : Type 0} (ops : FloatOps F) (m : Module S) (r : Reg F) where
  -- The bytes of a register value.
  abbrev pub raw_bytes : ℤ → List ℕ
  raw_bytes z = le_bytes r.size (code r.size z)

  -- A state in which the register's bytes are those of `z`.
  module _ (t : ModuleState S) (z : ℤ) (wide : r.value_type.width ≤ 8 * r.size)
      (stands : read_bytes_cached m r t ≡ (ok (raw_bytes z), t)) where
    uint_read :
        (signed : Bool)
        → Holds signed r.value_type.width z
        → read_uint_cached m r t ≡ (ok (twos_complement r.value_type.width z), t)
    unfolding read_uint_cached
    uint_read signed h =
        let n = r.size in
        let w = r.value_type.width in
        let fits = Holds-Fits n w wide signed z h in
        let back = from_le-le_bytes n (code n z) (code-lt n signed z fits) in
        ap
          (λ (res : Result (List ℕ) × ModuleState S).
            continue res.0 (λ b. pure (mask_width n w (from_le b))) res.1)
          stands
        ∙ ap (λ x. (ok (mask_width n w x), t)) back
        ∙ ap (λ x. (ok x, t)) (mask_width-code n w wide signed z h)

    read_unsigned :
        Holds false r.value_type.width z → read_of_kind m r ValueKind.uint t ≡ (ok (num (int z)), t)
    read_unsigned (v, e, h) = rw (uint_read false (v, e, h)) (rw e refl)

    read_signed : Holds true r.value_type.width z → read_sint_cached m r t ≡ (ok z, t)
    unfolding read_sint_cached
    read_signed (w', e, h) =
        rw (uint_read true (w', e, h)) (rw e (ap (λ x. (x, t)) (cast_uint_to_sint-inverse z w' h)))

    pub read_back :
        (k : ValueKind)
        → is_number k ≡ true
        → Holds (is_sint k) r.value_type.width z
        → read_of_kind m r k t ≡ (ok (num (int z)), t)
    read_back ValueKind.uint n h = read_unsigned h
    read_back ValueKind.bits n h = read_unsigned h
    read_back ValueKind.sint n h = rw (read_signed h) refl
    read_back ValueKind.char n h = absurd (cc)
    read_back ValueKind.flag n h = absurd (cc)

  module _ {addr : ℕ} {s : ModuleState S} (p : IsPlaced m r addr s)
      (may : (b : List ℕ) → may_write r.acc b ≡ true) (z : ℤ)
      (passes : check_raw ops r (int z) ≡ ok tt) where
    abbrev after : ModuleState S
    after = with_bytes m r addr (raw_bytes z) s

    bytes_stored :
        (signed : Bool)
        → Fits signed r.size z
        → continue (value_to_bytes {F = F} (int z) r.size signed) (λ b. write_bytes_cached m r b) s
          ≡ (ok tt, after)
    unfolding value_to_bytes
    bytes_stored signed fits =
        let e = to_bytes-code r.size Endian.little signed z fits in
        ap (λ t. continue t (λ b. write_bytes_cached m r b) s) e
        ∙ write_bytes_cached-stored m r p (raw_bytes z) (may (raw_bytes z))
            (length-le_bytes r.size (code r.size z))

    uint_stored : Fits false r.size z → write_uint_cached ops m r (int z) s ≡ (ok tt, after)
    unfolding write_uint_cached
    uint_stored fits = rw passes (bytes_stored false fits)

    sint_stored : Fits true r.size z → write_sint_cached ops m r (int z) s ≡ (ok tt, after)
    unfolding write_sint_cached
    sint_stored fits = rw passes (bytes_stored true fits)

    written :
        (k : ValueKind)
        → is_number k ≡ true
        → Holds (is_sint k) r.value_type.width z
        → write_of_kind ops m r k (int z) s ≡ (ok tt, after)
    written ValueKind.uint n h = uint_stored (Holds-Fits r.size r.value_type.width p.wide false z h)
    written ValueKind.bits n h = uint_stored (Holds-Fits r.size r.value_type.width p.wide false z h)
    written ValueKind.sint n h = sint_stored (Holds-Fits r.size r.value_type.width p.wide true z h)
    written ValueKind.char n h = absurd (cc)
    written ValueKind.flag n h = absurd (cc)

  -- The state after a write that passes, and that the value is one that the register holds.
  pub converted_written :
      (s : ModuleState S) (addr : ℕ) (value : Value F) (z : ℤ)
      → IsPlaced m r addr s
      → is_number r.value_type.kind ≡ true
      → ((b : List ℕ) → may_write r.acc b ≡ true)
      → check_value_limit r value ≡ ok tt
      → to_raw ops r value ≡ ok (int z)
      → check_raw ops r (int z) ≡ ok tt
      → (write_converted_cached ops m r value s ≡ (ok tt, with_bytes m r addr (raw_bytes z) s))
        × Holds (is_sint r.value_type.kind) r.value_type.width z
  unfolding write_converted_cached
  converted_written s addr value z p number may limit raw passes =
      let k = r.value_type.kind in
      let (fits, kept) = check_raw-fits ops r z passes in
      let h = fits_width-Holds k r.value_type.width z number fits in
      (rw (limit, raw, kept) (written p may z passes k number h), h)

  -- `write_converted_cached` stores a user value under these conditions: the value passes its check;
  -- the conversion turns it into an integer that fits the register; what that integer is converted
  -- back to passes the check as well; the register is of kind uint, sint or bits, any bytes may be
  -- written to it, and it has an address inside the module's cache and the bytes for its width. The
  -- register then reads that integer, and neither the device nor any other address of the cache has
  -- changed.
  pub read_value-write_converted :
      (s : ModuleState S) (addr : ℕ) (value : Value F) (z : ℤ)
      → IsPlaced m r addr s
      → is_number r.value_type.kind ≡ true
      → ((b : List ℕ) → may_write r.acc b ≡ true)
      → check_value_limit r value ≡ ok tt
      → to_raw ops r value ≡ ok (int z)
      → check_raw ops r (int z) ≡ ok tt
      → (s' : ModuleState S) × (write_converted_cached ops m r value s ≡ (ok tt, s'))
        × (read_value_cached m r s' ≡ (ok (num (int z)), s'))
        × (s'.dev ≡ s.dev)
        × ((x : ℕ)
            → (x < cache_addr m addr) ⊎ (cache_addr m addr + r.size ≤ x)
            → get_elem? s'.cache x ≡ get_elem? s.cache x)
  unfolding read_value_cached
  read_value-write_converted s addr value z p number may limit raw passes =
      let len = length-le_bytes r.size (code r.size z) in
      let (e, h) = converted_written s addr value z p number may limit raw passes in
      let after = with_bytes m r addr (raw_bytes z) s in
      let stands = read_bytes_cached-stored m r p (raw_bytes z) len in
      (
        after,
        e,
        read_back after z p.wide stands r.value_type.kind number h,
        refl,
        λ x out. other_bytes m r p (raw_bytes z) x len out,
      )
