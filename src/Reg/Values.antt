-- ===== src/Reg/Values.antt =====
-- pip/skmap/src/skmap/reg.py: the fields of a `Reg`, its checks of a value and its conversions.
-- Floats and the recipe's check and conversion functions are parameters.
use hdlskel.Base.{
  ℕ, zero, suc, ◌-◌, ◌*◌, ◌/◌, ◌%◌, ◌^◌, ltb, ◌==◌, ◌&&◌, ◌||◌, not, if◌then◌else◌, Bool, true,
  false, Option, none, some, List, [], ◌∷◌,
}
use hdlskel.Base.Int.{ℤ, pos, ◌-ℤ◌, leb_ℤ}
use hdlskel.Base.Result.{
  Result, ok, err, assertion_error, value_error, attribute_error, guard, ◌>>=◌, ◌>>◌, map_ok,
}
use hdlskel.Basic.{Endian, to_bytes, promote_to_sw_w}
use hdlskel.Types.{Acc, Ass, rank, VType, ValueType, ValueKind, value_kind_to_v_type}

-- `Union[int, float]`
pub data Value (F : Type 0) : Type 0 where
  int : ℤ → Value F
  float : F → Value F

-- What the code uses of Python's floats: `int(x)`, `x >= 0`, `-x` and `int((x + 0.5)//1)`.
pub record FloatOps (F : Type 0) : Type 0 where
  pub to_int : F → Result ℤ
  pub is_ge_zero : F → Bool
  pub neg : F → F
  pub floor_half_up : F → Result ℤ

-- What a register's value reads as: a character is given by its code point.
pub data ReadValue (F : Type 0) : Type 0 where
  num : Value F → ReadValue F
  char : ℕ → ReadValue F

-- `ValueConvert`: a user value to a register value, and back.
pub record ValueConvert (F : Type 0) : Type 0 where
  pub fn : Value F → Result (Value F)
  pub fn_inv : Value F → Result (Value F)

-- The fields of a `Reg`; `v_check` is the function of its `ValueCheck`.
pub record Reg (F : Type 0) : Type 0 where
  pub value_type : ValueType
  pub acc : Acc
  pub ass : Ass
  pub size : ℕ
  pub elem_size : ℕ
  pub addr : Option ℕ
  pub v_check : Option (Value F → Result Bool)
  pub v_convert : Option (ValueConvert F)
  pub v_type : VType

-- `kind in (ValueKind.uint, ValueKind.sint, ValueKind.bits)`
abbrev pub is_number : ValueKind → Bool
is_number ValueKind.uint = true
is_number ValueKind.sint = true
is_number ValueKind.bits = true
is_number ValueKind.char = false
is_number ValueKind.flag = false

abbrev pub is_some {ℓ} : {A : Type ℓ} → Option A → Bool
is_some none = false
is_some (some a) = true

abbrev pub is_unset : Ass → Bool
is_unset a = rank a == 0

-- `acc in (Acc.rw, Acc.wt) or (acc == Acc.rc and not any(b))`
abbrev pub any_set : List ℕ → Bool
any_set [] = false
any_set (b ∷ bs) = not (b == 0) || any_set bs

abbrev pub may_write : Acc → List ℕ → Bool
may_write Acc.rw' b = true
may_write Acc.wt b = true
may_write Acc.rc b = not (any_set b)
may_write Acc.na b = false
may_write Acc.k b = false
may_write Acc.ro b = false

abbrev pub is_k : Acc → Bool
is_k Acc.k = true
is_k Acc.na = false
is_k Acc.ro = false
is_k Acc.rc = false
is_k Acc.rw' = false
is_k Acc.wt = false

abbrev pub or_default : VType → Option VType → VType
or_default t none = t
or_default t (some given) = given

-- `assert isinstance(self.addr, int)`
abbrev pub the_addr : Option ℕ → Result ℕ
the_addr none = err assertion_error
the_addr (some a) = ok a

-- The bounds of `check_value_fits_reg`: a sint of width 0 is a negative shift.
unfoldable pub fits_width : ValueKind → ℕ → ℤ → Bool
unfolding ◌-ℤ◌
fits_width ValueKind.sint zero z = false
fits_width ValueKind.sint (suc w) z = leb_ℤ (pos 0 -ℤ pos (2 ^ w)) z && leb_ℤ z (pos (2 ^ w - 1))
fits_width ValueKind.uint w z = leb_ℤ (pos 0) z && leb_ℤ z (pos (2 ^ w - 1))
fits_width ValueKind.bits w z = leb_ℤ (pos 0) z && leb_ℤ z (pos (2 ^ w - 1))
fits_width ValueKind.char w z = leb_ℤ (pos 0) z && leb_ℤ z (pos (2 ^ w - 1))
fits_width ValueKind.flag w z = leb_ℤ (pos 0) z && leb_ℤ z (pos (2 ^ w - 1))

-- `value_int & mask`, where the value is narrower than its bytes.
unfoldable pub mask_width : ℕ → ℕ → ℕ → ℕ
mask_width size width v = if width == size * 8 then v else v % 2 ^ width

module _ {F : Type 0} where
  -- `Reg.__init__`
  unfoldable pub init :
      ValueType
      → Acc
      → Ass
      → Option (Value F → Result Bool)
      → Option (ValueConvert F)
      → Option VType
      → Result (Reg F)
  unfolding promote_to_sw_w
  init t acc ass v_check v_convert v_type = do
    guard (not (is_some v_check) || is_number t.kind) assertion_error
    guard (not (is_some v_convert) || is_number t.kind) assertion_error
    ok (record {
      value_type = t;
      acc = acc;
      ass = ass;
      size = promote_to_sw_w t.width / 8;
      elem_size = promote_to_sw_w t.width / 8;
      addr = none;
      v_check = v_check;
      v_convert = v_convert;
      v_type = or_default (value_kind_to_v_type t.kind) v_type;
    })

  -- `int(value)`
  unfoldable pub int_of : FloatOps F → Value F → Result ℤ
  int_of ops (int z) = ok z
  int_of ops (float x) = ops.to_int x

  unfoldable pub round_half_away : FloatOps F → Value F → Result ℤ
  unfolding ◌-ℤ◌
  round_half_away ops (int z) = ok z
  round_half_away ops (float x) =
      if ops.is_ge_zero x
      then ops.floor_half_up x
      else map_ok (λ z. pos 0 -ℤ z) (ops.floor_half_up (ops.neg x))

  -- `value.to_bytes(size, byteorder='little', signed=signed)`: a float has no such method.
  unfoldable pub value_to_bytes : Value F → ℕ → Bool → Result (List ℕ)
  value_to_bytes (int z) size signed = to_bytes z size Endian.little signed
  value_to_bytes (float x) size signed = err attribute_error

  unfoldable pub has_limit : Reg F → Bool
  has_limit r = is_number r.value_type.kind && is_some r.v_check

  unfoldable pub has_ass : Reg F → Bool
  unfolding has_limit
  has_ass r = not (is_unset r.ass) || has_limit r

  unfoldable pub ass_check_value_limit : Reg F → Value F → Result Ass
  ass_check_value_limit r value = elim r.v_check [
    | none ↦ ok Ass.unset
    | some fn ↦ fn value >>= λ passes.
        ok (if passes then Ass.unset else if is_unset r.ass then Ass.error else r.ass)
  ]

  unfoldable pub check_value_limit : Reg F → Value F → Result (Unit {0})
  unfolding ass_check_value_limit
  check_value_limit r value = do
    ass ← ass_check_value_limit r value
    guard (ltb (rank ass) (rank Ass.error)) value_error

  unfoldable pub check_value_fits_reg : FloatOps F → Reg F → Value F → Result (Unit {0})
  unfolding fits_width int_of
  check_value_fits_reg ops r value = do
    value_int ← int_of ops value
    guard (fits_width r.value_type.kind r.value_type.width value_int) value_error

  unfoldable pub to_raw : FloatOps F → Reg F → Value F → Result (Value F)
  unfolding round_half_away
  to_raw ops r value = elim r.v_convert [
    | none ↦ ok value
    | some c ↦ c.fn value >>= λ x. map_ok int (round_half_away ops x)
  ]

  unfoldable pub from_raw : Reg F → Value F → Result (Value F)
  from_raw r raw = elim r.v_convert [ none ↦ ok raw | some c ↦ c.fn_inv raw ]

  -- A char register has no conversion.
  unfoldable pub from_raw_read : Reg F → ReadValue F → Result (ReadValue F)
  unfolding from_raw
  from_raw_read r (num v) = map_ok num (from_raw r v)
  from_raw_read r (char c) = ok (char c)

  -- The checks that come before a value is turned into bytes.
  unfoldable pub check_raw : FloatOps F → Reg F → Value F → Result (Unit {0})
  unfolding check_value_fits_reg from_raw check_value_limit
  check_raw ops r v = do check_value_fits_reg ops r v; user ← from_raw r v; check_value_limit r user
