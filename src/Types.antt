-- ===== src/Types.antt =====
-- pip/skmap/src/skmap/basic_types.py: access kinds, value kinds and value types. Names and colours
-- for printing are not modelled.
use hdlskel.Base.{ℕ, ◌*◌, ◌/◌, Bool, true, false, Option, none, some}
use hdlskel.Basic.{promote_to_sw_w}

-- `SKMAP_WORD_BYTES`
abbrev pub word_bytes : ℕ
word_bytes = 4

pub data Acc : Type 0 where
  -- `rw` is a word of the language.
  na k ro rc rw' wt : Acc

unfoldable pub sw_writable : Acc → Option Bool
sw_writable Acc.na = none
sw_writable Acc.k = some false
sw_writable Acc.ro = some false
sw_writable Acc.rc = some false
sw_writable Acc.rw' = some true
sw_writable Acc.wt = some true

-- The members of the integer enumeration `Ass`, in order; `unset` is its `none`.
pub data Ass : Type 0 where
  unset passed debug info warn error fatal : Ass

-- The value of a member, plus 1: the members are compared as integers.
abbrev pub rank : Ass → ℕ
rank Ass.unset = 0
rank Ass.passed = 1
rank Ass.debug = 2
rank Ass.info = 3
rank Ass.warn = 4
rank Ass.error = 5
rank Ass.fatal = 6

pub data VType : Type 0 where
  u s f : VType

pub data ValueKind : Type 0 where
  uint sint char bits flag : ValueKind

unfoldable pub value_kind_to_v_type : ValueKind → VType
value_kind_to_v_type ValueKind.sint = VType.s
value_kind_to_v_type ValueKind.uint = VType.u
value_kind_to_v_type ValueKind.char = VType.u
value_kind_to_v_type ValueKind.bits = VType.u
value_kind_to_v_type ValueKind.flag = VType.u

pub record ValueType : Type 0 where
  pub kind : ValueKind
  pub width : ℕ
  pub vec_len : Option ℕ

abbrev pub is_vec : ValueType → Bool
is_vec t = is_some t.vec_len
  where
    is_some : Option ℕ → Bool
    is_some none = false
    is_some (some n) = true

-- `promote_to_sw_w(self.width) >> 3`
unfoldable pub elem_size : ValueType → ℕ
unfolding promote_to_sw_w
elem_size t = promote_to_sw_w t.width / 8

unfoldable pub total_size : ValueType → ℕ
unfolding elem_size
total_size t = times t.vec_len
  where
    times : Option ℕ → ℕ
    times none = elem_size t
    times (some n) = elem_size t * n
