-- ===== src/Module/Layout.antt =====
-- pip/skmap/src/skmap/module.py: where a module puts its registers.
pub mod Apart
use hdlskel.Base.{
  ℕ, zero, suc, ◌+◌, ◌*◌, ◌/◌, max, ◌==◌, if◌then◌else◌, Bool, Option, some, List, [], ◌∷◌, ◌++◌,
}
use hdlskel.Base.Result.{Result, ok, map_ok, ◌>>=◌}
use hdlskel.Basic.{ceil_multiple, promote_to_sw_w}
use hdlskel.Types.{Acc, Ass, ValueType, ValueKind}
use hdlskel.Reg.Values.{Reg, has_ass, is_some}
use hdlskel.Reg.Values
use hdlskel.Reg.Vec.{RegVec}
use hdlskel.Reg.Flags.{RegFlags, flags_have_ass}

-- A register of any class.
pub data AnyReg (F : Type 0) : Type 0 where
  plain : Reg F → AnyReg F
  vec : RegVec F → AnyReg F
  flags : RegFlags F → AnyReg F

-- The fields of a `Module` that change while its registers are added.
pub record Layout (F : Type 0) : Type 0 where
  pub byte_idx : ℕ
  pub byte_align : ℕ
  pub arr_reg_k : List (AnyReg F)
  pub arr_reg_var : List (AnyReg F)
  pub arr_reg_var_ass : List (AnyReg F)

-- `value_type_x32`
abbrev pub value_type_x32 : ValueType
value_type_x32 = record { kind = ValueKind.bits; width = 32; vec_len = Option.none }

-- `_byte_idx_align_addr_width`
unfoldable pub align_idx : ℕ → ℕ → ℕ → ℕ
unfolding ceil_multiple promote_to_sw_w
align_idx byte_align width idx =
    if width == 0 then idx else ceil_multiple idx (max byte_align (promote_to_sw_w width / 8))

module _ {F : Type 0} where
  abbrev pub base_reg : AnyReg F → Reg F
  base_reg (plain r) = r
  base_reg (vec r) = r.reg
  base_reg (flags r) = r.reg

  -- `reg.addr = addr`
  abbrev pub set_addr : ℕ → AnyReg F → AnyReg F
  set_addr addr (plain r) = plain (record r { addr = some addr })
  set_addr addr (vec r) = vec (record r { reg = record r.reg { addr = some addr } })
  set_addr addr (flags r) = flags (record r { reg = record r.reg { addr = some addr } })

  -- `has_ass` of the register's class.
  unfoldable pub any_has_ass : AnyReg F → Bool
  unfolding has_ass flags_have_ass
  any_has_ass (plain r) = has_ass r
  any_has_ass (vec r) = has_ass r.reg
  any_has_ass (flags r) = flags_have_ass r.flags

  unfoldable pub add_reg_k : ℕ → AnyReg F → Layout F → Layout F
  unfolding align_idx
  add_reg_k base_addr reg l =
      let width = (base_reg reg).value_type.width in
      let start = align_idx l.byte_align width l.byte_idx in
      let placed = set_addr (start + base_addr) reg in
      record l {
        byte_idx = align_idx l.byte_align width (start + (base_reg reg).size);
        arr_reg_k = l.arr_reg_k ++ (placed ∷ []);
        arr_reg_var_ass =
            if is_some (base_reg reg).v_check
            then l.arr_reg_var_ass ++ (placed ∷ [])
            else l.arr_reg_var_ass;
      }

  unfoldable pub add_reg_var : ℕ → AnyReg F → Layout F → Layout F
  unfolding align_idx any_has_ass
  add_reg_var base_addr reg l =
      let width = (base_reg reg).value_type.width in
      let start = align_idx l.byte_align width l.byte_idx in
      let placed = set_addr (start + base_addr) reg in
      record l {
        byte_idx = align_idx l.byte_align width (start + (base_reg reg).size);
        arr_reg_var = l.arr_reg_var ++ (placed ∷ []);
        arr_reg_var_ass =
            if any_has_ass reg then l.arr_reg_var_ass ++ (placed ∷ []) else l.arr_reg_var_ass;
      }

  -- A set-up that adds registers one by one.
  unfoldable pub add_all_var : ℕ → List (AnyReg F) → Layout F → Layout F
  unfolding add_reg_var
  add_all_var base_addr [] l = l
  add_all_var base_addr (r ∷ rs) l = add_all_var base_addr rs (add_reg_var base_addr r l)

  -- `ModuleUnkowen._init_reg_map_k` and `_init_reg_map_var`: `n` words.
  unfoldable pub unknown_map_k : ℕ → ℕ → Layout F → Result (Layout F)
  unfolding add_reg_k
  unknown_map_k base_addr zero l = ok l
  unknown_map_k base_addr (suc n) l = do
    r ← Values.init value_type_x32 Acc.k Ass.unset Option.none Option.none Option.none
    unknown_map_k base_addr n (add_reg_k base_addr (plain r) l)

  unfoldable pub unknown_map_var : ℕ → ℕ → Layout F → Result (Layout F)
  unfolding add_reg_var
  unknown_map_var base_addr zero l = ok l
  unknown_map_var base_addr (suc n) l = do
    r ← Values.init value_type_x32 Acc.na Ass.unset Option.none Option.none Option.none
    unknown_map_var base_addr n (add_reg_var base_addr (plain r) l)
