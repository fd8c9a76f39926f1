-- ===== src/Module/Layout/Apart.antt =====
-- pip/skmap/src/skmap/module.py: the addresses that `_add_reg_var` gives.
use hdlskel.Base.{
  ℕ, ◌+◌, ◌/◌, ◌%◌, ◌≤◌, ◌<◌, max, ◌==◌, ◌≡◌, ◌≢◌, refl, sym, ◌∙◌, arith, some, List, [], ◌∷◌, ◌++◌,
  Bool-cases, inl, inr,
}
use hdlskel.Basic.{promote_to_sw_w}
use hdlskel.Basic.Rounding.{ceil_multiple-least}
use hdlskel.Module.Layout.{
  AnyReg, plain, vec, flags, Layout, base_reg, set_addr, align_idx, add_reg_var, add_all_var,
}
use mathlib.Core.List.{append_assoc, append-nil}

-- The alignment of a register whose value has this width.
abbrev pub reg_align : ℕ → ℕ → ℕ
reg_align byte_align width = max byte_align (promote_to_sw_w width / 8)

-- Aligning never goes back, and what it aligns is a multiple.
pub align_idx_bounds :
    (byte_align width idx : ℕ)
    → 0 < byte_align
    → (idx ≤ align_idx byte_align width idx)
      × (width ≢ 0 → align_idx byte_align width idx % reg_align byte_align width ≡ 0)
unfolding align_idx
align_idx_bounds byte_align width idx h =
    let (up, _, multiple) = ceil_multiple-least idx (reg_align byte_align width) (omega arith) in
    elim (Bool-cases (width == 0)) [
      | inl e ↦ rw e (omega arith, λ ne. absurd (ground arith))
      | inr e ↦ rw e (up, λ ne. multiple)
    ]

module _ {F : Type 0} (base_addr byte_align : ℕ) where
  -- Registers from `lo` to `hi`, relative to the base: one behind the other, each that has a width
  -- at an offset that is a multiple of its alignment.
  abbrev pub IsLaidOut : ℕ → List (AnyReg F) → ℕ → Type 0
  IsLaidOut lo [] hi = lo ≤ hi
  IsLaidOut lo (r ∷ rs) hi =
      (start : ℕ) × ((base_reg r).addr ≡ some (start + base_addr))
      × (lo ≤ start)
      × ((base_reg r).value_type.width ≢ 0
          → start % reg_align byte_align (base_reg r).value_type.width ≡ 0)
      × IsLaidOut (start + (base_reg r).size) rs hi

  lower :
      (lo' lo : ℕ) (rs : List (AnyReg F)) (hi : ℕ)
      → lo' ≤ lo
      → IsLaidOut lo rs hi
      → IsLaidOut lo' rs hi
  lower lo' lo [] hi h k = omega arith
  lower lo' lo (r ∷ rs) hi h (start, e, le, al, k) = (start, e, omega arith, al, k)

  -- A register but for its address.
  abbrev pub SameReg : AnyReg F → AnyReg F → Type 0
  SameReg r r' = (a : ℕ) × (r' ≡ set_addr a r)

  abbrev pub SameRegs : List (AnyReg F) → List (AnyReg F) → Type 0
  SameRegs [] [] = Unit
  SameRegs [] (r' ∷ rs') = ⊥
  SameRegs (r ∷ rs) [] = ⊥
  SameRegs (r ∷ rs) (r' ∷ rs') = SameReg r r' × SameRegs rs rs'

  placed_fields :
      (r : AnyReg F) (a : ℕ)
      → ((base_reg (set_addr a r)).addr ≡ some a)
        × ((base_reg (set_addr a r)).size ≡ (base_reg r).size)
        × ((base_reg (set_addr a r)).value_type ≡ (base_reg r).value_type)
  placed_fields (plain r) a = (refl, refl, refl)
  placed_fields (vec r) a = (refl, refl, refl)
  placed_fields (flags r) a = (refl, refl, refl)

  -- Adding registers one by one appends them to the module's variables, in their order and unchanged
  -- but for their addresses. Each stands behind the end of the one before, so no two of them overlap,
  -- and the last ends at or below the index that is left. The offset from the module's base address
  -- at which a register with a width above 0 stands is a multiple of the register's alignment.
  pub add_all_var-IsLaidOut :
      (rs : List (AnyReg F)) (l : Layout F)
      → 0 < byte_align
      → l.byte_align ≡ byte_align
      → (rs' : List (AnyReg F)) × ((add_all_var base_addr rs l).arr_reg_var ≡ l.arr_reg_var ++ rs')
        × SameRegs rs rs'
        × IsLaidOut l.byte_idx rs' (add_all_var base_addr rs l).byte_idx
  unfolding add_all_var add_reg_var
  add_all_var-IsLaidOut [] l h e = ([], sym (append-nil l.arr_reg_var), tt, omega arith)
  add_all_var-IsLaidOut (r ∷ rs) l h e =
      let width = (base_reg r).value_type.width in
      let l1 = add_reg_var base_addr r l in
      let (rs', same, regs, laid) = add_all_var-IsLaidOut rs l1 h e in
      let start = align_idx l.byte_align width l.byte_idx in
      let r' = set_addr (start + base_addr) r in
      let (addr, size, type) = placed_fields r (start + base_addr) in
      let (up, al) = align_idx_bounds l.byte_align width l.byte_idx (omega arith) in
      let after = align_idx_bounds l.byte_align width (start + (base_reg r).size) (omega arith) in
      (
        r' ∷ rs',
        same ∙ append_assoc l.arr_reg_var (r' ∷ []) rs',
        ((start + base_addr, refl), regs),
        (
          start,
          addr,
          up,
          rw (type, sym e) al,
          lower (start + (base_reg r').size) l1.byte_idx rs' (add_all_var base_addr rs l1).byte_idx
              (rw size after.0) laid,
        ),
      )
