-- ===== src/Module/Init/Unknown.antt =====
-- pip/skmap/src/skmap/module.py: an instance of `ModuleUnkowen`.
use hdlskel.Base.{
  ℕ, zero, suc, ◌+◌, ◌-◌, ◌*◌, ◌/◌, ◌%◌, ◌≤◌, max, ◌==◌, ◌≡◌, refl, ap, ◌∙◌, arith, true, false,
  none, length-append, List, [], length,
}
use hdlskel.Base.Result.{Result, ok, err, assertion_error, map_ok, traverse, ◌>>=◌}
use hdlskel.Basic.{ceil_multiple, ceil_div, promote_to_sw_w, ceil_log2, bit_length}
use hdlskel.Head.{Head, size_word, sync_byte, module_size}
use hdlskel.Reg.Values
use hdlskel.Reg.Values.{Reg}
use hdlskel.Types.{Acc, Ass, VType, value_kind_to_v_type}
use hdlskel.Module.Init.{
  MemEntry, cast_to_derived, SubHead, Built, read_kid_addrs, scan_sub_head, init_regs, init,
  to_word,
}
use hdlskel.Module.Init.Memories.{has_cached, cast_uncached, cast_cached, scan-Untyped}
use hdlskel.Module.Layout.{
  Layout, plain, align_idx, add_reg_k, add_reg_var, unknown_map_k, unknown_map_var, value_type_x32,
}

word_reg : promote_to_sw_w 32 ≡ 32
unfolding promote_to_sw_w ceil_log2 bit_length ceil_multiple ceil_div
word_reg = refl

-- A word behind words, where the alignment is no more than a word.
align_word : (byte_align idx : ℕ) → byte_align ≤ 4 → idx % 4 ≡ 0 → align_idx byte_align 32 idx ≡ idx
unfolding align_idx ceil_multiple ceil_div
align_word byte_align idx h e =
    let four : max byte_align (promote_to_sw_w 32 / 8) ≡ 4 =
      ap (λ w. max byte_align (w / 8)) word_reg ∙ omega arith in
    rw four (omega arith)

abbrev unknown_reg : Acc → {F : Type 0} → Reg F
unknown_reg acc = record {
  value_type = value_type_x32;
  acc = acc;
  ass = Ass.unset;
  size = 4;
  elem_size = 4;
  addr = none;
  v_check = none;
  v_convert = none;
  v_type = VType.u;
}

-- The index behind a word that is added.
next_word :
    (byte_align idx : ℕ)
    → byte_align ≤ 4
    → idx % 4 ≡ 0
    → align_idx byte_align 32 (align_idx byte_align 32 idx + 4) ≡ idx + 4
next_word byte_align idx h e =
    ap (λ i. align_idx byte_align 32 (i + 4)) (align_word byte_align idx h e)
    ∙ align_word byte_align (idx + 4) h (omega arith)

module _ {F : Type 0} (base_addr : ℕ) where
  pub unknown_map_k-words :
      (n : ℕ) (l : Layout F)
      → l.byte_align ≤ 4
      → l.byte_idx % 4 ≡ 0
      → (l' : Layout F) × (unknown_map_k base_addr n l ≡ ok l')
        × (l'.byte_idx ≡ l.byte_idx + 4 * n)
        × (length l'.arr_reg_k ≡ length l.arr_reg_k + n)
        × (l'.arr_reg_var ≡ l.arr_reg_var)
  unfolding unknown_map_k add_reg_k Values.init value_kind_to_v_type
  unknown_map_k-words zero l h e = (l, refl, omega arith, omega arith, refl)
  unknown_map_k-words (suc n) l h e =
      let l1 = add_reg_k base_addr (plain (unknown_reg Acc.k)) l in
      let next : l1.byte_idx ≡ l.byte_idx + 4 = next_word l.byte_align l.byte_idx h e in
      let (l', e', idx, len, same) = unknown_map_k-words n l1 h (omega arith) in
      (l', e', omega arith, omega (arith, len, length-append l.arr_reg_k), same)

  pub unknown_map_var-words :
      (n : ℕ) (l : Layout F)
      → l.byte_align ≤ 4
      → l.byte_idx % 4 ≡ 0
      → (l' : Layout F) × (unknown_map_var base_addr n l ≡ ok l')
        × (l'.byte_idx ≡ l.byte_idx + 4 * n)
        × (length l'.arr_reg_var ≡ length l.arr_reg_var + n)
        × (l'.arr_reg_k ≡ l.arr_reg_k)
  unfolding unknown_map_var add_reg_var Values.init value_kind_to_v_type
  unknown_map_var-words zero l h e = (l, refl, omega arith, omega arith, refl)
  unknown_map_var-words (suc n) l h e =
      let l1 = add_reg_var base_addr (plain (unknown_reg Acc.na)) l in
      let next : l1.byte_idx ≡ l.byte_idx + 4 = next_word l.byte_align l.byte_idx h e in
      let (l', e', idx, len, same) = unknown_map_var-words n l1 h (omega arith) in
      (l', e', omega arith, omega (arith, len, length-append l.arr_reg_var), same)

to_word_same : (idx : ℕ) → idx % 4 ≡ 0 → to_word idx ≡ idx
unfolding ceil_div
to_word_same idx e = omega arith

bind_map : {A B : Type 0} (f : A → B) (r : Result A) → (r >>= λ a. ok (f a)) ≡ map_ok f r
bind_map f (ok a) = refl
bind_map f (err x) = refl

module _ {F A : Type 0} (addr : ℕ) (head : Head A) where
  abbrev pub map_k : Layout F → Result (Layout F)
  map_k = unknown_map_k addr head.len_k

  abbrev pub map_var : Layout F → Result (Layout F)
  map_var = unknown_map_var addr head.len_var

  -- The registers of an unknown module are the words that its head announces.
  abbrev pub AllWords : List ℕ → SubHead → Built F → Type 0
  AllWords kids sub b =
      (b.kid_addrs ≡ kids)
      × (b.sub_head ≡ sub)
      × (b.base_addr_var + b.size_var ≡ addr + module_size head)
      × (length b.layout.arr_reg_k ≡ head.len_k)
      × (length b.layout.arr_reg_var ≡ head.len_var)

  module _ (kids : List ℕ) (sub : SubHead) (sub_end : ℕ)
      (e : sub_end ≡ 4 * (4 + head.len_kids + head.len_sub)) where
    first_layout : Layout F
    first_layout = record {
      byte_idx = sub_end;
      byte_align = 1;
      arr_reg_k = [];
      arr_reg_var = [];
      arr_reg_var_ass = [];
    }

    -- The index and the alignment before the variables are added.
    abbrev before_var : Layout F → Layout F
    before_var l1 = record l1 { byte_idx = to_word l1.byte_idx; byte_align = sub.sub_byte_align }

    from_maps :
        (l1 l3 : Layout F)
        → map_k first_layout ≡ ok l1
        → l1.byte_idx ≡ sub_end + 4 * head.len_k
        → length l1.arr_reg_k ≡ head.len_k
        → map_var (before_var l1) ≡ ok l3
        → l3.byte_idx ≡ to_word l1.byte_idx + 4 * head.len_var
        → length l3.arr_reg_var ≡ head.len_var
        → l3.arr_reg_k ≡ l1.arr_reg_k
        → (b : Built F) × (init_regs map_k map_var addr head kids sub sub_end ≡ ok b)
          × AllWords kids sub b
    unfolding init_regs module_size first_layout
    from_maps l1 l3 e1 idx1 len1 e3 idx3 len3 same =
        let word1 = to_word_same l1.byte_idx (omega arith) in
        let word3 = to_word_same l3.byte_idx (omega arith) in
        let test1 : (sub_end + head.len_k * size_word == to_word l1.byte_idx) ≡ true =
          ground (arith, word1) in
        let test3 : (to_word l1.byte_idx + head.len_var * size_word == to_word l3.byte_idx) ≡ true =
          ground (arith, word1, word3) in
        (
          record {
            kid_addrs = kids;
            sub_head = sub;
            base_addr_var = to_word l1.byte_idx + addr;
            size_var = head.len_var * size_word;
            layout = record l3 { byte_idx = to_word l3.byte_idx };
          },
          rw (e1, test1, e3, test3) refl,
          (refl, refl, omega (arith, word1), rw same len1, len3),
        )

    init_regs-words :
        sub.sub_byte_align ≤ 4
        → (b : Built F) × (init_regs map_k map_var addr head kids sub sub_end ≡ ok b)
          × AllWords kids sub b
    unfolding first_layout
    init_regs-words h =
        let (l1, e1, idx1, len1, none1) =
          unknown_map_k-words addr head.len_k first_layout (omega arith) (omega arith) in
        let word1 = to_word_same l1.byte_idx (omega arith) in
        let (l3, e3, idx3, len3, same) =
          unknown_map_var-words addr head.len_var (before_var l1) h (omega arith) in
        from_maps l1 l3 e1 idx1 (omega arith) e3 idx3 (omega (arith, len3, ap length none1)) same

  module _ (bytes : List ℕ) (max_cache : ℕ) (kids : List ℕ) (sub : SubHead)
      (sync : head.sync ≡ sync_byte) (kids_read : read_kid_addrs bytes 16 head.len_kids ≡ ok kids)
      (sub_read : scan_sub_head
          (head.len_sub * 4)
          bytes
          max_cache
          (16 + head.len_kids * 4)
          (16 + head.len_kids * 4 + head.len_sub * 4)
          (record { sub_byte_align = 1; arr_external_mem = [] })
        ≡ ok sub) where
    -- The registers are set up, and then the external memories decide.
    init-regs :
        (b : Built F) (mems : Result (List MemEntry))
        → init_regs map_k map_var addr head kids sub (16 + head.len_kids * 4 + head.len_sub * 4)
          ≡ ok b
        → traverse cast_to_derived sub.arr_external_mem ≡ mems
        → init map_k map_var ok addr head bytes max_cache
          ≡ map_ok (λ ms. record b { sub_head = record sub { arr_external_mem = ms } }) mems
    unfolding init
    init-regs b mems e d =
        let fuel : 16 + head.len_kids * 4 + head.len_sub * 4 - (16 + head.len_kids * 4)
            ≡ head.len_sub * 4 =
          omega arith in
        let test : (head.sync == sync_byte) ≡ true = ground arith in
        rw (test, kids_read, fuel, sub_read, e, d)
          (bind_map
            (λ (ms : List MemEntry). record b { sub_head = record sub { arr_external_mem = ms } })
            mems)

    -- A module of an unregistered class, where its sync byte is right, no address of a kid is 0, its
    -- sub-header is read, and the alignment that this asks for is at most a word. If none of its
    -- external memories is small enough for a cache, it is set up without an error; it then has the
    -- kids and the sub-header that were read, as many constants and variables as the head announces
    -- words, and its variables end where the head says that the module ends. If one of them is
    -- cached, the set-up fails by an AssertionError, since nothing gives that memory a value type.
    pub init-AllWords :
        sub.sub_byte_align ≤ 4
        → (has_cached sub.arr_external_mem ≡ false
            → (b : Built F) × (init map_k map_var ok addr head bytes max_cache ≡ ok b)
              × AllWords kids sub b)
          × (has_cached sub.arr_external_mem ≡ true
              → init map_k map_var ok addr head bytes max_cache ≡ err assertion_error)
    init-AllWords h =
        let (b, e, (w_kids, _, w_end, w_k, w_var)) =
          init_regs-words kids sub (16 + head.len_kids * 4 + head.len_sub * 4) (omega arith) h in
        (
          λ none_cached. (
            record b { sub_head = sub },
            init-regs b (ok sub.arr_external_mem) e
                (cast_uncached sub.arr_external_mem none_cached),
            (w_kids, refl, w_end, w_k, w_var),
          ),
          λ one_cached. init-regs b (err assertion_error) e (
              cast_cached sub.arr_external_mem
                (scan-Untyped bytes max_cache (16 + head.len_kids * 4 + head.len_sub * 4)
                  (head.len_sub * 4) (16 + head.len_kids * 4)
                  (record { sub_byte_align = 1; arr_external_mem = [] }) sub tt sub_read)
                one_cached),
        )
