-- ===== src/Module/Tests.antt =====
-- Runs of the set-up of modules, and the theorems about it at concrete inputs.
use hdlskel.Base.{
  ℕ, ◌==◌, ◌&&◌, if◌then◌else◌, ◌≡◌, ◌↔◌, refl, arith, Bool, true, false, none, some, List, [], ◌∷◌,
  ◌++◌, ==_iff,
}
use hdlskel.Base.Result.{ok, err, assertion_error}
use hdlskel.Basic.{promote_to_sw_w, ceil_log2, bit_length, ceil_multiple, ceil_div}
use hdlskel.Head.{Head, sync_byte}
use hdlskel.Types.{Acc, Ass, VType, ValueKind}
use hdlskel.Module.Layout.{AnyReg, plain, Layout, add_all_var}
use hdlskel.Module.Layout.{unknown_map_k, unknown_map_var}
use hdlskel.Module.Layout.Apart.{SameRegs, IsLaidOut, add_all_var-IsLaidOut}
use hdlskel.Module.Init.{SubHead, Built, read_kid_addrs, scan_sub_head, init}
use hdlskel.Module.Init.Memories.{has_cached}
use hdlskel.Module.Init.Unknown.{AllWords, init-AllWords, map_k, map_var}
use hdlskel.Module.Factory.{ModuleClass, Lookup, find_class, register_module, matching_class}
use hdlskel.Module.Factory.Registered.{matching_class-register_module}

-- A register of one, two or four bytes.
abbrev reg : ℕ → ℕ → AnyReg ℕ
reg width size = plain (record {
  value_type = record { kind = ValueKind.uint; width = width; vec_len = none };
  acc = Acc.rw';
  ass = Ass.unset;
  size = size;
  elem_size = size;
  addr = none;
  v_check = none;
  v_convert = none;
  v_type = VType.u;
})

abbrev three : List (AnyReg ℕ)
three = reg 3 1 ∷ reg 32 4 ∷ reg 12 2 ∷ []

abbrev empty : Layout ℕ
empty = record {
  byte_idx = 16;
  byte_align = 1;
  arr_reg_k = [];
  arr_reg_var = [];
  arr_reg_var_ass = [];
}

-- Bytes 16, 20 to 23, and 24 to 25.
layout_run : (add_all_var 0x100 three empty).byte_idx ≡ 26
unfolding add_all_var promote_to_sw_w ceil_log2 bit_length ceil_multiple ceil_div
layout_run = refl

add_all_var-IsLaidOut_example :
    (rs' : List (AnyReg ℕ)) × ((add_all_var 0x100 three empty).arr_reg_var ≡ [] ++ rs')
    × SameRegs 0x100 1 three rs'
    × IsLaidOut 0x100 1 16 rs' (add_all_var 0x100 three empty).byte_idx
add_all_var-IsLaidOut_example = add_all_var-IsLaidOut 0x100 1 three empty (omega arith) refl

-- One kid, a sub-header that asks for an alignment of 4, one constant and two variables.
abbrev head : Head ℕ
head = record {
  id = 7;
  sync = sync_byte;
  version = 1;
  flags = 0;
  checksum = 0x1234;
  len_kids = 1;
  len_sub = 1;
  len_k = 1;
  len_var = 2;
}

abbrev module_data : List ℕ
module_data =
    0 ∷ 0 ∷ 0 ∷ 0 ∷ 0 ∷ 0 ∷ 0 ∷ 0 ∷ 0 ∷ 0 ∷ 0 ∷ 0 ∷ 0 ∷ 0 ∷ 0 ∷ 0 ∷ 0x40 ∷ 0 ∷ 0 ∷ 0 ∷ 0x1A ∷ 4 ∷ 0
    ∷ 0 ∷ []

abbrev sub : SubHead
sub = record { sub_byte_align = 4; arr_external_mem = [] }

kids_read : read_kid_addrs module_data 16 1 ≡ ok (0x40 ∷ [])
unfolding read_kid_addrs
kids_read = refl

sub_read :
    scan_sub_head 4 module_data 1024 20 24 (record { sub_byte_align = 1; arr_external_mem = [] })
    ≡ ok sub
unfolding scan_sub_head
sub_read = refl

init-AllWords_example :
    (has_cached [] ≡ false
      → (b : Built ℕ) × (init (map_k 0x100 head) (map_var 0x100 head) ok 0x100 head module_data 1024
          ≡ ok b)
        × AllWords 0x100 head (0x40 ∷ []) sub b)
    × (has_cached [] ≡ true
        → init (map_k {F = ℕ} 0x100 head) (map_var 0x100 head) ok 0x100 head module_data 1024
          ≡ err assertion_error)
init-AllWords_example =
    init-AllWords 0x100 head module_data 1024 (0x40 ∷ []) sub refl kids_read sub_read (omega arith)

-- A memory of 16 bytes, which is small enough for a cache.
abbrev mem_head : Head ℕ
mem_head = record head { len_kids = 0; len_sub = 3; len_k = 0; len_var = 0 }

abbrev mem_data : List ℕ
mem_data =
    0 ∷ 0 ∷ 0 ∷ 0 ∷ 0 ∷ 0 ∷ 0 ∷ 0 ∷ 0 ∷ 0 ∷ 0 ∷ 0 ∷ 0 ∷ 0 ∷ 0 ∷ 0 ∷ 0x3B ∷ 4 ∷ 0 ∷ 0 ∷ 0 ∷ 1 ∷ 0 ∷ 0
    ∷ 16 ∷ 0 ∷ 0 ∷ 0 ∷ []

mem_run :
    init (map_k {F = ℕ} 0x100 mem_head) (map_var 0x100 mem_head) ok 0x100 mem_head mem_data 1024
    ≡ err assertion_error
unfolding init unknown_map_k unknown_map_var
mem_run = refl

abbrev counter : ModuleClass ℕ ℕ
counter = record {
  id = 7;
  version = 1;
  checksum = 0x1234;
  init_reg_map_k = λ a h l. ok l;
  init_reg_map_var = λ a h l. ok l;
  init_external_mem = ok;
}

same_id : ℕ → ℕ → Bool
same_id a b = a == b

same_id_iff : (a b : ℕ) → (same_id a b ≡ true) ↔ (a ≡ b)
unfolding same_id
same_id_iff a b = ==_iff a b

matching_class-register_module_example :
    ((find_class {F = ℕ} same_id 7 1 [] ≡ none)
      → (lookup' : Lookup ℕ ℕ) × (register_module same_id counter [] ≡ ok lookup')
        × ((h : Head ℕ)
            → matching_class same_id h lookup' ≡ (
                if same_id h.id 7 && (h.version == 1)
                then (if h.checksum == 0x1234 then some counter else none)
                else matching_class same_id h [])))
    × ((d : ModuleClass ℕ ℕ)
        → find_class {F = ℕ} same_id 7 1 [] ≡ some d
        → register_module same_id counter [] ≡ err assertion_error)
matching_class-register_module_example =
    matching_class-register_module same_id same_id_iff counter []
