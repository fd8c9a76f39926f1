-- ===== src/Module/Init.antt =====
-- pip/skmap/src/skmap/module.py: `Module.__init__`, with the function of external_mem.py that it
-- calls. The two methods that add a class's registers, and the one that gives the external memories
-- their value types, are parameters. `_init_finialise`, which does nothing, and log messages are not
-- modelled.
pub mod Memories
pub mod Unknown
use hdlskel.Base.{
  ℕ, zero, suc, ◌+◌, ◌-◌, ◌*◌, ◌/◌, ◌%◌, ltb, leb, ◌==◌, not, if◌then◌else◌, Bool, Option, none,
  some, List, [], ◌∷◌, ◌++◌, take, drop,
}
use hdlskel.Base.Bytes.{from_le}
use hdlskel.Base.Result.{
  Result, ok, err, assertion_error, value_error, exception, stuck, guard, map_ok, traverse, ◌>>=◌,
  ◌>>◌,
}
use hdlskel.Basic.{ceil_div}
use hdlskel.Head.{Head, size_word, sync_byte, at}
use hdlskel.Types.{Acc, ValueType, is_vec, total_size}
use hdlskel.Module.Layout.{Layout}
use Prim.Native.Nat.{bit_and}

-- An external memory found in the sub-header: whether it is an `ExternalMemCached`, its `_value_type`,
-- and whether its class has been changed to `ExternalMemVec`.
pub record MemEntry : Type 0 where
  pub base_addr : ℕ
  pub size : ℕ
  pub acc : Acc
  pub cached : Bool
  pub value_type : Option ValueType
  pub is_mem_vec : Bool

pub record SubHead : Type 0 where
  pub sub_byte_align : ℕ
  pub arr_external_mem : List MemEntry

-- What `__init__` sets up.
pub record Built (F : Type 0) : Type 0 where
  pub kid_addrs : List ℕ
  pub sub_head : SubHead
  pub base_addr_var : ℕ
  pub size_var : ℕ
  pub layout : Layout F

-- `Acc(acc_int)`
abbrev pub acc_of : ℕ → Result Acc
acc_of n =
    if n == 0
    then ok Acc.na
    else if n == 1
    then ok Acc.k
    else if n == 2
    then ok Acc.ro
    else if n == 3
    then ok Acc.rc
    else if n == 4
    then ok Acc.rw'
    else if n == 5
    then ok Acc.wt
    else err value_error

-- `x.bit_count() == 1`
abbrev pub is_power : ℕ → Bool
is_power x = if x == 0 then Bool.false else bit_and x (x - 1) == 0

-- `int.from_bytes(module_data[i:i+SIZE_WORD], byteorder='little')`
abbrev pub word_at : List ℕ → ℕ → ℕ
word_at module_data i = from_le (take size_word (drop i module_data))

-- The loop over the kids: `n` words from `idx` on.
unfoldable pub read_kid_addrs : List ℕ → ℕ → ℕ → Result (List ℕ)
read_kid_addrs module_data idx zero = ok []
read_kid_addrs module_data idx (suc n) = do
  guard (not (word_at module_data idx == 0)) assertion_error
  rest ← read_kid_addrs module_data (idx + size_word) n
  ok (word_at module_data idx ∷ rest)

-- The body of the sub-header's EXTERNAL_MEM.
unfoldable pub read_mem_entry : List ℕ → ℕ → ℕ → Result MemEntry
read_mem_entry module_data max_cache idx = do
  acc_int ← at module_data (idx + 1)
  acc ← acc_of acc_int
  let size_bytes = word_at module_data (idx + 8)
  ok (record {
    base_addr = word_at module_data (idx + 4);
    size = size_bytes;
    acc = acc;
    cached = leb size_bytes max_cache;
    value_type = none;
    is_mem_vec = Bool.false;
  })

abbrev pub read_align : List ℕ → ℕ → Result ℕ
read_align module_data idx = do
  sub_byte_align ← at module_data (idx + 1)
  guard (is_power sub_byte_align) assertion_error
  ok sub_byte_align

-- The loop over the sub-header, from `idx` to `sub_end`: each round takes a word at least.
unfoldable pub scan_sub_head : ℕ → List ℕ → ℕ → ℕ → ℕ → SubHead → Result SubHead
unfolding read_mem_entry
scan_sub_head zero module_data max_cache idx sub_end h = if ltb idx sub_end then err stuck else ok h
scan_sub_head (suc fuel) module_data max_cache idx sub_end h =
    let align = λ (a : ℕ).
      scan_sub_head fuel module_data max_cache (idx + size_word) sub_end
        (record h { sub_byte_align = a }) in
    let mem = λ (e : MemEntry).
      scan_sub_head fuel module_data max_cache (idx + 3 * size_word) sub_end
        (record h { arr_external_mem = h.arr_external_mem ++ (e ∷ []) }) in
    if ltb idx sub_end
    then (at module_data idx >>= λ sub_id.
        if sub_id == 0x00
        then ok h
        else if sub_id == 0x1A
        then read_align module_data idx >>= align
        else if sub_id == 0x3B
        then read_mem_entry module_data max_cache idx >>= mem
        else err exception)
    else ok h

-- `ceil_div(self._byte_idx, SIZE_WORD) * SIZE_WORD`
abbrev pub to_word : ℕ → ℕ
to_word idx = ceil_div idx size_word * size_word

-- `external_mem_cast_to_derived_if_possible`
unfoldable pub cast_to_derived : MemEntry → Result MemEntry
unfolding total_size
cast_to_derived e = if not e.cached then ok e else elim e.value_type [
  | none ↦ err assertion_error
  | some t ↦
      if not (is_vec t)
      then ok e
      else if e.size == total_size t
      then ok (record e { is_mem_vec = Bool.true })
      else err assertion_error
]

module _ {F A : Type 0} (init_reg_map_k init_reg_map_var : Layout F → Result (Layout F)) where
  -- `Module.__init__`, after the sub-header: the constants, then the variables.
  unfoldable pub init_regs : ℕ → Head A → List ℕ → SubHead → ℕ → Result (Built F)
  unfolding ceil_div
  init_regs addr head kid_addrs sub sub_end = do
    l ← init_reg_map_k (record {
      byte_idx = sub_end;
      byte_align = 1;
      arr_reg_k = [];
      arr_reg_var = [];
      arr_reg_var_ass = [];
    })
    let idx_k = to_word l.byte_idx
    guard (sub_end + head.len_k * size_word == idx_k) assertion_error
    l' ← init_reg_map_var (record l { byte_idx = idx_k; byte_align = sub.sub_byte_align })
    let idx_var = to_word l'.byte_idx
    guard (idx_k + head.len_var * size_word == idx_var) assertion_error
    ok (record {
      kid_addrs = kid_addrs;
      sub_head = sub;
      base_addr_var = idx_k + addr;
      size_var = head.len_var * size_word;
      layout = record l' { byte_idx = idx_var };
    })

  -- The whole of it; `init_external_mem` is what the class's `_init_external_mem` does.
  unfoldable pub init :
      (List MemEntry → Result (List MemEntry)) → ℕ → Head A → List ℕ → ℕ → Result (Built F)
  unfolding read_kid_addrs scan_sub_head init_regs cast_to_derived
  init init_external_mem addr head module_data max_cache = do
    guard (head.sync == sync_byte) assertion_error
    kid_addrs ← read_kid_addrs module_data (4 * size_word) head.len_kids
    let idx = 4 * size_word + head.len_kids * size_word
    let sub_end = idx + head.len_sub * size_word
    sub ←
        scan_sub_head (sub_end - idx) module_data max_cache idx sub_end
          (record { sub_byte_align = 1; arr_external_mem = [] })
    b ← init_regs addr head kid_addrs sub sub_end
    mems ← init_external_mem sub.arr_external_mem
    derived ← traverse cast_to_derived mems
    ok (record b { sub_head = record sub { arr_external_mem = derived } })
