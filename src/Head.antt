-- ===== src/Head.antt =====
-- pip/skmap/src/skmap/head.py: the head that a module begins with. Decoding the id as text is
-- `bytes.decode`, a parameter here. Printing is not modelled.
pub mod Parse
mod Tests
use hdlskel.Base.{
  ℕ, zero, suc, ◌+◌, ◌*◌, ◌/◌, ◌%◌, ltb, ◌==◌, if◌then◌else◌, Bool, List, length, take, drop,
  get_elem?, Option, none, some,
}
use hdlskel.Base.Bytes.{from_le}
use hdlskel.Base.Result.{Result, ok, err, guard, index_error, assertion_error, ◌>>=◌, ◌>>◌}

abbrev pub size_word : ℕ
size_word = 4

abbrev pub size_head_words : ℕ
size_head_words = 4

abbrev pub size_id : ℕ
size_id = 8

abbrev pub sync_byte : ℕ
sync_byte = 0xD8

-- `data[i]`
abbrev pub at : List ℕ → ℕ → Result ℕ
at bytes i = elim (get_elem? bytes i) [ none ↦ err index_error | some b ↦ ok b ]

-- The loop of `get_id_str`, from length `l` on: an empty id is an index error at once, and one of
-- zeros only fails the assertion.
unfoldable pub trim : List ℕ → ℕ → Result ℕ
trim id zero = err index_error
trim id (suc l) =
    let shorter = if l == 0 then err assertion_error else trim id l in
    at id l >>= λ b. if b == 0 then shorter else ok (suc l)

pub record Head (A : Type 0) : Type 0 where
  pub id : A
  pub sync : ℕ
  pub version : ℕ
  pub flags : ℕ
  pub checksum : ℕ
  pub len_kids : ℕ
  pub len_sub : ℕ
  pub len_k : ℕ
  pub len_var : ℕ

module _ {A : Type 0} where
  unfoldable pub get_id_str : (List ℕ → Result A) → List ℕ → Result A
  unfolding trim
  get_id_str decode id = do l ← trim id (length id); decode (take l id)

  -- `Head.__init__`
  unfoldable pub parse : (List ℕ → Result A) → List ℕ → Result (Head A)
  unfolding get_id_str
  parse decode bytes = do
    id ← get_id_str decode (take size_id bytes)
    sync ← at bytes 8
    version_flags ← at bytes 9
    guard (version_flags / 16 == 0) assertion_error
    len_kids ← at bytes 12
    len_sub ← at bytes 13
    len_k ← at bytes 14
    len_var ← at bytes 15
    ok (record {
      id = id;
      sync = sync;
      version = version_flags % 16;
      flags = version_flags / 16;
      checksum = from_le (take 2 (drop 10 bytes));
      len_kids = len_kids;
      len_sub = len_sub;
      len_k = len_k;
      len_var = len_var;
    })

  unfoldable pub valid_sync : Head A → Bool
  valid_sync h = h.sync == sync_byte

  unfoldable pub module_size_words : Head A → ℕ
  module_size_words h = size_head_words + h.len_sub + h.len_kids + h.len_k + h.len_var

  unfoldable pub module_size : Head A → ℕ
  unfolding module_size_words
  module_size h = module_size_words h * size_word
