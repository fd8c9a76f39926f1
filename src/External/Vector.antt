-- ===== src/External/Vector.antt =====
-- pip/skmap/src/skmap/external_mem.py: the elements of an `ExternalMemVec`.
use hdlskel.Base.{ℕ, ◌+◌, ◌-◌, ◌*◌, ◌^◌, ◌≤◌, ◌<◌, leb, ◌==◌, ◌≡◌, ◌≢◌, refl, sym, ap, ◌∙◌, arith}
use hdlskel.Base.{true, false, List, length, get_elem?, take, drop, inl, inr, Bool-cases, list_ext}
use hdlskel.Base.{
  get_elem?-none, get_elem?-some, get_elem?-take, get_elem?-drop, length-take, length-drop,
}
use hdlskel.Base.Cells.{byte_at, or_else}
use hdlskel.Base.Bytes.{le_bytes, from_le, length-le_bytes, from_le-le_bytes}
use hdlskel.Base.Int.{pos}
use hdlskel.Base.Result.{Result, ok, guard, assertion_error}
use hdlskel.Base.Exec.{continue, pure}
use hdlskel.Basic.{Endian, to_bytes}
use hdlskel.Types.{elem_size}
use hdlskel.External.{
  ExternalMem, Cached, read_cached, write_cached, read_idx_bytes_cached, read_idx_uint_cached,
  write_idx_bytes_cached, write_idx_uint_cached, check_size,
}
use hdlskel.External.Coherence.{write_cached-stored, read_cached-stands}

-- Two different elements do not overlap.
elements_apart : (n j k : ℕ) → j < k → n * j + n ≤ n * k
elements_apart n j k h = grind arith

fits_bytes : (n v : ℕ) → v < 256 ^ n → to_bytes (pos v) n Endian.little false ≡ ok (le_bytes n v)
unfolding to_bytes
fits_bytes n v h = let t : leb (256 ^ n) v ≡ false = ground arith in rw t refl

module _ {S : Type 0} (m : ExternalMem S) where
  abbrev n : ℕ
  n = elem_size m.value_type

  -- Element `idx` lies inside the memory.
  abbrev pub HasElem : ℕ → Type 0
  HasElem idx = n * idx + n ≤ m.size

  other_elem :
      (s s' : Cached S) (idx k : ℕ) (bytes : List ℕ)
      → length bytes ≡ n
      → length s.cache ≡ m.size
      → length s'.cache ≡ m.size
      → ((x : ℕ) → get_elem? s'.cache x ≡ or_else (byte_at (n * idx) bytes x) (get_elem? s.cache x))
      → k ≢ idx
      → take n (drop (n * k) s'.cache) ≡ take n (drop (n * k) s.cache)
  other_elem s s' idx k bytes len size size' set ne =
      list_ext (take n (drop (n * k) s'.cache)) (take n (drop (n * k) s.cache))
        (omega (
          arith,
          length-take n (drop (n * k) s'.cache),
          length-drop (n * k) s'.cache,
          length-take n (drop (n * k) s.cache),
          length-drop (n * k) s.cache,
        ))
        (λ j q. ground (
          arith,
          get_elem?-take n (drop (n * k) s'.cache) j,
          get_elem?-drop (n * k) s'.cache j,
          get_elem?-take n (drop (n * k) s.cache) j,
          get_elem?-drop (n * k) s.cache j,
          set (n * k + j),
          get_elem?-none bytes (n * k + j - n * idx),
          elements_apart n idx k,
          elements_apart n k idx,
          length-take n (drop (n * k) s'.cache),
        ))

  same_read :
      (s s' : Cached S) (k : ℕ)
      → take n (drop (n * k) s'.cache) ≡ take n (drop (n * k) s.cache)
      → (read_idx_bytes_cached m k s').0 ≡ (read_idx_bytes_cached m k s).0
  unfolding read_idx_bytes_cached read_cached check_size
  same_read s s' k e = elim (Bool-cases (leb (n * k + n) m.size)) [
    | inl t ↦ rw t (ap ok e)
    | inr t ↦ rw t refl
  ]

  write_idx_bytes-stored :
      (s s' : Cached S) (idx : ℕ) (bytes : List ℕ)
      → length bytes ≡ n
      → write_cached m (n * idx) bytes s ≡ (ok tt, s')
      → write_idx_bytes_cached m idx bytes s ≡ (ok tt, s')
  unfolding write_idx_bytes_cached
  write_idx_bytes-stored s s' idx bytes len e =
      let t : (length bytes == n) ≡ true = ground arith in
      ap (λ b. continue (guard b assertion_error) (λ _. write_cached m (n * idx) bytes) s) t ∙ e

  read_idx_uint-stands :
      (s : Cached S) (idx v : ℕ) (bytes : List ℕ)
      → read_cached m (n * idx) n s ≡ (ok bytes, s)
      → from_le bytes ≡ v
      → read_idx_uint_cached m idx s ≡ (ok v, s)
  unfolding read_idx_uint_cached read_idx_bytes_cached
  read_idx_uint-stands s idx v bytes e h =
      ap (λ (res : Result (List ℕ) × Cached S). continue res.0 (λ b. pure (from_le b)) res.1) e
      ∙ ap (λ t. (ok t, s)) h

  -- An unsigned value that fits in an element and is written to the cache of a vector is read back
  -- from it, and every other element keeps its bytes.
  pub read_idx_uint-write :
      (s : Cached S) (idx v : ℕ)
      → length s.cache ≡ m.size
      → HasElem idx
      → v < 256 ^ elem_size m.value_type
      → (s' : Cached S) × (write_idx_uint_cached m idx (pos v) s ≡ (ok tt, s'))
        × (read_idx_uint_cached m idx s' ≡ (ok v, s'))
        × ((k : ℕ) → k ≢ idx → (read_idx_bytes_cached m k s').0 ≡ (read_idx_bytes_cached m k s).0)
  unfolding write_idx_uint_cached
  read_idx_uint-write s idx v size inside fits =
      let bytes = le_bytes n v in
      let len = length-le_bytes n v in
      let (s', e, _, size', set) =
        write_cached-stored m s (n * idx) bytes size (omega (arith, len, inside)) in
      let stands =
        read_cached-stands m s' (n * idx) bytes (omega (arith, len, inside)) size'
          (λ j q. ground (arith, set (n * idx + j), get_elem?-some bytes j q)) in
      (
        s',
        ap (λ r. continue r (λ b. write_idx_bytes_cached m idx b) s) (fits_bytes n v fits)
            ∙ write_idx_bytes-stored s s' idx bytes len e,
        read_idx_uint-stands s' idx v bytes
            (ap (λ t. read_cached m (n * idx) t s') (sym len) ∙ stands) (from_le-le_bytes n v fits),
        λ k ne. same_read s s' k (other_elem s s' idx k bytes len size size' set ne),
      )
