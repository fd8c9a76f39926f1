-- ===== src/Cache/File.antt =====
-- pip/regio/src/regio/cache.py: `save_to_file` and `load_from_file`. A file is the list of its
-- bytes; `f.read(n)` gives at most `n` of those that are left.
use hdlskel.Base.{ℕ, zero, suc, ltb, ◌==◌, if◌then◌else◌, not, ◌||◌, Bool}
use hdlskel.Base.{List, [], ◌∷◌, ◌++◌, length, take, drop}
use hdlskel.Base.Bytes.{le_bytes, from_le, same_bytes}
use hdlskel.Base.Result.{Result, ok, err, value_error, struct_error, stuck, guard}
use hdlskel.Base.Exec.{Exec, ◌>>=◌, ◌>>◌, pure, lift}
use hdlskel.Cache.{Region, merge_write, uint32_max}

-- `FILE_HEADER = b"skelregi"`
abbrev pub file_header : List ℕ
file_header = b's' ∷ b'k' ∷ b'e' ∷ b'l' ∷ b'r' ∷ b'e' ∷ b'g' ∷ b'i' ∷ []

-- `_REGION_HDR_STRUCT.size`
abbrev pub region_hdr_size : ℕ
region_hdr_size = 8

-- `_REGION_HDR_STRUCT.pack(addr, size)` for "<II": two little-endian uint32.
unfoldable pub pack_region_hdr : ℕ → ℕ → Result (List ℕ)
pack_region_hdr addr size =
    if ltb uint32_max addr || ltb uint32_max size
    then err struct_error
    else ok (le_bytes 4 addr ++ le_bytes 4 size)

-- The two fields of a header.
abbrev pub unpack_addr : List ℕ → ℕ
unpack_addr hdr = from_le (take 4 hdr)

abbrev pub unpack_size : List ℕ → ℕ
unpack_size hdr = from_le (drop 4 hdr)

-- `_REGION_HDR_STRUCT.unpack(hdr)`, which takes eight bytes and no other number of them.
unfoldable pub unpack_region_hdr : List ℕ → Result (ℕ × ℕ)
unpack_region_hdr hdr =
    if length hdr == region_hdr_size
    then ok (unpack_addr hdr, unpack_size hdr)
    else err struct_error

-- `f.write(bytes)`
abbrev pub file_write : List ℕ → Exec (List ℕ) (Unit {0})
file_write bytes file = (ok tt, file ++ bytes)

-- The body of the loop of `save_to_file`, and the loop.
unfoldable pub save_region : Region → Exec (List ℕ) (Unit {0})
save_region r = do
  lift (guard (not (ltb uint32_max (length r.bytes))) value_error)
  hdr ← lift (pack_region_hdr r.start (length r.bytes))
  file_write hdr
  file_write r.bytes

unfoldable pub save_regions : List Region → Exec (List ℕ) (Unit {0})
unfolding save_region pack_region_hdr
save_regions [] = pure tt
save_regions (r ∷ rs) = do save_region r; save_regions rs

-- `save_to_file`: opening for writing empties the file.
unfoldable pub save_to_file : List Region → Exec (List ℕ) (Unit {0})
unfolding save_regions
save_to_file regions file = (do file_write file_header; save_regions regions) []

-- The loop of `load_from_file` on what is left of the file, with fuel.
unfoldable pub load_loop : ℕ → List ℕ → List Region → Result (List Region)
unfolding unpack_region_hdr
load_loop zero file loaded = err stuck
load_loop (suc fuel) file loaded =
    let hdr = take region_hdr_size file in
    let behind = drop region_hdr_size file in
    if length hdr == 0
    then ok loaded
    else if not (length hdr == region_hdr_size)
    then err value_error
    else elim (unpack_region_hdr hdr) [
      | err x ↦ err x
      | ok (addr, size) ↦
          let bytes = take size behind in
          let region : Region = record { start = addr; bytes = bytes } in
          let rest = load_loop fuel (drop size behind) (loaded ++ region ∷ []) in
          if not (length bytes == size) then err value_error else rest
    ]

-- Each round takes eight bytes at least.
unfoldable pub load_entries : List ℕ → Result (List Region)
unfolding load_loop
load_entries file = load_loop (suc (length file)) file []

-- `for addr, data in loaded: self._merge_write(addr, bytes(data))`
unfoldable pub merge_all : List Region → List Region → List Region
merge_all regions [] = regions
merge_all regions (r ∷ rs) = merge_all (merge_write regions r.start r.bytes) rs

-- `load_from_file`: the regions that it leaves. A file that it refuses leaves them as they were.
unfoldable pub load_from_file : List ℕ → Bool → List Region → Result (List Region)
unfolding load_entries merge_all
load_from_file file replace regions =
    if same_bytes (take (length file_header) file) file_header
    then elim (load_entries (drop (length file_header) file)) [
      | err x ↦ err x
      | ok loaded ↦ if replace then ok loaded else ok (merge_all regions loaded)
    ]
    else err value_error
