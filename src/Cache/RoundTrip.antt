-- ===== src/Cache/RoundTrip.antt =====
-- `save_to_file` against `load_from_file`: what one writes and the other reads, entry by entry.
use hdlskel.Base.{ℕ, zero, suc, ◌≤◌, ◌<◌, ◌≡◌}
use hdlskel.Base.{refl, sym, ap, ◌∙◌, arith, ◌⊎◌, inl, inr, ==_refl}
use hdlskel.Base.{
  List, [], ◌∷◌, ◌++◌, length, take, drop, All, length-append, length-take, length-drop,
}
use hdlskel.Base.{
  take-length-append, drop-length-append, take-append-drop, All-take, All-drop, list_ext,
}
use hdlskel.Base.Bytes.{le_bytes, from_le, IsByte}
use hdlskel.Base.Bytes.{from_le-le_bytes, le_bytes-from_le, from_le-lt}
use hdlskel.Base.Result.{Exn, ok, err, value_error}
use mathlib.Core.Path.{ap₂}
use mathlib.Core.List.{append-nil, append_assoc}
use hdlskel.Cache.{Region, uint32_max}
use hdlskel.Cache.File.{pack_region_hdr, unpack_addr, unpack_size}
use hdlskel.Cache.File.{save_region, save_regions, load_loop}

-- The entry of a region in the file, and all entries.
abbrev pub header_of : Region → List ℕ
header_of r = le_bytes 4 r.start ++ le_bytes 4 (length r.bytes)

pub encoding : List Region → List ℕ
encoding [] = []
encoding (r ∷ rs) = header_of r ++ (r.bytes ++ encoding rs)

-- A region whose address and size are uint32 values.
abbrev pub IsPackable : Region → Type 0
IsPackable r = (r.start ≤ uint32_max) × (length r.bytes ≤ uint32_max)

save_region-encoding :
    (r : Region) (file : List ℕ)
    → IsPackable r
    → save_region r file ≡ (ok tt, file ++ (header_of r ++ r.bytes))
unfolding save_region pack_region_hdr
save_region-encoding r file p = ground (arith, append_assoc file (header_of r) r.bytes)

pub save_regions-encoding :
    (rs : List Region) (file : List ℕ)
    → All IsPackable rs
    → save_regions rs file ≡ (ok tt, file ++ encoding rs)
unfolding save_regions encoding
save_regions-encoding [] file h = rw append-nil
save_regions-encoding (r ∷ rs) file (p, h) = rw (save_region-encoding r file p) (
    save_regions-encoding rs (file ++ (header_of r ++ r.bytes)) h
    ∙ ap (λ t. (ok tt, t)) (append_assoc file (header_of r ++ r.bytes) (encoding rs)))

load_step :
    (fuel : ℕ) (loaded : List Region) (r : Region) (rest : List ℕ)
    → IsPackable r
    → load_loop (suc fuel) (header_of r ++ (r.bytes ++ rest)) loaded
      ≡ load_loop fuel rest (loaded ++ r ∷ [])
unfolding load_loop
load_step fuel loaded r rest p = rw (
  from_le-le_bytes 4 (length r.bytes) (omega arith),
  from_le-le_bytes 4 r.start (omega arith),
  take-length-append r.bytes rest,
  drop-length-append r.bytes rest,
  ==_refl (length r.bytes),
)

pub load_loop-encoding :
    (rs : List Region) (fuel : ℕ) (loaded : List Region)
    → All IsPackable rs
    → length (encoding rs) < fuel
    → load_loop fuel (encoding rs) loaded ≡ ok (loaded ++ rs)
unfolding encoding
load_loop-encoding rs zero loaded p h = absurd (omega arith)
load_loop-encoding [] (suc fuel) loaded p h = rw append-nil (unfold load_loop in refl)
load_loop-encoding (r ∷ rs) (suc fuel) loaded (q, p) h =
    load_step fuel loaded r (encoding rs) q
    ∙ load_loop-encoding rs fuel (loaded ++ r ∷ []) p
        (omega (arith, length-append r.bytes (encoding rs)))
    ∙ ap ok (append_assoc loaded (r ∷ []) rs)

-- With fuel for the whole file the loop ends, and it refuses by ValueError alone.
pub load_loop_errors :
    (fuel : ℕ) (file : List ℕ) (loaded : List Region) (x : Exn)
    → length file < fuel
    → load_loop fuel file loaded ≡ err x
    → x ≡ value_error
unfolding load_loop
load_loop_errors zero file loaded x h e = absurd (omega arith)
load_loop_errors (suc fuel) file loaded x h e = ground (
  arith,
  length-take 8 file,
  length-drop 8 file,
  length-drop (unpack_size (take 8 file)) (drop 8 file),
  load_loop_errors fuel (drop (unpack_size (take 8 file)) (drop 8 file))
      (loaded
        ++ (record {
          start = unpack_addr (take 8 file);
          bytes = take (unpack_size (take 8 file)) (drop 8 file);
        })
          ∷ [])
      x,
)

four_bytes :
    (bs : List ℕ)
    → length bs ≡ 4
    → All IsByte bs
    → (le_bytes 4 (from_le bs) ≡ bs) × (from_le bs ≤ uint32_max)
four_bytes bs n b = (rw n at (le_bytes-from_le bs b), omega (arith, rw n at (from_le-lt bs b)))

-- One round that does not refuse: the file is at its end, or an entry was read whole.
module _ (file : List ℕ) where
  abbrev next_region : Region
  next_region = record {
    start = unpack_addr (take 8 file);
    bytes = take (unpack_size (take 8 file)) (drop 8 file);
  }

  abbrev file_rest : List ℕ
  file_rest = drop (unpack_size (take 8 file)) (drop 8 file)

  load_round :
      (fuel : ℕ) (loaded rs : List Region)
      → load_loop (suc fuel) file loaded ≡ ok rs
      → ((length file ≡ 0) × (rs ≡ loaded))
        ⊎ ((length (take 8 file) ≡ 8)
            × (length next_region.bytes ≡ unpack_size (take 8 file))
            × (load_loop fuel file_rest (loaded ++ next_region ∷ []) ≡ ok rs))
  unfolding load_loop
  load_round fuel loaded rs e = ground (arith, length-take 8 file)

  entry_inverse :
      length (take 8 file) ≡ 8
      → All IsByte file
      → length next_region.bytes ≡ unpack_size (take 8 file)
      → (header_of next_region ++ (next_region.bytes ++ file_rest) ≡ file) × IsPackable next_region
  entry_inverse n b m =
      let hdr = take 8 file in
      let hdr_bytes = All-take IsByte 8 file b in
      let (a, la) =
        four_bytes (take 4 hdr) (omega (arith, length-take 4 hdr))
          (All-take IsByte 4 hdr hdr_bytes) in
      let (s, ls) =
        four_bytes (drop 4 hdr) (omega (arith, length-drop 4 hdr))
          (All-drop IsByte 4 hdr hdr_bytes) in
      let header : header_of next_region ≡ hdr =
        ap₂ ◌++◌ a (ap (le_bytes 4) m ∙ s) ∙ take-append-drop 4 hdr in
      (
        ap₂ ◌++◌ header (take-append-drop (unpack_size hdr) (drop 8 file))
            ∙ take-append-drop 8 file,
        (la, omega arith),
      )

-- What the loop has read is what the file holds.
pub load_loop-inverse :
    (fuel : ℕ) (file : List ℕ) (loaded rs : List Region)
    → All IsByte file
    → load_loop fuel file loaded ≡ ok rs
    → (qs : List Region) × (rs ≡ loaded ++ qs) × (encoding qs ≡ file) × All IsPackable qs
unfolding encoding
load_loop-inverse zero file loaded rs b e = absurd (unfold load_loop in cc)
load_loop-inverse (suc fuel) file loaded rs b e = elim (load_round file fuel loaded rs e) [
  | inl (z, s) ↦ ([], rw append-nil s, list_ext [] file (sym z) (λ i k. absurd (omega arith)), tt)
  | inr (n, m, k) ↦
      let entry = entry_inverse file n b m in
      let (qs, s, whole, packable) =
        load_loop-inverse fuel (file_rest file) (loaded ++ next_region file ∷ []) rs
          (All-drop IsByte (unpack_size (take 8 file)) (drop 8 file) (All-drop IsByte 8 file b))
          k in
      (
        next_region file ∷ qs,
        s ∙ append_assoc loaded (next_region file ∷ []) qs,
        rw whole entry.0,
        (entry.1, packable),
      )
]
