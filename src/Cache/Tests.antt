-- ===== src/Cache/Tests.antt =====
-- Runs of the cache on small inputs, and its theorems at concrete ones.
use hdlskel.Base.{ℕ, ◌≡◌, ◌⊎◌, refl, arith, true, false, if◌then◌else◌, List, [], ◌∷◌}
use hdlskel.Base.Int.{pos, negsuc}
use hdlskel.Base.Result.{ok, err, value_error}
use hdlskel.Cache.{Region, merge_write, cache_write, cache_read, splice, lay_down}
use hdlskel.Cache.{read_index, bisect_left, read_at, read_region, scan, scan_region, sort}
use hdlskel.Cache.{validate_addr_size}
use hdlskel.Cache.Space.{IsAccess}
use hdlskel.Cache.Read.{ReadsContent, cache_read-ReadsContent}
use hdlskel.Cache.Write.{IsCache, Written, cache_write-Written, cache_write-outside}
use hdlskel.Cache.File.{save_to_file, load_from_file, merge_all}
use hdlskel.Cache.Persist.{IsSaved, load-save, save-load, load_total}

abbrev two : List Region
two =
    (record { start = 0x10; bytes = 1 ∷ 2 ∷ 3 ∷ [] })
    ∷ (record { start = 0x20; bytes = 4 ∷ 5 ∷ [] })
    ∷ []

two-IsCache : IsCache two
two-IsCache = record { chain = omega arith; fits = omega arith }

-- A write that touches the first region is merged with it.
touching_write :
    cache_write two (pos 0x12) (7 ∷ 8 ∷ [])
    ≡ ok (
        (record { start = 0x10; bytes = 1 ∷ 2 ∷ 7 ∷ 8 ∷ [] })
        ∷ (record { start = 0x20; bytes = 4 ∷ 5 ∷ [] })
        ∷ [])
unfolding cache_write merge_write scan scan_region splice lay_down sort validate_addr_size
touching_write = refl

read_two : cache_read two (pos 0x11) (pos 2) ≡ ok (2 ∷ 3 ∷ [])
unfolding cache_read read_index bisect_left read_at read_region validate_addr_size
read_two = refl

read_hole : cache_read two (pos 0x12) (pos 2) ≡ err value_error
unfolding cache_read read_index bisect_left read_at read_region validate_addr_size
read_hole = refl

abbrev two_file : List ℕ
two_file =
    b's' ∷ b'k' ∷ b'e' ∷ b'l' ∷ b'r' ∷ b'e' ∷ b'g' ∷ b'i' ∷ 0x20 ∷ 0 ∷ 0 ∷ 0 ∷ 2 ∷ 0 ∷ 0 ∷ 0 ∷ 4 ∷ 5
    ∷ []

load_one :
    load_from_file two_file true two ≡ ok ((record { start = 0x20; bytes = 4 ∷ 5 ∷ [] }) ∷ [])
unfolding load_from_file
load_one = refl

load_cut : load_from_file (b's' ∷ b'k' ∷ []) true two ≡ err value_error
unfolding load_from_file
load_cut = refl

cache_write-Written_example :
    (rs' : List Region) × (cache_write two (pos 0x12) (7 ∷ 8 ∷ []) ≡ ok rs')
    × IsCache rs'
    × Written two 0x12 (7 ∷ 8 ∷ []) rs'
cache_write-Written_example = cache_write-Written two 0x12 (7 ∷ 8 ∷ []) two-IsCache (omega arith)

cache_read-ReadsContent_example : ReadsContent two 0x12 2 (cache_read two (pos 0x12) (pos 2))
cache_read-ReadsContent_example = cache_read-ReadsContent two 0x12 2 two-IsCache.chain (omega arith)

not_an-IsAccess : ¬ IsAccess (negsuc 3) (pos 2)
not_an-IsAccess h = absurd (omega arith)

cache_write-outside_example : cache_write two (negsuc 3) (7 ∷ 8 ∷ []) ≡ err value_error
cache_write-outside_example = cache_write-outside two (negsuc 3) (7 ∷ 8 ∷ []) not_an-IsAccess

load-save_example :
    ((save_to_file two []).0 ≡ ok tt) × (load_from_file (save_to_file two []).1 true [] ≡ ok two)
load-save_example = load-save two [] [] (omega arith)

save-load_example :
    save_to_file ((record { start = 0x20; bytes = 4 ∷ 5 ∷ [] }) ∷ []) [] ≡ (ok tt, two_file)
save-load_example =
    save-load two_file [] ((record { start = 0x20; bytes = 4 ∷ 5 ∷ [] }) ∷ []) two (omega arith)
      load_one

load_total_example :
    ((rs : List Region) × IsSaved two_file rs
      × (load_from_file two_file false two ≡ ok (if false then rs else merge_all two rs)))
    ⊎ (((rs : List Region) → ¬ IsSaved two_file rs)
        × (load_from_file two_file false two ≡ err value_error))
load_total_example = load_total two_file false two (omega arith)
