-- ===== src/Regio/Tests.antt =====
-- Runs of `Regio` over a cache, and its theorems at concrete inputs.
use hdlskel.Base.{ℕ, zero, suc, ◌+◌, ◌<◌, ◌≡◌, ◌≢◌, refl, arith, false, none, List, [], ◌∷◌}
use hdlskel.Base.Result.{ok}
use hdlskel.Cache.{Region}
use hdlskel.Cache.Write.{IsCache}
use hdlskel.Cache.Content.{content, byte_in}
use hdlskel.Cache.Device.{cache_device, cache_memory}
use hdlskel.Regio.{Regio, write, read, write_chunk}
use hdlskel.Regio.Chunks.{Chunk, each, Joins, IsAligned, write-chunks}
use hdlskel.Regio.Memory.{IsPlain, Written, write-Written}
use hdlskel.Regio.ReadBack.{ReadsBack, read-ReadsBack, read-write}
use hdlskel.Regio.Files.{write_from_read_file}
use hdlskel.Regio.Files.SameAsWrite.{with_file, write_from_read_file-write}
use hdlskel.Base.{◌++◌, some}

-- A `Regio` over the cache that takes three bytes at a time.
abbrev narrow : Regio (List Region)
narrow = record {
  device = cache_device;
  error_on_write = false;
  pre_write_callback_func = none;
  post_read_callback_func = none;
  mtu = 3;
}

narrow-IsPlain : IsPlain narrow cache_memory
unfolding cache_memory
narrow-IsPlain = record {
  mtu_pos = omega arith;
  mtu_fits = omega arith;
  writes = refl;
  no_pre_write = refl;
  no_post_read = refl;
}

empty-IsCache : IsCache []
empty-IsCache = record { chain = tt; fits = tt }

abbrev five : List ℕ
five = 1 ∷ 2 ∷ 3 ∷ 4 ∷ 5 ∷ []

abbrev held : List Region
held = (record { start = 0x10; bytes = five }) ∷ []

held-IsCache : IsCache held
held-IsCache = record { chain = omega arith; fits = omega arith }

write-chunks_example :
    (cs : List Chunk) × (write narrow 0x10 five ≡ each (write_chunk narrow) cs)
    × Joins 0x10 five cs
    × IsAligned narrow.mtu cs
write-chunks_example = write-chunks narrow 0x10 five (omega arith)

write-Written_example :
    (s' : List Region) × (write narrow 0x10 five [] ≡ (ok tt, s'))
    × Written narrow cache_memory narrow-IsPlain [] 0x10 five s'
unfolding cache_memory
write-Written_example =
    write-Written narrow cache_memory narrow-IsPlain [] 0x10 five empty-IsCache (omega arith)

held_byte : (j : ℕ) → j < 4 → content held (0x11 + j) ≢ none
unfolding content byte_in
held_byte zero h = ground arith
held_byte (suc zero) h = ground arith
held_byte (suc (suc zero)) h = ground arith
held_byte (suc (suc (suc zero))) h = ground arith
held_byte (suc (suc (suc (suc j)))) h = absurd (omega arith)

read-ReadsBack_example :
    (bytes : List ℕ) × (s' : List Region) × (read narrow 0x11 4 held ≡ (ok bytes, s'))
    × ReadsBack narrow cache_memory narrow-IsPlain held 0x11 4 bytes s'
unfolding cache_memory
read-ReadsBack_example =
    read-ReadsBack narrow cache_memory narrow-IsPlain held 0x11 4 held-IsCache (omega arith)
      held_byte

read-write_example :
    (s1 : List Region) × (s2 : List Region) × (write narrow 0x10 five [] ≡ (ok tt, s1))
    × (read narrow 0x10 5 s1 ≡ (ok five, s2))
unfolding cache_memory
read-write_example =
    read-write narrow cache_memory narrow-IsPlain [] 0x10 five empty-IsCache (omega arith)

write_from_read_file-write_example :
    write_from_read_file narrow 0x10 (five ++ (6 ∷ 7 ∷ [])) (some 5) []
    ≡ with_file narrow 0x10 five (6 ∷ 7 ∷ []) (6 ∷ 7 ∷ []) (write narrow 0x10 five [])
write_from_read_file-write_example =
    write_from_read_file-write narrow 0x10 five (6 ∷ 7 ∷ []) [] (omega arith)
