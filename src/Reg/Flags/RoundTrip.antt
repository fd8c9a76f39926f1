-- ===== src/Reg/Flags/RoundTrip.antt =====
-- pip/skmap/src/skmap/reg.py: a flag that is written, and the flags of its register read after it.
use hdlskel.Base.{
  ℕ, ◌/◌, ◌%◌, ◌^◌, ◌<◌, ◌==◌, if◌then◌else◌, ◌≡◌, refl, ap, ◌∙◌, arith, Bool, true, false, some,
  List, [], ◌∷◌, length, get_elem?, take, drop, All, length-take, length-drop, All-take, All-drop,
  get_elem?-some,
}
use hdlskel.Base.Bits.{bit_at}
use hdlskel.Base.ByteBits.{bit_at-mod}
use hdlskel.Base.Bytes.{IsByte, from_le, from_le-lt}
use hdlskel.Base.Result.{ok}
use hdlskel.Base.Exec.{continue}
use hdlskel.Basic.{set_bit, bool_to_int}
use hdlskel.Cache.{splice}
use hdlskel.Head.{at}
use hdlskel.Module.Access.{Module, ModuleState, cache_addr}
use hdlskel.Module.Access
use hdlskel.Reg.Values.{Reg, may_write, mask_width}
use hdlskel.Reg.{read_bytes_cached, read_uint_cached, write_bytes_cached}
use hdlskel.Reg.Stored.{
  IsPlaced, with_bytes, mask_width-mod, write_bytes_cached-stored, read_bytes_cached-stored,
}
use hdlskel.Reg.Flags.{RFlag, is_single, read_bool_cached, write_bool_cached}
use hdlskel.Reg.Flags.Bits.{
  has_bit-bit_at, set_flag, set_flag-each, set_flag-IsByte, length-set_flag,
}

at_here : (b : List ℕ) (i : ℕ) {x : ℕ} → get_elem? b i ≡ some x → at b i ≡ ok x
at_here b i h = ground arith

module _ {F S : Type 0} (m : Module S) (r : Reg F) {addr : ℕ} {s : ModuleState S}
    (p : IsPlaced m r addr s) (bytes : All IsByte s.cache) where
  -- The bytes of the register.
  abbrev old_bytes : List ℕ
  old_bytes = take r.size (drop (cache_addr m addr) s.cache)

  length-old_bytes : length old_bytes ≡ r.size
  length-old_bytes = omega (
    arith,
    length-take r.size (drop (cache_addr m addr) s.cache),
    length-drop (cache_addr m addr) s.cache,
    p.inside,
  )

  read_old : read_bytes_cached m r s ≡ (ok old_bytes, s)
  unfolding read_bytes_cached Access.read_cached
  read_old = rw p.addr_set refl

  old-IsByte : All IsByte old_bytes
  old-IsByte = All-take IsByte r.size _ (All-drop IsByte (cache_addr m addr) s.cache bytes)

  -- What a flag of the register reads, where the register's bytes are `b`.
  flag_of :
      (t : ModuleState S) (g : RFlag) (b : List ℕ)
      → read_bytes_cached m r t ≡ (ok b, t)
      → length b ≡ r.size
      → All IsByte b
      → is_single g.vec_len ≡ true
      → g.bit < r.value_type.width
      → read_bool_cached m r g t ≡ (ok (bit_at (from_le b) g.bit == 1), t)
  unfolding read_bool_cached read_uint_cached
  flag_of t g b e len h one below =
      let w = r.value_type.width in
      let v = from_le b in
      let bound : v < 256 ^ r.size = ground (arith, from_le-lt b h, ap (λ n. 256 ^ n) len) in
      let kept : bit_at (mask_width r.size w v) g.bit ≡ bit_at v g.bit =
        ap (λ x. bit_at x g.bit) (mask_width-mod r.size w p.wide v bound)
        ∙ bit_at-mod w v g.bit below in
      rw (one, e)
        (ap (λ x. (ok x, t)) (has_bit-bit_at (mask_width r.size w v) g.bit ∙ ap (λ x. x == 1) kept))

  module _ (f : RFlag) (v : Bool) (old : ℕ) (here : get_elem? old_bytes (f.bit / 8) ≡ some old)
      (may : (b : List ℕ) → may_write r.acc b ≡ true) where
    abbrev new_bytes : List ℕ
    new_bytes = set_flag old_bytes f.bit old v here old-IsByte

    abbrev after : ModuleState S
    after = with_bytes m r addr new_bytes s

    length-new_bytes : length new_bytes ≡ r.size
    length-new_bytes = length-set_flag old_bytes f.bit old v here old-IsByte ∙ length-old_bytes

    flag_written : write_bool_cached m r f v s ≡ (ok tt, after)
    unfolding write_bool_cached
    flag_written = rw read_old (
        ap
          (λ res.
            continue res
              (λ x.
                write_bytes_cached m r
                  (splice old_bytes (f.bit / 8) (set_bit x (f.bit % 8) v ∷ [])))
              s)
          (at_here old_bytes (f.bit / 8) here)
        ∙ write_bytes_cached-stored m r p new_bytes (may new_bytes) length-new_bytes)

    flag_read :
        (g : RFlag)
        → is_single g.vec_len ≡ true
        → g.bit < r.value_type.width
        → (read_bool_cached m r g after).0
          ≡ (if g.bit == f.bit then ok v else (read_bool_cached m r g s).0)
    flag_read g one below =
        let new =
          flag_of after g new_bytes (read_bytes_cached-stored m r p new_bytes length-new_bytes)
            length-new_bytes (set_flag-IsByte old_bytes f.bit old v here old-IsByte) one below in
        let before = flag_of s g old_bytes read_old length-old_bytes old-IsByte one below in
        let bit = set_flag-each old_bytes f.bit old v here old-IsByte g.bit in
        rw (new, before, bit) (by_flag v (g.bit == f.bit) (bit_at (from_le old_bytes) g.bit))
      where
        by_flag :
            (v same : Bool) (o : ℕ)
            → ok ((if same then bool_to_int v else o) == 1) ≡ (if same then ok v else ok (o == 1))
        by_flag true true o = refl
        by_flag false true o = refl
        by_flag v false o = refl

  -- Writing a single flag of a register that may be written succeeds, and after it every single flag
  -- of the register reads as before, but for those at the written bit, which read the value written.
  -- The device is unchanged.
  pub read_bool-write_bool :
      (f : RFlag) (v : Bool)
      → ((b : List ℕ) → may_write r.acc b ≡ true)
      → f.bit < r.value_type.width
      → (t : ModuleState S) × (write_bool_cached m r f v s ≡ (ok tt, t))
        × (t.dev ≡ s.dev)
        × ((g : RFlag)
            → is_single g.vec_len ≡ true
            → g.bit < r.value_type.width
            → (read_bool_cached m r g t).0
              ≡ (if g.bit == f.bit then ok v else (read_bool_cached m r g s).0))
  read_bool-write_bool f v may below =
      let (old, here) =
        get_elem?-some old_bytes (f.bit / 8) (omega (arith, length-old_bytes, p.wide)) in
      (after f v old here may, flag_written f v old here may, refl, flag_read f v old here may)
