-- ===== src/Module/Through.antt =====
-- pip/skmap/src/skmap/module.py: bytes that a module writes to the device, and reads from it.
use hdlskel.Base.{
  ℕ, ◌+◌, ◌%◌, ◌≤◌, ◌<◌, ◌==◌, ◌≡◌, refl, sym, ap, ◌∙◌, arith, true, false, List, length, take,
  drop, length-take, length-drop, take-take,
}
use hdlskel.Base.Result.{ok}
use hdlskel.Basic.{ceil_multiple}
use hdlskel.Basic.Rounding.{ceil_multiple-least}
use hdlskel.Cache.{splice}
use hdlskel.Cache.Splice.{length-splice, slice-splice}
use hdlskel.Regio.{read, write}
use hdlskel.Regio.Memory.{Memory, IsPlain}
use hdlskel.Regio.ReadBack.{read-write}
use hdlskel.Module.Access.{
  Module, ModuleState, cache_addr, byte_align_size, read_cached, write_bytes_cached, fetch, store,
  read_bytes, write_bytes,
}

-- The start of bytes that were assigned.
take-splice :
    (buf : List ℕ) (a n : ℕ) (b : List ℕ)
    → a + length b ≤ length buf
    → n ≤ length b
    → take n (drop a (splice buf a b)) ≡ take n b
take-splice buf a n b h k =
    sym (take-take n (length b) (drop a (splice buf a b)) k) ∙ ap (take n) (slice-splice buf a b h)

module _ {S : Type 0} (m : Module S) (mem : Memory m.regio.device)
    (plain : IsPlain m.regio mem) where
  -- The bytes that an access of `size` bytes moves.
  abbrev pub op_size : ℕ → ℕ
  op_size size = ceil_multiple size m.byte_align

  -- The module reaches the device, and an aligned access lies inside its cache and the device.
  pub record IsReady (addr size : ℕ) (s : ModuleState S) : Type 0 where
    pub valid : mem.IsValid s.dev
    pub direct : s.use_cache ≡ false
    pub align_pos : 0 < m.byte_align
    pub aligned : addr % m.byte_align ≡ 0
    pub room : cache_addr m addr + op_size size ≤ length s.cache
    pub below : addr + op_size size ≤ mem.limit

  module _ (addr : ℕ) (b : List ℕ) (s : ModuleState S) (h : IsReady addr (length b) s) where
    abbrev n : ℕ
    n = op_size (length b)

    abbrev ca : ℕ
    ca = cache_addr m addr

    n_le : length b ≤ n
    n_le = (ceil_multiple-least (length b) m.byte_align h.align_pos).0

    abbrev cached : List ℕ
    cached = splice s.cache ca b

    length-cached : length cached ≡ length s.cache
    length-cached = length-splice s.cache ca b (omega (arith, n_le, h.room))

    -- What goes to the device.
    abbrev sent : List ℕ
    sent = take n (drop ca cached)

    length-sent : length sent ≡ n
    length-sent =
        omega (arith, length-take n (drop ca cached), length-drop ca cached, length-cached, h.room)

    sent_start : take (length b) sent ≡ b
    sent_start =
        take-take (length b) n (drop ca cached) n_le
        ∙ slice-splice s.cache ca b (omega (arith, n_le, h.room))

    test : (addr % m.byte_align == 0) ≡ true
    test = ground (arith, h.aligned)

    write_sent :
        (dev : S)
        → write m.regio addr sent s.dev ≡ (ok tt, dev)
        → write_bytes m addr b s ≡ (ok tt, record s { dev = dev; cache = cached })
    unfolding write_bytes write_bytes_cached store byte_align_size read_cached
    write_sent dev e = rw (h.direct, test, e) refl

    read_sent :
        (dev dev' : S) (c : List ℕ)
        → length c ≡ length s.cache
        → read m.regio addr n dev ≡ (ok sent, dev')
        → read_bytes m addr (length b) (record s { dev = dev; cache = c })
          ≡ (ok (take (length b) sent), record s { dev = dev'; cache = splice c ca sent })
    unfolding read_bytes fetch byte_align_size write_bytes_cached
    read_sent dev dev' c len e = rw (h.direct, test, e) refl

    -- With a device that is a byte memory, behind a `Regio` without callbacks, bytes that
    -- `write_bytes` sends are what `read_bytes` then gives, whatever the cache holds by then; and
    -- the cache holds them after it.
    pub read_bytes-write_bytes :
        (s1 : ModuleState S) × (write_bytes m addr b s ≡ (ok tt, s1))
        × (s1.cache ≡ splice s.cache (cache_addr m addr) b)
        × ((c : List ℕ)
            → length c ≡ length s.cache
            → (s2 : ModuleState S) × (read_bytes m addr (length b) (record s1 { cache = c })
                ≡ (ok b, s2))
              × (take (length b) (drop (cache_addr m addr) s2.cache) ≡ b))
    read_bytes-write_bytes =
        let (dev, dev', e, back) =
          read-write m.regio mem plain s.dev addr sent h.valid
            (omega (arith, length-sent, h.below)) in
        let back' : read m.regio addr n dev ≡ (ok sent, dev') =
          ap (λ t. read m.regio addr t dev) (sym length-sent) ∙ back in
        (
          record s { dev = dev; cache = cached },
          write_sent dev e,
          refl,
          λ c len. (
            record s { dev = dev'; cache = splice c ca sent },
            read_sent dev dev' c len back'
                ∙ ap (λ t. (ok t, record s { dev = dev'; cache = splice c ca sent })) sent_start,
            take-splice c ca (length b) sent (omega (arith, length-sent, h.room))
                  (omega (arith, length-sent, n_le))
                ∙ sent_start,
          ),
        )
