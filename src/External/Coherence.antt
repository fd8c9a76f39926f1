-- ===== src/External/Coherence.antt =====
-- pip/skmap/src/skmap/external_mem.py: the cache of an external memory and the device behind it.
use hdlskel.Base.{ℕ, ◌+◌, ◌-◌, ◌≤◌, ◌<◌, leb, ◌≡◌, ◌≢◌, refl, sym, ap, ◌∙◌, arith}
use hdlskel.Base.{true, none, List, length, get_elem?, le→leb, ◌⊎◌, inl, inr}
use hdlskel.Base.{get_elem?-none}
use hdlskel.Base.Cells.{byte_at, or_else}
use hdlskel.Base.Result.{Result, ok}
use hdlskel.Base.Exec.{continue, ◌>>◌, pure}
use hdlskel.Cache.Splice.{length-splice, get_elem?-stored, get_elem?-ne_none, slice_stands}
use hdlskel.Regio.Memory.{Memory}
use hdlskel.External.{
  ExternalMem, Cached, write_cached, read_cached, cached_dev_write, cached_dev_read, cached_device,
}
use hdlskel.External.Shift.{far, write_law, read_law}

module _ {S : Type 0} (m : ExternalMem S) where
  -- What `write_cached` leaves.
  pub write_cached-stored :
      (s : Cached S) (a : ℕ) (bytes : List ℕ)
      → length s.cache ≡ m.size
      → a + length bytes ≤ m.size
      → (s' : Cached S) × (write_cached m a bytes s ≡ (ok tt, s'))
        × (s'.dev ≡ s.dev)
        × (length s'.cache ≡ m.size)
        × ((x : ℕ) → get_elem? s'.cache x ≡ or_else (byte_at a bytes x) (get_elem? s.cache x))
  unfolding write_cached
  write_cached-stored s a bytes size k =
      let inside : leb (a + length bytes) m.size ≡ true = le→leb _ _ k in
      let fits : a + length bytes ≤ length s.cache = omega arith in
      (
        (write_cached m a bytes s).1,
        rw inside refl,
        rw inside refl,
        rw inside (length-splice s.cache a bytes fits ∙ size),
        λ x. rw inside (get_elem?-stored s.cache a bytes x fits),
      )

  -- Bytes that stand in the cache are read from it.
  pub read_cached-stands :
      (s : Cached S) (a : ℕ) (bytes : List ℕ)
      → a + length bytes ≤ m.size
      → length s.cache ≡ m.size
      → ((j : ℕ) → j < length bytes → get_elem? s.cache (a + j) ≡ get_elem? bytes j)
      → read_cached m a (length bytes) s ≡ (ok bytes, s)
  unfolding read_cached
  read_cached-stands s a bytes k size h =
      let inside : leb (a + length bytes) m.size ≡ true = le→leb _ _ k in
      let same = slice_stands s.cache a bytes (omega arith) h in
      rw inside (ap (λ t. (ok t, s)) same)

module _ {S : Type 0} (m : ExternalMem S) (mem : Memory m.regio)
    (fit : m.base_addr + m.size ≤ mem.limit) where
  -- The device is valid, and the cache is as long as the memory.
  abbrev pub IsSized : Cached S → Type 0
  IsSized s = mem.IsValid s.dev × (length s.cache ≡ m.size)

  -- The cache holds what the device holds at `x`.
  abbrev pub Synced : Cached S → ℕ → Type 0
  Synced s x = get_elem? s.cache x ≡ far m mem fit s.dev x

  -- `bytes` have been set at `a`, in the device and in the cache.
  abbrev pub BothSet : Cached S → ℕ → List ℕ → Cached S → Type 0
  BothSet s a bytes s' =
      IsSized s'
      × ((x : ℕ) → far m mem fit s'.dev x ≡ or_else (byte_at a bytes x) (far m mem fit s.dev x))
      × ((x : ℕ) → get_elem? s'.cache x ≡ or_else (byte_at a bytes x) (get_elem? s.cache x))

  -- A write sets its bytes in the device and in the cache, and changes no other address in either.
  pub cached_write-BothSet :
      (s : Cached S) (a : ℕ) (bytes : List ℕ)
      → IsSized s
      → 0 < length bytes
      → length bytes ≤ mem.max_size
      → a + length bytes ≤ m.size
      → (s' : Cached S) × (cached_dev_write m a bytes s ≡ (ok tt, s')) × BothSet s a bytes s'
  unfolding cached_dev_write
  cached_write-BothSet s a bytes (v, size) n h k =
      let (dev, e, v', w) = write_law m mem fit s.dev a bytes v n h k in
      let (s', e', same, size', set) =
        write_cached-stored m (record s { dev = dev }) a bytes size k in
      (
        s',
        ap (λ res. continue res.0 (λ _. write_cached m a bytes) (record s { dev = res.1 })) e ∙ e',
        ((rw same v', size'), (λ x. ap (λ d. far m mem fit d x) same ∙ w x), set),
      )

  -- `bytes` were read at `a`: the device is unchanged, and the cache holds them now.
  abbrev pub Fetched : Cached S → ℕ → ℕ → List ℕ → Cached S → Type 0
  Fetched s a size bytes s' =
      IsSized s'
      × ((x : ℕ) → far m mem fit s'.dev x ≡ far m mem fit s.dev x)
      × (length bytes ≡ size)
      × ((j : ℕ) → j < size → get_elem? bytes j ≡ far m mem fit s.dev (a + j))
      × ((x : ℕ) → get_elem? s'.cache x ≡ or_else (byte_at a bytes x) (get_elem? s.cache x))

  -- A read where the device holds bytes gives these and puts them into the cache.
  pub cached_read-Fetched :
      (s : Cached S) (a size : ℕ)
      → IsSized s
      → 0 < size
      → size ≤ mem.max_size
      → a + size ≤ m.size
      → ((j : ℕ) → j < size → far m mem fit s.dev (a + j) ≢ none)
      → (bytes : List ℕ) × (s' : Cached S) × (cached_dev_read m a size s ≡ (ok bytes, s'))
        × Fetched s a size bytes s'
  unfolding cached_dev_read
  cached_read-Fetched s a size (v, sized) n h k c =
      let (bytes, dev, e, v', same, len, get) = read_law m mem fit s.dev a size v n h k c in
      let (s', e', dev_same, size', set) =
        write_cached-stored m (record s { dev = dev }) a bytes sized (omega arith) in
      (
        bytes,
        s',
        ap
              (λ (res : Result (List ℕ) × S).
                continue res.0 (λ b. write_cached m a b >> pure b) (record s { dev = res.1 }))
              e
            ∙ ap (λ (res : Result (Unit {0}) × Cached S). continue res.0 (λ _. pure bytes) res.1)
                e',
        (
          (rw dev_same v', size'),
          (λ x. ap (λ d. far m mem fit d x) dev_same ∙ same x),
          len,
          get,
          set,
        ),
      )

  -- Where the cache agreed with the device, it agrees after the write; and it does on what was
  -- written.
  pub BothSet-Synced :
      (s s' : Cached S) (a : ℕ) (bytes : List ℕ)
      → BothSet s a bytes s'
      → (x : ℕ) → Synced s x ⊎ ((a ≤ x) × (x < a + length bytes))
      → Synced s' x
  BothSet-Synced s s' a bytes (v, dev, cache) x (inl e) =
      cache x ∙ ap (or_else (byte_at a bytes x)) e ∙ sym (dev x)
  BothSet-Synced s s' a bytes (v, dev, cache) x (inr h) =
      ground (arith, dev x, cache x, get_elem?-ne_none bytes (x - a))

  -- The same of a read.
  pub Fetched-Synced :
      (s s' : Cached S) (a size : ℕ) (bytes : List ℕ)
      → Fetched s a size bytes s'
      → (x : ℕ) → Synced s x ⊎ ((a ≤ x) × (x < a + size))
      → Synced s' x
  Fetched-Synced s s' a size bytes (v, dev, len, get, cache) x h =
      let fetched : a ≤ x → x < a + size → get_elem? bytes (x - a) ≡ far m mem fit s.dev x = λ p q.
        let back : a + (x - a) ≡ x = omega arith in
        get (x - a) (omega arith) ∙ ap (far m mem fit s.dev) back in
      elim h [
        | inl e ↦ ground (
          arith,
          dev x,
          cache x,
          get_elem?-ne_none bytes (x - a),
          get_elem?-none bytes (x - a),
          e,
          len,
          fetched,
        )
        | inr (p, q) ↦
            ground (arith, dev x, cache x, get_elem?-ne_none bytes (x - a), len, fetched p q)
      ]

  -- The cache agrees with the device everywhere.
  abbrev pub IsSynced : Cached S → Type 0
  IsSynced s = IsSized s × ((x : ℕ) → x < m.size → Synced s x)

  -- A memory whose cache agrees with its device is a byte memory, and stays in agreement.
  unfoldable pub synced_memory : Memory (cached_device m)
  synced_memory = record {
    IsValid = IsSynced;
    cell = λ s. far m mem fit s.dev;
    limit = m.size;
    max_size = mem.max_size;
    write_law = λ s a bytes v n h k.
        let (s', e, b) = cached_write-BothSet s a bytes v.0 n h k in
        (s', e, (b.0, λ x q. BothSet-Synced s s' a bytes b x (inl (v.1 x q))), b.1);
    read_law = λ s a size v n h k c.
        let (bytes, s', e, f) = cached_read-Fetched s a size v.0 n h k c in
        (
          bytes,
          s',
          e,
          (f.0, λ x q. Fetched-Synced s s' a size bytes f x (inl (v.1 x q))),
          f.1,
          f.2,
          f.3,
        );
  }
