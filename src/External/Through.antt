-- ===== src/External/Through.antt =====
-- pip/skmap/src/skmap/external_mem.py: reads and writes of a cached external memory.
use hdlskel.Base.{ℕ, ◌+◌, ◌≤◌, ◌<◌, ◌≡◌, ◌≢◌, refl, ◌∙◌, arith}
use hdlskel.Base.{false, none, List, length, ◌⊎◌}
use hdlskel.Base.{get_elem?-some}
use hdlskel.Base.Result.{ok}
use hdlskel.Regio.{Regio, regio_mtu_default, write}
use hdlskel.Regio.Memory.{Memory, IsPlain, write-Written}
use hdlskel.External.{
  ExternalMem, Cached, read_cached, cached_dev_write, cached_dev_read, cached_device,
}
use hdlskel.External.Shift.{far}
use hdlskel.External.Coherence.{
  IsSized, Synced, IsSynced, BothSet, Fetched, BothSet-Synced, Fetched-Synced, cached_write-BothSet,
  cached_read-Fetched, synced_memory, read_cached-stands,
}

module _ {S : Type 0} (m : ExternalMem S) (mem : Memory m.regio)
    (fit : m.base_addr + m.size ≤ mem.limit) where
  -- A `dev_write` of a cached external memory inside its bounds succeeds if it has one byte at
  -- least and no more than the device takes in one write, if the device is a byte memory in whose
  -- address space the external memory lies, and if the cache has the memory's size: it sets its
  -- bytes in the device and in the cache, and the two agree on these and wherever they agreed
  -- before.
  pub cached_write-Synced :
      (s : Cached S) (a : ℕ) (bytes : List ℕ)
      → IsSized m mem fit s
      → 0 < length bytes
      → length bytes ≤ mem.max_size
      → a + length bytes ≤ m.size
      → (s' : Cached S) × (cached_dev_write m a bytes s ≡ (ok tt, s'))
        × BothSet m mem fit s a bytes s'
        × ((x : ℕ)
            → Synced m mem fit s x ⊎ ((a ≤ x) × (x < a + length bytes))
            → Synced m mem fit s' x)
  cached_write-Synced s a bytes v n h k =
      let (s', e, b) = cached_write-BothSet m mem fit s a bytes v n h k in
      (s', e, b, BothSet-Synced m mem fit s s' a bytes b)

  -- A `dev_read` of a cached external memory inside its bounds gives the bytes that the device holds
  -- there and leaves the device as it is, if it asks for one byte at least and for no more than the
  -- device gives in one read, if the device is a byte memory that holds a byte at each of these
  -- addresses and in whose address space the external memory lies, and if the cache has the
  -- memory's size; afterwards the cache and the device agree on what was read and wherever they
  -- agreed before.
  pub cached_read-Synced :
      (s : Cached S) (a size : ℕ)
      → IsSized m mem fit s
      → 0 < size
      → size ≤ mem.max_size
      → a + size ≤ m.size
      → ((j : ℕ) → j < size → far m mem fit s.dev (a + j) ≢ none)
      → (bytes : List ℕ) × (s' : Cached S) × (cached_dev_read m a size s ≡ (ok bytes, s'))
        × Fetched m mem fit s a size bytes s'
        × ((x : ℕ) → Synced m mem fit s x ⊎ ((a ≤ x) × (x < a + size)) → Synced m mem fit s' x)
  cached_read-Synced s a size v n h k c =
      let (bytes, s', e, f) = cached_read-Fetched m mem fit s a size v n h k c in
      (bytes, s', e, f, Fetched-Synced m mem fit s s' a size bytes f)

  -- The memory as a `Regio`, as its constructor leaves it.
  abbrev pub as_regio : Regio (Cached S)
  as_regio = record {
    device = cached_device m;
    error_on_write = false;
    pre_write_callback_func = none;
    post_read_callback_func = none;
    mtu = regio_mtu_default;
  }

  as_regio-IsPlain : regio_mtu_default ≤ mem.max_size → IsPlain as_regio (synced_memory m mem fit)
  unfolding synced_memory
  as_regio-IsPlain h = record {
    mtu_pos = omega arith;
    mtu_fits = h;
    writes = refl;
    no_pre_write = refl;
    no_post_read = refl;
  }

  -- Data of any size that `write` stores inside a cached external memory is what `read_cached`
  -- then gives, if the device takes blocks of the default MTU, and if the cache agreed with it.
  pub read_cached-write :
      (s : Cached S) (a : ℕ) (bytes : List ℕ)
      → regio_mtu_default ≤ mem.max_size
      → IsSynced m mem fit s
      → a + length bytes ≤ m.size
      → (s' : Cached S) × (write as_regio a bytes s ≡ (ok tt, s'))
        × IsSynced m mem fit s'
        × (read_cached m a (length bytes) s' ≡ (ok bytes, s'))
  unfolding synced_memory
  read_cached-write s a bytes h v k =
      let (s', e, (v', w)) =
        write-Written as_regio (synced_memory m mem fit) (as_regio-IsPlain h) s a bytes v k in
      (
        s',
        e,
        v',
        read_cached-stands m s' a bytes k v'.0.1 (λ j q.
            v'.1 (a + j) (omega arith) ∙ ground (arith, w (a + j), get_elem?-some bytes j q)),
      )
