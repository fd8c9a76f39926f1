-- ===== src/External/Shift.antt =====
-- pip/skmap/src/skmap/external_mem.py: an external memory as a window of a byte memory.
use hdlskel.Base.{ℕ, ◌+◌, ◌-◌, ◌≤◌, ◌<◌, leb, ◌≡◌, ◌≢◌, refl, sym, ap, ◌∙◌, arith}
use hdlskel.Base.{true, Option, none, List, length, get_elem?, le→leb}
use hdlskel.Base.Cells.{byte_at, or_else}
use hdlskel.Base.Result.{ok}
use hdlskel.Regio.Memory.{Memory}
use hdlskel.External.{ExternalMem, dev_write, dev_read, external_device}

byte_at-shift :
    (a b : ℕ) (bytes : List ℕ) (x : ℕ) → byte_at (a + b) bytes (x + b) ≡ byte_at a bytes x
byte_at-shift a b bytes x =
    let same : x + b - (a + b) ≡ x - a = omega arith in
    let test : leb (a + b) (x + b) ≡ leb a x = ground arith in rw (same, test) refl

module _ {S : Type 0} (m : ExternalMem S) (mem : Memory m.regio)
    (fit : m.base_addr + m.size ≤ mem.limit) where
  -- Address `x` of the external memory.
  abbrev pub far : S → ℕ → Option ℕ
  far s x = mem.cell s (x + m.base_addr)

  pub write_law :
      (s : S) (a : ℕ) (bytes : List ℕ)
      → mem.IsValid s
      → 0 < length bytes
      → length bytes ≤ mem.max_size
      → a + length bytes ≤ m.size
      → (s' : S) × (dev_write m a bytes s ≡ (ok tt, s'))
        × mem.IsValid s'
        × ((x : ℕ) → far s' x ≡ or_else (byte_at a bytes x) (far s x))
  unfolding dev_write
  write_law s a bytes v n h k =
      let (s', e, v', w) = mem.write_law s (a + m.base_addr) bytes v n h (omega (arith, fit)) in
      let inside : leb (a + length bytes) m.size ≡ true = le→leb _ _ k in
      (
        s',
        rw (inside, e) refl,
        v',
        λ x.
            w (x + m.base_addr)
            ∙ ap (λ t. or_else t (far s x)) (byte_at-shift a m.base_addr bytes x),
      )

  swap_base : (a j : ℕ) → a + j + m.base_addr ≡ a + m.base_addr + j
  swap_base a j = omega arith

  pub read_law :
      (s : S) (a size : ℕ)
      → mem.IsValid s
      → 0 < size
      → size ≤ mem.max_size
      → a + size ≤ m.size
      → ((j : ℕ) → j < size → far s (a + j) ≢ none)
      → (bytes : List ℕ) × (s' : S) × (dev_read m a size s ≡ (ok bytes, s'))
        × mem.IsValid s'
        × ((x : ℕ) → far s' x ≡ far s x)
        × (length bytes ≡ size)
        × ((j : ℕ) → j < size → get_elem? bytes j ≡ far s (a + j))
  unfolding dev_read
  read_law s a size v n h k c =
      let (bytes, s', e, v', same, len, get) =
        mem.read_law s (a + m.base_addr) size v n h (omega (arith, fit))
          (λ j q t. c j q (ap (mem.cell s) (swap_base a j) ∙ t)) in
      let inside : leb (a + size) m.size ≡ true = le→leb _ _ k in
      (
        bytes,
        s',
        rw (inside, e) refl,
        v',
        λ x. same (x + m.base_addr),
        len,
        λ j q. get j q ∙ ap (mem.cell s) (sym (swap_base a j)),
      )

  -- The external memory is a byte memory of its own size.
  unfoldable pub external_memory : Memory (external_device m)
  external_memory = record {
    IsValid = mem.IsValid;
    cell = far;
    limit = m.size;
    max_size = mem.max_size;
    write_law = write_law;
    read_law = read_law;
  }
