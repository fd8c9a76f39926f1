-- ===== src/Regio/Memory.antt =====
-- The contract of a byte memory behind a device, and `write` and `read` over any such device.
use hdlskel.Base.{ℕ, ◌+◌, ◌-◌, ◌≤◌, ◌<◌, ◌≡◌}
use hdlskel.Base.{refl, ap, ◌∙◌, arith, ◌≢◌, false}
use hdlskel.Base.{Option, none}
use hdlskel.Base.{List, [], ◌∷◌, ◌++◌, length, get_elem?, length-append, get_elem?-append}
use hdlskel.Base.{get_elem?-none}
use hdlskel.Base.Cells.{byte_at, or_else}
use hdlskel.Base.Result.{ok}
use hdlskel.Regio.{Device, Regio, write_chunk, write}
use hdlskel.Regio.Chunks.{Chunk, each, Joins, IsAligned, write-chunks}

-- Below `limit` a write sets the bytes that it is given and no other, and a read where bytes
-- stand gives these bytes and changes none.
pub record Memory {S : Type 0} (d : Device S) : Type 1 where
  pub IsValid : S → Type 0
  pub cell : S → ℕ → Option ℕ
  pub limit : ℕ
  -- The largest size of one access.
  pub max_size : ℕ
  pub write_law :
      (s : S) (a : ℕ) (bytes : List ℕ)
      → IsValid s
      → 0 < length bytes
      → length bytes ≤ max_size
      → a + length bytes ≤ limit
      → (s' : S) × (d.dev_write a bytes s ≡ (ok tt, s'))
        × IsValid s'
        × ((x : ℕ) → cell s' x ≡ or_else (byte_at a bytes x) (cell s x))
  pub read_law :
      (s : S) (a size : ℕ)
      → IsValid s
      → 0 < size
      → size ≤ max_size
      → a + size ≤ limit
      → ((j : ℕ) → j < size → cell s (a + j) ≢ none)
      → (bytes : List ℕ) × (s' : S) × (d.dev_read a size s ≡ (ok bytes, s'))
        × IsValid s'
        × ((x : ℕ) → cell s' x ≡ cell s x)
        × (length bytes ≡ size)
        × ((j : ℕ) → j < size → get_elem? bytes j ≡ cell s (a + j))

-- No callback, writes that reach the device, and an MTU that it takes.
pub record IsPlain {S : Type 0} (r : Regio S) (mem : Memory r.device) : Type 0 where
  pub mtu_pos : 0 < r.mtu
  pub mtu_fits : r.mtu ≤ mem.max_size
  pub writes : r.error_on_write ≡ false
  pub no_pre_write : r.pre_write_callback_func ≡ none
  pub no_post_read : r.post_read_callback_func ≡ none

byte_at-append :
    (a : ℕ) (c rest : List ℕ) (x : ℕ) (o : Option ℕ)
    → or_else (byte_at (a + length c) rest x) (or_else (byte_at a c x) o)
      ≡ or_else (byte_at a (c ++ rest) x) o
byte_at-append a c rest x o =
    ground (arith, get_elem?-append c rest (x - a), get_elem?-none c (x - a))

module _ {S : Type 0} (r : Regio S) (mem : Memory r.device) (plain : IsPlain r mem) where
  open mem use {IsValid, cell, limit, max_size, write_law, read_law}

  -- The bytes stand at their addresses, and nothing else has changed.
  abbrev pub Written : S → ℕ → List ℕ → S → Type 0
  Written s a bytes s' = IsValid s' × ((x : ℕ) → cell s' x ≡ or_else (byte_at a bytes x) (cell s x))

  write_chunk-dev_write :
      (a : ℕ) (c : List ℕ) (s : S) → write_chunk r a c s ≡ r.device.dev_write a c s
  unfolding write_chunk
  write_chunk-dev_write a c s = rw (plain.no_pre_write, plain.writes)

  each-Written :
      (m : ℕ) (cs : List Chunk) (s : S) (a : ℕ) (bytes : List ℕ)
      → IsValid s
      → m ≤ max_size
      → IsAligned m cs
      → Joins a bytes cs
      → a + length bytes ≤ limit
      → (s' : S) × (each (write_chunk r) cs s ≡ (ok tt, s')) × Written s a bytes s'
  unfolding each
  each-Written m [] s a bytes v fit al j h = (s, refl, (v, λ x. rw j (ground arith)))
  each-Written m ((b, c) ∷ cs) s a bytes v fit (n, below, _, al) (eb, rest, eq, j) h =
      let total : length bytes ≡ length c + length rest = ap length eq ∙ length-append c rest in
      let (s1, e1, v1, w1) = write_law s b c v n (omega arith) (omega arith) in
      let (s2, e2, (v2, w2)) = each-Written m cs s1 (a + length c) rest v1 fit al j (omega arith) in
      (
        s2,
        rw (write_chunk-dev_write b c s, e1, e2),
        (v2, λ x. w2 x ∙ rw (w1 x, eb, eq) (byte_at-append a c rest x (cell s x))),
      )

  -- On a valid byte memory, without callbacks and with an MTU that the device takes, a `write` of
  -- any size below the memory's limit succeeds and leaves a valid memory, in which the bytes stand
  -- at their addresses and every other address is unchanged.
  pub write-Written :
      (s : S) (a : ℕ) (bytes : List ℕ)
      → IsValid s
      → a + length bytes ≤ limit
      → (s' : S) × (write r a bytes s ≡ (ok tt, s')) × Written s a bytes s'
  write-Written s a bytes v h =
      let (cs, eq, joins, aligned) = write-chunks r a bytes plain.mtu_pos in
      let (s', e, w) = each-Written r.mtu cs s a bytes v plain.mtu_fits aligned joins h in
      (s', rw eq e, w)
