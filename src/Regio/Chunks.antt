-- ===== src/Regio/Chunks.antt =====
-- pip/regio/src/regio/regio.py: how `write` cuts its data into chunks.
use hdlskel.Base.{ℕ, zero, suc, ◌+◌, ◌-◌, ◌%◌, ◌≤◌, ◌<◌, min, ltb, ◌≡◌, refl, ap}
use hdlskel.Base.{◌∙◌, arith, ◌⊎◌, inl, inr, Bool-cases, List, [], ◌∷◌, ◌++◌, length, take, drop}
use hdlskel.Base.{
  take-append-drop, length-take, length-drop, drop-drop, drop-all, ltb→lt, lt→ltb, leb, true, sym,
}
use native.Mathlib.Nat.{mod-add-mod, mod_self, add_assoc, add-zero}
use hdlskel.Base.Exec.{Exec, ◌>>◌, pure}
use hdlskel.Regio.{Regio, write_chunk, write_loop, write, first_chunk_size_to_align}

-- An address and the bytes for it.
abbrev pub Chunk : Type 0
Chunk = ℕ × List ℕ

-- One action for each chunk, in order.
unfoldable pub each :
    {S : Type 0} → (ℕ → List ℕ → Exec S (Unit {0})) → List Chunk → Exec S (Unit {0})
each f [] = pure tt
each f ((a, c) ∷ cs) = f a c >> each f cs

-- The chunks follow one another from `a` on and make up `bytes`.
abbrev pub Joins : ℕ → List ℕ → List Chunk → Type 0
Joins a bytes [] = bytes ≡ []
Joins a bytes ((b, c) ∷ cs) =
    (b ≡ a) × (rest : List ℕ) × (bytes ≡ c ++ rest) × Joins (a + length c) rest cs

-- Each chunk lies in one block of `m` bytes, and only the last may end before its block does.
abbrev pub IsAligned : ℕ → List Chunk → Type 0
IsAligned m [] = Unit
IsAligned m ((b, c) ∷ cs) =
    (0 < length c)
    × (b % m + length c ≤ m)
    × ((cs ≡ []) ⊎ ((b + length c) % m ≡ 0))
    × IsAligned m cs

-- `chunk` is what is left of the block that `a` lies in.
abbrev Remains : ℕ → ℕ → ℕ → Type 0
Remains m a chunk = (0 < chunk) × (a % m + chunk ≡ m)

next_block : (m a chunk : ℕ) → Remains m a chunk → (a + chunk) % m ≡ 0
next_block m a chunk h = sym (mod-add-mod a m chunk) ∙ ap (λ (t : ℕ). t % m) h.1 ∙ mod_self m

first-Remains :
    {S : Type 0} (r : Regio S) (a : ℕ) → 0 < r.mtu → Remains r.mtu a (first_chunk_size_to_align r a)
unfolding first_chunk_size_to_align
first-Remains r a h = grind arith

pub first-pos : {S : Type 0} (r : Regio S) (a : ℕ) → 0 < r.mtu → 0 < first_chunk_size_to_align r a
first-pos r a h = (first-Remains r a h).0

pub first-le : {S : Type 0} (r : Regio S) (a : ℕ) → first_chunk_size_to_align r a ≤ r.mtu
unfolding first_chunk_size_to_align
first-le r a = ground arith

module _ {S : Type 0} (r : Regio S) (addr : ℕ) (bytes : List ℕ) where
  -- What the loop does from `done` on, as a list of chunks.
  abbrev Cut : ℕ → ℕ → ℕ → Type 0
  Cut fuel done chunk =
      (cs : List Chunk) × (write_loop fuel r addr bytes done chunk ≡ each (write_chunk r) cs)
      × Joins (addr + done) (drop done bytes) cs
      × IsAligned r.mtu cs
      × ((length bytes ≤ done) → cs ≡ [])

  module _ (done chunk : ℕ) (lt : done < length bytes) (k : Remains r.mtu (addr + done) chunk) where
    abbrev size : ℕ
    size = min chunk (length bytes - done)

    abbrev piece : List ℕ
    piece = take size (drop done bytes)

    length-piece : length piece ≡ size
    length-piece = omega (arith, length-take size (drop done bytes), length-drop done bytes)

    -- Where the data goes on, it goes on at a block.
    next-Remains : done + size < length bytes → Remains r.mtu (addr + (done + size)) r.mtu
    next-Remains more =
        let full : size ≡ chunk = omega arith in
        rw (full, ← add_assoc addr done chunk)
          (omega (arith, k), omega (arith, next_block r.mtu (addr + done) chunk k))

    piece_ends : (length bytes ≤ done + size) ⊎ ((addr + done + length piece) % r.mtu ≡ 0)
    piece_ends = elim (Bool-cases (leb chunk (length bytes - done))) [
      | inl e ↦
          let full : size ≡ chunk = ground arith in
          inr (rw (length-piece, full) (next_block r.mtu (addr + done) chunk k))
      | inr e ↦ inl (ground arith)
    ]

    cons-Cut : (fuel : ℕ) → Cut fuel (done + size) r.mtu → Cut (suc fuel) done chunk
    unfolding write_loop each
    cons-Cut fuel (cs, eq, joins, aligned, last) = (
      (addr + done, piece) ∷ cs,
      (let t : ltb done (length bytes) ≡ true = lt→ltb _ _ lt in rw (t, eq)),
      (
        refl,
        drop size (drop done bytes),
        sym (take-append-drop size (drop done bytes)),
        rw (length-piece, add_assoc addr done size, drop-drop size done bytes) joins,
      ),
      (
        omega (arith, length-piece, k),
        omega (arith, length-piece, k),
        elim piece_ends [ inl over ↦ inl (last over) | inr at_end ↦ inr at_end ],
        aligned,
      ),
      λ over. absurd (omega arith),
    )

  write_loop-Cut :
      (fuel done chunk : ℕ)
      → 0 < r.mtu
      → done ≤ length bytes
      → length bytes < done + fuel
      → (done < length bytes → Remains r.mtu (addr + done) chunk)
      → Cut fuel done chunk
  write_loop-Cut zero done chunk m h f k = absurd (omega arith)
  write_loop-Cut (suc fuel) done chunk m h f k = elim (Bool-cases (ltb done (length bytes))) [
    | inr e ↦
        unfold write_loop each in ([], rw e, drop-all done bytes (ground arith), tt, λ _. refl)
    | inl e ↦
        let lt = ltb→lt done (length bytes) e in
        cons-Cut done chunk lt (k lt) fuel (
          write_loop-Cut fuel (done + size done chunk lt (k lt)) r.mtu m (omega arith)
            (omega (arith, k lt)) (next-Remains done chunk lt (k lt)))
  ]

-- `write` is one `_write` after the other: the chunks are the data in order, each one lies in a
-- block of `mtu` bytes, and only the last may end before its block does. So it always ends.
pub write-chunks :
    {S : Type 0} (r : Regio S) (addr : ℕ) (bytes : List ℕ)
    → 0 < r.mtu
    → (cs : List Chunk) × (write r addr bytes ≡ each (write_chunk r) cs)
      × Joins addr bytes cs
      × IsAligned r.mtu cs
unfolding write
write-chunks r addr bytes m =
    let (cs, eq, joins, aligned, last) =
      write_loop-Cut r addr bytes (suc (length bytes)) 0 (first_chunk_size_to_align r addr) m
        (omega arith) (omega arith) (λ _. rw add-zero (first-Remains r addr m)) in
    (cs, eq, rw add-zero at joins, aligned)
