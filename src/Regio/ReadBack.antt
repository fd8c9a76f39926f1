-- ===== src/Regio/ReadBack.antt =====
-- `read` over a byte memory: the loop, and reading back what was written.
use hdlskel.Base.{ℕ, zero, suc, ◌+◌, ◌-◌, ◌≤◌, ◌<◌, min, ltb, ◌≡◌}
use hdlskel.Base.{refl, sym, ap, ◌∙◌, arith, ◌≢◌, inl, inr, Bool-cases, ltb→lt, lt→ltb, false, true}
use hdlskel.Base.{==_refl, none}
use hdlskel.Base.{List, [], ◌++◌, length, get_elem?, length-append, get_elem?-append}
use hdlskel.Base.{get_elem?-some, list_ext}
use hdlskel.Base.Result.{ok}
use mathlib.Core.Path.{subst₂}
use native.Mathlib.Nat.{sub-zero, add-zero, add_assoc}
use mathlib.Core.List.{append-nil, append_assoc}
use hdlskel.Regio.{Regio, read_chunk, read_loop, write, read}
use hdlskel.Regio.{first_chunk_size_to_align}
use hdlskel.Regio.Chunks.{first-pos, first-le}
use hdlskel.Regio.Memory.{Memory, IsPlain, Written, write-Written}

module _ {S : Type 0} (r : Regio S) (mem : Memory r.device) (plain : IsPlain r mem) where
  open mem use {IsValid, cell, limit, max_size, write_law, read_law}

  -- `bytes` are what the memory holds from `a` on, and the read has changed nothing.
  abbrev pub ReadsBack : S → ℕ → ℕ → List ℕ → S → Type 0
  ReadsBack s a size bytes s' =
      IsValid s'
      × ((x : ℕ) → cell s' x ≡ cell s x)
      × (length bytes ≡ size)
      × ((j : ℕ) → j < size → get_elem? bytes j ≡ cell s (a + j))

  read_chunk-ReadsBack :
      (s : S) (a size : ℕ)
      → IsValid s
      → 0 < size
      → size ≤ max_size
      → a + size ≤ limit
      → ((j : ℕ) → j < size → cell s (a + j) ≢ none)
      → (bytes : List ℕ) × (s' : S) × (read_chunk r a size s ≡ (ok bytes, s'))
        × ReadsBack s a size bytes s'
  unfolding read_chunk
  read_chunk-ReadsBack s a size v n fit h f =
      let (bytes, s', e, v', same, len, get) = read_law s a size v n fit h f in
      (bytes, s', rw (e, plain.no_post_read, len, ==_refl size), (v', same, len, get))

  join_ReadsBack :
      (s s1 s2 : S) (a m n : ℕ) (front back : List ℕ)
      → ReadsBack s a m front s1
      → ReadsBack s1 (a + m) n back s2
      → ReadsBack s a (m + n) (front ++ back) s2
  join_ReadsBack s s1 s2 a m n front back (v1, w1, l1, g1) (v2, w2, l2, g2) = (
    v2,
    λ x. w2 x ∙ w1 x,
    length-append front back ∙ omega arith,
    λ j k. elim (Bool-cases (ltb j m)) [
      | inl e ↦ ground (arith, get_elem?-append front back j, g1 j)
      | inr e ↦ ground (arith, get_elem?-append front back j, g2 (j - m), w1 (a + j))
    ],
  )

  ReadsBack-eq :
      (bytes : List ℕ) {s s' : S} {a a' n n' : ℕ}
      → a ≡ a'
      → n ≡ n'
      → ReadsBack s a n bytes s'
      → ReadsBack s a' n' bytes s'
  ReadsBack-eq bytes {s} {s'} = subst₂ (λ x y. ReadsBack s x y bytes s')

  module _ (a size : ℕ) (h : a + size ≤ limit) where
    -- The loop from `done` on ends, and has appended what the memory holds there.
    Reads : ℕ → S → ℕ → ℕ → List ℕ → Type 0
    Reads fuel s done chunk collected =
        (bytes : List ℕ) × (s' : S) × (read_loop fuel r a size done chunk collected s
          ≡ (ok (collected ++ bytes), s'))
        × ReadsBack s (a + done) (size - done) bytes s'

    Reads-stop :
        (fuel : ℕ) (s : S) (done chunk : ℕ) (collected : List ℕ)
        → IsValid s
        → ltb done size ≡ false
        → Reads (suc fuel) s done chunk collected
    unfolding Reads read_loop
    Reads-stop fuel s done chunk collected v e =
        let over : 0 ≡ size - done = ground arith in
        (
          [],
          s,
          rw (e, append-nil),
          ReadsBack-eq [] refl over (v, λ x. refl, refl, λ j k. absurd (omega arith)),
        )

    Reads-step :
        (fuel : ℕ) (s s1 : S) (done chunk : ℕ) (collected front : List ℕ)
        → done < size
        → read_chunk r (a + done) (min chunk (size - done)) s ≡ (ok front, s1)
        → ReadsBack s (a + done) (min chunk (size - done)) front s1
        → Reads fuel s1 (done + min chunk (size - done)) r.mtu (collected ++ front)
        → Reads (suc fuel) s done chunk collected
    unfolding Reads read_loop
    Reads-step fuel s s1 done chunk collected front lt e1 rb1 (back, s2, e2, rb2) =
        let n = min chunk (size - done) in
        let e : ltb done size ≡ true = lt→ltb _ _ lt in
        (
          front ++ back,
          s2,
          rw (e, e1, e2, append_assoc collected front back),
          ReadsBack-eq (front ++ back) refl (omega arith) (
              join_ReadsBack s s1 s2 (a + done) n (size - (done + n)) front back rb1
                (ReadsBack-eq back (sym (add_assoc a done n)) refl rb2)),
        )

    read_loop-Reads :
        (fuel : ℕ) (s : S) (done chunk : ℕ) (collected : List ℕ)
        → IsValid s
        → 0 < chunk
        → chunk ≤ r.mtu
        → done ≤ size
        → size < done + fuel
        → ((j : ℕ) → j < size → cell s (a + j) ≢ none)
        → Reads fuel s done chunk collected
    read_loop-Reads zero s done chunk collected v n m d f c = absurd (omega arith)
    read_loop-Reads (suc fuel) s done chunk collected v n m d f c =
        elim (Bool-cases (ltb done size)) [
          | inr e ↦ Reads-stop fuel s done chunk collected v e
          | inl e ↦
              let n' = min chunk (size - done) in
              let lt : done < size = ltb→lt _ _ e in
              let (front, s1, e1, rb1) =
                read_chunk-ReadsBack s (a + done) n' v (omega arith) (omega (arith, plain.mtu_fits))
                  (omega arith) (λ j k. rw (add_assoc a done j) (c (done + j) (omega arith))) in
              Reads-step fuel s s1 done chunk collected front lt e1 rb1 (
                read_loop-Reads fuel s1 (done + n') r.mtu (collected ++ front) rb1.0 plain.mtu_pos
                  (omega arith) (omega arith) (omega arith) (λ j k. rw (rb1.1 (a + j)) (c j k)))
        ]

  -- On a valid byte memory, without callbacks and with an MTU that the device takes, a `read`
  -- below the limit of addresses that all hold a byte succeeds: it gives the asked number of
  -- bytes, those that stand there, and changes nothing.
  pub read-ReadsBack :
      (s : S) (a size : ℕ)
      → IsValid s
      → a + size ≤ limit
      → ((j : ℕ) → j < size → cell s (a + j) ≢ none)
      → (bytes : List ℕ) × (s' : S) × (read r a size s ≡ (ok bytes, s'))
        × ReadsBack s a size bytes s'
  unfolding read Reads
  read-ReadsBack s a size v h c =
      let (bytes, s', e, rb) =
        read_loop-Reads a size h (suc size) s 0 (first_chunk_size_to_align r a) [] v
          (first-pos r a plain.mtu_pos) (first-le r a) (omega arith) (omega arith) c in
      (bytes, s', e, ReadsBack-eq bytes (add-zero a) (sub-zero size) rb)

  read_same :
      (s s1 s2 : S) (a : ℕ) (bytes got : List ℕ)
      → Written r mem plain s a bytes s1
      → ReadsBack s1 a (length bytes) got s2
      → got ≡ bytes
  read_same s s1 s2 a bytes got (v1, w1) (v2, w2, len, get) =
      list_ext got bytes len
        λ j k. ground (arith, get j, w1 (a + j), get_elem?-some bytes j (omega arith))

  Written-byte :
      (s s1 : S) (a : ℕ) (bytes : List ℕ)
      → Written r mem plain s a bytes s1
      → (j : ℕ) → j < length bytes
      → cell s1 (a + j) ≢ none
  Written-byte s s1 a bytes (v1, w1) j k =
      ground (arith, w1 (a + j), get_elem?-some bytes j (omega arith))

  -- On a valid byte memory, without callbacks and with an MTU that the device takes, data of any
  -- size that `write` stored below the limit is what `read` of as many bytes at the same address
  -- gives.
  pub read-write :
      (s : S) (a : ℕ) (bytes : List ℕ)
      → IsValid s
      → a + length bytes ≤ limit
      → (s1 : S) × (s2 : S) × (write r a bytes s ≡ (ok tt, s1))
        × (read r a (length bytes) s1 ≡ (ok bytes, s2))
  read-write s a bytes v h =
      let (s1, e1, w) = write-Written r mem plain s a bytes v h in
      let (got, s2, e2, rb) =
        read-ReadsBack s1 a (length bytes) w.0 h (Written-byte s s1 a bytes w) in
      (s1, s2, e1, e2 ∙ ap (λ t. (ok t, s2)) (read_same s s1 s2 a bytes got w rb))
