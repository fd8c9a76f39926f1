-- ===== src/Regio/Files/SameAsWrite.antt =====
-- pip/regio/src/regio/regio.py: `write_from_read_file` against `write`.
use hdlskel.Base.{ℕ, zero, suc, ◌+◌, ◌-◌, ◌≤◌, ◌<◌, min, ltb, ◌==◌, ◌≡◌, refl, sym, ap, ◌∙◌, arith}
use hdlskel.Base.{Bool-cases, inl, inr, ltb→lt, ==_refl, false}
use hdlskel.Base.{
  some, List, ◌++◌, length, take, drop, length-append, length-take, length-drop, take-append,
  drop-append, drop-drop, drop-all,
}
use hdlskel.Base.Result.{Result, ok, err}
use hdlskel.Base.Exec.{Exec, ◌>>◌, continue, pure}
use hdlskel.Regio.{Regio, write_chunk, write_loop, write, first_chunk_size_to_align}
use hdlskel.Regio.Chunks.{first-pos}
use hdlskel.Regio.Files.{limited, write_file_loop, check_done, write_from_read_file}
use native.Mathlib.Nat.{add_assoc}

module _ {S : Type 0} (r : Regio S) (addr : ℕ) (bytes tail : List ℕ) where
  abbrev size : ℕ
  size = length bytes

  -- The outcome of `write`, with what is left of the file.
  abbrev pub with_file : {A : Type 0} → A → Result (Unit {0}) × S → Result A × S
  with_file a (ok u, s) = (ok a, s)
  with_file a (err e, s) = (err e, s)

  continue-with_file :
      {A : Type 0} (a : A) (k : Exec S A) (k' : Exec S (Unit {0}))
      → ((s : S) → k s ≡ with_file a (k' s))
      → (res : Result (Unit {0})) (s : S)
      → continue res (λ _. k) s ≡ with_file a (continue res (λ _. k') s)
  continue-with_file a k k' h (ok u) s = h s
  continue-with_file a k k' h (err e) s = refl

  limited-min : (done chunk : ℕ) → limited (some size) done chunk ≡ min chunk (size - done)
  limited-min done chunk = ground arith

  loops :
      (f g done chunk : ℕ) (s : S)
      → 0 < r.mtu
      → 0 < chunk
      → done ≤ size
      → size < done + f
      → size < done + g
      → write_file_loop f r (addr + done) (drop done bytes ++ tail) done chunk (some size) s
        ≡ with_file (size, tail) (write_loop g r addr bytes done chunk s)
  unfolding write_file_loop write_loop
  loops zero g done chunk s m c d h k = absurd (omega arith)
  loops (suc f) zero done chunk s m c d h k = absurd (omega arith)
  loops (suc f) (suc g) done chunk s m c d h k = elim (Bool-cases (ltb done size)) [
    | inr e ↦
        let at_end : done ≡ size = ground arith in
        rw (e, drop-all done bytes (ground arith), at_end) refl
    | inl e ↦
        let lt : done < size = ltb→lt done size e in
        let n = min chunk (size - done) in
        let inside : n ≤ length (drop done bytes) = omega (arith, length-drop done bytes) in
        let front : take n (drop done bytes ++ tail) ≡ take n (drop done bytes) =
          take-append n (drop done bytes) tail inside in
        let behind : drop n (drop done bytes ++ tail) ≡ drop (done + n) bytes ++ tail =
          drop-append n (drop done bytes) tail inside
          ∙ ap (λ t. t ++ tail) (drop-drop n done bytes) in
        let full : length (take n (drop done bytes)) ≡ n =
          omega (arith, length-take n (drop done bytes)) in
        let some_bytes : (n == 0) ≡ false = ground arith in
        rw (e, limited-min done chunk, front, behind, full, some_bytes, ==_refl n)
          (continue-with_file (size, tail)
            (write_file_loop f r (addr + done + n) (drop (done + n) bytes ++ tail) (done + n) r.mtu
              (some size))
            (write_loop g r addr bytes (done + n) r.mtu)
            (λ s'.
              ap
                (λ a.
                  write_file_loop f r a (drop (done + n) bytes ++ tail) (done + n) r.mtu (some size)
                    s')
                (add_assoc addr done n)
              ∙ loops f g (done + n) r.mtu s' m m (omega arith) (omega arith) (omega arith))
            (write_chunk r (addr + done) (take n (drop done bytes)) s).0
            (write_chunk r (addr + done) (take n (drop done bytes)) s).1)
  ]

  checked :
      (res : Result (Unit {0}) × S)
      → continue
          (with_file {A = ℕ × List ℕ} (size, tail) res).0
          (λ (got : ℕ × List ℕ). check_done (some size) got.0 >> pure got.1)
          (with_file {A = ℕ × List ℕ} (size, tail) res).1
        ≡ with_file tail res
  checked (ok u, s) = rw (==_refl size) refl
  checked (err e, s) = refl

  -- With a size that the file has, `write_from_read_file` does to the device exactly what `write`
  -- does with these bytes, exceptions included, and leaves the rest of the file unread.
  pub write_from_read_file-write :
      (s : S)
      → 0 < r.mtu
      → write_from_read_file r addr (bytes ++ tail) (some (length bytes)) s
        ≡ with_file tail (write r addr bytes s)
  unfolding write_from_read_file write
  write_from_read_file-write s m =
      let chunk = first_chunk_size_to_align r addr in
      let at_start : addr + 0 ≡ addr = omega arith in
      ap
        (λ (res : Result (ℕ × List ℕ) × S).
          continue res.0 (λ (got : ℕ × List ℕ). check_done (some size) got.0 >> pure got.1) res.1)
        (ap
            (λ a.
              write_file_loop (suc (length (bytes ++ tail))) r a (bytes ++ tail) 0 chunk (some size)
                s)
            (sym at_start)
          ∙ loops (suc (length (bytes ++ tail))) (suc (length bytes)) 0 chunk s m
              (first-pos r addr m) (omega arith) (omega (arith, length-append bytes tail))
              (omega arith))
      ∙ checked (write_loop (suc (length bytes)) r addr bytes 0 chunk s)
