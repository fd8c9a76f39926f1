-- ===== src/Tcp/Single/Stream.antt =====
-- pip/regio/src/regio/tcp_server_single.py: `_recv_exact` and `_handle_client` in terms of the
-- bytes that arrive, whatever pieces they arrive in.
use hdlskel.Base.{ℕ, zero, suc, ◌+◌, ◌-◌, ◌≤◌, ◌<◌, ltb, leb, ◌≡◌, refl, sym, ap, ◌∙◌}
use hdlskel.Base.{arith, ltb→lt, List, [], ◌∷◌, ◌++◌, length, take, drop, All, false}
use hdlskel.Base.{
  Bool-cases, ◌⊎◌, inl, inr, length-append, length-take, length-drop, take-append-drop,
}
use hdlskel.Base.{take-length-append, drop-length-append}
use hdlskel.Base.Result.{Result, ok, err, eof_error}
use mathlib.Core.List.{append_assoc, append-nil}
use hdlskel.Tcp.Server.{}
use hdlskel.Tcp.Single.{recv, recv_loop, recv_exact, joined, is_empty}

-- A piece that arrives has a byte at least: an empty one would be the end of the stream.
abbrev pub HasByte : List ℕ → Type 0
HasByte piece = 0 < length piece

-- `n` bytes come off the front of the stream.
abbrev Received : ℕ → List ℕ → Result (List ℕ) × List (List ℕ) → Type 0
Received n stream res =
    (res.0 ≡ ok (take n stream)) × (joined res.1 ≡ drop n stream) × All HasByte res.1

-- One `recv` of at most `n` bytes: some of the stream's front.
recv-front :
    (n : ℕ) (piece : List ℕ) (pieces : List (List ℕ))
    → 0 < n
    → HasByte piece
    → All HasByte pieces
    → let got = recv n (piece ∷ pieces) in
      (got.0 ++ joined got.1 ≡ piece ++ joined pieces)
      × HasByte got.0
      × (length got.0 ≤ n)
      × All HasByte got.1
recv-front n piece pieces h g hs = elim (Bool-cases (leb (length piece) n)) [
  | inl e ↦ rw e (refl, g, ground arith, hs)
  | inr e ↦ rw e (
    sym (append_assoc (take n piece) (drop n piece) (joined pieces))
        ∙ ap (λ t. t ++ joined pieces) (take-append-drop n piece),
    ground (arith, length-take n piece),
    ground (arith, length-take n piece),
    (ground (arith, length-drop n piece), hs),
  )
]

-- Receiving `n` bytes of a stream: they come, or the stream ends first.
abbrev Outcome : ℕ → List ℕ → Result (List ℕ) × List (List ℕ) → Type 0
Outcome n stream res =
    ((n ≤ length stream) × Received n stream res) ⊎ ((length stream < n) × (res.0 ≡ err eof_error))

Outcome-eq :
    (n : ℕ) (res : Result (List ℕ) × List (List ℕ)) {stream stream' : List ℕ}
    → stream ≡ stream'
    → Outcome n stream res
    → Outcome n stream' res
Outcome-eq n res e h = rw e at h

HasByte-is_empty : (bs : List ℕ) → HasByte bs → is_empty bs ≡ false
HasByte-is_empty [] h = absurd (omega arith)
HasByte-is_empty (b ∷ bs) h = refl

full_buffer :
    (n : ℕ) (buf behind : List ℕ)
    → length buf ≡ n
    → (ok buf ≡ ok (take n (buf ++ behind))) × (behind ≡ drop n (buf ++ behind))
full_buffer n buf behind h = (
  ap ok (sym (ap (λ m. take m (buf ++ behind)) (sym h) ∙ take-length-append buf behind)),
  sym (ap (λ m. drop m (buf ++ behind)) (sym h) ∙ drop-length-append buf behind),
)

recv_loop-Outcome :
    (fuel n : ℕ) (buf : List ℕ) (pieces : List (List ℕ))
    → length buf ≤ n
    → n < length buf + fuel
    → All HasByte pieces
    → Outcome n (buf ++ joined pieces) (recv_loop fuel n buf pieces)
unfolding recv_loop
recv_loop-Outcome zero n buf pieces h f g = absurd (omega arith)
recv_loop-Outcome (suc fuel) n buf [] h f g = elim (Bool-cases (ltb (length buf) n)) [
  | inl e ↦ rw (e, append-nil) (inr (ground arith, refl))
  | inr e ↦
      let (front, behind) = full_buffer n buf [] (ground arith) in
      rw e (inl (ground (arith, length-append buf []), (front, behind, tt)))
]
recv_loop-Outcome (suc fuel) n buf (piece ∷ pieces) h f (g, gs) =
    elim (Bool-cases (ltb (length buf) n)) [
      | inl e ↦
          let got = recv (n - length buf) (piece ∷ pieces) in
          let (eq, some_byte, fits, left) =
            recv-front (n - length buf) piece pieces (ground arith) g gs in
          let ih =
            recv_loop-Outcome fuel n (buf ++ got.0) got.1
              (omega (arith, length-append buf got.0, ltb→lt _ _ e))
              (omega (arith, length-append buf got.0)) left in
          rw (e, HasByte-is_empty got.0 some_byte)
            (Outcome-eq n (recv_loop fuel n (buf ++ got.0) got.1)
              (append_assoc buf got.0 (joined got.1) ∙ ap (λ t. buf ++ t) eq) ih)
      | inr e ↦
          let (front, behind) = full_buffer n buf (joined (piece ∷ pieces)) (ground arith) in
          rw e (
            inl (
              ground (arith, length-append buf (joined (piece ∷ pieces))),
              (front, behind, (g, gs)),
            ))
    ]

-- `_recv_exact` gives the next `n` bytes of the stream whatever pieces they arrive in, and leaves
-- the rest; it raises EOFError exactly if there are fewer.
pub recv_exact-stream :
    (n : ℕ) (pieces : List (List ℕ))
    → All HasByte pieces
    → ((n ≤ length (joined pieces))
        × ((recv_exact n pieces).0 ≡ ok (take n (joined pieces)))
        × (joined (recv_exact n pieces).1 ≡ drop n (joined pieces))
        × All HasByte (recv_exact n pieces).1)
      ⊎ ((length (joined pieces) < n) × ((recv_exact n pieces).0 ≡ err eof_error))
unfolding recv_exact
recv_exact-stream n pieces h =
    elim (recv_loop-Outcome (suc n) n [] pieces (omega arith) (omega arith) h) [
      | inl (enough, (front, behind, left)) ↦ inl (enough, front, behind, left)
      | inr (short, e) ↦ inr (short, e)
    ]
