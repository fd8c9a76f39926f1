-- ===== src/Tcp/Single/Equivalent.antt =====
-- pip/regio/src/regio/tcp_server_single.py against tcp_server_async_multi.py, on one client.
use hdlskel.Base.{
  ℕ, zero, suc, ◌+◌, ◌-◌, ◌≤◌, ◌<◌, ltb, ◌==◌, if◌then◌else◌, not, ◌≡◌, refl, sym, ap, ◌∙◌,
}
use hdlskel.Base.{arith, List, [], ◌∷◌, length, take, drop, All, Option, true, false}
use hdlskel.Base.{Bool-cases, inl, inr, length-take, length-drop, drop-drop}
use hdlskel.Base.{drop-all, take-all}
use hdlskel.Base.Result.{Result, ok, err, eof_error}
use hdlskel.Base.Exec.{Exec, ◌>>◌, continue}
use hdlskel.Regio.{Regio, write}
use hdlskel.Tcp.{RqstHead, rqst_head_size, rqst_payload_size, unpack_rqst_head}
use hdlskel.Tcp.Server.{
  Link, on_dev, next_of, next_request, serve_next, serve_request, process_loop, process_requests,
}
use hdlskel.Tcp.Single.{
  answer_read, recv_exact, after_payload, after_unpack, after_head, joined, handle_loop,
  handle_client,
}
use hdlskel.Tcp.Single.Stream.{HasByte, recv_exact-stream}

drop-take : {A : Type 0} (m n : ℕ) (xs : List A) → drop m (take (m + n) xs) ≡ take n (drop m xs)
drop-take zero n xs = let e : 0 + n ≡ n = omega arith in rw e refl
drop-take (suc m) n [] =
    let e : suc m + n ≡ suc (m + n) = omega arith in rw e (sym (take-all n [] (omega arith)))
drop-take (suc m) n (x ∷ xs) =
    let e : suc m + n ≡ suc (m + n) = omega arith in rw e (drop-take m n xs)

module _ {S : Type 0} (r : Regio S) where
  -- The two servers do the same with a write and with a read.
  write_served :
      (head : RqstHead) (payload : List ℕ)
      → (head.flag_we == 0) ≡ false
      → on_dev (write r head.addr payload) ≡ serve_request r head payload
  unfolding serve_request
  write_served head payload t = rw t refl

  read_served :
      (head : RqstHead) → (head.flag_we == 0) ≡ true → answer_read r head ≡ serve_request r head []
  unfolding serve_request answer_read
  read_served head t = rw t refl

  -- The outcome of the requests, without the buffer that is left.
  abbrev pub forget : Result (Option (List ℕ)) × Link S → Result (Unit {0}) × Link S
  forget (ok left, l) = (ok tt, l)
  forget (err e, l) = (err e, l)

  -- The two loops agree on shorter streams.
  abbrev Agree : ℕ → ℕ → Type 0
  Agree f g =
      (pieces : List (List ℕ)) (l : Link S)
      → All HasByte pieces
      → length (joined pieces) < f
      → length (joined pieces) < g
      → handle_loop f r pieces l ≡ forget (process_loop g r (joined pieces) l)

  continue-forget :
      (k : Exec (Link S) (Unit {0})) (k' : Exec (Link S) (Option (List ℕ)))
      → ((l : Link S) → k l ≡ forget (k' l))
      → (res : Result (Unit {0})) (l : Link S)
      → continue res (λ _. k) l ≡ forget (continue res (λ _. k') l)
  continue-forget k k' h (ok u) l = h l
  continue-forget k k' h (err e) l = refl

  module _ (f g : ℕ) (ih : Agree f g) where
    served :
        (head : RqstHead) (payload stream : List ℕ) (pieces : List (List ℕ)) (l : Link S)
        → All HasByte pieces
        → joined pieces ≡ stream
        → length stream < f
        → length stream < g
        → (serve_request r head payload >> handle_loop f r pieces) l
          ≡ forget ((serve_request r head payload >> process_loop g r stream) l)
    served head payload stream pieces l h e m n =
        continue-forget (handle_loop f r pieces) (process_loop g r stream)
          (λ l'.
            ih pieces l' h (omega (arith, ap length e)) (omega (arith, ap length e))
            ∙ ap (λ t. forget (process_loop g r t l')) e)
          (serve_request r head payload l).0 (serve_request r head payload l).1

    payload-err :
        (head : RqstHead) (res : Result (List ℕ) × List (List ℕ)) (l : Link S)
        → res.0 ≡ err eof_error
        → after_payload r (handle_loop f r) head res l ≡ (ok tt, l)
    unfolding after_payload
    payload-err head (ok bs, pieces) l e = cc
    payload-err head (err x, pieces) l e = refl

    payload-ok :
        (head : RqstHead) (res : Result (List ℕ) × List (List ℕ)) (bs : List ℕ) (l : Link S)
        → (head.flag_we == 0) ≡ false
        → res.0 ≡ ok bs
        → after_payload r (handle_loop f r) head res l
          ≡ (serve_request r head bs >> handle_loop f r res.1) l
    unfolding after_payload
    payload-ok head (err x, pieces) bs l t e = cc
    payload-ok head (ok cs, pieces) bs l t e =
        let q : cs ≡ bs = cc in
        ap (λ c. (c >> handle_loop f r pieces) l) (write_served head cs t)
        ∙ ap (λ b. (serve_request r head b >> handle_loop f r pieces) l) q

    -- A write, once its head is off the stream.
    write_case :
        (head : RqstHead) (buf : List ℕ) (pieces : List (List ℕ)) (l : Link S)
        → (head.flag_we == 0) ≡ false
        → All HasByte pieces
        → rqst_head_size ≤ length buf
        → joined pieces ≡ drop rqst_head_size buf
        → length buf ≤ f
        → length buf ≤ g
        → after_payload r (handle_loop f r) head (recv_exact (rqst_payload_size head) pieces) l
          ≡ forget (serve_next r (process_loop g r) buf (next_of buf (ok head)) l)
    unfolding next_of serve_next
    write_case head buf pieces l w h k e m n =
        let ps = rqst_payload_size head in
        let left : length (joined pieces) ≡ length buf - rqst_head_size =
          ap length e ∙ length-drop rqst_head_size buf in
        elim (recv_exact-stream ps pieces h) [
          | inr (short, out) ↦
              let t : ltb (length buf) (rqst_head_size + ps) ≡ true = ground arith in
              payload-err head (recv_exact ps pieces) l out ∙ rw t refl
          | inl (enough, front, behind, hs) ↦
              let t : ltb (length buf) (rqst_head_size + ps) ≡ false = ground arith in
              let payload : take ps (joined pieces)
                  ≡ drop rqst_head_size (take (rqst_head_size + ps) buf) =
                ap (take ps) e ∙ sym (drop-take rqst_head_size ps buf) in
              let after : joined (recv_exact ps pieces).1 ≡ drop (rqst_head_size + ps) buf =
                behind ∙ ap (drop ps) e ∙ drop-drop ps rqst_head_size buf in
              payload-ok head (recv_exact ps pieces)
                (drop rqst_head_size (take (rqst_head_size + ps) buf)) l w (front ∙ ap ok payload)
              ∙ served head (drop rqst_head_size (take (rqst_head_size + ps) buf))
                  (drop (rqst_head_size + ps) buf) (recv_exact ps pieces).1 l hs after
                  (omega (arith, length-drop (rqst_head_size + ps) buf))
                  (omega (arith, length-drop (rqst_head_size + ps) buf))
              ∙ rw t refl
        ]

    -- A read: nothing follows its head.
    read_case :
        (head : RqstHead) (buf : List ℕ) (pieces : List (List ℕ)) (l : Link S)
        → rqst_payload_size head ≡ 0
        → All HasByte pieces
        → rqst_head_size ≤ length buf
        → joined pieces ≡ drop rqst_head_size buf
        → length buf ≤ f
        → length buf ≤ g
        → (serve_request r head [] >> handle_loop f r pieces) l
          ≡ forget (serve_next r (process_loop g r) buf (next_of buf (ok head)) l)
    unfolding next_of serve_next
    read_case head buf pieces l z h k e m n =
        let total = rqst_head_size + rqst_payload_size head in
        let t : ltb (length buf) total ≡ false = ground arith in
        let empty : drop rqst_head_size (take total buf) ≡ [] =
          drop-all rqst_head_size (take total buf) (omega (arith, length-take total buf)) in
        let eight : rqst_head_size ≡ total = omega arith in
        served head [] (drop total buf) pieces l h (e ∙ ap (λ j. drop j buf) eight)
          (omega (arith, length-drop total buf)) (omega (arith, length-drop total buf))
        ∙ rw (t, empty) refl

    -- Any request, once its head is off the stream.
    head_case :
        (res : Result RqstHead) (buf : List ℕ) (pieces : List (List ℕ)) (l : Link S)
        → All HasByte pieces
        → rqst_head_size ≤ length buf
        → joined pieces ≡ drop rqst_head_size buf
        → length buf ≤ f
        → length buf ≤ g
        → after_unpack r (handle_loop f r) res pieces l
          ≡ forget (serve_next r (process_loop g r) buf (next_of buf res) l)
    unfolding after_unpack serve_next next_of
    head_case (err x) buf pieces l h k e m n = refl
    head_case (ok head) buf pieces l h k e m n = elim (Bool-cases (head.flag_we == 0)) [
      | inr t ↦ rw t (write_case head buf pieces l t h k e m n)
      | inl t ↦
          ap
            (λ b.
              (if not b
                  then after_payload r (handle_loop f r) head
                      (recv_exact (rqst_payload_size head) pieces)
                  else (answer_read r head >> handle_loop f r pieces))
                l)
            t
          ∙ ap (λ c. (c >> handle_loop f r pieces) l) (read_served head t)
          ∙ read_case head buf pieces l (ground arith) h k e m n
    ]

    head-err :
        (res : Result (List ℕ) × List (List ℕ)) (l : Link S)
        → res.0 ≡ err eof_error
        → after_head r (handle_loop f r) res l ≡ (ok tt, l)
    unfolding after_head
    head-err (ok bs, pieces) l e = cc
    head-err (err x, pieces) l e = refl

    head-ok :
        (res : Result (List ℕ) × List (List ℕ)) (bs : List ℕ) (l : Link S)
        → res.0 ≡ ok bs
        → after_head r (handle_loop f r) res l
          ≡ after_unpack r (handle_loop f r) (unpack_rqst_head bs) res.1 l
    unfolding after_head
    head-ok (err x, pieces) bs l e = cc
    head-ok (ok cs, pieces) bs l e =
        let q : cs ≡ bs = cc in
        ap (λ b. after_unpack r (handle_loop f r) (unpack_rqst_head b) pieces l) q

    -- One round of each loop.
    round :
        (pieces : List (List ℕ)) (l : Link S)
        → All HasByte pieces
        → length (joined pieces) ≤ f
        → length (joined pieces) ≤ g
        → after_head r (handle_loop f r) (recv_exact rqst_head_size pieces) l
          ≡ forget
              (serve_next r (process_loop g r) (joined pieces) (next_request (joined pieces)) l)
    unfolding next_request serve_next
    round pieces l h m n = elim (recv_exact-stream rqst_head_size pieces h) [
      | inr (short, out) ↦
          let t : ltb (length (joined pieces)) rqst_head_size ≡ true = ground arith in
          head-err (recv_exact rqst_head_size pieces) l out ∙ rw t refl
      | inl (enough, front, behind, hs) ↦
          let t : ltb (length (joined pieces)) rqst_head_size ≡ false = ground arith in
          head-ok (recv_exact rqst_head_size pieces) (take rqst_head_size (joined pieces)) l front
          ∙ head_case (unpack_rqst_head (take rqst_head_size (joined pieces))) (joined pieces)
              (recv_exact rqst_head_size pieces).1 l hs enough behind m n
          ∙ rw t refl
    ]

  loops : (f g : ℕ) → Agree f g
  unfolding handle_loop process_loop
  loops zero g pieces l h m n = absurd (omega arith)
  loops (suc f) zero pieces l h m n = absurd (omega arith)
  loops (suc f) (suc g) pieces l h m n =
      round f g (loops f g) pieces l h (omega arith) (omega arith)

  -- The blocking server does to the device, and sends to its client, exactly what the server for
  -- several clients does with the same bytes, whatever pieces, of one byte at least, they arrive
  -- in; an exception of the device ends both.
  pub handle_client-process_requests :
      (pieces : List (List ℕ)) (l : Link S)
      → All HasByte pieces
      → handle_client r pieces l ≡ forget (process_requests r (joined pieces) l)
  unfolding handle_client process_requests
  handle_client-process_requests pieces l h =
      loops (suc (length (joined pieces))) (suc (length (joined pieces))) pieces l h (omega arith)
        (omega arith)
