-- ===== src/Tcp/Segments.antt =====
-- pip/regio/src/regio/tcp_server_async_multi.py: requests that arrive in several pieces.
use hdlskel.Base.{ℕ, zero, suc, ◌+◌, ◌<◌, ltb, ◌≡◌, refl, sym, ap, ◌∙◌, arith}
use hdlskel.Base.{List, ◌++◌, length, take, Option, none, some, false}
use hdlskel.Base.{length-append, length-drop, take-append, drop-append, Bool-cases, inl, inr}
use hdlskel.Base.Result.{Result, ok, err}
use hdlskel.Base.Exec.{Exec, ◌>>◌, continue}
use mathlib.Core.List.{append_assoc}
use hdlskel.Regio.{Regio}
use hdlskel.Tcp.{RqstHead, rqst_head_size, rqst_payload_size, unpack_rqst_head}
use hdlskel.Tcp.Server.{
  Link, Next, wait, malformed, request, next_of, next_request, serve_next, serve_request,
  process_loop, process_requests, drop_on_error, on_data,
}

-- The second beginning is the first one, with `more` behind it.
abbrev Extends : List ℕ → Next → Next → Type 0
Extends more wait n = Unit
Extends more malformed n = n ≡ malformed
Extends more (request h p q) n = n ≡ request h p (q ++ more)

next_of-Extends :
    (buf more : List ℕ) (res : Result RqstHead)
    → Extends more (next_of buf res) (next_of (buf ++ more) res)
unfolding next_of
next_of-Extends buf more (err e) = refl
next_of-Extends buf more (ok head) =
    let total = rqst_head_size + rqst_payload_size head in
    elim (Bool-cases (ltb (length buf) total)) [
      | inl e ↦ rw e tt
      | inr e ↦
          let e' : ltb (length (buf ++ more)) total ≡ false =
            ground (arith, length-append buf more) in
          rw
            (
              e,
              e',
              take-append total buf more (ground arith),
              drop-append total buf more (ground arith),
            )
            refl
    ]

next_request-Extends :
    (buf more : List ℕ) → Extends more (next_request buf) (next_request (buf ++ more))
unfolding next_request
next_request-Extends buf more = elim (Bool-cases (ltb (length buf) rqst_head_size)) [
  | inl e ↦ rw e tt
  | inr e ↦
      let e' : ltb (length (buf ++ more)) rqst_head_size ≡ false =
        ground (arith, length-append buf more) in
      rw (e, e', take-append rqst_head_size buf more (ground arith))
        (next_of-Extends buf more (unpack_rqst_head (take rqst_head_size buf)))
]

-- A request leaves less of the buffer.
abbrev Shorter : List ℕ → Next → Type 0
Shorter buf wait = Unit
Shorter buf malformed = Unit
Shorter buf (request h p q) = length q < length buf

next_of-Shorter :
    (buf : List ℕ) (res : Result RqstHead) → 0 < length buf → Shorter buf (next_of buf res)
unfolding next_of
next_of-Shorter buf (err e) h = tt
next_of-Shorter buf (ok head) h =
    let total = rqst_head_size + rqst_payload_size head in
    elim (Bool-cases (ltb (length buf) total)) [
      | inl e ↦ rw e tt
      | inr e ↦ rw e (omega (arith, length-drop total buf))
    ]

next_request-Shorter : (buf : List ℕ) → Shorter buf (next_request buf)
unfolding next_request
next_request-Shorter buf = elim (Bool-cases (ltb (length buf) rqst_head_size)) [
  | inl e ↦ rw e tt
  | inr e ↦ rw e (next_of-Shorter buf (unpack_rqst_head (take rqst_head_size buf)) (ground arith))
]

module _ {S : Type 0} (r : Regio S) where
  -- Any fuel above the length gives the same.
  loop_fuel :
      (f g : ℕ) (buf : List ℕ)
      → length buf < f
      → length buf < g
      → process_loop f r buf ≡ process_loop g r buf
  unfolding process_loop serve_next
  loop_fuel zero g buf h k = absurd (omega arith)
  loop_fuel (suc f) zero buf h k = absurd (omega arith)
  loop_fuel (suc f) (suc g) buf h k =
      same (loop_fuel f g) (next_request buf) (next_request-Shorter buf)
    where
      same :
          ((q : List ℕ) → length q < f → length q < g → process_loop f r q ≡ process_loop g r q)
          → (n : Next) → Shorter buf n
          → serve_next r (process_loop f r) buf n ≡ serve_next r (process_loop g r) buf n
      same ih wait t = refl
      same ih malformed t = refl
      same ih (request head p q) t =
          ap (λ k. serve_request r head p >> k) (ih q (omega arith) (omega arith))

  -- What happens when more bytes arrive after a call.
  abbrev resume : List ℕ → Result (Option (List ℕ)) × Link S → Result (Option (List ℕ)) × Link S
  resume more (ok (some left), l) = process_requests r (left ++ more) l
  resume more (ok none, l) = (ok none, l)
  resume more (err e, l) = (err e, l)

  continue-resume :
      (more : List ℕ) (k k' : Exec (Link S) (Option (List ℕ)))
      → ((l : Link S) → k' l ≡ resume more (k l))
      → (res : Result (Unit {0})) (l : Link S)
      → continue res (λ _. k') l ≡ resume more (continue res (λ _. k) l)
  continue-resume more k k' h (ok u) l = h l
  continue-resume more k k' h (err e) l = refl

  loop-append :
      (f g : ℕ) (buf more : List ℕ) (l : Link S)
      → length buf < f
      → length (buf ++ more) < g
      → process_loop g r (buf ++ more) l ≡ resume more (process_loop f r buf l)
  unfolding process_loop serve_next process_requests
  loop-append zero g buf more l h k = absurd (omega arith)
  loop-append (suc f) zero buf more l h k = absurd (omega arith)
  loop-append (suc f) (suc g) buf more l h k =
      go (loop-append f g) (next_request buf) (next_request-Extends buf more)
        (next_request-Shorter buf)
    where
      go :
          ((q m : List ℕ) (l' : Link S)
            → length q < f
            → length (q ++ m) < g
            → process_loop g r (q ++ m) l' ≡ resume m (process_loop f r q l'))
          → (n : Next) → Extends more n (next_request (buf ++ more))
          → Shorter buf n
          → serve_next r (process_loop g r) (buf ++ more) (next_request (buf ++ more)) l
            ≡ resume more (serve_next r (process_loop f r) buf n l)
      go ih wait x t =
          ap (λ m. m l)
            (loop_fuel (suc g) (suc (length (buf ++ more))) (buf ++ more) k (omega arith))
      go ih malformed x t = rw x refl
      go ih (request head p q) x t = rw x (
          continue-resume more (process_loop f r q) (process_loop g r (q ++ more))
            (λ l'.
              ih q more l' (omega arith)
                (omega (arith, length-append q more, length-append buf more)))
            (serve_request r head p l).0 (serve_request r head p l).1)

  resume-drop :
      (more : List ℕ) (res : Result (Option (List ℕ)) × Link S)
      → drop_on_error (resume more res) ≡ on_data r more (drop_on_error res)
  unfolding on_data
  resume-drop more (ok (some left), l) = refl
  resume-drop more (ok none, l) = refl
  resume-drop more (err e, l) = refl

  -- Bytes that arrive in two pieces do to the device, to the replies and to the buffer what they
  -- do in one piece: the cuts that the network makes between them are not seen.
  pub on_data-append :
      (a b : List ℕ) (st : Option (List ℕ) × Link S)
      → on_data r (a ++ b) st ≡ on_data r b (on_data r a st)
  unfolding on_data process_requests
  on_data-append a b (none, l) = refl
  on_data-append a b (some buf, l) =
      ap (λ t. drop_on_error (process_requests r t l)) (sym (append_assoc buf a b))
      ∙ ap drop_on_error (
          loop-append (suc (length (buf ++ a))) (suc (length ((buf ++ a) ++ b))) (buf ++ a) b l
            (omega arith) (omega arith))
      ∙ resume-drop b (process_requests r (buf ++ a) l)
