-- ===== src/Reg/Flags/Scan.antt =====
-- pip/skmap/src/skmap/reg.py: the assert scan of `RegFlags`.
use hdlskel.Base.{
  ℕ, zero, suc, leb, ap, ◌≢◌, true, false, All-map_of, ◌/◌, ◌%◌, ◌^◌, ◌≤◌, ltb, ◌==◌, if◌then◌else◌,
  ◌≡◌, refl, sym, ◌∙◌, arith, List, [], ◌∷◌, ◌++◌, ◌⊎◌, inl, inr, All, Bool-cases,
}
use mathlib.Core.List.{append_assoc, append-nil}
use hdlskel.Types.{Ass, rank}
use native.Mathlib.Nat.{pow-suc, mul_comm, div-div-eq-div-mul}
use hdlskel.Base.Bits.{bit_at}
use hdlskel.Reg.Values.{is_unset}
use hdlskel.Reg.{is_logged}
use hdlskel.Reg.Flags.{RFlag, flag_assert, scan_flags, log_flag}
use hdlskel.Reg.Vec.Asserts.{max_ass}

abbrev pub Any {ℓ} : {A : Type ℓ} → (A → Type 0) → List A → Type 0
Any P [] = ⊥
Any P (x ∷ xs) = P x ⊎ Any P xs

Any-map_of :
    {A : Type 0} {P Q : A → Type 0} (f : (a : A) → P a → Q a) (xs : List A) → Any P xs → Any Q xs
Any-map_of f [] h = elim h [ ]
Any-map_of f (x ∷ xs) (inl h) = inl (f x h)
Any-map_of f (x ∷ xs) (inr h) = inr (Any-map_of f xs h)

-- What a flag answers to a value of its register, by the flag's lowest bit.
abbrev pub IsAnswer : ℕ → RFlag → Ass → Type 0
IsAnswer value f a =
    ((f.ass ≡ Ass.unset) × (a ≡ Ass.unset))
    ⊎ ((f.ass ≢ Ass.unset) × (bit_at value f.bit ≡ 0) × (a ≡ Ass.passed))
    ⊎ ((f.ass ≢ Ass.unset) × (bit_at value f.bit ≡ 1) × (a ≡ f.ass))

-- A level is asked for, and the answer reaches it.
abbrev pub Reaches : Ass → Ass → Type 0
Reaches log_ass a = (log_ass ≢ Ass.unset) × (rank log_ass ≤ rank a)

-- The flags that are to be logged, in their order.
abbrev pub IsLog : ℕ → Ass → List RFlag → List RFlag → Type 0
IsLog value log_ass [] log = log ≡ []
IsLog value log_ass (f ∷ fs) log =
    (a : Ass) × IsAnswer value f a
    × ((Reaches log_ass a × (rest : List RFlag) × (log ≡ f ∷ rest) × IsLog value log_ass fs rest)
        ⊎ (¬ Reaches log_ass a × IsLog value log_ass fs log))

-- The assert of the flag's own bit.
abbrev assert_at : ℕ → RFlag → Ass
assert_at value f = flag_assert f.ass (value / 2 ^ f.bit % 2 == 1)

-- The flags whose assert is to be logged, in their order.
abbrev logged_flags : ℕ → Ass → List RFlag → List RFlag
logged_flags value log_ass [] = []
logged_flags value log_ass (f ∷ fs) =
    if is_logged log_ass (assert_at value f)
    then f ∷ logged_flags value log_ass fs
    else logged_flags value log_ass fs

rank_zero : (a : Ass) → rank a ≡ 0 → a ≡ Ass.unset
rank_zero Ass.unset e = refl
rank_zero Ass.passed e = absurd (omega arith)
rank_zero Ass.debug e = absurd (omega arith)
rank_zero Ass.info e = absurd (omega arith)
rank_zero Ass.warn e = absurd (omega arith)
rank_zero Ass.error e = absurd (omega arith)
rank_zero Ass.fatal e = absurd (omega arith)

-- An assert that is unset, or is not.
Ass-cases :
    (a : Ass) → ((a ≡ Ass.unset) × (is_unset a ≡ true)) ⊎ ((a ≢ Ass.unset) × (is_unset a ≡ false))
Ass-cases a = elim (Bool-cases (is_unset a)) [
  | inl t ↦ inl (rank_zero a (ground arith), t)
  | inr t ↦ inr (λ e. absurd (ground (arith, ap rank e)), t)
]

bit_at-shift : (value i : ℕ) → value / 2 ^ i % 2 ≡ bit_at value i
bit_at-shift value zero = omega arith
bit_at-shift value (suc i) =
    let halves : value / 2 ^ suc i ≡ value / 2 / 2 ^ i =
      ap (λ p. value / p) (pow-suc 2 i)
      ∙ ap (λ p. value / p) (mul_comm (2 ^ i) 2)
      ∙ sym (div-div-eq-div-mul value 2 (2 ^ i)) in
    ap (λ v. v % 2) halves ∙ bit_at-shift (value / 2) i

assert_at-IsAnswer : (value : ℕ) (f : RFlag) → IsAnswer value f (assert_at value f)
unfolding flag_assert
assert_at-IsAnswer value f = elim (Ass-cases f.ass) [
  | inl (e, t) ↦ inl (e, rw t refl)
  | inr (ne, t) ↦ elim (Bool-cases (value / 2 ^ f.bit % 2 == 1)) [
    | inl b ↦ inr (inr (ne, ground (arith, bit_at-shift value f.bit), rw (t, b) refl))
    | inr b ↦ inr (inl (ne, ground (arith, bit_at-shift value f.bit), rw (t, b) refl))
  ]
]

is_logged-Reaches :
    (log_ass a : Ass)
    → ((is_logged log_ass a ≡ true) × Reaches log_ass a)
      ⊎ ((is_logged log_ass a ≡ false) × ¬ Reaches log_ass a)
is_logged-Reaches log_ass a = elim (Ass-cases log_ass) [
  | inl (e, t) ↦ inr (rw t refl, λ h. h.0 e)
  | inr (ne, t) ↦ elim (Bool-cases (leb (rank log_ass) (rank a))) [
    | inl b ↦ inl (rw (t, b) refl, (ne, ground arith))
    | inr b ↦ inr (rw (t, b) refl, λ h. absurd (ground (arith, h.1)))
  ]
]

logged_flags-IsLog :
    (value : ℕ) (log_ass : Ass) (fs : List RFlag)
    → IsLog value log_ass fs (logged_flags value log_ass fs)
logged_flags-IsLog value log_ass [] = refl
logged_flags-IsLog value log_ass (f ∷ fs) =
    let a = assert_at value f in
    (
      a,
      assert_at-IsAnswer value f,
      elim (is_logged-Reaches log_ass a) [
        | inl (t, h) ↦
            inl (h, logged_flags value log_ass fs, rw t refl, logged_flags-IsLog value log_ass fs)
        | inr (t, h) ↦ inr (h, rw t (logged_flags-IsLog value log_ass fs))
      ],
    )

max_ass-le :
    (a b out : Ass) → rank (max_ass a b) ≤ rank out → (rank a ≤ rank out) × (rank b ≤ rank out)
max_ass-le a b out h = ground arith

max_ass-one :
    {X : Type 0} (a b : Ass) {out : Ass} → (out ≡ max_ass a b) ⊎ X → (out ≡ a) ⊎ (out ≡ b) ⊎ X
max_ass-one a b (inr x) = inr (inr x)
max_ass-one a b (inl e) = elim (Bool-cases (ltb (rank a) (rank b))) [
  | inl t ↦ inr (inl (e ∙ rw t refl))
  | inr t ↦ inl (e ∙ rw t refl)
]

module _ (value : ℕ) (log_ass : Ass) where
  -- The result is at least what came in and at least each flag's assert, and is one of these.
  abbrev IsLargest : List RFlag → Ass → Ass → Type 0
  IsLargest fs result out =
      (rank result ≤ rank out)
      × All (λ f. rank (assert_at value f) ≤ rank out) fs
      × ((out ≡ result) ⊎ Any (λ f. out ≡ assert_at value f) fs)

  scan_flags-IsLargest :
      (fs : List RFlag) (result : Ass) (log_f : List RFlag)
      → IsLargest fs result (scan_flags value log_ass fs result log_f).0
  unfolding scan_flags
  scan_flags-IsLargest [] result log_f = (omega arith, tt, inl refl)
  scan_flags-IsLargest (f ∷ fs) result log_f =
      let a = assert_at value f in
      let (up, all, one) =
        scan_flags-IsLargest fs (max_ass result a) (log_flag log_ass a f log_f) in
      let (low, high) = max_ass-le result a (scan_flags value log_ass (f ∷ fs) result log_f).0 up in
      (low, (high, all), max_ass-one result a one)

  scan_flags-logged :
      (fs : List RFlag) (result : Ass) (log_f : List RFlag)
      → (scan_flags value log_ass fs result log_f).1 ≡ log_f ++ logged_flags value log_ass fs
  unfolding scan_flags
  scan_flags-logged [] result log_f = sym (append-nil log_f)
  scan_flags-logged (f ∷ fs) result log_f =
      let a = assert_at value f in
      elim (Bool-cases (is_logged log_ass a)) [
        | inl t ↦
            scan_flags-logged fs (max_ass result a) (log_flag log_ass a f log_f)
            ∙ rw t (append_assoc log_f (f ∷ []) (logged_flags value log_ass fs))
        | inr t ↦ scan_flags-logged fs (max_ass result a) (log_flag log_ass a f log_f) ∙ rw t refl
      ]

  -- The assert scan of a register of flags, where each flag answers by the lowest of its bits: unset
  -- if the flag has no assert, passed if it has one and the bit is 0, and its assert if the bit is 1.
  -- The result is at least each of these answers, and is one of them, or unset. The log has, in
  -- order, the flags whose answer is at least the level asked for, where a level is asked for, and
  -- no others.
  pub scan_flags-largest :
      (fs : List RFlag)
      → All
          (λ f.
            (a : Ass) × IsAnswer value f a
            × (rank a ≤ rank (scan_flags value log_ass fs Ass.unset []).0))
          fs
        × (((scan_flags value log_ass fs Ass.unset []).0 ≡ Ass.unset)
            ⊎ Any (λ f. IsAnswer value f (scan_flags value log_ass fs Ass.unset []).0) fs)
        × IsLog value log_ass fs (scan_flags value log_ass fs Ass.unset []).1
  scan_flags-largest fs =
      let (_, all, one) = scan_flags-IsLargest fs Ass.unset [] in
      (
        All-map_of (λ f h. (assert_at value f, assert_at-IsAnswer value f, h)) fs all,
        elim one [
          | inl e ↦ inl e
          | inr t ↦ inr (Any-map_of (λ f e. rw e (assert_at-IsAnswer value f)) fs t)
        ],
        rw (scan_flags-logged fs Ass.unset []) (logged_flags-IsLog value log_ass fs),
      )
