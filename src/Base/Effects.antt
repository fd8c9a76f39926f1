-- ===== src/Base/Effects.antt =====
-- Calls that leave the state alone: always, when they raise, or because they are refused.
use hdlskel.Base.Tests.{if◌then◌else◌}
use mathlib.Core.Path.{◌≡◌, refl, ap, ◌∙◌}
use mathlib.Core.Bool.{Bool, true, false}
use hdlskel.Base.Result.{Exn, Result, ok, err, is_ok}
use hdlskel.Base.Exec.{Exec, continue, ◌>>=◌, pure}

abbrev pub Keeps : {S A : Type 0} → Exec S A → Type 0
Keeps {S} call = (s : S) → (call s).1 ≡ s

-- A call that raises has changed nothing.
abbrev pub KeepsOnError : {S A : Type 0} → Exec S A → Type 0
KeepsOnError {S} call = (s : S) (e : Exn) → (call s).0 ≡ err e → (call s).1 ≡ s

-- The call raises, and has changed nothing.
abbrev pub Refuses : {S A : Type 0} → Exec S A → Type 0
Refuses {S} call = (s : S) → (is_ok (call s).0 ≡ false) × ((call s).1 ≡ s)

module _ {S A B : Type 0} where
  continue-Keeps :
      (r : Result A) (f : A → Exec S B) → ((a : A) → Keeps (f a)) → (s : S) → (continue r f s).1 ≡ s
  continue-Keeps (ok a) f h s = h a s
  continue-Keeps (err e) f h s = refl

  pub bind-Keeps :
      (c : Exec S A) (f : A → Exec S B) → Keeps c → ((a : A) → Keeps (f a)) → Keeps (c >>= f)
  bind-Keeps c f k h s = continue-Keeps (c s).0 f h (c s).1 ∙ k s

  continue-KeepsOnError :
      (r : Result A) (f : A → Exec S B)
      → ((a : A) → KeepsOnError (f a))
      → (s : S) (e : Exn) → (continue r f s).0 ≡ err e
      → (continue r f s).1 ≡ s
  continue-KeepsOnError (ok a) f h s e x = h a s e x
  continue-KeepsOnError (err e') f h s e x = refl

  pub bind-KeepsOnError :
      (c : Exec S A) (f : A → Exec S B)
      → Keeps c
      → ((a : A) → KeepsOnError (f a))
      → KeepsOnError (c >>= f)
  bind-KeepsOnError c f k h s e x = continue-KeepsOnError (c s).0 f h (c s).1 e x ∙ k s

  continue-Refuses :
      (r : Result A) (f : A → Exec S B)
      → ((a : A) → Refuses (f a))
      → (s : S) → (is_ok (continue r f s).0 ≡ false) × ((continue r f s).1 ≡ s)
  continue-Refuses (ok a) f h s = h a s
  continue-Refuses (err e) f h s = (refl, refl)

  pub bind-Refuses :
      (c : Exec S A) (f : A → Exec S B) → Keeps c → ((a : A) → Refuses (f a)) → Refuses (c >>= f)
  bind-Refuses c f k h s =
      let (bad, same) = continue-Refuses (c s).0 f h (c s).1 in (bad, same ∙ k s)

  refused_first :
      (r : Result A) (f : A → Exec S B)
      → is_ok r ≡ false
      → (s : S) → (is_ok (continue r f s).0 ≡ false) × ((continue r f s).1 ≡ s)
  refused_first (ok a) f h s = absurd (cc)
  refused_first (err e) f h s = (refl, refl)

  -- What follows a refused call is not reached.
  pub first-Refuses : (c : Exec S A) (f : A → Exec S B) → Refuses c → Refuses (c >>= f)
  first-Refuses c f h s =
      let (bad, same) = refused_first (c s).0 f (h s).0 (c s).1 in (bad, same ∙ (h s).1)

pub if-Keeps :
    {S A : Type 0} (b : Bool) (c d : Exec S A) → Keeps c → Keeps d → Keeps (if b then c else d)
if-Keeps true c d h k = h
if-Keeps false c d h k = k

module _ {S A B : Type 0} where
  continue-inverse :
      (r : Result A) (f : A → Exec S B) (s : S) (b : B) (s' : S)
      → continue r f s ≡ (ok b, s')
      → (a : A) × (r ≡ ok a) × (f a s ≡ (ok b, s'))
  continue-inverse (ok a) f s b s' e = (a, refl, e)
  continue-inverse (err x) f s b s' e = absurd (cc)

  -- A call that returns has returned from its first part.
  pub bind-inverse :
      (c : Exec S A) (f : A → Exec S B) (s : S) (b : B) (s' : S)
      → (c >>= f) s ≡ (ok b, s')
      → (a : A) × ((c s).0 ≡ ok a) × (f a (c s).1 ≡ (ok b, s'))
  bind-inverse c f s b s' e = continue-inverse (c s).0 f (c s).1 b s' e

-- What a call that only returns has returned.
pub pure-inverse : {S A : Type 0} (a b : A) (s s' : S) → pure a s ≡ (ok b, s') → (a ≡ b) × (s ≡ s')
pure-inverse a b s s' e = let same : ok a ≡ ok b = ap (λ t. t.0) e in (cc, ap (λ t. t.1) e)
