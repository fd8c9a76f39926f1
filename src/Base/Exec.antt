-- ===== src/Base/Exec.antt =====
-- Methods on mutable state: what was changed before an exception stays changed, so the state
-- comes back beside the exception too.
use mathlib.Core.Bool.{Bool}
use hdlskel.Base.Result.{Exn, Result, ok, err, guard}

abbrev pub Exec : Type 0 → Type 0 → Type 0
Exec S A = S → Result A × S

abbrev pub continue : {S A B : Type 0} → Result A → (A → Exec S B) → Exec S B
continue (ok a) f s = f a s
continue (err e) f s = (err e, s)

infixl 5 ◌>>=◌ ◌>>◌
abbrev pub ◌>>=◌ : {S A B : Type 0} → Exec S A → (A → Exec S B) → Exec S B
◌>>=◌ m f s = continue (m s).0 f (m s).1

abbrev pub ◌>>◌ : {S B : Type 0} → Exec S (Unit {0}) → Exec S B → Exec S B
m >> k = m >>= λ _. k

abbrev pub pure : {S A : Type 0} → A → Exec S A
pure a s = (ok a, s)

abbrev pub raise : {S A : Type 0} → Exn → Exec S A
raise e s = (err e, s)

abbrev pub lift : {S A : Type 0} → Result A → Exec S A
lift r s = (r, s)

-- `assert b`
abbrev pub check : {S : Type 0} → Bool → Exn → Exec S (Unit {0})
check b e = lift (guard b e)

abbrev pub get_state : {S : Type 0} → Exec S S
get_state s = (ok s, s)

abbrev pub put_state : {S : Type 0} → S → Exec S (Unit {0})
put_state s' s = (ok tt, s')
