-- ===== src/Base/Powers.antt =====
-- Powers of two and of 256.
use Prim.Native.Nat.{ℕ, zero, suc, ◌+◌, ◌-◌, ◌*◌, ◌^◌, ◌%◌, ◌≤◌, ◌<◌}
use mathlib.Core.Path.{◌≡◌, refl, ap, ◌∙◌}
use native.Mathlib.Omega.{arith}
use native.Mathlib.Nat.{pow-zero, pow-suc, one-le-pow, mul_assoc, mul-add-mod_self_left}

pub pow-add : (b m n : ℕ) → b ^ (m + n) ≡ b ^ m * b ^ n
pow-add b m zero = let e : m + 0 ≡ m = omega arith in rw (e, pow-zero b) (omega arith)
pow-add b m (suc n) =
    let e : m + suc n ≡ suc (m + n) = omega arith in
    rw (e, pow-suc b (m + n), pow-suc b n, pow-add b m n) (mul_assoc (b ^ m) (b ^ n) b)

pub pow_256 : (n : ℕ) → 256 ^ n ≡ 2 ^ (8 * n)
pow_256 zero = refl
pow_256 (suc n) =
    let e : 8 * suc n ≡ 8 * n + 8 = omega arith in
    rw (e, pow-add 2 (8 * n) 8, pow-suc 256 n, pow_256 n) refl

-- The bits of `n` bytes split into the low `w` and the rest.
pub pow_256_split : (n w : ℕ) → w ≤ 8 * n → 256 ^ n ≡ 2 ^ w * 2 ^ (8 * n - w)
pow_256_split n w h =
    let e : 8 * n ≡ w + (8 * n - w) = omega arith in
    pow_256 n ∙ ap (λ t. 2 ^ t) e ∙ pow-add 2 w (8 * n - w)

pub pow_pos : (w : ℕ) → 0 < 2 ^ w
pow_pos w = one-le-pow w 2 (omega arith)

-- The low `w` bits of `256 ^ n - v`.
pub negated_mod :
    (n w v : ℕ) → w ≤ 8 * n → 0 < v → v ≤ 2 ^ w → (256 ^ n - v) % 2 ^ w ≡ (2 ^ w - v) % 2 ^ w
negated_mod n w v h p k = shift (2 ^ (8 * n - w)) (pow_pos (8 * n - w)) (pow_256_split n w h)
  where
    shift : (q : ℕ) → 0 < q → 256 ^ n ≡ 2 ^ w * q → (256 ^ n - v) % 2 ^ w ≡ (2 ^ w - v) % 2 ^ w
    shift zero lt e = elim lt [ ]
    shift (suc q) lt e =
        let split : 256 ^ n - v ≡ 2 ^ w * q + (2 ^ w - v) = grind arith in
        ap (λ t. t % 2 ^ w) split ∙ mul-add-mod_self_left (2 ^ w) q (2 ^ w - v)
