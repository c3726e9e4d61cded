-- ===== src/Prelude/Bits.antt =====
-- `|` and a bit test at every position, for words of any width.
mod Step
use Step.{bit_or_step}
use Prim.Native.Nat.{ℕ, zero, suc, ◌+◌, ◌*◌, ◌/◌, ◌%◌, ◌^◌, ◌<◌, max, bit_or, bit_and}
use mathlib.Core.Path.{◌≡◌, refl, ap, ◌∙◌}
use mathlib.Core.Logic.{◌≢◌}
use native.Mathlib.Nat.{pow-suc}
use native.Mathlib.Omega.{arith}

-- `(x >> k) & 1`
abbrev pub bit : ℕ → ℕ → ℕ
bit x zero = x % 2
bit x (suc k) = bit (x / 2) k

pub bit-bit_or : (k a b : ℕ) → bit (bit_or a b) k ≡ max (bit a k) (bit b k)
bit-bit_or zero a b = omega (arith, bit_or_step a b)
bit-bit_or (suc k) a b =
    ap (λ (x : ℕ). bit x k) (omega (arith, bit_or_step a b)) ∙ bit-bit_or k (a / 2) (b / 2)

pub bit-le : (k a : ℕ) → bit a k < 2
bit-le zero a = omega arith
bit-le (suc k) a = bit-le k (a / 2)

pub bit-zero : (k : ℕ) → bit 0 k ≡ 0
bit-zero zero = refl
bit-zero (suc k) = bit-zero k

half-pow : (f : ℕ) → 2 ^ suc f / 2 ≡ 2 ^ f
half-pow f = omega (arith, pow-suc 2 f)

pub bit-pow_self : (f : ℕ) → bit (2 ^ f) f ≡ 1
bit-pow_self zero = refl
bit-pow_self (suc f) = ap (λ (x : ℕ). bit x f) (half-pow f) ∙ bit-pow_self f

pub bit-pow_ne : (f k : ℕ) → f ≢ k → bit (2 ^ f) k ≡ 0
bit-pow_ne zero zero h = absurd (h refl)
bit-pow_ne zero (suc k) h = bit-zero k
bit-pow_ne (suc f) zero h = omega (arith, pow-suc 2 f)
bit-pow_ne (suc f) (suc k) h =
    ap (λ (x : ℕ). bit x k) (half-pow f) ∙ bit-pow_ne f k (λ e. h (ap suc e))
