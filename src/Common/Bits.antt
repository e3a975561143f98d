-- ===== src/Common/Bits.antt =====
-- `x & mask` for a mask of ones is the remainder by the power of two.
use Prim.Native.Nat.{
  ℕ, zero, suc, ◌+◌, ◌-◌, ◌*◌, ◌/◌, ◌%◌, ◌^◌, ◌≤◌, ◌<◌, min, bit_and, digits, bit_and-bitwise,
}
use mathlib.Core.Path.{◌≡◌, refl}
use native.Mathlib.Nat.{pow-suc}
use native.Mathlib.Omega.{arith}

-- The digits of `x & y`, for numbers of at most `depth` digits.
abbrev anded : ℕ → ℕ → ℕ → ℕ
anded depth x y = digits (λ rest. zero) min depth x y

-- Any depth that is not below `x` will do.
anded_depth : (m n x y : ℕ) → x ≤ m → x ≤ n → anded m x y ≡ anded n x y
anded_depth zero zero x y h k = refl
anded_depth zero (suc n) zero y h k = refl
anded_depth zero (suc n) (suc x) y h k = absurd (omega arith)
anded_depth (suc m) zero zero y h k = refl
anded_depth (suc m) zero (suc x) y h k = absurd (omega arith)
anded_depth (suc m) (suc n) zero y h k = refl
anded_depth (suc m) (suc n) (suc x) y h k =
    rw (anded_depth m n (suc x / 2) (y / 2) (omega arith) (omega arith))

bit_and_digit : (x y : ℕ) → bit_and x y ≡ bit_and (x / 2) (y / 2) * 2 + min (x % 2) (y % 2)
bit_and_digit zero y = simp bit_and-bitwise (omega arith)
bit_and_digit (suc x) y =
    let half = suc x / 2 in
    simp bit_and-bitwise
      (omega (arith, anded_depth x half half (y / 2) (omega arith) (omega arith)))

bit_and-zero : (fuel x : ℕ) → x ≤ fuel → bit_and x 0 ≡ 0
bit_and-zero fuel zero h = refl
bit_and-zero zero (suc x) h = absurd (omega arith)
bit_and-zero (suc fuel) (suc x) h =
    omega (arith, bit_and_digit (suc x) 0, bit_and-zero fuel (suc x / 2) (omega arith))

mod_digit : (x p : ℕ) → 0 < p → (x / 2) % p * 2 + x % 2 ≡ x % (p * 2)
mod_digit x p h = grind arith

pub two_pow_pos : (k : ℕ) → 0 < 2 ^ k
two_pow_pos zero = omega arith
two_pow_pos (suc k) = rw pow-suc (omega (arith, two_pow_pos k))

-- By induction on the number of ones.
pub bit_and_mask : (k x : ℕ) → bit_and x (2 ^ k - 1) ≡ x % 2 ^ k
bit_and_mask zero x = omega (arith, bit_and-zero x x (omega arith))
bit_and_mask (suc k) x =
    let ones : 2 ^ suc k ≡ 2 ^ k * 2 = pow-suc 2 k in
    let half : (2 ^ k * 2 - 1) / 2 ≡ 2 ^ k - 1 = omega (arith, two_pow_pos k) in
    let odd : (2 ^ k * 2 - 1) % 2 ≡ 1 = omega (arith, two_pow_pos k) in
    rw
      (
        ones,
        bit_and_digit,
        half,
        odd,
        bit_and_mask k (x / 2),
        ← mod_digit x (2 ^ k) (two_pow_pos k),
      )
      (omega arith)
