-- ===== src/Prelude/Bits.antt =====
-- The binary digits of words: what `|` and `&` with one bit do.
use Prim.Native.Nat.{
  ℕ, zero, suc, ◌+◌, ◌*◌, ◌/◌, ◌%◌, ◌^◌, ◌≤◌, ◌<◌, min, max, bit_and, bit_or, digits, bitwise,
  bit_and-bitwise, bit_or-bitwise,
}
use mathlib.Core.Path.{◌≡◌, refl, ◌∙◌}
use native.Mathlib.Nat.{pow-suc}
use native.Mathlib.Omega.{arith}

module _ (z : ℕ → ℕ) (f : ℕ → ℕ → ℕ) where
  -- Two counts of digits that are enough give the same.
  enough : (a b n k : ℕ) → a ≤ n → a ≤ k → digits z f n a b ≡ digits z f k a b
  enough zero b zero zero p q = refl
  enough zero b zero (suc k) p q = refl
  enough zero b (suc n) zero p q = refl
  enough zero b (suc n) (suc k) p q = refl
  enough (suc a) b zero k p q = absurd (omega arith)
  enough (suc a) b (suc n) zero p q = absurd (omega arith)
  enough (suc a) b (suc n) (suc k) p q =
      let half = enough (suc a / 2) (b / 2) n k (omega arith) (omega arith) in rw half

  lowest :
      (a b : ℕ)
      → ((c : ℕ) → z c ≡ z (c / 2) * 2 + f 0 (c % 2))
      → bitwise z f a b ≡ bitwise z f (a / 2) (b / 2) * 2 + f (a % 2) (b % 2)
  lowest zero b run_out = run_out b
  lowest (suc a) b run_out =
      let half = enough (suc a / 2) (b / 2) a (suc a / 2) (omega arith) (omega arith) in rw half

and-lowest : (a b : ℕ) → bit_and a b ≡ bit_and (a / 2) (b / 2) * 2 + min (a % 2) (b % 2)
and-lowest a b =
    bit_and-bitwise a b
    ∙ lowest (λ c. zero) min a b (λ c. omega arith)
    ∙ (rw (bit_and-bitwise (a / 2) (b / 2)))

or-lowest : (a b : ℕ) → bit_or a b ≡ bit_or (a / 2) (b / 2) * 2 + max (a % 2) (b % 2)
or-lowest a b =
    bit_or-bitwise a b
    ∙ lowest (λ c. c) max a b (λ c. omega arith)
    ∙ (rw (bit_or-bitwise (a / 2) (b / 2)))

zero-and : (b : ℕ) → bit_and 0 b ≡ 0
zero-and b = bit_and-bitwise 0 b

and-zero_fuel : (n a : ℕ) → a ≤ n → bit_and a 0 ≡ 0
and-zero_fuel n zero h = zero-and 0
and-zero_fuel zero (suc a) h = absurd (omega arith)
and-zero_fuel (suc n) (suc a) h =
    let half : bit_and (suc a / 2) 0 ≡ 0 = and-zero_fuel n (suc a / 2) (omega arith) in
    omega (arith, and-lowest (suc a) 0, half)

and-bit_zero : (a : ℕ) → bit_and a (2 ^ 0) ≡ a % 2
and-bit_zero a = omega (arith, and-lowest a 1, and-zero_fuel (a / 2) (a / 2) (omega arith))

and-bit_suc : (p a : ℕ) → bit_and a (2 ^ suc p) ≡ bit_and (a / 2) (2 ^ p) * 2
and-bit_suc p a =
    let half : 2 ^ suc p / 2 ≡ 2 ^ p = omega (arith, pow-suc 2 p) in
    let even : 2 ^ suc p % 2 ≡ 0 = omega (arith, pow-suc 2 p) in
    and-lowest a (2 ^ suc p) ∙ (rw (half, even) (omega arith))

or-half : (a b : ℕ) → bit_or a b / 2 ≡ bit_or (a / 2) (b / 2)
or-half a b = omega (arith, or-lowest a b)

-- `&` with one bit distributes over `|`.
pub or-and_bit :
    (p a b : ℕ) → bit_and (bit_or a b) (2 ^ p) ≡ max (bit_and a (2 ^ p)) (bit_and b (2 ^ p))
or-and_bit zero a b =
    omega (arith, and-bit_zero (bit_or a b), and-bit_zero a, and-bit_zero b, or-lowest a b)
or-and_bit (suc p) a b =
    rw (and-bit_suc p (bit_or a b), and-bit_suc p a, and-bit_suc p b, or-half a b)
      (omega (arith, or-and_bit p (a / 2) (b / 2)))

-- A bit is in itself.
pub bit-and_self : (p : ℕ) → bit_and (2 ^ p) (2 ^ p) ≡ 2 ^ p
bit-and_self zero = refl
bit-and_self (suc p) =
    let half : 2 ^ suc p / 2 ≡ 2 ^ p = omega (arith, pow-suc 2 p) in
    and-bit_suc p (2 ^ suc p) ∙ (rw (half, bit-and_self p) (omega (arith, pow-suc 2 p)))

pub or-lt : (k a b : ℕ) → a < 2 ^ k → b < 2 ^ k → bit_or a b < 2 ^ k
or-lt zero a b h l =
    let a_zero : a ≡ 0 = omega arith in
    let b_zero : b ≡ 0 = omega arith in rw (a_zero, b_zero) (omega arith)
or-lt (suc k) a b h l =
    let half = or-lt k (a / 2) (b / 2) (omega (arith, pow-suc 2 k)) (omega (arith, pow-suc 2 k)) in
    omega (arith, half, or-lowest a b, pow-suc 2 k)
