-- ===== src/Prelude/Bits.antt =====
-- `|` on fields that do not overlap is a sum, at every width.
use Prim.Native.Nat.{bit_or, digits, bit_or-bitwise}
use Prim.Native.Nat.{ℕ, zero, suc, ◌+◌, ◌*◌, ◌/◌, ◌%◌, ◌^◌, ◌≤◌, ◌<◌, max}
use mathlib.Core.Path.{◌≡◌, refl, ◌∙◌, ap}
use native.Mathlib.Nat.{pow-suc}
use native.Mathlib.Omega.{arith}

-- the recursion on digits that `bit_or` stands for; fuel beyond the first number changes nothing
abbrev or_digits : ℕ → ℕ → ℕ → ℕ
or_digits n a b = digits (λ y. y) max n a b

or_digits_enough : (n k a b : ℕ) → a ≤ n → a ≤ k → or_digits n a b ≡ or_digits k a b
or_digits_enough zero zero a b p q = refl
or_digits_enough zero (suc k) zero b p q = refl
or_digits_enough zero (suc k) (suc a) b p q = absurd (omega arith)
or_digits_enough (suc n) zero zero b p q = refl
or_digits_enough (suc n) zero (suc a) b p q = absurd (omega arith)
or_digits_enough (suc n) (suc k) zero b p q = refl
or_digits_enough (suc n) (suc k) (suc a) b p q =
    omega (arith, or_digits_enough n k (suc a / 2) (b / 2) (omega arith) (omega arith))

pub zero-bit_or : (b : ℕ) → bit_or 0 b ≡ b
zero-bit_or b = bit_or-bitwise 0 b

lowest_digit : (a b : ℕ) → bit_or a b ≡ bit_or (a / 2) (b / 2) * 2 + max (a % 2) (b % 2)
lowest_digit zero b = omega (arith, zero-bit_or b, zero-bit_or (b / 2))
lowest_digit (suc a) b = omega (
  arith,
  bit_or-bitwise (suc a) b,
  bit_or-bitwise (suc a / 2) (b / 2),
  or_digits_enough a (suc a / 2) (suc a / 2) (b / 2) (omega arith) (omega arith),
)

pub bit_or-add : (k a b : ℕ) → a < 2 ^ k → bit_or a (b * 2 ^ k) ≡ a + b * 2 ^ k
bit_or-add zero a b h = let e : a ≡ 0 = omega arith in rw e (zero-bit_or (b * 2 ^ 0) ∙ omega arith)
bit_or-add (suc k) a b h =
    let double : b * 2 ^ suc k ≡ 2 * (b * 2 ^ k) =
      ap (λ (t : ℕ). b * t) (pow-suc 2 k) ∙ omega arith in
    rw double (
      omega (
        arith,
        lowest_digit a (2 * (b * 2 ^ k)),
        ap (bit_or (a / 2)) {x = 2 * (b * 2 ^ k) / 2} {y = b * 2 ^ k} (omega arith),
        bit_or-add k (a / 2) b (omega (arith, pow-suc 2 k)),
      ))
