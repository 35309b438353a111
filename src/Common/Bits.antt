-- ===== src/Common/Bits.antt =====
-- Bit operations at variables, from the digit recursion that the native operations stand for.
use Prim.Native.Nat.{min, max, differ, digits, bitwise, bit_and-bitwise, bit_or-bitwise}
use Prim.Native.Nat.{bit_xor-bitwise, bit_and, bit_or, bit_xor}
use Prim.Native.Nat.{ℕ, zero, suc, ◌+◌, ◌*◌, ◌/◌, ◌%◌, ◌≤◌, ◌<◌}
use mathlib.Core.Path.{◌≡◌, refl, ap}
use native.Mathlib.Omega.{arith}

module _ (z : ℕ → ℕ) (f : ℕ → ℕ → ℕ) where
  -- More fuel than the number has digits changes nothing.
  digits-enough : (n m a b : ℕ) → a ≤ n → a ≤ m → digits z f n a b ≡ digits z f m a b
  digits-enough zero zero zero b p q = refl
  digits-enough zero (suc m) zero b p q = refl
  digits-enough zero m (suc a) b p q = absurd (omega arith)
  digits-enough (suc n) zero zero b p q = refl
  digits-enough (suc n) (suc m) zero b p q = refl
  digits-enough (suc n) zero (suc a) b p q = absurd (omega arith)
  digits-enough (suc n) (suc m) (suc a) b p q =
      let half = digits-enough n m (suc a / 2) (b / 2) (omega arith) (omega arith) in
      ap (λ t. t * 2 + f (suc a % 2) (b % 2)) half

  lowest_digit :
      (a b : ℕ)
      → bitwise z f (suc a) b ≡ bitwise z f (suc a / 2) (b / 2) * 2 + f (suc a % 2) (b % 2)
  lowest_digit a b =
      ap (λ t. t * 2 + f (suc a % 2) (b % 2))
        (digits-enough a (suc a / 2) (suc a / 2) (b / 2) (omega arith) (omega arith))

pub bit_or_digit : (a b : ℕ) → bit_or a b ≡ bit_or (a / 2) (b / 2) * 2 + max (a % 2) (b % 2)
bit_or_digit zero b = simp bit_or-bitwise (omega arith)
bit_or_digit (suc a) b = simp bit_or-bitwise (lowest_digit (λ y. y) max a b)

pub bit_and_digit : (a b : ℕ) → bit_and a b ≡ bit_and (a / 2) (b / 2) * 2 + min (a % 2) (b % 2)
bit_and_digit zero b = simp bit_and-bitwise (omega arith)
bit_and_digit (suc a) b = simp bit_and-bitwise (lowest_digit (λ y. 0) min a b)

bit_xor_digit : (a b : ℕ) → bit_xor a b ≡ bit_xor (a / 2) (b / 2) * 2 + differ (a % 2) (b % 2)
bit_xor_digit zero b = simp bit_xor-bitwise (omega arith)
bit_xor_digit (suc a) b = simp bit_xor-bitwise (lowest_digit (λ y. y) differ a b)

-- Strong induction by halving, as recursion on a bound.
halving_below {ℓ} :
    (P : ℕ → Type ℓ) → P 0 → ((a : ℕ) → P (suc a / 2) → P (suc a)) → (n a : ℕ) → a ≤ n → P a
halving_below P base step n zero h = base
halving_below P base step zero (suc a) h = absurd (omega arith)
halving_below P base step (suc n) (suc a) h =
    step a (halving_below P base step n (suc a / 2) (omega arith))

pub by_halves {ℓ} : (P : ℕ → Type ℓ) → P 0 → ((a : ℕ) → P (suc a / 2) → P (suc a)) → (a : ℕ) → P a
by_halves P base step a = halving_below P base step a a (omega arith)

-- One digit of an exclusive or, as a sum.
differ-digit : (p q : ℕ) → p < 2 → q < 2 → differ p q ≡ (p + q) % 2
differ-digit zero q hp hq = omega arith
differ-digit (suc p) zero hp hq = omega arith
differ-digit (suc zero) (suc zero) hp hq = refl
differ-digit (suc zero) (suc (suc q)) hp hq = absurd (omega arith)
differ-digit (suc (suc p)) (suc q) hp hq = absurd (omega arith)

pub bit_xor_sum : (a b : ℕ) → bit_xor a b ≡ bit_xor (a / 2) (b / 2) * 2 + (a + b) % 2
bit_xor_sum a b =
    omega (arith, bit_xor_digit a b, differ-digit (a % 2) (b % 2) (omega arith) (omega arith))

pub zero-bit_xor : (b : ℕ) → bit_xor 0 b ≡ b
zero-bit_xor b = bit_xor-bitwise 0 b

pub bit_xor-zero : (a : ℕ) → bit_xor a 0 ≡ a
bit_xor-zero = by_halves (λ a. bit_xor a 0 ≡ a) refl λ a ih. omega (arith, bit_xor_sum (suc a) 0)

pub bit_and-zero : (a : ℕ) → bit_and a 0 ≡ 0
bit_and-zero = by_halves (λ a. bit_and a 0 ≡ 0) refl λ a ih. omega (arith, bit_and_digit (suc a) 0)

pub bit_or-zero : (a : ℕ) → bit_or a 0 ≡ a
bit_or-zero = by_halves (λ a. bit_or a 0 ≡ a) refl λ a ih. omega (arith, bit_or_digit (suc a) 0)

pub bit_xor_self : (a : ℕ) → bit_xor a a ≡ 0
bit_xor_self =
    by_halves (λ a. bit_xor a a ≡ 0) refl λ a ih. omega (arith, bit_xor_sum (suc a) (suc a))

pub bit_xor_comm : (a b : ℕ) → bit_xor a b ≡ bit_xor b a
bit_xor_comm =
    by_halves (λ a. (b : ℕ) → bit_xor a b ≡ bit_xor b a)
      (λ b. omega (arith, zero-bit_xor b, bit_xor-zero b))
      λ a ih b. omega (arith, ih (b / 2), bit_xor_sum (suc a) b, bit_xor_sum b (suc a))

-- The quotient and the last digit of an exclusive or.
pub bit_xor-half : (a b : ℕ) → bit_xor a b / 2 ≡ bit_xor (a / 2) (b / 2)
bit_xor-half a b = omega (arith, bit_xor_sum a b)

pub bit_xor-parity : (a b : ℕ) → bit_xor a b % 2 ≡ (a + b) % 2
bit_xor-parity a b = omega (arith, bit_xor_sum a b)

pub bit_xor_assoc : (a b c : ℕ) → bit_xor (bit_xor a b) c ≡ bit_xor a (bit_xor b c)
bit_xor_assoc =
    by_halves (λ a. (b c : ℕ) → bit_xor (bit_xor a b) c ≡ bit_xor a (bit_xor b c))
      (λ b c. rw (zero-bit_xor b, zero-bit_xor (bit_xor b c)))
      λ a ih b c.
        rw
          (
            bit_xor_sum (bit_xor (suc a) b) c,
            bit_xor_sum (suc a) (bit_xor b c),
            bit_xor-half (suc a) b,
            bit_xor-half b c,
          )
          (omega (arith, ih (b / 2) (c / 2), bit_xor-parity (suc a) b, bit_xor-parity b c))
