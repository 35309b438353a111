-- ===== src/Common/Masks.antt =====
-- Masks, disjoint fields and powers of two, at every width.
use Prim.Native.Nat.{ℕ, zero, suc, ◌+◌, ◌-◌, ◌*◌, ◌/◌, ◌%◌, ◌^◌, ◌<◌, ◌≤◌, bit_and, bit_or, bit_xor}
use mathlib.Core.Path.{◌≡◌, refl, ◌∙◌, ap}
use mathlib.Core.Logic.{◌≢◌, inl, inr}
use native.Mathlib.Nat.{div-one, mod_self, div-eq_of_lt, div-add-mod, mod-lt}
use native.Mathlib.Omega.{arith}
use aws_neuron_driver.Common.Tests.{Bool-cases, ◌==◌}
use aws_neuron_driver.Common.Bits.{
  bit_and_digit, bit_or_digit, bit_xor-half, by_halves, bit_xor_sum, bit_xor-zero,
}
use aws_neuron_driver.Common.Bits.{bit_and-zero, bit_or-zero}
use aws_neuron_driver.Common.Arith.{mod-double, pow-pos, two-pow-suc, div-two-pow-suc}

-- A mask of `k` ones leaves the remainder by `2 ^ k`.
pub bit_and-mask : (k a : ℕ) → bit_and a (2 ^ k - 1) ≡ a % 2 ^ k
bit_and-mask zero a = omega (arith, bit_and-zero a)
bit_and-mask (suc k) a = omega (
  arith,
  bit_and_digit a (2 ^ suc k - 1),
  two-pow-suc k,
  pow-pos k,
  ap (λ (t : ℕ). bit_and (a / 2) t) half_mask,
  bit_and-mask k (a / 2),
  ap (λ (t : ℕ). a % t) (two-pow-suc k),
  mod-double a (2 ^ k) (pow-pos k),
)
  where
    half_mask : (2 ^ suc k - 1) / 2 ≡ 2 ^ k - 1
    half_mask = omega (arith, two-pow-suc k, pow-pos k)

-- Two fields that do not overlap: `|` is a sum.
pub bit_or-fields : (k q r : ℕ) → r < 2 ^ k → bit_or (q * 2 ^ k) r ≡ q * 2 ^ k + r
bit_or-fields zero q zero h = omega (arith, bit_or-zero (q * 2 ^ 0))
bit_or-fields zero q (suc r) h = absurd (omega arith)
bit_or-fields (suc k) q r h = omega (
  arith,
  bit_or_digit (q * 2 ^ suc k) r,
  double,
  ap (λ (t : ℕ). bit_or t (r / 2)) half,
  bit_or-fields k q (r / 2) (omega (arith, two-pow-suc k)),
)
  where
    double : q * 2 ^ suc k ≡ 2 * (q * 2 ^ k)
    double = omega (arith, ap (λ (t : ℕ). q * t) (two-pow-suc k))

    half : q * 2 ^ suc k / 2 ≡ q * 2 ^ k
    half = omega (arith, double)

pub bit_xor-fields : (k q r : ℕ) → r < 2 ^ k → bit_xor (q * 2 ^ k) r ≡ q * 2 ^ k + r
bit_xor-fields zero q zero h = omega (arith, bit_xor-zero (q * 2 ^ 0))
bit_xor-fields zero q (suc r) h = absurd (omega arith)
bit_xor-fields (suc k) q r h = omega (
  arith,
  bit_xor_sum (q * 2 ^ suc k) r,
  double,
  ap (λ (t : ℕ). bit_xor t (r / 2)) half,
  bit_xor-fields k q (r / 2) (omega (arith, two-pow-suc k)),
)
  where
    double : q * 2 ^ suc k ≡ 2 * (q * 2 ^ k)
    double = omega (arith, ap (λ (t : ℕ). q * t) (two-pow-suc k))

    half : q * 2 ^ suc k / 2 ≡ q * 2 ^ k
    half = omega (arith, double)

-- A shift goes inside an exclusive or.
pub bit_xor-shift : (k a b : ℕ) → bit_xor a b / 2 ^ k ≡ bit_xor (a / 2 ^ k) (b / 2 ^ k)
bit_xor-shift zero a b = rw (div-one (bit_xor a b), div-one a, div-one b)
bit_xor-shift (suc k) a b =
    rw (div-two-pow-suc (bit_xor a b) k, div-two-pow-suc a k, div-two-pow-suc b k, bit_xor-half a b)
      (bit_xor-shift k (a / 2) (b / 2))

bit_and-half : (a b : ℕ) → bit_and a b / 2 ≡ bit_and (a / 2) (b / 2)
bit_and-half a b = omega (arith, bit_and_digit a b)

-- A shift goes inside an intersection.
pub bit_and-shift : (k a b : ℕ) → bit_and a b / 2 ^ k ≡ bit_and (a / 2 ^ k) (b / 2 ^ k)
bit_and-shift zero a b = rw (div-one (bit_and a b), div-one a, div-one b)
bit_and-shift (suc k) a b =
    rw (div-two-pow-suc (bit_and a b) k, div-two-pow-suc a k, div-two-pow-suc b k, bit_and-half a b)
      (bit_and-shift k (a / 2) (b / 2))

bit_and_self : (a : ℕ) → bit_and a a ≡ a
bit_and_self =
    by_halves (λ a. bit_and a a ≡ a) refl λ a ih. omega (arith, bit_and_digit (suc a) (suc a))

-- `x & (x - 1)` is 0 for the powers of two only.
two-pow-step :
    (a : ℕ)
    → (suc a / 2 ≢ 0 → bit_and (suc a / 2) (suc a / 2 - 1) ≡ 0 → (k : ℕ) × (suc a / 2 ≡ 2 ^ k))
    → suc a ≢ 0
    → bit_and (suc a) (suc a - 1) ≡ 0
    → (k : ℕ) × (suc a ≡ 2 ^ k)
two-pow-step a ih ne e = elim (Bool-cases (suc a % 2 == 0)) [
  | inl even ↦
      let is_even : suc a % 2 ≡ 0 = ground arith in
      let pred_half : (suc a - 1) / 2 ≡ suc a / 2 - 1 = omega arith in
      let (k, p) = ih (omega arith) (
        omega (
          arith,
          bit_and_digit (suc a) (suc a - 1),
          ap (λ (t : ℕ). bit_and (suc a / 2) t) pred_half,
        )) in
      (suc k, omega (arith, two-pow-suc k))
  | inr odd ↦
      let is_odd : suc a % 2 ≡ 1 = ground arith in
      let pred_half : (suc a - 1) / 2 ≡ suc a / 2 = omega arith in
      (
        0,
        omega (
          arith,
          bit_and_digit (suc a) (suc a - 1),
          ap (λ (t : ℕ). bit_and (suc a / 2) t) pred_half,
          bit_and_self (suc a / 2),
        ),
      )
]

pub two-pow_of_bit_and : (x : ℕ) → x ≢ 0 → bit_and x (x - 1) ≡ 0 → (k : ℕ) × (x ≡ 2 ^ k)
two-pow_of_bit_and =
    by_halves (λ x. x ≢ 0 → bit_and x (x - 1) ≡ 0 → (k : ℕ) × (x ≡ 2 ^ k))
      (λ ne e. absurd (ne refl)) two-pow-step

pub bit_and_of_two-pow : (k : ℕ) → bit_and (2 ^ k) (2 ^ k - 1) ≡ 0
bit_and_of_two-pow k = bit_and-mask k (2 ^ k) ∙ mod_self (2 ^ k)

bit_or-half : (a b : ℕ) → bit_or a b / 2 ≡ bit_or (a / 2) (b / 2)
bit_or-half a b = omega (arith, bit_or_digit a b)

-- A shift goes inside a union.
pub bit_or-shift : (k a b : ℕ) → bit_or a b / 2 ^ k ≡ bit_or (a / 2 ^ k) (b / 2 ^ k)
bit_or-shift zero a b = rw (div-one (bit_or a b), div-one a, div-one b)
bit_or-shift (suc k) a b =
    rw (div-two-pow-suc (bit_or a b) k, div-two-pow-suc a k, div-two-pow-suc b k, bit_or-half a b)
      (bit_or-shift k (a / 2) (b / 2))

-- The low bits of a union are at least those of its second part.
pub bit_or_lower : (k a b : ℕ) → b % 2 ^ k ≤ bit_or a b % 2 ^ k
bit_or_lower zero a b = omega arith
bit_or_lower (suc k) a b =
    let ih : b / 2 % 2 ^ k ≤ bit_or a b / 2 % 2 ^ k =
      rw (bit_or-half a b) (bit_or_lower k (a / 2) (b / 2)) in
    rw (two-pow-suc k) (
      omega (
        arith,
        ih,
        bit_or_digit a b,
        mod-double b (2 ^ k) (pow-pos k),
        mod-double (bit_or a b) (2 ^ k) (pow-pos k),
      ))

-- A union is no wider than its parts.
pub bit_or-lt : (k a b : ℕ) → a < 2 ^ k → b < 2 ^ k → bit_or a b < 2 ^ k
bit_or-lt k a b ha hb =
    let none_a : a / 2 ^ k ≡ 0 = div-eq_of_lt ha in
    let none_b : b / 2 ^ k ≡ 0 = div-eq_of_lt hb in
    let high : bit_or a b / 2 ^ k ≡ 0 =
      bit_or-shift k a b ∙ ap (λ t. bit_or t (b / 2 ^ k)) none_a ∙ ap (λ t. bit_or 0 t) none_b in
    let rest : bit_or a b % 2 ^ k < 2 ^ k = mod-lt (bit_or a b) (pow-pos k) in
    omega (arith, div-add-mod (bit_or a b) (2 ^ k), ap (λ (t : ℕ). 2 ^ k * t) high)
