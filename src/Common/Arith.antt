-- ===== src/Common/Arith.antt =====
-- Division and remainder by a variable: a number is taken apart in one way only.
use Prim.Native.Nat.{ℕ, zero, suc, ◌+◌, ◌-◌, ◌*◌, ◌/◌, ◌%◌, ◌^◌, ◌≤◌, ◌<◌}
use mathlib.Core.Path.{◌≡◌, sym, ◌∙◌, ap}
use native.Mathlib.Nat.{mul-add-div, mul-add-mod_self_left, mod-eq_of_lt, div-eq_of_lt}
use native.Mathlib.Nat.{div-add-mod, mod-lt, pow-suc, one-le-pow, div-div-eq-div-mul}
use native.Mathlib.Nat.{dvd-mul_right, mod-mod_of_dvd, zero-add, mod-eq-sub-mod}
use mathlib.Core.Logic.{◌≢◌}
use native.Mathlib.Decide.{dec_lt}
use native.Mathlib.Omega.{arith}

div_of_parts : (m q r : ℕ) → r < m → (m * q + r) / m ≡ q
div_of_parts m q r h = omega (arith, mul-add-div {m = m} (omega arith) q r, div-eq_of_lt h)

pub mod_of_parts : (m q r : ℕ) → r < m → (m * q + r) % m ≡ r
mod_of_parts m q r h = mul-add-mod_self_left m q r ∙ mod-eq_of_lt h

-- The last binary digit of a remainder.
pub mod-double : (a m : ℕ) → 0 < m → a % (2 * m) ≡ a / 2 % m * 2 + a % 2
mod-double a m pos =
    let h = a / 2 in
    let bound : h % m < m = mod-lt h pos in
    let whole : a ≡ 2 * m * (h / m) + (h % m * 2 + a % 2) =
      omega (arith, ap (λ (t : ℕ). 2 * t) (div-add-mod h m)) in
    ap (λ t. t % (2 * m)) whole ∙ mod_of_parts (2 * m) (h / m) (h % m * 2 + a % 2) (omega arith)

mul-suc : (m q : ℕ) → m * (q + 1) ≡ m * q + m
mul-suc m q = omega arith

pub pow-pos : (k : ℕ) → 0 < 2 ^ k
pow-pos k = one-le-pow k 2 (omega arith)

pub two-pow-suc : (k : ℕ) → 2 ^ suc k ≡ 2 * 2 ^ k
two-pow-suc k = omega (arith, pow-suc 2 k)

-- A division by a power of two, a digit at a time.
pub div-two-pow-suc : (a k : ℕ) → a / 2 ^ suc k ≡ a / 2 / 2 ^ k
div-two-pow-suc a k = ap (λ t. a / t) (two-pow-suc k) ∙ sym (div-div-eq-div-mul a 2 (2 ^ k))

pub two-pow-add : (j k : ℕ) → 2 ^ (j + k) ≡ 2 ^ k * 2 ^ j
two-pow-add zero k = rw zero-add (omega arith)
two-pow-add (suc j) k =
    let shift : suc j + k ≡ suc (j + k) = omega arith in
    ap (λ t. 2 ^ t) shift
    ∙ omega (arith, two-pow-suc (j + k), two-pow-add j k, ap (λ (t : ℕ). 2 ^ k * t) (two-pow-suc j))

pub u32_parts : (k : ℕ) → k ≤ 32 → 2 ^ 32 ≡ 2 ^ k * 2 ^ (32 - k)
u32_parts k h = let whole : 32 - k + k ≡ 32 = omega arith in rw whole at (two-pow-add (32 - k) k)

-- A wrap at 2 ^ 32 is not seen by a smaller power of two.
pub u32-mod-two-pow : (k a : ℕ) → k ≤ 32 → a % 2 ^ 32 % 2 ^ k ≡ a % 2 ^ k
u32-mod-two-pow k a h =
    mod-mod_of_dvd (2 ^ k) a (rw (u32_parts k h) (dvd-mul_right (2 ^ k) (2 ^ (32 - k))))

-- The remainder of a sum that goes past `m` at most once.
pub mod_within : (r n m : ℕ) → r < m → n < m → r + n < m → (r + n) % m ≡ r + n
mod_within r n m hr hn h = mod-eq_of_lt h

pub mod_past : (r n m : ℕ) → r < m → n < m → m ≤ r + n → (r + n) % m ≡ r + n - m
mod_past r n m hr hn h =
    mod-eq-sub-mod {n = r + n} {m = m} h ∙ mod-eq_of_lt {n = r + n - m} {m = m} (omega arith)

-- Counting on by one: the remainder, and the quotient, which steps when the remainder comes to 0.
pub div-next_wrap : (a m : ℕ) → 0 < m → (a + 1) % m ≡ 0 → (a + 1) / m ≡ a / m + 1
div-next_wrap a m pos e = elim (dec_lt (a % m + 1) m) [
  | yes h ↦
      absurd
        (omega (arith, mod_of_parts m (a / m) (a % m + 1) h, parts, ap (λ (t : ℕ). t % m) parts))
  | no h ↦
      let full : a % m + 1 ≡ m = omega (arith, mod-lt a pos) in
      ap (λ t. t / m) (omega (arith, parts, mul-suc m (a / m))) ∙ div_of_parts m (a / m + 1) 0 pos
]
  where
    parts : a + 1 ≡ m * (a / m) + (a % m + 1)
    parts = omega (arith, div-add-mod a m)

pub div-next : (a m : ℕ) → 0 < m → (a + 1) % m ≢ 0 → (a + 1) / m ≡ a / m
div-next a m pos ne = elim (dec_lt (a % m + 1) m) [
  | yes h ↦ ap (λ t. t / m) parts ∙ div_of_parts m (a / m) (a % m + 1) h
  | no h ↦
      let full : a % m + 1 ≡ m = omega (arith, mod-lt a pos) in
      absurd (
        ne (
          ap (λ t. t % m) (omega (arith, parts, mul-suc m (a / m)))
          ∙ mod_of_parts m (a / m + 1) 0 pos))
]
  where
    parts : a + 1 ≡ m * (a / m) + (a % m + 1)
    parts = omega (arith, div-add-mod a m)
