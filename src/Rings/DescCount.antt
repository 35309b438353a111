-- ===== src/Rings/DescCount.antt =====
-- The size of a ring: the least power of two with room for the descriptors and for those held back.
use aws_neuron_driver.Common.{
  ℕ, zero, suc, false, ◌+◌, ◌-◌, ◌*◌, ◌/◌, ◌%◌, ◌^◌, ◌≤◌, ◌<◌, ◌≡◌, sym, ◌∙◌, ap, arith, bit_or,
  sub32, ltb, inl, inr, ◌⊎◌, le→ltb-false,
}
use native.Mathlib.Decide.{dec_le}
use native.Mathlib.Nat.{
  pow-le-pow_right, div-lt_iff_lt-mul, mul-le-mul_left, div-le_self, le-div_iff_mul-le,
  div-eq_of_lt, mod-eq_of_lt, div-add-mod, mul-sub,
}
use aws_neuron_driver.Common.Bits.{bit_or-zero}
use aws_neuron_driver.Common.Masks.{bit_or-shift, bit_or_lower, bit_or-lt}
use aws_neuron_driver.Common.Arith.{pow-pos, two-pow-suc, two-pow-add}
use aws_neuron_driver.Rings.{ring_get_desc_count, smear, smear_word}

-- A multiple is below a number that is less than one multiple short.
below_multiple : (p q r x : ℕ) → p ≤ r * q → p * q ≤ x + p → (p - r) * q ≤ x
below_multiple p q r x h e = omega (arith, mul-sub q p r)

-- Of a number below `2 ^ (s + j)` whose `j` highest bits are ones, a union with the number shifted by
-- `j` has twice as many.
smear_low :
    (s j r x : ℕ)
    → x < 2 ^ s * 2 ^ j
    → 2 ^ s * 2 ^ j ≤ x + 2 ^ s
    → 2 ^ s ≤ r * 2 ^ j
    → 2 ^ s * 2 ^ j ≤ smear j x + r
smear_low s j r x small ones enough =
    let p : ℕ = 2 ^ s in
    let q : ℕ = 2 ^ j in
    let z : ℕ = x / q in
    let z_small : z < p = (div-lt_iff_lt-mul (pow-pos j)).1 small in
    let z_ones : p - r ≤ z =
      (le-div_iff_mul-le (pow-pos j)).1 (below_multiple p q r x enough ones) in
    let same : bit_or x z / p ≡ x / p =
      bit_or-shift s x z
      ∙ ap (λ t. bit_or (x / p) t) (div-eq_of_lt z_small)
      ∙ bit_or-zero (x / p) in
    let high : q - 1 ≤ x / p =
      (le-div_iff_mul-le (pow-pos s)).1 (omega (arith, mul-sub p q 1, pow-pos j)) in
    let low : z ≤ bit_or x z % p = rw (mod-eq_of_lt z_small) at (bit_or_lower s x z) in
    let whole : p * (bit_or x z / p) + bit_or x z % p ≡ bit_or x z = div-add-mod (bit_or x z) p in
    let top : p * (q - 1) ≤ p * (bit_or x z / p) = mul-le-mul_left p (rw same high) in
    omega (arith, mul-sub p q 1, pow-pos j, pow-pos s)

-- One step of the smear doubles the ones at the top, up to all of them.
smear_step :
    (top j x : ℕ)
    → x < 2 ^ top
    → 2 ^ top ≤ x + 2 ^ (top - j)
    → (smear j x < 2 ^ top) × (2 ^ top ≤ smear j x + 2 ^ (top - (j + j)))
smear_step top j x small ones = elim (dec_le j top) [
  | yes within ↦
      let s : ℕ = top - j in
      let split : 2 ^ top ≡ 2 ^ s * 2 ^ j = ap (λ t. 2 ^ t) (omega arith) ∙ two-pow-add j s in
      let enough : 2 ^ s ≤ 2 ^ (top - (j + j)) * 2 ^ j =
        rw (sym (two-pow-add j (top - (j + j)))) (
          pow-le-pow_right {n = 2} (omega arith) {i = s} {j = j + (top - (j + j))} (omega arith)) in
      (
        bit_or-lt top x (x / 2 ^ j) small (omega (arith, div-le_self x (2 ^ j))),
        rw (sym split) at
            (smear_low s j (2 ^ (top - (j + j))) x (rw split at small) (rw split at ones) enough),
      )
  | no past ↦
      let wide : 2 ^ top ≤ 2 ^ j =
        pow-le-pow_right {n = 2} (omega arith) {i = top} {j = j} (omega arith) in
      let below : x < 2 ^ j = omega arith in
      let still : smear j x ≡ x = ap (λ t. bit_or x t) (div-eq_of_lt below) ∙ bit_or-zero x in
      let none : top - j ≡ 0 = omega arith in
      let none' : top - (j + j) ≡ 0 = omega arith in rw (still, none') (small, rw none at ones)
]

-- Five steps set every bit below the highest one of a word.
smear_all :
    (top x : ℕ) → 0 < top → top ≤ 32 → x < 2 ^ top → 2 ^ (top - 1) ≤ x → smear_word x + 1 ≡ 2 ^ top
smear_all top x pos word small large =
    let halves : 2 ^ top ≡ 2 * 2 ^ (top - 1) =
      ap (λ t. 2 ^ t) (omega arith) ∙ two-pow-suc (top - 1) in
    let (a1, b1) = smear_step top 1 x small (omega arith) in
    let (a2, b2) = smear_step top 2 (smear 1 x) a1 b1 in
    let (a4, b4) = smear_step top 4 (smear 2 (smear 1 x)) a2 b2 in
    let (a8, b8) = smear_step top 8 (smear 4 (smear 2 (smear 1 x))) a4 b4 in
    let (a16, b16) = smear_step top 16 (smear 8 (smear 4 (smear 2 (smear 1 x)))) a8 b8 in
    let none : top - 32 ≡ 0 = omega arith in
    let ones : 2 ^ top ≤ smear_word x + 1 = rw none at b16 in omega arith

-- Every positive number has its highest bit.
highest :
    (x bound : ℕ)
    → 0 < x
    → x < 2 ^ bound
    → (top : ℕ) × (0 < top) × (top ≤ bound) × (x < 2 ^ top) × (2 ^ (top - 1) ≤ x)
highest x zero pos small = absurd (omega arith)
highest x (suc bound) pos small = elim (dec_le (2 ^ bound) x) [
  | yes large ↦ (suc bound, omega arith, omega arith, small, rw pred_suc large)
  | no below ↦
      let (top, p, b, s, l) = highest x bound pos (omega arith) in (top, p, omega arith, s, l)
]
  where
    pred_suc : suc bound - 1 ≡ bound
    pred_suc = omega arith

at_least : (top : ℕ) → 32 < 2 ^ top → 5 ≤ top
at_least top h = elim (dec_le 5 top) [
  | yes e ↦ e
  | no small ↦
      absurd (omega (arith, pow-le-pow_right {n = 2} (omega arith) {i = top} {j = 4} (omega arith)))
]

-- For up to 2 ^ 24 - 16 descriptors `ndmar_ring_get_desc_count` is a power of two from 32 to 2 ^
-- 24, is at least sixteen more, and is 64 or less or at most twice fifteen more.
ring_get_desc_count-power :
    (v : ℕ)
    → v ≤ 2 ^ 24 - 16
    → (k : ℕ) × (ring_get_desc_count v ≡ 2 ^ k)
      × (5 ≤ k)
      × (k ≤ 24)
      × (v + 16 ≤ 2 ^ k)
      × ((2 ^ k ≤ 64) ⊎ (2 ^ k ≤ 2 * (v + 15)))
unfolding ring_get_desc_count
ring_get_desc_count-power v fits = elim (dec_le 32 v) [
  | yes large ↦
      let (top, pos, most, small, least) = highest (v + 15) 24 (omega arith) (omega arith) in
      let count = smear_all top (v + 15) pos (omega arith) small least in
      let here : sub32 (v + 16) 1 ≡ v + 15 = omega arith in
      let narrow : 2 ^ top ≤ 2 ^ 24 =
        pow-le-pow_right {n = 2} (omega arith) {i = top} {j = 24} most in
      let halves : 2 ^ top ≡ 2 * 2 ^ (top - 1) =
        ap (λ t. 2 ^ t) (omega arith) ∙ two-pow-suc (top - 1) in
      let not_short : ltb v 32 ≡ false = le→ltb-false v 32 large in
      (
        top,
        rw (not_short, here, count) (omega arith),
        at_least top (omega arith),
        most,
        omega arith,
        inr (omega arith),
      )
  | no few ↦ (6, ground arith, omega arith, omega arith, omega arith, inl (omega arith))
]
