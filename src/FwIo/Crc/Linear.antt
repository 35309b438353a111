-- ===== src/FwIo/Crc/Linear.antt =====
-- The bitwise definition of CRC-32C, which the table speeds up, and its linearity.
use aws_neuron_driver.Common.{
  ℕ, zero, suc, List, [], ◌∷◌, ◌+◌, ◌*◌, ◌/◌, ◌%◌, ◌^◌, ◌≡◌, refl, sym, ap, ◌∙◌, arith, bit_xor,
  ◌==◌, if◌then◌else◌,
}
use aws_neuron_driver.Common.Arith.{two-pow-suc}
use aws_neuron_driver.Common.Bits.{
  bit_xor-half, bit_xor-parity, bit_xor_comm, bit_xor_assoc, bit_xor-zero, zero-bit_xor,
  bit_xor_self,
}

-- The polynomial of Castagnoli, lowest power first.
abbrev pub castagnoli : ℕ
castagnoli = 0x82f63b78

-- One bit of the message is shifted out.
unfoldable pub shift_bit : ℕ → ℕ
shift_bit c = bit_xor (c / 2) (if c % 2 == 1 then castagnoli else 0)

unfoldable pub shift_bits : ℕ → ℕ → ℕ
unfolding shift_bit
shift_bits zero c = c
shift_bits (suc n) c = shift_bits n (shift_bit c)

-- The bitwise CRC register after a message.
unfoldable pub crc_bitwise : List ℕ → ℕ → ℕ
unfolding shift_bits
crc_bitwise [] c = c
crc_bitwise (byte ∷ bytes) c = crc_bitwise bytes (shift_bits 8 (bit_xor c byte))

-- Exclusive ors regroup.
xor_swap : (a b c d : ℕ) → bit_xor (bit_xor a b) (bit_xor c d) ≡ bit_xor (bit_xor a c) (bit_xor b d)
xor_swap a b c d =
    bit_xor_assoc a b (bit_xor c d)
    ∙ ap (λ t. bit_xor a t)
        (sym (bit_xor_assoc b c d) ∙ ap (λ t. bit_xor t d) (bit_xor_comm b c) ∙ bit_xor_assoc c b d)
    ∙ sym (bit_xor_assoc a c (bit_xor b d))

abbrev feedback : ℕ → ℕ
feedback p = if p == 1 then castagnoli else 0

feedback-xor : (a b : ℕ) → feedback ((a + b) % 2) ≡ bit_xor (feedback (a % 2)) (feedback (b % 2))
feedback-xor a b = ground (
  arith,
  bit_xor_self castagnoli,
  bit_xor-zero castagnoli,
  zero-bit_xor castagnoli,
  bit_xor_self 0,
)

shift_bit-xor : (a b : ℕ) → shift_bit (bit_xor a b) ≡ bit_xor (shift_bit a) (shift_bit b)
unfolding shift_bit
shift_bit-xor a b =
    ap (λ t. bit_xor t (feedback (bit_xor a b % 2))) (bit_xor-half a b)
    ∙ ap (λ t. bit_xor (bit_xor (a / 2) (b / 2)) t)
        (ap feedback (bit_xor-parity a b) ∙ feedback-xor a b)
    ∙ xor_swap (a / 2) (b / 2) (feedback (a % 2)) (feedback (b % 2))

pub shift_bits-xor :
    (n a b : ℕ) → shift_bits n (bit_xor a b) ≡ bit_xor (shift_bits n a) (shift_bits n b)
unfolding shift_bits
shift_bits-xor zero a b = refl
shift_bits-xor (suc n) a b =
    ap (shift_bits n) (shift_bit-xor a b) ∙ shift_bits-xor n (shift_bit a) (shift_bit b)

shift_bit-even : (y : ℕ) → shift_bit (y * 2) ≡ y
unfolding shift_bit
shift_bit-even y = ground (arith, bit_xor-zero (y * 2 / 2))

-- Zero bits shift out without feedback.
pub shift_bits-zeros : (n y : ℕ) → shift_bits n (y * 2 ^ n) ≡ y
unfolding shift_bits
shift_bits-zeros zero y = omega arith
shift_bits-zeros (suc n) y =
    ap (shift_bits n) (ap shift_bit (split y n) ∙ shift_bit-even (y * 2 ^ n)) ∙ shift_bits-zeros n y
  where
    split : (y n : ℕ) → y * 2 ^ suc n ≡ y * 2 ^ n * 2
    split y n = omega (arith, ap (λ (t : ℕ). y * t) (two-pow-suc n))
