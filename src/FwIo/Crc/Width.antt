-- ===== src/FwIo/Crc/Width.antt =====
-- A checksum is a 32-bit word.
use aws_neuron_driver.Common.{
  ℕ, zero, suc, List, [], ◌∷◌, ◌/◌, ◌%◌, ◌^◌, ◌<◌, ◌≡◌, ap, ◌∙◌, arith, bit_xor, ◌==◌,
  if◌then◌else◌,
}
use aws_neuron_driver.Common.Masks.{bit_xor-shift}
use aws_neuron_driver.FwIo.Crc.{crc32c}
use aws_neuron_driver.FwIo.Crc.Linear.{shift_bit, shift_bits, crc_bitwise, castagnoli}
use aws_neuron_driver.FwIo.Crc.Table.{IsBytes, crc32c-bitwise}

bit_xor-lt : (a b : ℕ) → a < 2 ^ 32 → b < 2 ^ 32 → bit_xor a b < 2 ^ 32
bit_xor-lt a b ha hb =
    let none_a : a / 2 ^ 32 ≡ 0 = omega arith in
    let none_b : b / 2 ^ 32 ≡ 0 = omega arith in
    let high : bit_xor a b / 2 ^ 32 ≡ bit_xor 0 0 =
      bit_xor-shift 32 a b
      ∙ ap (λ t. bit_xor t (b / 2 ^ 32)) none_a
      ∙ ap (λ t. bit_xor 0 t) none_b in
    let high_zero : bit_xor a b / 2 ^ 32 ≡ 0 = high in omega arith

shift_bit-lt : (c : ℕ) → c < 2 ^ 32 → shift_bit c < 2 ^ 32
unfolding shift_bit
shift_bit-lt c h =
    bit_xor-lt (c / 2) (if c % 2 == 1 then castagnoli else 0) (omega arith) (ground arith)

shift_bits-lt : (n c : ℕ) → c < 2 ^ 32 → shift_bits n c < 2 ^ 32
unfolding shift_bits
shift_bits-lt zero c h = h
shift_bits-lt (suc n) c h = shift_bits-lt n (shift_bit c) (shift_bit-lt c h)

crc_bitwise-lt :
    (bytes : List ℕ) (c : ℕ) → IsBytes bytes → c < 2 ^ 32 → crc_bitwise bytes c < 2 ^ 32
unfolding crc_bitwise
crc_bitwise-lt [] c b h = h
crc_bitwise-lt (x ∷ bytes) c b h =
    crc_bitwise-lt bytes (shift_bits 8 (bit_xor c x)) b.1
      (shift_bits-lt 8 (bit_xor c x) (bit_xor-lt c x h (omega arith)))

pub crc32c-lt : (bytes : List ℕ) → IsBytes bytes → crc32c bytes < 2 ^ 32
crc32c-lt bytes b = rw (crc32c-bitwise bytes b) (
    bit_xor-lt (crc_bitwise bytes 0xffffffff) 0xffffffff
      (crc_bitwise-lt bytes 0xffffffff b (omega arith)) (omega arith))
