-- ===== src/FwIo/Crc/Table.antt =====
-- The table-driven checksum is CRC-32C, on every message.
use aws_neuron_driver.Common.{
  ℕ, zero, suc, Bool, true, ◌&&◌, List, [], ◌∷◌, ◌*◌, ◌/◌, ◌%◌, ◌^◌, ◌<◌, ◌≡◌, refl, sym, ap, ◌∙◌,
  arith, bit_xor, ◌==◌, ==_iff, get_or, All,
}
use aws_neuron_driver.Common.Bits.{bit_xor-zero}
use aws_neuron_driver.Common.Masks.{bit_and-mask, bit_xor-fields, bit_xor-shift}
use aws_neuron_driver.FwIo.Crc.{crc32c_table, crc32c_step, dx_crc32c_add, crc32c}
use aws_neuron_driver.FwIo.Crc.Linear.{shift_bits, crc_bitwise, shift_bits-xor, shift_bits-zeros}

all_below : ℕ → (ℕ → Bool) → Bool
all_below zero p = true
all_below (suc n) p = p n && all_below n p

all_below-at : (n : ℕ) (p : ℕ → Bool) (x : ℕ) → all_below n p ≡ true → x < n → p x ≡ true
unfolding all_below
all_below-at zero p x h lt = absurd (omega arith)
all_below-at (suc n) p x h lt = ground (arith, all_below-at n p x)

-- Each of the 256 entries.
table_checked : all_below 256 (λ i. get_or crc32c_table i 0 == shift_bits 8 i) ≡ true
unfolding all_below crc32c_table shift_bits
table_checked = refl

table_entry : (i : ℕ) → i < 256 → get_or crc32c_table i 0 ≡ shift_bits 8 i
table_entry i h =
    (==_iff (get_or crc32c_table i 0) (shift_bits 8 i)).0
      (all_below-at 256 (λ i. get_or crc32c_table i 0 == shift_bits 8 i) i table_checked h)

-- Eight shifts at once: the high bytes move down, the low byte feeds back.
shift_byte : (x : ℕ) → shift_bits 8 x ≡ bit_xor (x / 256) (shift_bits 8 (x % 256))
shift_byte x =
    ap (shift_bits 8) parts
    ∙ shift_bits-xor 8 (x / 256 * 2 ^ 8) (x % 256)
    ∙ ap (λ t. bit_xor t (shift_bits 8 (x % 256))) (shift_bits-zeros 8 (x / 256))
  where
    parts : x ≡ bit_xor (x / 256 * 2 ^ 8) (x % 256)
    parts = omega (arith, bit_xor-fields 8 (x / 256) (x % 256) (omega arith))

crc32c_step-shift_bits :
    (c byte : ℕ) → byte < 256 → crc32c_step c byte ≡ shift_bits 8 (bit_xor c byte)
unfolding crc32c_step
crc32c_step-shift_bits c byte h =
    ap (λ t. bit_xor (c / 2 ^ 8) t)
      (ap (λ t. get_or crc32c_table t 0) (bit_and-mask 8 (bit_xor c byte))
        ∙ table_entry (bit_xor c byte % 256) (omega arith))
    ∙ ap (λ t. bit_xor t (shift_bits 8 (bit_xor c byte % 256))) high
    ∙ sym (shift_byte (bit_xor c byte))
  where
    high : c / 2 ^ 8 ≡ bit_xor c byte / 256
    high = sym (
        bit_xor-shift 8 c byte
        ∙ ap (λ t. bit_xor (c / 2 ^ 8) t) (omega arith)
        ∙ bit_xor-zero (c / 2 ^ 8))

abbrev pub IsBytes : List ℕ → Type 0
IsBytes = All (λ b. b < 256)

dx_crc32c_add-bitwise :
    (bytes : List ℕ) (c : ℕ) → IsBytes bytes → dx_crc32c_add bytes c ≡ crc_bitwise bytes c
unfolding dx_crc32c_add crc_bitwise
dx_crc32c_add-bitwise [] c h = refl
dx_crc32c_add-bitwise (byte ∷ bytes) c h =
    ap (dx_crc32c_add bytes) (crc32c_step-shift_bits c byte h.0)
    ∙ dx_crc32c_add-bitwise bytes (shift_bits 8 (bit_xor c byte)) h.1

-- The table-driven checksum of any list of bytes is its bitwise CRC-32C: a register preset to
-- ones, shifted bit by bit with the reversed Castagnoli polynomial, and complemented at the end.
pub crc32c-bitwise :
    (bytes : List ℕ)
    → IsBytes bytes
    → crc32c bytes ≡ bit_xor (crc_bitwise bytes 0xffffffff) 0xffffffff
unfolding crc32c
crc32c-bitwise bytes h = ap (λ t. bit_xor t 0xffffffff) (dx_crc32c_add-bitwise bytes 0xffffffff h)

-- The check value of the standard, for "123456789".
abbrev digits_message : List ℕ
digits_message = 49 ∷ 50 ∷ 51 ∷ 52 ∷ 53 ∷ 54 ∷ 55 ∷ 56 ∷ 57 ∷ []

check_value : crc32c digits_message ≡ 0xe3069283
unfolding crc32c
check_value = refl
