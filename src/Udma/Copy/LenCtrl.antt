-- ===== src/Udma/Copy/LenCtrl.antt =====
-- The first word of a descriptor as a sum of its fields.
use aws_neuron_driver.Common.{
  ℕ, zero, suc, Bool, true, false, ◌+◌, ◌*◌, ◌%◌, ◌^◌, ◌≤◌, ◌<◌, ◌≡◌, refl, bit_and, bit_or, arith,
  u32, ◌<<<◌,
}
use aws_neuron_driver.Common.Masks.{bit_and-mask, bit_or-fields}
use aws_neuron_driver.Udma.Copy.{len_ctrl, tx_flags, rx_flags, encoded_size}

-- The flag bits of a transmit descriptor, as a number.
abbrev pub tx_bits : Bool → ℕ
tx_bits true = 2 ^ 30 + 2 ^ 27 + 2 ^ 26
tx_bits false = 2 ^ 27 + 2 ^ 26

abbrev pub rx_bits : Bool → ℕ
rx_bits true = 2 ^ 28
rx_bits false = 0

tx_or :
    (dmb : Bool) (id : ℕ)
    → id < 4
    → bit_or (tx_flags dmb) (u32 (id <<< 24)) ≡ tx_bits dmb + id * 2 ^ 24
tx_or true zero h = refl
tx_or true (suc zero) h = refl
tx_or true (suc (suc zero)) h = refl
tx_or true (suc (suc (suc zero))) h = refl
tx_or true (suc (suc (suc (suc n)))) h = absurd (omega arith)
tx_or false zero h = refl
tx_or false (suc zero) h = refl
tx_or false (suc (suc zero)) h = refl
tx_or false (suc (suc (suc zero))) h = refl
tx_or false (suc (suc (suc (suc n)))) h = absurd (omega arith)

rx_or :
    (int : Bool) (id : ℕ)
    → id < 4
    → bit_or (rx_flags int) (u32 (id <<< 24)) ≡ rx_bits int + id * 2 ^ 24
rx_or true zero h = refl
rx_or true (suc zero) h = refl
rx_or true (suc (suc zero)) h = refl
rx_or true (suc (suc (suc zero))) h = refl
rx_or true (suc (suc (suc (suc n)))) h = absurd (omega arith)
rx_or false zero h = refl
rx_or false (suc zero) h = refl
rx_or false (suc (suc zero)) h = refl
rx_or false (suc (suc (suc zero))) h = refl
rx_or false (suc (suc (suc (suc n)))) h = absurd (omega arith)

-- The size that both levels of the code store: 64K becomes 0.
stored_size : (size : ℕ) → size ≤ 65536 → bit_and (encoded_size size) 0xfffff ≡ size % 65536
stored_size size h = ground (arith, bit_and-mask 20 (encoded_size size))

-- The fields above bit 20 and the length below it.
with_length : (top q len : ℕ) → top ≡ q * 2 ^ 20 → len < 65536 → bit_or top len ≡ top + len
with_length top q len e h = rw e (bit_or-fields 20 q len (omega arith))

-- For a ring id below 4 and at most 64K the first word of a transmit descriptor is the sum of its
-- flags, the ring id from bit 24 on and the length, 0 for 64K.
pub tx_len_ctrl :
    (dmb : Bool) (id size : ℕ)
    → id < 4
    → size ≤ 65536
    → len_ctrl (tx_flags dmb) id size ≡ tx_bits dmb + id * 2 ^ 24 + size % 65536
unfolding len_ctrl
tx_len_ctrl true id size hid hsize =
    rw (tx_or true id hid, stored_size size hsize)
      (with_length _ (1024 + 128 + 64 + id * 16) (size % 65536) (omega arith) (omega arith))
tx_len_ctrl false id size hid hsize =
    rw (tx_or false id hid, stored_size size hsize)
      (with_length _ (128 + 64 + id * 16) (size % 65536) (omega arith) (omega arith))

-- For a ring id below 4 and at most 64K the first word of a receive descriptor is the sum of its
-- interrupt bit, the ring id from bit 24 on and the length, 0 for 64K.
pub rx_len_ctrl :
    (int : Bool) (id size : ℕ)
    → id < 4
    → size ≤ 65536
    → len_ctrl (rx_flags int) id size ≡ rx_bits int + id * 2 ^ 24 + size % 65536
unfolding len_ctrl
rx_len_ctrl true id size hid hsize =
    rw (rx_or true id hid, stored_size size hsize)
      (with_length _ (256 + id * 16) (size % 65536) (omega arith) (omega arith))
rx_len_ctrl false id size hid hsize =
    rw (rx_or false id hid, stored_size size hsize)
      (with_length _ (id * 16) (size % 65536) (omega arith) (omega arith))
