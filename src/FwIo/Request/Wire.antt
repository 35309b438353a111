-- ===== src/FwIo/Request/Wire.antt =====
-- What the other end can read out of a request: an independent reader of the wire format that checks
-- the size and a bitwise CRC-32C.
use aws_neuron_driver.Common.{
  ℕ, ◌&&◌, List, [], ◌∷◌, Option, none, some, ◌+◌, ◌*◌, ◌/◌, ◌%◌, ◌^◌, ◌<◌, ◌≡◌, refl, ap, sym, ◌∙◌,
  arith, bit_xor, ◌==◌, eq→==, if◌then◌else◌, length,
}
use aws_neuron_driver.FwIo.Crc.{crc32c}
use aws_neuron_driver.FwIo.Crc.Linear.{crc_bitwise}
use aws_neuron_driver.FwIo.Crc.Table.{IsBytes, crc32c-bitwise}
use aws_neuron_driver.FwIo.Crc.Width.{crc32c-lt}
use aws_neuron_driver.FwIo.Request.{encode, make_request, first_bytes, le_bytes}

pub record Message : Type 0 where
  pub seq : ℕ
  pub command_id : ℕ
  pub payload : List ℕ

-- The reader: little-endian fields, size of the whole message, checksum over the message with the
-- checksum field 0.
unfoldable pub read_message : List ℕ → Option Message
read_message (seq ∷ command_id ∷ s0 ∷ s1 ∷ c0 ∷ c1 ∷ c2 ∷ c3 ∷ payload) =
    let whole : List ℕ = seq ∷ command_id ∷ s0 ∷ s1 ∷ 0 ∷ 0 ∷ 0 ∷ 0 ∷ payload in
    let crc : ℕ = c0 + 256 * c1 + 65536 * c2 + 16777216 * c3 in
    if (s0 + 256 * s1 == length whole) && (bit_xor (crc_bitwise whole 0xffffffff) 0xffffffff == crc)
    then some (record { seq = seq; command_id = command_id; payload = payload })
    else none
read_message _ = none

first_bytes-all : (bytes : List ℕ) → first_bytes (length bytes) bytes ≡ bytes
unfolding first_bytes
first_bytes-all [] = refl
first_bytes-all (b ∷ bytes) = ap (λ t. b ∷ t) (first_bytes-all bytes)

four_bytes :
    (n : ℕ)
    → n < 2 ^ 32
    → n
      ≡ n % 256
        + 256 * (n / 256 % 256)
        + 65536 * (n / 256 / 256 % 256)
        + 16777216 * (n / 256 / 256 / 256 % 256)
four_bytes n h = omega arith

module _ (seq command_id : ℕ) (payload : List ℕ) (seq_byte : seq < 256)
    (command_byte : command_id < 256) (bytes : IsBytes payload)
    (short : length payload + 8 < 2 ^ 16) where
  abbrev size : ℕ
  size = (length payload + 8) % 2 ^ 16

  abbrev zeroed : List ℕ
  zeroed = seq ∷ command_id ∷ size % 256 ∷ size / 256 % 256 ∷ 0 ∷ 0 ∷ 0 ∷ 0 ∷ payload

  zeroed-IsBytes : IsBytes zeroed
  zeroed-IsBytes = (
    seq_byte,
    (
      command_byte,
      (
        omega arith,
        (omega arith, (omega arith, (omega arith, (omega arith, (omega arith, bytes))))),
      ),
    ),
  )

  checksum : crc32c (first_bytes size (encode seq command_id size 0 payload)) ≡ crc32c zeroed
  unfolding encode le_bytes
  checksum = ap crc32c (ap (λ t. first_bytes t zeroed) (omega arith) ∙ first_bytes-all zeroed)

  -- A request made of a byte number, a byte command and a payload of bytes shorter than 65528 is
  -- read back in full, number, command and payload, by a reader that checks the size and a
  -- bitwise CRC-32C.
  pub read_message-make_request :
      read_message (make_request seq command_id payload)
      ≡ some (record { seq = seq; command_id = command_id; payload = payload })
  unfolding make_request read_message encode le_bytes
  read_message-make_request =
      let crc : ℕ = crc32c zeroed in
      let narrow : crc < 2 ^ 32 = crc32c-lt zeroed zeroed-IsBytes in
      let whole : size % 256 + 256 * (size / 256 % 256) ≡ length zeroed = omega arith in
      let sum : bit_xor (crc_bitwise zeroed 0xffffffff) 0xffffffff
          ≡ crc % 256
            + 256 * (crc / 256 % 256)
            + 65536 * (crc / 256 / 256 % 256)
            + 16777216 * (crc / 256 / 256 / 256 % 256) =
        sym (crc32c-bitwise zeroed zeroed-IsBytes) ∙ four_bytes crc narrow in
      rw (checksum, eq→== _ _ whole, eq→== _ _ sum) refl
