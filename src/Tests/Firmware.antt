-- ===== src/Tests/Firmware.antt =====
-- Requests to a firmware that answers every request, and to one that never does.
use aws_neuron_driver.Common.{
  ℕ, List, [], ◌∷◌, none, some, Option, ◌≤◌, ◌≡◌, ◌≢◌, refl, bit_xor, length, arith,
}
use aws_neuron_driver.FwIo.Crc.{crc32c}
use aws_neuron_driver.FwIo.Crc.Linear.{crc_bitwise}
use aws_neuron_driver.FwIo.Crc.Table.{IsBytes, crc32c-bitwise}
use aws_neuron_driver.FwIo.Request.{FwEvent, Firmware, Channel, bump_seq, make_request, seq_read}
use aws_neuron_driver.FwIo.Request.Laws.{posted}
use aws_neuron_driver.FwIo.Request.Wire.{read_message, read_message-make_request}
use aws_neuron_driver.FwIo.Region.{Region, request, fw_io_read_csr_array, max_read_count}
use aws_neuron_driver.FwIo.Region.Laws.{Within, translated, InUse, fw_io_read_csr_array_sound}

abbrev payload : List ℕ
payload = 0x12 ∷ 0xff ∷ 0x00 ∷ 0x80 ∷ []

payload-IsBytes : IsBytes payload
payload-IsBytes = (omega arith, (omega arith, (omega arith, (omega arith, tt))))

crc32c-bitwise_example : crc32c payload ≡ bit_xor (crc_bitwise payload 0xffffffff) 0xffffffff
crc32c-bitwise_example = crc32c-bitwise payload payload-IsBytes

read_message-make_request_example :
    read_message (make_request 7 1 payload)
    ≡ some (record { seq = 7; command_id = 1; payload = payload })
read_message-make_request_example =
    read_message-make_request 7 1 payload (omega arith) (omega arith) payload-IsBytes (omega arith)

-- A channel that has sent nothing.
abbrev pub fresh : Channel
fresh = record {
  ctx = record {
    next_seq_num = 1;
    request_addr = 0x1000;
    response_addr = 0x20000;
    request_response_size = 65535;
  };
  trace = [];
}

abbrev pub answers : Firmware
answers = record { sequence_number = λ t. 2; error_code = λ t. 0; size = λ t. 8; byte = λ t n. n }

abbrev mute : Firmware
mute = record answers { sequence_number = λ t. 0 }

number : 2 ≡ bump_seq 1
unfolding bump_seq
number = refl

never : (s : List FwEvent) → mute.sequence_number s ≢ bump_seq 1
unfolding bump_seq
never s = positive
  where
    positive : ◌≢◌ {A = ℕ} 0 2
    positive = omega arith

abbrev after : Channel
after = record {
  ctx = record fresh.ctx { next_seq_num = 2 };
  trace = seq_read ∷ (posted 1 payload fresh).trace;
}

abbrev bar0 : Region
bar0 = record {
  ctx = 1;
  region_ptr_start = 0x10000000;
  region_ptr_end = 0x18000000;
  device_physical_address = 0xffff0000000;
}

abbrev bar2 : Region
bar2 = record {
  ctx = 1;
  region_ptr_start = 0x20000000;
  region_ptr_end = 0x30000000;
  device_physical_address = 0xfffc0000000;
}

abbrev slots : List (Option Region)
slots = some bar0 ∷ none ∷ none ∷ []

abbrev slots_after : List (Option Region)
slots_after = some bar0 ∷ some bar2 ∷ none ∷ []

abbrev more : List ℕ
more = 0x20000010 ∷ []

abbrev addrs : List ℕ
addrs = 0xfffc0000004 ∷ 0xfffc0000010 ∷ []

asked : fw_io_read_csr_array slots_after 0x20000004 more ≡ request 1 addrs
unfolding fw_io_read_csr_array
asked = refl

fw_io_read_csr_array_sound_example :
    (length (0x20000004 ∷ more) ≤ max_read_count)
    × ((region : Region) × (InUse region slots_after
          × ((region.ctx ≡ 1)
              × (Within region (0x20000004 ∷ more)
                  × (addrs ≡ translated region (0x20000004 ∷ more))))))
fw_io_read_csr_array_sound_example =
    fw_io_read_csr_array_sound slots_after 0x20000004 more 1 addrs asked
