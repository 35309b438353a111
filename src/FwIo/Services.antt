-- ===== src/FwIo/Services.antt =====
-- What the driver asks of the firmware, v1/fw_io.c: registers, metrics, readiness, reset, and the
-- neighbours of a device.
use aws_neuron_driver.Common.{
  ℕ, zero, suc, Bool, true, false, List, [], ◌∷◌, ◌++◌, Option, none, some, ◌+◌, ◌*◌, ◌%◌, ◌/◌, ◌^◌,
  bit_and, bit_or, u32, ◌==◌, ◌!=◌, if◌then◌else◌, length, M, Outcome, ok, err, bug, ◌>>=◌, ◌>>◌,
  pure, fail, one,
}
use aws_neuron_driver.FwIo.Request.{
  FwEvent, reg_write, msleep, mb, Channel, emit, Firmware, le_bytes, misc_ram_offset, fw_io_trigger,
  execute_request,
}
use aws_neuron_driver.FwIo.Region.{
  Region, CsrRead, too_many, unmapped, request, fw_io_read_csr_array,
}
pub mod Words
pub mod Links

-- FW_IO_CMD_READ and FW_IO_CMD_POST_TO_CW
abbrev pub cmd_read : ℕ
cmd_read = 1

abbrev pub cmd_post_to_cw : ℕ
cmd_post_to_cw = 2

-- The registers in the miscellaneous RAM.
abbrev pub device_ready_offset : ℕ
device_ready_offset = 0x1c

abbrev pub device_id_offset : ℕ
device_id_offset = 0x24

abbrev pub metric_offset : ℕ
metric_offset = 0x100

abbrev reset_offset : ℕ
reset_offset = 0x1ec

-- P_0_APB_MISC_RAM_BASE
abbrev pub p_0_apb_misc_ram_base : ℕ
p_0_apb_misc_ram_base = 0xffff078e000

-- PCIEX4_0_BASE and PCIEX4_1_BASE: the registers of the device to the east and to the west.
abbrev pub pciex4_0_base : ℕ
pciex4_0_base = 0x800000000000

abbrev pub pciex4_1_base : ℕ
pciex4_1_base = 0xc00000000000

-- A little-endian number.
unfoldable pub le_value : List ℕ → ℕ
le_value [] = 0
le_value (b ∷ bytes) = b + 256 * le_value bytes

-- An array of `u64` and one of `u32` as bytes.
unfoldable pub array_bytes : (width : ℕ) → List ℕ → List ℕ
unfolding le_bytes
array_bytes width [] = []
array_bytes width (v ∷ values) = le_bytes width v ++ array_bytes width values

-- The `u32`s of a buffer; what is left at its end makes none.
unfoldable pub u32s : List ℕ → List ℕ
u32s (a ∷ b ∷ c ∷ d ∷ bytes) = le_value (a ∷ b ∷ c ∷ d ∷ []) ∷ u32s bytes
u32s bytes = []

-- A `memcpy` to the front of a buffer that is not shorter.
unfoldable pub overlay : (bytes buffer : List ℕ) → List ℕ
overlay [] buffer = buffer
overlay (b ∷ bytes) [] = []
overlay (b ∷ bytes) (o ∷ buffer) = b ∷ overlay bytes buffer

-- The words of a metric, and after them the rest of it with zeros behind.
unfoldable pub metric_words : List ℕ → List ℕ
metric_words [] = []
metric_words (a ∷ b ∷ c ∷ d ∷ bytes) = le_value (a ∷ b ∷ c ∷ d ∷ []) ∷ metric_words bytes
metric_words rest = le_value rest ∷ []

-- Words to consecutive registers.
unfoldable pub write_words : (offset : ℕ) → List ℕ → M Channel (Unit {0})
write_words offset [] = pure tt
write_words offset (v ∷ values) = do emit (reg_write offset v); write_words (offset + 4) values

-- The value of an array of one element.
abbrev pub only : List ℕ → ℕ
only [] = 0
only (v ∷ values) = v

-- One round of the wait, after the read: `again` is the next round, from what the variable holds.
-- `none` is its `false`.
unfoldable pub ready_or :
    (again : ℕ → M Channel (Option ℕ)) → Outcome Channel (List ℕ) → Outcome Channel (Option ℕ)
ready_or again (ok values c) =
    let next : Outcome Channel (Option ℕ) = again (only values) c in
    if bit_and (only values) 0x80000000 != 0 then ok (some (only values)) c else next
ready_or again (err e c) = ok none c
ready_or again bug = bug

-- Any failure of a read ends `fw_io_topology` with 1.
unfoldable pub or_one : Outcome Channel (List ℕ) → Outcome Channel (List ℕ)
or_one (ok values c) = ok values c
or_one (err e c) = err one c
or_one bug = bug

-- A register in BAR0 by `fw_io_read_csr_array`, for the tests of its callers: `none` where it fails.
-- The context that the table names is that of this channel.
unfoldable read_or_none : Outcome Channel (List ℕ) → Outcome Channel (Option ℕ)
read_or_none (ok values c) = ok (some (only values)) c
read_or_none (err e c) = ok none c
read_or_none bug = bug

abbrev is_zero : Option ℕ → Bool
is_zero none = false
is_zero (some val) = val == 0

abbrev has_ready_bit : Option ℕ → Bool
has_ready_bit none = false
has_ready_bit (some val) = bit_and val 0x80000000 != 0

module _ (fw : Firmware) where
  -- `fw_io_read` and `fw_io_read_counters`: the contents of `values` before the call and after it.
  unfoldable pub fw_io_read : (addrs values : List ℕ) → M Channel (List ℕ)
  unfolding array_bytes u32s overlay execute_request
  fw_io_read addrs values = do
    bytes ← execute_request fw cmd_read (array_bytes 8 addrs) (u32 (4 * length addrs))
    pure (u32s (overlay bytes (array_bytes 4 values)))

  -- `fw_io_post_metric`
  unfoldable pub fw_io_post_metric : (bytes : List ℕ) → M Channel (List ℕ)
  unfolding metric_words write_words execute_request
  fw_io_post_metric bytes = do
    write_words (misc_ram_offset + metric_offset) (metric_words bytes)
    execute_request fw cmd_post_to_cw bytes (length bytes)

  -- `fw_io_wait_for_device_ready` with `rounds` left; `reg_val` is what the variable holds.
  unfoldable pub wait_for_device_ready : (rounds reg_val : ℕ) → M Channel (Option ℕ)
  unfolding ready_or fw_io_read
  wait_for_device_ready zero reg_val = pure none
  wait_for_device_ready (suc rounds) reg_val = λ c.
      let addr : ℕ = p_0_apb_misc_ram_base + device_ready_offset in
      ready_or (λ v. do emit (msleep 1000); wait_for_device_ready rounds v)
        (fw_io_read (addr ∷ []) (reg_val ∷ []) c)

  -- The neighbour behind a link, if the link is up: its entry held -1 before.
  unfoldable pub link_id : (up : Bool) (base : ℕ) → M Channel (List ℕ)
  unfolding or_one fw_io_read
  link_id false base = pure []
  link_id true base = λ c.
      let addr : ℕ = bit_or base (p_0_apb_misc_ram_base + device_id_offset) in
      or_one (fw_io_read (addr ∷ []) (0xffffffff ∷ []) c)

  unfoldable pub neighbours : Option ℕ → M Channel (List ℕ)
  unfolding link_id
  neighbours none = fail one
  neighbours (some reg_val) = do
    east ← link_id (bit_and reg_val 1 != 0) pciex4_0_base
    west ← link_id (bit_and reg_val 2 != 0) pciex4_1_base
    pure (east ++ west)

  -- `fw_io_topology`: the ids that it stores at the front of `device_ids`, whose other entries are -1;
  -- `count` is how many they are, and 0 where it fails. `reg_val` is not initialized.
  unfoldable pub fw_io_topology : (reg_val : ℕ) → M Channel (List ℕ)
  unfolding wait_for_device_ready neighbours
  fw_io_topology reg_val = do ready ← wait_for_device_ready 60 reg_val; neighbours ready

  unfoldable read_csr : CsrRead → (val : ℕ) → M Channel (Option ℕ)
  unfolding read_or_none fw_io_read
  read_csr too_many val = pure none
  read_csr unmapped val = pure none
  read_csr (request ctx addrs) val = λ c. read_or_none (fw_io_read addrs (val ∷ []) c)

  -- `fw_io_is_reset_initiated`; `val` is not initialized.
  unfoldable pub fw_io_is_reset_initiated : List (Option Region) → (bar0 val : ℕ) → M Channel Bool
  unfolding read_csr fw_io_read_csr_array
  fw_io_is_reset_initiated slots bar0 val = do
    read ← read_csr (fw_io_read_csr_array slots (bar0 + misc_ram_offset + reset_offset) []) val
    pure (is_zero read)

  -- `fw_io_is_device_ready`; `val` is not initialized.
  unfoldable pub fw_io_is_device_ready : List (Option Region) → (bar0 val : ℕ) → M Channel Bool
  unfolding read_csr fw_io_read_csr_array
  fw_io_is_device_ready slots bar0 val = do
    read ←
        read_csr (fw_io_read_csr_array slots (bar0 + misc_ram_offset + device_ready_offset) []) val
    pure (has_ready_bit read)

-- `fw_io_initiate_reset`
unfoldable pub fw_io_initiate_reset : M Channel (Unit {0})
unfolding fw_io_trigger
fw_io_initiate_reset = do
  emit (reg_write (misc_ram_offset + reset_offset) 1)
  emit mb
  fw_io_trigger
