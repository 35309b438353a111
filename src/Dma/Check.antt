-- ===== src/Dma/Check.antt =====
-- The check of the addresses in descriptors that a process hands over, neuron_dma.c:
-- `ndma_is_valid_host_mem` and the loop of `ndma_memcpy_dma_copy_descriptors`. The devices are those
-- that `neuron_pci_get_device` of neuron_pci.c returns.
use aws_neuron_driver.Common.{
  ℕ, zero, suc, Bool, true, false, Option, none, some, List, [], ◌∷◌, ◌+◌, ◌-◌, ◌^◌, ◌&&◌, ◌||◌,
  not, bit_and, bit_xor, u8, sub32, ◌==◌, ◌!=◌, leb, ltb, if◌then◌else◌, Errno, einval, minus_one,
}
use aws_neuron_driver.Mempool.{Chunk, Tree, search_mc}
use aws_neuron_driver.Rings.{QueueType, type_tx, type_rx, type_completion}
use aws_neuron_driver.Dma.{pciex8_0_base}
pub mod Hosts
pub mod Descs

-- PCIEX4_1_BASE
abbrev pciex4_1_base : ℕ
pciex4_1_base = 0x00c00000000000

-- MAX_NEURON_DEVICE_COUNT
abbrev pub max_devices : ℕ
max_devices = 16

-- What the check reads of a `struct neuron_device`.
pub record NeuronDevice : Type 0 where
  pub device_index : ℕ
  pub current_pid : ℕ
  pub root : Tree

abbrev pub is_some {ℓ} : {A : Type ℓ} → Option A → Bool
is_some none = false
is_some (some a) = true

-- The part of `ndma_is_valid_host_mem_from_nd` after the look-up.
unfoldable pub owned_by : (pid : ℕ) → Option NeuronDevice → (pa : ℕ) → Bool
owned_by pid none pa = false
owned_by pid (some nd) pa = (pid == nd.current_pid) && is_some (search_mc nd.root pa)

module _ (devices : ℕ → Option NeuronDevice) where
  -- `ndma_is_valid_host_mem_from_nd`; its index is a `u8`.
  unfoldable pub valid_from_nd : (pid nd_index pa : ℕ) → Bool
  unfolding owned_by
  valid_from_nd pid nd_index pa =
      if leb max_devices (u8 nd_index) then false else owned_by pid (devices (u8 nd_index)) pa

  -- `i >= nd->device_index - 1 && i <= nd->device_index + 1`, on `int`
  abbrev pub is_checked : (index i : ℕ) → Bool
  is_checked index i = leb index (i + 1) && leb i (index + 1)

  -- The loop over all devices, `n` rounds of it from `i` on.
  unfoldable pub check_devices : (index pid pa i n : ℕ) → Bool
  unfolding valid_from_nd
  check_devices index pid pa i zero = false
  check_devices index pid pa i (suc n) =
      let later : Bool = check_devices index pid pa (i + 1) n in
      if is_checked index i then later else if valid_from_nd pid i pa then true else later

  -- `ndma_is_valid_host_mem`; 255 stands for -1 on `u8`.
  unfoldable pub is_valid_host_mem : NeuronDevice → (pa : ℕ) → Bool
  unfolding valid_from_nd check_devices
  is_valid_host_mem nd pa =
      if valid_from_nd nd.current_pid nd.device_index pa
      then true
      else if valid_from_nd nd.current_pid (nd.device_index + 255) pa
      then true
      else if valid_from_nd nd.current_pid (nd.device_index + 1) pa
      then true
      else check_devices nd.device_index nd.current_pid pa 0 max_devices

  -- Whether the address is taken for one of host memory: the host's bit, without the west side's.
  abbrev names_host : (pa : ℕ) → Bool
  names_host pa =
      (bit_and pa pciex8_0_base == pciex8_0_base) && (bit_and pa pciex4_1_base != pciex4_1_base)

  -- The address that is looked up, without the host's bit.
  abbrev host_part : (pa : ℕ) → ℕ
  host_part pa = bit_and pa (2 ^ 64 - 1 - pciex8_0_base)

  -- The body of the loop does not refuse the address.
  unfoldable admits : NeuronDevice → (pa : ℕ) → Bool
  unfolding is_valid_host_mem
  admits nd pa = if names_host pa then is_valid_host_mem nd (host_part pa) else true

-- A descriptor as the two kinds of queues read it.
pub record DescAddrs : Type 0 where
  pub tx_buf_ptr : ℕ
  pub rx_buf1_ptr : ℕ

-- What the check of a buffer of descriptors comes to; `running` is a loop that has not ended yet.
pub data Checked : Type 0 where
  accepted running : Checked
  refused : Errno → Checked

abbrev pub addr_of : QueueType → DescAddrs → Option ℕ
addr_of type_tx d = some d.tx_buf_ptr
addr_of type_rx d = some d.rx_buf1_ptr
addr_of type_completion d = none

module _ (devices : ℕ → Option NeuronDevice) (nd : NeuronDevice) where
  -- One round: -1 for another type of queue, -EINVAL for an address that is not admitted.
  unfoldable pub check_addr : Option ℕ → Checked → Checked
  unfolding admits
  check_addr none rest = refused minus_one
  check_addr (some pa) rest = if admits devices nd pa then rest else refused einval

  -- The loop of `ndma_memcpy_dma_copy_descriptors` at descriptor `j` of the buffer, with `curr_size`
  -- bytes to go; the fuel bounds its rounds.
  unfoldable pub check_descs :
      (fuel : ℕ) (type : QueueType) (buffer : ℕ → DescAddrs) (j curr_size : ℕ) → Checked
  unfolding check_addr
  check_descs zero type buffer j curr_size = running
  check_descs (suc fuel) type buffer j curr_size =
      let rest : Checked = check_descs fuel type buffer (j + 1) (sub32 curr_size 16) in
      if curr_size == 0 then accepted else check_addr (addr_of type (buffer j)) rest
