-- ===== src/Udma/Ring.antt =====
-- The descriptor ring of a queue, the inline functions of udma/udma.h. Their arguments are entries
-- of an engine's arrays, so that the checks for NULL never fire.
use aws_neuron_driver.Common.{
  ℕ, List, [], ◌∷◌, Option, none, some, ◌+◌, ◌*◌, ◌%◌, ◌^◌, bit_and, u32, sub32, ◌==◌,
  if◌then◌else◌,
}
use aws_neuron_driver.Udma.Types.{UdmaQ}
pub mod View
pub mod Pair
pub mod Alloc
pub mod Ack

-- UDMA_MAX_NUM_CDESC_PER_CACHE_LINE
abbrev pub max_num_cdesc_per_cache_line : ℕ
max_num_cdesc_per_cache_line = 16

-- sizeof(union udma_desc)
abbrev desc_bytes : ℕ
desc_bytes = 16

-- DMA_RING_ID_MASK
abbrev dma_ring_id_mask : ℕ
dma_ring_id_mask = 3

-- `udma_available_get`
unfoldable pub available_get : UdmaQ → ℕ
available_get q =
    bit_and (sub32 q.next_cdesc_idx (u32 (q.next_desc_idx + max_num_cdesc_per_cache_line)))
      q.size_mask

-- `udma_desc_get`: the descriptor's address, `none` for NULL.
unfoldable pub desc_get : UdmaQ → Option ℕ × UdmaQ
desc_get q = if q.is_allocatable == 0 then (none, q) else (
  some (q.desc_base_ptr + desc_bytes * q.next_desc_idx),
  record q { next_desc_idx = bit_and (u32 (q.next_desc_idx + 1)) q.size_mask },
)

-- `udma_ring_id_get`
unfoldable pub ring_id_get : UdmaQ → ℕ × UdmaQ
ring_id_get q = (
  q.desc_ring_id,
  if q.next_desc_idx == 0
      then record q { desc_ring_id = bit_and (u32 (q.desc_ring_id + 1)) dma_ring_id_mask }
      else q,
)

-- The index that `udma_cdesc_ack` stores.
abbrev ack_index : ℕ → ℕ → ℕ → ℕ
ack_index mask idx num = bit_and (u32 (idx + num)) mask

-- Acknowledgements by other CPUs, in turn.
unfoldable pub acked_by : (mask : ℕ) → List ℕ → (cell : ℕ) → ℕ
acked_by mask [] cell = cell
acked_by mask (n ∷ others) cell = acked_by mask others (ack_index mask cell n)

-- The loop of `udma_cdesc_ack` with the loaded index `idx`, at a cell that other CPUs acknowledge
-- on too: before each compare-and-swap the next number of `others` is acknowledged by one of them.
-- The swap succeeds if the cell still holds `idx`; otherwise the index is loaded again.
unfoldable pub ack_loop : (mask num : ℕ) → List ℕ → (idx cell : ℕ) → ℕ
unfolding acked_by
ack_loop mask num [] idx cell =
    if cell == idx then ack_index mask idx num else ack_index mask cell num
ack_loop mask num (n ∷ others) idx cell =
    let cell' = ack_index mask cell n in
    let retry = ack_loop mask num others cell' cell' in
    if cell' == idx then acked_by mask others (ack_index mask idx num) else retry

-- `udma_cdesc_ack` with no other CPU at work.
unfoldable pub cdesc_ack : UdmaQ → ℕ → UdmaQ
unfolding ack_loop
cdesc_ack q num = record q {
  next_cdesc_idx = ack_loop q.size_mask num [] q.next_cdesc_idx q.next_cdesc_idx;
}
