-- ===== src/Dma/QueueState.antt =====
-- The state of a queue as the hardware reports it, `ndmar_queue_read_state` and `ndmar_queue_get_state` of
-- neuron_dma.c. A read that fails leaves a result that no caller reads, so only a whole one is kept.
use aws_neuron_driver.Common.{
  ℕ, ◌+◌, ◌*◌, ◌^◌, bit_and, bit_or, ◌<<<◌, u64, M, ok, ◌>>=◌, ◌>>◌, pure,
}
use aws_neuron_driver.Udma.Types.{
  UdmaType, tx, rx, QueueStatus, Engine, Host, queue_reg, QueueReg, queue,
}
use aws_neuron_driver.Udma.Setup.{read_or_eio}
use aws_neuron_driver.Mempool.{Kernel}
use aws_neuron_driver.Rings.{on_udma}
use aws_neuron_driver.Rings.Device.{Device, on_engine}
pub mod ReadBack

-- `struct neuron_dma_queue_state`
pub record QueueState : Type 0 where
  hw_status : ℕ
  pub sw_status : QueueStatus
  pub base_addr : ℕ
  pub length : ℕ
  head_pointer : ℕ
  tail_pointer : ℕ
  completion_base_addr : ℕ
  completion_head : ℕ

-- UDMA_M2S_Q_TDRL_OFFSET_MASK, and the masks of the pointers, which are the same
abbrev pub offset_mask : ℕ
offset_mask = 0x00FFFFFF

-- UDMA_M2S_Q_TDRBP_LOW_ADDR_MASK
abbrev pub low_addr_mask : ℕ
low_addr_mask = 0xFFFFFFC0

-- The result from the words that were read. The high word of the base is read into the low half of
-- the result and shifted, so nothing of the old result stays.
unfoldable pub state_of :
    QueueStatus → (hw_status drl base_high base_low high low drhp drtp crhp : ℕ) → QueueState
state_of sw_status hw_status drl base_high base_low high low drhp drtp crhp = record {
  hw_status = hw_status;
  sw_status = sw_status;
  base_addr = bit_or (u64 (base_high <<< 32)) (bit_and base_low low_addr_mask);
  length = bit_and drl offset_mask;
  head_pointer = bit_and drhp offset_mask;
  tail_pointer = bit_and drtp offset_mask;
  completion_base_addr = bit_or (u64 (high <<< 32)) low;
  completion_head = bit_and crhp offset_mask;
}

module _ (h : Host) where
  -- `ndmar_queue_read_state` of the queue `qid` of one direction
  unfoldable pub queue_read_state : UdmaType → (qid : ℕ) → M Engine QueueState
  unfolding read_or_eio state_of
  queue_read_state t qid = λ m.
      let sw_status : QueueStatus = (queue m.udma t qid).status in
      (do
        hw_status ← read_or_eio h (queue_reg t qid QueueReg.status)
        drl ← read_or_eio h (queue_reg t qid QueueReg.drl)
        base_high ← read_or_eio h (queue_reg t qid QueueReg.drbp_high)
        base_low ← read_or_eio h (queue_reg t qid QueueReg.drbp_low)
        high ← read_or_eio h (queue_reg t qid QueueReg.crbp_high)
        low ← read_or_eio h (queue_reg t qid QueueReg.crbp_low)
        drhp ← read_or_eio h (queue_reg t qid QueueReg.drhp)
        drtp ← read_or_eio h (queue_reg t qid QueueReg.drtp)
        crhp ← read_or_eio h (queue_reg t qid QueueReg.crhp)
        pure (state_of sw_status hw_status drl base_high base_low high low drhp drtp crhp))
        m

-- `ndmar_queue_get_state`, for an engine and a queue of the arrays: their numbers are not checked.
unfoldable pub queue_get_state :
    {G K : Type 0}
    → Kernel G K
    → (ℕ → Host)
    → (eng_id qid : ℕ) → M (Device G K) (QueueState × QueueState)
unfolding queue_read_state
queue_get_state k hosts eng_id qid = do
  tx_state ← on_engine k eng_id (on_udma (queue_read_state (hosts eng_id) tx qid))
  rx_state ← on_engine k eng_id (on_udma (queue_read_state (hosts eng_id) rx qid))
  pure (tx_state, rx_state)
