-- ===== src/Cdev/Engines.antt =====
-- Commands on engines and their queues, neuron_cdev.c, after their argument is there. The status of a copy
-- to the user's memory is an argument; a handle is the chunk that it points to.
use aws_neuron_driver.Common.{ℕ, Option, Errno, M, ◌>>=◌, ◌>>◌, pure}
use aws_neuron_driver.Udma.Types.{UdmaState, Host}
use aws_neuron_driver.Mempool.{Chunk, Kernel}
use aws_neuron_driver.Rings.{queue_init, ack_completed, queue_copy_start}
use aws_neuron_driver.Rings.Device.{
  Device, EngState, on_engine, eng_init, eng_set_state, eng_get_state, queue_release,
}
use aws_neuron_driver.Dma.QueueState.{QueueState, queue_get_state}
use aws_neuron_driver.Cdev.Firmware.{copied}

-- `struct neuron_ioctl_dma_queue_init`; `rxc` is none for the handle 0.
pub record QueueInit : Type 0 where
  pub eng_id : ℕ
  pub qid : ℕ
  pub tx_desc_count : ℕ
  pub rx_desc_count : ℕ
  pub tx : Chunk
  pub rx : Chunk
  rxc : Option Chunk
  axi_port : ℕ

-- `struct neuron_ioctl_dma_queue_copy_start`
pub record QueueCopyStart : Type 0 where
  pub eng_id : ℕ
  pub qid : ℕ
  pub tx_desc_count : ℕ
  pub rx_desc_count : ℕ

-- `struct neuron_ioctl_dma_ack_completed`
pub record AckCompleted : Type 0 where
  pub eng_id : ℕ
  pub qid : ℕ
  pub count : ℕ

module _ {G K : Type 0} (k : Kernel G K) (hosts : ℕ → Host) where
  -- `ncdev_dma_engine_init`
  unfoldable dma_engine_init : (bar0 eng_id : ℕ) → M (Device G K) (Unit {0})
  unfolding eng_init
  dma_engine_init bar0 eng_id = eng_init k hosts bar0 eng_id

  -- `ncdev_dma_engine_set_state`
  unfoldable dma_engine_set_state : (eng_id : ℕ) → UdmaState → M (Device G K) (Unit {0})
  unfolding eng_set_state
  dma_engine_set_state eng_id state = eng_set_state k eng_id state

  -- `ncdev_dma_engine_get_state`
  unfoldable dma_engine_get_state : (eng_id : ℕ) (copy : Option Errno) → M (Device G K) EngState
  unfolding eng_get_state
  dma_engine_get_state eng_id copy = do
    state ← eng_get_state k hosts eng_id
    copied copy
    pure state

  -- `ncdev_dma_queue_init`
  unfoldable dma_queue_init : QueueInit → M (Device G K) (Unit {0})
  unfolding queue_init
  dma_queue_init arg = on_engine k arg.eng_id (
      queue_init (hosts arg.eng_id) arg.eng_id arg.qid arg.tx_desc_count arg.rx_desc_count arg.tx
        arg.rx arg.rxc arg.axi_port)

  -- `ncdev_dma_copy_start`
  unfoldable dma_copy_start : QueueCopyStart → M (Device G K) (Unit {0})
  unfolding queue_copy_start
  dma_copy_start arg =
      on_engine k arg.eng_id
        (queue_copy_start arg.eng_id arg.qid arg.tx_desc_count arg.rx_desc_count)

  -- `ncdev_dma_ack_completed`
  unfoldable dma_ack_completed : AckCompleted → M (Device G K) (Unit {0})
  unfolding ack_completed
  dma_ack_completed arg = on_engine k arg.eng_id (ack_completed arg.eng_id arg.qid arg.count)

  -- `ncdev_dma_queue_get_state`; `tx_copy` and `rx_copy` are the statuses of its two copies.
  unfoldable dma_queue_get_state :
      (eng_id qid : ℕ) (tx_copy rx_copy : Option Errno) → M (Device G K) (QueueState × QueueState)
  unfolding queue_get_state
  dma_queue_get_state eng_id qid tx_copy rx_copy = do
    states ← queue_get_state k hosts eng_id qid
    copied tx_copy
    copied rx_copy
    pure states

  -- `ncdev_dma_queue_release`
  unfoldable dma_queue_release : (eng_id qid : ℕ) → M (Device G K) (Unit {0})
  unfolding queue_release
  dma_queue_release eng_id qid = queue_release k eng_id qid
