-- ===== src/Udma/Copy.antt =====
-- Copying from memory to memory, udma/udma_m2m.c: one descriptor pair is built, then started.
use aws_neuron_driver.Common.{
  ℕ, Bool, true, false, List, [], ◌∷◌, Option, none, some, ◌+◌, ◌*◌, ◌^◌, bit_and, bit_or, u32,
  ◌<<<◌, ◌==◌, ltb, leb, if◌then◌else◌, ◌||◌, M, ◌>>=◌, ◌>>◌, ok, bug, fail_if, bug_on, einval,
  enomem, minus_one,
}
use aws_neuron_driver.Udma.Types.{
  UdmaType, tx, rx, UdmaQ, Engine, Desc, tx_desc, rx_desc, desc_write, barrier, queue_reg, QueueReg,
  queue, put_queue, emit, reg_write32, with_queue,
}
use aws_neuron_driver.Udma.Ring.{available_get, desc_get, ring_id_get}
pub mod LenCtrl
pub mod Laws

-- MAX_DMA_DESC_SIZE
abbrev pub max_dma_desc_size : ℕ
max_dma_desc_size = 65536

-- M2S_DESC_DMB, M2S_DESC_LAST, M2S_DESC_FIRST and S2M_DESC_INT_EN
abbrev m2s_desc_dmb : ℕ
m2s_desc_dmb = 2 ^ 30

abbrev m2s_desc_last : ℕ
m2s_desc_last = 2 ^ 27

abbrev m2s_desc_first : ℕ
m2s_desc_first = 2 ^ 26

abbrev s2m_desc_int_en : ℕ
s2m_desc_int_en = 2 ^ 28

-- M2S_DESC_LEN_MASK
abbrev m2s_desc_len_mask : ℕ
m2s_desc_len_mask = 0xfffff

-- A structure of bit fields: the width and the value of each, from the lowest bit on.
abbrev bit_fields : List (ℕ × ℕ) → ℕ
bit_fields [] = 0
bit_fields ((width, value) ∷ fields) = value + 2 ^ width * bit_fields fields

-- `tdma_m2s_meta_ctrl_default_value`: the block is the first and the last, copy the source, op 0,
-- `ssmae_op` 0b010; the other fields are 0.
abbrev pub meta_ctrl_default : ℕ
meta_ctrl_default =
    bit_fields
      ((1, 1) ∷ (1, 1) ∷ (1, 0) ∷ (3, 0) ∷ (8, 0) ∷ (5, 0) ∷ (1, 1) ∷ (3, 0) ∷ (3, 2) ∷ (6, 0) ∷ [])

-- `memcpy` of a descriptor to the ring.
abbrev store_desc : Option ℕ → Desc → M Engine (Unit {0})
store_desc none d m = bug
store_desc (some p) d m = emit (desc_write p d) m

-- The length as the hardware reads it: 0 stands for 64K.
abbrev pub encoded_size : ℕ → ℕ
encoded_size size = if size == max_dma_desc_size then 0 else size

unfoldable pub len_ctrl : (flags ring_id size : ℕ) → ℕ
len_ctrl flags ring_id size =
    bit_or (bit_or flags (u32 (ring_id <<< 24))) (bit_and (encoded_size size) m2s_desc_len_mask)

-- `udma_m2m_build_tx_descriptor`
unfoldable build_tx_descriptor :
    Option ℕ → (ring_id s_addr size meta_ctrl flags : ℕ) → M Engine (Unit {0})
build_tx_descriptor p ring_id s_addr size meta_ctrl flags = do
  fail_if (ltb max_dma_desc_size size) minus_one
  store_desc p (tx_desc (len_ctrl flags ring_id size) meta_ctrl s_addr)

-- `udma_m2m_build_rx_descriptor`
unfoldable build_rx_descriptor : Option ℕ → (ring_id d_addr size flags : ℕ) → M Engine (Unit {0})
build_rx_descriptor p ring_id d_addr size flags = do
  fail_if (ltb max_dma_desc_size size) minus_one
  store_desc p (rx_desc (len_ctrl flags ring_id size) 0 d_addr)

abbrev pub tx_flags : Bool → ℕ
tx_flags set_dmb =
    let one_desc : ℕ = bit_or m2s_desc_first m2s_desc_last in
    if set_dmb then bit_or one_desc m2s_desc_dmb else one_desc

abbrev pub rx_flags : Bool → ℕ
rx_flags set_dst_int = if set_dst_int then s2m_desc_int_en else 0

-- `udma_m2m_build_descriptor`
unfoldable build_descriptor :
    (rx_ptr tx_ptr : Option ℕ) (rx_ring_id tx_ring_id s_addr d_addr size : ℕ)
    (set_dmb set_dst_int : Bool)
    → M Engine (Unit {0})
unfolding build_tx_descriptor build_rx_descriptor
build_descriptor rx_ptr tx_ptr rx_ring_id tx_ring_id s_addr d_addr size set_dmb set_dst_int = do
  build_tx_descriptor tx_ptr tx_ring_id s_addr size meta_ctrl_default (tx_flags set_dmb)
  build_rx_descriptor rx_ptr rx_ring_id d_addr size (rx_flags set_dst_int)

-- `udma_q_handle_get`; the handle is the queue's direction and number.
unfoldable pub q_handle_get : ℕ → UdmaType → M Engine (Unit {0})
q_handle_get qid t = λ m. fail_if (leb m.udma.num_of_queues qid) einval m

-- `udma_desc_get` and `udma_ring_id_get` at a queue of the engine.
unfoldable take_desc : UdmaType → ℕ → M Engine (Option ℕ)
take_desc t qid = λ m.
    let (p, q) = desc_get (queue m.udma t qid) in
    ok p (record m { udma = with_queue m.udma t qid q })

unfoldable take_ring_id : UdmaType → ℕ → M Engine ℕ
take_ring_id t qid = λ m.
    let (id, q) = ring_id_get (queue m.udma t qid) in
    ok id (record m { udma = with_queue m.udma t qid q })

-- `if (udma_available_get(q) < 1) return -ENOMEM`
unfoldable check_room : UdmaType → ℕ → M Engine (Unit {0})
check_room t qid = λ m. fail_if (ltb (available_get (queue m.udma t qid)) 1) enomem m

-- `udma_m2m_copy_prepare_one`
unfoldable pub copy_prepare_one :
    (qid s_addr d_addr size : ℕ) (set_dmb set_dst_int : Bool) → M Engine (Unit {0})
unfolding q_handle_get take_desc take_ring_id check_room build_descriptor
copy_prepare_one qid s_addr d_addr size set_dmb set_dst_int = λ m.
    (do
      fail_if (leb m.udma.num_of_queues qid) minus_one
      fail_if (ltb max_dma_desc_size size) minus_one
      q_handle_get qid tx
      q_handle_get qid rx
      check_room tx qid
      check_room rx qid
      rx_ptr ← take_desc rx qid
      tx_ptr ← take_desc tx qid
      rx_id ← take_ring_id rx qid
      tx_id ← take_ring_id tx qid
      build_descriptor rx_ptr tx_ptr rx_id tx_id s_addr d_addr (encoded_size size) set_dmb
          set_dst_int)
      m

-- `udma_desc_action_add`: a barrier, then the doorbell.
unfoldable desc_action_add : UdmaType → (qid num : ℕ) → M Engine (Unit {0})
unfolding reg_write32
desc_action_add t qid num = λ m.
    (do
      bug_on ((num == 0) || ltb (queue m.udma t qid).size num)
      emit barrier
      reg_write32 (queue_reg t qid QueueReg.drtp_inc) num)
      m

-- `udma_m2m_copy_start`: the receiving ring is started first.
unfoldable pub copy_start : (qid m2s_count s2m_count : ℕ) → M Engine (Unit {0})
unfolding q_handle_get desc_action_add
copy_start qid m2s_count s2m_count = λ m.
    (do
      fail_if (leb m.udma.num_of_queues qid) minus_one
      q_handle_get qid tx
      q_handle_get qid rx
      desc_action_add rx qid s2m_count
      desc_action_add tx qid m2s_count)
      m
