-- ===== src/Rings.antt =====
-- The rings of a device's engines, neuron_ring.c: sizes, the memory behind a queue, and its set-up.
use aws_neuron_driver.Common.{
  ℕ, Bool, true, false, Option, none, some, ◌+◌, ◌-◌, ◌*◌, ◌/◌, ◌^◌, bit_or, u32, sub32, ◌>>>◌,
  ◌==◌, ltb, leb, if◌then◌else◌, M, Outcome, ok, err, bug, ◌>>=◌, ◌>>◌, pure, fail_if, einval,
}
use aws_neuron_driver.Udma.Types.{UdmaType, tx, rx, Engine, Host, put_queue, queue}
use aws_neuron_driver.Udma.Ring.{max_num_cdesc_per_cache_line}
use aws_neuron_driver.Udma.Init.{RingPtr, m2m_init_queue}
use aws_neuron_driver.Udma.Copy.{copy_start}
use aws_neuron_driver.Mempool.{Chunk, is_host}
use aws_neuron_driver.Dma.{pciex8_0_base, ack_completed_desc}
pub mod DescCount
pub mod Init
pub mod Tdma
pub mod Device

-- One step of the smear, `v |= v >> j`.
abbrev pub smear : (j v : ℕ) → ℕ
smear j v = bit_or v (v >>> j)

-- All of its steps.
abbrev pub smear_word : ℕ → ℕ
smear_word v = smear 16 (smear 8 (smear 4 (smear 2 (smear 1 v))))

-- `ndmar_ring_get_desc_count`
unfoldable pub ring_get_desc_count : ℕ → ℕ
ring_get_desc_count v =
    let below : ℕ = sub32 (v + max_num_cdesc_per_cache_line) 1 in
    if ltb v 32 then 64 else u32 (smear_word below + 1)

-- `struct ndma_ring`
pub record NdmaRing : Type 0 where
  pub qid : ℕ
  pub size : ℕ
  pub has_compl : Bool
  pub tx_ptr : RingPtr
  pub rx_ptr : RingPtr
  pub rxc_ptr : RingPtr
  pub tx_mc : Option Chunk
  pub rx_mc : Option Chunk
  pub rxc_mc : Option Chunk

-- `struct ndma_queue`
pub record NdmaQueue : Type 0 where
  pub ring_info : NdmaRing
  pub eng_id : ℕ
  pub qid : ℕ

-- `struct ndma_eng`; its `udma` with the effects on it is an `Engine`.
pub record NdmaEng : Type 0 where
  pub eng_id : ℕ
  pub queues : ℕ → NdmaQueue
  pub engine : Engine
  pub used_for_h2t : Bool

-- `enum neuron_dma_queue_type`
pub data QueueType : Type 0 where
  type_tx type_rx type_completion : QueueType

-- P_1_BASE
abbrev p_1_base : ℕ
p_1_base = 0x100000000000

-- NUM_DMA_ENG_PER_DEVICE, MAX_DMA_RINGS and DMA_H2T_DESC_COUNT
abbrev pub num_dma_eng_per_device : ℕ
num_dma_eng_per_device = 12

abbrev pub max_dma_rings : ℕ
max_dma_rings = 16

abbrev pub h2t_desc_count : ℕ
h2t_desc_count = 4096

-- A call on the engine's `udma`.
abbrev pub back_in : {A : Type 0} → NdmaEng → Outcome Engine A → Outcome NdmaEng A
back_in e (ok a m) = ok a (record e { engine = m })
back_in e (err x m) = err x (record e { engine = m })
back_in e bug = bug

abbrev pub on_udma : {A : Type 0} → M Engine A → M NdmaEng A
on_udma f e = back_in e (f e.engine)

-- The bus address of a chunk whose virtual address is looked up as `va`.
unfoldable pub ring_addr : Host → Chunk → (va port : ℕ) → ℕ
ring_addr h mc va port =
    if is_host mc.mem_location
    then bit_or (h.virt_to_phys va) pciex8_0_base
    else if port == 0
    then mc.pa
    else bit_or mc.pa p_1_base

-- The three cases of `ndmar_ring_set_mem_chunk` on the ring; the last one looks up the receive ring's
-- memory, not the completion ring's.
unfoldable pub ring_with_chunk : Host → Chunk → (port : ℕ) → QueueType → NdmaRing → NdmaRing
unfolding ring_addr
ring_with_chunk h mc port type_tx ring = record ring {
  tx_mc = some mc;
  tx_ptr = record { ptr = mc.va; addr = ring_addr h mc mc.va port };
}
ring_with_chunk h mc port type_rx ring = record ring {
  rx_mc = some mc;
  rx_ptr = record { ptr = mc.va; addr = ring_addr h mc mc.va port };
}
ring_with_chunk h mc port type_completion ring = record ring {
  has_compl = true;
  rxc_mc = some mc;
  rxc_ptr = record { ptr = mc.va; addr = ring_addr h mc ring.rx_ptr.ptr port };
}

-- `ndmar_ring_set_mem_chunk`
unfoldable pub ring_set_mem_chunk :
    Host → (qid : ℕ) → Chunk → (port : ℕ) → QueueType → M NdmaEng (Unit {0})
unfolding ring_with_chunk
ring_set_mem_chunk h qid mc port type = λ e.
    let q : NdmaQueue = e.queues qid in
    let q' : NdmaQueue = record q { ring_info = ring_with_chunk h mc port type q.ring_info } in
    ok tt (record e { queues = λ j. if j == qid then q' else e.queues j })

-- The first assignments of `ndmar_queue_init`.
unfoldable pub name_queue : (eng_id qid : ℕ) → M NdmaEng (Unit {0})
name_queue eng_id qid = λ e.
    let q : NdmaQueue = e.queues qid in
    let q' : NdmaQueue = record q {
      eng_id = eng_id;
      qid = qid;
      ring_info = record q.ring_info { qid = qid };
    } in
    ok tt (record e { queues = λ j. if j == qid then q' else e.queues j })

unfoldable pub set_compl_chunk : Host → (qid : ℕ) → Option Chunk → (port : ℕ) → M NdmaEng (Unit {0})
unfolding ring_set_mem_chunk
set_compl_chunk h qid none port = pure tt
set_compl_chunk h qid (some mc) port = ring_set_mem_chunk h qid mc port type_completion

-- The completion ring that `ndmar_queue_init` passes on.
abbrev compl_of : Option Chunk → NdmaRing → Option RingPtr
compl_of none ring = none
compl_of (some mc) ring = some ring.rxc_ptr

-- `ndmar_queue_init` on engine `eng_id` of the device, which it acquires.
unfoldable pub queue_init :
    Host
    → (eng_id qid tx_desc_count rx_desc_count : ℕ) (tx_mc rx_mc : Chunk) (rxc_mc : Option Chunk)
      (port : ℕ)
    → M NdmaEng (Unit {0})
unfolding name_queue ring_set_mem_chunk set_compl_chunk
queue_init h eng_id qid tx_desc_count rx_desc_count tx_mc rx_mc rxc_mc port = do
  fail_if (leb num_dma_eng_per_device eng_id) einval
  name_queue eng_id qid
  ring_set_mem_chunk h qid tx_mc port type_tx
  ring_set_mem_chunk h qid rx_mc port type_rx
  set_compl_chunk h qid rxc_mc port
  (λ e.
      let ring : NdmaRing = (e.queues qid).ring_info in
      on_udma
        (m2m_init_queue h qid tx_desc_count rx_desc_count 0 ring.tx_ptr ring.rx_ptr
          (compl_of rxc_mc ring))
        e)

-- `ndmar_ack_completed`
unfoldable pub ack_completed : (eng_id qid count : ℕ) → M NdmaEng (Unit {0})
ack_completed eng_id qid count = do
  fail_if (leb num_dma_eng_per_device eng_id) einval
  on_udma (ack_completed_desc qid count)

-- `ndmar_queue_copy_start`
unfoldable pub queue_copy_start :
    (eng_id qid tx_desc_count rx_desc_count : ℕ) → M NdmaEng (Unit {0})
queue_copy_start eng_id qid tx_desc_count rx_desc_count = do
  fail_if (leb num_dma_eng_per_device eng_id) einval
  on_udma (copy_start qid tx_desc_count rx_desc_count)

-- `ndmar_h2t_ring_init`: the last queue of an engine gets rings of its own.
unfoldable pub h2t_ring_init : Host → M NdmaEng (Unit {0})
unfolding ring_get_desc_count
h2t_ring_init h = λ e.
    let alloced_desc : ℕ = ring_get_desc_count h2t_desc_count in
    let ring : NdmaRing = (e.queues (max_dma_rings - 1)).ring_info in
    on_udma
      (m2m_init_queue h (max_dma_rings - 1) alloced_desc alloced_desc 1 ring.tx_ptr ring.rx_ptr
        none)
      e
