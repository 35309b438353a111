-- ===== src/Rings/Init.antt =====
-- The host-to-device ring is set up ready to copy; queues of user space get their memory.
use aws_neuron_driver.Common.{
  ℕ, some, ◌%◌, ◌^◌, ◌<◌, ◌≡◌, ◌≢◌, refl, ◌∙◌, arith, ok, bug, lt→leb-false, eq→==,
}
use aws_neuron_driver.Udma.Types.{Engine, Host}
use aws_neuron_driver.Udma.Init.{RingPtr}
use aws_neuron_driver.Udma.Ring.Pair.{PairTracks}
use aws_neuron_driver.Udma.Init.Pair.{
  CanInit, m2m_init_queue-PairTracks, m2m_init_queue_with_completion,
}
use aws_neuron_driver.Dma.{ndma_memcpy}
use aws_neuron_driver.Dma.Wait.{Answers}
use aws_neuron_driver.Dma.Memcpy.{ndma_memcpy_runs}
use aws_neuron_driver.Mempool.{Chunk}
use aws_neuron_driver.Rings.{
  NdmaRing, NdmaEng, ring_addr, ring_with_chunk, queue_init, name_queue, set_compl_chunk,
  ring_get_desc_count, ring_set_mem_chunk, h2t_ring_init,
}

pub desc_count_h2t : ring_get_desc_count 4096 ≡ 2 ^ 13
unfolding ring_get_desc_count
desc_count_h2t = refl

one-ne-zero : ◌≢◌ {A = ℕ} 1 0
one-ne-zero = omega arith

-- When queue 15 of an engine exists, has its rings at 64-byte aligned bus addresses and has no
-- completion ring left over on an engine without completions, `ndmar_h2t_ring_init` succeeds, and
-- with a host that gives memory and shows every completion marker within 400 polls a copy of any
-- 32-bit size on that queue then succeeds and leaves its rings of 8192 descriptors quiet.
h2t_ring_init-ndma_memcpy :
    (h : Host) (e : NdmaEng) (src dst size : ℕ)
    → CanInit e.engine.udma 15 13
    → (e.queues 15).ring_info.tx_ptr.addr % 64 ≡ 0
    → (e.queues 15).ring_info.rx_ptr.addr % 64 ≡ 0
    → Answers h
    → size < 2 ^ 32
    → (e' : NdmaEng) × (m : Engine) × (n : ℕ) × (h2t_ring_init h e ≡ ok tt e')
      × (ndma_memcpy h 15 src dst size e'.engine ≡ ok tt m)
      × PairTracks m.udma 15 13 n n
unfolding h2t_ring_init
h2t_ring_init-ndma_memcpy h e src dst size can tx_aligned rx_aligned a fits =
    let ring : NdmaRing = (e.queues 15).ring_info in
    let (m1, runs, pair, base_tx, base_rx) =
      m2m_init_queue-PairTracks h 1 ring.tx_ptr ring.rx_ptr e.engine can tx_aligned rx_aligned
        one-ne-zero in
    let (steps, m2, n, same, done, covers, leaves) =
      ndma_memcpy_runs h m1 src dst size pair (omega arith) a fits in
    (record e { engine = m1 }, m2, n, rw (desc_count_h2t, runs) refl, same ∙ done, leaves.pair)

-- On an engine below 12 with completion descriptors, for a queue that exists, rings of 2 ^ k
-- descriptors, 5 to 24 for k, and a transmit chunk at a 64-byte aligned bus address,
-- `ndmar_queue_init` with a completion chunk that is not at NULL always stops at a `BUG_ON`.
queue_init_with_completion :
    (h : Host) (e : NdmaEng) (eng_id qid k port : ℕ) (tx_mc rx_mc rxc_mc : Chunk)
    → eng_id < 12
    → CanInit e.engine.udma qid k
    → ring_addr h tx_mc tx_mc.va port % 64 ≡ 0
    → rxc_mc.va ≢ 0
    → e.engine.udma.cdesc_size ≢ 0
    → queue_init h eng_id qid (2 ^ k) (2 ^ k) tx_mc rx_mc (some rxc_mc) port e ≡ bug
unfolding queue_init name_queue ring_set_mem_chunk set_compl_chunk ring_with_chunk
queue_init_with_completion h e eng_id qid k port tx_mc rx_mc rxc_mc known can aligned there size =
    let tx_ring : RingPtr = record { ptr = tx_mc.va; addr = ring_addr h tx_mc tx_mc.va port } in
    let rx_ring : RingPtr = record { ptr = rx_mc.va; addr = ring_addr h rx_mc rx_mc.va port } in
    let rxc_ring : RingPtr = record { ptr = rxc_mc.va; addr = ring_addr h rxc_mc rx_mc.va port } in
    let stops =
      m2m_init_queue_with_completion h 0 tx_ring rx_ring e.engine can aligned rxc_ring there size in
    rw (lt→leb-false 12 eng_id known, eq→== qid qid refl) (rw stops refl)
