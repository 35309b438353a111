-- ===== src/Udma/Copy/Laws.antt =====
-- What building one descriptor pair does, and when it is refused.
use aws_neuron_driver.Common.{
  ℕ, Bool, List, ◌∷◌, ◌+◌, ◌*◌, ◌/◌, ◌%◌, ◌^◌, ◌≤◌, ◌<◌, ◌≡◌, ◌≢◌, refl, ◌∙◌, arith, ok, err,
  enomem,
}
use aws_neuron_driver.Udma.Types.{
  tx, rx, UdmaType, UdmaQ, Udma, Engine, Event, tx_desc, rx_desc, desc_write, barrier, reg_write,
  queue_reg, QueueReg, queue, with_queue,
}
use aws_neuron_driver.Udma.Ring.{desc_get}
use aws_neuron_driver.Udma.Ring.View.{available_get-Tracks}
use aws_neuron_driver.Udma.Ring.Alloc.{alloc_q, alloc_q-Tracks, alloc-Tracks}
use aws_neuron_driver.Udma.Ring.Pair.{PairTracks}
use aws_neuron_driver.Udma.Copy.{copy_prepare_one, copy_start, meta_ctrl_default, encoded_size}
use aws_neuron_driver.Udma.Copy.LenCtrl.{tx_bits, rx_bits, tx_len_ctrl, rx_len_ctrl}

-- Both queues after one allocation on each.
pair_taken : Udma → ℕ → Udma
unfolding alloc_q
pair_taken u qid =
    with_queue
      (with_queue
        (with_queue (with_queue u rx qid (desc_get (u.udma_q_s2m qid)).1) tx qid
          (desc_get (u.udma_q_m2s qid)).1)
        rx qid (alloc_q (u.udma_q_s2m qid)))
      tx qid (alloc_q (u.udma_q_m2s qid))

-- The two descriptors of the `n`th pair of a queue, as they reach memory.
pub pair_events :
    Udma → (qid k n s_addr d_addr size : ℕ) (set_dmb set_dst_int : Bool) → List Event → List Event
pair_events u qid k n s_addr d_addr size set_dmb set_dst_int rest =
    let slot : ℕ = 16 * (n % 2 ^ k) in
    let word : ℕ = (1 + n / 2 ^ k) % 4 * 2 ^ 24 in
    desc_write ((u.udma_q_s2m qid).desc_base_ptr + slot)
      (rx_desc (rx_bits set_dst_int + word + size % 65536) 0 d_addr)
    ∷ desc_write ((u.udma_q_m2s qid).desc_base_ptr + slot)
        (tx_desc (tx_bits set_dmb + word + size % 65536) meta_ctrl_default s_addr)
    ∷ rest

encoded_twice :
    (size : ℕ)
    → size ≤ 65536
    → (encoded_size size ≤ 65535) × (encoded_size size % 65536 ≡ size % 65536)
encoded_twice size h = (ground arith, ground arith)

module _ (m : Engine) {qid k alloc acked : ℕ} (v : PairTracks m.udma qid k alloc acked)
    (s_addr d_addr size : ℕ) (set_dmb set_dst_int : Bool) (fits : size ≤ 65536)
    (free : alloc + 17 ≤ acked + 2 ^ k) where
  prepare_runs :
      copy_prepare_one qid s_addr d_addr size set_dmb set_dst_int m
      ≡ ok tt (record {
        udma = pair_taken m.udma qid;
        trace = pair_events m.udma qid k alloc s_addr d_addr size set_dmb set_dst_int m.trace;
      })
  unfolding copy_prepare_one pair_taken pair_events
  prepare_runs = ground (
    arith,
    available_get-Tracks v.tx_ring,
    available_get-Tracks v.rx_ring,
    alloc-Tracks v.tx_ring v.tx_on,
    alloc-Tracks v.rx_ring v.rx_on,
    encoded_twice size fits,
    tx_len_ctrl set_dmb ((1 + alloc / 2 ^ k) % 4) (encoded_size size),
    rx_len_ctrl set_dst_int ((1 + alloc / 2 ^ k) % 4) (encoded_size size),
  )

-- What an operation on the pair of queue `qid` leaves alone.
pub record Elsewhere (u u' : Udma) (qid : ℕ) : Type 0 where
  pub others : (t : UdmaType) (j : ℕ) → j ≢ qid → queue u' t j ≡ queue u t j
  pub queues : u'.num_of_queues ≡ u.num_of_queues
  pub tx_base : (u'.udma_q_m2s qid).desc_base_ptr ≡ (u.udma_q_m2s qid).desc_base_ptr
  pub rx_base : (u'.udma_q_s2m qid).desc_base_ptr ≡ (u.udma_q_s2m qid).desc_base_ptr

alloc_q_fields :
    (q : UdmaQ)
    → ((alloc_q q).desc_base_ptr ≡ q.desc_base_ptr)
      × ((alloc_q q).is_allocatable ≡ q.is_allocatable)
unfolding alloc_q
alloc_q_fields q = (ground arith, ground arith)

taken_others :
    (u : Udma) (qid : ℕ) (t : UdmaType) (j : ℕ)
    → j ≢ qid
    → queue (pair_taken u qid) t j ≡ queue u t j
unfolding pair_taken
taken_others u qid tx j ne = ground arith
taken_others u qid rx j ne = ground arith

taken_at :
    (u : Udma) (qid : ℕ)
    → ((pair_taken u qid).udma_q_m2s qid ≡ alloc_q (u.udma_q_m2s qid))
      × ((pair_taken u qid).udma_q_s2m qid ≡ alloc_q (u.udma_q_s2m qid))
unfolding pair_taken
taken_at u qid = (ground arith, ground arith)

pair_taken-Elsewhere : (u : Udma) (qid : ℕ) → Elsewhere u (pair_taken u qid) qid
pair_taken-Elsewhere u qid = record {
  others = taken_others u qid;
  queues = unfold pair_taken in refl;
  tx_base = rw (taken_at u qid).0 (alloc_q_fields (u.udma_q_m2s qid)).0;
  rx_base = rw (taken_at u qid).1 (alloc_q_fields (u.udma_q_s2m qid)).0;
}

pair_taken-PairTracks :
    (u : Udma) (qid k alloc acked : ℕ)
    → PairTracks u qid k alloc acked
    → alloc + 17 ≤ acked + 2 ^ k
    → PairTracks (pair_taken u qid) qid k (alloc + 1) acked
pair_taken-PairTracks u qid k alloc acked v free = record {
  in_range = unfold pair_taken in v.in_range;
  tx_ring = rw (taken_at u qid).0 (alloc_q-Tracks v.tx_ring v.tx_on free);
  rx_ring = rw (taken_at u qid).1 (alloc_q-Tracks v.rx_ring v.rx_on free);
  tx_on = rw ((taken_at u qid).0, (alloc_q_fields (u.udma_q_m2s qid)).1) v.tx_on;
  rx_on = rw ((taken_at u qid).1, (alloc_q_fields (u.udma_q_s2m qid)).1) v.rx_on;
}

module _ (m : Engine) {qid k alloc acked : ℕ} (v : PairTracks m.udma qid k alloc acked)
    (s_addr d_addr size : ℕ) (set_dmb set_dst_int : Bool) (fits : size ≤ 65536) where
  -- On a tracked pair of rings with a descriptor free on each, a copy of at most 64K succeeds:
  -- the descriptors of the next pair are written in their slots with their phase, flags and
  -- length, both rings then count one more allocated descriptor, and no other queue is touched.
  pub copy_prepare_one_lem :
      alloc + 17 ≤ acked + 2 ^ k
      → (u' : Udma) × (copy_prepare_one qid s_addr d_addr size set_dmb set_dst_int m
          ≡ ok tt (record {
            udma = u';
            trace = pair_events m.udma qid k alloc s_addr d_addr size set_dmb set_dst_int m.trace;
          }))
        × PairTracks u' qid k (alloc + 1) acked
        × Elsewhere m.udma u' qid
  copy_prepare_one_lem free = (
    pair_taken m.udma qid,
    prepare_runs m v s_addr d_addr size set_dmb set_dst_int fits free,
    pair_taken-PairTracks m.udma qid k alloc acked v free,
    pair_taken-Elsewhere m.udma qid,
  )

  -- On a tracked pair of rings with as many in flight as there can be, a copy of at most 64K is
  -- refused with ENOMEM, and neither the engine nor the descriptors change.
  pub copy_prepare_one-full :
      alloc + 16 ≡ acked + 2 ^ k
      → copy_prepare_one qid s_addr d_addr size set_dmb set_dst_int m ≡ err enomem m
  unfolding copy_prepare_one
  copy_prepare_one-full full = ground (arith, available_get-Tracks v.tx_ring)

-- The doorbells of both rings, each behind a barrier, the receiving ring's first.
pub start_events : (qid m2s_count s2m_count : ℕ) → List Event → List Event
start_events qid m2s_count s2m_count rest =
    reg_write (queue_reg tx qid QueueReg.drtp_inc) m2s_count
    ∷ barrier
    ∷ reg_write (queue_reg rx qid QueueReg.drtp_inc) s2m_count
    ∷ barrier
    ∷ rest

-- On a tracked pair of rings a start of at least one and at most a ring of descriptors in each
-- direction rings both doorbells, the receiving ring's first and each behind a barrier, and
-- changes nothing else.
pub copy_start_lem :
    (m : Engine) {qid k alloc acked : ℕ} (m2s_count s2m_count : ℕ)
    → PairTracks m.udma qid k alloc acked
    → 0 < m2s_count
    → m2s_count ≤ 2 ^ k
    → 0 < s2m_count
    → s2m_count ≤ 2 ^ k
    → copy_start qid m2s_count s2m_count m
      ≡ ok tt (record m { trace = start_events qid m2s_count s2m_count m.trace })
unfolding copy_start start_events
copy_start_lem m m2s_count s2m_count v a b c d = ground arith

pub Elsewhere-trans :
    {u v w : Udma} {qid : ℕ} → Elsewhere u v qid → Elsewhere v w qid → Elsewhere u w qid
Elsewhere-trans a b = record {
  others = λ t j ne. b.others t j ne ∙ a.others t j ne;
  queues = b.queues ∙ a.queues;
  tx_base = b.tx_base ∙ a.tx_base;
  rx_base = b.rx_base ∙ a.rx_base;
}

pub Elsewhere-refl : (u : Udma) (qid : ℕ) → Elsewhere u u qid
Elsewhere-refl u qid = record {
  others = λ t j ne. refl;
  queues = refl;
  tx_base = refl;
  rx_base = refl;
}
