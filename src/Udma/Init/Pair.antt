-- ===== src/Udma/Init/Pair.antt =====
-- Both rings of a queue brought up by `udma_m2m_init_queue`.
use aws_neuron_driver.Common.{
  ℕ, zero, suc, Option, none, some, ◌%◌, ◌^◌, ◌≤◌, ◌<◌, ◌≡◌, ◌≢◌, ◌⊎◌, inl, refl, ◌∙◌, arith, ok,
  bug,
}
use aws_neuron_driver.Common.Arith.{two-pow-suc}
use aws_neuron_driver.Udma.Types.{tx, rx, Engine, Host, Udma}
use aws_neuron_driver.Udma.Ring.Pair.{PairTracks}
use aws_neuron_driver.Udma.Init.{m2m_init_queue, q_init, ring_params, RingPtr}
use aws_neuron_driver.Udma.Init.Laws.{Accepts, IsReady, q_init-IsReady, q_init_with_completion}

-- What bringing up queue `qid` with rings of `2 ^ k` descriptors needs: the queue exists, the size is
-- one that the hardware takes, and no completion ring is left over on an engine without completions.
pub record CanInit (u : Udma) (qid k : ℕ) : Type 0 where
  pub in_range : qid < u.num_of_queues
  pub least : 5 ≤ k
  pub most : k ≤ 24
  pub tx_completion : ((u.udma_q_m2s qid).cdesc_base_ptr ≡ 0) ⊎ (u.cdesc_size ≢ 0)
  pub rx_completion : ((u.udma_q_s2m qid).cdesc_base_ptr ≡ 0) ⊎ (u.cdesc_size ≢ 0)

even-two-pow : (k : ℕ) → 5 ≤ k → 2 ^ k % 2 ≡ 0
even-two-pow zero h = absurd (omega arith)
even-two-pow (suc k) h = omega (arith, two-pow-suc k)

module _ (h : Host) {qid k : ℕ} (allocatable : ℕ) (m2s_ring s2m_ring : RingPtr) (m : Engine)
    (c : CanInit m.udma qid k) (tx_aligned : m2s_ring.addr % 64 ≡ 0) where
  -- The transmit ring alone.
  tx-IsReady :
      (m' : Engine) × (q_init h qid (ring_params tx (2 ^ k) allocatable m2s_ring none) m ≡ ok tt m')
      × IsReady m m' qid (ring_params tx (2 ^ k) allocatable m2s_ring none) k
  unfolding ring_params
  tx-IsReady =
      q_init-IsReady h qid (ring_params tx (2 ^ k) allocatable m2s_ring none) k m
        (record {
          in_range = c.in_range;
          least = c.least;
          most = c.most;
          power = refl;
          completion = c.tx_completion;
        })
        refl tx_aligned

  rx-Accepts :
      {m' : Engine} (compl : Option RingPtr)
      → IsReady m m' qid (ring_params tx (2 ^ k) allocatable m2s_ring none) k
      → Accepts m'.udma qid (ring_params rx (2 ^ k) allocatable s2m_ring compl) k
  unfolding ring_params
  rx-Accepts compl r = record {
    in_range = rw r.queues c.in_range;
    least = c.least;
    most = c.most;
    power = refl;
    completion = rw (r.others rx qid (inl (λ e. cc)), r.completions) c.rx_completion;
  }

  -- Both rings, the second of which left the first alone.
  both_ready :
      {m1 m2 : Engine}
      → allocatable ≢ 0
      → IsReady m m1 qid (ring_params tx (2 ^ k) allocatable m2s_ring none) k
      → IsReady m1 m2 qid (ring_params rx (2 ^ k) allocatable s2m_ring none) k
      → PairTracks m2.udma qid k 0 0
        × ((m2.udma.udma_q_m2s qid).desc_base_ptr ≡ m2s_ring.ptr)
        × ((m2.udma.udma_q_s2m qid).desc_base_ptr ≡ s2m_ring.ptr)
  unfolding ring_params
  both_ready {m1} {m2} on r1 r2 =
      let kept : m2.udma.udma_q_m2s qid ≡ m1.udma.udma_q_m2s qid =
        r2.others tx qid (inl (λ e. cc)) in
      (
        record {
          in_range = rw (r2.queues, r1.queues) c.in_range;
          tx_ring = rw kept r1.tracks;
          rx_ring = r2.tracks;
          tx_on = rw (kept, r1.allocatable) on;
          rx_on = rw r2.allocatable on;
        },
        rw kept r1.memory,
        r2.memory,
      )

  -- Both rings brought up, and the engine's completion descriptors left as they were.
  pub m2m_init_queue-made :
      s2m_ring.addr % 64 ≡ 0
      → allocatable ≢ 0
      → (m' : Engine) × (m2m_init_queue h qid (2 ^ k) (2 ^ k) allocatable m2s_ring s2m_ring none m
          ≡ ok tt m')
        × PairTracks m'.udma qid k 0 0
        × ((m'.udma.udma_q_m2s qid).desc_base_ptr ≡ m2s_ring.ptr)
        × ((m'.udma.udma_q_s2m qid).desc_base_ptr ≡ s2m_ring.ptr)
        × (m'.udma.cdesc_size ≡ m.udma.cdesc_size)
  unfolding m2m_init_queue
  m2m_init_queue-made rx_aligned on =
      let (m1, runs1, ready1) = tx-IsReady in
      let (m2, runs2, ready2) =
        q_init-IsReady h qid (ring_params rx (2 ^ k) allocatable s2m_ring none) k m1
          (rx-Accepts none ready1) (unfold ring_params in refl)
          (unfold ring_params in rx_aligned) in
      let both = both_ready on ready1 ready2 in
      (
        m2,
        ground (arith, runs1, runs2, even-two-pow k c.least),
        both.0,
        both.1,
        both.2,
        ready2.completions ∙ ready1.completions,
      )

  pub m2m_init_queue-PairTracks :
      s2m_ring.addr % 64 ≡ 0
      → allocatable ≢ 0
      → (m' : Engine) × (m2m_init_queue h qid (2 ^ k) (2 ^ k) allocatable m2s_ring s2m_ring none m
          ≡ ok tt m')
        × PairTracks m'.udma qid k 0 0
        × ((m'.udma.udma_q_m2s qid).desc_base_ptr ≡ m2s_ring.ptr)
        × ((m'.udma.udma_q_s2m qid).desc_base_ptr ≡ s2m_ring.ptr)
  m2m_init_queue-PairTracks rx_aligned on =
      let (m', runs, pair, tx_base, rx_base, same) = m2m_init_queue-made rx_aligned on in
      (m', runs, pair, tx_base, rx_base)

  -- With a completion ring that is not at NULL, on an engine with completion descriptors,
  -- `udma_m2m_init_queue` always stops at a `BUG_ON`, for a queue that exists, rings of 2 ^ k
  -- descriptors, 5 to 24 for k, and a transmit ring at a 64-byte aligned bus address.
  pub m2m_init_queue_with_completion :
      (compl : RingPtr)
      → compl.ptr ≢ 0
      → m.udma.cdesc_size ≢ 0
      → m2m_init_queue h qid (2 ^ k) (2 ^ k) allocatable m2s_ring s2m_ring (some compl) m ≡ bug
  unfolding m2m_init_queue
  m2m_init_queue_with_completion compl there size =
      let (m1, runs1, ready1) = tx-IsReady in
      let stops =
        q_init_with_completion h qid (ring_params rx (2 ^ k) allocatable s2m_ring (some compl)) k m1
          (rx-Accepts (some compl) ready1) (unfold ring_params in there)
          (rw ready1.completions size) in
      ground (arith, runs1, stops, even-two-pow k c.least)
