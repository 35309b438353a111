-- ===== src/Dma/Wait.antt =====
-- `ndma_memcpy_wait_for_completion`: with hardware that answers the ring is settled, without it the
-- descriptors stay in flight.
use aws_neuron_driver.Common.{
  ℕ, zero, suc, List, ◌∷◌, ◌+◌, ◌≤◌, ◌<◌, ◌≡◌, ◌≢◌, refl, arith, ◌==◌, ◌>>=◌, ok, Bool-cases, eq→==,
  inl, inr,
}
use aws_neuron_driver.Udma.Types.{
  tx, rx, UdmaType, Udma, Engine, Host, Event, queue, with_queue, word_read, word_write, udelay,
}
use aws_neuron_driver.Udma.Ring.{cdesc_ack}
use aws_neuron_driver.Udma.Ring.Pair.{PairTracks}
use aws_neuron_driver.Udma.Ring.Ack.{cdesc_ack-Tracks}
use aws_neuron_driver.Udma.Copy.Laws.{Elsewhere}
use aws_neuron_driver.Dma.{ack_completed_desc, completed, poll, poll_rounds, dma_completion_marker}

-- The effects of `j` polls of the word at `a` that do not see the marker.
abbrev pub polled : (a j : ℕ) → List Event → List Event
polled a zero t = t
polled a (suc j) t = polled a j (udelay 1 ∷ word_read a ∷ t)

-- Memory is there, and whatever was started, the marker shows within 400 polls.
pub record Answers (h : Host) : Type 0 where
  pub memory : (t : List Event) (n : ℕ) → h.kmalloc_addr t n ≢ 0
  pub polls : List Event → ℕ → ℕ
  pub soon : (t : List Event) (a : ℕ) → polls t a ≤ 400
  pub marker :
      (t : List Event) (a : ℕ) → h.word_value (polled a (polls t a) t) a ≡ dma_completion_marker

-- Both rings after `n` descriptors are acknowledged.
pub acked_pair : Udma → (qid n : ℕ) → Udma
acked_pair u qid n =
    with_queue (with_queue u rx qid (cdesc_ack (u.udma_q_s2m qid) n)) tx qid
      (cdesc_ack (u.udma_q_m2s qid) n)

ack_completed_desc_runs :
    (m : Engine) (qid n : ℕ)
    → qid < m.udma.num_of_queues
    → ack_completed_desc qid n m ≡ ok tt (record m { udma = acked_pair m.udma qid n })
unfolding ack_completed_desc acked_pair
ack_completed_desc_runs m qid n h = ground arith

ack_fields :
    (u : Udma) (qid n : ℕ)
    → ((acked_pair u qid n).udma_q_m2s qid ≡ cdesc_ack (u.udma_q_m2s qid) n)
      × ((acked_pair u qid n).udma_q_s2m qid ≡ cdesc_ack (u.udma_q_s2m qid) n)
unfolding acked_pair
ack_fields u qid n = (ground arith, ground arith)

pub acked_pair-PairTracks :
    (u : Udma) (qid k alloc acked n : ℕ)
    → PairTracks u qid k alloc acked
    → acked + n ≤ alloc
    → PairTracks (acked_pair u qid n) qid k alloc (acked + n)
acked_pair-PairTracks u qid k alloc acked n v h = record {
  in_range = unfold acked_pair in v.in_range;
  tx_ring = rw (ack_fields u qid n).0 (cdesc_ack-Tracks n v.tx_ring h);
  rx_ring = rw (ack_fields u qid n).1 (cdesc_ack-Tracks n v.rx_ring h);
  tx_on = rw (ack_fields u qid n).0 (unfold cdesc_ack in v.tx_on);
  rx_on = rw (ack_fields u qid n).1 (unfold cdesc_ack in v.rx_on);
}

-- Polling until the marker shows comes to the acknowledgement.
pub poll-completed :
    (h : Host) (rounds j qid ptr count : ℕ) (u : Udma) (t : List Event)
    → j < rounds
    → h.word_value (polled (ptr + 4) j t) (ptr + 4) ≡ dma_completion_marker
    → (t' : List Event) × (poll h rounds qid ptr count (record { udma = u; trace = t })
        ≡ completed qid ptr count (record { udma = u; trace = t' }))
unfolding poll
poll-completed h zero j qid ptr count u t lt seen = absurd (omega arith)
poll-completed h (suc rounds) zero qid ptr count u t lt seen =
    (word_read (ptr + 4) ∷ t, rw (eq→== _ _ seen, ◌>>=◌))
poll-completed h (suc rounds) (suc j) qid ptr count u t lt seen =
    elim (Bool-cases (h.word_value t (ptr + 4) == dma_completion_marker)) [
      | inl hit ↦ (word_read (ptr + 4) ∷ t, rw (hit, ◌>>=◌))
      | inr miss ↦
          rw (miss, ◌>>=◌)
            (poll-completed h rounds j qid ptr count u (udelay 1 ∷ word_read (ptr + 4) ∷ t)
              (omega arith) seen)
    ]

-- What the poll that sees the marker does.
pub completed_runs :
    (qid ptr n : ℕ) (m : Engine)
    → qid < m.udma.num_of_queues
    → completed qid ptr n m
      ≡ ok tt (record {
        udma = acked_pair m.udma qid n;
        trace = word_write ptr dma_completion_marker ∷ word_write (ptr + 4) 0 ∷ m.trace;
      })
unfolding completed
completed_runs qid ptr n m lt =
    ack_completed_desc_runs
      (record m { trace = word_write ptr dma_completion_marker ∷ word_write (ptr + 4) 0 ∷ m.trace })
      qid n lt

-- The polls are enough for hardware that answers within 400 of them.
pub rounds_enough : (count : ℕ) → 0 < count → count ≤ 4079 → 400 < poll_rounds count
rounds_enough count pos small = omega arith

acked_others :
    (u : Udma) (qid n : ℕ) (t : UdmaType) (j : ℕ)
    → j ≢ qid
    → queue (acked_pair u qid n) t j ≡ queue u t j
unfolding acked_pair
acked_others u qid n tx j ne = ground arith
acked_others u qid n rx j ne = ground arith

pub acked_pair-Elsewhere : (u : Udma) (qid n : ℕ) → Elsewhere u (acked_pair u qid n) qid
acked_pair-Elsewhere u qid n = record {
  others = acked_others u qid n;
  queues = unfold acked_pair in refl;
  tx_base = rw (ack_fields u qid n).0 (unfold cdesc_ack in refl);
  rx_base = rw (ack_fields u qid n).1 (unfold cdesc_ack in refl);
}
