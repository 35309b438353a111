-- ===== src/Udma/Ring/Pair.antt =====
-- The two rings of a queue that copies memory to memory are filled in step.
use aws_neuron_driver.Common.{ℕ, ◌<◌, ◌≢◌}
use aws_neuron_driver.Udma.Types.{Udma}
use aws_neuron_driver.Udma.Ring.View.{Tracks}

pub record PairTracks (u : Udma) (qid k alloc acked : ℕ) : Type 0 where
  pub in_range : qid < u.num_of_queues
  pub tx_ring : Tracks (u.udma_q_m2s qid) k alloc acked
  pub rx_ring : Tracks (u.udma_q_s2m qid) k alloc acked
  pub tx_on : (u.udma_q_m2s qid).is_allocatable ≢ 0
  pub rx_on : (u.udma_q_s2m qid).is_allocatable ≢ 0
