-- ===== src/Tests/Data.antt =====
-- A device with rings of 8192 descriptors, two hosts and a firmware.
use aws_neuron_driver.Common.{ℕ, List, [], some, ◌≢◌, refl, arith}
use aws_neuron_driver.Udma.Types.{tx, UdmaState, QueueStatus, UdmaQ, Engine, Host, Event}
use aws_neuron_driver.Udma.Ring.View.{Tracks}
use aws_neuron_driver.Udma.Ring.Pair.{PairTracks}
use aws_neuron_driver.Dma.Wait.{Answers}

-- A ring with its next descriptor and its next acknowledgement.
abbrev pub ring : (next_desc next_cdesc phase : ℕ) → UdmaQ
ring next_desc next_cdesc phase = record {
  size_mask = 8191;
  desc_base_ptr = 0x100000;
  is_allocatable = 1;
  next_desc_idx = next_desc;
  desc_ring_id = phase;
  cdesc_base_ptr = 0;
  cdesc_size = 0;
  next_cdesc_idx = next_cdesc;
  end_cdesc_ptr = 0;
  comp_head_idx = 0;
  comp_head_ptr = 0;
  pkt_crnt_descs = 0;
  comp_ring_id = 1;
  desc_phy_base = 0x100000;
  cdesc_phy_base = 0;
  flags = 2;
  size = 8192;
  status = QueueStatus.queue_enabled;
  qid = 3;
  queue_type = tx;
  adapter_rev_id = 0;
  cfg = 0;
  rlimit_mask = 0;
}

abbrev pub engine : UdmaQ → Engine
engine q = record {
  udma = record {
    state_m2s = UdmaState.normal;
    state_s2m = UdmaState.normal;
    num_of_queues_max = 16;
    num_of_queues = 16;
    udma_q_m2s = λ i. q;
    udma_q_s2m = λ i. q;
    rev_id = 4;
    cdesc_size = 16;
  };
  trace = [];
}

-- 8190 allocated, ten of them in flight.
abbrev pub busy_ring : UdmaQ
busy_ring = ring 8190 8180 1

-- All 8190 acknowledged.
abbrev pub quiet_ring : UdmaQ
quiet_ring = ring 8190 8190 1

pub busy_ring-Tracks : Tracks busy_ring 13 8190 8180
busy_ring-Tracks = record {
  least = omega arith;
  most = omega arith;
  size_is = refl;
  mask_is = refl;
  next_desc = refl;
  next_cdesc = refl;
  phase = refl;
  order = omega arith;
  room = omega arith;
}

pub quiet_ring-Tracks : Tracks quiet_ring 13 8190 8190
quiet_ring-Tracks = record {
  least = omega arith;
  most = omega arith;
  size_is = refl;
  mask_is = refl;
  next_desc = refl;
  next_cdesc = refl;
  phase = refl;
  order = omega arith;
  room = omega arith;
}

pub one-ne-zero : ◌≢◌ {A = ℕ} 1 0
one-ne-zero = omega arith

-- Both rings of queue 3 alike.
pub engine-PairTracks :
    {q : UdmaQ} {k alloc acked : ℕ}
    → q.is_allocatable ≢ 0
    → Tracks q k alloc acked
    → PairTracks (engine q).udma 3 k alloc acked
engine-PairTracks on v = record {
  in_range = omega arith;
  tx_ring = v;
  rx_ring = v;
  tx_on = on;
  rx_on = on;
}

-- A host whose hardware answers before the first poll.
abbrev pub answering : Host
answering = record {
  reg_value = λ t r. some 0;
  kmalloc_addr = λ t n. 4096;
  word_value = λ t a. 0xabcdef01;
  virt_to_phys = λ a. a;
}

page-ne-zero : ◌≢◌ {A = ℕ} 4096 0
page-ne-zero = omega arith

pub answering-Answers : Answers answering
answering-Answers = record {
  memory = λ t n. page-ne-zero;
  polls = λ t a. 0;
  soon = λ t a. omega arith;
  marker = λ t a. refl;
}

-- A host whose hardware never writes the marker.
abbrev pub silent : Host
silent = record answering { word_value = λ t a. 0 }

pub silent-memory : (t : List Event) (n : ℕ) → silent.kmalloc_addr t n ≢ 0
silent-memory t n = page-ne-zero

pub silent-word : (s : List Event) (p : ℕ) → silent.word_value s p ≢ 0xabcdef01
silent-word s p = zero-ne-marker
  where
    zero-ne-marker : ◌≢◌ {A = ℕ} 0 0xabcdef01
    zero-ne-marker = omega arith
