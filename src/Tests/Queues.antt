-- ===== src/Tests/Queues.antt =====
-- Bringing up queue 3 with rings of 8192 descriptors.
use aws_neuron_driver.Common.{ℕ, some, ◌^◌, ◌≡◌, ◌≢◌, refl, inl, bug, arith}
use aws_neuron_driver.Udma.Types.{Engine}
use aws_neuron_driver.Udma.Init.{m2m_init_queue, RingPtr}
use aws_neuron_driver.Udma.Init.Pair.{CanInit, m2m_init_queue_with_completion}
use aws_neuron_driver.Tests.Data.{engine, busy_ring, answering}

abbrev blank : Engine
blank = engine busy_ring

four-ne-zero : ◌≢◌ {A = ℕ} 0x400000 0
four-ne-zero = omega arith

sixteen-ne-zero : ◌≢◌ {A = ℕ} 16 0
sixteen-ne-zero = omega arith

abbrev ring_at : ℕ → RingPtr
ring_at a = record { ptr = a; addr = a }

blank-CanInit : CanInit blank.udma 3 13
blank-CanInit = record {
  in_range = omega arith;
  least = omega arith;
  most = omega arith;
  tx_completion = inl refl;
  rx_completion = inl refl;
}

m2m_init_queue_with_completion_example :
    m2m_init_queue answering 3
      (2 ^ 13)
      (2 ^ 13)
      1
      (ring_at 0x200000)
      (ring_at 0x300000)
      (some (ring_at 0x400000))
      blank
    ≡ bug
m2m_init_queue_with_completion_example =
    m2m_init_queue_with_completion answering 1 (ring_at 0x200000) (ring_at 0x300000) blank
      blank-CanInit refl (ring_at 0x400000) four-ne-zero sixteen-ne-zero
