-- ===== src/Tests/Engines.antt =====
-- The set-up of an engine, the check of descriptors, and the notification queues of a device.
use aws_neuron_driver.Common.{
  ℕ, true, Option, none, some, [], ◌+◌, ◌*◌, ◌≡◌, ◌&&◌, ◌==◌, ◌↔◌, refl, arith, Returns,
  if◌then◌else◌,
}
use aws_neuron_driver.Udma.Types.{Host}
use aws_neuron_driver.Udma.Engine.{m2m_init_engine}
use aws_neuron_driver.Udma.Engine.Keeps.{IsReadable}
use aws_neuron_driver.Udma.Engine.Returns.{IsSetUp, m2m_init_engine-IsSetUp}
use aws_neuron_driver.Rings.{type_tx}
use aws_neuron_driver.Mempool.{leaf}
use aws_neuron_driver.Dma.Check.{NeuronDevice, is_valid_host_mem, DescAddrs, check_descs}
use aws_neuron_driver.Dma.Check.Hosts.{Holder, is_valid_host_mem_iff}
use aws_neuron_driver.Dma.Check.Descs.{check_all, check_descs-check_all}
use aws_neuron_driver.Core.Queues.{Queues}
use aws_neuron_driver.Tests.Data.{engine, busy_ring, answering}
use aws_neuron_driver.Tests.Pools.{world, low, two}

-- Every register reads 4, the revision of the engines.
abbrev pub revision_4 : Host
revision_4 = record answering { reg_value = λ trace r. some 4 }

pub revision_4-IsReadable : IsReadable revision_4
revision_4-IsReadable trace r = (4, refl)

m2m_init_engine-IsSetUp_example :
    Returns
      (λ s. IsSetUp s × (s.udma.cdesc_size ≡ 16))
      (m2m_init_engine revision_4 16 (engine busy_ring))
m2m_init_engine-IsSetUp_example =
    m2m_init_engine-IsSetUp revision_4 revision_4-IsReadable (engine busy_ring) refl

abbrev device : NeuronDevice
device = record { device_index = 3; current_pid = 7; root = two }

abbrev neighbour : NeuronDevice
neighbour = record { device_index = 4; current_pid = 7; root = leaf }

abbrev devices : ℕ → Option NeuronDevice
devices i = if i == 3 then some device else if i == 4 then some neighbour else none

is_valid_host_mem_iff_example :
    (is_valid_host_mem devices neighbour 0x2010 ≡ true) ↔ Holder devices neighbour 0x2010
is_valid_host_mem_iff_example = is_valid_host_mem_iff devices neighbour 0x2010 (omega arith)

-- Descriptors to device memory.
abbrev descs : ℕ → DescAddrs
descs i = record { tx_buf_ptr = i * 64; rx_buf1_ptr = i * 64 }

check_descs-check_all_example :
    check_descs devices device (3 + 1 + 2) type_tx descs 0 (3 * 16)
    ≡ check_all devices device type_tx descs 0 3
check_descs-check_all_example =
    check_descs-check_all devices device type_tx descs 3 0 2 (omega arith)

abbrev pub queues : Queues ℕ ℕ
queues = record {
  nq_mc = λ nc id. if (nc == 2) && (id == 5) then some low else none;
  world = world;
  writes = [];
}
