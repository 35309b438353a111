-- ===== src/Tests/Systems.antt =====
-- A device whose engines are brought up, the state of its queues, and where its registers are.
use aws_neuron_driver.Common.{
  ℕ, List, [], ◌∷◌, some, none, ◌≡◌, ◌≢◌, refl, arith, ok, Returns, ◌>>◌, ◌==◌, if◌then◌else◌,
}
use aws_neuron_driver.Udma.Types.{
  tx, queue_reg, QueueReg, Engine, Host, UdmaQParams, Event, reg_write,
}
use aws_neuron_driver.Udma.Ring.Pair.{PairTracks}
use aws_neuron_driver.Udma.Layout.Registers.{reg_word, IsPlaced}
use aws_neuron_driver.Udma.Layout.Windows.{reg_address_injective}
use aws_neuron_driver.Mempool.{Kernel}
use aws_neuron_driver.Mempool.Given.{IsGiving}
use aws_neuron_driver.Dma.{ndma_memcpy}
use aws_neuron_driver.Dma.Wait.{Answers}
use aws_neuron_driver.Dma.Chunks.{h2t_engine}
use aws_neuron_driver.Dma.QueueState.{QueueState}
use aws_neuron_driver.Rings.Device.{Device, ndmar_init, h2t_ring_alloc, h2t_ring_free}
use aws_neuron_driver.Rings.Device.Init.{Serves}
use aws_neuron_driver.Rings.Device.Transfers.{ndmar_init-ndma_memcpy}
use aws_neuron_driver.Rings.Device.Free.{Has, h2t_ring_free-h2t_ring_alloc}
use aws_neuron_driver.Tests.Data.{engine, answering-Answers}
use aws_neuron_driver.Tests.Engines.{revision_4, revision_4-IsReadable}
use aws_neuron_driver.Tests.Devices
use aws_neuron_driver.Tests.Pools.{kernel, world}

-- A kernel that gives the same pages whenever it is asked.
abbrev pages : Kernel ℕ ℕ
pages = record kernel { kmalloc = λ size h. (0x40000, h) }

page-ne-zero : ◌≢◌ {A = ℕ} 0x40000 0
page-ne-zero = omega arith

pages-IsGiving : IsGiving pages
pages-IsGiving = record { gives = λ size h. page-ne-zero }

abbrev hosts : ℕ → Host
hosts i = revision_4

hosts-Serves : Serves pages hosts
hosts-Serves = record {
  giving = pages-IsGiving;
  aligned = λ i size heap large. refl;
  readable = λ i. revision_4-IsReadable;
  revision = λ i trace. refl;
}

revision_4-Answers : Answers revision_4
revision_4-Answers = record {
  memory = answering-Answers.memory;
  polls = answering-Answers.polls;
  soon = answering-Answers.soon;
  marker = answering-Answers.marker;
}

abbrev device : Device ℕ ℕ
device = record { world = world; engines = λ i. Devices.h2t_engine }

ndmar_init-ndma_memcpy_example :
    (t : Device ℕ ℕ) × (m : Engine) × (n : ℕ) × (ndmar_init pages hosts 0x1000_0000 device
      ≡ ok tt t)
    × (ndma_memcpy revision_4 15 0x10000000 0x20000000 0x12345678 (t.engines (h2t_engine 2)).engine
        ≡ ok tt m)
    × PairTracks m.udma 15 13 n n
ndmar_init-ndma_memcpy_example =
    ndmar_init-ndma_memcpy pages hosts hosts-Serves 0x1000_0000 device 2 0x10000000 0x20000000
      0x12345678 (omega arith) revision_4-Answers (omega arith)

h2t_ring_free-h2t_ring_alloc_example :
    Returns
      (Has pages (h2t_engine 3) none none world.mpset.host_allocated)
      ((h2t_ring_alloc pages hosts 3 >> h2t_ring_free pages (h2t_engine 3)) device)
h2t_ring_free-h2t_ring_alloc_example =
    h2t_ring_free-h2t_ring_alloc pages hosts pages-IsGiving 3 device (omega arith) refl

tail_of_queue_15 : IsPlaced (queue_reg tx 15 QueueReg.drtp_inc)
unfolding aws_neuron_driver.Udma.Layout.Registers.IsPlaced
tail_of_queue_15 = omega arith

reg_address_injective_example :
    (◌≡◌ {A = ℕ} 5 5) × (queue_reg tx 15 QueueReg.drtp_inc ≡ queue_reg tx 15 QueueReg.drtp_inc)
reg_address_injective_example =
    reg_address_injective 0x1000 5 5 (queue_reg tx 15 QueueReg.drtp_inc)
      (queue_reg tx 15 QueueReg.drtp_inc) tail_of_queue_15 tail_of_queue_15 refl

-- What was last written to a word.
abbrev written_at : List Event → ℕ → ℕ
written_at [] w = 0
written_at (reg_write r v ∷ trace) w =
    let before : ℕ = written_at trace w in if reg_word r == w then v else before
written_at (e ∷ trace) w = written_at trace w

abbrev memory : Host
memory = record revision_4 { reg_value = λ trace r. some (written_at trace (reg_word r)) }

abbrev params : UdmaQParams
params = record {
  size = 64;
  allocatable = 1;
  desc_base = 0x100000;
  desc_phy_base = 0x4000_0010_0040;
  cdesc_base = 0;
  cdesc_phy_base = 0;
  adapter_rev_id = 0;
  queue_type = tx;
}
