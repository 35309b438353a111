-- ===== src/Tests/Devices.antt =====
-- Engine states and the rings of a device.
use aws_neuron_driver.Common.{ℕ, true, false, none, some, ◌≢◌, arith}
use aws_neuron_driver.Udma.Types.{Engine}
use aws_neuron_driver.Udma.Init.{RingPtr}
use aws_neuron_driver.Mempool.{Chunk, loc_device}
use aws_neuron_driver.Rings.{NdmaQueue, NdmaEng}
use aws_neuron_driver.Tests.Data.{engine, busy_ring}

abbrev device : Engine
device = engine busy_ring

abbrev at_page : RingPtr
at_page = record { addr = 0x40000; ptr = 0x40000 }

abbrev chunk : Chunk
chunk = record {
  mc = 0x1000;
  pa = 0x40000;
  va = 0x80000;
  size = 0x20000;
  dram_channel = 0;
  dram_region = 0;
  nc_id = 0;
  mem_location = loc_device;
}

abbrev queue_of_pages : NdmaQueue
queue_of_pages = record {
  ring_info = record {
    qid = 15;
    size = 131072;
    has_compl = false;
    tx_ptr = at_page;
    rx_ptr = at_page;
    rxc_ptr = at_page;
    tx_mc = some chunk;
    rx_mc = some chunk;
    rxc_mc = none;
  };
  eng_id = 2;
  qid = 15;
}

abbrev pub h2t_engine : NdmaEng
h2t_engine = record {
  eng_id = 2;
  queues = λ i. queue_of_pages;
  engine = device;
  used_for_h2t = true;
}

sixteen-ne-zero : ◌≢◌ {A = ℕ} 16 0
sixteen-ne-zero = omega arith
