-- ===== src/Tests/Commands.antt =====
-- Commands, services of the firmware, and devices that are probed, at concrete inputs.
use aws_neuron_driver.Common.{
  ℕ, true, false, List, [], ◌∷◌, none, some, ◌≡◌, ◌≢◌, refl, arith, ok, err, Outcome, bug, efault,
  enomem, minus_one, bit_and, ◌!=◌, ◌==◌, Errno, ◌/◌, if◌then◌else◌,
}
use aws_neuron_driver.Mempool.{Chunk, World}
use aws_neuron_driver.Mempool.Order.{to_list}
use aws_neuron_driver.FwIo.Crc.Table.{IsBytes}
use aws_neuron_driver.FwIo.Request.{Channel, Firmware, FwEvent, request_write, execute_request}
use aws_neuron_driver.FwIo.Request.Laws.{Fits}
use aws_neuron_driver.FwIo.Services.{
  fw_io_read, fw_io_post_metric, fw_io_topology, array_bytes, cmd_post_to_cw, wait_for_device_ready,
}
use aws_neuron_driver.FwIo.Services.Words.{
  AnswersWith, AreU32, HasMetric, fw_io_read-answered, fw_io_post_metric-HasMetric,
}
use aws_neuron_driver.FwIo.Services.Links.{Neighbours, WasRead, fw_io_topology-links}
use aws_neuron_driver.FwIo.Context.{Setup, Bars, Buffers, fw_io_setup}
use aws_neuron_driver.FwIo.Context.Leaks.{fw_io_setup-allocated}
use aws_neuron_driver.Core.Queues.{Queues, nq_id}
use aws_neuron_driver.Pci.{Held, Pci, Calls, neuron_pci_probe, neuron_pci_remove}
use aws_neuron_driver.Pci.Release.{
  IsReleased, neuron_pci_probe-IsReleased, neuron_pci_remove-IsReleased,
}
use aws_neuron_driver.Cdev.Copies.{Copying, Env}
use aws_neuron_driver.Cdev.Memory.{MemAlloc, mem_alloc}
use aws_neuron_driver.Cdev.Memory.Laws.{mem_alloc-undone}
use aws_neuron_driver.Cdev.Firmware.{DeviceState, DeviceInfo, ncdev_device_info}
use aws_neuron_driver.Cdev.Firmware.Cached.{ncdev_device_info-cached}
use aws_neuron_driver.Cdev.Notifications.{NotificationsInit, ncdev_nc_nq_init, ncdev_mmap}
use aws_neuron_driver.Cdev.Notifications.Mapped.{ncdev_mmap-ncdev_nc_nq_init}
use aws_neuron_driver.Tests.Pools.{
  kernel, kernel-IsBalanced, world, two, two-IsOrdered, fresh_chunk, allocated, allocated_made,
}
use aws_neuron_driver.Tests.Firmware.{fresh, answers}
use aws_neuron_driver.Tests.Engines.{queues}

-- A firmware that answers with the bytes of the word 0x80000003: ready, both links up.
abbrev ready : Firmware
ready = record answers { byte = λ t n. if n == 0 then 3 else if n == 3 then 0x80 else 0 }

abbrev word : List ℕ
word = 0x80000003 ∷ []

ready-AnswersWith : AnswersWith ready word
unfolding array_bytes aws_neuron_driver.FwIo.Request.copy_bytes
    aws_neuron_driver.FwIo.Request.le_bytes
ready-AnswersWith = record { success = λ t. refl; size = λ t. refl; data_bytes = λ t. refl }

word-AreU32 : AreU32 word
unfolding AreU32
word-AreU32 = (omega arith, tt)

asked-Fits : Fits fresh.ctx (array_bytes 8 (0xffff078e01c ∷ [])) 4
unfolding array_bytes aws_neuron_driver.FwIo.Request.le_bytes
asked-Fits = record { request = refl; response = refl; buffer = refl }

fw_io_read-answered_example :
    (c : Channel) × (fw_io_read ready (0xffff078e01c ∷ []) (7 ∷ []) fresh ≡ ok word c)
unfolding aws_neuron_driver.FwIo.Request.bump_seq
fw_io_read-answered_example =
    fw_io_read-answered ready (0xffff078e01c ∷ []) (7 ∷ []) word 0 fresh refl refl word-AreU32
      ready-AnswersWith asked-Fits (omega arith) refl

abbrev metric : List ℕ
metric = 0x12 ∷ 0xff ∷ 0x00 ∷ 0x80 ∷ 0x34 ∷ []

metric-IsBytes : IsBytes metric
metric-IsBytes = (omega arith, (omega arith, (omega arith, (omega arith, (omega arith, tt)))))

fw_io_post_metric-HasMetric_example :
    (c : Channel) × HasMetric metric fresh c
    × (fw_io_post_metric answers metric fresh ≡ execute_request answers cmd_post_to_cw metric 5 c)
fw_io_post_metric-HasMetric_example =
    fw_io_post_metric-HasMetric answers metric fresh metric-IsBytes

abbrev left_by : {A : Type 0} → Outcome Channel A → Channel
left_by (ok a c) = c
left_by (err e c) = fresh
left_by bug = fresh

-- The number of the last request.
abbrev asked_number : List FwEvent → ℕ
asked_number [] = 0
asked_number (request_write (seq ∷ bytes) ∷ trace) = seq
asked_number (e ∷ trace) = asked_number trace

-- A firmware that answers every request under its number.
abbrev prompt : Firmware
prompt = record ready { sequence_number = asked_number }

abbrev topology : Outcome Channel (List ℕ)
topology = fw_io_topology prompt 0 fresh

abbrev linked : List ℕ
linked = 0x80000003 ∷ 0x80000003 ∷ []

topology_made : topology ≡ ok linked (left_by topology)
unfolding fw_io_topology execute_request aws_neuron_driver.FwIo.Request.await_response
    aws_neuron_driver.FwIo.Request.make_request aws_neuron_driver.FwIo.Request.bump_seq
    aws_neuron_driver.FwIo.Request.take_response aws_neuron_driver.FwIo.Services.le_value
topology_made = refl

fw_io_topology-links_example :
    (v : ℕ) × (c : Channel) × (wait_for_device_ready prompt 60 0 fresh ≡ ok (some v) c)
    × ((bit_and v 0x80000000 != 0) ≡ true)
    × WasRead prompt v c
    × Neighbours prompt v c linked (left_by topology)
fw_io_topology-links_example =
    fw_io_topology-links prompt 0 fresh (left_by topology) linked topology_made

abbrev node : DeviceState
node = record {
  channel = fresh;
  connected_devices = [];
  architecture = 1;
  revision = 2;
  bar0 = 0x1000_0000;
  bar0_size = 0x800_0000;
  bar2 = 0x2000_0000;
  bar2_size = 0x1000_0000;
}

abbrev discovered : DeviceState
discovered = record node { channel = left_by topology; connected_devices = linked }

abbrev info : DeviceInfo
info = record {
  architecture = 1;
  revision = 2;
  connected_devices = linked;
  bar_address = (0x1000_0000, 0x2000_0000);
  bar_size = (0x800_0000, 0x1000_0000);
}

info_made : ncdev_device_info prompt 0 none node ≡ ok info discovered
unfolding ncdev_device_info execute_request aws_neuron_driver.FwIo.Request.await_response
    aws_neuron_driver.FwIo.Request.make_request aws_neuron_driver.FwIo.Request.bump_seq
    aws_neuron_driver.FwIo.Request.take_response aws_neuron_driver.FwIo.Services.le_value
info_made = refl

some_there : linked ≢ []
some_there e = absurd cc

ncdev_device_info-cached_example : ncdev_device_info prompt 9 none discovered ≡ ok info discovered
ncdev_device_info-cached_example =
    ncdev_device_info-cached prompt 0 9 node discovered info info_made some_there

abbrev buffers : Buffers
buffers = record {
  ctx = 0x100;
  request = 0x10000;
  response = 0;
  request_phys = 0x10000;
  response_phys = 0;
}

abbrev bars : Bars
bars = record {
  device_index = 3;
  bar0 = 0x1000_0000;
  bar0_size = 0x800_0000;
  bar2 = 0x2000_0000;
  bar2_size = 0x1000_0000;
}

abbrev empty : Setup
empty = record { regions = none ∷ none ∷ []; allocated = 0x40 ∷ []; writes = [] }

request-ne-response : ◌≢◌ {A = ℕ} 0 0x10000
request-ne-response = omega arith

no_response : fw_io_setup buffers bars empty ≡ err minus_one empty
unfolding fw_io_setup
no_response = refl

fw_io_setup-allocated_example : ◌≡◌ {A = List ℕ} (0x40 ∷ []) (0x40 ∷ [])
fw_io_setup-allocated_example =
    fw_io_setup-allocated buffers bars empty empty minus_one request-ne-response no_response

abbrev nothing : Held
nothing = record {
  memory = false;
  enabled = false;
  apb_region = false;
  axi_region = false;
  bars_mapped = 0;
  fw_io = false;
  mpset = false;
  device_node = false;
}

abbrev bus : Pci
bus = record { device_count = 2; neuron_devices = λ i. i == 0; device_index = 0; held = nothing }

-- The node cannot be created.
abbrev calls : Calls
calls = record {
  kzalloc = true;
  enable_device = none;
  request_apb = none;
  request_axi = none;
  apb_len = 0x800_0000;
  apb_start = 0x1000_0000;
  axi_start = 0x2000_0000;
  setup = true;
  host_init = none;
  create_device_node = some enomem;
  delete_device_node = none;
}

abbrev bus_after : Pci
bus_after = record bus {
  device_count = 3;
  device_index = 2;
  held = record nothing { bars_mapped = 2 };
}

bus-IsReleased : IsReleased bus.held
bus-IsReleased = record {
  memory = refl;
  enabled = refl;
  apb_region = refl;
  axi_region = refl;
  fw_io = refl;
  mpset = refl;
  device_node = refl;
}

probe_failed : neuron_pci_probe calls bus ≡ err enomem bus_after
unfolding neuron_pci_probe
probe_failed = refl

neuron_pci_probe-IsReleased_example :
    IsReleased bus_after.held × (bus_after.neuron_devices ≡ bus.neuron_devices)
neuron_pci_probe-IsReleased_example =
    neuron_pci_probe-IsReleased calls bus bus_after enomem bus-IsReleased probe_failed

neuron_pci_remove-IsReleased_example :
    (q : Pci) × (neuron_pci_remove calls bus ≡ ok tt q)
    × IsReleased q.held
    × (q.neuron_devices 0 ≡ false)
neuron_pci_remove-IsReleased_example = neuron_pci_remove-IsReleased calls bus refl

abbrev failing : Env
failing = record {
  status = λ actions a. some efault;
  descs = λ actions va i. record { tx_buf_ptr = 0; rx_buf1_ptr = 0 };
}

abbrev asked : MemAlloc
asked = record {
  size = 64;
  host_memory = 1;
  dram_channel = 0;
  dram_region = 0;
  nc_id = 0;
  mem_handle = 0x7fff_0000;
}

abbrev copying : Copying ℕ ℕ
copying = record { world = world; actions = [] }

mem_alloc-undone_example :
    (s : Copying ℕ ℕ) × (mem_alloc kernel failing asked copying ≡ err efault s)
    × (s.world.mpset.host_allocated ≡ world.mpset.host_allocated)
    × (s.world.mpset.host_mem_size ≡ 0x200)
    × (to_list s.world.mpset.root ≡ to_list two)
unfolding to_list
mem_alloc-undone_example =
    mem_alloc-undone kernel kernel-IsBalanced failing asked efault copying fresh_chunk allocated
      refl allocated_made refl two-IsOrdered
      ((λ e. omega (arith, e)), ((λ e. omega (arith, e)), tt)) (omega arith)

abbrev notifications : NotificationsInit
notifications = record { nc_id = 2; nq_type = 1; engine_index = 3; size = 64 }

abbrev queue_made : Outcome (Queues ℕ ℕ) ℕ
queue_made = ncdev_nc_nq_init kernel 0x4000_0000 notifications none queues

abbrev queues_of : Outcome (Queues ℕ ℕ) ℕ → Queues ℕ ℕ
queues_of (ok a q) = q
queues_of (err e q) = q
queues_of bug = queues

queue_is_made : queue_made ≡ ok 48318382080 (queues_of queue_made)
unfolding ncdev_nc_nq_init aws_neuron_driver.Core.Queues.nc_nq_init
    aws_neuron_driver.Core.nc_get_nq_mmap_offset aws_neuron_driver.Mempool.Alloc.mc_alloc
queue_is_made = refl

ncdev_mmap-ncdev_nc_nq_init_example :
    (c : Chunk) × ((queues_of queue_made).nq_mc 2 (nq_id 3 1) ≡ some c)
    × (ncdev_mmap kernel 0x4000_0000 none 48318382080 (queues_of queue_made)
        ≡ ok (c.pa / 4096, c.size) (queues_of queue_made))
    × ((error : Errno)
        → ncdev_mmap kernel 0x4000_0000 (some error) 48318382080 (queues_of queue_made)
          ≡ err error (queues_of queue_made))
ncdev_mmap-ncdev_nc_nq_init_example =
    ncdev_mmap-ncdev_nc_nq_init kernel 0x4000_0000 notifications none queues (queues_of queue_made)
      48318382080 (omega arith) (omega arith) (omega arith) queue_is_made
