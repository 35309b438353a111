-- ===== src/Lib.antt =====
-- The AWS Neuron driver: the part of the kernel module that moves data and talks to the firmware.
--
-- The driver copies memory by the DMA engines of the device. An engine (udma/udma.h,
-- udma/udma_main.c) has sixteen queues, each a ring of transmit descriptors and a ring of receive
-- descriptors; udma/udma_m2m.c builds a pair of descriptors for a copy of up to 64K and rings the
-- doorbells; neuron_dma.c splits a copy into such pairs, queues as many as a ring holds and waits
-- for a completion marker that the hardware copies last. neuron_ring.c gives queues their memory
-- and sizes. Registers are read through the firmware: v1/fw_io.c sends a request with a sequence
-- number and a CRC-32C, and translates addresses of the PCI BARs to device addresses. neuron_core.c
-- maps semaphores, events and notification queues to addresses. neuron_mempool.c hands out chunks of
-- host and device memory, and finds a chunk of host memory by its address. neuron_cdev.c answers the
-- commands of processes: it keeps one owner for each device, and calls the parts above.
-- neuron_pci.c probes a device, which maps its BARs and sets up the firmware channel.
--
-- Files and code:
--   Common      Boolean tests, words of C (`% 2 ^ w`), lists, bit operations, and the monad of the
--               driver's functions: a state, a status and `BUG()`
--   Udma/Types  the structs and enums of udma/udma.h; an engine is a `Udma` with the list of its effects
--               (register accesses, descriptor writes, barriers, allocations), and the world's answers
--               are a `Host`, a function of the effects so far
--   Udma/Ring   the inline functions of udma/udma.h: udma_available_get, udma_desc_get,
--               udma_ring_id_get, udma_cdesc_ack, the latter also beside other CPUs
--   Udma/Init   udma_q_init and what it calls, udma_m2m_init_queue
--   Udma/Copy   udma_m2m_build_descriptor, udma_m2m_copy_prepare_one, udma_m2m_copy_start
--   Udma/State  udma_state_set, udma_state_get, udma_s2m_stream_status_get
--   Udma/Iofic  the error interrupts of udma/udma_iofic.c
--   Udma/Engine udma_set_defaults, udma_init, udma_m2m_init_engine
--   Udma/Setup  udma_handle_init_aux, udma_cache_defaults, udma_m2s_packet_size_cfg_set,
--               udma_m2s_max_descs_set
--   Udma/Layout the structs of udma/udma_regs.h, and the address of every register that the code reaches
--   Dma         ndma_memcpy, ndma_memcpy64k, ndma_memcpy_wait_for_completion, ndma_ack_completed_desc
--   Dma/Chunks  ndma_memcpy_mc, ndma_memcpy_buf_to_mc, ndma_memcpy_buf_from_mc
--   Dma/Check   ndma_is_valid_host_mem, the check in ndma_memcpy_dma_copy_descriptors
--   Dma/QueueState
--               ndmar_queue_read_state, ndmar_queue_get_state
--   Rings       ndmar_ring_get_desc_count, ndmar_ring_set_mem_chunk, ndmar_queue_init,
--               ndmar_h2t_ring_init, ndmar_ack_completed, ndmar_queue_copy_start
--   Rings/Tdma  tdma_init_engine of v1/tdma.h, and where the registers of an engine are
--   Rings/Device
--               ndmar_h2t_ring_alloc, ndmar_h2t_ring_free, ndmar_eng_init, ndmar_init, ndmar_close,
--               ndmar_eng_set_state, ndmar_eng_get_state, ndmar_queue_get_descriptor_mc, on the pools
--               and the engines of a device
--   FwIo/Crc, FwIo/Request, FwIo/Region
--               crc32c, fw_io_execute_request, fw_io_register_read_region, fw_io_read_csr_array
--   FwIo/Services
--               fw_io_read, fw_io_post_metric, fw_io_topology, fw_io_initiate_reset,
--               fw_io_is_reset_initiated, fw_io_is_device_ready
--   FwIo/Context
--               fw_io_setup, fw_io_destroy
--   Core        nc_semaphore_*, nc_event_*, nc_get_nq_mmap_offset, nc_get_nq_from_mmap_offset
--   Core/Queues nc_nq_init, nc_nq_destroy, nc_nq_destroy_all, nc_nq_mmap, the registers of v1/putils.h
--   Mempool     mp_init, mp_destroy, mpset_search_mc and the tree of chunks; with Mempool/Set for
--               mpset_* and Mempool/Alloc for mc_alloc and mc_free
--   Cdev        ncdev_ioctl, on the commands of neuron_ioctl.h in Cdev/Ioctl
--   Cdev/Owner  ncdev_open, ncdev_close, ncdev_device_init, ncdev_device_release; Cdev/Owner/Steps has
--               the sequences of these calls
--   Cdev/Copies ncdev_mem_copy, ncdev_mem_buf_copy, ncdev_dma_copy_descriptors,
--               ndma_memcpy_dma_copy_descriptors
--   Cdev/Bar    ncdev_bar_read, ncdev_bar_write, ncdev_bar_rw
--   Cdev/Memory ncdev_mem_alloc, ncdev_mem_get_pa, ncdev_mem_free, ncdev_dma_descriptor_copyout
--   Cdev/Engines
--               ncdev_dma_engine_* and the commands on queues
--   Cdev/Firmware
--               ncdev_device_info, ncdev_post_metric, ncdev_read_hw_counters and those on resets
--   Cdev/Notifications
--               ncdev_nc_nq_init, ncdev_nc_nq_destroy, ncdev_mmap
--   Pci         neuron_pci_probe and neuron_pci_remove, by what a device holds
--   Tests       the theorems at concrete inputs
--
-- A function keeps its name less a prefix that its module says (`udma_q_init` is `q_init`). A child
-- module such as Udma/Ring/View or Dma/Schedule holds a specification and its proofs.
--
-- Bounds and fuel: the poll loops have the driver's own numbers of rounds. The loop of
-- `ndma_memcpy` runs on fuel of one round a chunk of 64K and two more, where it ends by itself;
-- running out would be the outcome `bug`. So does the loop of a copy through a bounce buffer,
-- which ends there below 2 ^ 31 bytes. The loop over user descriptors runs on fuel of one round a
-- descriptor and one more, and is `running` where it would go on. Integers keep the width that C gives them.
--
-- Outside the model: the kernel's allocators and the balancing of its trees are the parameter `Kernel`,
-- with the module parameter mempool_min_alloc_size, taken as not negative, in it; the status of
-- `remap_pfn_range` is an argument,
-- `virt_to_phys` and the hardware are the parameter `Host`, the firmware's responses are the parameter
-- `Firmware`, the kernel's answers to a probe are `Calls`, the memory of processes and the outcome of a command's transfers
-- are the parameter `Env`;
-- mutexes, which leave one call at a time on a ring, a channel or a pool, are taken as held, but
-- that of the device nodes is part of its state; trace points, messages and fault injection are left out.
-- Cdev/Owner/Steps takes ncdev_close, which locks twice, as one step, and lets a process close,
-- initialize and release only with an open file of its own thread group and parent: a file that a
-- process of another parent inherits and closes is outside of it.
-- Not modelled: pci_write_config_word in ncdev_device_info and the uninitialized tail of the struct that
-- it copies out, the handlers of the commands on semaphores and events in neuron_cdev.c, which pass
-- their argument on to neuron_core.c, the mutexes of ndmar_preinit, and the registration of the
-- driver, its device nodes and its trace points with the kernel.
pub mod Common
pub mod Udma
pub mod Dma
pub mod Rings
pub mod FwIo
pub mod Core
pub mod Mempool
pub mod Cdev
pub mod Pci
mod Tests
