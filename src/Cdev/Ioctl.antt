-- ===== src/Cdev/Ioctl.antt =====
-- The numbers of the commands of `ioctl`, neuron_ioctl.h.
use aws_neuron_driver.Common.{ℕ}

-- The direction of a command, by which of the kernel's macros defines it: `_IO`, `_IOR`, `_IOW` or
-- `_IOWR`.
pub data Dir : Type 0 where
  io ior iow iowr : Dir

-- A command number is its direction, its number under 'N' and the size of its argument, packed by
-- the kernel's `_IOC`.
pub record Cmd : Type 0 where
  pub dir : Dir
  pub nr : ℕ
  pub size : ℕ

abbrev cmd : Dir → ℕ → ℕ → Cmd
cmd d n s = record { dir = d; nr = n; size = s }

-- NEURON_IOCTL_DEVICE_RESET and the others; a pointer has 8 bytes.
abbrev pub device_reset : Cmd
device_reset = cmd io 1 0

abbrev pub device_reset_status : Cmd
device_reset_status = cmd ior 2 1

abbrev pub device_ready : Cmd
device_ready = cmd ior 2 1

abbrev pub device_info : Cmd
device_info = cmd ior 3 8

abbrev pub device_init : Cmd
device_init = cmd ior 4 8

abbrev pub device_release : Cmd
device_release = cmd io 5 0

abbrev pub device_app_pid : Cmd
device_app_pid = cmd ior 6 4

abbrev pub bar_read : Cmd
bar_read = cmd ior 11 8

abbrev pub bar_write : Cmd
bar_write = cmd iow 12 8

abbrev pub post_metric : Cmd
post_metric = cmd iow 13 8

abbrev pub mem_alloc : Cmd
mem_alloc = cmd ior 21 8

abbrev pub mem_free : Cmd
mem_free = cmd ior 22 8

abbrev pub mem_copy : Cmd
mem_copy = cmd ior 23 8

abbrev pub mem_buf_copy : Cmd
mem_buf_copy = cmd iowr 24 8

abbrev pub mem_get_pa : Cmd
mem_get_pa = cmd ior 25 8

abbrev pub dma_eng_init : Cmd
dma_eng_init = cmd ior 30 8

abbrev pub dma_eng_set_state : Cmd
dma_eng_set_state = cmd ior 31 8

abbrev pub dma_eng_get_state : Cmd
dma_eng_get_state = cmd iowr 32 8

abbrev pub dma_queue_init : Cmd
dma_queue_init = cmd ior 33 8

abbrev pub dma_queue_release : Cmd
dma_queue_release = cmd ior 34 8

abbrev pub dma_queue_copy_start : Cmd
dma_queue_copy_start = cmd ior 35 8

abbrev pub dma_ack_completed : Cmd
dma_ack_completed = cmd ior 36 8

abbrev pub dma_queue_get_state : Cmd
dma_queue_get_state = cmd iowr 37 8

abbrev pub dma_copy_descriptors : Cmd
dma_copy_descriptors = cmd ior 38 8

abbrev pub dma_descriptor_copyout : Cmd
dma_descriptor_copyout = cmd iowr 39 8

abbrev pub semaphore_increment : Cmd
semaphore_increment = cmd ior 41 8

abbrev pub semaphore_decrement : Cmd
semaphore_decrement = cmd ior 42 8

abbrev pub semaphore_read : Cmd
semaphore_read = cmd iowr 43 8

abbrev pub semaphore_write : Cmd
semaphore_write = cmd ior 44 8

abbrev pub event_set : Cmd
event_set = cmd ior 45 8

abbrev pub event_get : Cmd
event_get = cmd iowr 46 8

abbrev pub notifications_init : Cmd
notifications_init = cmd ior 51 8

abbrev pub notifications_destroy : Cmd
notifications_destroy = cmd ior 52 8

abbrev pub read_hw_counters : Cmd
read_hw_counters = cmd ior 61 8
