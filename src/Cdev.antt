-- ===== src/Cdev.antt =====
-- The character device, neuron_cdev.c and neuron_ioctl.h: the commands of `ioctl`, which handler each
-- reaches, and which process may use it.
use aws_neuron_driver.Common.{
  ℕ, Bool, true, false, Option, none, some, List, [], ◌∷◌, ◌&&◌, ◌||◌, ◌==◌, ◌!=◌, if◌then◌else◌,
  Errno, einval, eacces,
}
use aws_neuron_driver.Cdev.Ioctl
use aws_neuron_driver.Cdev.Ioctl.{Dir, io, ior, iow, iowr, Cmd}
pub mod Ioctl
pub mod Access
pub mod Owner
pub mod Copies
pub mod Memory
pub mod Firmware
pub mod Notifications
pub mod Engines
pub mod Bar

-- The functions that answer a command, `ncdev_device_reset` and the others by their names without the
-- prefix. Those of semaphores and events look at the command again; `ncdev_bar_rw` takes `read`.
pub data Handler : Type 0 where
  device_reset device_reset_status device_ready device_info device_init device_release : Handler
  device_app_pid dma_engine_init dma_engine_set_state dma_queue_init dma_copy_start : Handler
  dma_ack_completed dma_queue_release dma_copy_descriptors dma_engine_get_state : Handler
  dma_queue_get_state dma_descriptor_copyout mem_alloc mem_get_pa mem_free mem_copy : Handler
  mem_buf_copy semaphore_ioctl events_ioctl : Handler
  bar_rw : (read : Bool) → Handler
  post_metric nc_nq_init nc_nq_destroy read_hw_counters : Handler

abbrev dir_code : Dir → ℕ
dir_code io = 0
dir_code iow = 1
dir_code ior = 2
dir_code iowr = 3

-- `cmd == NEURON_IOCTL_...`
unfoldable pub same_cmd : Cmd → Cmd → Bool
same_cmd a b = (dir_code a.dir == dir_code b.dir) && ((a.nr == b.nr) && (a.size == b.size))

-- The chain of tests of `ncdev_ioctl`, in its order.
abbrev pub commands : List (Cmd × Handler)
commands =
    (Ioctl.device_reset, device_reset)
    ∷ (Ioctl.device_reset_status, device_reset_status)
    ∷ (Ioctl.device_ready, device_ready)
    ∷ (Ioctl.device_info, device_info)
    ∷ (Ioctl.device_init, device_init)
    ∷ (Ioctl.device_release, device_release)
    ∷ (Ioctl.device_app_pid, device_app_pid)
    ∷ (Ioctl.dma_eng_init, dma_engine_init)
    ∷ (Ioctl.dma_eng_set_state, dma_engine_set_state)
    ∷ (Ioctl.dma_queue_init, dma_queue_init)
    ∷ (Ioctl.dma_queue_copy_start, dma_copy_start)
    ∷ (Ioctl.dma_ack_completed, dma_ack_completed)
    ∷ (Ioctl.dma_queue_release, dma_queue_release)
    ∷ (Ioctl.dma_copy_descriptors, dma_copy_descriptors)
    ∷ (Ioctl.dma_eng_get_state, dma_engine_get_state)
    ∷ (Ioctl.dma_queue_get_state, dma_queue_get_state)
    ∷ (Ioctl.dma_descriptor_copyout, dma_descriptor_copyout)
    ∷ (Ioctl.mem_alloc, mem_alloc)
    ∷ (Ioctl.mem_get_pa, mem_get_pa)
    ∷ (Ioctl.mem_free, mem_free)
    ∷ (Ioctl.mem_copy, mem_copy)
    ∷ (Ioctl.mem_buf_copy, mem_buf_copy)
    ∷ (Ioctl.semaphore_read, semaphore_ioctl)
    ∷ (Ioctl.semaphore_write, semaphore_ioctl)
    ∷ (Ioctl.semaphore_increment, semaphore_ioctl)
    ∷ (Ioctl.semaphore_decrement, semaphore_ioctl)
    ∷ (Ioctl.event_get, events_ioctl)
    ∷ (Ioctl.event_set, events_ioctl)
    ∷ (Ioctl.bar_read, bar_rw true)
    ∷ (Ioctl.bar_write, bar_rw false)
    ∷ (Ioctl.post_metric, post_metric)
    ∷ (Ioctl.notifications_init, nc_nq_init)
    ∷ (Ioctl.notifications_destroy, nc_nq_destroy)
    ∷ (Ioctl.read_hw_counters, read_hw_counters)
    ∷ []

-- The first test that holds.
unfoldable pub first_match : Cmd → List (Cmd × Handler) → Option Handler
unfolding same_cmd
first_match c [] = none
first_match c ((d, h) ∷ rest) =
    let later : Option Handler = first_match c rest in if same_cmd c d then some h else later

-- The commands that `ncdev_ioctl` allows only to the process that did the initialization.
abbrev pub owner_commands : List Cmd
owner_commands =
    Ioctl.device_reset ∷ Ioctl.device_reset_status ∷ Ioctl.dma_eng_init ∷ Ioctl.dma_eng_set_state
    ∷ Ioctl.dma_queue_init ∷ Ioctl.dma_ack_completed ∷ Ioctl.dma_queue_release
    ∷ Ioctl.dma_copy_descriptors ∷ Ioctl.mem_alloc ∷ Ioctl.mem_free ∷ Ioctl.mem_copy
    ∷ Ioctl.mem_get_pa ∷ Ioctl.bar_write ∷ Ioctl.post_metric ∷ Ioctl.notifications_init
    ∷ Ioctl.notifications_destroy ∷ []

unfoldable pub is_among : Cmd → List Cmd → Bool
unfolding same_cmd
is_among c [] = false
is_among c (d ∷ rest) = same_cmd c d || is_among c rest

-- What `ncdev_ioctl` makes of a command: the error that it returns, or the handler that it calls.
pub data Answer : Type 0 where
  refuse : Errno → Answer
  call : Handler → Answer

unfoldable pub answer : Option Handler → Answer
answer none = refuse einval
answer (some h) = call h

-- `ncdev_ioctl` by the process `pid` on a device that is there and whose owner is `current_pid`.
unfoldable pub ncdev_ioctl : (current_pid pid : ℕ) → Cmd → Answer
unfolding first_match is_among answer
ncdev_ioctl current_pid pid c =
    if is_among c owner_commands && (current_pid != pid)
    then refuse eacces
    else answer (first_match c commands)
