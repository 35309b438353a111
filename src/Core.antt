-- ===== src/Core.antt =====
-- Semaphores, events and the mmap offsets of the notification queues of a neuron core: neuron_core.c
-- with the constants of v1/address_map.h and neuron_core.h.
use aws_neuron_driver.Common.{
  ℕ, zero, suc, Bool, true, false, List, [], ◌∷◌, Option, none, some, ◌+◌, ◌-◌, ◌*◌, ◌/◌, ◌%◌, ◌^◌,
  ltb, leb, if◌then◌else◌, u64, M, ok, ◌>>=◌, ◌>>◌, fail_if, einval, pure, ◌&&◌,
}
use aws_neuron_driver.FwIo.Region.{Region, CsrRead, fw_io_read_csr_array}
pub mod Sync
pub mod Offsets
pub mod Queues

-- MMAP_P_OFFSET, MMAP_NC_SIZE and the offsets in a core's part of BAR2
abbrev p_offset : ℕ
p_offset = 0

abbrev pub nc_size : ℕ
nc_size = 0x4000000

abbrev pub event_offset : ℕ
event_offset = 0x2700000

abbrev pub sema_read_offset : ℕ
sema_read_offset = 0x2701000

abbrev pub sema_set_offset : ℕ
sema_set_offset = 0x2701100

abbrev pub sema_incr_offset : ℕ
sema_incr_offset = 0x2701200

abbrev pub sema_decr_offset : ℕ
sema_decr_offset = 0x2701300

-- V1_SEMAPHORE_COUNT and V1_EVENTS_COUNT
abbrev semaphore_count : ℕ
semaphore_count = 32

abbrev events_count : ℕ
events_count = 256

-- `writel`: an address and the value.
pub record Write : Type 0 where
  pub addr : ℕ
  pub value : ℕ

abbrev pub writel : (value addr : ℕ) → M (List Write) (Unit {0})
writel value addr trace = ok tt (record { addr = addr; value = value } ∷ trace)

unfoldable pub nc_get_axi_offset : ℕ → ℕ
nc_get_axi_offset nc_index = u64 (p_offset + nc_index * nc_size)

module _ (bar2 : ℕ) where
  unfoldable pub nc_get_semaphore_base : ℕ → ℕ
  unfolding nc_get_axi_offset
  nc_get_semaphore_base nc_id = u64 (bar2 + nc_get_axi_offset nc_id)

  unfoldable pub nc_get_event_addr : (nc_id event_index : ℕ) → ℕ
  unfolding nc_get_axi_offset
  nc_get_event_addr nc_id event_index =
      u64 (u64 (bar2 + nc_get_axi_offset nc_id + event_offset) + event_index * 4)

  -- The address of a semaphore in one of the four windows.
  unfoldable pub semaphore_addr : (window nc_id semaphore_index : ℕ) → ℕ
  unfolding nc_get_semaphore_base
  semaphore_addr window nc_id semaphore_index =
      u64 (nc_get_semaphore_base nc_id + (window + semaphore_index * 4))

  unfoldable pub nc_semaphore_write : (nc_id semaphore_index value : ℕ) → M (List Write) (Unit {0})
  unfolding semaphore_addr
  nc_semaphore_write nc_id semaphore_index value = do
    fail_if (ltb semaphore_count semaphore_index) einval
    writel value (semaphore_addr sema_set_offset nc_id semaphore_index)

  unfoldable pub nc_semaphore_increment :
      (nc_id semaphore_index value : ℕ) → M (List Write) (Unit {0})
  unfolding semaphore_addr
  nc_semaphore_increment nc_id semaphore_index value = do
    fail_if (ltb semaphore_count semaphore_index) einval
    writel value (semaphore_addr sema_incr_offset nc_id semaphore_index)

  unfoldable pub nc_semaphore_decrement :
      (nc_id semaphore_index value : ℕ) → M (List Write) (Unit {0})
  unfolding semaphore_addr
  nc_semaphore_decrement nc_id semaphore_index value = do
    fail_if (ltb semaphore_count semaphore_index) einval
    writel value (semaphore_addr sema_decr_offset nc_id semaphore_index)

  unfoldable pub nc_event_set : (nc_id event_index value : ℕ) → M (List Write) (Unit {0})
  unfolding nc_get_event_addr
  nc_event_set nc_id event_index value = do
    fail_if (ltb events_count event_index) einval
    writel value (nc_get_event_addr nc_id event_index)

  -- Reads go through the firmware; `none` is the -EINVAL of the index test.
  unfoldable pub nc_semaphore_read :
      List (Option Region) → (nc_id semaphore_index : ℕ) → Option CsrRead
  unfolding semaphore_addr
  nc_semaphore_read slots nc_id semaphore_index =
      if ltb semaphore_count semaphore_index
      then none
      else some
          (fw_io_read_csr_array slots (semaphore_addr sema_read_offset nc_id semaphore_index) [])

  unfoldable nc_event_get : List (Option Region) → (nc_id event_index : ℕ) → Option CsrRead
  unfolding nc_get_event_addr
  nc_event_get slots nc_id event_index =
      if ltb events_count event_index
      then none
      else some (fw_io_read_csr_array slots (nc_get_event_addr nc_id event_index) [])

-- NC_NQ_MMAP_SIZE_PER_NQ and the sizes made of it; MAX_NQ_ENGINE, NQ_TYPE_PER_ENGINE and
-- V1_NC_PER_DEVICE are 4.
abbrev pub size_per_nq : ℕ
size_per_nq = 1024 * 1024 * 1024

abbrev size_per_engine : ℕ
size_per_engine = size_per_nq * 4

abbrev size_per_nc : ℕ
size_per_nc = size_per_engine * 4

abbrev size_per_nd : ℕ
size_per_nd = size_per_nc * 4

-- An `int` argument is its 32-bit word: the test `n > bound` is a signed one, the product with an
-- `unsigned long` extends the sign.
abbrev int_above : (n bound : ℕ) → Bool
int_above n bound = ltb n (2 ^ 31) && ltb bound n

abbrev extend_sign : ℕ → ℕ
extend_sign n = if ltb n (2 ^ 31) then n else n + (2 ^ 64 - 2 ^ 32)

-- `nc_get_nq_mmap_offset`; `none` is -EINVAL.
unfoldable pub nc_get_nq_mmap_offset : (nc_id engine_index nq_type : ℕ) → Option ℕ
nc_get_nq_mmap_offset nc_id engine_index nq_type =
    if int_above nc_id 4
    then none
    else if int_above engine_index 4
    then none
    else if int_above nq_type 4
    then none
    else some (
        u64 (
          u64 (
            u64 (u64 (extend_sign nc_id * size_per_nc))
            + u64 (extend_sign engine_index * size_per_engine))
          + u64 (extend_sign nq_type * size_per_nq)))

pub record Nq : Type 0 where
  pub nc_id : ℕ
  pub engine_index : ℕ
  pub nq_type : ℕ

-- `nc_get_nq_from_mmap_offset`; `none` is -EINVAL. `offset < 0` never holds.
unfoldable pub nc_get_nq_from_mmap_offset : ℕ → Option Nq
nc_get_nq_from_mmap_offset offset =
    let in_nc : ℕ = offset % size_per_nc in
    if leb size_per_nd offset
    then none
    else some (record {
      nc_id = offset / size_per_nc;
      engine_index = in_nc / size_per_engine;
      nq_type = in_nc % size_per_engine / size_per_nq;
    })
