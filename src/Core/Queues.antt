-- ===== src/Core/Queues.antt =====
-- The notification queues of the neuron cores: `nc_nq_init`, `nc_nq_destroy`, `nc_nq_destroy_all` and
-- `nc_nq_mmap` of neuron_core.c, with the register offsets of v1/putils.h.
use aws_neuron_driver.Common.{
  ℕ, zero, suc, Bool, true, false, Option, none, some, List, [], ◌∷◌, ◌+◌, ◌-◌, ◌*◌, ◌/◌, ◌%◌, ◌^◌,
  bit_or, u8, u32, u64, ◌==◌, leb, ◌||◌, ◌&&◌, if◌then◌else◌, M, Outcome, ok, err, bug, ◌>>=◌, ◌>>◌,
  pure, fail, fail_if, ignore, einval, minus_one, Errno,
}
use aws_neuron_driver.Dma.{pciex8_0_base}
use aws_neuron_driver.Mempool.{Chunk, loc_host, Kernel, World}
use aws_neuron_driver.Mempool.Alloc.{mc_alloc, mc_free}
use aws_neuron_driver.Core.{Write}
pub mod Slots

-- V1_NC_PER_DEVICE, MAX_NQ_ENGINE, NQ_TYPE_PER_ENGINE and MAX_NQ_SUPPORTED
abbrev pub nc_per_device : ℕ
nc_per_device = 4

abbrev max_nq_engine : ℕ
max_nq_engine = 4

abbrev nq_type_per_engine : ℕ
nq_type_per_engine = 4

abbrev pub max_nq_supported : ℕ
max_nq_supported = 16

-- PAGE_SIZE
abbrev page_size : ℕ
page_size = 4096

-- The queues of a device: `nd->nq_mc`, its memory pools, and the register writes so far.
pub record Queues (G K : Type 0) : Type 0 where
  pub nq_mc : (nc_id nq_id : ℕ) → Option Chunk
  pub world : World G K
  pub writes : List Write

-- `pu_get_relative_offset`
unfoldable pu_get_relative_offset : (nc_idx : ℕ) → ℕ
pu_get_relative_offset nc_idx = 0x404000 + nc_idx * (0x414000 - 0x404000)

-- The offset of the registers `cfg_0`, `cfg_1` and `cfg_2` of a queue, for the types trace (implicit),
-- notify (explicit), event and error of `enum NQ_TYPE`; `none` for another type. Only the first two
-- have registers of their own for each engine.
unfoldable pub nq_cfg : (nq_type eng_index word : ℕ) → Option ℕ
nq_cfg nq_type eng_index word =
    if nq_type == 0
    then some (0xc7c + eng_index * 0x104 + 4 * word)
    else if nq_type == 1
    then some (0xbfc + eng_index * 0x104 + 4 * word)
    else if nq_type == 2
    then some (0x1094 + 4 * word)
    else if nq_type == 3
    then some (0x1074 + 4 * word)
    else none

-- `nq_id`, a `u8`
unfoldable pub nq_id : (eng_index nq_type : ℕ) → ℕ
nq_id eng_index nq_type = u8 (u32 (nq_type * nq_type_per_engine) + eng_index)

module _ {G K : Type 0} (k : Kernel G K) (bar0 : ℕ) where
  abbrev pub back_in_world :
      {A : Type 0} → Queues G K → Outcome (World G K) A → Outcome (Queues G K) A
  back_in_world q (ok a w) = ok a (record q { world = w })
  back_in_world q (err e w) = err e (record q { world = w })
  back_in_world q bug = bug

  abbrev pub set_slot : (nc_id nq_id : ℕ) → Option Chunk → Queues G K → Queues G K
  set_slot nc_id id slot q = record q {
    nq_mc = λ i j. if (i == nc_id) && (j == id) then slot else q.nq_mc i j;
  }

  -- A write to one of the registers of a queue; -1 for a type that has none.
  unfoldable pub write_cfg : (nc_id : ℕ) → Option ℕ → (value : ℕ) → M (Queues G K) (Unit {0})
  unfolding pu_get_relative_offset
  write_cfg nc_id none value = fail minus_one
  write_cfg nc_id (some offset) value = λ q. ok tt (record q {
    writes =
        record { addr = u64 (bar0 + pu_get_relative_offset nc_id + offset); value = value }
        ∷ q.writes;
  })

  -- The memory of a queue: what the slot has, or a new chunk of the host.
  unfoldable pub slot_chunk : (nc_id nq_id size : ℕ) → Option Chunk → M (Queues G K) Chunk
  slot_chunk nc_id id size (some c) = pure c
  slot_chunk nc_id id size none = do
    c ← (λ q. back_in_world q (mc_alloc k size loc_host 0 0 nc_id q.world))
    (λ q. ok c (set_slot nc_id id (some c) q))

  -- `nc_nq_init` of a device that is there
  unfoldable pub nc_nq_init : (nc_id eng_index nq_type size : ℕ) → M (Queues G K) (Unit {0})
  unfolding nq_id slot_chunk write_cfg nq_cfg
  nc_nq_init nc_id eng_index nq_type size = do
    fail_if (leb nc_per_device nc_id) einval
    let id : ℕ = nq_id eng_index nq_type
    fail_if (leb max_nq_supported id) einval
    c ← (λ q. slot_chunk nc_id id size (q.nq_mc nc_id id) q)
    let queue_pa : ℕ = bit_or c.pa pciex8_0_base
    write_cfg nc_id (nq_cfg nq_type eng_index 0) (u32 queue_pa)
    write_cfg nc_id (nq_cfg nq_type eng_index 1) (u32 (queue_pa / 2 ^ 32))
    write_cfg nc_id (nq_cfg nq_type eng_index 2) size

  -- What `nc_nq_destroy` does with the queue's memory.
  unfoldable pub destroy_chunk :
      (nc_id eng_index nq_type nq_id : ℕ) → Option Chunk → M (Queues G K) (Unit {0})
  unfolding write_cfg nq_cfg
  destroy_chunk nc_id eng_index nq_type id none = pure tt
  destroy_chunk nc_id eng_index nq_type id (some c) = do
    write_cfg nc_id (nq_cfg nq_type eng_index 2) 0
    write_cfg nc_id (nq_cfg nq_type eng_index 0) 0
    write_cfg nc_id (nq_cfg nq_type eng_index 1) 0
    (λ q. back_in_world q (mc_free k (some c) q.world))
    (λ q. ok tt (set_slot nc_id id none q))

  -- `nc_nq_destroy` of a device that is there
  unfoldable pub nc_nq_destroy : (nc_id eng_index nq_type : ℕ) → M (Queues G K) (Unit {0})
  unfolding nq_id destroy_chunk
  nc_nq_destroy nc_id eng_index nq_type = do
    let id : ℕ = nq_id eng_index nq_type
    fail_if (leb nc_per_device nc_id || leb max_nq_supported id) einval
    (λ q. destroy_chunk nc_id eng_index nq_type id (q.nq_mc nc_id id) q)

  -- A loop of `n` rounds from `i` on, whose body's status is not looked at.
  unfoldable pub each : (ℕ → M (Queues G K) (Unit {0})) → (i n : ℕ) → M (Queues G K) (Unit {0})
  each f i zero = pure tt
  each f i (suc n) = ignore (f i) >> each f (i + 1) n

  -- `nc_nq_destroy_all`
  unfoldable pub nc_nq_destroy_all : M (Queues G K) (Unit {0})
  unfolding each
  nc_nq_destroy_all =
      each
        (λ nc_id. each (λ eng. each (nc_nq_destroy nc_id eng) 0 nq_type_per_engine) 0 max_nq_engine)
        0 nc_per_device

  -- What `remap_pfn_range` is asked for, the number of the first page (PHYS_PFN) and the size, where it
  -- succeeds: its status is `remap`.
  unfoldable pub mapped : (remap : Option Errno) → Option Chunk → M (Queues G K) (ℕ × ℕ)
  mapped remap none = fail einval
  mapped none (some c) = pure (c.pa / page_size, c.size)
  mapped (some e) (some c) = fail e

  -- `nc_nq_mmap` of a device that is there
  unfoldable pub nc_nq_mmap :
      (remap : Option Errno) (nc_id eng_index nq_type : ℕ) → M (Queues G K) (ℕ × ℕ)
  unfolding nq_id mapped
  nc_nq_mmap remap nc_id eng_index nq_type = do
    fail_if (leb nc_per_device nc_id) einval
    let id : ℕ = nq_id eng_index nq_type
    fail_if (leb max_nq_supported id) einval
    (λ q. mapped remap (q.nq_mc nc_id id) q)
