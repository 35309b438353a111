-- ===== src/Cdev/Copies.antt =====
-- Commands that copy between a process, the host and the device, neuron_cdev.c: `ncdev_mem_copy`,
-- `ncdev_mem_buf_copy` and `ncdev_dma_copy_descriptors`. A handle is the chunk that it points to.
-- `Env` answers for the user's memory and for the transfers; an unfinished `copy_from_user` is an
-- error there.
use aws_neuron_driver.Common.{
  ℕ, zero, suc, Bool, true, false, Option, none, some, List, [], ◌∷◌, ◌+◌, ◌-◌, ◌*◌, ◌/◌, ◌^◌, ◌||◌,
  u32, u64, sub32, ◌==◌, leb, ltb, if◌then◌else◌, Errno, M, Outcome, ok, err, bug, ◌>>=◌, ◌>>◌,
  pure, fail, fail_if, einval, enomem,
}
use aws_neuron_driver.Udma.Copy.{max_dma_desc_size}
use aws_neuron_driver.Rings.{QueueType}
use aws_neuron_driver.Mempool.{is_host, Chunk, loc_host, Kernel, World}
use aws_neuron_driver.Mempool.Alloc.{mc_alloc, mc_free}
use aws_neuron_driver.Dma.Check.{
  NeuronDevice, DescAddrs, Checked, accepted, running, refused, check_descs,
}
use aws_neuron_driver.Dma.Chunks.{Transfer, memcpy_mc, memcpy_buf_to_mc, memcpy_buf_from_mc}
pub mod Loop
pub mod Ranges

-- What a command asks of the rest of the system: copies from and to the user's memory, `memcpy` in the
-- kernel, and transfers.
pub data Action : Type 0 where
  copy_from_user : (va user size : ℕ) → Action
  copy_to_user : (user va size : ℕ) → Action
  memcpy : (dst src size : ℕ) → Action
  transfer : Transfer → Action
  put_user : (user value : ℕ) → Action

-- The pools of the device, and what was asked for, the last first.
pub record Copying (G K : Type 0) : Type 0 where
  pub world : World G K
  pub actions : List Action

-- The status of an action after the earlier ones, and the descriptors that the buffer at an address
-- holds then.
pub record Env : Type 0 where
  pub status : List Action → Action → Option Errno
  pub descs : List Action → (va : ℕ) → ℕ → DescAddrs

-- `copy_size`; the remaining size is an `int`, so from 2 ^ 31 on it is negative and less than
-- MAX_DMA_DESC_SIZE.
unfoldable pub piece_size : (remaining : ℕ) → ℕ
piece_size remaining =
    if leb (2 ^ 31) remaining || ltb remaining max_dma_desc_size
    then remaining
    else max_dma_desc_size

-- The loop `while (remaining)` of the two commands, around what it does with one piece; the fuel
-- bounds its rounds.
unfoldable pub copy_loop :
    {S : Type 0}
    → (piece : (offset size : ℕ) → M S (Unit {0})) → (fuel offset remaining : ℕ) → M S (Unit {0})
unfolding piece_size
copy_loop piece zero offset remaining = λ s. bug
copy_loop piece (suc fuel) offset remaining =
    let size : ℕ = piece_size remaining in
    let round =
      piece offset size >> copy_loop piece fuel (u32 (offset + size)) (sub32 remaining size) in
    if remaining == 0 then pure tt else round

-- Rounds enough for the pieces of a size.
abbrev pub copy_fuel : (size : ℕ) → ℕ
copy_fuel size = size / max_dma_desc_size + 2

module _ {G K : Type 0} (k : Kernel G K) (env : Env) where
  abbrev pub back_in_world :
      {A : Type 0} → Copying G K → Outcome (World G K) A → Outcome (Copying G K) A
  back_in_world s (ok a w) = ok a (record s { world = w })
  back_in_world s (err e w) = err e (record s { world = w })
  back_in_world s bug = bug

  abbrev pub on_world : {A : Type 0} → M (World G K) A → M (Copying G K) A
  on_world f s = back_in_world s (f s.world)

  abbrev pub answered : Option Errno → M (Copying G K) (Unit {0})
  answered none = pure tt
  answered (some e) = fail e

  -- An action and its status.
  abbrev pub act : Action → M (Copying G K) (Unit {0})
  act a s = answered (env.status s.actions a) (record s { actions = a ∷ s.actions })

  -- Any error of an allocation is answered by -ENOMEM.
  abbrev or_enomem : {A : Type 0} → Outcome (Copying G K) A → Outcome (Copying G K) A
  or_enomem (ok a s) = ok a s
  or_enomem (err e s) = err enomem s
  or_enomem bug = bug

  -- `mc_free` on the way out.
  abbrev free_after : Chunk → Outcome (Copying G K) (Unit {0}) → Outcome (Copying G K) (Unit {0})
  free_after c (ok a s) = on_world (mc_free k (some c)) s
  free_after c (err e s) = (on_world (mc_free k (some c)) >> fail e) s
  free_after c bug = bug

  -- `body` with a bounce buffer of the host that is freed afterwards.
  unfoldable with_bounce :
      (nc_id : ℕ) → (Chunk → M (Copying G K) (Unit {0})) → M (Copying G K) (Unit {0})
  with_bounce nc_id body = do
    bounce ← (λ s. or_enomem (on_world (mc_alloc k max_dma_desc_size loc_host 0 0 nc_id) s))
    (λ s. free_after bounce (body bounce s))

  -- `ncdev_mem_copy`, with its sums on words of 32 bits
  unfoldable pub mem_copy :
      (src_mc dst_mc : Chunk) (size src_offset dst_offset : ℕ) → M (Copying G K) (Unit {0})
  mem_copy src_mc dst_mc size src_offset dst_offset = do
    fail_if (ltb src_mc.size (u32 (src_offset + size))) einval
    fail_if (ltb dst_mc.size (u32 (dst_offset + size))) einval
    act (transfer (memcpy_mc k.virt_to_phys src_mc dst_mc src_offset dst_offset size))

  -- One piece of `ncdev_mem_buf_copy` through the bounce buffer.
  unfoldable buf_piece :
      (mc bounce : Chunk) (buffer base : ℕ) (to_mc : Bool) (offset size : ℕ)
      → M (Copying G K) (Unit {0})
  buf_piece mc bounce buffer base true offset size = do
    act (copy_from_user bounce.va (u64 (buffer + offset)) size)
    act (transfer (memcpy_buf_to_mc k.virt_to_phys bounce.va 0 mc (u32 (base + offset)) size))
  buf_piece mc bounce buffer base false offset size = do
    act (transfer (memcpy_buf_from_mc k.virt_to_phys bounce.va 0 mc (u32 (base + offset)) size))
    act (copy_to_user (u64 (buffer + offset)) bounce.va size)

  -- The copy of a host chunk, directly.
  unfoldable host_copy : (mc : Chunk) (buffer offset size : ℕ) (to_mc : Bool) → Action
  host_copy mc buffer offset size true = copy_from_user (u64 (mc.va + offset)) buffer size
  host_copy mc buffer offset size false = copy_to_user buffer (u64 (mc.va + offset)) size

  -- `ncdev_mem_buf_copy`
  unfoldable pub mem_buf_copy :
      (mc : Chunk) (buffer size offset : ℕ) (to_mc : Bool) → M (Copying G K) (Unit {0})
  unfolding with_bounce host_copy buf_piece
  mem_buf_copy mc buffer size offset to_mc = do
    fail_if (ltb mc.size (u32 (offset + size))) einval
    let direct : M (Copying G K) (Unit {0}) = act (host_copy mc buffer offset size to_mc)
    let bounced : M (Copying G K) (Unit {0}) =
        with_bounce mc.nc_id
          (λ bounce. copy_loop (buf_piece mc bounce buffer offset to_mc) (copy_fuel size) 0 size)
    if is_host mc.mem_location then direct else bounced

  -- The end of `ndma_memcpy_dma_copy_descriptors`, after its loop.
  unfoldable copy_checked :
      Checked → (buffer : ℕ) (mc : Chunk) (offset size : ℕ) → M (Copying G K) (Unit {0})
  copy_checked (refused e) buffer mc offset size = fail e
  copy_checked running buffer mc offset size = λ s. bug
  copy_checked accepted buffer mc offset size =
      if is_host mc.mem_location
      then act (memcpy (u64 (mc.va + offset)) buffer size)
      else act (transfer (memcpy_buf_to_mc k.virt_to_phys buffer 0 mc offset size))

  -- `ndma_memcpy_dma_copy_descriptors`. A loop that is still running has read past the buffer.
  unfoldable memcpy_dma_copy_descriptors :
      (devices : ℕ → Option NeuronDevice) (nd : NeuronDevice) (buffer : ℕ) (mc : Chunk)
      (offset size : ℕ) (type : QueueType)
      → M (Copying G K) (Unit {0})
  unfolding copy_checked
  memcpy_dma_copy_descriptors devices nd buffer mc offset size type = λ s.
      copy_checked (check_descs devices nd (size / 16 + 1) type (env.descs s.actions buffer) 0 size)
        buffer mc offset size s

  -- `ncdev_dma_copy_descriptors` for a handle that is not NULL. On a range error it goes to the label
  -- that frees the bounce buffer, whose pointer is not set yet: that is `bug`.
  unfoldable pub dma_copy_descriptors :
      (devices : ℕ → Option NeuronDevice) (nd : NeuronDevice) (mc : Chunk)
      (buffer num_descs offset : ℕ) (type : QueueType)
      → M (Copying G K) (Unit {0})
  unfolding with_bounce memcpy_dma_copy_descriptors
  dma_copy_descriptors devices nd mc buffer num_descs offset type =
      let body = λ (bounce : Chunk).
        copy_loop
          (λ at size.
            act (copy_from_user bounce.va (u64 (buffer + at)) size)
            >> memcpy_dma_copy_descriptors devices nd bounce.va mc (u32 (offset + at)) size type)
          (copy_fuel (u32 (num_descs * 16))) 0 (u32 (num_descs * 16)) in
      if ltb mc.size (offset + num_descs * 16) then (λ s. bug) else with_bounce mc.nc_id body
