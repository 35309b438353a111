-- ===== src/Cdev/Memory.antt =====
-- Commands on memory handles and on the descriptors of a queue, neuron_cdev.c: `ncdev_mem_alloc`,
-- `ncdev_mem_get_pa`, `ncdev_mem_free` and `ncdev_dma_descriptor_copyout`, after their argument is there.
-- A handle is the chunk that it points to.
use aws_neuron_driver.Common.{
  ℕ, Bool, true, false, Option, none, some, ◌∷◌, ◌+◌, ◌*◌, bit_or, u32, u64, ◌==◌, ◌!=◌, ◌&&◌, ltb,
  if◌then◌else◌, Errno, M, Outcome, ok, err, bug, ◌>>=◌, ◌>>◌, pure, fail, fail_if, einval, efbig,
  enomem,
}
use aws_neuron_driver.Rings.{NdmaEng, QueueType, type_tx, type_rx, type_completion}
use aws_neuron_driver.Rings.Device.{DescriptorMc, queue_get_descriptor_mc}
use aws_neuron_driver.Mempool.{is_host, MemLocation, Chunk, loc_host, loc_device, Kernel}
use aws_neuron_driver.Mempool.Alloc.{mc_alloc, mc_free}
use aws_neuron_driver.Dma.{pciex8_0_base}
use aws_neuron_driver.Dma.Chunks.{memcpy_buf_from_mc}
use aws_neuron_driver.Cdev.Copies.{
  Copying, Env, Action, copy_to_user, transfer, put_user, on_world, act,
}
pub mod Laws

-- `struct neuron_ioctl_mem_alloc`; `mem_handle` is where the handle goes.
pub record MemAlloc : Type 0 where
  pub size : ℕ
  pub host_memory : ℕ
  pub dram_channel : ℕ
  pub dram_region : ℕ
  pub nc_id : ℕ
  pub mem_handle : ℕ

-- `struct neuron_ioctl_dma_descriptor_copyout`
pub record DescriptorCopyout : Type 0 where
  pub eng_id : ℕ
  pub qid : ℕ
  pub type : QueueType
  start_index : ℕ
  pub count : ℕ
  pub buffer : ℕ

abbrev pub location_of : (host_memory : ℕ) → MemLocation
location_of host_memory = if host_memory != 0 then loc_host else loc_device

-- The address that a device uses for a chunk.
unfoldable device_pa : Chunk → ℕ
device_pa mc = if is_host mc.mem_location then bit_or mc.pa pciex8_0_base else mc.pa

-- The ring that a command asks for, and its number of descriptors: none for a completion ring.
unfoldable asked_ring : QueueType → DescriptorMc → Option Chunk × ℕ
asked_ring type_tx d = (d.tx_mc, d.tx_size)
asked_ring type_rx d = (d.rx_mc, d.rx_size)
asked_ring type_completion d = (none, 0)

abbrev counted : QueueType → Bool
counted type_tx = true
counted type_rx = true
counted type_completion = false

module _ {G K : Type 0} (k : Kernel G K) (env : Env) where
  -- When the handle cannot be stored the chunk is freed.
  unfoldable pub or_give_back :
      Chunk → Outcome (Copying G K) (Unit {0}) → Outcome (Copying G K) (Unit {0})
  or_give_back mc (ok a s) = ok a s
  or_give_back mc (err e s) = (on_world k env (mc_free k (some mc)) >> fail e) s
  or_give_back mc bug = bug

  -- `ncdev_mem_alloc`; the handle is the address of the chunk.
  unfoldable pub mem_alloc : MemAlloc → M (Copying G K) Chunk
  unfolding or_give_back
  mem_alloc arg = do
    mc ← on_world k env (
        mc_alloc k arg.size (location_of arg.host_memory) arg.dram_channel arg.dram_region
          arg.nc_id)
    (λ s. or_give_back mc (act k env (put_user arg.mem_handle mc.mc) s))
    pure mc

  -- `ncdev_mem_get_pa`
  unfoldable pub mem_get_pa : (mc : Chunk) (pa : ℕ) → M (Copying G K) (Unit {0})
  unfolding device_pa
  mem_get_pa mc pa = act k env (put_user pa (device_pa mc))

  -- `ncdev_mem_free`
  unfoldable pub mem_free : (mc : Chunk) → M (Copying G K) (Unit {0})
  mem_free mc = on_world k env (mc_free k (some mc))

  -- The copy out of a ring; `addr` is what `kmalloc` gives, 0 if there is no memory.
  unfoldable copyout_from :
      Option Chunk → (addr buffer offset total_size : ℕ) → M (Copying G K) (Unit {0})
  copyout_from none addr buffer offset total_size = fail einval
  copyout_from (some mc) addr buffer offset total_size =
      let direct : M (Copying G K) (Unit {0}) =
        act k env (copy_to_user buffer (u64 (mc.va + offset)) total_size) in
      let bounced : M (Copying G K) (Unit {0}) = (do
        fail_if (addr == 0) enomem
        act k env (transfer (memcpy_buf_from_mc k.virt_to_phys addr 0 mc offset total_size))
        act k env (copy_to_user buffer addr total_size)) in
      if is_host mc.mem_location then direct else bounced

  unfoldable copyout_ring :
      Option DescriptorMc → DescriptorCopyout → (addr : ℕ) → M (Copying G K) (Unit {0})
  unfolding copyout_from asked_ring
  copyout_ring none arg addr = fail einval
  copyout_ring (some d) arg addr =
      let (mc, size) = asked_ring arg.type d in
      (do
        fail_if (counted arg.type && ltb size arg.count) efbig
        copyout_from mc addr arg.buffer (u32 (arg.start_index * 16)) (u32 (arg.count * 16)))

  -- `ncdev_dma_descriptor_copyout`
  unfoldable pub dma_descriptor_copyout :
      (ℕ → NdmaEng) → DescriptorCopyout → (addr : ℕ) → M (Copying G K) (Unit {0})
  unfolding copyout_ring
  dma_descriptor_copyout engines arg addr = do
    fail_if (arg.count == 0) einval
    copyout_ring (queue_get_descriptor_mc engines arg.eng_id arg.qid) arg addr
