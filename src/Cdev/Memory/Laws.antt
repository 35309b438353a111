-- ===== src/Cdev/Memory/Laws.antt =====
-- The allocation whose handle cannot be stored.
use aws_neuron_driver.Common.{some, ◌∷◌, ◌^◌, ◌<◌, ◌≡◌, ◌≢◌, refl, Errno, All, ok, err, ◌>>=◌}
use aws_neuron_driver.Mempool.{Chunk, loc_host, Kernel, World}
use aws_neuron_driver.Mempool.Alloc.{mc_alloc}
use aws_neuron_driver.Mempool.Order.{to_list, IsOrdered}
use aws_neuron_driver.Mempool.Insert.{IsBalanced}
use aws_neuron_driver.Mempool.RoundTrip.{mc_free-mc_alloc}
use aws_neuron_driver.Cdev.Copies.{Copying, Env, put_user}
use aws_neuron_driver.Cdev.Memory.{MemAlloc, location_of, or_give_back, mem_alloc}

module _ {G K : Type 0} (k : Kernel G K) (b : IsBalanced k) (env : Env) where
  -- When the handle of a new host chunk cannot be stored for the process, `ncdev_mem_alloc`
  -- returns that error and the list of host chunks, the 64-bit byte count and the tree, in order
  -- and without a chunk at the same node, are those of before, when the kernel balances trees as
  -- it documents.
  pub mem_alloc-undone :
      (arg : MemAlloc) (e : Errno) (s : Copying G K) (c : Chunk) (w : World G K)
      → location_of arg.host_memory ≡ loc_host
      → mc_alloc k arg.size loc_host arg.dram_channel arg.dram_region arg.nc_id s.world ≡ ok c w
      → env.status s.actions (put_user arg.mem_handle c.mc) ≡ some e
      → IsOrdered (to_list s.world.mpset.root)
      → All (λ d. d.mc ≢ c.mc) (to_list s.world.mpset.root)
      → s.world.mpset.host_mem_size < 2 ^ 64
      → (s' : Copying G K) × (mem_alloc k env arg s ≡ err e s')
        × (s'.world.mpset.host_allocated ≡ s.world.mpset.host_allocated)
        × (s'.world.mpset.host_mem_size ≡ s.world.mpset.host_mem_size)
        × (to_list s'.world.mpset.root ≡ to_list s.world.mpset.root)
  unfolding mem_alloc or_give_back
  mem_alloc-undone arg e s c w host made fails ordered fresh small =
      let (w', freed, list, size, tree) =
        mc_free-mc_alloc k b arg.size arg.dram_channel arg.dram_region arg.nc_id s.world c w made
          ordered fresh small in
      (
        record { world = w'; actions = put_user arg.mem_handle c.mc ∷ s.actions },
        rw (host, made, ◌>>=◌, fails, freed) refl,
        list,
        size,
        tree,
      )
