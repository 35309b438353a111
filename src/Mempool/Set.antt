-- ===== src/Mempool/Set.antt =====
-- The set of a device's memory pools, neuron_mempool.c: `mpset_host_init`, `mpset_device_init`,
-- `mpset_free_all` and `mpset_destroy`.
use aws_neuron_driver.Common.{
  ℕ, zero, suc, Bool, List, [], ◌∷◌, ◌+◌, ◌*◌, ◌/◌, ◌||◌, u64, ◌==◌, ltb, leb, if◌then◌else◌, M,
  Outcome, ok, err, bug, ◌>>◌, pure,
}
use aws_neuron_driver.Mempool.{
  loc_device, Chunk, Tree, leaf, Kernel, MempoolSet, World, mp_init, mp_free_device_mem, mp_destroy,
  mc_remove_node, kmalloc_max_size, max_dram_channels, cleared_pool, loc_invalid,
}

module _ {G K : Type 0} (k : Kernel G K) where
  abbrev on_set : (MempoolSet G → MempoolSet G) → M (World G K) (Unit {0})
  on_set f w = ok tt (record w { mpset = f w.mpset })

  -- `mpset_host_init`, less the mutex
  unfoldable mpset_host_init : M (World G K) (Unit {0})
  mpset_host_init = on_set (λ set. record set { host_allocated = []; root = leaf })

  -- `n` rounds of a loop whose counter is at `i`.
  unfoldable pub rounds : (ℕ → M (World G K) (Unit {0})) → (i n : ℕ) → M (World G K) (Unit {0})
  rounds f i zero = pure tt
  rounds f i (suc n) = do f i; rounds f (i + 1) n

  -- The number of regions that `mpset_device_init` sets; the argument is an `int`, and `below_zero`
  -- says that it is negative.
  unfoldable pub checked_regions : (below_zero : Bool) (num_regions : ℕ) → ℕ
  checked_regions below_zero n = if below_zero || (n == 0 || ltb 4 n) then 1 else n

  -- The inner loop's body: region `region` of a channel at `base` whose regions are of `region_sz`. A
  -- channel outside `mp_device` is a bug.
  unfoldable pub init_region : (base region_sz channel region : ℕ) → M (World G K) (Unit {0})
  init_region base region_sz channel region =
      if leb max_dram_channels channel
      then (λ w. bug)
      else mp_init k (u64 (base + region * region_sz)) region_sz loc_device channel region

  -- The inner loop.
  unfoldable pub init_channel : (base size regions channel : ℕ) → M (World G K) (Unit {0})
  unfolding init_region rounds
  init_channel base size regions channel =
      rounds (init_region base (size / regions) channel) 0 regions

  -- The label `fail`: the counters are of type `u32`, so `region >= 0` is always true and the loop
  -- passes 0 to an index outside the pools.
  abbrev pub failed : Outcome (World G K) (Unit {0}) → Outcome (World G K) (Unit {0})
  failed (ok a w) = ok a w
  failed (err e w) = bug
  failed bug = bug

  -- `mpset_device_init` with the addresses and sizes of the channels.
  unfoldable pub mpset_device_init :
      (num_channels : ℕ) (below_zero : Bool) (num_regions : ℕ) (addr size : ℕ → ℕ)
      → M (World G K) (Unit {0})
  unfolding checked_regions init_channel rounds
  mpset_device_init num_channels below_zero num_regions addr size = λ w.
      let n : ℕ = checked_regions below_zero num_regions in
      failed (
        (on_set (λ set. record set { num_regions = n })
            >> rounds (λ c. init_channel (addr c) (size c) n c) 0 num_channels)
          w)

  -- The backing memory of a host chunk, given back.
  unfoldable pub free_backing : Chunk → K → K
  free_backing c h =
      if ltb kmalloc_max_size c.size then k.dma_free_coherent c.size c.va c.pa h else k.kfree c.va h

  -- The loop of `mpset_free_host_memory` over the tree and the heap.
  unfoldable free_host_chunks : List Chunk → Tree × K → Tree × K
  unfolding free_backing
  free_host_chunks [] s = s
  free_host_chunks (c ∷ cs) (t, h) = free_host_chunks cs (
    if c.va == 0 then t else mc_remove_node k t c,
    k.kfree c.mc (if c.va == 0 then h else free_backing c h),
  )

  -- `mpset_free_host_memory`
  unfoldable pub mpset_free_host_memory : M (World G K) (Unit {0})
  unfolding free_host_chunks
  mpset_free_host_memory = λ w.
      let freed : Tree × K = free_host_chunks w.mpset.host_allocated (w.mpset.root, w.heap) in
      ok tt (record {
        mpset = record w.mpset { host_allocated = []; root = freed.0; host_mem_size = 0 };
        heap = freed.1;
      })

  -- `f` at every region of every channel.
  unfoldable pub each_pool : (ℕ → ℕ → M (World G K) (Unit {0})) → M (World G K) (Unit {0})
  unfolding rounds
  each_pool f = λ w. rounds (λ c. rounds (f c) 0 w.mpset.num_regions) 0 max_dram_channels w

  -- `mpset_free_all`
  unfoldable pub mpset_free_all : M (World G K) (Unit {0})
  unfolding each_pool
  mpset_free_all = do each_pool (mp_free_device_mem k); mpset_free_host_memory

  -- A set of zeroes, the `memset` at the end of `mpset_destroy`.
  unfoldable zero_set : MempoolSet G
  zero_set = record {
    num_regions = 0;
    mp_device = λ c r. cleared_pool k loc_invalid 0 0;
    host_allocated = [];
    host_mem_size = 0;
    device_mem_size = 0;
    root = leaf;
  }

  -- `mpset_destroy`
  unfoldable mpset_destroy : M (World G K) (Unit {0})
  unfolding each_pool zero_set
  mpset_destroy = do each_pool (mp_destroy k); mpset_free_host_memory; on_set (λ set. zero_set)
