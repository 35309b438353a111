-- ===== src/Mempool/Alloc.antt =====
-- Allocation of memory chunks, neuron_mempool.c: `mc_alloc` and `mc_free`.
use aws_neuron_driver.Common.{
  ℕ, Bool, true, false, Option, none, some, ◌∷◌, ◌+◌, u64, ◌==◌, ltb, leb, if◌then◌else◌, M, ok,
  err, bug, ◌>>=◌, ◌>>◌, pure, fail, fail_if, bug_on, einval, enomem,
}
use aws_neuron_driver.Mempool.{
  MemLocation, loc_host, loc_device, loc_invalid, Chunk, Kernel, Mempool, MempoolSet, World,
  list_del, mc_insert_node, mc_remove_node, kmalloc_max_size, max_dram_channels, max_ddr_regions,
  put_pool, in_heap, sub64,
}
use aws_neuron_driver.Mempool.Set.{free_backing}

module _ {G K : Type 0} (k : Kernel G K) where
  -- `kmalloc` of a chunk's own memory; its result is the chunk's address.
  unfoldable pub new_chunk : M (World G K) ℕ
  new_chunk w =
      let r : ℕ × K = k.kmalloc k.sizeof_mem_chunk w.heap in
      let w' : World G K = record w { heap = r.1 } in if r.0 == 0 then err enomem w' else ok r.0 w'

  -- The memory of a host chunk: its virtual address, 0 on failure, and its physical address.
  unfoldable pub host_backing : (size : ℕ) → M (World G K) (ℕ × ℕ)
  host_backing size w =
      let coherent : (ℕ × ℕ) × K = k.dma_alloc_coherent size w.heap in
      let small : ℕ × K = k.kmalloc size w.heap in
      if ltb kmalloc_max_size size
      then ok coherent.0 (record w { heap = coherent.1 })
      else ok (small.0, k.virt_to_phys small.0) (record w { heap = small.1 })

  -- The label `exit` after a failure.
  unfoldable pub give_up : (mc : ℕ) → M (World G K) Chunk
  give_up mc = do in_heap k (k.kfree mc); fail enomem

  -- A host chunk enters the list and the tree, and is counted.
  unfoldable pub add_host : Chunk → M (World G K) Chunk
  add_host c w =
      let set : MempoolSet G = w.mpset in
      ok c (record w {
        mpset = record set {
          host_allocated = c ∷ set.host_allocated;
          root = mc_insert_node k set.root c;
          host_mem_size = u64 (set.host_mem_size + c.size);
        };
      })

  -- A device chunk's pool after `gen_pool_dma_alloc`: the size is counted there also when the
  -- allocation failed.
  unfoldable pub charged_pool : Mempool G → G → (found : Bool) → Chunk → Mempool G
  charged_pool mp g found c = record mp {
    gen_pool = some g;
    device_allocated = if found then c ∷ mp.device_allocated else mp.device_allocated;
    allocated_size = u64 (mp.allocated_size + c.size);
  }

  unfoldable pub count_device : Chunk → M (World G K) Chunk
  count_device c w =
      let set : MempoolSet G = w.mpset in
      ok c
        (record w { mpset = record set { device_mem_size = u64 (set.device_mem_size + c.size) } })

  -- The host branch of `mc_alloc` for a chunk that has its address and what was asked for.
  unfoldable pub host_found : Chunk → ℕ × ℕ → M (World G K) Chunk
  unfolding give_up add_host
  host_found c p = if p.0 == 0 then give_up c.mc else add_host (record c { va = p.0; pa = p.1 })

  unfoldable pub alloc_host : Chunk → M (World G K) Chunk
  unfolding host_backing host_found
  alloc_host c = do p ← host_backing c.size; host_found c p

  -- The device branch, by what `gen_pool_dma_alloc` returns and by the pool's `gen_pool`.
  unfoldable pub device_found : Chunk → Mempool G → (ℕ × ℕ) × G → M (World G K) Chunk
  unfolding give_up charged_pool count_device
  device_found c mp r =
      let c' : Chunk = record c { va = r.0.0; pa = r.0.1 } in
      if r.0.0 == 0
      then put_pool k c.dram_channel c.dram_region (charged_pool mp r.1 false c') >> give_up c.mc
      else put_pool k c.dram_channel c.dram_region (charged_pool mp r.1 true c') >> count_device c'

  unfoldable pub alloc_from : Chunk → Mempool G → Option G → M (World G K) Chunk
  unfolding give_up device_found
  alloc_from c mp none = give_up c.mc
  alloc_from c mp (some g) = device_found c mp (k.gen_pool_dma_alloc c.size g)

  unfoldable pub alloc_device : Chunk → M (World G K) Chunk
  unfolding alloc_from
  alloc_device c = do
    bug_on (leb max_ddr_regions c.dram_region)
    (λ w.
        let mp : Mempool G = w.mpset.mp_device c.dram_channel c.dram_region in
        alloc_from c mp mp.gen_pool w)

  unfoldable pub alloc_at : MemLocation → Chunk → M (World G K) Chunk
  unfolding alloc_host alloc_device
  alloc_at loc_host c = alloc_host c
  alloc_at loc_device c = alloc_device c
  alloc_at loc_invalid c = alloc_device c

  -- A chunk as it is asked for.
  unfoldable pub asked_chunk :
      (mc size : ℕ) (location : MemLocation) (channel region nc_id : ℕ) → Chunk
  asked_chunk mc size location channel region nc_id = record {
    mc = mc;
    pa = 0;
    va = 0;
    size = size;
    dram_channel = channel;
    dram_region = region;
    nc_id = nc_id;
    mem_location = location;
  }

  -- `mc_alloc`; without fault injection. The fields that the source sets last are set first, which
  -- nothing sees: all of it is done under the lock, and the list and the tree hold the chunk itself.
  -- An access outside the pools is `bug`.
  unfoldable pub mc_alloc :
      (size : ℕ) (location : MemLocation) (channel region nc_id : ℕ) → M (World G K) Chunk
  unfolding new_chunk asked_chunk alloc_at
  mc_alloc size location channel region nc_id = do
    fail_if (leb max_dram_channels channel) einval
    mc ← new_chunk
    (λ w.
        let used : ℕ = if w.mpset.num_regions == 1 then 0 else region in
        alloc_at location (asked_chunk mc size location channel used nc_id) w)

  -- The chunk leaves the list and the tree, and its memory goes back.
  unfoldable pub free_host : Chunk → M (World G K) (Unit {0})
  free_host c w =
      let set : MempoolSet G = w.mpset in
      ok tt (record {
        mpset = record set {
          host_allocated = list_del c.mc set.host_allocated;
          root = mc_remove_node k set.root c;
          host_mem_size = sub64 set.host_mem_size c.size;
        };
        heap = free_backing k c w.heap;
      })

  -- By the backing `gen_pool` of the chunk's pool; without one the kernel goes through NULL.
  unfoldable pub free_to : Chunk → Mempool G → Option G → M (World G K) (Unit {0})
  free_to c mp none = λ w. bug
  free_to c mp (some g) = do
    put_pool k c.dram_channel c.dram_region (record mp {
      device_allocated = list_del c.mc mp.device_allocated;
      gen_pool = some (k.gen_pool_free c.va c.size g);
      allocated_size = sub64 mp.allocated_size c.size;
    })
    (λ w.
        let set : MempoolSet G = w.mpset in
        ok tt
          (record w { mpset = record set { device_mem_size = sub64 set.device_mem_size c.size } }))

  unfoldable pub free_device : Chunk → M (World G K) (Unit {0})
  unfolding free_to
  free_device c w =
      let mp : Mempool G = w.mpset.mp_device c.dram_channel c.dram_region in
      free_to c mp mp.gen_pool w

  unfoldable pub free_at : MemLocation → Chunk → M (World G K) (Unit {0})
  unfolding free_host free_device
  free_at loc_host c = free_host c
  free_at loc_device c = free_device c
  free_at loc_invalid c = λ w. bug

  -- `mc_free` of the chunk that `*mcp` points to, or of NULL.
  unfoldable pub mc_free : Option Chunk → M (World G K) (Unit {0})
  unfolding free_at
  mc_free none = pure tt
  mc_free (some c) = do free_at c.mem_location c; in_heap k (k.kfree c.mc)
