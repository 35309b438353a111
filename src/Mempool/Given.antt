-- ===== src/Mempool/Given.antt =====
-- `mc_alloc` of host memory from a kernel that has memory.
use aws_neuron_driver.Common.{
  ℕ, ◌≤◌, ◌≡◌, ◌≢◌, refl, ok, le→ltb-false, ne→==-false, ◌==◌, if◌then◌else◌,
}
use aws_neuron_driver.Mempool.{loc_host, Chunk, Kernel, World, kmalloc_max_size}
use aws_neuron_driver.Mempool.Alloc.{
  new_chunk, host_backing, host_found, alloc_host, add_host, alloc_at, asked_chunk, mc_alloc,
}

-- Small allocations do not fail.
pub record IsGiving {G K : Type 0} (k : Kernel G K) : Type 0 where
  pub gives : (size : ℕ) (heap : K) → (k.kmalloc size heap).0 ≢ 0

module _ {G K : Type 0} (k : Kernel G K) (g : IsGiving k) where
  -- At most 256K of host memory: the chunk stands at what `kmalloc` gives.
  pub mc_alloc_given :
      (size nc_id : ℕ) (w : World G K)
      → size ≤ kmalloc_max_size
      → (c : Chunk) × (w' : World G K) × (heap : K) × (mc_alloc k size loc_host 0 0 nc_id w
          ≡ ok c w')
        × (c.va ≡ (k.kmalloc size heap).0)
        × (c.mem_location ≡ loc_host)
  unfolding mc_alloc new_chunk asked_chunk alloc_at alloc_host host_backing host_found add_host
  mc_alloc_given size nc_id w small =
      let own = k.kmalloc k.sizeof_mem_chunk w.heap in
      let back = k.kmalloc size own.1 in
      let used = if w.mpset.num_regions == 1 then 0 else 0 in
      let c : Chunk = record (asked_chunk k own.0 size loc_host 0 used nc_id) {
        va = back.0;
        pa = k.virt_to_phys back.0;
      } in
      let made : mc_alloc k size loc_host 0 0 nc_id w ≡ add_host k c (record w { heap = back.1 }) =
        rw (ne→==-false own.0 0 (g.gives k.sizeof_mem_chunk w.heap)) (
          rw (le→ltb-false kmalloc_max_size size small)
            (rw (ne→==-false back.0 0 (g.gives size own.1)) refl)) in
      (c, _, own.1, made, refl, refl)
