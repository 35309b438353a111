-- ===== src/Mempool/Counts.antt =====
-- `mc_alloc` and `mc_free` keep the counters of a set of pools.
use aws_neuron_driver.Common.{
  ℕ, true, false, Option, none, some, List, [], ◌∷◌, ◌+◌, ◌<◌, ◌≡◌, refl, ap, ◌==◌, leb, ltb,
  if◌then◌else◌, arith, Bool-cases, inl, inr, Outcome, ok, Leaves, leb-false→lt, Leaves-bind_out,
}
use aws_neuron_driver.Mempool.{
  MemLocation, loc_host, loc_device, loc_invalid, Chunk, Kernel, Mempool, MempoolSet, World,
  list_del, sub64, max_dram_channels, max_ddr_regions, in_heap,
}
use aws_neuron_driver.Mempool.Alloc.{
  new_chunk, host_backing, give_up, add_host, charged_pool, count_device, alloc_host, alloc_from,
  host_found, device_found, alloc_device, alloc_at, asked_chunk, mc_alloc, free_host, free_to,
  free_device, free_at, mc_free,
}
use aws_neuron_driver.Mempool.Account.{total, device_total, device_total-set_pool, IsCounted}
use mathlib.Core.Option.{some-injective}

module _ {G K : Type 0} (k : Kernel G K) where
  abbrev Counted : {A : Type 0} → Outcome (World G K) A → Type 0
  Counted x = Leaves (λ w. IsCounted k w.mpset) x

  -- The memory of a host chunk comes from the heap, and nothing else changes.
  pub host_backing-heap :
      (size : ℕ) (w : World G K)
      → (p : ℕ × ℕ) × (h : K) × (host_backing k size w ≡ ok p (record w { heap = h }))
  unfolding host_backing
  host_backing-heap size w = elim (Bool-cases (ltb 262144 size)) [
    | inl e ↦
        rw e ((k.dma_alloc_coherent size w.heap).0, (k.dma_alloc_coherent size w.heap).1, refl)
    | inr e ↦ rw e (_, (k.kmalloc size w.heap).1, refl)
  ]

  host_found-IsCounted :
      (c : Chunk) (p : ℕ × ℕ) (w : World G K) → IsCounted k w.mpset → Counted (host_found k c p w)
  unfolding host_found give_up add_host total device_total
  host_found-IsCounted c p w h = elim (Bool-cases (p.0 == 0)) [
    | inl e ↦ rw e h
    | inr e ↦ rw e (omega (arith, h.0), h.1)
  ]

  alloc_host-IsCounted :
      (c : Chunk) (w : World G K) → IsCounted k w.mpset → Counted (alloc_host k c w)
  unfolding alloc_host
  alloc_host-IsCounted c w h =
      let b = host_backing-heap c.size w in
      rw b.2 (host_found-IsCounted c b.0 (record w { heap = b.1 }) h)

  device_found-IsCounted :
      (c : Chunk) (r : (ℕ × ℕ) × G) (w : World G K)
      → c.dram_channel < max_dram_channels
      → c.dram_region < max_ddr_regions
      → IsCounted k w.mpset
      → Counted (device_found k c (w.mpset.mp_device c.dram_channel c.dram_region) r w)
  unfolding device_found give_up charged_pool count_device total device_total
  device_found-IsCounted c r w hc hr h =
      let mp : Mempool G = w.mpset.mp_device c.dram_channel c.dram_region in
      let c' : Chunk = record c { va = r.0.0; pa = r.0.1 } in
      elim (Bool-cases (r.0.0 == 0)) [
        | inl e ↦ rw e (
          h.0,
          omega (
            arith,
            h.1,
            device_total-set_pool k c.dram_channel c.dram_region (charged_pool k mp r.1 false c')
                w.mpset hc hr,
          ),
        )
        | inr e ↦ rw e (
          h.0,
          omega (
            arith,
            h.1,
            device_total-set_pool k c.dram_channel c.dram_region (charged_pool k mp r.1 true c')
                w.mpset hc hr,
          ),
        )
      ]

  alloc_from-IsCounted :
      (c : Chunk) (o : Option G) (w : World G K)
      → c.dram_channel < max_dram_channels
      → c.dram_region < max_ddr_regions
      → IsCounted k w.mpset
      → Counted (alloc_from k c (w.mpset.mp_device c.dram_channel c.dram_region) o w)
  unfolding alloc_from give_up
  alloc_from-IsCounted c none w hc hr h = h
  alloc_from-IsCounted c (some g) w hc hr h =
      device_found-IsCounted c (k.gen_pool_dma_alloc c.size g) w hc hr h

  alloc_device-IsCounted :
      (c : Chunk) (w : World G K)
      → c.dram_channel < max_dram_channels
      → IsCounted k w.mpset
      → Counted (alloc_device k c w)
  unfolding alloc_device
  alloc_device-IsCounted c w hc h = elim (Bool-cases (leb max_ddr_regions c.dram_region)) [
    | inl e ↦ rw e tt
    | inr e ↦ rw e (
        alloc_from-IsCounted c (w.mpset.mp_device c.dram_channel c.dram_region).gen_pool w hc
          (leb-false→lt max_ddr_regions c.dram_region e) h)
  ]

  alloc_at-IsCounted :
      (location : MemLocation) (c : Chunk) (w : World G K)
      → c.dram_channel < max_dram_channels
      → IsCounted k w.mpset
      → Counted (alloc_at k location c w)
  unfolding alloc_at
  alloc_at-IsCounted loc_host c w hc h = alloc_host-IsCounted c w h
  alloc_at-IsCounted loc_device c w hc h = alloc_device-IsCounted c w hc h
  alloc_at-IsCounted loc_invalid c w hc h = alloc_device-IsCounted c w hc h

  -- `mc_alloc`, whether it succeeds or fails, keeps the counters of a set of pools: where
  -- `host_mem_size` and `device_mem_size` were the bytes of the linked host chunks and of the
  -- linked device chunks of all pools, on 64-bit words, they still are.
  pub mc_alloc-IsCounted :
      (size : ℕ) (location : MemLocation) (channel region nc_id : ℕ) (w : World G K)
      → IsCounted k w.mpset
      → Counted (mc_alloc k size location channel region nc_id w)
  unfolding mc_alloc new_chunk asked_chunk
  mc_alloc-IsCounted size location channel region nc_id w h =
      elim (Bool-cases (leb max_dram_channels channel)) [
        | inl e ↦ rw e h
        | inr e ↦ rw e (elim (Bool-cases ((k.kmalloc k.sizeof_mem_chunk w.heap).0 == 0)) [
          | inl x ↦ rw x h
          | inr x ↦
              rw x (alloc_at-IsCounted location _ _ (leb-false→lt max_dram_channels channel e) h)
        ])
      ]

  -- The chunk that a list links at an address.
  unfoldable pub linked : (mc : ℕ) → List Chunk → Option Chunk
  linked mc [] = none
  linked mc (c ∷ cs) = if c.mc == mc then some c else linked mc cs

  -- A chunk that the set holds: the one that is linked at its address in the list of its place.
  abbrev HeldAt : MemLocation → Chunk → MempoolSet G → Type 0
  HeldAt loc_host c set = linked c.mc set.host_allocated ≡ some c
  HeldAt loc_device c set =
      (c.dram_channel < max_dram_channels)
      × (c.dram_region < max_ddr_regions)
      × (linked c.mc (set.mp_device c.dram_channel c.dram_region).device_allocated ≡ some c)
  HeldAt loc_invalid c set = ⊥

  abbrev IsHeld : Chunk → MempoolSet G → Type 0
  IsHeld c set = HeldAt c.mem_location c set

  list_del-total :
      (c : Chunk) (cs : List Chunk)
      → linked c.mc cs ≡ some c
      → total (list_del c.mc cs) + c.size ≡ total cs
  unfolding linked list_del total
  list_del-total c [] e = cc
  list_del-total c (d ∷ ds) e = elim (Bool-cases (d.mc == c.mc)) [
    | inl x ↦ rw x (omega (arith, ap (λ (q : Chunk). q.size) (some-injective d c (rw x at e))))
    | inr x ↦ rw x (omega (arith, list_del-total c ds (rw x at e)))
  ]

  free_to-IsCounted :
      (c : Chunk) (o : Option G) (w : World G K)
      → c.dram_channel < max_dram_channels
      → c.dram_region < max_ddr_regions
      → linked c.mc (w.mpset.mp_device c.dram_channel c.dram_region).device_allocated ≡ some c
      → IsCounted k w.mpset
      → Counted (free_to k c (w.mpset.mp_device c.dram_channel c.dram_region) o w)
  unfolding free_to device_total
  free_to-IsCounted c none w hc hr l h = tt
  free_to-IsCounted c (some g) w hc hr l h =
      let mp : Mempool G = w.mpset.mp_device c.dram_channel c.dram_region in
      let mp' : Mempool G = record mp {
        device_allocated = list_del c.mc mp.device_allocated;
        gen_pool = some (k.gen_pool_free c.va c.size g);
        allocated_size = sub64 mp.allocated_size c.size;
      } in
      (
        h.0,
        omega (
          arith,
          h.1,
          list_del-total c mp.device_allocated l,
          device_total-set_pool k c.dram_channel c.dram_region mp' w.mpset hc hr,
        ),
      )

  free_at-IsCounted :
      (l : MemLocation) (c : Chunk) (w : World G K)
      → HeldAt l c w.mpset
      → IsCounted k w.mpset
      → Counted (free_at k l c w)
  unfolding free_at free_host free_device device_total
  free_at-IsCounted loc_host c w l h =
      (omega (arith, h.0, list_del-total c w.mpset.host_allocated l), h.1)
  free_at-IsCounted loc_device c w l h =
      free_to-IsCounted c (w.mpset.mp_device c.dram_channel c.dram_region).gen_pool w l.0 l.1 l.2 h
  free_at-IsCounted loc_invalid c w l h = absurd l

  -- `mc_free` of a chunk that is linked in the list of its place, host memory or one of the eight
  -- device pools, keeps `host_mem_size` and `device_mem_size` the bytes of the linked chunks, on
  -- 64-bit words.
  pub mc_free-IsCounted :
      (c : Chunk) (w : World G K)
      → IsHeld c w.mpset
      → IsCounted k w.mpset
      → Counted (mc_free k (some c) w)
  unfolding mc_free
  mc_free-IsCounted c w l h =
      Leaves-bind_out (λ (s : World G K). IsCounted k s.mpset) (free_at k c.mem_location c w)
        (λ _. in_heap k (k.kfree c.mc)) (λ a s p. p) (free_at-IsCounted c.mem_location c w l h)
