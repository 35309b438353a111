-- ===== src/Mempool/RoundTrip.antt =====
-- A host chunk from `mc_alloc` to the search for it and to `mc_free`.
use aws_neuron_driver.Common.{
  ℕ, some, List, [], ◌∷◌, ◌+◌, ◌≤◌, ◌<◌, ◌≡◌, refl, sym, u64, ◌≢◌, ◌∙◌, ap, ◌==◌, ◌^◌, leb,
  if◌then◌else◌, arith, Bool-cases, inl, inr, eq→==, ◌>>◌, ok, All, lt→ltb, le→ltb-false,
  ok-injective,
}
use aws_neuron_driver.Mempool.{
  loc_host, Chunk, Kernel, MempoolSet, World, list_del, in_heap, max_dram_channels, mc_insert_node,
  search_mc,
}
use aws_neuron_driver.Mempool.Alloc.{
  new_chunk, give_up, add_host, host_found, alloc_host, alloc_at, asked_chunk, mc_alloc, free_host,
  free_at, mc_free,
}
use aws_neuron_driver.Mempool.Order.{to_list, chunk_end, IsOrdered, chunk_at, Misses}
use aws_neuron_driver.Mempool.Search.{search_mc-chunk_at, here-holds, below-Misses, above-Misses}
use aws_neuron_driver.Mempool.Insert.{
  IsBalanced, Apart, place, mc_insert_node-place, mc_insert_node-IsOrdered,
  mc_remove_node-mc_insert_node, All-place,
}
use aws_neuron_driver.Mempool.Counts.{host_backing-heap}
use native.Mathlib.Decide.{dec_lt}

chunk_at-place :
    (pa : ℕ) (c : Chunk) (cs : List Chunk)
    → c.pa ≤ pa
    → pa < chunk_end c
    → All (Apart c) cs
    → chunk_at pa (place c cs) ≡ some c
unfolding place chunk_at
chunk_at-place pa c [] h l a = here-holds pa c [] h l
chunk_at-place pa c (d ∷ ds) h l a = elim (dec_lt c.pa d.pa) [
  | yes x ↦ rw (lt→ltb c.pa d.pa x) (here-holds pa c (d ∷ ds) h l)
  | no x ↦
      let misses : Misses pa d = elim (a.0) [
        | inl e ↦ above-Misses pa d (omega arith)
        | inr e ↦ below-Misses pa d (omega arith)
      ] in
      rw (le→ltb-false c.pa d.pa (omega arith)) (rw misses (chunk_at-place pa c ds h l a.1))
]

pub list_del-head : (c : Chunk) (cs : List Chunk) → list_del c.mc (c ∷ cs) ≡ cs
unfolding list_del
list_del-head c cs = rw (eq→== c.mc c.mc refl) refl

module _ {G K : Type 0} (k : Kernel G K) where
  -- The set after a host chunk was added.
  abbrev with_host : Chunk → MempoolSet G → MempoolSet G
  with_host c set = record set {
    host_allocated = c ∷ set.host_allocated;
    root = mc_insert_node k set.root c;
    host_mem_size = u64 (set.host_mem_size + c.size);
  }

  -- What a successful allocation of host memory did.
  pub record HostAdded (size : ℕ) (w : World G K) (c : Chunk) (w' : World G K) : Type 0 where
    pub sized : c.size ≡ size
    pub on_host : c.mem_location ≡ loc_host
    pub heap' : K
    pub added : w' ≡ record { mpset = with_host c w.mpset; heap = heap' }

  host_found-HostAdded :
      (c : Chunk) (p : ℕ × ℕ) (w : World G K) {c' : Chunk} {w' : World G K}
      → c.mem_location ≡ loc_host
      → host_found k c p w ≡ ok c' w'
      → HostAdded c.size w c' w'
  unfolding host_found give_up add_host
  host_found-HostAdded c p w l e = elim (Bool-cases (p.0 == 0)) [
    | inl x ↦ absurd (cc (rw x at e))
    | inr x ↦
        let i = ok-injective _ _ _ _ (rw x at e) in
        record {
          sized = ap (λ (q : Chunk). q.size) (sym i.0);
          on_host = ap (λ (q : Chunk). q.mem_location) (sym i.0) ∙ l;
          heap' = w.heap;
          added =
              sym i.1
              ∙ ap (λ (q : Chunk). record { mpset = with_host q w.mpset; heap = w.heap }) i.0;
        }
  ]

  alloc_host-HostAdded :
      (c : Chunk) (w : World G K) {c' : Chunk} {w' : World G K}
      → c.mem_location ≡ loc_host
      → alloc_host k c w ≡ ok c' w'
      → HostAdded c.size w c' w'
  unfolding alloc_host
  alloc_host-HostAdded c w l e =
      let b = host_backing-heap k c.size w in
      let a = host_found-HostAdded c b.0 (record w { heap = b.1 }) l (rw b.2 at e) in
      record { sized = a.sized; on_host = a.on_host; heap' = a.heap'; added = a.added }

  -- A successful `mc_alloc` of host memory.
  pub mc_alloc-HostAdded :
      (size channel region nc_id : ℕ) (w : World G K) {c : Chunk} {w' : World G K}
      → mc_alloc k size loc_host channel region nc_id w ≡ ok c w'
      → HostAdded size w c w'
  unfolding mc_alloc new_chunk asked_chunk alloc_at
  mc_alloc-HostAdded size channel region nc_id w e =
      elim (Bool-cases (leb max_dram_channels channel)) [
        | inl x ↦ absurd (cc (rw x at e))
        | inr x ↦ elim (Bool-cases ((k.kmalloc k.sizeof_mem_chunk w.heap).0 == 0)) [
          | inl y ↦ absurd (cc (rw y at (rw x at e)))
          | inr y ↦
              let mc = (k.kmalloc k.sizeof_mem_chunk w.heap).0 in
              let used = if w.mpset.num_regions == 1 then 0 else region in
              let a =
                alloc_host-HostAdded (asked_chunk k mc size loc_host channel used nc_id) _ refl
                  (rw y at (rw x at e)) in
              record { sized = a.sized; on_host = a.on_host; heap' = a.heap'; added = a.added }
        ]
      ]

  -- After an allocation of host memory, of at least one byte and next to chunks in order that the
  -- new one does not overlap and none of which ends at `pa`, the search for the address `pa`
  -- inside the new chunk finds that chunk, when the kernel balances trees as it documents.
  search_mc-mc_alloc :
      (b : IsBalanced k) (size channel region nc_id : ℕ) (w : World G K) (c : Chunk)
      (w' : World G K) (pa : ℕ)
      → mc_alloc k size loc_host channel region nc_id w ≡ ok c w'
      → 0 < size
      → IsOrdered (to_list w.mpset.root)
      → All (Apart c) (to_list w.mpset.root)
      → All (λ d. chunk_end d ≢ pa) (to_list w.mpset.root)
      → All (λ d. chunk_end d < 2 ^ 64) (to_list w.mpset.root)
      → chunk_end c < 2 ^ 64
      → c.pa ≤ pa
      → pa < chunk_end c
      → search_mc w'.mpset.root pa ≡ some c
  search_mc-mc_alloc b size channel region nc_id w c w' pa e pos o apart off fit fits lo hi =
      let a = mc_alloc-HostAdded size channel region nc_id w e in
      let t = w.mpset.root in
      let t' = mc_insert_node k t c in
      let placed = mc_insert_node-place k b t c o in
      rw a.added (
        search_mc-chunk_at t' pa (mc_insert_node-IsOrdered k b t c (omega (arith, a.sized)) o apart)
          (rw placed (All-place (λ d. chunk_end d ≢ pa) c (to_list t) (λ x. omega (arith, x)) off))
          (rw placed (All-place (λ d. chunk_end d < 2 ^ 64) c (to_list t) fits fit))
        ∙ ap (λ cs. chunk_at pa cs) placed
        ∙ chunk_at-place pa c (to_list t) lo hi apart)

  pub mc_free-host :
      (c : Chunk) (w : World G K)
      → c.mem_location ≡ loc_host
      → mc_free k (some c) w ≡ (free_host k c >> in_heap k (k.kfree c.mc)) w
  unfolding mc_free free_at
  mc_free-host c w e = ap (λ l. (free_at k l c >> in_heap k (k.kfree c.mc)) w) e

  -- Freeing a host chunk right after it was allocated succeeds and takes the allocation back: the
  -- list of host chunks, the 64-bit byte count and the tree's chunks, in order and without one at
  -- the same node, are those of before, when the kernel balances trees as it documents.
  pub mc_free-mc_alloc :
      (b : IsBalanced k) (size channel region nc_id : ℕ) (w : World G K) (c : Chunk)
      (w' : World G K)
      → mc_alloc k size loc_host channel region nc_id w ≡ ok c w'
      → IsOrdered (to_list w.mpset.root)
      → All (λ d. d.mc ≢ c.mc) (to_list w.mpset.root)
      → w.mpset.host_mem_size < 2 ^ 64
      → (w'' : World G K) × (mc_free k (some c) w' ≡ ok tt w'')
        × (w''.mpset.host_allocated ≡ w.mpset.host_allocated)
        × (w''.mpset.host_mem_size ≡ w.mpset.host_mem_size)
        × (to_list w''.mpset.root ≡ to_list w.mpset.root)
  unfolding free_host
  mc_free-mc_alloc b size channel region nc_id w c w' e o fresh small =
      let a = mc_alloc-HostAdded size channel region nc_id w e in
      rw a.added (
        _,
        mc_free-host c _ a.on_host,
        list_del-head c w.mpset.host_allocated,
        omega arith,
        mc_remove_node-mc_insert_node k b w.mpset.root c o fresh,
      )
