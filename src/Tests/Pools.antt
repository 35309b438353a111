-- ===== src/Tests/Pools.antt =====
-- Pools, chunks and the search for them.
use aws_neuron_driver.Common.{
  ℕ, false, none, some, List, [], ◌∷◌, ◌+◌, ◌*◌, ◌≡◌, inl, inr, refl, ap, arith, Outcome, ok, err,
  bug, Leaves, if◌then◌else◌, ◌==◌, ◌≤◌,
}
use aws_neuron_driver.Mempool.{
  MemLocation, loc_host, loc_device, Chunk, Tree, leaf, node, Kernel, Mempool, MempoolSet, World,
  list_del, search_mc, mc_insert_node, put_pool, cleared_pool,
}
use aws_neuron_driver.Mempool.Alloc.{mc_alloc, mc_free}
use aws_neuron_driver.Mempool.Set.{mpset_device_init}
use aws_neuron_driver.Mempool.Order.{to_list, IsOrdered, chunk_at}
use aws_neuron_driver.Mempool.Search.{search_mc-chunk_at}
use aws_neuron_driver.Mempool.Insert.{IsBalanced, mc_insert_node-IsOrdered}
use aws_neuron_driver.Mempool.Account.{total, device_total, IsCounted}
use aws_neuron_driver.Mempool.Counts.{mc_alloc-IsCounted, mc_free-IsCounted}
use aws_neuron_driver.Mempool.RoundTrip.{mc_free-mc_alloc}
use aws_neuron_driver.Mempool.Pools.{IsPlaced, mpset_device_init-IsPlaced}

-- A tree that leans to the right.
abbrev spine : List Chunk → Tree
spine [] = leaf
spine (c ∷ cs) = node leaf c (spine cs)

to_list-spine : (cs : List Chunk) → to_list (spine cs) ≡ cs
unfolding to_list
to_list-spine [] = refl
to_list-spine (c ∷ cs) = ap (λ ds. c ∷ ds) (to_list-spine cs)

-- A kernel whose heap and pools hand out one address after the other, and take nothing back.
abbrev pub kernel : Kernel ℕ ℕ
kernel = record {
  kmalloc = λ size h. (h, h + size);
  kfree = λ a h. h;
  dma_alloc_coherent = λ size h. ((h, h), h + size);
  dma_free_coherent = λ size va pa h. h;
  virt_to_phys = λ va. va;
  gen_pool_create = λ order h. (some 0, h);
  gen_pool_add_virt = λ g va pa size. (none, va);
  gen_pool_dma_alloc = λ size g. ((g, g), g + size);
  gen_pool_free = λ va size g. g;
  gen_pool_destroy = λ g h. h;
  rb_insert_color = λ c t. t;
  rb_erase = λ c t. spine (list_del c.mc (to_list t));
  sizeof_mem_chunk = 128;
  ilog2 = λ size. if size == 256 then 8 else 0;
  min_alloc_size = 256;
}

pub kernel-IsBalanced : IsBalanced kernel
kernel-IsBalanced = record {
  color_keeps = λ c t. refl;
  erase_takes = λ c t. to_list-spine (list_del c.mc (to_list t));
}

abbrev pub chunk : (mc pa size : ℕ) → Chunk
chunk mc pa size = record {
  mc = mc;
  pa = pa;
  va = pa;
  size = size;
  dram_channel = 0;
  dram_region = 0;
  nc_id = 0;
  mem_location = loc_host;
}

abbrev pub low : Chunk
low = chunk 1 0x1000 0x100

abbrev high : Chunk
high = chunk 2 0x2000 0x100

abbrev pub two : Tree
two = node leaf low (node leaf high leaf)

pub two-IsOrdered : IsOrdered (to_list two)
unfolding to_list
two-IsOrdered = ((omega arith, tt), (tt, tt))

search_mc-chunk_at_example : search_mc two 0x2010 ≡ chunk_at 0x2010 (to_list two)
unfolding to_list
search_mc-chunk_at_example =
    search_mc-chunk_at two 0x2010 two-IsOrdered
      ((λ e. omega (arith, e)), ((λ e. omega (arith, e)), tt)) (omega arith, (omega arith, tt))

mc_insert_node-IsOrdered_example :
    IsOrdered (to_list (mc_insert_node kernel two (chunk 3 0x1800 0x100)))
unfolding to_list
mc_insert_node-IsOrdered_example =
    mc_insert_node-IsOrdered kernel kernel-IsBalanced two (chunk 3 0x1800 0x100) (omega arith)
      two-IsOrdered (inr (omega arith), (inl (omega arith), tt))

abbrev no_pool : Mempool ℕ
no_pool = record {
  initialized = false;
  mem_location = loc_device;
  dram_channel = 0;
  dram_region = 0;
  gen_pool = none;
  device_allocated = [];
  region_size = 0;
  allocated_size = 0;
}

abbrev pub world : World ℕ ℕ
world = record {
  mpset = record {
    num_regions = 1;
    mp_device = λ channel region. no_pool;
    host_allocated = low ∷ high ∷ [];
    host_mem_size = 0x200;
    device_mem_size = 0;
    root = two;
  };
  heap = 0x8000;
}

world-IsCounted : IsCounted kernel world.mpset
unfolding total device_total
world-IsCounted = (refl, refl)

mc_alloc-IsCounted_example :
    Leaves (λ w. IsCounted kernel w.mpset) (mc_alloc kernel 64 loc_host 0 0 0 world)
mc_alloc-IsCounted_example = mc_alloc-IsCounted kernel 64 loc_host 0 0 0 world world-IsCounted

mc_free-IsCounted_example :
    Leaves (λ w. IsCounted kernel w.mpset) (mc_free kernel (some high) world)
unfolding aws_neuron_driver.Mempool.Counts.linked
mc_free-IsCounted_example = mc_free-IsCounted kernel high world refl world-IsCounted

-- The chunk of 64 bytes that is allocated next, and what is left.
abbrev pub fresh_chunk : Chunk
fresh_chunk = chunk 0x8000 0x8080 64

abbrev pub allocated : World ℕ ℕ
allocated = record {
  mpset = record world.mpset {
    host_allocated = fresh_chunk ∷ low ∷ high ∷ [];
    host_mem_size = 0x240;
    root = mc_insert_node kernel two fresh_chunk;
  };
  heap = 0x80c0;
}

pub allocated_made : mc_alloc kernel 64 loc_host 0 0 0 world ≡ ok fresh_chunk allocated
unfolding mc_alloc
allocated_made = refl

mc_free-mc_alloc_example :
    (w : World ℕ ℕ) × (mc_free kernel (some fresh_chunk) allocated ≡ ok tt w)
    × (w.mpset.host_allocated ≡ low ∷ high ∷ [])
    × (w.mpset.host_mem_size ≡ 0x200)
    × (to_list w.mpset.root ≡ to_list two)
unfolding to_list
mc_free-mc_alloc_example =
    mc_free-mc_alloc kernel kernel-IsBalanced 64 0 0 0 world fresh_chunk allocated allocated_made
      two-IsOrdered ((λ e. omega (arith, e)), ((λ e. omega (arith, e)), tt)) (omega arith)

abbrev addr : ℕ → ℕ
addr channel = channel * 0x100000

abbrev channel_size : ℕ → ℕ
channel_size channel = 0x80000

-- The world that a call leaves.
abbrev left_by : Outcome (World ℕ ℕ) (Unit {0}) → World ℕ ℕ
left_by (ok a w) = w
left_by (err e w) = w
left_by bug = world

abbrev with_pools : World ℕ ℕ
with_pools = left_by (mpset_device_init kernel 2 false 4 addr channel_size world)

with_pools_made : mpset_device_init kernel 2 false 4 addr channel_size world ≡ ok tt with_pools
unfolding mpset_device_init aws_neuron_driver.Mempool.mp_init
with_pools_made = refl

mpset_device_init-IsPlaced_example :
    IsPlaced kernel 0 0x20000 (with_pools.mpset.mp_device 0 0) × (0x20000 ≤ 0x80000)
unfolding aws_neuron_driver.Mempool.Set.checked_regions
mpset_device_init-IsPlaced_example =
    mpset_device_init-IsPlaced kernel 2 false 4 addr channel_size world with_pools 0 0
      with_pools_made (omega arith) (omega arith) (omega arith) (omega arith) (omega arith)
