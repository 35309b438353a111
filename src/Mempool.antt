-- ===== src/Mempool.antt =====
-- Memory pools, neuron_mempool.c and neuron_mempool.h: the chunks of host and device memory that a
-- device hands out. The kernel's allocators and the balancing of its red-black trees are operations
-- of a `Kernel`, on a state `K` of the kernel's heap and a state `G` of a `gen_pool`. An address 0
-- is NULL. A lock is taken and released around each operation, so an operation is one step.
use aws_neuron_driver.Common.{
  ℕ, zero, suc, Bool, true, false, Option, none, some, List, [], ◌∷◌, ◌++◌, ◌+◌, ◌-◌, ◌*◌, ◌/◌, ◌^◌,
  ◌&&◌, ◌||◌, u32, u64, ◌==◌, ltb, leb, if◌then◌else◌, Errno, M, Outcome, ok, err, bug, ◌>>=◌, ◌>>◌,
  pure, fail, fail_if, bug_on, einval, enomem,
}
pub mod Set
pub mod Alloc
pub mod Order
pub mod Search
pub mod Insert
pub mod Account
pub mod Counts
pub mod RoundTrip
pub mod Pools
pub mod Given

-- `enum mem_location`
pub data MemLocation : Type 0 where
  loc_invalid loc_host loc_device : MemLocation

-- `mc->mem_location == MEM_LOC_HOST`
abbrev pub is_host : MemLocation → Bool
is_host loc_host = true
is_host loc_device = false
is_host loc_invalid = false

-- `struct mem_chunk`; `mc` is its own address. The back pointer `mpset` is the only set that there
-- is, and the links of the lists and of the tree are in those.
pub record Chunk : Type 0 where
  pub mc : ℕ
  pub pa : ℕ
  pub va : ℕ
  pub size : ℕ
  pub dram_channel : ℕ
  pub dram_region : ℕ
  pub nc_id : ℕ
  pub mem_location : MemLocation

-- The red-black tree of chunks, without its colours.
pub data Tree : Type 0 where
  leaf : Tree
  node : Tree → Chunk → Tree → Tree

-- The kernel. `kmalloc` and `dma_alloc_coherent` return the address 0 when they fail, the latter with
-- a bus address beside it, and so does `gen_pool_dma_alloc`. `gen_pool_create` fails with `none`,
-- and `gen_pool_add_virt` with an error code. `min_alloc_size` is the module parameter
-- `mempool_min_alloc_size`, when it is not negative.
pub record Kernel (G K : Type 0) : Type 0 where
  pub kmalloc : ℕ → K → ℕ × K
  pub kfree : ℕ → K → K
  pub dma_alloc_coherent : ℕ → K → (ℕ × ℕ) × K
  pub dma_free_coherent : ℕ → ℕ → ℕ → K → K
  pub virt_to_phys : ℕ → ℕ
  pub gen_pool_create : ℕ → K → Option G × K
  pub gen_pool_add_virt : G → ℕ → ℕ → ℕ → Option Errno × G
  pub gen_pool_dma_alloc : ℕ → G → (ℕ × ℕ) × G
  pub gen_pool_free : ℕ → ℕ → G → G
  pub gen_pool_destroy : G → K → K
  pub rb_insert_color : Chunk → Tree → Tree
  pub rb_erase : Chunk → Tree → Tree
  pub sizeof_mem_chunk : ℕ
  pub ilog2 : ℕ → ℕ
  pub min_alloc_size : ℕ

-- `struct mempool`, without its name; `region_size` and `allocated_size` are words of 64 bits.
pub record Mempool (G : Type 0) : Type 0 where
  pub initialized : Bool
  pub mem_location : MemLocation
  pub dram_channel : ℕ
  pub dram_region : ℕ
  pub gen_pool : Option G
  pub device_allocated : List Chunk
  pub region_size : ℕ
  pub allocated_size : ℕ

-- `struct mempool_set`
pub record MempoolSet (G : Type 0) : Type 0 where
  pub num_regions : ℕ
  pub mp_device : ℕ → ℕ → Mempool G
  pub host_allocated : List Chunk
  pub host_mem_size : ℕ
  pub device_mem_size : ℕ
  pub root : Tree

-- The set and the kernel's heap.
pub record World (G K : Type 0) : Type 0 where
  pub mpset : MempoolSet G
  pub heap : K

-- MEMPOOL_KMALLOC_MAX_SIZE, MAX_DDR_REGIONS and V1_MAX_DRAM_CHANNELS
abbrev pub kmalloc_max_size : ℕ
kmalloc_max_size = 256 * 1024

abbrev pub max_ddr_regions : ℕ
max_ddr_regions = 4

abbrev pub max_dram_channels : ℕ
max_dram_channels = 2

-- The fall to the bottom of the tree in `mc_insert_node`, and the new node there.
unfoldable pub link_node : Chunk → Tree → Tree
link_node c leaf = node leaf c leaf
link_node c (node l d r) =
    if ltb c.pa d.pa then node (link_node c l) d r else node l d (link_node c r)

-- `mpset_search_mc`; the end of a chunk is a `u64`.
unfoldable pub search_mc : Tree → (pa : ℕ) → Option Chunk
search_mc leaf pa = none
search_mc (node l c r) pa =
    if leb c.pa pa && leb pa (u64 (c.pa + c.size))
    then some c
    else if ltb pa c.pa
    then search_mc l pa
    else search_mc r pa

-- `list_del` of the link in the chunk at `mc`.
unfoldable pub list_del : (mc : ℕ) → List Chunk → List Chunk
list_del mc [] = []
list_del mc (c ∷ cs) = if c.mc == mc then cs else c ∷ list_del mc cs

-- a - b on words of 64 bits; the modulus is added first, since `-` stops at 0.
abbrev pub sub64 : ℕ → ℕ → ℕ
sub64 a b = u64 (a + 2 ^ 64 - u64 b)

module _ {G K : Type 0} (k : Kernel G K) where
  -- `mc_insert_node`
  unfoldable pub mc_insert_node : Tree → Chunk → Tree
  mc_insert_node t c = k.rb_insert_color c (link_node c t)

  -- `mc_remove_node`
  unfoldable pub mc_remove_node : Tree → Chunk → Tree
  mc_remove_node t c = k.rb_erase c t

  -- A pool as `mp_init` leaves it before the `gen_pool` is made: all zero but for what it names.
  unfoldable pub cleared_pool : MemLocation → (channel region : ℕ) → Mempool G
  cleared_pool location channel region = record {
    initialized = false;
    mem_location = location;
    dram_channel = channel;
    dram_region = region;
    gen_pool = none;
    device_allocated = [];
    region_size = 0;
    allocated_size = 0;
  }

  -- The pool of device memory at `channel` and `region`.
  abbrev pub set_pool : (channel region : ℕ) → Mempool G → MempoolSet G → MempoolSet G
  set_pool channel region mp set = record set {
    mp_device = λ c r. if c == channel && r == region then mp else set.mp_device c r;
  }

  abbrev pub put_pool : (channel region : ℕ) → Mempool G → M (World G K) (Unit {0})
  put_pool channel region mp w = ok tt (record w { mpset = set_pool channel region mp w.mpset })

  abbrev pub in_heap : (K → K) → M (World G K) (Unit {0})
  in_heap f w = ok tt (record w { heap = f w.heap })

  -- The place of a pool: no pool starts at the address 0, which would read as a failed allocation.
  unfoldable pub pool_start : (start_addr : ℕ) → ℕ
  pool_start start_addr = if start_addr == 0 then k.min_alloc_size else start_addr

  unfoldable pub pool_length : (start_addr pool_size : ℕ) → ℕ
  pool_length start_addr pool_size =
      if start_addr == 0 then sub64 pool_size k.min_alloc_size else pool_size

  -- What `mp_init` does with the result of `gen_pool_add_virt`.
  unfoldable pub pool_added :
      (channel region size : ℕ) → Mempool G → Option Errno × G → M (World G K) (Unit {0})
  pool_added channel region size mp (some e, g) = do
    put_pool channel region (record mp { gen_pool = some g })
    in_heap (k.gen_pool_destroy g)
    fail e
  pool_added channel region size mp (none, g) =
      put_pool channel region
        (record mp { gen_pool = some g; region_size = size; initialized = true })

  unfoldable pub pool_created :
      (channel region start size : ℕ) → Mempool G → Option G → M (World G K) (Unit {0})
  unfolding pool_added
  pool_created channel region start size mp none = do put_pool channel region mp; fail enomem
  pool_created channel region start size mp (some g) =
      pool_added channel region size mp (k.gen_pool_add_virt g start start size)

  -- `mp_init` of the pool at `channel` and `region`.
  unfoldable pub mp_init :
      (start_addr pool_size : ℕ) (location : MemLocation) (channel region : ℕ)
      → M (World G K) (Unit {0})
  unfolding cleared_pool pool_start pool_length pool_created
  mp_init start_addr pool_size location channel region = λ w.
      let created : Option G × K = k.gen_pool_create (k.ilog2 k.min_alloc_size) w.heap in
      pool_created channel region (pool_start start_addr) (pool_length start_addr pool_size)
        (cleared_pool location channel region) created.0 (record w { heap = created.1 })

  -- The chunks of a pool given back to its `gen_pool`, and their own memory to the heap.
  unfoldable free_device_chunks : List Chunk → G × K → G × K
  free_device_chunks [] s = s
  free_device_chunks (c ∷ cs) (g, h) =
      free_device_chunks cs (if c.va == 0 then g else k.gen_pool_free c.va c.size g, k.kfree c.mc h)

  -- `mp_free_device_mem` of an initialized pool.
  unfoldable pub free_pool_chunks :
      (channel region : ℕ) → Mempool G → Option G → M (World G K) (Unit {0})
  unfolding free_device_chunks
  free_pool_chunks channel region mp none = pure tt
  free_pool_chunks channel region mp (some g) = λ w.
      let freed : G × K = free_device_chunks mp.device_allocated (g, w.heap) in
      put_pool channel region
        (record mp { gen_pool = some freed.0; device_allocated = []; allocated_size = 0 })
        (record w { heap = freed.1 })

  -- `mp_free_device_mem` of the pool at `channel` and `region`.
  unfoldable pub mp_free_device_mem : (channel region : ℕ) → M (World G K) (Unit {0})
  unfolding free_pool_chunks
  mp_free_device_mem channel region = λ w.
      let mp : Mempool G = w.mpset.mp_device channel region in
      if mp.initialized then free_pool_chunks channel region mp mp.gen_pool w else ok tt w

  abbrev destroy_gen_pool : Option G → K → K
  destroy_gen_pool none h = h
  destroy_gen_pool (some g) h = k.gen_pool_destroy g h

  -- `mp_destroy`
  unfoldable pub mp_destroy : (channel region : ℕ) → M (World G K) (Unit {0})
  unfolding mp_free_device_mem
  mp_destroy channel region = λ w.
      if (w.mpset.mp_device channel region).initialized
      then (do
        mp_free_device_mem channel region
        (λ w. in_heap (destroy_gen_pool (w.mpset.mp_device channel region).gen_pool) w))
          w
      else ok tt w
