-- ===== src/Rings/Device/Free.antt =====
-- What `ndmar_h2t_ring_alloc` takes, `ndmar_h2t_ring_free` gives back.
use aws_neuron_driver.Common.{
  ℕ, Option, none, some, List, ◌∷◌, ◌<◌, ◌≡◌, refl, ◌∙◌, ap, arith, eq→==, lt→leb-false, ok, ◌>>◌,
  Returns, Returns-bind_out, Runs, Runs-then,
}
use aws_neuron_driver.Udma.Types.{Host}
use aws_neuron_driver.Mempool.{Chunk, loc_host, Kernel, World}
use aws_neuron_driver.Mempool.Alloc.{mc_alloc, mc_free, free_host}
use aws_neuron_driver.Mempool.Given.{IsGiving, mc_alloc_given}
use aws_neuron_driver.Mempool.RoundTrip.{mc_alloc-HostAdded, mc_free-host, list_del-head}
use aws_neuron_driver.Dma.Chunks.{h2t_engine}
use aws_neuron_driver.Rings.{ring_set_mem_chunk}
use aws_neuron_driver.Rings.Device.{
  Device, h2t_ring, mark_h2t, h2t_ring_size, fill_h2t_ring, h2t_ring_alloc, with_h2t_ring, free_tx,
  free_rx, free_rxc, h2t_ring_free,
}
use aws_neuron_driver.Rings.Device.Init.{ring_size, h2t_engine-below}

module _ {G K : Type 0} (k : Kernel G K) where
  -- A host chunk that heads the list leaves it.
  free_head :
      (c : Chunk) (cs : List Chunk) (w : World G K)
      → c.mem_location ≡ loc_host
      → w.mpset.host_allocated ≡ c ∷ cs
      → (w' : World G K) × (mc_free k (some c) w ≡ ok tt w') × (w'.mpset.host_allocated ≡ cs)
  unfolding free_host
  free_head c cs w host e = (_, mc_free-host k c w host, rw e (list_del-head c cs))

  -- An allocation for a ring heads the list.
  alloc_head :
      (g : IsGiving k) (nc_id : ℕ) (w : World G K)
      → (c : Chunk) × (w' : World G K) × (mc_alloc k h2t_ring_size loc_host 0 0 nc_id w ≡ ok c w')
        × (c.mem_location ≡ loc_host)
        × (w'.mpset.host_allocated ≡ c ∷ w.mpset.host_allocated)
  alloc_head g nc_id w =
      let (c, w', heap, runs, va, host) =
        mc_alloc_given k g h2t_ring_size nc_id w (rw ring_size (omega arith)) in
      let a = mc_alloc-HostAdded k h2t_ring_size 0 0 nc_id w runs in
      (c, w', runs, host, ap (λ (v : World G K). v.mpset.host_allocated) a.added)

  -- The chunks of the driver's own ring of an engine, and the list of host chunks.
  pub record Has (i : ℕ) (tx_mc rx_mc : Option Chunk) (cs : List Chunk) (d : Device G K)
      : Type 0 where
    tx_there : (h2t_ring (d.engines i)).tx_mc ≡ tx_mc
    rx_there : (h2t_ring (d.engines i)).rx_mc ≡ rx_mc
    no_rxc : (h2t_ring (d.engines i)).rxc_mc ≡ none
    listed : d.world.mpset.host_allocated ≡ cs

  -- Both rings are there, at the head of the list.
  record IsFilled (i : ℕ) (cs : List Chunk) (d : Device G K) : Type 0 where
    tx_mc : Chunk
    rx_mc : Chunk
    tx_host : tx_mc.mem_location ≡ loc_host
    rx_host : rx_mc.mem_location ≡ loc_host
    has : Has i (some tx_mc) (some rx_mc) (tx_mc ∷ rx_mc ∷ cs) d

  h2t_ring_alloc-IsFilled :
      (hosts : ℕ → Host) (g : IsGiving k) (nc_id : ℕ) (d : Device G K)
      → nc_id < 4
      → (h2t_ring (d.engines (h2t_engine nc_id))).rxc_mc ≡ none
      → Returns
          (IsFilled (h2t_engine nc_id) d.world.mpset.host_allocated)
          (h2t_ring_alloc k hosts nc_id d)
  unfolding h2t_ring_alloc fill_h2t_ring mark_h2t ring_set_mem_chunk
  h2t_ring_alloc-IsFilled hosts g nc_id d low clear =
      let i = h2t_engine nc_id in
      let (rx_mc, w1, runs1, rx_host, listed1) = alloc_head g nc_id d.world in
      let (tx_mc, w2, runs2, tx_host, listed2) = alloc_head g nc_id w1 in
      rw (lt→leb-false 12 i (h2t_engine-below nc_id low)) (
        rw runs1 (
          rw runs2 (record {
            tx_mc = tx_mc;
            rx_mc = rx_mc;
            tx_host = tx_host;
            rx_host = rx_host;
            has = record {
              tx_there = rw (eq→== i i refl) refl;
              rx_there = rw (eq→== i i refl) refl;
              no_rxc = rw (eq→== i i refl) clear;
              listed = listed2 ∙ ap (λ cs. tx_mc ∷ cs) listed1;
            };
          })))

  Runs-free_tx :
      (i : ℕ) (c : Chunk) (r : Option Chunk) (cs : List Chunk)
      → c.mem_location ≡ loc_host
      → Runs (Has i (some c) r (c ∷ cs)) (Has i none r cs) (free_tx k i)
  unfolding free_tx with_h2t_ring
  Runs-free_tx i c r cs host = record {
    run = λ d f.
        let (w, runs, listed) = free_head c cs d.world host f.listed in
        rw f.tx_there (
          rw runs (record {
            tx_there = rw (eq→== i i refl) refl;
            rx_there = rw (eq→== i i refl) f.rx_there;
            no_rxc = rw (eq→== i i refl) f.no_rxc;
            listed = listed;
          }));
  }

  Runs-free_rx :
      (i : ℕ) (c : Chunk) (t : Option Chunk) (cs : List Chunk)
      → c.mem_location ≡ loc_host
      → Runs (Has i t (some c) (c ∷ cs)) (Has i t none cs) (free_rx k i)
  unfolding free_rx with_h2t_ring
  Runs-free_rx i c t cs host = record {
    run = λ d f.
        let (w, runs, listed) = free_head c cs d.world host f.listed in
        rw f.rx_there (
          rw runs (record {
            tx_there = rw (eq→== i i refl) f.tx_there;
            rx_there = rw (eq→== i i refl) refl;
            no_rxc = rw (eq→== i i refl) f.no_rxc;
            listed = listed;
          }));
  }

  Runs-free_rxc :
      (i : ℕ) (t r : Option Chunk) (cs : List Chunk)
      → Runs (Has i t r cs) (Has i t r cs) (free_rxc k i)
  unfolding free_rxc with_h2t_ring mc_free
  Runs-free_rxc i t r cs = record {
    run = λ d f. rw f.no_rxc (record {
      tx_there = rw (eq→== i i refl) f.tx_there;
      rx_there = rw (eq→== i i refl) f.rx_there;
      no_rxc = rw (eq→== i i refl) refl;
      listed = f.listed;
    });
  }

  h2t_ring_free_filled :
      (i : ℕ) (cs : List Chunk) (d : Device G K)
      → i < 12
      → IsFilled i cs d
      → Returns (Has i none none cs) (h2t_ring_free k i d)
  unfolding h2t_ring_free
  h2t_ring_free_filled i cs d low f = rw (lt→leb-false 12 i low) (
      (Runs-then (Runs-free_tx i f.tx_mc (some f.rx_mc) (f.rx_mc ∷ cs) f.tx_host)
          (Runs-then (Runs-free_rx i f.rx_mc none cs f.rx_host) (Runs-free_rxc i none none cs))).run
        d f.has)

  -- With a kernel that gives memory, allocating the driver's own ring of one of the four cores,
  -- on an engine without a completion chunk there, and freeing it succeeds: the engine's ring has
  -- no chunks and the list of host chunks is that of before.
  pub h2t_ring_free-h2t_ring_alloc :
      (hosts : ℕ → Host) (g : IsGiving k) (nc_id : ℕ) (d : Device G K)
      → nc_id < 4
      → (h2t_ring (d.engines (h2t_engine nc_id))).rxc_mc ≡ none
      → Returns
          (Has (h2t_engine nc_id) none none d.world.mpset.host_allocated)
          ((h2t_ring_alloc k hosts nc_id >> h2t_ring_free k (h2t_engine nc_id)) d)
  h2t_ring_free-h2t_ring_alloc hosts g nc_id d low clear =
      Returns-bind_out (IsFilled (h2t_engine nc_id) d.world.mpset.host_allocated) _
        (h2t_ring_alloc k hosts nc_id d) (λ a. h2t_ring_free k (h2t_engine nc_id))
        (λ a t f.
          h2t_ring_free_filled (h2t_engine nc_id) d.world.mpset.host_allocated t
            (h2t_engine-below nc_id low) f)
        (h2t_ring_alloc-IsFilled hosts g nc_id d low clear)
