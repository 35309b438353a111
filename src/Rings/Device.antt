-- ===== src/Rings/Device.antt =====
-- The rings that the driver itself uses, and the engines of a device, neuron_ring.c:
-- `ndmar_h2t_ring_alloc`, `ndmar_h2t_ring_free`, `ndmar_eng_init`, `ndmar_init` and `ndmar_close`, and
-- the calls that read or change the state of one engine.
use aws_neuron_driver.Common.{
  ℕ, zero, suc, Bool, true, false, Option, none, some, ◌+◌, ◌*◌, ◌==◌, leb, if◌then◌else◌, u32, M,
  Outcome, ok, err, bug, ◌>>=◌, ◌>>◌, pure, fail, fail_if, bug_on, ignore, einval,
}
use aws_neuron_driver.Udma.Types.{UdmaType, tx, rx, UdmaState, Engine, Host, queue}
use aws_neuron_driver.Udma.State.{state_set, state_get}
use aws_neuron_driver.Udma.Engine.{m2m_init_engine}
use aws_neuron_driver.Mempool.{Chunk, loc_host, Kernel, World}
use aws_neuron_driver.Mempool.Alloc.{mc_alloc, mc_free}
use aws_neuron_driver.Dma.Chunks.{h2t_engine}
use aws_neuron_driver.Rings.{
  NdmaRing, NdmaQueue, NdmaEng, type_tx, type_rx, num_dma_eng_per_device, max_dma_rings,
  h2t_desc_count, on_udma, ring_get_desc_count, ring_set_mem_chunk, h2t_ring_init,
}
use aws_neuron_driver.Rings.Tdma.{tdma_base, tdma_init_engine}
pub mod Stages
pub mod Init
pub mod Transfers
pub mod Free

-- The pools and the engines of a `struct neuron_device`.
pub record Device (G K : Type 0) : Type 0 where
  pub world : World G K
  pub engines : ℕ → NdmaEng

-- The last queue of an engine.
abbrev h2t_qid : ℕ
h2t_qid = 15

-- V1_NC_PER_DEVICE
abbrev pub nc_per_device : ℕ
nc_per_device = 4

-- The bytes of a ring of the driver's own.
unfoldable pub h2t_ring_size : ℕ
unfolding ring_get_desc_count
h2t_ring_size = u32 (ring_get_desc_count h2t_desc_count * 16)

-- What `ndmar_h2t_ring_alloc` stores before it allocates.
unfoldable pub mark_h2t : (eng_id : ℕ) → M NdmaEng (Unit {0})
mark_h2t eng_id = λ e.
    let q : NdmaQueue = e.queues h2t_qid in
    let q' : NdmaQueue = record q {
      eng_id = eng_id;
      qid = h2t_qid;
      ring_info = record q.ring_info { qid = h2t_qid; size = h2t_ring_size; has_compl = false };
    } in
    ok tt (record e { used_for_h2t = true; queues = λ j. if j == h2t_qid then q' else e.queues j })

abbrev pub h2t_ring : NdmaEng → NdmaRing
h2t_ring e = (e.queues h2t_qid).ring_info

-- The ring of the driver's own after a chunk was freed: `mc_free` leaves NULL in its place.
unfoldable pub with_h2t_ring : NdmaRing → M NdmaEng (Unit {0})
with_h2t_ring ring = λ e.
    let q : NdmaQueue = record (e.queues h2t_qid) { ring_info = ring } in
    ok tt (record e { queues = λ j. if j == h2t_qid then q else e.queues j })

-- `struct neuron_dma_eng_state`
pub record EngState : Type 0 where
  revision_id : ℕ
  max_queues : ℕ
  pub num_queues : ℕ
  pub tx_state : UdmaState
  pub rx_state : UdmaState

module _ {G K : Type 0} (k : Kernel G K) where
  abbrev pub back_in_engine :
      {A : Type 0} → (eng_id : ℕ) → Device G K → Outcome NdmaEng A → Outcome (Device G K) A
  back_in_engine i d (ok a e) = ok a (record d { engines = λ j. if j == i then e else d.engines j })
  back_in_engine i d (err x e) =
      err x (record d { engines = λ j. if j == i then e else d.engines j })
  back_in_engine i d bug = bug

  abbrev pub on_engine : {A : Type 0} → (eng_id : ℕ) → M NdmaEng A → M (Device G K) A
  on_engine i f d = back_in_engine i d (f (d.engines i))

  abbrev pub back_in_world :
      {A : Type 0} → Device G K → Outcome (World G K) A → Outcome (Device G K) A
  back_in_world d (ok a w) = ok a (record d { world = w })
  back_in_world d (err x w) = err x (record d { world = w })
  back_in_world d bug = bug

  abbrev pub on_world : {A : Type 0} → M (World G K) A → M (Device G K) A
  on_world f d = back_in_world d (f d.world)

  -- `ndmar_acquire_engine` with the test of its callers
  abbrev pub acquire : (eng_id : ℕ) → M (Device G K) (Unit {0})
  acquire eng_id = fail_if (leb num_dma_eng_per_device eng_id) einval

  -- The label `error` of `ndmar_h2t_ring_alloc` when only the receive ring is there.
  abbrev or_free : Chunk → Outcome (Device G K) Chunk → Outcome (Device G K) Chunk
  or_free rx_mc (ok c d) = ok c d
  or_free rx_mc (err x d) = (on_world (mc_free k (some rx_mc)) >> fail x) d
  or_free rx_mc bug = bug

  module _ (hosts : ℕ → Host) where
    -- The two allocations of `ndmar_h2t_ring_alloc`, and the chunks' place in the ring.
    unfoldable pub fill_h2t_ring : (nc_id : ℕ) → M (Device G K) (Unit {0})
    unfolding ring_set_mem_chunk
    fill_h2t_ring nc_id = do
      rx_mc ← on_world (mc_alloc k h2t_ring_size loc_host 0 0 nc_id)
      tx_mc ← (λ d. or_free rx_mc (on_world (mc_alloc k h2t_ring_size loc_host 0 0 nc_id) d))
      on_engine (h2t_engine nc_id)
          (ring_set_mem_chunk (hosts (h2t_engine nc_id)) h2t_qid tx_mc 0 type_tx)
      on_engine (h2t_engine nc_id)
          (ring_set_mem_chunk (hosts (h2t_engine nc_id)) h2t_qid rx_mc 0 type_rx)

    -- `ndmar_h2t_ring_alloc`; `hosts` answers for the engines.
    unfoldable pub h2t_ring_alloc : (nc_id : ℕ) → M (Device G K) (Unit {0})
    unfolding mark_h2t fill_h2t_ring
    h2t_ring_alloc nc_id = do
      acquire (h2t_engine nc_id)
      on_engine (h2t_engine nc_id) (mark_h2t (h2t_engine nc_id))
      fill_h2t_ring nc_id

    -- The end of `ndmar_eng_init`.
    unfoldable pub reinit_h2t : Host → M NdmaEng (Unit {0})
    reinit_h2t h = λ e. if e.used_for_h2t then h2t_ring_init h e else ok tt e

    -- `ndmar_eng_init` of a device whose BAR0 is at `bar0`
    unfoldable pub eng_init : (bar0 eng_id : ℕ) → M (Device G K) (Unit {0})
    unfolding reinit_h2t
    eng_init bar0 eng_id = do
      acquire eng_id
      on_engine eng_id (on_udma (m2m_init_engine (hosts eng_id) 16))
      on_engine eng_id (on_udma (tdma_init_engine (hosts eng_id) (tdma_base bar0 eng_id)))
      on_engine eng_id (reinit_h2t (hosts eng_id))

    -- One round of `ndmar_init`.
    unfoldable pub init_core : (bar0 nc_id : ℕ) → M (Device G K) (Unit {0})
    unfolding h2t_ring_alloc eng_init
    init_core bar0 nc_id = do
      h2t_ring_alloc nc_id
      eng_init bar0 (h2t_engine nc_id)
      acquire (h2t_engine nc_id)
      on_engine (h2t_engine nc_id) (h2t_ring_init (hosts (h2t_engine nc_id)))

    -- Its loop, `remaining` rounds from core `nc_id` on.
    unfoldable pub init_cores : (bar0 remaining nc_id : ℕ) → M (Device G K) (Unit {0})
    unfolding init_core
    init_cores bar0 zero nc_id = pure tt
    init_cores bar0 (suc remaining) nc_id = do
      init_core bar0 nc_id
      init_cores bar0 remaining (nc_id + 1)

    -- `ndmar_init`
    unfoldable pub ndmar_init : (bar0 : ℕ) → M (Device G K) (Unit {0})
    unfolding init_cores
    ndmar_init bar0 = init_cores bar0 nc_per_device 0

    -- `ndmar_eng_get_state`
    unfoldable pub eng_get_state : (eng_id : ℕ) → M (Device G K) EngState
    eng_get_state eng_id = do
      acquire eng_id
      tx_state ← on_engine eng_id (on_udma (state_get (hosts eng_id) tx))
      rx_state ← on_engine eng_id (on_udma (state_get (hosts eng_id) rx))
      (λ d.
          let u = (d.engines eng_id).engine.udma in
          ok
            (record {
              revision_id = u.rev_id;
              max_queues = u.num_of_queues_max;
              num_queues = u.num_of_queues;
              tx_state = tx_state;
              rx_state = rx_state;
            })
            d)

  -- The three frees of `ndmar_h2t_ring_free`.
  unfoldable pub free_tx : (eng_id : ℕ) → M (Device G K) (Unit {0})
  unfolding with_h2t_ring
  free_tx eng_id = do
    (λ d. on_world (mc_free k (h2t_ring (d.engines eng_id)).tx_mc) d)
    on_engine eng_id (λ e. with_h2t_ring (record (h2t_ring e) { tx_mc = none }) e)

  unfoldable pub free_rx : (eng_id : ℕ) → M (Device G K) (Unit {0})
  unfolding with_h2t_ring
  free_rx eng_id = do
    (λ d. on_world (mc_free k (h2t_ring (d.engines eng_id)).rx_mc) d)
    on_engine eng_id (λ e. with_h2t_ring (record (h2t_ring e) { rx_mc = none }) e)

  unfoldable pub free_rxc : (eng_id : ℕ) → M (Device G K) (Unit {0})
  unfolding with_h2t_ring
  free_rxc eng_id = do
    (λ d. on_world (mc_free k (h2t_ring (d.engines eng_id)).rxc_mc) d)
    on_engine eng_id (λ e. with_h2t_ring (record (h2t_ring e) { rxc_mc = none }) e)

  -- `ndmar_h2t_ring_free`
  unfoldable pub h2t_ring_free : (eng_id : ℕ) → M (Device G K) (Unit {0})
  unfolding free_tx free_rx free_rxc
  h2t_ring_free eng_id = do
    bug_on (leb num_dma_eng_per_device eng_id)
    free_tx eng_id
    free_rx eng_id
    free_rxc eng_id

  unfoldable free_cores : (remaining nc_id : ℕ) → M (Device G K) (Unit {0})
  unfolding h2t_ring_free
  free_cores zero nc_id = pure tt
  free_cores (suc remaining) nc_id = do
    h2t_ring_free (h2t_engine nc_id)
    free_cores remaining (nc_id + 1)

  -- `ndmar_close`
  unfoldable pub ndmar_close : M (Device G K) (Unit {0})
  unfolding free_cores
  ndmar_close = free_cores nc_per_device 0

  -- `ndmar_eng_set_state` to a state of `enum udma_state`; its status is not that of the change.
  unfoldable pub eng_set_state : (eng_id : ℕ) → UdmaState → M (Device G K) (Unit {0})
  unfolding state_set
  eng_set_state eng_id state = do
    acquire eng_id
    ignore (on_engine eng_id (on_udma (state_set state)))

  -- `ndmar_queue_release`
  unfoldable pub queue_release : (eng_id qid : ℕ) → M (Device G K) (Unit {0})
  queue_release eng_id qid = pure tt

-- What `ndmar_queue_get_descriptor_mc` stores: the chunks and the sizes of a queue's two rings.
pub record DescriptorMc : Type 0 where
  pub tx_mc : Option Chunk
  pub rx_mc : Option Chunk
  pub tx_size : ℕ
  pub rx_size : ℕ

-- `ndmar_queue_get_descriptor_mc`, for a queue of the array
unfoldable pub queue_get_descriptor_mc : (ℕ → NdmaEng) → (eng_id qid : ℕ) → Option DescriptorMc
queue_get_descriptor_mc engines eng_id qid =
    let e : NdmaEng = engines eng_id in
    if leb num_dma_eng_per_device eng_id
    then none
    else some (record {
      tx_mc = (e.queues qid).ring_info.tx_mc;
      rx_mc = (e.queues qid).ring_info.rx_mc;
      tx_size = (queue e.engine.udma tx qid).size;
      rx_size = (queue e.engine.udma rx qid).size;
    })
