-- ===== src/Rings/Device/Init.antt =====
-- `ndmar_init` brings up the driver's own rings of all cores.
use aws_neuron_driver.Common.{
  ℕ, zero, suc, true, some, List, ◌+◌, ◌%◌, ◌<◌, ◌≤◌, ◌≡◌, ◌≢◌, inr, refl, sym, ◌∙◌, bit_or, arith,
  ne→==-false, M, ok, ◌>>◌, Returns, Returns-if_then, Returns-map, Runs, Runs-then,
}
use native.Mathlib.Decide.{ℕ_discrete}
use aws_neuron_driver.Udma.Types.{Udma, Engine, Host, Event, dma_version, reg_write32, reg_read32}
use aws_neuron_driver.Udma.Ring.Pair.{PairTracks}
use aws_neuron_driver.Udma.Init.Pair.{CanInit, m2m_init_queue-made}
use aws_neuron_driver.Udma.Engine.{m2m_init_engine}
use aws_neuron_driver.Udma.Engine.Keeps.{IsReadable}
use aws_neuron_driver.Udma.Engine.Returns.{m2m_init_engine-IsSetUp}
use aws_neuron_driver.Mempool.{Chunk, loc_host, Kernel, World}
use aws_neuron_driver.Mempool.Alloc.{mc_alloc}
use aws_neuron_driver.Mempool.Given.{IsGiving, mc_alloc_given}
use aws_neuron_driver.Dma.{pciex8_0_base}
use aws_neuron_driver.Dma.Chunks.{h2t_engine}
use aws_neuron_driver.Rings.{
  NdmaEng, on_udma, ring_set_mem_chunk, ring_addr, type_tx, type_rx, h2t_ring_init,
}
use aws_neuron_driver.Rings.Init.{desc_count_h2t}
use aws_neuron_driver.Rings.Tdma.{tdma_base, tdma_init_engine}
use aws_neuron_driver.Rings.Device.{
  Device, on_engine, acquire, h2t_ring, mark_h2t, h2t_ring_size, fill_h2t_ring, h2t_ring_alloc,
  reinit_h2t, eng_init, init_core, init_cores, ndmar_init,
}
use aws_neuron_driver.Rings.Device.Stages.{
  HasRings, Holds, on_udma-Holds, Stage, Runs-on_engine, Runs-acquire,
}

-- A kernel and engines that serve the driver: memory for rings, at bus addresses that are aligned as
-- `kmalloc` promises, and registers of revision 4 that can be read.
pub record Serves {G K : Type 0} (k : Kernel G K) (hosts : ℕ → Host) : Type 0 where
  pub giving : IsGiving k
  pub aligned :
      (i size : ℕ) (heap : K)
      → 64 ≤ size
      → bit_or ((hosts i).virt_to_phys (k.kmalloc size heap).0) pciex8_0_base % 64 ≡ 0
  pub readable : (i : ℕ) → IsReadable (hosts i)
  pub revision : (i : ℕ) (trace : List Event) → (hosts i).reg_value trace dma_version ≡ some 4

-- An engine whose last queue can be set up.
pub record IsUp (u : Udma) : Type 0 where
  pub queues : 15 < u.num_of_queues
  pub completions : u.cdesc_size ≢ 0

-- An engine whose last queue is set up, with 8192 descriptors in each ring and none in use.
pub record IsReady (u : Udma) : Type 0 where
  pub up : IsUp u
  pub pair : PairTracks u 15 13 0 0

pub ring_size : h2t_ring_size ≡ 131072
unfolding h2t_ring_size
ring_size = refl

-- Bringing up the rings, from the first time on.
h2t_ring_init-IsReady :
    (h : Host) (e : NdmaEng) → Holds IsUp e → Returns (Holds IsReady) (h2t_ring_init h e)
unfolding h2t_ring_init
h2t_ring_init-IsReady h e up =
    let can : CanInit e.engine.udma 15 13 = record {
      in_range = up.udma.queues;
      least = omega arith;
      most = omega arith;
      tx_completion = inr up.udma.completions;
      rx_completion = inr up.udma.completions;
    } in
    let (m, runs, pair, tx_base, rx_base, same) =
      m2m_init_queue-made h 1 (h2t_ring e).tx_ptr (h2t_ring e).rx_ptr e.engine can
        up.rings.tx_aligned up.rings.rx_aligned (λ z. omega (arith, z)) in
    rw (desc_count_h2t, runs)
      (record {
        rings = record {
          marked = up.rings.marked;
          tx_aligned = up.rings.tx_aligned;
          rx_aligned = up.rings.rx_aligned;
        };
        udma = record {
          up = record {
            queues = pair.in_range;
            completions = λ z. up.udma.completions (sym same ∙ z);
          };
          pair = pair;
        };
      })

-- The transform engine's set-up does not touch the UDMA.
tdma_init_engine-keeps :
    (P : Udma → Type 0) (h : Host) (base : ℕ) (m : Engine)
    → IsReadable h
    → base ≢ 0
    → P m.udma
    → Returns (λ s. P s.udma) (tdma_init_engine h base m)
unfolding tdma_init_engine reg_read32 reg_write32
tdma_init_engine-keeps P h base m readable there p =
    rw (ne→==-false base 0 there) (rw (readable _ _).1 p)

h2t_tdma_base-there : (bar0 nc : ℕ) → tdma_base bar0 (h2t_engine nc) ≢ 0
unfolding tdma_base
h2t_tdma_base-there bar0 nc z = omega (arith, z)

pub h2t_engine-below : (nc : ℕ) → nc < 4 → h2t_engine nc < 12
h2t_engine-below nc lt = omega arith

-- A chunk of host memory at an aligned bus address.
record IsAligned (h : Host) (c : Chunk) : Type 0 where
  located : c.mem_location ≡ loc_host
  bus : bit_or (h.virt_to_phys c.va) pciex8_0_base % 64 ≡ 0

abbrev Marked : NdmaEng → Type 0
Marked e = e.used_for_h2t ≡ true

abbrev TxAligned : NdmaEng → Type 0
TxAligned e = (e.used_for_h2t ≡ true) × ((h2t_ring e).tx_ptr.addr % 64 ≡ 0)

host_ring_addr : (h : Host) (c : Chunk) → IsAligned h c → ring_addr h c c.va 0 % 64 ≡ 0
unfolding ring_addr
host_ring_addr h c a = rw a.located a.bus

set_tx-TxAligned :
    (h : Host) (c : Chunk) (e : NdmaEng)
    → IsAligned h c
    → Marked e
    → Returns TxAligned (ring_set_mem_chunk h 15 c 0 type_tx e)
unfolding ring_set_mem_chunk
set_tx-TxAligned h c e a m = (m, host_ring_addr h c a)

set_rx-HasRings :
    (h : Host) (c : Chunk) (e : NdmaEng)
    → IsAligned h c
    → TxAligned e
    → Returns HasRings (ring_set_mem_chunk h 15 c 0 type_rx e)
unfolding ring_set_mem_chunk
set_rx-HasRings h c e a m = record {
  marked = m.0;
  tx_aligned = m.1;
  rx_aligned = host_ring_addr h c a;
}

module _ {G K : Type 0} (k : Kernel G K) (hosts : ℕ → Host) (s : Serves k hosts) where
  -- An allocation for a ring.
  alloc_ring :
      (i nc_id : ℕ) (w : World G K)
      → (c : Chunk) × (w' : World G K) × (mc_alloc k h2t_ring_size loc_host 0 0 nc_id w ≡ ok c w')
        × IsAligned (hosts i) c
  alloc_ring i nc_id w =
      let (c, w', heap, runs, va, host) =
        mc_alloc_given k s.giving h2t_ring_size nc_id w (rw ring_size (omega arith)) in
      (
        c,
        w',
        runs,
        record {
          located = host;
          bus = rw va (s.aligned i h2t_ring_size heap (rw ring_size (omega arith)));
        },
      )

  module _ (nc_id : ℕ) (before : ℕ → NdmaEng) (low : nc_id < 4) where
    abbrev At : (NdmaEng → Type 0) → Device G K → Type 0
    At P = Stage k (h2t_engine nc_id) before P

    abbrev host : Host
    host = hosts (h2t_engine nc_id)

    acquires : (P : NdmaEng → Type 0) → Runs (At P) (At P) (acquire k (h2t_engine nc_id))
    acquires P = Runs-acquire k (h2t_engine nc_id) before P (h2t_engine-below nc_id low)

    on_h2t :
        {A : Type 0} {P Q : NdmaEng → Type 0} {f : M NdmaEng A}
        → Runs P Q f
        → Runs (At P) (At Q) (on_engine k (h2t_engine nc_id) f)
    on_h2t r = Runs-on_engine k (h2t_engine nc_id) before r

    -- The two chunks enter the ring.
    set_rings-HasRings :
        (tx_mc rx_mc : Chunk)
        → IsAligned host tx_mc
        → IsAligned host rx_mc
        → Runs (At Marked) (At HasRings) (
            on_engine k (h2t_engine nc_id) (ring_set_mem_chunk host 15 tx_mc 0 type_tx)
            >> on_engine k (h2t_engine nc_id) (ring_set_mem_chunk host 15 rx_mc 0 type_rx))
    set_rings-HasRings tx_mc rx_mc tx_ok rx_ok =
        Runs-then (on_h2t (record { run = λ e m. set_tx-TxAligned host tx_mc e tx_ok m }))
          (on_h2t (record { run = λ e m. set_rx-HasRings host rx_mc e rx_ok m }))

    marks : Runs (λ e. Unit {0}) Marked (mark_h2t (h2t_engine nc_id))
    unfolding mark_h2t
    marks = record { run = λ e u. refl }

    fills : Runs (At Marked) (At HasRings) (fill_h2t_ring k hosts nc_id)
    unfolding fill_h2t_ring
    fills = record {
      run = λ t q.
          let (rx_mc, w1, runs1, rx_ok) = alloc_ring (h2t_engine nc_id) nc_id t.world in
          let (tx_mc, w2, runs2, tx_ok) = alloc_ring (h2t_engine nc_id) nc_id w1 in
          rw runs1 (
            rw runs2 (
              (set_rings-HasRings tx_mc rx_mc tx_ok rx_ok).run (record t { world = w2 })
                (record { here = q.here; others = q.others })));
    }

    h2t_ring_alloc-HasRings : Runs (At (λ e. Unit {0})) (At HasRings) (h2t_ring_alloc k hosts nc_id)
    unfolding h2t_ring_alloc
    h2t_ring_alloc-HasRings = Runs-then (acquires (λ e. Unit {0})) (Runs-then (on_h2t marks) fills)

    engine-IsUp : Runs HasRings (Holds IsUp) (on_udma (m2m_init_engine host 16))
    engine-IsUp = record {
      run = λ e rings.
          on_udma-Holds (λ u. Unit {0}) IsUp (m2m_init_engine host 16) e
            (λ m p.
              Returns-map _ (λ t. IsUp t.udma) _
                (λ t p. record {
                  queues = omega (arith, p.0.number);
                  completions = λ z. omega (arith, z, p.1);
                })
                (m2m_init_engine-IsSetUp host (s.readable (h2t_engine nc_id)) m
                  (s.revision (h2t_engine nc_id) m.trace)))
            (record { rings = rings; udma = tt });
    }

    tdma-IsUp :
        (bar0 : ℕ)
        → Runs
            (Holds IsUp)
            (Holds IsUp)
            (on_udma (tdma_init_engine host (tdma_base bar0 (h2t_engine nc_id))))
    tdma-IsUp bar0 = record {
      run = λ e up.
          on_udma-Holds IsUp IsUp (tdma_init_engine host (tdma_base bar0 (h2t_engine nc_id))) e
            (λ m p.
              tdma_init_engine-keeps IsUp host (tdma_base bar0 (h2t_engine nc_id)) m
                (s.readable (h2t_engine nc_id)) (h2t_tdma_base-there bar0 nc_id) p)
            up;
    }

    rings-IsUp : Runs (Holds IsUp) (Holds IsReady) (reinit_h2t k hosts host)
    unfolding reinit_h2t
    rings-IsUp = record {
      run = λ e up.
          Returns-if_then (Holds IsReady) e.used_for_h2t (h2t_ring_init host e) (ok tt e)
            up.rings.marked (h2t_ring_init-IsReady host e up);
    }

    eng_init-IsReady :
        (bar0 : ℕ)
        → Runs (At HasRings) (At (Holds IsReady)) (eng_init k hosts bar0 (h2t_engine nc_id))
    unfolding eng_init
    eng_init-IsReady bar0 =
        Runs-then (acquires HasRings)
          (Runs-then (on_h2t engine-IsUp) (Runs-then (on_h2t (tdma-IsUp bar0)) (on_h2t rings-IsUp)))

    rings_again : Runs (Holds IsReady) (Holds IsReady) (h2t_ring_init host)
    rings_again = record {
      run = λ e r. h2t_ring_init-IsReady host e (record { rings = r.rings; udma = r.udma.up });
    }

    init_core-IsReady :
        (bar0 : ℕ) → Runs (At (λ e. Unit {0})) (At (Holds IsReady)) (init_core k hosts bar0 nc_id)
    unfolding init_core
    init_core-IsReady bar0 = Runs-then h2t_ring_alloc-HasRings (
        Runs-then (eng_init-IsReady bar0)
          (Runs-then (acquires (Holds IsReady)) (on_h2t rings_again)))

  -- The engines of the cores before `n` are ready.
  abbrev ReadyBelow : (n : ℕ) → Device G K → Type 0
  ReadyBelow n d = (nc : ℕ) → nc < n → Holds IsReady (d.engines (h2t_engine nc))

  Runs-init_cores :
      (bar0 remaining nc_id : ℕ)
      → nc_id + remaining ≤ 4
      → Runs
          (ReadyBelow nc_id)
          (ReadyBelow (nc_id + remaining))
          (init_cores k hosts bar0 remaining nc_id)
  unfolding init_cores
  Runs-init_cores bar0 zero nc_id fits =
      let same : nc_id + 0 ≡ nc_id = omega arith in rw same (record { run = λ d r. r })
  Runs-init_cores bar0 (suc remaining) nc_id fits =
      let same : nc_id + suc remaining ≡ nc_id + 1 + remaining = omega arith in
      rw same (Runs-then round (Runs-init_cores bar0 remaining (nc_id + 1) (omega arith)))
    where
      earlier :
          (d t : Device G K)
          → ReadyBelow nc_id d
          → Stage k (h2t_engine nc_id) d.engines (Holds IsReady) t
          → ReadyBelow (nc_id + 1) t
      earlier d t r q nc lt = elim (ℕ_discrete nc nc_id) [
        | yes e ↦ rw e q.here
        | no ne ↦
            rw (q.others (h2t_engine nc) (λ e. ne (omega (arith, e))))
              (r nc (omega (arith, lt, ne)))
      ]

      round : Runs (ReadyBelow nc_id) (ReadyBelow (nc_id + 1)) (init_core k hosts bar0 nc_id)
      round = record {
        run = λ d r.
            Returns-map _ (ReadyBelow (nc_id + 1)) _ (λ t q. earlier d t r q)
              ((init_core-IsReady nc_id d.engines (omega arith) bar0).run d
                (record { here = tt; others = λ j ne. refl }));
      }

  -- `ndmar_init` returns without an error when memory is given, the rings' bus addresses are
  -- aligned, and all registers can be read and say revision 4; then the last queue of the engine of
  -- each of the four cores has empty rings of 8192 descriptors.
  pub ndmar_init-IsReady :
      (bar0 : ℕ) (d : Device G K)
      → Returns
          (λ t. (nc : ℕ) → nc < 4 → PairTracks (t.engines (h2t_engine nc)).engine.udma 15 13 0 0)
          (ndmar_init k hosts bar0 d)
  unfolding ndmar_init
  ndmar_init-IsReady bar0 d =
      Returns-map (ReadyBelow 4) _ _ (λ t r nc lt. (r nc lt).udma.pair)
        ((Runs-init_cores bar0 4 0 (omega arith)).run d (λ nc lt. absurd (omega (arith, lt))))
