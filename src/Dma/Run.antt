-- ===== src/Dma/Run.antt =====
-- A wait and a whole copy on a ring that is tracked.
use aws_neuron_driver.Common.{
  ℕ, Bool, false, ◌∷◌, ◌+◌, ◌^◌, ◌≤◌, ◌<◌, ◌≡◌, refl, ◌∙◌, arith, u32, u64, ◌==◌, ◌>>=◌, ok, bit_or,
  ne→==-false,
}
use mathlib.Core.Path.{subst}
use aws_neuron_driver.Udma.Types.{Engine, Host, kmalloc, kfree, word_write}
use aws_neuron_driver.Udma.Ring.Pair.{PairTracks}
use aws_neuron_driver.Udma.Copy.Laws.{
  Elsewhere, Elsewhere-trans, copy_prepare_one_lem, copy_start_lem, pair_events, start_events,
}
use aws_neuron_driver.Udma.Ring.View.{size_bounds}
use aws_neuron_driver.Dma.{
  wait_with_buffer, wait_for_completion, pciex8_0_base, memcpy64k, poll_rounds,
  dma_completion_marker,
}
use aws_neuron_driver.Dma.Wait.{
  Answers, acked_pair, acked_pair-PairTracks, acked_pair-Elsewhere, poll-completed, completed_runs,
  rounds_enough,
}

-- How an operation leaves the pair of queue `qid`: `alloc` allocated, `acked` acknowledged, and all
-- other queues as they were.
pub record Leaves (m m' : Engine) (qid k alloc acked : ℕ) : Type 0 where
  pub pair : PairTracks m'.udma qid k alloc acked
  pub elsewhere : Elsewhere m.udma m'.udma qid

module _ (h : Host) (m : Engine) {qid k alloc acked : ℕ} (v : PairTracks m.udma qid k alloc acked)
    (free : alloc + 17 ≤ acked + 2 ^ k) where
  -- One copy of up to 64K is queued and started.
  pub memcpy64k_runs :
      (src dst size : ℕ) (set_dmb : Bool)
      → size ≤ 65536
      → (m' : Engine) × (memcpy64k qid src dst size set_dmb m ≡ ok tt m')
        × (m'.trace
            ≡ start_events qid 1 1
                (pair_events m.udma qid k alloc src dst size set_dmb false m.trace))
        × Leaves m m' qid k (alloc + 1) acked
  unfolding memcpy64k
  memcpy64k_runs src dst size set_dmb fits =
      let (u1, runs1, pair1, else1) =
        copy_prepare_one_lem m v src dst size set_dmb false fits free in
      let m1 : Engine = record {
        udma = u1;
        trace = pair_events m.udma qid k alloc src dst size set_dmb false m.trace;
      } in
      let starts =
        copy_start_lem m1 1 1 pair1 (omega arith)
          (omega (arith, size_bounds k v.tx_ring.least v.tx_ring.most)) (omega arith)
          (omega (arith, size_bounds k v.tx_ring.least v.tx_ring.most)) in
      (
        record m1 { trace = start_events qid 1 1 m1.trace },
        rw (runs1, ◌>>=◌) starts,
        refl,
        record { pair = pair1; elsewhere = else1 },
      )

  -- All that is in flight is waited for and acknowledged, the completion descriptor included.
  buffer_runs :
      (a : Answers h) (ptr count : ℕ)
      → 0 < count
      → count ≤ 4079
      → acked + count ≤ alloc
      → (m' : Engine) × (wait_with_buffer h qid ptr count m ≡ ok tt m')
        × Leaves m m' qid k (alloc + 1) (acked + (count + 1))
  unfolding wait_with_buffer
  buffer_runs a ptr count pos small inflight =
      let addr : ℕ = bit_or (h.virt_to_phys ptr) pciex8_0_base in
      let m0 : Engine = record m {
        trace = word_write (ptr + 4) 0 ∷ word_write ptr dma_completion_marker ∷ m.trace;
      } in
      let (u1, runs1, pair1, else1) =
        copy_prepare_one_lem m0 v addr (u64 (addr + 4)) 4 false false (omega arith) free in
      let t1 = pair_events m.udma qid k alloc addr (u64 (addr + 4)) 4 false false m0.trace in
      let starts =
        copy_start_lem (record { udma = u1; trace = t1 }) 1 1 pair1 (omega arith)
          (omega (arith, size_bounds k v.tx_ring.least v.tx_ring.most)) (omega arith)
          (omega (arith, size_bounds k v.tx_ring.least v.tx_ring.most)) in
      let t2 = start_events qid 1 1 t1 in
      let (t3, polls) =
        poll-completed h (poll_rounds count) (a.polls t2 (ptr + 4)) qid ptr (u32 (count + 1)) u1 t2
          (omega (arith, a.soon t2 (ptr + 4), rounds_enough count pos small))
          (a.marker t2 (ptr + 4)) in
      let n : ℕ = u32 (count + 1) in
      let whole : n ≡ count + 1 = omega arith in
      let m3 : Engine = record { udma = u1; trace = t3 } in
      let done = completed_runs qid ptr n m3 pair1.in_range in
      let settled = acked_pair-PairTracks u1 qid k (alloc + 1) acked n pair1 (omega arith) in
      (
        record {
          udma = acked_pair u1 qid n;
          trace = word_write ptr dma_completion_marker ∷ word_write (ptr + 4) 0 ∷ t3;
        },
        rw (runs1, ◌>>=◌, starts, ◌>>=◌) (polls ∙ done),
        record {
          pair =
              subst (λ t. PairTracks (acked_pair u1 qid n) qid k (alloc + 1) (acked + t)) whole
                settled;
          elsewhere = Elsewhere-trans else1 (acked_pair-Elsewhere u1 qid n);
        },
      )

-- With a host that gives memory and shows every completion marker within 400 polls, waiting for 1
-- to 4079 copies that are in flight, on rings with a descriptor free, succeeds: these copies and
-- the completion descriptor of the wait are acknowledged, and other queues are left alone.
pub wait_runs :
    (h : Host) (m : Engine) {qid k alloc acked : ℕ} (count : ℕ)
    → PairTracks m.udma qid k alloc acked
    → alloc + 17 ≤ acked + 2 ^ k
    → Answers h
    → 0 < count
    → count ≤ 4079
    → acked + count ≤ alloc
    → (m' : Engine) × (wait_for_completion h qid count m ≡ ok tt m')
      × Leaves m m' qid k (alloc + 1) (acked + (count + 1))
unfolding wait_for_completion
wait_runs h m {qid} {k} {alloc} {acked} count v free a pos small inflight =
    let p : ℕ = h.kmalloc_addr m.trace 8 in
    let there : (p == 0) ≡ false = ne→==-false p 0 (a.memory m.trace 8) in
    let asked : Engine = record m { trace = kmalloc 8 ∷ m.trace } in
    let (m', runs, leaves) = buffer_runs h asked v free a p count pos small inflight in
    (
      record m' { trace = kfree p ∷ m'.trace },
      rw (there, runs),
      record { pair = leaves.pair; elsewhere = leaves.elsewhere },
    )
