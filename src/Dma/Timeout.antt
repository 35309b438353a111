-- ===== src/Dma/Timeout.antt =====
-- The error path of a wait: hardware that does not answer.
use aws_neuron_driver.Common.{
  ℕ, zero, suc, false, List, ◌∷◌, ◌+◌, ◌^◌, ◌≤◌, ◌≡◌, ◌≢◌, refl, arith, u32, u64, ◌==◌, ◌>>=◌, err,
  minus_one, bit_or, ne→==-false,
}
use aws_neuron_driver.Udma.Types.{
  Udma, Engine, Host, Event, kmalloc, kfree, word_read, word_write, udelay,
}
use aws_neuron_driver.Udma.Ring.View.{size_bounds}
use aws_neuron_driver.Udma.Ring.Pair.{PairTracks}
use aws_neuron_driver.Udma.Copy.Laws.{
  copy_prepare_one_lem, copy_start_lem, pair_events, start_events,
}
use aws_neuron_driver.Dma.{
  poll, poll_rounds, wait_with_buffer, wait_for_completion, pciex8_0_base, dma_completion_marker,
}
use aws_neuron_driver.Dma.Wait.{polled}
use aws_neuron_driver.Dma.Run.{Leaves}

-- Every poll is made, and the loop ends.
poll_silent :
    (h : Host) (rounds qid ptr count : ℕ) (u : Udma) (t : List Event)
    → ((s : List Event) (p : ℕ) → h.word_value s p ≢ dma_completion_marker)
    → poll h rounds qid ptr count (record { udma = u; trace = t })
      ≡ err minus_one (record { udma = u; trace = polled (ptr + 4) rounds t })
unfolding poll
poll_silent h zero qid ptr count u t silent = refl
poll_silent h (suc rounds) qid ptr count u t silent =
    rw (ne→==-false _ _ (silent t (ptr + 4)), ◌>>=◌)
      (poll_silent h rounds qid ptr count u (udelay 1 ∷ word_read (ptr + 4) ∷ t) silent)

module _ (h : Host) (m : Engine) {qid k alloc acked : ℕ} (count : ℕ)
    (v : PairTracks m.udma qid k alloc acked) (free : alloc + 17 ≤ acked + 2 ^ k)
    (silent : (s : List Event) (p : ℕ) → h.word_value s p ≢ dma_completion_marker) where
  buffer_silent :
      (ptr : ℕ)
      → (m' : Engine) × (wait_with_buffer h qid ptr count m ≡ err minus_one m')
        × Leaves m m' qid k (alloc + 1) acked
  unfolding wait_with_buffer
  buffer_silent ptr =
      let addr : ℕ = bit_or (h.virt_to_phys ptr) pciex8_0_base in
      let m0 : Engine = record m {
        trace = word_write (ptr + 4) 0 ∷ word_write ptr dma_completion_marker ∷ m.trace;
      } in
      let (u1, runs1, pair1, else1) =
        copy_prepare_one_lem m0 v addr (u64 (addr + 4)) 4 false false (omega arith) free in
      let t1 = pair_events m.udma qid k alloc addr (u64 (addr + 4)) 4 false false m0.trace in
      let starts =
        copy_start_lem (record { udma = u1; trace = t1 }) 1 1 pair1 (omega arith)
          (omega (arith, size_bounds k v.tx_ring.least v.tx_ring.most)) (omega arith)
          (omega (arith, size_bounds k v.tx_ring.least v.tx_ring.most)) in
      let t2 = start_events qid 1 1 t1 in
      (
        record { udma = u1; trace = polled (ptr + 4) (poll_rounds count) t2 },
        rw (runs1, ◌>>=◌, starts, ◌>>=◌)
            (poll_silent h (poll_rounds count) qid ptr (u32 (count + 1)) u1 t2 silent),
        record { pair = pair1; elsewhere = else1 },
      )

-- With memory and a descriptor free, but a marker that never shows, the wait ends with -1 and
-- frees its buffer last, and acknowledges nothing: what was in flight and the completion
-- descriptor stay in flight.
pub wait_for_completion-timeout :
    (h : Host) (m : Engine) {qid k alloc acked : ℕ} (count : ℕ)
    → PairTracks m.udma qid k alloc acked
    → alloc + 17 ≤ acked + 2 ^ k
    → ((s : List Event) (p : ℕ) → h.word_value s p ≢ dma_completion_marker)
    → ((t : List Event) (n : ℕ) → h.kmalloc_addr t n ≢ 0)
    → (m' : Engine) × (rest : List Event) × (wait_for_completion h qid count m ≡ err minus_one m')
      × (m'.trace ≡ kfree (h.kmalloc_addr m.trace 8) ∷ rest)
      × Leaves m m' qid k (alloc + 1) acked
unfolding wait_for_completion
wait_for_completion-timeout h m count v free silent memory =
    let p : ℕ = h.kmalloc_addr m.trace 8 in
    let there : (p == 0) ≡ false = ne→==-false p 0 (memory m.trace 8) in
    let asked : Engine = record m { trace = kmalloc 8 ∷ m.trace } in
    let (m', runs, leaves) = buffer_silent h asked count v free silent p in
    (
      record m' { trace = kfree p ∷ m'.trace },
      m'.trace,
      rw (there, runs),
      refl,
      record { pair = leaves.pair; elsewhere = leaves.elsewhere },
    )
