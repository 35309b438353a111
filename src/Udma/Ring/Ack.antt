-- ===== src/Udma/Ring/Ack.antt =====
-- Acknowledging completed descriptors, `udma_cdesc_ack`, alone and beside other CPUs.
use aws_neuron_driver.Common.{ℕ, List, [], ◌∷◌, ◌+◌, ◌-◌, ◌%◌, ◌^◌, ◌≤◌, ◌≡◌, ◌∙◌, ap, arith}
use native.Mathlib.Nat.{add_assoc, add-zero}
use aws_neuron_driver.Udma.Types.{UdmaQ}
use aws_neuron_driver.Udma.Ring.{cdesc_ack, ack_loop, acked_by}
use aws_neuron_driver.Udma.Ring.View.{Tracks}
use aws_neuron_driver.Udma.Ring.Alloc.{masked_add}

abbrev pub sum : List ℕ → ℕ
sum [] = 0
sum (n ∷ ns) = n + sum ns

acked_by-sum :
    (k a : ℕ) (others : List ℕ)
    → k ≤ 24
    → acked_by (2 ^ k - 1) others (a % 2 ^ k) ≡ (a + sum others) % 2 ^ k
unfolding acked_by
acked_by-sum k a [] h = rw add-zero
acked_by-sum k a (n ∷ others) h =
    rw (masked_add k a n h)
      (acked_by-sum k (a + n) others h ∙ ap (λ t. t % 2 ^ k) (add_assoc a n (sum others)))

-- Whatever other CPUs acknowledge between the loads and the compare-and-swaps of
-- `udma_cdesc_ack`, the index ends past all of theirs and its own, on a ring of at most 2 ^ 24
-- descriptors: no acknowledgement is lost.
pub ack_loop-sum :
    (k a num : ℕ) (others : List ℕ)
    → k ≤ 24
    → ack_loop (2 ^ k - 1) num others (a % 2 ^ k) (a % 2 ^ k) ≡ (a + sum others + num) % 2 ^ k
unfolding ack_loop
ack_loop-sum k a num [] h = ground (arith, masked_add k a num h)
ack_loop-sum k a num (n ∷ others) h = ground (
  arith,
  masked_add k a n h,
  ack_loop-sum k (a + n) num others h,
  masked_add k (a + n) num h,
  acked_by-sum k (a + n + num) others h,
)

-- Acknowledging n descriptors of a tracked ring, no more than are in flight, adds n to the
-- acknowledged count and keeps the ring tracked.
pub cdesc_ack-Tracks :
    {q : UdmaQ} {k alloc acked : ℕ} (n : ℕ)
    → Tracks q k alloc acked
    → acked + n ≤ alloc
    → Tracks (cdesc_ack q n) k alloc (acked + n)
unfolding cdesc_ack
cdesc_ack-Tracks {q} {k} {alloc} {acked} n v h = ground (arith, masked_add k acked n v.most)
