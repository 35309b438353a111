-- ===== src/Udma/Ring/Alloc.antt =====
-- Allocating a descriptor: `udma_desc_get` and then `udma_ring_id_get`, as the header asks.
use aws_neuron_driver.Common.{
  ℕ, some, ◌+◌, ◌-◌, ◌*◌, ◌/◌, ◌%◌, ◌^◌, ◌≤◌, ◌≡◌, ◌≢◌, ◌∙◌, arith, u32, bit_and,
}
use aws_neuron_driver.Common.Arith.{pow-pos, u32-mod-two-pow, div-next, div-next_wrap}
use aws_neuron_driver.Common.Masks.{bit_and-mask}
use native.Mathlib.Nat.{mod-add-mod}
use aws_neuron_driver.Udma.Types.{UdmaQ}
use aws_neuron_driver.Udma.Ring.{desc_get, ring_id_get}
use aws_neuron_driver.Udma.Ring.View.{Tracks}

-- An index that moves on by `n` under the mask.
pub masked_add : (k a n : ℕ) → k ≤ 24 → bit_and (u32 (a % 2 ^ k + n)) (2 ^ k - 1) ≡ (a + n) % 2 ^ k
masked_add k a n h =
    bit_and-mask k (u32 (a % 2 ^ k + n))
    ∙ u32-mod-two-pow k (a % 2 ^ k + n) (omega arith)
    ∙ mod-add-mod a (2 ^ k) n

-- The phase of the next descriptor.
phase_wrap :
    (k a : ℕ)
    → (a + 1) % 2 ^ k ≡ 0
    → bit_and (u32 ((1 + a / 2 ^ k) % 4 + 1)) 3 ≡ (1 + (a + 1) / 2 ^ k) % 4
phase_wrap k a e =
    bit_and-mask 2 (u32 ((1 + a / 2 ^ k) % 4 + 1))
    ∙ omega (arith, div-next_wrap a (2 ^ k) (pow-pos k) e)

-- What both calls do to the queue.
unfoldable pub alloc_q : UdmaQ → UdmaQ
unfolding desc_get ring_id_get
alloc_q q = (ring_id_get (desc_get q).1).1

next_idx :
    {q : UdmaQ} {k alloc acked : ℕ}
    → Tracks q k alloc acked
    → bit_and (u32 (q.next_desc_idx + 1)) q.size_mask ≡ (alloc + 1) % 2 ^ k
next_idx {k} {alloc} v = rw (v.mask_is, v.next_desc) (masked_add k alloc 1 v.most)

next_phase :
    {q : UdmaQ} {k alloc acked : ℕ}
    → Tracks q k alloc acked
    → (alloc + 1) % 2 ^ k ≡ 0
    → bit_and (u32 (q.desc_ring_id + 1)) 3 ≡ (1 + (alloc + 1) / 2 ^ k) % 4
next_phase {k} {alloc} v e = rw v.phase (phase_wrap k alloc e)

-- Allocating a descriptor and taking its ring id, on an allocatable ring with one free, is one
-- more allocated descriptor: index, phase and room stay those of the counts.
pub alloc_q-Tracks :
    {q : UdmaQ} {k alloc acked : ℕ}
    → Tracks q k alloc acked
    → q.is_allocatable ≢ 0
    → alloc + 17 ≤ acked + 2 ^ k
    → Tracks (alloc_q q) k (alloc + 1) acked
unfolding alloc_q
alloc_q-Tracks {q} {k} {alloc} {acked} v on free =
    ground (arith, next_idx v, next_phase v, div-next alloc (2 ^ k) (pow-pos k))

-- On an allocatable tracked ring the descriptor given after `alloc` others is in slot `alloc`
-- modulo the ring's size, and its ring id is the number of the round, from 1 and modulo 4.
pub alloc-Tracks :
    {q : UdmaQ} {k alloc acked : ℕ}
    → Tracks q k alloc acked
    → q.is_allocatable ≢ 0
    → ((desc_get q).0 ≡ some (q.desc_base_ptr + 16 * (alloc % 2 ^ k)))
      × ((ring_id_get (desc_get q).1).0 ≡ (1 + alloc / 2 ^ k) % 4)
unfolding desc_get ring_id_get
alloc-Tracks v on = (ground arith, ground arith)
