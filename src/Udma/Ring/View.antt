-- ===== src/Udma/Ring/View.antt =====
-- What a descriptor ring stands for: a count of the descriptors allocated since the queue was
-- initialised and a count of those acknowledged.
use aws_neuron_driver.Common.{
  ℕ, zero, suc, ◌+◌, ◌-◌, ◌*◌, ◌/◌, ◌%◌, ◌^◌, ◌≤◌, ◌<◌, ◌≡◌, ◌∙◌, sym, ap, arith, u32, sub32,
  Bool-cases, leb, leb→le, inl, inr,
}
use aws_neuron_driver.Common.Arith.{
  pow-pos, u32_parts, u32-mod-two-pow, mod_of_parts, mod_within, mod_past,
}
use aws_neuron_driver.Common.Masks.{bit_and-mask}
use native.Mathlib.Nat.{mod-lt, mod-add-mod, pow-le-pow_right}
use aws_neuron_driver.Udma.Types.{UdmaQ}
use aws_neuron_driver.Udma.Ring.{available_get}

-- A ring of `2 ^ k` descriptors on which `alloc` were allocated and `acked` acknowledged. Those in
-- between are in flight; sixteen descriptors are never handed out.
pub record Tracks (q : UdmaQ) (k alloc acked : ℕ) : Type 0 where
  pub least : 5 ≤ k
  pub most : k ≤ 24
  pub size_is : q.size ≡ 2 ^ k
  pub mask_is : q.size_mask ≡ 2 ^ k - 1
  pub next_desc : q.next_desc_idx ≡ alloc % 2 ^ k
  pub next_cdesc : q.next_cdesc_idx ≡ acked % 2 ^ k
  pub phase : q.desc_ring_id ≡ (1 + alloc / 2 ^ k) % 4
  pub order : acked ≤ alloc
  pub room : alloc + 16 ≤ acked + 2 ^ k

pub size_bounds : (k : ℕ) → 5 ≤ k → k ≤ 24 → (32 ≤ 2 ^ k) × (2 ^ k ≤ 2 ^ 24)
size_bounds k lo hi =
    (pow-le-pow_right {n = 2} (omega arith) lo, pow-le-pow_right {n = 2} (omega arith) hi)

mul_pred : (s m : ℕ) → 1 ≤ m → s * m ≡ s * (m - 1) + s
mul_pred s zero h = absurd (omega arith)
mul_pred s (suc m) h = omega (arith, ap (λ (t : ℕ). s * t) (pred_suc m))
  where
    pred_suc : (n : ℕ) → suc n - 1 ≡ n
    pred_suc n = omega arith

-- The free places between the two indices of a ring, whichever is ahead.
gap-free :
    (s m c out : ℕ)
    → 0 < s
    → 1 ≤ m
    → out + 16 ≤ s
    → (c % s + s * m - ((c + out) % s + 16)) % s ≡ s - 16 - out
gap-free s m c out pos hm h = elim (Bool-cases (leb s (c % s + out))) [
  | inl past ↦
      let here : (c + out) % s ≡ c % s + out - s =
        sym (mod-add-mod c s out)
        ∙ mod_past (c % s) out s (mod-lt c pos) (omega arith) (ground arith) in
      ap (λ t. t % s) (omega (arith, mod-lt c pos, leb→le s (c % s + out) past))
      ∙ mod_of_parts s m (s - 16 - out) (omega arith)
  | inr within ↦
      let below : c % s + out < s = ground arith in
      let here : (c + out) % s ≡ c % s + out =
        sym (mod-add-mod c s out) ∙ mod_within (c % s) out s (mod-lt c pos) (omega arith) below in
      let split : s * m ≡ s * (m - 1) + s = mul_pred s m hm in
      ap (λ t. t % s) (omega arith) ∙ mod_of_parts s (m - 1) (s - 16 - out) (omega arith)
]

-- On a ring of 2 ^ k descriptors, 5 to 24 for k, `udma_available_get` is the size less the
-- sixteen that are held back and less those in flight, wherever the two indices have wrapped to.
pub available_get-Tracks :
    {q : UdmaQ} {k alloc acked : ℕ}
    → Tracks q k alloc acked
    → available_get q ≡ 2 ^ k - 16 - (alloc - acked)
unfolding available_get
available_get-Tracks {q} {k} {alloc} {acked} v = rw v.mask_is (
    bit_and-mask k (sub32 q.next_cdesc_idx (u32 (q.next_desc_idx + 16)))
    ∙ u32-mod-two-pow k (q.next_cdesc_idx + 2 ^ 32 - u32 (u32 (q.next_desc_idx + 16))) (omega arith)
    ∙ ap (λ t. t % 2 ^ k) numbers
    ∙ gap-free (2 ^ k) (2 ^ (32 - k)) acked (alloc - acked) (pow-pos k) (pow-pos (32 - k))
        (omega arith))
  where
    same : acked + (alloc - acked) ≡ alloc
    same = omega arith

    numbers :
        q.next_cdesc_idx + 2 ^ 32 - u32 (u32 (q.next_desc_idx + 16))
        ≡ acked % 2 ^ k + 2 ^ k * 2 ^ (32 - k) - ((acked + (alloc - acked)) % 2 ^ k + 16)
    numbers = rw same (
        omega (
          arith,
          u32_parts k (omega arith),
          size_bounds k v.least v.most,
          mod-lt alloc (pow-pos k),
        ))
