-- ===== src/Dma/Check/Descs.antt =====
-- The loop over the descriptors ends when the size is a number of descriptors.
use aws_neuron_driver.Common.{
  ℕ, zero, suc, Option, ◌+◌, ◌*◌, ◌^◌, ◌<◌, ◌≡◌, refl, ap, sub32, arith, ne→==-false,
}
use aws_neuron_driver.Rings.{QueueType}
use aws_neuron_driver.Dma.Check.{
  NeuronDevice, DescAddrs, Checked, accepted, addr_of, check_addr, check_descs,
}

module _ (devices : ℕ → Option NeuronDevice) (nd : NeuronDevice) where
  -- The descriptors from `j` on, one after the other, without sizes.
  unfoldable pub check_all : (type : QueueType) (buffer : ℕ → DescAddrs) (j n : ℕ) → Checked
  check_all type buffer j zero = accepted
  check_all type buffer j (suc n) =
      check_addr devices nd (addr_of type (buffer j)) (check_all type buffer (j + 1) n)

  -- For a size of n descriptors of 16 bytes, below 2 ^ 32, the check of a buffer of descriptors
  -- ends within n + 1 rounds, and is the check of each of the n descriptors in order.
  pub check_descs-check_all :
      (type : QueueType) (buffer : ℕ → DescAddrs) (n j extra : ℕ)
      → n * 16 < 2 ^ 32
      → check_descs devices nd (n + 1 + extra) type buffer j (n * 16) ≡ check_all type buffer j n
  unfolding check_descs check_all
  check_descs-check_all type buffer zero j extra small =
      let fuel : 0 + 1 + extra ≡ suc extra = omega arith in rw fuel refl
  check_descs-check_all type buffer (suc n) j extra small =
      let fuel : suc n + 1 + extra ≡ suc (n + 1 + extra) = omega arith in
      let left : sub32 (suc n * 16) 16 ≡ n * 16 = omega arith in
      rw fuel (
        rw left (
          rw (ne→==-false (suc n * 16) 0 (λ e. omega (arith, e))) (
            ap (λ c. check_addr devices nd (addr_of type (buffer j)) c)
              (check_descs-check_all type buffer n (j + 1) extra (omega arith)))))
