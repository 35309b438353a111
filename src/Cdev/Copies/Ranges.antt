-- ===== src/Cdev/Copies/Ranges.antt =====
-- The range checks of the copies.
use aws_neuron_driver.Common.{
  ℕ, false, ◌+◌, ◌^◌, ◌≤◌, ◌<◌, ◌≡◌, ◌⊎◌, refl, u32, ltb, err, arith, ltb-false→le, ltb-true→lt,
  Bool-cases, inl, inr, einval,
}
use aws_neuron_driver.Mempool.{is_host, Chunk, Kernel}
use aws_neuron_driver.Mempool.Order.{chunk_end}
use aws_neuron_driver.Dma.Chunks.{Transfer, memcpy_mc, chunk_addr}
use aws_neuron_driver.Cdev.Copies.{transfer, Copying, Env, mem_copy, act}

module _ {G K : Type 0} (k : Kernel G K) (env : Env) where
  -- A transfer between device chunks stays inside both of them.
  pub record StaysInside (src_mc dst_mc : Chunk) (t : Transfer) : Type 0 where
    pub src_from : src_mc.pa ≤ t.src
    pub src_to : t.src + t.size ≤ chunk_end src_mc
    pub dst_from : dst_mc.pa ≤ t.dst
    pub dst_to : t.dst + t.size ≤ chunk_end dst_mc

  chunk_addr-device :
      (c : Chunk) → is_host c.mem_location ≡ false → chunk_addr k.virt_to_phys c ≡ c.pa
  unfolding chunk_addr
  chunk_addr-device c e = rw e refl

  -- For device chunks that end below 2 ^ 64 and offsets whose sums with the size fit in 32 bits,
  -- `ncdev_mem_copy` asks for one transfer that stays inside both chunks, or it returns EINVAL
  -- and asks for nothing, and then one of the sums is past the end of its chunk.
  pub mem_copy-StaysInside :
      (src_mc dst_mc : Chunk) (size src_offset dst_offset : ℕ) (s : Copying G K)
      → is_host src_mc.mem_location ≡ false
      → is_host dst_mc.mem_location ≡ false
      → chunk_end src_mc < 2 ^ 64
      → chunk_end dst_mc < 2 ^ 64
      → src_offset + size < 2 ^ 32
      → dst_offset + size < 2 ^ 32
      → (((src_mc.size < src_offset + size) ⊎ (dst_mc.size < dst_offset + size))
          × (mem_copy k env src_mc dst_mc size src_offset dst_offset s ≡ err einval s))
        ⊎ ((t : Transfer) × StaysInside src_mc dst_mc t
            × (mem_copy k env src_mc dst_mc size src_offset dst_offset s
                ≡ act k env (transfer t) s))
  unfolding mem_copy memcpy_mc
  mem_copy-StaysInside src_mc dst_mc size src_offset dst_offset s dsrc ddst esrc edst fsrc fdst =
      elim (Bool-cases (ltb src_mc.size (u32 (src_offset + size)))) [
        | inl x ↦ inl (inl (omega (arith, ltb-true→lt _ _ x)), rw x refl)
        | inr x ↦ elim (Bool-cases (ltb dst_mc.size (u32 (dst_offset + size)))) [
          | inl y ↦ inl (inr (omega (arith, ltb-true→lt _ _ y)), rw x (rw y refl))
          | inr y ↦
              let xs = ltb-false→le _ _ x in
              let ys = ltb-false→le _ _ y in inr (_, inside xs ys, rw x (rw y refl))
        ]
      ]
    where
      inside :
          u32 (src_offset + size) ≤ src_mc.size
          → u32 (dst_offset + size) ≤ dst_mc.size
          → StaysInside src_mc dst_mc
              (memcpy_mc k.virt_to_phys src_mc dst_mc src_offset dst_offset size)
      inside xs ys =
          let a = chunk_addr-device src_mc dsrc in
          let b = chunk_addr-device dst_mc ddst in
          record {
            src_from = rw a (omega arith);
            src_to = rw a (omega arith);
            dst_from = rw b (omega arith);
            dst_to = rw b (omega arith);
          }
