-- ===== src/Dma/Chunks.antt =====
-- Copies between memory chunks and buffers, neuron_dma.c: which addresses `ndma_memcpy_mc`,
-- `ndma_memcpy_buf_to_mc` and `ndma_memcpy_buf_from_mc` hand to `ndma_memcpy`, and the engine that it
-- takes.
use aws_neuron_driver.Common.{
  ℕ, ◌+◌, ◌*◌, bit_or, u64, ◌==◌, leb, if◌then◌else◌, M, Outcome, ok, err, bug,
}
use aws_neuron_driver.Udma.Types.{Engine, Host}
use aws_neuron_driver.Mempool.{is_host, Chunk}
use aws_neuron_driver.Rings.{num_dma_eng_per_device}
use aws_neuron_driver.Dma.{pciex8_0_base, ndma_memcpy}

-- A call of `ndma_memcpy`.
pub record Transfer : Type 0 where
  pub nc_id : ℕ
  pub src : ℕ
  pub dst : ℕ
  pub size : ℕ

module _ (virt_to_phys : ℕ → ℕ) where
  -- The bus address of a buffer of the host.
  abbrev buffer_addr : (va : ℕ) → ℕ
  buffer_addr va = bit_or (virt_to_phys va) pciex8_0_base

  -- The bus address of a chunk.
  unfoldable pub chunk_addr : Chunk → ℕ
  chunk_addr c = if is_host c.mem_location then buffer_addr c.va else c.pa

  -- `ndma_memcpy_mc`
  unfoldable pub memcpy_mc : (src_mc dst_mc : Chunk) (src_offset dst_offset size : ℕ) → Transfer
  unfolding chunk_addr
  memcpy_mc src_mc dst_mc src_offset dst_offset size = record {
    nc_id =
        if is_host dst_mc.mem_location
        then (if is_host src_mc.mem_location then 0 else src_mc.nc_id)
        else dst_mc.nc_id;
    src = u64 (chunk_addr src_mc + src_offset);
    dst = u64 (chunk_addr dst_mc + dst_offset);
    size = size;
  }

  -- `ndma_memcpy_buf_to_mc`
  unfoldable pub memcpy_buf_to_mc :
      (buffer src_offset : ℕ) (dst_mc : Chunk) (dst_offset size : ℕ) → Transfer
  unfolding chunk_addr
  memcpy_buf_to_mc buffer src_offset dst_mc dst_offset size = record {
    nc_id = if is_host dst_mc.mem_location then 0 else dst_mc.nc_id;
    src = u64 (buffer_addr buffer + src_offset);
    dst = u64 (chunk_addr dst_mc + dst_offset);
    size = size;
  }

  -- `ndma_memcpy_buf_from_mc`
  unfoldable pub memcpy_buf_from_mc :
      (buffer dst_offset : ℕ) (src_mc : Chunk) (src_offset size : ℕ) → Transfer
  unfolding chunk_addr
  memcpy_buf_from_mc buffer dst_offset src_mc src_offset size = record {
    nc_id = if is_host src_mc.mem_location then 0 else src_mc.nc_id;
    src = u64 (chunk_addr src_mc + src_offset);
    dst = u64 (buffer_addr buffer + dst_offset);
    size = size;
  }

-- DMA_ENG_IDX_H2T + (nc_id * V1_DMA_ENG_PER_NC)
abbrev pub h2t_engine : (nc_id : ℕ) → ℕ
h2t_engine nc_id = 2 + nc_id * 3

abbrev put_engine :
    (ℕ → Engine) → (eng_id : ℕ) → Outcome Engine (Unit {0}) → Outcome (ℕ → Engine) (Unit {0})
put_engine engines eng_id (ok a m) = ok a (λ i. if i == eng_id then m else engines i)
put_engine engines eng_id (err e m) = err e (λ i. if i == eng_id then m else engines i)
put_engine engines eng_id bug = bug

-- `ndma_memcpy` on the engines of a device: the one of the neuron core does the copy, on the ring of
-- its last queue, which is queue `ring_qid` of the engine. An engine outside the array is `bug`.
unfoldable run_transfer : Host → (ring_qid : ℕ → ℕ) → Transfer → M (ℕ → Engine) (Unit {0})
run_transfer h ring_qid t = λ engines.
    let eng_id : ℕ = h2t_engine t.nc_id in
    let done : Outcome (ℕ → Engine) (Unit {0}) =
      put_engine engines eng_id
        (ndma_memcpy h (ring_qid eng_id) t.src t.dst t.size (engines eng_id)) in
    if leb num_dma_eng_per_device eng_id then bug else done
