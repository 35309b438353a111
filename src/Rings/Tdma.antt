-- ===== src/Rings/Tdma.antt =====
-- The transform engine around an engine's UDMA, v1/tdma.h, and where the registers of the engines are,
-- `ndmar_eng_init` of neuron_ring.c with the addresses of v1/address_map.h.
use aws_neuron_driver.Common.{
  ℕ, Option, none, some, ◌+◌, ◌*◌, ◌/◌, ◌%◌, ◌==◌, bit_and, not32, M, ◌>>=◌, ◌>>◌, pure, fail,
  fail_if, efault, minus_one,
}
use aws_neuron_driver.Udma.Types.{
  Engine, Host, tdma_rob_cfg, tdma_wob_cfg, tdma_event_accel, reg_write32, reg_read32,
}

-- V1_DMA_ENG_PER_NC
abbrev dma_eng_per_nc : ℕ
dma_eng_per_nc = 3

-- The two addresses of engine `eng_id` in BAR0: the bases of the four cores in `teng_udma_base` and
-- `teng_tdma_base` are 0x100000 apart.
unfoldable pub udma_base : (bar0 eng_id : ℕ) → ℕ
udma_base bar0 eng_id =
    bar0 + (0x40000 + eng_id / dma_eng_per_nc * 0x100000) + eng_id % dma_eng_per_nc * 0x40000

unfoldable pub tdma_base : (bar0 eng_id : ℕ) → ℕ
tdma_base bar0 eng_id = bar0 + eng_id / dma_eng_per_nc * 0x100000 + eng_id % dma_eng_per_nc * 0x1000

-- `if (ret) return ret;` after a read; -1 stands for the status of a failed read.
abbrev value_or_minus_one : Option ℕ → M Engine ℕ
value_or_minus_one none = fail minus_one
value_or_minus_one (some v) = pure v

-- `tdma_init_engine`
unfoldable pub tdma_init_engine : Host → (regs_base : ℕ) → M Engine (Unit {0})
unfolding reg_write32 reg_read32
tdma_init_engine h regs_base = do
  fail_if (regs_base == 0) efault
  reg_write32 tdma_rob_cfg 1
  read ← reg_read32 h tdma_wob_cfg
  wob_value ← value_or_minus_one read
  reg_write32 tdma_wob_cfg (bit_and wob_value (not32 1))
  reg_write32 tdma_event_accel 1
