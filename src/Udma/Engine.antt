-- ===== src/Udma/Engine.antt =====
-- The set-up of a whole engine: `udma_set_defaults` and `udma_init` of udma/udma_main.c,
-- `udma_m2m_init_engine` of udma/udma_m2m.c.
use aws_neuron_driver.Common.{
  ℕ, zero, suc, Bool, true, false, Option, none, some, ◌+◌, ◌*◌, ◌/◌, ◌^◌, bit_and, bit_or, not32,
  ltb, if◌then◌else◌, M, ok, err, ◌>>=◌, ◌>>◌, ignore, pure,
}
use aws_neuron_driver.Udma.Types.{
  Udma, Engine, Host, Reg, m2s_rd_data_cfg, axi_m2s_ostand_cfg, gen_axi_cfg_1,
  m2s_comp_application_ack, vmpr_tx_sel, vmpr_rx_sel, s2m_comp_application_ack,
  axi_s2m_ostand_cfg_rd, axi_s2m_ostand_cfg_wr, spare_zeroes0, s2m_comp_cfg_1c, reg_write32,
}
use aws_neuron_driver.Udma.Setup.{
  handle_init_aux, cache_defaults, read_or_eio, write32_masked_or_eio, packet_size_cfg_set,
  max_descs_set, update_udma,
}
use aws_neuron_driver.Udma.Iofic.{iofic_m2s_error_ints_unmask, iofic_s2m_error_ints_unmask}
pub mod Keeps
pub mod Returns

-- The loops over the address selectors of the 16 queues, from queue `i` on.
unfoldable pub select_tx : (remaining i : ℕ) → M Engine (Unit {0})
unfolding reg_write32
select_tx zero i = pure tt
select_tx (suc remaining) i = do
  reg_write32 (vmpr_tx_sel i) 0xffff_ffff
  select_tx remaining (i + 1)

unfoldable pub select_rx : (remaining i : ℕ) → M Engine (Unit {0})
unfolding reg_write32
select_rx zero i = pure tt
select_rx (suc remaining) i = do
  reg_write32 (vmpr_rx_sel i 0) 0xffff_ffff
  reg_write32 (vmpr_rx_sel i 1) 0xffff_ffff
  reg_write32 (vmpr_rx_sel i 2) 0xffff_ffff
  select_rx remaining (i + 1)

-- `num_beats` on an engine of a revision
abbrev num_beats : (rev_id : ℕ) → ℕ
num_beats rev_id = if ltb rev_id 4 then 256 else 1024

-- UDMA_CDESC_SIZE
abbrev udma_cdesc_size : ℕ
udma_cdesc_size = 16

module _ (h : Host) where
  -- `udma_set_defaults`; the status of `udma_m2s_packet_size_cfg_set` is not looked at.
  unfoldable pub set_defaults : M Engine (Unit {0})
  set_defaults = do
    (λ m. write32_masked_or_eio h m2s_rd_data_cfg 0xfff (num_beats m.udma.rev_id) m)
    write32_masked_or_eio h axi_m2s_ostand_cfg 0xffffff (128 + 128 * 2 ^ 8 + 128 * 2 ^ 16)
    reg_write32 gen_axi_cfg_1 1000000
    reg_write32 m2s_comp_application_ack 0
    ignore (packet_size_cfg_set h 0xfffff true)
    select_tx 16 0
    reg_write32 s2m_comp_application_ack 0
    select_rx 16 0
    write32_masked_or_eio h axi_s2m_ostand_cfg_rd 0xff 128
    write32_masked_or_eio h axi_s2m_ostand_cfg_wr 0xff00ff (128 + 128 * 2 ^ 16)
    reg_write32 spare_zeroes0 1

  -- The end of `udma_init`: the register takes the size in words.
  unfoldable pub write_cdesc_size : (cdesc_size : ℕ) → M Engine (Unit {0})
  write_cdesc_size cdesc_size = do
    val ← read_or_eio h s2m_comp_cfg_1c
    reg_write32 s2m_comp_cfg_1c (bit_or (bit_and val (not32 0xf)) (bit_and (cdesc_size / 4) 0xf))
    cache_defaults h

  -- `udma_init`
  unfoldable pub udma_init : (num_of_queues cdesc_size : ℕ) → M Engine (Unit {0})
  udma_init num_of_queues cdesc_size = do
    handle_init_aux h num_of_queues
    set_defaults
    iofic_m2s_error_ints_unmask h
    iofic_s2m_error_ints_unmask h
    update_udma (λ u. record u { cdesc_size = cdesc_size })
    write_cdesc_size cdesc_size

  -- `udma_m2m_init_engine` of an engine that is there; its phase bit flags are kept nowhere.
  unfoldable pub m2m_init_engine : (num_queues : ℕ) → M Engine (Unit {0})
  m2m_init_engine num_queues = do udma_init num_queues udma_cdesc_size; max_descs_set h 128
