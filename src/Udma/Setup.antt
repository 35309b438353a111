-- ===== src/Udma/Setup.antt =====
-- Steps of the set-up of an engine: `udma_handle_init_aux`, `udma_cache_defaults` and
-- `udma_m2s_packet_size_cfg_set` of udma/udma_main.c, `udma_m2s_max_descs_set` of udma/udma_m2m.c.
use aws_neuron_driver.Common.{
  ℕ, zero, suc, Bool, true, false, Option, none, some, ◌+◌, ◌*◌, ◌^◌, bit_and, bit_or, u32, not32,
  ◌==◌, ◌!=◌, ltb, ◌||◌, u8, if◌then◌else◌, M, ok, err, ◌>>=◌, ◌>>◌, pure, fail, fail_if, einval,
  eio, minus_one,
}
use aws_neuron_driver.Udma.Types.{
  UdmaType, tx, rx, UdmaQ, disable, Udma, Engine, Host, Reg, queue_reg, QueueReg, queue_enabled,
  queue, put_queue, reg_write32, reg_read32, or_dead, dma_version, m2s_cfg_len, desc_pref_cfg_2,
  desc_pref_cfg_3,
}
use aws_neuron_driver.Udma.Init.{q_enable}
pub mod Laws

-- DMA_MAX_Q_V4, UDMA_NUM_QUEUES_MAX and UDMA_REV_ID_4
abbrev max_q : ℕ
max_q = 16

abbrev num_queues_max : ℕ
num_queues_max = 0xff

abbrev rev_id_4 : ℕ
rev_id_4 = 4

-- One round of the loop of `udma_handle_init_aux`.
unfoldable pub enable_pair : ℕ → M Engine (Unit {0})
unfolding q_enable
enable_pair i = do
  (λ m. put_queue tx i (record (queue m.udma tx i) { status = queue_enabled }) m)
  (λ m. put_queue rx i (record (queue m.udma rx i) { status = queue_enabled }) m)
  q_enable tx i true
  q_enable rx i true

unfoldable pub enable_queues : (remaining i : ℕ) → M Engine (Unit {0})
enable_queues zero i = pure tt
enable_queues (suc remaining) i = do enable_pair i; enable_queues remaining (i + 1)

abbrev pub update_udma : (Udma → Udma) → M Engine (Unit {0})
update_udma f m = ok tt (record m { udma = f m.udma })

-- `udma_params->num_of_queues`, a `u8`, as the number that it stands for.
abbrev pub queues_asked : ℕ → ℕ
queues_asked n = if u8 n == num_queues_max then max_q else u8 n

abbrev value_or_eio : Option ℕ → M Engine ℕ
value_or_eio none = fail eio
value_or_eio (some v) = pure v

module _ (h : Host) where
  -- `udma_handle_init_aux`, without the register bases and the name
  unfoldable pub handle_init_aux : (num_of_queues : ℕ) → M Engine (Unit {0})
  handle_init_aux num_of_queues = do
    version ← reg_read32 h dma_version
    update_udma (λ u. record u { rev_id = or_dead version })
    fail_if (or_dead version != rev_id_4) einval
    update_udma
        (λ u. record u { num_of_queues_max = max_q; num_of_queues = queues_asked num_of_queues })
    fail_if (ltb max_q (queues_asked num_of_queues)) einval
    enable_queues max_q 0
    update_udma (λ u. record u { state_m2s = disable; state_s2m = disable })

  -- A read that gives up with -EIO.
  unfoldable pub read_or_eio : Reg → M Engine ℕ
  unfolding reg_read32
  read_or_eio r = do val ← reg_read32 h r; value_or_eio val

  -- The copies of the loop of `udma_cache_defaults`, from queue `i` on.
  unfoldable pub copy_defaults : (remaining i : ℕ) → M Engine (Unit {0})
  copy_defaults zero i = pure tt
  copy_defaults (suc remaining) i = do
    (λ m.
        let q0 : UdmaQ = queue m.udma tx 0 in
        put_queue tx i (record (queue m.udma tx i) { cfg = q0.cfg; rlimit_mask = q0.rlimit_mask })
          m)
    (λ m. put_queue rx i (record (queue m.udma rx i) { cfg = (queue m.udma rx 0).cfg }) m)
    copy_defaults remaining (i + 1)

  -- `udma_cache_defaults`
  unfoldable pub cache_defaults : M Engine (Unit {0})
  unfolding read_or_eio copy_defaults
  cache_defaults = do
    tx_cfg ← read_or_eio (queue_reg tx 0 QueueReg.cfg)
    (λ m. put_queue tx 0 (record (queue m.udma tx 0) { cfg = tx_cfg }) m)
    mask ← read_or_eio (queue_reg tx 0 QueueReg.rlimit_mask)
    (λ m. put_queue tx 0 (record (queue m.udma tx 0) { rlimit_mask = mask }) m)
    rx_cfg ← read_or_eio (queue_reg rx 0 QueueReg.cfg)
    (λ m. put_queue rx 0 (record (queue m.udma rx 0) { cfg = rx_cfg }) m)
    copy_defaults 15 1

  -- `reg_write32_masked` where a failed read is answered by -EIO
  unfoldable pub write32_masked_or_eio : Reg → (mask value : ℕ) → M Engine (Unit {0})
  unfolding read_or_eio reg_write32
  write32_masked_or_eio r mask value = do
    temp ← read_or_eio r
    reg_write32 r (bit_or (bit_and mask value) (bit_and (not32 mask) temp))

  -- `udma_m2s_packet_size_cfg_set`
  unfoldable pub packet_size_cfg_set :
      (max_pkt_size : ℕ) (encode_64k_as_zero : Bool) → M Engine (Unit {0})
  unfolding read_or_eio reg_write32
  packet_size_cfg_set max_pkt_size encode_64k_as_zero = do
    fail_if (ltb 0xfffff max_pkt_size) einval
    reg ← read_or_eio m2s_cfg_len
    let encoded : ℕ =
        if encode_64k_as_zero then bit_or reg (2 ^ 24) else bit_and reg (not32 (2 ^ 24))
    reg_write32 m2s_cfg_len (bit_or (bit_and encoded (not32 0xfffff)) max_pkt_size)

  -- `udma_m2s_max_descs_set`; `max_descs` is a `u8`.
  unfoldable pub max_descs_set : (max_descs : ℕ) → M Engine (Unit {0})
  unfolding write32_masked_or_eio
  max_descs_set max_descs = do
    fail_if ((max_descs == 0) || ltb 128 max_descs) minus_one
    let pref_thr : ℕ = if ltb max_descs 8 then 4 else max_descs
    let min_burst : ℕ = if ltb max_descs 8 then 4 else 8
    write32_masked_or_eio desc_pref_cfg_2 0xfff max_descs
    write32_masked_or_eio desc_pref_cfg_3 0xfff0 (bit_or (pref_thr * 2 ^ 8) (min_burst * 2 ^ 4))
