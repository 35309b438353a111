-- ===== src/Udma/Init.antt =====
-- Bringing a queue up: `udma_q_init` and what it calls (udma/udma_main.c), and
-- `udma_m2m_init_queue` (udma/udma_m2m.c).
use aws_neuron_driver.Common.{
  ℕ, Bool, true, false, List, [], ◌∷◌, Option, none, some, ◌+◌, ◌-◌, ◌*◌, ◌%◌, ◌^◌, bit_and, bit_or,
  u32, not32, ◌>>>◌, ◌==◌, ◌!=◌, ltb, leb, ◌&&◌, if◌then◌else◌, M, ◌>>=◌, ◌>>◌, ok, pure, fail,
  fail_if, bug_on, ignore, einval, eio, minus_one,
}
use aws_neuron_driver.Udma.Types.{
  UdmaType, tx, rx, UdmaQ, Udma, UdmaQParams, Engine, Host, Reg, queue_reg, QueueReg,
  queue_disabled, queue_enabled, queue, put_queue, with_queue, reg_write32, reg_read32,
}
use aws_neuron_driver.Udma.Types
pub mod Frame
pub mod Laws
pub mod Pair

-- UDMA_MIN_Q_SIZE, UDMA_MAX_Q_SIZE, UDMA_INITIAL_RING_ID, UDMA_Q_FLAGS_NO_COMP_UPDATE
abbrev min_q_size : ℕ
min_q_size = 32

abbrev max_q_size : ℕ
max_q_size = 2 ^ 24

abbrev initial_ring_id : ℕ
initial_ring_id = 1

abbrev q_flags_no_comp_update : ℕ
q_flags_no_comp_update = 2

-- UDMA_M2S_Q_TDRBP_LOW_ADDR_MASK, which is also that of the completion ring
abbrev low_addr_mask : ℕ
low_addr_mask = 0xFFFFFFC0

-- `ADDR_LOW` and `ADDR_HIGH`
abbrev pub addr_low : ℕ → ℕ
addr_low x = u32 x

abbrev pub addr_high : ℕ → ℕ
addr_high x = u32 (x >>> 16 >>> 16)

-- `udma_q_init_validate`
unfoldable pub q_init_validate : ℕ → UdmaQParams → M Engine (Unit {0})
q_init_validate qid p = λ m.
    (do
      fail_if (leb m.udma.num_of_queues qid) einval
      fail_if (ltb p.size min_q_size) einval
      fail_if (ltb max_q_size p.size) einval
      fail_if (bit_and p.size (p.size - 1) != 0) einval
      fail_if (((queue m.udma p.queue_type qid).cdesc_base_ptr != 0) && (m.udma.cdesc_size == 0))
          eio)
      m

-- The assignments of `udma_q_init_internal`.
unfoldable pub fresh_queue : Udma → ℕ → UdmaQParams → UdmaQ → UdmaQ
fresh_queue u qid p q =
    let cdesc_size : ℕ = if p.cdesc_base == 0 then 0 else u.cdesc_size in
    record q {
      queue_type = p.queue_type;
      adapter_rev_id = p.adapter_rev_id;
      size = p.size;
      size_mask = p.size - 1;
      desc_base_ptr = p.desc_base;
      desc_phy_base = p.desc_phy_base;
      cdesc_base_ptr = p.cdesc_base;
      cdesc_phy_base = p.cdesc_phy_base;
      cdesc_size = cdesc_size;
      next_desc_idx = 0;
      is_allocatable = p.allocatable;
      next_cdesc_idx = 0;
      end_cdesc_ptr = p.cdesc_base + u32 ((p.size - 1) * cdesc_size);
      comp_head_idx = 0;
      comp_head_ptr = p.cdesc_base;
      desc_ring_id = initial_ring_id;
      comp_ring_id = initial_ring_id;
      pkt_crnt_descs = 0;
      flags = 0;
      status = queue_disabled;
      qid = qid;
    }

-- `udma_q_reset`: both directions write 1 << 8 to their own software control register.
unfoldable q_reset : UdmaType → ℕ → M Engine (Unit {0})
unfolding reg_write32
q_reset t qid = λ m.
    (do
      bug_on ((queue m.udma t qid).cdesc_size != 0)
      reg_write32 (queue_reg t qid QueueReg.q_sw_ctrl) (2 ^ 8))
      m

module _ (h : Host) where
  -- The read, modify and write of `udma_q_config_compl`.
  unfoldable comp_cfg_value : Option ℕ → M Engine ℕ
  comp_cfg_value none = fail eio
  comp_cfg_value (some v) = pure (bit_or (bit_or v 1) 2)

  -- `udma_q_config_compl`
  unfoldable q_config_compl : UdmaType → ℕ → M Engine (Unit {0})
  unfolding comp_cfg_value reg_write32 reg_read32
  q_config_compl t qid = λ m.
      if bit_and (queue m.udma t qid).flags q_flags_no_comp_update != 0
      then reg_write32 (queue_reg t qid QueueReg.comp_cfg) 0 m
      else (do
        val ← reg_read32 h (queue_reg t qid QueueReg.comp_cfg)
        v ← comp_cfg_value val
        reg_write32 (queue_reg t qid QueueReg.comp_cfg) v)
          m

  -- The part of `udma_q_set_pointers` on the completion ring.
  unfoldable q_set_comp_pointers : UdmaType → ℕ → M Engine (Unit {0})
  unfolding reg_write32
  q_set_comp_pointers t qid = λ m.
      let q = queue m.udma t qid in
      if q.cdesc_base_ptr == 0
      then put_queue t qid (record q { flags = bit_or q.flags q_flags_no_comp_update }) m
      else (do
        bug_on (bit_and (addr_low q.cdesc_phy_base) (not32 low_addr_mask) != 0)
        reg_write32 (queue_reg t qid QueueReg.crbp_low) (addr_low q.cdesc_phy_base)
        reg_write32 (queue_reg t qid QueueReg.crbp_high) (addr_high q.cdesc_phy_base))
          m

  -- `udma_q_set_pointers`, which returns 0 always
  unfoldable q_set_pointers : UdmaType → ℕ → M Engine (Unit {0})
  unfolding q_set_comp_pointers q_config_compl reg_write32
  q_set_pointers t qid = λ m.
      let q = queue m.udma t qid in
      (do
        bug_on (bit_and (addr_low q.desc_phy_base) (not32 low_addr_mask) != 0)
        reg_write32 (queue_reg t qid QueueReg.drbp_low) (addr_low q.desc_phy_base)
        reg_write32 (queue_reg t qid QueueReg.drbp_high) (addr_high q.desc_phy_base)
        reg_write32 (queue_reg t qid QueueReg.drl) q.size
        q_set_comp_pointers t qid
        ignore (q_config_compl t qid))
        m

  -- `udma_q_init_internal`
  unfoldable pub q_init_internal : ℕ → UdmaQParams → M Engine (Unit {0})
  unfolding q_reset q_set_pointers fresh_queue
  q_init_internal qid p = λ m.
      (do
        put_queue p.queue_type qid (fresh_queue m.udma qid p (queue m.udma p.queue_type qid))
        q_reset p.queue_type qid
        q_set_pointers p.queue_type qid)
        m

  -- `udma_q_init`
  unfoldable pub q_init : ℕ → UdmaQParams → M Engine (Unit {0})
  unfolding q_init_validate q_init_internal
  q_init qid p = do q_init_validate qid p; q_init_internal qid p

-- `udma_q_enable`; `qid` and the direction give the queue's registers.
unfoldable pub q_enable : UdmaType → ℕ → Bool → M Engine (Unit {0})
unfolding reg_write32
q_enable t qid enable = λ m.
    let q = queue m.udma t qid in
    let on : UdmaQ = record q { cfg = bit_or q.cfg 0x30000; status = queue_enabled } in
    let off : UdmaQ = record q { cfg = bit_and q.cfg (not32 0x30000); status = queue_disabled } in
    let q' : UdmaQ = if enable then on else off in
    (do reg_write32 (queue_reg t qid QueueReg.cfg) q'.cfg; put_queue t qid q') m

-- `struct udma_ring_ptr`
pub record RingPtr : Type 0 where
  pub addr : ℕ
  pub ptr : ℕ

-- A completion ring's addresses, 0 if there is none.
abbrev compl_ring : Option RingPtr → RingPtr
compl_ring none = record { addr = 0; ptr = 0 }
compl_ring (some c) = c

-- The parameters that `udma_m2m_init_queue` fills in for one direction.
unfoldable pub ring_params : UdmaType → ℕ → ℕ → RingPtr → Option RingPtr → UdmaQParams
ring_params t size allocatable r c = record {
  size = size;
  allocatable = allocatable;
  desc_base = r.ptr;
  desc_phy_base = r.addr;
  cdesc_base = (compl_ring c).ptr;
  cdesc_phy_base = (compl_ring c).addr;
  adapter_rev_id = 0;
  queue_type = t;
}

abbrev no_ring_memory : Option RingPtr → Bool
no_ring_memory none = false
no_ring_memory (some c) = c.ptr == 0

-- `udma_m2m_init_queue`
unfoldable pub m2m_init_queue :
    Host → ℕ → ℕ → ℕ → ℕ → RingPtr → RingPtr → Option RingPtr → M Engine (Unit {0})
m2m_init_queue h qid m2s_size s2m_size allocatable m2s_ring s2m_ring compl = do
  fail_if (m2s_size % 2 != 0) minus_one
  fail_if (s2m_size % 2 != 0) minus_one
  fail_if (no_ring_memory compl) minus_one
  q_init h qid (ring_params tx m2s_size allocatable m2s_ring none)
  q_init h qid (ring_params rx s2m_size allocatable s2m_ring compl)
