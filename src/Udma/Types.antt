-- ===== src/Udma/Types.antt =====
-- The data of udma/udma.h: queues, engines, descriptors, and what an engine's code does to the
-- world outside: register accesses, descriptor writes, barriers.
-- An array `udma_q_m2s[16]` is a function of the index; a pointer is its address, 0 for NULL.
use aws_neuron_driver.Common.{Bool, ℕ, List, Option, none, some, ◌∷◌, ok, M, ◌==◌, if◌then◌else◌}

-- `enum udma_type`
pub data UdmaType : Type 0 where
  tx rx : UdmaType

-- `enum udma_state`
pub data UdmaState : Type 0 where
  disable idle normal abort reset : UdmaState

-- `enum udma_queue_status`
pub data QueueStatus : Type 0 where
  queue_disabled queue_enabled queue_aborted : QueueStatus

-- `union udma_desc`, at its `tx` and its `rx` view
pub data Desc : Type 0 where
  tx_desc : (len_ctrl meta_ctrl buf_ptr : ℕ) → Desc
  rx_desc : (len_ctrl buf2_ptr_lo buf1_ptr : ℕ) → Desc

-- `struct udma_q`. The back pointers `q_regs` and `udma` are the queue's place in its engine.
pub record UdmaQ : Type 0 where
  pub size_mask : ℕ
  pub desc_base_ptr : ℕ
  pub is_allocatable : ℕ
  pub next_desc_idx : ℕ
  pub desc_ring_id : ℕ
  pub cdesc_base_ptr : ℕ
  pub cdesc_size : ℕ
  pub next_cdesc_idx : ℕ
  pub end_cdesc_ptr : ℕ
  pub comp_head_idx : ℕ
  pub comp_head_ptr : ℕ
  pub pkt_crnt_descs : ℕ
  pub comp_ring_id : ℕ
  pub desc_phy_base : ℕ
  pub cdesc_phy_base : ℕ
  pub flags : ℕ
  pub size : ℕ
  pub status : QueueStatus
  pub qid : ℕ
  pub queue_type : UdmaType
  pub adapter_rev_id : ℕ
  pub cfg : ℕ
  pub rlimit_mask : ℕ

-- `struct udma`
pub record Udma : Type 0 where
  pub state_m2s : UdmaState
  pub state_s2m : UdmaState
  pub num_of_queues_max : ℕ
  pub num_of_queues : ℕ
  pub udma_q_m2s : ℕ → UdmaQ
  pub udma_q_s2m : ℕ → UdmaQ
  pub rev_id : ℕ
  pub cdesc_size : ℕ

-- `struct udma_q_params`
pub record UdmaQParams : Type 0 where
  pub size : ℕ
  pub allocatable : ℕ
  pub desc_base : ℕ
  pub desc_phy_base : ℕ
  pub cdesc_base : ℕ
  pub cdesc_phy_base : ℕ
  pub adapter_rev_id : ℕ
  pub queue_type : UdmaType

-- The registers of one queue, `union udma_q_regs`.
pub data QueueReg : Type 0 where
  cfg status drbp_low drbp_high drl crbp_low crbp_high drhp drtp drtp_inc crhp : QueueReg
  comp_cfg q_sw_ctrl rlimit_mask : QueueReg

-- The registers of an interrupt controller's group, `struct iofic_grp_ctrl`, that the code reaches.
pub data IoficReg : Type 0 where
  int_control_grp int_mask_clear_grp int_abort_msk_grp : IoficReg

-- The registers of one engine that the code reaches, by the names of udma/udma_regs.h.
pub data Reg : Type 0 where
  queue_reg : UdmaType → ℕ → QueueReg → Reg
  m2s_state s2m_state m2s_change_state s2m_change_state s2m_stream_cfg : Reg
  m2s_cfg_len m2s_rd_data_cfg axi_m2s_ostand_cfg gen_axi_cfg_1 m2s_comp_application_ack : Reg
  s2m_comp_application_ack axi_s2m_ostand_cfg_rd axi_s2m_ostand_cfg_wr spare_zeroes0 : Reg
  s2m_comp_cfg_1c dma_version desc_pref_cfg_2 desc_pref_cfg_3 : Reg
  vmpr_tx_sel : ℕ → Reg
  iofic_reg : (secondary : Bool) → (group : ℕ) → IoficReg → Reg
  vmpr_rx_sel : ℕ → ℕ → Reg
  tdma_rob_cfg tdma_wob_cfg tdma_event_accel : Reg

-- What the engine's code does to the world, one effect at a time.
pub data Event : Type 0 where
  reg_read : Reg → Event
  reg_write : Reg → ℕ → Event
  desc_write : ℕ → Desc → Event
  barrier : Event
  kmalloc : ℕ → Event
  kfree : ℕ → Event
  word_read : ℕ → Event
  word_write : ℕ → ℕ → Event
  udelay : ℕ → Event

-- An engine and the effects so far, the latest first.
pub record Engine : Type 0 where
  pub udma : Udma
  pub trace : List Event

-- The world's side, a function of the effects so far: the value that a register read gives (`none` if
-- the read fails), the address that `kmalloc` gives (0 if there is no memory), the word that a
-- volatile load sees, and the physical address of a kernel address.
pub record Host : Type 0 where
  pub reg_value : List Event → Reg → Option ℕ
  pub kmalloc_addr : List Event → ℕ → ℕ
  pub word_value : List Event → ℕ → ℕ
  pub virt_to_phys : ℕ → ℕ

-- The array entry at `i`, replaced.
abbrev set_q : (ℕ → UdmaQ) → ℕ → UdmaQ → ℕ → UdmaQ
set_q f i q j = if j == i then q else f j

-- `(type == UDMA_TX) ? &udma->udma_q_m2s[qid] : &udma->udma_q_s2m[qid]`, read and written.
abbrev pub queue : Udma → UdmaType → ℕ → UdmaQ
queue u tx i = u.udma_q_m2s i
queue u rx i = u.udma_q_s2m i

abbrev pub with_queue : Udma → UdmaType → ℕ → UdmaQ → Udma
with_queue u tx i q = record u { udma_q_m2s = set_q u.udma_q_m2s i q }
with_queue u rx i q = record u { udma_q_s2m = set_q u.udma_q_s2m i q }

abbrev pub put_queue : UdmaType → ℕ → UdmaQ → M Engine (Unit {0})
put_queue t i q m = ok tt (record m { udma = with_queue m.udma t i q })

abbrev pub emit : Event → M Engine (Unit {0})
emit e m = ok tt (record m { trace = e ∷ m.trace })

-- `reg_write32`
unfoldable pub reg_write32 : Reg → ℕ → M Engine (Unit {0})
reg_write32 r v = emit (reg_write r v)

-- `reg_read32`: `none` where it returns an error, having stored 0xDEAD.
unfoldable pub reg_read32 : Host → Reg → M Engine (Option ℕ)
reg_read32 h r m = ok (h.reg_value m.trace r) (record m { trace = reg_read r ∷ m.trace })

-- The stored value, for a caller that does not look at the status.
abbrev pub or_dead : Option ℕ → ℕ
or_dead none = 0xDEAD
or_dead (some v) = v
