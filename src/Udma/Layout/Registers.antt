-- ===== src/Udma/Layout/Registers.antt =====
-- Where the registers that the code reaches stand in an engine's window, in words of 32 bits.
use Prim.Native.String.{String}
use aws_neuron_driver.Common.{
  ℕ, zero, suc, Bool, true, false, List, [], ◌∷◌, Option, none, some, ◌+◌, ◌-◌, ◌*◌, ◌/◌, ◌%◌, ◌<◌,
  ◌≤◌, map, ◌≡◌, refl, ap, sym, ◌∙◌, arith, ◌==◌, ltb, leb, ◌&&◌, Bool-cases, inl, inr, ltb-true→lt,
  ltb-false→le, if◌then◌else◌,
}
use aws_neuron_driver.Udma.Types.{
  UdmaType, tx, rx, QueueReg, cfg, status, drbp_low, drbp_high, drl, crbp_low, crbp_high, drhp,
  drtp, drtp_inc, crhp, comp_cfg, q_sw_ctrl, rlimit_mask, IoficReg, int_control_grp,
  int_mask_clear_grp, int_abort_msk_grp, Reg, queue_reg, m2s_state, s2m_state, m2s_change_state,
  s2m_change_state, s2m_stream_cfg, m2s_cfg_len, m2s_rd_data_cfg, axi_m2s_ostand_cfg, gen_axi_cfg_1,
  m2s_comp_application_ack, s2m_comp_application_ack, axi_s2m_ostand_cfg_rd, axi_s2m_ostand_cfg_wr,
  spare_zeroes0, s2m_comp_cfg_1c, dma_version, desc_pref_cfg_2, desc_pref_cfg_3, vmpr_tx_sel,
  iofic_reg, vmpr_rx_sel, tdma_rob_cfg, tdma_wob_cfg, tdma_event_accel,
}
use aws_neuron_driver.Udma.Layout.{
  words, offset, udma_axi_m2s, udma_m2s, udma_m2s_rd, udma_rlimit_common, udma_m2s_comp,
  udma_m2s_feature, udma_m2s_q, udma_m2s_regs_v4, udma_axi_s2m, udma_s2m, udma_s2m_comp, udma_s2m_q,
  udma_s2m_regs_v4, iofic_grp_ctrl, udma_iofic_regs, udma_gen_axi, udma_gen_spare_reg,
  udma_gen_regs_v4, udma_gen_ex_vmpr_v4, udma_gen_ex_regs, unit_regs_v4, udma_rings_regs,
}

-- A queue's register in `union udma_q_regs`: those of `rings` by their common names, the others
-- in the direction's struct. The receive queues have no rate limiter, so no such register.
unfoldable pub queue_word : UdmaType → QueueReg → ℕ
unfolding offset words
queue_word t cfg = offset udma_rings_regs "cfg"
queue_word t status = offset udma_rings_regs "status"
queue_word t drbp_low = offset udma_rings_regs "drbp_low"
queue_word t drbp_high = offset udma_rings_regs "drbp_high"
queue_word t drl = offset udma_rings_regs "drl"
queue_word t crbp_low = offset udma_rings_regs "crbp_low"
queue_word t crbp_high = offset udma_rings_regs "crbp_high"
queue_word t drhp = offset udma_rings_regs "drhp"
queue_word t drtp = offset udma_rings_regs "drtp"
queue_word t drtp_inc = offset udma_rings_regs "drtp_inc"
queue_word t crhp = offset udma_rings_regs "crhp"
queue_word tx comp_cfg = offset udma_m2s_q "comp_cfg"
queue_word rx comp_cfg = offset udma_s2m_q "comp_cfg"
queue_word tx q_sw_ctrl = offset udma_m2s_q "q_sw_ctrl"
queue_word rx q_sw_ctrl = offset udma_s2m_q "q_sw_ctrl"
queue_word t rlimit_mask = offset udma_m2s_q "rlimit" + offset udma_rlimit_common "mask"

unfoldable iofic_word : IoficReg → ℕ
unfolding offset words
iofic_word int_control_grp = offset iofic_grp_ctrl "int_control_grp"
iofic_word int_mask_clear_grp = offset iofic_grp_ctrl "int_mask_clear_grp"
iofic_word int_abort_msk_grp = offset iofic_grp_ctrl "int_abort_msk_grp"

-- The place of a member of a member of an engine's registers.
unfoldable in_m2s : String → ℕ
unfolding offset words
in_m2s name = offset unit_regs_v4 "m2s" + offset udma_m2s_regs_v4 name

unfoldable in_s2m : String → ℕ
unfolding offset words
in_s2m name = offset unit_regs_v4 "s2m" + offset udma_s2m_regs_v4 name

unfoldable in_gen : String → ℕ
unfolding offset words
in_gen name = offset unit_regs_v4 "gen" + offset udma_gen_regs_v4 name

unfoldable queue_base : UdmaType → ℕ
unfolding in_m2s in_s2m
queue_base tx = in_m2s "m2s_q"
queue_base rx = in_s2m "s2m_q"

-- `udma_iofic_reg_base_get_adv`; the groups follow one another from there.
unfoldable iofic_base : (secondary : Bool) → ℕ
unfolding in_gen offset words
iofic_base false = in_gen "interrupt_regs" + offset udma_iofic_regs "main_iofic"
iofic_base true = in_gen "interrupt_regs" + offset udma_iofic_regs "secondary_iofic_ctrl"

unfoldable vmpr_base : ℕ
unfolding offset words
vmpr_base = offset unit_regs_v4 "gen_ex" + offset udma_gen_ex_regs "vmpr_v4"

-- The word of a register. The transform engine's registers are not in this window; their clauses
-- only make the function total.
unfoldable pub reg_word : Reg → ℕ
unfolding queue_base queue_word in_m2s in_s2m in_gen iofic_base iofic_word vmpr_base offset words
reg_word (queue_reg t i q) = queue_base t + i * words udma_m2s_q + queue_word t q
reg_word m2s_state = in_m2s "m2s" + offset udma_m2s "state"
reg_word s2m_state = in_s2m "s2m" + offset udma_s2m "state"
reg_word m2s_change_state = in_m2s "m2s" + offset udma_m2s "change_state"
reg_word s2m_change_state = in_s2m "s2m" + offset udma_s2m "change_state"
reg_word s2m_stream_cfg = in_s2m "s2m" + offset udma_s2m "stream_cfg"
reg_word m2s_cfg_len = in_m2s "m2s" + offset udma_m2s "cfg_len"
reg_word m2s_rd_data_cfg = in_m2s "m2s_rd" + offset udma_m2s_rd "data_cfg"
reg_word axi_m2s_ostand_cfg = in_m2s "axi_m2s" + offset udma_axi_m2s "ostand_cfg"
reg_word gen_axi_cfg_1 = in_gen "axi" + offset udma_gen_axi "cfg_1"
reg_word m2s_comp_application_ack = in_m2s "m2s_comp" + offset udma_m2s_comp "cfg_application_ack"
reg_word s2m_comp_application_ack = in_s2m "s2m_comp" + offset udma_s2m_comp "cfg_application_ack"
reg_word axi_s2m_ostand_cfg_rd = in_s2m "axi_s2m" + offset udma_axi_s2m "ostand_cfg_rd"
reg_word axi_s2m_ostand_cfg_wr = in_s2m "axi_s2m" + offset udma_axi_s2m "ostand_cfg_wr"
reg_word spare_zeroes0 = in_gen "spare_reg" + offset udma_gen_spare_reg "zeroes0"
reg_word s2m_comp_cfg_1c = in_s2m "s2m_comp" + offset udma_s2m_comp "cfg_1c"
reg_word dma_version = in_m2s "m2s_feature" + offset udma_m2s_feature "dma_version"
reg_word desc_pref_cfg_2 = in_m2s "m2s_rd" + offset udma_m2s_rd "desc_pref_cfg_2"
reg_word desc_pref_cfg_3 = in_m2s "m2s_rd" + offset udma_m2s_rd "desc_pref_cfg_3"
reg_word (vmpr_tx_sel i) =
    vmpr_base + i * words udma_gen_ex_vmpr_v4 + offset udma_gen_ex_vmpr_v4 "tx_sel"
reg_word (iofic_reg secondary g r) = iofic_base secondary + g * words iofic_grp_ctrl + iofic_word r
reg_word (vmpr_rx_sel i j) =
    vmpr_base + i * words udma_gen_ex_vmpr_v4 + (offset udma_gen_ex_vmpr_v4 "rx_sel" + j)
reg_word tdma_rob_cfg = 0
reg_word tdma_wob_cfg = 0
reg_word tdma_event_accel = 0

-- The register is one of the window: its queue, group and index are in range.
unfoldable pub IsPlaced : Reg → Type 0
IsPlaced (queue_reg tx i q) = i < 16
IsPlaced (queue_reg rx i rlimit_mask) = ⊥
IsPlaced (queue_reg rx i q) = i < 16
IsPlaced (vmpr_tx_sel i) = i < 16
IsPlaced (vmpr_rx_sel i j) = (i < 16) × (j < 3)
IsPlaced (iofic_reg secondary g r) = g < 4
IsPlaced tdma_rob_cfg = ⊥
IsPlaced tdma_wob_cfg = ⊥
IsPlaced tdma_event_accel = ⊥
IsPlaced r = Unit {0}

-- The first of the candidates whose word it is.
unfoldable find_at {ℓ} : {A : Type ℓ} → (A → ℕ) → List A → ℕ → Option A
find_at at [] n = none
find_at at (a ∷ candidates) n =
    let rest = find_at at candidates n in if at a == n then some a else rest

unfoldable map_found {ℓ} : {A : Type ℓ} → (A → Reg) → Option A → Option Reg
map_found f none = none
map_found f (some a) = some (f a)

abbrev rings_regs : List QueueReg
rings_regs =
    cfg ∷ status ∷ drbp_low ∷ drbp_high ∷ drl ∷ crbp_low ∷ crbp_high ∷ drhp ∷ drtp ∷ drtp_inc ∷ crhp
    ∷ comp_cfg ∷ q_sw_ctrl ∷ rlimit_mask ∷ []

abbrev iofic_regs_used : List IoficReg
iofic_regs_used = int_control_grp ∷ int_mask_clear_grp ∷ int_abort_msk_grp ∷ []

abbrev fixed_regs : List Reg
fixed_regs =
    m2s_state ∷ s2m_state ∷ m2s_change_state ∷ s2m_change_state ∷ s2m_stream_cfg ∷ m2s_cfg_len
    ∷ m2s_rd_data_cfg ∷ axi_m2s_ostand_cfg ∷ gen_axi_cfg_1 ∷ m2s_comp_application_ack
    ∷ s2m_comp_application_ack ∷ axi_s2m_ostand_cfg_rd ∷ axi_s2m_ostand_cfg_wr ∷ spare_zeroes0
    ∷ s2m_comp_cfg_1c ∷ dma_version ∷ desc_pref_cfg_2 ∷ desc_pref_cfg_3 ∷ []

unfoldable vmpr_at : (i j : ℕ) → Reg
vmpr_at i zero = vmpr_tx_sel i
vmpr_at i (suc j) = vmpr_rx_sel i j

-- Which register stands at a word.
unfoldable reg_at : ℕ → Option Reg
unfolding find_at map_found vmpr_at
reg_at n =
    if leb 1024 n && ltb n 17408
    then map_found (queue_reg tx ((n - 1024) / 1024))
        (find_at (queue_word tx) rings_regs ((n - 1024) % 1024))
    else if leb 33792 n && ltb n 50176
    then map_found (queue_reg rx ((n - 33792) / 1024))
        (find_at (queue_word rx) rings_regs ((n - 33792) % 1024))
    else if leb 57344 n && ltb n 57408
    then map_found (iofic_reg false ((n - 57344) / 16))
        (find_at iofic_word iofic_regs_used ((n - 57344) % 16))
    else if leb 59392 n && ltb n 59456
    then map_found (iofic_reg true ((n - 59392) / 16))
        (find_at iofic_word iofic_regs_used ((n - 59392) % 16))
    else if leb 61696 n && ltb n 61952
    then some (vmpr_at ((n - 61696) / 16) ((n - 61696) % 16))
    else find_at reg_word fixed_regs n

reg_at-reg_word : (r : Reg) → IsPlaced r → reg_at (reg_word r) ≡ some r
unfolding reg_at reg_word IsPlaced
reg_at-reg_word (queue_reg tx i cfg) lt = ground arith
reg_at-reg_word (queue_reg tx i status) lt = ground arith
reg_at-reg_word (queue_reg tx i drbp_low) lt = ground arith
reg_at-reg_word (queue_reg tx i drbp_high) lt = ground arith
reg_at-reg_word (queue_reg tx i drl) lt = ground arith
reg_at-reg_word (queue_reg tx i crbp_low) lt = ground arith
reg_at-reg_word (queue_reg tx i crbp_high) lt = ground arith
reg_at-reg_word (queue_reg tx i drhp) lt = ground arith
reg_at-reg_word (queue_reg tx i drtp) lt = ground arith
reg_at-reg_word (queue_reg tx i drtp_inc) lt = ground arith
reg_at-reg_word (queue_reg tx i crhp) lt = ground arith
reg_at-reg_word (queue_reg tx i comp_cfg) lt = ground arith
reg_at-reg_word (queue_reg tx i q_sw_ctrl) lt = ground arith
reg_at-reg_word (queue_reg tx i rlimit_mask) lt = ground arith
reg_at-reg_word (queue_reg rx i cfg) lt = ground arith
reg_at-reg_word (queue_reg rx i status) lt = ground arith
reg_at-reg_word (queue_reg rx i drbp_low) lt = ground arith
reg_at-reg_word (queue_reg rx i drbp_high) lt = ground arith
reg_at-reg_word (queue_reg rx i drl) lt = ground arith
reg_at-reg_word (queue_reg rx i crbp_low) lt = ground arith
reg_at-reg_word (queue_reg rx i crbp_high) lt = ground arith
reg_at-reg_word (queue_reg rx i drhp) lt = ground arith
reg_at-reg_word (queue_reg rx i drtp) lt = ground arith
reg_at-reg_word (queue_reg rx i drtp_inc) lt = ground arith
reg_at-reg_word (queue_reg rx i crhp) lt = ground arith
reg_at-reg_word (queue_reg rx i comp_cfg) lt = ground arith
reg_at-reg_word (queue_reg rx i q_sw_ctrl) lt = ground arith
reg_at-reg_word (queue_reg rx i rlimit_mask) lt = elim lt [ ]
reg_at-reg_word m2s_state lt = refl
reg_at-reg_word s2m_state lt = refl
reg_at-reg_word m2s_change_state lt = refl
reg_at-reg_word s2m_change_state lt = refl
reg_at-reg_word s2m_stream_cfg lt = refl
reg_at-reg_word m2s_cfg_len lt = refl
reg_at-reg_word m2s_rd_data_cfg lt = refl
reg_at-reg_word axi_m2s_ostand_cfg lt = refl
reg_at-reg_word gen_axi_cfg_1 lt = refl
reg_at-reg_word m2s_comp_application_ack lt = refl
reg_at-reg_word s2m_comp_application_ack lt = refl
reg_at-reg_word axi_s2m_ostand_cfg_rd lt = refl
reg_at-reg_word axi_s2m_ostand_cfg_wr lt = refl
reg_at-reg_word spare_zeroes0 lt = refl
reg_at-reg_word s2m_comp_cfg_1c lt = refl
reg_at-reg_word dma_version lt = refl
reg_at-reg_word desc_pref_cfg_2 lt = refl
reg_at-reg_word desc_pref_cfg_3 lt = refl
reg_at-reg_word (iofic_reg false g int_control_grp) lt = ground arith
reg_at-reg_word (iofic_reg false g int_mask_clear_grp) lt = ground arith
reg_at-reg_word (iofic_reg false g int_abort_msk_grp) lt = ground arith
reg_at-reg_word (iofic_reg true g int_control_grp) lt = ground arith
reg_at-reg_word (iofic_reg true g int_mask_clear_grp) lt = ground arith
reg_at-reg_word (iofic_reg true g int_abort_msk_grp) lt = ground arith
reg_at-reg_word (vmpr_tx_sel i) lt = ground arith
reg_at-reg_word (vmpr_rx_sel i zero) lt = ground arith
reg_at-reg_word (vmpr_rx_sel i (suc zero)) lt = ground arith
reg_at-reg_word (vmpr_rx_sel i (suc (suc zero))) lt = ground arith
reg_at-reg_word (vmpr_rx_sel i (suc (suc (suc j)))) lt = absurd (omega arith)
reg_at-reg_word tdma_rob_cfg lt = elim lt [ ]
reg_at-reg_word tdma_wob_cfg lt = elim lt [ ]
reg_at-reg_word tdma_event_accel lt = elim lt [ ]

-- Equal words have equal registers.
pub reg_word_injective : (r s : Reg) → IsPlaced r → IsPlaced s → reg_word r ≡ reg_word s → r ≡ s
reg_word_injective r s placed_r placed_s e =
    let found : some r ≡ some s =
      sym (reg_at-reg_word r placed_r) ∙ ap reg_at e ∙ reg_at-reg_word s placed_s in
    cc

reg_at_beyond : (n : ℕ) → 61952 ≤ n → reg_at n ≡ none
unfolding reg_at reg_word
reg_at_beyond n beyond = ground arith

-- An engine's registers end before its window does.
pub reg_word_bound : (r : Reg) → IsPlaced r → reg_word r < 61952
reg_word_bound r placed = elim (Bool-cases (ltb (reg_word r) 61952)) [
  | inl lt ↦ ltb-true→lt _ _ lt
  | inr ge ↦
      let absent : reg_at (reg_word r) ≡ none = reg_at_beyond _ (ltb-false→le _ _ ge) in
      let present = reg_at-reg_word r placed in absurd cc
]

-- The registers of `rings` lie over those of a transmit and of a receive queue.
rings_overlay :
    (map (offset udma_rings_regs) ("drbp_low" ∷ "drbp_high" ∷ "drl" ∷ "drhp" ∷ "drtp_inc" ∷ [])
      ≡ map (offset udma_m2s_q) ("tdrbp_low" ∷ "tdrbp_high" ∷ "tdrl" ∷ "tdrhp" ∷ "tdrtp_inc" ∷ []))
    × (map (offset udma_rings_regs) ("drbp_low" ∷ "drbp_high" ∷ "drl" ∷ "drhp" ∷ "drtp_inc" ∷ [])
        ≡ map
            (offset udma_s2m_q)
            ("rdrbp_low" ∷ "rdrbp_high" ∷ "rdrl" ∷ "rdrhp" ∷ "rdrtp_inc" ∷ []))
unfolding offset words
rings_overlay = (refl, refl)

-- The structs of the two directions have the sizes that `unit_regs_v4` leaves for them.
sizes_fit :
    (words udma_m2s_q ≡ words udma_s2m_q)
    × (4 * words udma_m2s_regs_v4 ≤ 0x20000)
    × (4 * words udma_s2m_regs_v4 ≤ 0x18000)
    × (4 * words unit_regs_v4 ≤ 0x40000)
unfolding words
sizes_fit = (refl, omega arith, omega arith, omega arith)
