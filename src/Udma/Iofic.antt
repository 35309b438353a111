-- ===== src/Udma/Iofic.antt =====
-- The error interrupts of an engine, udma/udma_iofic.c: which of them abort the engine, and which are
-- unmasked.
use aws_neuron_driver.Common.{
  ℕ, Bool, true, false, Option, none, some, List, [], ◌∷◌, bit_and, bit_or, not32, ◌<<<◌, ltb,
  if◌then◌else◌, M, ok, ◌>>=◌, ◌>>◌, pure,
}
use aws_neuron_driver.Udma.Types.{
  Engine, Host, Reg, iofic_reg, int_control_grp, int_mask_clear_grp, int_abort_msk_grp, reg_write32,
  reg_read32,
}

-- A mask from its bits.
abbrev mask_of : List ℕ → ℕ
mask_of [] = 0
mask_of (b ∷ bs) = bit_or (1 <<< b) (mask_of bs)

-- The bits of the error interrupts of the secondary controller, by its groups.
abbrev group_a_bits : List ℕ
group_a_bits =
    27 ∷ 26 ∷ 25 ∷ 24 ∷ 23 ∷ 22 ∷ 21 ∷ 20 ∷ 19 ∷ 18 ∷ 17 ∷ 16 ∷ 15 ∷ 14 ∷ 13 ∷ 12 ∷ 11 ∷ 10 ∷ 9 ∷ 8
    ∷ 7 ∷ 6 ∷ 5 ∷ 4 ∷ 3 ∷ 2 ∷ 1 ∷ 0 ∷ []

abbrev group_b_bits : List ℕ
group_b_bits =
    31 ∷ 30 ∷ 29 ∷ 28 ∷ 27 ∷ 26 ∷ 25 ∷ 24 ∷ 23 ∷ 22 ∷ 21 ∷ 20 ∷ 19 ∷ 18 ∷ 17 ∷ 16 ∷ 15 ∷ 14 ∷ 13
    ∷ 11 ∷ 10 ∷ 9 ∷ 8 ∷ 2 ∷ 1 ∷ 0 ∷ []

abbrev group_c_bits : List ℕ × List ℕ
group_c_bits = (0 ∷ 1 ∷ 2 ∷ 3 ∷ 4 ∷ 5 ∷ [], 6 ∷ 7 ∷ 8 ∷ 9 ∷ 10 ∷ 11 ∷ [])

-- UDMA_IOFIC_2ND_GROUP_A_ERROR_INTS
abbrev group_a_error_ints : ℕ
group_a_error_ints = mask_of group_a_bits

-- UDMA_V4_IOFIC_2ND_GROUP_B_ERROR_INTS
abbrev group_b_error_ints : ℕ
group_b_error_ints = mask_of group_b_bits

-- UDMA_V4_IOFIC_2ND_GROUP_C_M2S_ERROR_INTS and UDMA_V4_IOFIC_2ND_GROUP_C_S2M_ERROR_INTS
abbrev group_c_m2s_error_ints : ℕ
group_c_m2s_error_ints = mask_of group_c_bits.0

abbrev group_c_s2m_error_ints : ℕ
group_c_s2m_error_ints = mask_of group_c_bits.1

-- The summary bits of the primary controller's group D.
abbrev primary_m2s : ℕ
primary_m2s = bit_or (1 <<< 8) (1 <<< 10)

abbrev primary_s2m : ℕ
primary_s2m = bit_or (1 <<< 9) (1 <<< 10)

-- INT_CONTROL_GRP_SET_ON_POSEDGE | INT_CONTROL_GRP_MASK_MSI_X
abbrev control_flags : ℕ
control_flags = bit_or (1 <<< 3) (1 <<< 5)

-- `iofic_config` of a group of the primary or of the secondary controller
unfoldable pub iofic_config : (secondary : Bool) (group flags : ℕ) → M Engine (Unit {0})
unfolding reg_write32
iofic_config secondary group flags = reg_write32 (iofic_reg secondary group int_control_grp) flags

-- `iofic_unmask`
unfoldable pub iofic_unmask : (secondary : Bool) (group mask : ℕ) → M Engine (Unit {0})
unfolding reg_write32
iofic_unmask secondary group mask =
    reg_write32 (iofic_reg secondary group int_mask_clear_grp) (not32 mask)

-- `udma_iofic_level_and_group_valid` for a group that is not negative
unfoldable pub level_and_group_valid : (rev_id : ℕ) (secondary : Bool) (group : ℕ) → Bool
level_and_group_valid rev_id false group = ltb group 4
level_and_group_valid rev_id true group = ltb group (if ltb rev_id 4 then 2 else 3)

-- `udma_iofic_unmask_adv`
unfoldable pub iofic_unmask_adv : (secondary : Bool) (group mask : ℕ) → M Engine (Unit {0})
unfolding iofic_unmask level_and_group_valid
iofic_unmask_adv secondary group mask = λ m.
    if level_and_group_valid m.udma.rev_id secondary group
    then iofic_unmask secondary group mask m
    else ok tt m

module _ (h : Host) where
  -- The write of `reg_write32_masked`, which a failed read skips.
  unfoldable pub masked_over : Reg → (mask value : ℕ) → Option ℕ → M Engine (Unit {0})
  unfolding reg_write32
  masked_over r mask value none = pure tt
  masked_over r mask value (some temp) =
      reg_write32 r (bit_or (bit_and mask value) (bit_and (not32 mask) temp))

  -- `iofic_abort_mask_clear`
  unfoldable pub iofic_abort_mask_clear : (secondary : Bool) (group mask : ℕ) → M Engine (Unit {0})
  unfolding masked_over reg_read32
  iofic_abort_mask_clear secondary group mask = do
    temp ← reg_read32 h (iofic_reg secondary group int_abort_msk_grp)
    masked_over (iofic_reg secondary group int_abort_msk_grp) mask (not32 mask) temp

  -- `udma_iofic_m2s_error_ints_unmask`
  unfoldable pub iofic_m2s_error_ints_unmask : M Engine (Unit {0})
  iofic_m2s_error_ints_unmask = do
    iofic_config true 0 control_flags
    iofic_config false 3 control_flags
    iofic_abort_mask_clear true 0 group_a_error_ints
    iofic_abort_mask_clear true 2 group_c_m2s_error_ints
    iofic_unmask_adv true 0 group_a_error_ints
    iofic_unmask_adv true 2 group_c_m2s_error_ints
    iofic_unmask_adv false 3 primary_m2s

  -- `udma_iofic_s2m_error_ints_unmask`
  unfoldable pub iofic_s2m_error_ints_unmask : M Engine (Unit {0})
  iofic_s2m_error_ints_unmask = do
    iofic_config true 1 control_flags
    iofic_config false 3 control_flags
    iofic_abort_mask_clear true 1 group_b_error_ints
    iofic_abort_mask_clear true 2 group_c_s2m_error_ints
    iofic_unmask_adv true 1 group_b_error_ints
    iofic_unmask_adv true 2 group_c_s2m_error_ints
    iofic_unmask_adv false 3 primary_s2m
