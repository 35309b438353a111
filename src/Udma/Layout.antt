-- ===== src/Udma/Layout.antt =====
-- The layout of an engine's registers: the structs of udma/udma_regs.h, field by field.
-- Every field is of words of 32 bits, so no padding stands between fields.
use Prim.Native.String.{String}
use text.Mathlib.Text.{◌==◌}
use aws_neuron_driver.Common.{ℕ, List, [], ◌∷◌, ◌+◌, ◌-◌, ◌*◌, ◌/◌, if◌then◌else◌}
pub mod Registers
pub mod Windows

-- A field with its name and its number of words, or reserved words.
pub data Item : Type 0 where
  field : String → (words : ℕ) → Item
  reserved : (words : ℕ) → Item

-- `sizeof` in words.
unfoldable pub words : List Item → ℕ
words [] = 0
words (field name n ∷ s) = n + words s
words (reserved n ∷ s) = n + words s

-- `offsetof` in words, for a field that is there.
unfoldable pub offset : List Item → String → ℕ
offset [] name = 0
offset (field f n ∷ s) name = let rest : ℕ = offset s name in if f == name then 0 else n + rest
offset (reserved n ∷ s) name = n + offset s name

abbrev pub word : String → Item
word name = field name 1

abbrev pub struct : String → List Item → Item
struct name s = field name (words s)

abbrev pub array : String → (count : ℕ) → List Item → Item
array name count s = field name (count * words s)

abbrev pub udma_axi_m2s : List Item
udma_axi_m2s = reserved 9 ∷ word "ostand_cfg" ∷ reserved 54 ∷ []

abbrev pub udma_m2s : List Item
udma_m2s = word "state" ∷ word "change_state" ∷ reserved 19 ∷ word "cfg_len" ∷ reserved 42 ∷ []

abbrev pub udma_m2s_rd : List Item
udma_m2s_rd =
    word "desc_pref_cfg_1"
    ∷ word "desc_pref_cfg_2"
    ∷ word "desc_pref_cfg_3"
    ∷ reserved 1
    ∷ word "data_cfg"
    ∷ reserved 11
    ∷ []

abbrev pub udma_rlimit_common : List Item
udma_rlimit_common = reserved 5 ∷ word "mask" ∷ []

abbrev udma_m2s_stream_rate_limiter : List Item
udma_m2s_stream_rate_limiter = struct "rlimit" udma_rlimit_common ∷ reserved 10 ∷ []

abbrev pub udma_m2s_comp : List Item
udma_m2s_comp = reserved 2 ∷ word "cfg_application_ack" ∷ reserved 61 ∷ []

abbrev pub udma_m2s_feature : List Item
udma_m2s_feature = reserved 1 ∷ word "dma_version" ∷ reserved 62 ∷ []

abbrev pub udma_m2s_q : List Item
udma_m2s_q =
    word "desc_pref_cfg"
    ∷ reserved 7
    ∷ word "cfg"
    ∷ word "status"
    ∷ word "tdrbp_low"
    ∷ word "tdrbp_high"
    ∷ word "tdrl"
    ∷ word "tdrhp"
    ∷ word "tdrtp_inc"
    ∷ word "tdrtp"
    ∷ word "tdcp"
    ∷ word "tcrbp_low"
    ∷ word "tcrbp_high"
    ∷ word "tcrhp"
    ∷ reserved 4
    ∷ struct "rlimit" udma_rlimit_common
    ∷ reserved 10
    ∷ word "comp_cfg"
    ∷ reserved 3
    ∷ word "q_sw_ctrl"
    ∷ reserved 979
    ∷ []

abbrev pub udma_m2s_regs_v4 : List Item
udma_m2s_regs_v4 =
    reserved 64
    ∷ struct "axi_m2s" udma_axi_m2s
    ∷ struct "m2s" udma_m2s
    ∷ struct "m2s_rd" udma_m2s_rd
    ∷ reserved 32
    ∷ struct "m2s_stream_rate_limiter" udma_m2s_stream_rate_limiter
    ∷ struct "m2s_comp" udma_m2s_comp
    ∷ reserved 64
    ∷ struct "m2s_feature" udma_m2s_feature
    ∷ reserved 576
    ∷ array "m2s_q" 16 udma_m2s_q
    ∷ []

abbrev pub udma_axi_s2m : List Item
udma_axi_s2m = reserved 9 ∷ word "ostand_cfg_rd" ∷ word "ostand_cfg_wr" ∷ reserved 53 ∷ []

abbrev pub udma_s2m : List Item
udma_s2m = word "state" ∷ word "change_state" ∷ reserved 18 ∷ word "stream_cfg" ∷ reserved 43 ∷ []

abbrev udma_s2m_rd : List Item
udma_s2m_rd =
    word "desc_pref_cfg_1"
    ∷ word "desc_pref_cfg_2"
    ∷ word "desc_pref_cfg_3"
    ∷ word "desc_pref_cfg_4"
    ∷ reserved 12
    ∷ []

abbrev pub udma_s2m_comp : List Item
udma_s2m_comp = word "cfg_1c" ∷ reserved 2 ∷ word "cfg_application_ack" ∷ reserved 12 ∷ []

abbrev pub udma_s2m_q : List Item
udma_s2m_q =
    reserved 8
    ∷ word "cfg"
    ∷ word "status"
    ∷ word "rdrbp_low"
    ∷ word "rdrbp_high"
    ∷ word "rdrl"
    ∷ word "rdrhp"
    ∷ word "rdrtp_inc"
    ∷ word "rdrtp"
    ∷ word "rdcp"
    ∷ word "rcrbp_low"
    ∷ word "rcrbp_high"
    ∷ word "rcrhp"
    ∷ reserved 1
    ∷ word "comp_cfg"
    ∷ reserved 3
    ∷ word "q_sw_ctrl"
    ∷ reserved 998
    ∷ []

abbrev pub udma_s2m_regs_v4 : List Item
udma_s2m_regs_v4 =
    reserved 64
    ∷ struct "axi_s2m" udma_axi_s2m
    ∷ struct "s2m" udma_s2m
    ∷ struct "s2m_rd" udma_s2m_rd
    ∷ reserved 16
    ∷ struct "s2m_comp" udma_s2m_comp
    ∷ reserved 784
    ∷ array "s2m_q" 16 udma_s2m_q
    ∷ []

abbrev pub iofic_grp_ctrl : List Item
iofic_grp_ctrl =
    word "int_cause_grp"
    ∷ reserved 1
    ∷ word "int_cause_set_grp"
    ∷ reserved 1
    ∷ word "int_mask_grp"
    ∷ reserved 1
    ∷ word "int_mask_clear_grp"
    ∷ reserved 1
    ∷ word "int_status_grp"
    ∷ reserved 1
    ∷ word "int_control_grp"
    ∷ reserved 1
    ∷ word "int_abort_msk_grp"
    ∷ reserved 3
    ∷ []

-- The groups overlay the reserved words: `ctrl` is an array of none.
abbrev iofic_regs : List Item
iofic_regs = array "ctrl" 0 iofic_grp_ctrl ∷ reserved (0x400 / 4) ∷ []

abbrev pub udma_iofic_regs : List Item
udma_iofic_regs =
    struct "main_iofic" iofic_regs
    ∷ reserved (0x1c00 / 4)
    ∷ array "secondary_iofic_ctrl" 2 iofic_grp_ctrl
    ∷ []

abbrev pub udma_gen_axi : List Item
udma_gen_axi = word "cfg_1" ∷ reserved 63 ∷ []

abbrev pub udma_gen_spare_reg : List Item
udma_gen_spare_reg = word "zeroes0" ∷ word "zeroes1" ∷ word "ones0" ∷ word "ones1" ∷ []

abbrev pub udma_gen_regs_v4 : List Item
udma_gen_regs_v4 =
    struct "interrupt_regs" udma_iofic_regs
    ∷ reserved 112
    ∷ struct "axi" udma_gen_axi
    ∷ reserved 1048
    ∷ struct "spare_reg" udma_gen_spare_reg
    ∷ []

abbrev pub udma_gen_ex_vmpr_v4 : List Item
udma_gen_ex_vmpr_v4 = word "tx_sel" ∷ field "rx_sel" 3 ∷ reserved 12 ∷ []

abbrev pub udma_gen_ex_regs : List Item
udma_gen_ex_regs = reserved 0x100 ∷ array "vmpr_v4" 16 udma_gen_ex_vmpr_v4 ∷ []

abbrev pub unit_regs_v4 : List Item
unit_regs_v4 =
    struct "m2s" udma_m2s_regs_v4
    ∷ reserved ((0x20000 - 4 * words udma_m2s_regs_v4) / 4)
    ∷ struct "s2m" udma_s2m_regs_v4
    ∷ reserved ((0x38000 - 0x20000 - 4 * words udma_s2m_regs_v4) / 4)
    ∷ struct "gen" udma_gen_regs_v4
    ∷ reserved ((0x3c000 - 0x38000 - 4 * words udma_gen_regs_v4) / 4)
    ∷ struct "gen_ex" udma_gen_ex_regs
    ∷ []

abbrev pub udma_rings_regs : List Item
udma_rings_regs =
    reserved 8
    ∷ word "cfg"
    ∷ word "status"
    ∷ word "drbp_low"
    ∷ word "drbp_high"
    ∷ word "drl"
    ∷ word "drhp"
    ∷ word "drtp_inc"
    ∷ word "drtp"
    ∷ word "dcp"
    ∷ word "crbp_low"
    ∷ word "crbp_high"
    ∷ word "crhp"
    ∷ reserved 1
    ∷ []
