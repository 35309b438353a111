-- ===== src/Udma/Layout/Windows.antt =====
-- The windows of the engines in BAR0, `ndmar_eng_init`, and the registers in them.
use aws_neuron_driver.Common.{ℕ, ◌+◌, ◌*◌, ◌≡◌, arith}
use aws_neuron_driver.Udma.Types.{Reg}
use aws_neuron_driver.Udma.Layout.Registers.{reg_word, IsPlaced, reg_word_injective, reg_word_bound}
use aws_neuron_driver.Rings.Tdma.{udma_base}

-- The address at which the driver reaches a register of engine `eng_id`.
unfoldable pub reg_address : (bar0 eng_id : ℕ) → Reg → ℕ
unfolding udma_base
reg_address bar0 eng_id r = udma_base bar0 eng_id + 4 * reg_word r

-- Two registers of any two engines, their queues, groups and indices in range, that have the same
-- address are the same register of the same engine.
pub reg_address_injective :
    (bar0 e f : ℕ) (r s : Reg)
    → IsPlaced r
    → IsPlaced s
    → reg_address bar0 e r ≡ reg_address bar0 f s
    → (e ≡ f) × (r ≡ s)
unfolding reg_address udma_base
reg_address_injective bar0 e f r s placed_r placed_s eq =
    let bound_r = reg_word_bound r placed_r in
    let bound_s = reg_word_bound s placed_s in
    let same_engine : e ≡ f = omega arith in
    let same_word : reg_word r ≡ reg_word s = omega arith in
    (same_engine, reg_word_injective r s placed_r placed_s same_word)
