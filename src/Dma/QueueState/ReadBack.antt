-- ===== src/Dma/QueueState/ReadBack.antt =====
-- The state that is read of a queue that has just been brought up.
use aws_neuron_driver.Common.{ℕ, Bool, true, false, List, ◌∷◌, some, ◌≡◌, ◌≢◌}
use aws_neuron_driver.Udma.Types.{
  UdmaType, QueueReg, Udma, UdmaQParams, Engine, Host, Reg, queue_reg, Event, reg_read, reg_write,
}
use aws_neuron_driver.Udma.Layout.Registers.{reg_word}
use aws_neuron_driver.Dma.QueueState.{QueueState}

-- The registers that hold where a ring is and how long it is; the hardware does not change them.
unfoldable pub holds_ring : QueueReg → Bool
holds_ring QueueReg.drbp_low = true
holds_ring QueueReg.drbp_high = true
holds_ring QueueReg.drl = true
holds_ring q = false

-- Hardware whose ring registers give what was last written to their word.
pub record Remembers (h : Host) : Type 0 where
  pub written :
      (t : UdmaType) (i : ℕ) (q : QueueReg)
      → holds_ring q ≡ true
      → (v : ℕ) (trace : List Event)
      → h.reg_value (reg_write (queue_reg t i q) v ∷ trace) (queue_reg t i q) ≡ some v
  pub after_write :
      (t : UdmaType) (i : ℕ) (q : QueueReg)
      → holds_ring q ≡ true
      → (r : Reg) (v : ℕ) (trace : List Event) → reg_word r ≢ reg_word (queue_reg t i q)
      → h.reg_value (reg_write r v ∷ trace) (queue_reg t i q) ≡ h.reg_value trace (queue_reg t i q)
  pub after_read :
      (t : UdmaType) (i : ℕ) (q : QueueReg)
      → holds_ring q ≡ true
      → (r : Reg) (trace : List Event)
      → h.reg_value (reg_read r ∷ trace) (queue_reg t i q) ≡ h.reg_value trace (queue_reg t i q)

module _ (h : Host) (hr : Remembers h) where
  module _ (p : UdmaQParams) (qid : ℕ) (rest : List Event) where
    abbrev at : QueueReg → Reg
    at = queue_reg p.queue_type qid
