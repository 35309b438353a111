-- ===== src/Udma/Init/Laws.antt =====
-- What an accepted queue is after `udma_q_init`, and what is refused.
use aws_neuron_driver.Common.{
  ℕ, List, ◌∷◌, ◌-◌, ◌%◌, ◌^◌, ◌≤◌, ◌<◌, bit_and, ◌≡◌, ◌≢◌, ◌⊎◌, refl, sym, ◌∙◌, arith, ◌>>=◌, inl,
  inr, ok, bug,
}
use native.Mathlib.Decide.{dec_lt, ℕ_discrete}
use native.Mathlib.Nat.{pow-le-pow_right, zero-mod, zero-div}
use aws_neuron_driver.Common.Masks.{bit_and-mask, two-pow_of_bit_and, bit_and_of_two-pow}
use aws_neuron_driver.Udma.Types.{
  UdmaType, UdmaQ, Udma, UdmaQParams, Engine, Host, Reg, queue_reg, QueueReg, queue, Event,
  reg_write, with_queue,
}
use aws_neuron_driver.Udma.Init.{
  q_init_validate, q_init_internal, q_init, fresh_queue, addr_low, addr_high,
}
use aws_neuron_driver.Udma.Init.Frame.{queue-with_queue, queue-with_queue_other}
use aws_neuron_driver.Udma.Ring.View.{Tracks, size_bounds}

-- The registers that a queue without a completion ring is set up by, in order.
unfoldable pub setup_trace : UdmaQParams → ℕ → List Event → List Event
setup_trace p qid rest =
    let at : QueueReg → Reg = queue_reg p.queue_type qid in
    reg_write (at QueueReg.comp_cfg) 0
    ∷ reg_write (at QueueReg.drl) p.size
    ∷ reg_write (at QueueReg.drbp_high) (addr_high p.desc_phy_base)
    ∷ reg_write (at QueueReg.drbp_low) (addr_low p.desc_phy_base)
    ∷ reg_write (at QueueReg.q_sw_ctrl) 256
    ∷ rest

-- The queue that is left behind.
ready_queue : Udma → ℕ → UdmaQParams → UdmaQ
unfolding fresh_queue
ready_queue u qid p = record (fresh_queue u qid p (queue u p.queue_type qid)) { flags = 2 }

-- The engine that is left behind.
ready_engine : ℕ → UdmaQParams → Engine → Engine
unfolding ready_queue setup_trace
ready_engine qid p m =
    let t = p.queue_type in
    let started : Udma = with_queue m.udma t qid (fresh_queue m.udma qid p (queue m.udma t qid)) in
    record {
      udma = with_queue started t qid (ready_queue m.udma qid p);
      trace = setup_trace p qid m.trace;
    }

low_bits : (a : ℕ) → a % 64 ≡ 0 → bit_and (addr_low a) 0x3f ≡ 0
low_bits a e = omega (arith, bit_and-mask 6 (addr_low a))

init-ready_engine :
    (h : Host) (qid : ℕ) (p : UdmaQParams) (m : Engine)
    → p.cdesc_base ≡ 0
    → p.desc_phy_base % 64 ≡ 0
    → q_init_internal h qid p m ≡ ok tt (ready_engine qid p m)
unfolding q_init_internal ready_engine
init-ready_engine h qid p m no_comp aligned = ground (arith, low_bits p.desc_phy_base aligned)

-- What `udma_q_init_validate` asks of a queue.
pub record Accepts (u : Udma) (qid : ℕ) (p : UdmaQParams) (k : ℕ) : Type 0 where
  pub in_range : qid < u.num_of_queues
  pub least : 5 ≤ k
  pub most : k ≤ 24
  pub power : p.size ≡ 2 ^ k
  pub completion : ((queue u p.queue_type qid).cdesc_base_ptr ≡ 0) ⊎ (u.cdesc_size ≢ 0)

size_test : (k : ℕ) (s : ℕ) → s ≡ 2 ^ k → bit_and s (s - 1) ≡ 0
size_test k s e = rw e (bit_and_of_two-pow k)

-- `udma_q_init_validate` accepts every queue that exists, has 2 ^ k descriptors, 5 to 24 for k,
-- and has no completion ring left over on an engine without completions, and changes nothing.
validate-Accepts :
    {qid : ℕ} {p : UdmaQParams} {k : ℕ} (m : Engine)
    → Accepts m.udma qid p k
    → q_init_validate qid p m ≡ ok tt m
unfolding q_init_validate
validate-Accepts {p} {k} m a =
    ground (arith, size_bounds k a.least a.most, size_test k p.size a.power)

exponent_bounds : (k : ℕ) → 32 ≤ 2 ^ k → 2 ^ k ≤ 2 ^ 24 → (5 ≤ k) × (k ≤ 24)
exponent_bounds k lo hi = (at_least, at_most)
  where
    at_least : 5 ≤ k
    at_least = elim (dec_lt k 5) [
      | yes small ↦
          absurd
            (omega (arith, pow-le-pow_right {n = 2} (omega arith) {i = k} {j = 4} (omega arith)))
      | no large ↦ omega arith
    ]

    at_most : k ≤ 24
    at_most = elim (dec_lt 24 k) [
      | yes large ↦
          absurd (omega (arith, pow-le-pow_right {n = 2} (omega arith) {i = 25} {j = k} large))
      | no small ↦ omega arith
    ]

completion_ok :
    (qid : ℕ) (p : UdmaQParams) (m : Engine)
    → q_init_validate qid p m ≡ ok tt m
    → ((queue m.udma p.queue_type qid).cdesc_base_ptr ≡ 0) ⊎ (m.udma.cdesc_size ≢ 0)
unfolding q_init_validate
completion_ok qid p m e = elim (ℕ_discrete (queue m.udma p.queue_type qid).cdesc_base_ptr 0) [
  | yes none_there ↦ inl none_there
  | no there ↦ inr (ground arith)
]

-- A queue that `udma_q_init_validate` accepts exists, has a size that is a power of two from 32
-- to 2 ^ 24, and has no completion ring left over on an engine without completions.
Accepts-of_validate :
    (qid : ℕ) (p : UdmaQParams) (m : Engine)
    → q_init_validate qid p m ≡ ok tt m
    → (k : ℕ) × Accepts m.udma qid p k
unfolding q_init_validate
Accepts-of_validate qid p m e =
    let size_ok : bit_and p.size (p.size - 1) ≡ 0 = ground arith in
    let positive : p.size ≢ 0 = ground arith in
    let large : 32 ≤ p.size = ground arith in
    let small : p.size ≤ 2 ^ 24 = ground arith in
    let (k, power) = two-pow_of_bit_and p.size positive size_ok in
    let bounds = exponent_bounds k (rw power at large) (rw power at small) in
    (
      k,
      record {
        in_range = ground arith;
        least = bounds.0;
        most = bounds.1;
        power = power;
        completion = completion_ok qid p m e;
      },
    )

-- A queue that is ready: an empty ring, and nothing else touched.
pub record IsReady (m m' : Engine) (qid : ℕ) (p : UdmaQParams) (k : ℕ) : Type 0 where
  pub tracks : Tracks (queue m'.udma p.queue_type qid) k 0 0
  pub memory : (queue m'.udma p.queue_type qid).desc_base_ptr ≡ p.desc_base
  pub allocatable : (queue m'.udma p.queue_type qid).is_allocatable ≡ p.allocatable
  pub others :
      (t : UdmaType) (j : ℕ) → (t ≢ p.queue_type) ⊎ (j ≢ qid) → queue m'.udma t j ≡ queue m.udma t j
  pub queues : m'.udma.num_of_queues ≡ m.udma.num_of_queues
  pub completions : m'.udma.cdesc_size ≡ m.udma.cdesc_size
  pub setup : m'.trace ≡ setup_trace p qid m.trace

ready_queue-Tracks :
    (qid : ℕ) (p : UdmaQParams) (k : ℕ) (u : Udma)
    → Accepts u qid p k
    → Tracks (ready_queue u qid p) k 0 0
unfolding ready_queue
ready_queue-Tracks qid p k u a = record {
  least = a.least;
  most = a.most;
  size_is = a.power;
  mask_is = rw a.power;
  next_desc = sym (zero-mod (2 ^ k));
  next_cdesc = sym (zero-mod (2 ^ k));
  phase = rw zero-div;
  order = omega arith;
  room = omega (arith, size_bounds k a.least a.most);
}

ready_engine-IsReady :
    (qid : ℕ) (p : UdmaQParams) (k : ℕ) (m : Engine)
    → Accepts m.udma qid p k
    → IsReady m (ready_engine qid p m) qid p k
unfolding ready_engine
ready_engine-IsReady qid p k m a = record {
  tracks = rw queue-with_queue (ready_queue-Tracks qid p k m.udma a);
  memory = ground arith;
  allocatable = ground arith;
  others = λ t j d.
      queue-with_queue_other _ p.queue_type qid _ t j d
      ∙ queue-with_queue_other _ p.queue_type qid _ t j d;
  queues = ground arith;
  completions = ground arith;
  setup = refl;
}

-- An accepted queue without completion ring whose descriptors are at a 64-byte aligned address
-- comes up with an empty ring of its size, at its address, its registers set up in order, and no
-- other queue touched.
pub q_init-IsReady :
    (h : Host) (qid : ℕ) (p : UdmaQParams) (k : ℕ) (m : Engine)
    → Accepts m.udma qid p k
    → p.cdesc_base ≡ 0
    → p.desc_phy_base % 64 ≡ 0
    → (m' : Engine) × (q_init h qid p m ≡ ok tt m') × IsReady m m' qid p k
unfolding q_init
q_init-IsReady h qid p k m a no_comp aligned = (
  ready_engine qid p m,
  rw (validate-Accepts m a, ◌>>=◌) (init-ready_engine h qid p m no_comp aligned),
  ready_engine-IsReady qid p k m a,
)

-- A queue with a completion ring, on an engine with completion descriptors, always stops at the
-- `BUG_ON` of `udma_q_reset`.
pub q_init_with_completion :
    (h : Host) (qid : ℕ) (p : UdmaQParams) (k : ℕ) (m : Engine)
    → Accepts m.udma qid p k
    → p.cdesc_base ≢ 0
    → m.udma.cdesc_size ≢ 0
    → q_init h qid p m ≡ bug
unfolding q_init
q_init_with_completion h qid p k m a comp size =
    rw (validate-Accepts m a, ◌>>=◌) (unfold q_init_internal in ground arith)
