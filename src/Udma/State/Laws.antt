-- ===== src/Udma/State/Laws.antt =====
-- What the state of an engine is made of.
use aws_neuron_driver.Common.{
  ℕ, zero, suc, ◌-◌, Bool, true, false, ◌&&◌, ◌||◌, List, [], ◌∷◌, some, ◌+◌, ◌*◌, ◌/◌, ◌%◌, ◌^◌,
  ◌≡◌, refl, ◌∙◌, ap, arith, bit_and, ◌==◌, ◌!=◌, if◌then◌else◌, ok, ◌>>=◌, Bool-cases, inl, inr,
}
use aws_neuron_driver.Common.Masks.{bit_and-mask, bit_and-shift}
use aws_neuron_driver.Udma.Types.{
  UdmaType, tx, rx, UdmaState, idle, normal, abort, Engine, Host, Reg, queue_reg, QueueReg,
  m2s_state, s2m_state, s2m_stream_cfg, Event, reg_read, reg_read32,
}
use aws_neuron_driver.Udma.State.{
  enable_bits, en_stream, stream_flush, field, state_of, q_is_enabled, queue_streams, differs,
  s2m_stream_status_get, state_get,
}

-- The two bits of a state register from bit `4 * i` on: the state of one of its machines.
unfoldable pub machine : (reg i : ℕ) → ℕ
machine reg i = reg / 2 ^ (4 * i) % 4

-- The machines that count: the stream interface, machine 1, only while the stream is on.
unfoldable monitored : (stream_enabled : Bool) (reg : ℕ) → List ℕ
monitored true reg = machine reg 0 ∷ machine reg 1 ∷ machine reg 2 ∷ machine reg 3 ∷ []
monitored false reg = machine reg 0 ∷ machine reg 2 ∷ machine reg 3 ∷ []

unfoldable pub has : ℕ → List ℕ → Bool
has x [] = false
has x (y ∷ ys) = (y == x) || has x ys

-- Abort wins over normal, normal over idle.
unfoldable overall : List ℕ → UdmaState
unfolding has
overall machines = if has 2 machines then abort else if has 1 machines then normal else idle

field-machine :
    (reg i mask : ℕ) → mask / 2 ^ (4 * i) ≡ 2 ^ 2 - 1 → field reg mask (4 * i) ≡ machine reg i
unfolding machine
field-machine reg i mask e =
    bit_and-shift (4 * i) reg mask
    ∙ ap (λ t. bit_and (reg / 2 ^ (4 * i)) t) e
    ∙ bit_and-mask 2 (reg / 2 ^ (4 * i))

state_of-overall :
    (stream_enabled : Bool) (reg : ℕ)
    → state_of stream_enabled reg ≡ overall (monitored stream_enabled reg)
unfolding state_of overall monitored
state_of-overall true reg =
    rw
      (
        field-machine reg 0 0x3 refl,
        field-machine reg 1 0x30 refl,
        field-machine reg 2 0x300 refl,
        field-machine reg 3 0x3000 refl,
      )
      (ground arith)
state_of-overall false reg =
    rw
      (
        field-machine reg 0 0x3 refl,
        field-machine reg 2 0x300 refl,
        field-machine reg 3 0x3000 refl,
      )
      (ground arith)

-- A host whose registers can be read and keep their values.
pub record Steady (h : Host) (regs : Reg → ℕ) : Type 0 where
  pub reads : (t : List Event) (r : Reg) → h.reg_value t r ≡ some (regs r)

-- An enabled receive queue, of `n` from queue `i` on, has its stream on.
unfoldable streaming : (Reg → ℕ) → (n i : ℕ) → Bool
streaming regs zero i = false
streaming regs (suc n) i =
    let cfg : ℕ = regs (queue_reg rx i QueueReg.cfg) in
    ((bit_and cfg enable_bits != 0) && (bit_and cfg en_stream != 0)) || streaming regs n (i + 1)

-- Not all of the flush bits are set, or a queue is streaming.
unfoldable stream_on : (Reg → ℕ) → ℕ → Bool
unfolding streaming
stream_on regs n =
    (bit_and (regs s2m_stream_cfg) stream_flush != stream_flush) || streaming regs n 0

-- The scan of the queues finds whether one is streaming, having met an enabled one if so, and reads
-- registers only.
queue_streams-streaming :
    (h : Host) (regs : Reg → ℕ)
    → Steady h regs
    → (n i : ℕ) (valid : Bool) (m : Engine)
    → (v : Bool) × (t : List Event) × (queue_streams h n i valid m
        ≡ ok (v, streaming regs n i) (record m { trace = t }))
      × (streaming regs n i ≡ true → v ≡ true)
unfolding queue_streams q_is_enabled streaming reg_read32
queue_streams-streaming h regs s zero i valid m = (valid, m.trace, refl, λ e. cc)
queue_streams-streaming h regs s (suc n) i valid m =
    let r : Reg = queue_reg rx i QueueReg.cfg in
    let t1 : List Event = reg_read r ∷ m.trace in
    let first = s.reads m.trace r in
    let second = s.reads t1 r in
    elim (Bool-cases (bit_and (regs r) enable_bits != 0)) [
      | inl on ↦ elim (Bool-cases (bit_and (regs r) en_stream != 0)) [
        | inl streams ↦
            (true, reg_read r ∷ t1, rw (first, ◌>>=◌, on, second, streams) refl, λ e. refl)
        | inr still ↦
            let (v, t, runs, met) =
              queue_streams-streaming h regs s n (i + 1) true
                (record m { trace = reg_read r ∷ t1 }) in
            (v, t, rw (first, ◌>>=◌, on, second, still) runs, rw (on, still) met)
      ]
      | inr off ↦
          let (v, t, runs, met) =
            queue_streams-streaming h regs s n (i + 1) valid (record m { trace = t1 }) in
          (v, t, rw (first, ◌>>=◌, off) runs, rw off met)
    ]

-- The last test of the stream status.
status_of :
    (v streams status : Bool)
    → (streams ≡ true → v ≡ true)
    → (if v && differs streams status then true else status) ≡ status || streams
status_of v true true met = ground arith
status_of v true false met = rw (met refl) refl
status_of true false true met = refl
status_of true false false met = refl
status_of false false true met = refl
status_of false false false met = refl

-- With registers that can be read and keep their values, `udma_s2m_stream_status_get` is true
-- just if not all of the flush bits are set or an enabled receive queue has its stream on.
stream_status-stream_on :
    (h : Host) (regs : Reg → ℕ)
    → Steady h regs
    → (m : Engine)
    → (t : List Event) × (s2m_stream_status_get h m
        ≡ ok (stream_on regs m.udma.num_of_queues) (record m { trace = t }))
unfolding s2m_stream_status_get stream_on reg_read32
stream_status-stream_on h regs s m =
    let n : ℕ = m.udma.num_of_queues in
    let m1 : Engine = record m { trace = reg_read s2m_stream_cfg ∷ m.trace } in
    let (v, t, runs, met) = queue_streams-streaming h regs s n 0 false m1 in
    let status : Bool = bit_and (regs s2m_stream_cfg) stream_flush != stream_flush in
    (
      t,
      rw (s.reads m.trace s2m_stream_cfg, ◌>>=◌, runs, ◌>>=◌)
          (ap (λ b. ok b (record m { trace = t })) (status_of v (streaming regs n 0) status met)),
    )

-- The state register of a direction, and the machines that count in it.
unfoldable seen_state : (Reg → ℕ) → (n : ℕ) → UdmaType → UdmaState
unfolding overall monitored stream_on
seen_state regs n tx = overall (monitored true (regs m2s_state))
seen_state regs n rx = overall (monitored (stream_on regs n) (regs s2m_state))

-- With registers that can be read and keep their values, `udma_state_get` is abort if one of the
-- machines that count is aborting, else normal if one of them is normal, else idle; the machines
-- are two-bit fields of the state register of the direction, and the stream interface counts
-- always for transmission, and for reception only while its stream is on.
state_get-seen_state :
    (h : Host) (regs : Reg → ℕ)
    → Steady h regs
    → (t : UdmaType) (m : Engine)
    → (rest : List Event) × (state_get h t m
        ≡ ok (seen_state regs m.udma.num_of_queues t) (record m { trace = rest }))
unfolding state_get seen_state reg_read32
state_get-seen_state h regs s tx m = (
  reg_read m2s_state ∷ m.trace,
  rw (s.reads m.trace m2s_state, ◌>>=◌, state_of-overall true (regs m2s_state)) refl,
)
state_get-seen_state h regs s rx m =
    let m1 : Engine = record m { trace = reg_read s2m_state ∷ m.trace } in
    let (t, runs) = stream_status-stream_on h regs s m1 in
    (
      t,
      rw
          (
            s.reads m.trace s2m_state,
            ◌>>=◌,
            runs,
            ◌>>=◌,
            state_of-overall (stream_on regs m.udma.num_of_queues) (regs s2m_state),
          )
          refl,
    )
