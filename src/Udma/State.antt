-- ===== src/Udma/State.antt =====
-- The states of an engine, `udma_state_set` and `udma_state_get` of udma/udma_main.c.
use aws_neuron_driver.Common.{
  ℕ, zero, suc, Bool, true, false, ◌&&◌, ◌||◌, Option, none, some, ◌+◌, ◌*◌, ◌/◌, ◌^◌, bit_and,
  ◌>>>◌, ◌==◌, ◌!=◌, if◌then◌else◌, M, ok, err, ◌>>=◌, ◌>>◌, pure, einval,
}
use aws_neuron_driver.Udma.Types.{
  UdmaType, tx, rx, UdmaState, disable, idle, normal, abort, reset, Udma, Engine, Host, Reg,
  queue_reg, QueueReg, m2s_state, s2m_state, m2s_change_state, s2m_change_state, s2m_stream_cfg,
  reg_write32, reg_read32, or_dead,
}
pub mod Laws

-- The value for the registers that change the state, for the states that can be asked for.
unfoldable change_value : UdmaState → Option ℕ
change_value disable = some 2
change_value normal = some 1
change_value abort = some 4
change_value idle = none
change_value reset = none

unfoldable change_state : UdmaState → Option ℕ → M Engine (Unit {0})
unfolding reg_write32
change_state state none = λ m. err einval m
change_state state (some reg) = do
  reg_write32 m2s_change_state reg
  reg_write32 s2m_change_state reg
  (λ m. ok tt (record m { udma = record m.udma { state_m2s = state; state_s2m = state } }))

-- `udma_state_set`
unfoldable pub state_set : UdmaState → M Engine (Unit {0})
unfolding change_value change_state
state_set state = change_state state (change_value state)

-- UDMA_S2M_STREAM_FLUSH, the enable bits of a queue, UDMA_S2M_Q_CFG_EN_STREAM
abbrev pub stream_flush : ℕ
stream_flush = 0x111

abbrev pub enable_bits : ℕ
enable_bits = 0x30000

abbrev pub en_stream : ℕ
en_stream = 0x20000

-- What a read of a queue's configuration says of the queue.
abbrev enabled_by : Option ℕ → Bool
enabled_by none = false
enabled_by (some reg) = bit_and reg enable_bits != 0

-- One of the four fields of a state register, `REG_FIELD_GET`.
abbrev pub field : (reg mask shift : ℕ) → ℕ
field reg mask shift = bit_and reg mask >>> shift

abbrev any_is : (value comp_ctrl stream_if data_rd desc_pref : ℕ) (stream_enabled : Bool) → Bool
any_is value comp_ctrl stream_if data_rd desc_pref true =
    (((comp_ctrl == value) || (stream_if == value)) || (data_rd == value)) || (desc_pref == value)
any_is value comp_ctrl stream_if data_rd desc_pref false =
    ((comp_ctrl == value) || (desc_pref == value)) || (data_rd == value)

-- What `udma_state_get` makes of the state register; UDMA_STATE_ABORT is 2, UDMA_STATE_NORMAL 1.
unfoldable pub state_of : (stream_enabled : Bool) (reg : ℕ) → UdmaState
state_of stream_enabled reg =
    let comp_ctrl : ℕ = field reg 0x3 0 in
    let stream_if : ℕ = field reg 0x30 4 in
    let data_rd : ℕ = field reg 0x300 8 in
    let desc_pref : ℕ = field reg 0x3000 12 in
    if any_is 2 comp_ctrl stream_if data_rd desc_pref stream_enabled
    then abort
    else if any_is 1 comp_ctrl stream_if data_rd desc_pref stream_enabled
    then normal
    else idle

-- `!=` of two flags.
abbrev pub differs : Bool → Bool → Bool
differs true true = false
differs true false = true
differs false true = true
differs false false = false

module _ (h : Host) where
  -- `udma_q_is_enabled`
  unfoldable pub q_is_enabled : UdmaType → ℕ → M Engine Bool
  unfolding reg_read32
  q_is_enabled t qid = do val ← reg_read32 h (queue_reg t qid QueueReg.cfg); pure (enabled_by val)

  -- The loop of `udma_s2m_stream_status_get` from queue `i` on, `remaining` queues of the engine: whether
  -- an enabled queue was met, and whether one with its stream on. The configuration register of the
  -- S2M side is that of the ring.
  unfoldable pub queue_streams : (remaining i : ℕ) (valid : Bool) → M Engine (Bool × Bool)
  unfolding q_is_enabled reg_read32
  queue_streams zero i valid = pure (valid, false)
  queue_streams (suc remaining) i valid = do
    on ← q_is_enabled rx i
    let next = λ (v : Bool). queue_streams remaining (i + 1) v
    let look : M Engine (Bool × Bool) = do
      val ← reg_read32 h (queue_reg rx i QueueReg.cfg)
      if bit_and (or_dead val) en_stream != 0 then pure (true, true) else next true
    if on then look else next valid

  -- `udma_s2m_stream_status_get`
  unfoldable pub s2m_stream_status_get : M Engine Bool
  unfolding queue_streams reg_read32
  s2m_stream_status_get = λ m.
      (do
        cfg ← reg_read32 h s2m_stream_cfg
        let stream_status : Bool = bit_and (or_dead cfg) stream_flush != stream_flush
        seen ← queue_streams m.udma.num_of_queues 0 false
        pure (if seen.0 && differs seen.1 stream_status then true else stream_status))
        m

  -- `udma_state_get`
  unfoldable pub state_get : UdmaType → M Engine UdmaState
  unfolding s2m_stream_status_get state_of reg_read32
  state_get tx = do state_reg ← reg_read32 h m2s_state; pure (state_of true (or_dead state_reg))
  state_get rx = do
    state_reg ← reg_read32 h s2m_state
    stream_enabled ← s2m_stream_status_get
    pure (state_of stream_enabled (or_dead state_reg))
