-- ===== src/Dma.antt =====
-- Copies by the host-to-device ring of one engine, neuron_dma.c. The engine's queue `qid` is the one
-- that `ring->qid` names; the mutex around a copy leaves one copy at a time on the ring.
use aws_neuron_driver.Common.{
  ℕ, zero, suc, Bool, true, false, ◌+◌, ◌-◌, ◌*◌, ◌/◌, bit_or, u32, u64, ◌==◌, ltb, ◌||◌,
  if◌then◌else◌, ◌∷◌, M, Outcome, ok, err, bug, ◌>>=◌, ◌>>◌, fail, pure, minus_one,
}
use aws_neuron_driver.Udma.Types.{
  UdmaType, tx, rx, Engine, Host, queue, put_queue, emit, kmalloc, kfree, word_read, word_write,
  udelay,
}
use aws_neuron_driver.Udma.Ring.{cdesc_ack}
use aws_neuron_driver.Udma.Copy.{copy_prepare_one, copy_start, q_handle_get, max_dma_desc_size}
pub mod Plan
pub mod Schedule
pub mod Wait
pub mod Run
pub mod Memcpy
pub mod Timeout
pub mod Check
pub mod Chunks
pub mod QueueState

-- PCIEX8_0_BASE
abbrev pub pciex8_0_base : ℕ
pciex8_0_base = 0x00400000000000

-- DMA_COMPLETION_MARKER and its size
abbrev pub dma_completion_marker : ℕ
dma_completion_marker = 0xabcdef01

abbrev dma_completion_marker_size : ℕ
dma_completion_marker_size = 4

-- DMA_H2T_DESC_COUNT - UDMA_MAX_NUM_CDESC_PER_CACHE_LINE - 1
abbrev pub sync_threshold : ℕ
sync_threshold = 4096 - 16 - 1

-- `udma_cdesc_ack` on a queue of the engine.
abbrev ack_queue : UdmaType → (qid count : ℕ) → M Engine (Unit {0})
ack_queue t qid count m = put_queue t qid (cdesc_ack (queue m.udma t qid) count) m

-- A handle that a failed `udma_q_handle_get` leaves unset is used.
abbrev handle_or_bug : Outcome Engine (Unit {0}) → Outcome Engine (Unit {0})
handle_or_bug (ok a m) = ok a m
handle_or_bug (err e m) = bug
handle_or_bug bug = bug

-- `ndma_ack_completed_desc`
unfoldable pub ack_completed_desc : (qid count : ℕ) → M Engine (Unit {0})
unfolding q_handle_get
ack_completed_desc qid count = λ m.
    (do
      (λ s. handle_or_bug (q_handle_get qid tx s))
      (λ s. handle_or_bug (q_handle_get qid rx s))
      ack_queue rx qid count
      ack_queue tx qid count)
      m

-- The completion buffer is freed on every way out.
abbrev free_after : ℕ → Outcome Engine (Unit {0}) → Outcome Engine (Unit {0})
free_after p (ok a m) = ok a (record m { trace = kfree p ∷ m.trace })
free_after p (err e m) = err e (record m { trace = kfree p ∷ m.trace })
free_after p bug = bug

-- Any failure of a call is answered by -1.
abbrev minus_one_of : Outcome Engine (Unit {0}) → Outcome Engine (Unit {0})
minus_one_of (ok a m) = ok a m
minus_one_of (err e m) = err minus_one m
minus_one_of bug = bug

-- What follows a poll that sees the marker: the buffer is set up again, the descriptors are
-- acknowledged.
unfoldable pub completed : (qid ptr count : ℕ) → M Engine (Unit {0})
unfolding ack_completed_desc
completed qid ptr count = do
  emit (word_write (ptr + dma_completion_marker_size) 0)
  emit (word_write ptr dma_completion_marker)
  ack_completed_desc qid count

-- The number of polls, `i <= loop`: 4 * count * 100 on `u32`, and two more.
abbrev pub poll_rounds : ℕ → ℕ
poll_rounds count = u32 (u32 (4 * count) * 100) / 1 + 1 + 1

-- `ndma_memcpy64k`
unfoldable pub memcpy64k : (qid src dst size : ℕ) (set_dmb : Bool) → M Engine (Unit {0})
memcpy64k qid src dst size set_dmb = do
  copy_prepare_one qid src dst size set_dmb false
  copy_start qid 1 1

-- Each round but the last copies 64K.
abbrev memcpy_fuel : ℕ → ℕ
memcpy_fuel size = size / max_dma_desc_size + 2

module _ (h : Host) where
  -- `READ_ONCE`
  abbrev load_word : ℕ → M Engine ℕ
  load_word addr m = ok (h.word_value m.trace addr) (record m { trace = word_read addr ∷ m.trace })

  -- The poll loop of `ndma_memcpy_wait_for_completion` with `rounds` polls left.
  unfoldable pub poll : (rounds qid ptr count : ℕ) → M Engine (Unit {0})
  poll zero qid ptr count = fail minus_one
  poll (suc rounds) qid ptr count = do
    dst_val ← load_word (ptr + dma_completion_marker_size)
    let again = do emit (udelay 1); poll rounds qid ptr count
    if dst_val == dma_completion_marker then completed qid ptr count else again

  -- The part of `ndma_memcpy_wait_for_completion` that has the buffer.
  unfoldable pub wait_with_buffer : (qid ptr count : ℕ) → M Engine (Unit {0})
  wait_with_buffer qid ptr count = do
    emit (word_write ptr dma_completion_marker)
    emit (word_write (ptr + dma_completion_marker_size) 0)
    let addr : ℕ = bit_or (h.virt_to_phys ptr) pciex8_0_base
    (λ m. minus_one_of (
        copy_prepare_one qid addr (u64 (addr + dma_completion_marker_size))
          dma_completion_marker_size false false m))
    copy_start qid 1 1
    poll (poll_rounds count) qid ptr (u32 (count + 1))

  -- `ndma_memcpy_wait_for_completion`
  unfoldable pub wait_for_completion : (qid count : ℕ) → M Engine (Unit {0})
  unfolding wait_with_buffer
  wait_for_completion qid count = λ m.
      let p = h.kmalloc_addr m.trace (dma_completion_marker_size * 2) in
      let asked : Engine = record m {
        trace = kmalloc (dma_completion_marker_size * 2) ∷ m.trace;
      } in
      if p == 0 then err minus_one asked else free_after p (wait_with_buffer qid p count asked)

  -- The loop of `ndma_memcpy` with its variables; the fuel bounds the rounds.
  unfoldable pub memcpy_loop :
      (fuel qid src dst offset remaining chunk pending : ℕ) → M Engine (Unit {0})
  memcpy_loop zero qid src dst offset remaining chunk pending = λ m. bug
  memcpy_loop (suc fuel) qid src dst offset remaining chunk pending =
      let chunk' : ℕ = if ltb remaining max_dma_desc_size then remaining else chunk in
      let sync : Bool = (pending + 1 == sync_threshold) || (chunk' == remaining) in
      let next = λ (pending' : ℕ).
        memcpy_loop fuel qid src dst (u32 (offset + chunk')) (remaining - chunk') chunk' pending' in
      let s = u64 (src + offset) in
      let d = u64 (dst + offset) in
      let synced : M Engine (Unit {0}) = (do
        memcpy64k qid s d chunk' true
        wait_for_completion qid (pending + 1)
        next 0) in
      let queued : M Engine (Unit {0}) = (do memcpy64k qid s d chunk' false; next (pending + 1)) in
      if remaining == 0 then pure tt else if sync then synced else queued

  -- `ndma_memcpy`, on the engine that it has chosen and locked.
  unfoldable pub ndma_memcpy : (qid src dst size : ℕ) → M Engine (Unit {0})
  unfolding memcpy_loop
  ndma_memcpy qid src dst size =
      memcpy_loop (memcpy_fuel size) qid src dst 0 size
        (if ltb size max_dma_desc_size then size else max_dma_desc_size) 0
