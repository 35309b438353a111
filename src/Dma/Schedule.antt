-- ===== src/Dma/Schedule.antt =====
-- The steps of `ndma_memcpy` cover the range, in order, and never fill the ring.
use aws_neuron_driver.Common.{
  ℕ, zero, suc, Bool, true, false, List, [], ◌∷◌, ◌+◌, ◌-◌, ◌*◌, ◌/◌, ◌^◌, ◌≤◌, ◌<◌, ◌≡◌, refl,
  arith, u64, ◌==◌, Bool-cases, inl, inr,
}
use native.Mathlib.Nat.{zero-add}
use aws_neuron_driver.Udma.Types.{Host}
use aws_neuron_driver.Dma.{ndma_memcpy, sync_threshold}
use aws_neuron_driver.Dma.Plan.{
  Step, send, wait, plan, next_len, is_sync, execute, memcpy_loop-plan,
}

-- The copies in `steps` are consecutive pieces, of 1 byte to 64K, of the range from `lo` to `hi`.
abbrev pub Covers : (src dst lo hi : ℕ) → List Step → Type 0
Covers src dst lo hi [] = lo ≡ hi
Covers src dst lo hi (send s d len set_dmb ∷ steps) =
    (s ≡ u64 (src + lo))
    × (d ≡ u64 (dst + lo))
    × (0 < len)
    × (len ≤ 65536)
    × Covers src dst (lo + len) hi steps
Covers src dst lo hi (wait count ∷ steps) = Covers src dst lo hi steps

-- At most 4079 copies are queued before they are waited for; the barrier bit is set on the last
-- copy before a wait and on no other, each wait is for all that is queued, and nothing is left
-- queued at the end.
abbrev pub Paced : (barrier : Bool) (pending : ℕ) → List Step → Type 0
Paced barrier pending [] = (barrier ≡ false) × (pending ≡ 0)
Paced barrier pending (send s d len set_dmb ∷ steps) =
    (barrier ≡ false) × (pending + 1 ≤ sync_threshold) × Paced set_dmb (pending + 1) steps
Paced barrier pending (wait count ∷ steps) =
    (barrier ≡ true) × (count ≡ pending) × Paced false 0 steps

plan-Covers :
    (fuel src dst offset remaining pending : ℕ)
    → remaining + 65535 < fuel * 65536
    → Covers src dst offset (offset + remaining) (plan fuel src dst offset remaining pending)
unfolding plan
plan-Covers zero src dst offset remaining pending enough = absurd (omega arith)
plan-Covers (suc fuel) src dst offset remaining pending enough =
    elim (Bool-cases (remaining == 0)) [
      | inl done ↦ rw done (ground arith)
      | inr more ↦
          let len : ℕ = next_len remaining in
          let positive : 0 < len = ground arith in
          let small : len ≤ 65536 = ground arith in
          let last : offset + len + (remaining - len) ≡ offset + remaining = ground arith in
          let rest = λ (p : ℕ).
            rw last at
              (plan-Covers fuel src dst (offset + len) (remaining - len) p (ground arith)) in
          rw more (elim (Bool-cases (is_sync remaining pending)) [
            | inl sync ↦ rw sync (refl, refl, positive, small, rest 0)
            | inr on ↦ rw on (refl, refl, positive, small, rest (pending + 1))
          ])
    ]

plan-Paced :
    (fuel src dst offset remaining pending : ℕ)
    → remaining + 65535 < fuel * 65536
    → pending + 1 ≤ sync_threshold
    → (remaining ≡ 0 → pending ≡ 0)
    → Paced false pending (plan fuel src dst offset remaining pending)
unfolding plan
plan-Paced zero src dst offset remaining pending enough below settled = absurd (omega arith)
plan-Paced (suc fuel) src dst offset remaining pending enough below settled =
    elim (Bool-cases (remaining == 0)) [
      | inl done ↦ rw done (refl, ground (arith, settled))
      | inr more ↦
          let len : ℕ = next_len remaining in
          rw more (elim (Bool-cases (is_sync remaining pending)) [
            | inl sync ↦ rw sync (
              refl,
              below,
              (
                refl,
                refl,
                plan-Paced fuel src dst (offset + len) (remaining - len) 0 (ground arith)
                    (omega arith) (λ e. refl),
              ),
            )
            | inr on ↦ rw on (
              refl,
              below,
              plan-Paced fuel src dst (offset + len) (remaining - len) (pending + 1) (ground arith)
                  (ground arith) (λ e. absurd (ground arith)),
            )
          ])
    ]

-- For every 32-bit size `ndma_memcpy` is the run of a list of steps: its copies, of 1 byte to 64K
-- each, cover the range once and in order, at most 4079 are queued before a wait, every wait is
-- for exactly those queued, the barrier bit is set on the last copy before a wait and on no
-- other, and nothing is left queued.
pub ndma_memcpy-schedule :
    (h : Host) (qid src dst size : ℕ)
    → size < 2 ^ 32
    → (steps : List Step) × (ndma_memcpy h qid src dst size ≡ execute h qid steps)
      × Covers src dst 0 size steps
      × Paced false 0 steps
unfolding ndma_memcpy
ndma_memcpy-schedule h qid src dst size fits = (
  plan (size / 65536 + 2) src dst 0 size 0,
  memcpy_loop-plan h qid (size / 65536 + 2) src dst 0 size _ 0 (omega arith) (λ large. ground arith)
      (omega arith),
  rw zero-add at (plan-Covers (size / 65536 + 2) src dst 0 size 0 (omega arith)),
  plan-Paced (size / 65536 + 2) src dst 0 size 0 (omega arith) (omega arith) (λ e. refl),
)
