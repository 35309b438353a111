-- ===== src/Dma/Plan.antt =====
-- What a copy asks of the ring, as a list of steps, and that `ndma_memcpy` runs exactly these.
use aws_neuron_driver.Common.{
  ℕ, zero, suc, Bool, true, false, List, [], ◌∷◌, ◌+◌, ◌-◌, ◌*◌, ◌^◌, ◌≤◌, ◌<◌, ◌≡◌, ◌≢◌, sym, ◌∙◌,
  ap, arith, u32, u64, ltb, ◌==◌, ◌||◌, if◌then◌else◌, M, pure, ◌>>◌, Bool-cases, inl, inr,
}
use aws_neuron_driver.Udma.Types.{Engine, Host}
use aws_neuron_driver.Dma.{memcpy64k, wait_for_completion, memcpy_loop, sync_threshold}

-- A 64K copy is queued, or the copies queued so far are waited for.
pub data Step : Type 0 where
  send : (src dst len : ℕ) (set_dmb : Bool) → Step
  wait : (count : ℕ) → Step

abbrev pub next_len : ℕ → ℕ
next_len remaining = if ltb remaining 65536 then remaining else 65536

abbrev pub is_sync : (remaining pending : ℕ) → Bool
is_sync remaining pending = (pending + 1 == sync_threshold) || (next_len remaining == remaining)

-- The steps of a copy from `offset` on.
unfoldable pub plan : (fuel src dst offset remaining pending : ℕ) → List Step
plan zero src dst offset remaining pending = []
plan (suc fuel) src dst offset remaining pending =
    let len : ℕ = next_len remaining in
    let s : ℕ = u64 (src + offset) in
    let d : ℕ = u64 (dst + offset) in
    let synced : List Step =
      send s d len true
      ∷ wait (pending + 1)
      ∷ plan fuel src dst (offset + len) (remaining - len) 0 in
    let queued : List Step =
      send s d len false ∷ plan fuel src dst (offset + len) (remaining - len) (pending + 1) in
    if remaining == 0 then [] else if is_sync remaining pending then synced else queued

unfoldable pub execute : Host → ℕ → List Step → M Engine (Unit {0})
execute h qid [] = pure tt
execute h qid (send src dst len set_dmb ∷ steps) = do
  memcpy64k qid src dst len set_dmb
  execute h qid steps
execute h qid (wait count ∷ steps) = do wait_for_completion h qid count; execute h qid steps

chunk-next_len :
    (remaining chunk : ℕ)
    → (65536 ≤ remaining → chunk ≡ 65536)
    → (if ltb remaining 65536 then remaining else chunk) ≡ next_len remaining
chunk-next_len remaining chunk full = ground (arith, full)

-- The driver's loop runs the steps of the plan, given fuel for a round a chunk.
pub memcpy_loop-plan :
    (h : Host) (qid fuel src dst offset remaining chunk pending : ℕ)
    → remaining + 65535 < fuel * 65536
    → (65536 ≤ remaining → chunk ≡ 65536)
    → offset + remaining < 2 ^ 32
    → memcpy_loop h fuel qid src dst offset remaining chunk pending
      ≡ execute h qid (plan fuel src dst offset remaining pending)
unfolding memcpy_loop plan execute
memcpy_loop-plan h qid zero src dst offset remaining chunk pending enough full fits =
    absurd (omega arith)
memcpy_loop-plan h qid (suc fuel) src dst offset remaining chunk pending enough full fits =
    elim (Bool-cases (remaining == 0)) [
      | inl done ↦ rw done
      | inr more ↦
          let nonzero : remaining ≢ 0 = ground arith in
          let len : ℕ = next_len remaining in
          let s : ℕ = u64 (src + offset) in
          let d : ℕ = u64 (dst + offset) in
          let small : offset + len ≡ u32 (offset + len) = ground arith in
          let rest = λ (p : ℕ).
            ap (λ t. memcpy_loop h fuel qid src dst t (remaining - len) len p) (sym small)
            ∙ memcpy_loop-plan h qid fuel src dst (offset + len) (remaining - len) len p
                (ground arith) (λ large. ground arith) (ground arith) in
          rw (chunk-next_len remaining chunk full, more)
            (elim (Bool-cases (is_sync remaining pending)) [
              | inl sync ↦ rw sync (
                  ap
                    (λ (f : M Engine (Unit {0})).
                      memcpy64k qid s d len true >> (wait_for_completion h qid (pending + 1) >> f))
                    (rest 0))
              | inr queue_on ↦ rw queue_on (
                  ap (λ (f : M Engine (Unit {0})). memcpy64k qid s d len false >> f)
                    (rest (pending + 1)))
            ])
    ]
