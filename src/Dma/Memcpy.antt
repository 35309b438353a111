-- ===== src/Dma/Memcpy.antt =====
-- A whole copy on a quiet ring: it always ends, with the ring quiet again.
use aws_neuron_driver.Common.{
  ℕ, Bool, true, false, List, [], ◌∷◌, ◌+◌, ◌^◌, ◌≤◌, ◌<◌, ◌≡◌, refl, ap, arith, ◌>>=◌, ok,
}
use native.Mathlib.Nat.{pow-le-pow_right, add-zero}
use aws_neuron_driver.Udma.Types.{Engine, Host}
use aws_neuron_driver.Udma.Ring.Pair.{PairTracks}
use aws_neuron_driver.Udma.Copy.Laws.{Elsewhere-trans, Elsewhere-refl}
use aws_neuron_driver.Dma.{ndma_memcpy}
use aws_neuron_driver.Dma.Plan.{Step, send, wait, execute}
use aws_neuron_driver.Dma.Schedule.{Covers, Paced, ndma_memcpy-schedule}
use aws_neuron_driver.Dma.Wait.{Answers}
use aws_neuron_driver.Dma.Run.{Leaves, memcpy64k_runs, wait_runs}

Leaves-trans :
    {m1 m2 m3 : Engine} {qid k a b c d : ℕ}
    → Leaves m1 m2 qid k a b
    → Leaves m2 m3 qid k c d
    → Leaves m1 m3 qid k c d
Leaves-trans x y = record { pair = y.pair; elsewhere = Elsewhere-trans x.elsewhere y.elsewhere }

-- A ring of 8192 descriptors or more has room for all that is queued between two waits.
capacity : (k : ℕ) → 13 ≤ k → 8192 ≤ 2 ^ k
capacity k h = pow-le-pow_right {n = 2} (omega arith) h

execute_runs :
    (h : Host) (a : Answers h) (src dst qid k : ℕ)
    → 13 ≤ k
    → (steps : List Step) (lo hi acked pending : ℕ) (barrier : Bool) (m : Engine)
    → PairTracks m.udma qid k (acked + pending) acked
    → pending ≤ 4079
    → (barrier ≡ true → 0 < pending)
    → Covers src dst lo hi steps
    → Paced barrier pending steps
    → (m' : Engine) × (n : ℕ) × (execute h qid steps m ≡ ok tt m') × Leaves m m' qid k n n
unfolding execute
execute_runs h a src dst qid k large [] lo hi acked pending barrier m v small last c p = (
  m,
  acked,
  refl,
  record { pair = rw (p.1, add-zero) at v; elsewhere = Elsewhere-refl m.udma qid },
)
execute_runs h a src dst qid k large (send s d len dmb ∷ steps) lo hi acked pending barrier m v
      small last c p =
    let (m1, runs1, events, leaves1) =
      memcpy64k_runs h m v (omega (arith, capacity k large)) s d len dmb c.3 in
    let more : acked + pending + 1 ≡ acked + (pending + 1) = omega arith in
    let (m2, n, runs2, leaves2) =
      execute_runs h a src dst qid k large steps (lo + len) hi acked (pending + 1) dmb m1
        (rw more at leaves1.pair) p.1 (λ e. omega arith) c.4 p.2 in
    (m2, n, rw (runs1, ◌>>=◌) runs2, Leaves-trans leaves1 leaves2)
execute_runs h a src dst qid k large (wait count ∷ steps) lo hi acked pending barrier m v small last
      c p =
    let (m1, runs1, leaves1) =
      wait_runs h m count v (omega (arith, capacity k large)) a (rw p.1 (last p.0)) (rw p.1 small)
        (omega (arith, p.1)) in
    let settled : acked + (count + 1) ≡ acked + pending + 1 = omega (arith, p.1) in
    let even : acked + pending + 1 ≡ acked + (count + 1) + 0 = omega (arith, p.1) in
    let (m2, n, runs2, leaves2) =
      execute_runs h a src dst qid k large steps lo hi (acked + (count + 1)) 0 false m1
        (rw even at leaves1.pair) (omega arith) (λ e. cc) c p.2 in
    (m2, n, rw (runs1, ◌>>=◌) runs2, Leaves-trans leaves1 leaves2)

-- On a quiet pair of rings of 2 ^ k descriptors, k at least 13, with a host that gives memory and
-- shows every completion marker within 400 polls, `ndma_memcpy` of any 32-bit size succeeds: it
-- runs a list of steps whose copies are consecutive pieces of the whole range, and leaves the
-- rings quiet again and every other queue as it was.
pub ndma_memcpy_runs :
    (h : Host) (m : Engine) {qid k n : ℕ} (src dst size : ℕ)
    → PairTracks m.udma qid k n n
    → 13 ≤ k
    → Answers h
    → size < 2 ^ 32
    → (steps : List Step) × (m' : Engine) × (n' : ℕ) × (ndma_memcpy h qid src dst size m
        ≡ execute h qid steps m)
      × (execute h qid steps m ≡ ok tt m')
      × Covers src dst 0 size steps
      × Leaves m m' qid k n' n'
ndma_memcpy_runs h m {qid} {k} {n} src dst size v large a fits =
    let (steps, same, covers, paced) = ndma_memcpy-schedule h qid src dst size fits in
    let (m', n', runs, leaves) =
      execute_runs h a src dst qid k large steps 0 size n 0 false m (rw (add-zero n) v)
        (omega arith) (λ e. cc) covers paced in
    (steps, m', n', ap (λ f. f m) same, runs, covers, leaves)
