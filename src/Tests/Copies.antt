-- ===== src/Tests/Copies.antt =====
-- Copies on queue 3 of an engine with rings of 8192 descriptors.
use aws_neuron_driver.Common.{ℕ, true, false, List, [], ◌∷◌, ◌+◌, ◌≡◌, ok, err, minus_one, arith}
use aws_neuron_driver.Udma.Types.{Udma, Engine, Event, kfree}
use aws_neuron_driver.Udma.Ring.Pair.{PairTracks}
use aws_neuron_driver.Udma.Copy.{copy_prepare_one}
use aws_neuron_driver.Udma.Copy.Laws.{pair_events, Elsewhere, copy_prepare_one_lem}
use aws_neuron_driver.Dma.{wait_for_completion, ndma_memcpy}
use aws_neuron_driver.Dma.Plan.{Step, execute}
use aws_neuron_driver.Dma.Schedule.{Covers, Paced, ndma_memcpy-schedule}
use aws_neuron_driver.Dma.Run.{Leaves}
use aws_neuron_driver.Dma.Memcpy.{ndma_memcpy_runs}
use aws_neuron_driver.Dma.Timeout.{wait_for_completion-timeout}
use aws_neuron_driver.Tests.Data.{
  engine, busy_ring, busy_ring-Tracks, quiet_ring, quiet_ring-Tracks, engine-PairTracks,
  one-ne-zero, answering, answering-Answers, silent, silent-memory, silent-word,
}

abbrev busy : Engine
busy = engine busy_ring

abbrev quiet : Engine
quiet = engine quiet_ring

busy-PairTracks : PairTracks busy.udma 3 13 8190 8180
busy-PairTracks = engine-PairTracks one-ne-zero busy_ring-Tracks

quiet-PairTracks : PairTracks quiet.udma 3 13 8190 8190
quiet-PairTracks = engine-PairTracks one-ne-zero quiet_ring-Tracks

copy_prepare_one_lem_example :
    (u' : Udma) × (copy_prepare_one 3 0x1000 0x2000 65536 true false busy
      ≡ ok tt (record {
        udma = u';
        trace = pair_events busy.udma 3 13 8190 0x1000 0x2000 65536 true false [];
      }))
    × PairTracks u' 3 13 (8190 + 1) 8180
    × Elsewhere busy.udma u' 3
copy_prepare_one_lem_example =
    copy_prepare_one_lem busy busy-PairTracks 0x1000 0x2000 65536 true false (omega arith)
      (omega arith)

wait_for_completion-timeout_example :
    (m' : Engine) × (rest : List Event) × (wait_for_completion silent 3 10 busy ≡ err minus_one m')
    × (m'.trace ≡ kfree (silent.kmalloc_addr busy.trace 8) ∷ rest)
    × Leaves busy m' 3 13 (8190 + 1) 8180
wait_for_completion-timeout_example =
    wait_for_completion-timeout silent busy 10 busy-PairTracks (omega arith) silent-word
      silent-memory

ndma_memcpy-schedule_example :
    (steps : List Step) × (ndma_memcpy answering 3 0x10000000 0x20000000 0x12345678
      ≡ execute answering 3 steps)
    × Covers 0x10000000 0x20000000 0 0x12345678 steps
    × Paced false 0 steps
ndma_memcpy-schedule_example =
    ndma_memcpy-schedule answering 3 0x10000000 0x20000000 0x12345678 (omega arith)

ndma_memcpy_runs_example :
    (steps : List Step) × (m' : Engine) × (n' : ℕ) × (ndma_memcpy answering 3 0x10000000 0x20000000
        0x12345678 quiet
      ≡ execute answering 3 steps quiet)
    × (execute answering 3 steps quiet ≡ ok tt m')
    × Covers 0x10000000 0x20000000 0 0x12345678 steps
    × Leaves quiet m' 3 13 n' n'
ndma_memcpy_runs_example =
    ndma_memcpy_runs answering quiet 0x10000000 0x20000000 0x12345678 quiet-PairTracks (omega arith)
      answering-Answers (omega arith)
