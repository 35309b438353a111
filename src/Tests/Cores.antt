-- ===== src/Tests/Cores.antt =====
-- Semaphores, events and notification queues of a device whose BAR2 is at 0x20000000.
use aws_neuron_driver.Common.{ℕ, List, [], ◌∷◌, none, some, Option, ◌+◌, ◌*◌, ◌≡◌, refl, arith, ok}
use aws_neuron_driver.FwIo.Region.{Region}
use aws_neuron_driver.Core.{
  Write, Nq, nc_get_nq_from_mmap_offset, nc_semaphore_increment, size_per_nq,
}
use aws_neuron_driver.Core.Sync.{increment, run, run-injective}

abbrev queue_2_3_1 : Nq
queue_2_3_1 = record { nc_id = 2; engine_index = 3; nq_type = 1 }

opened : nc_get_nq_from_mmap_offset (45 * size_per_nq + 4096) ≡ some queue_2_3_1
unfolding nc_get_nq_from_mmap_offset
opened = refl

abbrev written : Write
written = record { addr = 0x20000000 + 1 * 0x4000000 + 0x2701200 + 124; value = 5 }

written_by : run 0x20000000 increment 1 31 5 [] ≡ ok tt (written ∷ [])
unfolding run nc_semaphore_increment
written_by = refl

abbrev written_later : Write
written_later = record { addr = 0x20000000 + 1 * 0x4000000 + 0x2701200 + 124; value = 9 }

written_later_by : run 0x20000000 increment 1 31 9 [] ≡ ok tt (written_later ∷ [])
unfolding run nc_semaphore_increment
written_later_by = refl

run-injective_example : (increment ≡ increment) × (◌≡◌ {A = ℕ} 1 1 × ◌≡◌ {A = ℕ} 31 31)
run-injective_example =
    run-injective 0x20000000 increment increment 1 1 31 31 5 9 written written_later (omega arith)
      (omega arith) (omega arith) (omega arith) (omega arith) written_by written_later_by refl

abbrev bar2 : Region
bar2 = record {
  ctx = 1;
  region_ptr_start = 0x20000000;
  region_ptr_end = 0x30000000;
  device_physical_address = 0xfffc0000000;
}

abbrev slots : List (Option Region)
slots = none ∷ none ∷ []

abbrev slots_after : List (Option Region)
slots_after = some bar2 ∷ none ∷ []
