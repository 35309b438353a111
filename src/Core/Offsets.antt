-- ===== src/Core/Offsets.antt =====
-- The mmap offsets name the notification queues.
use aws_neuron_driver.Common.{ℕ, Option, none, some, ◌-◌, ◌%◌, ◌<◌, ◌≡◌, arith}
use aws_neuron_driver.Core.{nc_get_nq_mmap_offset, Nq, nc_get_nq_from_mmap_offset, size_per_nq}

-- What `nc_get_nq_from_mmap_offset` answers for an offset, or EINVAL again.
unfoldable pub reopened : Option ℕ → Option Nq
unfolding nc_get_nq_from_mmap_offset
reopened none = none
reopened (some offset) = nc_get_nq_from_mmap_offset offset

-- For a core, an engine and a queue type below 4 the offset that is handed out names that queue
-- when it comes back.
pub nc_get_nq_from_mmap_offset-nc_get_nq_mmap_offset :
    (nc_id engine_index nq_type : ℕ)
    → nc_id < 4
    → engine_index < 4
    → nq_type < 4
    → reopened (nc_get_nq_mmap_offset nc_id engine_index nq_type)
      ≡ some (record { nc_id = nc_id; engine_index = engine_index; nq_type = nq_type })
unfolding nc_get_nq_mmap_offset reopened nc_get_nq_from_mmap_offset
nc_get_nq_from_mmap_offset-nc_get_nq_mmap_offset nc_id engine_index nq_type nc engine type =
    ground arith

-- The queue that an accepted mmap offset names has the start of that offset's gigabyte as its own
-- offset.
nc_get_nq_mmap_offset_of_opened :
    (offset : ℕ) (nq : Nq)
    → nc_get_nq_from_mmap_offset offset ≡ some nq
    → nc_get_nq_mmap_offset nq.nc_id nq.engine_index nq.nq_type
      ≡ some (offset - offset % size_per_nq)
unfolding nc_get_nq_mmap_offset nc_get_nq_from_mmap_offset
nc_get_nq_mmap_offset_of_opened offset nq e = ground arith
