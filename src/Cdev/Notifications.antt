-- ===== src/Cdev/Notifications.antt =====
-- Commands on notification queues and the mapping of them, neuron_cdev.c, after their argument is there.
-- The status of a copy to the user's memory is an argument.
use aws_neuron_driver.Common.{
  ℕ, Option, none, some, u8, ◌*◌, Errno, M, ok, err, ◌>>=◌, ◌>>◌, pure, fail, einval,
}
use aws_neuron_driver.Mempool.{Kernel}
use aws_neuron_driver.Core.{Nq, nc_get_nq_mmap_offset, nc_get_nq_from_mmap_offset}
use aws_neuron_driver.Core.Queues.{Queues, nc_nq_init, nc_nq_destroy, nc_nq_mmap}
use aws_neuron_driver.Cdev.Firmware.{copied}
pub mod Mapped

-- `struct neuron_ioctl_notifications_init`, without the offset that it is filled with
pub record NotificationsInit : Type 0 where
  pub nc_id : ℕ
  pub nq_type : ℕ
  pub engine_index : ℕ
  pub size : ℕ

-- `if (ret) return ret;` where -EINVAL is the only error.
abbrev pub or_einval : {S A : Type 0} → Option A → M S A
or_einval none = fail einval
or_einval (some a) = pure a

module _ {G K : Type 0} (k : Kernel G K) (bar0 : ℕ) where
  -- `ncdev_nc_nq_init`; the core and the engine are passed on as a `u8`.
  unfoldable pub ncdev_nc_nq_init : NotificationsInit → (copy : Option Errno) → M (Queues G K) ℕ
  ncdev_nc_nq_init arg copy = do
    nc_nq_init k bar0 (u8 arg.nc_id) (u8 arg.engine_index) arg.nq_type arg.size
    mmap_offset ← or_einval (nc_get_nq_mmap_offset arg.nc_id arg.engine_index arg.nq_type)
    copied copy
    pure mmap_offset

  -- `ncdev_nc_nq_destroy`
  unfoldable ncdev_nc_nq_destroy : (mmap_offset : ℕ) → M (Queues G K) (Unit {0})
  ncdev_nc_nq_destroy mmap_offset = do
    nq ← or_einval (nc_get_nq_from_mmap_offset mmap_offset)
    nc_nq_destroy k bar0 nq.nc_id nq.engine_index nq.nq_type

  -- `ncdev_mmap` of an open file: the number of the first page and the size that it maps. `remap` is
  -- the status of `remap_pfn_range`.
  unfoldable pub ncdev_mmap : (remap : Option Errno) (offset : ℕ) → M (Queues G K) (ℕ × ℕ)
  ncdev_mmap remap offset = do
    nq ← or_einval (nc_get_nq_from_mmap_offset offset)
    nc_nq_mmap k bar0 remap nq.nc_id nq.engine_index nq.nq_type
