-- ===== src/Cdev/Firmware.antt =====
-- Commands that are answered by the firmware, neuron_cdev.c: reset, readiness, metrics, hardware counters
-- and what a device is, after their argument is there. The status of a copy from or to the user's
-- memory is an argument, and so is whether `kmalloc` gives a buffer and what is in it. Left out of
-- `ncdev_device_info` are `pci_write_config_word` and the bytes of the struct that it does not set.
use aws_neuron_driver.Common.{
  ℕ, Bool, true, false, Option, none, some, List, [], ◌∷◌, ◌*◌, u32, length, if◌then◌else◌, Errno,
  M, Outcome, ok, err, bug, ◌>>=◌, ◌>>◌, pure, fail, efault, enomem,
}
use aws_neuron_driver.FwIo.Request.{Firmware, Channel}
use aws_neuron_driver.FwIo.Region.{Region}
use aws_neuron_driver.FwIo.Services.{
  fw_io_read, fw_io_post_metric, fw_io_topology, fw_io_is_reset_initiated, fw_io_is_device_ready,
  fw_io_initiate_reset,
}
pub mod Cached

-- What of `struct neuron_device` these commands use: `connected_devices` are the first
-- `connected_device_count` entries, none before the topology is known.
pub record DeviceState : Type 0 where
  pub channel : Channel
  pub connected_devices : List ℕ
  pub architecture : ℕ
  pub revision : ℕ
  pub bar0 : ℕ
  pub bar0_size : ℕ
  pub bar2 : ℕ
  pub bar2_size : ℕ

-- `struct neuron_ioctl_device_info`
pub record DeviceInfo : Type 0 where
  pub architecture : ℕ
  pub revision : ℕ
  pub connected_devices : List ℕ
  pub bar_address : ℕ × ℕ
  pub bar_size : ℕ × ℕ

-- `if (ret) return ret;` after a copy.
abbrev pub copied : {S : Type 0} → Option Errno → M S (Unit {0})
copied none s = ok tt s
copied (some e) s = err e s

abbrev pub info_of : DeviceState → DeviceInfo
info_of d = record {
  architecture = d.architecture;
  revision = d.revision;
  connected_devices = d.connected_devices;
  bar_address = (d.bar0, d.bar2);
  bar_size = (d.bar0_size, d.bar2_size);
}

-- The topology stored; any failure of it is answered by -EFAULT, and leaves no neighbours.
abbrev store_topology : DeviceState → Outcome Channel (List ℕ) → Outcome DeviceState (Unit {0})
store_topology d (ok ids c) = ok tt (record d { channel = c; connected_devices = ids })
store_topology d (err e c) = err efault (record d { channel = c })
store_topology d bug = bug

module _ (fw : Firmware) where
  -- The topology, if it is not known yet: nothing is known of a device without neighbours, so it is
  -- asked again.
  unfoldable pub discover : (reg_val : ℕ) → List ℕ → M DeviceState (Unit {0})
  unfolding fw_io_topology
  discover reg_val [] = λ d. store_topology d (fw_io_topology fw reg_val d.channel)
  discover reg_val (id ∷ ids) = pure tt

  -- `ncdev_device_info`; `reg_val` is not initialized, `copy` the status of its copy.
  unfoldable pub ncdev_device_info : (reg_val : ℕ) (copy : Option Errno) → M DeviceState DeviceInfo
  unfolding discover
  ncdev_device_info reg_val copy = do
    (λ d. discover reg_val d.connected_devices d)
    copied copy
    (λ d. ok (info_of d) d)

  -- `ncdev_post_metric`; `data` is none where `kmalloc` fails.
  unfoldable ncdev_post_metric :
      (metric : Option (List ℕ)) (copy : Option Errno) → M Channel (Unit {0})
  unfolding fw_io_post_metric
  ncdev_post_metric none copy = fail enomem
  ncdev_post_metric (some bytes) copy = do copied copy; answer ← fw_io_post_metric fw bytes; pure tt

  -- `ncdev_read_hw_counters` with the buffers that the two calls of `kmalloc` give, none where they
  -- fail, and the statuses of the copies; the result is what the user's buffer is filled with.
  unfoldable ncdev_read_hw_counters :
      (reg_addresses values : Option (List ℕ)) (copy_in copy_out : Option Errno)
      → M Channel (Option (List ℕ))
  unfolding fw_io_read
  ncdev_read_hw_counters none values copy_in copy_out = fail enomem
  ncdev_read_hw_counters (some addrs) none copy_in copy_out = do copied copy_in; pure none
  ncdev_read_hw_counters (some addrs) (some values) copy_in copy_out = do
    copied copy_in
    values' ← fw_io_read fw addrs values
    copied copy_out
    pure (some values')

  -- `ncdev_device_reset_status` and `ncdev_device_ready`; `val` is not initialized.
  unfoldable ncdev_device_reset_status :
      List (Option Region) → (bar0 val : ℕ) (copy : Option Errno) → M Channel Bool
  unfolding fw_io_is_reset_initiated
  ncdev_device_reset_status slots bar0 val copy = do
    result ← fw_io_is_reset_initiated fw slots bar0 val
    copied copy
    pure result

  unfoldable ncdev_device_ready :
      List (Option Region) → (bar0 val : ℕ) (copy : Option Errno) → M Channel Bool
  unfolding fw_io_is_device_ready
  ncdev_device_ready slots bar0 val copy = do
    result ← fw_io_is_device_ready fw slots bar0 val
    copied copy
    pure result

-- `ncdev_device_reset`
unfoldable pub ncdev_device_reset : M Channel (Unit {0})
unfolding fw_io_initiate_reset
ncdev_device_reset = fw_io_initiate_reset
