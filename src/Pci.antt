-- ===== src/Pci.antt =====
-- The driver's side of PCI, neuron_pci.c: a device is probed and removed, and what it holds meanwhile.
-- The kernel's calls and the set-up of the firmware channel, of the host pool and of the node are
-- parameters.
use aws_neuron_driver.Common.{
  ℕ, Bool, true, false, not, Option, none, some, ◌+◌, ◌==◌, leb, ◌||◌, if◌then◌else◌, M, Outcome,
  ok, err, bug, ◌>>=◌, ◌>>◌, pure, fail, bug_on, Errno, enodev, minus_one,
}
mod Failing
pub mod Release

-- What a device holds. `bars_mapped` counts the mappings by `pci_iomap`.
pub record Held : Type 0 where
  pub memory : Bool
  pub enabled : Bool
  pub apb_region : Bool
  pub axi_region : Bool
  pub bars_mapped : ℕ
  pub fw_io : Bool
  pub mpset : Bool
  pub device_node : Bool

-- `device_count`, `neuron_devices` and the device at hand: which index it has and what it holds.
pub record Pci : Type 0 where
  pub device_count : ℕ
  pub neuron_devices : ℕ → Bool
  pub device_index : ℕ
  pub held : Held

-- What the calls outside give: `none` for success, else the error code; `setup` is whether
-- `fw_io_setup` gives a context.
pub record Calls : Type 0 where
  pub kzalloc : Bool
  pub enable_device : Option Errno
  pub request_apb : Option Errno
  pub request_axi : Option Errno
  pub apb_len : ℕ
  pub apb_start : ℕ
  pub axi_start : ℕ
  pub setup : Bool
  pub host_init : Option Errno
  pub create_device_node : Option Errno
  pub delete_device_node : Option Errno

-- INF_VENDOR_ID and the ids of the devices it takes.
abbrev max_neuron_device_count : ℕ
max_neuron_device_count = 16

abbrev set_held : (Held → Held) → M Pci (Unit {0})
set_held f p = ok tt (record p { held = f p.held })

-- `if (ret) goto fail;` and the rest.
unfoldable pub checked :
    Option Errno → (Errno → M Pci (Unit {0})) → M Pci (Unit {0}) → M Pci (Unit {0})
checked none undo rest = rest
checked (some e) undo rest = undo e

-- The label that a failed call of the driver's own goes to.
unfoldable pub or_undo :
    (Errno → M Pci (Unit {0})) → Outcome Pci (Unit {0}) → Outcome Pci (Unit {0})
or_undo undo (ok a p) = ok a p
or_undo undo (err e p) = undo e p
or_undo undo bug = bug

-- The labels of `neuron_pci_device_init`, the last one first.
abbrev fail_mpset : Errno → M Pci (Unit {0})
fail_mpset e = do set_held (λ h. record h { fw_io = false }); fail e

abbrev fail_chardev : Errno → M Pci (Unit {0})
fail_chardev e = do set_held (λ h. record h { mpset = false }); fail_mpset e

-- `neuron_pci_device_init`
unfoldable pub device_init : Calls → M Pci (Unit {0})
unfolding checked
device_init c =
    if c.setup
    then (do
      set_held (λ h. record h { fw_io = true })
      checked c.host_init fail_mpset (do
        set_held (λ h. record h { mpset = true })
        checked c.create_device_node fail_chardev
            (set_held (λ h. record h { device_node = true }))))
    else fail minus_one

-- The labels of `neuron_pci_probe`, the last one first.
abbrev fail_enable : Errno → M Pci (Unit {0})
fail_enable e = do set_held (λ h. record h { memory = false }); fail e

abbrev fail_bar0_map : Errno → M Pci (Unit {0})
fail_bar0_map e = do set_held (λ h. record h { enabled = false }); fail_enable e

abbrev fail_bar0_resource : Errno → M Pci (Unit {0})
fail_bar0_resource e = do set_held (λ h. record h { apb_region = false }); fail_bar0_map e

abbrev fail_bar2_resource : Errno → M Pci (Unit {0})
fail_bar2_resource e = do set_held (λ h. record h { axi_region = false }); fail_bar0_resource e

-- `-ENODEV` where a resource is missing.
abbrev pub nodev_if : Bool → Option Errno
nodev_if true = some enodev
nodev_if false = none

abbrev map_bar : M Pci (Unit {0})
map_bar = set_held (λ h. record h { bars_mapped = h.bars_mapped + 1 })

-- `neuron_devices[nd->device_index] = nd` behind its `BUG_ON`; an index outside the array is taken as
-- the end of the kernel.
unfoldable pub publish : M Pci (Unit {0})
publish = λ p.
    let stored : Pci = record p {
      neuron_devices = λ i. if i == p.device_index then true else p.neuron_devices i;
    } in
    if leb max_neuron_device_count p.device_index || p.neuron_devices p.device_index
    then bug
    else ok tt stored

-- From the AXI region on.
unfoldable pub probe_axi : Calls → M Pci (Unit {0})
unfolding device_init publish checked or_undo
probe_axi c = checked c.request_axi fail_bar0_resource (do
  set_held (λ h. record h { axi_region = true })
  checked (nodev_if (c.axi_start == 0)) fail_bar2_resource (do
    map_bar
    (λ p. ok tt (record p { device_index = p.device_count; device_count = p.device_count + 1 }))
    (λ p. or_undo fail_bar2_resource (device_init c p))
    publish))

-- `neuron_pci_probe`; when there is no memory it returns 0.
unfoldable pub neuron_pci_probe : Calls → M Pci (Unit {0})
unfolding probe_axi checked
neuron_pci_probe c =
    if c.kzalloc
    then (do
      set_held (λ h. record h { memory = true })
      checked c.enable_device fail_enable (do
        set_held (λ h. record h { enabled = true })
        checked c.request_apb fail_bar0_map (do
          set_held (λ h. record h { apb_region = true })
          checked (nodev_if (c.apb_len == 0)) fail_bar0_resource (
              checked (nodev_if (c.apb_start == 0)) fail_bar0_resource (do map_bar; probe_axi c)))))
    else pure tt

-- `neuron_pci_device_close`
unfoldable pub device_close : Calls → M Pci (Unit {0})
unfolding checked
device_close c = checked c.delete_device_node fail (do
  set_held (λ h. record h { device_node = false })
  set_held (λ h. record h { mpset = false })
  set_held (λ h. record h { fw_io = false }))

-- The status of `neuron_pci_device_close` is not looked at.
abbrev close_anyway : Outcome Pci (Unit {0}) → Outcome Pci (Unit {0})
close_anyway (ok a p) = ok a p
close_anyway (err e p) = ok tt p
close_anyway bug = bug

-- `neuron_pci_remove` of a device that was probed
unfoldable pub neuron_pci_remove : Calls → M Pci (Unit {0})
unfolding device_close
neuron_pci_remove c = do
  set_held (λ h. record h { axi_region = false })
  set_held (λ h. record h { apb_region = false })
  set_held (λ h. record h { enabled = false })
  (λ p. close_anyway (device_close c p))
  (λ p. ok tt (record p {
    neuron_devices = λ i. if i == p.device_index then false else p.neuron_devices i;
  }))
  set_held (λ h. record h { memory = false })

-- `neuron_pci_get_device`: whether there is a device
unfoldable pub neuron_pci_get_device : (device_index : ℕ) → M Pci Bool
neuron_pci_get_device device_index = do
  bug_on (leb max_neuron_device_count device_index)
  (λ p. ok (p.neuron_devices device_index) p)
