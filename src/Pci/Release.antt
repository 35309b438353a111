-- ===== src/Pci/Release.antt =====
-- What a failed probe and a removal leave behind.
use aws_neuron_driver.Common.{
  true, false, none, ◌+◌, ◌≡◌, ◌∙◌, refl, arith, ok, err, Errno, ◌==◌, if◌then◌else◌,
}
use aws_neuron_driver.Pci.{
  checked, nodev_if, Held, Pci, Calls, device_init, probe_axi, neuron_pci_probe, device_close,
  neuron_pci_remove,
}
use aws_neuron_driver.Pci.Failing.{
  Failing, Failing-checked, Failing-if, Failing-or_undo, Failing-then, Failing-publish,
}

-- Nothing but mappings is held.
pub record IsReleased (h : Held) : Type 0 where
  pub memory : h.memory ≡ false
  pub enabled : h.enabled ≡ false
  pub apb_region : h.apb_region ≡ false
  pub axi_region : h.axi_region ≡ false
  pub fw_io : h.fw_io ≡ false
  pub mpset : h.mpset ≡ false
  pub device_node : h.device_node ≡ false

-- The three parts of a device that `neuron_pci_device_init` makes are gone, the rest is as before.
record IsUndone (p q : Pci) : Type 0 where
  fw_io : q.held.fw_io ≡ false
  mpset : q.held.mpset ≡ false
  device_node : q.held.device_node ≡ false
  devices : q.neuron_devices ≡ p.neuron_devices

device_init-IsUndone :
    (c : Calls) (p : Pci)
    → p.held.fw_io ≡ false
    → p.held.mpset ≡ false
    → p.held.device_node ≡ false
    → Failing (IsUndone p) (device_init c p)
unfolding device_init
device_init-IsUndone c p fw_io mpset device_node =
    Failing-if (IsUndone p) c.setup _ _ p
      (Failing-checked (IsUndone p) c.host_init _ _ _
        (λ e. record {
          at_error = record {
            fw_io = refl;
            mpset = mpset;
            device_node = device_node;
            devices = refl;
          };
        })
        (Failing-checked (IsUndone p) c.create_device_node _ _ _
          (λ e. record {
            at_error = record {
              fw_io = refl;
              mpset = refl;
              device_node = device_node;
              devices = refl;
            };
          })
          (record { at_error = tt })))
      (record {
        at_error = record {
          fw_io = fw_io;
          mpset = mpset;
          device_node = device_node;
          devices = refl;
        };
      })

-- Everything is given back, and no device is listed that was not before.
record IsBack (p q : Pci) : Type 0 where
  released : IsReleased q.held
  devices : q.neuron_devices ≡ p.neuron_devices

-- The device when it has its index.
abbrev indexed : Pci → Pci
indexed q = record q {
  held = record q.held { axi_region = true; bars_mapped = q.held.bars_mapped + 1 };
  device_index = q.device_count;
  device_count = q.device_count + 1;
}

probe_axi-IsBack :
    (c : Calls) (p q : Pci)
    → q.neuron_devices ≡ p.neuron_devices
    → q.held.fw_io ≡ false
    → q.held.mpset ≡ false
    → q.held.device_node ≡ false
    → q.held.axi_region ≡ false
    → Failing (IsBack p) (probe_axi c q)
unfolding probe_axi
probe_axi-IsBack c p q devices fw_io mpset device_node axi_region =
    Failing-checked (IsBack p) c.request_axi _ _ _
      (λ e. record {
        at_error = record {
          released = record {
            memory = refl;
            enabled = refl;
            apb_region = refl;
            axi_region = axi_region;
            fw_io = fw_io;
            mpset = mpset;
            device_node = device_node;
          };
          devices = devices;
        };
      })
      (Failing-checked (IsBack p) (nodev_if (c.axi_start == 0)) _ _ _
        (λ e. record {
          at_error = record {
            released = record {
              memory = refl;
              enabled = refl;
              apb_region = refl;
              axi_region = refl;
              fw_io = fw_io;
              mpset = mpset;
              device_node = device_node;
            };
            devices = devices;
          };
        })
        (Failing-then (IsBack p) _ _
          (Failing-or_undo (IsBack p) (IsUndone (indexed q)) _ _
            (λ e s undone. record {
              at_error = record {
                released = record {
                  memory = refl;
                  enabled = refl;
                  apb_region = refl;
                  axi_region = refl;
                  fw_io = undone.fw_io;
                  mpset = undone.mpset;
                  device_node = undone.device_node;
                };
                devices = undone.devices ∙ devices;
              };
            })
            (device_init-IsUndone c _ fw_io mpset device_node))
          (λ s. Failing-publish (IsBack p) s)))

neuron_pci_probe-Failing :
    (c : Calls) (p : Pci) → IsReleased p.held → Failing (IsBack p) (neuron_pci_probe c p)
unfolding neuron_pci_probe
neuron_pci_probe-Failing c p r =
    Failing-if (IsBack p) c.kzalloc _ _ p
      (Failing-checked (IsBack p) c.enable_device _ _ _
        (λ e. record {
          at_error = record {
            released = record {
              memory = refl;
              enabled = r.enabled;
              apb_region = r.apb_region;
              axi_region = r.axi_region;
              fw_io = r.fw_io;
              mpset = r.mpset;
              device_node = r.device_node;
            };
            devices = refl;
          };
        })
        (Failing-checked (IsBack p) c.request_apb _ _ _
          (λ e. record {
            at_error = record {
              released = record {
                memory = refl;
                enabled = refl;
                apb_region = r.apb_region;
                axi_region = r.axi_region;
                fw_io = r.fw_io;
                mpset = r.mpset;
                device_node = r.device_node;
              };
              devices = refl;
            };
          })
          (Failing-checked (IsBack p) (nodev_if (c.apb_len == 0)) _ _ _ (λ e. without_apb)
            (Failing-checked (IsBack p) (nodev_if (c.apb_start == 0)) _ _ _ (λ e. without_apb)
              (probe_axi-IsBack c p _ refl r.fw_io r.mpset r.device_node r.axi_region)))))
      (record { at_error = tt })
  where
    without_apb :
        {x : Errno}
        → Failing (IsBack p) (
            err x (record p {
              held = record p.held { memory = false; enabled = false; apb_region = false };
            }))
    without_apb = record {
      at_error = record {
        released = record {
          memory = refl;
          enabled = refl;
          apb_region = refl;
          axi_region = r.axi_region;
          fw_io = r.fw_io;
          mpset = r.mpset;
          device_node = r.device_node;
        };
        devices = refl;
      };
    }

-- A failing probe, whichever call failed, leaves the device without memory, enabling, regions,
-- firmware context, pools and node if it had none of them, and the list of devices as it was;
-- mappings of BARs are not among these.
pub neuron_pci_probe-IsReleased :
    (c : Calls) (p p' : Pci) (e : Errno)
    → IsReleased p.held
    → neuron_pci_probe c p ≡ err e p'
    → IsReleased p'.held × (p'.neuron_devices ≡ p.neuron_devices)
neuron_pci_probe-IsReleased c p p' e r failed =
    let back : IsBack p p' = rw failed at (neuron_pci_probe-Failing c p r).at_error in
    (back.released, back.devices)

-- A removal whose node goes.
pub neuron_pci_remove-IsReleased :
    (c : Calls) (p : Pci)
    → c.delete_device_node ≡ none
    → (q : Pci) × (neuron_pci_remove c p ≡ ok tt q)
      × IsReleased q.held
      × (q.neuron_devices p.device_index ≡ false)
unfolding neuron_pci_remove device_close checked
neuron_pci_remove-IsReleased c p gone = (
  record {
    device_count = p.device_count;
    neuron_devices = λ i. if i == p.device_index then false else p.neuron_devices i;
    device_index = p.device_index;
    held = record {
      memory = false;
      enabled = false;
      apb_region = false;
      axi_region = false;
      bars_mapped = p.held.bars_mapped;
      fw_io = false;
      mpset = false;
      device_node = false;
    };
  },
  rw gone refl,
  record {
    memory = refl;
    enabled = refl;
    apb_region = refl;
    axi_region = refl;
    fw_io = refl;
    mpset = refl;
    device_node = refl;
  },
  ground arith,
)
