-- ===== src/Tests/Nodes.antt =====
-- The commands of a node and its owners.
use aws_neuron_driver.Common.{
  ℕ, none, List, [], ◌∷◌, ◌+◌, ◌<◌, ◌≡◌, ◌≢◌, ◌⊎◌, refl, arith, M, ok, err, einval, Leaves,
}
use aws_neuron_driver.Mempool.{Chunk, loc_device}
use aws_neuron_driver.Cdev.{call, ncdev_ioctl, mem_alloc}
use aws_neuron_driver.Cdev.Ioctl
use aws_neuron_driver.Cdev.Access.{ncdev_ioctl-stranger}
use aws_neuron_driver.Cdev.Owner.{
  Proc, mpset_device_init, ndmar_init, closed_node, is_current, ncdev_open, ncdev_device_init,
}
use aws_neuron_driver.Cdev.Owner.Steps.{has_open, System, Step, opens, inits, Reach, start, next}
use aws_neuron_driver.Cdev.Owner.Counts.{IsOwned}
use aws_neuron_driver.Cdev.Owner.Laws.{Reach-IsOwned}
use aws_neuron_driver.Cdev.Copies.{transfer, Copying, Env, copy_loop, copy_fuel, mem_copy, act}
use aws_neuron_driver.Cdev.Copies.Loop.{Piece, Covers, run_pieces, copy_loop-pieces}
use aws_neuron_driver.Cdev.Copies.Ranges.{StaysInside, mem_copy-StaysInside}
use aws_neuron_driver.Cdev.Bar.{Bar, bar_write}
use aws_neuron_driver.Cdev.Bar.Inside.{Within, bar_write-Within}
use aws_neuron_driver.Dma.Chunks.{Transfer}
use aws_neuron_driver.Tests.Pools.{kernel, world, low}

ncdev_ioctl-stranger_example : ncdev_ioctl 7 8 Ioctl.mem_alloc ≢ call mem_alloc
ncdev_ioctl-stranger_example =
    ncdev_ioctl-stranger 7 8 Ioctl.mem_alloc mem_alloc (λ e. omega (arith, e)) refl

abbrev owner : Proc
owner = record { tgid = 7; ppid = 1 }

-- A process opens the node and takes the device.
abbrev opened : System
opened = record { node = record closed_node { open_count = 1 }; files = owner ∷ [] }

opened-Reach : Reach opened
unfolding ncdev_open is_current
opened-Reach = next start (opens owner refl (omega arith))

abbrev taken : System
taken = record opened {
  node = record opened.node {
    current_pid = 7;
    current_pid_open_count = 1;
    calls = ndmar_init ∷ mpset_device_init 4 ∷ [];
  };
}

taken-Step : Step opened taken
unfolding ncdev_device_init has_open
taken-Step = inits owner none 4 none none refl refl

taken-Reach : Reach taken
taken-Reach = next opened-Reach taken-Step

Reach-IsOwned_example : IsOwned taken
Reach-IsOwned_example = Reach-IsOwned taken-Reach

-- A copy that notes its pieces.
abbrev noted : (at size : ℕ) → M (List Piece) (Unit {0})
noted at size ps = ok tt (record { at = at; size = size } ∷ ps)

copy_loop-pieces_example :
    (ps : List Piece) × Covers 0 100000 ps
    × (copy_loop noted (copy_fuel 100000) 0 100000 ≡ run_pieces noted ps)
copy_loop-pieces_example = copy_loop-pieces noted 100000 (omega arith)

abbrev env : Env
env = record {
  status = λ done a. none;
  descs = λ done va i. record { tx_buf_ptr = 0; rx_buf1_ptr = 0 };
}

abbrev copying : Copying ℕ ℕ
copying = record { world = world; actions = [] }

abbrev on_device : (pa : ℕ) → Chunk
on_device pa = record low { pa = pa; mem_location = loc_device }

mem_copy-StaysInside_example :
    (((0x100 < 240 + 16) ⊎ (0x100 < 0 + 16))
      × (mem_copy kernel env (on_device 0x4000) (on_device 0x6000) 16 240 0 copying
          ≡ err einval copying))
    ⊎ ((t : Transfer) × StaysInside kernel env (on_device 0x4000) (on_device 0x6000) t
        × (mem_copy kernel env (on_device 0x4000) (on_device 0x6000) 16 240 0 copying
            ≡ act kernel env (transfer t) copying))
mem_copy-StaysInside_example =
    mem_copy-StaysInside kernel env (on_device 0x4000) (on_device 0x6000) 16 240 0 copying refl refl
      (omega arith) (omega arith) (omega arith) (omega arith)

abbrev bar : (base : ℕ) → Bar
bar base = record { base = base; size = 0x1000 }

bar_write-Within_example :
    Leaves
      (Within (bar 0x10000) [])
      (bar_write (bar 0x10000) (bar 0x20000) 0 1 none (0x10010 ∷ 0x10020 ∷ []) (5 ∷ 6 ∷ []) [])
bar_write-Within_example =
    bar_write-Within (bar 0x10000) (bar 0x20000) 0 1 none (0x10010 ∷ 0x10020 ∷ []) (5 ∷ 6 ∷ []) []
      (omega arith) (omega arith)
