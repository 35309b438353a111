-- ===== src/Cdev/Owner.antt =====
-- Which process owns a device, neuron_cdev.c: `open`, `close`, and the commands that take and release
-- the device. The counts are C's `int`, as words of 32 bits. What a call does to the memory pools and
-- to the rings is in the models of those; here it is an entry of `calls`.
use aws_neuron_driver.Common.{
  ℕ, Bool, true, false, Option, none, some, List, [], ◌∷◌, ◌+◌, ◌&&◌, ◌||◌, u32, sub32, ◌==◌,
  if◌then◌else◌, Errno, M, Outcome, ok, err, bug, ◌>>=◌, ◌>>◌, pure, fail, fail_if, ebusy,
}
pub mod Counts
pub mod Laws
pub mod Steps

-- A process as the driver sees it: `task_tgid_nr(current)` and `task_ppid_nr(current)`.
pub record Proc : Type 0 where
  pub tgid : ℕ
  pub ppid : ℕ

pub data Call : Type 0 where
  mpset_device_init : (mem_regions : ℕ) → Call
  ndmar_init nc_nq_destroy_all ndmar_close mpset_free_all clear_num_regions : Call

-- `struct ncdev` with the fields of its `struct neuron_device` that say who owns it, and
-- `ncdev_device_lock`.
pub record Node : Type 0 where
  pub open_count : ℕ
  pub current_pid : ℕ
  pub current_pid_open_count : ℕ
  pub lock_held : Bool
  pub calls : List Call

-- A node that nobody has opened.
abbrev pub closed_node : Node
closed_node = record {
  open_count = 0;
  current_pid = 0;
  current_pid_open_count = 0;
  lock_held = false;
  calls = [];
}

abbrev pub change : (Node → Node) → M Node (Unit {0})
change f n = ok tt (f n)

abbrev mutex_lock : M Node (Unit {0})
mutex_lock = change (λ n. record n { lock_held = true })

abbrev mutex_unlock : M Node (Unit {0})
mutex_unlock = change (λ n. record n { lock_held = false })

abbrev emit_call : Call → M Node (Unit {0})
emit_call c = change (λ n. record n { calls = c ∷ n.calls })

-- The test by which a process or its child counts as the owner.
unfoldable pub is_current : (current_pid : ℕ) → Proc → Bool
is_current current_pid p = (current_pid == p.tgid) || (current_pid == p.ppid)

unfoldable pub count_open : Proc → Node → Node
count_open p n = record n {
  open_count = u32 (n.open_count + 1);
  current_pid_open_count =
      if is_current n.current_pid p
      then u32 (n.current_pid_open_count + 1)
      else n.current_pid_open_count;
}

-- `ncdev_open` of a node that has a device.
unfoldable pub ncdev_open : Proc → M Node (Unit {0})
unfolding count_open
ncdev_open p = do mutex_lock; change (count_open p); mutex_unlock

unfoldable pub forget_owner : Proc → Node → Node
forget_owner p n = record n {
  current_pid =
      if (n.current_pid_open_count == 0) && is_current n.current_pid p then 0 else n.current_pid;
}

-- What is torn down when no file is open.
unfoldable pub tear_down : M Node (Unit {0})
tear_down = do
  emit_call nc_nq_destroy_all
  emit_call ndmar_close
  emit_call mpset_free_all
  emit_call clear_num_regions

-- `ncdev_device_release`
unfoldable pub ncdev_device_release : Proc → M Node (Unit {0})
unfolding forget_owner tear_down
ncdev_device_release p = do
  mutex_lock
  change (forget_owner p)
  (λ n. if n.open_count == 0 then tear_down n else ok tt n)
  mutex_unlock

unfoldable pub count_close : Proc → Node → Node
count_close p n = record n {
  open_count = sub32 n.open_count 1;
  current_pid_open_count =
      if is_current n.current_pid p
      then sub32 n.current_pid_open_count 1
      else n.current_pid_open_count;
}

-- `ncdev_close`
unfoldable pub ncdev_close : Proc → M Node (Unit {0})
unfolding count_close
ncdev_close p = do mutex_lock; change (count_close p); mutex_unlock; ncdev_device_release p

-- `return ret` with the status of a call.
abbrev status : Option Errno → M Node (Unit {0})
status none = pure tt
status (some e) = fail e

-- The end of `ncdev_device_init`, after the pools are there.
unfoldable pub take_device : Proc → (rings : Option Errno) → M Node (Unit {0})
take_device p rings = do
  change (λ n. record n { current_pid = p.tgid; current_pid_open_count = 1 })
  emit_call ndmar_init
  mutex_unlock
  status rings

-- `mpset_device_init` with its status, and what depends on it.
unfoldable pub init_device :
    Proc → (mem_regions : ℕ) → (pools rings : Option Errno) → M Node (Unit {0})
unfolding take_device
init_device p mem_regions none rings = do
  emit_call (mpset_device_init mem_regions)
  take_device p rings
init_device p mem_regions (some e) rings = do
  emit_call (mpset_device_init mem_regions)
  mutex_unlock
  fail e

-- `ncdev_device_init` by the process `p`. The statuses of `copy_from_user`, `mpset_device_init` and
-- `ndmar_init` are arguments; after a failed copy it returns with the lock held.
unfoldable pub ncdev_device_init :
    Proc
    → (copy : Option Errno) → (mem_regions : ℕ) → (pools rings : Option Errno) → M Node (Unit {0})
unfolding init_device
ncdev_device_init p copy mem_regions pools rings = do
  mutex_lock
  status copy
  (λ n.
      if n.current_pid == 0
      then init_device p mem_regions pools rings n
      else (do mutex_unlock; fail_if (if n.current_pid == p.tgid then false else true) ebusy) n)
