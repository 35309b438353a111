-- ===== src/Cdev/Owner/Steps.antt =====
-- The life of a device node: processes that open and close it, take the device and release it, one whole
-- call after the other, also ncdev_close, which locks twice. Only a process with the thread group and
-- the parent of one with an open file closes, initializes or releases: a file that is inherited and
-- closed under another parent is left out.
use aws_neuron_driver.Common.{
  ℕ, Bool, true, false, Option, List, [], ◌∷◌, ◌^◌, ◌<◌, ◌≡◌, ◌&&◌, ◌==◌, if◌then◌else◌, length,
  Errno, Outcome, ok, err, bug,
}
use aws_neuron_driver.Cdev.Owner.{
  Proc, Node, closed_node, ncdev_open, ncdev_close, ncdev_device_init, ncdev_device_release,
}

-- A node and the processes behind its open files.
pub record System : Type 0 where
  pub node : Node
  pub files : List Proc

abbrev pub same_proc : Proc → Proc → Bool
same_proc p q = (p.tgid == q.tgid) && (p.ppid == q.ppid)

-- The files without one of `p`.
unfoldable pub close_one : Proc → List Proc → List Proc
close_one p [] = []
close_one p (q ∷ qs) = if same_proc p q then qs else q ∷ close_one p qs

unfoldable pub has_open : Proc → List Proc → Bool
has_open p [] = false
has_open p (q ∷ qs) = if same_proc p q then true else has_open p qs

-- The state that a call leaves behind.
abbrev pub left_by : Node → Outcome Node (Unit {0}) → Node
left_by n (ok a m) = m
left_by n (err e m) = m
left_by n bug = n

-- A bound on the open files of a system, well below that of an `int`.
abbrev pub max_files : ℕ
max_files = 2 ^ 30

-- One call; all but the opening by a process that `has_open`.
pub data Step (s : System) : System → Type 0 where
  opens :
      (p : Proc)
      → s.node.lock_held ≡ false
      → length s.files < max_files
      → Step s (record { node = left_by s.node (ncdev_open p s.node); files = p ∷ s.files })
  closes :
      (p : Proc)
      → s.node.lock_held ≡ false
      → has_open p s.files ≡ true
      → Step s
          (record { node = left_by s.node (ncdev_close p s.node); files = close_one p s.files })
  inits :
      (p : Proc) (copy : Option Errno) (mem_regions : ℕ) (pools rings : Option Errno)
      → s.node.lock_held ≡ false
      → has_open p s.files ≡ true
      → Step s (record s {
        node = left_by s.node (ncdev_device_init p copy mem_regions pools rings s.node);
      })
  releases :
      (p : Proc)
      → s.node.lock_held ≡ false
      → has_open p s.files ≡ true
      → Step s (record s { node = left_by s.node (ncdev_device_release p s.node) })

-- The states that a node goes through.
pub data Reach : System → Type 0 where
  start : Reach (record { node = closed_node; files = [] })
  next : {s t : System} → Reach s → Step s t → Reach t
