-- ===== src/Cdev/Owner/Laws.antt =====
-- Who owns a device, in every state that a node reaches.
use aws_neuron_driver.Common.{
  ℕ, Bool, true, false, Option, none, some, List, [], ◌≤◌, ◌≡◌, ◌≢◌, ◌&&◌, ◌==◌, ◌⊎◌, inl, inr,
  refl, sym, ap, ◌∙◌, ne→==-false, Bool-cases, arith, if◌then◌else◌, length, Errno, ok,
}
use native.Mathlib.Decide.{ℕ_discrete}
use aws_neuron_driver.Cdev.Owner.{
  Proc, Node, is_current, count_open, count_close, init_device, take_device, ncdev_open,
  ncdev_close, ncdev_device_init, ncdev_device_release,
}
use aws_neuron_driver.Cdev.Owner.Steps.{
  System, has_open, left_by, Step, opens, closes, inits, releases, Reach, start, next,
}
use aws_neuron_driver.Cdev.Owner.Counts.{
  holders, IsCounted, IsOwned, holders-length, length-close_one, release-released, IsCounted-opens,
  IsCounted-closes, holders-has_open, IsCounted-release,
}

abbrev NodeCounted : Node → List Proc → Type 0
NodeCounted n files = IsCounted n.open_count n.current_pid n.current_pid_open_count files

init_device-IsCounted :
    (p : Proc) (mem_regions : ℕ) (pools rings : Option Errno) (n0 n : Node) (files : List Proc)
    → has_open p files ≡ true
    → NodeCounted n files
    → NodeCounted (left_by n0 (init_device p mem_regions pools rings n)) files
unfolding init_device take_device
init_device-IsCounted p k (some e) rings n0 n files has i = i
init_device-IsCounted p k none rings n0 n files has i = by_rings rings
  where
    taken : IsCounted n.open_count p.tgid 1 files
    taken = record {
      counted = i.counted;
      few = i.few;
      held = λ ne. (omega arith, holders-has_open p files has);
    }

    by_rings :
        (rings : Option Errno) → NodeCounted (left_by n0 (init_device p k none rings n)) files
    by_rings none = taken
    by_rings (some e) = taken

device_init-IsCounted :
    (p : Proc) (copy : Option Errno) (mem_regions : ℕ) (pools rings : Option Errno) (n : Node)
    (files : List Proc)
    → has_open p files ≡ true
    → NodeCounted n files
    → NodeCounted (left_by n (ncdev_device_init p copy mem_regions pools rings n)) files
unfolding ncdev_device_init
device_init-IsCounted p (some e) k pools rings n files has i = i
device_init-IsCounted p none k pools rings n files has i = elim (Bool-cases (n.current_pid == 0)) [
  | inl x ↦
      rw x (init_device-IsCounted p k pools rings n (record n { lock_held = true }) files has i)
  | inr x ↦ rw x (elim (Bool-cases (n.current_pid == p.tgid)) [ inl y ↦ rw y i | inr y ↦ rw y i ])
]

IsOwned-Step : {s t : System} → Step s t → IsOwned s → IsOwned t
unfolding ncdev_open count_open ncdev_close count_close
IsOwned-Step {s} (opens p free few) i =
    IsCounted-opens s.node.current_pid s.node.current_pid_open_count s.node.open_count s.files p i
      few
IsOwned-Step {s} (closes p free has) i =
    rw (release-released p (record (count_close p s.node) { lock_held = false })) (
      IsCounted-closes s.node.current_pid s.node.current_pid_open_count s.node.open_count s.files p
        i has)
IsOwned-Step {s} (inits p copy k pools rings free has) i =
    device_init-IsCounted p copy k pools rings s.node s.files has i
IsOwned-Step {s} (releases p free has) i = rw (release-released p s.node) (
    IsCounted-release ((s.node.current_pid_open_count == 0) && is_current s.node.current_pid p)
      s.node.current_pid s.node.current_pid_open_count s.node.open_count s.files i)

-- In every state that a node reaches by whole calls that open, close, initialize and release, one
-- after the other, where fewer than 2 ^ 30 files are open before each opening, and each other
-- call is by a process with the thread group and the parent of one that opened a file that is
-- still open, `open_count` is the number of open files, and while the device has an owner its
-- `current_pid_open_count` is at least 1 and at most the number of open files of the owner and
-- its children.
pub Reach-IsOwned : {s : System} → Reach s → IsOwned s
unfolding holders
Reach-IsOwned start = record { counted = refl; few = omega arith; held = λ ne. absurd (ne refl) }
Reach-IsOwned (next r st) = IsOwned-Step st (Reach-IsOwned r)

-- In every state that a node reaches and in which no file is open, nobody owns the device.
Reach-free : {s : System} → Reach s → s.files ≡ [] → s.node.current_pid ≡ 0
unfolding holders
Reach-free {s} r e = elim (ℕ_discrete s.node.current_pid 0) [
  | yes z ↦ z
  | no ne ↦
      let h = (Reach-IsOwned r).held ne in
      absurd (
        omega (
          arith,
          h,
          holders-length s.node.current_pid s.files,
          ap (λ (ps : List Proc). length ps) e,
        ))
]

owner_kept :
    (p : Proc) (n : Node)
    → (n.current_pid ≢ 0 → 1 ≤ n.current_pid_open_count)
    → (if (n.current_pid_open_count == 0) && is_current n.current_pid p then 0 else n.current_pid)
      ≡ n.current_pid
owner_kept p n h = elim (ℕ_discrete n.current_pid 0) [
  | yes z ↦ if_same ((n.current_pid_open_count == 0) && is_current n.current_pid p) n.current_pid z
  | no ne ↦
      let more : 1 ≤ n.current_pid_open_count = h ne in
      rw (ne→==-false n.current_pid_open_count 0 (λ e. omega (arith, e))) refl
]
  where
    if_same : (b : Bool) (a : ℕ) → a ≡ 0 → (if b then 0 else a) ≡ a
    if_same true a e = sym e
    if_same false a e = refl

-- NEURON_IOCTL_DEVICE_RELEASE by a process that has the node open changes nothing.
ncdev_device_release_idle :
    {s : System} (p : Proc)
    → Reach s
    → s.node.lock_held ≡ false
    → has_open p s.files ≡ true
    → ncdev_device_release p s.node ≡ ok tt s.node
ncdev_device_release_idle {s} p r free has =
    let i = Reach-IsOwned r in
    let opened : s.node.open_count ≢ 0 =
      λ e. omega (arith, e, i.counted, length-close_one p s.files has) in
    release-released p s.node
    ∙ ap (λ n. ok tt n)
        (rw (owner_kept p s.node (λ ne. (i.held ne).0))
          (rw (ne→==-false s.node.open_count 0 opened) (rw free refl)))

kept_or_cleared : (b : Bool) (a : ℕ) → ((if b then 0 else a) ≡ a) ⊎ ((if b then 0 else a) ≡ 0)
kept_or_cleared true a = inr refl
kept_or_cleared false a = inl refl

-- No call on a device that is owned replaces its owner by another process: after each step the
-- owner is the one before, or there is none.
Step-current_pid :
    {s t : System}
    → Step s t
    → s.node.current_pid ≢ 0
    → (t.node.current_pid ≡ s.node.current_pid) ⊎ (t.node.current_pid ≡ 0)
unfolding ncdev_open count_open ncdev_close count_close ncdev_device_init
Step-current_pid (opens p free few) ne = inl refl
Step-current_pid {s} (closes p free has) ne =
    let n : Node = record (count_close p s.node) { lock_held = false } in
    rw (release-released p n) (
      kept_or_cleared ((n.current_pid_open_count == 0) && is_current s.node.current_pid p)
        s.node.current_pid)
Step-current_pid {s} (inits p (some e) k pools rings free has) ne = inl refl
Step-current_pid {s} (inits p none k pools rings free has) ne =
    rw (ne→==-false s.node.current_pid 0 ne) (elim (Bool-cases (s.node.current_pid == p.tgid)) [
      | inl y ↦ rw y (inl refl)
      | inr y ↦ rw y (inl refl)
    ])
Step-current_pid {s} (releases p free has) ne = rw (release-released p s.node) (
    kept_or_cleared ((s.node.current_pid_open_count == 0) && is_current s.node.current_pid p)
      s.node.current_pid)

-- Once the lock is left held, no call on the node is ever done.
lock_held-stuck : {s t : System} → s.node.lock_held ≡ true → ¬ Step s t
lock_held-stuck h (opens p free few) = cc
lock_held-stuck h (closes p free has) = cc
lock_held-stuck h (inits p copy k pools rings free has) = cc
lock_held-stuck h (releases p free has) = cc
