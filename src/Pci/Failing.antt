-- ===== src/Pci/Failing.antt =====
-- What holds of the state when a chain of the kernel's calls fails.
use aws_neuron_driver.Common.{
  Bool, true, false, Option, none, some, arith, M, Outcome, bind_out, ok, err, bug, Errno,
  if◌then◌else◌,
}
use aws_neuron_driver.Pci.{checked, or_undo, Pci, publish}

-- What holds of the state if a call fails.
abbrev pub OnErr : {S A : Type 0} → (S → Type 0) → Outcome S A → Type 0
OnErr P (ok a s) = Unit {0}
OnErr P (err e s) = P s
OnErr P bug = Unit {0}

-- A call in a state, and what holds if it fails.
pub record Failing (P : Pci → Type 0) (x : Outcome Pci (Unit {0})) : Type 0 where
  pub at_error : OnErr P x

module _ (P : Pci → Type 0) where
  pub Failing-checked :
      (x : Option Errno) (undo : Errno → M Pci (Unit {0})) (rest : M Pci (Unit {0})) (p : Pci)
      → ((e : Errno) → Failing P (undo e p))
      → Failing P (rest p)
      → Failing P (checked x undo rest p)
  unfolding checked
  Failing-checked none undo rest p failing passing = passing
  Failing-checked (some e) undo rest p failing passing = failing e

  pub Failing-if :
      (b : Bool) (f g : M Pci (Unit {0})) (p : Pci)
      → Failing P (f p)
      → Failing P (g p)
      → Failing P ((if b then f else g) p)
  Failing-if true f g p hf hg = hf
  Failing-if false f g p hf hg = hg

  pub Failing-or_undo :
      (Q : Pci → Type 0) (undo : Errno → M Pci (Unit {0})) (x : Outcome Pci (Unit {0}))
      → ((e : Errno) (q : Pci) → Q q → Failing P (undo e q))
      → Failing Q x
      → Failing P (or_undo undo x)
  unfolding or_undo
  Failing-or_undo Q undo (ok a q) undone held = record { at_error = tt }
  Failing-or_undo Q undo (err e q) undone held = undone e q held.at_error
  Failing-or_undo Q undo bug undone held = record { at_error = tt }

  pub Failing-then :
      (x : Outcome Pci (Unit {0})) (f : Unit {0} → M Pci (Unit {0}))
      → Failing P x
      → ((q : Pci) → Failing P (f tt q))
      → Failing P (bind_out x f)
  Failing-then (ok a q) f h k = k q
  Failing-then (err e q) f h k = record { at_error = h.at_error }
  Failing-then bug f h k = record { at_error = tt }

  pub Failing-publish : (q : Pci) → Failing P (publish q)
  unfolding publish
  Failing-publish q = record { at_error = ground arith }
