-- ===== src/Cdev/Bar/Inside.antt =====
-- A process writes registers in order, and only of the region that it named.
use aws_neuron_driver.Common.{
  ℕ, Option, none, some, List, [], ◌∷◌, ◌++◌, ◌+◌, ◌^◌, ◌≤◌, ◌<◌, ◌≡◌, refl, ap, u64, ◌==◌, ltb,
  if◌then◌else◌, All, get_or, Errno, Leaves, Leaves-bind_out, Bool-cases, inl, inr, ltb-false→le,
  arith,
}
use aws_neuron_driver.Mempool.{sub64}
use aws_neuron_driver.Core.{Write}
use aws_neuron_driver.Cdev.Bar.{Bar, write_at, write_each, write_from, bar_write, pairs}

-- The writes since `old` all lie in `b`, the end included.
abbrev pub Within : Bar → List Write → List Write → Type 0
Within b old new =
    (ws : List Write) × (new ≡ ws ++ old)
    × All (λ (w : Write). (b.base ≤ w.addr) × (w.addr ≤ b.base + b.size)) ws

module _ (b : Bar) (fits : b.base + b.size < 2 ^ 64) (old : List Write) where
  write_at-Within :
      (off value : ℕ) (log : List Write)
      → Within b old log
      → Leaves (Within b old) (write_at b off value log)
  unfolding write_at
  write_at-Within off value log (ws, e, all) = elim (Bool-cases (ltb b.size off)) [
    | inl x ↦ rw x (ws, e, all)
    | inr x ↦
        let le = ltb-false→le b.size off x in
        rw x (
          record { addr = u64 (b.base + off); value = value } ∷ ws,
          ap (λ t. record { addr = u64 (b.base + off); value = value } ∷ t) e,
          ((omega arith, omega arith), all),
        )
  ]

  write_each-Within :
      (ps : List (ℕ × ℕ)) (log : List Write)
      → Within b old log
      → Leaves (Within b old) (write_each b ps log)
  unfolding write_each
  write_each-Within [] log h = h
  write_each-Within ((addr, value) ∷ rest) log h =
      Leaves-bind_out (Within b old) (write_at b (sub64 addr b.base) value log)
        (λ _. write_each b rest) (λ x s q. write_each-Within rest s q)
        (write_at-Within (sub64 addr b.base) value log h)

  write_from-Within :
      (off : ℕ) (vs : List ℕ) (log : List Write)
      → Within b old log
      → Leaves (Within b old) (write_from b off vs log)
  unfolding write_from
  write_from-Within off [] log h = h
  write_from-Within off (value ∷ rest) log h =
      Leaves-bind_out (Within b old) (write_at b off value log)
        (λ _. write_from b (u64 (off + 4)) rest)
        (λ x s q. write_from-Within (u64 (off + 4)) rest s q) (write_at-Within off value log h)

-- `ncdev_bar_write` on BARs that end below 2 ^ 64 writes no register outside the one that the
-- process names, whether it succeeds or fails, where the address right behind the BAR counts as
-- inside.
pub bar_write-Within :
    (bar0 bar2 : Bar) (bar buffer : ℕ) (copy : Option Errno) (reg_addresses words : List ℕ)
    (log : List Write)
    → bar0.base + bar0.size < 2 ^ 64
    → bar2.base + bar2.size < 2 ^ 64
    → Leaves
        (Within (if bar == 0 then bar0 else bar2) log)
        (bar_write bar0 bar2 bar buffer copy reg_addresses words log)
unfolding bar_write
bar_write-Within bar0 bar2 bar buffer copy addrs words log f0 f2 = elim (Bool-cases (buffer == 0)) [
  | inl x ↦ rw x unchanged
  | inr x ↦ rw x (copied copy)
]
  where
    unchanged : Within (if bar == 0 then bar0 else bar2) log log
    unchanged = ([], refl, tt)

    copied :
        (c : Option Errno)
        → Leaves
            (Within (if bar == 0 then bar0 else bar2) log)
            (bar_write bar0 bar2 bar 1 c addrs words log)
    copied (some e) = unchanged
    copied none = elim (Bool-cases (bar == 0)) [
      | inl x ↦ rw x (write_each-Within bar0 f0 log (pairs addrs words) log ([], refl, tt))
      | inr x ↦ rw x (
          write_from-Within bar2 f2 log (sub64 (get_or addrs 0 0) bar2.base) words log
            ([], refl, tt))
    ]
