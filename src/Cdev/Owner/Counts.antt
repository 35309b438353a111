-- ===== src/Cdev/Owner/Counts.antt =====
-- The counts of a node against its open files.
use aws_neuron_driver.Common.{
  ℕ, Bool, true, false, List, [], ◌∷◌, ◌+◌, ◌≤◌, ◌<◌, ◌≡◌, ◌≢◌, ◌&&◌, ◌==◌, inl, inr, refl, u32,
  sub32, ==-false→ne, Bool-cases, arith, if◌then◌else◌, length, ok,
}
use aws_neuron_driver.Cdev.Owner.{
  Proc, Node, clear_num_regions, mpset_free_all, ndmar_close, nc_nq_destroy_all, is_current,
  forget_owner, tear_down, ncdev_device_release,
}
use aws_neuron_driver.Cdev.Owner.Steps.{System, same_proc, close_one, has_open, max_files}

-- The open files of the owner and of its children.
unfoldable pub holders : (current_pid : ℕ) → List Proc → ℕ
holders pid [] = 0
holders pid (p ∷ ps) = (if is_current pid p then 1 else 0) + holders pid ps

-- The counts are those of the files; an owner has at least one counted file, all of them open.
pub record IsCounted (open_count pid count : ℕ) (files : List Proc) : Type 0 where
  pub counted : open_count ≡ length files
  pub few : length files ≤ max_files
  pub held : pid ≢ 0 → (1 ≤ count) × (count ≤ holders pid files)

abbrev pub IsOwned : System → Type 0
IsOwned s = IsCounted s.node.open_count s.node.current_pid s.node.current_pid_open_count s.files

pub holders-length : (pid : ℕ) (ps : List Proc) → holders pid ps ≤ length ps
unfolding holders
holders-length pid [] = omega arith
holders-length pid (p ∷ ps) = elim (Bool-cases (is_current pid p)) [
  | inl e ↦ rw e (omega (arith, holders-length pid ps))
  | inr e ↦ rw e (omega (arith, holders-length pid ps))
]

-- The processes of a pair that look alike count alike.
same_proc-is_current :
    (pid : ℕ) (p q : Proc) → same_proc p q ≡ true → is_current pid q ≡ is_current pid p
unfolding is_current
same_proc-is_current pid p q e = ground arith

pub length-close_one :
    (p : Proc) (ps : List Proc) → has_open p ps ≡ true → length (close_one p ps) + 1 ≡ length ps
unfolding close_one has_open
length-close_one p [] e = absurd (cc e)
length-close_one p (q ∷ qs) e = elim (Bool-cases (same_proc p q)) [
  | inl x ↦ rw x (omega arith)
  | inr x ↦ rw x (omega (arith, length-close_one p qs (rw x at e)))
]

holders-close_one :
    (pid : ℕ) (p : Proc) (ps : List Proc)
    → has_open p ps ≡ true
    → holders pid (close_one p ps) + (if is_current pid p then 1 else 0) ≡ holders pid ps
unfolding close_one has_open holders
holders-close_one pid p [] e = absurd (cc e)
holders-close_one pid p (q ∷ qs) e = elim (Bool-cases (same_proc p q)) [
  | inl x ↦ rw x (rw (same_proc-is_current pid p q x) (omega arith))
  | inr x ↦ rw x (omega (arith, holders-close_one pid p qs (rw x at e)))
]

-- The node after a release.
abbrev pub released : Proc → Node → Node
released p n = record n {
  current_pid =
      if (n.current_pid_open_count == 0) && is_current n.current_pid p then 0 else n.current_pid;
  lock_held = false;
  calls =
      if n.open_count == 0
      then clear_num_regions ∷ mpset_free_all ∷ ndmar_close ∷ nc_nq_destroy_all ∷ n.calls
      else n.calls;
}

pub release-released : (p : Proc) (n : Node) → ncdev_device_release p n ≡ ok tt (released p n)
unfolding ncdev_device_release forget_owner tear_down
release-released p n = elim (Bool-cases (n.open_count == 0)) [
  | inl e ↦ rw e refl
  | inr e ↦ rw e refl
]

pub IsCounted-opens :
    (pid count opened : ℕ) (files : List Proc) (p : Proc)
    → IsCounted opened pid count files
    → length files < max_files
    → IsCounted
        (u32 (opened + 1))
        pid
        (if is_current pid p then u32 (count + 1) else count)
        (p ∷ files)
unfolding holders
IsCounted-opens pid count opened files p i few = record {
  counted = omega (arith, i.counted);
  few = omega arith;
  held = λ ne.
      let h = i.held ne in
      elim (Bool-cases (is_current pid p)) [
        | inl e ↦
            rw e (
              omega (arith, holders-length pid files, h),
              omega (arith, holders-length pid files, h),
            )
        | inr e ↦ rw e (h.0, omega (arith, h.1))
      ];
}

&&-false : (b : Bool) → (b && false) ≡ false
&&-false true = refl
&&-false false = refl

&&-true : (b : Bool) → (b && true) ≡ b
&&-true true = refl
&&-true false = refl

-- A close, and the release that follows it.
pub IsCounted-closes :
    (pid count opened : ℕ) (files : List Proc) (p : Proc)
    → IsCounted opened pid count files
    → has_open p files ≡ true
    → let count' = if is_current pid p then sub32 count 1 else count in
      IsCounted
        (sub32 opened 1)
        (if (count' == 0) && is_current pid p then 0 else pid)
        count'
        (close_one p files)
IsCounted-closes pid count opened files p i has = record {
  counted = omega (arith, i.counted, i.few, length-close_one p files has);
  few = omega (arith, i.few, length-close_one p files has);
  held = elim (Bool-cases (is_current pid p)) [
    | inl e ↦ rw e (
        rw (&&-true (sub32 count 1 == 0)) (elim (Bool-cases (sub32 count 1 == 0)) [
          | inl z ↦ rw z (λ ne. absurd (ne refl))
          | inr z ↦ rw z (λ ne.
              let h = i.held ne in
              let left : holders pid (close_one p files) + 1 ≡ holders pid files =
                rw e at (holders-close_one pid p files has) in
              let more = ==-false→ne (sub32 count 1) 0 z in
              let bound = holders-length pid files in
              (omega (arith, more), omega (arith, h, i.few)))
        ]))
    | inr e ↦ rw e (
        rw (&&-false (count == 0)) (λ ne.
          let h = i.held ne in
          let left : holders pid (close_one p files) + 0 ≡ holders pid files =
            rw e at (holders-close_one pid p files has) in
          (h.0, omega (arith, h.1))))
  ];
}

same_cur : (p q : Proc) → same_proc p q ≡ true → is_current p.tgid q ≡ true
unfolding is_current
same_cur p q e = ground arith

pub holders-has_open : (p : Proc) (ps : List Proc) → has_open p ps ≡ true → 1 ≤ holders p.tgid ps
unfolding holders has_open is_current
holders-has_open p [] e = absurd (cc e)
holders-has_open p (q ∷ qs) e = elim (Bool-cases (same_proc p q)) [
  | inl x ↦ rw (same_cur p q x) (omega arith)
  | inr x ↦ omega (arith, holders-has_open p qs (rw x at e))
]

pub IsCounted-release :
    (b : Bool) (pid count opened : ℕ) (files : List Proc)
    → IsCounted opened pid count files
    → IsCounted opened (if b then 0 else pid) count files
IsCounted-release false pid count opened files i = i
IsCounted-release true pid count opened files i = record {
  counted = i.counted;
  few = i.few;
  held = λ ne. absurd (ne refl);
}
