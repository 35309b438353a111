-- ===== src/Cdev/Access.antt =====
-- Which handler a command reaches, and for whom.
use aws_neuron_driver.Common.{
  ℕ, Bool, true, false, Option, none, some, List, [], ◌∷◌, ◌&&◌, ◌||◌, ◌==◌, ◌!=◌, ◌≡◌, ◌≢◌, inl,
  inr, refl, sym, ◌∙◌, Bool-cases, ==_iff, arith,
}
use mathlib.Core.Bool.{not}
use native.Mathlib.Decide.{ℕ_discrete}
use mathlib.Core.Option.{some-injective}
use aws_neuron_driver.Cdev.Ioctl
use aws_neuron_driver.Cdev.Ioctl.{Dir, io, ior, iow, iowr, Cmd}
use aws_neuron_driver.Cdev.{
  Handler, dir_code, same_cmd, commands, first_match, owner_commands, is_among, call, answer,
  ncdev_ioctl, device_reset, device_reset_status, device_ready, dma_engine_init,
  dma_engine_set_state, dma_queue_init, dma_ack_completed, dma_queue_release, dma_copy_descriptors,
  mem_alloc, mem_get_pa, mem_free, mem_copy, bar_rw, post_metric, nc_nq_init, nc_nq_destroy,
}

dir_code-injective : (a b : Dir) → dir_code a ≡ dir_code b → a ≡ b
dir_code-injective io io e = refl
dir_code-injective ior ior e = refl
dir_code-injective iow iow e = refl
dir_code-injective iowr iowr e = refl
dir_code-injective io ior e = absurd (omega arith)
dir_code-injective io iow e = absurd (omega arith)
dir_code-injective io iowr e = absurd (omega arith)
dir_code-injective ior io e = absurd (omega arith)
dir_code-injective ior iow e = absurd (omega arith)
dir_code-injective ior iowr e = absurd (omega arith)
dir_code-injective iow io e = absurd (omega arith)
dir_code-injective iow ior e = absurd (omega arith)
dir_code-injective iow iowr e = absurd (omega arith)
dir_code-injective iowr io e = absurd (omega arith)
dir_code-injective iowr ior e = absurd (omega arith)
dir_code-injective iowr iow e = absurd (omega arith)

&&-split : (a b : Bool) → (a && b) ≡ true → (a ≡ true) × (b ≡ true)
&&-split true b e = (refl, e)
&&-split false b e = absurd (cc e)

same_cmd_sound : (a b : Cmd) → same_cmd a b ≡ true → a ≡ b
unfolding same_cmd
same_cmd_sound a b e =
    let (d, rest) = &&-split (dir_code a.dir == dir_code b.dir) _ e in
    let (n, s) = &&-split (a.nr == b.nr) (a.size == b.size) rest in
    let dirs = dir_code-injective a.dir b.dir ((==_iff (dir_code a.dir) (dir_code b.dir)).0 d) in
    rw dirs (rw ((==_iff a.nr b.nr).0 n) (rw ((==_iff a.size b.size).0 s) refl))

-- A test of all rows of a table of commands.
unfoldable every : (Cmd → Handler → Bool) → List (Cmd × Handler) → Bool
every p [] = true
every p ((d, h) ∷ rest) = p d h && every p rest

-- The row that a search finds passes the test that all rows pass.
first_match-every :
    (p : Cmd → Handler → Bool) (c : Cmd) (h : Handler) (es : List (Cmd × Handler))
    → every p es ≡ true
    → first_match c es ≡ some h
    → p c h ≡ true
unfolding first_match every
first_match-every p c h [] all e = cc
first_match-every p c h ((d, g) ∷ rest) all e =
    let (here, later) = &&-split (p d g) (every p rest) all in
    elim (Bool-cases (same_cmd c d)) [
      | inl x ↦ rw (same_cmd_sound c d x) (rw (some-injective g h (rw x at e)) at here)
      | inr x ↦ first_match-every p c h rest later (rw x at e)
    ]

-- The handlers that only the owner of a device may reach.
abbrev needs_owner : Handler → Bool
needs_owner device_reset = true
needs_owner device_reset_status = true
needs_owner dma_engine_init = true
needs_owner dma_engine_set_state = true
needs_owner dma_queue_init = true
needs_owner dma_ack_completed = true
needs_owner dma_queue_release = true
needs_owner dma_copy_descriptors = true
needs_owner mem_alloc = true
needs_owner mem_free = true
needs_owner mem_copy = true
needs_owner mem_get_pa = true
needs_owner (bar_rw false) = true
needs_owner post_metric = true
needs_owner nc_nq_init = true
needs_owner nc_nq_destroy = true
needs_owner _ = false

abbrev guarded : Cmd → Handler → Bool
guarded c h = not (needs_owner h) || is_among c owner_commands

commands-guarded : every guarded commands ≡ true
unfolding every is_among same_cmd
commands-guarded = refl

call-injective : (o : Option Handler) (h : Handler) → answer o ≡ call h → o ≡ some h
unfolding answer
call-injective none h e = absurd (cc e)
call-injective (some g) h e = cc

-- A call that reaches a handler that needs the owner is the owner's.
ncdev_ioctl-owner :
    (current_pid pid : ℕ) (c : Cmd) (h : Handler)
    → ncdev_ioctl current_pid pid c ≡ call h
    → needs_owner h ≡ true
    → current_pid ≡ pid
unfolding ncdev_ioctl
ncdev_ioctl-owner current_pid pid c h e needs = elim (ℕ_discrete current_pid pid) [
  | yes same ↦ same
  | no differ ↦ elim (Bool-cases (is_among c owner_commands)) [
    | inl x ↦ absurd (cc (rw (!=_true current_pid pid differ) at (rw x at e)))
    | inr x ↦
        let row =
          first_match-every guarded c h commands commands-guarded
            (call-injective (first_match c commands) h (rw x at e)) in
        absurd (cc (rw x at (rw needs at row)))
  ]
]
  where
    !=_true : (a b : ℕ) → a ≢ b → (a != b) ≡ true
    !=_true a b ne = ground arith

-- A process that is not the device's owner reaches with no command the handlers of device reset
-- and reset status, of initializing an engine, setting its state, initializing or releasing a
-- queue, acknowledging descriptors and copying descriptors to a queue, of allocating, freeing and
-- copying chunks and asking for their address, of writing registers of a BAR, posting a metric,
-- and making or destroying notification queues. No other handler is claimed to be out of reach:
-- device initialization and release, queue starts, buffer copies, reading descriptors, semaphores
-- and events are not among these.
pub ncdev_ioctl-stranger :
    (current_pid pid : ℕ) (c : Cmd) (h : Handler)
    → current_pid ≢ pid
    → needs_owner h ≡ true
    → ncdev_ioctl current_pid pid c ≢ call h
ncdev_ioctl-stranger current_pid pid c h ne owner e =
    ne (ncdev_ioctl-owner current_pid pid c h e owner)

abbrev not_ready : Cmd → Handler → Bool
not_ready c device_ready = false
not_ready c _ = true

-- The table without its third row.
abbrev without_third : List (Cmd × Handler) → List (Cmd × Handler)
without_third (a ∷ b ∷ r ∷ rest) = a ∷ b ∷ rest
without_third es = es

abbrev past_third : List (Cmd × Handler) → List (Cmd × Handler)
past_third (a ∷ b ∷ r ∷ rest) = rest
past_third es = []

-- A row is never found behind another with the same number.
first_match-shadowed :
    (c d : Cmd) (a : Cmd × Handler) (h g : Handler) (rest : List (Cmd × Handler))
    → first_match c (a ∷ (d, h) ∷ (d, g) ∷ rest) ≡ first_match c (a ∷ (d, h) ∷ rest)
unfolding first_match
first_match-shadowed c d a h g rest = elim (Bool-cases (same_cmd c d)) [
  | inl x ↦ rw x refl
  | inr x ↦ rw x refl
]

without_ready : every not_ready (without_third commands) ≡ true
unfolding every
without_ready = refl

-- No command reaches the handler of NEURON_IOCTL_DEVICE_READY, whoever issues it.
ncdev_ioctl-device_ready :
    (current_pid pid : ℕ) (c : Cmd) → ncdev_ioctl current_pid pid c ≢ call device_ready
unfolding ncdev_ioctl
ncdev_ioctl-device_ready current_pid pid c e =
    elim (Bool-cases (is_among c owner_commands && (current_pid != pid))) [
      | inl x ↦ cc (rw x at e)
      | inr x ↦
          let found = call-injective (first_match c commands) device_ready (rw x at e) in
          let short : first_match c commands ≡ first_match c (without_third commands) =
            first_match-shadowed c Ioctl.device_ready (Ioctl.device_reset, device_reset)
              device_reset_status device_ready (past_third commands) in
          cc (
            first_match-every not_ready c device_ready (without_third commands) without_ready
              (sym short ∙ found))
    ]
