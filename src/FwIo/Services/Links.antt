-- ===== src/FwIo/Services/Links.antt =====
-- The neighbours that `fw_io_topology` reports.
use aws_neuron_driver.Common.{
  ℕ, zero, suc, Bool, true, false, List, [], ◌∷◌, ◌++◌, Option, none, some, ◌+◌, ◌≡◌, refl, sym, ap,
  ◌∙◌, arith, bit_and, ◌!=◌, length, M, Outcome, ok, err, bug, ◌>>=◌, bind_out-ok, pure, Bool-cases,
  inl, inr, ok-injective, bit_or,
}
use mathlib.Core.Option.{some-injective}
use aws_neuron_driver.FwIo.Request.{msleep, Firmware, Channel, execute_request}
use aws_neuron_driver.FwIo.Services.{
  overlay, u32s, array_bytes, only, fw_io_read, ready_or, wait_for_device_ready, or_one, link_id,
  neighbours, fw_io_topology, cmd_read, pciex4_0_base, pciex4_1_base, p_0_apb_misc_ram_base,
  device_ready_offset, device_id_offset,
}

length-overlay : (bytes buffer : List ℕ) → length (overlay bytes buffer) ≡ length buffer
unfolding overlay
length-overlay [] buffer = refl
length-overlay (b ∷ bytes) [] = refl
length-overlay (b ∷ bytes) (o ∷ buffer) = ap suc (length-overlay bytes buffer)

-- Four bytes make one word.
length-u32s : (bytes : List ℕ) → length bytes ≡ 4 → length (u32s bytes) ≡ 1
unfolding u32s
length-u32s [] e = absurd (omega arith)
length-u32s (a ∷ []) e = absurd (omega arith)
length-u32s (a ∷ b ∷ []) e = absurd (omega arith)
length-u32s (a ∷ b ∷ c ∷ []) e = absurd (omega arith)
length-u32s (a ∷ b ∷ c ∷ d ∷ []) e = refl
length-u32s (a ∷ b ∷ c ∷ d ∷ x ∷ bytes) e = absurd (omega arith)

one_element : (values : List ℕ) (v : ℕ) → length values ≡ 1 → only values ≡ v → values ≡ v ∷ []
one_element [] v e same = absurd (omega arith)
one_element (w ∷ []) v e same = ap (λ x. x ∷ []) same
one_element (w ∷ x ∷ values) v e same = absurd (omega arith)

module _ (fw : Firmware) where
  fw_io_read-one :
      (addr value : ℕ) (c c' : Channel) (ids : List ℕ)
      → fw_io_read fw (addr ∷ []) (value ∷ []) c ≡ ok ids c'
      → length ids ≡ 1
  unfolding fw_io_read array_bytes
  fw_io_read-one addr value c c' ids e =
      let (bytes, d, runs, last) =
        bind_out-ok (execute_request fw cmd_read (array_bytes 8 (addr ∷ [])) 4 c)
          (λ x. pure (u32s (overlay x (array_bytes 4 (value ∷ []))))) e in
      let whole = length-overlay bytes (array_bytes 4 (value ∷ [])) in
      let one_word = length-u32s (overlay bytes (array_bytes 4 (value ∷ []))) (whole ∙ refl) in
      let same : u32s (overlay bytes (array_bytes 4 (value ∷ []))) ≡ ids = cc in rw same at one_word

  or_one-ok :
      (x : Outcome Channel (List ℕ)) (ids : List ℕ) (c : Channel)
      → or_one x ≡ ok ids c
      → x ≡ ok ids c
  unfolding or_one
  or_one-ok (ok values d) ids c e = e
  or_one-ok (err x d) ids c e = cc
  or_one-ok bug ids c e = cc

  -- Where a round ends with a word: the next round gave it, or this round's read did.
  ready_or-some :
      (R : Type 0) (again : ℕ → M Channel (Option ℕ)) (x : Outcome Channel (List ℕ)) (v : ℕ)
      (c' : Channel)
      → ready_or again x ≡ ok (some v) c'
      → ((w : ℕ) (d : Channel) → again w d ≡ ok (some v) c' → R)
      → ((values : List ℕ)
          → x ≡ ok values c'
          → only values ≡ v
          → (bit_and v 0x80000000 != 0) ≡ true
          → R)
      → R
  unfolding ready_or
  ready_or-some R again (ok values d) v c' e later here =
      elim (Bool-cases (bit_and (only values) 0x80000000 != 0)) [
        | inl ready ↦
            let (some_same, state) =
              ok-injective (some (only values)) (some v) d c' (rw ready at e) in
            let same : only values ≡ v = some-injective _ _ some_same in
            here values (ap (λ s. ok values s) state) same (rw same at ready)
        | inr waits ↦ later (only values) d (rw waits at e)
      ]
  ready_or-some R again (err x d) v c' e later here = absurd cc
  ready_or-some R again bug v c' e later here = absurd cc

  -- A read of the ready register, at its address in the device's memory, has returned `v`.
  abbrev pub WasRead : (v : ℕ) → Channel → Type 0
  WasRead v c' =
      (c : Channel) × (before : ℕ) × (fw_io_read fw (0xffff078e01c ∷ []) (before ∷ []) c
        ≡ ok (v ∷ []) c')

  abbrev slept : Channel → Channel
  slept d = record d { trace = msleep 1000 ∷ d.trace }

  wait_for_device_ready-ready :
      (rounds reg_val v : ℕ) (c c' : Channel)
      → wait_for_device_ready fw rounds reg_val c ≡ ok (some v) c'
      → ((bit_and v 0x80000000 != 0) ≡ true) × WasRead v c'
  unfolding wait_for_device_ready
  wait_for_device_ready-ready zero reg_val v c c' e = absurd cc
  wait_for_device_ready-ready (suc rounds) reg_val v c c' e =
      ready_or-some (((bit_and v 0x80000000 != 0) ≡ true) × WasRead v c')
        (λ w d. wait_for_device_ready fw rounds w (slept d))
        (fw_io_read fw ((p_0_apb_misc_ram_base + device_ready_offset) ∷ []) (reg_val ∷ []) c) v c' e
        (λ w d next. wait_for_device_ready-ready rounds w v (slept d) c' next)
        (λ values read same ready.
          let one_word =
            fw_io_read-one (p_0_apb_misc_ram_base + device_ready_offset) reg_val c c' values read in
          (ready, (c, reg_val, read ∙ ap (λ vs. ok vs c') (one_element values v one_word same))))

  -- What is stored for a link: nothing when it is down, and else the one word that a read of the
  -- device behind it, at `addr`, answers.
  abbrev pub Stored : (up : Bool) (addr : ℕ) → List ℕ → (c c' : Channel) → Type 0
  Stored false addr ids c c' = (ids ≡ []) × (c' ≡ c)
  Stored true addr ids c c' =
      (fw_io_read fw (addr ∷ []) (0xffffffff ∷ []) c ≡ ok ids c') × (length ids ≡ 1)

  link_id-Stored :
      (up : Bool) (base : ℕ) (c c' : Channel) (ids : List ℕ)
      → link_id fw up base c ≡ ok ids c'
      → Stored up (bit_or base (p_0_apb_misc_ram_base + device_id_offset)) ids c c'
  unfolding link_id
  link_id-Stored false base c c' ids e =
      let (same, state) = ok-injective [] ids c c' e in (sym same, sym state)
  link_id-Stored true base c c' ids e =
      let asked = or_one-ok _ ids c' e in (asked, fw_io_read-one _ 0xffffffff c c' ids asked)

  -- The ids that the word `v` of the ready register tells to ask for, east before west.
  abbrev pub Neighbours : (v : ℕ) (d : Channel) (ids : List ℕ) (c' : Channel) → Type 0
  Neighbours v d ids c' =
      (east : List ℕ) × (west : List ℕ) × (d' : Channel) × Stored (bit_and v 1 != 0) 0x8ffff078e024
        east d d'
      × Stored (bit_and v 2 != 0) 0xcffff078e024 west d' c'
      × (ids ≡ east ++ west)

  neighbours-Neighbours :
      (v : ℕ) (c c' : Channel) (ids : List ℕ)
      → neighbours fw (some v) c ≡ ok ids c'
      → Neighbours v c ids c'
  unfolding neighbours
  neighbours-Neighbours v c c' ids e =
      let (east, d, runs_east, rest) =
        bind_out-ok (link_id fw (bit_and v 1 != 0) pciex4_0_base c)
          (λ east. link_id fw (bit_and v 2 != 0) pciex4_1_base >>= λ west. pure (east ++ west)) e in
      let (west, d', runs_west, last) =
        bind_out-ok (link_id fw (bit_and v 2 != 0) pciex4_1_base d) (λ west. pure (east ++ west))
          rest in
      let (joined, state) = ok-injective (east ++ west) ids d' c' last in
      (
        east,
        west,
        d,
        link_id-Stored (bit_and v 1 != 0) pciex4_0_base c d east runs_east,
        link_id-Stored (bit_and v 2 != 0) pciex4_1_base d c' west (rw state at runs_west),
        sym joined,
      )

  -- When `fw_io_topology` succeeds, its wait for the device ended with a word that a read of the
  -- ready register returned, with the ready bit set, and the ids are those of the neighbours that
  -- the word names, east before west: for each of its bits 0 and 1 that is set, the one word that
  -- a read of the id register of the device behind that link, made after the wait, succeeded
  -- with, and nothing for a bit that is not set.
  pub fw_io_topology-links :
      (reg_val : ℕ) (c c' : Channel) (ids : List ℕ)
      → fw_io_topology fw reg_val c ≡ ok ids c'
      → (v : ℕ) × (d : Channel) × (wait_for_device_ready fw 60 reg_val c ≡ ok (some v) d)
        × ((bit_and v 0x80000000 != 0) ≡ true)
        × WasRead v d
        × Neighbours v d ids c'
  unfolding fw_io_topology neighbours
  fw_io_topology-links reg_val c c' ids e =
      let (ready, d, runs, rest) =
        bind_out-ok (wait_for_device_ready fw 60 reg_val c) (λ ready. neighbours fw ready) e in
      by_ready ready d runs rest
    where
      by_ready :
          (ready : Option ℕ) (d : Channel)
          → wait_for_device_ready fw 60 reg_val c ≡ ok ready d
          → neighbours fw ready d ≡ ok ids c'
          → (v : ℕ) × (d : Channel) × (wait_for_device_ready fw 60 reg_val c ≡ ok (some v) d)
            × ((bit_and v 0x80000000 != 0) ≡ true)
            × WasRead v d
            × Neighbours v d ids c'
      by_ready none d runs rest = absurd cc
      by_ready (some v) d runs rest =
          let (ready, read) = wait_for_device_ready-ready 60 reg_val v c d runs in
          (v, d, runs, ready, read, neighbours-Neighbours v d c' ids rest)
