-- ===== src/Cdev/Notifications/Mapped.antt =====
-- The offset that a queue's initialization hands out maps the queue.
use aws_neuron_driver.Common.{
  ℕ, false, Option, none, some, u8, u32, ◌^◌, ◌/◌, ◌<◌, ◌≡◌, refl, sym, ap, ◌∙◌, arith, bit_or, leb,
  ok, err, M, ◌>>=◌, ◌>>◌, Errno, bind_out-ok, ok-injective, Bool-cases, inl, inr, pure,
}
use aws_neuron_driver.Mempool.{Chunk, Kernel, loc_host}
use aws_neuron_driver.Mempool.Alloc.{mc_alloc}
use aws_neuron_driver.Dma.{pciex8_0_base}
use aws_neuron_driver.Core.{nc_get_nq_mmap_offset, nc_get_nq_from_mmap_offset}
use aws_neuron_driver.Core.Offsets.{reopened, nc_get_nq_from_mmap_offset-nc_get_nq_mmap_offset}
use aws_neuron_driver.Core.Queues.{
  nc_per_device, max_nq_supported, Queues, nq_id, nq_cfg, set_slot, write_cfg, slot_chunk,
  back_in_world, nc_nq_init, nc_nq_mmap, mapped,
}
use aws_neuron_driver.Cdev.Firmware.{copied}
use aws_neuron_driver.Cdev.Notifications.{
  NotificationsInit, or_einval, ncdev_nc_nq_init, ncdev_mmap,
}

module _ {G K : Type 0} (k : Kernel G K) (bar0 : ℕ) where
  write_cfg-nq_mc :
      (nc_id : ℕ) (reg : Option ℕ) (value : ℕ) (q q' : Queues G K)
      → write_cfg k bar0 nc_id reg value q ≡ ok tt q'
      → q'.nq_mc ≡ q.nq_mc
  unfolding write_cfg
  write_cfg-nq_mc nc_id none value q q' e = absurd cc
  write_cfg-nq_mc nc_id (some offset) value q q' e =
      ap (λ (s : Queues G K). s.nq_mc) (sym (ok-injective tt tt _ q' e).1)

  slot_chunk-slot :
      (nc_id id size : ℕ) (slot : Option Chunk) (q q' : Queues G K) (c : Chunk)
      → q.nq_mc nc_id id ≡ slot
      → slot_chunk k bar0 nc_id id size slot q ≡ ok c q'
      → q'.nq_mc nc_id id ≡ some c
  unfolding slot_chunk
  slot_chunk-slot nc_id id size (some d) q q' c there e =
      let (same, state) = ok-injective d c q q' e in
      ap (λ (s : Queues G K). s.nq_mc nc_id id) (sym state) ∙ there ∙ ap some same
  slot_chunk-slot nc_id id size none q q' c there e =
      let (d, q1, made, last) =
        bind_out-ok (back_in_world k bar0 q (mc_alloc k size loc_host 0 0 nc_id q.world))
          (λ d s. ok d (set_slot k bar0 nc_id id (some d) s)) e in
      let (same, state) = ok-injective d c (set_slot k bar0 nc_id id (some d) q1) q' last in
      ap (λ (s : Queues G K). s.nq_mc nc_id id) (sym state) ∙ ground (arith, same)

  -- The three writes of `nc_nq_init` for a chunk.
  abbrev program : (nc_id eng_index nq_type size : ℕ) → Chunk → M (Queues G K) (Unit {0})
  program nc_id eng_index nq_type size c =
      write_cfg k bar0 nc_id (nq_cfg nq_type eng_index 0) (u32 (bit_or c.pa pciex8_0_base))
      >> (write_cfg k bar0 nc_id (nq_cfg nq_type eng_index 1)
            (u32 (bit_or c.pa pciex8_0_base / 2 ^ 32))
          >> write_cfg k bar0 nc_id (nq_cfg nq_type eng_index 2) size)

  program-nq_mc :
      (nc_id eng_index nq_type size : ℕ) (c : Chunk) (q q' : Queues G K)
      → program nc_id eng_index nq_type size c q ≡ ok tt q'
      → q'.nq_mc ≡ q.nq_mc
  program-nq_mc nc_id eng_index nq_type size c q q' e =
      let low =
        write_cfg k bar0 nc_id (nq_cfg nq_type eng_index 0) (u32 (bit_or c.pa pciex8_0_base)) in
      let high =
        write_cfg k bar0 nc_id (nq_cfg nq_type eng_index 1)
          (u32 (bit_or c.pa pciex8_0_base / 2 ^ 32)) in
      let count = write_cfg k bar0 nc_id (nq_cfg nq_type eng_index 2) size in
      let (u, q1, e1, r1) = bind_out-ok (low q) (λ u. high >> count) e in
      let (v, q2, e2, e3) = bind_out-ok (high q1) (λ u. count) r1 in
      write_cfg-nq_mc nc_id _ _ q2 q' e3
      ∙ write_cfg-nq_mc nc_id _ _ q1 q2 e2
      ∙ write_cfg-nq_mc nc_id _ _ q q1 e1

  -- The queue has memory when its initialization succeeds.
  nc_nq_init-slot :
      (nc_id eng_index nq_type size : ℕ) (q q' : Queues G K)
      → nc_nq_init k bar0 nc_id eng_index nq_type size q ≡ ok tt q'
      → (c : Chunk) × (q'.nq_mc nc_id (nq_id eng_index nq_type) ≡ some c)
  unfolding nc_nq_init
  nc_nq_init-slot nc_id eng_index nq_type size q q' e =
      let id : ℕ = nq_id eng_index nq_type in
      elim (Bool-cases (leb nc_per_device nc_id)) [
        | inl outside ↦ absurd (cc (rw outside at e))
        | inr inside ↦ elim (Bool-cases (leb max_nq_supported id)) [
          | inl beyond ↦ absurd (cc (rw beyond at (rw inside at e)))
          | inr within ↦
              let (c, q1, slot, rest) =
                bind_out-ok (slot_chunk k bar0 nc_id id size (q.nq_mc nc_id id) q)
                  (program nc_id eng_index nq_type size) (rw within at (rw inside at e)) in
              (
                c,
                ap (λ (mc : ℕ → ℕ → Option Chunk). mc nc_id id)
                      (program-nq_mc nc_id eng_index nq_type size c q1 q' rest)
                    ∙ slot_chunk-slot nc_id id size (q.nq_mc nc_id id) q q1 c refl slot,
              )
        ]
      ]

  or_einval-ok :
      {A : Type 0} (o : Option A) (a : A) (q q' : Queues G K)
      → or_einval o q ≡ ok a q'
      → (o ≡ some a) × (q ≡ q')
  or_einval-ok none a q q' e = absurd cc
  or_einval-ok (some b) a q q' e =
      let (same, state) = ok-injective b a q q' e in (ap some same, state)

  copied-ok : (copy : Option Errno) (q q' : Queues G K) → copied copy q ≡ ok tt q' → q ≡ q'
  copied-ok none q q' e = (ok-injective tt tt q q' e).1
  copied-ok (some x) q q' e = absurd cc

  nc_nq_mmap-slot :
      (nc_id eng_index nq_type : ℕ) (c : Chunk) (q : Queues G K)
      → nc_id < 4
      → eng_index < 4
      → nq_type < 4
      → q.nq_mc nc_id (nq_id eng_index nq_type) ≡ some c
      → (nc_nq_mmap k bar0 none nc_id eng_index nq_type q ≡ ok (c.pa / 4096, c.size) q)
        × ((error : Errno) → nc_nq_mmap k bar0 (some error) nc_id eng_index nq_type q ≡ err error q)
  unfolding nc_nq_mmap mapped nq_id
  nc_nq_mmap-slot nc_id eng_index nq_type c q nc eng type slot =
      let in_core : leb nc_per_device nc_id ≡ false = ground arith in
      let in_slots : leb max_nq_supported (nq_id eng_index nq_type) ≡ false = ground arith in
      (rw (in_core, in_slots, slot) refl, λ error. rw (in_core, in_slots, slot) refl)

  -- For a core, an engine and a queue type below 4, `ncdev_mmap` of the offset that a successful
  -- `ncdev_nc_nq_init` hands out asks for the pages from that of the start of the chunk that the
  -- slot of that queue then holds, and for its size, where `remap_pfn_range` succeeds, returns
  -- its error where it fails, and changes no queue.
  pub ncdev_mmap-ncdev_nc_nq_init :
      (arg : NotificationsInit) (copy : Option Errno) (q q' : Queues G K) (offset : ℕ)
      → arg.nc_id < 4
      → arg.engine_index < 4
      → arg.nq_type < 4
      → ncdev_nc_nq_init k bar0 arg copy q ≡ ok offset q'
      → (c : Chunk) × (q'.nq_mc arg.nc_id (nq_id arg.engine_index arg.nq_type) ≡ some c)
        × (ncdev_mmap k bar0 none offset q' ≡ ok (c.pa / 4096, c.size) q')
        × ((error : Errno) → ncdev_mmap k bar0 (some error) offset q' ≡ err error q')
  unfolding ncdev_nc_nq_init ncdev_mmap reopened
  ncdev_mmap-ncdev_nc_nq_init arg copy q q' offset nc eng type e =
      let asked : Option ℕ = nc_get_nq_mmap_offset arg.nc_id arg.engine_index arg.nq_type in
      let (u, q1, made, rest) =
        bind_out-ok (nc_nq_init k bar0 (u8 arg.nc_id) (u8 arg.engine_index) arg.nq_type arg.size q)
          (λ u. or_einval asked >>= λ offset. copied copy >> pure offset) e in
      let (off, q2, got, rest2) =
        bind_out-ok (or_einval asked q1) (λ offset. copied copy >> pure offset) rest in
      let (v, q3, stored, last) = bind_out-ok (copied copy q2) (λ v. pure off) rest2 in
      let (asked_is, same1) = or_einval-ok asked off q1 q2 got in
      let same2 = copied-ok copy q2 q3 stored in
      let (same_offset, same3) = ok-injective off offset q3 q' last in
      let narrow_nc : u8 arg.nc_id ≡ arg.nc_id = omega arith in
      let narrow_eng : u8 arg.engine_index ≡ arg.engine_index = omega arith in
      let (c, slot) =
        nc_nq_init-slot (u8 arg.nc_id) (u8 arg.engine_index) arg.nq_type arg.size q q1 made in
      let state : q1 ≡ q' = same1 ∙ same2 ∙ same3 in
      let slot' : q'.nq_mc arg.nc_id (nq_id arg.engine_index arg.nq_type) ≡ some c =
        rw state at (rw (narrow_nc, narrow_eng) at slot) in
      let named : nc_get_nq_from_mmap_offset offset
          ≡ some (record {
            nc_id = arg.nc_id;
            engine_index = arg.engine_index;
            nq_type = arg.nq_type;
          }) =
        rw same_offset at (
          rw asked_is at (
            nc_get_nq_from_mmap_offset-nc_get_nq_mmap_offset arg.nc_id arg.engine_index arg.nq_type
              nc eng type)) in
      let maps = nc_nq_mmap-slot arg.nc_id arg.engine_index arg.nq_type c q' nc eng type slot' in
      (c, slot', rw named maps.0, λ error. rw named (maps.1 error))
