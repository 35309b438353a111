-- ===== src/Core/Sync.antt =====
-- The words of the semaphores and events of a device, and the path of a semaphore read.
use aws_neuron_driver.Common.{
  ℕ, List, [], ◌∷◌, Option, some, ◌+◌, ◌-◌, ◌*◌, ◌^◌, ◌≤◌, ◌<◌, ◌≡◌, refl, sym, ◌∙◌, arith,
  le→ltb-false, ltb, if◌then◌else◌, u64, M, ok, err, einval,
}
use aws_neuron_driver.FwIo.Region.{Region, request, fw_io_register_read_region}
use aws_neuron_driver.FwIo.Region.Laws.{Apart, Within, translated, fw_io_read_csr_array-registered}
use aws_neuron_driver.Core.{
  nc_get_axi_offset, nc_get_semaphore_base, nc_get_event_addr, semaphore_addr, nc_size,
  event_offset, sema_read_offset, sema_set_offset, sema_incr_offset, sema_decr_offset, Write,
  nc_semaphore_write, nc_semaphore_increment, nc_semaphore_decrement, nc_event_set,
  nc_semaphore_read,
}

-- What a host can do to a core: the four kinds of write.
pub data Op : Type 0 where
  set increment decrement event : Op

unfoldable pub run : (bar2 : ℕ) → Op → (nc_id index value : ℕ) → M (List Write) (Unit {0})
run bar2 set nc_id index value = nc_semaphore_write bar2 nc_id index value
run bar2 increment nc_id index value = nc_semaphore_increment bar2 nc_id index value
run bar2 decrement nc_id index value = nc_semaphore_decrement bar2 nc_id index value
run bar2 event nc_id index value = nc_event_set bar2 nc_id index value

-- How many indices an operation accepts: one more than there are semaphores or events.
unfoldable limit : Op → ℕ
limit set = 33
limit increment = 33
limit decrement = 33
limit event = 257

-- The offset of an operation's words in a core's part of the BAR.
unfoldable pub window : Op → ℕ
window set = sema_set_offset
window increment = sema_incr_offset
window decrement = sema_decr_offset
window event = event_offset

-- The word that an operation writes.
unfoldable pub word : (bar2 : ℕ) → Op → (nc_id index : ℕ) → ℕ
unfolding window
word bar2 op nc_id index = bar2 + nc_id * nc_size + (window op + 4 * index)

-- For a BAR2 below 2 ^ 63, an 8-bit core and a 16-bit index, setting, incrementing or
-- decrementing a semaphore or setting an event writes the value to the one word of that core,
-- operation and index if the index is at most 32, or at most 256 for an event, and returns EINVAL
-- and writes nothing otherwise.
run_lem :
    (bar2 : ℕ) (op : Op) (nc_id index value : ℕ) (trace : List Write)
    → bar2 < 2 ^ 63
    → nc_id < 256
    → index < 2 ^ 16
    → run bar2 op nc_id index value trace ≡ (
        if ltb index (limit op)
        then ok tt (record { addr = word bar2 op nc_id index; value = value } ∷ trace)
        else err einval trace)
unfolding run limit word window nc_semaphore_write nc_semaphore_increment nc_semaphore_decrement
    nc_event_set semaphore_addr nc_get_semaphore_base nc_get_event_addr nc_get_axi_offset
run_lem bar2 set nc_id index value trace h n i = ground arith
run_lem bar2 increment nc_id index value trace h n i = ground arith
run_lem bar2 decrement nc_id index value trace h n i = ground arith
run_lem bar2 event nc_id index value trace h n i = ground arith

-- What a run that writes a word says.
writes :
    (bar2 : ℕ) (op : Op) (nc_id index value : ℕ) (w : Write)
    → bar2 < 2 ^ 63
    → nc_id < 256
    → index < 2 ^ 16
    → run bar2 op nc_id index value [] ≡ ok tt (w ∷ [])
    → (index < limit op) × (w.addr ≡ word bar2 op nc_id index)
writes bar2 op nc_id index value w h n i runs =
    let e = sym (run_lem bar2 op nc_id index value [] h n i) ∙ runs in
    (ground (arith, e), ground (arith, e))

-- Accepted indices give different words.
word-injective :
    (bar2 : ℕ) (op op' : Op) (nc_id nc_id' index index' : ℕ)
    → index < limit op
    → index' < limit op'
    → word bar2 op nc_id index ≡ word bar2 op' nc_id' index'
    → (op ≡ op') × ((nc_id ≡ nc_id') × (index ≡ index'))
unfolding word limit window
word-injective bar2 set set nc_id nc_id' index index' h h' e = (refl, (omega arith, omega arith))
word-injective bar2 set increment nc_id nc_id' index index' h h' e = absurd (omega arith)
word-injective bar2 set decrement nc_id nc_id' index index' h h' e = absurd (omega arith)
word-injective bar2 set event nc_id nc_id' index index' h h' e = absurd (omega arith)
word-injective bar2 increment set nc_id nc_id' index index' h h' e = absurd (omega arith)
word-injective bar2 increment increment nc_id nc_id' index index' h h' e =
    (refl, (omega arith, omega arith))
word-injective bar2 increment decrement nc_id nc_id' index index' h h' e = absurd (omega arith)
word-injective bar2 increment event nc_id nc_id' index index' h h' e = absurd (omega arith)
word-injective bar2 decrement set nc_id nc_id' index index' h h' e = absurd (omega arith)
word-injective bar2 decrement increment nc_id nc_id' index index' h h' e = absurd (omega arith)
word-injective bar2 decrement decrement nc_id nc_id' index index' h h' e =
    (refl, (omega arith, omega arith))
word-injective bar2 decrement event nc_id nc_id' index index' h h' e = absurd (omega arith)
word-injective bar2 event set nc_id nc_id' index index' h h' e = absurd (omega arith)
word-injective bar2 event increment nc_id nc_id' index index' h h' e = absurd (omega arith)
word-injective bar2 event decrement nc_id nc_id' index index' h h' e = absurd (omega arith)
word-injective bar2 event event nc_id nc_id' index index' h h' e =
    (refl, (omega arith, omega arith))

-- For a BAR2 below 2 ^ 63, 8-bit cores and 16-bit indices, two operations that set, increment or
-- decrement a semaphore or set an event, each of which writes one word, write the same word only
-- if they are the same operation on the same index of the same core.
pub run-injective :
    (bar2 : ℕ) (op op' : Op) (nc_id nc_id' index index' value value' : ℕ) (w w' : Write)
    → bar2 < 2 ^ 63
    → nc_id < 256
    → nc_id' < 256
    → index < 2 ^ 16
    → index' < 2 ^ 16
    → run bar2 op nc_id index value [] ≡ ok tt (w ∷ [])
    → run bar2 op' nc_id' index' value' [] ≡ ok tt (w' ∷ [])
    → w.addr ≡ w'.addr
    → (op ≡ op') × ((nc_id ≡ nc_id') × (index ≡ index'))
run-injective bar2 op op' nc_id nc_id' index index' value value' w w' h n n' i i' runs runs' same =
    let (below, at) = writes bar2 op nc_id index value w h n i runs in
    let (below', at') = writes bar2 op' nc_id' index' value' w' h n' i' runs' in
    word-injective bar2 op op' nc_id nc_id' index index' below below' (sym at ∙ same ∙ at')

-- Once a region that starts at BAR2, below 2 ^ 63, is registered, reading a semaphore below 32
-- whose word lies in the region and in no region registered before is one request to the
-- firmware, for the device address of the semaphore.
nc_semaphore_read-request :
    (region : Region) (slots after : List (Option Region)) (nc_id index : ℕ)
    → region.region_ptr_end < 2 ^ 63
    → region.region_ptr_start + nc_id * nc_size + (sema_read_offset + 4 * index) + 4
      ≤ region.region_ptr_end
    → index < 32
    → Apart (region.region_ptr_start + nc_id * nc_size + (sema_read_offset + 4 * index)) slots
    → fw_io_register_read_region region slots ≡ some after
    → nc_semaphore_read region.region_ptr_start after nc_id index
      ≡ some (
          request region.ctx (
            u64
              (region.device_physical_address + (nc_id * nc_size + (sema_read_offset + 4 * index)))
            ∷ []))
unfolding nc_semaphore_read semaphore_addr nc_get_semaphore_base nc_get_axi_offset Within translated
nc_semaphore_read-request region slots after nc_id index high fits i apart registered =
    let ptr : ℕ = region.region_ptr_start + nc_id * nc_size + (sema_read_offset + 4 * index) in
    let addr : semaphore_addr region.region_ptr_start sema_read_offset nc_id index ≡ ptr =
      omega arith in
    let offset : ptr - region.region_ptr_start ≡ nc_id * nc_size + (sema_read_offset + 4 * index) =
      omega arith in
    let asked =
      fw_io_read_csr_array-registered region slots after ptr [] apart
        (omega arith, (omega arith, tt)) (omega arith) registered in
    rw (le→ltb-false 32 index (omega arith), addr, asked, offset) refl
