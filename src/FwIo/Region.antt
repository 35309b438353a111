-- ===== src/FwIo/Region.antt =====
-- The table of BAR regions that the firmware can read, `fwio_read_regions` of v1/fw_io.c, and the
-- translation of BAR addresses to device addresses.
use aws_neuron_driver.Common.{
  ℕ, zero, suc, Bool, true, false, ◌&&◌, List, [], ◌∷◌, Option, none, some, ◌+◌, ◌-◌, ◌*◌, ltb, leb,
  if◌then◌else◌, length, u64,
}
pub mod Laws

-- `struct fwio_read_region` with its context; a slot whose context is null is `none`.
pub record Region : Type 0 where
  pub ctx : ℕ
  pub region_ptr_start : ℕ
  pub region_ptr_end : ℕ
  pub device_physical_address : ℕ

abbrev pub max_read_count : ℕ
max_read_count = 100

-- One more element in front, if there is a list.
unfoldable pub prepend {ℓ} : {A : Type ℓ} → A → Option (List A) → Option (List A)
prepend a none = none
prepend a (some rest) = some (a ∷ rest)

-- `fw_io_register_read_region` from one slot on; `none` is its -1.
unfoldable pub fw_io_register_read_region :
    Region → List (Option Region) → Option (List (Option Region))
unfolding prepend
fw_io_register_read_region region [] = none
fw_io_register_read_region region (none ∷ slots) = some (some region ∷ slots)
fw_io_register_read_region region (some taken ∷ slots) =
    prepend (some taken) (fw_io_register_read_region region slots)

-- `ptr >= start && ptr <= end`, where `end` is the address of the region's last word.
unfoldable pub in_region : Region → ℕ → Bool
in_region region ptr = leb region.region_ptr_start ptr && leb ptr (region.region_ptr_end - 4)

-- What the loop over the pointers makes: every device address, unless a pointer lies outside.
unfoldable pub device_addresses : Region → List ℕ → Option (List ℕ)
unfolding in_region prepend
device_addresses region [] = some []
device_addresses region (ptr ∷ ptrs) =
    let rest : Option (List ℕ) = device_addresses region ptrs in
    if in_region region ptr
    then prepend (u64 (region.device_physical_address + (ptr - region.region_ptr_start))) rest
    else none

-- The first region in use that holds the first pointer; the search stops at a free slot.
unfoldable pub find_region : ℕ → List (Option Region) → Option Region
unfolding in_region
find_region ptr [] = none
find_region ptr (none ∷ slots) = none
find_region ptr (some region ∷ slots) =
    let rest = find_region ptr slots in if in_region region ptr then some region else rest

-- What `fw_io_read_csr_array` decides before it talks to the firmware.
pub data CsrRead : Type 0 where
  too_many : CsrRead
  unmapped : CsrRead
  request : (ctx : ℕ) → (addrs : List ℕ) → CsrRead

unfoldable pub as_request : Region → Option (List ℕ) → CsrRead
as_request region none = unmapped
as_request region (some addrs) = request region.ctx addrs

unfoldable pub read_in : Option Region → List ℕ → CsrRead
unfolding as_request device_addresses
read_in none ptrs = unmapped
read_in (some region) ptrs = as_request region (device_addresses region ptrs)

-- `fw_io_read_csr_array` for `ptr ∷ ptrs`, its `num_csrs` pointers, at least one of them.
unfoldable pub fw_io_read_csr_array : List (Option Region) → (ptr : ℕ) → (ptrs : List ℕ) → CsrRead
unfolding find_region read_in
fw_io_read_csr_array slots ptr ptrs =
    if ltb max_read_count (length (ptr ∷ ptrs))
    then too_many
    else read_in (find_region ptr slots) (ptr ∷ ptrs)
