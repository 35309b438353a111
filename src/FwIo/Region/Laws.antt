-- ===== src/FwIo/Region/Laws.antt =====
-- Laws of the address translation.
use aws_neuron_driver.Common.{
  ℕ, true, false, List, [], ◌∷◌, Option, none, some, ◌+◌, ◌-◌, ◌≤◌, ◌≡◌, refl, arith, Bool-cases,
  ◌⊎◌, inl, inr, le→ltb-false, ltb-false→le, ltb, length, u64,
}
use mathlib.Core.Option.{some-injective}
use aws_neuron_driver.FwIo.Region.{
  Region, fw_io_register_read_region, in_region, prepend, device_addresses, find_region, request,
  as_request, read_in, fw_io_read_csr_array, max_read_count,
}

-- Every pointer reads a whole word of the region.
unfoldable pub Within : Region → List ℕ → Type 0
Within region [] = Unit {0}
Within region (ptr ∷ ptrs) =
    (region.region_ptr_start ≤ ptr) × ((ptr ≤ region.region_ptr_end - 4) × Within region ptrs)

-- The address of the same offset in the device's memory.
unfoldable pub translated : Region → List ℕ → List ℕ
translated region [] = []
translated region (ptr ∷ ptrs) =
    u64 (region.device_physical_address + (ptr - region.region_ptr_start)) ∷ translated region ptrs

device_addresses-Within :
    (region : Region) (ptrs : List ℕ)
    → Within region ptrs
    → device_addresses region ptrs ≡ some (translated region ptrs)
unfolding device_addresses Within translated in_region prepend
device_addresses-Within region [] w = refl
device_addresses-Within region (ptr ∷ ptrs) w =
    let rest = device_addresses-Within region ptrs w.1.1 in rw rest (ground arith)

-- No region in use, up to the first free slot, holds the pointer.
unfoldable pub Apart : ℕ → List (Option Region) → Type 0
Apart ptr [] = Unit {0}
Apart ptr (none ∷ slots) = Unit {0}
Apart ptr (some region ∷ slots) = (in_region region ptr ≡ false) × Apart ptr slots

-- A slot list with one element in front came from one.
prepend-some :
    {A : Type 0} (a : A) (o : Option (List A)) (r : List A)
    → prepend a o ≡ some r
    → (rest : List A) × ((o ≡ some rest) × (r ≡ a ∷ rest))
unfolding prepend
prepend-some a none r e = ground arith
prepend-some a (some rest) r e = (rest, (refl, some_injective_lem e))
  where
    some_injective_lem : some (a ∷ rest) ≡ some r → r ≡ a ∷ rest
    some_injective_lem q = cc

find_region-registered :
    (region : Region) (ptr : ℕ) (slots after : List (Option Region))
    → Apart ptr slots
    → in_region region ptr ≡ true
    → fw_io_register_read_region region slots ≡ some after
    → find_region ptr after ≡ some region
unfolding Apart find_region fw_io_register_read_region prepend
find_region-registered region ptr [] after apart inside registered = ground arith
find_region-registered region ptr (none ∷ slots) after apart inside registered =
    let e : after ≡ some region ∷ slots = cc in rw (e, inside) refl
find_region-registered region ptr (some taken ∷ slots) after apart inside registered =
    let (rest, (e, split)) =
      prepend-some (some taken) (fw_io_register_read_region region slots) after registered in
    let found = find_region-registered region ptr slots rest apart.1 inside e in
    rw (split, apart.0, found) refl

device_addresses_sound :
    (region : Region) (ptrs addrs : List ℕ)
    → device_addresses region ptrs ≡ some addrs
    → Within region ptrs × (addrs ≡ translated region ptrs)
unfolding device_addresses Within translated in_region prepend
device_addresses_sound region [] addrs e = (tt, cc)
device_addresses_sound region (ptr ∷ ptrs) addrs e =
    elim (Bool-cases (in_region region ptr))
      as (λ _. Within region (ptr ∷ ptrs) × (addrs ≡ translated region (ptr ∷ ptrs))) [
        | inl inside ↦
            let tail : prepend
                  (u64 (region.device_physical_address + (ptr - region.region_ptr_start)))
                  (device_addresses region ptrs)
                ≡ some addrs =
              ground (arith, e, inside) in
            let (rest, (found, split)) = prepend-some _ (device_addresses region ptrs) addrs tail in
            let (within, same) = device_addresses_sound region ptrs rest found in
            ((ground arith, (ground arith, within)), rw (split, same) refl)
        | inr outside ↦ absurd (ground (arith, e, outside))
      ]

-- The table has a slot, before any free one, that holds this region.
unfoldable pub InUse : Region → List (Option Region) → Type 0
InUse region [] = ⊥
InUse region (none ∷ slots) = ⊥
InUse region (some taken ∷ slots) = (taken ≡ region) ⊎ InUse region slots

find_region-InUse :
    (ptr : ℕ) (slots : List (Option Region)) (region : Region)
    → find_region ptr slots ≡ some region
    → InUse region slots
unfolding find_region InUse in_region
find_region-InUse ptr [] region e = ground arith
find_region-InUse ptr (none ∷ slots) region e = ground arith
find_region-InUse ptr (some taken ∷ slots) region e =
    elim (Bool-cases (in_region taken ptr)) as (λ _. InUse region (some taken ∷ slots)) [
      | inl inside ↦ inl (some-injective taken region (ground (arith, e, inside)))
      | inr outside ↦ inr (find_region-InUse ptr slots region (ground (arith, e, outside)))
    ]

as_request_sound :
    (region : Region) (o : Option (List ℕ)) (ctx : ℕ) (addrs : List ℕ)
    → as_request region o ≡ request ctx addrs
    → (region.ctx ≡ ctx) × (o ≡ some addrs)
unfolding as_request
as_request_sound region none ctx addrs e = ground arith
as_request_sound region (some a) ctx addrs e = (cc, cc)

read_in_sound :
    (o : Option Region) (ptrs : List ℕ) (ctx : ℕ) (addrs : List ℕ)
    → read_in o ptrs ≡ request ctx addrs
    → (region : Region) × ((o ≡ some region)
        × ((region.ctx ≡ ctx) × (device_addresses region ptrs ≡ some addrs)))
unfolding read_in
read_in_sound none ptrs ctx addrs e = ground arith
read_in_sound (some region) ptrs ctx addrs e =
    (region, (refl, as_request_sound region (device_addresses region ptrs) ctx addrs e))

-- After a region is registered in a table no region in use of which holds the first pointer, a
-- read of at most 100 registers that all lie in the region becomes a request to its context, for
-- the addresses of the same offsets in the device's memory.
pub fw_io_read_csr_array-registered :
    (region : Region) (slots after : List (Option Region)) (ptr : ℕ) (ptrs : List ℕ)
    → Apart ptr slots
    → Within region (ptr ∷ ptrs)
    → length (ptr ∷ ptrs) ≤ max_read_count
    → fw_io_register_read_region region slots ≡ some after
    → fw_io_read_csr_array after ptr ptrs ≡ request region.ctx (translated region (ptr ∷ ptrs))
unfolding fw_io_read_csr_array read_in as_request Within in_region
fw_io_read_csr_array-registered region slots after ptr ptrs apart within few registered =
    let inside : in_region region ptr ≡ true = ground arith in
    let found = find_region-registered region ptr slots after apart inside registered in
    let addrs = device_addresses-Within region (ptr ∷ ptrs) within in
    let fits = le→ltb-false max_read_count (length (ptr ∷ ptrs)) few in rw (fits, found, addrs) refl

-- A register read that becomes a request is for at most 100 registers, every one a whole word of
-- one region in use, and asks that region's context for the addresses of the same offsets in the
-- device's memory.
pub fw_io_read_csr_array_sound :
    (slots : List (Option Region)) (ptr : ℕ) (ptrs : List ℕ) (ctx : ℕ) (addrs : List ℕ)
    → fw_io_read_csr_array slots ptr ptrs ≡ request ctx addrs
    → (length (ptr ∷ ptrs) ≤ max_read_count)
      × ((region : Region) × (InUse region slots
            × ((region.ctx ≡ ctx)
                × (Within region (ptr ∷ ptrs) × (addrs ≡ translated region (ptr ∷ ptrs))))))
unfolding fw_io_read_csr_array read_in as_request
fw_io_read_csr_array_sound slots ptr ptrs ctx addrs e =
    elim (Bool-cases (ltb max_read_count (length (ptr ∷ ptrs))))
      as (λ _.
        (length (ptr ∷ ptrs) ≤ max_read_count)
        × ((region : Region) × (InUse region slots
              × ((region.ctx ≡ ctx)
                  × (Within region (ptr ∷ ptrs) × (addrs ≡ translated region (ptr ∷ ptrs))))))) [
                    | inl many ↦ absurd (ground (arith, e, many))
                    | inr few ↦
                        let asked : read_in (find_region ptr slots) (ptr ∷ ptrs)
                            ≡ request ctx addrs =
                          ground (arith, e, few) in
                        let (region, (found, rest)) =
                          read_in_sound (find_region ptr slots) (ptr ∷ ptrs) ctx addrs asked in
                        let sound = device_addresses_sound region (ptr ∷ ptrs) addrs (rest.1) in
                        (
                          ltb-false→le _ _ few,
                          (region, (find_region-InUse ptr slots region found, (rest.0, sound))),
                        )
                  ]
