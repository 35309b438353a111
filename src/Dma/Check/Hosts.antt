-- ===== src/Dma/Check/Hosts.antt =====
-- `ndma_is_valid_host_mem` looks at every device, once or twice.
use aws_neuron_driver.Common.{
  ℕ, zero, suc, Bool, true, false, Option, ◌+◌, ◌≤◌, ◌<◌, ◌≡◌, ◌≢◌, ◌↔◌, ◌⊎◌, refl, sym, ◌%◌, ◌^◌,
  none, some, ◌==◌, ==_iff, eq→==, ◌∙◌, u8, leb, if◌then◌else◌, Bool-cases, inl, inr, arith,
  lt→leb-false,
}
use aws_neuron_driver.Mempool.{Chunk, search_mc}
use aws_neuron_driver.Mempool.Search.{search_mc-holds}
use native.Mathlib.Decide.{ℕ_discrete}
use aws_neuron_driver.Dma.Check.{
  NeuronDevice, owned_by, is_some, valid_from_nd, is_checked, check_devices, is_valid_host_mem,
  max_devices,
}

if-true : (b c : Bool) → (if b then true else c) ≡ true → (b ≡ true) ⊎ (c ≡ true)
if-true true c e = inl refl
if-true false c e = inr e

is_some_lem : {A : Type 0} (o : Option A) → is_some o ≡ true → (a : A) × (o ≡ some a)
is_some_lem none e = absurd (cc e)
is_some_lem (some a) e = (a, refl)

-- A chain of four tests, one of which holds.
if-chain :
    (a b c d : Bool)
    → (a ≡ true) ⊎ ((b ≡ true) ⊎ ((c ≡ true) ⊎ (d ≡ true)))
    → (if a then true else if b then true else if c then true else d) ≡ true
if-chain true b c d h = refl
if-chain false true c d h = refl
if-chain false false true d h = refl
if-chain false false false d h = grind arith

owned_by_sound :
    (pid pa : ℕ) (o : Option NeuronDevice)
    → owned_by pid o pa ≡ true
    → (nd : NeuronDevice) × (o ≡ some nd)
      × (nd.current_pid ≡ pid)
      × (c : Chunk) × (search_mc nd.root pa ≡ some c)
unfolding owned_by
owned_by_sound pid pa none e = absurd (cc e)
owned_by_sound pid pa (some nd) e = elim (Bool-cases (pid == nd.current_pid)) [
  | inr differ ↦ absurd (cc (rw differ at e))
  | inl same ↦
      let (c, hit) = is_some_lem (search_mc nd.root pa) (rw same at e) in
      (nd, refl, sym ((==_iff pid nd.current_pid).0 same), c, hit)
]

owned_by_complete :
    (pid pa : ℕ) (nd : NeuronDevice) (c : Chunk)
    → nd.current_pid ≡ pid
    → search_mc nd.root pa ≡ some c
    → owned_by pid (some nd) pa ≡ true
unfolding owned_by
owned_by_complete pid pa nd c owner hit = rw (eq→== pid nd.current_pid (sym owner), hit) refl

module _ (devices : ℕ → Option NeuronDevice) where
  -- An index below 256 that passes is one of a device.
  valid_from_nd-device :
      (pid i pa : ℕ)
      → valid_from_nd devices pid i pa ≡ true
      → (j : ℕ) × (j < max_devices) × (owned_by pid (devices j) pa ≡ true)
  unfolding valid_from_nd
  valid_from_nd-device pid i pa e = elim (Bool-cases (leb max_devices (u8 i))) [
    | inl x ↦ absurd (cc (rw x at e))
    | inr x ↦ (u8 i, ground (arith, x), rw x at e)
  ]

  valid_from_nd-small :
      (pid j pa : ℕ)
      → j < max_devices
      → valid_from_nd devices pid j pa ≡ owned_by pid (devices j) pa
  unfolding valid_from_nd
  valid_from_nd-small pid j pa lt =
      let same : u8 j ≡ j = omega arith in rw same (rw (lt→leb-false max_devices j lt) refl)

  check_devices_sound :
      (index pid pa i n : ℕ)
      → check_devices devices index pid pa i n ≡ true
      → (j : ℕ) × (j < max_devices) × (owned_by pid (devices j) pa ≡ true)
  unfolding check_devices
  check_devices_sound index pid pa i zero e = absurd (cc e)
  check_devices_sound index pid pa i (suc n) e = elim (Bool-cases (is_checked devices index i)) [
    | inl x ↦ check_devices_sound index pid pa (i + 1) n (rw x at e)
    | inr x ↦ elim (if-true _ _ (rw x at e)) [
      | inl y ↦ valid_from_nd-device pid i pa y
      | inr y ↦ check_devices_sound index pid pa (i + 1) n y
    ]
  ]

  check_devices-finds :
      (index pid pa i n j : ℕ)
      → i ≤ j
      → j < i + n
      → is_checked devices index j ≡ false
      → valid_from_nd devices pid j pa ≡ true
      → check_devices devices index pid pa i n ≡ true
  unfolding check_devices
  check_devices-finds index pid pa i zero j lo hi c v = absurd (omega arith)
  check_devices-finds index pid pa i (suc n) j lo hi c v = elim (ℕ_discrete i j) [
    | yes e ↦ rw e (rw c (rw v refl))
    | no ne ↦
        let later =
          check_devices-finds index pid pa (i + 1) n j (omega (arith, ne)) (omega arith) c v in
        rw later (all_true (is_checked devices index i) (valid_from_nd devices pid i pa))
  ]
    where
      all_true : (a b : Bool) → (if a then true else if b then true else true) ≡ true
      all_true true b = refl
      all_true false true = refl
      all_true false false = refl

  -- Counting down from index 0 wraps to 255, which is no device.
  valid_from_nd-before :
      (pid index pa j : ℕ)
      → index < max_devices
      → j + 1 ≡ index
      → valid_from_nd devices pid (index + 255) pa ≡ valid_from_nd devices pid j pa
  unfolding valid_from_nd
  valid_from_nd-before pid index pa j lt e =
      let same : u8 (index + 255) ≡ u8 j = omega (arith, e) in rw same refl

  -- A device that exists, has the owner of `nd`, and in whose tree the search finds a chunk
  -- that holds the address or ends at it.
  abbrev pub Holder : NeuronDevice → (pa : ℕ) → Type 0
  Holder nd pa =
      (j : ℕ) × (j < max_devices)
      × (other : NeuronDevice) × (devices j ≡ some other)
      × (other.current_pid ≡ nd.current_pid)
      × (c : Chunk) × (search_mc other.root pa ≡ some c)
      × (c.pa ≤ pa)
      × (pa ≤ (c.pa + c.size) % 2 ^ 64)

  abbrev Found : NeuronDevice → (pa : ℕ) → Type 0
  Found nd pa = (j : ℕ) × (j < max_devices) × (owned_by nd.current_pid (devices j) pa ≡ true)

  Found-Holder : (nd : NeuronDevice) (pa : ℕ) → Found nd pa → Holder nd pa
  Found-Holder nd pa (j, lt, o) =
      let (other, there, owner, c, hit) = owned_by_sound nd.current_pid pa (devices j) o in
      let (low, high) = search_mc-holds other.root pa c hit in
      (j, lt, other, there, owner, c, hit, low, high)

  Holder-Found : (nd : NeuronDevice) (pa : ℕ) → Holder nd pa → Found nd pa
  Holder-Found nd pa (j, lt, other, there, owner, c, hit, low, high) =
      (j, lt, rw there (owned_by_complete nd.current_pid pa other c owner hit))

  is_valid_host_mem_sound :
      (nd : NeuronDevice) (pa : ℕ) → is_valid_host_mem devices nd pa ≡ true → Found nd pa
  unfolding is_valid_host_mem
  is_valid_host_mem_sound nd pa e = elim (if-true _ _ e) [
    | inl x ↦ valid_from_nd-device nd.current_pid nd.device_index pa x
    | inr e ↦ elim (if-true _ _ e) [
      | inl x ↦ valid_from_nd-device nd.current_pid (nd.device_index + 255) pa x
      | inr e ↦ elim (if-true _ _ e) [
        | inl x ↦ valid_from_nd-device nd.current_pid (nd.device_index + 1) pa x
        | inr e ↦ check_devices_sound nd.device_index nd.current_pid pa 0 max_devices e
      ]
    ]
  ]

  is_valid_host_mem_complete :
      (nd : NeuronDevice) (pa j : ℕ)
      → nd.device_index < max_devices
      → j < max_devices
      → valid_from_nd devices nd.current_pid j pa ≡ true
      → is_valid_host_mem devices nd pa ≡ true
  unfolding is_valid_host_mem
  is_valid_host_mem_complete nd pa j small lt v =
      let pid = nd.current_pid in
      let index = nd.device_index in
      if-chain (valid_from_nd devices pid index pa) (valid_from_nd devices pid (index + 255) pa)
        (valid_from_nd devices pid (index + 1) pa)
        (check_devices devices index pid pa 0 max_devices)
        (elim (ℕ_discrete j index) [
          | yes e ↦ inl (rw e at v)
          | no here ↦ inr (elim (ℕ_discrete (j + 1) index) [
            | yes e ↦ inl (valid_from_nd-before pid index pa j small e ∙ v)
            | no before ↦ inr (elim (ℕ_discrete j (index + 1)) [
              | yes e ↦ inl (rw e at v)
              | no after ↦ inr (
                  check_devices-finds index pid pa 0 max_devices j (omega arith) (omega arith)
                    (apart j index here before after) v)
            ])
          ])
        ])
    where
      apart :
          (j index : ℕ)
          → j ≢ index
          → j + 1 ≢ index
          → j ≢ index + 1
          → is_checked devices index j ≡ false
      apart j index here before after = ground arith

  -- For a device of index below 16 `ndma_is_valid_host_mem` accepts an address exactly when one
  -- of the 16 devices exists, is owned by the same process, and has a tree in which the search
  -- finds a chunk that holds the address or ends at it, on 64-bit words.
  pub is_valid_host_mem_iff :
      (nd : NeuronDevice) (pa : ℕ)
      → nd.device_index < max_devices
      → (is_valid_host_mem devices nd pa ≡ true) ↔ Holder nd pa
  is_valid_host_mem_iff nd pa small = (
    λ e. Found-Holder nd pa (is_valid_host_mem_sound nd pa e),
    λ h.
        let (j, lt, o) = Holder-Found nd pa h in
        is_valid_host_mem_complete nd pa j small lt
          (valid_from_nd-small nd.current_pid j pa lt ∙ o),
  )
