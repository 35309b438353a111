-- ===== src/Mempool/Account.antt =====
-- The counters of a set of pools: `host_mem_size` and `device_mem_size` against the lists of chunks.
use aws_neuron_driver.Common.{
  ℕ, zero, suc, List, [], ◌∷◌, ◌+◌, ◌≤◌, ◌<◌, ◌≡◌, refl, sym, ◌≢◌, ◌∙◌, u64, arith, eq→==,
  ne→==-false,
}
use aws_neuron_driver.Mempool.{
  Chunk, Mempool, MempoolSet, set_pool, Kernel, max_dram_channels, max_ddr_regions,
}
use native.Mathlib.Decide.{ℕ_discrete}

-- The bytes of the chunks of a list.
unfoldable pub total : List Chunk → ℕ
total [] = 0
total (c ∷ cs) = c.size + total cs

-- The sum of `f` below `n`.
unfoldable sum_to : (n : ℕ) → (ℕ → ℕ) → ℕ
sum_to zero f = 0
sum_to (suc n) f = sum_to n f + f n

sum_to-same : (n : ℕ) (f g : ℕ → ℕ) → ((i : ℕ) → g i ≡ f i) → sum_to n g ≡ sum_to n f
unfolding sum_to
sum_to-same zero f g h = refl
sum_to-same (suc n) f g h = omega (arith, sum_to-same n f g h, h n)

sum_to-past :
    (n j : ℕ) (f g : ℕ → ℕ) → n ≤ j → ((i : ℕ) → i ≢ j → g i ≡ f i) → sum_to n g ≡ sum_to n f
unfolding sum_to
sum_to-past zero j f g le h = refl
sum_to-past (suc n) j f g le h =
    omega (arith, sum_to-past n j f g (omega arith) h, h n (λ e. omega (arith, e)))

-- A sum after a change at one place.
sum_to-change :
    (n j : ℕ) (f g : ℕ → ℕ)
    → j < n
    → ((i : ℕ) → i ≢ j → g i ≡ f i)
    → sum_to n g + f j ≡ sum_to n f + g j
unfolding sum_to
sum_to-change zero j f g lt h = absurd (omega (arith, lt))
sum_to-change (suc n) j f g lt h = elim (ℕ_discrete j n) [
  | yes e ↦ rw e (omega (arith, sum_to-past n n f g (omega arith) (λ i ne. h i (λ x. ne (x ∙ e)))))
  | no ne ↦ omega (arith, sum_to-change n j f g (omega arith) h, h n (λ x. ne (sym x)))
]

module _ {G K : Type 0} (k : Kernel G K) where
  -- The bytes of all the device chunks of a set.
  unfoldable pub device_total : MempoolSet G → ℕ
  unfolding sum_to
  device_total set =
      sum_to max_dram_channels
        (λ c. sum_to max_ddr_regions (λ r. total (set.mp_device c r).device_allocated))

  -- The bytes of one pool after an exchange.
  bytes : MempoolSet G → (channel region : ℕ) → ℕ
  bytes set channel region = total (set.mp_device channel region).device_allocated

  bytes-other_channel :
      (channel region : ℕ) (mp : Mempool G) (set : MempoolSet G) (c r : ℕ)
      → c ≢ channel
      → bytes (set_pool k channel region mp set) c r ≡ bytes set c r
  unfolding bytes
  bytes-other_channel channel region mp set c r ne = rw (ne→==-false c channel ne) refl

  bytes-other_region :
      (channel region : ℕ) (mp : Mempool G) (set : MempoolSet G) (r : ℕ)
      → r ≢ region
      → bytes (set_pool k channel region mp set) channel r ≡ bytes set channel r
  unfolding bytes
  bytes-other_region channel region mp set r ne =
      rw (ne→==-false r region ne) (rw (eq→== channel channel refl) refl)

  bytes-same :
      (channel region : ℕ) (mp : Mempool G) (set : MempoolSet G)
      → bytes (set_pool k channel region mp set) channel region ≡ total mp.device_allocated
  unfolding bytes
  bytes-same channel region mp set =
      rw (eq→== region region refl) (rw (eq→== channel channel refl) refl)

  -- One pool is exchanged for another.
  pub device_total-set_pool :
      (channel region : ℕ) (mp : Mempool G) (set : MempoolSet G)
      → channel < max_dram_channels
      → region < max_ddr_regions
      → device_total (set_pool k channel region mp set)
          + total (set.mp_device channel region).device_allocated
        ≡ device_total set + total mp.device_allocated
  unfolding device_total bytes
  device_total-set_pool channel region mp set hc hr =
      let set' : MempoolSet G = set_pool k channel region mp set in
      omega (
        arith,
        bytes-same channel region mp set,
        sum_to-change max_ddr_regions region (bytes set channel) (bytes set' channel) hr
            (λ r ne. bytes-other_region channel region mp set r ne),
        sum_to-change max_dram_channels channel (λ c. sum_to max_ddr_regions (bytes set c))
            (λ c. sum_to max_ddr_regions (bytes set' c)) hc
            (λ c ne.
              sum_to-same max_ddr_regions (bytes set c) (bytes set' c)
                (λ r. bytes-other_channel channel region mp set c r ne)),
      )

  -- Both counters are the sums of what the lists hold, as words of 64 bits.
  abbrev pub IsCounted : MempoolSet G → Type 0
  IsCounted set =
      (set.host_mem_size ≡ u64 (total set.host_allocated))
      × (set.device_mem_size ≡ u64 (device_total set))
