-- ===== src/Mempool/Pools.antt =====
-- The pools of device memory that `mpset_device_init` makes, and what `mpset_free_all` leaves.
use aws_neuron_driver.Common.{
  ℕ, zero, suc, Bool, true, Option, none, some, [], ◌+◌, ◌-◌, ◌*◌, ◌/◌, ◌^◌, ◌≤◌, ◌<◌, ◌≡◌, refl,
  sym, u64, leb, false, if◌then◌else◌, Bool-cases, ◌⊎◌, ap, arith, inl, inr, eq→==, ne→==-false,
  Errno, Outcome, ok, err, bug, M, ok-injective, bind_out-ok, Returns, Returns-bind_out, Returns-if,
}
use aws_neuron_driver.Mempool.{
  MemLocation, Kernel, Mempool, MempoolSet, World, set_pool, max_dram_channels, mp_init, pool_start,
  pool_length, pool_created, pool_added, cleared_pool, mp_free_device_mem, free_pool_chunks,
}
use aws_neuron_driver.Mempool.Set.{
  rounds, checked_regions, init_region, init_channel, mpset_device_init, failed,
  mpset_free_host_memory, each_pool, mpset_free_all,
}
use native.Mathlib.Nat.{div-add-mod}
use native.Mathlib.Decide.{ℕ_discrete}

module _ {G K : Type 0} (k : Kernel G K) where
  -- A pool that covers `size` bytes from `start`, and has handed out nothing.
  pub record IsFresh (start size : ℕ) (mp : Mempool G) : Type 0 where
    pub ready : mp.initialized ≡ true
    pub sized : mp.region_size ≡ size
    pub empty : mp.device_allocated ≡ []
    pub unused : mp.allocated_size ≡ 0
    pub created : G
    pub backed : mp.gen_pool ≡ some (k.gen_pool_add_virt created start start size).1

  -- A step that puts such a pool at a place, and changes no other.
  pub record PutsPool (channel region start size : ℕ) (w w' : World G K) : Type 0 where
    pub mp : Mempool G
    pub put : w'.mpset ≡ set_pool k channel region mp w.mpset
    pub fresh : IsFresh start size mp

  pool_added-PutsPool :
      (channel region start size : ℕ) (location : MemLocation) (g : G) (r : Option Errno × G)
      (w w' : World G K)
      → r ≡ k.gen_pool_add_virt g start start size
      → pool_added k channel region size (cleared_pool k location channel region) r w ≡ ok tt w'
      → PutsPool channel region start size w w'
  unfolding pool_added cleared_pool
  pool_added-PutsPool channel region start size location g (none, g') w w' q e = record {
    mp = _;
    put = ap (λ (s : World G K). s.mpset) (sym (ok-injective _ _ _ _ e).1);
    fresh = record {
      ready = refl;
      sized = refl;
      empty = refl;
      unused = refl;
      created = g;
      backed = ap (λ (p : Option Errno × G). some p.1) q;
    };
  }
  pool_added-PutsPool channel region start size location g (some x, g') w w' q e = absurd (cc e)

  pool_created-PutsPool :
      (channel region start size : ℕ) (location : MemLocation) (o : Option G) (w w' : World G K)
      → pool_created k channel region start size (cleared_pool k location channel region) o w
        ≡ ok tt w'
      → PutsPool channel region start size w w'
  unfolding pool_created
  pool_created-PutsPool channel region start size location none w w' e = absurd (cc e)
  pool_created-PutsPool channel region start size location (some g) w w' e =
      pool_added-PutsPool channel region start size location g _ w w' refl e

  mp_init-PutsPool :
      (start size : ℕ) (location : MemLocation) (channel region : ℕ) (w w' : World G K)
      → mp_init k start size location channel region w ≡ ok tt w'
      → PutsPool channel region (pool_start k start) (pool_length k start size) w w'
  unfolding mp_init
  mp_init-PutsPool start size location channel region w w' e =
      let made = k.gen_pool_create (k.ilog2 k.min_alloc_size) w.heap in
      let p =
        pool_created-PutsPool channel region (pool_start k start) (pool_length k start size)
          location made.0 (record w { heap = made.1 }) w' e in
      record { mp = p.mp; put = p.put; fresh = p.fresh }

  -- What a loop keeps, a round after the other.
  rounds-keep :
      (P : ℕ → World G K → Type 0) (f : ℕ → M (World G K) (Unit {0})) (i n : ℕ)
      → ((j : ℕ) (s s' : World G K) → f j s ≡ ok tt s' → P j s → P (j + 1) s')
      → (s s' : World G K) → rounds k f i n s ≡ ok tt s'
      → P i s
      → P (i + n) s'
  unfolding rounds
  rounds-keep P f i zero step s s' e p =
      let same : i + 0 ≡ i = omega arith in rw same (rw (ok-injective _ _ _ _ e).1 at p)
  rounds-keep P f i (suc n) step s s' e p =
      let m = bind_out-ok (f i s) (λ _. rounds k f (i + 1) n) e in
      let next : i + suc n ≡ i + 1 + n = omega arith in
      rw next (rounds-keep P f (i + 1) n step m.1 s' m.3 (step i s m.1 m.2 p))

  module _ (addr size : ℕ → ℕ) (n : ℕ) where
    -- The address of a region, and the bytes of each region of a channel.
    abbrev pub region_at : (channel region : ℕ) → ℕ
    region_at channel region = u64 (addr channel + region * (size channel / n))

    abbrev IsReady : (channel region : ℕ) → MempoolSet G → Type 0
    IsReady channel region set =
        IsFresh (pool_start k (region_at channel region))
          (pool_length k (region_at channel region) (size channel / n))
          (set.mp_device channel region)

    -- The pools before region `i` of channel `c` in the order of the loops.
    abbrev Before : (c i c' r' : ℕ) → Type 0
    Before c i c' r' = (r' < n) × ((c' < c) ⊎ ((c' ≡ c) × (r' < i)))

    abbrev ReadyBefore : (c i : ℕ) → MempoolSet G → Type 0
    ReadyBefore c i set = (c' r' : ℕ) → Before c i c' r' → IsReady c' r' set

    init_region-ReadyBefore :
        (c i : ℕ) (s s' : World G K)
        → init_region k (addr c) (size c / n) c i s ≡ ok tt s'
        → ReadyBefore c i s.mpset
        → ReadyBefore c (i + 1) s'.mpset
    unfolding init_region
    init_region-ReadyBefore c i s s' e h c' r' b =
        let p =
          mp_init-PutsPool _ _ _ c i s s'
            (inside_array _ (Bool-cases (leb max_dram_channels c)) e) in
        rw p.put (elim (ℕ_discrete c' c) [
          | yes x ↦ elim (ℕ_discrete r' i) [
            | yes y ↦ rw x (rw y (rw (eq→== c c refl) (rw (eq→== i i refl) p.fresh)))
            | no y ↦ rw x (
                rw (eq→== c c refl) (
                  rw (ne→==-false r' i y) (
                    h c r' (
                      b.0,
                      inr (refl, elim (b.1) [ inl l ↦ omega arith | inr l ↦ omega (arith, l.1) ]),
                    ))))
          ]
          | no x ↦
              rw (ne→==-false c' c x)
                (h c' r' (b.0, inl (elim (b.1) [ inl l ↦ l | inr l ↦ absurd (x (l.0)) ])))
        ])
      where
        inside_array :
            (x : M (World G K) (Unit {0}))
            → (leb max_dram_channels c ≡ true) ⊎ (leb max_dram_channels c ≡ false)
            → (if leb max_dram_channels c then (λ w. bug) else x) s ≡ ok tt s'
            → x s ≡ ok tt s'
        inside_array x (inl out) e = absurd (cc (rw out at e))
        inside_array x (inr in_array) e = rw in_array at e

    init_channel-ReadyBefore :
        (c : ℕ) (s s' : World G K)
        → init_channel k (addr c) (size c) n c s ≡ ok tt s'
        → ReadyBefore c 0 s.mpset
        → ReadyBefore (c + 1) 0 s'.mpset
    unfolding init_channel
    init_channel-ReadyBefore c s s' e h c' r' b =
        let all =
          rounds-keep (λ i t. ReadyBefore c i t.mpset) (init_region k (addr c) (size c / n) c) 0 n
            (λ i t t'. init_region-ReadyBefore c i t t') s s' e h in
        all c' r' (
          b.0,
          elim (ℕ_discrete c' c) [
            | yes x ↦ inr (x, omega (arith, b.0))
            | no x ↦ inl (elim (b.1) [ inl l ↦ omega arith | inr l ↦ absurd (omega (arith, l.1)) ])
          ],
        )

  failed-ok :
      (x : Outcome (World G K) (Unit {0})) (w : World G K) → failed k x ≡ ok tt w → x ≡ ok tt w
  failed-ok (ok a s) w e = e
  failed-ok (err x s) w e = absurd (cc e)
  failed-ok bug w e = absurd (cc e)

  mpset_device_init-IsReady :
      (num_channels : ℕ) (below_zero : Bool) (num_regions : ℕ) (addr size : ℕ → ℕ)
      (w w' : World G K) (channel region : ℕ)
      → mpset_device_init k num_channels below_zero num_regions addr size w ≡ ok tt w'
      → channel < num_channels
      → region < checked_regions k below_zero num_regions
      → IsReady addr size (checked_regions k below_zero num_regions) channel region w'.mpset
  unfolding mpset_device_init
  mpset_device_init-IsReady num_channels below_zero num_regions addr size w w' channel region e lt
        inside =
      let n = checked_regions k below_zero num_regions in
      rounds-keep (λ c t. ReadyBefore addr size n c 0 t.mpset)
        (λ c. init_channel k (addr c) (size c) n c) 0 num_channels
        (λ c t t'. init_channel-ReadyBefore addr size n c t t') _ w' (failed-ok _ w' e)
        (λ c' r' b. elim (b.1) [
          | inl l ↦ absurd (omega (arith, l))
          | inr l ↦ absurd (omega (arith, l.1))
        ])
        channel region (inside, inl (omega (arith, lt)))

  region-inside : (size n region : ℕ) → 0 < n → region < n → region * (size / n) + size / n ≤ size
  region-inside size n region pos lt =
      let rest = n - suc region in
      let whole : n ≡ region + 1 + rest = omega arith in
      omega (arith, ap (λ (t : ℕ). t * (size / n)) whole, div-add-mod size n)

  -- A place that is not past the words of 64 bits.
  pool_start-place :
      (at length : ℕ)
      → at + length < 2 ^ 64
      → 0 < k.min_alloc_size
      → k.min_alloc_size ≤ length
      → (0 < pool_start k (u64 at))
        × (at ≤ pool_start k (u64 at))
        × (pool_start k (u64 at) + pool_length k (u64 at) length ≡ at + length)
  unfolding pool_start pool_length
  pool_start-place at length fits some_bytes big =
      let whole : u64 at ≡ at = omega arith in
      rw whole (elim (ℕ_discrete at 0) [
        | yes e ↦ rw (eq→== at 0 e) (omega arith, omega arith, omega arith)
        | no e ↦ rw (ne→==-false at 0 e) (omega arith, omega arith, omega arith)
      ])

  pool_start-whole : (at : ℕ) → at < 2 ^ 64 → 0 < at → pool_start k (u64 at) ≡ at
  unfolding pool_start
  pool_start-whole at fits pos =
      let same : u64 at ≡ at = omega arith in
      rw same (rw (ne→==-false at 0 (λ e. omega (arith, e))) refl)

  -- A fresh pool in the `length` bytes from `base` on: it ends where they end, starts where they start or,
  -- if that is the address 0, behind it.
  pub record IsPlaced (base length : ℕ) (mp : Mempool G) : Type 0 where
    pub start : ℕ
    pub size : ℕ
    pub fresh : IsFresh start size mp
    pub positive : 0 < start
    pub lower : base ≤ start
    pub upper : start + size ≡ base + length
    pub whole : 0 < base → start ≡ base

  IsFresh-IsPlaced :
      (at length : ℕ) (mp : Mempool G)
      → at + length < 2 ^ 64
      → 0 < k.min_alloc_size
      → k.min_alloc_size ≤ length
      → IsFresh (pool_start k (u64 at)) (pool_length k (u64 at) length) mp
      → IsPlaced at length mp
  IsFresh-IsPlaced at length mp fits some_bytes big fresh =
      let p = pool_start-place at length fits some_bytes big in
      record {
        start = pool_start k (u64 at);
        size = pool_length k (u64 at) length;
        fresh = fresh;
        positive = p.0;
        lower = p.1;
        upper = p.2;
        whole = pool_start-whole at (omega arith);
      }

  -- After a successful `mpset_device_init`, on channels that end below 2 ^ 64 and whose regions
  -- are not smaller than the least allocation, itself not 0, the pool of every region of every
  -- channel that was asked for is initialized, is backed by memory of its region and has handed
  -- out nothing: it starts where the region's own share of the channel starts, or behind that
  -- where the share starts at 0, never at the address 0, and it ends exactly where that share
  -- ends, which is inside the channel.
  pub mpset_device_init-IsPlaced :
      (num_channels : ℕ) (below_zero : Bool) (num_regions : ℕ) (addr size : ℕ → ℕ)
      (w w' : World G K) (channel region : ℕ)
      → let n = checked_regions k below_zero num_regions in
        let share = size channel / n in
        mpset_device_init k num_channels below_zero num_regions addr size w ≡ ok tt w'
        → channel < num_channels
        → region < n
        → addr channel + size channel < 2 ^ 64
        → 0 < k.min_alloc_size
        → k.min_alloc_size ≤ share
        → IsPlaced (addr channel + region * share) share (w'.mpset.mp_device channel region)
          × (addr channel + region * share + share ≤ addr channel + size channel)
  mpset_device_init-IsPlaced num_channels below_zero num_regions addr size w w' channel region e lt
        inside fits some_bytes big =
      let n = checked_regions k below_zero num_regions in
      let share = size channel / n in
      let within = region-inside (size channel) n region (omega arith) inside in
      (
        IsFresh-IsPlaced (addr channel + region * share) share (w'.mpset.mp_device channel region)
            (omega arith) some_bytes big
            (mpset_device_init-IsReady num_channels below_zero num_regions addr size w w' channel
              region e lt inside),
        omega arith,
      )

  -- A loop whose rounds all return, and keep `P`.
  rounds-Returns :
      (P : World G K → Type 0) (f : ℕ → M (World G K) (Unit {0})) (i n : ℕ)
      → ((j : ℕ) (s : World G K) → P s → Returns P (f j s))
      → (s : World G K) → P s
      → Returns P (rounds k f i n s)
  unfolding rounds
  rounds-Returns P f i zero h s p = p
  rounds-Returns P f i (suc n) h s p =
      Returns-bind_out P P (f i s) (λ _. rounds k f (i + 1) n)
        (λ a s' q. rounds-Returns P f (i + 1) n h s' q) (h i s p)

  free_pool_chunks-size :
      (size channel region : ℕ) (mp : Mempool G) (o : Option G) (s : World G K)
      → s.mpset.device_mem_size ≡ size
      → Returns (λ t. t.mpset.device_mem_size ≡ size) (free_pool_chunks k channel region mp o s)
  unfolding free_pool_chunks
  free_pool_chunks-size size channel region mp none s p = p
  free_pool_chunks-size size channel region mp (some g) s p = p

  mp_free_device_mem-size :
      (size channel region : ℕ) (s : World G K)
      → s.mpset.device_mem_size ≡ size
      → Returns (λ t. t.mpset.device_mem_size ≡ size) (mp_free_device_mem k channel region s)
  unfolding mp_free_device_mem
  mp_free_device_mem-size size channel region s p =
      let mp = s.mpset.mp_device channel region in
      Returns-if (λ t. t.mpset.device_mem_size ≡ size) mp.initialized
        (free_pool_chunks k channel region mp mp.gen_pool s) (ok tt s)
        (free_pool_chunks-size size channel region mp mp.gen_pool s p) p

  -- `mpset_free_all` empties the host list and its counter, and leaves the counter of device memory.
  mpset_free_all-device_mem_size :
      (w : World G K)
      → Returns
          (λ s.
            (s.mpset.host_allocated ≡ [])
            × (s.mpset.host_mem_size ≡ 0)
            × (s.mpset.device_mem_size ≡ w.mpset.device_mem_size))
          (mpset_free_all k w)
  unfolding mpset_free_all mpset_free_host_memory each_pool
  mpset_free_all-device_mem_size w =
      let size = w.mpset.device_mem_size in
      let n = w.mpset.num_regions in
      let Kept = λ (t : World G K). t.mpset.device_mem_size ≡ size in
      Returns-bind_out Kept _ (rounds k (λ c. rounds k (mp_free_device_mem k c) 0 n) 0 2 w) _
        (λ a s q. (refl, refl, q))
        (rounds-Returns Kept (λ c. rounds k (mp_free_device_mem k c) 0 n) 0 2
          (λ c s p.
            rounds-Returns Kept (mp_free_device_mem k c) 0 n (mp_free_device_mem-size size c) s p)
          w refl)
