-- ===== src/Core/Queues/Slots.antt =====
-- `nc_nq_destroy_all` leaves no notification queue.
use aws_neuron_driver.Common.{
  ℕ, zero, suc, Option, none, some, ◌+◌, ◌*◌, ◌/◌, ◌%◌, ◌<◌, ◌≡◌, ◌⊎◌, inl, inr, ◌==◌, ◌&&◌, M,
  refl, Returns, Returns-bind_out, Returns-ignore, Returns-map, arith, lt→leb-false, eq→==, ignore,
  Bool-cases,
}
use native.Mathlib.Decide.{ℕ_discrete}
use aws_neuron_driver.Mempool.{Chunk, loc_host, Kernel}
use aws_neuron_driver.Mempool.Alloc.{free_host}
use aws_neuron_driver.Mempool.RoundTrip.{mc_free-host}
use aws_neuron_driver.Core.Queues.{
  Queues, nq_cfg, nq_id, set_slot, write_cfg, destroy_chunk, nc_nq_destroy, each, nc_nq_destroy_all,
  max_nq_supported, nc_per_device,
}

nq_id-small : (eng t : ℕ) → eng < 4 → t < 4 → nq_id eng t ≡ t * 4 + eng
unfolding nq_id
nq_id-small eng t he ht = omega arith

nq_cfg-some : (t eng word : ℕ) → t < 4 → (a : ℕ) × (nq_cfg t eng word ≡ some a)
unfolding nq_cfg
nq_cfg-some t eng word h = elim (ℕ_discrete t 0) [
  | yes e ↦ rw e (_, refl)
  | no n0 ↦ elim (ℕ_discrete t 1) [
    | yes e ↦ rw e (_, refl)
    | no n1 ↦ elim (ℕ_discrete t 2) [
      | yes e ↦ rw e (_, refl)
      | no n2 ↦ let last : t ≡ 3 = omega (arith, n0, n1, n2) in rw last (_, refl)
    ]
  ]
]

module _ {G K : Type 0} (k : Kernel G K) (bar0 : ℕ) where
  -- Every queue's memory is memory of the host, as `nc_nq_init` asks for it, and the slots of `B` are
  -- empty.
  record IsClear (B : ℕ → ℕ → Type 0) (q : Queues G K) : Type 0 where
    on_host : (i j : ℕ) (c : Chunk) → q.nq_mc i j ≡ some c → c.mem_location ≡ loc_host
    clear : (i j : ℕ) → B i j → q.nq_mc i j ≡ none

  -- Emptying a slot.
  set_slot-IsClear :
      (B : ℕ → ℕ → Type 0) (nc id : ℕ) (q : Queues G K)
      → IsClear B q
      → IsClear (λ i j. B i j ⊎ ((i ≡ nc) × (j ≡ id))) (set_slot k bar0 nc id none q)
  set_slot-IsClear B nc id q h = record { on_host = hosts; clear = clears }
    where
      hosts :
          (i j : ℕ) (c : Chunk)
          → (set_slot k bar0 nc id none q).nq_mc i j ≡ some c
          → c.mem_location ≡ loc_host
      hosts i j c e = elim (Bool-cases ((i == nc) && (j == id))) [
        | inl x ↦ absurd (cc (rw x at e))
        | inr x ↦ h.on_host i j c (rw x at e)
      ]

      clears :
          (i j : ℕ)
          → (B i j ⊎ ((i ≡ nc) × (j ≡ id)))
          → (set_slot k bar0 nc id none q).nq_mc i j ≡ none
      clears i j b = elim (Bool-cases ((i == nc) && (j == id))) [
        | inl x ↦ rw x refl
        | inr x ↦ elim b [
          | inl y ↦ rw x (h.clear i j y)
          | inr (y, z) ↦ absurd (cc (rw (eq→== i nc y) at (rw (eq→== j id z) at x)))
        ]
      ]

  -- A slot that was empty already.
  empty-IsClear :
      (B : ℕ → ℕ → Type 0) (nc id : ℕ) (q : Queues G K)
      → q.nq_mc nc id ≡ none
      → IsClear B q
      → IsClear (λ i j. B i j ⊎ ((i ≡ nc) × (j ≡ id))) q
  empty-IsClear B nc id q e h = record {
    on_host = h.on_host;
    clear = λ i j b. elim b [ inl y ↦ h.clear i j y | inr (y, z) ↦ rw y (rw z e) ];
  }

  -- Only the slots count.
  IsClear-same :
      (B : ℕ → ℕ → Type 0) (p p' : Queues G K) → p'.nq_mc ≡ p.nq_mc → IsClear B p → IsClear B p'
  IsClear-same B p p' e h = record {
    on_host = λ i j c x. h.on_host i j c (rw e at x);
    clear = λ i j b. rw e (h.clear i j b);
  }

  destroy_chunk-IsClear :
      (B : ℕ → ℕ → Type 0) (nc eng t id : ℕ) (q : Queues G K) (o : Option Chunk)
      → t < 4
      → q.nq_mc nc id ≡ o
      → IsClear B q
      → Returns
          (IsClear (λ i j. B i j ⊎ ((i ≡ nc) × (j ≡ id))))
          (destroy_chunk k bar0 nc eng t id o q)
  unfolding destroy_chunk write_cfg free_host
  destroy_chunk-IsClear B nc eng t id q none ht e h = empty-IsClear B nc id q e h
  destroy_chunk-IsClear B nc eng t id q (some c) ht e h = rw (nq_cfg-some t eng 2 ht).1 (
      rw (nq_cfg-some t eng 0 ht).1 (
        rw (nq_cfg-some t eng 1 ht).1 (
          rw (mc_free-host k c q.world (h.on_host nc id c e))
            (IsClear-same _ _ _ refl (set_slot-IsClear B nc id q h)))))

  nc_nq_destroy-IsClear :
      (B : ℕ → ℕ → Type 0) (nc eng t : ℕ) (q : Queues G K)
      → nc < 4
      → eng < 4
      → t < 4
      → IsClear B q
      → Returns
          (IsClear (λ i j. B i j ⊎ ((i ≡ nc) × (j ≡ t * 4 + eng))))
          (nc_nq_destroy k bar0 nc eng t q)
  unfolding nc_nq_destroy
  nc_nq_destroy-IsClear B nc eng t q hn he ht h = rw (nq_id-small eng t he ht) (
      rw (lt→leb-false nc_per_device nc hn) (
        rw (lt→leb-false max_nq_supported (t * 4 + eng) (omega arith))
          (destroy_chunk-IsClear B nc eng t (t * 4 + eng) q (q.nq_mc nc (t * 4 + eng)) ht refl h)))

  -- A smaller set of slots.
  IsClear-within :
      (B C : ℕ → ℕ → Type 0) (q : Queues G K)
      → ((i j : ℕ) → C i j → B i j)
      → IsClear B q
      → IsClear C q
  IsClear-within B C q sub h = record {
    on_host = h.on_host;
    clear = λ i j c. h.clear i j (sub i j c);
  }

  each-Returns :
      (P : ℕ → Queues G K → Type 0) (f : ℕ → M (Queues G K) (Unit {0})) (i n : ℕ) (s : Queues G K)
      → ((j : ℕ) (s : Queues G K) → j < i + n → P j s → Returns (P (j + 1)) (f j s))
      → P i s
      → Returns (P (i + n)) (each k bar0 f i n s)
  unfolding each
  each-Returns P f i zero s step p = let same : i + 0 ≡ i = omega arith in rw same p
  each-Returns P f i (suc n) s step p =
      let next : i + suc n ≡ i + 1 + n = omega arith in
      rw next (
        Returns-bind_out (P (i + 1)) (P (i + 1 + n)) (ignore (f i) s) (λ _. each k bar0 f (i + 1) n)
          (λ a t q. each-Returns P f (i + 1) n t (λ j u lt. step j u (omega (arith, lt))) q)
          (Returns-ignore (P (i + 1)) (f i) s (step i s (omega arith) p)))

  -- The slots of the first `t` types of an engine, of the first `eng` engines of a core, and of the
  -- first `nc` cores.
  abbrev TypesBefore : (nc eng t : ℕ) → ℕ → ℕ → Type 0
  TypesBefore nc eng t i j = (i ≡ nc) × (u : ℕ) × (u < t) × (j ≡ u * 4 + eng)

  abbrev EnginesBefore : (nc eng : ℕ) → ℕ → ℕ → Type 0
  EnginesBefore nc eng i j = (i ≡ nc) × (e : ℕ) × (u : ℕ) × (e < eng) × (u < 4) × (j ≡ u * 4 + e)

  abbrev CoresBefore : (nc : ℕ) → ℕ → ℕ → Type 0
  CoresBefore nc i j = (i < nc) × (j < 16)

  -- A loop over 0, 1, 2, 3 whose rounds each clear more slots.
  loop-IsClear :
      (B : ℕ → ℕ → ℕ → Type 0) (C : ℕ → ℕ → Type 0) (f : ℕ → M (Queues G K) (Unit {0}))
      (q : Queues G K)
      → ((n : ℕ) (s : Queues G K) → n < 4 → IsClear (B n) s → Returns (IsClear (B (n + 1))) (f n s))
      → ((i j : ℕ) → C i j → B 4 i j)
      → IsClear (B 0) q
      → Returns (IsClear C) (each k bar0 f 0 4 q)
  loop-IsClear B C f q step sub h =
      Returns-map (IsClear (B 4)) (IsClear C) (each k bar0 f 0 4 q)
        (λ s. IsClear-within (B 4) C s sub)
        (each-Returns (λ n. IsClear (B n)) f 0 4 q (λ n s lt. step n s (omega (arith, lt))) h)

  types_loop :
      (nc eng : ℕ) (q : Queues G K)
      → nc < 4
      → eng < 4
      → IsClear (λ i j. CoresBefore nc i j ⊎ EnginesBefore nc eng i j) q
      → Returns
          (IsClear (λ i j. CoresBefore nc i j ⊎ EnginesBefore nc (eng + 1) i j))
          (each k bar0 (nc_nq_destroy k bar0 nc eng) 0 4 q)
  types_loop nc eng q hn he h =
      let A = λ (i j : ℕ). CoresBefore nc i j ⊎ EnginesBefore nc eng i j in
      loop-IsClear (λ t i j. A i j ⊎ TypesBefore nc eng t i j) _ (nc_nq_destroy k bar0 nc eng) q
        (λ t s lt c.
          Returns-map _ _ (nc_nq_destroy k bar0 nc eng t s)
            (λ u. IsClear-within _ _ u (λ i j b. elim b [
              | inl a ↦ inl (inl a)
              | inr (x, v, y, z) ↦ elim (ℕ_discrete v t) [
                | yes e ↦ inr (x, rw e at z)
                | no ne ↦ inl (inr (x, v, omega (arith, ne), z))
              ]
            ]))
            (nc_nq_destroy-IsClear (λ i j. A i j ⊎ TypesBefore nc eng t i j) nc eng t s hn he lt c))
        (λ i j b. elim b [
          | inl a ↦ inl (inl a)
          | inr (x, e, u, y, w, z) ↦ elim (ℕ_discrete e eng) [
            | yes same ↦ inr (x, u, w, rw same at z)
            | no ne ↦ inl (inr (x, e, u, omega (arith, ne), w, z))
          ]
        ])
        (IsClear-within _ _ q
          (λ i j b. elim b [ inl a ↦ a | inr (x, v, y, z) ↦ absurd (omega (arith, y)) ]) h)

  engines_loop :
      (nc : ℕ) (q : Queues G K)
      → nc < 4
      → IsClear (CoresBefore nc) q
      → Returns
          (IsClear (CoresBefore (nc + 1)))
          (each k bar0 (λ eng. each k bar0 (nc_nq_destroy k bar0 nc eng) 0 4) 0 4 q)
  engines_loop nc q hn h =
      loop-IsClear (λ eng i j. CoresBefore nc i j ⊎ EnginesBefore nc eng i j) _
        (λ eng. each k bar0 (nc_nq_destroy k bar0 nc eng) 0 4) q
        (λ eng s lt c. types_loop nc eng s hn lt c)
        (λ i j (x, y). elim (ℕ_discrete i nc) [
          | yes e ↦ inr (e, j % 4, j / 4, omega arith, omega (arith, y), omega arith)
          | no ne ↦ inl (omega (arith, ne), y)
        ])
        (IsClear-within _ _ q
          (λ i j b. elim b [ inl a ↦ a | inr (x, e, u, y, w, z) ↦ absurd (omega (arith, y)) ]) h)

  -- On a device whose notification queues are host chunks `nc_nq_destroy_all` returns without an
  -- error and leaves none of the 16 slots of any of the 4 cores in use.
  nc_nq_destroy_all-clear :
      (q : Queues G K)
      → ((i j : ℕ) (c : Chunk) → q.nq_mc i j ≡ some c → c.mem_location ≡ loc_host)
      → Returns
          (λ s. (nc id : ℕ) → nc < 4 → id < 16 → s.nq_mc nc id ≡ none)
          (nc_nq_destroy_all k bar0 q)
  unfolding nc_nq_destroy_all
  nc_nq_destroy_all-clear q hosts =
      Returns-map (IsClear (CoresBefore 4)) _ (nc_nq_destroy_all k bar0 q)
        (λ s h nc id x y. h.clear nc id (x, y))
        (loop-IsClear CoresBefore (CoresBefore 4)
          (λ nc. each k bar0 (λ eng. each k bar0 (nc_nq_destroy k bar0 nc eng) 0 4) 0 4) q
          (λ nc s lt h. engines_loop nc s lt h) (λ i j b. b)
          (record { on_host = hosts; clear = λ i j b. absurd (omega (arith, b.0)) }))
