-- ===== src/Udma/Setup/Laws.antt =====
-- What the set-up leaves behind: every queue on, and all of one direction configured alike.
use aws_neuron_driver.Common.{
  ℕ, zero, suc, some, ◌+◌, ◌≤◌, ◌<◌, ◌≡◌, ◌≢◌, refl, ◌∙◌, ap, arith, bit_or, ok, ◌>>=◌, List, [],
  ◌∷◌, ◌++◌, le→ltb-false,
}
use aws_neuron_driver.Udma.Types.{
  UdmaType, tx, rx, UdmaQ, Udma, Engine, Host, queue, with_queue, queue_enabled, disable,
  dma_version, queue_reg, QueueReg, reg_write, reg_read, reg_read32, Event,
}
use native.Mathlib.Decide.{ℕ_discrete}
use aws_neuron_driver.Udma.Init.{q_enable}
use aws_neuron_driver.Udma.Setup.{enable_pair, enable_queues, queues_asked, handle_init_aux}

-- A queue with its prefetch and scheduling on.
unfoldable pub turned_on : UdmaQ → UdmaQ
turned_on q = record q { cfg = bit_or q.cfg 0x30000; status = queue_enabled }

-- The queues from `i` up to `hi` are turned on, the others are as they were.
pub record OnFrom (u u' : Udma) (i hi : ℕ) : Type 0 where
  pub inside : (t : UdmaType) (j : ℕ) → i ≤ j → j < hi → queue u' t j ≡ turned_on (queue u t j)
  pub below : (t : UdmaType) (j : ℕ) → j < i → queue u' t j ≡ queue u t j
  maximum : u'.num_of_queues_max ≡ u.num_of_queues_max
  pub number : u'.num_of_queues ≡ u.num_of_queues
  pub revision : u'.rev_id ≡ u.rev_id

-- The engine after one round.
paired : ℕ → Udma → Udma
paired i u =
    let q : UdmaQ = u.udma_q_m2s i in
    let r : UdmaQ = u.udma_q_s2m i in
    let u1 : Udma = with_queue u tx i (record q { status = queue_enabled }) in
    let u2 : Udma = with_queue u1 rx i (record r { status = queue_enabled }) in
    with_queue (with_queue u2 tx i (turned_on q)) rx i (turned_on r)

-- The configuration register of a queue was written with its two enable bits, 16 and 17, set.
abbrev pub IsEnabled : UdmaType → (qid : ℕ) → List Event → Type 0
IsEnabled t qid trace =
    (later : List Event) × (earlier : List Event) × (x : ℕ) × (trace
      ≡ later ++ (reg_write (queue_reg t qid QueueReg.cfg) (bit_or x 0x30000) ∷ earlier))

pub IsEnabled-cons :
    (t : UdmaType) (j : ℕ) (e : Event) (trace : List Event)
    → IsEnabled t j trace
    → IsEnabled t j (e ∷ trace)
IsEnabled-cons t j e trace (later, earlier, x, h) = (e ∷ later, earlier, x, ap (λ s. e ∷ s) h)

-- The trace after one round.
abbrev pair_trace : ℕ → Engine → List Event
pair_trace i m =
    reg_write (queue_reg rx i QueueReg.cfg) (bit_or (m.udma.udma_q_s2m i).cfg 0x30000)
    ∷ reg_write (queue_reg tx i QueueReg.cfg) (bit_or (m.udma.udma_q_m2s i).cfg 0x30000)
    ∷ m.trace

pair_runs :
    (i : ℕ) (m : Engine)
    → enable_pair i m ≡ ok tt (record { udma = paired i m.udma; trace = pair_trace i m })
unfolding enable_pair q_enable turned_on paired
pair_runs i m = ground arith

pair_trace-IsEnabled : (i : ℕ) (m : Engine) (t : UdmaType) → IsEnabled t i (pair_trace i m)
pair_trace-IsEnabled i m rx = ([], _, _, refl)
pair_trace-IsEnabled i m tx = (_ ∷ [], m.trace, _, refl)

pair_trace-keeps :
    (i : ℕ) (m : Engine) (t : UdmaType) (j : ℕ)
    → IsEnabled t j m.trace
    → IsEnabled t j (pair_trace i m)
pair_trace-keeps i m t j h = IsEnabled-cons t j _ _ (IsEnabled-cons t j _ m.trace h)

paired_here : (i : ℕ) (u : Udma) (t : UdmaType) → queue (paired i u) t i ≡ turned_on (queue u t i)
unfolding paired
paired_here i u tx = ground arith
paired_here i u rx = ground arith

paired_else :
    (i : ℕ) (u : Udma) (t : UdmaType) (j : ℕ) → j ≢ i → queue (paired i u) t j ≡ queue u t j
unfolding paired
paired_else i u tx j ne = ground arith
paired_else i u rx j ne = ground arith

-- One more round before the queues from `i + 1` on.
one_more : (u v : Udma) (i hi : ℕ) → OnFrom (paired i u) v (i + 1) hi → OnFrom u v i hi
one_more u v i hi o = record {
  inside = λ t j low high. elim (ℕ_discrete j i) [
    | yes same ↦ rw same (o.below t i (omega arith) ∙ paired_here i u t)
    | no other ↦ o.inside t j (omega arith) high ∙ ap turned_on (paired_else i u t j other)
  ];
  below = λ t j low. o.below t j (omega arith) ∙ paired_else i u t j (omega arith);
  maximum = o.maximum ∙ unfold paired in refl;
  number = o.number ∙ unfold paired in refl;
  revision = o.revision ∙ unfold paired in refl;
}

enable_queues-OnFrom :
    (n i : ℕ) (m : Engine)
    → (m' : Engine) × (enable_queues n i m ≡ ok tt m')
      × OnFrom m.udma m'.udma i (i + n)
      × ((t : UdmaType) (j : ℕ) → IsEnabled t j m.trace → IsEnabled t j m'.trace)
      × ((t : UdmaType) (j : ℕ) → i ≤ j → j < i + n → IsEnabled t j m'.trace)
unfolding enable_queues
enable_queues-OnFrom zero i m = (
  m,
  refl,
  record {
    inside = λ t j low high. absurd (omega arith);
    below = λ t j low. refl;
    maximum = refl;
    number = refl;
    revision = refl;
  },
  λ t j h. h,
  λ t j low high. absurd (omega arith),
)
enable_queues-OnFrom (suc n) i m =
    let (m', rest, on, kept, enabled) =
      enable_queues-OnFrom n (i + 1) (record { udma = paired i m.udma; trace = pair_trace i m }) in
    let last : i + 1 + n ≡ i + suc n = omega arith in
    (
      m',
      rw (pair_runs i m, ◌>>=◌) rest,
      one_more m.udma m'.udma i (i + suc n) (rw last at on),
      λ t j h. kept t j (pair_trace-keeps i m t j h),
      λ t j low high. elim (ℕ_discrete j i) [
        | yes same ↦ rw same (kept t i (pair_trace-IsEnabled i m t))
        | no other ↦ enabled t j (omega arith) (omega arith)
      ],
    )

-- On an engine whose version register reads 4, asked for at most 16 queues or for all of them,
-- `udma_handle_init_aux` succeeds: each of the sixteen queues of both directions has its prefetch
-- and scheduling on, also in its register, and is otherwise as it was, the number of queues is the one asked for, and
-- both states are disabled.
pub handle_init_aux_lem :
    (h : Host) (n : ℕ) (m : Engine)
    → h.reg_value m.trace dma_version ≡ some 4
    → queues_asked n ≤ 16
    → (m' : Engine) × (handle_init_aux h n m ≡ ok tt m')
      × ((t : UdmaType) (j : ℕ) → j < 16 → queue m'.udma t j ≡ turned_on (queue m.udma t j))
      × (m'.udma.num_of_queues ≡ queues_asked n)
      × (m'.udma.state_m2s ≡ disable)
      × (m'.udma.state_s2m ≡ disable)
      × ((t : UdmaType) (j : ℕ) → j < 16 → IsEnabled t j m'.trace)
unfolding handle_init_aux
handle_init_aux_lem h n m version few =
    let m1 : Engine = record {
      udma = record m.udma { rev_id = 4; num_of_queues_max = 16; num_of_queues = queues_asked n };
      trace = reg_read dma_version ∷ m.trace;
    } in
    let (m2, runs, on, kept, enabled) = enable_queues-OnFrom 16 0 m1 in
    (
      record m2 { udma = record m2.udma { state_m2s = disable; state_s2m = disable } },
      unfold reg_read32 in rw (version, ◌>>=◌, le→ltb-false _ _ few, runs, ◌>>=◌) refl,
      λ t j low.
          queue_kept m2.udma t j
          ∙ on.inside t j (omega arith) low
          ∙ ap turned_on (queue_before t j),
      on.number,
      refl,
      refl,
      λ t j low. enabled t j (omega arith) low,
    )
  where
    queue_kept :
        (u : Udma) (t : UdmaType) (j : ℕ)
        → queue (record u { state_m2s = disable; state_s2m = disable }) t j ≡ queue u t j
    queue_kept u tx j = refl
    queue_kept u rx j = refl

    queue_before :
        (t : UdmaType) (j : ℕ)
        → queue
            (record m.udma { rev_id = 4; num_of_queues_max = 16; num_of_queues = queues_asked n })
            t
            j
          ≡ queue m.udma t j
    queue_before tx j = refl
    queue_before rx j = refl
