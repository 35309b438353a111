-- ===== src/Rings/Device/Stages.antt =====
-- What a call on one engine of a device leaves of that engine, and of the others.
use aws_neuron_driver.Common.{
  ℕ, true, ◌%◌, ◌<◌, ◌≡◌, ◌≢◌, refl, lt→leb-false, eq→==, ne→==-false, M, Outcome, ok, err, bug,
  Returns, Runs,
}
use aws_neuron_driver.Udma.Types.{Udma, Engine}
use aws_neuron_driver.Mempool.{Kernel}
use aws_neuron_driver.Rings.{NdmaEng, back_in, on_udma}
use aws_neuron_driver.Rings.Device.{Device, back_in_engine, on_engine, acquire, h2t_ring}

-- The driver's own rings of an engine are at 64-byte aligned bus addresses.
pub record HasRings (e : NdmaEng) : Type 0 where
  pub marked : e.used_for_h2t ≡ true
  pub tx_aligned : (h2t_ring e).tx_ptr.addr % 64 ≡ 0
  pub rx_aligned : (h2t_ring e).rx_ptr.addr % 64 ≡ 0

-- An engine's rings, with a property of its UDMA.
pub record Holds (P : Udma → Type 0) (e : NdmaEng) : Type 0 where
  pub rings : HasRings e
  pub udma : P e.engine.udma

-- A call on the UDMA leaves the rings alone.
pub on_udma-Holds :
    {A : Type 0} (P Q : Udma → Type 0) (f : M Engine A) (e : NdmaEng)
    → ((m : Engine) → P m.udma → Returns (λ s. Q s.udma) (f m))
    → Holds P e
    → Returns (Holds Q) (on_udma f e)
on_udma-Holds {A} P Q f e keeps h = by_outcome (f e.engine) (keeps e.engine h.udma)
  where
    by_outcome :
        (x : Outcome Engine A) → Returns (λ s. Q s.udma) x → Returns (Holds Q) (back_in e x)
    by_outcome (ok a m) q = record {
      rings = record {
        marked = h.rings.marked;
        tx_aligned = h.rings.tx_aligned;
        rx_aligned = h.rings.rx_aligned;
      };
      udma = q;
    }
    by_outcome (err x m) q = absurd q
    by_outcome bug q = absurd q

module _ {G K : Type 0} (k : Kernel G K) (i : ℕ) (before : ℕ → NdmaEng) where
  -- Engine `i` holds `P`, and the other engines are those of before.
  pub record Stage (P : NdmaEng → Type 0) (d : Device G K) : Type 0 where
    pub here : P (d.engines i)
    pub others : (j : ℕ) → j ≢ i → d.engines j ≡ before j

  on_engine-Stage :
      {A : Type 0} (P Q : NdmaEng → Type 0) (f : M NdmaEng A) (d : Device G K)
      → (P (d.engines i) → Returns Q (f (d.engines i)))
      → Stage P d
      → Returns (Stage Q) (on_engine k i f d)
  on_engine-Stage {A} P Q f d step s = by_outcome (f (d.engines i)) (step s.here)
    where
      by_outcome :
          (x : Outcome NdmaEng A) → Returns Q x → Returns (Stage Q) (back_in_engine k i d x)
      by_outcome (ok a e) q = record {
        here = rw (eq→== i i refl) q;
        others = λ j ne. rw (ne→==-false j i ne) (s.others j ne);
      }
      by_outcome (err x e) q = absurd q
      by_outcome bug q = absurd q

  -- The same of a call that runs from everywhere.
  pub Runs-on_engine :
      {A : Type 0} {P Q : NdmaEng → Type 0} {f : M NdmaEng A}
      → Runs P Q f
      → Runs (Stage P) (Stage Q) (on_engine k i f)
  Runs-on_engine {P = P} {Q = Q} {f = f} r = record {
    run = λ d s. on_engine-Stage P Q f d (r.run (d.engines i)) s;
  }

  pub Runs-acquire : (P : NdmaEng → Type 0) → i < 12 → Runs (Stage P) (Stage P) (acquire k i)
  Runs-acquire P lt = record { run = λ d s. rw (lt→leb-false 12 i lt) s }
