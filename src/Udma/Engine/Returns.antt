-- ===== src/Udma/Engine/Returns.antt =====
-- The set-up of an engine whose registers can be read returns, with every queue on.
use aws_neuron_driver.Common.{
  ℕ, zero, suc, some, ◌+◌, ◌<◌, ◌≡◌, refl, sym, ap, ◌∙◌, ◌==◌, Returns, Returns-bind_out,
  Returns-map, ◌>>=◌, arith, Bool-cases, ==_iff, inl, inr,
}
use aws_neuron_driver.Udma.Types.{
  UdmaType, tx, rx, UdmaQ, Udma, Engine, Host, queue, with_queue, put_queue, queue_enabled, disable,
  dma_version, s2m_comp_cfg_1c,
}
use aws_neuron_driver.Udma.Types.{queue_reg, QueueReg}
use aws_neuron_driver.Udma.Setup.{copy_defaults, cache_defaults, max_descs_set}
use aws_neuron_driver.Udma.Setup.Laws.{handle_init_aux_lem, turned_on, IsEnabled, IsEnabled-cons}
use aws_neuron_driver.Udma.Iofic.{iofic_m2s_error_ints_unmask, iofic_s2m_error_ints_unmask}
use aws_neuron_driver.Udma.Engine.{set_defaults, write_cdesc_size, udma_init, m2m_init_engine}
use aws_neuron_driver.Udma.Engine.Keeps.{
  IsReadable, Keeps, Keeps-bind, Keeps-m2s_ints, Keeps-max_descs, Keeps-read, Keeps-s2m_ints,
  Keeps-set_defaults, Keeps-then, Keeps-write, Persists,
}

-- An engine whose set-up is done, up to the size of its completion descriptors: every queue is on, also in
-- its register, the number of queues is 16, and both states are disabled.
pub record IsSetUp (m : Engine) : Type 0 where
  all_on : (t : UdmaType) (j : ℕ) → j < 16 → (queue m.udma t j).status ≡ queue_enabled
  enabled : (t : UdmaType) (j : ℕ) → j < 16 → IsEnabled t j m.trace
  pub number : m.udma.num_of_queues ≡ 16
  tx_state : m.udma.state_m2s ≡ disable
  rx_state : m.udma.state_s2m ≡ disable

IsSetUp-Persists : Persists IsSetUp
IsSetUp-Persists m e s = record {
  all_on = s.all_on;
  enabled = λ t j lt. IsEnabled-cons t j e m.trace (s.enabled t j lt);
  number = s.number;
  tx_state = s.tx_state;
  rx_state = s.rx_state;
}

status-with_queue :
    (u : Udma) (t : UdmaType) (i : ℕ) (q : UdmaQ)
    → q.status ≡ (queue u t i).status
    → (t' : UdmaType) (j : ℕ) → (queue (with_queue u t i q) t' j).status ≡ (queue u t' j).status
status-with_queue u tx i q e tx j = elim (Bool-cases (j == i)) [
  | inl x ↦ rw x (e ∙ ap (λ n. (u.udma_q_m2s n).status) (sym ((==_iff j i).0 x)))
  | inr x ↦ rw x refl
]
status-with_queue u tx i q e rx j = refl
status-with_queue u rx i q e tx j = refl
status-with_queue u rx i q e rx j = elim (Bool-cases (j == i)) [
  | inl x ↦ rw x (e ∙ ap (λ n. (u.udma_q_s2m n).status) (sym ((==_iff j i).0 x)))
  | inr x ↦ rw x refl
]

-- A queue is replaced by one with the same status.
IsSetUp-with_queue :
    (m : Engine) (t : UdmaType) (i : ℕ) (q : UdmaQ)
    → q.status ≡ (queue m.udma t i).status
    → IsSetUp m
    → IsSetUp (record m { udma = with_queue m.udma t i q })
IsSetUp-with_queue m tx i q e s = record {
  all_on = λ t j lt. status-with_queue m.udma tx i q e t j ∙ s.all_on t j lt;
  enabled = s.enabled;
  number = s.number;
  tx_state = s.tx_state;
  rx_state = s.rx_state;
}
IsSetUp-with_queue m rx i q e s = record {
  all_on = λ t j lt. status-with_queue m.udma rx i q e t j ∙ s.all_on t j lt;
  enabled = s.enabled;
  number = s.number;
  tx_state = s.tx_state;
  rx_state = s.rx_state;
}

module _ (h : Host) (a : IsReadable h) where
  -- `IsSetUp`, with a size of completion descriptors.
  record IsSized (size : ℕ) (m : Engine) : Type 0 where
    up : IsSetUp m
    sized : m.udma.cdesc_size ≡ size

  IsSized-Persists : (size : ℕ) → Persists (IsSized size)
  IsSized-Persists size m e s = record { up = IsSetUp-Persists m e s.up; sized = s.sized }

  Keeps-put :
      (size : ℕ) (t : UdmaType) (i : ℕ) (f : Engine → UdmaQ)
      → ((m : Engine) → (f m).status ≡ (queue m.udma t i).status)
      → Keeps h a (IsSized size) (IsSized-Persists size) (λ m. put_queue t i (f m) m)
  Keeps-put size t i f e = record {
    keep = λ m p. record {
      up = IsSetUp-with_queue m t i (f m) (e m) p.up;
      sized = same t m (f m) ∙ p.sized;
    };
  }
    where
      same :
          (t : UdmaType) (m : Engine) (q : UdmaQ)
          → (with_queue m.udma t i q).cdesc_size ≡ m.udma.cdesc_size
      same tx m q = refl
      same rx m q = refl

  Keeps-copy_defaults :
      (size n i : ℕ) → Keeps h a (IsSized size) (IsSized-Persists size) (copy_defaults h n i)
  unfolding copy_defaults
  Keeps-copy_defaults size zero i = record { keep = λ m p. p }
  Keeps-copy_defaults size (suc n) i =
      let P = IsSized size in
      let g = IsSized-Persists size in
      Keeps-then h a P g _ _
        (Keeps-put size tx i
          (λ m. record (queue m.udma tx i) {
            cfg = (queue m.udma tx 0).cfg;
            rlimit_mask = (queue m.udma tx 0).rlimit_mask;
          })
          (λ m. refl))
        (Keeps-then h a P g _ _
          (Keeps-put size rx i (λ m. record (queue m.udma rx i) { cfg = (queue m.udma rx 0).cfg })
            (λ m. refl))
          (Keeps-copy_defaults size n (i + 1)))

  Keeps-cache_defaults :
      (size : ℕ) → Keeps h a (IsSized size) (IsSized-Persists size) (cache_defaults h)
  unfolding cache_defaults
  Keeps-cache_defaults size =
      let P = IsSized size in
      let g = IsSized-Persists size in
      Keeps-bind h a P g _ _ (Keeps-read h a P g (queue_reg tx 0 QueueReg.cfg)) (λ tx_cfg.
        Keeps-then h a P g _ _
          (Keeps-put size tx 0 (λ m. record (queue m.udma tx 0) { cfg = tx_cfg }) (λ m. refl))
          (Keeps-bind h a P g _ _ (Keeps-read h a P g (queue_reg tx 0 QueueReg.rlimit_mask))
            (λ mask.
              Keeps-then h a P g _ _
                (Keeps-put size tx 0 (λ m. record (queue m.udma tx 0) { rlimit_mask = mask })
                  (λ m. refl))
                (Keeps-bind h a P g _ _ (Keeps-read h a P g (queue_reg rx 0 QueueReg.cfg))
                  (λ rx_cfg.
                    Keeps-then h a P g _ _
                      (Keeps-put size rx 0 (λ m. record (queue m.udma rx 0) { cfg = rx_cfg })
                        (λ m. refl))
                      (Keeps-copy_defaults size 15 1))))))

  Keeps-write_cdesc_size :
      (size val : ℕ) → Keeps h a (IsSized size) (IsSized-Persists size) (write_cdesc_size h val)
  unfolding write_cdesc_size
  Keeps-write_cdesc_size size val =
      let P = IsSized size in
      let g = IsSized-Persists size in
      Keeps-bind h a P g _ _ (Keeps-read h a P g s2m_comp_cfg_1c) (λ old.
        Keeps-then h a P g _ _ (Keeps-write h a P g s2m_comp_cfg_1c _) (Keeps-cache_defaults size))

  -- The engine with the size of its completion descriptors stored.
  sized :
      (m : Engine) → IsSetUp m → IsSized 16 (record m { udma = record m.udma { cdesc_size = 16 } })
  sized m p = record {
    up = record {
      all_on = all_on;
      enabled = p.enabled;
      number = p.number;
      tx_state = p.tx_state;
      rx_state = p.rx_state;
    };
    sized = refl;
  }
    where
      all_on :
          (t : UdmaType) (j : ℕ)
          → j < 16
          → (queue (record m.udma { cdesc_size = 16 }) t j).status ≡ queue_enabled
      all_on tx j lt = p.all_on tx j lt
      all_on rx j lt = p.all_on rx j lt

  -- When every register of an engine can be read, and its version register reads 4,
  -- `udma_m2m_init_engine` for 16 queues returns without an error: all queues of both directions
  -- are on, in their status and by a write to the configuration register of each with both enable
  -- bits set, the engine is disabled in both directions and has completion descriptors of 16
  -- bytes.
  pub m2m_init_engine-IsSetUp :
      (m : Engine)
      → h.reg_value m.trace dma_version ≡ some 4
      → Returns (λ s. IsSetUp s × (s.udma.cdesc_size ≡ 16)) (m2m_init_engine h 16 m)
  unfolding m2m_init_engine udma_init turned_on
  m2m_init_engine-IsSetUp m version =
      let (m1, runs, on, number, tx_off, rx_off, enabled) =
        handle_init_aux_lem h 16 m version (omega arith) in
      let up : IsSetUp m1 = record {
        all_on = λ t j lt. ap (λ (q : UdmaQ). q.status) (on t j lt);
        enabled = enabled;
        number = number;
        tx_state = tx_off;
        rx_state = rx_off;
      } in
      let Sized = IsSized 16 in
      rw (runs, ◌>>=◌)
        (Returns-bind_out Sized _ _ (λ _. max_descs_set h 128)
          (λ x s q.
            Returns-map Sized _ (max_descs_set h 128 s) (λ s r. (r.up, r.sized))
              ((Keeps-max_descs h a (IsSized 16) (IsSized-Persists 16)).keep s q))
          (Returns-bind_out IsSetUp Sized (set_defaults h m1) _
            (λ x s p.
              Returns-bind_out IsSetUp Sized (iofic_m2s_error_ints_unmask h s) _
                (λ x s p.
                  Returns-bind_out IsSetUp Sized (iofic_s2m_error_ints_unmask h s) _
                    (λ x s p.
                      (Keeps-write_cdesc_size 16 16).keep
                        (record s { udma = record s.udma { cdesc_size = 16 } }) (sized s p))
                    ((Keeps-s2m_ints h a IsSetUp IsSetUp-Persists).keep s p))
                ((Keeps-m2s_ints h a IsSetUp IsSetUp-Persists).keep s p))
            ((Keeps-set_defaults h a IsSetUp IsSetUp-Persists).keep m1 up)))
