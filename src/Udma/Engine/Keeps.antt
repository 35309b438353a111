-- ===== src/Udma/Engine/Keeps.antt =====
-- Steps of the set-up of an engine that return, whatever they keep.
use aws_neuron_driver.Common.{
  ℕ, zero, suc, Bool, true, false, some, List, ◌∷◌, ◌+◌, ◌≡◌, M, ok, Returns, Returns-bind_out,
  Returns-ignore, Returns-if, ignore, ◌>>=◌, ◌>>◌, if◌then◌else◌, ltb, bit_and, bit_or, not32, ◌*◌,
  ◌^◌,
}
use aws_neuron_driver.Udma.Types.{
  Engine, Host, Reg, Event, reg_read, reg_write32, reg_read32, m2s_cfg_len, m2s_rd_data_cfg,
  axi_m2s_ostand_cfg, gen_axi_cfg_1, m2s_comp_application_ack, vmpr_tx_sel, vmpr_rx_sel,
  s2m_comp_application_ack, axi_s2m_ostand_cfg_rd, axi_s2m_ostand_cfg_wr, spare_zeroes0, iofic_reg,
  int_control_grp, int_mask_clear_grp, int_abort_msk_grp, desc_pref_cfg_2, desc_pref_cfg_3,
}
use aws_neuron_driver.Udma.Setup.{
  read_or_eio, write32_masked_or_eio, packet_size_cfg_set, max_descs_set,
}
use aws_neuron_driver.Udma.Iofic.{
  iofic_config, iofic_unmask, iofic_unmask_adv, iofic_abort_mask_clear, masked_over,
  level_and_group_valid, iofic_m2s_error_ints_unmask, iofic_s2m_error_ints_unmask,
}
use aws_neuron_driver.Udma.Engine.{select_tx, select_rx, set_defaults}

-- A host whose registers can always be read.
abbrev pub IsReadable : Host → Type 0
IsReadable h = (trace : List Event) (r : Reg) → (v : ℕ) × (h.reg_value trace r ≡ some v)

-- A predicate that an access to a register leaves.
abbrev pub Persists : (Engine → Type 0) → Type 0
Persists P = (m : Engine) (e : Event) → P m → P (record m { trace = e ∷ m.trace })

module _ (h : Host) (a : IsReadable h) (P : Engine → Type 0) (g : Persists P) where
  -- A call that returns, and keeps `P`.
  pub record Keeps {A : Type 0} (f : M Engine A) : Type 0 where
    pub keep : (m : Engine) → P m → Returns P (f m)

  pub Keeps-bind :
      {A B : Type 0} (f : M Engine A) (k : A → M Engine B)
      → Keeps f
      → ((x : A) → Keeps (k x))
      → Keeps (f >>= k)
  Keeps-bind f k hf hk = record {
    keep = λ m p. Returns-bind_out P P (f m) k (λ x s q. (hk x).keep s q) (hf.keep m p);
  }

  pub Keeps-then : (f k : M Engine (Unit {0})) → Keeps f → Keeps k → Keeps (f >> k)
  Keeps-then f k hf hk = Keeps-bind f (λ _. k) hf (λ _. hk)

  pub Keeps-write : (r : Reg) (v : ℕ) → Keeps (reg_write32 r v)
  unfolding reg_write32
  Keeps-write r v = record { keep = λ m p. g m _ p }

  pub Keeps-read : (r : Reg) → Keeps (read_or_eio h r)
  unfolding read_or_eio reg_read32
  Keeps-read r = record { keep = λ m p. rw (a m.trace r).1 (g m _ p) }

  Keeps-masked : (r : Reg) (mask value : ℕ) → Keeps (write32_masked_or_eio h r mask value)
  unfolding write32_masked_or_eio
  Keeps-masked r mask value =
      Keeps-bind (read_or_eio h r) _ (Keeps-read r)
        (λ temp. Keeps-write r (bit_or (bit_and mask value) (bit_and (not32 mask) temp)))

  Keeps-select_tx : (n i : ℕ) → Keeps (select_tx n i)
  unfolding select_tx
  Keeps-select_tx zero i = record { keep = λ m p. p }
  Keeps-select_tx (suc n) i =
      Keeps-then _ _ (Keeps-write (vmpr_tx_sel i) 0xffff_ffff) (Keeps-select_tx n (i + 1))

  Keeps-select_rx : (n i : ℕ) → Keeps (select_rx n i)
  unfolding select_rx
  Keeps-select_rx zero i = record { keep = λ m p. p }
  Keeps-select_rx (suc n) i = Keeps-then _ _ (Keeps-write (vmpr_rx_sel i 0) 0xffff_ffff) (
      Keeps-then _ _ (Keeps-write (vmpr_rx_sel i 1) 0xffff_ffff)
        (Keeps-then _ _ (Keeps-write (vmpr_rx_sel i 2) 0xffff_ffff) (Keeps-select_rx n (i + 1))))

  Keeps-packet_size : Keeps (ignore (packet_size_cfg_set h 0xfffff true))
  unfolding packet_size_cfg_set
  Keeps-packet_size =
      let inner = Keeps-bind (read_or_eio h m2s_cfg_len) _ (Keeps-read m2s_cfg_len) (λ reg.
        Keeps-write m2s_cfg_len (bit_or (bit_and (bit_or reg (2 ^ 24)) (not32 0xfffff)) 0xfffff)) in
      record {
        keep = λ m p. Returns-ignore P (packet_size_cfg_set h 0xfffff true) m (inner.keep m p);
      }

  pub Keeps-set_defaults : Keeps (set_defaults h)
  unfolding set_defaults
  Keeps-set_defaults =
      Keeps-then _ _
        (record {
          keep = λ m p.
              (Keeps-masked m2s_rd_data_cfg 0xfff (if ltb m.udma.rev_id 4 then 256 else 1024)).keep
                m p;
        })
        (Keeps-then _ _ (Keeps-masked axi_m2s_ostand_cfg 0xffffff _) (
          Keeps-then _ _ (Keeps-write gen_axi_cfg_1 1000000) (
            Keeps-then _ _ (Keeps-write m2s_comp_application_ack 0) (
              Keeps-then _ _ Keeps-packet_size (
                Keeps-then _ _ (Keeps-select_tx 16 0) (
                  Keeps-then _ _ (Keeps-write s2m_comp_application_ack 0) (
                    Keeps-then _ _ (Keeps-select_rx 16 0) (
                      Keeps-then _ _ (Keeps-masked axi_s2m_ostand_cfg_rd 0xff 128) (
                        Keeps-then _ _ (Keeps-masked axi_s2m_ostand_cfg_wr 0xff00ff _)
                          (Keeps-write spare_zeroes0 1))))))))))

  Keeps-config : (secondary : Bool) (group flags : ℕ) → Keeps (iofic_config secondary group flags)
  unfolding iofic_config
  Keeps-config secondary group flags = Keeps-write (iofic_reg secondary group int_control_grp) flags

  Keeps-abort :
      (secondary : Bool) (group mask : ℕ) → Keeps (iofic_abort_mask_clear h secondary group mask)
  unfolding iofic_abort_mask_clear reg_read32 masked_over reg_write32
  Keeps-abort secondary group mask = record {
    keep = λ m p.
        rw (a m.trace (iofic_reg secondary group int_abort_msk_grp)).1
          (g _ _ (g m (reg_read (iofic_reg secondary group int_abort_msk_grp)) p));
  }

  Keeps-unmask : (secondary : Bool) (group mask : ℕ) → Keeps (iofic_unmask_adv secondary group mask)
  unfolding iofic_unmask_adv iofic_unmask
  Keeps-unmask secondary group mask = record {
    keep = λ m p.
        Returns-if P (level_and_group_valid m.udma.rev_id secondary group)
          (iofic_unmask secondary group mask m) (ok tt m)
          ((Keeps-write (iofic_reg secondary group int_mask_clear_grp) (not32 mask)).keep m p) p;
  }

  pub Keeps-m2s_ints : Keeps (iofic_m2s_error_ints_unmask h)
  unfolding iofic_m2s_error_ints_unmask
  Keeps-m2s_ints = Keeps-then _ _ (Keeps-config true 0 _) (
      Keeps-then _ _ (Keeps-config false 3 _) (
        Keeps-then _ _ (Keeps-abort true 0 _) (
          Keeps-then _ _ (Keeps-abort true 2 _) (
            Keeps-then _ _ (Keeps-unmask true 0 _)
              (Keeps-then _ _ (Keeps-unmask true 2 _) (Keeps-unmask false 3 _))))))

  pub Keeps-s2m_ints : Keeps (iofic_s2m_error_ints_unmask h)
  unfolding iofic_s2m_error_ints_unmask
  Keeps-s2m_ints = Keeps-then _ _ (Keeps-config true 1 _) (
      Keeps-then _ _ (Keeps-config false 3 _) (
        Keeps-then _ _ (Keeps-abort true 1 _) (
          Keeps-then _ _ (Keeps-abort true 2 _) (
            Keeps-then _ _ (Keeps-unmask true 1 _)
              (Keeps-then _ _ (Keeps-unmask true 2 _) (Keeps-unmask false 3 _))))))

  pub Keeps-max_descs : Keeps (max_descs_set h 128)
  unfolding max_descs_set
  Keeps-max_descs =
      Keeps-then _ _ (Keeps-masked desc_pref_cfg_2 0xfff 128)
        (Keeps-masked desc_pref_cfg_3 0xfff0 (bit_or (128 * 2 ^ 8) (8 * 2 ^ 4)))
