-- ===== src/Rings/Device/Transfers.antt =====
-- Copies on the rings that `ndmar_init` brought up.
use aws_neuron_driver.Common.{ℕ, ◌^◌, ◌<◌, ◌≡◌, arith, ok, Returns-ok, ◌∙◌}
use aws_neuron_driver.Udma.Types.{Engine, Host}
use aws_neuron_driver.Udma.Ring.Pair.{PairTracks}
use aws_neuron_driver.Mempool.{Kernel}
use aws_neuron_driver.Dma.{ndma_memcpy}
use aws_neuron_driver.Dma.Chunks.{h2t_engine}
use aws_neuron_driver.Dma.Wait.{Answers}
use aws_neuron_driver.Dma.Memcpy.{ndma_memcpy_runs}
use aws_neuron_driver.Rings.Device.{Device, ndmar_init}
use aws_neuron_driver.Rings.Device.Init.{Serves, ndmar_init-IsReady}

module _ {G K : Type 0} (k : Kernel G K) (hosts : ℕ → Host) (s : Serves k hosts) where
  -- With a kernel that gives memory for rings at 64-byte aligned bus addresses, and engines of
  -- revision 4 whose registers can be read, `ndmar_init` succeeds in every state of a device, and
  -- a copy of any 32-bit size on the ring that it made for one of the four cores then succeeds,
  -- if that engine's host gives memory and shows every completion marker within 400 polls, and
  -- leaves the rings of 8192 descriptors quiet.
  pub ndmar_init-ndma_memcpy :
      (bar0 : ℕ) (d : Device G K) (nc src dst size : ℕ)
      → nc < 4
      → Answers (hosts (h2t_engine nc))
      → size < 2 ^ 32
      → (t : Device G K) × (m : Engine) × (n : ℕ) × (ndmar_init k hosts bar0 d ≡ ok tt t)
        × (ndma_memcpy (hosts (h2t_engine nc)) 15 src dst size (t.engines (h2t_engine nc)).engine
            ≡ ok tt m)
        × PairTracks m.udma 15 13 n n
  ndmar_init-ndma_memcpy bar0 d nc src dst size low a fits =
      let (t, made, ready) =
        Returns-ok _ (ndmar_init k hosts bar0 d) (ndmar_init-IsReady k hosts s bar0 d) in
      let (steps, m, n, same, done, covers, leaves) =
        ndma_memcpy_runs (hosts (h2t_engine nc)) (t.engines (h2t_engine nc)).engine src dst size
          (ready nc low) (omega arith) a fits in
      (t, m, n, made, same ∙ done, leaves.pair)
