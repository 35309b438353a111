-- ===== src/Cdev/Bar.antt =====
-- Registers read and written by a process, neuron_cdev.c: `ncdev_bar_write`, `ncdev_bar_read` and
-- `ncdev_bar_rw`.
use aws_neuron_driver.Common.{
  ℕ, zero, suc, Bool, true, false, Option, none, some, List, [], ◌∷◌, ◌++◌, ◌+◌, ◌-◌, ◌*◌, ◌^◌, u32,
  u64, bit_or, ◌==◌, ltb, if◌then◌else◌, length, get_or, Errno, M, ok, err, bug, ◌>>=◌, ◌>>◌, pure,
  fail, fail_if, einval, enomem,
}
use aws_neuron_driver.Mempool.{sub64}
use aws_neuron_driver.Core.{Write, writel}
use aws_neuron_driver.FwIo.Region.{Region, CsrRead, fw_io_read_csr_array}
use aws_neuron_driver.Dma.{pciex8_0_base}
use aws_neuron_driver.Dma.Chunks.{Transfer}
pub mod Inside

-- A region of registers: where it is mapped, and its size in bytes.
pub record Bar : Type 0 where
  pub base : ℕ
  pub size : ℕ

-- The body of the loops, at offset `off` of the region.
unfoldable pub write_at : Bar → (off value : ℕ) → M (List Write) (Unit {0})
write_at b off value = do fail_if (ltb b.size off) einval; writel value (u64 (b.base + off))

-- The loop for BAR0: each word goes to the address that stands at its place.
unfoldable pub write_each : Bar → List (ℕ × ℕ) → M (List Write) (Unit {0})
unfolding write_at
write_each b [] = pure tt
write_each b ((addr, value) ∷ rest) = do write_at b (sub64 addr b.base) value; write_each b rest

-- The loop for BAR2: the words go one after the other, from offset `off` on.
unfoldable pub write_from : Bar → (off : ℕ) → List ℕ → M (List Write) (Unit {0})
unfolding write_at
write_from b off [] = pure tt
write_from b off (value ∷ rest) = do write_at b off value; write_from b (u64 (off + 4)) rest

abbrev pub status : Option Errno → M (List Write) (Unit {0})
status none = pure tt
status (some e) = fail e

-- Addresses with the words for them; the process gives as many of the one as of the other.
abbrev pub pairs : List ℕ → List ℕ → List (ℕ × ℕ)
pairs (a ∷ as') (v ∷ vs) = (a, v) ∷ pairs as' vs
pairs _ _ = []

-- `ncdev_bar_write` with the buffer that `kmalloc` gives, 0 for none, and the status of the copy from
-- the process; `words` is what the buffer holds.
unfoldable pub bar_write :
    (bar0 bar2 : Bar) (bar buffer : ℕ) (copy : Option Errno) (reg_addresses words : List ℕ)
    → M (List Write) (Unit {0})
unfolding write_each write_from
bar_write bar0 bar2 bar buffer copy reg_addresses words = do
  fail_if (buffer == 0) enomem
  status copy
  let each : M (List Write) (Unit {0}) = write_each bar0 (pairs reg_addresses words)
  let from : M (List Write) (Unit {0}) =
      write_from bar2 (sub64 (get_or reg_addresses 0 0) bar2.base) words
  if bar == 0 then each else from

-- What `ncdev_bar_read` asks for: a read through the firmware for BAR0, else one transfer to a buffer
-- of the host at `pa`.
pub data BarRead : Type 0 where
  csr_read : CsrRead → BarRead
  dma_read : Transfer → BarRead

unfoldable pub bar_read :
    List (Option Region) → (bar pa : ℕ) (first : ℕ) (rest : List ℕ) (data_count : ℕ) → BarRead
bar_read slots bar pa first rest data_count =
    if bar == 0
    then csr_read (fw_io_read_csr_array slots first rest)
    else dma_read (record {
      nc_id = 0;
      src = first;
      dst = bit_or pa pciex8_0_base;
      size = u32 (data_count * 4);
    })

-- The number of addresses that `ncdev_bar_rw` takes from the process.
unfoldable address_count : (bar count : ℕ) → ℕ
address_count bar count = if bar == 0 then count else 1
