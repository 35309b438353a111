-- ===== src/FwIo/Context.antt =====
-- The context of a device's firmware channel, `fw_io_setup` and `fw_io_destroy` of v1/fw_io.c. The addresses
-- that `kmalloc` gives are arguments, 0 where it fails.
use aws_neuron_driver.Common.{
  ℕ, Bool, true, false, List, [], ◌∷◌, Option, none, some, ◌+◌, bit_or, u32, ◌==◌, ◌!=◌,
  if◌then◌else◌, Errno, M, Outcome, ok, err, bug, ◌>>=◌, ◌>>◌, pure, fail, enomem, minus_one,
}
use aws_neuron_driver.Dma.{pciex8_0_base}
use aws_neuron_driver.FwIo.Request.{FwIoCtx, new_ctx, misc_ram_offset}
use aws_neuron_driver.FwIo.Region.{Region, fw_io_register_read_region}
use aws_neuron_driver.FwIo.Services.{device_id_offset}
pub mod Leaks

-- A register write from BAR0.
pub record IdWrite : Type 0 where
  pub addr : ℕ
  pub value : ℕ

-- What a set-up changes: `fwio_read_regions`, the memory that is allocated, and the register writes.
pub record Setup : Type 0 where
  pub regions : List (Option Region)
  pub allocated : List ℕ
  pub writes : List IdWrite

-- What the set-up is called with.
pub record Bars : Type 0 where
  pub device_index : ℕ
  pub bar0 : ℕ
  pub bar0_size : ℕ
  pub bar2 : ℕ
  pub bar2_size : ℕ

-- The three allocations, and the physical addresses of the two buffers.
pub record Buffers : Type 0 where
  pub ctx : ℕ
  pub request : ℕ
  pub response : ℕ
  pub request_phys : ℕ
  pub response_phys : ℕ

-- P_0_APB_BASE and P_0_NC_0_BASE
abbrev p_0_apb_base : ℕ
p_0_apb_base = 0xffff0000000

abbrev p_0_nc_0_base : ℕ
p_0_nc_0_base = 0xfffc0000000

-- `kmalloc`
unfoldable pub take : (address : ℕ) → M Setup Bool
take address s =
    if address == 0 then ok false s else ok true (record s { allocated = address ∷ s.allocated })

-- `kfree`
unfoldable pub without : ℕ → List ℕ → List ℕ
without a [] = []
without a (b ∷ rest) = let others = without a rest in if b == a then rest else b ∷ others

unfoldable pub give : (address : ℕ) → M Setup (Unit {0})
unfolding without
give address s = ok tt (record s { allocated = without address s.allocated })

-- `if (ptr) kfree(ptr)`
unfoldable pub give_if : (address : ℕ) → M Setup (Unit {0})
unfolding give
give_if address = if address == 0 then pure tt else give address

-- `fw_io_destroy`, for a context with these buffers
unfoldable pub fw_io_destroy : (ctx request response : ℕ) → M Setup (Unit {0})
unfolding give give_if
fw_io_destroy ctx request response = do give_if request; give_if response; give ctx

-- `fw_io_register_read_region` and its test.
unfoldable pub stored : Option (List (Option Region)) → M Setup Bool
stored none s = ok false s
stored (some regions) s = ok true (record s { regions = regions })

unfoldable pub register : Region → M Setup Bool
unfolding stored
register region = λ s. stored (fw_io_register_read_region region s.regions) s

-- The label `error`: the pointers that are not set yet are NULL.
unfoldable pub error : (ctx request response : ℕ) → M Setup FwIoCtx
unfolding fw_io_destroy
error ctx request response = do fw_io_destroy ctx request response; fail minus_one

-- `if (failed) goto error;`
unfoldable pub or_error : Bool → M Setup FwIoCtx → M Setup FwIoCtx → M Setup FwIoCtx
or_error true rest undo = rest
or_error false rest undo = undo

abbrev region_of : (ctx ptr size pa : ℕ) → Region
region_of ctx ptr size pa = record {
  ctx = ctx;
  region_ptr_start = ptr;
  region_ptr_end = ptr + size;
  device_physical_address = pa;
}

-- `fw_io_setup`; NULL is an error here.
unfoldable pub fw_io_setup : Buffers → Bars → M Setup FwIoCtx
unfolding take register error or_error
fw_io_setup b bars = do
  has_ctx ← take b.ctx
  or_error has_ctx
      (do
        has_request ← take b.request
        or_error has_request
            (do
              has_response ← take b.response
              or_error has_response
                  (do
                    first ← register (region_of b.ctx bars.bar0 bars.bar0_size p_0_apb_base)
                    or_error first
                        (do
                          second ← register (region_of b.ctx bars.bar2 bars.bar2_size p_0_nc_0_base)
                          or_error second
                              (λ s.
                                ok
                                  (new_ctx (bit_or b.request_phys pciex8_0_base)
                                    (bit_or b.response_phys pciex8_0_base))
                                  (record s {
                                    writes =
                                        record {
                                          addr = bars.bar0 + (misc_ram_offset + device_id_offset);
                                          value = u32 bars.device_index;
                                        }
                                        ∷ s.writes;
                                  }))
                              (error b.ctx b.request b.response))
                        (error b.ctx b.request b.response))
                  (error b.ctx b.request 0))
            (error b.ctx 0 0))
      (fail enomem)
