-- ===== src/FwIo/Context/Leaks.antt =====
-- The memory of a set-up that fails.
use aws_neuron_driver.Common.{◌≡◌, ◌≢◌, arith, Errno, err}
use aws_neuron_driver.FwIo.Context.{
  Setup, Bars, Buffers, take, without, give, give_if, fw_io_destroy, stored, register, error,
  or_error, fw_io_setup,
}

-- A `fw_io_setup` that fails, its two buffers not at the same address, leaves the allocated
-- memory as it was.
pub fw_io_setup-allocated :
    (b : Buffers) (bars : Bars) (s s' : Setup) (e : Errno)
    → b.response ≢ b.request
    → fw_io_setup b bars s ≡ err e s'
    → s'.allocated ≡ s.allocated
unfolding fw_io_setup take register stored error fw_io_destroy give give_if or_error without
fw_io_setup-allocated b bars s s' e apart failed = ground arith
