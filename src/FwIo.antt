-- ===== src/FwIo.antt =====
-- The firmware channel, v1/fw_io.c.
pub mod Crc
pub mod Request
pub mod Region
pub mod Services
pub mod Context
