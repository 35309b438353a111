-- ===== src/Udma.antt =====
-- The UDMA engine library, udma/udma.h, udma/udma_main.c and udma/udma_m2m.c.
pub mod Types
pub mod Layout
pub mod Ring
pub mod Init
pub mod Copy
pub mod State
pub mod Setup
pub mod Iofic
pub mod Engine
