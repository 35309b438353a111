-- ===== src/Tests.antt =====
-- The theorems at concrete inputs.
mod Data
mod Rings
mod Queues
mod Copies
mod Firmware
mod Cores
mod Devices
mod Pools
mod Nodes
mod Engines
mod Systems
mod Commands
