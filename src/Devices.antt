-- ===== src/Devices.antt =====
-- The FTLs that are models of a whole device.
pub mod Simple
