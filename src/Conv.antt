-- ===== src/Conv.antt =====
-- The page-mapping FTL of conv_ftl.c and conv_ftl.h.
pub mod State
pub mod Geometry
pub mod Map
pub mod Lines
pub mod Consistent
pub mod Pointer
pub mod Mark
pub mod Install
pub mod Gc
pub mod Init
pub mod Namespace
pub mod Read
pub mod Write
pub mod Command
