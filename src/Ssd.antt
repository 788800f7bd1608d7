-- ===== src/Ssd.antt =====
-- The SSD below the FTLs: ssd.c, ssd.h, channel_model.c, channel_model.h and ssd_config.h.
pub mod Config
pub mod Params
pub mod Buffer
pub mod Channel
pub mod Nand
