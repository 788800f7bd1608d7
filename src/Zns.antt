-- ===== src/Zns.antt =====
-- The FTL for zoned namespaces: zns_ftl.c, zns_ftl.h, zns_read_write.c, zns_mgmt_send.c,
-- zns_mgmt_recv.c and the data of nvme_zns.h.
pub mod Sc
pub mod State
pub mod Address
pub mod Resource
pub mod Init
pub mod Send
pub mod Recv
pub mod Write
pub mod Zrwa
pub mod Read
pub mod Command
pub mod Consistent
