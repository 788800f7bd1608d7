-- ===== src/Zns/Sc.antt =====
-- The status codes of nvme_zns.h and nvme.h. NVME_SCT_CMD_SPECIFIC_STATUS is 1.
use nvmevirt_pim.Base.{ℕ}

abbrev pub success : ℕ
success = 0

abbrev pub invalid_field : ℕ
invalid_field = 2

abbrev pub zns_invalid_zone_operation : ℕ
zns_invalid_zone_operation = 0x1b6

abbrev pub zns_zrwa_rsrc_unavail : ℕ
zns_zrwa_rsrc_unavail = 0x1b7

abbrev pub zns_err_boundary : ℕ
zns_err_boundary = 0x1b8

abbrev pub zns_err_full : ℕ
zns_err_full = 0x1b9

abbrev pub zns_err_read_only : ℕ
zns_err_read_only = 0x1ba

abbrev pub zns_err_offline : ℕ
zns_err_offline = 0x1bb

abbrev pub zns_invalid_write : ℕ
zns_invalid_write = 0x1bc

abbrev pub zns_no_active_zone : ℕ
zns_no_active_zone = 0x1bd

abbrev pub zns_no_open_zone : ℕ
zns_no_open_zone = 0x1be

abbrev pub zns_invalid_transition : ℕ
zns_invalid_transition = 0x1bf
