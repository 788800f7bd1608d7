-- ===== src/Zns/State.antt =====
-- The data of nvme_zns.h and zns_ftl.h, and the command and result of nvmev.h and nvme.h.
use nvmevirt_pim.Base.{ℕ, ◌+◌, ◌%◌, ◌^◌, Bool, List, ◌∷◌, get_elem?, set, Run, ok, entry}
use nvmevirt_pim.Ssd.Buffer.{Buffer}
use nvmevirt_pim.Ssd.Nand.{Ssd}

pub data ZoneState : Type 0 where
  empty opened_impl opened_expl closed read_only full offline : ZoneState

-- The fields of struct zone_descriptor that the code uses; `type` is always
-- ZONE_TYPE_SEQ_WRITE_REQUIRED.
pub record ZoneDescriptor : Type 0 where
  pub state : ZoneState
  pub zrwav : Bool
  pub zone_capacity : ℕ
  pub zslba : ℕ
  pub wp : ℕ

pub record ZnsParams : Type 0 where
  pub nr_zones : ℕ
  pub nr_active_zones : ℕ
  pub nr_open_zones : ℕ
  pub dies_per_zone : ℕ
  pub zone_size : ℕ
  pub zone_wb_size : ℕ
  pub nr_zrwa_zones : ℕ
  pub zrwafg_size : ℕ
  pub zrwa_size : ℕ
  pub zrwa_buffer_size : ℕ
  pub lbas_per_zrwafg : ℕ
  pub lbas_per_zrwa : ℕ

pub record ZoneResourceInfo : Type 0 where
  pub acquired_cnt : ℕ
  pub total_cnt : ℕ

-- A pointer to one of the write buffers.
pub data BufferRef : Type 0 where
  ssd_buffer : BufferRef
  zone_buffer : ℕ → BufferRef
  zrwa_zone_buffer : ℕ → BufferRef

-- The arguments of a call of schedule_internal_operation (io.c): the worker gives `size` bytes
-- back to the buffer at the time `nsecs_target`.
pub record InternalOp : Type 0 where
  pub sq_id : ℕ
  pub nsecs_target : ℕ
  pub write_buffer : BufferRef
  pub buffs_to_release : ℕ

-- struct zns_ftl. `storage` is the memory at storage_base_addr, by offset; `scheduled` holds the
-- calls of schedule_internal_operation, the latest first. The array res_infos is three fields.
pub record ZnsFtl : Type 0 where
  pub ssd : Ssd
  pub zp : ZnsParams
  pub active_zone : ZoneResourceInfo
  pub open_zone : ZoneResourceInfo
  pub zrwa_zone : ZoneResourceInfo
  pub zone_descs : List ZoneDescriptor
  pub zone_write_buffer : List Buffer
  pub zrwa_buffer : List Buffer
  pub storage : ℕ → ℕ
  pub scheduled : List InternalOp

-- The commands that carry data.
pub data Opcode : Type 0 where
  write zone_append read : Opcode

-- The fields of struct nvme_rw_command and of struct nvmev_request. `fua` is the bit NVME_RW_FUA
-- of `control`.
pub record Request : Type 0 where
  pub opcode : Opcode
  pub slba : ℕ
  pub length : ℕ
  pub fua : Bool
  pub sq_id : ℕ
  pub nsecs_start : ℕ

-- struct nvmev_result.
pub record Result : Type 0 where
  pub status : ℕ
  pub nsecs_target : ℕ
  pub result : ℕ

-- What a handler leaves: its return value, the command, which it may change, the result, the FTL.
pub record Reply : Type 0 where
  pub done : Bool
  pub req : Request
  pub ret : Result
  pub ftl : ZnsFtl

-- zone_descs[zid], and a write to it.
unfoldable pub descriptor : ZnsFtl → ℕ → Run ZoneDescriptor
descriptor z zid = entry (get_elem? z.zone_descs zid)

unfoldable pub set_descriptor : ZnsFtl → ℕ → ZoneDescriptor → ZnsFtl
set_descriptor z zid d = record z { zone_descs = set z.zone_descs zid d }

-- change_zone_state, for the descriptor `d` of the zone.
unfoldable pub change_zone_state : ZnsFtl → ℕ → ZoneDescriptor → ZoneState → ZnsFtl
unfolding set_descriptor
change_zone_state z zid d state = set_descriptor z zid (record d { state = state })

unfoldable pub get_buffer : ZnsFtl → BufferRef → Run Buffer
get_buffer z ssd_buffer = ok z.ssd.write_buffer
get_buffer z (zone_buffer zid) = entry (get_elem? z.zone_write_buffer zid)
get_buffer z (zrwa_zone_buffer zid) = entry (get_elem? z.zrwa_buffer zid)

unfoldable pub set_buffer : ZnsFtl → BufferRef → Buffer → ZnsFtl
set_buffer z ssd_buffer b = let s = z.ssd in record z { ssd = record s { write_buffer = b } }
set_buffer z (zone_buffer zid) b = record z { zone_write_buffer = set z.zone_write_buffer zid b }
set_buffer z (zrwa_zone_buffer zid) b = record z { zrwa_buffer = set z.zrwa_buffer zid b }

unfoldable pub schedule_internal_operation : ZnsFtl → InternalOp → ZnsFtl
schedule_internal_operation z op = record z { scheduled = op ∷ z.scheduled }

-- __nr_lbas_from_rw_cmd, for the `__le16` length, and LBA_TO_BYTE for LBA_BITS = 9.
abbrev pub nr_lbas_from_rw_cmd : Request → ℕ
nr_lbas_from_rw_cmd req = req.length % 2 ^ 16 + 1
