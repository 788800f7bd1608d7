-- ===== src/Scenarios/Drives.antt =====
-- Small drives, requests and buffers, and what the theorems ask of them.
use nvmevirt_pim.Base.{
  ℕ, max, ◌≤◌, ◌+◌, ◌<◌, ◌≡◌, ◌≢◌, inl, refl, true, false, get_elem?, set, some, ok, arith, ◌^◌,
  ◌*◌,
}
use nvmevirt_pim.Ssd.Config.{wd_zn540, zns_prototype, kb}
use nvmevirt_pim.Ssd.Params.{SsdParams, fill_params, ssd_init_params}
use nvmevirt_pim.Ssd.Buffer.{Buffer}
use nvmevirt_pim.Ssd.Channel.{ChannelModel, chmodel_init}
use nvmevirt_pim.Ssd.Nand.{nand_read, NandCmd}
use nvmevirt_pim.Ssd.Nand.Ops.Times.{lun_time}
use nvmevirt_pim.Ssd.Nand.Ops.Waits.{media_time, issue_time}
use nvmevirt_pim.Ssd.Channel.Ends.{max_latency}
use nvmevirt_pim.Ssd.Nand.Ops.{ssd_init}
use nvmevirt_pim.Zns.State.{
  ZoneState, ZoneDescriptor, ZnsParams, ZnsFtl, Opcode, Request, Result, Reply,
}
use nvmevirt_pim.Zns.Address.{lba_to_zone, lbas_per_zone}
use nvmevirt_pim.Zns.Init.{init_descriptors, zns_init_ftl, zns_init_params, zns_init_namespace}
use nvmevirt_pim.Zns.Consistent.{IsGeometry, IsConsistent}
use nvmevirt_pim.Zns.Init.Keeps.{zns_init_ftl-IsConsistent}
use nvmevirt_pim.Zns.Init.Models.{IsZnsModel}
use nvmevirt_pim.Zns.Send.{zsa_open, zns_zmgmt_send}
use nvmevirt_pim.Zns.Command.{mgmt_send_cmd, zns_proc_nvme_io_cmd}
use nvmevirt_pim.Zns.Address.{zone_to_slba}

-- An SSD of the prototype's kind with one channel, and four zones of 64 KiB.
abbrev pub small_zp : ZnsParams
small_zp = record {
  nr_zones = 4;
  nr_active_zones = 4;
  nr_open_zones = 4;
  dies_per_zone = 1;
  zone_size = 65536;
  zone_wb_size = 65536;
  nr_zrwa_zones = 0;
  zrwafg_size = 0;
  zrwa_size = 0;
  zrwa_buffer_size = 0;
  lbas_per_zrwafg = 0;
  lbas_per_zrwa = 0;
}

abbrev pub small_spp : SsdParams
unfolding fill_params
small_spp = fill_params zns_prototype 8 1 (kb 192)

abbrev pub small : ZnsFtl
unfolding zns_init_ftl ssd_init
small = zns_init_ftl small_zp (ssd_init (λ i. 0) small_spp) (λ a. a + 1)

pub small-IsGeometry : IsGeometry small_spp
unfolding small_spp
small-IsGeometry = record {
  oneshot_pos = omega arith;
  flashpg_pos = omega arith;
  xfer_pos = omega arith;
  secs_per_pg_large = omega arith;
}

pub small-IsConsistent : IsConsistent small
unfolding small_spp small zns_init_ftl
small-IsConsistent = zns_init_ftl-IsConsistent small_zp _ _ (omega arith) small-IsGeometry refl

-- Zone 1, which starts at LBA 128.
abbrev pub zone_1 : ZoneDescriptor
zone_1 = record {
  state = ZoneState.empty;
  zrwav = false;
  zone_capacity = 128;
  zslba = 128;
  wp = 128;
}

pub small-zone_1 : get_elem? small.zone_descs (lba_to_zone small 128) ≡ some zone_1
unfolding lba_to_zone init_descriptors lbas_per_zone small small_spp
small-zone_1 = refl

pub no_zrwa : small.zp.zrwa_buffer_size ≡ 0
unfolding small zns_init_ftl
no_zrwa = refl

pub small_in_word : 1 * small.zp.zone_size < 2 ^ 64
unfolding small zns_init_ftl
small_in_word = omega arith

pub small_xfer : 0 < small.ssd.sp.max_ch_xfer_size
unfolding small zns_init_ftl small_spp
small_xfer = omega arith

pub small_offset : 5 < lbas_per_zone small
unfolding small zns_init_ftl small_spp lbas_per_zone
small_offset = omega arith

pub small_start : 3 * lbas_per_zone small < 2 ^ 32
unfolding small zns_init_ftl small_spp lbas_per_zone
small_start = omega arith

pub wd_zn540_zns : IsZnsModel wd_zn540
unfolding IsZnsModel
wd_zn540_zns = inl refl

-- A clock that stands at 1000, and a request for `length + 1` blocks from `slba` on.
abbrev pub clock : ℕ → ℕ
clock i = 1000

abbrev pub request : Opcode → ℕ → ℕ → Request
request op slba n = record {
  opcode = op;
  slba = slba;
  length = n;
  fua = false;
  sq_id = 1;
  nsecs_start = 1000;
}

abbrev pub no_result : Result
no_result = record { status = 0; nsecs_target = 0; result = 0 }

pub small-zone_1_later : get_elem? small.zone_descs (lba_to_zone small 136) ≡ some zone_1
unfolding lba_to_zone init_descriptors lbas_per_zone small small_spp
small-zone_1_later = refl

pub small-buffer_later :
    get_elem? small.zone_write_buffer (lba_to_zone small 136)
    ≡ some (record { size = 65536; remaining = 65536 })
unfolding lba_to_zone lbas_per_zone small small_spp zns_init_ftl
small-buffer_later = refl

pub small_buffered : small.zp.zone_wb_size ≢ 0
unfolding small zns_init_ftl
small_buffered = omega arith

-- The small drive with its first zone full and no room in that zone's buffer.
abbrev pub zone_0 : ZoneDescriptor
zone_0 = record { state = ZoneState.full; zrwav = false; zone_capacity = 128; zslba = 0; wp = 128 }

abbrev pub crowded : ZnsFtl
unfolding small
crowded = record small {
  zone_descs = set small.zone_descs 0 zone_0;
  zone_write_buffer = set small.zone_write_buffer 0 (record { size = 65536; remaining = 0 });
}

pub crowded-zone_0 : get_elem? crowded.zone_descs (lba_to_zone crowded 0) ≡ some zone_0
unfolding lba_to_zone init_descriptors lbas_per_zone crowded small small_spp zns_init_ftl
crowded-zone_0 = refl

pub crowded-buffer :
    get_elem? crowded.zone_write_buffer (lba_to_zone crowded 0)
    ≡ some (record { size = 65536; remaining = 0 })
unfolding lba_to_zone lbas_per_zone crowded small small_spp zns_init_ftl
crowded-buffer = refl

pub crowded_buffered : crowded.zp.zone_wb_size ≢ 0
unfolding crowded small zns_init_ftl
crowded_buffered = omega arith

pub crowded_end : 128 ≡ zone_to_slba crowded (lba_to_zone crowded 0 + 1)
unfolding lba_to_zone zone_to_slba lbas_per_zone crowded small small_spp zns_init_ftl
crowded_end = refl

pub crowded_pos : 0 < lbas_per_zone crowded
unfolding lbas_per_zone crowded small small_spp zns_init_ftl
crowded_pos = omega arith

pub crowded_word : (lba_to_zone crowded 0 + 1) * lbas_per_zone crowded < 2 ^ 32
unfolding lba_to_zone lbas_per_zone crowded small small_spp zns_init_ftl
crowded_word = omega arith

abbrev pub link : ChannelModel
unfolding chmodel_init
link = chmodel_init (λ i. 0) 3050

abbrev pub half_full : Buffer
half_full = record { size = 8192; remaining = 4096 }

-- A drive of the model WD_ZN540 with two zones, as it is initialised and after the first one was
-- opened.
abbrev pub booted : ZnsFtl
unfolding zns_init_ftl ssd_init fill_params
booted =
    zns_init_ftl
      (record {
        nr_zones = 2;
        nr_active_zones = 2;
        nr_open_zones = 2;
        dies_per_zone = 32;
        zone_size = 2 ^ 31;
        zone_wb_size = 10 * (kb 32 * 3);
        nr_zrwa_zones = 0;
        zrwafg_size = 0;
        zrwa_size = 0;
        zrwa_buffer_size = 0;
        lbas_per_zrwafg = 0;
        lbas_per_zrwa = 0;
      })
      (ssd_init (λ i. 0) (fill_params wd_zn540 8 2 (2 ^ 26))) (λ a. 0)

pub booting : zns_init_namespace wd_zn540 (λ i. 0) (λ a. 0) (2 ^ 32) ≡ ok booted
unfolding zns_init_namespace booted ssd_init_params zns_init_params
booting = refl

abbrev pub after_open : Reply
unfolding booted zns_init_ftl
after_open = record {
  done = true;
  req = request Opcode.read 0 0;
  ret = record { status = 0; nsecs_target = 1000; result = 0 };
  ftl = record booted {
    active_zone = record { acquired_cnt = 1; total_cnt = 2 };
    open_zone = record { acquired_cnt = 1; total_cnt = 2 };
    zone_descs = set booted.zone_descs 0 (record {
      state = ZoneState.opened_expl;
      zrwav = false;
      zone_capacity = 2 ^ 22;
      zslba = 0;
      wp = 0;
    });
  };
}

pub opening :
    zns_proc_nvme_io_cmd clock 0
      (mgmt_send_cmd 0 zsa_open false false)
      booted
      (request Opcode.read 0 0)
      no_result
    ≡ ok after_open
unfolding zns_proc_nvme_io_cmd after_open booted zns_zmgmt_send
opening = refl

-- The dies of the small drive.
pub small_dies : small.ssd.sp.tt_luns ≡ small.ssd.sp.tt_luns * small.zp.dies_per_zone
unfolding small small_spp zns_init_ftl
small_dies = refl

pub small_zone_dies : 0 < small.zp.dies_per_zone
unfolding small small_spp zns_init_ftl
small_zone_dies = omega arith

pub small_luns : 0 < small.ssd.sp.tt_luns
unfolding small small_spp zns_init_ftl
small_luns = omega arith

pub small_all_luns : small.ssd.sp.tt_luns ≡ small.ssd.sp.luns_per_ch * small.ssd.sp.nchs
unfolding small small_spp zns_init_ftl
small_all_luns = refl

pub small_channels : 0 < small.ssd.sp.nchs
unfolding small small_spp zns_init_ftl
small_channels = omega arith

pub small_channel_bits : small.ssd.sp.nchs ≤ 2 ^ 8
unfolding small small_spp zns_init_ftl
small_channel_bits = omega arith

pub small_lun_bits : small.ssd.sp.luns_per_ch ≤ 2 ^ 8
unfolding small small_spp zns_init_ftl
small_lun_bits = omega arith

-- A read of two pages of the first LUN, which is free from the start.
abbrev pub read_command : NandCmd
read_command = record {
  cmd = nand_read;
  xfer_size = 8192;
  stime = 0;
  interleave_pci_dma = true;
  ppa = record { pg = 0; blk = 0; pl = 0; lun = 0; ch = 0; rsv = 0 };
}

pub small_lun : lun_time small.ssd 0 0 ≡ some 0
unfolding lun_time small zns_init_ftl ssd_init small_spp
small_lun = refl

pub small_time :
    max 0 (issue_time clock small.ssd read_command)
      + media_time small.ssd.sp nand_read 8192 read_command.ppa
      + (8192 + 1) * max_latency
    < 2 ^ 64
unfolding small zns_init_ftl small_spp media_time
small_time = omega arith
