-- ===== src/Scenarios.antt =====
-- The theorems, applied to concrete drives.
mod Drives
mod Parts
mod Devices
use nvmevirt_pim.Base.{
  ℕ, ◌+◌, ◌<◌, ◌≡◌, ◌≢◌, inl, refl, true, false, get_elem?, set, some, ok, fault, undefined,
  Ensures, Returns, arith, ◌^◌, ◌*◌, ◌↔◌,
}
use nvmevirt_pim.Ssd.Config.{wd_zn540, zns_prototype, kb}
use nvmevirt_pim.Ssd.Params.{SsdParams, fill_params, ssd_init_params}
use nvmevirt_pim.Ssd.Buffer.{Buffer, buffer_allocate}
use nvmevirt_pim.Ssd.Channel.{ChannelModel, chmodel_request, chmodel_init, advance_head}
use nvmevirt_pim.Ssd.Nand.Ops.{ssd_init, ssd_advance_nand}
use nvmevirt_pim.Zns.Sc
use nvmevirt_pim.Zns.State.{
  ZoneState, ZoneDescriptor, ZnsParams, ZnsFtl, Opcode, Request, Result, Reply,
}
use nvmevirt_pim.Zns.Address.{lba_to_zone, lbas_per_zone}
use nvmevirt_pim.Zns.Init.{init_descriptors, zns_init_ftl, zns_init_params, zns_init_namespace}
use nvmevirt_pim.Zns.Consistent.{IsGeometry, IsConsistent}
use nvmevirt_pim.Zns.Init.Keeps.{zns_init_ftl-IsConsistent, get_elem?-init_descriptors}
use nvmevirt_pim.Zns.Init.Models.{IsZnsModel, zns_init_namespace-IsConsistent}
use nvmevirt_pim.Zns.Send.{zsa_open, zmgmt_send, zns_zmgmt_send, reset_zone_cmd}
use nvmevirt_pim.Zns.Send.Outcome.{Managed, zmgmt_send-Managed}
use nvmevirt_pim.Zns.Send.Erase.{Erased, reset_zone_cmd-Erased}
use nvmevirt_pim.Zns.Write.{zns_write_plain}
use nvmevirt_pim.Zns.Write.Outcome.{Written, zns_write_plain-Written}
use nvmevirt_pim.Zns.Write.Refused.{zns_write_plain-refused, append-moves_on}
use nvmevirt_pim.Zns.Zrwa.{zns_write}
use nvmevirt_pim.Zns.Read.{zns_read}
use nvmevirt_pim.Zns.Command.{data_cmd, mgmt_send_cmd, zns_proc_nvme_io_cmd}
use nvmevirt_pim.Zns.Command.Keeps.{zns_read-SameZones, zns_proc_nvme_io_cmd-IsConsistent}
use nvmevirt_pim.Zns.Command.Runs.{Runs, reachable-IsConsistent}
use nvmevirt_pim.Zns.Recv.{prp_transfer_data}
use nvmevirt_pim.Zns.Recv.Walk.{Covers, host_page, prp_transfer_data-Covers}
use nvmevirt_pim.Zns.Consistent.Update.{SameZones}
use nvmevirt_pim.Zns.Address.Laws.{zone_to_slba_exact, lba_to_zone-zone_to_slba}
use nvmevirt_pim.Zns.Address.{zone_to_slba}
use nvmevirt_pim.Ssd.Channel.Ends.{Scheduled, chmodel_request-Scheduled}
use nvmevirt_pim.Ssd.Nand.Ops.Answers.{Answer, ssd_advance_nand-Answer}
use nvmevirt_pim.Zns.Recv.Overruns.{prp_transfer_data-overruns}
use nvmevirt_pim.Ssd.Buffer.Laws.{Allocated, buffer_allocate-Allocated}
use nvmevirt_pim.Zns.Address.{lpn_to_ppa}
use nvmevirt_pim.Zns.Address.Place.{lpn_to_ppa_in_range}
use nvmevirt_pim.Scenarios.Drives.{
  small_dies, small_zone_dies, small_luns, small_all_luns, small_channels, small_channel_bits,
  small_lun_bits, small_zp, small_spp, small, small-IsGeometry, small-IsConsistent, zone_1,
  small-zone_1, no_zrwa, small_in_word, small_xfer, small_offset, small_start, wd_zn540_zns, clock,
  request, no_result, small-zone_1_later, small-buffer_later, small_buffered, zone_0, crowded,
  crowded-zone_0, crowded-buffer, crowded_buffered, crowded_end, crowded_pos, crowded_word, link,
  half_full, read_command, small_lun, small_time, booted, booting, after_open, opening,
}

zns_proc_nvme_io_cmd-IsConsistent_example :
    Ensures
      (λ r. IsConsistent r.ftl)
      (zns_proc_nvme_io_cmd clock 0 data_cmd small (request Opcode.zone_append 128 7) no_result)
zns_proc_nvme_io_cmd-IsConsistent_example =
    zns_proc_nvme_io_cmd-IsConsistent clock 0 data_cmd small (request Opcode.zone_append 128 7)
      no_result small-IsConsistent

zmgmt_send-Managed_example :
    Returns
      (Managed small (lba_to_zone small 128) zone_1 false zsa_open)
      (zmgmt_send 0 small 128 zsa_open false)
zmgmt_send-Managed_example =
    zmgmt_send-Managed 0 small 128 zone_1 zsa_open false small-IsConsistent small-zone_1
      (inl no_zrwa) (λ e. cc e) (λ e. cc e)

zns_write_plain-Written_example :
    Ensures
      (Written small (lba_to_zone small 128) zone_1)
      (zns_write_plain clock small (request Opcode.write 128 7) no_result)
zns_write_plain-Written_example =
    zns_write_plain-Written clock small (request Opcode.write 128 7) no_result zone_1
      small-IsConsistent small-zone_1

reset_zone_cmd-Erased_example :
    Ensures
      (λ r. r.0 ≡ Sc.success → Erased small.zp.zone_size 1 small.storage r.1.storage)
      (reset_zone_cmd small 1)
reset_zone_cmd-Erased_example = reset_zone_cmd-Erased small 1 small_in_word

zns_read-SameZones_example :
    Ensures
      (λ r. SameZones small r.ftl × (r.req ≡ request Opcode.read 0 7))
      (zns_read clock small (request Opcode.read 0 7) no_result)
zns_read-SameZones_example =
    zns_read-SameZones clock small (request Opcode.read 0 7) no_result small-IsConsistent

prp_transfer_data-Covers_example :
    Returns
      (Covers (host_page 512 8192 (λ i. (i + 3) * 4096) 10000) 0 0 10000)
      (prp_transfer_data 512 8192 (λ i. (i + 3) * 4096) 10000)
prp_transfer_data-Covers_example =
    prp_transfer_data-Covers 512 8192 (λ i. (i + 3) * 4096) refl (λ i. omega arith) 10000
      (omega arith)

prp_transfer_data-overruns_example :
    prp_transfer_data 512 8192 (λ i. (i + 3) * 4096) 2101248 ≡ fault undefined
prp_transfer_data-overruns_example =
    prp_transfer_data-overruns 512 8192 (λ i. (i + 3) * 4096) refl (λ i. omega arith) 2101248
      (omega arith)

zns_write_plain-refused_example :
    Returns
      (λ r.
        (r.done ≡ true)
        × (r.ret.status ≢ Sc.success)
        × (get_elem? r.ftl.zone_write_buffer (lba_to_zone small 136)
            ≡ some (record { size = 65536; remaining = 61440 }))
        × (r.ftl.scheduled ≡ small.scheduled))
      (zns_write_plain clock small (request Opcode.write 136 7) no_result)
zns_write_plain-refused_example =
    zns_write_plain-refused clock small (request Opcode.write 136 7) no_result zone_1
      (record { size = 65536; remaining = 65536 }) small-zone_1_later small-buffer_later
      small_buffered refl (omega arith) (omega arith) (omega arith)

append-moves_on_example :
    Returns
      (λ r.
        (r.done ≡ false)
        × (r.req.opcode ≡ Opcode.zone_append)
        × (lba_to_zone crowded r.req.slba ≡ lba_to_zone crowded 0 + 1))
      (zns_write_plain clock crowded (request Opcode.zone_append 0 7) no_result)
append-moves_on_example =
    append-moves_on clock crowded (request Opcode.zone_append 0 7) no_result zone_0
      (record { size = 65536; remaining = 0 }) crowded-zone_0 crowded-buffer crowded_buffered refl
      (omega arith) (omega arith) crowded_end crowded_pos crowded_word

chmodel_request-Scheduled_example :
    Ensures (Scheduled (advance_head link 1000) 5000) (chmodel_request link 1000 5000 4096)
chmodel_request-Scheduled_example = chmodel_request-Scheduled link 1000 5000 4096 (omega arith)

ssd_advance_nand-Answer_example :
    Ensures
      (Answer small.ssd read_command (clock 0) 0)
      (ssd_advance_nand clock small.ssd read_command)
ssd_advance_nand-Answer_example =
    ssd_advance_nand-Answer clock small.ssd read_command 0 small_lun small_xfer small_time

buffer_allocate-Allocated_example :
    Returns (Allocated half_full 4096) (buffer_allocate half_full 4096)
buffer_allocate-Allocated_example =
    buffer_allocate-Allocated half_full 4096 (record { within = omega arith; word = omega arith })
      (omega arith)

zns_init_namespace-IsConsistent_example :
    Ensures IsConsistent (zns_init_namespace wd_zn540 (λ i. 0) (λ a. 0) (2 ^ 34))
zns_init_namespace-IsConsistent_example =
    zns_init_namespace-IsConsistent wd_zn540 (λ i. 0) (λ a. 0) (2 ^ 34) wd_zn540_zns

get_elem?-init_descriptors_example :
    get_elem? (init_descriptors 4 0 128) 3
    ≡ some (record {
      state = ZoneState.empty;
      zrwav = false;
      zone_capacity = 128;
      zslba = 384;
      wp = 384;
    })
get_elem?-init_descriptors_example =
    get_elem?-init_descriptors 128 4 0 3 (omega arith) (omega arith)

zone_to_slba_exact_example :
    (zone_to_slba small 3 ≡ 3 * lbas_per_zone small) ↔ (3 * lbas_per_zone small < 2 ^ 32)
zone_to_slba_exact_example = zone_to_slba_exact small 3 (omega arith)

lba_to_zone-zone_to_slba_example : lba_to_zone small (zone_to_slba small 3 + 5) ≡ 3
lba_to_zone-zone_to_slba_example = lba_to_zone-zone_to_slba small 3 5 small_offset small_start

reachable-IsConsistent_example : IsConsistent after_open.ftl
reachable-IsConsistent_example =
    reachable-IsConsistent wd_zn540 (λ i. 0) (λ a. 0) (2 ^ 32) wd_zn540_zns booting
      (Runs.command clock 0 (mgmt_send_cmd 0 zsa_open false false) (request Opcode.read 0 0)
        no_result after_open Runs.start opening)

lpn_to_ppa_in_range_example :
    ((lpn_to_ppa small 100).ch < small.ssd.sp.nchs)
    × ((lpn_to_ppa small 100).lun < small.ssd.sp.luns_per_ch)
lpn_to_ppa_in_range_example =
    lpn_to_ppa_in_range small 100 small.ssd.sp.tt_luns small_zone_dies small_luns small_dies
      small_all_luns small_channels small_channel_bits small_lun_bits
