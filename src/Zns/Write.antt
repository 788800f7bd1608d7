-- ===== src/Zns/Write.antt =====
-- Writing to a zone without a random write area: __increase_write_ptr and __zns_write of
-- zns_read_write.c.
pub mod Same
pub mod Admits
pub mod Keeps
pub mod Decided
pub mod Outcome
pub mod Refused
use nvmevirt_pim.Base.{
  ℕ, zero, suc, ◌+◌, ◌-◌, ◌*◌, ◌%◌, min, max, true, false, ◌&&◌, ◌||◌, ltb, ◌==◌, Bool,
  if◌then◌else◌, Run, ok, fault, out_of_fuel, ◌>>=◌, u32, u64, sub64,
}
use nvmevirt_pim.Ssd.Buffer.{buffer_allocate}
use nvmevirt_pim.Ssd.Nand.{nand_write}
use nvmevirt_pim.Ssd.Nand.Ops.{ssd_advance_write_buffer, ssd_advance_nand}
use nvmevirt_pim.Zns.Sc
use nvmevirt_pim.Zns.State.{
  ZoneState, ZoneDescriptor, BufferRef, ssd_buffer, zone_buffer, ZnsFtl, Opcode, Request, Result,
  Reply, descriptor, set_descriptor, change_zone_state, get_buffer, set_buffer,
  schedule_internal_operation, nr_lbas_from_rw_cmd,
}
use nvmevirt_pim.Zns.Address.{
  lba_to_zone, zone_to_slba, zone_to_elpn, lba_to_lpn, check_boundary_error, lpn_to_ppa,
}
use nvmevirt_pim.Zns.Resource.{
  active_zone, open_zone, is_zone_resource_full, acquire_zone_resource, release_zone_resource,
}

-- LBA_TO_BYTE for LBA_BITS = 9.
abbrev pub lba_to_byte : ℕ → ℕ
lba_to_byte lba = u64 (lba * 512)

-- __increase_write_ptr. Past the end of the zone the code only prints an error.
unfoldable pub increase_write_ptr : ZnsFtl → ℕ → ℕ → Run ZnsFtl
unfolding descriptor set_descriptor change_zone_state release_zone_resource zone_to_slba
increase_write_ptr z zid nr_lba = do
  d ← descriptor z zid
  let cur_write_ptr = u64 (d.wp + nr_lba)
  let moved = record d { wp = cur_write_ptr }
  let released = release_zone_resource (release_zone_resource z open_zone) active_zone
  ok (
      if cur_write_ptr == u64 (zone_to_slba z zid + d.zone_capacity)
      then change_zone_state released zid moved ZoneState.full
      else set_descriptor z zid moved)

-- What the checks of a write decide: a status for the host, or to go on.
pub data Admission : Type 0 where
  refused : ℕ → ZnsFtl → Admission
  admitted : ZnsFtl → Admission

-- The case ZONE_STATE_CLOSED.
unfoldable pub open_implicitly : ZnsFtl → ℕ → ZoneDescriptor → Admission
unfolding acquire_zone_resource change_zone_state
open_implicitly z zid d =
    let (acquired, z') = acquire_zone_resource z open_zone in
    if acquired
    then admitted (change_zone_state z' zid d ZoneState.opened_impl)
    else refused Sc.zns_no_open_zone z'

-- The `switch` over the state of the zone.
unfoldable pub admit_state : ZoneState → ZnsFtl → ℕ → ZoneDescriptor → ℕ → Admission
unfolding open_implicitly is_zone_resource_full acquire_zone_resource
admit_state ZoneState.empty z zid d slba =
    if slba == d.zslba
    then if is_zone_resource_full z active_zone
      then refused Sc.zns_no_active_zone z
      else if is_zone_resource_full z open_zone
      then refused Sc.zns_no_open_zone z
      else open_implicitly (acquire_zone_resource z active_zone).1 zid d
    else refused Sc.zns_invalid_write z
admit_state ZoneState.closed z zid d slba = open_implicitly z zid d
admit_state ZoneState.opened_impl z zid d slba = admitted z
admit_state ZoneState.opened_expl z zid d slba = admitted z
admit_state ZoneState.full z zid d slba = refused Sc.zns_err_full z
admit_state ZoneState.read_only z zid d slba = refused Sc.zns_err_read_only z
admit_state ZoneState.offline z zid d slba = refused Sc.zns_err_offline z

-- The checks of __zns_write after the buffer is allocated.
unfoldable pub admit : ZnsFtl → ℕ → ZoneDescriptor → (slba nr_lba : ℕ) → Admission
unfolding admit_state check_boundary_error
admit z zid d slba nr_lba =
    if (lba_to_byte nr_lba % z.ssd.sp.write_unit_size) == 0
    then if check_boundary_error z slba nr_lba
      then if slba == d.wp then admit_state d.state z zid d slba else refused Sc.zns_invalid_write z
      else refused Sc.zns_err_boundary z
    else refused Sc.zns_invalid_write z

unfoldable pub write_buffer_of : ZnsFtl → ℕ → BufferRef
write_buffer_of z zid = if z.zp.zone_wb_size == 0 then ssd_buffer else zone_buffer zid

-- The end of a write: the status, and the time at which the host sees the completion.
unfoldable pub complete : Request → Result → ZnsFtl → (status latest xfer_completed : ℕ) → Reply
complete req ret z status latest xfer_completed =
    let waits = req.fua || z.ssd.sp.write_early_completion == 0 in
    record {
      done = true;
      req = req;
      ret = record ret { status = status; nsecs_target = if waits then latest else xfer_completed };
      ftl = z;
    }

-- The bytes of the write buffer that a programmed page frees, when the page ends at `last`.
unfoldable pub bufs_to_release : ZnsFtl → (last zone_elpn : ℕ) → ℕ
bufs_to_release z last zone_elpn =
    let program_size = z.ssd.sp.pgs_per_oneshotpg * z.ssd.sp.pgsz in
    let unaligned_space = z.zp.zone_size % program_size in
    if last == zone_elpn && ltb 0 unaligned_space then unaligned_space else program_size

-- How many pages a round of the loop takes: up to `elpn`, within one program unit.
unfoldable pub pages_in_round : ZnsFtl → (lpn elpn : ℕ) → ℕ
unfolding lpn_to_ppa
pages_in_round z lpn elpn =
    let oneshot = z.ssd.sp.pgs_per_oneshotpg in
    min (elpn - lpn + 1) (oneshot - (lpn_to_ppa z lpn).pg % oneshot)

-- Whether a round of `pgs` pages ends a program unit or the zone.
unfoldable pub fills_unit : ZnsFtl → (lpn pgs zone_elpn : ℕ) → Bool
unfolding lpn_to_ppa
fills_unit z lpn pgs zone_elpn =
    let oneshot = z.ssd.sp.pgs_per_oneshotpg in
    ((lpn_to_ppa z lpn).pg % oneshot + pgs) == oneshot || (lpn + pgs - 1) == zone_elpn

-- An append takes the write pointer as its start, in the command and in the result.
unfoldable pub place : Opcode → Request → Result → ℕ → Request × Result
place Opcode.zone_append req ret wp = (record req { slba = wp }, record ret { result = wp })
place _ req ret wp = (req, ret)

module _ (cpu_clock : ℕ → ℕ) where
  -- The programming of one page that a write has filled, and the release that it schedules.
  unfoldable pub program_page :
      ZnsFtl → (sq_id lpn last zone_elpn stime latest : ℕ) → BufferRef → Run (ℕ × ZnsFtl)
  program_page z sq_id lpn last zone_elpn stime latest buffer = do
    let spp = z.ssd.sp
    (completed, ssd) ← ssd_advance_nand cpu_clock z.ssd (record {
      cmd = nand_write;
      xfer_size = spp.pgs_per_oneshotpg * spp.pgsz;
      stime = stime;
      interleave_pci_dma = false;
      ppa = lpn_to_ppa z lpn;
    })
    let z' = record z { ssd = ssd }
    ok (
      max completed latest,
      schedule_internal_operation z' (record {
        sq_id = sq_id;
        nsecs_target = completed;
        write_buffer = buffer;
        buffs_to_release = bufs_to_release z last zone_elpn;
      }),
    )

  -- One round of the loop over the pages, for `pgs` pages from `lpn` on.
  unfoldable pub write_round :
      ZnsFtl → (sq_id lpn pgs zone_elpn stime latest : ℕ) → BufferRef → Run (ℕ × ZnsFtl)
  write_round z sq_id lpn pgs zone_elpn stime latest buffer =
      let program = program_page z sq_id lpn (lpn + pgs - 1) zone_elpn stime latest buffer in
      if fills_unit z lpn pgs zone_elpn then program else ok (latest, z)

  -- The loop over the pages `lpn` to `elpn`.
  unfoldable pub write_pages :
      ℕ → ZnsFtl → (sq_id lpn elpn zone_elpn stime latest : ℕ) → BufferRef → Run (ℕ × ZnsFtl)
  write_pages zero z sq_id lpn elpn zone_elpn stime latest buffer = fault out_of_fuel
  write_pages (suc fuel) z sq_id lpn elpn zone_elpn stime latest buffer =
      let pgs = pages_in_round z lpn elpn in
      let rest : Run (ℕ × ZnsFtl) =
        write_round z sq_id lpn pgs zone_elpn stime latest buffer >>= λ (latest', z').
        write_pages fuel z' sq_id (u64 (lpn + pgs)) elpn zone_elpn stime latest' buffer in
      if ltb elpn lpn then ok (latest, z) else rest

  -- The part of __zns_write behind the checks, in the zone `zid`.
  unfoldable pub perform_write :
      ZnsFtl → Request → Result → (zid nr_lba slpn elpn zone_elpn : ℕ) → BufferRef → Run Reply
  perform_write z req ret zid nr_lba slpn elpn zone_elpn buffer = do
    z1 ← increase_write_ptr z zid (u32 nr_lba)
    (xfer, ssd) ← ssd_advance_write_buffer cpu_clock z1.ssd req.nsecs_start (lba_to_byte nr_lba)
    let z2 = record z1 { ssd = ssd }
    (latest, z3) ← write_pages (elpn - slpn + 2) z2 req.sq_id slpn elpn zone_elpn xfer xfer buffer
    ok (complete req ret z3 Sc.success latest xfer)

  unfoldable pub decide_write :
      Admission → Request → Result → (zid nr_lba slpn elpn zone_elpn : ℕ) → BufferRef → Run Reply
  decide_write (refused status z) req ret zid nr_lba slpn elpn zone_elpn buffer =
      ok (complete req ret z status req.nsecs_start req.nsecs_start)
  decide_write (admitted z) req ret zid nr_lba slpn elpn zone_elpn buffer =
      perform_write z req ret zid nr_lba slpn elpn zone_elpn buffer

  -- __zns_write. False, which asks the dispatcher to try the command again, is for a buffer with no room.
  unfoldable pub zns_write_plain : ZnsFtl → Request → Result → Run Reply
  zns_write_plain z req ret = do
    let nr_lba = nr_lbas_from_rw_cmd req
    let zid = lba_to_zone z req.slba
    d ← descriptor z zid
    let placed = place req.opcode req ret d.wp
    let req' = placed.0
    let slba = req'.slba
    let elpn = lba_to_lpn z (sub64 (u64 (slba + nr_lba)) 1)
    let ref = write_buffer_of z zid
    buffer ← get_buffer z ref
    (taken, buffer') ← buffer_allocate buffer (lba_to_byte nr_lba)
    let z' = set_buffer z ref buffer'
    let retry : Run Reply = ok (record { done = false; req = req'; ret = placed.1; ftl = z' })
    let go =
        decide_write (admit z' zid d slba nr_lba) req' placed.1 zid nr_lba (lba_to_lpn z slba) elpn
          (zone_to_elpn z zid) ref
    if ltb taken (lba_to_byte nr_lba) then retry else go
