-- ===== src/Zns/Zrwa.antt =====
-- Writing to a zone with a random write area: __zns_write_zrwa, and zns_write, of
-- zns_read_write.c.
pub mod Keeps
use nvmevirt_pim.Base.{
  ℕ, zero, suc, ◌+◌, ◌-◌, ◌*◌, ◌/◌, ◌%◌, min, max, Bool, false, ◌||◌, ltb, leb, ◌==◌, if◌then◌else◌,
  Run, ok, fault, bug, out_of_fuel, ◌>>=◌, ◌>>◌, divisor, div_round_up, u32, u64, sub64,
}
use nvmevirt_pim.Ssd.Buffer.{buffer_allocate}
use nvmevirt_pim.Ssd.Nand.{nand_write}
use nvmevirt_pim.Ssd.Nand.Ops.{ssd_advance_write_buffer, ssd_advance_nand}
use nvmevirt_pim.Zns.Sc
use nvmevirt_pim.Zns.State.{
  ZoneState, ZoneDescriptor, zrwa_zone_buffer, ZnsFtl, Request, Result, Reply, descriptor,
  change_zone_state, get_buffer, set_buffer, schedule_internal_operation, nr_lbas_from_rw_cmd,
}
use nvmevirt_pim.Zns.Address.{
  lba_to_zone, zone_to_elba, lba_to_lpn, lpn_to_zone, check_boundary_error, lpn_to_ppa,
}
use nvmevirt_pim.Zns.Resource.{open_zone, acquire_zone_resource}
use nvmevirt_pim.Zns.Write.{
  lba_to_byte, increase_write_ptr, Admission, refused, admitted, complete, zns_write_plain,
}

-- The cases CLOSED and EMPTY: the zone is opened, and its buffer takes the random write area. A
-- buffer that does not give it is a failed assertion.
unfoldable pub open_with_zrwa : ZnsFtl → ℕ → ZoneDescriptor → Run Admission
unfolding acquire_zone_resource get_buffer set_buffer buffer_allocate change_zone_state
open_with_zrwa z zid d =
    let (acquired, z') = acquire_zone_resource z open_zone in
    let opened : Run Admission = do
      buffer ← get_buffer z' (zrwa_zone_buffer zid)
      (taken, buffer') ← buffer_allocate buffer z.zp.zrwa_size
      let z'' = set_buffer z' (zrwa_zone_buffer zid) buffer'
      let done : Run Admission = ok (admitted (change_zone_state z'' zid d ZoneState.opened_impl))
      if taken == 0 then fault bug else done
    in if acquired then opened else ok (refused Sc.zns_no_open_zone z')

unfoldable pub admit_zrwa_state : ZoneState → ZnsFtl → ℕ → ZoneDescriptor → Run Admission
unfolding open_with_zrwa
admit_zrwa_state ZoneState.closed z zid d = open_with_zrwa z zid d
admit_zrwa_state ZoneState.empty z zid d = open_with_zrwa z zid d
admit_zrwa_state ZoneState.opened_impl z zid d = ok (admitted z)
admit_zrwa_state ZoneState.opened_expl z zid d = ok (admitted z)
admit_zrwa_state ZoneState.full z zid d = ok (refused Sc.zns_err_full z)
admit_zrwa_state ZoneState.read_only z zid d = ok (refused Sc.zns_err_read_only z)
admit_zrwa_state ZoneState.offline z zid d = ok (refused Sc.zns_err_offline z)

-- The first LBA whose write flushes implicitly, and the last LBA that a write may reach.
unfoldable pub zrwa_impl_start : ZnsFtl → ZoneDescriptor → ℕ
zrwa_impl_start z d = u64 (d.wp + z.zp.lbas_per_zrwa)

unfoldable pub zrwa_impl_end : ZnsFtl → ZoneDescriptor → ℕ
zrwa_impl_end z d = sub64 (u64 (d.wp + u32 (2 * z.zp.lbas_per_zrwa))) 1

-- The checks of __zns_write_zrwa.
unfoldable pub admit_zrwa : ZnsFtl → ℕ → ZoneDescriptor → (slba nr_lba elba : ℕ) → Run Admission
unfolding admit_zrwa_state zrwa_impl_end check_boundary_error
admit_zrwa z zid d slba nr_lba elba =
    let state = admit_zrwa_state d.state z zid d in
    if (lba_to_byte nr_lba % z.ssd.sp.write_unit_size) == 0
    then if check_boundary_error z slba nr_lba
      then if ltb slba d.wp || ltb (zrwa_impl_end z d) elba
        then ok (refused Sc.zns_invalid_write z)
        else state
      else ok (refused Sc.zns_err_boundary z)
    else ok (refused Sc.zns_invalid_write z)

-- How many LBAs the write flushes.
unfoldable pub nr_lbas_flush : ZnsFtl → ℕ → ZoneDescriptor → ℕ → Run ℕ
unfolding zrwa_impl_start zone_to_elba
nr_lbas_flush z zid d elba =
    let fg = z.zp.lbas_per_zrwafg in
    let implicit : Run ℕ = do
      divisor fg
      ok (u64 (div_round_up (elba - zrwa_impl_start z d + 1) fg * fg))
    in let to_end = u64 (sub64 elba d.wp + 1) in
      if leb (zrwa_impl_start z d) elba
      then implicit
      else if elba == zone_to_elba z zid
      then ok to_end
      else ok 0

-- How many pages a round of the flush takes, and whether they end a program unit.
unfoldable pub pages_flushed : ZnsFtl → (lpn remaining : ℕ) → ℕ
unfolding lpn_to_ppa
pages_flushed z lpn remaining =
    let oneshot = z.ssd.sp.pgs_per_oneshotpg in
    min remaining (oneshot - (lpn_to_ppa z lpn).pg % oneshot)

unfoldable pub fills_oneshot : ZnsFtl → (lpn pgs : ℕ) → Bool
unfolding lpn_to_ppa
fills_oneshot z lpn pgs =
    let oneshot = z.ssd.sp.pgs_per_oneshotpg in ((lpn_to_ppa z lpn).pg % oneshot + pgs) == oneshot

module _ (cpu_clock : ℕ → ℕ) where
  -- The programming of the page at `lpn`, and the release that it schedules.
  unfoldable pub program_zrwa : ZnsFtl → (sq_id zid lpn stime latest : ℕ) → Run (ℕ × ZnsFtl)
  program_zrwa z sq_id zid lpn stime latest = do
    let spp = z.ssd.sp
    (completed, ssd) ← ssd_advance_nand cpu_clock z.ssd (record {
      cmd = nand_write;
      xfer_size = spp.pgs_per_oneshotpg * spp.pgsz;
      stime = stime;
      interleave_pci_dma = false;
      ppa = lpn_to_ppa z lpn;
    })
    let z' = record z { ssd = ssd }
    ok (
      max completed latest,
      schedule_internal_operation z' (record {
        sq_id = sq_id;
        nsecs_target = completed;
        write_buffer = zrwa_zone_buffer zid;
        buffs_to_release = spp.pgs_per_oneshotpg * spp.pgsz;
      }),
    )

  -- One round of the loop, for `pgs` pages: a page that is filled is programmed.
  unfoldable pub flush_round : ZnsFtl → (sq_id zid lpn pgs stime latest : ℕ) → Run (ℕ × ZnsFtl)
  flush_round z sq_id zid lpn pgs stime latest =
      let program = program_zrwa z sq_id zid lpn stime latest in
      if fills_oneshot z lpn pgs then program else ok (latest, z)

  -- The `while (remaining > 0)` loop.
  unfoldable pub flush_pages :
      ℕ → ZnsFtl → (sq_id zid lpn remaining stime latest : ℕ) → Run (ℕ × ZnsFtl)
  flush_pages zero z sq_id zid lpn remaining stime latest = fault out_of_fuel
  flush_pages (suc fuel) z sq_id zid lpn remaining stime latest =
      let pgs = pages_flushed z lpn remaining in
      let rest : Run (ℕ × ZnsFtl) =
        flush_round z sq_id zid lpn pgs stime latest >>= λ (latest', z').
        flush_pages fuel z' sq_id zid (u64 (lpn + pgs)) (remaining - pgs) stime latest' in
      if remaining == 0 then ok (latest, z) else rest

  -- The timing of a write that flushes `flushed` LBAs from `prev_wp` on.
  unfoldable pub finish_zrwa : ZnsFtl → Request → Result → (zid prev_wp flushed : ℕ) → Run Reply
  finish_zrwa z req ret zid prev_wp flushed = do
    let bytes = lba_to_byte (nr_lbas_from_rw_cmd req)
    (xfer, ssd) ← ssd_advance_write_buffer cpu_clock z.ssd req.nsecs_start bytes
    let z' = record z { ssd = ssd }
    let pages = flushed / z.ssd.sp.secs_per_pg
    (latest, z'') ← flush_pages (pages + 1) z' req.sq_id zid (lba_to_lpn z prev_wp) pages xfer xfer
    ok (complete req ret z'' Sc.success latest xfer)

  -- A flush: the buffer takes its bytes, or the command is to be tried again, and the write
  -- pointer moves.
  unfoldable pub flush_zrwa : ZnsFtl → Request → Result → (zid prev_wp flushed : ℕ) → Run Reply
  flush_zrwa z req ret zid prev_wp flushed = do
    buffer ← get_buffer z (zrwa_zone_buffer zid)
    (taken, buffer') ← buffer_allocate buffer (lba_to_byte flushed)
    let z' = set_buffer z (zrwa_zone_buffer zid) buffer'
    let go : Run Reply = do
      z'' ← increase_write_ptr z' zid (u32 flushed)
      finish_zrwa z'' req ret zid prev_wp flushed
    if taken == 0 then ok (record { done = false; req = req; ret = ret; ftl = z' }) else go

  unfoldable pub perform_zrwa : ZnsFtl → Request → Result → (zid prev_wp flushed : ℕ) → Run Reply
  perform_zrwa z req ret zid prev_wp flushed =
      let flush = flush_zrwa z req ret zid prev_wp flushed in
      let plain = finish_zrwa z req ret zid prev_wp flushed in
      if ltb 0 flushed then flush else plain

  unfoldable pub decide_zrwa :
      Admission → Request → Result → ZoneDescriptor → (zid elba : ℕ) → Run Reply
  decide_zrwa (refused status z) req ret d zid elba =
      ok (complete req ret z status req.nsecs_start req.nsecs_start)
  decide_zrwa (admitted z) req ret d zid elba = do
    flushed ← nr_lbas_flush z zid d elba
    perform_zrwa z req ret zid d.wp flushed

  -- __zns_write_zrwa.
  unfoldable pub zns_write_zrwa : ZnsFtl → Request → Result → Run Reply
  zns_write_zrwa z req ret = do
    let nr_lba = nr_lbas_from_rw_cmd req
    let elba = sub64 (u64 (req.slba + nr_lba)) 1
    let zid = lba_to_zone z req.slba
    d ← descriptor z zid
    admission ← admit_zrwa z zid d req.slba nr_lba elba
    decide_zrwa admission req ret d zid elba

  -- zns_write: the zone is found from the page, here.
  unfoldable pub zns_write : ZnsFtl → Request → Result → Run Reply
  zns_write z req ret = do
    d ← descriptor z (lpn_to_zone z (lba_to_lpn z req.slba))
    let zrwa = zns_write_zrwa z req ret
    let plain = zns_write_plain cpu_clock z req ret
    if d.zrwav then zrwa else plain
