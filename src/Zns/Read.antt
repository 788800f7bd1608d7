-- ===== src/Zns/Read.antt =====
-- zns_read of zns_read_write.c.
use nvmevirt_pim.Base.{
  ℕ, zero, suc, ◌+◌, ◌-◌, ◌*◌, ◌%◌, min, true, false, ltb, leb, if◌then◌else◌, Run, ok, fault,
  out_of_fuel, ◌>>=◌, max, u64, sub64,
}
use nvmevirt_pim.Ssd.Config.{kb}
use nvmevirt_pim.Ssd.Nand.{nand_read}
use nvmevirt_pim.Ssd.Nand.Ops.{ssd_advance_pcie, ssd_advance_nand}
use nvmevirt_pim.Zns.Sc
use nvmevirt_pim.Zns.State.{
  ZoneState, ZnsFtl, Request, Result, Reply, descriptor, nr_lbas_from_rw_cmd,
}
use nvmevirt_pim.Zns.Address.{lba_to_lpn, lpn_to_zone, check_boundary_error, lpn_to_ppa}
use nvmevirt_pim.Zns.Write.{lba_to_byte}

-- The status of a read, for the state of its zone. A read in error is timed like any other.
unfoldable pub read_status : ZoneState → ZnsFtl → (slba nr_lba : ℕ) → ℕ
unfolding check_boundary_error
read_status ZoneState.offline z slba nr_lba = Sc.zns_err_offline
read_status _ z slba nr_lba =
    if check_boundary_error z slba nr_lba then Sc.success else Sc.zns_err_boundary

module _ (cpu_clock : ℕ → ℕ) where
  -- The loop over the pages: a piece lies in one flash page.
  unfoldable pub read_pages : ℕ → ZnsFtl → (lpn elpn stime latest : ℕ) → Run (ℕ × ZnsFtl)
  read_pages zero z lpn elpn stime latest = fault out_of_fuel
  read_pages (suc fuel) z lpn elpn stime latest =
      let spp = z.ssd.sp in
      let ppa = lpn_to_ppa z lpn in
      let pgs = min (elpn - lpn + 1) (spp.pgs_per_flashpg - ppa.pg % spp.pgs_per_flashpg) in
      let rest : Run (ℕ × ZnsFtl) = do
        (completed, ssd) ← ssd_advance_nand cpu_clock z.ssd (record {
          cmd = nand_read;
          xfer_size = pgs * spp.pgsz;
          stime = stime;
          interleave_pci_dma = false;
          ppa = ppa;
        })
        read_pages fuel (record z { ssd = ssd }) (u64 (lpn + pgs)) elpn stime (max completed latest)
      in if ltb elpn lpn then ok (latest, z) else rest

  unfoldable pub zns_read : ZnsFtl → Request → Result → Run Reply
  zns_read z req ret = do
    let spp = z.ssd.sp
    let nr_lba = nr_lbas_from_rw_cmd req
    let slpn = lba_to_lpn z req.slba
    let elpn = lba_to_lpn z (sub64 (u64 (req.slba + nr_lba)) 1)
    d ← descriptor z (lpn_to_zone z slpn)
    let firmware = if leb (lba_to_byte nr_lba) (kb 4) then spp.fw_4kb_rd_lat else spp.fw_rd_lat
    let stime = u64 (req.nsecs_start + firmware)
    (latest, z1) ← read_pages (elpn - slpn + 2) z slpn elpn stime stime
    (completed, ssd) ← ssd_advance_pcie cpu_clock z1.ssd latest (u64 (nr_lba * spp.secsz))
    ok (record {
      done = true;
      req = req;
      ret = record ret {
        status = read_status d.state z req.slba nr_lba;
        nsecs_target = max completed latest;
      };
      ftl = record z1 { ssd = ssd };
    })
