-- ===== src/Conv/Read.antt =====
-- conv_read of conv_ftl.c.
pub mod Keeps
use nvmevirt_pim.Base.{
  ℕ, zero, suc, ◌+◌, ◌-◌, ◌*◌, ◌/◌, ◌%◌, max, true, false, Bool, not, leb, ltb, ◌&&◌, ◌==◌,
  if◌then◌else◌, Run, ok, fault, out_of_fuel, ◌>>=◌, ◌>>◌, divisor, u32, u64, sub64,
}
use nvmevirt_pim.Ssd.Config.{kb}
use nvmevirt_pim.Ssd.Params.{SsdParams}
use nvmevirt_pim.Ssd.Nand.{Ppa, Ssd, nand_read}
use nvmevirt_pim.Ssd.Nand.Ops.{ssd_advance_nand}
use nvmevirt_pim.Zns.Sc
use nvmevirt_pim.Zns.State.{Request, Result, nr_lbas_from_rw_cmd}
use nvmevirt_pim.Zns.Write.{lba_to_byte}
use nvmevirt_pim.Conv.State.{ConvFtl}
use nvmevirt_pim.Conv.Map.{get_maptbl_ent, mapped_ppa, valid_ppa, is_same_flash_page}
use nvmevirt_pim.Conv.Namespace.{ConvNamespace, part, set_part}

-- What a handler leaves: its return value, the result, the namespace.
pub record ConvReply (Q : Type 0) : Type 0 where
  pub done : Bool
  pub ret : Result
  pub ns : ConvNamespace Q

-- The logical pages of a command: start_lpn and end_lpn.
unfoldable pub start_lpn : SsdParams → Request → ℕ
start_lpn spp req = req.slba / spp.secs_per_pg

unfoldable pub end_lpn : SsdParams → Request → ℕ
end_lpn spp req = sub64 (u64 (req.slba + nr_lbas_from_rw_cmd req)) 1 / spp.secs_per_pg

-- The time of the firmware for `nr_lba` blocks, in a namespace of `nr_parts` instances.
unfoldable pub firmware_lat : SsdParams → (nr_parts nr_lba : ℕ) → ℕ
firmware_lat spp nr_parts nr_lba =
    if leb (lba_to_byte nr_lba) (kb 4 * nr_parts) then spp.fw_4kb_rd_lat else spp.fw_rd_lat

-- What the loop over the pages keeps: the bytes and the page of the piece that is not read yet, and
-- the latest completion.
pub record ReadState (Q : Type 0) : Type 0 where
  pub xfer_size : ℕ
  pub prev_ppa : Ppa
  pub latest : ℕ
  pub ftl : ConvFtl Q

module _ (cpu_clock : ℕ → ℕ) {Q : Type 0} where
  -- Reads the piece that is left, if there is one.
  unfoldable pub issue : (stime : ℕ) → ReadState Q → Run (ReadState Q)
  issue stime s =
      let f = s.ftl in
      let sent = do
        (completed, ssd) ← ssd_advance_nand cpu_clock f.ssd (record {
          cmd = nand_read;
          xfer_size = s.xfer_size;
          stime = stime;
          interleave_pci_dma = true;
          ppa = s.prev_ppa;
        })
        ok (record s { latest = max completed s.latest; ftl = record f { ssd = ssd } })
      in if ltb 0 s.xfer_size then sent else ok s

  -- One page of the normal path.
  unfoldable pub read_page : (stime : ℕ) → ReadState Q → (local_lpn : ℕ) → Run (ReadState Q)
  unfolding mapped_ppa
  read_page stime s local_lpn = do
    let f = s.ftl
    let spp = f.ssd.sp
    cur_ppa ← get_maptbl_ent f local_lpn
    let present = do
      same ← if mapped_ppa s.prev_ppa then is_same_flash_page spp cur_ppa s.prev_ppa else ok false
      let next = do s' ← issue stime s; ok (record s' { xfer_size = spp.pgsz; prev_ppa = cur_ppa })
      if same then ok (record s { xfer_size = u32 (s.xfer_size + spp.pgsz) }) else next
    if mapped_ppa cur_ppa && valid_ppa spp cur_ppa then present else ok s

  -- The loop over the pages of one instance.
  unfoldable pub read_own_pages :
      ℕ → (nr_parts stime last : ℕ) → ReadState Q → (lpn : ℕ) → Run (ReadState Q)
  read_own_pages zero nr_parts stime last s lpn = fault out_of_fuel
  read_own_pages (suc fuel) nr_parts stime last s lpn =
      let rest = do
        s' ← read_page stime s (lpn / nr_parts)
        read_own_pages fuel nr_parts stime last s' (u64 (lpn + nr_parts))
      in if leb lpn last then rest else ok s

  -- One round of the loop over the instances: the pages from `first` that instance
  -- `first % nr_parts` holds.
  unfoldable pub read_part :
      ConvNamespace Q → (stime first last latest : ℕ) → Run (ℕ × ConvNamespace Q)
  read_part ns stime first last latest = do
    f ← part ns (first % ns.nr_parts)
    prev_ppa ← get_maptbl_ent f (first / ns.nr_parts)
    s ←
        read_own_pages (last - first + 2) ns.nr_parts stime last
          (record { xfer_size = 0; prev_ppa = prev_ppa; latest = latest; ftl = f }) first
    s' ← issue stime s
    ok (s'.latest, set_part ns (first % ns.nr_parts) s'.ftl)

  -- The loop over the instances, `n` of them at most.
  unfoldable pub read_parts :
      (n : ℕ) → ConvNamespace Q → (stime first last latest : ℕ) → Run (ℕ × ConvNamespace Q)
  read_parts zero ns stime first last latest = ok (latest, ns)
  read_parts (suc n) ns stime first last latest =
      let rest = do
        (latest', ns') ← read_part ns stime first last latest
        read_parts n ns' stime (first + 1) last latest'
      in if leb first last then rest else ok (latest, ns)

  -- A command past the last page is not answered: `ret` is as it was.
  unfoldable pub conv_read : ConvNamespace Q → Request → Result → Run (ConvReply Q)
  unfolding start_lpn end_lpn
  conv_read ns req ret = do
    f ← part ns 0
    let spp = f.ssd.sp
    divisor spp.secs_per_pg
    divisor ns.nr_parts
    let last = end_lpn spp req
    let stime = u64 (req.nsecs_start + firmware_lat spp ns.nr_parts (nr_lbas_from_rw_cmd req))
    let performed = do
      (latest, ns') ← read_parts ns.nr_parts ns stime (start_lpn spp req) last req.nsecs_start
      ok (record {
        done = true;
        ret = record ret { status = Sc.success; nsecs_target = latest };
        ns = ns';
      })
    if leb spp.tt_pgs (last / ns.nr_parts)
        then ok (record { done = false; ret = ret; ns = ns })
        else performed
