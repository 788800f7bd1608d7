-- ===== src/Conv/Write.antt =====
-- conv_write of conv_ftl.c.
pub mod Grows
pub mod Stores
pub mod Covers
use nvmevirt_pim.Base.{
  ℕ, zero, suc, ◌+◌, ◌-◌, ◌*◌, ◌/◌, ◌%◌, max, true, false, Bool, leb, ltb, ◌||◌, ◌==◌, ◌∷◌,
  if◌then◌else◌, Run, ok, fault, out_of_fuel, ◌>>=◌, ◌>>◌, divisor, u32, u64,
}
use nvmevirt_pim.Ssd.Buffer.{buffer_allocate}
use nvmevirt_pim.Ssd.Nand.{Ppa, Ssd, nand_write}
use nvmevirt_pim.Ssd.Nand.Ops.{ssd_advance_write_buffer, ssd_advance_nand}
use nvmevirt_pim.Zns.Sc
use nvmevirt_pim.Zns.State.{Request, Result, InternalOp, ssd_buffer, nr_lbas_from_rw_cmd}
use nvmevirt_pim.Zns.Write.{lba_to_byte}
use nvmevirt_pim.Conv.State.{ConvFtl, user_io, VictimQueue, invalid_lpn}
use nvmevirt_pim.Conv.Map.{
  get_maptbl_ent, set_maptbl_ent, set_rmap_ent, mapped_ppa, last_pg_in_wordline,
}
use nvmevirt_pim.Conv.Lines.{consume_write_credit}
use nvmevirt_pim.Conv.Pointer.{get_new_page, advance_write_pointer}
use nvmevirt_pim.Conv.Install.{install_page}
use nvmevirt_pim.Conv.Mark.{mark_page_invalid, mark_page_valid}
use nvmevirt_pim.Conv.Gc.{check_and_refill_write_credit}
use nvmevirt_pim.Conv.Namespace.{ConvNamespace, part, set_part}
use nvmevirt_pim.Conv.Read.{ConvReply, start_lpn, end_lpn}

module _ (pq : VictimQueue) where
  -- The old page of a logical page that was written before is given up.
  unfoldable pub forget_old : ConvFtl pq.Queue → (local_lpn : ℕ) → Run (ConvFtl pq.Queue)
  forget_old f local_lpn = do
    ppa ← get_maptbl_ent f local_lpn
    let invalidated = do f1 ← mark_page_invalid pq f ppa; set_rmap_ent f1 invalid_lpn ppa
    if mapped_ppa ppa then invalidated else ok f

  -- A new page for a logical page, with its entries in both tables.
  unfoldable pub map_new : ConvFtl pq.Queue → (local_lpn : ℕ) → Run (Ppa × ConvFtl pq.Queue)
  map_new f local_lpn = do
    ppa ← get_new_page f user_io
    f' ← install_page pq f local_lpn ppa user_io
    ok (ppa, f')

module _ (cpu_clock : ℕ → ℕ) (pq : VictimQueue) where
  -- Where the page ends a one-shot page, that page is programmed, and the worker is told to give
  -- its bytes back to the write buffer.
  unfoldable pub program_wordline :
      ConvNamespace pq.Queue
      → ConvFtl pq.Queue
      → Ppa
      → (part_no sq_id stime latest : ℕ) → Run (ℕ × ConvNamespace pq.Queue)
  program_wordline ns f ppa part_no sq_id stime latest = do
    let spp = f.ssd.sp
    let programmed = do
      (completed, ssd) ← ssd_advance_nand cpu_clock f.ssd (record {
        cmd = nand_write;
        xfer_size = u32 (spp.pgsz * spp.pgs_per_oneshotpg);
        stime = stime;
        interleave_pci_dma = false;
        ppa = ppa;
      })
      let ns' = set_part ns part_no (record f { ssd = ssd })
      let op : InternalOp = record {
        sq_id = sq_id;
        nsecs_target = completed;
        write_buffer = ssd_buffer;
        buffs_to_release = spp.pgs_per_oneshotpg * spp.pgsz;
      }
      ok (max completed latest, record ns' { scheduled = op ∷ ns'.scheduled })
    last ← last_pg_in_wordline spp ppa
    if last then programmed else ok (latest, set_part ns part_no f)

  -- One page of a write: the round of the loop.
  unfoldable pub write_page :
      ConvNamespace pq.Queue
      → (stack_ppa : Ppa) → (sq_id stime lpn latest : ℕ) → Run (ℕ × ConvNamespace pq.Queue)
  write_page ns stack_ppa sq_id stime lpn latest = do
    let part_no = lpn % ns.nr_parts
    f ← part ns part_no
    f1 ← forget_old pq f (lpn / ns.nr_parts)
    (ppa, f2) ← map_new pq f1 (lpn / ns.nr_parts)
    (latest', ns1) ← program_wordline ns f2 ppa part_no sq_id stime latest
    f3 ← part ns1 part_no
    f4 ← check_and_refill_write_credit cpu_clock pq stack_ppa (consume_write_credit f3)
    ok (latest', set_part ns1 part_no f4)

  -- The loop over the pages from `lpn` to `last`.
  unfoldable pub write_all_pages :
      ℕ
      → ConvNamespace pq.Queue
      → (stack_ppa : Ppa) → (sq_id stime last lpn latest : ℕ) → Run (ℕ × ConvNamespace pq.Queue)
  write_all_pages zero ns stack_ppa sq_id stime last lpn latest = fault out_of_fuel
  write_all_pages (suc fuel) ns stack_ppa sq_id stime last lpn latest =
      let rest = do
        (latest', ns') ← write_page ns stack_ppa sq_id stime lpn latest
        write_all_pages fuel ns' stack_ppa sq_id stime last (u64 (lpn + 1)) latest'
      in if leb lpn last then rest else ok (latest, ns)

  -- The write after the buffer is taken: `ns` has the buffer without those bytes.
  unfoldable pub write_buffered :
      ConvNamespace pq.Queue → Ppa → Request → Result → Run (ConvReply pq.Queue)
  unfolding start_lpn end_lpn
  write_buffered ns stack_ppa req ret = do
    f ← part ns 0
    let spp = f.ssd.sp
    let bytes = lba_to_byte (nr_lbas_from_rw_cmd req)
    (xfer_completed, ssd) ← ssd_advance_write_buffer cpu_clock f.ssd req.nsecs_start bytes
    let ns1 = set_part ns 0 (record f { ssd = ssd })
    let first = start_lpn spp req
    let last = end_lpn spp req
    (latest, ns2) ←
        write_all_pages (last - first + 2) ns1 stack_ppa req.sq_id xfer_completed last first
          xfer_completed
    let waits = req.fua || spp.write_early_completion == 0
    ok (record {
      done = true;
      ret = record ret {
        status = Sc.success;
        nsecs_target = if waits then latest else xfer_completed;
      };
      ns = ns2;
    })

  -- A command past the last page, or one for which the buffer has no room, is not answered.
  unfoldable pub conv_write :
      ConvNamespace pq.Queue → Ppa → Request → Result → Run (ConvReply pq.Queue)
  unfolding end_lpn write_buffered
  conv_write ns stack_ppa req ret = do
    f ← part ns 0
    let spp = f.ssd.sp
    divisor spp.secs_per_pg
    divisor ns.nr_parts
    let bytes = lba_to_byte (nr_lbas_from_rw_cmd req)
    let refused : ConvReply pq.Queue = record { done = false; ret = ret; ns = ns }
    let checked = do
      (taken, buffer) ← buffer_allocate ns.write_buffer bytes
      let written = write_buffered (record ns { write_buffer = buffer }) stack_ppa req ret
      if ltb taken bytes
          then ok (record refused { ns = record ns { write_buffer = buffer } })
          else written
    if leb spp.tt_pgs (end_lpn spp req / ns.nr_parts) then ok refused else checked
