-- ===== src/Conv/Gc.antt =====
-- Garbage collection of conv_ftl.c: one victim line at a time, flash page by flash page.
pub mod Moves
pub mod Collects
pub mod Sweeps
pub mod Safe
use nvmevirt_pim.Base.{
  ℕ, zero, suc, ◌+◌, ◌-◌, ◌*◌, ◌%◌, ◌^◌, Bool, true, false, not, ltb, ◌&&◌, ◌==◌, Option, some,
  none, if◌then◌else◌, Run, ok, ◌>>=◌, ◌>>◌, assert, u32,
}
use nvmevirt_pim.Ssd.Nand.{Ppa, NandOp, nand_read, nand_write, nand_erase, nand_nop, NandCmd, Ssd}
use nvmevirt_pim.Ssd.Nand.Ops.{ssd_advance_nand, get_lun}
use nvmevirt_pim.Conv.State.{PageStatus, ConvFtl, gc_io, VictimQueue}
use nvmevirt_pim.Conv.Map.{
  valid_lpn, get_rmap_ent, set_maptbl_ent, set_rmap_ent, last_pg_in_wordline, get_pg, get_blk,
}
use nvmevirt_pim.Conv.Lines.{should_gc_high, select_victim_line, mark_line_free}
use nvmevirt_pim.Conv.Pointer.{get_new_page, advance_write_pointer}
use nvmevirt_pim.Conv.Install.{install_page}
use nvmevirt_pim.Conv.Mark.{is_free, is_valid, mark_page_valid, mark_block_free}

-- A command of garbage collection: its start time is 0, which stands for the present.
unfoldable pub gc_cmd : NandOp → (xfer_size : ℕ) → Ppa → NandCmd
gc_cmd op xfer_size ppa = record {
  cmd = op;
  xfer_size = u32 xfer_size;
  stime = 0;
  interleave_pci_dma = false;
  ppa = ppa;
}

-- `ppa.g.pg++`, in a field of 16 bits.
unfoldable pub next_pg : Ppa → Ppa
next_pg ppa = record ppa { pg = (ppa.pg + 1) % 2 ^ 16 }

module _ (cpu_clock : ℕ → ℕ) {Q : Type 0} where
  -- The time of a command of garbage collection, where `enable_gc_delay` is set.
  unfoldable pub gc_delay : ConvFtl Q → NandCmd → Run (ConvFtl Q)
  gc_delay f ncmd =
      let timed = do (_, ssd) ← ssd_advance_nand cpu_clock f.ssd ncmd; ok (record f { ssd = ssd })
      in if f.cp.enable_gc_delay then timed else ok f

  unfoldable pub gc_read_page : ConvFtl Q → Ppa → Run (ConvFtl Q)
  unfolding gc_delay gc_cmd
  gc_read_page f ppa = gc_delay f (gc_cmd nand_read f.ssd.sp.pgsz ppa)

module _ {Q : Type 0} where
  -- The first loop of clean_one_flashpg, over `n` more pages: how many are valid.
  unfoldable pub count_valid : (n : ℕ) → ConvFtl Q → Ppa → (cnt : ℕ) → Run ℕ
  count_valid zero f ppa cnt = ok cnt
  count_valid (suc n) f ppa cnt = do
    i ← get_pg f ppa
    assert (not (is_free (f.pages i)))
    count_valid n f (next_pg ppa) (if is_valid (f.pages i) then cnt + 1 else cnt)

module _ (pq : VictimQueue) where
  -- The tables and the state of the new page, in gc_write_page: the result is the new page.
  unfoldable pub gc_move_page : ConvFtl pq.Queue → Ppa → Run (Ppa × ConvFtl pq.Queue)
  gc_move_page f old_ppa = do
    lpn ← get_rmap_ent f old_ppa
    assert (valid_lpn f.ssd.sp lpn)
    new_ppa ← get_new_page f gc_io
    f' ← install_page pq f lpn new_ppa gc_io
    ok (new_ppa, f')

module _ (cpu_clock : ℕ → ℕ) (pq : VictimQueue) where
  unfoldable pub gc_write_page : ConvFtl pq.Queue → Ppa → Run (ConvFtl pq.Queue)
  unfolding gc_cmd
  gc_write_page f old_ppa = do
    (new_ppa, f') ← gc_move_page pq f old_ppa
    last ← last_pg_in_wordline f'.ssd.sp new_ppa
    gc_delay cpu_clock f' (
        if last
        then gc_cmd nand_write (f'.ssd.sp.pgsz * f'.ssd.sp.pgs_per_oneshotpg) new_ppa
        else gc_cmd nand_nop 0 new_ppa)

  -- The loop of clean_one_block, over `n` more pages: `cnt` pages were valid so far.
  unfoldable pub clean_pages :
      (n : ℕ) → ConvFtl pq.Queue → Ppa → (cnt : ℕ) → Run (Ppa × ℕ × ConvFtl pq.Queue)
  clean_pages zero f ppa cnt = ok (ppa, cnt, f)
  clean_pages (suc n) f ppa cnt = do
    i ← get_pg f ppa
    assert (not (is_free (f.pages i)))
    let moved = do f1 ← gc_read_page cpu_clock f ppa; gc_write_page f1 ppa
    f' ← if is_valid (f.pages i) then moved else ok f
    clean_pages n f' (next_pg ppa) (if is_valid (f.pages i) then cnt + 1 else cnt)

  -- clean_one_block, which nothing calls.
  unfoldable pub clean_one_block : ConvFtl pq.Queue → Ppa → Run (ConvFtl pq.Queue)
  unfolding clean_pages next_pg
  clean_one_block f ppa = do
    (_, cnt, f') ← clean_pages f.ssd.sp.pgs_per_blk f (record ppa { pg = 0 }) 0
    b ← get_blk f' ppa
    let blk = f'.blocks b
    assert (blk.vpc == cnt)
    ok f'

  -- The second loop, over `n` more pages.
  unfoldable pub copy_valid : (n : ℕ) → ConvFtl pq.Queue → Ppa → Run (ConvFtl pq.Queue)
  copy_valid zero f ppa = ok f
  copy_valid (suc n) f ppa = do
    i ← get_pg f ppa
    f' ← if is_valid (f.pages i) then gc_write_page f ppa else ok f
    copy_valid n f' (next_pg ppa)

  unfoldable pub clean_one_flashpg : ConvFtl pq.Queue → Ppa → Run (ConvFtl pq.Queue)
  unfolding count_valid copy_valid gc_cmd next_pg
  clean_one_flashpg f ppa = do
    let spp = f.ssd.sp
    cnt ← count_valid spp.pgs_per_flashpg f ppa 0
    let copied = do
      f1 ← gc_delay cpu_clock f (gc_cmd nand_read (spp.pgsz * cnt) ppa)
      copy_valid spp.pgs_per_flashpg f1 ppa
    if cnt == 0 then ok f else copied

  -- The block of `ppa` is empty now: it is marked free and erased.
  unfoldable pub erase_block : ConvFtl pq.Queue → Ppa → Run (ConvFtl pq.Queue)
  unfolding gc_cmd
  erase_block f ppa = do f' ← mark_block_free f ppa; gc_delay cpu_clock f' (gc_cmd nand_erase 0 ppa)

  -- One LUN of one round of do_gc.
  unfoldable pub clean_lun : ConvFtl pq.Queue → Ppa → (last : Bool) → Run (ConvFtl pq.Queue)
  clean_lun f ppa last = do
    lun ← get_lun f.ssd ppa
    f' ← clean_one_flashpg f ppa
    let erased = erase_block f' ppa
    if last then erased else ok f'

  -- The loops of do_gc: over the LUNs of a channel from `lun`, `n` of them;
  unfoldable pub clean_luns :
      (n lun : ℕ) → ConvFtl pq.Queue → Ppa → (last : Bool) → Run (ConvFtl pq.Queue)
  clean_luns zero lun f ppa last = ok f
  clean_luns (suc n) lun f ppa last = do
    f' ← clean_lun f (record ppa { lun = lun % 2 ^ 8; pl = 0 }) last
    clean_luns n (lun + 1) f' ppa last

  -- over the channels from `ch`, `n` of them;
  unfoldable pub clean_chs :
      (n ch : ℕ) → ConvFtl pq.Queue → Ppa → (last : Bool) → Run (ConvFtl pq.Queue)
  clean_chs zero ch f ppa last = ok f
  clean_chs (suc n) ch f ppa last = do
    f' ← clean_luns f.ssd.sp.luns_per_ch 0 f (record ppa { ch = ch % 2 ^ 8 }) last
    clean_chs n (ch + 1) f' ppa last

  -- over the flash pages of a block from `flashpg`, `n` of them.
  unfoldable pub clean_flashpgs : (n flashpg : ℕ) → ConvFtl pq.Queue → Ppa → Run (ConvFtl pq.Queue)
  clean_flashpgs zero flashpg f ppa = ok f
  clean_flashpgs (suc n) flashpg f ppa = do
    let spp = f.ssd.sp
    let last = flashpg == (spp.flashpgs_per_blk - 1)
    f' ← clean_chs spp.nchs 0 f (record ppa { pg = flashpg * spp.pgs_per_flashpg % 2 ^ 16 }) last
    clean_flashpgs n (flashpg + 1) f' ppa

  -- The part of do_gc for the victim line `v`; `stack_ppa` is what the variable `ppa` holds before
  -- its fields are set.
  unfoldable pub collect : Ppa → ConvFtl pq.Queue → (v : ℕ) → Run (ConvFtl pq.Queue)
  collect stack_ppa f v = do
    let line = f.lines v
    let f1 = record f { credits_to_refill = u32 line.ipc }
    f2 ← clean_flashpgs f1.ssd.sp.flashpgs_per_blk 0 f1 (record stack_ppa { blk = v % 2 ^ 16 })
    mark_line_free f2 (v % 2 ^ 16)

  -- do_gc, for what select_victim_line gave. The result -1 is `false`.
  unfoldable pub collect_selected :
      Ppa → Option ℕ × ConvFtl pq.Queue → Run (Bool × ConvFtl pq.Queue)
  unfolding collect
  collect_selected stack_ppa (none, f) = ok (false, f)
  collect_selected stack_ppa (some v, f) = do f' ← collect stack_ppa f v; ok (true, f')

  unfoldable pub do_gc : Ppa → ConvFtl pq.Queue → (force : Bool) → Run (Bool × ConvFtl pq.Queue)
  unfolding collect_selected
  do_gc stack_ppa f force = collect_selected stack_ppa (select_victim_line pq f force)

  unfoldable pub foreground_gc : Ppa → ConvFtl pq.Queue → Run (ConvFtl pq.Queue)
  foreground_gc stack_ppa f =
      let collected = do (_, f') ← do_gc stack_ppa f true; ok f'
      in if should_gc_high f then collected else ok f

  -- `write_credits` is unsigned: `<= 0` is a test for 0.
  unfoldable pub check_and_refill_write_credit : Ppa → ConvFtl pq.Queue → Run (ConvFtl pq.Queue)
  check_and_refill_write_credit stack_ppa f =
      let refilled = do
        f' ← foreground_gc stack_ppa f
        ok (record f' { write_credits = u32 (f'.write_credits + f'.credits_to_refill) })
      in if f.write_credits == 0 then refilled else ok f
