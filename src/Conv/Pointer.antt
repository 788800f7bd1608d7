-- ===== src/Conv/Pointer.antt =====
-- The two write pointers of conv_ftl.c, for the writes of the host and of garbage collection.
pub mod Rows
pub mod Order
use nvmevirt_pim.Base.{
  ℕ, ◌+◌, ◌-◌, ◌*◌, ◌%◌, ◌^◌, Bool, true, false, ltb, not, ◌&&◌, ◌==◌, List, [], ◌∷◌, ◌++◌, Option,
  some, none, if◌then◌else◌, Run, ok, fault, bug, undefined, ◌>>=◌, ◌>>◌, assert, entry, divisor,
  sub32, u32,
}
use nvmevirt_pim.Ssd.Params.{SsdParams}
use nvmevirt_pim.Ssd.Nand.{Ppa}
use nvmevirt_pim.Conv.State.{ConvFtl, WritePointer, IoType, user_io, gc_io, VictimQueue}
use nvmevirt_pim.Conv.Map.{at}
use nvmevirt_pim.Conv.Lines.{get_next_free_line}

-- The fields of a `struct ppa` cut the coordinates of the pointer.
unfoldable pub pointer_page : WritePointer → Ppa
pointer_page w = record {
  pg = w.pg % 2 ^ 16;
  blk = w.blk % 2 ^ 16;
  pl = w.pl % 2 ^ 8;
  lun = w.lun % 2 ^ 8;
  ch = w.ch % 2 ^ 8;
  rsv = 0;
}

module _ {Q : Type 0} where
  -- __get_wp gives a pointer into the FTL: a read and a write through it.
  unfoldable pub get_wp : ConvFtl Q → IoType → WritePointer
  get_wp f user_io = f.wp
  get_wp f gc_io = f.gc_wp

  unfoldable pub set_wp : ConvFtl Q → IoType → WritePointer → ConvFtl Q
  set_wp f user_io w = record f { wp = w }
  set_wp f gc_io w = record f { gc_wp = w }

  -- wp->curline is always our next-to-write super-block: a pointer to the line that was taken.
  unfoldable pub start_line : IoType → Option ℕ × ConvFtl Q → Run (ConvFtl Q)
  unfolding set_wp
  start_line io (none, f) = fault bug
  start_line io (some id, f) =
      ok (set_wp f io (record { curline = id; ch = 0; lun = 0; pg = 0; blk = id; pl = 0 }))

  unfoldable pub prepare_write_pointer : ConvFtl Q → IoType → Run (ConvFtl Q)
  unfolding start_line get_next_free_line
  prepare_write_pointer f io = start_line io (get_next_free_line f)

  unfoldable pub get_new_page : ConvFtl Q → IoType → Run Ppa
  unfolding get_wp pointer_page
  get_new_page f io = do let ppa = pointer_page (get_wp f io); assert (ppa.pl == 0); ok ppa

-- check_addr, for a number that is not negative.
abbrev pub check_addr : (a max : ℕ) → Run (Unit {0})
check_addr a max = assert (ltb a max)

-- The first part of advance_write_pointer: the pointer after the page, and whether the line is used
-- up. A line is written one-shot page by one-shot page over all channels and LUNs.
unfoldable pub next_page : SsdParams → WritePointer → Run (WritePointer × Bool)
next_page spp w = do
  check_addr w.pg spp.pgs_per_blk
  divisor spp.pgs_per_oneshotpg
  let pg = u32 (w.pg + 1)
  let first = u32 (pg + 2 ^ 32 - spp.pgs_per_oneshotpg)
  let other_channel = do
    check_addr w.ch spp.nchs
    let other_lun = do
      check_addr w.lun spp.luns_per_ch
      let same_wordline = not (u32 (w.lun + 1) == spp.luns_per_ch)
      let next_wordline = u32 (first + spp.pgs_per_oneshotpg)
      if same_wordline
          then ok (record w { pg = first; ch = 0; lun = u32 (w.lun + 1) }, false)
          else if not (next_wordline == spp.pgs_per_blk)
          then ok (record w { pg = next_wordline; ch = 0; lun = 0 }, false)
          else ok (record w { pg = 0; ch = 0; lun = 0 }, true)
    if not (u32 (w.ch + 1) == spp.nchs)
        then ok (record w { pg = first; ch = u32 (w.ch + 1) }, false)
        else other_lun
  if not ((pg % spp.pgs_per_oneshotpg) == 0)
      then ok (record w { pg = pg }, false)
      else other_channel

module _ (pq : VictimQueue) where
  -- The line that is used up goes to the list of full lines or to the queue of victims.
  unfoldable pub retire_line : ConvFtl pq.Queue → ℕ → Run (ConvFtl pq.Queue)
  retire_line f id = do
    let spp = f.ssd.sp
    line ← at f.lines f.tt_lines id
    let (queue, lines) = pq.pqueue_insert f.victim_line_pq f.lines id
    let to_full = do
      assert (line.ipc == 0)
      ok (record f {
        full_line_list = f.full_line_list ++ id ∷ [];
        full_line_cnt = u32 (f.full_line_cnt + 1);
      })
    let to_victim = do
      assert (ltb line.vpc spp.pgs_per_line)
      assert (ltb 0 line.ipc)
      ok (record f {
        victim_line_pq = queue;
        lines = lines;
        victim_line_cnt = u32 (f.victim_line_cnt + 1);
      })
    if line.vpc == spp.pgs_per_line then to_full else to_victim

  -- The last part: the code reads the next line's id without a test for NULL.
  unfoldable pub next_line : ConvFtl pq.Queue → IoType → WritePointer → Run (ConvFtl pq.Queue)
  unfolding set_wp get_next_free_line
  next_line f io w = do
    check_addr w.blk f.ssd.sp.blks_per_pl
    let (line, f') = get_next_free_line f
    id ← entry line
    check_addr id f.ssd.sp.blks_per_pl
    assert (w.pl == 0)
    ok (set_wp f' io (record w { curline = id; blk = id }))

  unfoldable pub advance_write_pointer : ConvFtl pq.Queue → IoType → Run (ConvFtl pq.Queue)
  unfolding get_wp set_wp next_page retire_line next_line
  advance_write_pointer f io = do
    let old = get_wp f io
    (w, used_up) ← next_page f.ssd.sp old
    let fresh = retire_line f old.curline >>= (λ g. next_line g io w)
    if used_up then fresh else ok (set_wp f io w)
