-- ===== src/Conv/Mark.antt =====
-- The states of pages, blocks and lines: mark_page_invalid, mark_page_valid and mark_block_free.
use nvmevirt_pim.Base.{
  ℕ, ◌+◌, ◌-◌, ◌*◌, Bool, true, false, leb, ltb, ◌&&◌, ◌==◌, List, [], ◌∷◌, if◌then◌else◌, Run, ok,
  ◌>>=◌, ◌>>◌, assert, sub32, u32,
}
use nvmevirt_pim.Ssd.Nand.{Ppa}
use nvmevirt_pim.Conv.State.{PageStatus, free, invalid, valid, ConvFtl, Line, VictimQueue, update}
use nvmevirt_pim.Conv.Map.{at, get_pg, get_blk}

unfoldable pub is_free : PageStatus → Bool
is_free free = true
is_free _ = false

unfoldable pub is_valid : PageStatus → Bool
is_valid valid = true
is_valid _ = false

-- list_del_init of the entry of line `id`.
unfoldable pub list_del : ℕ → List ℕ → List ℕ
list_del id [] = []
list_del id (x ∷ xs) = if x == id then xs else x ∷ list_del id xs

module _ {Q : Type 0} where
  unfoldable pub mark_page_valid : ConvFtl Q → Ppa → Run (ConvFtl Q)
  unfolding get_pg get_blk is_free update
  mark_page_valid f ppa = do
    let spp = f.ssd.sp
    i ← get_pg f ppa
    assert (is_free (f.pages i))
    b ← get_blk f ppa
    let blk = f.blocks b
    assert (ltb blk.vpc spp.pgs_per_blk)
    line ← at f.lines f.tt_lines ppa.blk
    assert (ltb line.vpc spp.pgs_per_line)
    ok (record f {
      pages = update f.pages i valid;
      blocks = update f.blocks b (record blk { vpc = blk.vpc + 1 });
      lines = update f.lines ppa.blk (record line { vpc = line.vpc + 1 });
    })

  -- The loop over the pages of the block, which are `pgs_per_blk` entries of `pages`.
  unfoldable pub mark_block_free : ConvFtl Q → Ppa → Run (ConvFtl Q)
  unfolding get_blk update
  mark_block_free f ppa = do
    let spp = f.ssd.sp
    b ← get_blk f ppa
    let first = b * spp.pgs_per_blk
    let blk = f.blocks b
    ok (record f {
      pages = λ i. if leb first i && ltb i (first + spp.pgs_per_blk) then free else f.pages i;
      blocks = update f.blocks b (record { ipc = 0; vpc = 0; erase_cnt = blk.erase_cnt + 1 });
    })

module _ (pq : VictimQueue) where
  -- The line of an invalidated page, with its count of invalid pages already raised: its count of
  -- valid pages falls, in the queue by pqueue_change_priority.
  unfoldable pub lower_vpc : ConvFtl pq.Queue → (id : ℕ) → Line → ConvFtl pq.Queue
  unfolding update
  lower_vpc f id line =
      let raised = update f.lines id line in
      let (queue, lines) = pq.pqueue_change_priority f.victim_line_pq raised (line.vpc - 1) id in
      if line.pos == 0
      then record f { lines = update f.lines id (record line { vpc = line.vpc - 1 }) }
      else record f { victim_line_pq = queue; lines = lines }

  -- A line that was full goes from its list to the queue.
  unfoldable pub full_to_victim : ConvFtl pq.Queue → ℕ → ConvFtl pq.Queue
  unfolding list_del
  full_to_victim f id =
      let (queue, lines) = pq.pqueue_insert f.victim_line_pq f.lines id in
      record f {
        full_line_list = list_del id f.full_line_list;
        full_line_cnt = sub32 f.full_line_cnt 1;
        victim_line_pq = queue;
        lines = lines;
        victim_line_cnt = u32 (f.victim_line_cnt + 1);
      }

  unfoldable pub mark_page_invalid : ConvFtl pq.Queue → Ppa → Run (ConvFtl pq.Queue)
  unfolding get_pg get_blk is_valid update lower_vpc full_to_victim
  mark_page_invalid f ppa = do
    let spp = f.ssd.sp
    i ← get_pg f ppa
    assert (is_valid (f.pages i))
    b ← get_blk f ppa
    let blk = f.blocks b
    assert (ltb blk.ipc spp.pgs_per_blk)
    assert (ltb 0 blk.vpc && leb blk.vpc spp.pgs_per_blk)
    line ← at f.lines f.tt_lines ppa.blk
    assert (ltb line.ipc spp.pgs_per_line)
    let was_full_line = line.vpc == spp.pgs_per_line
    assert (if was_full_line then line.ipc == 0 else true)
    assert (ltb 0 line.vpc && leb line.vpc spp.pgs_per_line)
    let f' = record f {
      pages = update f.pages i invalid;
      blocks = update f.blocks b (record blk { ipc = blk.ipc + 1; vpc = blk.vpc - 1 });
    }
    let lowered = lower_vpc f' ppa.blk (record line { ipc = line.ipc + 1 })
    ok (if was_full_line then full_to_victim lowered ppa.blk else lowered)
