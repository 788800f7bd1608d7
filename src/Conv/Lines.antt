-- ===== src/Conv/Lines.antt =====
-- The lists of lines of conv_ftl.c, the tests for garbage collection and the write credits.
use nvmevirt_pim.Base.{
  ℕ, zero, suc, ◌+◌, ◌/◌, Bool, not, ◌&&◌, leb, ltb, ◌==◌, List, [], ◌∷◌, ◌++◌, Option, some, none,
  if◌then◌else◌, Run, ok, fault, undefined, ◌>>◌, assert, sub32, u32,
}
use nvmevirt_pim.Conv.State.{ConvFtl, VictimQueue}

module _ {Q : Type 0} where
  unfoldable pub should_gc_high : ConvFtl Q → Bool
  should_gc_high f = leb f.free_line_cnt f.cp.gc_thres_lines_high

  unfoldable pub should_gc : ConvFtl Q → Bool
  should_gc f = leb f.free_line_cnt f.cp.gc_thres_lines

  -- `write_credits` is a uint32_t.
  unfoldable pub consume_write_credit : ConvFtl Q → ConvFtl Q
  consume_write_credit f = record f { write_credits = sub32 f.write_credits 1 }

  -- get_next_free_line, for the free list: `none` is the NULL that the code returns after "No free
  -- line left".
  unfoldable pub first_free : List ℕ → ConvFtl Q → Option ℕ × ConvFtl Q
  first_free [] f = (none, f)
  first_free (line ∷ rest) f =
      (some line, record f { free_line_list = rest; free_line_cnt = sub32 f.free_line_cnt 1 })

  unfoldable pub get_next_free_line : ConvFtl Q → Option ℕ × ConvFtl Q
  unfolding first_free
  get_next_free_line f = first_free f.free_line_list f

  -- The line at the end of the free list: mark_line_free, where ppa->g.blk is the line.
  unfoldable pub mark_line_free : ConvFtl Q → ℕ → Run (ConvFtl Q)
  mark_line_free f id =
      if ltb id f.tt_lines
      then ok (record f {
        lines = λ i. if i == id then record (f.lines i) { ipc = 0; vpc = 0 } else f.lines i;
        free_line_list = f.free_line_list ++ id ∷ [];
        free_line_cnt = u32 (f.free_line_cnt + 1);
      })
      else fault undefined

  unfoldable pub init_write_flow_control : ConvFtl Q → ConvFtl Q
  init_write_flow_control f = record f {
    write_credits = u32 f.ssd.sp.pgs_per_line;
    credits_to_refill = u32 f.ssd.sp.pgs_per_line;
  }

-- The indices from `i`, `n` of them: the free list that init_lines builds.
unfoldable pub indices : (i n : ℕ) → List ℕ
indices i zero = []
indices i (suc n) = i ∷ indices (i + 1) n

module _ (pq : VictimQueue) where
  unfoldable pub init_lines : ConvFtl pq.Queue → Run (ConvFtl pq.Queue)
  unfolding indices
  init_lines f = do
    let spp = f.ssd.sp
    let tt_lines = u32 spp.blks_per_pl
    assert (tt_lines == spp.tt_lines)
    ok (record f {
      tt_lines = tt_lines;
      lines = λ i. record { ipc = 0; vpc = 0; pos = 0 };
      free_line_list = indices 0 tt_lines;
      victim_line_pq = pq.pqueue_init spp.tt_lines;
      full_line_list = [];
      free_line_cnt = tt_lines;
      victim_line_cnt = 0;
      full_line_cnt = 0;
    })

  -- Line `v` leaves the queue.
  unfoldable pub pop_victim : ConvFtl pq.Queue → (v : ℕ) → ConvFtl pq.Queue
  pop_victim f v =
      let (queue, lines) = pq.pqueue_pop f.victim_line_pq f.lines in
      record f {
        victim_line_pq = queue;
        lines = λ i. if i == v then record (lines i) { pos = 0 } else lines i;
        victim_line_cnt = sub32 f.victim_line_cnt 1;
      }

  -- select_victim_line, for what pqueue_peek gave: the result is NULL where no line is a victim, or
  -- the best one has too many valid pages.
  unfoldable pub select_peeked :
      Option ℕ → ConvFtl pq.Queue → (force : Bool) → Option ℕ × ConvFtl pq.Queue
  unfolding pop_victim
  select_peeked none f force = (none, f)
  select_peeked (some v) f force =
      if not force && ltb (f.ssd.sp.pgs_per_line / 8) (f.lines v).vpc
      then (none, f)
      else (some v, pop_victim f v)

  unfoldable pub select_victim_line :
      ConvFtl pq.Queue → (force : Bool) → Option ℕ × ConvFtl pq.Queue
  unfolding select_peeked
  select_victim_line f force = select_peeked (pq.pqueue_peek f.victim_line_pq) f force
