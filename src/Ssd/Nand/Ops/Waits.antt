-- ===== src/Ssd/Nand/Ops/Waits.antt =====
-- About ssd_advance_nand of ssd.c: the switch over the commands.
use nvmevirt_pim.Base.{
  ℕ, ◌+◌, ◌*◌, ◌/◌, ◌%◌, ◌^◌, ◌≤◌, ◌<◌, ◌≡◌, ◌≢◌, refl, sym, ◌∙◌, ap, subst, max, ◌==◌, ◌⊎◌,
  get_elem?, some, if◌then◌else◌, Ensures, normal, stopped, at_undefined, Ends-bind, Ends-if,
  Ends-map, Ensures-entry, divisor-Ensures, entry-Ensures, u64, arith,
}
use nvmevirt_pim.Ssd.Params.{SsdParams}
use nvmevirt_pim.Ssd.Channel.Ends.{max_latency}
use nvmevirt_pim.Ssd.Nand.{
  Ppa, NandOp, nand_read, nand_write, nand_erase, nand_nop, unsupported, NandCmd, Ssd,
}
use nvmevirt_pim.Ssd.Nand.Ops.{get_lun, get_cell, by_cell, perform}
use nvmevirt_pim.Ssd.Nand.Ops.Times.{
  time_of, lun_of, lun_time, SameTimes, OneTime, set_lun_time-OneTime,
}
use nvmevirt_pim.Ssd.Nand.Ops.Pieces.{Pieces, OneTime-after, advance_channel-Moved, transfer-Pieces}

-- A time for each type of cell, and the one of the cell that `ppa` is in.
abbrev pub cell_time : (lsb msb csb cell : ℕ) → ℕ
cell_time lsb msb csb cell = if cell == 0 then lsb else if cell == 1 then msb else csb

abbrev pub cell_of : SsdParams → Ppa → ℕ
cell_of spp ppa = ppa.pg / spp.pgs_per_flashpg % spp.cell_mode

-- How long the cells are busy with a command.
unfoldable pub media_time : SsdParams → NandOp → (xfer_size : ℕ) → Ppa → ℕ
media_time spp nand_read xfer_size ppa =
    if xfer_size == 4096
    then cell_time spp.pg_4kb_rd_lat_lsb spp.pg_4kb_rd_lat_msb spp.pg_4kb_rd_lat_csb
        (cell_of spp ppa)
    else cell_time spp.pg_rd_lat_lsb spp.pg_rd_lat_msb spp.pg_rd_lat_csb (cell_of spp ppa)
media_time spp nand_write xfer_size ppa = spp.pg_wr_lat
media_time spp nand_erase xfer_size ppa = spp.blk_er_lat
media_time spp nand_nop xfer_size ppa = 0
media_time spp unsupported xfer_size ppa = 0

-- When a command is issued: at its start time, or now.
abbrev pub issue_time : (ℕ → ℕ) → Ssd → NandCmd → ℕ
issue_time cpu_clock ssd ncmd = if ncmd.stime == 0 then cpu_clock ssd.clock_reads else ncmd.stime

-- A command on the LUN of its page, which was free at the time `old`: it starts when it is issued and
-- the LUN is free, keeps the LUN for the time of the cells and of the transfer, and completes then,
-- or after the transfer to the host.
pub record Waited (ssd : Ssd) (op : NandOp) (ncmd : NandCmd) (start old : ℕ) (r : ℕ × Ssd)
    : Type 0 where
  pub freed : ℕ
  pub one : OneTime ssd r.1 ncmd.ppa freed
  pub waits : max old start + media_time ssd.sp op ncmd.xfer_size ncmd.ppa ≤ freed
  pub completed : freed ≤ r.0
  pub at_once : op ≢ nand_read → r.0 ≡ freed
  pub exact :
      (op ≡ nand_erase) ⊎ (op ≡ nand_nop)
      → r.0 ≡ max old start + media_time ssd.sp op ncmd.xfer_size ncmd.ppa
  pub soon :
      r.0
      ≤ max old start
        + media_time ssd.sp op ncmd.xfer_size ncmd.ppa
        + (ncmd.xfer_size + 1) * max_latency

by_cell-time :
    (lsb msb csb cell : ℕ)
    → Ensures (λ t. t ≡ cell_time lsb msb csb cell) (by_cell lsb msb csb cell)
unfolding by_cell
by_cell-time lsb msb csb cell =
    Ends-if (cell == 0) (λ e. normal (rw e refl))
      λ n0.
        Ends-if (cell == 1) (λ e. normal (rw (n0, e) refl))
          λ n1. Ends-if (cell == 2) (λ _. normal (rw (n0, n1) refl)) λ _. stopped at_undefined

pub get_lun-time :
    (ssd : Ssd) (ppa : Ppa) (old : ℕ)
    → lun_time ssd ppa.ch ppa.lun ≡ some old
    → Ensures (λ l. l.next_lun_avail_time ≡ old) (get_lun ssd ppa)
unfolding get_lun lun_time lun_of time_of
get_lun-time ssd ppa old at = Ensures-entry (get_elem? ssd.channels ppa.ch) λ ch e.
    Ends-map (entry-Ensures (get_elem? ch.luns ppa.lun)) λ l e'.
      let q : some l.next_lun_avail_time ≡ some old =
        sym (ap time_of e') ∙ (sym (ap (λ o. lun_of o ppa.lun) e) ∙ at) in
      ground arith

pub get_cell-cell_of :
    (spp : SsdParams) (ppa : Ppa) → Ensures (λ c. c ≡ cell_of spp ppa) (get_cell spp ppa)
unfolding get_cell
get_cell-cell_of spp ppa =
    Ends-bind (divisor-Ensures spp.pgs_per_flashpg)
      λ _ _. Ends-bind (divisor-Ensures spp.cell_mode) λ _ _. normal refl

latency-time :
    (spp : SsdParams) (xfer_size : ℕ) (ppa : Ppa) (cell : ℕ)
    → cell ≡ cell_of spp ppa
    → Ensures
        (λ t. t ≡ media_time spp nand_read xfer_size ppa)
        (if xfer_size == 4096
          then by_cell spp.pg_4kb_rd_lat_lsb spp.pg_4kb_rd_lat_msb spp.pg_4kb_rd_lat_csb cell
          else by_cell spp.pg_rd_lat_lsb spp.pg_rd_lat_msb spp.pg_rd_lat_csb cell)
unfolding media_time
latency-time spp xfer_size ppa cell e =
    Ends-if (xfer_size == 4096)
      (λ small. Ends-map (by_cell-time _ _ _ cell) λ t q. rw (small, sym e) q)
      λ large. Ends-map (by_cell-time _ _ _ cell) λ t q. rw (large, sym e) q

-- What is known of the SSD after a change that keeps the times.
pub Waited-after :
    (a b : Ssd) (op : NandOp) (ncmd : NandCmd) (start old : ℕ) (r : ℕ × Ssd)
    → SameTimes a b
    → Waited b op ncmd start old r
    → Waited a op ncmd start old r
Waited-after a b op ncmd start old r p w = record {
  freed = w.freed;
  one = OneTime-after a b r.1 ncmd.ppa w.freed p w.one;
  waits =
      subst (λ sp. max old start + media_time sp op ncmd.xfer_size ncmd.ppa ≤ w.freed) p.sp_same
        w.waits;
  completed = w.completed;
  at_once = w.at_once;
  exact = λ o.
      subst (λ sp. r.0 ≡ max old start + media_time sp op ncmd.xfer_size ncmd.ppa) p.sp_same
        (w.exact o);
  soon =
      subst
        (λ sp.
          r.0
          ≤ max old start
            + media_time sp op ncmd.xfer_size ncmd.ppa
            + (ncmd.xfer_size + 1) * max_latency)
        p.sp_same w.soon;
}

module _ (cpu_clock : ℕ → ℕ) where
  pub perform-Waited :
      (op : NandOp) (ssd : Ssd) (ncmd : NandCmd) (old cell start : ℕ)
      → op ≢ unsupported
      → cell ≡ cell_of ssd.sp ncmd.ppa
      → lun_time ssd ncmd.ppa.ch ncmd.ppa.lun ≡ some old
      → 0 < ssd.sp.max_ch_xfer_size
      → max old start
          + media_time ssd.sp op ncmd.xfer_size ncmd.ppa
          + (ncmd.xfer_size + 1) * max_latency
        < 2 ^ 64
      → Ensures (Waited ssd op ncmd start old) (perform cpu_clock op ssd ncmd old cell start)
  unfolding perform media_time
  perform-Waited nand_read ssd ncmd old cell start known c at m w =
      Ends-bind (latency-time ssd.sp ncmd.xfer_size ncmd.ppa cell c) λ latency e.
        let nand_etime = u64 (max old start + latency) in
        Ends-bind {P = Pieces ssd nand_etime ncmd.xfer_size}
          (Ends-if (ncmd.xfer_size == 0) (λ _. stopped at_undefined)
            λ some_bytes.
              transfer-Pieces cpu_clock ncmd.xfer_size ssd ncmd.ppa.ch ncmd.interleave_pci_dma
                nand_etime ncmd.xfer_size m (ground arith) (omega arith) (omega (arith, e, w)))
          λ (etime, completed, ssd') s.
            Ends-bind (set_lun_time-OneTime ssd' ncmd.ppa etime old (s.same.times _ _ ∙ at))
              λ ssd'' o. normal (record {
                freed = etime;
                one = OneTime-after ssd ssd' ssd'' ncmd.ppa etime s.same o;
                waits = omega (arith, e, w, s.after);
                completed = s.completed_after;
                at_once = λ n. absurd (n refl);
                exact = λ o'. absurd (ground arith);
                soon = omega (arith, e, w, s.soon, s.completed_soon);
              })
  perform-Waited nand_write ssd ncmd old cell start known c at m w =
      Ends-bind
        (advance_channel-Moved cpu_clock ssd ncmd.ppa.ch (max old start) ncmd.xfer_size
          (omega (arith, w)))
        λ (etime, ssd') s.
          Ends-bind
            (set_lun_time-OneTime ssd' ncmd.ppa (u64 (etime + ssd.sp.pg_wr_lat)) old
              (s.same.times _ _ ∙ at))
            λ ssd'' o. normal (record {
              freed = u64 (etime + ssd.sp.pg_wr_lat);
              one = OneTime-after ssd ssd' ssd'' ncmd.ppa _ s.same o;
              waits = omega (arith, w, s.after, s.soon);
              completed = omega arith;
              at_once = λ n. refl;
              exact = λ o'. absurd (ground arith);
              soon = omega (arith, w, s.after, s.soon);
            })
  perform-Waited nand_erase ssd ncmd old cell start known c at m w =
      Ends-bind (set_lun_time-OneTime ssd ncmd.ppa _ old at) λ ssd' o. normal (record {
        freed = u64 (max old start + ssd.sp.blk_er_lat);
        one = o;
        waits = omega (arith, w);
        completed = omega arith;
        at_once = λ n. refl;
        exact = λ o'. omega (arith, w);
        soon = omega (arith, w);
      })
  perform-Waited nand_nop ssd ncmd old cell start known c at m w =
      Ends-bind (set_lun_time-OneTime ssd ncmd.ppa _ old at) λ ssd' o. normal (record {
        freed = max old start;
        one = o;
        waits = omega (arith, w);
        completed = omega arith;
        at_once = λ n. refl;
        exact = λ o'. omega (arith, w);
        soon = omega (arith, w);
      })
  perform-Waited unsupported ssd ncmd old cell start known c at m w = absurd (known refl)
