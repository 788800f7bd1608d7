-- ===== src/Ssd/Nand/Ops/Answers.antt =====
-- About ssd_advance_nand of ssd.c: how long a command keeps its LUN, and when it completes.
use nvmevirt_pim.Base.{
  ℕ, ◌+◌, ◌*◌, ◌^◌, ◌<◌, ◌≡◌, ◌≢◌, refl, sym, ◌∙◌, subst, max, true, false, ◌==◌, ◌⊎◌, inl, inr,
  some, Bool-cases, Ensures, normal, Ends-bind, Ends-if, Ends-map, arith,
}
use nvmevirt_pim.Ssd.Params.{SsdParams}
use nvmevirt_pim.Ssd.Channel.Ends.{max_latency}
use nvmevirt_pim.Ssd.Nand.{
  is_unmapped, NandOp, nand_read, nand_write, nand_erase, nand_nop, unsupported, NandCmd, Ssd,
}
use nvmevirt_pim.Ssd.Nand.Ops.{perform, start_time, ssd_advance_nand}
use nvmevirt_pim.Ssd.Nand.Ops.Times.{lun_time, SameTimes}
use nvmevirt_pim.Ssd.Nand.Ops.Waits.{
  cell_of, media_time, issue_time, Waited, get_lun-time, get_cell-cell_of, Waited-after,
  perform-Waited,
}

-- What ssd_advance_nand answers: the issue time at once for a page that is not mapped, 0 for a
-- command that it does not know, and otherwise when the command is done.
pub data Answer (ssd : Ssd) (ncmd : NandCmd) (start old : ℕ) (r : ℕ × Ssd) : Type 0 where
  unmapped :
      is_unmapped ncmd.ppa ≡ true → r.0 ≡ start → SameTimes ssd r.1 → Answer ssd ncmd start old r
  unknown :
      is_unmapped ncmd.ppa ≡ false
      → ncmd.cmd ≡ unsupported
      → r.0 ≡ 0
      → SameTimes ssd r.1
      → Answer ssd ncmd start old r
  served :
      is_unmapped ncmd.ppa ≡ false
      → ncmd.cmd ≢ unsupported
      → Waited ssd ncmd.cmd ncmd start old r
      → Answer ssd ncmd start old r

module _ (cpu_clock : ℕ → ℕ) where
  start_time-issued :
      (ssd : Ssd) (ncmd : NandCmd)
      → ((start_time cpu_clock ssd ncmd.stime).0 ≡ issue_time cpu_clock ssd ncmd)
        × SameTimes ssd (start_time cpu_clock ssd ncmd.stime).1
  unfolding start_time lun_time
  start_time-issued ssd ncmd = elim (Bool-cases (ncmd.stime == 0)) [
    | inl now ↦ rw now (refl, record { sp_same = refl; times = λ ch lun. refl })
    | inr later ↦ rw later (refl, record { sp_same = refl; times = λ ch lun. refl })
  ]

  unsupported-or_known : (op : NandOp) → (op ≡ unsupported) ⊎ (op ≢ unsupported)
  unsupported-or_known nand_read = inr (λ e. absurd (ground arith))
  unsupported-or_known nand_write = inr (λ e. absurd (ground arith))
  unsupported-or_known nand_erase = inr (λ e. absurd (ground arith))
  unsupported-or_known nand_nop = inr (λ e. absurd (ground arith))
  unsupported-or_known unsupported = inl refl

  perform-unknown :
      (op : NandOp) (ssd : Ssd) (ncmd : NandCmd) (old cell start : ℕ)
      → op ≡ unsupported
      → Ensures (λ r. (r.0 ≡ 0) × (r.1 ≡ ssd)) (perform cpu_clock op ssd ncmd old cell start)
  unfolding perform
  perform-unknown op ssd ncmd old cell start e = rw e (normal (refl, refl))

  -- The switch, on the SSD after the clock was read.
  perform-Answer :
      (ssd ssd' : Ssd) (ncmd : NandCmd) (old cell start : ℕ)
      → SameTimes ssd ssd'
      → is_unmapped ncmd.ppa ≡ false
      → cell ≡ cell_of ssd'.sp ncmd.ppa
      → lun_time ssd ncmd.ppa.ch ncmd.ppa.lun ≡ some old
      → 0 < ssd.sp.max_ch_xfer_size
      → max old start
          + media_time ssd.sp ncmd.cmd ncmd.xfer_size ncmd.ppa
          + (ncmd.xfer_size + 1) * max_latency
        < 2 ^ 64
      → Ensures (Answer ssd ncmd start old) (perform cpu_clock ncmd.cmd ssd' ncmd old cell start)
  perform-Answer ssd ssd' ncmd old cell start same mapped c at m w =
      elim (unsupported-or_known ncmd.cmd) [
        | inl e ↦
            Ends-map (perform-unknown ncmd.cmd ssd' ncmd old cell start e)
              λ r (zero_time, e'). unknown mapped e zero_time (subst (SameTimes ssd) (sym e') same)
        | inr n ↦
            Ends-map
              (perform-Waited cpu_clock ncmd.cmd ssd' ncmd old cell start n c (same.times _ _ ∙ at)
                (subst (λ (sp : SsdParams). 0 < sp.max_ch_xfer_size) (sym same.sp_same) m)
                (subst
                  (λ sp.
                    max old start
                      + media_time sp ncmd.cmd ncmd.xfer_size ncmd.ppa
                      + (ncmd.xfer_size + 1) * max_latency
                    < 2 ^ 64)
                  (sym same.sp_same) w))
              λ r w'. served mapped n (Waited-after ssd ssd' ncmd.cmd ncmd start old r same w')
      ]

  -- On a LUN that was free at the time `old`, a NAND command ends, if the channel transfers at
  -- least one byte at a time and the times leave room in 64 bits for one latency of the
  -- bandwidth model per byte and one more. If it ends normally, then a page that is not mapped
  -- is answered with the issue time and an unknown command with 0, and no LUN has another
  -- time. Any other command waits until it is issued and the LUN is free, keeps the LUN for
  -- the time of the cells at least, and completes not before the LUN is free again and within
  -- that room, an erase and a no-operation exactly after the time of the cells, and all but a
  -- read when the LUN is free; no other LUN has another time.
  pub ssd_advance_nand-Answer :
      (ssd : Ssd) (ncmd : NandCmd) (old : ℕ)
      → lun_time ssd ncmd.ppa.ch ncmd.ppa.lun ≡ some old
      → 0 < ssd.sp.max_ch_xfer_size
      → max old (issue_time cpu_clock ssd ncmd)
          + media_time ssd.sp ncmd.cmd ncmd.xfer_size ncmd.ppa
          + (ncmd.xfer_size + 1) * max_latency
        < 2 ^ 64
      → Ensures
          (Answer ssd ncmd (issue_time cpu_clock ssd ncmd) old)
          (ssd_advance_nand cpu_clock ssd ncmd)
  unfolding ssd_advance_nand
  ssd_advance_nand-Answer ssd ncmd old at m w =
      let started = start_time cpu_clock ssd ncmd.stime in
      let (issued, same) = start_time-issued ssd ncmd in
      Ends-if (is_unmapped ncmd.ppa) (λ e. normal (unmapped e issued same))
        λ mapped. Ends-bind (get_lun-time started.1 ncmd.ppa old (same.times _ _ ∙ at)) λ lun free.
          Ends-bind (get_cell-cell_of started.1.sp ncmd.ppa) λ cell c.
            let issue = issue_time cpu_clock ssd ncmd in
            let answer = perform-Answer ssd started.1 ncmd old cell issue same mapped c at m w in
            subst
              (λ t.
                Ensures (Answer ssd ncmd issue old)
                  (perform cpu_clock ncmd.cmd started.1 ncmd lun.next_lun_avail_time cell t))
              (sym issued)
              (subst
                (λ t.
                  Ensures (Answer ssd ncmd issue old)
                    (perform cpu_clock ncmd.cmd started.1 ncmd t cell issue))
                (sym free) answer)
