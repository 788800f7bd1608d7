-- ===== src/Ssd/Nand/Ops/Pieces.antt =====
-- About the transfers of ssd.c over the channels and the PCIe link: when they are done.
use nvmevirt_pim.Base.{
  ℕ, zero, suc, ◌+◌, ◌-◌, ◌*◌, ◌^◌, ◌≤◌, ◌<◌, refl, ◌∙◌, min, Bool, true, false, ◌==◌, get_elem?,
  Ensures, normal, Ends-bind, Ends-if, Ends-map, Ensures-entry, arith,
}
use nvmevirt_pim.Ssd.Channel.Ends.{max_latency, chmodel_request-Scheduled}
use nvmevirt_pim.Ssd.Nand.{Ppa, Ssd}
use nvmevirt_pim.Ssd.Nand.Ops.{ssd_advance_pcie, advance_channel, piece_completed, transfer}
use nvmevirt_pim.Ssd.Nand.Ops.Times.{lun_time, SameTimes, OneTime, lun_of-same}

-- A transfer that was asked for at `stime`.
pub record Moved (ssd : Ssd) (stime : ℕ) (r : ℕ × Ssd) : Type 0 where
  pub same : SameTimes ssd r.1
  pub after : stime ≤ r.0
  pub soon : r.0 ≤ stime + max_latency

-- The pieces of `size` bytes: over the channel, the last of them by `r.0`, and then to the host.
pub record Pieces (ssd : Ssd) (stime size : ℕ) (r : ℕ × ℕ × Ssd) : Type 0 where
  pub same : SameTimes ssd r.2
  pub after : stime ≤ r.0
  pub soon : r.0 ≤ stime + size * max_latency
  pub completed_after : r.0 ≤ r.1
  pub completed_soon : r.1 ≤ r.0 + max_latency

pub SameTimes-trans : (a b c : Ssd) → SameTimes a b → SameTimes b c → SameTimes a c
SameTimes-trans a b c p q = record {
  sp_same = q.sp_same ∙ p.sp_same;
  times = λ ch lun. q.times ch lun ∙ p.times ch lun;
}

pub OneTime-after :
    (a b c : Ssd) (ppa : Ppa) (t : ℕ) → SameTimes a b → OneTime b c ppa t → OneTime a c ppa t
OneTime-after a b c ppa t p q = record {
  sp_same = q.sp_same ∙ p.sp_same;
  own = q.own;
  others = λ ch lun o. q.others ch lun o ∙ p.times ch lun;
}

module _ (cpu_clock : ℕ → ℕ) where
  ssd_advance_pcie-Moved :
      (ssd : Ssd) (stime size : ℕ)
      → stime + max_latency < 2 ^ 64
      → Ensures (Moved ssd stime) (ssd_advance_pcie cpu_clock ssd stime size)
  unfolding ssd_advance_pcie lun_time
  ssd_advance_pcie-Moved ssd stime size w =
      Ends-bind (chmodel_request-Scheduled ssd.pcie (cpu_clock ssd.clock_reads) stime size w)
        λ (t, model) s. normal (record {
          same = record { sp_same = refl; times = λ ch lun. refl };
          after = s.not_before;
          soon = s.not_late;
        })

  pub advance_channel-Moved :
      (ssd : Ssd) (c stime size : ℕ)
      → stime + max_latency < 2 ^ 64
      → Ensures (Moved ssd stime) (advance_channel cpu_clock ssd c stime size)
  unfolding advance_channel lun_time
  advance_channel-Moved ssd c stime size w = Ensures-entry (get_elem? ssd.channels c) λ ch e.
      Ends-bind (chmodel_request-Scheduled ch.perf_model (cpu_clock ssd.clock_reads) stime size w)
        λ (t, model) s. normal (record {
          same = record {
            sp_same = refl;
            times = λ c' lun. lun_of-same ssd.channels c _ ch c' lun e refl;
          };
          after = s.not_before;
          soon = s.not_late;
        })

  piece_completed-Moved :
      (ssd : Ssd) (interleave : Bool) (etime size : ℕ)
      → etime + max_latency < 2 ^ 64
      → Ensures (Moved ssd etime) (piece_completed cpu_clock ssd interleave etime size)
  unfolding piece_completed
  piece_completed-Moved ssd true etime size w = ssd_advance_pcie-Moved ssd etime size w
  piece_completed-Moved ssd false etime size w = normal (record {
    same = record { sp_same = refl; times = λ ch lun. refl };
    after = omega arith;
    soon = omega arith;
  })

  pub transfer-Pieces :
      (fuel : ℕ) (ssd : Ssd) (c : ℕ) (interleave : Bool) (stime remaining : ℕ)
      → 0 < ssd.sp.max_ch_xfer_size
      → 0 < remaining
      → remaining ≤ fuel
      → stime + (remaining + 1) * max_latency < 2 ^ 64
      → Ensures
          (Pieces ssd stime remaining)
          (transfer cpu_clock fuel ssd c interleave stime remaining)
  unfolding transfer
  transfer-Pieces zero ssd c interleave stime remaining m pos h w = absurd (omega arith)
  transfer-Pieces (suc fuel) ssd c interleave stime remaining m pos h w =
      let size = min remaining ssd.sp.max_ch_xfer_size in
      Ends-bind (advance_channel-Moved ssd c stime size (omega arith)) λ (etime, ssd1) p.
        Ends-bind (piece_completed-Moved ssd1 interleave etime size (omega (arith, p.soon)))
          λ (completed, ssd2) q.
            let same = SameTimes-trans ssd ssd1 ssd2 p.same q.same in
            Ends-if ((remaining - size) == 0)
              (λ _. normal (record {
                same = same;
                after = p.after;
                soon = omega (arith, p.soon);
                completed_after = q.after;
                completed_soon = q.soon;
              }))
              λ more.
                Ends-map
                  (transfer-Pieces fuel ssd2 c interleave etime (remaining - size)
                    (rw same.sp_same m) (ground arith) (ground arith) (omega (arith, p.soon)))
                  λ r s. record {
                    same = SameTimes-trans ssd ssd2 r.2 same s.same;
                    after = omega (arith, p.after, s.after);
                    soon = omega (arith, p.soon, s.soon);
                    completed_after = s.completed_after;
                    completed_soon = s.completed_soon;
                  }
