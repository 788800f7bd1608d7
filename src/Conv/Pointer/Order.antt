-- ===== src/Conv/Pointer/Order.antt =====
-- The order in which a write pointer visits the pages of its line: next_page of conv_ftl.c.
use nvmevirt_pim.Base.{
  ℕ, ◌+◌, ◌-◌, ◌*◌, ◌/◌, ◌%◌, ◌^◌, ◌<◌, ◌≡◌, ◌≢◌, refl, sym, ◌∙◌, ◌==◌, Bool, true, false, not, ltb,
  u32, Returns, normal, Ends-assert, Ends-divisor, Ends-if, arith,
}
use native.Mathlib.Nat.{div-add-mod, mod-lt}
use nvmevirt_pim.Ssd.Params.{SsdParams}
use nvmevirt_pim.Conv.State.{WritePointer}
use nvmevirt_pim.Conv.Geometry.{IsGeometry}
use nvmevirt_pim.Conv.Pointer.{next_page}
use nvmevirt_pim.Conv.Pointer.Rows.{
  div_mod_unique, lt-ltb, test_ne, test_eq, stays, wraps, quotient_lt, not_last, is_last,
  whole_line, next_lun, next_wordline, below,
}

-- A pointer inside its line.
pub record IsPosition (spp : SsdParams) (w : WritePointer) : Type 0 where
  pub pg_lt : w.pg < spp.pgs_per_blk
  pub ch_lt : w.ch < spp.nchs
  pub lun_lt : w.lun < spp.luns_per_ch

-- The number of pages of the line that are written before the pointer.
unfoldable pub offset : SsdParams → WritePointer → ℕ
offset spp w =
    ((w.pg / spp.pgs_per_oneshotpg * spp.luns_per_ch + w.lun) * spp.nchs + w.ch)
      * spp.pgs_per_oneshotpg
    + w.pg % spp.pgs_per_oneshotpg

-- The step of a pointer: to the next page of the line, or off its end.
pub record Advances (spp : SsdParams) (w : WritePointer) (r : WritePointer × Bool) : Type 0 where
  pub position : IsPosition spp r.0
  pub line_same : (r.0.curline ≡ w.curline) × (r.0.blk ≡ w.blk) × (r.0.pl ≡ w.pl)
  pub next : r.1 ≡ false → offset spp r.0 ≡ offset spp w + 1
  pub ended : r.1 ≡ true → (offset spp w + 1 ≡ spp.pgs_per_line) × (offset spp r.0 ≡ 0)

-- The offset of a pointer at page `r` of one-shot page `q`.
offset_at :
    (spp : SsdParams) (w : WritePointer) (q r : ℕ)
    → r < spp.pgs_per_oneshotpg
    → w.pg ≡ spp.pgs_per_oneshotpg * q + r
    → offset spp w ≡ ((q * spp.luns_per_ch + w.lun) * spp.nchs + w.ch) * spp.pgs_per_oneshotpg + r
unfolding offset
offset_at spp w q r lt e =
    let (div, rem) = div_mod_unique w.pg spp.pgs_per_oneshotpg q r lt e in rw (div, rem)

module _ (spp : SsdParams) (geo : IsGeometry spp) where
  -- The pointer after a page, where it stays in its line.
  moved :
      (w w' : WritePointer) (q r : ℕ)
      → r < spp.pgs_per_oneshotpg
      → q < spp.oneshotpgs_per_blk
      → w'.pg ≡ spp.pgs_per_oneshotpg * q + r
      → w'.ch < spp.nchs
      → w'.lun < spp.luns_per_ch
      → (w'.curline ≡ w.curline) × (w'.blk ≡ w.blk) × (w'.pl ≡ w.pl)
      → ((q * spp.luns_per_ch + w'.lun) * spp.nchs + w'.ch) * spp.pgs_per_oneshotpg + r
        ≡ offset spp w + 1
      → Advances spp w (w', false)
  moved w w' q r r_lt q_lt at_pg ch_lt lun_lt same step = record {
    position = record {
      pg_lt = rw (at_pg, geo.blk_oneshots) (below spp.pgs_per_oneshotpg q r _ r_lt q_lt);
      ch_lt = ch_lt;
      lun_lt = lun_lt;
    };
    line_same = same;
    next = λ _. offset_at spp w' q r r_lt at_pg ∙ step;
    ended = λ e. cc e;
  }

  -- From a position inside its line, next_page returns. The new position is inside the line,
  -- of the same line and plane; it has the next number in the order of writing, or, exactly
  -- when it reports the end, the old position was the last page of the line and the new one is
  -- the first.
  pub next_page-Advances :
      (w : WritePointer) → IsPosition spp w → Returns (Advances spp w) (next_page spp w)
  unfolding next_page
  next_page-Advances w v =
      let os = spp.pgs_per_oneshotpg in
      let q = w.pg / os in
      let r = w.pg % os in
      let split : os * q + r ≡ w.pg = div-add-mod w.pg os in
      let r_lt : r < os = mod-lt w.pg {m = os} geo.oneshot_pos in
      let here = offset_at spp w q r r_lt (sym split) in
      let in_blk : w.pg < os * spp.oneshotpgs_per_blk = rw geo.blk_oneshots at v.pg_lt in
      let q_lt = quotient_lt w.pg os q r spp.oneshotpgs_per_blk split in_blk in
      let pg1 : u32 (w.pg + 1) ≡ w.pg + 1 = omega (arith, geo.pg_bits, v.pg_lt) in
      let ch1 : u32 (w.ch + 1) ≡ w.ch + 1 = omega (arith, geo.ch_bits, v.ch_lt) in
      let lun1 : u32 (w.lun + 1) ≡ w.lun + 1 = omega (arith, geo.lun_bits, v.lun_lt) in
      let first = u32 (u32 (w.pg + 1) + 2 ^ 32 - os) in
      Ends-assert (ltb w.pg spp.pgs_per_blk) (lt-ltb v.pg_lt) (
        Ends-divisor os geo.oneshot_pos (
          Ends-if (not ((u32 (w.pg + 1) % os) == 0))
            (λ inside.
              let less = stays w.pg os q r r_lt split (rw pg1 at (test_ne _ 0 inside)) in
              normal (
                moved w (record w { pg = u32 (w.pg + 1) }) q (r + 1) less q_lt
                  (rw pg1 (omega arith)) v.ch_lt v.lun_lt (refl, refl, refl) (omega (arith, here))))
            λ e.
              let full : r + 1 ≡ os = wraps w.pg os q r r_lt split (rw pg1 at (test_eq _ 0 e)) in
              let start : first ≡ os * q + 0 = rw pg1 (omega (arith, geo.pg_bits, v.pg_lt)) in
              Ends-assert (ltb w.ch spp.nchs) (lt-ltb v.ch_lt) (
                Ends-if (not (u32 (w.ch + 1) == spp.nchs))
                  (λ other.
                    let ne : w.ch + 1 ≢ spp.nchs = rw ch1 at (test_ne _ spp.nchs other) in
                    normal (
                      moved w (record w { pg = first; ch = u32 (w.ch + 1) }) q 0 geo.oneshot_pos
                        q_lt start (rw ch1 (omega (arith, v.ch_lt))) v.lun_lt (refl, refl, refl)
                        (rw (ch1, here, ← full) (grind arith))))
                  λ last_ch.
                    let all_ch : w.ch + 1 ≡ spp.nchs = rw ch1 at (test_eq _ spp.nchs last_ch) in
                    Ends-assert (ltb w.lun spp.luns_per_ch) (lt-ltb v.lun_lt) (
                      Ends-if (not (u32 (w.lun + 1) == spp.luns_per_ch))
                        (λ other.
                          let ne : w.lun + 1 ≢ spp.luns_per_ch =
                            rw lun1 at (test_ne _ spp.luns_per_ch other) in
                          normal (
                            moved w (record w { pg = first; ch = 0; lun = u32 (w.lun + 1) }) q 0
                              geo.oneshot_pos q_lt start (omega (arith, v.ch_lt))
                              (rw lun1 (omega (arith, v.lun_lt))) (refl, refl, refl)
                              (rw (lun1, here)
                                (next_lun q spp.luns_per_ch w.lun spp.nchs w.ch os r all_ch full))))
                        λ last_lun.
                          let all_lun : w.lun + 1 ≡ spp.luns_per_ch =
                            rw lun1 at (test_eq _ spp.luns_per_ch last_lun) in
                          let again : u32 (first + os) ≡ os * (q + 1) + 0 =
                            rw start (grind (arith, geo.pg_bits, v.pg_lt)) in
                          let step =
                            next_wordline q spp.luns_per_ch w.lun spp.nchs w.ch os r all_ch all_lun
                              full in
                          Ends-if (not (u32 (first + os) == spp.pgs_per_blk))
                            (λ other.
                              let more : q + 1 < spp.oneshotpgs_per_blk =
                                not_last os q spp.oneshotpgs_per_blk q_lt (
                                  rw (again, geo.blk_oneshots) at
                                    (test_ne (u32 (first + os)) spp.pgs_per_blk other)) in
                              normal (
                                moved w (record w { pg = u32 (first + os); ch = 0; lun = 0 })
                                  (q + 1) 0 geo.oneshot_pos more again (omega (arith, v.ch_lt))
                                  (omega (arith, v.lun_lt)) (refl, refl, refl) (rw here step)))
                            λ end.
                              let last : q + 1 ≡ spp.oneshotpgs_per_blk =
                                is_last os q spp.oneshotpgs_per_blk geo.oneshot_pos q_lt (
                                  rw (again, geo.blk_oneshots) at
                                    (test_eq (u32 (first + os)) spp.pgs_per_blk end)) in
                              normal (record {
                                position = record {
                                  pg_lt = omega (arith, v.pg_lt);
                                  ch_lt = omega (arith, v.ch_lt);
                                  lun_lt = omega (arith, v.lun_lt);
                                };
                                line_same = (refl, refl, refl);
                                next = λ e. cc e;
                                ended = λ _. (
                                  rw (here, geo.line_pages, geo.blk_oneshots)
                                      (sym step
                                        ∙ whole_line q spp.luns_per_ch spp.nchs os
                                            spp.oneshotpgs_per_blk last),
                                  offset_at spp (record w { pg = 0; ch = 0; lun = 0 }) 0 0
                                        geo.oneshot_pos (omega arith)
                                      ∙ omega arith,
                                );
                              })))))
