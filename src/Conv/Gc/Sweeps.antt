-- ===== src/Conv/Gc/Sweeps.antt =====
-- The loops of do_gc over the flash pages, channels and LUNs of a victim line, and its callers.
use nvmevirt_pim.Base.{
  ℕ, zero, suc, ◌+◌, ◌-◌, ◌*◌, ◌%◌, ◌^◌, ◌<◌, ◌≤◌, ◌≡◌, ◌≢◌, ap, subst, ◌==◌, Bool, true, false,
  Bool-cases, inl, inr, Ensures, normal, Ends-bind, Ends-map, arith,
}
use nvmevirt_pim.Ssd.Params.{SsdParams}
use nvmevirt_pim.Ssd.Nand.{Ppa}
use nvmevirt_pim.Conv.State.{ConvFtl, VictimQueue}
use nvmevirt_pim.Conv.Geometry.{IsGeometry, blocks_apart}
use nvmevirt_pim.Conv.Map.{block_index}
use nvmevirt_pim.Conv.Gc.{clean_luns, clean_chs, clean_flashpgs}
use nvmevirt_pim.Conv.Consistent.{tables, Unused}
use nvmevirt_pim.Conv.Consistent.Frames.{Keeps-refl}
use nvmevirt_pim.Conv.Gc.Moves.{IsMapped, Preserves, Preserves-trans, Keeps-Moves}
use nvmevirt_pim.Conv.Gc.Collects.{LunDone, clean_lun-ends}

module _ (cpu_clock : ℕ → ℕ) (pq : VictimQueue) (spp : SsdParams) (geo : IsGeometry spp)
    (v : ℕ) where
  -- The place of page `k` of the victim line's block in LUN `u`, counted over all channels.
  abbrev pub page_of : (u k : ℕ) → ℕ
  page_of u k = (u * spp.blks_per_lun + v) * spp.pgs_per_blk + k

  -- In a round over the pages from `c`, before LUN `u`: the earlier pages of the LUNs ahead are
  -- unused, and those of the round too in the LUNs behind, where they are not erased.
  record Swept (f : ConvFtl pq.Queue) (c u : ℕ) (last : Bool) : Type 0 where
    ahead :
        (w k : ℕ)
        → u ≤ w
        → w < spp.nchs * spp.luns_per_ch
        → k < c
        → Unused spp (tables f) (page_of w k)
    behind :
        last ≡ false
        → (w k : ℕ) → w < u
        → k < c + spp.pgs_per_flashpg
        → Unused spp (tables f) (page_of w k)

  -- The page fits into the block, and the last round ends at its end.
  record Round (c : ℕ) (last : Bool) : Type 0 where
    fits : c + spp.pgs_per_flashpg ≤ spp.pgs_per_blk
    at_end : last ≡ true → c + spp.pgs_per_flashpg ≡ spp.pgs_per_blk

  v_in_lun : v < spp.blks_per_pl → v < spp.blks_per_lun
  v_in_lun lt = rw geo.lun_blks (grind (arith, geo.pls_pos))

  other_lun :
      v < spp.blks_per_pl
      → (u w k j : ℕ) → u ≢ w
      → k < spp.pgs_per_blk
      → j < spp.pgs_per_blk
      → page_of u k ≢ page_of w j
  other_lun v_lt u w k j ne hk hj =
      blocks_apart spp.pgs_per_blk (u * spp.blks_per_lun + v) (w * spp.blks_per_lun + v) k j hk hj
        (blocks_apart spp.blks_per_lun u w v v (v_in_lun v_lt) (v_in_lun v_lt) ne)

  LunDone-Swept :
      (f g : ConvFtl pq.Queue) (p : Ppa) (u : ℕ) (last : Bool)
      → p.blk ≡ v
      → block_index spp p ≡ u * spp.blks_per_lun + v
      → Round p.pg last
      → Swept f p.pg u last
      → LunDone cpu_clock pq spp geo f p last g
      → Swept g p.pg (u + 1) last
  LunDone-Swept f g p u last at_v at_u round swept done =
      let apart : (w k : ℕ)
          → u ≢ w
          → k < spp.pgs_per_blk
          → (j : ℕ) → j < spp.pgs_per_blk
          → block_index spp p * spp.pgs_per_blk + j ≢ page_of w k =
        λ w k ne hk j hj. rw at_u (other_lun (rw at_v at done.in_range) u w j k ne hj hk) in
      record {
        ahead = λ w k le lt small.
            done.outside _ (apart w k (omega arith) (omega (arith, round.fits)))
              (swept.ahead w k (omega arith) lt small);
        behind = λ e w k lt small. elim (Bool-cases (w == u)) [
          | inl same ↦
              let w_u : u ≡ w = ground arith in
              subst (λ (n : ℕ). Unused spp (tables g) (page_of n k)) w_u
                (rw at_u at (done.emptied e k small))
          | inr other ↦
              done.outside _ (apart w k (ground arith) (omega (arith, round.fits)))
                (swept.behind e w k (ground arith) small)
        ];
      }

  lun_in_range :
      (ch lun : ℕ)
      → ch < spp.nchs
      → lun < spp.luns_per_ch
      → ch * spp.luns_per_ch + lun < spp.nchs * spp.luns_per_ch
  lun_in_range ch lun h k = grind arith

  lun_block :
      (p : Ppa) (ch lun : ℕ)
      → p.ch ≡ ch
      → p.blk ≡ v
      → lun < spp.luns_per_ch
      → block_index spp (record p { lun = lun % 2 ^ 8; pl = 0 })
        ≡ (ch * spp.luns_per_ch + lun) * spp.blks_per_lun + v
  unfolding block_index
  lun_block p ch lun at_ch at_v h =
      let same_lun : lun % 2 ^ 8 ≡ lun = omega (arith, geo.lun_bits) in
      rw (at_ch, at_v, same_lun, geo.ch_blks) (grind arith)

  -- The state of a loop: the tables agree, and what was swept.
  record Sweep (f g : ConvFtl pq.Queue) (c u : ℕ) (last : Bool) : Type 0 where
    preserves : Preserves spp f g
    swept : Swept g c u last

  clean_luns-ends :
      (n lun ch : ℕ) (f : ConvFtl pq.Queue) (p : Ppa) (last : Bool)
      → IsMapped spp f
      → lun + n ≡ spp.luns_per_ch
      → ch < spp.nchs
      → p.ch ≡ ch
      → p.blk ≡ v
      → Round p.pg last
      → Swept f p.pg (ch * spp.luns_per_ch + lun) last
      → Ensures
          (λ g. Sweep f g p.pg (ch * spp.luns_per_ch + spp.luns_per_ch) last)
          (clean_luns cpu_clock pq n lun f p last)
  unfolding clean_luns
  clean_luns-ends zero lun ch f p last m total ch_lt at_ch at_v round swept = normal (record {
    preserves = (Keeps-Moves spp m Keeps-refl).preserves;
    swept = subst (λ (n : ℕ). Swept f p.pg (ch * spp.luns_per_ch + n) last) (omega arith) swept;
  })
  clean_luns-ends (suc n) lun ch f p last m total ch_lt at_ch at_v round swept =
      let u = ch * spp.luns_per_ch + lun in
      let q = record p { lun = lun % 2 ^ 8; pl = 0 } in
      let lun_lt : lun < spp.luns_per_ch = omega arith in
      let at_u : block_index spp q ≡ u * spp.blks_per_lun + v =
        lun_block p ch lun at_ch at_v lun_lt in
      Ends-bind
        (clean_lun-ends cpu_clock pq spp geo f q last m round.fits round.at_end
          λ k lt. rw at_u (swept.ahead u k (omega arith) (lun_in_range ch lun ch_lt lun_lt) lt))
        λ g done.
          let swept' = LunDone-Swept f g q u last at_v at_u round swept done in
          Ends-map
            (clean_luns-ends n (lun + 1) ch g p last done.preserves.mapped (omega arith) ch_lt at_ch
              at_v round (subst (λ (n : ℕ). Swept g p.pg n last) (omega arith) swept'))
            λ h more. record {
              preserves = Preserves-trans spp done.preserves more.preserves;
              swept = more.swept;
            }

  clean_chs-ends :
      (n ch : ℕ) (f : ConvFtl pq.Queue) (p : Ppa) (last : Bool)
      → IsMapped spp f
      → ch + n ≡ spp.nchs
      → p.blk ≡ v
      → Round p.pg last
      → Swept f p.pg (ch * spp.luns_per_ch) last
      → Ensures
          (λ g. Sweep f g p.pg (spp.nchs * spp.luns_per_ch) last)
          (clean_chs cpu_clock pq n ch f p last)
  unfolding clean_chs
  clean_chs-ends zero ch f p last m total at_v round swept = normal (record {
    preserves = (Keeps-Moves spp m Keeps-refl).preserves;
    swept = subst (λ (n : ℕ). Swept f p.pg (n * spp.luns_per_ch) last) (omega arith) swept;
  })
  clean_chs-ends (suc n) ch f p last m total at_v round swept =
      let q = record p { ch = ch % 2 ^ 8 } in
      let luns : f.ssd.sp.luns_per_ch ≡ spp.luns_per_ch =
        ap (λ (s : SsdParams). s.luns_per_ch) m.sp_same in
      Ends-bind
        (clean_luns-ends f.ssd.sp.luns_per_ch 0 ch f q last m (omega (arith, luns)) (omega arith)
          (omega (arith, geo.ch_bits)) at_v round
          (subst (λ (u : ℕ). Swept f p.pg u last) (omega arith) swept))
        λ g done.
          Ends-map
            (clean_chs-ends n (ch + 1) g p last done.preserves.mapped (omega arith) at_v round
              (subst (λ (u : ℕ). Swept g p.pg u last) (grind arith) done.swept))
            λ h more. record {
              preserves = Preserves-trans spp done.preserves more.preserves;
              swept = more.swept;
            }

  ==-eq : (a b : ℕ) → (a == b) ≡ true → a ≡ b
  ==-eq a b h = ground arith

  round_fits :
      (fp n : ℕ)
      → fp + suc n ≡ spp.flashpgs_per_blk
      → fp * spp.pgs_per_flashpg + spp.pgs_per_flashpg ≤ spp.pgs_per_blk
  round_fits fp n total = rw (geo.blk_flashpgs, ← total) (grind arith)

  round_end :
      (fp : ℕ)
      → fp ≡ spp.flashpgs_per_blk - 1
      → fp < spp.flashpgs_per_blk
      → fp * spp.pgs_per_flashpg + spp.pgs_per_flashpg ≡ spp.pgs_per_blk
  round_end fp e lt =
      let total : spp.flashpgs_per_blk ≡ fp + 1 = omega arith in
      rw (geo.blk_flashpgs, total) (grind arith)

  clean_flashpgs-none :
      (n fp : ℕ) (f : ConvFtl pq.Queue) (p : Ppa)
      → IsMapped spp f
      → n ≡ 0
      → Ensures (Preserves spp f) (clean_flashpgs cpu_clock pq n fp f p)
  unfolding clean_flashpgs
  clean_flashpgs-none zero fp f p m e = normal ((Keeps-Moves spp m Keeps-refl).preserves)
  clean_flashpgs-none (suc n) fp f p m e = absurd (omega arith)

  -- The rounds from flash page `fp` on.
  pub clean_flashpgs-Preserves :
      (n fp : ℕ) (f : ConvFtl pq.Queue) (p : Ppa)
      → IsMapped spp f
      → fp + n ≡ spp.flashpgs_per_blk
      → p.blk ≡ v
      → ((w k : ℕ)
          → w < spp.nchs * spp.luns_per_ch
          → k < fp * spp.pgs_per_flashpg
          → Unused spp (tables f) (page_of w k))
      → Ensures (Preserves spp f) (clean_flashpgs cpu_clock pq n fp f p)
  unfolding clean_flashpgs
  clean_flashpgs-Preserves zero fp f p m total at_v clean =
      normal ((Keeps-Moves spp m Keeps-refl).preserves)
  clean_flashpgs-Preserves (suc n) fp f p m total at_v clean =
      let fpp = spp.pgs_per_flashpg in
      let last = fp == (f.ssd.sp.flashpgs_per_blk - 1) in
      let q = record p { pg = fp * f.ssd.sp.pgs_per_flashpg % 2 ^ 16 } in
      let size : f.ssd.sp.pgs_per_flashpg ≡ fpp =
        ap (λ (s : SsdParams). s.pgs_per_flashpg) m.sp_same in
      let rounds : f.ssd.sp.flashpgs_per_blk ≡ spp.flashpgs_per_blk =
        ap (λ (s : SsdParams). s.flashpgs_per_blk) m.sp_same in
      let chs : f.ssd.sp.nchs ≡ spp.nchs = ap (λ (s : SsdParams). s.nchs) m.sp_same in
      let next_lt : fp * fpp + fpp ≤ spp.pgs_per_blk = round_fits fp n total in
      let at_pg : q.pg ≡ fp * fpp = rw size (omega (arith, geo.pg_bits)) in
      let round : Round q.pg last = record {
        fits = rw at_pg next_lt;
        at_end = λ e. rw at_pg (round_end fp (rw rounds at (==-eq fp _ e)) (omega arith));
      } in
      Ends-bind
        (clean_chs-ends f.ssd.sp.nchs 0 f q last m (omega (arith, chs)) at_v round (record {
          ahead = λ w k _ lt small. clean w k lt (rw at_pg at small);
          behind = λ _ w k lt small. absurd (omega arith);
        }))
        λ g done. elim (Bool-cases last) [
          | inl e ↦
              Ends-map
                (clean_flashpgs-none n (fp + 1) g p done.preserves.mapped
                  (omega (arith, rw rounds at (==-eq fp _ e))))
                λ h more. Preserves-trans spp done.preserves more
          | inr e ↦
              Ends-map
                (clean_flashpgs-Preserves n (fp + 1) g p done.preserves.mapped (omega arith) at_v
                  λ w k lt small. done.swept.behind e w k lt (rw at_pg (grind arith)))
                λ h more. Preserves-trans spp done.preserves more
        ]
