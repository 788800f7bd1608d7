-- ===== src/Conv/Read/Keeps.antt =====
-- What a read command leaves: conv_read of conv_ftl.c.
use nvmevirt_pim.Base.{
  ℕ, zero, suc, ◌+◌, ◌-◌, ◌/◌, ◌%◌, ◌^◌, ◌<◌, ◌≤◌, ◌≡◌, refl, ◌∙◌, true, leb, ltb, ◌&&◌, u64, sub64,
  Ensures, normal, Ends-if, Ends-bind, Ends-map, divisor-Ensures, Ensures-divisor, arith,
}
use native.Mathlib.Nat.{div-add-mod}
use nvmevirt_pim.Ssd.Params.{SsdParams}
use nvmevirt_pim.Ssd.Nand.{Ppa}
use nvmevirt_pim.Ssd.Nand.Ops.Ends.{ssd_advance_nand-ends}
use nvmevirt_pim.Zns.State.{Request, Result}
use nvmevirt_pim.Conv.Geometry.{IsGeometry}
use nvmevirt_pim.Conv.Map.{get_maptbl_ent, mapped_ppa, valid_ppa, is_same_flash_page}
use nvmevirt_pim.Conv.Namespace.{ConvNamespace}
use nvmevirt_pim.Conv.Namespace.Parts.{
  AllMapped, IsPart-IsMapped, part-ends, Same, Same-trans, Same-refl, set_part-Same,
}
use nvmevirt_pim.Conv.Consistent.Frames.{Keeps, Keeps-refl, Keeps-trans}
use nvmevirt_pim.Conv.Install.Ends.{at-ends}
use nvmevirt_pim.Conv.Read.{
  ReadState, ConvReply, start_lpn, end_lpn, issue, read_page, read_own_pages, read_part, read_parts,
  conv_read,
}

is_same_flash_page-ends :
    (spp : SsdParams) (p q : Ppa) → Ensures (λ _. Unit {0}) (is_same_flash_page spp p q)
unfolding is_same_flash_page
is_same_flash_page-ends spp p q = Ends-bind (divisor-Ensures spp.pgs_per_flashpg) λ _ _. normal tt

half-lt : (m s : ℕ) → m < 2 ^ 64 → 2 ≤ s → m / s < 2 ^ 63
half-lt m s h le = let e = div-add-mod m s in grind arith

-- The last page of a request is far below the end of a 64-bit word.
pub end_lpn-lt : (spp : SsdParams) (geo : IsGeometry spp) (req : Request) → end_lpn spp req < 2 ^ 63
unfolding end_lpn
end_lpn-lt spp geo req =
    half-lt (sub64 (u64 (req.slba + (req.length % 2 ^ 16 + 1))) 1) spp.secs_per_pg (omega arith)
      geo.secs_large

module _ (cpu_clock : ℕ → ℕ) {Q : Type 0} (spp : SsdParams) (geo : IsGeometry spp) where
  -- Reading moves the times of the SSD only, and the completion does not move back.
  record Goes (s t : ReadState Q) : Type 0 where
    keeps : Keeps s.ftl t.ftl
    later : s.latest ≤ t.latest

  issue-Goes :
      (stime : ℕ) (s : ReadState Q)
      → s.ftl.ssd.sp ≡ spp
      → Ensures (Goes s) (issue cpu_clock stime s)
  unfolding issue
  issue-Goes stime s sp =
      let f = s.ftl in
      Ends-if (ltb 0 s.xfer_size)
        (λ _.
          Ends-bind (ssd_advance_nand-ends cpu_clock f.ssd _ (rw sp geo.xfer_pos))
            λ (completed, ssd) e.
              normal (record {
                keeps = record { tables_same = refl; sp_same = e };
                later = omega arith;
              }))
        λ _. normal (record { keeps = Keeps-refl; later = omega arith })

  read_page-Goes :
      (stime : ℕ) (s : ReadState Q) (local_lpn : ℕ)
      → s.ftl.ssd.sp ≡ spp
      → Ensures (Goes s) (read_page cpu_clock stime s local_lpn)
  unfolding read_page get_maptbl_ent
  read_page-Goes stime s local_lpn sp =
      let f = s.ftl in
      let still : Goes s s = record { keeps = Keeps-refl; later = omega arith } in
      Ends-bind (at-ends f.maptbl f.ssd.sp.tt_pgs local_lpn) λ cur _.
        Ends-if (mapped_ppa cur && valid_ppa f.ssd.sp cur)
          (λ _.
            Ends-bind
              (Ends-if {P = λ _. Unit {0}} (mapped_ppa s.prev_ppa)
                (λ _. is_same_flash_page-ends f.ssd.sp cur s.prev_ppa) λ _. normal tt)
              λ same _.
                Ends-if same (λ _. normal (record { keeps = Keeps-refl; later = omega arith }))
                  λ _.
                    Ends-bind (issue-Goes stime s sp)
                      λ t g. normal (record { keeps = g.keeps; later = g.later }))
          λ _. normal still

  read_own_pages-Goes :
      (fuel nr_parts stime last : ℕ) (s : ReadState Q) (lpn : ℕ)
      → 0 < nr_parts
      → last + nr_parts < 2 ^ 64
      → 0 < fuel
      → last + 1 < lpn + fuel
      → s.ftl.ssd.sp ≡ spp
      → Ensures (Goes s) (read_own_pages cpu_clock fuel nr_parts stime last s lpn)
  unfolding read_own_pages
  read_own_pages-Goes zero nr_parts stime last s lpn pos small fed enough sp = absurd (omega arith)
  read_own_pages-Goes (suc fuel) nr_parts stime last s lpn pos small fed enough sp =
      Ends-if (leb lpn last)
        (λ more.
          let le : lpn ≤ last = ground arith in
          let next : u64 (lpn + nr_parts) ≡ lpn + nr_parts = omega arith in
          Ends-bind (read_page-Goes stime s (lpn / nr_parts) sp) λ t g.
            Ends-map
              (read_own_pages-Goes fuel nr_parts stime last t (u64 (lpn + nr_parts)) pos small
                (omega arith) (omega arith) (g.keeps.sp_same ∙ sp))
              λ r h. record {
                keeps = Keeps-trans g.keeps h.keeps;
                later = omega (arith, g.later, h.later);
              })
        λ _. normal (record { keeps = Keeps-refl; later = omega arith })

  -- Time goes on and the tables stay.
  pub record ReadOn (latest : ℕ) (ns : ConvNamespace Q) (r : ℕ × ConvNamespace Q) : Type 0 where
    pub same : Same spp ns r.1
    pub later : latest ≤ r.0

  read_part-ReadOn :
      (ns : ConvNamespace Q) (stime first last latest : ℕ)
      → 0 < ns.nr_parts
      → last + ns.nr_parts < 2 ^ 64
      → AllMapped spp ns.ftls
      → Ensures (ReadOn latest ns) (read_part cpu_clock ns stime first last latest)
  unfolding read_part get_maptbl_ent
  read_part-ReadOn ns stime first last latest pos small all =
      let i = first % ns.nr_parts in
      Ends-bind (part-ends ns i) λ f p.
        let m = IsPart-IsMapped spp ns i f all p in
        Ends-bind (at-ends f.maptbl f.ssd.sp.tt_pgs (first / ns.nr_parts)) λ prev _.
          Ends-bind
            (read_own_pages-Goes (last - first + 2) ns.nr_parts stime last
              (record { xfer_size = 0; prev_ppa = prev; latest = latest; ftl = f }) first pos small
              (omega arith) (omega arith) m.sp_same)
            λ s g. Ends-bind (issue-Goes stime s (g.keeps.sp_same ∙ m.sp_same)) λ t h.
              normal (record {
                same = set_part-Same spp ns i f t.ftl all p (Keeps-trans g.keeps h.keeps);
                later = omega (arith, g.later, h.later);
              })

  read_parts-ReadOn :
      (n : ℕ) (ns : ConvNamespace Q) (stime first last latest : ℕ)
      → 0 < ns.nr_parts
      → last + ns.nr_parts < 2 ^ 64
      → AllMapped spp ns.ftls
      → Ensures (ReadOn latest ns) (read_parts cpu_clock n ns stime first last latest)
  unfolding read_parts
  read_parts-ReadOn zero ns stime first last latest pos small all =
      normal (record { same = Same-refl spp ns all; later = omega arith })
  read_parts-ReadOn (suc n) ns stime first last latest pos small all =
      Ends-if (leb first last)
        (λ _.
          Ends-bind (read_part-ReadOn ns stime first last latest pos small all) λ (latest', ns') r.
            let parts = r.same.parts in
            Ends-map
              (read_parts-ReadOn n ns' stime (first + 1) last latest' (rw parts pos)
                (rw parts small) r.same.sound)
              λ u q. record {
                same = Same-trans r.same q.same;
                later = omega (arith, r.later, q.later);
              })
        λ _. normal (record { same = Same-refl spp ns all; later = omega arith })

  -- The end of a read command.
  pub record ReadEnds (ns : ConvNamespace Q) (req : Request) (r : ConvReply Q) : Type 0 where
    pub same : Same spp ns r.ns
    pub timed : r.done ≡ true → req.nsecs_start ≤ r.ret.nsecs_target

  pub conv_read-ReadEnds :
      (ns : ConvNamespace Q) (req : Request) (ret : Result)
      → ns.nr_parts < 2 ^ 32
      → AllMapped spp ns.ftls
      → Ensures (ReadEnds ns req) (conv_read cpu_clock ns req ret)
  unfolding conv_read
  conv_read-ReadEnds ns req ret few all = Ends-bind (part-ends ns 0) λ f p.
      let m = IsPart-IsMapped spp ns 0 f all p in
      Ensures-divisor f.ssd.sp.secs_per_pg λ _. Ensures-divisor ns.nr_parts λ pos.
        Ends-if (leb f.ssd.sp.tt_pgs (end_lpn f.ssd.sp req / ns.nr_parts))
          (λ _. normal (record { same = Same-refl spp ns all; timed = λ e. cc e }))
          λ _.
            let last : end_lpn f.ssd.sp req ≡ end_lpn spp req = rw m.sp_same in
            Ends-bind
              (read_parts-ReadOn ns.nr_parts ns _ (start_lpn f.ssd.sp req) (end_lpn f.ssd.sp req)
                req.nsecs_start pos (rw last (omega (arith, end_lpn-lt spp geo req))) all)
              λ (latest, ns') r. normal (record { same = r.same; timed = λ _. r.later })
