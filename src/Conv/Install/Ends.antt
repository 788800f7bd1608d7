-- ===== src/Conv/Install/Ends.antt =====
-- What the functions of conv_ftl.c that name or take a page do to the tables.
use nvmevirt_pim.Base.{
  ℕ, ◌+◌, ◌*◌, ◌%◌, ◌^◌, ◌<◌, ◌≡◌, refl, ◌∙◌, ap, ◌==◌, true, false, not, ltb, ◌&&◌, Ensures,
  normal, stopped, at_undefined, Ends-if, Ends-bind, Ends-map, Ensures-assert, arith,
}
use nvmevirt_pim.Ssd.Params.{SsdParams}
use nvmevirt_pim.Ssd.Nand.{Ppa, Ssd, ppa_word}
use nvmevirt_pim.Conv.State.{ConvFtl, valid, free, IoType, WritePointer, VictimQueue, update}
use nvmevirt_pim.Conv.Map.{
  at, valid_ppa, mapped_ppa, page_index, block_index, ppa2pgidx, get_pg, get_blk, set_maptbl_ent,
  set_rmap_ent,
}
use nvmevirt_pim.Conv.Pointer.{get_wp, pointer_page, get_new_page}
use nvmevirt_pim.Conv.Mark.{is_free, mark_page_valid}
use nvmevirt_pim.Conv.Consistent.{tables, remap, is_free-eq}
use nvmevirt_pim.Conv.Consistent.Frames.{advance_write_pointer-Keeps}
use nvmevirt_pim.Conv.Install.{install_page}

pub at-ends {ℓ} : {A : Type ℓ} (a : ℕ → A) (n i : ℕ) → Ensures (λ x. (x ≡ a i) × (i < n)) (at a n i)
at-ends a n i = Ends-if (ltb i n) (λ e. normal (refl, ground arith)) λ _. stopped at_undefined

pub ppa2pgidx-ends :
    (spp : SsdParams) (p : Ppa) → Ensures (λ i. i ≡ page_index spp p) (ppa2pgidx spp p)
unfolding ppa2pgidx
ppa2pgidx-ends spp p = Ensures-assert (ltb (page_index spp p) spp.tt_pgs) λ _. normal refl

lt-ne : (a b : ℕ) → a < b → (a == b) ≡ false
lt-ne a b h = ground arith

-- The word of a page whose reserved bits are 0 is not UNMAPPED_PPA.
pointer_page-mapped : (w : WritePointer) → mapped_ppa (pointer_page w) ≡ true
unfolding mapped_ppa ppa_word pointer_page
pointer_page-mapped w =
    let word =
      w.pg % 2 ^ 16
      + w.blk % 2 ^ 16 * 2 ^ 16
      + w.pl % 2 ^ 8 * 2 ^ 32
      + w.lun % 2 ^ 8 * 2 ^ 40
      + w.ch % 2 ^ 8 * 2 ^ 48
      + 0 * 2 ^ 56 in
    let small : word < 2 ^ 56 = omega arith in
    ap not (lt-ne word 0xffff_ffff_ffff_ffff (omega arith))

module _ {Q : Type 0} where
  pub get_pg-ends :
      (f : ConvFtl Q) (p : Ppa)
      → Ensures (λ i. (i ≡ page_index f.ssd.sp p) × (valid_ppa f.ssd.sp p ≡ true)) (get_pg f p)
  unfolding get_pg
  get_pg-ends f p = Ends-if (valid_ppa f.ssd.sp p) (λ e. normal (refl, e)) λ _. stopped at_undefined

  pub get_blk-ends :
      (f : ConvFtl Q) (p : Ppa) → Ensures (λ b. b ≡ block_index f.ssd.sp p) (get_blk f p)
  unfolding get_blk
  get_blk-ends f p =
      let spp = f.ssd.sp in
      Ends-if
        (ltb p.ch spp.nchs
          && ltb p.lun spp.luns_per_ch
          && ltb p.pl spp.pls_per_lun
          && ltb p.blk spp.blks_per_pl)
        (λ _. normal refl) λ _. stopped at_undefined

  set_maptbl_ent-ends :
      (f : ConvFtl Q) (lpn : ℕ) (p : Ppa)
      → Ensures
          (λ g. (lpn < f.ssd.sp.tt_pgs) × (g ≡ record f { maptbl = update f.maptbl lpn p }))
          (set_maptbl_ent f lpn p)
  unfolding set_maptbl_ent
  set_maptbl_ent-ends f lpn p =
      Ensures-assert (ltb lpn f.ssd.sp.tt_pgs) λ e. normal (ground arith, refl)

  pub set_rmap_ent-ends :
      (f : ConvFtl Q) (lpn : ℕ) (p : Ppa)
      → Ensures
          (λ g. g ≡ record f { rmap = update f.rmap (page_index f.ssd.sp p) lpn })
          (set_rmap_ent f lpn p)
  unfolding set_rmap_ent
  set_rmap_ent-ends f lpn p = Ends-bind (ppa2pgidx-ends f.ssd.sp p) λ i e. normal (rw e)

  mark_page_valid-ends :
      (f : ConvFtl Q) (p : Ppa)
      → let i = page_index f.ssd.sp p in
        Ensures
          (λ g.
            (f.pages i ≡ free)
            × (valid_ppa f.ssd.sp p ≡ true)
            × (tables g ≡ record (tables f) { pages = update f.pages i valid })
            × (g.ssd ≡ f.ssd))
          (mark_page_valid f p)
  unfolding mark_page_valid
  mark_page_valid-ends f p =
      let spp = f.ssd.sp in
      Ends-bind (get_pg-ends f p) λ i (e, inside). Ensures-assert (is_free (f.pages i)) λ fresh.
        Ends-bind (get_blk-ends f p) λ b _.
          let blk = f.blocks b in
          Ensures-assert (ltb blk.vpc spp.pgs_per_blk) λ _.
            Ends-bind (at-ends f.lines f.tt_lines p.blk) λ line _.
              Ensures-assert (ltb line.vpc spp.pgs_per_line)
                λ _. normal (rw e at (is_free-eq (f.pages i) fresh), inside, rw e, refl)

  -- The page of a write pointer is mapped: its reserved bits are 0.
  pub get_new_page-ends :
      (f : ConvFtl Q) (io : IoType) → Ensures (λ p. mapped_ppa p ≡ true) (get_new_page f io)
  unfolding get_new_page
  get_new_page-ends f io = Ensures-assert _ λ _. normal (pointer_page-mapped (get_wp f io))

module _ (pq : VictimQueue) where
  pub install_page-ends :
      (f : ConvFtl pq.Queue) (lpn : ℕ) (p : Ppa) (io : IoType)
      → let spp = f.ssd.sp in
        Ensures
          (λ g.
            (lpn < spp.tt_pgs)
            × (f.pages (page_index spp p) ≡ free)
            × (valid_ppa spp p ≡ true)
            × (tables g ≡ remap spp (tables f) lpn p)
            × (g.ssd.sp ≡ spp))
          (install_page pq f lpn p io)
  unfolding install_page
  install_page-ends f lpn p io =
      let spp = f.ssd.sp in
      Ends-bind (set_maptbl_ent-ends f lpn p) λ f1 (in_table, e1).
        Ends-bind (set_rmap_ent-ends f1 lpn p) λ f2 e2.
          Ends-bind (mark_page_valid-ends f2 p) λ f3 (fresh, inside, marked, ssd_same).
            Ends-map (advance_write_pointer-Keeps pq f3 io) λ g k.
              let sp1 : f1.ssd.sp ≡ spp = rw e1 in
              let sp2 : f2.ssd.sp ≡ spp = rw e2 sp1 in
              let pages2 : f2.pages ≡ f.pages = rw (e2, e1) in
              (
                in_table,
                rw (sp2, pages2) at fresh,
                rw sp2 at inside,
                k.tables_same ∙ marked ∙ rw (e2, e1),
                k.sp_same ∙ ap (λ (s : Ssd). s.sp) ssd_same ∙ sp2,
              )
