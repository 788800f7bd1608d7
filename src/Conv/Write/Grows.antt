-- ===== src/Conv/Write/Grows.antt =====
-- What the write of one page does to the tables of its instance.
use nvmevirt_pim.Base.{
  ℕ, ◌+◌, ◌-◌, ◌≡◌, refl, sym, ◌∙◌, ap, subst, ◌==◌, Bool, true, false, leb, ltb, ◌&&◌, ◌||◌,
  Bool-cases, inl, inr, if◌then◌else◌, Ensures, normal, Ends-if, Ends-bind, Ends-map,
  Ensures-assert, arith,
}
use nvmevirt_pim.Ssd.Params.{SsdParams}
use nvmevirt_pim.Ssd.Nand.{Ppa}
use nvmevirt_pim.Conv.State.{ConvFtl, Line, invalid, user_io, VictimQueue, update, invalid_lpn}
use nvmevirt_pim.Conv.Map.{get_maptbl_ent, mapped_ppa, page_index}
use nvmevirt_pim.Conv.Mark.{is_valid, lower_vpc, full_to_victim, mark_page_invalid}
use nvmevirt_pim.Conv.Install.Ends.{
  at-ends, get_pg-ends, get_blk-ends, get_new_page-ends, set_rmap_ent-ends, install_page-ends,
}
use nvmevirt_pim.Conv.Consistent.{
  Tables, tables, Consistent, ConsistentBut, Owned, forget, remap, forget-ConsistentBut,
  forget-Owned, remap-Consistent, remap-Owned,
}
use nvmevirt_pim.Conv.Consistent.Frames.{Keeps, Keeps-refl, Keeps-trans}
use nvmevirt_pim.Conv.Gc.Moves.{IsMapped}
use nvmevirt_pim.Conv.Write.{forget_old, map_new}

module _ {Q : Type 0} (spp : SsdParams) where
  -- The tables agree in `g`, and the logical pages with a physical page are those of `f` and `k`.
  pub record Grows (k : ℕ) (f g : ConvFtl Q) : Type 0 where
    pub mapped : IsMapped spp g
    pub present : (n : ℕ) → mapped_ppa (g.maptbl n) ≡ (mapped_ppa (f.maptbl n) || n == k)

  -- The same with a gap at `k`, whose old page was given up.
  pub record Opened (k : ℕ) (f g : ConvFtl Q) : Type 0 where
    pub sp_same : g.ssd.sp ≡ spp
    pub maptbl_same : g.maptbl ≡ f.maptbl
    pub consistent : ConsistentBut spp k (tables g)
    pub owned : Owned spp (tables g)

module _ (pq : VictimQueue) where
  lower_vpc-Keeps : (f : ConvFtl pq.Queue) (id : ℕ) (line : Line) → Keeps f (lower_vpc pq f id line)
  unfolding lower_vpc
  lower_vpc-Keeps f id line = elim (Bool-cases (line.pos == 0)) [
    | inl e ↦ rw e (record { tables_same = refl; sp_same = refl })
    | inr e ↦ rw e (record { tables_same = refl; sp_same = refl })
  ]

  full_to_victim-Keeps : (f : ConvFtl pq.Queue) (id : ℕ) → Keeps f (full_to_victim pq f id)
  unfolding full_to_victim
  full_to_victim-Keeps f id = record { tables_same = refl; sp_same = refl }

  requeue-Keeps :
      (b : Bool) (f : ConvFtl pq.Queue) (id : ℕ) → Keeps f (if b then full_to_victim pq f id else f)
  requeue-Keeps true f id = full_to_victim-Keeps f id
  requeue-Keeps false f id = Keeps-refl

  mark_page_invalid-ends :
      (f : ConvFtl pq.Queue) (p : Ppa)
      → let i = page_index f.ssd.sp p in
        Ensures
          (λ g.
            (tables g ≡ record (tables f) { pages = update f.pages i invalid })
            × (g.ssd.sp ≡ f.ssd.sp))
          (mark_page_invalid pq f p)
  unfolding mark_page_invalid
  mark_page_invalid-ends f p =
      let spp = f.ssd.sp in
      Ends-bind (get_pg-ends f p) λ i (e, _). Ensures-assert (is_valid (f.pages i)) λ _.
        Ends-bind (get_blk-ends f p) λ b _.
          let blk = f.blocks b in
          Ensures-assert (ltb blk.ipc spp.pgs_per_blk) λ _.
            Ensures-assert (ltb 0 blk.vpc && leb blk.vpc spp.pgs_per_blk) λ _.
              Ends-bind (at-ends f.lines f.tt_lines p.blk) λ line _.
                let full = line.vpc == spp.pgs_per_line in
                Ensures-assert (ltb line.ipc spp.pgs_per_line) λ _.
                  Ensures-assert (if full then line.ipc == 0 else true) λ _.
                    Ensures-assert (ltb 0 line.vpc && leb line.vpc spp.pgs_per_line) λ _.
                      let raised = record line { ipc = line.ipc + 1 } in
                      let f1 = record f {
                        pages = update f.pages i invalid;
                        blocks =
                            update f.blocks b (record blk { ipc = blk.ipc + 1; vpc = blk.vpc - 1 });
                      } in
                      let k : Keeps f1 (
                          let low = lower_vpc pq f1 p.blk raised in
                          if full then full_to_victim pq low p.blk else low) =
                        Keeps-trans (lower_vpc-Keeps f1 p.blk raised)
                          (requeue-Keeps full (lower_vpc pq f1 p.blk raised) p.blk) in
                      normal (k.tables_same ∙ rw e, k.sp_same)

added :
    (m m' : ℕ → Ppa) (k n : ℕ) (p : Ppa)
    → m ≡ m'
    → mapped_ppa p ≡ true
    → mapped_ppa (update m k p n) ≡ (mapped_ppa (m' n) || n == k)
unfolding update
added m m' k n p e is_mapped = elim (Bool-cases (n == k)) [
  | inl same ↦ ground arith
  | inr other ↦ rw (other, ap (λ (f : ℕ → Ppa). mapped_ppa (f n)) e) (ground arith)
]

module _ (pq : VictimQueue) (spp : SsdParams) where
  pub forget_old-Opened :
      (f : ConvFtl pq.Queue) (k : ℕ) → IsMapped spp f → Ensures (Opened spp k f) (forget_old pq f k)
  unfolding forget_old get_maptbl_ent
  forget_old-Opened f k m = Ends-bind (at-ends f.maptbl f.ssd.sp.tt_pgs k) λ p (e, lt).
      Ends-if (mapped_ppa p)
        (λ present. Ends-bind (mark_page_invalid-ends pq f p) λ f1 (t1, s1).
          Ends-map (set_rmap_ent-ends f1 invalid_lpn p) λ g e_g.
            let sp1 : f1.ssd.sp ≡ spp = s1 ∙ m.sp_same in
            let tabs : tables g ≡ forget spp (tables f) (page_index spp (f.maptbl k)) invalid_lpn =
              ap (λ (h : ConvFtl pq.Queue). tables h) e_g
              ∙ ap
                  (λ (t : Tables). record t {
                    rmap = update t.rmap (page_index f1.ssd.sp p) invalid_lpn;
                  })
                  t1
              ∙ rw (sp1, m.sp_same, e) in
            record {
              sp_same = rw e_g sp1;
              maptbl_same = ap (λ (t : Tables). t.maptbl) tabs;
              consistent = subst (ConsistentBut spp k) (sym tabs) (
                  forget-ConsistentBut spp (tables f) k invalid_lpn m.consistent
                    (rw m.sp_same at lt) (rw e at present));
              owned =
                  subst (Owned spp) (sym tabs) (forget-Owned spp (tables f) _ invalid_lpn m.owned);
            })
        λ absent. normal (record {
          sp_same = m.sp_same;
          maptbl_same = refl;
          consistent = λ n n_lt _ present. m.consistent n n_lt present;
          owned = m.owned;
        })

  pub map_new-Grows :
      (f g : ConvFtl pq.Queue) (k : ℕ)
      → Opened spp k f g
      → Ensures (λ r. Grows spp k f r.1) (map_new pq g k)
  unfolding map_new
  map_new-Grows f g k o = Ends-bind (get_new_page-ends g user_io) λ p is_mapped.
      Ends-bind (install_page-ends pq g k p user_io) λ h (lt, fresh, inside, tabs, sp').
        let tabs' : tables h ≡ remap spp (tables g) k p = rw o.sp_same at tabs in
        normal (record {
          mapped = record {
            sp_same = sp' ∙ o.sp_same;
            consistent = subst (Consistent spp) (sym tabs') (
                remap-Consistent spp (tables g) k p o.consistent (rw o.sp_same at fresh)
                  (rw o.sp_same at inside));
            owned =
                subst (Owned spp) (sym tabs') (remap-Owned spp (tables g) k p o.owned is_mapped);
          };
          present = λ n.
              ap (λ (t : Tables). mapped_ppa (t.maptbl n)) tabs'
              ∙ added g.maptbl f.maptbl k n p o.maptbl_same is_mapped;
        })
