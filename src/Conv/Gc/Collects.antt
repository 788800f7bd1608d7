-- ===== src/Conv/Gc/Collects.antt =====
-- What the collection of a victim line does to the tables: do_gc and its callers of conv_ftl.c.
use nvmevirt_pim.Base.{
  ℕ, ◌+◌, ◌-◌, ◌*◌, ◌<◌, ◌≤◌, ◌≡◌, ◌≢◌, refl, sym, ◌∙◌, ap, subst, Bool, true, false, ltb,
  Bool-cases, inl, inr, Ensures, normal, Ends-if, Ends-bind, Ends-map, entry-Ensures, get_elem?,
  arith,
}
use nvmevirt_pim.Ssd.Params.{SsdParams}
use nvmevirt_pim.Ssd.Nand.{Ppa, Ssd, nand_erase}
use nvmevirt_pim.Ssd.Nand.Ops.{get_lun}
use nvmevirt_pim.Conv.State.{ConvFtl, VictimQueue}
use nvmevirt_pim.Conv.Geometry.{IsGeometry, page_index-block}
use nvmevirt_pim.Conv.Map.{block_index, mapped_ppa}
use nvmevirt_pim.Conv.Mark.{mark_block_free}
use nvmevirt_pim.Conv.Gc.{gc_cmd, erase_block, clean_lun}
use nvmevirt_pim.Conv.Consistent.{
  Tables, tables, Consistent, Unused, Owned, erase, erase-Consistent, erase-Owned, erase-Unused,
}
use nvmevirt_pim.Conv.Consistent.Frames.{gc_delay-Keeps}
use nvmevirt_pim.Conv.Install.Ends.{get_blk-ends}
use nvmevirt_pim.Conv.Gc.Moves.{
  IsMapped, Preserves, Preserves-trans, Keeps-Moves, clean_one_flashpg-Moves,
}

mark_block_free-ends :
    {Q : Type 0} (f : ConvFtl Q) (p : Ppa)
    → Ensures
        (λ g.
          (tables g
            ≡ erase f.ssd.sp
                (tables f)
                (block_index f.ssd.sp p * f.ssd.sp.pgs_per_blk)
                f.ssd.sp.pgs_per_blk)
          × (g.ssd ≡ f.ssd))
        (mark_block_free f p)
unfolding mark_block_free
mark_block_free-ends f p = Ends-bind (get_blk-ends f p) λ b e. normal (rw e, refl)

get_lun-ends : (ssd : Ssd) (p : Ppa) → Ensures (λ _. Unit {0}) (get_lun ssd p)
unfolding get_lun
get_lun-ends ssd p =
    Ends-bind (entry-Ensures (get_elem? ssd.channels p.ch))
      λ ch _. Ends-map (entry-Ensures (get_elem? ch.luns p.lun)) λ _ _. tt

module _ (cpu_clock : ℕ → ℕ) (pq : VictimQueue) (spp : SsdParams) (geo : IsGeometry spp) where
  -- Every page that is unused in `f` and lies outside block `b` is unused in `g`.
  abbrev pub KeepsOutside : (b : ℕ) → (f g : ConvFtl pq.Queue) → Type 0
  KeepsOutside b f g =
      (i : ℕ)
      → ((k : ℕ) → k < spp.pgs_per_blk → b * spp.pgs_per_blk + k ≢ i)
      → Unused spp (tables f) i
      → Unused spp (tables g) i

  -- The erasure of a block that no logical page is in.
  erase_block-Preserves :
      (f : ConvFtl pq.Queue) (p : Ppa)
      → IsMapped spp f
      → ((k : ℕ)
          → k < spp.pgs_per_blk
          → Unused spp (tables f) (block_index spp p * spp.pgs_per_blk + k))
      → Ensures
          (λ g. Preserves spp f g × KeepsOutside (block_index spp p) f g)
          (erase_block cpu_clock pq f p)
  unfolding erase_block
  erase_block-Preserves f p m empty =
      let first = block_index spp p * spp.pgs_per_blk in
      let n = spp.pgs_per_blk in
      Ends-bind (mark_block_free-ends f p) λ g (tabs, ssd_same).
        let tabs' : tables g ≡ erase spp (tables f) first n = rw m.sp_same at tabs in
        let sp' : g.ssd.sp ≡ spp = ap (λ (s : Ssd). s.sp) ssd_same ∙ m.sp_same in
        let m' : IsMapped spp g = record {
          sp_same = sp';
          consistent =
              subst (Consistent spp) (sym tabs')
                (erase-Consistent spp (tables f) first n m.consistent empty);
          owned = subst (Owned spp) (sym tabs') (erase-Owned spp (tables f) first n m.owned);
        } in
        Ends-map (gc_delay-Keeps cpu_clock g (gc_cmd nand_erase 0 p) (rw sp' geo.xfer_pos)) λ h k.
          let moves = Keeps-Moves spp m' k in
          (
            record {
              mapped = moves.preserves.mapped;
              present = λ lpn.
                  moves.preserves.present lpn
                  ∙ ap (λ (t : Tables). mapped_ppa (t.maptbl lpn)) tabs';
            },
            λ i outside u. moves.unused i (
                subst (λ t. Unused spp t i) (sym tabs')
                  (erase-Unused spp (tables f) first n i u outside)),
          )

  -- One LUN: the flash page of `p` is emptied; with it the block, which is then erased, if it is the
  -- last flash page and the pages before it were unused.
  pub record LunDone (f : ConvFtl pq.Queue) (p : Ppa) (last : Bool) (g : ConvFtl pq.Queue)
      : Type 0 where
    pub preserves : Preserves spp f g
    pub in_range : p.blk < spp.blks_per_pl
    pub outside : KeepsOutside (block_index spp p) f g
    pub emptied :
        last ≡ false
        → (k : ℕ) → k < p.pg + spp.pgs_per_flashpg
        → Unused spp (tables g) (block_index spp p * spp.pgs_per_blk + k)

  pub clean_lun-ends :
      (f : ConvFtl pq.Queue) (p : Ppa) (last : Bool)
      → IsMapped spp f
      → p.pg + spp.pgs_per_flashpg ≤ spp.pgs_per_blk
      → (last ≡ true → p.pg + spp.pgs_per_flashpg ≡ spp.pgs_per_blk)
      → ((k : ℕ) → k < p.pg → Unused spp (tables f) (block_index spp p * spp.pgs_per_blk + k))
      → Ensures (LunDone f p last) (clean_lun cpu_clock pq f p last)
  unfolding clean_lun
  clean_lun-ends f p last m fits at_end before =
      let b = block_index spp p in
      Ends-bind (get_lun-ends f.ssd p) λ _ _.
        Ends-bind
          (clean_one_flashpg-Moves cpu_clock pq spp geo.xfer_pos f p m (omega (arith, geo.pg_bits)))
          λ g (moves, cleared, in_range).
            let empty : (k : ℕ)
                → k < p.pg + spp.pgs_per_flashpg
                → Unused spp (tables g) (b * spp.pgs_per_blk + k) =
              λ k lt. elim (Bool-cases (ltb k p.pg)) [
                | inl early ↦ moves.unused _ (before k (ground arith))
                | inr late ↦
                    let ge : p.pg ≤ k = ground arith in
                    subst (Unused spp (tables g)) (omega (arith, page_index-block spp geo p))
                      (cleared (k - p.pg) (omega arith))
              ] in
            Ends-if last
              (λ e.
                Ends-map
                  (erase_block-Preserves g p moves.preserves.mapped
                    (λ k lt. empty k (omega (arith, at_end e))))
                  λ h (more, rest). record {
                    preserves = Preserves-trans spp moves.preserves more;
                    in_range = in_range geo.flashpg_pos;
                    outside = λ i apart u. rest i apart (moves.unused i u);
                    emptied = λ no_end. cc;
                  })
              λ _. normal (record {
                preserves = moves.preserves;
                in_range = in_range geo.flashpg_pos;
                outside = λ i apart u. moves.unused i u;
                emptied = λ _. empty;
              })
