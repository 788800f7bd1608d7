-- ===== src/Conv/Consistent/Frames.antt =====
-- The functions of conv_ftl.c that leave maptbl, rmap and the pages alone.
use nvmevirt_pim.Base.{
  ℕ, ◌+◌, ◌%◌, ◌<◌, ◌≡◌, refl, ◌∙◌, ◌==◌, ltb, not, ◌&&◌, ◌-◌, ◌/◌, ◌^◌, Bool-cases, inl, inr, List,
  Bool, Option, some, none, [], ◌∷◌, u32, Ensures, stopped, normal, at_undefined, Ends-if,
  Ends-bind, Ends-map, Ensures-entry, Ensures-assert, divisor-Ensures,
}
use nvmevirt_pim.Ssd.Params.{SsdParams}
use nvmevirt_pim.Ssd.Nand.{NandCmd}
use nvmevirt_pim.Ssd.Nand.Ops.Ends.{ssd_advance_nand-ends}
use nvmevirt_pim.Conv.State.{ConvFtl, WritePointer, IoType, user_io, gc_io, VictimQueue}
use nvmevirt_pim.Conv.Lines.{first_free, get_next_free_line, select_peeked, mark_line_free}
use nvmevirt_pim.Conv.Pointer.{
  get_wp, set_wp, next_page, retire_line, next_line, advance_write_pointer,
}
use nvmevirt_pim.Conv.Gc.{gc_delay}
use nvmevirt_pim.Conv.Consistent.{tables}

module _ {Q : Type 0} where
  -- The tables and the geometry are as they were.
  pub record Keeps (f g : ConvFtl Q) : Type 0 where
    pub tables_same : tables g ≡ tables f
    pub sp_same : g.ssd.sp ≡ f.ssd.sp

  pub Keeps-trans : {f g h : ConvFtl Q} → Keeps f g → Keeps g h → Keeps f h
  Keeps-trans a b = record {
    tables_same = b.tables_same ∙ a.tables_same;
    sp_same = b.sp_same ∙ a.sp_same;
  }

  pub Keeps-refl : {f : ConvFtl Q} → Keeps f f
  Keeps-refl = record { tables_same = refl; sp_same = refl }

  pub set_wp-Keeps : (f : ConvFtl Q) (io : IoType) (w : WritePointer) → Keeps f (set_wp f io w)
  unfolding set_wp
  set_wp-Keeps f user_io w = record { tables_same = refl; sp_same = refl }
  set_wp-Keeps f gc_io w = record { tables_same = refl; sp_same = refl }

  pub first_free-Keeps : (free : List ℕ) (f : ConvFtl Q) → Keeps f (first_free free f).1
  unfolding first_free
  first_free-Keeps [] f = Keeps-refl
  first_free-Keeps (line ∷ rest) f = record { tables_same = refl; sp_same = refl }

  get_next_free_line-Keeps : (f : ConvFtl Q) → Keeps f (get_next_free_line f).1
  unfolding get_next_free_line
  get_next_free_line-Keeps f = first_free-Keeps f.free_line_list f

  pub mark_line_free-Keeps : (f : ConvFtl Q) (id : ℕ) → Ensures (Keeps f) (mark_line_free f id)
  unfolding mark_line_free
  mark_line_free-Keeps f id =
      Ends-if (ltb id f.tt_lines) (λ _. normal (record { tables_same = refl; sp_same = refl }))
        λ _. stopped at_undefined

  pub gc_delay-Keeps :
      (cpu_clock : ℕ → ℕ) (f : ConvFtl Q) (ncmd : NandCmd)
      → 0 < f.ssd.sp.max_ch_xfer_size
      → Ensures (Keeps f) (gc_delay cpu_clock f ncmd)
  unfolding gc_delay
  gc_delay-Keeps cpu_clock f ncmd pos =
      Ends-if f.cp.enable_gc_delay
        (λ _.
          Ends-bind (ssd_advance_nand-ends cpu_clock f.ssd ncmd pos)
            λ (t, ssd) e. normal (record { tables_same = refl; sp_same = e }))
        λ _. normal Keeps-refl

next_page-ends : (spp : SsdParams) (w : WritePointer) → Ensures (λ _. Unit {0}) (next_page spp w)
unfolding next_page
next_page-ends spp w = Ensures-assert (ltb w.pg spp.pgs_per_blk) λ _.
    Ends-bind (divisor-Ensures spp.pgs_per_oneshotpg) λ _ _.
      Ends-if (not ((u32 (w.pg + 1) % spp.pgs_per_oneshotpg) == 0)) (λ _. normal tt)
        λ _. Ensures-assert (ltb w.ch spp.nchs) λ _.
          Ends-if (not (u32 (w.ch + 1) == spp.nchs)) (λ _. normal tt)
            λ _. Ensures-assert (ltb w.lun spp.luns_per_ch) λ _.
              Ends-if (not (u32 (w.lun + 1) == spp.luns_per_ch)) (λ _. normal tt)
                λ _.
                  let first = u32 (u32 (w.pg + 1) + 2 ^ 32 - spp.pgs_per_oneshotpg) in
                  Ends-if (not (u32 (first + spp.pgs_per_oneshotpg) == spp.pgs_per_blk))
                    (λ _. normal tt) λ _. normal tt

module _ (pq : VictimQueue) where
  retire_line-Keeps : (f : ConvFtl pq.Queue) (id : ℕ) → Ensures (Keeps f) (retire_line pq f id)
  unfolding retire_line
  retire_line-Keeps f id =
      let spp = f.ssd.sp in
      Ends-bind
        (Ends-if {P = λ l. l ≡ f.lines id} (ltb id f.tt_lines) (λ _. normal refl)
          λ _. stopped at_undefined)
        λ line _.
          Ends-if (line.vpc == spp.pgs_per_line)
            (λ _.
              Ensures-assert (line.ipc == 0)
                λ _. normal (record { tables_same = refl; sp_same = refl }))
            λ _. Ensures-assert (ltb line.vpc spp.pgs_per_line) λ _.
              Ensures-assert (ltb 0 line.ipc)
                λ _. normal (record { tables_same = refl; sp_same = refl })

  next_line-Keeps :
      (f : ConvFtl pq.Queue) (io : IoType) (w : WritePointer)
      → Ensures (Keeps f) (next_line pq f io w)
  unfolding next_line
  next_line-Keeps f io w =
      let (line, f') = get_next_free_line f in
      Ensures-assert (ltb w.blk f.ssd.sp.blks_per_pl) λ _. Ensures-entry line λ id _.
        Ensures-assert (ltb id f.ssd.sp.blks_per_pl) λ _.
          Ensures-assert (w.pl == 0)
            λ _. normal (Keeps-trans (get_next_free_line-Keeps f) (set_wp-Keeps _ io _))

  pub advance_write_pointer-Keeps :
      (f : ConvFtl pq.Queue) (io : IoType) → Ensures (Keeps f) (advance_write_pointer pq f io)
  unfolding advance_write_pointer
  advance_write_pointer-Keeps f io =
      let old = get_wp f io in
      Ends-bind (next_page-ends f.ssd.sp old) λ (w, used_up) _.
        Ends-if used_up
          (λ _.
            Ends-bind (retire_line-Keeps f old.curline)
              λ g k. Ends-map (next_line-Keeps g io w) λ h k'. Keeps-trans k k')
          λ _. normal (set_wp-Keeps f io w)

  pub select_peeked-Keeps :
      (o : Option ℕ) (f : ConvFtl pq.Queue) (force : Bool) → Keeps f (select_peeked pq o f force).1
  unfolding select_peeked
  select_peeked-Keeps none f force = Keeps-refl
  select_peeked-Keeps (some v) f force =
      elim (Bool-cases (not force && ltb (f.ssd.sp.pgs_per_line / 8) (f.lines v).vpc)) [
        | inl poor ↦ rw poor Keeps-refl
        | inr good ↦ rw good (record { tables_same = refl; sp_same = refl })
      ]
