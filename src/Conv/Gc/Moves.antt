-- ===== src/Conv/Gc/Moves.antt =====
-- What moving pages does to the tables: gc_write_page and clean_one_flashpg of conv_ftl.c.
use nvmevirt_pim.Base.{
  ℕ, zero, suc, ◌+◌, ◌*◌, ◌^◌, ◌<◌, ◌≤◌, ◌≡◌, ◌≢◌, sym, ◌∙◌, ap, subst, ◌==◌, true, false, not,
  Bool-cases, inl, inr, if◌then◌else◌, Ensures, normal, Ends-if, Ends-bind, Ends-map,
  Ensures-assert, divisor-Ensures, arith,
}
use nvmevirt_pim.Ssd.Params.{SsdParams}
use nvmevirt_pim.Ssd.Nand.{Ppa, NandCmd, nand_read}
use nvmevirt_pim.Conv.State.{ConvFtl, PageStatus, valid, free, gc_io, VictimQueue, update}
use nvmevirt_pim.Conv.Map.{
  valid_ppa, valid_lpn, mapped_ppa, page_index, get_rmap_ent, last_pg_in_wordline,
}
use nvmevirt_pim.Conv.Mark.{is_free, is_valid}
use nvmevirt_pim.Conv.Gc.{
  next_pg, gc_cmd, gc_delay, gc_move_page, gc_write_page, count_valid, copy_valid,
  clean_one_flashpg,
}
use nvmevirt_pim.Conv.Consistent.{
  Tables, tables, Consistent, IsPresent, Unused, Owned, remap-Owned, remap, remap-Consistent,
  remap-Unused, remap-Unused_old, invalid-Unused, is_valid-eq,
}
use nvmevirt_pim.Conv.Consistent.Frames.{Keeps, Keeps-refl, gc_delay-Keeps}
use nvmevirt_pim.Conv.Install.Ends.{
  ppa2pgidx-ends, get_pg-ends, get_new_page-ends, install_page-ends,
}

module _ {Q : Type 0} (spp : SsdParams) where
  -- The geometry is `spp` and the tables agree.
  pub record IsMapped (f : ConvFtl Q) : Type 0 where
    pub sp_same : f.ssd.sp ≡ spp
    pub consistent : Consistent spp (tables f)
    pub owned : Owned spp (tables f)

  -- From `f` to `g` the tables go on agreeing, and every logical page that had a physical page
  -- has one.
  pub record Preserves (f g : ConvFtl Q) : Type 0 where
    pub mapped : IsMapped g
    pub present : (lpn : ℕ) → mapped_ppa (g.maptbl lpn) ≡ mapped_ppa (f.maptbl lpn)

  -- The unused pages of `f` are unused in `g`.
  abbrev pub KeepsUnused : (f g : ConvFtl Q) → Type 0
  KeepsUnused f g = (i : ℕ) → Unused spp (tables f) i → Unused spp (tables g) i

  pub record Moves (f g : ConvFtl Q) : Type 0 where
    pub preserves : Preserves f g
    pub unused : KeepsUnused f g
    pub written : (i : ℕ) → f.pages i ≢ free → g.pages i ≢ free

  pub Preserves-trans : {f g h : ConvFtl Q} → Preserves f g → Preserves g h → Preserves f h
  Preserves-trans a b = record { mapped = b.mapped; present = λ lpn. b.present lpn ∙ a.present lpn }

  pub Moves-trans : {f g h : ConvFtl Q} → Moves f g → Moves g h → Moves f h
  Moves-trans a b = record {
    preserves = Preserves-trans a.preserves b.preserves;
    unused = λ i u. b.unused i (a.unused i u);
    written = λ i w. b.written i (a.written i w);
  }

  pub Keeps-Moves : {f g : ConvFtl Q} → IsMapped f → Keeps f g → Moves f g
  Keeps-Moves m k = record {
    preserves = record {
      mapped = record {
        sp_same = k.sp_same ∙ m.sp_same;
        consistent = subst (Consistent spp) (sym k.tables_same) m.consistent;
        owned = subst (Owned spp) (sym k.tables_same) m.owned;
      };
      present = λ lpn. ap (λ (t : Tables). mapped_ppa (t.maptbl lpn)) k.tables_same;
    };
    unused = λ i u. subst (λ t. Unused spp t i) (sym k.tables_same) u;
    written = λ i w. subst (λ (t : Tables). t.pages i ≢ free) (sym k.tables_same) w;
  }

get_rmap_ent-ends :
    {Q : Type 0} (f : ConvFtl Q) (p : Ppa)
    → Ensures (λ lpn. lpn ≡ f.rmap (page_index f.ssd.sp p)) (get_rmap_ent f p)
unfolding get_rmap_ent
get_rmap_ent-ends f p = Ends-bind (ppa2pgidx-ends f.ssd.sp p) λ i e. normal (ap f.rmap e)

-- A page that is installed for a logical page that has one moves it.
remap-Moves :
    {Q : Type 0} (spp : SsdParams) (f g : ConvFtl Q) (lpn : ℕ) (new : Ppa)
    → IsMapped spp f
    → mapped_ppa new ≡ true
    → IsPresent spp (tables f) lpn
    → f.pages (page_index spp new) ≡ free
    → valid_ppa spp new ≡ true
    → tables g ≡ remap spp (tables f) lpn new
    → g.ssd.sp ≡ spp
    → Moves spp f g
unfolding update
remap-Moves spp f g lpn new m is_mapped present fresh inside tabs sp' = record {
  preserves = record {
    mapped = record {
      sp_same = sp';
      consistent =
          subst (Consistent spp) (sym tabs)
            (remap-Consistent spp (tables f) lpn new (λ n lt _. m.consistent n lt) fresh inside);
      owned = subst (Owned spp) (sym tabs) (remap-Owned spp (tables f) lpn new m.owned is_mapped);
    };
    present = λ n.
        ap (λ (t : Tables). mapped_ppa (t.maptbl n)) tabs
        ∙ elim (Bool-cases (n == lpn)) [ inl same ↦ ground arith | inr other ↦ rw other ];
  };
  unused =
      λ i u. subst (λ t. Unused spp t i) (sym tabs) (remap-Unused spp (tables f) lpn new i fresh u);
  written = λ i w.
      subst (λ (t : Tables). t.pages i ≢ free) (sym tabs)
        (elim (Bool-cases (i == page_index spp new)) [
          | inl same ↦ rw same (λ e. cc e)
          | inr other ↦ rw other w
        ]);
}

module _ (pq : VictimQueue) (spp : SsdParams) where
  -- Moving a valid page: the logical page that rmap names keeps a page, and the old place is unused.
  gc_move_page-Moves :
      (f : ConvFtl pq.Queue) (p : Ppa)
      → IsMapped spp f
      → f.pages (page_index spp p) ≡ valid
      → Ensures
          (λ r. Moves spp f r.1 × Unused spp (tables r.1) (page_index spp p))
          (gc_move_page pq f p)
  unfolding gc_move_page
  gc_move_page-Moves f p m old =
      let home = page_index spp p in
      Ends-bind (get_rmap_ent-ends f p) λ lpn e. Ensures-assert (valid_lpn f.ssd.sp lpn) λ _.
        Ends-bind (get_new_page-ends f gc_io) λ new is_mapped.
          Ends-bind (install_page-ends pq f lpn new gc_io) λ g (lt, fresh, inside, tabs, sp').
            let fresh' = rw m.sp_same at fresh in
            let inside' = rw m.sp_same at inside in
            let mine : lpn ≡ f.rmap home = rw m.sp_same at e in
            let tabs' : tables g ≡ remap spp (tables f) (f.rmap home) new =
              rw (m.sp_same, mine) at tabs in
            normal (
              remap-Moves spp f g (f.rmap home) new m is_mapped (m.owned home old) fresh' inside'
                  tabs' (sp' ∙ m.sp_same),
              subst (λ t. Unused spp t home) (sym tabs')
                  (remap-Unused_old spp (tables f) new home m.consistent fresh' old),
            )

next_pg-index :
    (spp : SsdParams) (p : Ppa) (n : ℕ)
    → p.pg + suc n < 2 ^ 16
    → (page_index spp (next_pg p) ≡ page_index spp p + 1) × ((next_pg p).pg + n < 2 ^ 16)
unfolding page_index next_pg
next_pg-index spp p n h = (omega arith, omega arith)

-- A property of the places from `i` on, from that of the first place and of the others.
pub cons-places {ℓ} :
    (P : ℕ → Type ℓ) (i j n : ℕ)
    → j ≡ i + 1
    → P i
    → ((k : ℕ) → k < n → P (j + k))
    → (k : ℕ) → k < suc n
    → P (i + k)
cons-places P i j n e here rest zero h = subst P (omega arith) here
cons-places P i j n e here rest (suc k) h = subst P (omega arith) (rest k (omega arith))

not_free-ne : (s : PageStatus) → not (is_free s) ≡ true → s ≢ free
unfolding is_free
not_free-ne s h e = cc (rw e at h)

not_valid-ne : (s : PageStatus) → is_valid s ≡ false → s ≢ valid
unfolding is_valid
not_valid-ne s h e = cc (rw e at h)

valid_ppa-blk : (spp : SsdParams) (p : Ppa) → valid_ppa spp p ≡ true → p.blk < spp.blks_per_pl
unfolding valid_ppa
valid_ppa-blk spp p h = ground arith

module _ {Q : Type 0} (spp : SsdParams) where
  -- What the first loop of clean_one_flashpg finds out about the pages from `p`.
  count_valid-ends :
      (n : ℕ) (f : ConvFtl Q) (p : Ppa) (cnt : ℕ)
      → f.ssd.sp ≡ spp
      → p.pg + n < 2 ^ 16
      → Ensures
          (λ c.
            (cnt ≤ c)
            × ((k : ℕ)
                → k < n
                → (f.pages (page_index spp p + k) ≢ free)
                  × (c ≡ cnt → f.pages (page_index spp p + k) ≢ valid)
                  × (p.blk < spp.blks_per_pl)))
          (count_valid n f p cnt)
  unfolding count_valid
  count_valid-ends zero f p cnt sp room = normal (omega arith, λ k h. absurd (omega arith))
  count_valid-ends (suc n) f p cnt sp room =
      let (next, room') = next_pg-index spp p n room in
      Ends-bind (get_pg-ends f p) λ i (e, inside).
        let here : i ≡ page_index spp p = rw sp at e in
        let blk_lt : p.blk < spp.blks_per_pl = valid_ppa-blk spp p (rw sp at inside) in
        Ensures-assert (not (is_free (f.pages i))) λ not_free.
          let more : ℕ = if is_valid (f.pages i) then cnt + 1 else cnt in
          Ends-map (count_valid-ends n f (next_pg p) more sp room') λ c (le, rest).
            let P : ℕ → Type 0 =
              λ j. (f.pages j ≢ free) × (c ≡ cnt → f.pages j ≢ valid) × (p.blk < spp.blks_per_pl) in
            elim (Bool-cases (is_valid (f.pages i))) [
              | inl old ↦
                  let grown : cnt + 1 ≤ c = rw old at le in
                  (
                    omega arith,
                    cons-places P (page_index spp p) _ n next
                        (
                          rw here at (not_free-ne (f.pages i) not_free),
                          λ e. absurd (omega arith),
                          blk_lt,
                        )
                        λ k h. ((rest k h).0, λ e. absurd (omega arith), blk_lt),
                  )
              | inr gone ↦
                  let same : more ≡ cnt = rw gone in
                  (
                    rw same at le,
                    cons-places P (page_index spp p) _ n next
                        (
                          rw here at (not_free-ne (f.pages i) not_free),
                          λ e. rw here at (not_valid-ne (f.pages i) gone),
                          blk_lt,
                        )
                        λ k h. ((rest k h).0, λ e. (rest k h).1 (e ∙ sym same), blk_lt),
                  )
            ]

module _ (cpu_clock : ℕ → ℕ) (pq : VictimQueue) (spp : SsdParams)
    (xfer_pos : 0 < spp.max_ch_xfer_size) where
  gc_delay-Moves :
      (f : ConvFtl pq.Queue) (ncmd : NandCmd)
      → IsMapped spp f
      → Ensures (Moves spp f) (gc_delay cpu_clock f ncmd)
  gc_delay-Moves f ncmd m =
      Ends-map (gc_delay-Keeps cpu_clock f ncmd (rw m.sp_same xfer_pos)) λ g k. Keeps-Moves spp m k

  -- Moving one valid page.
  gc_write_page-Moves :
      (f : ConvFtl pq.Queue) (p : Ppa)
      → IsMapped spp f
      → f.pages (page_index spp p) ≡ valid
      → Ensures
          (λ g. Moves spp f g × Unused spp (tables g) (page_index spp p))
          (gc_write_page cpu_clock pq f p)
  unfolding gc_write_page last_pg_in_wordline
  gc_write_page-Moves f p m old =
      Ends-bind (gc_move_page-Moves pq spp f p m old) λ (new, g) (moves, gone).
        Ends-bind
          (Ends-bind {Q = λ _. Unit {0}} (divisor-Ensures g.ssd.sp.pgs_per_oneshotpg)
            λ _ _. normal tt)
          λ last _.
            Ends-map (gc_delay-Moves g _ moves.preserves.mapped)
              λ h more. (Moves-trans spp moves more, more.unused _ gone)

  -- The second loop: every page from `p` on is unused in the end.
  copy_valid-Moves :
      (n : ℕ) (f : ConvFtl pq.Queue) (p : Ppa)
      → IsMapped spp f
      → p.pg + n < 2 ^ 16
      → ((k : ℕ) → k < n → f.pages (page_index spp p + k) ≢ free)
      → Ensures
          (λ g. Moves spp f g × ((k : ℕ) → k < n → Unused spp (tables g) (page_index spp p + k)))
          (copy_valid cpu_clock pq n f p)
  unfolding copy_valid
  copy_valid-Moves zero f p m room written =
      normal (Keeps-Moves spp m Keeps-refl, λ k h. absurd (omega arith))
  copy_valid-Moves (suc n) f p m room written =
      let (next, room') = next_pg-index spp p n room in
      let first = page_index spp p in
      let first_written : f.pages first ≢ free =
        subst (λ j. f.pages j ≢ free) (omega arith) (written 0 (omega arith)) in
      Ends-bind (get_pg-ends f p) λ i (e, _).
        let here : i ≡ first = rw m.sp_same at e in
        Ends-bind
          (Ends-if {P = λ g. Moves spp f g × Unused spp (tables g) first} (is_valid (f.pages i))
            (λ old. gc_write_page-Moves f p m (rw here at (is_valid-eq (f.pages i) old)))
            λ gone.
              let not_valid = rw here at (not_valid-ne (f.pages i) gone) in
              normal (
                Keeps-Moves spp m Keeps-refl,
                invalid-Unused spp (tables f) first m.consistent first_written not_valid,
              ))
          λ g (moves, cleared).
            Ends-map
              (copy_valid-Moves n g (next_pg p) moves.preserves.mapped room' (λ k h.
                moves.written _
                  (subst (λ j. f.pages j ≢ free) (omega arith) (written (suc k) (omega arith)))))
              λ h (more, rest). (
                Moves-trans spp moves more,
                cons-places (Unused spp (tables h)) first _ n next (more.unused first cleared) rest,
              )

  -- After clean_one_flashpg no logical page is in the flash page of `p`, every page of which was
  -- written.
  pub clean_one_flashpg-Moves :
      (f : ConvFtl pq.Queue) (p : Ppa)
      → IsMapped spp f
      → p.pg + spp.pgs_per_flashpg < 2 ^ 16
      → Ensures
          (λ g.
            Moves spp f g
            × ((k : ℕ) → k < spp.pgs_per_flashpg → Unused spp (tables g) (page_index spp p + k))
            × (0 < spp.pgs_per_flashpg → p.blk < spp.blks_per_pl))
          (clean_one_flashpg cpu_clock pq f p)
  unfolding clean_one_flashpg
  clean_one_flashpg-Moves f p m room =
      let n = f.ssd.sp.pgs_per_flashpg in
      let size : n ≡ spp.pgs_per_flashpg = ap (λ (s : SsdParams). s.pgs_per_flashpg) m.sp_same in
      let room' : p.pg + n < 2 ^ 16 = rw size room in
      Ends-bind (count_valid-ends spp n f p 0 m.sp_same room') λ cnt (_, found).
        Ends-if (cnt == 0)
          (λ none. normal (
            Keeps-Moves spp m Keeps-refl,
            λ k h.
                let (written, idle, _) = found k (rw size h) in
                invalid-Unused spp (tables f) _ m.consistent written (idle (ground arith)),
            λ h. (found 0 (rw size h)).2,
          ))
          λ _. Ends-bind (gc_delay-Moves f (gc_cmd nand_read (f.ssd.sp.pgsz * cnt) p) m) λ g moves.
            Ends-map
              (copy_valid-Moves n g p moves.preserves.mapped room'
                (λ k h. moves.written _ (found k h).0))
              λ h (more, cleared). (
                Moves-trans spp moves more,
                λ k lt. cleared k (rw size lt),
                λ lt. (found 0 (rw size lt)).2,
              )
