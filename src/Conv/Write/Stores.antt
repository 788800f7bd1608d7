-- ===== src/Conv/Write/Stores.antt =====
-- What the write of one page does to the namespace: to the instance that holds the page, and to the
-- others.
use nvmevirt_pim.Base.{
  ℕ, ◌/◌, ◌%◌, ◌≡◌, refl, sym, ◌∙◌, ap, subst, ◌==◌, Bool, true, false, ◌&&◌, ◌||◌, Bool-cases, inl,
  inr, List, get_elem?, set, lt-of_get_elem?, set-set, some, Ensures, normal, Ends-if, Ends-bind,
  divisor-Ensures, arith,
}
use nvmevirt_pim.Ssd.Params.{SsdParams}
use nvmevirt_pim.Ssd.Nand.{Ppa}
use nvmevirt_pim.Ssd.Nand.Ops.Ends.{ssd_advance_nand-ends}
use nvmevirt_pim.Conv.State.{ConvFtl, VictimQueue}
use nvmevirt_pim.Conv.Geometry.{IsGeometry}
use nvmevirt_pim.Conv.Map.{mapped_ppa, last_pg_in_wordline}
use nvmevirt_pim.Conv.Lines.{consume_write_credit}
use nvmevirt_pim.Conv.Namespace.{ConvNamespace, set_part}
use nvmevirt_pim.Conv.Namespace.Parts.{
  holds, AllMapped, holds-set, AllMapped-set, holds-found, set-found, part-ends, IsPart-IsMapped,
}
use nvmevirt_pim.Conv.Consistent.{Tables}
use nvmevirt_pim.Conv.Consistent.Frames.{Keeps, Keeps-trans}
use nvmevirt_pim.Conv.Gc.Moves.{Preserves-trans}
use nvmevirt_pim.Conv.Gc.Safe.{Keeps-Preserves, consume-Preserves, refill-Preserves}
use nvmevirt_pim.Conv.Write.{program_wordline, write_page}
use nvmevirt_pim.Conv.Write.Grows.{Grows, forget_old-Opened, map_new-Grows}

or-false : (b : Bool) → (b || false) ≡ b
or-false true = refl
or-false false = refl

module _ {Q : Type 0} where
  -- The instances `gs` are `fs` with a physical page for page `k` of instance `i`.
  pub record Stores (spp : SsdParams) (i k : ℕ) (fs gs : List (ConvFtl Q)) : Type 0 where
    pub sound : AllMapped spp gs
    pub grown : (j n : ℕ) → holds gs j n ≡ (holds fs j n || (j == i && n == k))

  pub Grows-Stores :
      (spp : SsdParams) (fs : List (ConvFtl Q)) (i k : ℕ) (f g : ConvFtl Q)
      → get_elem? fs i ≡ some f
      → AllMapped spp fs
      → Grows spp k f g
      → Stores spp i k fs (set fs i g)
  Grows-Stores spp fs i k f g found all grows =
      let lt = lt-of_get_elem? fs i found in
      record {
        sound = AllMapped-set spp fs i g lt all grows.mapped;
        grown = λ j n. holds-set fs i j n g lt ∙ elim (Bool-cases (i == j)) [
          | inl e ↦
              let here : i ≡ j = ground arith in
              let same : (j == i) ≡ true = ground arith in
              let old : holds fs j n ≡ mapped_ppa (f.maptbl n) =
                holds-found fs j n (rw here at found) in
              rw (e, same, old) (grows.present n)
          | inr e ↦
              let other : (j == i) ≡ false = ground arith in
              rw (e, other) (sym (or-false (holds fs j n)))
        ];
      }

module _ (cpu_clock : ℕ → ℕ) (pq : VictimQueue) (spp : SsdParams) (geo : IsGeometry spp) where
  -- The programming of a one-shot page touches no table.
  record Programmed (ns : ConvNamespace pq.Queue) (f : ConvFtl pq.Queue) (i : ℕ)
      (r : ConvNamespace pq.Queue) : Type 0 where
    kept : ConvFtl pq.Queue
    keeps : Keeps f kept
    placed : r.ftls ≡ set ns.ftls i kept
    parts : r.nr_parts ≡ ns.nr_parts

  program_wordline-ends :
      (ns : ConvNamespace pq.Queue) (f : ConvFtl pq.Queue) (p : Ppa) (i sq_id stime latest : ℕ)
      → f.ssd.sp ≡ spp
      → Ensures
          (λ r. Programmed ns f i r.1)
          (program_wordline cpu_clock pq ns f p i sq_id stime latest)
  unfolding program_wordline last_pg_in_wordline set_part
  program_wordline-ends ns f p i sq_id stime latest sp =
      Ends-bind {P = λ _. Unit {0}}
        (Ends-bind (divisor-Ensures f.ssd.sp.pgs_per_oneshotpg) λ _ _. normal tt)
        λ last _.
          Ends-if last
            (λ _.
              Ends-bind (ssd_advance_nand-ends cpu_clock f.ssd _ (rw sp geo.xfer_pos))
                λ (completed, ssd) e. normal (record {
                  kept = record f { ssd = ssd };
                  keeps = record { tables_same = refl; sp_same = e };
                  placed = refl;
                  parts = refl;
                }))
            λ _. normal (record {
              kept = f;
              keeps = record { tables_same = refl; sp_same = refl };
              placed = refl;
              parts = refl;
            })

  -- One page is written: its instance holds it, and no instance loses a page.
  pub write_page-Stores :
      (ns : ConvNamespace pq.Queue) (stack_ppa : Ppa) (sq_id stime lpn latest : ℕ)
      → AllMapped spp ns.ftls
      → Ensures
          (λ r.
            Stores spp (lpn % ns.nr_parts) (lpn / ns.nr_parts) ns.ftls r.1.ftls
            × (r.1.nr_parts ≡ ns.nr_parts))
          (write_page cpu_clock pq ns stack_ppa sq_id stime lpn latest)
  unfolding write_page set_part
  write_page-Stores ns stack_ppa sq_id stime lpn latest all =
      let i = lpn % ns.nr_parts in
      let k = lpn / ns.nr_parts in
      Ends-bind (part-ends ns i) λ f p.
        let m = IsPart-IsMapped spp ns i f all p in
        Ends-bind (forget_old-Opened pq spp f k m) λ f1 opened.
          Ends-bind (map_new-Grows pq spp f f1 k opened) λ (ppa, f2) grows.
            Ends-bind (program_wordline-ends ns f2 ppa i sq_id stime latest grows.mapped.sp_same)
              λ (latest', ns1) w. Ends-bind (part-ends ns1 i) λ f3 p3.
                let same : w.kept ≡ p3.stored =
                  set-found ns.ftls i (lt-of_get_elem? ns.ftls i p.found)
                    (rw w.placed at p3.found) in
                let k3 : Keeps f2 f3 =
                  Keeps-trans w.keeps (subst (λ h. Keeps h f3) (sym same) p3.keeps) in
                let q3 = Keeps-Preserves spp grows.mapped k3 in
                let q = Preserves-trans spp q3 (consume-Preserves spp f3 q3.mapped) in
                Ends-bind
                  (refill-Preserves cpu_clock pq spp geo stack_ppa (consume_write_credit f3)
                    q.mapped)
                  λ f4 q4.
                    let total : Grows spp k p.stored f4 = record {
                      mapped = q4.mapped;
                      present = λ n.
                          q4.present n
                          ∙ q.present n
                          ∙ grows.present n
                          ∙ ap (λ (t : Tables). mapped_ppa (t.maptbl n) || n == k)
                              p.keeps.tables_same;
                    } in
                    let placed : set ns1.ftls i f4 ≡ set ns.ftls i f4 =
                      rw w.placed (set-set ns.ftls i w.kept f4) in
                    normal (
                      subst (Stores spp i k ns.ftls) (sym placed)
                          (Grows-Stores spp ns.ftls i k p.stored f4 p.found all total),
                      w.parts,
                    )
