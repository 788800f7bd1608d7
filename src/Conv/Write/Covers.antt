-- ===== src/Conv/Write/Covers.antt =====
-- What a write command does to the namespace as a whole: conv_write of conv_ftl.c.
use nvmevirt_pim.Base.{
  Ensures-assert, ℕ, zero, suc, ◌+◌, ◌/◌, ◌%◌, ◌^◌, ◌<◌, ◌≤◌, ◌≡◌, refl, sym, ◌∙◌, ap, ◌==◌, Bool,
  true, false, leb, ltb, ◌&&◌, ◌||◌, Bool-cases, inl, inr, u64, Ensures, normal, Ends-if, Ends-bind,
  Ends-map, Ensures-divisor, arith,
}
use native.Mathlib.Nat.{div-add-mod}
use nvmevirt_pim.Ssd.Params.{SsdParams}
use nvmevirt_pim.Ssd.Buffer.{Buffer, buffer_allocate}
use nvmevirt_pim.Ssd.Nand.{Ppa}
use nvmevirt_pim.Ssd.Nand.Ops.Ends.{ssd_advance_write_buffer-ends}
use nvmevirt_pim.Zns.State.{Request, Result, nr_lbas_from_rw_cmd}
use nvmevirt_pim.Zns.Write.{lba_to_byte}
use nvmevirt_pim.Conv.State.{VictimQueue}
use nvmevirt_pim.Conv.Geometry.{IsGeometry}
use nvmevirt_pim.Conv.Read.Keeps.{end_lpn-lt}
use nvmevirt_pim.Conv.Namespace.{ConvNamespace, set_part}
use nvmevirt_pim.Conv.Consistent.Frames.{Keeps}
use nvmevirt_pim.Conv.Read.{ConvReply, start_lpn, end_lpn}
use nvmevirt_pim.Conv.Write.{write_page, write_all_pages, write_buffered, conv_write}
use nvmevirt_pim.Conv.Namespace.Parts.{
  has_page, AllMapped, IsPart-IsMapped, part-ends, set_part-Same,
}
use nvmevirt_pim.Conv.Write.Stores.{write_page-Stores}

both_refl : (x y : ℕ) → (x == x && y == y) ≡ true
both_refl x y = ground arith

both_eq : (x x' y y' : ℕ) → (x == x' && y == y') ≡ true → (x ≡ x') × (y ≡ y')
both_eq x x' y y' h = (ground arith, ground arith)

-- The instance and the page in it determine a logical page.
same_place : (p a b : ℕ) → 0 < p → ((a % p) == (b % p) && (a / p) == (b / p)) ≡ (a == b)
same_place p a b pos =
    let ea = div-add-mod a p in
    let eb = div-add-mod b p in
    elim (Bool-cases (a == b)) [
      | inl e ↦ let same : a ≡ b = ground arith in rw (e, same) (both_refl (b % p) (b / p))
      | inr ne ↦ elim (Bool-cases ((a % p) == (b % p) && (a / p) == (b / p))) [
        | inr other ↦ other ∙ sym ne
        | inl both ↦
            let (r, q) = both_eq (a % p) (b % p) (a / p) (b / p) both in
            let same : a ≡ b = sym ea ∙ rw (r, q) eb in absurd (ground (arith, same))
      ]
    ]

-- A range of pages from its first page and the rest.
range_cons :
    (h : Bool) (n first last : ℕ)
    → first ≤ last
    → ((h || n == first) || (leb (first + 1) n && leb n last)) ≡ (h || (leb first n && leb n last))
range_cons h n first last le = ground arith

range_none :
    (h : Bool) (n first last : ℕ) → leb first last ≡ false → h ≡ (h || (leb first n && leb n last))
range_none h n first last e = ground arith

buffer_allocate-ends : (b : Buffer) (size : ℕ) → Ensures (λ _. Unit {0}) (buffer_allocate b size)
unfolding buffer_allocate
buffer_allocate-ends b size = Ensures-assert (leb size b.size) λ _. normal tt

module _ {Q : Type 0} (spp : SsdParams) where
  -- The tables agree in `ms`, and its pages are those of `ns` and the pages from `first` to `last`.
  pub record Covers (first last : ℕ) (ns ms : ConvNamespace Q) : Type 0 where
    pub sound : AllMapped spp ms.ftls
    pub parts : ms.nr_parts ≡ ns.nr_parts
    pub present : (n : ℕ) → has_page ms n ≡ (has_page ns n || (leb first n && leb n last))

module _ (cpu_clock : ℕ → ℕ) (pq : VictimQueue) (spp : SsdParams) (geo : IsGeometry spp) where
  write_page-page :
      (ns : ConvNamespace pq.Queue) (stack_ppa : Ppa) (sq_id stime lpn latest : ℕ)
      → 0 < ns.nr_parts
      → AllMapped spp ns.ftls
      → Ensures
          (λ r.
            AllMapped spp r.1.ftls
            × (r.1.nr_parts ≡ ns.nr_parts)
            × ((n : ℕ) → has_page r.1 n ≡ (has_page ns n || n == lpn)))
          (write_page cpu_clock pq ns stack_ppa sq_id stime lpn latest)
  unfolding has_page
  write_page-page ns stack_ppa sq_id stime lpn latest pos all =
      Ends-map (write_page-Stores cpu_clock pq spp geo ns stack_ppa sq_id stime lpn latest all)
        λ r (stores, parts). (
          stores.sound,
          parts,
          λ n.
              rw (parts, ← same_place ns.nr_parts n lpn pos)
                (stores.grown (n % ns.nr_parts) (n / ns.nr_parts)),
        )

  write_all_pages-Covers :
      (fuel : ℕ) (ns : ConvNamespace pq.Queue) (stack_ppa : Ppa) (sq_id stime last lpn latest : ℕ)
      → 0 < ns.nr_parts
      → last + 1 < 2 ^ 64
      → 0 < fuel
      → last + 1 < lpn + fuel
      → AllMapped spp ns.ftls
      → Ensures
          (λ r. Covers spp lpn last ns r.1)
          (write_all_pages cpu_clock pq fuel ns stack_ppa sq_id stime last lpn latest)
  unfolding write_all_pages
  write_all_pages-Covers zero ns stack_ppa sq_id stime last lpn latest pos small fed enough all =
      absurd (omega arith)
  write_all_pages-Covers (suc fuel) ns stack_ppa sq_id stime last lpn latest pos small fed enough
        all =
      Ends-if (leb lpn last)
        (λ more.
          let le : lpn ≤ last = ground arith in
          let next : u64 (lpn + 1) ≡ lpn + 1 = omega arith in
          Ends-bind (write_page-page ns stack_ppa sq_id stime lpn latest pos all)
            λ (latest', ns') (all', parts, page).
              Ends-map
                (write_all_pages-Covers fuel ns' stack_ppa sq_id stime last (u64 (lpn + 1)) latest'
                  (rw parts pos) small (omega arith) (omega arith) all')
                λ r c. record {
                  sound = c.sound;
                  parts = c.parts ∙ parts;
                  present = λ n.
                      rw next at (c.present n)
                      ∙ ap (λ h. h || (leb (lpn + 1) n && leb n last)) (page n)
                      ∙ range_cons (has_page ns n) n lpn last le;
                })
        λ done. normal (record {
          sound = all;
          parts = refl;
          present = λ n. range_none (has_page ns n) n lpn last done;
        })

  write_buffered-Covers :
      (ns : ConvNamespace pq.Queue) (stack_ppa : Ppa) (req : Request) (ret : Result)
      → 0 < ns.nr_parts
      → AllMapped spp ns.ftls
      → Ensures
          (λ r. Covers spp (start_lpn spp req) (end_lpn spp req) ns r.ns × (r.done ≡ true))
          (write_buffered cpu_clock pq ns stack_ppa req ret)
  unfolding write_buffered
  write_buffered-Covers ns stack_ppa req ret pos all = Ends-bind (part-ends ns 0) λ f p.
      let m = IsPart-IsMapped spp ns 0 f all p in
      Ends-bind (ssd_advance_write_buffer-ends cpu_clock f.ssd req.nsecs_start _)
        λ (xfer_completed, ssd) e.
          let g = record f { ssd = ssd } in
          let k : Keeps f g = record { tables_same = refl; sp_same = e } in
          let same = set_part-Same spp ns 0 f g all p k in
          let first : start_lpn f.ssd.sp req ≡ start_lpn spp req = rw m.sp_same in
          let last : end_lpn f.ssd.sp req ≡ end_lpn spp req = rw m.sp_same in
          Ends-bind
            (write_all_pages-Covers _ (set_part ns 0 g) stack_ppa req.sq_id xfer_completed
              (end_lpn f.ssd.sp req) (start_lpn f.ssd.sp req) xfer_completed (rw same.parts pos)
              (rw last (omega (arith, end_lpn-lt spp geo req))) (omega arith) (omega arith)
              same.sound)
            λ r c. normal (
              record {
                sound = c.sound;
                parts = c.parts ∙ same.parts;
                present = λ n.
                    rw (first, last) at (c.present n)
                    ∙ ap (λ h. h || (leb (start_lpn spp req) n && leb n (end_lpn spp req)))
                        (same.present n);
              },
              refl,
            )

  -- The end of a write command, for the instances `ns` that it started from.
  pub record WriteEnds (ns : ConvNamespace pq.Queue) (req : Request) (r : ConvReply pq.Queue)
      : Type 0 where
    pub sound : AllMapped spp r.ns.ftls
    pub parts : r.ns.nr_parts ≡ ns.nr_parts
    pub stored :
        r.done ≡ true
        → (n : ℕ)
        → has_page r.ns n
          ≡ (has_page ns n || (leb (start_lpn spp req) n && leb n (end_lpn spp req)))
    pub refused : r.done ≡ false → (n : ℕ) → has_page r.ns n ≡ has_page ns n

  unanswered :
      (ns : ConvNamespace pq.Queue) (req : Request) (buffer : Buffer) (ret : Result)
      → AllMapped spp ns.ftls
      → WriteEnds ns req
          (record { done = false; ret = ret; ns = record ns { write_buffer = buffer } })
  unfolding has_page
  unanswered ns req buffer ret all = record {
    sound = all;
    parts = refl;
    stored = λ e. cc e;
    refused = λ _ n. refl;
  }

  -- On a namespace whose tables agree, a write ends. If it ends normally, the tables agree
  -- again; where it is done, the logical pages with a physical page are those that had one and
  -- those of the request, and where it is not done, those that had one.
  pub conv_write-WriteEnds :
      (ns : ConvNamespace pq.Queue) (stack_ppa : Ppa) (req : Request) (ret : Result)
      → AllMapped spp ns.ftls
      → Ensures (WriteEnds ns req) (conv_write cpu_clock pq ns stack_ppa req ret)
  unfolding conv_write has_page
  conv_write-WriteEnds ns stack_ppa req ret all = Ends-bind (part-ends ns 0) λ f p.
      let m = IsPart-IsMapped spp ns 0 f all p in
      let bytes = lba_to_byte (nr_lbas_from_rw_cmd req) in
      Ensures-divisor f.ssd.sp.secs_per_pg λ _. Ensures-divisor ns.nr_parts λ pos.
        Ends-if (leb f.ssd.sp.tt_pgs (end_lpn f.ssd.sp req / ns.nr_parts))
          (λ _. normal (unanswered ns req ns.write_buffer ret all))
          λ _. Ends-bind (buffer_allocate-ends ns.write_buffer bytes) λ (taken, buffer) _.
            let ms = record ns { write_buffer = buffer } in
            Ends-if (ltb taken bytes) (λ _. normal (unanswered ns req buffer ret all))
              λ _. Ends-map (write_buffered-Covers ms stack_ppa req ret pos all) λ r (c, done).
                record {
                  sound = c.sound;
                  parts = c.parts;
                  stored = λ _. c.present;
                  refused = λ e. absurd (cc (e, done));
                }
