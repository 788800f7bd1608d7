-- ===== src/Zns/Write/Same.antt =====
-- About __zns_write of zns_read_write.c: its buffer and its loop over the pages.
use nvmevirt_pim.Base.{
  ℕ, zero, suc, ◌+◌, ◌-◌, ◌*◌, sub64, ◌<◌, ◌≤◌, ◌≡◌, refl, ltb, leb, u64, arith, Ensures, normal,
  Ends-bind, Ends-if, Ends-map, entry-Ensures, assert-Ensures, subst, sym, ◌^◌,
}
use native.Mathlib.Nat.{mod-lt, div-lt_iff_lt-mul, mul-le-mul_left}
use nvmevirt_pim.Ssd.Nand.Ops.Ends.{ssd_advance_nand-ends}
use nvmevirt_pim.Zns.State.{
  InternalOp, ZnsFtl, BufferRef, ssd_buffer, zone_buffer, zrwa_zone_buffer, set_buffer, get_buffer,
  schedule_internal_operation,
}
use nvmevirt_pim.Ssd.Buffer.{Buffer, buffer_allocate}
use nvmevirt_pim.Ssd.Nand.{Ssd}
use nvmevirt_pim.Zns.Address.{lba_to_lpn, lpn_to_ppa}
use nvmevirt_pim.Zns.Write.{program_page, write_round, fills_unit, pages_in_round, write_pages}
use nvmevirt_pim.Zns.Consistent.{IsGeometry, IsConsistent}
use nvmevirt_pim.Zns.Consistent.Update.{SameZones, SameZones-refl, SameZones-trans}

pub SameZones-set_buffer :
    (z : ZnsFtl) (ref : BufferRef) (b : Buffer) → SameZones z (set_buffer z ref b)
unfolding set_buffer
SameZones-set_buffer z ssd_buffer b = ground arith
SameZones-set_buffer z (zone_buffer zid) b = ground arith
SameZones-set_buffer z (zrwa_zone_buffer zid) b = ground arith

pub SameZones-timed :
    (z : ZnsFtl) (ssd : Ssd) (op : InternalOp)
    → ssd.sp ≡ z.ssd.sp
    → SameZones z (schedule_internal_operation (record z { ssd = ssd }) op)
unfolding schedule_internal_operation
SameZones-timed z ssd op e = record {
  descs = refl;
  active_same = refl;
  open_same = refl;
  params_same = e;
  zp_same = refl;
}

pub SameZones-ssd :
    {z : ZnsFtl} (y : ZnsFtl) (ssd : Ssd)
    → ssd.sp ≡ y.ssd.sp
    → SameZones (record y { ssd = ssd }) z
    → SameZones y z
SameZones-ssd y ssd e s = ground arith

pub get_buffer-ends : (z : ZnsFtl) (ref : BufferRef) → Ensures (λ b. Unit {0}) (get_buffer z ref)
unfolding get_buffer
get_buffer-ends z ssd_buffer = normal tt
get_buffer-ends z (zone_buffer zid) = Ends-map (entry-Ensures _) λ b _. tt
get_buffer-ends z (zrwa_zone_buffer zid) = Ends-map (entry-Ensures _) λ b _. tt

pub buffer_allocate-ends :
    (b : Buffer) (size : ℕ) → Ensures (λ r. Unit {0}) (buffer_allocate b size)
unfolding buffer_allocate
buffer_allocate-ends b size = Ends-bind (assert-Ensures (leb size b.size)) λ _ _. normal tt

-- The page of an LBA is no last one of its type.
pub last_page : (z : ZnsFtl) (lba : ℕ) → IsConsistent z → lba_to_lpn z (sub64 lba 1) + 1 < 2 ^ 64
unfolding lba_to_lpn
last_page z lba v =
    let g = v.geometry in
    let positive : 0 < z.ssd.sp.secs_per_pg = omega arith in
    let two64 : 0 < 2 ^ 64 = omega arith in
    let word : sub64 lba 1 < 2 ^ 64 = mod-lt _ two64 in
    let enough : sub64 lba 1 < 2 ^ 63 * z.ssd.sp.secs_per_pg =
      omega (arith, mul-le-mul_left (2 ^ 63) g.secs_per_pg_large) in
    omega (arith, (div-lt_iff_lt-mul positive).1 enough)

module _ (z : ZnsFtl) (lpn elpn : ℕ) where
  pages_in_round-pos : IsGeometry z.ssd.sp → 0 < pages_in_round z lpn elpn
  unfolding pages_in_round
  pages_in_round-pos g = ground (arith, mod-lt (lpn_to_ppa z lpn).pg g.oneshot_pos)

  pages_in_round-le : pages_in_round z lpn elpn ≤ elpn - lpn + 1
  unfolding pages_in_round
  pages_in_round-le = omega arith

module _ (cpu_clock : ℕ → ℕ) where
  program_page-SameZones :
      (z : ZnsFtl) (sq_id lpn last zone_elpn stime latest : ℕ) (buffer : BufferRef)
      → IsGeometry z.ssd.sp
      → Ensures
          (λ r. SameZones z r.1)
          (program_page cpu_clock z sq_id lpn last zone_elpn stime latest buffer)
  unfolding program_page
  program_page-SameZones z sq_id lpn last zone_elpn stime latest buffer g =
      Ends-bind (ssd_advance_nand-ends cpu_clock z.ssd _ g.xfer_pos)
        λ (t, ssd) e. normal (SameZones-timed z ssd _ e)

  write_round-SameZones :
      (z : ZnsFtl) (sq_id lpn pgs zone_elpn stime latest : ℕ) (buffer : BufferRef)
      → IsGeometry z.ssd.sp
      → Ensures
          (λ r. SameZones z r.1)
          (write_round cpu_clock z sq_id lpn pgs zone_elpn stime latest buffer)
  unfolding write_round
  write_round-SameZones z sq_id lpn pgs zone_elpn stime latest buffer g =
      Ends-if (fills_unit z lpn pgs zone_elpn)
        (λ _. program_page-SameZones z sq_id lpn (lpn + pgs - 1) zone_elpn stime latest buffer g)
        (λ _. normal (SameZones-refl z))

  -- With fuel for the pages up to `elpn` the loop ends.
  pub write_pages-SameZones :
      (fuel : ℕ) (z : ZnsFtl) (sq_id lpn elpn zone_elpn stime latest : ℕ) (buffer : BufferRef)
      → IsGeometry z.ssd.sp
      → elpn + 1 < 2 ^ 64
      → elpn + 2 ≤ lpn + fuel
      → 0 < fuel
      → Ensures
          (λ r. SameZones z r.1)
          (write_pages cpu_clock fuel z sq_id lpn elpn zone_elpn stime latest buffer)
  unfolding write_pages
  write_pages-SameZones zero z sq_id lpn elpn zone_elpn stime latest buffer g w h f =
      absurd (omega arith)
  write_pages-SameZones (suc fuel) z sq_id lpn elpn zone_elpn stime latest buffer g w h f =
      Ends-if (ltb elpn lpn) (λ _. normal (SameZones-refl z))
        λ more.
          let pgs = pages_in_round z lpn elpn in
          let some_pages = pages_in_round-pos z lpn elpn g in
          let inside = pages_in_round-le z lpn elpn in
          Ends-bind (write_round-SameZones z sq_id lpn pgs zone_elpn stime latest buffer g)
            λ (latest', z') s.
              Ends-map
                (write_pages-SameZones fuel z' sq_id (u64 (lpn + pgs)) elpn zone_elpn stime latest'
                  buffer (subst IsGeometry (sym s.params_same) g) w (ground arith) (ground arith))
                λ r s'. SameZones-trans s s'
