-- ===== src/Zns/Write/Outcome.antt =====
-- About __zns_write of zns_read_write.c: what it leaves of its zone.
use nvmevirt_pim.Base.{
  ℕ, ◌+◌, ◌-◌, ◌<◌, ◌^◌, ◌≡◌, ◌≢◌, ◌⊎◌, inl, inr, refl, ◌∙◌, sym, ap, subst, true, false, ltb,
  get_elem?, set, sub64, u64, some, arith, Ensures, normal, Ends-bind, Ends-if, Ends-map,
}
use nvmevirt_pim.Ssd.Nand.Ops.Ends.{ssd_advance_write_buffer-ends}
use nvmevirt_pim.Zns.Sc
use nvmevirt_pim.Zns.State.{
  ZoneState, ZoneDescriptor, ZnsFtl, BufferRef, Opcode, Request, Result, Reply, descriptor,
  set_buffer, nr_lbas_from_rw_cmd,
}
use nvmevirt_pim.Zns.Address.{
  lba_to_lpn, zone_to_elpn, lbas_per_zone, lba_to_zone, zone_to_slba, check_boundary_error,
}
use nvmevirt_pim.Zns.Write.{
  Admission, admit, perform_write, decide_write, complete, zns_write_plain, lba_to_byte,
  write_buffer_of, place,
}
use nvmevirt_pim.Zns.Write.Same.{
  SameZones-set_buffer, get_buffer-ends, buffer_allocate-ends, last_page, write_pages-SameZones,
}
use nvmevirt_pim.Zns.Consistent.{IsGeometry, IsConsistent}
use nvmevirt_pim.Zns.Consistent.Update.{
  SameZones, SameZones-refl, SameZones-trans, SameZones-IsConsistent,
}
use nvmevirt_pim.Zns.Write.Decided.{
  Opens, written, Decided, refuses, admits, admit-Decided, increase-written,
}

-- How a write ends: it is to be tried again or refused, and no zone and no counter has changed;
-- or it succeeded, from the write pointer `d.wp` on and within the zone, which was open or could
-- be opened, and the write pointer of this zone alone has moved.
pub data Written (z : ZnsFtl) (zid : ℕ) (d : ZoneDescriptor) : Reply → Type 0 where
  unwritten :
      {r : Reply}
      → (r.done ≡ false) ⊎ (r.ret.status ≢ Sc.success)
      → SameZones z r.ftl
      → Written z zid d r
  wrote :
      {r : Reply} (s : ZoneState)
      → r.done ≡ true
      → r.ret.status ≡ Sc.success
      → r.req.slba ≡ d.wp
      → check_boundary_error z r.req.slba (nr_lbas_from_rw_cmd r.req) ≡ true
      → Opens d.state s
      → r.ftl.zone_descs ≡ set z.zone_descs zid (written z zid d s (nr_lbas_from_rw_cmd r.req))
      → Written z zid d r

module _ (cpu_clock : ℕ → ℕ) (z : ZnsFtl) (zid : ℕ) (d : ZoneDescriptor)
    (at : get_elem? z.zone_descs zid ≡ some d) (v : IsConsistent z) where
  decide_write-Written :
      (a : Admission) (req : Request) (ret : Result) (slpn elpn zone_elpn : ℕ) (buffer : BufferRef)
      → elpn + 1 < 2 ^ 64
      → Decided z zid d req.slba (nr_lbas_from_rw_cmd req) a
      → Ensures (Written z zid d) (
          decide_write cpu_clock a req ret zid (nr_lbas_from_rw_cmd req) slpn elpn zone_elpn buffer)
  unfolding decide_write perform_write complete
  decide_write-Written a req ret slpn elpn zone_elpn buffer w (refuses bad) =
      normal (unwritten (inr bad) (SameZones-refl z))
  decide_write-Written a req ret slpn elpn zone_elpn buffer w
        (admits {y = y} {s = s} start inside opens descs ssd zp) =
      Ends-bind (increase-written z zid d at v y s (nr_lbas_from_rw_cmd req) descs ssd zp)
        λ z1 (moved, ssd1).
          Ends-bind (ssd_advance_write_buffer-ends cpu_clock z1.ssd _ _) λ (xfer, ssd2) e.
            let params : ssd2.sp ≡ z.ssd.sp = e ∙ ap (λ t. t.sp) ssd1 in
            Ends-bind
              (write_pages-SameZones cpu_clock (elpn - slpn + 2) (record z1 { ssd = ssd2 })
                req.sq_id slpn elpn zone_elpn xfer xfer buffer
                (subst IsGeometry (sym params) v.geometry) w (omega arith) (omega arith))
              λ (latest, z3) same.
                normal (wrote s refl refl start inside opens (same.descs ∙ moved))

same_lbas : {z y : ZnsFtl} → SameZones z y → lbas_per_zone y ≡ lbas_per_zone z
unfolding lbas_per_zone
same_lbas s = rw (s.zp_same, s.params_same) refl

same_boundary :
    {z y : ZnsFtl}
    → SameZones z y
    → (slba nr : ℕ) → check_boundary_error y slba nr ≡ check_boundary_error z slba nr
unfolding check_boundary_error lba_to_zone
same_boundary s slba nr = rw (same_lbas s) refl

same_written :
    {z y : ZnsFtl}
    → SameZones z y
    → (zid : ℕ) (d : ZoneDescriptor) (t : ZoneState) (nr : ℕ)
    → set y.zone_descs zid (written y zid d t nr) ≡ set z.zone_descs zid (written z zid d t nr)
unfolding written zone_to_slba
same_written s zid d t nr = rw (same_lbas s, s.descs) refl

Written-SameZones :
    {z y : ZnsFtl} {zid : ℕ} {d : ZoneDescriptor} {r : Reply}
    → SameZones z y
    → Written y zid d r
    → Written z zid d r
Written-SameZones same (unwritten why kept) = unwritten why (SameZones-trans same kept)
Written-SameZones {zid = zid} {d} {r} same (wrote s done success start inside opens descs) =
    wrote s done success start (sym (same_boundary same _ _) ∙ inside) opens
      (descs ∙ same_written same zid d s _)

-- The command that an append becomes has the length of the append.
place-length :
    (op : Opcode) (req : Request) (ret : Result) (wp : ℕ)
    → nr_lbas_from_rw_cmd (place op req ret wp).0 ≡ nr_lbas_from_rw_cmd req
unfolding place
place-length Opcode.write req ret wp = refl
place-length Opcode.zone_append req ret wp = refl
place-length Opcode.read req ret wp = refl

-- From a consistent state, a write or append to an existing zone ends. If it ends normally,
-- then either it is to be tried again or has an error status, and no zone and no counter has
-- changed; or it succeeded, started at the write pointer and stayed in the zone, which was
-- open or could be opened, and has moved the write pointer of this zone alone.
pub zns_write_plain-Written :
    (cpu_clock : ℕ → ℕ) (z : ZnsFtl) (req : Request) (ret : Result) (d : ZoneDescriptor)
    → IsConsistent z
    → get_elem? z.zone_descs (lba_to_zone z req.slba) ≡ some d
    → Ensures (Written z (lba_to_zone z req.slba) d) (zns_write_plain cpu_clock z req ret)
unfolding zns_write_plain descriptor
zns_write_plain-Written cpu_clock z req ret d v at =
    let ref = write_buffer_of z (lba_to_zone z req.slba) in
    let req' = (place req.opcode req ret d.wp).0 in
    let nr = nr_lbas_from_rw_cmd req in
    let long = place-length req.opcode req ret d.wp in
    rw at (
      Ends-bind (get_buffer-ends z ref) λ buffer _.
        Ends-bind (buffer_allocate-ends buffer (lba_to_byte nr)) λ (taken, buffer') _.
          let s = SameZones-set_buffer z ref buffer' in
          let v' = SameZones-IsConsistent s v in
          let at' = ap (λ l. get_elem? l (lba_to_zone z req.slba)) s.descs ∙ at in
          Ends-if (ltb taken (lba_to_byte nr)) (λ _. normal (unwritten (inl refl) s))
            λ _.
              Ends-map
                (subst
                  (λ n. Ensures (Written (set_buffer z ref buffer') (lba_to_zone z req.slba) d) (
                    decide_write cpu_clock
                      (admit (set_buffer z ref buffer') (lba_to_zone z req.slba) d req'.slba n) req'
                      (place req.opcode req ret d.wp).1 (lba_to_zone z req.slba) n
                      (lba_to_lpn z req'.slba) (lba_to_lpn z (sub64 (u64 (req'.slba + n)) 1))
                      (zone_to_elpn z (lba_to_zone z req.slba)) ref))
                  long
                  (decide_write-Written cpu_clock _ _ d at' v' _ req' _ _ _ _ ref (last_page z _ v)
                    (admit-Decided _ _ d at' v' req'.slba _)))
                λ r w. Written-SameZones s w)
