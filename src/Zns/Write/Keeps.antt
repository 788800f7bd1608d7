-- ===== src/Zns/Write/Keeps.antt =====
-- About __zns_write of zns_read_write.c and the invariant of the zones.
use nvmevirt_pim.Base.{
  ℕ, ◌+◌, ◌-◌, ◌<◌, ◌≡◌, true, ltb, get_elem?, u32, some, arith, Ensures, normal, Ends-bind,
  Ends-if, Ensures-entry, subst, sym, ◌^◌, ◌∙◌, ap,
}
use nvmevirt_pim.Ssd.Nand.Ops.Ends.{ssd_advance_write_buffer-ends}
use nvmevirt_pim.Zns.State.{
  ZoneDescriptor, ZnsFtl, BufferRef, Request, Result, descriptor, nr_lbas_from_rw_cmd,
}
use nvmevirt_pim.Zns.Address.{lba_to_zone}
use nvmevirt_pim.Zns.Write.{
  Admission, perform_write, decide_write, complete, zns_write_plain, lba_to_byte, write_buffer_of,
}
use nvmevirt_pim.Zns.Consistent.{is_open, IsGeometry, IsConsistent}
use nvmevirt_pim.Zns.Consistent.Update.{SameZones-IsConsistent}
use nvmevirt_pim.Zns.Write.Same.{
  SameZones-set_buffer, SameZones-ssd, get_buffer-ends, buffer_allocate-ends, last_page,
  write_pages-SameZones,
}
use nvmevirt_pim.Zns.Write.Admits.{
  Admits, refuses, admits, admit-Admits, increase_write_ptr-IsConsistent,
}

module _ (cpu_clock : ℕ → ℕ) where
  perform_write-IsConsistent :
      (z : ZnsFtl) (req : Request) (ret : Result) (zid nr_lba slpn elpn zone_elpn : ℕ)
      (buffer : BufferRef) (d : ZoneDescriptor)
      → IsConsistent z
      → get_elem? z.zone_descs zid ≡ some d
      → is_open d ≡ true
      → elpn + 1 < 2 ^ 64
      → Ensures
          (λ r. IsConsistent r.ftl)
          (perform_write cpu_clock z req ret zid nr_lba slpn elpn zone_elpn buffer)
  unfolding perform_write complete
  perform_write-IsConsistent z req ret zid nr_lba slpn elpn zone_elpn buffer d v at t w =
      Ends-bind (increase_write_ptr-IsConsistent z zid d (u32 nr_lba) v at t) λ z1 v1.
        Ends-bind (ssd_advance_write_buffer-ends cpu_clock z1.ssd _ _) λ (xfer, ssd) e.
          Ends-bind
            (write_pages-SameZones cpu_clock (elpn - slpn + 2) (record z1 { ssd = ssd }) req.sq_id
              slpn elpn zone_elpn xfer xfer buffer (subst IsGeometry (sym e) v1.geometry) w
              (omega arith) (omega arith))
            λ (latest, z3) s. normal (SameZones-IsConsistent (SameZones-ssd z1 ssd e s) v1)

  decide_write-IsConsistent :
      (a : Admission) (req : Request) (ret : Result) (zid nr_lba slpn elpn zone_elpn : ℕ)
      (buffer : BufferRef)
      → Admits zid a
      → elpn + 1 < 2 ^ 64
      → Ensures
          (λ r. IsConsistent r.ftl)
          (decide_write cpu_clock a req ret zid nr_lba slpn elpn zone_elpn buffer)
  unfolding decide_write complete
  decide_write-IsConsistent a req ret zid nr_lba slpn elpn zone_elpn buffer (refuses v) w = normal v
  decide_write-IsConsistent a req ret zid nr_lba slpn elpn zone_elpn buffer (admits d v at t) w =
      perform_write-IsConsistent _ req ret zid nr_lba slpn elpn zone_elpn buffer d v at t w

  pub zns_write_plain-IsConsistent :
      (z : ZnsFtl) (req : Request) (ret : Result)
      → IsConsistent z
      → Ensures (λ r. IsConsistent r.ftl) (zns_write_plain cpu_clock z req ret)
  unfolding zns_write_plain descriptor
  zns_write_plain-IsConsistent z req ret v =
      Ensures-entry (get_elem? z.zone_descs (lba_to_zone z req.slba)) λ d at.
        Ends-bind (get_buffer-ends z (write_buffer_of z _)) λ buffer _.
          Ends-bind (buffer_allocate-ends buffer _) λ (taken, buffer') _.
            let s = SameZones-set_buffer z (write_buffer_of z (lba_to_zone z req.slba)) buffer' in
            let v' = SameZones-IsConsistent s v in
            Ends-if (ltb taken (lba_to_byte (nr_lbas_from_rw_cmd req))) (λ _. normal v')
              λ _.
                decide_write-IsConsistent _ _ _ _ _ _ _ _ _
                  (admit-Admits _ _ d (ap (λ l. get_elem? l (lba_to_zone z req.slba)) s.descs ∙ at)
                    v' _ _)
                  (last_page z _ v)
