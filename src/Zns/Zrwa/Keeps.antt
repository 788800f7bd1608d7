-- ===== src/Zns/Zrwa/Keeps.antt =====
-- About __zns_write_zrwa and zns_write of zns_read_write.c and the invariant of the zones.
use nvmevirt_pim.Base.{
  ℕ, zero, suc, ◌+◌, ◌/◌, ◌%◌, ◌≡◌, refl, true, ◌||◌, ltb, get_elem?, some, arith, Bool-cases, inl,
  inr, ◌==◌, ap, ◌∙◌, Ensures, normal, stopped, Ends-bind, Ends-if, Ensures-entry, divisor-Ensures,
  at_bug, subst, sym, leb, u64, ◌-◌, ◌<◌, Ends-map, u32,
}
use native.Mathlib.Nat.{mod-lt}
use nvmevirt_pim.Ssd.Nand.Ops.Ends.{ssd_advance_nand-ends, ssd_advance_write_buffer-ends}
use nvmevirt_pim.Zns.State.{
  ZoneState, ZoneDescriptor, ZnsFtl, Request, Result, zrwa_zone_buffer, descriptor,
}
use nvmevirt_pim.Zns.Resource.{
  open_zone, is_zone_resource_avail, acquire_zone_resource-avail, acquire_zone_resource-exhausted,
}
use nvmevirt_pim.Zns.Address.{
  zone_to_elba, lpn_to_ppa, lba_to_zone, lba_to_lpn, lpn_to_zone, check_boundary_error,
}
use nvmevirt_pim.Zns.Address.Laws.{lpn_to_zone-lba_to_lpn}
use nvmevirt_pim.Zns.Write.{Admission, complete, lba_to_byte}
use nvmevirt_pim.Zns.Write.Same.{
  get_buffer-ends, buffer_allocate-ends, SameZones-set_buffer, SameZones-timed, SameZones-ssd,
}
use nvmevirt_pim.Zns.Write.Admits.{
  Admits, refuses, admits, implicit, at_implicit, reached, increase_write_ptr-IsConsistent,
  reached-IsConsistent,
}
use nvmevirt_pim.Zns.Write.Keeps.{zns_write_plain-IsConsistent}
use nvmevirt_pim.Zns.Zrwa.{
  open_with_zrwa, admit_zrwa_state, zrwa_impl_end, zrwa_impl_start, admit_zrwa, nr_lbas_flush,
  pages_flushed, fills_oneshot, program_zrwa, flush_round, flush_pages, finish_zrwa, flush_zrwa,
  perform_zrwa, decide_zrwa, zns_write_zrwa, zns_write,
}
use nvmevirt_pim.Zns.Consistent.{is_active, is_open, IsGeometry, IsConsistent}
use nvmevirt_pim.Zns.Consistent.Update.{
  SameZones, SameZones-refl, SameZones-trans, SameZones-IsConsistent,
}

module _ (z : ZnsFtl) (zid : ℕ) (d : ZoneDescriptor) (at : get_elem? z.zone_descs zid ≡ some d)
    (v : IsConsistent z) where
  open_with_zrwa-Admits : d.state ≡ ZoneState.closed → Ensures (Admits zid) (open_with_zrwa z zid d)
  unfolding open_with_zrwa reached implicit is_active is_open
  open_with_zrwa-Admits e = elim (Bool-cases (is_zone_resource_avail z open_zone)) [
    | inl avail ↦ rw (acquire_zone_resource-avail z open_zone avail) (
        Ensures-entry (get_elem? z.zrwa_buffer zid) λ buffer _.
          Ends-bind (buffer_allocate-ends buffer z.zp.zrwa_size) λ (taken, buffer') _.
            Ends-if (taken == 0) (λ _. stopped at_bug)
              λ _. normal (
                admits (implicit z zid d at v)
                  (SameZones-IsConsistent {z = reached z zid d at v z}
                    (record {
                      descs = refl;
                      active_same = refl;
                      open_same = refl;
                      params_same = refl;
                      zp_same = refl;
                    })
                    (reached-IsConsistent z zid d at v (rw e) (rw e) avail))
                  (at_implicit z zid d at v) refl))
    | inr none_left ↦
        rw (acquire_zone_resource-exhausted z open_zone none_left) (normal (refuses v))
  ]

  admit_zrwa_state-Admits :
      (s : ZoneState)
      → d.state ≡ s
      → d.zrwav ≡ true
      → Ensures (Admits zid) (admit_zrwa_state s z zid d)
  unfolding admit_zrwa_state
  admit_zrwa_state-Admits ZoneState.closed e w = open_with_zrwa-Admits e
  admit_zrwa_state-Admits ZoneState.empty e w =
      absurd (ground (arith, (v.fresh zid d at).no_zrwa e))
  admit_zrwa_state-Admits ZoneState.opened_impl e w =
      normal (admits d v at (unfold is_open in rw e))
  admit_zrwa_state-Admits ZoneState.opened_expl e w =
      normal (admits d v at (unfold is_open in rw e))
  admit_zrwa_state-Admits ZoneState.full e w = normal (refuses v)
  admit_zrwa_state-Admits ZoneState.read_only e w = normal (refuses v)
  admit_zrwa_state-Admits ZoneState.offline e w = normal (refuses v)

  admit_zrwa-Admits :
      (slba nr_lba elba : ℕ)
      → d.zrwav ≡ true
      → Ensures (Admits zid) (admit_zrwa z zid d slba nr_lba elba)
  unfolding admit_zrwa
  admit_zrwa-Admits slba nr_lba elba w =
      Ends-if ((lba_to_byte nr_lba % z.ssd.sp.write_unit_size) == 0)
        (λ _.
          Ends-if (check_boundary_error z slba nr_lba)
            (λ _.
              Ends-if (ltb slba d.wp || ltb (zrwa_impl_end z d) elba) (λ _. normal (refuses v))
                (λ _. admit_zrwa_state-Admits d.state refl w))
            (λ _. normal (refuses v)))
        (λ _. normal (refuses v))

pages_flushed-pos :
    (z : ZnsFtl) (lpn remaining : ℕ)
    → IsGeometry z.ssd.sp
    → 0 < remaining
    → 0 < pages_flushed z lpn remaining
unfolding pages_flushed
pages_flushed-pos z lpn remaining g more =
    ground (arith, mod-lt (lpn_to_ppa z lpn).pg g.oneshot_pos)

nr_lbas_flush-ends :
    (z : ZnsFtl) (zid : ℕ) (d : ZoneDescriptor) (elba : ℕ)
    → Ensures (λ n. Unit {0}) (nr_lbas_flush z zid d elba)
unfolding nr_lbas_flush
nr_lbas_flush-ends z zid d elba =
    Ends-if (leb (zrwa_impl_start z d) elba)
      (λ _. Ends-bind (divisor-Ensures z.zp.lbas_per_zrwafg) λ _ _. normal tt)
      λ _. Ends-if (elba == zone_to_elba z zid) (λ _. normal tt) (λ _. normal tt)

module _ (cpu_clock : ℕ → ℕ) where
  program_zrwa-SameZones :
      (z : ZnsFtl) (sq_id zid lpn stime latest : ℕ)
      → IsGeometry z.ssd.sp
      → Ensures (λ r. SameZones z r.1) (program_zrwa cpu_clock z sq_id zid lpn stime latest)
  unfolding program_zrwa
  program_zrwa-SameZones z sq_id zid lpn stime latest g =
      Ends-bind (ssd_advance_nand-ends cpu_clock z.ssd _ g.xfer_pos)
        λ (t, ssd) e. normal (SameZones-timed z ssd _ e)

  flush_round-SameZones :
      (z : ZnsFtl) (sq_id zid lpn pgs stime latest : ℕ)
      → IsGeometry z.ssd.sp
      → Ensures (λ r. SameZones z r.1) (flush_round cpu_clock z sq_id zid lpn pgs stime latest)
  unfolding flush_round
  flush_round-SameZones z sq_id zid lpn pgs stime latest g =
      Ends-if (fills_oneshot z lpn pgs) (λ _. program_zrwa-SameZones z sq_id zid lpn stime latest g)
        (λ _. normal (SameZones-refl z))

  pub flush_pages-SameZones :
      (fuel : ℕ) (z : ZnsFtl) (sq_id zid lpn remaining stime latest : ℕ)
      → IsGeometry z.ssd.sp
      → remaining < fuel
      → Ensures
          (λ r. SameZones z r.1)
          (flush_pages cpu_clock fuel z sq_id zid lpn remaining stime latest)
  unfolding flush_pages
  flush_pages-SameZones zero z sq_id zid lpn remaining stime latest g h = absurd (omega arith)
  flush_pages-SameZones (suc fuel) z sq_id zid lpn remaining stime latest g h =
      Ends-if (remaining == 0) (λ _. normal (SameZones-refl z))
        λ more.
          let some_pages = pages_flushed-pos z lpn remaining g (ground arith) in
          Ends-bind
            (flush_round-SameZones z sq_id zid lpn (pages_flushed z lpn remaining) stime latest g)
            λ (latest', z') s.
              Ends-map
                (flush_pages-SameZones fuel z' sq_id zid (u64 (lpn + pages_flushed z lpn remaining))
                  (remaining - pages_flushed z lpn remaining) stime latest'
                  (subst IsGeometry (sym s.params_same) g) (ground arith))
                λ r s'. SameZones-trans s s'

  finish_zrwa-IsConsistent :
      (z : ZnsFtl) (req : Request) (ret : Result) (zid prev_wp flushed : ℕ)
      → IsConsistent z
      → Ensures (λ r. IsConsistent r.ftl) (finish_zrwa cpu_clock z req ret zid prev_wp flushed)
  unfolding finish_zrwa complete
  finish_zrwa-IsConsistent z req ret zid prev_wp flushed v =
      Ends-bind (ssd_advance_write_buffer-ends cpu_clock z.ssd _ _) λ (xfer, ssd) e.
        Ends-bind
          (flush_pages-SameZones (flushed / z.ssd.sp.secs_per_pg + 1) (record z { ssd = ssd })
            req.sq_id zid (lba_to_lpn z prev_wp) (flushed / z.ssd.sp.secs_per_pg) xfer xfer
            (subst IsGeometry (sym e) v.geometry) (omega arith))
          λ (latest, z') s. normal (SameZones-IsConsistent (SameZones-ssd z ssd e s) v)

  flush_zrwa-IsConsistent :
      (z : ZnsFtl) (req : Request) (ret : Result) (zid prev_wp flushed : ℕ) (d : ZoneDescriptor)
      → IsConsistent z
      → get_elem? z.zone_descs zid ≡ some d
      → is_open d ≡ true
      → Ensures (λ r. IsConsistent r.ftl) (flush_zrwa cpu_clock z req ret zid prev_wp flushed)
  unfolding flush_zrwa
  flush_zrwa-IsConsistent z req ret zid prev_wp flushed d v at t =
      Ends-bind (get_buffer-ends z (zrwa_zone_buffer zid)) λ buffer _.
        Ends-bind (buffer_allocate-ends buffer _) λ (taken, buffer') _.
          let s = SameZones-set_buffer z (zrwa_zone_buffer zid) buffer' in
          let v' = SameZones-IsConsistent s v in
          let at' = ap (λ l. get_elem? l zid) s.descs ∙ at in
          Ends-if (taken == 0) (λ _. normal v')
            λ _.
              Ends-bind (increase_write_ptr-IsConsistent _ zid d (u32 flushed) v' at' t)
                λ z'' v''. finish_zrwa-IsConsistent z'' req ret zid prev_wp flushed v''

  decide_zrwa-IsConsistent :
      (a : Admission) (req : Request) (ret : Result) (d : ZoneDescriptor) (zid elba : ℕ)
      → Admits zid a
      → Ensures (λ r. IsConsistent r.ftl) (decide_zrwa cpu_clock a req ret d zid elba)
  unfolding decide_zrwa complete perform_zrwa
  decide_zrwa-IsConsistent a req ret d zid elba (refuses v) = normal v
  decide_zrwa-IsConsistent a req ret d zid elba (admits {z = z} e v at t) =
      Ends-bind (nr_lbas_flush-ends z zid d elba) λ flushed _.
        Ends-if (ltb 0 flushed) (λ _. flush_zrwa-IsConsistent z req ret zid d.wp flushed e v at t)
          (λ _. finish_zrwa-IsConsistent z req ret zid d.wp flushed v)

  zns_write_zrwa-IsConsistent :
      (z : ZnsFtl) (req : Request) (ret : Result)
      → IsConsistent z
      → ((d : ZoneDescriptor)
          → get_elem? z.zone_descs (lba_to_zone z req.slba) ≡ some d
          → d.zrwav ≡ true)
      → Ensures (λ r. IsConsistent r.ftl) (zns_write_zrwa cpu_clock z req ret)
  unfolding zns_write_zrwa descriptor
  zns_write_zrwa-IsConsistent z req ret v w =
      Ensures-entry (get_elem? z.zone_descs (lba_to_zone z req.slba)) λ d at.
        Ends-bind (admit_zrwa-Admits z (lba_to_zone z req.slba) d at v _ _ _ (w d at))
          λ a h. decide_zrwa-IsConsistent a req ret d _ _ h

  -- From a consistent state a write ends, to a zone with or without a random write area, and
  -- if it ends normally the state is consistent again.
  pub zns_write-IsConsistent :
      (z : ZnsFtl) (req : Request) (ret : Result)
      → IsConsistent z
      → Ensures (λ r. IsConsistent r.ftl) (zns_write cpu_clock z req ret)
  unfolding zns_write descriptor
  zns_write-IsConsistent z req ret v =
      let same = lpn_to_zone-lba_to_lpn z req.slba v.whole_pages in
      Ensures-entry (get_elem? z.zone_descs (lpn_to_zone z (lba_to_lpn z req.slba))) λ d at.
        Ends-if d.zrwav (λ w. zns_write_zrwa-IsConsistent z req ret v λ e at'. ground arith)
          (λ _. zns_write_plain-IsConsistent cpu_clock z req ret v)
