-- ===== src/Zns/Write/Admits.antt =====
-- About __zns_write of zns_read_write.c: its checks and the step of the write pointer, for the
-- invariant.
use nvmevirt_pim.Base.{
  ℕ, ◌+◌, ◌%◌, ◌<◌, ◌≤◌, ◌≡◌, refl, Bool, true, false, get_elem?, set, u32, u64, some, count_if-pos,
  get_elem?-set, lt-of_get_elem?, arith, Bool-cases, inl, inr, ◌==◌, if◌then◌else◌, Ensures, normal,
}
use nvmevirt_pim.Zns.State.{ZoneState, ZoneDescriptor, ZnsFtl, change_zone_state}
use nvmevirt_pim.Zns.Resource.{
  active_zone, open_zone, is_zone_resource_full, is_zone_resource_avail, acquire_zone_resource,
  acquire_zone_resource-avail, acquire_zone_resource-exhausted, set_acquired, res_info,
}
use nvmevirt_pim.Zns.Address.{zone_to_slba, check_boundary_error}
use nvmevirt_pim.Zns.Write.{
  increase_write_ptr, Admission, refused, admitted, open_implicitly, admit_state, admit,
  lba_to_byte,
}
use nvmevirt_pim.Zns.Consistent.{is_active, is_open, IsConsistent}
use nvmevirt_pim.Zns.Consistent.Update.{weight, Update-IsConsistent}

-- Both answers of the checks leave a consistent state; a write that goes on finds its zone open.
pub data Admits (zid : ℕ) : Admission → Type 0 where
  refuses : {status : ℕ} {z : ZnsFtl} → IsConsistent z → Admits zid (refused status z)
  admits :
      {z : ZnsFtl} (d : ZoneDescriptor)
      → IsConsistent z
      → get_elem? z.zone_descs zid ≡ some d
      → is_open d ≡ true
      → Admits zid (admitted z)

pub Admits-if :
    {zid : ℕ} {x y : Admission} (b : Bool)
    → (b ≡ true → Admits zid x)
    → (b ≡ false → Admits zid y)
    → Admits zid (if b then x else y)
Admits-if true p q = p refl
Admits-if false p q = q refl

module _ (z : ZnsFtl) (zid : ℕ) (d : ZoneDescriptor) (at : get_elem? z.zone_descs zid ≡ some d)
    (v : IsConsistent z) where
  unfoldable pub implicit : ZoneDescriptor
  implicit = record d { state = ZoneState.opened_impl }

  pub at_implicit : get_elem? (set z.zone_descs zid implicit) zid ≡ some implicit
  at_implicit =
      ground
        (arith, get_elem?-set z.zone_descs zid zid implicit (lt-of_get_elem? z.zone_descs zid at))

  unfoldable pub reached : ZnsFtl → ZnsFtl
  unfolding set_acquired res_info change_zone_state
  reached y =
      change_zone_state (set_acquired y open_zone (u32 ((res_info y open_zone).acquired_cnt + 1)))
        zid d ZoneState.opened_impl

  -- The implicit open, in a state `y` with the zones of `z`, that counts the zone as active.
  open_implicitly-Admits :
      (y : ZnsFtl)
      → y.zone_descs ≡ z.zone_descs
      → y.open_zone ≡ z.open_zone
      → y.ssd.sp ≡ z.ssd.sp
      → y.zp ≡ z.zp
      → y.active_zone.total_cnt ≡ z.active_zone.total_cnt
      → y.active_zone.acquired_cnt ≤ z.active_zone.total_cnt
      → y.active_zone.acquired_cnt + weight (is_active d) ≡ z.active_zone.acquired_cnt + 1
      → is_open d ≡ false
      → is_zone_resource_avail y open_zone ≡ true
      → Admits zid (open_implicitly y zid d)
  unfolding open_implicitly implicit reached
  open_implicitly-Admits y descs opens params zp total within counts shut avail =
      rw (acquire_zone_resource-avail y open_zone avail) (
        admits {z = reached y} implicit
          (Update-IsConsistent {z = z} {zid = zid} {d' = implicit} at
            (unfold is_active is_open is_zone_resource_avail set_acquired change_zone_state in
              ground arith)
            v)
          (unfold change_zone_state in rw descs at_implicit) (unfold is_open in refl))

  -- The same, for a zone that counts as active already.
  pub reached-IsConsistent :
      is_active d ≡ true
      → is_open d ≡ false
      → is_zone_resource_avail z open_zone ≡ true
      → IsConsistent (reached z)
  unfolding reached is_zone_resource_avail implicit
  reached-IsConsistent a o avail =
      Update-IsConsistent {z = z} {zid = zid} {d' = implicit} at
        (unfold is_active is_open in ground arith) v

  -- A closed zone is active already.
  closed-Admits : d.state ≡ ZoneState.closed → Admits zid (open_implicitly z zid d)
  closed-Admits e = elim (Bool-cases (is_zone_resource_avail z open_zone)) [
    | inl avail ↦
        open_implicitly-Admits z refl refl refl refl refl v.active_within
          (unfold is_active in ground arith) (unfold is_open in rw e) avail
    | inr none_left ↦
        unfold open_implicitly in
        rw (acquire_zone_resource-exhausted z open_zone none_left) (refuses v)
  ]

  empty-Admits :
      (slba : ℕ) → d.state ≡ ZoneState.empty → Admits zid (admit_state ZoneState.empty z zid d slba)
  unfolding admit_state acquire_zone_resource is_zone_resource_full is_zone_resource_avail is_active
  empty-Admits slba e =
      Admits-if (slba == d.zslba)
        (λ _.
          Admits-if (is_zone_resource_full z active_zone) (λ _. refuses v)
            λ spare.
              Admits-if (is_zone_resource_full z open_zone) (λ _. refuses v)
                λ room.
                  open_implicitly-Admits (acquire_zone_resource z active_zone).1 (ground arith)
                    (ground arith) (ground arith) (ground arith) (ground arith) (ground arith)
                    (ground arith) (unfold is_open in rw e) (ground arith))
        (λ _. refuses v)

  admit_state-Admits :
      (s : ZoneState) (slba : ℕ) → d.state ≡ s → Admits zid (admit_state s z zid d slba)
  unfolding admit_state
  admit_state-Admits ZoneState.empty slba e = empty-Admits slba e
  admit_state-Admits ZoneState.closed slba e = closed-Admits e
  admit_state-Admits ZoneState.opened_impl slba e = admits d v at (unfold is_open in rw e)
  admit_state-Admits ZoneState.opened_expl slba e = admits d v at (unfold is_open in rw e)
  admit_state-Admits ZoneState.full slba e = refuses v
  admit_state-Admits ZoneState.read_only slba e = refuses v
  admit_state-Admits ZoneState.offline slba e = refuses v

  pub admit-Admits : (slba nr_lba : ℕ) → Admits zid (admit z zid d slba nr_lba)
  unfolding admit
  admit-Admits slba nr_lba =
      Admits-if ((lba_to_byte nr_lba % z.ssd.sp.write_unit_size) == 0)
        (λ _.
          Admits-if (check_boundary_error z slba nr_lba)
            (λ _.
              Admits-if (slba == d.wp) (λ _. admit_state-Admits d.state slba refl) (λ _. refuses v))
            (λ _. refuses v))
        (λ _. refuses v)

  open-is_active : is_open d ≡ true → is_active d ≡ true
  unfolding is_open is_active
  open-is_active t = ground arith

  active_pos : is_open d ≡ true → 0 < z.active_zone.acquired_cnt
  active_pos t = omega (arith, count_if-pos is_active z.zone_descs zid at (open-is_active t))

  open_pos : is_open d ≡ true → 0 < z.open_zone.acquired_cnt
  open_pos t = omega (arith, count_if-pos is_open z.zone_descs zid at t)

  -- The write pointer of an open zone: at the end of the zone it is full, and counts no more.
  moved : ZoneState → ℕ → ZoneDescriptor
  moved s nr_lba = record d { state = s; wp = u64 (d.wp + nr_lba) }

  increase_at-IsConsistent :
      (nr_lba : ℕ) → is_open d ≡ true → Ensures IsConsistent (increase_write_ptr z zid nr_lba)
  unfolding increase_write_ptr moved
  increase_at-IsConsistent nr_lba t = rw at (
      normal
        (elim (Bool-cases (u64 (d.wp + nr_lba) == u64 (zone_to_slba z zid + d.zone_capacity))) [
          | inl end ↦ rw end (
              Update-IsConsistent {z = z} {zid = zid} {d' = moved ZoneState.full nr_lba} at
                (unfold is_open is_active in ground (arith, active_pos, open_pos)) v)
          | inr inside ↦ rw inside (
              Update-IsConsistent {z = z} {zid = zid} {d' = moved d.state nr_lba} at
                (unfold is_open is_active in ground arith) v)
        ]))

pub increase_write_ptr-IsConsistent :
    (z : ZnsFtl) (zid : ℕ) (d : ZoneDescriptor) (nr_lba : ℕ)
    → IsConsistent z
    → get_elem? z.zone_descs zid ≡ some d
    → is_open d ≡ true
    → Ensures IsConsistent (increase_write_ptr z zid nr_lba)
increase_write_ptr-IsConsistent z zid d nr_lba v at t =
    increase_at-IsConsistent z zid d at v nr_lba t
