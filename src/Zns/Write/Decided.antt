-- ===== src/Zns/Write/Decided.antt =====
-- About __zns_write of zns_read_write.c: what its checks decide about the zone.
use nvmevirt_pim.Base.{
  ℕ, ◌+◌, ◌%◌, ◌≡◌, ◌≢◌, inl, inr, refl, ◌∙◌, sym, ap, subst, Bool, true, false, get_elem?, set,
  set-set, set-get_elem?, get_elem?-set, lt-of_get_elem?, u32, u64, some, arith, Bool-cases, ◌==◌,
  if◌then◌else◌, Ensures, normal,
}
use nvmevirt_pim.Zns.Sc
use nvmevirt_pim.Zns.State.{ZoneState, ZoneDescriptor, ZnsFtl, set_descriptor, change_zone_state}
use nvmevirt_pim.Zns.Resource.{
  active_zone, open_zone, is_zone_resource_full, is_zone_resource_avail, acquire_zone_resource,
  acquire_zone_resource-avail, acquire_zone_resource-exhausted, set_acquired,
}
use nvmevirt_pim.Zns.Address.{lbas_per_zone, zone_to_slba, check_boundary_error}
use nvmevirt_pim.Zns.Write.{
  increase_write_ptr, Admission, refused, admitted, open_implicitly, admit_state, admit,
  lba_to_byte,
}
use nvmevirt_pim.Zns.Consistent.{IsConsistent}

-- The state in which a write finds a zone, and the open state in which it is then written.
pub data Opens : ZoneState → ZoneState → Type 0 where
  from_empty : Opens ZoneState.empty ZoneState.opened_impl
  from_closed : Opens ZoneState.closed ZoneState.opened_impl
  implicit : Opens ZoneState.opened_impl ZoneState.opened_impl
  explicit : Opens ZoneState.opened_expl ZoneState.opened_expl

-- The zone behind a write of `nr_lba` blocks, which was written in the state `s`.
unfoldable pub written : ZnsFtl → ℕ → ZoneDescriptor → ZoneState → ℕ → ZoneDescriptor
written z zid d s nr_lba =
    let wp = u64 (d.wp + u32 nr_lba) in
    let end = u64 (zone_to_slba z zid + d.zone_capacity) in
    record d { state = if wp == end then ZoneState.full else s; wp = wp }

-- What the checks decide, in terms of the zone: a refusal leaves it, and a write that goes on
-- starts at the write pointer, stays in the zone and finds it open.
pub data Decided (z : ZnsFtl) (zid : ℕ) (d : ZoneDescriptor) (slba nr_lba : ℕ)
    : Admission → Type 0 where
  refuses : {status : ℕ} → status ≢ Sc.success → Decided z zid d slba nr_lba (refused status z)
  admits :
      {y : ZnsFtl} {s : ZoneState}
      → slba ≡ d.wp
      → check_boundary_error z slba nr_lba ≡ true
      → Opens d.state s
      → y.zone_descs ≡ set z.zone_descs zid (record d { state = s })
      → y.ssd ≡ z.ssd
      → y.zp ≡ z.zp
      → Decided z zid d slba nr_lba (admitted y)

Decided-if :
    {z : ZnsFtl} {zid : ℕ} {d : ZoneDescriptor} {slba nr_lba : ℕ} {x y : Admission} (b : Bool)
    → (b ≡ true → Decided z zid d slba nr_lba x)
    → (b ≡ false → Decided z zid d slba nr_lba y)
    → Decided z zid d slba nr_lba (if b then x else y)
Decided-if true p q = p refl
Decided-if false p q = q refl

module _ (z : ZnsFtl) (zid : ℕ) (d : ZoneDescriptor) (at : get_elem? z.zone_descs zid ≡ some d)
    (v : IsConsistent z) (slba nr_lba : ℕ) (start : slba ≡ d.wp)
    (inside : check_boundary_error z slba nr_lba ≡ true) where
  implicitly-Decided :
      (y : ZnsFtl)
      → Opens d.state ZoneState.opened_impl
      → y.zone_descs ≡ z.zone_descs
      → y.ssd ≡ z.ssd
      → y.zp ≡ z.zp
      → is_zone_resource_avail y open_zone ≡ true
      → Decided z zid d slba nr_lba (open_implicitly y zid d)
  unfolding open_implicitly set_acquired change_zone_state
  implicitly-Decided y o descs ssd zp room = rw (acquire_zone_resource-avail y open_zone room) (
      admits start inside o (ap (λ l. set l zid (record d { state = ZoneState.opened_impl })) descs)
        ssd zp)

  as_is : {s : ZoneState} → d.state ≡ s → Opens s s → Decided z zid d slba nr_lba (admitted z)
  as_is {s} e o =
      admits start inside (subst (λ t. Opens t s) (sym e) o)
        (sym (set-get_elem? z.zone_descs zid at) ∙ ap (set z.zone_descs zid) (ground arith)) refl
        refl

  state-Decided :
      (s : ZoneState) → d.state ≡ s → Decided z zid d slba nr_lba (admit_state s z zid d slba)
  unfolding admit_state is_zone_resource_full is_zone_resource_avail acquire_zone_resource
      set_acquired
  state-Decided ZoneState.empty e =
      Decided-if (slba == d.zslba)
        (λ _.
          Decided-if (is_zone_resource_full z active_zone) (λ _. refuses (omega arith))
            λ spare.
              Decided-if (is_zone_resource_full z open_zone) (λ _. refuses (omega arith))
                λ room.
                  implicitly-Decided (acquire_zone_resource z active_zone).1
                    (subst (λ t. Opens t ZoneState.opened_impl) (sym e) from_empty) (ground arith)
                    (ground arith) (ground arith) (ground arith))
        (λ _. refuses (omega arith))
  state-Decided ZoneState.closed e = elim (Bool-cases (is_zone_resource_avail z open_zone)) [
    | inl room ↦
        implicitly-Decided z (subst (λ t. Opens t ZoneState.opened_impl) (sym e) from_closed) refl
          refl refl room
    | inr none_left ↦
        unfold open_implicitly in
        rw (acquire_zone_resource-exhausted z open_zone none_left) (refuses (omega arith))
  ]
  state-Decided ZoneState.opened_impl e = as_is e implicit
  state-Decided ZoneState.opened_expl e = as_is e explicit
  state-Decided ZoneState.full e = refuses (omega arith)
  state-Decided ZoneState.read_only e = refuses (omega arith)
  state-Decided ZoneState.offline e = refuses (omega arith)

module _ (z : ZnsFtl) (zid : ℕ) (d : ZoneDescriptor) (at : get_elem? z.zone_descs zid ≡ some d)
    (v : IsConsistent z) where
  pub admit-Decided : (slba nr_lba : ℕ) → Decided z zid d slba nr_lba (admit z zid d slba nr_lba)
  unfolding admit
  admit-Decided slba nr_lba =
      Decided-if ((lba_to_byte nr_lba % z.ssd.sp.write_unit_size) == 0)
        (λ _.
          Decided-if (check_boundary_error z slba nr_lba)
            (λ inside.
              Decided-if (slba == d.wp)
                (λ start. state-Decided z zid d at v slba nr_lba (ground arith) inside d.state refl)
                (λ _. refuses (omega arith)))
            (λ _. refuses (omega arith)))
        (λ _. refuses (omega arith))

  -- The write pointer's step, in a state that differs in the state of the zone.
  pub increase-written :
      (y : ZnsFtl) (s : ZoneState) (nr_lba : ℕ)
      → y.zone_descs ≡ set z.zone_descs zid (record d { state = s })
      → y.ssd ≡ z.ssd
      → y.zp ≡ z.zp
      → Ensures
          (λ x. (x.zone_descs ≡ set z.zone_descs zid (written z zid d s nr_lba)) × (x.ssd ≡ z.ssd))
          (increase_write_ptr y zid (u32 nr_lba))
  unfolding increase_write_ptr written set_descriptor change_zone_state
  increase-written y s nr_lba descs ssd zp =
      let here : get_elem? y.zone_descs zid ≡ some (record d { state = s }) = ground (
        arith,
        get_elem?-set z.zone_descs zid zid (record d { state = s })
            (lt-of_get_elem? z.zone_descs zid at),
      ) in
      let same_start : zone_to_slba y zid ≡ zone_to_slba z zid =
        unfold zone_to_slba lbas_per_zone in rw (ssd, zp) refl in
      let placed : (e : ZoneDescriptor) → set y.zone_descs zid e ≡ set z.zone_descs zid e =
        λ e. ap (λ l. set l zid e) descs ∙ set-set z.zone_descs zid (record d { state = s }) e in
      let wp = u64 (d.wp + u32 nr_lba) in
      rw here (
        normal (elim (Bool-cases (wp == u64 (zone_to_slba z zid + d.zone_capacity))) [
          | inl end ↦
              rw (same_start, end) (placed (record d { state = ZoneState.full; wp = wp }), ssd)
          | inr before_end ↦
              rw (same_start, before_end) (placed (record d { state = s; wp = wp }), ssd)
        ]))
