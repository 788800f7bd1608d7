-- ===== src/Zns/Send/Outcome.antt =====
-- About zns_mgmt_send.c: the zone state machine that its actions stand for.
use nvmevirt_pim.Base.{
  ℕ, u32, ◌+◌, ◌<◌, ◌≡◌, ◌≢◌, ◌⊎◌, inl, inr, refl, sym, ap, Bool, true, false, get_elem?, set, some,
  set-set, set-get_elem?, Bool-cases, ◌==◌, arith, length, get_elem?-of_lt, Returns, normal,
}
use nvmevirt_pim.Zns.Sc
use nvmevirt_pim.Zns.State.{
  ZoneState, ZoneDescriptor, ZnsFtl, descriptor, change_zone_state, set_descriptor, set_buffer,
}
use nvmevirt_pim.Zns.Resource.{
  active_zone, open_zone, zrwa_zone, is_zone_resource_full, is_zone_resource_avail, set_acquired,
  res_info, acquire_zone_resource, release_zone_resource, acquire_zone_resource-avail,
  acquire_zone_resource-exhausted,
}
use nvmevirt_pim.Zns.Address.{lba_to_zone}
use nvmevirt_pim.Zns.Send.{
  close_from, close_zone, release_active, finish_from, finish_zone, open_closed, open_empty,
  open_from, open_zone_cmd, reset_zone, reset_with, reset_from, reset_zone_cmd, offline_from,
  offline_zone, SendAction, zsa_close, zsa_finish, zsa_open, zsa_reset, zsa_offline,
  zsa_flush_expl_zrwa, zsa_unknown, zmgmt_send,
}
use nvmevirt_pim.Zns.Consistent.{is_active, is_open, IsConsistent}

-- The transitions of a zone, by the action that asks for one; `option` asks for a random write
-- area.
pub data Transition (option : Bool) (d : ZoneDescriptor)
    : SendAction → ZoneDescriptor → Type 0 where
  closes : is_open d ≡ true → Transition option d zsa_close (record d { state = ZoneState.closed })
  stays_closed : d.state ≡ ZoneState.closed → Transition option d zsa_close d
  finishes :
      (is_active d ≡ true) ⊎ (d.state ≡ ZoneState.empty)
      → Transition option d zsa_finish (record d { state = ZoneState.full })
  stays_full : d.state ≡ ZoneState.full → Transition option d zsa_finish d
  opens_empty :
      {d' : ZoneDescriptor}
      → d.state ≡ ZoneState.empty
      → d' ≡ record d { state = ZoneState.opened_expl; zrwav = option }
      → Transition option d zsa_open d'
  opens_active :
      is_active d ≡ true → Transition option d zsa_open (record d { state = ZoneState.opened_expl })
  stays_open : d.state ≡ ZoneState.opened_expl → Transition option d zsa_open d
  resets :
      (is_active d ≡ true) ⊎ (d.state ≡ ZoneState.empty) ⊎ (d.state ≡ ZoneState.full)
      → Transition option d zsa_reset
          (record d { state = ZoneState.empty; wp = d.zslba; zrwav = false })
  offlines :
      d.state ≡ ZoneState.read_only
      → Transition option d zsa_offline (record d { state = ZoneState.offline })
  stays_offline : d.state ≡ ZoneState.offline → Transition option d zsa_offline d

-- What an action leaves of the zone `zid` with the descriptor `d`: all zones but this one stand,
-- and this one made a transition if the status is a success and stands otherwise.
pub data Managed (z : ZnsFtl) (zid : ℕ) (d : ZoneDescriptor) (option : Bool) (action : SendAction)
    : ℕ × ZnsFtl → Type 0 where
  moved :
      {z' : ZnsFtl} (d' : ZoneDescriptor)
      → Transition option d action d'
      → z'.zone_descs ≡ set z.zone_descs zid d'
      → Managed z zid d option action (Sc.success, z')
  refused : {status : ℕ} → status ≢ Sc.success → Managed z zid d option action (status, z)

module _ (z : ZnsFtl) (zid : ℕ) (d : ZoneDescriptor) (option : Bool)
    (at : get_elem? z.zone_descs zid ≡ some d) (v : IsConsistent z) where
  unmoved :
      {action : SendAction}
      → Transition option d action d
      → Managed z zid d option action (Sc.success, z)
  unmoved t = moved d t (sym (set-get_elem? z.zone_descs zid at))

  close_from-Managed :
      (s : ZoneState) → d.state ≡ s → Managed z zid d option zsa_close (close_from s z zid d)
  unfolding close_from is_open
  close_from-Managed ZoneState.opened_impl e = moved _ (closes (rw e)) refl
  close_from-Managed ZoneState.opened_expl e = moved _ (closes (rw e)) refl
  close_from-Managed ZoneState.closed e = unmoved (stays_closed e)
  close_from-Managed ZoneState.empty e = refused (omega arith)
  close_from-Managed ZoneState.full e = refused (omega arith)
  close_from-Managed ZoneState.read_only e = refused (omega arith)
  close_from-Managed ZoneState.offline e = refused (omega arith)

  released_descs : (y : ZnsFtl) → (release_active y d).zone_descs ≡ y.zone_descs
  unfolding release_active
  released_descs y = ground arith

  open_closed-opens :
      (y : ZnsFtl) (e : ZoneDescriptor)
      → is_zone_resource_avail y open_zone ≡ true
      → open_closed y zid e ≡ (
        Sc.success,
        change_zone_state
            (set_acquired y open_zone (u32 ((res_info y open_zone).acquired_cnt + 1)))
            zid
            e
            ZoneState.opened_expl,
      )
  unfolding open_closed
  open_closed-opens y e room = rw (acquire_zone_resource-avail y open_zone room)

  open_closed-refuses :
      (y : ZnsFtl) (e : ZoneDescriptor)
      → is_zone_resource_avail y open_zone ≡ false
      → open_closed y zid e ≡ (Sc.zns_no_open_zone, y)
  unfolding open_closed
  open_closed-refuses y e none_left = rw (acquire_zone_resource-exhausted y open_zone none_left)

  finish_from-Managed :
      (s : ZoneState) → d.state ≡ s → Managed z zid d option zsa_finish (finish_from s z zid d)
  unfolding finish_from is_active
  finish_from-Managed ZoneState.opened_impl e =
      moved _ (finishes (inl (rw e))) (unfold release_active in ground arith)
  finish_from-Managed ZoneState.opened_expl e =
      moved _ (finishes (inl (rw e))) (unfold release_active in ground arith)
  finish_from-Managed ZoneState.closed e =
      moved _ (finishes (inl (rw e))) (unfold release_active in ground arith)
  finish_from-Managed ZoneState.empty e = moved _ (finishes (inr e)) refl
  finish_from-Managed ZoneState.full e = unmoved (stays_full e)
  finish_from-Managed ZoneState.read_only e = refused (omega arith)
  finish_from-Managed ZoneState.offline e = refused (omega arith)

  opens-Managed :
      (y : ZnsFtl) (e d' : ZoneDescriptor)
      → is_zone_resource_avail y open_zone ≡ true
      → Transition option d zsa_open d'
      → set y.zone_descs zid (record e { state = ZoneState.opened_expl }) ≡ set z.zone_descs zid d'
      → Managed z zid d option zsa_open (open_closed y zid e)
  unfolding change_zone_state set_acquired
  opens-Managed y e d' room t descs = rw (open_closed-opens y e room) (moved d' t descs)

  open_closed-Managed :
      d.state ≡ ZoneState.closed → Managed z zid d option zsa_open (open_closed z zid d)
  unfolding is_active
  open_closed-Managed e = elim (Bool-cases (is_zone_resource_avail z open_zone)) [
    | inl room ↦ opens-Managed z d _ room (opens_active (rw e)) refl
    | inr none_left ↦ rw (open_closed-refuses z d none_left) (refused (omega arith))
  ]

  opened : Bool → ZoneDescriptor
  opened zrwa = record d { state = ZoneState.opened_expl; zrwav = zrwa }

  open_empty-Managed :
      (zrwa : Bool)
      → d.state ≡ ZoneState.empty
      → is_zone_resource_full z active_zone ≡ false
      → is_zone_resource_full z open_zone ≡ false
      → option ≡ zrwa
      → Managed z zid d option zsa_open (open_empty z zid d zrwa)
  unfolding open_empty is_zone_resource_avail is_zone_resource_full acquire_zone_resource opened
  open_empty-Managed false e spare room same =
      opens-Managed (acquire_zone_resource z active_zone).1 d (opened false) (ground arith)
        (opens_empty e (ground arith)) (ground (arith, (v.fresh zid d at).no_zrwa))
  open_empty-Managed true e spare room same =
      elim (Bool-cases (is_zone_resource_full z zrwa_zone)) [
        | inl full ↦ rw full (refused (omega arith))
        | inr free ↦ rw free (
            opens-Managed _ (record d { zrwav = true }) (opened true) (ground arith)
              (opens_empty e (ground arith))
              (ground (arith, set-set z.zone_descs zid (record d { zrwav = true }) (opened true))))
      ]

  offline_from-Managed :
      (s : ZoneState) → d.state ≡ s → Managed z zid d option zsa_offline (offline_from s z zid d)
  unfolding offline_from
  offline_from-Managed ZoneState.read_only e = moved _ (offlines e) refl
  offline_from-Managed ZoneState.offline e = unmoved (stays_offline e)
  offline_from-Managed ZoneState.empty e = refused (omega arith)
  offline_from-Managed ZoneState.full e = refused (omega arith)
  offline_from-Managed ZoneState.closed e = refused (omega arith)
  offline_from-Managed ZoneState.opened_impl e = refused (omega arith)
  offline_from-Managed ZoneState.opened_expl e = refused (omega arith)

  open_from-Managed :
      (s : ZoneState) → d.state ≡ s → Managed z zid d option zsa_open (open_from s z zid d option)
  unfolding open_from is_active
  open_from-Managed ZoneState.empty e = elim (Bool-cases (is_zone_resource_full z active_zone)) [
    | inl full ↦ rw full (refused (omega arith))
    | inr spare ↦ elim (Bool-cases (is_zone_resource_full z open_zone)) [
      | inl full ↦ rw (spare, full) (refused (omega arith))
      | inr room ↦ rw (spare, room) (open_empty-Managed option e spare room refl)
    ]
  ]
  open_from-Managed ZoneState.closed e = open_closed-Managed e
  open_from-Managed ZoneState.opened_impl e = moved _ (opens_active (rw e)) refl
  open_from-Managed ZoneState.opened_expl e = unmoved (stays_open e)
  open_from-Managed ZoneState.full e = refused (omega arith)
  open_from-Managed ZoneState.read_only e = refused (omega arith)
  open_from-Managed ZoneState.offline e = refused (omega arith)

  -- A reset, from a state `y` that has the zones of `z`, where the zone's buffer exists.
  module _
      (t : Transition option d zsa_reset
        (record d { state = ZoneState.empty; wp = d.zslba; zrwav = false }))
      (y : ZnsFtl) (descs : y.zone_descs ≡ z.zone_descs)
      (buffered : (y.zp.zrwa_buffer_size ≡ 0) ⊎ (zid < length y.zrwa_buffer)) where
    fresh : ZoneDescriptor
    fresh = record d { state = ZoneState.empty; wp = d.zslba; zrwav = false }

    reset_with-Managed : Returns (Managed z zid d option zsa_reset) (reset_with y zid d)
    unfolding reset_with reset_zone fresh set_descriptor set_buffer
    reset_with-Managed = elim (Bool-cases (y.zp.zrwa_buffer_size == 0)) [
      | inl none_needed ↦ rw none_needed (normal (moved fresh t (ap (λ l. set l zid fresh) descs)))
      | inr needed ↦ elim buffered [
        | inl none_needed ↦ absurd (ground arith)
        | inr there ↦
            let (b, e) = get_elem?-of_lt y.zrwa_buffer zid there in
            rw (needed, e) (normal (moved fresh t (ap (λ l. set l zid fresh) descs)))
      ]
    ]

  module _ (buffered : (z.zp.zrwa_buffer_size ≡ 0) ⊎ (zid < length z.zrwa_buffer)) where
    reset_from-Managed :
        (s : ZoneState)
        → d.state ≡ s
        → Returns (Managed z zid d option zsa_reset) (reset_from s z zid d)
    unfolding reset_from is_active release_active
    reset_from-Managed ZoneState.opened_impl e =
        reset_with-Managed (resets (inl (rw e)))
          (release_active (release_zone_resource z open_zone) d) (ground arith) (ground arith)
    reset_from-Managed ZoneState.opened_expl e =
        reset_with-Managed (resets (inl (rw e)))
          (release_active (release_zone_resource z open_zone) d) (ground arith) (ground arith)
    reset_from-Managed ZoneState.closed e =
        reset_with-Managed (resets (inl (rw e))) (release_active z d) (ground arith) (ground arith)
    reset_from-Managed ZoneState.empty e = reset_with-Managed (resets (inr (inl e))) z refl buffered
    reset_from-Managed ZoneState.full e = reset_with-Managed (resets (inr (inr e))) z refl buffered
    reset_from-Managed ZoneState.read_only e = normal (refused (omega arith))
    reset_from-Managed ZoneState.offline e = normal (refused (omega arith))

-- From a consistent state, close, finish, open, reset and offline return, on a zone that
-- exists and has its ZRWA buffer if there are any. A success is a transition of the zone state
-- machine, of this zone alone; any other status leaves the state as it was.
pub zmgmt_send-Managed :
    (garbage : ℕ) (z : ZnsFtl) (slba : ℕ) (d : ZoneDescriptor) (action : SendAction) (option : Bool)
    → IsConsistent z
    → get_elem? z.zone_descs (lba_to_zone z slba) ≡ some d
    → (z.zp.zrwa_buffer_size ≡ 0) ⊎ (lba_to_zone z slba < length z.zrwa_buffer)
    → action ≢ zsa_flush_expl_zrwa
    → action ≢ zsa_unknown
    → Returns
        (Managed z (lba_to_zone z slba) d option action)
        (zmgmt_send garbage z slba action option)
unfolding zmgmt_send close_zone finish_zone open_zone_cmd reset_zone_cmd offline_zone descriptor
zmgmt_send-Managed garbage z slba d zsa_close option v at b n m =
    rw at (normal (close_from-Managed z _ d option at v d.state refl))
zmgmt_send-Managed garbage z slba d zsa_finish option v at b n m =
    rw at (normal (finish_from-Managed z _ d option at v d.state refl))
zmgmt_send-Managed garbage z slba d zsa_open option v at b n m =
    rw at (normal (open_from-Managed z _ d option at v d.state refl))
zmgmt_send-Managed garbage z slba d zsa_reset option v at b n m =
    rw at (reset_from-Managed z _ d option at v b d.state refl)
zmgmt_send-Managed garbage z slba d zsa_offline option v at b n m =
    rw at (normal (offline_from-Managed z _ d option at v d.state refl))
zmgmt_send-Managed garbage z slba d zsa_flush_expl_zrwa option v at b n m = absurd (n refl)
zmgmt_send-Managed garbage z slba d zsa_unknown option v at b n m = absurd (m refl)
