-- ===== src/Zns/Send/Keeps.antt =====
-- About zns_mgmt_send.c: its actions and the invariant of the zones and their counters.
use nvmevirt_pim.Base.{
  ℕ, zero, suc, ◌+◌, ◌<◌, ◌≡◌, refl, Bool, true, false, get_elem?, set, u64, some, set-set,
  count_if-pos, arith, Bool-cases, inl, inr, ◌==◌, divisor-Ensures, not, ◌&&◌, leb, sub64, ◌%◌,
  Ensures, normal, Ends-bind, Ends-if, Ensures-entry,
}
use nvmevirt_pim.Zns.State.{ZoneState, ZoneDescriptor, ZnsFtl, change_zone_state}
use nvmevirt_pim.Zns.Resource.{
  active_zone, open_zone, zrwa_zone, is_zone_resource_full, release_zone_resource,
}
use nvmevirt_pim.Zns.Address.{lba_to_zone, zone_to_slba, storage_offset}
use nvmevirt_pim.Zns.Send.{
  close_from, close_zone, release_active, finish_from, finish_zone, open_closed, open_empty,
  open_from, open_zone_cmd, clear_storage, reset_zone, reset_with, reset_from, reset_zone_cmd,
  offline_from, offline_zone, flush_open, flush_from, flush_explicit_zrwa, zrwa_end, SendAction,
  zsa_close, zsa_finish, zsa_open, zsa_reset, zsa_offline, zsa_flush_expl_zrwa, zsa_unknown,
  zmgmt_send, send_all, zns_zmgmt_send,
}
use nvmevirt_pim.Zns.Consistent.{is_active, is_open, IsConsistent}
use nvmevirt_pim.Zns.Consistent.Update.{Update, Update-IsConsistent, SameZones-IsConsistent}

module _ (z : ZnsFtl) (zid : ℕ) (d : ZoneDescriptor) (at : get_elem? z.zone_descs zid ≡ some d)
    (v : IsConsistent z) where
  active_pos : is_active d ≡ true → 0 < z.active_zone.acquired_cnt
  active_pos t = omega (arith, count_if-pos is_active z.zone_descs zid at t)

  open_pos : is_open d ≡ true → 0 < z.open_zone.acquired_cnt
  open_pos t = omega (arith, count_if-pos is_open z.zone_descs zid at t)

  replaced : {z' : ZnsFtl} (d' : ZoneDescriptor) → Update z z' zid d d' → IsConsistent z'
  replaced d' u = Update-IsConsistent {zid = zid} at u v

  close_from-IsConsistent : (s : ZoneState) → d.state ≡ s → IsConsistent (close_from s z zid d).1
  unfolding close_from is_active is_open
  close_from-IsConsistent ZoneState.opened_impl e =
      replaced (record d { state = ZoneState.closed }) (ground (arith, open_pos))
  close_from-IsConsistent ZoneState.opened_expl e =
      replaced (record d { state = ZoneState.closed }) (ground (arith, open_pos))
  close_from-IsConsistent _ e = v

  finished : ZoneState → ZoneDescriptor
  finished s = record d { state = s }

  finish_from-IsConsistent : (s : ZoneState) → d.state ≡ s → IsConsistent (finish_from s z zid d).1
  unfolding finish_from is_active is_open finished
  finish_from-IsConsistent ZoneState.opened_impl e =
      replaced (finished ZoneState.full) (ground (arith, open_pos, active_pos))
  finish_from-IsConsistent ZoneState.opened_expl e =
      replaced (finished ZoneState.full) (ground (arith, open_pos, active_pos))
  finish_from-IsConsistent ZoneState.closed e =
      replaced (finished ZoneState.full) (ground (arith, active_pos))
  finish_from-IsConsistent ZoneState.empty e = replaced (finished ZoneState.full) (ground arith)
  finish_from-IsConsistent _ e = v

  -- An open of a closed zone, or the end of an open of an empty one.
  opened : Bool → ZoneDescriptor
  opened zrwa = record d { state = ZoneState.opened_expl; zrwav = zrwa }

  open_closed-IsConsistent : d.state ≡ ZoneState.closed → IsConsistent (open_closed z zid d).1
  unfolding open_closed is_zone_resource_full is_active is_open opened
  open_closed-IsConsistent e = elim (Bool-cases (is_zone_resource_full z open_zone)) [
    | inl full ↦ SameZones-IsConsistent {z = z} (ground arith) v
    | inr room ↦ replaced (opened d.zrwav) (ground arith)
  ]

  open_empty-IsConsistent :
      (zrwa : Bool)
      → d.state ≡ ZoneState.empty
      → is_zone_resource_full z active_zone ≡ false
      → is_zone_resource_full z open_zone ≡ false
      → IsConsistent (open_empty z zid d zrwa).1
  unfolding open_empty is_active is_open opened
  open_empty-IsConsistent false e a o = replaced (opened d.zrwav) (ground arith)
  open_empty-IsConsistent true e a o = elim (Bool-cases (is_zone_resource_full z zrwa_zone)) [
    | inl full ↦ SameZones-IsConsistent {z = z} (ground arith) v
    | inr room ↦
        replaced (opened true)
          (ground (arith, set-set z.zone_descs zid (record d { zrwav = true }) (opened true)))
  ]

  offline_from-IsConsistent :
      (s : ZoneState) → d.state ≡ s → IsConsistent (offline_from s z zid d).1
  unfolding offline_from is_active is_open finished
  offline_from-IsConsistent ZoneState.read_only e =
      replaced (finished ZoneState.offline) (ground arith)
  offline_from-IsConsistent _ e = v

  open_from-IsConsistent :
      (s : ZoneState) (zrwa : Bool) → d.state ≡ s → IsConsistent (open_from s z zid d zrwa).1
  unfolding open_from
  open_from-IsConsistent ZoneState.empty zrwa e =
      elim (Bool-cases (is_zone_resource_full z active_zone)) [
        | inl full ↦ rw full v
        | inr spare ↦ elim (Bool-cases (is_zone_resource_full z open_zone)) [
          | inl full ↦ rw (spare, full) v
          | inr room ↦ rw (spare, room) (open_empty-IsConsistent zrwa e spare room)
        ]
      ]
  open_from-IsConsistent ZoneState.closed zrwa e = open_closed-IsConsistent e
  open_from-IsConsistent ZoneState.opened_impl zrwa e =
      replaced (opened d.zrwav) (unfold is_active is_open opened change_zone_state in ground arith)
  open_from-IsConsistent _ zrwa e = v

  -- The descriptor that a reset leaves.
  reset : ZoneDescriptor
  reset = record d { state = ZoneState.empty; wp = d.zslba; zrwav = false }

  -- The descriptor that an explicit flush leaves, and its test for the end of the zone.
  flushed : ZoneState → ℕ → ZoneDescriptor
  flushed s slba = record d { state = s; wp = u64 (slba + 1) }

  at_end : ℕ → Bool
  at_end slba = u64 (slba + 1) == u64 (zone_to_slba z zid + d.zone_capacity)

  flush_open-IsConsistent :
      (release_open : Bool) (slba : ℕ)
      → is_active d ≡ true
      → is_open d ≡ release_open
      → IsConsistent (flush_open release_open z zid d slba).1
  unfolding flush_open at_end
  flush_open-IsConsistent release_open slba a o = elim (Bool-cases (at_end slba)) [
    | inl end ↦
        replaced (flushed ZoneState.full slba)
          (unfold flushed is_active is_open in ground (arith, open_pos, active_pos))
    | inr inside ↦
        replaced (flushed d.state slba) (unfold flushed is_active is_open in ground arith)
  ]

  flush_from-IsConsistent :
      (s : ZoneState) (slba : ℕ) → d.state ≡ s → IsConsistent (flush_from s z zid d slba).1
  unfolding flush_from
  flush_from-IsConsistent ZoneState.opened_expl slba e =
      flush_open-IsConsistent true slba (unfold is_active in rw e) (unfold is_open in rw e)
  flush_from-IsConsistent ZoneState.opened_impl slba e =
      flush_open-IsConsistent true slba (unfold is_active in rw e) (unfold is_open in rw e)
  flush_from-IsConsistent ZoneState.closed slba e =
      flush_open-IsConsistent false slba (unfold is_active in rw e) (unfold is_open in rw e)
  flush_from-IsConsistent _ slba e = v

  -- A reset, after the counters of the zone were given back.
  module _ (y : ZnsFtl) (descs : y.zone_descs ≡ z.zone_descs)
      (u : Update z (record y { zone_descs = set z.zone_descs zid reset }) zid d reset) where
    reset_zone-IsConsistent : Ensures IsConsistent (reset_zone y zid d)
    unfolding reset_zone reset
    reset_zone-IsConsistent =
        Ends-if (y.zp.zrwa_buffer_size == 0) (λ _. normal base)
          (λ _.
            Ensures-entry (get_elem? y.zrwa_buffer zid)
              (λ b e. normal (SameZones-IsConsistent (ground arith) base)))
      where
        base : IsConsistent (record y {
          zone_descs = set y.zone_descs zid reset;
          storage = clear_storage y.storage (storage_offset y zid) y.zp.zone_size;
        })
        base =
            SameZones-IsConsistent {z = record y { zone_descs = set z.zone_descs zid reset }}
              (ground arith) (replaced reset u)

    reset_with-IsConsistent : Ensures (λ r. IsConsistent r.1) (reset_with y zid d)
    unfolding reset_with
    reset_with-IsConsistent = Ends-bind reset_zone-IsConsistent (λ y' v'. normal v')

  reset_from-IsConsistent :
      (s : ZoneState) → d.state ≡ s → Ensures (λ r. IsConsistent r.1) (reset_from s z zid d)
  unfolding reset_from release_active
  reset_from-IsConsistent ZoneState.opened_impl e =
      reset_with-IsConsistent (release_active (release_zone_resource z open_zone) d) (ground arith)
        (unfold is_active is_open reset in ground (arith, open_pos, active_pos))
  reset_from-IsConsistent ZoneState.opened_expl e =
      reset_with-IsConsistent (release_active (release_zone_resource z open_zone) d) (ground arith)
        (unfold is_active is_open reset in ground (arith, open_pos, active_pos))
  reset_from-IsConsistent ZoneState.closed e =
      reset_with-IsConsistent (release_active z d) (ground arith)
        (unfold is_active is_open reset in ground (arith, active_pos))
  reset_from-IsConsistent ZoneState.full e =
      reset_with-IsConsistent z refl (unfold is_active is_open reset in ground arith)
  reset_from-IsConsistent ZoneState.empty e =
      reset_with-IsConsistent z refl (unfold is_active is_open reset in ground arith)
  reset_from-IsConsistent _ e = normal v

module _ (z : ZnsFtl) (v : IsConsistent z) where
  close_zone-IsConsistent : (zid : ℕ) → Ensures (λ r. IsConsistent r.1) (close_zone z zid)
  unfolding close_zone
  close_zone-IsConsistent zid =
      Ensures-entry (get_elem? z.zone_descs zid)
        λ d at. normal (close_from-IsConsistent z zid d at v d.state refl)

  finish_zone-IsConsistent : (zid : ℕ) → Ensures (λ r. IsConsistent r.1) (finish_zone z zid)
  unfolding finish_zone
  finish_zone-IsConsistent zid =
      Ensures-entry (get_elem? z.zone_descs zid)
        λ d at. normal (finish_from-IsConsistent z zid d at v d.state refl)

  open_zone_cmd-IsConsistent :
      (zid : ℕ) (zrwa : Bool) → Ensures (λ r. IsConsistent r.1) (open_zone_cmd z zid zrwa)
  unfolding open_zone_cmd
  open_zone_cmd-IsConsistent zid zrwa =
      Ensures-entry (get_elem? z.zone_descs zid)
        λ d at. normal (open_from-IsConsistent z zid d at v d.state zrwa refl)

  reset_zone_cmd-IsConsistent : (zid : ℕ) → Ensures (λ r. IsConsistent r.1) (reset_zone_cmd z zid)
  unfolding reset_zone_cmd
  reset_zone_cmd-IsConsistent zid =
      Ensures-entry (get_elem? z.zone_descs zid)
        λ d at. reset_from-IsConsistent z zid d at v d.state refl

  offline_zone-IsConsistent : (zid : ℕ) → Ensures (λ r. IsConsistent r.1) (offline_zone z zid)
  unfolding offline_zone
  offline_zone-IsConsistent zid =
      Ensures-entry (get_elem? z.zone_descs zid)
        λ d at. normal (offline_from-IsConsistent z zid d at v d.state refl)

  flush_explicit_zrwa-IsConsistent :
      (slba : ℕ) → Ensures (λ r. IsConsistent r.1) (flush_explicit_zrwa z slba)
  unfolding flush_explicit_zrwa
  flush_explicit_zrwa-IsConsistent slba =
      Ensures-entry (get_elem? z.zone_descs (lba_to_zone z slba)) λ d at.
        Ends-if (not d.zrwav) (λ _. normal v)
          λ _.
            Ends-if (not (leb d.wp slba && leb slba (zrwa_end z (lba_to_zone z slba) d)))
              (λ _. normal v)
              λ _. Ends-bind {P = λ _. Unit {0}} (divisor-Ensures z.zp.lbas_per_zrwafg) λ _ _.
                normal
                  (elim (Bool-cases ((u64 (sub64 slba d.wp + 1) % z.zp.lbas_per_zrwafg) == 0)) [
                    | inl aligned ↦
                        rw aligned
                          (flush_from-IsConsistent z (lba_to_zone z slba) d at v d.state slba refl)
                    | inr other ↦ rw other v
                  ])

  -- Every action of a zone management command keeps the invariant, whatever it answers.
  pub zmgmt_send-IsConsistent :
      (garbage slba : ℕ) (action : SendAction) (option : Bool)
      → Ensures (λ r. IsConsistent r.1) (zmgmt_send garbage z slba action option)
  unfolding zmgmt_send
  zmgmt_send-IsConsistent garbage slba zsa_close option = close_zone-IsConsistent _
  zmgmt_send-IsConsistent garbage slba zsa_finish option = finish_zone-IsConsistent _
  zmgmt_send-IsConsistent garbage slba zsa_open option = open_zone_cmd-IsConsistent _ option
  zmgmt_send-IsConsistent garbage slba zsa_reset option = reset_zone_cmd-IsConsistent _
  zmgmt_send-IsConsistent garbage slba zsa_offline option = offline_zone-IsConsistent _
  zmgmt_send-IsConsistent garbage slba zsa_flush_expl_zrwa option =
      flush_explicit_zrwa-IsConsistent slba
  zmgmt_send-IsConsistent garbage slba zsa_unknown option = normal v

send_all-IsConsistent :
    (garbage n : ℕ) (z : ZnsFtl) (zid : ℕ) (action : SendAction) (option : Bool)
    → IsConsistent z
    → Ensures IsConsistent (send_all garbage n z zid action option)
unfolding send_all
send_all-IsConsistent garbage zero z zid action option v = normal v
send_all-IsConsistent garbage (suc n) z zid action option v =
    Ends-bind (zmgmt_send-IsConsistent z v garbage (zone_to_slba z zid) action option)
      λ (st, z') v'. send_all-IsConsistent garbage n z' (zid + 1) action option v'

-- From a consistent state every action of a zone management command, on one zone or on all,
-- ends, and if it ends normally the state is consistent again, whatever the status.
pub zns_zmgmt_send-IsConsistent :
    (garbage : ℕ) (z : ZnsFtl) (slba : ℕ) (action : SendAction) (option select_all : Bool)
    → IsConsistent z
    → Ensures (λ r. IsConsistent r.1) (zns_zmgmt_send garbage z slba action option select_all)
unfolding zns_zmgmt_send
zns_zmgmt_send-IsConsistent garbage z slba action option true v =
    Ends-bind (send_all-IsConsistent garbage z.zp.nr_zones z 0 action option v) λ z' v'. normal v'
zns_zmgmt_send-IsConsistent garbage z slba action option false v =
    zmgmt_send-IsConsistent z v garbage slba action option
