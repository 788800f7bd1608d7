-- ===== src/Zns/Send.antt =====
-- Zone management: zns_mgmt_send.c. A handler returns its status and the new state.
pub mod Keeps
pub mod Erase
pub mod Outcome
use nvmevirt_pim.Base.{
  ℕ, zero, suc, ◌+◌, ◌%◌, min, Bool, true, false, not, ◌&&◌, ltb, leb, ◌==◌, if◌then◌else◌, Run, ok,
  ◌>>=◌, ◌>>◌, divisor, u64, sub64,
}
use nvmevirt_pim.Ssd.Buffer.{buffer_refill}
use nvmevirt_pim.Zns.Sc
use nvmevirt_pim.Zns.State.{
  ZoneState, ZoneDescriptor, zrwa_zone_buffer, ZnsFtl, descriptor, set_descriptor,
  change_zone_state, get_buffer, set_buffer,
}
use nvmevirt_pim.Zns.Address.{lba_to_zone, zone_to_slba, storage_offset}
use nvmevirt_pim.Zns.Resource.{
  active_zone, open_zone, zrwa_zone, is_zone_resource_full, acquire_zone_resource,
  release_zone_resource,
}

close_from : ZoneState → ZnsFtl → ℕ → ZoneDescriptor → ℕ × ZnsFtl
unfolding change_zone_state release_zone_resource
close_from ZoneState.opened_impl z zid d =
    (Sc.success, release_zone_resource (change_zone_state z zid d ZoneState.closed) open_zone)
close_from ZoneState.opened_expl z zid d =
    (Sc.success, release_zone_resource (change_zone_state z zid d ZoneState.closed) open_zone)
close_from ZoneState.closed z zid d = (Sc.success, z)
close_from _ z zid d = (Sc.zns_invalid_transition, z)

unfoldable pub close_zone : ZnsFtl → ℕ → Run (ℕ × ZnsFtl)
unfolding descriptor close_from
close_zone z zid = do d ← descriptor z zid; ok (close_from d.state z zid d)

-- What finish and reset share: an active zone gives its resources back.
release_active : ZnsFtl → ZoneDescriptor → ZnsFtl
unfolding release_zone_resource
release_active z d =
    let z' = release_zone_resource z active_zone in
    if d.zrwav then release_zone_resource z' zrwa_zone else z'

finish_from : ZoneState → ZnsFtl → ℕ → ZoneDescriptor → ℕ × ZnsFtl
unfolding release_active change_zone_state
finish_from ZoneState.opened_impl z zid d =
    let z' = release_active (release_zone_resource z open_zone) d in
    (Sc.success, change_zone_state z' zid d ZoneState.full)
finish_from ZoneState.opened_expl z zid d =
    let z' = release_active (release_zone_resource z open_zone) d in
    (Sc.success, change_zone_state z' zid d ZoneState.full)
finish_from ZoneState.closed z zid d =
    (Sc.success, change_zone_state (release_active z d) zid d ZoneState.full)
finish_from ZoneState.empty z zid d = (Sc.success, change_zone_state z zid d ZoneState.full)
finish_from ZoneState.full z zid d = (Sc.success, z)
finish_from _ z zid d = (Sc.zns_invalid_transition, z)

unfoldable pub finish_zone : ZnsFtl → ℕ → Run (ℕ × ZnsFtl)
unfolding descriptor finish_from
finish_zone z zid = do d ← descriptor z zid; ok (finish_from d.state z zid d)

-- The case ZONE_STATE_CLOSED of an open, which an empty zone falls into.
open_closed : ZnsFtl → ℕ → ZoneDescriptor → ℕ × ZnsFtl
unfolding acquire_zone_resource change_zone_state
open_closed z zid d =
    let (acquired, z') = acquire_zone_resource z open_zone in
    if acquired
    then (Sc.success, change_zone_state z' zid d ZoneState.opened_expl)
    else (Sc.zns_no_open_zone, z')

-- The case ZONE_STATE_EMPTY behind the checks of the active and open zones.
open_empty : ZnsFtl → ℕ → ZoneDescriptor → Bool → ℕ × ZnsFtl
unfolding open_closed set_descriptor is_zone_resource_full
open_empty z zid d false = open_closed (acquire_zone_resource z active_zone).1 zid d
open_empty z zid d true =
    let valid = record d { zrwav = true } in
    let z' = set_descriptor (acquire_zone_resource z zrwa_zone).1 zid valid in
    if is_zone_resource_full z zrwa_zone
    then (Sc.zns_zrwa_rsrc_unavail, z)
    else open_closed (acquire_zone_resource z' active_zone).1 zid valid

open_from : ZoneState → ZnsFtl → ℕ → ZoneDescriptor → Bool → ℕ × ZnsFtl
unfolding open_empty
open_from ZoneState.empty z zid d zrwa =
    if is_zone_resource_full z active_zone
    then (Sc.zns_no_active_zone, z)
    else if is_zone_resource_full z open_zone
    then (Sc.zns_no_open_zone, z)
    else open_empty z zid d zrwa
open_from ZoneState.closed z zid d zrwa = open_closed z zid d
open_from ZoneState.opened_impl z zid d zrwa =
    (Sc.success, change_zone_state z zid d ZoneState.opened_expl)
open_from ZoneState.opened_expl z zid d zrwa = (Sc.success, z)
open_from _ z zid d zrwa = (Sc.zns_invalid_transition, z)

unfoldable pub open_zone_cmd : ZnsFtl → ℕ → Bool → Run (ℕ × ZnsFtl)
unfolding descriptor open_from
open_zone_cmd z zid zrwa = do d ← descriptor z zid; ok (open_from d.state z zid d zrwa)

-- The memset of a zone's storage to 0.
unfoldable pub clear_storage : (ℕ → ℕ) → (start size : ℕ) → ℕ → ℕ
clear_storage storage start size a = if leb start a && ltb a (start + size) then 0 else storage a

-- __reset_zone, together with the change to the state EMPTY before it.
unfoldable pub reset_zone : ZnsFtl → ℕ → ZoneDescriptor → Run ZnsFtl
unfolding clear_storage storage_offset set_descriptor get_buffer set_buffer buffer_refill
reset_zone z zid d =
    let cleared =
      set_descriptor z zid (record d { state = ZoneState.empty; wp = d.zslba; zrwav = false }) in
    let z' = record cleared {
      storage = clear_storage z.storage (storage_offset z zid) z.zp.zone_size;
    } in
    let refilled : Run ZnsFtl = do
      buffer ← get_buffer z' (zrwa_zone_buffer zid)
      ok (set_buffer z' (zrwa_zone_buffer zid) (buffer_refill buffer))
    in if z.zp.zrwa_buffer_size == 0 then ok z' else refilled

-- The result of a reset that goes through.
reset_with : ZnsFtl → ℕ → ZoneDescriptor → Run (ℕ × ZnsFtl)
unfolding reset_zone
reset_with z zid d = do z' ← reset_zone z zid d; ok (Sc.success, z')

reset_from : ZoneState → ZnsFtl → ℕ → ZoneDescriptor → Run (ℕ × ZnsFtl)
unfolding release_active reset_with
reset_from ZoneState.opened_impl z zid d =
    reset_with (release_active (release_zone_resource z open_zone) d) zid d
reset_from ZoneState.opened_expl z zid d =
    reset_with (release_active (release_zone_resource z open_zone) d) zid d
reset_from ZoneState.closed z zid d = reset_with (release_active z d) zid d
reset_from ZoneState.full z zid d = reset_with z zid d
reset_from ZoneState.empty z zid d = reset_with z zid d
reset_from _ z zid d = ok (Sc.zns_invalid_transition, z)

unfoldable pub reset_zone_cmd : ZnsFtl → ℕ → Run (ℕ × ZnsFtl)
unfolding descriptor reset_from
reset_zone_cmd z zid = do d ← descriptor z zid; reset_from d.state z zid d

offline_from : ZoneState → ZnsFtl → ℕ → ZoneDescriptor → ℕ × ZnsFtl
unfolding change_zone_state
offline_from ZoneState.read_only z zid d = (Sc.success, change_zone_state z zid d ZoneState.offline)
offline_from ZoneState.offline z zid d = (Sc.success, z)
offline_from _ z zid d = (Sc.zns_invalid_transition, z)

unfoldable pub offline_zone : ZnsFtl → ℕ → Run (ℕ × ZnsFtl)
unfolding descriptor offline_from
offline_zone z zid = do d ← descriptor z zid; ok (offline_from d.state z zid d)

-- The `switch` of an explicit flush: the write pointer moves behind `slba`. `release_open` is
-- false for a closed zone.
flush_open : Bool → ZnsFtl → ℕ → ZoneDescriptor → ℕ → ℕ × ZnsFtl
unfolding release_zone_resource change_zone_state set_descriptor zone_to_slba
flush_open release_open z zid d slba =
    let moved = record d { wp = u64 (slba + 1) } in
    let z1 = if release_open then release_zone_resource z open_zone else z in
    let z2 = release_zone_resource (release_zone_resource z1 active_zone) zrwa_zone in
    (
      Sc.success,
      if u64 (slba + 1) == u64 (zone_to_slba z zid + d.zone_capacity)
          then change_zone_state z2 zid moved ZoneState.full
          else set_descriptor z zid moved,
    )

flush_from : ZoneState → ZnsFtl → ℕ → ZoneDescriptor → ℕ → ℕ × ZnsFtl
unfolding flush_open
flush_from ZoneState.opened_expl z zid d slba = flush_open true z zid d slba
flush_from ZoneState.opened_impl z zid d slba = flush_open true z zid d slba
flush_from ZoneState.closed z zid d slba = flush_open false z zid d slba
flush_from _ z zid d slba = (Sc.zns_invalid_zone_operation, z)

-- The last LBA that an explicit flush accepts.
unfoldable pub zrwa_end : ZnsFtl → ℕ → ZoneDescriptor → ℕ
unfolding zone_to_slba
zrwa_end z zid d =
    min (sub64 (u64 (d.wp + z.zp.lbas_per_zrwa)) 1)
      (sub64 (u64 (zone_to_slba z zid + d.zone_capacity)) 1)

unfoldable pub flush_explicit_zrwa : ZnsFtl → ℕ → Run (ℕ × ZnsFtl)
unfolding descriptor zrwa_end flush_from lba_to_zone
flush_explicit_zrwa z slba = do
  let zid = lba_to_zone z slba
  d ← descriptor z zid
  let nr_lbas_flush = u64 (sub64 slba d.wp + 1)
  let in_range = leb d.wp slba && leb slba (zrwa_end z zid d)
  let aligned : Run (ℕ × ZnsFtl) = do
    divisor z.zp.lbas_per_zrwafg
    ok (
        if (nr_lbas_flush % z.zp.lbas_per_zrwafg) == 0
        then flush_from d.state z zid d slba
        else (Sc.invalid_field, z))
  if not d.zrwav
      then ok (Sc.zns_invalid_zone_operation, z)
      else if not in_range
      then ok (Sc.zns_invalid_zone_operation, z)
      else aligned

-- The actions of a zone management send command.
pub data SendAction : Type 0 where
  zsa_close zsa_finish zsa_open zsa_reset zsa_offline zsa_flush_expl_zrwa zsa_unknown : SendAction

-- __zmgmt_send. For an action that it does not know it returns the variable `status`, which was
-- never set; `garbage` is what that variable holds.
unfoldable pub zmgmt_send : (garbage : ℕ) → ZnsFtl → ℕ → SendAction → Bool → Run (ℕ × ZnsFtl)
unfolding close_zone finish_zone open_zone_cmd reset_zone_cmd offline_zone flush_explicit_zrwa
    lba_to_zone
zmgmt_send garbage z slba zsa_close option = close_zone z (lba_to_zone z slba)
zmgmt_send garbage z slba zsa_finish option = finish_zone z (lba_to_zone z slba)
zmgmt_send garbage z slba zsa_open option = open_zone_cmd z (lba_to_zone z slba) option
zmgmt_send garbage z slba zsa_reset option = reset_zone_cmd z (lba_to_zone z slba)
zmgmt_send garbage z slba zsa_offline option = offline_zone z (lba_to_zone z slba)
zmgmt_send garbage z slba zsa_flush_expl_zrwa option = flush_explicit_zrwa z slba
zmgmt_send garbage z slba zsa_unknown option = ok (garbage, z)

-- The loop over all zones, from `zid` on with `n` zones left; the statuses are dropped.
unfoldable pub send_all : (garbage : ℕ) → ℕ → ZnsFtl → ℕ → SendAction → Bool → Run ZnsFtl
unfolding zmgmt_send zone_to_slba
send_all garbage zero z zid action option = ok z
send_all garbage (suc n) z zid action option = do
  (_, z') ← zmgmt_send garbage z (zone_to_slba z zid) action option
  send_all garbage n z' (zid + 1) action option

-- zns_zmgmt_send: the status and the new state; the command completes at its start time.
unfoldable pub zns_zmgmt_send :
    (garbage : ℕ) → ZnsFtl → (slba : ℕ) → SendAction → (option select_all : Bool) → Run (ℕ × ZnsFtl)
unfolding send_all zmgmt_send
zns_zmgmt_send garbage z slba action option true = do
  z' ← send_all garbage z.zp.nr_zones z 0 action option
  ok (Sc.success, z')
zns_zmgmt_send garbage z slba action option false = zmgmt_send garbage z slba action option
