-- ===== src/Zns/Consistent.antt =====
-- What is meant to hold of the zones, of their resource counters and of the SSD's parameters
-- between two commands.
pub mod Update
use nvmevirt_pim.Base.{
  ℕ, ◌+◌, ◌*◌, ◌^◌, ◌≤◌, ◌<◌, ◌≡◌, Bool, true, false, List, get_elem?, set, some, count_if,
  if◌then◌else◌,
}
use nvmevirt_pim.Ssd.Params.{SsdParams}
use nvmevirt_pim.Zns.Address.{lbas_per_zone, pages_per_zone}
use nvmevirt_pim.Zns.State.{ZoneState, ZoneDescriptor, ZnsFtl}

-- A zone that counts against the limit on active zones, and on open zones.
unfoldable pub is_active : ZoneDescriptor → Bool
is_active d = elim d.state [
  | ZoneState.opened_impl ↦ true
  | ZoneState.opened_expl ↦ true
  | ZoneState.closed ↦ true
  | _ ↦ false
]

unfoldable pub is_open : ZoneDescriptor → Bool
is_open d = elim d.state [ ZoneState.opened_impl ↦ true | ZoneState.opened_expl ↦ true | _ ↦ false ]

-- An empty zone has no random write area, and its write pointer stands at its start.
pub record IsFresh (d : ZoneDescriptor) : Type 0 where
  pub no_zrwa : d.state ≡ ZoneState.empty → d.zrwav ≡ false
  pub at_start : d.state ≡ ZoneState.empty → d.wp ≡ d.zslba

-- What the loops of the SSD and of the FTL rely on to end.
pub record IsGeometry (sp : SsdParams) : Type 0 where
  pub oneshot_pos : 0 < sp.pgs_per_oneshotpg
  pub flashpg_pos : 0 < sp.pgs_per_flashpg
  pub xfer_pos : 0 < sp.max_ch_xfer_size
  pub secs_per_pg_large : 2 ≤ sp.secs_per_pg

-- The counters hold the numbers of active and of open zones, within the limits.
pub record IsConsistent (z : ZnsFtl) : Type 0 where
  pub active_counts : z.active_zone.acquired_cnt ≡ count_if is_active z.zone_descs
  pub open_counts : z.open_zone.acquired_cnt ≡ count_if is_open z.zone_descs
  pub active_within : z.active_zone.acquired_cnt ≤ z.active_zone.total_cnt
  pub open_within : z.open_zone.acquired_cnt ≤ z.open_zone.total_cnt
  pub active_word : z.active_zone.total_cnt < 2 ^ 32
  pub open_word : z.open_zone.total_cnt < 2 ^ 32
  pub fresh : (i : ℕ) (d : ZoneDescriptor) → get_elem? z.zone_descs i ≡ some d → IsFresh d
  pub geometry : IsGeometry z.ssd.sp
  pub whole_pages : lbas_per_zone z ≡ z.ssd.sp.secs_per_pg * pages_per_zone z
