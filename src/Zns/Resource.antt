-- ===== src/Zns/Resource.antt =====
-- The zone resources of zns_ftl.h: how many zones may be active, open or hold a random write area.
use nvmevirt_pim.Base.{ℕ, ◌+◌, ◌≡◌, Bool, true, false, ltb, ◌==◌, if◌then◌else◌, u32, sub32}
use nvmevirt_pim.Zns.State.{ZoneResourceInfo, ZnsFtl}

pub data ResourceType : Type 0 where
  active_zone open_zone zrwa_zone : ResourceType

unfoldable pub res_info : ZnsFtl → ResourceType → ZoneResourceInfo
res_info z active_zone = z.active_zone
res_info z open_zone = z.open_zone
res_info z zrwa_zone = z.zrwa_zone

unfoldable pub set_acquired : ZnsFtl → ResourceType → ℕ → ZnsFtl
set_acquired z active_zone n =
    let r = z.active_zone in record z { active_zone = record r { acquired_cnt = n } }
set_acquired z open_zone n =
    let r = z.open_zone in record z { open_zone = record r { acquired_cnt = n } }
set_acquired z zrwa_zone n =
    let r = z.zrwa_zone in record z { zrwa_zone = record r { acquired_cnt = n } }

unfoldable pub is_zone_resource_avail : ZnsFtl → ResourceType → Bool
unfolding res_info
is_zone_resource_avail z type = let r = res_info z type in ltb r.acquired_cnt r.total_cnt

unfoldable pub is_zone_resource_full : ZnsFtl → ResourceType → Bool
unfolding res_info
is_zone_resource_full z type = let r = res_info z type in r.acquired_cnt == r.total_cnt

unfoldable pub acquire_zone_resource : ZnsFtl → ResourceType → Bool × ZnsFtl
unfolding is_zone_resource_avail set_acquired
acquire_zone_resource z type =
    if is_zone_resource_avail z type
    then (true, set_acquired z type (u32 ((res_info z type).acquired_cnt + 1)))
    else (false, z)

-- The ASSERT of this function is an empty macro: at 0 the counter wraps.
unfoldable pub release_zone_resource : ZnsFtl → ResourceType → ZnsFtl
unfolding set_acquired res_info
release_zone_resource z type = set_acquired z type (sub32 (res_info z type).acquired_cnt 1)

pub acquire_zone_resource-avail :
    (z : ZnsFtl) (type : ResourceType)
    → is_zone_resource_avail z type ≡ true
    → acquire_zone_resource z type
      ≡ (true, set_acquired z type (u32 ((res_info z type).acquired_cnt + 1)))
unfolding acquire_zone_resource
acquire_zone_resource-avail z type e = rw e

pub acquire_zone_resource-exhausted :
    (z : ZnsFtl) (type : ResourceType)
    → is_zone_resource_avail z type ≡ false
    → acquire_zone_resource z type ≡ (false, z)
unfolding acquire_zone_resource
acquire_zone_resource-exhausted z type e = rw e
