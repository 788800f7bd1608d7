-- ===== src/Zns/Consistent/Update.antt =====
-- About changes of one zone in step with the resource counters of zns_ftl.h.
use nvmevirt_pim.Base.{
  ℕ, ◌+◌, ◌*◌, ◌≤◌, ◌≡◌, refl, sym, subst, Bool, get_elem?, set, some, inl, inr, Bool-cases, ◌==◌,
  count_if-set, get_elem?-set, lt-of_get_elem?, if◌then◌else◌, arith,
}
use nvmevirt_pim.Zns.Address.{lbas_per_zone, pages_per_zone}
use nvmevirt_pim.Zns.State.{ZoneDescriptor, ZnsFtl}
use nvmevirt_pim.Zns.Consistent.{is_active, is_open, IsFresh, IsGeometry, IsConsistent}

-- How many zones `d` counts for.
abbrev pub weight : Bool → ℕ
weight b = if b then 1 else 0

-- `z'` is `z` with the descriptor `d` of zone `zid` replaced by `d'`, and the counters moved along.
pub record Update (z z' : ZnsFtl) (zid : ℕ) (d d' : ZoneDescriptor) : Type 0 where
  pub descs : z'.zone_descs ≡ set z.zone_descs zid d'
  pub active_moves :
      z'.active_zone.acquired_cnt + weight (is_active d)
      ≡ z.active_zone.acquired_cnt + weight (is_active d')
  pub open_moves :
      z'.open_zone.acquired_cnt + weight (is_open d)
      ≡ z.open_zone.acquired_cnt + weight (is_open d')
  pub active_total : z'.active_zone.total_cnt ≡ z.active_zone.total_cnt
  pub open_total : z'.open_zone.total_cnt ≡ z.open_zone.total_cnt
  pub active_within : z'.active_zone.acquired_cnt ≤ z.active_zone.total_cnt
  pub open_within : z'.open_zone.acquired_cnt ≤ z.open_zone.total_cnt
  pub fresh : IsFresh d'
  pub params_same : z'.ssd.sp ≡ z.ssd.sp
  pub zp_same : z'.zp ≡ z.zp

-- `z'` has the zones and the counters of `z`.
pub record SameZones (z z' : ZnsFtl) : Type 0 where
  pub descs : z'.zone_descs ≡ z.zone_descs
  pub active_same : z'.active_zone ≡ z.active_zone
  pub open_same : z'.open_zone ≡ z.open_zone
  pub params_same : z'.ssd.sp ≡ z.ssd.sp
  pub zp_same : z'.zp ≡ z.zp

pub SameZones-refl : (z : ZnsFtl) → SameZones z z
SameZones-refl z = record {
  descs = refl;
  active_same = refl;
  open_same = refl;
  params_same = refl;
  zp_same = refl;
}

pub SameZones-trans : {x y z : ZnsFtl} → SameZones x y → SameZones y z → SameZones x z
SameZones-trans p q = ground arith

same_pages :
    (z z' : ZnsFtl)
    → z'.ssd.sp ≡ z.ssd.sp
    → z'.zp ≡ z.zp
    → lbas_per_zone z ≡ z.ssd.sp.secs_per_pg * pages_per_zone z
    → lbas_per_zone z' ≡ z'.ssd.sp.secs_per_pg * pages_per_zone z'
unfolding lbas_per_zone pages_per_zone
same_pages z z' e f h = rw (e, f) h

pub SameZones-IsConsistent : {z z' : ZnsFtl} → SameZones z z' → IsConsistent z → IsConsistent z'
SameZones-IsConsistent {z} {z'} s v = record {
  active_counts = ground arith;
  open_counts = ground arith;
  active_within = ground arith;
  open_within = ground arith;
  active_word = ground arith;
  open_word = ground arith;
  fresh = λ i d e. v.fresh i d (ground arith);
  geometry = subst IsGeometry (sym s.params_same) v.geometry;
  whole_pages = same_pages z z' s.params_same s.zp_same v.whole_pages;
}

pub Update-IsConsistent :
    {z z' : ZnsFtl} {zid : ℕ} {d d' : ZoneDescriptor}
    → get_elem? z.zone_descs zid ≡ some d
    → Update z z' zid d d'
    → IsConsistent z
    → IsConsistent z'
Update-IsConsistent {z} {z'} {zid} {d} {d'} at u v = record {
  active_counts = ground (arith, count_if-set is_active z.zone_descs zid d' at);
  open_counts = ground (arith, count_if-set is_open z.zone_descs zid d' at);
  active_within = omega arith;
  open_within = omega arith;
  active_word = omega arith;
  open_word = omega arith;
  fresh = keep;
  geometry = subst IsGeometry (sym u.params_same) v.geometry;
  whole_pages = same_pages z z' u.params_same u.zp_same v.whole_pages;
}
  where
    keep : (i : ℕ) (e : ZoneDescriptor) → get_elem? z'.zone_descs i ≡ some e → IsFresh e
    keep i e h =
        let moved = get_elem?-set z.zone_descs zid i d' (lt-of_get_elem? z.zone_descs zid at) in
        elim (Bool-cases (zid == i)) [
          | inl same ↦ subst IsFresh (ground arith) u.fresh
          | inr other ↦ v.fresh i e (ground arith)
        ]
