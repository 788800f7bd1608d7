-- ===== src/Zns/Init/Keeps.antt =====
-- About __init_descriptor and zns_init_ftl of zns_ftl.c: the first state.
use nvmevirt_pim.Base.{
  ℕ, zero, suc, ◌+◌, ◌*◌, ◌/◌, ◌<◌, ◌^◌, ◌≡◌, refl, ap, false, get_elem?, some, count_if, length,
  u64, arith,
}
use nvmevirt_pim.Ssd.Nand.{Ssd}
use nvmevirt_pim.Zns.Address.{lbas_per_zone, pages_per_zone}
use nvmevirt_pim.Zns.State.{ZoneState, ZoneDescriptor, ZnsParams}
use nvmevirt_pim.Zns.Init.{init_descriptors, zns_init_ftl}
use nvmevirt_pim.Zns.Consistent.{is_active, is_open, IsFresh, IsGeometry, IsConsistent}

module _ (lbas : ℕ) where
  none_active : (n zslba : ℕ) → count_if is_active (init_descriptors n zslba lbas) ≡ 0
  unfolding count_if init_descriptors is_active
  none_active zero zslba = refl
  none_active (suc n) zslba = omega (arith, none_active n (u64 (zslba + lbas)))

  none_open : (n zslba : ℕ) → count_if is_open (init_descriptors n zslba lbas) ≡ 0
  unfolding count_if init_descriptors is_open
  none_open zero zslba = refl
  none_open (suc n) zslba = omega (arith, none_open n (u64 (zslba + lbas)))

  pub length-init_descriptors : (n zslba : ℕ) → length (init_descriptors n zslba lbas) ≡ n
  unfolding init_descriptors
  length-init_descriptors zero zslba = refl
  length-init_descriptors (suc n) zslba = ap suc (length-init_descriptors n (u64 (zslba + lbas)))

  -- The loop of __init_descriptor makes zone `i` of `n` an empty zone that starts `i` times
  -- the zone's blocks behind the first one, if the end of the last zone is below 2 ^ 64.
  pub get_elem?-init_descriptors :
      (n zslba i : ℕ)
      → i < n
      → zslba + n * lbas < 2 ^ 64
      → get_elem? (init_descriptors n zslba lbas) i
        ≡ some (record {
          state = ZoneState.empty;
          zrwav = false;
          zone_capacity = lbas;
          zslba = zslba + i * lbas;
          wp = zslba + i * lbas;
        })
  unfolding init_descriptors
  get_elem?-init_descriptors zero zslba i h w = elim h [ ]
  get_elem?-init_descriptors (suc n) zslba zero h w = ground arith
  get_elem?-init_descriptors (suc n) zslba (suc i) h w =
      let step : u64 (zslba + lbas) ≡ zslba + lbas = grind arith in
      rw step
        (ground (arith, get_elem?-init_descriptors n (zslba + lbas) i (omega arith) (grind arith)))

  fresh_descriptors :
      (n zslba i : ℕ) (d : ZoneDescriptor)
      → get_elem? (init_descriptors n zslba lbas) i ≡ some d
      → IsFresh d
  unfolding init_descriptors
  fresh_descriptors zero zslba i d e = ground arith
  fresh_descriptors (suc n) zslba zero d e = ground arith
  fresh_descriptors (suc n) zslba (suc i) d e = fresh_descriptors n (u64 (zslba + lbas)) i d e

-- A fresh FTL satisfies the invariant, for a number of zones that a `uint32_t` holds.
pub zns_init_ftl-IsConsistent :
    (zp : ZnsParams) (ssd : Ssd) (storage : ℕ → ℕ)
    → zp.nr_zones < 2 ^ 32
    → IsGeometry ssd.sp
    → zp.zone_size / ssd.sp.secsz ≡ ssd.sp.secs_per_pg * (zp.zone_size / ssd.sp.pgsz)
    → IsConsistent (zns_init_ftl zp ssd storage)
unfolding zns_init_ftl lbas_per_zone pages_per_zone
zns_init_ftl-IsConsistent zp ssd storage h g e = record {
  active_counts = omega (arith, none_active (zp.zone_size / 512) zp.nr_zones 0);
  open_counts = omega (arith, none_open (zp.zone_size / 512) zp.nr_zones 0);
  active_within = omega arith;
  open_within = omega arith;
  active_word = h;
  open_word = h;
  fresh = fresh_descriptors (zp.zone_size / 512) zp.nr_zones 0;
  geometry = g;
  whole_pages = e;
}
