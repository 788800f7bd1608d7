-- ===== src/Zns/Init/Models.antt =====
-- About zns_init_namespace of zns_ftl.c, for the two ZNS models of ssd_config.h.
use nvmevirt_pim.Base.{
  ℕ, ◌*◌, ◌/◌, ◌%◌, ◌<◌, ◌^◌, ◌≡◌, ◌⊎◌, inl, inr, refl, subst, sym, ◌==◌, true, ltb, ◌&&◌,
  if◌then◌else◌, u32, Ensures, normal, Ends-bind, Ensures-assert, arith,
}
use native.Mathlib.Nat.{mod-lt}
use nvmevirt_pim.Ssd.Config.{SsdConfig, wd_zn540, zns_prototype}
use nvmevirt_pim.Ssd.Params.{SsdParams, fill_params, ssd_init_params}
use nvmevirt_pim.Ssd.Nand.Ops.{ssd_init}
use nvmevirt_pim.Zns.Init.{zns_init_params, zns_init_namespace}
use nvmevirt_pim.Zns.Init.Keeps.{zns_init_ftl-IsConsistent}
use nvmevirt_pim.Zns.Consistent.{IsGeometry, IsConsistent}

-- The models with zones.
unfoldable pub IsZnsModel : SsdConfig → Type 0
IsZnsModel c = (c ≡ wd_zn540) ⊎ (c ≡ zns_prototype)

-- What the rest of the FTL relies on, of the parameters of an SSD with zones of `zone_size`.
record Fits (zone_size : ℕ) (spp : SsdParams) : Type 0 where
  geometry : IsGeometry spp
  pages : zone_size / spp.secsz ≡ spp.secs_per_pg * (zone_size / spp.pgsz)

FitsAll : SsdConfig → Type 0
FitsAll c = (nchs blks size : ℕ) → Fits (u32 c.zone_size) (fill_params c nchs blks size)

wd_zn540-Fits : FitsAll wd_zn540
unfolding FitsAll fill_params
wd_zn540-Fits nchs blks size = record {
  geometry = record {
    oneshot_pos = omega arith;
    flashpg_pos = omega arith;
    xfer_pos = omega arith;
    secs_per_pg_large = omega arith;
  };
  pages = refl;
}

zns_prototype-Fits : FitsAll zns_prototype
unfolding FitsAll fill_params
zns_prototype-Fits nchs blks size = record {
  geometry = record {
    oneshot_pos = omega arith;
    flashpg_pos = omega arith;
    xfer_pos = omega arith;
    secs_per_pg_large = omega arith;
  };
  pages = refl;
}

fits : (c : SsdConfig) → IsZnsModel c → FitsAll c
unfolding IsZnsModel
fits c (inl e) = subst FitsAll (sym e) wd_zn540-Fits
fits c (inr e) = subst FitsAll (sym e) zns_prototype-Fits

ssd_init_params-Fits :
    (c : SsdConfig) (total nparts : ℕ)
    → IsZnsModel c
    → Ensures (Fits (u32 c.zone_size)) (ssd_init_params c total nparts)
unfolding ssd_init_params FitsAll
ssd_init_params-Fits c total nparts m =
    let pgsz = c.lba_size * (4096 / c.lba_size) in
    Ensures-assert ((c.nand_channels % nparts) == 0) λ _.
      Ensures-assert (if ltb 0 c.blks_per_pln then true else ltb 0 c.blk_size) λ _.
        Ensures-assert ((c.oneshot_page_size % pgsz) == 0 && (c.flash_page_size % pgsz) == 0) λ _.
          Ensures-assert ((c.oneshot_page_size % c.flash_page_size) == 0)
            λ _. normal (fits c m _ _ _)

zns_init_params-zones :
    (c : SsdConfig) (spp : SsdParams) (capacity : ℕ)
    → Ensures
        (λ zp. (zp.nr_zones < 2 ^ 32) × (zp.zone_size ≡ u32 c.zone_size))
        (zns_init_params c spp capacity)
unfolding zns_init_params
zns_init_params-zones c spp capacity =
    let two32 : 0 < 2 ^ 32 = omega arith in
    Ensures-assert ((capacity % u32 c.zone_size) == 0) λ _.
      Ensures-assert ((u32 c.zone_size % spp.pgsz) == 0)
        λ _. normal (mod-lt (capacity / c.zone_size) two32, refl)

-- The initialisation of a ZNS model, at any size, ends, and if it ends normally the state is
-- consistent.
pub zns_init_namespace-IsConsistent :
    (c : SsdConfig) (memory storage : ℕ → ℕ) (size : ℕ)
    → IsZnsModel c
    → Ensures IsConsistent (zns_init_namespace c memory storage size)
unfolding zns_init_namespace ssd_init
zns_init_namespace-IsConsistent c memory storage size m =
    Ends-bind (ssd_init_params-Fits c size 1 m) λ spp f.
      Ends-bind (zns_init_params-zones c spp size) λ zp (few, zones). normal (
        zns_init_ftl-IsConsistent zp (ssd_init memory spp) storage few f.geometry
          (subst (λ s. s / spp.secsz ≡ spp.secs_per_pg * (s / spp.pgsz)) (sym zones) f.pages))
