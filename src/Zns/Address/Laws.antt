-- ===== src/Zns/Address/Laws.antt =====
-- About the address arithmetic of zones: the zone of an LBA and of its page, and its wraps.
use nvmevirt_pim.Base.{ℕ, ◌+◌, ◌*◌, ◌/◌, ◌^◌, ◌<◌, ◌≡◌, ◌↔◌, ◌∙◌, ap, u32, arith}
use native.Mathlib.Nat.{
  add-zero, div-div-eq-div-mul, div-eq_of_lt, mod-eq_of_lt, mod-lt, mul-add-div_right,
}
use nvmevirt_pim.Zns.State.{ZnsFtl}
use nvmevirt_pim.Zns.Address.{
  pages_per_zone, lbas_per_zone, lpn_to_zone, lba_to_zone, lba_to_lpn, zone_to_slba,
}

-- The zone of an LBA's page is the zone of the LBA, if a zone is a whole number of pages.
pub lpn_to_zone-lba_to_lpn :
    (z : ZnsFtl) (lba : ℕ)
    → lbas_per_zone z ≡ z.ssd.sp.secs_per_pg * pages_per_zone z
    → lpn_to_zone z (lba_to_lpn z lba) ≡ lba_to_zone z lba
unfolding lpn_to_zone lba_to_zone lba_to_lpn
lpn_to_zone-lba_to_lpn z lba e =
    cc (e, div-div-eq-div-mul lba z.ssd.sp.secs_per_pg (pages_per_zone z))

-- lba_to_zone finds a zone from each of its blocks, if the zone starts below 2 ^ 32.
pub lba_to_zone-zone_to_slba :
    (z : ZnsFtl) (zid off : ℕ)
    → off < lbas_per_zone z
    → zid * lbas_per_zone z < 2 ^ 32
    → lba_to_zone z (zone_to_slba z zid + off) ≡ zid
unfolding lba_to_zone zone_to_slba
lba_to_zone-zone_to_slba z zid off h w =
    let l = lbas_per_zone z in
    let small : zid < 2 ^ 32 = grind arith in
    let start : u32 (u32 zid * l) ≡ zid * l = rw (mod-eq_of_lt small) (mod-eq_of_lt w) in
    let zone : (zid * l + off) / l ≡ zid =
      mul-add-div_right (omega arith) zid off
      ∙ (ap (λ t. zid + t) (div-eq_of_lt h) ∙ add-zero zid) in
    rw (start, zone) (mod-eq_of_lt small)

-- For a zone number of 32 bits, zone_to_slba gives the first block of the zone exactly when
-- that is below 2 ^ 32; from there on the 32-bit product wraps.
pub zone_to_slba_exact :
    (z : ZnsFtl) (zid : ℕ)
    → zid < 2 ^ 32
    → (zone_to_slba z zid ≡ zid * lbas_per_zone z) ↔ (zid * lbas_per_zone z < 2 ^ 32)
unfolding zone_to_slba
zone_to_slba_exact z zid h =
    let two32 : 0 < 2 ^ 32 = omega arith in
    rw (mod-eq_of_lt h)
      (λ e. omega (arith, mod-lt (zid * lbas_per_zone z) two32), λ lt. mod-eq_of_lt lt)
