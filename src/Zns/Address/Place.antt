-- ===== src/Zns/Address/Place.antt =====
-- About __lpn_to_ppa: the channel and the LUN of a page.
use nvmevirt_pim.Base.{ℕ, ◌+◌, ◌*◌, ◌/◌, ◌%◌, ◌^◌, ◌≤◌, ◌<◌, ◌≡◌, sym, ap, ◌∙◌, u32, sub64, arith}
use native.Mathlib.Nat.{
  mod-lt, mod-eq_of_lt, mod-le, div-add-mod, div-lt_iff_lt-mul, mul-le-mul_right,
  add-mul-mod_self_right,
}
use nvmevirt_pim.Zns.State.{ZnsFtl}
use nvmevirt_pim.Zns.Address.{lpn_to_ppa, lpn_to_zone, zone_to_slpn, die_to_channel, die_to_lun}

regroup : (g q r d : ℕ) → (g * q + r) * d ≡ r * d + q * (g * d)
regroup g q r d = grind arith

-- The remainder of a multiple of `dies`, by a multiple of `dies`.
mul-mod-mul :
    (zone dies groups : ℕ)
    → 0 < dies
    → 0 < groups
    → zone * dies % (groups * dies) ≡ zone % groups * dies
mul-mod-mul zone dies groups hd hg =
    let q = zone / groups in
    let r = zone % groups in
    let below : r < groups = mod-lt zone hg in
    let room : (r + 1) * dies ≤ groups * dies = mul-le-mul_right dies (omega arith) in
    let small : r * dies < groups * dies = grind arith in
    let split : zone * dies ≡ r * dies + q * (groups * dies) =
      ap (λ t. t * dies) (sym (div-add-mod zone groups)) ∙ regroup groups q r dies in
    ap (λ t. t % (groups * dies)) split
    ∙ (add-mul-mod_self_right (r * dies) q (groups * dies) ∙ mod-eq_of_lt small)

-- The channel and the LUN of a page exist, if the dies of a zone divide the dies of the SSD,
-- which are the LUNs of its channels, and the counts of channels and of LUNs fit their bits of
-- a physical address and are not 0, nor are those of a zone's dies.
pub lpn_to_ppa_in_range :
    (z : ZnsFtl) (lpn groups : ℕ)
    → 0 < z.zp.dies_per_zone
    → 0 < groups
    → z.ssd.sp.tt_luns ≡ groups * z.zp.dies_per_zone
    → z.ssd.sp.tt_luns ≡ z.ssd.sp.luns_per_ch * z.ssd.sp.nchs
    → 0 < z.ssd.sp.nchs
    → z.ssd.sp.nchs ≤ 2 ^ 8
    → z.ssd.sp.luns_per_ch ≤ 2 ^ 8
    → ((lpn_to_ppa z lpn).ch < z.ssd.sp.nchs) × ((lpn_to_ppa z lpn).lun < z.ssd.sp.luns_per_ch)
unfolding lpn_to_ppa die_to_channel die_to_lun
lpn_to_ppa_in_range z lpn groups hd hg e1 e2 hn bn bl =
    let spp = z.ssd.sp in
    let dies = z.zp.dies_per_zone in
    let zone = lpn_to_zone z lpn in
    let sdie = u32 (zone * dies % spp.tt_luns) in
    let k = sub64 lpn (zone_to_slpn z zone) / spp.pgs_per_oneshotpg % dies in
    let die = u32 (sdie + k) in
    let below : k < dies = mod-lt _ hd in
    let start : zone * dies % spp.tt_luns ≡ zone % groups * dies =
      ap (λ t. zone * dies % t) e1 ∙ mul-mod-mul zone dies groups hd hg in
    let last : zone % groups < groups = mod-lt zone hg in
    let room : (zone % groups + 1) * dies ≤ groups * dies = mul-le-mul_right dies (omega arith) in
    let cut : sdie ≤ zone * dies % spp.tt_luns = mod-le _ _ in
    let cut' : die ≤ sdie + k = mod-le _ _ in
    let inside : die < spp.luns_per_ch * spp.nchs = grind arith in
    let channel : die % spp.nchs < spp.nchs = mod-lt die hn in
    let lun : die / spp.nchs < spp.luns_per_ch = (div-lt_iff_lt-mul hn).1 inside in
    let ch_bits : die % spp.nchs % 2 ^ 8 ≤ die % spp.nchs = mod-le _ _ in
    let lun_bits : die / spp.nchs % 2 ^ 8 ≤ die / spp.nchs = mod-le _ _ in
    (omega arith, omega arith)
