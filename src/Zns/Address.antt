-- ===== src/Zns/Address.antt =====
-- The address arithmetic of zns_ftl.h and zns_read_write.c. A `uint32_t` result is cut to 32 bits,
-- and so is the product in zone_to_slpn and zone_to_slba, whose factors are both `uint32_t`.
-- The divisors are the geometry of the SSD, which is positive in every configuration.
pub mod Laws
pub mod Place
use nvmevirt_pim.Base.{ℕ, ◌+◌, ◌*◌, ◌/◌, ◌%◌, ◌^◌, Bool, ◌==◌, u32, u64, sub64}
use nvmevirt_pim.Ssd.Nand.{Ppa}
use nvmevirt_pim.Zns.State.{ZnsFtl}

unfoldable pub pages_per_zone : ZnsFtl → ℕ
pages_per_zone z = z.zp.zone_size / z.ssd.sp.pgsz

unfoldable pub lbas_per_zone : ZnsFtl → ℕ
lbas_per_zone z = z.zp.zone_size / z.ssd.sp.secsz

unfoldable pub lpn_to_zone : ZnsFtl → ℕ → ℕ
unfolding pages_per_zone
lpn_to_zone z lpn = u32 (lpn / pages_per_zone z)

unfoldable pub zone_to_slpn : ZnsFtl → ℕ → ℕ
unfolding pages_per_zone
zone_to_slpn z zid = u32 (u32 zid * pages_per_zone z)

unfoldable pub lba_to_zone : ZnsFtl → ℕ → ℕ
unfolding lbas_per_zone
lba_to_zone z lba = u32 (lba / lbas_per_zone z)

unfoldable pub zone_to_slba : ZnsFtl → ℕ → ℕ
unfolding lbas_per_zone
zone_to_slba z zid = u32 (u32 zid * lbas_per_zone z)

unfoldable pub zone_to_elba : ZnsFtl → ℕ → ℕ
unfolding zone_to_slba
zone_to_elba z zid = sub64 (zone_to_slba z (zid + 1)) 1

unfoldable pub zone_to_elpn : ZnsFtl → ℕ → ℕ
unfolding zone_to_elba
zone_to_elpn z zid = zone_to_elba z zid / z.ssd.sp.secs_per_pg

unfoldable pub lba_to_lpn : ZnsFtl → ℕ → ℕ
lba_to_lpn z lba = lba / z.ssd.sp.secs_per_pg

unfoldable pub die_to_channel : ZnsFtl → ℕ → ℕ
die_to_channel z die = die % z.ssd.sp.nchs

unfoldable pub die_to_lun : ZnsFtl → ℕ → ℕ
die_to_lun z die = die / z.ssd.sp.nchs

-- get_storage_addr_from_zid, as an offset from storage_base_addr.
unfoldable pub storage_offset : ZnsFtl → ℕ → ℕ
storage_offset z zid = u64 (zid * z.zp.zone_size)

-- __check_boundary_error: true if the request lies in one zone.
unfoldable pub check_boundary_error : ZnsFtl → ℕ → ℕ → Bool
unfolding lba_to_zone
check_boundary_error z slba nr_lba =
    lba_to_zone z slba == lba_to_zone z (sub64 (u64 (slba + nr_lba)) 1)

-- __lpn_to_ppa; the fields of the result are cut to their bits.
unfoldable pub lpn_to_ppa : ZnsFtl → ℕ → Ppa
unfolding lpn_to_zone zone_to_slpn die_to_channel die_to_lun
lpn_to_ppa z lpn =
    let spp = z.ssd.sp in
    let zone = lpn_to_zone z lpn in
    let off = sub64 lpn (zone_to_slpn z zone) in
    let sdie = u32 (zone * z.zp.dies_per_zone % spp.tt_luns) in
    let die = u32 (sdie + off / spp.pgs_per_oneshotpg % z.zp.dies_per_zone) in
    record {
      pg = off % spp.pgs_per_oneshotpg % 2 ^ 16;
      blk = 0;
      pl = 0;
      lun = die_to_lun z die % 2 ^ 8;
      ch = die_to_channel z die % 2 ^ 8;
      rsv = 0;
    }
