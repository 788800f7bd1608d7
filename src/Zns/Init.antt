-- ===== src/Zns/Init.antt =====
-- The initialisation in zns_ftl.c. kzalloc and kmalloc are taken to succeed, as the code takes them.
pub mod Keeps
pub mod Models
use nvmevirt_pim.Base.{
  ℕ, zero, suc, ◌+◌, ◌/◌, ◌%◌, false, List, [], ◌∷◌, replicate, ◌==◌, if◌then◌else◌, Run, ok, ◌>>=◌,
  ◌>>◌, assert, u32, u64,
}
use nvmevirt_pim.Ssd.Config.{SsdConfig}
use nvmevirt_pim.Ssd.Params.{SsdParams, ssd_init_params}
use nvmevirt_pim.Ssd.Buffer.{buffer_init}
use nvmevirt_pim.Ssd.Nand.{Ssd}
use nvmevirt_pim.Ssd.Nand.Ops.{ssd_init}
use nvmevirt_pim.Zns.State.{ZoneState, ZoneDescriptor, ZnsParams, ZoneResourceInfo, ZnsFtl}

-- The loop of __init_descriptor; `n` zones are left, `zslba` is where the next one starts.
unfoldable pub init_descriptors : ℕ → (zslba lbas : ℕ) → List ZoneDescriptor
init_descriptors zero zslba lbas = []
init_descriptors (suc n) zslba lbas =
    record {
      state = ZoneState.empty;
      zrwav = false;
      zone_capacity = lbas;
      zslba = zslba;
      wp = zslba;
    }
    ∷ init_descriptors n (u64 (zslba + lbas)) lbas

-- __init_resource: every counter's limit is the number of zones.
unfoldable pub init_resource : ZnsParams → ZoneResourceInfo
init_resource zp = record { acquired_cnt = 0; total_cnt = zp.nr_zones }

unfoldable pub zns_init_params : SsdConfig → SsdParams → ℕ → Run ZnsParams
zns_init_params c spp capacity = do
  assert ((capacity % u32 c.zone_size) == 0)
  assert ((u32 c.zone_size % spp.pgsz) == 0)
  ok (record {
    nr_zones = u32 (capacity / c.zone_size);
    nr_active_zones = u32 (capacity / c.zone_size);
    nr_open_zones = u32 (capacity / c.zone_size);
    dies_per_zone = c.dies_per_zone;
    zone_size = u32 c.zone_size;
    zone_wb_size = c.zone_wb_size;
    nr_zrwa_zones = c.max_zrwa_zones;
    zrwafg_size = c.zrwafg_size;
    zrwa_size = c.zrwa_size;
    zrwa_buffer_size = c.zrwa_buffer_size;
    lbas_per_zrwafg = c.zrwafg_size / spp.secsz;
    lbas_per_zrwa = c.zrwa_size / spp.secsz;
  })

-- zns_init_ftl with __init_descriptor; a buffer array that is not allocated is empty.
unfoldable pub zns_init_ftl : ZnsParams → Ssd → (ℕ → ℕ) → ZnsFtl
unfolding init_descriptors init_resource buffer_init
zns_init_ftl zp ssd storage = record {
  ssd = ssd;
  zp = zp;
  active_zone = init_resource zp;
  open_zone = init_resource zp;
  zrwa_zone = init_resource zp;
  zone_descs = init_descriptors zp.nr_zones 0 (zp.zone_size / 512);
  zone_write_buffer =
      if zp.zone_wb_size == 0 then [] else replicate zp.nr_zones (buffer_init zp.zone_wb_size);
  zrwa_buffer =
      if zp.zrwa_buffer_size == 0
      then []
      else replicate zp.nr_zones (buffer_init zp.zrwa_buffer_size);
  storage = storage;
  scheduled = [];
}

-- zns_init_namespace, with one part: `memory` is what kmalloc gave, `storage` the mapped memory.
unfoldable pub zns_init_namespace : SsdConfig → (memory storage : ℕ → ℕ) → ℕ → Run ZnsFtl
zns_init_namespace c memory storage size = do
  spp ← ssd_init_params c size 1
  zp ← zns_init_params c spp size
  ok (zns_init_ftl zp (ssd_init memory spp) storage)
