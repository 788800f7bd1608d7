-- ===== src/Ssd/Params.antt =====
-- struct ssdparams of ssd.h and ssd_init_params of ssd.c.
-- The `int` and `unsigned long` fields are numbers; the products stay far below their ranges.
use nvmevirt_pim.Base.{
  ℕ, ◌*◌, ◌/◌, ◌%◌, true, ◌&&◌, ltb, ◌==◌, if◌then◌else◌, Run, ok, ◌>>◌, assert, div_round_up,
}
use nvmevirt_pim.Ssd.Config.{SsdConfig}

pub record SsdParams : Type 0 where
  pub secsz : ℕ
  pub secs_per_pg : ℕ
  pub pgsz : ℕ
  pub pgs_per_flashpg : ℕ
  pub flashpgs_per_blk : ℕ
  pub pgs_per_oneshotpg : ℕ
  pub oneshotpgs_per_blk : ℕ
  pub pgs_per_blk : ℕ
  pub blks_per_pl : ℕ
  pub pls_per_lun : ℕ
  pub luns_per_ch : ℕ
  pub nchs : ℕ
  pub cell_mode : ℕ
  pub write_unit_size : ℕ
  pub write_early_completion : ℕ
  pub pg_4kb_rd_lat_lsb : ℕ
  pub pg_4kb_rd_lat_msb : ℕ
  pub pg_4kb_rd_lat_csb : ℕ
  pub pg_rd_lat_lsb : ℕ
  pub pg_rd_lat_msb : ℕ
  pub pg_rd_lat_csb : ℕ
  pub pg_wr_lat : ℕ
  pub blk_er_lat : ℕ
  pub max_ch_xfer_size : ℕ
  pub fw_4kb_rd_lat : ℕ
  pub fw_rd_lat : ℕ
  pub fw_wbuf_lat0 : ℕ
  pub fw_wbuf_lat1 : ℕ
  pub fw_ch_xfer_lat : ℕ
  pub ch_bandwidth : ℕ
  pub pcie_bandwidth : ℕ
  pub secs_per_blk : ℕ
  pub secs_per_pl : ℕ
  pub secs_per_lun : ℕ
  pub secs_per_ch : ℕ
  pub tt_secs : ℕ
  pub pgs_per_pl : ℕ
  pub pgs_per_lun : ℕ
  pub pgs_per_ch : ℕ
  pub tt_pgs : ℕ
  pub blks_per_lun : ℕ
  pub blks_per_ch : ℕ
  pub tt_blks : ℕ
  pub secs_per_line : ℕ
  pub pgs_per_line : ℕ
  pub blks_per_line : ℕ
  pub tt_lines : ℕ
  pub pls_per_ch : ℕ
  pub tt_pls : ℕ
  pub tt_luns : ℕ
  pub write_buffer_size : ℕ

-- The fields that follow from the constants, the channels of a part, the blocks of a plane and the
-- size of a block.
unfoldable pub fill_params : SsdConfig → ℕ → ℕ → ℕ → SsdParams
fill_params c nchs blks_per_pl blk_size =
    let secs_per_pg = 4096 / c.lba_size in
    let pgsz = c.lba_size * secs_per_pg in
    let pgs_per_oneshotpg = c.oneshot_page_size / pgsz in
    let oneshotpgs_per_blk = div_round_up blk_size c.oneshot_page_size in
    let pgs_per_blk = pgs_per_oneshotpg * oneshotpgs_per_blk in
    let secs_per_blk = secs_per_pg * pgs_per_blk in
    let secs_per_pl = secs_per_blk * blks_per_pl in
    let secs_per_lun = secs_per_pl * c.plns_per_lun in
    let secs_per_ch = secs_per_lun * c.luns_per_nand_ch in
    let pgs_per_pl = pgs_per_blk * blks_per_pl in
    let pgs_per_lun = pgs_per_pl * c.plns_per_lun in
    let pgs_per_ch = pgs_per_lun * c.luns_per_nand_ch in
    let blks_per_lun = blks_per_pl * c.plns_per_lun in
    let blks_per_ch = blks_per_lun * c.luns_per_nand_ch in
    let pls_per_ch = c.plns_per_lun * c.luns_per_nand_ch in
    let tt_luns = c.luns_per_nand_ch * nchs in
    let pgs_per_line = tt_luns * pgs_per_blk in
    record {
      secsz = c.lba_size;
      secs_per_pg = secs_per_pg;
      pgsz = pgsz;
      pgs_per_flashpg = c.flash_page_size / pgsz;
      flashpgs_per_blk = (c.oneshot_page_size / c.flash_page_size) * oneshotpgs_per_blk;
      pgs_per_oneshotpg = pgs_per_oneshotpg;
      oneshotpgs_per_blk = oneshotpgs_per_blk;
      pgs_per_blk = pgs_per_blk;
      blks_per_pl = blks_per_pl;
      pls_per_lun = c.plns_per_lun;
      luns_per_ch = c.luns_per_nand_ch;
      nchs = nchs;
      cell_mode = c.cell_mode;
      write_unit_size = c.write_unit_size;
      write_early_completion = c.write_early_completion;
      pg_4kb_rd_lat_lsb = c.nand_4kb_read_latency_lsb;
      pg_4kb_rd_lat_msb = c.nand_4kb_read_latency_msb;
      pg_4kb_rd_lat_csb = c.nand_4kb_read_latency_csb;
      pg_rd_lat_lsb = c.nand_read_latency_lsb;
      pg_rd_lat_msb = c.nand_read_latency_msb;
      pg_rd_lat_csb = c.nand_read_latency_csb;
      pg_wr_lat = c.nand_prog_latency;
      blk_er_lat = c.nand_erase_latency;
      max_ch_xfer_size = c.max_ch_xfer_size;
      fw_4kb_rd_lat = c.fw_4kb_read_latency;
      fw_rd_lat = c.fw_read_latency;
      fw_wbuf_lat0 = c.fw_wbuf_latency0;
      fw_wbuf_lat1 = c.fw_wbuf_latency1;
      fw_ch_xfer_lat = c.fw_ch_xfer_latency;
      ch_bandwidth = c.nand_channel_bandwidth;
      pcie_bandwidth = c.pcie_bandwidth;
      secs_per_blk = secs_per_blk;
      secs_per_pl = secs_per_pl;
      secs_per_lun = secs_per_lun;
      secs_per_ch = secs_per_ch;
      tt_secs = secs_per_ch * nchs;
      pgs_per_pl = pgs_per_pl;
      pgs_per_lun = pgs_per_lun;
      pgs_per_ch = pgs_per_ch;
      tt_pgs = pgs_per_ch * nchs;
      blks_per_lun = blks_per_lun;
      blks_per_ch = blks_per_ch;
      tt_blks = blks_per_ch * nchs;
      secs_per_line = pgs_per_line * secs_per_pg;
      pgs_per_line = pgs_per_line;
      blks_per_line = tt_luns;
      tt_lines = blks_per_lun;
      pls_per_ch = pls_per_ch;
      tt_pls = pls_per_ch * nchs;
      tt_luns = tt_luns;
      write_buffer_size = c.global_wb_size;
    }

-- ssd_init_params: the part's share of the channels and of the capacity, then either the blocks
-- of a plane or the size of a block from the other, then the checks on the page sizes.
unfoldable pub ssd_init_params : SsdConfig → ℕ → ℕ → Run SsdParams
unfolding fill_params
ssd_init_params c total nparts = do
  assert ((c.nand_channels % nparts) == 0)
  let nchs = c.nand_channels / nparts
  let capacity = total / nparts
  let dies = c.plns_per_lun * c.luns_per_nand_ch * nchs
  let sized = ltb 0 c.blks_per_pln
  assert (if sized then true else ltb 0 c.blk_size)
  let blk_size = if sized then div_round_up capacity (c.blks_per_pln * dies) else c.blk_size
  let blks_per_pl = if sized then c.blks_per_pln else div_round_up capacity (c.blk_size * dies)
  let pgsz = c.lba_size * (4096 / c.lba_size)
  assert ((c.oneshot_page_size % pgsz) == 0 && (c.flash_page_size % pgsz) == 0)
  assert ((c.oneshot_page_size % c.flash_page_size) == 0)
  ok (fill_params c nchs blks_per_pl blk_size)
