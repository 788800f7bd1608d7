-- ===== src/Conv/Geometry.antt =====
-- What conv_ftl.c relies on in the geometry of the SSD, and the numbering of pages and blocks.
use nvmevirt_pim.Base.{ℕ, ◌+◌, ◌*◌, ◌^◌, ◌<◌, ◌≤◌, ◌≡◌, ◌≢◌, arith, ◌⊎◌, inl, inr}
use nvmevirt_pim.Ssd.Params.{SsdParams}
use nvmevirt_pim.Ssd.Nand.{Ppa}
use nvmevirt_pim.Conv.Map.{page_index, block_index}

-- The products are those of ssd_init_params; the numbers fit into the fields of `struct ppa`.
pub record IsGeometry (spp : SsdParams) : Type 0 where
  pub pl_pages : spp.pgs_per_pl ≡ spp.pgs_per_blk * spp.blks_per_pl
  pub lun_pages : spp.pgs_per_lun ≡ spp.pgs_per_pl * spp.pls_per_lun
  pub ch_pages : spp.pgs_per_ch ≡ spp.pgs_per_lun * spp.luns_per_ch
  pub lun_blks : spp.blks_per_lun ≡ spp.blks_per_pl * spp.pls_per_lun
  pub ch_blks : spp.blks_per_ch ≡ spp.blks_per_lun * spp.luns_per_ch
  pub blk_flashpgs : spp.pgs_per_blk ≡ spp.flashpgs_per_blk * spp.pgs_per_flashpg
  pub flashpg_pos : 0 < spp.pgs_per_flashpg
  pub pls_pos : 0 < spp.pls_per_lun
  pub xfer_pos : 0 < spp.max_ch_xfer_size
  pub oneshot_pos : 0 < spp.pgs_per_oneshotpg
  pub blk_oneshots : spp.pgs_per_blk ≡ spp.pgs_per_oneshotpg * spp.oneshotpgs_per_blk
  pub line_pages : spp.pgs_per_line ≡ spp.nchs * spp.luns_per_ch * spp.pgs_per_blk
  pub secs_large : 2 ≤ spp.secs_per_pg
  pub pg_bits : spp.pgs_per_blk < 2 ^ 16
  pub blk_bits : spp.blks_per_pl ≤ 2 ^ 16
  pub lun_bits : spp.luns_per_ch ≤ 2 ^ 8
  pub ch_bits : spp.nchs ≤ 2 ^ 8

module _ (spp : SsdParams) (geo : IsGeometry spp) where
  -- The pages of a block lie one behind the other.
  pub page_index-block : (p : Ppa) → page_index spp p ≡ block_index spp p * spp.pgs_per_blk + p.pg
  unfolding page_index block_index
  page_index-block p =
      rw (geo.ch_pages, geo.ch_blks, geo.lun_pages, geo.lun_blks, geo.pl_pages) (grind arith)

lt-cases : (b c : ℕ) → b ≢ c → (b + 1 ≤ c) ⊎ (c + 1 ≤ b)
lt-cases b c h = ground arith

-- Pages of different blocks are different.
pub blocks_apart : (n b c j k : ℕ) → j < n → k < n → b ≢ c → b * n + j ≢ c * n + k
blocks_apart n b c j k hj hk ne e = elim (lt-cases b c ne) [
  | inl lt ↦ absurd (grind arith)
  | inr gt ↦ absurd (grind arith)
]
