-- ===== src/Conv/Init.antt =====
-- The start of an instance of the FTL: conv_init_params and conv_init_ftl of conv_ftl.c, and the
-- pages and blocks of ssd_init_nand_page and ssd_init_nand_blk of ssd.c.
pub mod Starts
use nvmevirt_pim.Base.{ℕ, true, Run, ok, ◌>>=◌}
use nvmevirt_pim.Ssd.Nand.{Ssd}
use nvmevirt_pim.Conv.State.{
  ConvParams, ConvFtl, free, user_io, gc_io, VictimQueue, invalid_lpn, unmapped_ppa,
}
use nvmevirt_pim.Conv.Lines.{init_lines, init_write_flow_control}
use nvmevirt_pim.Conv.Pointer.{prepare_write_pointer}

-- `pba_pcent` is computed in floating point from the constant OP_AREA_PERCENT.
unfoldable pub conv_init_params : (pba_pcent : ℕ) → ConvParams
conv_init_params pba_pcent = record {
  gc_thres_lines = 2;
  gc_thres_lines_high = 2;
  enable_gc_delay = true;
  pba_pcent = pba_pcent;
}

module _ {Q : Type 0} where
  unfoldable pub init_maptbl : ConvFtl Q → ConvFtl Q
  init_maptbl f = record f { maptbl = λ _. unmapped_ppa }

  unfoldable pub init_rmap : ConvFtl Q → ConvFtl Q
  init_rmap f = record f { rmap = λ _. invalid_lpn }

  -- All pages and blocks of a new SSD.
  unfoldable pub ssd_init_nand : ConvFtl Q → Ssd → ConvFtl Q
  ssd_init_nand f ssd = record f {
    ssd = ssd;
    pages = λ _. free;
    blocks = λ _. record { ipc = 0; vpc = 0; erase_cnt = 0 };
  }

-- `raw` is what the allocated memory held.
unfoldable pub conv_init_ftl :
    (pq : VictimQueue) (raw : ConvFtl pq.Queue) → ConvParams → Ssd → Run (ConvFtl pq.Queue)
unfolding init_maptbl init_rmap ssd_init_nand
conv_init_ftl pq raw cpp ssd = do
  let tables = init_rmap (init_maptbl (ssd_init_nand (record raw { cp = cpp }) ssd))
  f1 ← init_lines pq tables
  f2 ← prepare_write_pointer f1 user_io
  f3 ← prepare_write_pointer f2 gc_io
  ok (init_write_flow_control f3)
