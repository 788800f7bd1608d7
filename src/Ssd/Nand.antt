-- ===== src/Ssd/Nand.antt =====
-- struct ssd of ssd.h, with the times that it keeps, and the functions of ssd.c that move them.
-- The planes, blocks and pages of a LUN, which only conv_ftl.c uses, stand in Conv/State, and left
-- out are the fields that no function of ssd.c reads (`busy`, `gc_endtime`, the type of a command).
pub mod Ops
use nvmevirt_pim.Base.{ℕ, ◌+◌, ◌*◌, ◌^◌, Bool, List, replicate, ◌==◌}
use nvmevirt_pim.Ssd.Params.{SsdParams}
use nvmevirt_pim.Ssd.Buffer.{Buffer}
use nvmevirt_pim.Ssd.Channel.{ChannelModel}

-- struct ppa: the bit fields are kept apart.
pub record Ppa : Type 0 where
  pub pg : ℕ
  pub blk : ℕ
  pub pl : ℕ
  pub lun : ℕ
  pub ch : ℕ
  pub rsv : ℕ

-- The word that the fields make up, and its test against UNMAPPED_PPA.
unfoldable pub ppa_word : Ppa → ℕ
ppa_word p = p.pg + p.blk * 2 ^ 16 + p.pl * 2 ^ 32 + p.lun * 2 ^ 40 + p.ch * 2 ^ 48 + p.rsv * 2 ^ 56

unfoldable pub is_unmapped : Ppa → Bool
unfolding ppa_word
is_unmapped p = ppa_word p == 0xffff_ffff_ffff_ffff

pub data NandOp : Type 0 where
  nand_read nand_write nand_erase nand_nop unsupported : NandOp

pub record NandCmd : Type 0 where
  pub cmd : NandOp
  pub xfer_size : ℕ
  pub stime : ℕ
  pub interleave_pci_dma : Bool
  pub ppa : Ppa

pub record NandLun : Type 0 where
  pub next_lun_avail_time : ℕ

pub record SsdChannel : Type 0 where
  pub luns : List NandLun
  pub perf_model : ChannelModel

-- `clock_reads` counts the readings of the clock.
pub record Ssd : Type 0 where
  pub sp : SsdParams
  pub channels : List SsdChannel
  pub pcie : ChannelModel
  pub write_buffer : Buffer
  pub clock_reads : ℕ
