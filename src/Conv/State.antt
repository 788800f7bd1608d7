-- ===== src/Conv/State.antt =====
-- The data of conv_ftl.h, the page and block states of ssd.h that only this FTL uses, and the calls
-- of the priority queue of pqueue.h, which is another project's library.
use nvmevirt_pim.Base.{ℕ, ◌==◌, Bool, List, Option, if◌then◌else◌}
use nvmevirt_pim.Ssd.Nand.{Ppa, Ssd}

-- PG_FREE, PG_INVALID and PG_VALID.
pub data PageStatus : Type 0 where
  free invalid valid : PageStatus

-- The fields of struct nand_block that are written after the start, but for the pages.
pub record NandBlock : Type 0 where
  pub ipc : ℕ
  pub vpc : ℕ
  pub erase_cnt : ℕ

pub record ConvParams : Type 0 where
  pub gc_thres_lines : ℕ
  pub gc_thres_lines_high : ℕ
  pub enable_gc_delay : Bool
  pub pba_pcent : ℕ

-- A line by its index in `lines`, which is its `id`. `pos` is its home in the queue of victims.
pub record Line : Type 0 where
  pub ipc : ℕ
  pub vpc : ℕ
  pub pos : ℕ

-- `curline` is the index of the line that the pointer names.
pub record WritePointer : Type 0 where
  pub curline : ℕ
  pub ch : ℕ
  pub lun : ℕ
  pub pg : ℕ
  pub blk : ℕ
  pub pl : ℕ

-- The two values of `io_type`: USER_IO and GC_IO.
pub data IoType : Type 0 where
  user_io gc_io : IoType

-- struct conv_ftl, with the fields of line_mgmt and write_flow_control in home. An array is a
-- function of its index, and the functions that read it test the index against its size. The
-- nested arrays of pages below struct ssd are one array `pages` in their order, and `blocks` is the
-- array of all blocks in theirs. `Queue` is the type of the priority queue.
pub record ConvFtl (Queue : Type 0) : Type 0 where
  pub ssd : Ssd
  pub cp : ConvParams
  pub maptbl : ℕ → Ppa
  pub rmap : ℕ → ℕ
  pub wp : WritePointer
  pub gc_wp : WritePointer
  pub lines : ℕ → Line
  pub free_line_list : List ℕ
  pub victim_line_pq : Queue
  pub full_line_list : List ℕ
  pub tt_lines : ℕ
  pub free_line_cnt : ℕ
  pub victim_line_cnt : ℕ
  pub full_line_cnt : ℕ
  pub write_credits : ℕ
  pub credits_to_refill : ℕ
  pub pages : ℕ → PageStatus
  pub blocks : ℕ → NandBlock

-- The calls of the priority queue. Its elements are lines; it reads their `vpc` as the priority, and
-- writes `vpc` and `pos`, so that a call takes and gives the array of lines. A line with a small
-- `vpc` comes out first (victim_line_cmp_pri).
pub record VictimQueue : Type 1 where
  pub Queue : Type 0
  pub pqueue_init : ℕ → Queue
  pub pqueue_insert : Queue → (ℕ → Line) → ℕ → Queue × (ℕ → Line)
  pub pqueue_change_priority : Queue → (ℕ → Line) → (new_pri line : ℕ) → Queue × (ℕ → Line)
  pub pqueue_peek : Queue → Option ℕ
  pub pqueue_pop : Queue → (ℕ → Line) → Queue × (ℕ → Line)

-- A write to one entry of an array.
unfoldable pub update {ℓ} : {A : Type ℓ} → (ℕ → A) → ℕ → A → ℕ → A
update a i v j = if j == i then v else a j

-- INVALID_LPN.
abbrev pub invalid_lpn : ℕ
invalid_lpn = 0xffff_ffff_ffff_ffff

-- UNMAPPED_PPA, as its fields.
abbrev pub unmapped_ppa : Ppa
unmapped_ppa = record { pg = 0xffff; blk = 0xffff; pl = 0xff; lun = 0xff; ch = 0xff; rsv = 0xff }
