-- ===== src/Conv/Map.antt =====
-- The tables of conv_ftl.c: maptbl from logical to physical pages, rmap back, and the tests on
-- page numbers.
use nvmevirt_pim.Base.{
  ℕ, ◌+◌, ◌-◌, ◌*◌, ◌/◌, ◌%◌, Bool, not, ◌&&◌, ltb, ◌==◌, if◌then◌else◌, Run, ok, fault, undefined,
  ◌>>=◌, ◌>>◌, assert, divisor,
}
use nvmevirt_pim.Ssd.Params.{SsdParams}
use nvmevirt_pim.Ssd.Nand.{Ppa, is_unmapped}
use nvmevirt_pim.Conv.State.{ConvFtl, update}

-- The access to entry `i` of an array of `n` entries.
abbrev pub at {ℓ} : {A : Type ℓ} → (ℕ → A) → (n i : ℕ) → Run A
at a n i = if ltb i n then ok (a i) else fault undefined

unfoldable pub valid_ppa : SsdParams → Ppa → Bool
valid_ppa spp ppa =
    ltb ppa.ch spp.nchs
    && ltb ppa.lun spp.luns_per_ch
    && ltb ppa.pl spp.pls_per_lun
    && ltb ppa.blk spp.blks_per_pl
    && ltb ppa.pg spp.pgs_per_blk

unfoldable pub valid_lpn : SsdParams → ℕ → Bool
valid_lpn spp lpn = ltb lpn spp.tt_pgs

unfoldable pub mapped_ppa : Ppa → Bool
unfolding is_unmapped
mapped_ppa ppa = not (is_unmapped ppa)

-- The sum that ppa2pgidx computes, which is also the home of a page in `pages`.
unfoldable pub page_index : SsdParams → Ppa → ℕ
page_index spp ppa =
    ppa.ch * spp.pgs_per_ch
    + ppa.lun * spp.pgs_per_lun
    + ppa.pl * spp.pgs_per_pl
    + ppa.blk * spp.pgs_per_blk
    + ppa.pg

-- The home of a block in `blocks`.
unfoldable pub block_index : SsdParams → Ppa → ℕ
block_index spp ppa =
    ppa.ch * spp.blks_per_ch + ppa.lun * spp.blks_per_lun + ppa.pl * spp.blks_per_pl + ppa.blk

unfoldable pub ppa2pgidx : SsdParams → Ppa → Run ℕ
unfolding page_index
ppa2pgidx spp ppa = do assert (ltb (page_index spp ppa) spp.tt_pgs); ok (page_index spp ppa)

unfoldable pub last_pg_in_wordline : SsdParams → Ppa → Run Bool
last_pg_in_wordline spp ppa = do
  divisor spp.pgs_per_oneshotpg
  ok ((ppa.pg % spp.pgs_per_oneshotpg) == (spp.pgs_per_oneshotpg - 1))

-- The `blk_in_ssd` bits are those of the block, the plane, the LUN and the channel.
unfoldable pub is_same_flash_page : SsdParams → Ppa → Ppa → Run Bool
is_same_flash_page spp ppa1 ppa2 = do
  divisor spp.pgs_per_flashpg
  ok (
      ppa1.blk == ppa2.blk
      && ppa1.pl == ppa2.pl
      && ppa1.lun == ppa2.lun
      && ppa1.ch == ppa2.ch
      && (ppa1.pg / spp.pgs_per_flashpg) == (ppa2.pg / spp.pgs_per_flashpg))

module _ {Q : Type 0} where
  unfoldable pub get_maptbl_ent : ConvFtl Q → ℕ → Run Ppa
  get_maptbl_ent f lpn = at f.maptbl f.ssd.sp.tt_pgs lpn

  unfoldable pub set_maptbl_ent : ConvFtl Q → ℕ → Ppa → Run (ConvFtl Q)
  unfolding update
  set_maptbl_ent f lpn ppa = do
    assert (ltb lpn f.ssd.sp.tt_pgs)
    ok (record f { maptbl = update f.maptbl lpn ppa })

  unfoldable pub get_rmap_ent : ConvFtl Q → Ppa → Run ℕ
  unfolding ppa2pgidx
  get_rmap_ent f ppa = do pgidx ← ppa2pgidx f.ssd.sp ppa; ok (f.rmap pgidx)

  -- set rmap[page_no(ppa)] -> lpn
  unfoldable pub set_rmap_ent : ConvFtl Q → ℕ → Ppa → Run (ConvFtl Q)
  unfolding ppa2pgidx update
  set_rmap_ent f lpn ppa = do
    pgidx ← ppa2pgidx f.ssd.sp ppa
    ok (record f { rmap = update f.rmap pgidx lpn })

  -- get_pg, for a page inside the nested arrays; set_pg writes its status.
  unfoldable pub get_pg : ConvFtl Q → Ppa → Run ℕ
  unfolding valid_ppa page_index
  get_pg f ppa = if valid_ppa f.ssd.sp ppa then ok (page_index f.ssd.sp ppa) else fault undefined

  -- get_blk: the page number is not used.
  unfoldable pub get_blk : ConvFtl Q → Ppa → Run ℕ
  unfolding block_index
  get_blk f ppa =
      let spp = f.ssd.sp in
      if ltb ppa.ch spp.nchs
        && ltb ppa.lun spp.luns_per_ch
        && ltb ppa.pl spp.pls_per_lun
        && ltb ppa.blk spp.blks_per_pl
      then ok (block_index spp ppa)
      else fault undefined
