-- ===== src/Conv/Install.antt =====
-- The step that conv_write and gc_write_page share: a new page for a logical page, with its entries
-- in both tables, and the write pointer moved on.
pub mod Ends
use nvmevirt_pim.Base.{ℕ, Run, ◌>>=◌}
use nvmevirt_pim.Ssd.Nand.{Ppa}
use nvmevirt_pim.Conv.State.{ConvFtl, IoType, VictimQueue}
use nvmevirt_pim.Conv.Map.{set_maptbl_ent, set_rmap_ent}
use nvmevirt_pim.Conv.Pointer.{advance_write_pointer}
use nvmevirt_pim.Conv.Mark.{mark_page_valid}

unfoldable pub install_page :
    (pq : VictimQueue) → ConvFtl pq.Queue → (lpn : ℕ) → Ppa → IoType → Run (ConvFtl pq.Queue)
install_page pq f lpn ppa io = do
  f1 ← set_maptbl_ent f lpn ppa
  f2 ← set_rmap_ent f1 lpn ppa
  f3 ← mark_page_valid f2 ppa
  advance_write_pointer pq f3 io
