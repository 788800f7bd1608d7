-- ===== src/Ssd/Nand/Ops/Ends.antt =====
-- About the timing functions of ssd.c: how they end, and the parameters of the SSD.
use nvmevirt_pim.Base.{
  ℕ, zero, suc, ◌-◌, ◌≤◌, ◌<◌, ◌≡◌, refl, ◌∙◌, min, max, Bool, true, false, get_elem?, ◌==◌,
  if◌then◌else◌, Run, fault, undefined, Ensures, normal, stopped, at_undefined, Ends-bind, Ends-if,
  Ends-map, Ensures-entry, entry-Ensures, divisor-Ensures, arith,
}
use nvmevirt_pim.Ssd.Params.{SsdParams}
use nvmevirt_pim.Ssd.Channel.Ends.{chmodel_request-ends}
use nvmevirt_pim.Ssd.Nand.{
  Ppa, is_unmapped, NandOp, nand_read, nand_write, nand_erase, nand_nop, unsupported, NandCmd, Ssd,
}
use nvmevirt_pim.Ssd.Nand.Ops.{
  get_lun, set_lun_time, get_cell, by_cell, ssd_advance_pcie, ssd_advance_write_buffer,
  advance_channel, piece_completed, transfer, perform, start_time, ssd_advance_nand,
}

by_cell-ends : (lsb msb csb cell : ℕ) → Ensures (λ t. Unit {0}) (by_cell lsb msb csb cell)
unfolding by_cell
by_cell-ends lsb msb csb cell =
    Ends-if (cell == 0) (λ _. normal tt)
      λ _.
        Ends-if (cell == 1) (λ _. normal tt)
          λ _. Ends-if (cell == 2) (λ _. normal tt) λ _. stopped at_undefined

get_lun-ends : (ssd : Ssd) (ppa : Ppa) → Ensures (λ l. Unit {0}) (get_lun ssd ppa)
unfolding get_lun
get_lun-ends ssd ppa =
    Ensures-entry (get_elem? ssd.channels ppa.ch)
      λ ch _. Ends-map (entry-Ensures (get_elem? ch.luns ppa.lun)) λ l _. tt

set_lun_time-ends :
    (ssd : Ssd) (ppa : Ppa) (t : ℕ) → Ensures (λ r. r.sp ≡ ssd.sp) (set_lun_time ssd ppa t)
unfolding set_lun_time
set_lun_time-ends ssd ppa t = Ensures-entry (get_elem? ssd.channels ppa.ch) λ ch _. normal refl

get_cell-ends : (spp : SsdParams) (ppa : Ppa) → Ensures (λ c. Unit {0}) (get_cell spp ppa)
unfolding get_cell
get_cell-ends spp ppa =
    Ends-bind (divisor-Ensures spp.pgs_per_flashpg)
      λ _ _. Ends-bind (divisor-Ensures spp.cell_mode) λ _ _. normal tt

module _ (cpu_clock : ℕ → ℕ) where
  pub ssd_advance_pcie-ends :
      (ssd : Ssd) (request_time length : ℕ)
      → Ensures (λ r. r.1.sp ≡ ssd.sp) (ssd_advance_pcie cpu_clock ssd request_time length)
  unfolding ssd_advance_pcie
  ssd_advance_pcie-ends ssd request_time length =
      Ends-bind (chmodel_request-ends ssd.pcie (cpu_clock ssd.clock_reads) request_time length)
        λ (t, model) _. normal refl

  pub ssd_advance_write_buffer-ends :
      (ssd : Ssd) (request_time length : ℕ)
      → Ensures (λ r. r.1.sp ≡ ssd.sp) (ssd_advance_write_buffer cpu_clock ssd request_time length)
  unfolding ssd_advance_write_buffer
  ssd_advance_write_buffer-ends ssd request_time length = ssd_advance_pcie-ends ssd _ length

  advance_channel-ends :
      (ssd : Ssd) (c request_time length : ℕ)
      → Ensures (λ r. r.1.sp ≡ ssd.sp) (advance_channel cpu_clock ssd c request_time length)
  unfolding advance_channel
  advance_channel-ends ssd c request_time length = Ensures-entry (get_elem? ssd.channels c) λ ch _.
      Ends-bind (chmodel_request-ends ch.perf_model (cpu_clock ssd.clock_reads) request_time length)
        λ (t, model) _. normal refl

  piece_completed-ends :
      (ssd : Ssd) (interleave : Bool) (etime size : ℕ)
      → Ensures (λ r. r.1.sp ≡ ssd.sp) (piece_completed cpu_clock ssd interleave etime size)
  unfolding piece_completed
  piece_completed-ends ssd true etime size = ssd_advance_pcie-ends ssd etime size
  piece_completed-ends ssd false etime size = normal refl

  transfer-ends :
      (fuel : ℕ) (ssd : Ssd) (c : ℕ) (interleave : Bool) (stime remaining : ℕ)
      → 0 < ssd.sp.max_ch_xfer_size
      → 0 < remaining
      → remaining ≤ fuel
      → Ensures (λ r. r.2.sp ≡ ssd.sp) (transfer cpu_clock fuel ssd c interleave stime remaining)
  unfolding transfer
  transfer-ends zero ssd c interleave stime remaining m pos h = absurd (omega arith)
  transfer-ends (suc fuel) ssd c interleave stime remaining m pos h =
      let size = min remaining ssd.sp.max_ch_xfer_size in
      Ends-bind (advance_channel-ends ssd c stime size) λ (etime, ssd1) e1.
        Ends-bind (piece_completed-ends ssd1 interleave etime size) λ (completed, ssd2) e2.
          Ends-if ((remaining - size) == 0) (λ _. normal (e2 ∙ e1))
            λ more.
              Ends-map
                (transfer-ends fuel ssd2 c interleave etime (remaining - size) (ground arith)
                  (ground arith) (ground arith))
                λ r e3. e3 ∙ (e2 ∙ e1)

  latency_of : Ssd → NandCmd → ℕ → Run ℕ
  latency_of ssd ncmd cell =
      if ncmd.xfer_size == 4096
      then by_cell ssd.sp.pg_4kb_rd_lat_lsb ssd.sp.pg_4kb_rd_lat_msb ssd.sp.pg_4kb_rd_lat_csb cell
      else by_cell ssd.sp.pg_rd_lat_lsb ssd.sp.pg_rd_lat_msb ssd.sp.pg_rd_lat_csb cell

  latency-ends :
      (ssd : Ssd) (ncmd : NandCmd) (cell : ℕ) → Ensures (λ t. Unit {0}) (latency_of ssd ncmd cell)
  unfolding latency_of
  latency-ends ssd ncmd cell =
      Ends-if (ncmd.xfer_size == 4096) (λ _. by_cell-ends _ _ _ cell) (λ _. by_cell-ends _ _ _ cell)

  pieces-ends :
      (ssd : Ssd) (c : ℕ) (interleave : Bool) (stime size : ℕ)
      → 0 < ssd.sp.max_ch_xfer_size
      → Ensures
          (λ r. r.2.sp ≡ ssd.sp)
          (if size == 0
            then fault undefined
            else transfer cpu_clock size ssd c interleave stime size)
  pieces-ends ssd c interleave stime size m =
      Ends-if (size == 0) (λ _. stopped at_undefined)
        λ some_bytes. transfer-ends size ssd c interleave stime size m (ground arith) (omega arith)

  perform-ends :
      (op : NandOp) (ssd : Ssd) (ncmd : NandCmd) (lun_time cell cmd_stime : ℕ)
      → 0 < ssd.sp.max_ch_xfer_size
      → Ensures (λ r. r.1.sp ≡ ssd.sp) (perform cpu_clock op ssd ncmd lun_time cell cmd_stime)
  unfolding perform latency_of
  perform-ends nand_read ssd ncmd lun_time cell cmd_stime m =
      Ends-bind (latency-ends ssd ncmd cell) λ latency _.
        Ends-bind (pieces-ends ssd ncmd.ppa.ch ncmd.interleave_pci_dma _ ncmd.xfer_size m)
          λ (etime, completed, ssd') e.
            Ends-bind (set_lun_time-ends ssd' ncmd.ppa etime) λ ssd'' e'. normal (e' ∙ e)
  perform-ends nand_write ssd ncmd lun_time cell cmd_stime m =
      Ends-bind (advance_channel-ends ssd ncmd.ppa.ch (max lun_time cmd_stime) ncmd.xfer_size)
        λ (etime, ssd') e. Ends-bind (set_lun_time-ends ssd' ncmd.ppa _) λ ssd'' e'. normal (e' ∙ e)
  perform-ends nand_erase ssd ncmd lun_time cell cmd_stime m =
      Ends-bind (set_lun_time-ends ssd ncmd.ppa _) λ ssd' e. normal e
  perform-ends nand_nop ssd ncmd lun_time cell cmd_stime m =
      Ends-bind (set_lun_time-ends ssd ncmd.ppa _) λ ssd' e. normal e
  perform-ends unsupported ssd ncmd lun_time cell cmd_stime m = normal refl

  start_time-params : (ssd : Ssd) (stime : ℕ) → (start_time cpu_clock ssd stime).1.sp ≡ ssd.sp
  unfolding start_time
  start_time-params ssd stime = ground arith

  -- A NAND command ends, if the channel transfers at least one byte at a time, and if it ends
  -- normally the parameters of the SSD are as before.
  pub ssd_advance_nand-ends :
      (ssd : Ssd) (ncmd : NandCmd)
      → 0 < ssd.sp.max_ch_xfer_size
      → Ensures (λ r. r.1.sp ≡ ssd.sp) (ssd_advance_nand cpu_clock ssd ncmd)
  unfolding ssd_advance_nand
  ssd_advance_nand-ends ssd ncmd m =
      let ssd' = (start_time cpu_clock ssd ncmd.stime).1 in
      let e = start_time-params ssd ncmd.stime in
      Ends-if (is_unmapped ncmd.ppa) (λ _. normal e)
        λ _. Ends-bind (get_lun-ends ssd' ncmd.ppa) λ lun _.
          Ends-bind (get_cell-ends ssd'.sp ncmd.ppa) λ cell _.
            Ends-map (perform-ends ncmd.cmd ssd' ncmd lun.next_lun_avail_time cell _ (ground arith))
              λ r e'. e' ∙ e
