-- ===== src/Ssd/Nand/Ops.antt =====
-- ssd_init, ssd_advance_pcie, ssd_advance_write_buffer, ssd_advance_nand and ssd_next_idle_time
-- of ssd.c. `cpu_clock i` is what the kernel's cpu_clock gives at its reading number `i`.
pub mod Ends
pub mod Times
pub mod Pieces
pub mod Waits
pub mod Answers
use nvmevirt_pim.Base.{
  ℕ, zero, suc, ◌+◌, ◌-◌, ◌*◌, ◌/◌, ◌%◌, min, max, Bool, true, false, List, [], ◌∷◌, get_elem?, set,
  replicate, ◌==◌, if◌then◌else◌, Run, ok, fault, undefined, out_of_fuel, ◌>>=◌, ◌>>◌, entry,
  divisor, u32, u64, div_round_up,
}
use nvmevirt_pim.Ssd.Config.{kb}
use nvmevirt_pim.Ssd.Params.{SsdParams}
use nvmevirt_pim.Ssd.Buffer.{buffer_init}
use nvmevirt_pim.Ssd.Channel.{chmodel_init, chmodel_request, unit_xfer_size}
use nvmevirt_pim.Ssd.Nand.{
  Ppa, is_unmapped, NandOp, nand_read, nand_write, nand_erase, nand_nop, unsupported, NandCmd,
  NandLun, SsdChannel, Ssd,
}

-- ssd_init_nand_lun and ssd_init_ch; `memory` is what the allocated slots held.
ssd_init_nand_lun : NandLun
ssd_init_nand_lun = record { next_lun_avail_time = 0 }

ssd_init_ch : (ℕ → ℕ) → SsdParams → SsdChannel
unfolding ssd_init_nand_lun chmodel_init
ssd_init_ch memory spp =
    let model = chmodel_init memory spp.ch_bandwidth in
    record {
      luns = replicate spp.luns_per_ch ssd_init_nand_lun;
      perf_model = record model {
        xfer_lat = u32 (model.xfer_lat + spp.fw_ch_xfer_lat * unit_xfer_size / kb 4);
      };
    }

unfoldable pub ssd_init : (ℕ → ℕ) → SsdParams → Ssd
unfolding ssd_init_ch chmodel_init buffer_init
ssd_init memory spp = record {
  sp = spp;
  channels = replicate spp.nchs (ssd_init_ch memory spp);
  pcie = chmodel_init memory spp.pcie_bandwidth;
  write_buffer = buffer_init spp.write_buffer_size;
  clock_reads = 0;
}

-- get_lun: the channel, then the LUN in it.
unfoldable pub get_lun : Ssd → Ppa → Run NandLun
get_lun ssd ppa = do ch ← entry (get_elem? ssd.channels ppa.ch); entry (get_elem? ch.luns ppa.lun)

-- Writes the availability time of the LUN that `ppa` names.
unfoldable pub set_lun_time : Ssd → Ppa → ℕ → Run Ssd
set_lun_time ssd ppa t = do
  ch ← entry (get_elem? ssd.channels ppa.ch)
  let luns = set ch.luns ppa.lun (record { next_lun_avail_time = t })
  ok (record ssd { channels = set ssd.channels ppa.ch (record ch { luns = luns }) })

unfoldable pub get_cell : SsdParams → Ppa → Run ℕ
get_cell spp ppa = do
  divisor spp.pgs_per_flashpg
  divisor spp.cell_mode
  ok ((ppa.pg / spp.pgs_per_flashpg) % spp.cell_mode)

-- An array over the cell types LSB, MSB and CSB.
by_cell : (lsb msb csb cell : ℕ) → Run ℕ
by_cell lsb msb csb cell =
    if cell == 0
    then ok lsb
    else if cell == 1
    then ok msb
    else if cell == 2
    then ok csb
    else fault undefined

module _ (cpu_clock : ℕ → ℕ) where
  -- chmodel_request on the model of the PCIe link.
  unfoldable pub ssd_advance_pcie : Ssd → ℕ → ℕ → Run (ℕ × Ssd)
  unfolding chmodel_request
  ssd_advance_pcie ssd request_time length = do
    (t, model) ← chmodel_request ssd.pcie (cpu_clock ssd.clock_reads) request_time length
    ok (t, record ssd { pcie = model; clock_reads = ssd.clock_reads + 1 })

  unfoldable pub ssd_advance_write_buffer : Ssd → ℕ → ℕ → Run (ℕ × Ssd)
  unfolding ssd_advance_pcie
  ssd_advance_write_buffer ssd request_time length =
      let spp = ssd.sp in
      let ready =
        u64 (request_time + spp.fw_wbuf_lat0 + spp.fw_wbuf_lat1 * div_round_up length (kb 4)) in
      ssd_advance_pcie ssd ready length

  -- chmodel_request on the model of channel `c`.
  unfoldable pub advance_channel : Ssd → ℕ → ℕ → ℕ → Run (ℕ × Ssd)
  unfolding chmodel_request
  advance_channel ssd c request_time length = do
    ch ← entry (get_elem? ssd.channels c)
    (t, model) ← chmodel_request ch.perf_model (cpu_clock ssd.clock_reads) request_time length
    let channels = set ssd.channels c (record ch { perf_model = model })
    ok (t, record ssd { channels = channels; clock_reads = ssd.clock_reads + 1 })

  -- The completion time of one piece of a read, which went over the channel by `etime`.
  piece_completed : Ssd → Bool → ℕ → ℕ → Run (ℕ × Ssd)
  unfolding ssd_advance_pcie
  piece_completed ssd true etime size = ssd_advance_pcie ssd etime size
  piece_completed ssd false etime size = ok (etime, ssd)

  -- The `while (remaining)` loop of a read, entered with `remaining` above 0: the pieces go over
  -- the channel one after the other. The result is chnl_etime and completed_time.
  unfoldable pub transfer :
      ℕ → Ssd → (c : ℕ) → (interleave : Bool) → (stime remaining : ℕ) → Run (ℕ × ℕ × Ssd)
  unfolding advance_channel piece_completed
  transfer zero ssd c interleave stime remaining = fault out_of_fuel
  transfer (suc fuel) ssd c interleave stime remaining = do
    let size = min remaining ssd.sp.max_ch_xfer_size
    (etime, ssd1) ← advance_channel ssd c stime size
    (completed, ssd2) ← piece_completed ssd1 interleave etime size
    let rest = transfer fuel ssd2 c interleave etime (remaining - size)
    if (remaining - size) == 0 then ok (etime, completed, ssd2) else rest

  -- The `switch` of ssd_advance_nand, for a command that starts at `cmd_stime`.
  pub perform : NandOp → Ssd → NandCmd → (lun_time cell cmd_stime : ℕ) → Run (ℕ × Ssd)
  unfolding transfer by_cell set_lun_time advance_channel
  perform nand_read ssd ncmd lun_time cell cmd_stime = do
    let spp = ssd.sp
    latency ←
        if ncmd.xfer_size == 4096
        then by_cell spp.pg_4kb_rd_lat_lsb spp.pg_4kb_rd_lat_msb spp.pg_4kb_rd_lat_csb cell
        else by_cell spp.pg_rd_lat_lsb spp.pg_rd_lat_msb spp.pg_rd_lat_csb cell
    let nand_etime = u64 (max lun_time cmd_stime + latency)
    let pieces =
        transfer ncmd.xfer_size ssd ncmd.ppa.ch ncmd.interleave_pci_dma nand_etime ncmd.xfer_size
    (etime, completed, ssd') ← if ncmd.xfer_size == 0 then fault undefined else pieces
    ssd'' ← set_lun_time ssd' ncmd.ppa etime
    ok (completed, ssd'')
  perform nand_write ssd ncmd lun_time cell cmd_stime = do
    (etime, ssd') ← advance_channel ssd ncmd.ppa.ch (max lun_time cmd_stime) ncmd.xfer_size
    let nand_etime = u64 (etime + ssd.sp.pg_wr_lat)
    ssd'' ← set_lun_time ssd' ncmd.ppa nand_etime
    ok (nand_etime, ssd'')
  perform nand_erase ssd ncmd lun_time cell cmd_stime = do
    let nand_etime = u64 (max lun_time cmd_stime + ssd.sp.blk_er_lat)
    ssd' ← set_lun_time ssd ncmd.ppa nand_etime
    ok (nand_etime, ssd')
  perform nand_nop ssd ncmd lun_time cell cmd_stime = do
    ssd' ← set_lun_time ssd ncmd.ppa (max lun_time cmd_stime)
    ok (max lun_time cmd_stime, ssd')
  perform unsupported ssd ncmd lun_time cell cmd_stime = ok (0, ssd)

  -- A command with no start time takes it from the clock.
  start_time : Ssd → ℕ → ℕ × Ssd
  start_time ssd stime =
      if stime == 0
      then (cpu_clock ssd.clock_reads, record ssd { clock_reads = ssd.clock_reads + 1 })
      else (stime, ssd)

  unfoldable pub ssd_advance_nand : Ssd → NandCmd → Run (ℕ × Ssd)
  unfolding start_time is_unmapped get_lun get_cell perform
  ssd_advance_nand ssd ncmd =
      let (cmd_stime, ssd') = start_time ssd ncmd.stime in
      if is_unmapped ncmd.ppa then ok (cmd_stime, ssd') else do
        lun ← get_lun ssd' ncmd.ppa
        cell ← get_cell ssd'.sp ncmd.ppa
        perform ncmd.cmd ssd' ncmd lun.next_lun_avail_time cell cmd_stime

latest_lun : ℕ → List NandLun → ℕ
latest_lun latest [] = latest
latest_lun latest (lun ∷ luns) = latest_lun (max latest lun.next_lun_avail_time) luns

-- The loops over the channels and their LUNs.
latest_channel : ℕ → List SsdChannel → ℕ
unfolding latest_lun
latest_channel latest [] = latest
latest_channel latest (ch ∷ chs) = latest_channel (latest_lun latest ch.luns) chs

unfoldable pub ssd_next_idle_time : (ℕ → ℕ) → Ssd → ℕ × Ssd
unfolding latest_channel
ssd_next_idle_time cpu_clock ssd = (
  latest_channel (cpu_clock ssd.clock_reads) ssd.channels,
  record ssd { clock_reads = ssd.clock_reads + 1 },
)
