-- ===== src/Zns/Command/Keeps.antt =====
-- About zns_read and zns_proc_nvme_io_cmd and the invariant of the zones.
use nvmevirt_pim.Base.{
  ℕ, zero, suc, ◌+◌, ◌-◌, ◌≡◌, refl, ltb, get_elem?, Ensures, normal, Ends-bind, Ends-if,
  Ensures-entry, subst, sym, u64, ◌<◌, ◌≤◌, ◌^◌, ◌%◌, Ends-map, arith, min,
}
use nvmevirt_pim.Ssd.Nand.{Ssd}
use native.Mathlib.Nat.{mod-lt}
use nvmevirt_pim.Ssd.Nand.Ops.Ends.{ssd_advance_nand-ends, ssd_advance_pcie-ends}
use nvmevirt_pim.Zns.Recv.Ends.{zns_zmgmt_recv-ends}
use nvmevirt_pim.Ssd.Nand.Ops.{ssd_next_idle_time}
use nvmevirt_pim.Zns.State.{ZnsFtl, Opcode, Request, Result, descriptor}
use nvmevirt_pim.Zns.Address.{lba_to_lpn, lpn_to_zone, lpn_to_ppa}
use nvmevirt_pim.Zns.Send.Keeps.{zns_zmgmt_send-IsConsistent}
use nvmevirt_pim.Zns.Zrwa.Keeps.{zns_write-IsConsistent}
use nvmevirt_pim.Zns.Write.Same.{SameZones-ssd, last_page}
use nvmevirt_pim.Zns.Read.{read_pages, zns_read}
use nvmevirt_pim.Zns.Command.{
  IoCommand, data_cmd, flush_cmd, mgmt_send_cmd, mgmt_recv_cmd, unimplemented_cmd, zns_flush,
  data_command, zns_proc_nvme_io_cmd,
}
use nvmevirt_pim.Zns.Consistent.{IsGeometry, IsConsistent}
use nvmevirt_pim.Zns.Consistent.Update.{
  SameZones, SameZones-refl, SameZones-trans, SameZones-IsConsistent,
}

SameZones-of_ssd :
    (z : ZnsFtl) (ssd : Ssd) → ssd.sp ≡ z.ssd.sp → SameZones z (record z { ssd = ssd })
SameZones-of_ssd z ssd e = record {
  descs = refl;
  active_same = refl;
  open_same = refl;
  params_same = e;
  zp_same = refl;
}

module _ (cpu_clock : ℕ → ℕ) where
  read_pages-SameZones :
      (fuel : ℕ) (z : ZnsFtl) (lpn elpn stime latest : ℕ)
      → IsGeometry z.ssd.sp
      → elpn + 1 < 2 ^ 64
      → elpn + 2 ≤ lpn + fuel
      → 0 < fuel
      → Ensures (λ r. SameZones z r.1) (read_pages cpu_clock fuel z lpn elpn stime latest)
  unfolding read_pages
  read_pages-SameZones zero z lpn elpn stime latest g w h f = absurd (omega arith)
  read_pages-SameZones (suc fuel) z lpn elpn stime latest g w h f =
      let page = (lpn_to_ppa z lpn).pg in
      let flashpg = z.ssd.sp.pgs_per_flashpg in
      let in_flash_page = mod-lt page g.flashpg_pos in
      let pgs = min (elpn - lpn + 1) (flashpg - page % flashpg) in
      Ends-if (ltb elpn lpn) (λ _. normal (SameZones-refl z))
        λ more. Ends-bind (ssd_advance_nand-ends cpu_clock z.ssd _ g.xfer_pos) λ (t, ssd) e.
          Ends-map
            (read_pages-SameZones fuel (record z { ssd = ssd }) (u64 (lpn + pgs)) elpn stime _
              (subst IsGeometry (sym e) g) w (ground arith) (ground arith))
            λ r s. SameZones-ssd z ssd e s

  -- From a consistent state a read ends, and if it ends normally no zone, no counter of active
  -- or open zones and not the command has changed.
  pub zns_read-SameZones :
      (z : ZnsFtl) (req : Request) (ret : Result)
      → IsConsistent z
      → Ensures (λ r. SameZones z r.ftl × (r.req ≡ req)) (zns_read cpu_clock z req ret)
  unfolding zns_read descriptor
  zns_read-SameZones z req ret v =
      Ensures-entry (get_elem? z.zone_descs (lpn_to_zone z (lba_to_lpn z req.slba))) λ d at.
        Ends-bind
          (read_pages-SameZones _ z _ _ _ _ v.geometry (last_page z _ v) (omega arith)
            (omega arith))
          λ (latest, z1) s.
            Ends-bind (ssd_advance_pcie-ends cpu_clock z1.ssd _ _)
              λ (t, ssd) e. normal (SameZones-trans s (SameZones-of_ssd z1 ssd e), refl)

  data_command-IsConsistent :
      (op : Opcode) (z : ZnsFtl) (req : Request) (ret : Result)
      → IsConsistent z
      → Ensures (λ r. IsConsistent r.ftl) (data_command cpu_clock op z req ret)
  unfolding data_command
  data_command-IsConsistent Opcode.write z req ret v = zns_write-IsConsistent cpu_clock z req ret v
  data_command-IsConsistent Opcode.zone_append z req ret v =
      zns_write-IsConsistent cpu_clock z req ret v
  data_command-IsConsistent Opcode.read z req ret v =
      Ends-map (zns_read-SameZones z req ret v) λ r s. SameZones-IsConsistent s.0 v

  -- From a consistent state every I/O command ends: normally, in a consistent state, or at a
  -- failed assertion or undefined behaviour of the code, but never for want of fuel.
  pub zns_proc_nvme_io_cmd-IsConsistent :
      (garbage : ℕ) (cmd : IoCommand) (z : ZnsFtl) (req : Request) (ret : Result)
      → IsConsistent z
      → Ensures (λ r. IsConsistent r.ftl) (zns_proc_nvme_io_cmd cpu_clock garbage cmd z req ret)
  unfolding zns_proc_nvme_io_cmd zns_flush ssd_next_idle_time
  zns_proc_nvme_io_cmd-IsConsistent garbage data_cmd z req ret v =
      data_command-IsConsistent req.opcode z req ret v
  zns_proc_nvme_io_cmd-IsConsistent garbage (flush_cmd local_clock) z req ret v =
      normal (SameZones-IsConsistent (SameZones-of_ssd z _ refl) v)
  zns_proc_nvme_io_cmd-IsConsistent garbage (mgmt_send_cmd slba action option all) z req ret v =
      Ends-bind (zns_zmgmt_send-IsConsistent garbage z slba action option all v)
        λ (st, z') v'. normal v'
  zns_proc_nvme_io_cmd-IsConsistent garbage (mgmt_recv_cmd cmd prp_list) z req ret v =
      Ends-bind (zns_zmgmt_recv-ends z cmd prp_list) λ answer _. normal v
  zns_proc_nvme_io_cmd-IsConsistent garbage unimplemented_cmd z req ret v = normal v
