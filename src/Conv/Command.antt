-- ===== src/Conv/Command.antt =====
-- conv_flush and the dispatch of conv_ftl.c: conv_proc_nvme_io_cmd.
pub mod Keeps
pub mod Apart
use nvmevirt_pim.Base.{ℕ, zero, suc, ◌+◌, ◌==◌, max, true, Run, ok, ◌>>=◌, ◌>>◌, assert}
use nvmevirt_pim.Ssd.Nand.{Ppa, Ssd}
use nvmevirt_pim.Ssd.Nand.Ops.{ssd_next_idle_time}
use nvmevirt_pim.Zns.Sc
use nvmevirt_pim.Zns.State.{Request, Result}
use nvmevirt_pim.Conv.State.{ConvFtl, VictimQueue}
use nvmevirt_pim.Conv.Namespace.{ConvNamespace, part, set_part, csi_nvm}
use nvmevirt_pim.Conv.Read.{ConvReply, conv_read}
use nvmevirt_pim.Conv.Write.{conv_write}

-- The opcodes that the dispatch knows. `local_clock` is the time that a flush starts from.
pub data ConvCommand : Type 0 where
  write_cmd : ConvCommand
  read_cmd : ConvCommand
  flush_cmd : (local_clock : ℕ) → ConvCommand
  unimplemented_cmd : ConvCommand

module _ (cpu_clock : ℕ → ℕ) {Q : Type 0} where
  -- The loop over the instances from `i`, `n` of them.
  unfoldable pub latest_idle :
      (n i : ℕ) → ConvNamespace Q → (latest : ℕ) → Run (ℕ × ConvNamespace Q)
  latest_idle zero i ns latest = ok (latest, ns)
  latest_idle (suc n) i ns latest = do
    f ← part ns i
    let (idle, ssd) = ssd_next_idle_time cpu_clock f.ssd
    latest_idle n (i + 1) (set_part ns i (record f { ssd = ssd })) (max latest idle)

  unfoldable pub conv_flush : (local_clock : ℕ) → ConvNamespace Q → Result → Run (ConvReply Q)
  conv_flush local_clock ns ret = do
    (latest, ns') ← latest_idle ns.nr_parts 0 ns local_clock
    ok (record {
      done = true;
      ret = record ret { status = Sc.success; nsecs_target = latest };
      ns = ns';
    })

module _ (cpu_clock : ℕ → ℕ) (pq : VictimQueue) where
  -- An opcode that is not implemented leaves the result as it was, and counts as done.
  unfoldable pub conv_proc_nvme_io_cmd :
      ConvCommand → ConvNamespace pq.Queue → Ppa → Request → Result → Run (ConvReply pq.Queue)
  conv_proc_nvme_io_cmd cmd ns stack_ppa req ret = do
    assert (ns.csi == csi_nvm)
    elim cmd [
      | write_cmd ↦ conv_write cpu_clock pq ns stack_ppa req ret
      | read_cmd ↦ conv_read cpu_clock ns req ret
      | flush_cmd local_clock ↦ conv_flush cpu_clock local_clock ns ret
      | unimplemented_cmd ↦ ok (record { done = true; ret = ret; ns = ns })
    ]
