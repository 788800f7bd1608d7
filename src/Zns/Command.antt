-- ===== src/Zns/Command.antt =====
-- zns_flush and the dispatch of zns_ftl.c: zns_proc_nvme_io_cmd.
pub mod Keeps
pub mod Runs
use nvmevirt_pim.Base.{ℕ, max, Bool, true, Run, ok, ◌>>=◌}
use nvmevirt_pim.Ssd.Nand.Ops.{ssd_next_idle_time}
use nvmevirt_pim.Zns.Sc
use nvmevirt_pim.Zns.State.{ZnsFtl, Opcode, Request, Result, Reply}
use nvmevirt_pim.Zns.Send.{SendAction, zns_zmgmt_send}
use nvmevirt_pim.Zns.Recv.{RecvCmd, zns_zmgmt_recv}
use nvmevirt_pim.Zns.Zrwa.{zns_write}
use nvmevirt_pim.Zns.Read.{zns_read}

-- A command by its opcode, with the fields that its handler reads.
pub data IoCommand : Type 0 where
  data_cmd : IoCommand
  flush_cmd : (local_clock : ℕ) → IoCommand
  mgmt_send_cmd : (slba : ℕ) → SendAction → (option select_all : Bool) → IoCommand
  mgmt_recv_cmd : RecvCmd → (prp_list : ℕ → ℕ) → IoCommand
  unimplemented_cmd : IoCommand

module _ (cpu_clock : ℕ → ℕ) where
  -- zns_flush; `local_clock` is the time that it starts from.
  unfoldable pub zns_flush : ℕ → ZnsFtl → Request → Result → Reply
  zns_flush local_clock z req ret =
      let (idle, ssd) = ssd_next_idle_time cpu_clock z.ssd in
      record {
        done = true;
        req = req;
        ret = record ret { status = Sc.success; nsecs_target = max local_clock idle };
        ftl = record z { ssd = ssd };
      }

  -- The handlers of write, append and read.
  unfoldable pub data_command : Opcode → ZnsFtl → Request → Result → Run Reply
  data_command Opcode.write z req ret = zns_write cpu_clock z req ret
  data_command Opcode.zone_append z req ret = zns_write cpu_clock z req ret
  data_command Opcode.read z req ret = zns_read cpu_clock z req ret

  unfoldable pub zns_proc_nvme_io_cmd :
      (garbage : ℕ) → IoCommand → ZnsFtl → Request → Result → Run Reply
  zns_proc_nvme_io_cmd garbage data_cmd z req ret = data_command req.opcode z req ret
  zns_proc_nvme_io_cmd garbage (flush_cmd local_clock) z req ret =
      ok (zns_flush local_clock z req ret)
  zns_proc_nvme_io_cmd garbage (mgmt_send_cmd slba action option select_all) z req ret = do
    (status, z') ← zns_zmgmt_send garbage z slba action option select_all
    ok (record {
      done = true;
      req = req;
      ret = record ret { status = status; nsecs_target = req.nsecs_start };
      ftl = z';
    })
  zns_proc_nvme_io_cmd garbage (mgmt_recv_cmd cmd prp_list) z req ret = do
    answer ← zns_zmgmt_recv z cmd prp_list
    ok (record {
      done = true;
      req = req;
      ret = record ret { status = answer.status; nsecs_target = req.nsecs_start };
      ftl = z;
    })
  zns_proc_nvme_io_cmd garbage unimplemented_cmd z req ret =
      ok (record { done = true; req = req; ret = ret; ftl = z })
