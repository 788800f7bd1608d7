-- ===== src/Zns/Command/Runs.antt =====
-- Sequences of commands, as the dispatcher of io.c gives them to zns_proc_nvme_io_cmd: each one
-- finds the state that the last one left.
use nvmevirt_pim.Base.{ℕ, ◌≡◌, ok, Ends-value}
use nvmevirt_pim.Ssd.Config.{SsdConfig}
use nvmevirt_pim.Zns.Init.{zns_init_namespace}
use nvmevirt_pim.Zns.Init.Models.{IsZnsModel, zns_init_namespace-IsConsistent}
use nvmevirt_pim.Zns.State.{ZnsFtl, Request, Result, Reply}
use nvmevirt_pim.Zns.Command.{IoCommand, zns_proc_nvme_io_cmd}
use nvmevirt_pim.Zns.Command.Keeps.{zns_proc_nvme_io_cmd-IsConsistent}
use nvmevirt_pim.Zns.Consistent.{IsConsistent}

-- `z'` is reached from `z` by commands that the handler has gone through. The clock and what an
-- unset variable holds may differ from one command to the next.
pub data Runs (z : ZnsFtl) : ZnsFtl → Type 0 where
  start : Runs z z
  command :
      {y : ZnsFtl} (cpu_clock : ℕ → ℕ) (garbage : ℕ) (cmd : IoCommand) (req : Request)
      (ret : Result) (r : Reply)
      → Runs z y
      → zns_proc_nvme_io_cmd cpu_clock garbage cmd y req ret ≡ ok r
      → Runs z r.ftl

-- Whatever the commands were, the zones and their counters agree afterwards.
pub Runs-IsConsistent : {z z' : ZnsFtl} → Runs z z' → IsConsistent z → IsConsistent z'
Runs-IsConsistent start v = v
Runs-IsConsistent (command {y = y} cpu_clock garbage cmd req ret r before e) v =
    Ends-value
      (zns_proc_nvme_io_cmd-IsConsistent cpu_clock garbage cmd y req ret
        (Runs-IsConsistent before v))
      e

-- After any commands, from the initialisation of one of the two ZNS models on, the counters of
-- active and of open zones are the numbers of such zones and within their limits, and an empty
-- zone has its write pointer at its start and no random write area.
pub reachable-IsConsistent :
    (c : SsdConfig) (memory storage : ℕ → ℕ) (size : ℕ) {z z' : ZnsFtl}
    → IsZnsModel c
    → zns_init_namespace c memory storage size ≡ ok z
    → Runs z z'
    → IsConsistent z'
reachable-IsConsistent c memory storage size m e runs =
    Runs-IsConsistent runs (Ends-value (zns_init_namespace-IsConsistent c memory storage size m) e)
