-- ===== src/Conv/Namespace.antt =====
-- A namespace of several instances that share the PCIe link and the write buffer: the fields of
-- struct nvmev_ns, and conv_init_namespace of conv_ftl.c.
pub mod Parts
use nvmevirt_pim.Base.{
  ℕ, zero, suc, ◌*◌, ◌/◌, List, [], ◌∷◌, map, get_elem?, set, Run, ok, ◌>>=◌, ◌>>◌, entry, divisor,
  u64,
}
use nvmevirt_pim.Ssd.Config.{SsdConfig}
use nvmevirt_pim.Ssd.Params.{SsdParams, ssd_init_params}
use nvmevirt_pim.Ssd.Buffer.{Buffer}
use nvmevirt_pim.Ssd.Channel.{ChannelModel}
use nvmevirt_pim.Ssd.Nand.{Ssd}
use nvmevirt_pim.Ssd.Nand.Ops.{ssd_init}
use nvmevirt_pim.Zns.State.{InternalOp}
use nvmevirt_pim.Conv.State.{ConvParams, ConvFtl, VictimQueue}
use nvmevirt_pim.Conv.Init.{conv_init_params, conv_init_ftl}

-- NVME_CSI_NVM.
abbrev pub csi_nvm : ℕ
csi_nvm = 0

-- `pcie`, `write_buffer` and the readings of the clock are those of every instance. `scheduled`
-- holds the calls of schedule_internal_operation, the latest first.
pub record ConvNamespace (Queue : Type 0) : Type 0 where
  pub id : ℕ
  pub csi : ℕ
  pub size : ℕ
  pub nr_parts : ℕ
  pub ftls : List (ConvFtl Queue)
  pub pcie : ChannelModel
  pub write_buffer : Buffer
  pub clock_reads : ℕ
  pub scheduled : List InternalOp

module _ {Q : Type 0} where
  -- conv_ftls[i], with the shared parts in its SSD.
  unfoldable pub part : ConvNamespace Q → ℕ → Run (ConvFtl Q)
  part ns i = do
    f ← entry (get_elem? ns.ftls i)
    let ssd = f.ssd
    ok (record f {
      ssd = record ssd {
        pcie = ns.pcie;
        write_buffer = ns.write_buffer;
        clock_reads = ns.clock_reads;
      };
    })

  -- What instance `i` has become, and the shared parts with it.
  unfoldable pub set_part : ConvNamespace Q → ℕ → ConvFtl Q → ConvNamespace Q
  set_part ns i f =
      let ssd = f.ssd in
      record ns {
        ftls = set ns.ftls i f;
        pcie = ssd.pcie;
        write_buffer = ssd.write_buffer;
        clock_reads = ssd.clock_reads;
      }

module _ (pq : VictimQueue) where
  -- The loop over the instances, `n` of them: each has an SSD of its own at first.
  unfoldable pub init_parts :
      (n : ℕ) (raw : ℕ → ConvFtl pq.Queue) (memory : ℕ → ℕ)
      → SsdParams
      → ConvParams
      → Run (List (ConvFtl pq.Queue))
  init_parts zero raw memory spp cpp = ok []
  init_parts (suc n) raw memory spp cpp = do
    f ← conv_init_ftl pq (raw n) cpp (ssd_init memory spp)
    fs ← init_parts n raw memory spp cpp
    ok (f ∷ fs)

  -- Instance 0 gives the link and the buffer to all. `raw` and `memory` are what the allocated
  -- memory held.
  unfoldable pub conv_init_namespace :
      SsdConfig
      → (nr_parts pba_pcent : ℕ) → (raw : ℕ → ConvFtl pq.Queue) → (memory : ℕ → ℕ) → (id size : ℕ)
      → Run (ConvNamespace pq.Queue)
  unfolding init_parts
  conv_init_namespace config nr_parts pba_pcent raw memory id size = do
    divisor nr_parts
    spp ← ssd_init_params config size nr_parts
    let cpp = conv_init_params pba_pcent
    ftls ← init_parts nr_parts raw memory spp cpp
    first ← entry (get_elem? ftls 0)
    let ssd = first.ssd
    divisor pba_pcent
    ok (record {
      id = id;
      csi = csi_nvm;
      size = u64 (size * 100) / pba_pcent;
      nr_parts = nr_parts;
      ftls = ftls;
      pcie = ssd.pcie;
      write_buffer = ssd.write_buffer;
      clock_reads = 0;
      scheduled = [];
    })
