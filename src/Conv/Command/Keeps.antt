-- ===== src/Conv/Command/Keeps.antt =====
-- What a command leaves, and what a history of commands does: conv_proc_nvme_io_cmd of conv_ftl.c.
use nvmevirt_pim.Base.{
  ℕ, zero, suc, ◌+◌, ◌^◌, max, ◌<◌, ◌≤◌, ◌≡◌, refl, ◌∙◌, ap, ◌==◌, true, leb, ◌&&◌, ◌||◌,
  Bool-cases, inl, inr, List, [], ◌∷◌, Run, ok, ◌>>=◌, Ensures, normal, Ends-bind, Ends-map,
  Ensures-assert, arith,
}
use nvmevirt_pim.Ssd.Params.{SsdParams}
use nvmevirt_pim.Ssd.Nand.{Ppa}
use nvmevirt_pim.Ssd.Nand.Ops.{ssd_next_idle_time}
use nvmevirt_pim.Zns.State.{Request, Result}
use nvmevirt_pim.Conv.State.{VictimQueue}
use nvmevirt_pim.Conv.Geometry.{IsGeometry}
use nvmevirt_pim.Conv.Namespace.{ConvNamespace, set_part, csi_nvm}
use nvmevirt_pim.Conv.Namespace.Parts.{
  has_page, AllMapped, part-ends, Same, Same-trans, Same-refl, set_part-Same,
}
use nvmevirt_pim.Conv.Read.{start_lpn, end_lpn}
use nvmevirt_pim.Conv.Read.Keeps.{conv_read-ReadEnds}
use nvmevirt_pim.Conv.Write.Covers.{conv_write-WriteEnds}
use nvmevirt_pim.Conv.Command.{
  ConvCommand, write_cmd, read_cmd, flush_cmd, unimplemented_cmd, latest_idle, conv_flush,
  conv_proc_nvme_io_cmd,
}

module _ (cpu_clock : ℕ → ℕ) {Q : Type 0} (spp : SsdParams) where
  latest_idle-Same :
      (n i : ℕ) (ns : ConvNamespace Q) (latest : ℕ)
      → AllMapped spp ns.ftls
      → Ensures (λ r. Same spp ns r.1 × (latest ≤ r.0)) (latest_idle cpu_clock n i ns latest)
  unfolding latest_idle ssd_next_idle_time
  latest_idle-Same zero i ns latest all = normal (Same-refl spp ns all, omega arith)
  latest_idle-Same (suc n) i ns latest all = Ends-bind (part-ends ns i) λ f p.
      let idle = (ssd_next_idle_time cpu_clock f.ssd).0 in
      let g = record f { ssd = (ssd_next_idle_time cpu_clock f.ssd).1 } in
      let s = set_part-Same spp ns i f g all p (record { tables_same = refl; sp_same = refl }) in
      Ends-map (latest_idle-Same n (i + 1) (set_part ns i g) (max latest idle) s.sound)
        λ r (t, le). (Same-trans s t, omega (arith, le))

-- The tables agree after the command, and no logical page has lost its physical page.
pub record CommandEnds {Q : Type 0} (spp : SsdParams) (ns ms : ConvNamespace Q) : Type 0 where
  pub sound : AllMapped spp ms.ftls
  pub parts : ms.nr_parts ≡ ns.nr_parts
  pub kept : (n : ℕ) → has_page ns n ≡ true → has_page ms n ≡ true

pub record Submission : Type 0 where
  pub cmd : ConvCommand
  pub req : Request
  pub stack_ppa : Ppa

module _ (cpu_clock : ℕ → ℕ) (pq : VictimQueue) where
  -- One command after the other, each with a result `ret` that the worker has cleared.
  pub conv_history :
      (ret : Result) → List Submission → ConvNamespace pq.Queue → Run (ConvNamespace pq.Queue)
  conv_history ret [] ns = ok ns
  conv_history ret (s ∷ rest) ns = do
    r ← conv_proc_nvme_io_cmd cpu_clock pq s.cmd ns s.stack_ppa s.req ret
    conv_history ret rest r.ns

module _ (cpu_clock : ℕ → ℕ) (pq : VictimQueue) (spp : SsdParams) (geo : IsGeometry spp) where
  Same-CommandEnds : {ns ms : ConvNamespace pq.Queue} → Same spp ns ms → CommandEnds spp ns ms
  Same-CommandEnds s = record { sound = s.sound; parts = s.parts; kept = λ n h. s.present n ∙ h }

  -- Every command, whatever its kind and whether it is done or not.
  pub conv_proc-CommandEnds :
      (cmd : ConvCommand) (ns : ConvNamespace pq.Queue) (stack_ppa : Ppa) (req : Request)
      (ret : Result)
      → ns.nr_parts < 2 ^ 32
      → AllMapped spp ns.ftls
      → Ensures
          (λ r. CommandEnds spp ns r.ns)
          (conv_proc_nvme_io_cmd cpu_clock pq cmd ns stack_ppa req ret)
  unfolding conv_proc_nvme_io_cmd conv_flush
  conv_proc-CommandEnds write_cmd ns stack_ppa req ret few all =
      Ensures-assert (ns.csi == csi_nvm) λ _.
        Ends-map (conv_write-WriteEnds cpu_clock pq spp geo ns stack_ppa req ret all) λ r w.
          record {
            sound = w.sound;
            parts = w.parts;
            kept = λ n h. elim (Bool-cases r.done) [
              | inl e ↦
                  w.stored e n
                  ∙ ap (λ b. b || (leb (start_lpn spp req) n && leb n (end_lpn spp req))) h
              | inr e ↦ w.refused e n ∙ h
            ];
          }
  conv_proc-CommandEnds read_cmd ns stack_ppa req ret few all =
      Ensures-assert (ns.csi == csi_nvm) λ _.
        Ends-map (conv_read-ReadEnds cpu_clock spp geo ns req ret few all)
          λ r w. Same-CommandEnds w.same
  conv_proc-CommandEnds (flush_cmd local_clock) ns stack_ppa req ret few all =
      Ensures-assert (ns.csi == csi_nvm) λ _.
        Ends-bind (latest_idle-Same cpu_clock spp ns.nr_parts 0 ns local_clock all)
          λ (latest, ns') (same, _). normal (Same-CommandEnds same)
  conv_proc-CommandEnds unimplemented_cmd ns stack_ppa req ret few all =
      Ensures-assert (ns.csi == csi_nvm) λ _. normal (Same-CommandEnds (Same-refl spp ns all))

  -- On a namespace of less than 2 ^ 32 instances whose tables agree, any sequence of commands
  -- ends. If it ends normally, the tables agree again, and every logical page that had a
  -- physical page has one.
  pub conv_history-CommandEnds :
      (ret : Result) (history : List Submission) (ns : ConvNamespace pq.Queue)
      → ns.nr_parts < 2 ^ 32
      → AllMapped spp ns.ftls
      → Ensures (CommandEnds spp ns) (conv_history cpu_clock pq ret history ns)
  unfolding conv_history
  conv_history-CommandEnds ret [] ns few all = normal (Same-CommandEnds (Same-refl spp ns all))
  conv_history-CommandEnds ret (s ∷ rest) ns few all =
      Ends-bind (conv_proc-CommandEnds s.cmd ns s.stack_ppa s.req ret few all) λ r e.
        Ends-map (conv_history-CommandEnds ret rest r.ns (rw e.parts few) e.sound) λ ms t. record {
          sound = t.sound;
          parts = t.parts ∙ e.parts;
          kept = λ n h. t.kept n (e.kept n h);
        }
