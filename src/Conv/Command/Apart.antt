-- ===== src/Conv/Command/Apart.antt =====
-- Physical pages are not shared, whatever commands a namespace has seen.
use nvmevirt_pim.Base.{
  ℕ, true, ◌^◌, ◌<◌, ◌≡◌, ◌≢◌, sym, ◌∙◌, ap, List, some, get_elem?, ok, ◌>>=◌, Ensures, Ends-bind,
  Ends-map,
}
use nvmevirt_pim.Ssd.Config.{SsdConfig}
use nvmevirt_pim.Ssd.Params.{SsdParams, ssd_init_params}
use nvmevirt_pim.Zns.State.{Result}
use nvmevirt_pim.Conv.State.{ConvFtl, VictimQueue}
use nvmevirt_pim.Conv.Geometry.{IsGeometry}
use nvmevirt_pim.Conv.Map.{page_index, mapped_ppa}
use nvmevirt_pim.Conv.Namespace.{ConvNamespace, conv_init_namespace}
use nvmevirt_pim.Conv.Init.Starts.{conv_init_namespace-starts}
use nvmevirt_pim.Conv.Command.Keeps.{Submission, conv_history, conv_history-CommandEnds}

module _ {Q : Type 0} (spp : SsdParams) where
  -- Two logical pages of one instance that both have a physical page do not have the same one.
  abbrev pub NoSharing : ConvNamespace Q → Type 0
  NoSharing ns =
      (i : ℕ) (f : ConvFtl Q)
      → get_elem? ns.ftls i ≡ some f
      → (n m : ℕ) → n < spp.tt_pgs
      → m < spp.tt_pgs
      → n ≢ m
      → mapped_ppa (f.maptbl n) ≡ true
      → mapped_ppa (f.maptbl m) ≡ true
      → page_index spp (f.maptbl n) ≢ page_index spp (f.maptbl m)

-- After the start of a namespace, with at least two sectors to a page and a geometry as in
-- IsGeometry, and any sequence of commands, the run ends, and if it ends normally no two
-- logical pages of an instance that have a physical page have the same.
pub conv_history-NoSharing :
    (cpu_clock : ℕ → ℕ) (pq : VictimQueue) (config : SsdConfig) (nr_parts pba_pcent : ℕ)
    (raw : ℕ → ConvFtl pq.Queue) (memory : ℕ → ℕ) (id size : ℕ) (spp : SsdParams) (ret : Result)
    (history : List Submission)
    → IsGeometry spp
    → nr_parts < 2 ^ 32
    → ssd_init_params config size nr_parts ≡ ok spp
    → Ensures (NoSharing spp) (
        conv_init_namespace pq config nr_parts pba_pcent raw memory id size
        >>= conv_history cpu_clock pq ret history)
conv_history-NoSharing cpu_clock pq config nr_parts pba_pcent raw memory id size spp ret history geo
      few params =
    Ends-bind
      (conv_init_namespace-starts pq config nr_parts pba_pcent raw memory id size spp params)
      λ ns (sound, parts, _).
        Ends-map (conv_history-CommandEnds cpu_clock pq spp geo ret history ns (rw parts few) sound)
          λ ms e i f at_i n m n_lt m_lt ne n_in m_in same.
            let k = e.sound i f at_i in
            let en = k.consistent n n_lt n_in in
            let em = k.consistent m m_lt m_in in ne (sym en.back ∙ ap f.rmap same ∙ em.back)
