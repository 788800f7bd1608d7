-- ===== src/Conv/Init/Starts.antt =====
-- The state that conv_init_namespace of conv_ftl.c leaves.
use nvmevirt_pim.Base.{
  ℕ, zero, suc, ◌/◌, ◌%◌, ◌≡◌, refl, ◌∙◌, ap, subst, ◌==◌, false, List, [], ◌∷◌, Option, some, none,
  get_elem?, ok, Ensures, normal, stopped, at_bug, Ends-bind, Ensures-entry, Ensures-assert,
  Ensures-divisor, u32,
}
use nvmevirt_pim.Ssd.Config.{SsdConfig}
use nvmevirt_pim.Ssd.Params.{SsdParams, ssd_init_params}
use nvmevirt_pim.Ssd.Nand.{Ssd}
use nvmevirt_pim.Ssd.Nand.Ops.{ssd_init}
use nvmevirt_pim.Conv.State.{
  ConvParams, ConvFtl, free, IoType, user_io, gc_io, VictimQueue, unmapped_ppa,
}
use nvmevirt_pim.Conv.Map.{mapped_ppa}
use nvmevirt_pim.Conv.Lines.{first_free, get_next_free_line, init_lines, init_write_flow_control}
use nvmevirt_pim.Conv.Pointer.{start_line, prepare_write_pointer}
use nvmevirt_pim.Conv.Init.{conv_init_params, conv_init_ftl, init_maptbl, init_rmap, ssd_init_nand}
use nvmevirt_pim.Conv.Consistent.{Tables}
use nvmevirt_pim.Conv.Gc.Moves.{IsMapped}
use nvmevirt_pim.Conv.Namespace.{init_parts, conv_init_namespace}
use nvmevirt_pim.Conv.Namespace.Parts.{part_holds, holds, has_page, AllMapped}
use nvmevirt_pim.Conv.Consistent.Frames.{Keeps, Keeps-trans, first_free-Keeps, set_wp-Keeps}

-- No logical page has a physical page and every physical page is free.
pub record IsEmpty {Q : Type 0} (spp : SsdParams) (f : ConvFtl Q) : Type 0 where
  pub sp_same : f.ssd.sp ≡ spp
  pub maptbl : (n : ℕ) → mapped_ppa (f.maptbl n) ≡ false
  pub pages : (i : ℕ) → f.pages i ≡ free

unmapped : mapped_ppa unmapped_ppa ≡ false
unfolding mapped_ppa
unmapped = refl

Keeps-IsEmpty :
    {Q : Type 0} (spp : SsdParams) {f g : ConvFtl Q} → IsEmpty spp f → Keeps f g → IsEmpty spp g
Keeps-IsEmpty spp e k = record {
  sp_same = k.sp_same ∙ e.sp_same;
  maptbl = λ n. ap (λ (t : Tables). mapped_ppa (t.maptbl n)) k.tables_same ∙ e.maptbl n;
  pages = λ i. ap (λ (t : Tables). t.pages i) k.tables_same ∙ e.pages i;
}

pub IsEmpty-IsMapped :
    {Q : Type 0} (spp : SsdParams) {f : ConvFtl Q} → IsEmpty spp f → IsMapped spp f
IsEmpty-IsMapped spp e = record {
  sp_same = e.sp_same;
  consistent = λ n lt present. absurd (cc (e.maptbl n, present));
  owned = λ i live. absurd (cc (e.pages i, live));
}

start_line-Keeps :
    {Q : Type 0} (f : ConvFtl Q) (io : IoType) (s : Option ℕ × ConvFtl Q)
    → Keeps f s.1
    → Ensures (Keeps f) (start_line io s)
unfolding start_line
start_line-Keeps f io (none, g) k = stopped at_bug
start_line-Keeps f io (some id, g) k = normal (Keeps-trans k (set_wp-Keeps g io _))

prepare_write_pointer-Keeps :
    {Q : Type 0} (f : ConvFtl Q) (io : IoType) → Ensures (Keeps f) (prepare_write_pointer f io)
unfolding prepare_write_pointer get_next_free_line
prepare_write_pointer-Keeps f io =
    start_line-Keeps f io (first_free f.free_line_list f) (first_free-Keeps f.free_line_list f)

module _ (pq : VictimQueue) where
  init_lines-Keeps : (f : ConvFtl pq.Queue) → Ensures (Keeps f) (init_lines pq f)
  unfolding init_lines
  init_lines-Keeps f =
      Ensures-assert (u32 f.ssd.sp.blks_per_pl == f.ssd.sp.tt_lines)
        λ _. normal (record { tables_same = refl; sp_same = refl })

  conv_init_ftl-IsEmpty :
      (raw : ConvFtl pq.Queue) (cpp : ConvParams) (ssd : Ssd)
      → Ensures (IsEmpty ssd.sp) (conv_init_ftl pq raw cpp ssd)
  unfolding conv_init_ftl init_write_flow_control
  conv_init_ftl-IsEmpty raw cpp ssd =
      let f = init_rmap (init_maptbl (ssd_init_nand (record raw { cp = cpp }) ssd)) in
      let start : IsEmpty ssd.sp f = record {
        sp_same = refl;
        maptbl = λ n. unmapped;
        pages = λ i. refl;
      } in
      Ends-bind (init_lines-Keeps f) λ f1 k1.
        Ends-bind (prepare_write_pointer-Keeps f1 user_io) λ f2 k2.
          Ends-bind (prepare_write_pointer-Keeps f2 gc_io) λ f3 k3.
            let k = Keeps-trans k1 (Keeps-trans k2 k3) in
            normal (
              Keeps-IsEmpty ssd.sp start
                (Keeps-trans k (record { tables_same = refl; sp_same = refl })))

  AllEmpty : SsdParams → List (ConvFtl pq.Queue) → Type 0
  AllEmpty spp fs = (i : ℕ) (f : ConvFtl pq.Queue) → get_elem? fs i ≡ some f → IsEmpty spp f

  AllEmpty-cons :
      (spp : SsdParams) (f : ConvFtl pq.Queue) (fs : List (ConvFtl pq.Queue))
      → IsEmpty spp f
      → AllEmpty spp fs
      → AllEmpty spp (f ∷ fs)
  unfolding AllEmpty
  AllEmpty-cons spp f fs e all zero g at_0 = subst (IsEmpty spp) (cc at_0) e
  AllEmpty-cons spp f fs e all (suc i) g at_i = all i g at_i

  part_holds-none :
      (spp : SsdParams) (o : Option (ConvFtl pq.Queue)) (k : ℕ)
      → ((f : ConvFtl pq.Queue) → o ≡ some f → IsEmpty spp f)
      → part_holds o k ≡ false
  unfolding part_holds
  part_holds-none spp none k all = refl
  part_holds-none spp (some f) k all = let e = all f refl in e.maptbl k

  AllEmpty-holds :
      (spp : SsdParams) (fs : List (ConvFtl pq.Queue))
      → AllEmpty spp fs
      → (i k : ℕ) → holds fs i k ≡ false
  unfolding holds AllEmpty
  AllEmpty-holds spp fs all i k = part_holds-none spp (get_elem? fs i) k (all i)

  none_there : (spp : SsdParams) → AllEmpty spp []
  unfolding AllEmpty
  none_there spp i f e = cc e

  init_one :
      (raw : ConvFtl pq.Queue) (memory : ℕ → ℕ) (spp : SsdParams) (cpp : ConvParams)
      → Ensures (IsEmpty spp) (conv_init_ftl pq raw cpp (ssd_init memory spp))
  unfolding ssd_init
  init_one raw memory spp cpp = conv_init_ftl-IsEmpty raw cpp _

  init_parts-AllEmpty :
      (n : ℕ) (raw : ℕ → ConvFtl pq.Queue) (memory : ℕ → ℕ) (spp : SsdParams) (cpp : ConvParams)
      → Ensures (AllEmpty spp) (init_parts pq n raw memory spp cpp)
  unfolding init_parts
  init_parts-AllEmpty zero raw memory spp cpp = normal (none_there spp)
  init_parts-AllEmpty (suc n) raw memory spp cpp =
      Ends-bind (init_one (raw n) memory spp cpp) λ f e.
        Ends-bind (init_parts-AllEmpty n raw memory spp cpp)
          λ fs all. normal (AllEmpty-cons spp f fs e all)

  -- With the parameters that ssd_init_params gives, the start of a namespace ends, and if it
  -- ends normally the tables of every instance agree, and no logical page has a physical page.
  pub conv_init_namespace-starts :
      (config : SsdConfig) (nr_parts pba_pcent : ℕ) (raw : ℕ → ConvFtl pq.Queue) (memory : ℕ → ℕ)
      (id size : ℕ) (spp : SsdParams)
      → ssd_init_params config size nr_parts ≡ ok spp
      → Ensures
          (λ ns.
            AllMapped spp ns.ftls × (ns.nr_parts ≡ nr_parts) × ((n : ℕ) → has_page ns n ≡ false))
          (conv_init_namespace pq config nr_parts pba_pcent raw memory id size)
  unfolding conv_init_namespace has_page AllEmpty
  conv_init_namespace-starts config nr_parts pba_pcent raw memory id size spp params =
      Ensures-divisor nr_parts λ _. rw params (
        Ends-bind (init_parts-AllEmpty nr_parts raw memory spp (conv_init_params pba_pcent))
          λ ftls all. Ensures-entry (get_elem? ftls 0) λ first _. Ensures-divisor pba_pcent λ _.
            normal (
              (λ i f at_i. IsEmpty-IsMapped spp (all i f at_i)),
              refl,
              λ n. AllEmpty-holds spp ftls all (n % nr_parts) (n / nr_parts),
            ))
