-- ===== src/Zns/Recv/Ends.antt =====
-- About zns_mgmt_recv.c: a report ends, for every PRP list.
use nvmevirt_pim.Base.{
  ℕ, zero, suc, ◌+◌, ◌-◌, ◌%◌, ◌<◌, Bool, true, false, ltb, ◌==◌, ok, arith, normal, Ensures,
  stopped, at_undefined, Ends-bind, Ends-if, leb, length, ◌*◌, ◌>>=◌,
}
use nvmevirt_pim.Zns.Recv.{
  page_size, chunk_size, list_entry, next_prp, report_buffer_size, prp_walk, prp_transfer_data,
  RecvCmd, zns_zmgmt_recv, fill_zone_report, option_supported, nr_zone_to_report, bytes_transfer,
}
use nvmevirt_pim.Zns.State.{ZnsFtl}
use nvmevirt_pim.Zns.Address.{lba_to_zone}
use nvmevirt_pim.Zns.Recv.Walk.{chunk_size-pos}

module _ (prp1 prp2 : ℕ) (prp_list : ℕ → ℕ) where
  listed-ends :
      (i : ℕ)
      → Ensures {A = ℕ × ℕ × Bool}
          (λ p. Unit {0})
          (list_entry prp2 prp_list i >>= λ a. ok (a, i + 1, true))
  unfolding list_entry
  listed-ends i =
      Ends-bind {P = λ _. Unit {0}}
        (Ends-if (leb (prp2 % page_size + 8 * (i + 1)) page_size) (λ _. normal tt)
          (λ _. stopped at_undefined))
        λ a _. normal tt

  next_prp-ends :
      (prp_offs prp2_offs : ℕ) (have_list : Bool) (remaining : ℕ)
      → Ensures (λ p. Unit {0}) (next_prp prp1 prp2 prp_list prp_offs prp2_offs have_list remaining)
  unfolding next_prp
  next_prp-ends prp_offs prp2_offs have_list remaining =
      Ends-if (prp_offs == 1) (λ _. normal tt)
        λ _.
          Ends-if (prp_offs == 2)
            (λ _. Ends-if (ltb page_size remaining) (λ _. listed-ends prp2_offs) (λ _. normal tt))
            (λ _. Ends-if have_list (λ _. listed-ends prp2_offs) (λ _. stopped at_undefined))

  -- The walk ends for every prp2, though it may read a list that was never mapped.
  walk-ends :
      (fuel prp_offs prp2_offs : ℕ) (have_list : Bool) (offset remaining : ℕ)
      → remaining < fuel
      → Ensures
          (λ cs. Unit {0})
          (prp_walk fuel prp1 prp2 prp_list prp_offs prp2_offs have_list offset remaining)
  unfolding prp_walk
  walk-ends zero prp_offs prp2_offs have_list offset remaining h = absurd (omega arith)
  walk-ends (suc fuel) prp_offs prp2_offs have_list offset remaining h =
      Ends-if (remaining == 0) (λ _. normal tt)
        λ more.
          Ends-bind (next_prp-ends (prp_offs + 1) prp2_offs have_list remaining)
            λ (paddr, prp2_offs', have_list') _.
              let size = chunk_size-pos paddr remaining (ground arith) in
              Ends-bind
                (walk-ends fuel (prp_offs + 1) prp2_offs' have_list'
                  (offset + chunk_size paddr remaining) (remaining - chunk_size paddr remaining)
                  (ground arith))
                λ cs _. normal tt

pub zns_zmgmt_recv-ends :
    (z : ZnsFtl) (cmd : RecvCmd) (prp_list : ℕ → ℕ)
    → Ensures (λ r. Unit {0}) (zns_zmgmt_recv z cmd prp_list)
unfolding zns_zmgmt_recv fill_zone_report prp_transfer_data
zns_zmgmt_recv-ends z cmd prp_list =
    Ends-if (option_supported z cmd)
      (λ _.
        Ends-bind {P = λ _. Unit {0}}
          (Ends-if (leb (lba_to_zone z cmd.slba + nr_zone_to_report z cmd) (length z.zone_descs))
            (λ _. normal tt) (λ _. stopped at_undefined))
          λ report _.
            Ends-bind
              (Ends-if (leb (bytes_transfer cmd) (report_buffer_size z))
                (λ _.
                  walk-ends cmd.prp1 cmd.prp2 prp_list (bytes_transfer cmd + 1) 0 0 false 0
                    (bytes_transfer cmd) (omega arith))
                (λ _. stopped at_undefined))
              λ copies _. normal tt)
      (λ _. normal tt)
