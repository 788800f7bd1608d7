-- ===== src/Conv/Gc/Safe.antt =====
-- Garbage collection as a whole: do_gc, foreground_gc and the refill of the write credits.
use nvmevirt_pim.Base.{
  ℕ, ◌%◌, ◌^◌, refl, ap, ◌==◌, Bool, true, Option, some, none, Ensures, normal, Ends-if, Ends-bind,
  Ends-map, u32, arith,
}
use nvmevirt_pim.Ssd.Params.{SsdParams}
use nvmevirt_pim.Ssd.Nand.{Ppa}
use nvmevirt_pim.Conv.State.{ConvFtl, VictimQueue}
use nvmevirt_pim.Conv.Geometry.{IsGeometry}
use nvmevirt_pim.Conv.Lines.{select_victim_line, should_gc_high, consume_write_credit}
use nvmevirt_pim.Conv.Gc.{
  collect, collect_selected, do_gc, foreground_gc, check_and_refill_write_credit,
}
use nvmevirt_pim.Conv.Consistent.Frames.{
  Keeps, Keeps-refl, mark_line_free-Keeps, select_peeked-Keeps,
}
use nvmevirt_pim.Conv.Gc.Moves.{IsMapped, Preserves, Preserves-trans, Keeps-Moves}
use nvmevirt_pim.Conv.Gc.Sweeps.{clean_flashpgs-Preserves}

module _ {Q : Type 0} (spp : SsdParams) where
  pub Keeps-Preserves : {f g : ConvFtl Q} → IsMapped spp f → Keeps f g → Preserves spp f g
  Keeps-Preserves m k = let moves = Keeps-Moves spp m k in moves.preserves

  pub consume-Preserves :
      (f : ConvFtl Q) → IsMapped spp f → Preserves spp f (consume_write_credit f)
  unfolding consume_write_credit
  consume-Preserves f m = Keeps-Preserves m (record { tables_same = refl; sp_same = refl })

module _ (cpu_clock : ℕ → ℕ) (pq : VictimQueue) (spp : SsdParams) (geo : IsGeometry spp)
    (stack_ppa : Ppa) where
  collect-Preserves :
      (f : ConvFtl pq.Queue) (v : ℕ)
      → IsMapped spp f
      → Ensures (Preserves spp f) (collect cpu_clock pq stack_ppa f v)
  unfolding collect
  collect-Preserves f v m =
      let line = f.lines v in
      let f1 = record f { credits_to_refill = u32 line.ipc } in
      let start : Preserves spp f f1 =
        Keeps-Preserves spp m (record { tables_same = refl; sp_same = refl }) in
      Ends-bind
        (clean_flashpgs-Preserves cpu_clock pq spp geo (v % 2 ^ 16) f1.ssd.sp.flashpgs_per_blk 0 f1
          (record stack_ppa { blk = v % 2 ^ 16 }) start.mapped
          (omega (arith, ap (λ (s : SsdParams). s.flashpgs_per_blk) m.sp_same)) refl
          λ w k lt small. absurd (omega arith))
        λ g cleaned. Ends-map (mark_line_free-Keeps g (v % 2 ^ 16)) λ h k.
          Preserves-trans spp start
            (Preserves-trans spp cleaned (Keeps-Preserves spp cleaned.mapped k))

  collect_selected-Preserves :
      (f : ConvFtl pq.Queue) (s : Option ℕ × ConvFtl pq.Queue)
      → Preserves spp f s.1
      → Ensures (λ r. Preserves spp f r.1) (collect_selected cpu_clock pq stack_ppa s)
  unfolding collect_selected
  collect_selected-Preserves f (none, g) p = normal p
  collect_selected-Preserves f (some v, g) p =
      Ends-bind (collect-Preserves g v p.mapped) λ h q. normal (Preserves-trans spp p q)

  -- From tables that agree, do_gc ends, for any priority queue. If it ends normally, the
  -- tables agree again with each other and with the states of the pages, and a logical page
  -- has a physical page exactly if it had one before.
  pub do_gc-Preserves :
      (f : ConvFtl pq.Queue) (force : Bool)
      → IsMapped spp f
      → Ensures (λ r. Preserves spp f r.1) (do_gc cpu_clock pq stack_ppa f force)
  unfolding do_gc select_victim_line
  do_gc-Preserves f force m =
      collect_selected-Preserves f _
        (Keeps-Preserves spp m (select_peeked-Keeps pq (pq.pqueue_peek f.victim_line_pq) f force))

  foreground_gc-Preserves :
      (f : ConvFtl pq.Queue)
      → IsMapped spp f
      → Ensures (Preserves spp f) (foreground_gc cpu_clock pq stack_ppa f)
  unfolding foreground_gc
  foreground_gc-Preserves f m =
      Ends-if (should_gc_high f) (λ _. Ends-bind (do_gc-Preserves f true m) λ r p. normal p)
        λ _. normal (Keeps-Preserves spp m Keeps-refl)

  pub refill-Preserves :
      (f : ConvFtl pq.Queue)
      → IsMapped spp f
      → Ensures (Preserves spp f) (check_and_refill_write_credit cpu_clock pq stack_ppa f)
  unfolding check_and_refill_write_credit
  refill-Preserves f m =
      Ends-if (f.write_credits == 0)
        (λ _. Ends-bind (foreground_gc-Preserves f m) λ g p. normal (
          Preserves-trans spp p
            (Keeps-Preserves spp p.mapped (record { tables_same = refl; sp_same = refl }))))
        λ _. normal (Keeps-Preserves spp m Keeps-refl)
