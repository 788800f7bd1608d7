-- ===== src/Devices/Simple/Laws.antt =====
-- About the I/O units of simple_ftl.c.
use nvmevirt_pim.Base.{
  ℕ, zero, suc, ◌+◌, ◌-◌, ◌*◌, ◌/◌, ◌%◌, ◌^◌, ◌≤◌, ◌<◌, ◌≡◌, refl, subst, sym, ◌∙◌, min, max, ltb,
  leb, List, length, get_elem?, set, length-set, get_elem?-set, get_elem?-of_lt, some,
  if◌then◌else◌, Run, Returns, normal, Ends-map, Ends-bind, Ends-value, ok, true, ◌⊎◌, Ends-if,
  entry, ◌>>=◌, ap, u32, u64, sub32, arith, Bool-cases, inl, inr, ◌==◌, Ends-divisor,
}
use native.Mathlib.Nat.{mod-lt, mod-eq_of_lt, add-mod_left, mod-add-mod}
use nvmevirt_pim.Conv.Namespace.{csi_nvm}
use nvmevirt_pim.Devices.Simple.{
  UnitConfig, SimpleNamespace, SimpleReply, cmd_io_size, by_opcode, simple_proc_nvme_io_cmd,
  UnitTimes, SimpleOpcode, unit_times, advance_units, schedule_io_units, latest_unit,
  schedule_flush,
}

-- The loop ran `more + 1` times from the time `start`, on unit `io_unit` and those behind it, and
-- left the time `latest`: as often as it takes to cover `size` bytes, and at least once.
pub record Timed (units io_unit_size : ℕ) (t : UnitTimes) (io_unit trailed size start n : ℕ)
    (latest : ℕ) (stat : List ℕ) : Type 0 where
  pub more : ℕ
  pub covers : size ≤ (more + 1) * io_unit_size
  pub needed : 0 < more → more * io_unit_size < size
  pub completes : latest ≡ u64 (start + (more + 1) * t.latency)
  pub same_length : length stat ≡ n
  pub last_unit :
      get_elem? stat ((io_unit + more) % units)
      ≡ some (if ltb more trailed then u64 (latest + t.trailing) else latest)

-- The unit that follows, with the wrap to unit 0.
abbrev wrapped : (units io_unit : ℕ) → ℕ
wrapped units io_unit = if leb units (u32 (io_unit + 1)) then 0 else u32 (io_unit + 1)

wrapped-lt : (units io_unit : ℕ) → io_unit < units → units < 2 ^ 32 → wrapped units io_unit < units
wrapped-lt units io_unit h b = ground arith

wrapped-mod :
    (units io_unit more : ℕ)
    → io_unit < units
    → units < 2 ^ 32
    → (wrapped units io_unit + more) % units ≡ (io_unit + (more + 1)) % units
wrapped-mod units io_unit more h b = elim (Bool-cases (leb units (u32 (io_unit + 1)))) [
  | inl here ↦
      let e : units + (0 + more) ≡ io_unit + (more + 1) = ground arith in
      rw here (sym (add-mod_left units (0 + more)) ∙ ap (λ (x : ℕ). x % units) e)
  | inr there ↦
      let e : u32 (io_unit + 1) + more ≡ io_unit + (more + 1) = ground arith in
      rw there (ap (λ (x : ℕ). x % units) e)
]

Returns-entry :
    {B : Type 0} {Q : B → Type 0} (xs : List ℕ) (i : ℕ) {k : ℕ → Run B}
    → i < length xs
    → ((a : ℕ) → get_elem? xs i ≡ some a → Returns Q (k a))
    → Returns Q (entry (get_elem? xs i) >>= k)
Returns-entry {Q = Q} xs i {k} h rest =
    let (a, e) = get_elem?-of_lt xs i h in subst (λ o. Returns Q (entry o >>= k)) (sym e) (rest a e)

module _ (units io_unit_size : ℕ) (t : UnitTimes) (io_unit trailed size start : ℕ) where
  mod-at_unit : io_unit < units → (io_unit + 0) % units ≡ io_unit
  mod-at_unit h = let e : io_unit + 0 ≡ io_unit = omega arith in rw e (mod-eq_of_lt h)

  -- The last round.
  Timed-once :
      (stat : List ℕ)
      → io_unit < units
      → length stat ≡ units
      → size ≤ io_unit_size
      → Timed units io_unit_size t io_unit trailed size start units (u64 (start + t.latency)) (
          set stat io_unit (
            if ltb 0 trailed
            then u64 (u64 (start + t.latency) + t.trailing)
            else u64 (start + t.latency)))
  Timed-once stat h e c = record {
    more = 0;
    covers = omega arith;
    needed = λ z. absurd (omega arith);
    completes = ground arith;
    same_length = length-set stat io_unit _ ∙ e;
    last_unit =
        ap (get_elem? (set stat io_unit _)) (mod-at_unit h)
        ∙ get_elem?-set stat io_unit io_unit _ (omega arith)
        ∙ ground arith;
  }

  -- A round before others.
  Timed-again :
      (l : ℕ) (s : List ℕ)
      → io_unit < units
      → units < 2 ^ 32
      → 0 < size - min size io_unit_size
      → Timed units io_unit_size t
          (wrapped units io_unit)
          (trailed - 1)
          (size - min size io_unit_size)
          (u64 (start + t.latency))
          units
          l
          s
      → Timed units io_unit_size t io_unit trailed size start units l s
  Timed-again l s h b c r = record {
    more = r.more + 1;
    covers = grind (arith, r.covers);
    needed = λ z. grind (arith, r.needed);
    completes =
        r.completes
        ∙ mod-add-mod (start + t.latency) (2 ^ 64) ((r.more + 1) * t.latency)
        ∙ ap (λ (x : ℕ). u64 x) (grind arith);
    same_length = r.same_length;
    last_unit =
        ap (get_elem? s) (sym (wrapped-mod units io_unit r.more h b)) ∙ r.last_unit ∙ ground arith;
  }

advance_units-Timed :
    (fuel units io_unit_size : ℕ) (t : UnitTimes) (stat : List ℕ) (io_unit trailed size start : ℕ)
    → 0 < io_unit_size
    → io_unit < units
    → units < 2 ^ 32
    → length stat ≡ units
    → size < fuel
    → Returns
        (λ (l, s). Timed units io_unit_size t io_unit trailed size start units l s)
        (advance_units fuel units io_unit_size t stat io_unit trailed size start)
unfolding advance_units
advance_units-Timed zero units io_unit_size t stat io_unit trailed size start p h b e f =
    absurd (omega arith)
advance_units-Timed (suc fuel) units io_unit_size t stat io_unit trailed size start p h b e f =
    Returns-entry stat io_unit (omega arith) λ a _.
      Ends-if (ltb 0 (size - min size io_unit_size))
        (λ more.
          Ends-map
            (advance_units-Timed fuel units io_unit_size t _ (wrapped units io_unit) (trailed - 1)
              (size - min size io_unit_size) (u64 (start + t.latency)) p
              (wrapped-lt units io_unit h b) b (length-set stat io_unit _ ∙ e) (ground arith))
            λ (l, s).
              Timed-again units io_unit_size t io_unit trailed size start l s h b (ground arith))
        λ done.
          normal
            (Timed-once units io_unit_size t io_unit trailed size start stat h e (ground arith))

-- The unit of a block, for a unit of `2 ^ io_unit_shift` bytes, and the number of units of some
-- bytes.
abbrev pub first_unit : UnitConfig → (lba : ℕ) → ℕ
first_unit c lba = lba / 2 ^ (c.io_unit_shift - 9) % c.nr_io_units

abbrev pub trailing_units : UnitConfig → (size : ℕ) → ℕ
trailing_units c size =
    min c.nr_io_units (u32 (size + 2 ^ c.io_unit_shift - 1) / 2 ^ c.io_unit_shift)

two_pow-pos : (n : ℕ) → 0 < 2 ^ n
two_pow-pos zero = omega arith
two_pow-pos (suc n) = omega (arith, two_pow-pos n)

-- A set-up that the module parameters can give: every unit has its time.
pub record IsReady (c : UnitConfig) (stat : List ℕ) : Type 0 where
  pub some_unit : 0 < c.nr_io_units
  pub units_word : c.nr_io_units < 2 ^ 32
  pub unit_lbas : 9 ≤ c.io_unit_shift
  pub unit_word : c.io_unit_shift < 32
  pub all_units : length stat ≡ c.nr_io_units

-- The times of a read or write: from when its first unit is not busy on, after the delay.
pub record Scheduled (c : UnitConfig) (stat : List ℕ) (opcode : SimpleOpcode) (lba size start : ℕ)
    (latest : ℕ) (stat' : List ℕ) : Type 0 where
  pub busy : ℕ
  pub first_busy : get_elem? stat (first_unit c lba) ≡ some busy
  pub timed :
      let t = unit_times c opcode in
      Timed c.nr_io_units
        (2 ^ c.io_unit_shift)
        t
        (first_unit c lba)
        (trailing_units c size)
        size
        (u64 (max start busy + t.delay))
        c.nr_io_units
        latest
        stat'

-- On a device whose units all have their times, __schedule_io_units returns. From the time at
-- which the first unit is free, or the start if that is later, and the delay on, it counts one
-- latency for each unit that the bytes take, at least one. It keeps the number of units, and
-- the last unit is busy until the end and, in the first rounds, the trailing time.
pub schedule_io_units-Scheduled :
    (c : UnitConfig) (stat : List ℕ) (opcode : SimpleOpcode) (lba size start : ℕ)
    → IsReady c stat
    → Returns
        (λ (l, s). Scheduled c stat opcode lba size start l s)
        (schedule_io_units c stat opcode lba size start)
unfolding schedule_io_units
schedule_io_units-Scheduled c stat opcode lba size start r =
    let in_units : first_unit c lba < c.nr_io_units = mod-lt _ r.some_unit in
    let shift : sub32 c.io_unit_shift 9 ≡ c.io_unit_shift - 9 =
      omega (arith, r.unit_word, r.unit_lbas) in
    let unit : u32 (first_unit c lba) ≡ first_unit c lba =
      mod-eq_of_lt (omega (arith, in_units, r.units_word)) in
    Ends-if (leb 32 c.io_unit_shift) (λ far. absurd (ground (arith, r.unit_word)))
      λ near. rw shift (
        Ends-if (leb 64 (c.io_unit_shift - 9)) (λ far. absurd (ground (arith, r.unit_word)))
          λ near_lba. Ends-divisor c.nr_io_units r.some_unit (
            rw unit (
              Returns-entry stat (first_unit c lba) (omega (arith, in_units, r.all_units)) λ busy e.
                Ends-map
                  (advance_units-Timed (size + 1) c.nr_io_units (2 ^ c.io_unit_shift)
                    (unit_times c opcode) stat (first_unit c lba) (trailing_units c size) size _
                    (two_pow-pos c.io_unit_shift) in_units r.units_word r.all_units (omega arith))
                  λ (l, s) timed. record { busy = busy; first_busy = e; timed = timed })))

latest_unit-le :
    (n i : ℕ) (stat : List ℕ) (latest : ℕ)
    → n + i ≤ length stat
    → Returns
        (λ t. latest ≤ t × ((j a : ℕ) → i ≤ j → j < n + i → get_elem? stat j ≡ some a → a ≤ t))
        (latest_unit n i stat latest)
unfolding latest_unit
latest_unit-le zero i stat latest h = normal (omega arith, λ j a x y e. absurd (omega arith))
latest_unit-le (suc n) i stat latest h = Returns-entry stat i (omega arith) λ busy e.
    Ends-map (latest_unit-le n (i + 1) stat (max latest busy) (omega arith)) λ t (m, all). (
      omega arith,
      λ j a x y g. elim (Bool-cases (i == j)) [
        | inl here ↦ let same : busy ≡ a = ground arith in omega arith
        | inr there ↦ all j a (ground arith) (omega arith) g
      ],
    )

-- After a read or write no unit but the last one is needed: it is busy until then, or longer.
Scheduled-last :
    (c : UnitConfig) (stat : List ℕ) (opcode : SimpleOpcode) (lba size start l : ℕ) (s : List ℕ)
    → IsReady c stat
    → Scheduled c stat opcode lba size start l s
    → l + (unit_times c opcode).trailing < 2 ^ 64
    → (u a : ℕ) × u < c.nr_io_units × get_elem? s u ≡ some a × l ≤ a
Scheduled-last c stat opcode lba size start l s r d b =
    (_, _, mod-lt _ r.some_unit, d.timed.last_unit, ground arith)

-- The reply of the read or write.
record IsTimed (c : UnitConfig) (stat : List ℕ) (opcode : SimpleOpcode) (lba size start : ℕ)
    (reply : SimpleReply) : Type 0 where
  scheduled : Scheduled c stat opcode lba size start reply.nsecs_target reply.stat

by_opcode-IsTimed :
    (c : UnitConfig) (stat : List ℕ) (opcode : SimpleOpcode) (lba length clock target : ℕ)
    → IsReady c stat
    → (opcode ≡ SimpleOpcode.write) ⊎ (opcode ≡ SimpleOpcode.read)
    → Returns
        (IsTimed c stat opcode lba (u32 (cmd_io_size length)) clock)
        (by_opcode c stat opcode lba length clock target)
unfolding by_opcode
by_opcode-IsTimed c stat SimpleOpcode.write lba size clock target r o =
    Ends-bind (schedule_io_units-Scheduled c stat SimpleOpcode.write lba _ clock r)
      λ (l, s) d. normal (record { scheduled = d })
by_opcode-IsTimed c stat SimpleOpcode.read lba size clock target r o =
    Ends-bind (schedule_io_units-Scheduled c stat SimpleOpcode.read lba _ clock r)
      λ (l, s) d. normal (record { scheduled = d })
by_opcode-IsTimed c stat SimpleOpcode.flush lba size clock target r o = absurd (ground arith)
by_opcode-IsTimed c stat SimpleOpcode.unimplemented lba size clock target r o =
    absurd (ground arith)

-- In a namespace of this FTL the handler is its switch.
proc-by_opcode :
    (c : UnitConfig) (ns : SimpleNamespace) (stat : List ℕ) (opcode : SimpleOpcode)
    (slba size clock target : ℕ)
    → ns.csi ≡ csi_nvm
    → simple_proc_nvme_io_cmd true c ns stat opcode slba size clock target
      ≡ by_opcode c stat opcode slba size clock target
unfolding simple_proc_nvme_io_cmd
proc-by_opcode c ns stat opcode slba size clock target n = rw n refl

-- In a namespace of the simple FTL, on a device whose units all have their times, a flush that
-- follows a read or write returns, changes no time, and completes no earlier than the read or
-- write, if the time of that with its trailing time is below 2 ^ 64.
pub flush-covers_io :
    (c : UnitConfig) (ns : SimpleNamespace) (stat : List ℕ) (opcode : SimpleOpcode)
    (slba length clock target slba' length' clock' target' : ℕ) (reply : SimpleReply)
    → ns.csi ≡ csi_nvm
    → IsReady c stat
    → (opcode ≡ SimpleOpcode.write) ⊎ (opcode ≡ SimpleOpcode.read)
    → simple_proc_nvme_io_cmd true c ns stat opcode slba length clock target ≡ ok reply
    → reply.nsecs_target + (unit_times c opcode).trailing < 2 ^ 64
    → Returns
        (λ f. reply.nsecs_target ≤ f.nsecs_target × f.stat ≡ reply.stat)
        (simple_proc_nvme_io_cmd true c ns reply.stat SimpleOpcode.flush slba' length' clock'
          target')
unfolding by_opcode schedule_flush
flush-covers_io c ns stat opcode slba len clock target slba' len' clock' target' reply n r o e b =
    let d =
      Ends-value (by_opcode-IsTimed c stat opcode slba len clock target r o)
        (sym (proc-by_opcode c ns stat opcode slba len clock target n) ∙ e) in
    let (u, a, in_units, at_u, late) =
      Scheduled-last c stat opcode slba _ clock reply.nsecs_target reply.stat r d.scheduled b in
    rw (proc-by_opcode c ns reply.stat SimpleOpcode.flush slba' len' clock' target' n) (
      Ends-bind
        (latest_unit-le c.nr_io_units 0 reply.stat 0 (omega (arith, d.scheduled.timed.same_length)))
        λ t (_, all).
          normal (omega (arith, late, all u a (omega arith) (omega (arith, in_units)) at_u), refl))
