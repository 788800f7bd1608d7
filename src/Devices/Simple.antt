-- ===== src/Devices/Simple.antt =====
-- simple_ftl.c: a device of several I/O units, each with the time until which it is busy.
pub mod Laws
use nvmevirt_pim.Base.{
  ℕ, zero, suc, ◌+◌, ◌-◌, ◌*◌, ◌/◌, ◌%◌, ◌^◌, min, max, Bool, ltb, leb, ◌==◌, List, get_elem?, set,
  if◌then◌else◌, Run, ok, fault, undefined, out_of_fuel, ◌>>=◌, ◌>>◌, assert, entry, divisor, u32,
  u64, sub32,
}
use nvmevirt_pim.Conv.Namespace.{csi_nvm}

-- The fields of struct nvmev_config that this FTL reads.
pub record UnitConfig : Type 0 where
  pub nr_io_units : ℕ
  pub io_unit_shift : ℕ
  pub read_delay : ℕ
  pub read_time : ℕ
  pub read_trailing : ℕ
  pub write_delay : ℕ
  pub write_time : ℕ
  pub write_trailing : ℕ

-- The opcodes that the switch knows.
pub data SimpleOpcode : Type 0 where
  write read flush unimplemented : SimpleOpcode

-- The fields of struct nvmev_ns that simple_init_namespace sets, but for the handler.
pub record SimpleNamespace : Type 0 where
  pub id : ℕ
  pub csi : ℕ
  pub size : ℕ
  pub mapped : ℕ

unfoldable pub simple_init_namespace : (id size mapped_addr : ℕ) → SimpleNamespace
simple_init_namespace id size mapped_addr = record {
  id = id;
  csi = csi_nvm;
  size = size;
  mapped = mapped_addr;
}

unfoldable pub cmd_io_size : (length : ℕ) → ℕ
cmd_io_size length = (length + 1) * 2 ^ 9

-- The times of an operation: `delay`, `latency` and `trailing`.
pub record UnitTimes : Type 0 where
  pub delay : ℕ
  pub latency : ℕ
  pub trailing : ℕ

unfoldable pub unit_times : UnitConfig → SimpleOpcode → UnitTimes
unit_times c SimpleOpcode.write = record {
  delay = c.write_delay;
  latency = c.write_time;
  trailing = c.write_trailing;
}
unit_times c SimpleOpcode.read = record {
  delay = c.read_delay;
  latency = c.read_time;
  trailing = c.read_trailing;
}
unit_times c SimpleOpcode.flush = record { delay = 0; latency = 0; trailing = 0 }
unit_times c SimpleOpcode.unimplemented = record { delay = 0; latency = 0; trailing = 0 }

-- The loop of __schedule_io_units: `trailed` is the variable nr_io_units, of which the code asks
-- only whether it is above 0.
unfoldable pub advance_units :
    (fuel : ℕ)
    → (units io_unit_size : ℕ) → UnitTimes
    → List ℕ
    → (io_unit trailed length latest : ℕ) → Run (ℕ × List ℕ)
advance_units zero units io_unit_size t stat io_unit trailed length latest = fault out_of_fuel
advance_units (suc fuel) units io_unit_size t stat io_unit trailed length latest =
    let busy = u64 (latest + t.latency) in
    let until = if ltb 0 trailed then u64 (busy + t.trailing) else busy in
    let left = length - min length io_unit_size in
    let next_unit = if leb units (u32 (io_unit + 1)) then 0 else u32 (io_unit + 1) in
    let rest =
      advance_units fuel units io_unit_size t (set stat io_unit until) next_unit (trailed - 1) left
        busy in
    do
      _ ← entry (get_elem? stat io_unit)
      if ltb 0 left then rest else ok (busy, set stat io_unit until)

-- A shift of an `int` by more than its bits, or of the LBA by 64 and more, is undefined.
unfoldable pub schedule_io_units :
    UnitConfig → List ℕ → SimpleOpcode → (lba length nsecs_start : ℕ) → Run (ℕ × List ℕ)
unfolding advance_units
schedule_io_units c stat opcode lba length nsecs_start =
    let io_unit_size = 2 ^ c.io_unit_shift in
    let lba_shift = sub32 c.io_unit_shift 9 in
    let io_unit = u32 (lba / 2 ^ lba_shift % c.nr_io_units) in
    let trailed = min c.nr_io_units (u32 (length + io_unit_size - 1) / io_unit_size) in
    let t = unit_times c opcode in
    let scheduled = do
      divisor c.nr_io_units
      busy ← entry (get_elem? stat io_unit)
      advance_units (length + 1) c.nr_io_units io_unit_size t stat io_unit trailed length
          (u64 (max nsecs_start busy + t.delay))
    in if leb 32 c.io_unit_shift
      then fault undefined
      else if leb 64 lba_shift
      then fault undefined
      else scheduled

-- The loop of __schedule_flush from unit `i`, over `n` of them.
unfoldable pub latest_unit : (n i : ℕ) → List ℕ → (latest : ℕ) → Run ℕ
latest_unit zero i stat latest = ok latest
latest_unit (suc n) i stat latest = do
  busy ← entry (get_elem? stat i)
  latest_unit n (i + 1) stat (max latest busy)

unfoldable pub schedule_flush : UnitConfig → List ℕ → Run ℕ
unfolding latest_unit
schedule_flush c stat = latest_unit c.nr_io_units 0 stat 0

-- What the handler leaves: nsecs_target of the result, and io_unit_stat. It returns true.
pub record SimpleReply : Type 0 where
  pub nsecs_target : ℕ
  pub stat : List ℕ

-- The switch of the handler. `wallclock` is what __get_wallclock reads, `target` is nsecs_target
-- before the call.
unfoldable pub by_opcode :
    UnitConfig → List ℕ → SimpleOpcode → (slba length wallclock target : ℕ) → Run SimpleReply
unfolding schedule_io_units schedule_flush cmd_io_size
by_opcode c stat SimpleOpcode.flush slba length wallclock target = do
  t ← schedule_flush c stat
  ok (record { nsecs_target = t; stat = stat })
by_opcode c stat SimpleOpcode.unimplemented slba length wallclock target =
    ok (record { nsecs_target = target; stat = stat })
by_opcode c stat SimpleOpcode.write slba length wallclock target = do
  (t, stat') ← schedule_io_units c stat SimpleOpcode.write slba (u32 (cmd_io_size length)) wallclock
  ok (record { nsecs_target = t; stat = stat' })
by_opcode c stat SimpleOpcode.read slba length wallclock target = do
  (t, stat') ← schedule_io_units c stat SimpleOpcode.read slba (u32 (cmd_io_size length)) wallclock
  ok (record { nsecs_target = t; stat = stat' })

-- The code is for a build in which BASE_SSD is INTEL_OPTANE: `is_optane`.
unfoldable pub simple_proc_nvme_io_cmd :
    (is_optane : Bool)
    → UnitConfig
    → SimpleNamespace
    → List ℕ
    → SimpleOpcode
    → (slba length wallclock target : ℕ) → Run SimpleReply
unfolding by_opcode
simple_proc_nvme_io_cmd is_optane c ns stat opcode slba length wallclock target = do
  assert (ns.csi == csi_nvm)
  assert is_optane
  by_opcode c stat opcode slba length wallclock target
