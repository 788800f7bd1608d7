-- ===== src/Scenarios/Devices.antt =====
-- A device of two I/O units of 4096 bytes and a small work queue, and the theorems applied to them.
use nvmevirt_pim.Base.{
  ℕ, zero, suc, ◌≡◌, ◌≤◌, refl, inl, some, none, [], ◌∷◌, true, false, ok, Returns, arith,
}
use nvmevirt_pim.Io.Queue.{IoWork, IoWorker, nil, insert_req_sorted, enqueue_at, stays_before}
use nvmevirt_pim.Io.Queue.Chain.{Chained, Distinct, Fresh, inserted}
use nvmevirt_pim.Io.Queue.Links.{IsQueue}
use nvmevirt_pim.Zns.State.{Result}
use nvmevirt_pim.Io.Queue.Enqueue.{Enqueued, enqueue_at-Enqueued}
use nvmevirt_pim.Io.Queue.Order.{Ordered, Below, Inserted, insert_req_sorted-Inserted}
use nvmevirt_pim.Devices.Simple.{
  UnitConfig, SimpleNamespace, SimpleOpcode, SimpleReply, simple_init_namespace, unit_times,
  schedule_io_units, simple_proc_nvme_io_cmd,
}
use nvmevirt_pim.Devices.Simple.Laws.{
  IsReady, Scheduled, schedule_io_units-Scheduled, flush-covers_io,
}

abbrev units : UnitConfig
units = record {
  nr_io_units = 2;
  io_unit_shift = 12;
  read_delay = 1;
  read_time = 2;
  read_trailing = 3;
  write_delay = 10;
  write_time = 20;
  write_trailing = 30;
}

units-IsReady : IsReady units (100 ∷ 0 ∷ [])
units-IsReady = record {
  some_unit = omega arith;
  units_word = omega arith;
  unit_lbas = omega arith;
  unit_word = omega arith;
  all_units = refl;
}

schedule_io_units-Scheduled_example :
    Returns
      (λ (l, s). Scheduled units (100 ∷ 0 ∷ []) SimpleOpcode.write 0 12288 7 l s)
      (schedule_io_units units (100 ∷ 0 ∷ []) SimpleOpcode.write 0 12288 7)
schedule_io_units-Scheduled_example =
    schedule_io_units-Scheduled units (100 ∷ 0 ∷ []) SimpleOpcode.write 0 12288 7 units-IsReady

abbrev namespace_0 : SimpleNamespace
unfolding simple_init_namespace
namespace_0 = simple_init_namespace 0 1048576 0

-- A write of 24 blocks: three rounds, of which the first two leave their unit busy for longer.
abbrev written : SimpleReply
written = record { nsecs_target = 170; stat = 170 ∷ 180 ∷ [] }

writes :
    simple_proc_nvme_io_cmd true units namespace_0 (100 ∷ 0 ∷ []) SimpleOpcode.write 0 23 7 0
    ≡ ok written
unfolding simple_proc_nvme_io_cmd namespace_0 unit_times
writes = refl

flush-covers_io_example :
    Returns
      (λ f. 170 ≤ f.nsecs_target × f.stat ≡ 170 ∷ 180 ∷ [])
      (simple_proc_nvme_io_cmd true units namespace_0 (170 ∷ 180 ∷ []) SimpleOpcode.flush 0 0 9 0)
unfolding namespace_0 unit_times
flush-covers_io_example =
    flush-covers_io units namespace_0 (100 ∷ 0 ∷ []) SimpleOpcode.write 0 23 7 0 0 0 9 0 written
      refl units-IsReady (inl refl) writes (omega arith)

-- A short write that runs on into a busy unit makes that unit free earlier: a flush then ends
-- before the commands of that unit.
busy_unit-freed :
    simple_proc_nvme_io_cmd true units namespace_0 (0 ∷ 1000 ∷ []) SimpleOpcode.write 0 15 7 0
    ≡ ok (record { nsecs_target = 57; stat = 67 ∷ 87 ∷ [] })
unfolding simple_proc_nvme_io_cmd namespace_0 unit_times
busy_unit-freed = refl

-- A work queue of the entries 0 and 1, for the times 10 and 30, and the entry 2 for the time 20.
abbrev idle : (nsecs_target next prev : ℕ) → IoWork
idle nsecs_target next prev = record {
  sqid = 1;
  cqid = 1;
  sq_entry = 0;
  command_id = 0;
  nsecs_start = 0;
  nsecs_target = nsecs_target;
  nsecs_enqueue = 0;
  is_copied = false;
  is_completed = false;
  status = 0;
  result0 = 0;
  result1 = 0;
  is_internal = false;
  write_buffer = none;
  buffs_to_release = 0;
  next = next;
  prev = prev;
}

abbrev entries : ℕ → IoWork
entries zero = idle 10 1 nil
entries (suc zero) = idle 30 nil 0
entries (suc (suc i)) = idle 20 nil nil

abbrev worker : IoWorker
worker = record {
  work_queue = entries;
  free_seq = 3;
  free_seq_end = 16383;
  io_seq = 0;
  io_seq_end = 1;
  latest_nsecs = 5;
  id = 0;
}

worker-IsQueue : IsQueue worker (1 ∷ 0 ∷ [])
unfolding Chained Distinct Fresh
worker-IsQueue = record {
  chained = (refl, refl, (refl, refl, tt));
  distinct = (omega arith, (λ e. absurd (omega arith), tt), (omega arith, tt, tt));
  seq = refl;
  seq_end = λ z. refl;
}

insert_req_sorted-Inserted_example :
    Returns (λ k'. Inserted worker k' (1 ∷ 2 ∷ 0 ∷ [])) (insert_req_sorted 2 worker 20)
unfolding Ordered Below Fresh inserted stays_before
insert_req_sorted-Inserted_example =
    insert_req_sorted-Inserted 2 worker 20 (1 ∷ 0 ∷ []) worker-IsQueue (omega arith, (tt, tt))
      (omega arith) (omega arith) (λ e. absurd (omega arith), (λ e. absurd (omega arith), tt)) refl
      refl refl

abbrev answer : Result
answer = record { status = 0; nsecs_target = 20; result = 7 }

enqueue_at-Enqueued_example :
    Returns
      (λ k'. Enqueued worker k' (1 ∷ 0 ∷ []) 2 20)
      (enqueue_at (some 2, worker) 1 1 5 9 3 4 answer)
unfolding Ordered Below Fresh
enqueue_at-Enqueued_example =
    enqueue_at-Enqueued worker (1 ∷ 0 ∷ []) 2 1 1 5 9 3 4 answer worker-IsQueue
      (omega arith, (tt, tt)) (omega arith) (omega arith)
      (λ e. absurd (omega arith), (λ e. absurd (omega arith), tt))
