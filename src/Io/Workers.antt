-- ===== src/Io/Workers.antt =====
-- The calls of io.c around the work queues: internal operations, the return of finished entries, the
-- choice of a worker, and the start of a worker.
use nvmevirt_pim.Base.{
  ℕ, zero, suc, ◌+◌, ◌-◌, ◌%◌, Bool, true, false, leb, ◌&&◌, ◌==◌, List, [], ◌∷◌, get_elem?, set,
  length, Option, some, none, if◌then◌else◌, Run, ok, fault, out_of_fuel, ◌>>=◌, ◌>>◌, entry,
  divisor, u32, sub32,
}
use nvmevirt_pim.Zns.State.{BufferRef, Result}
use nvmevirt_pim.Io.Queue.{
  IoWork, IoWorker, nil, nr_max_parallel_io, work, put, set_next, set_prev, insert_req_sorted,
  allocate_work_queue_entry, enqueue_at,
}

-- The part of schedule_internal_operation for the entry that was found.
unfoldable pub internal_at :
    Option ℕ × IoWorker
    → (sqid nsecs_target : ℕ) → (write_buffer : BufferRef) → (buffs_to_release local_clock : ℕ)
    → Run IoWorker
internal_at (none, k) sqid nsecs_target write_buffer buffs_to_release local_clock = ok k
internal_at (some entry, k) sqid nsecs_target write_buffer buffs_to_release local_clock = do
  w ← work k entry
  insert_req_sorted entry
      (put k entry (record w {
        sqid = sqid;
        nsecs_start = local_clock;
        nsecs_enqueue = local_clock;
        nsecs_target = nsecs_target;
        is_completed = false;
        is_copied = true;
        prev = nil;
        next = nil;
        is_internal = true;
        write_buffer = some write_buffer;
        buffs_to_release = buffs_to_release;
      }))
      nsecs_target

-- An entry that __reclaim_completed_reqs takes back.
unfoldable pub is_over : IoWorker → IoWork → Bool
is_over k w = w.is_completed && w.is_copied && leb w.nsecs_target k.latest_nsecs

-- Its inner loop: the last of the entries from `curr` on that are over, or `last`.
unfoldable pub last_over : (fuel : ℕ) → IoWorker → (last curr : ℕ) → Run ℕ
unfolding is_over
last_over zero k last curr = fault out_of_fuel
last_over (suc fuel) k last curr =
    let looked = do
      w ← work k curr
      let rest = last_over fuel k curr w.next
      if is_over k w then rest else ok last
    in if curr == nil then ok last else looked

-- The entries from the first to `last` go behind the free ones.
unfoldable pub give_back : IoWorker → (first last : ℕ) → Run IoWorker
give_back k first last = do
  w ← work k last
  let k1 = record k { io_seq = w.next }
  k2 ← if w.next == nil then ok k1 else set_prev k1 w.next nil
  k3 ← set_next k2 last nil
  k4 ← set_prev k3 first k3.free_seq_end
  k5 ← set_next k4 k4.free_seq_end first
  ok (record k5 { free_seq_end = last })

-- __reclaim_completed_reqs for one worker, and its loop over the workers.
unfoldable pub reclaim : IoWorker → Run IoWorker
unfolding last_over give_back
reclaim k = do
  last ← last_over (nr_max_parallel_io + 1) k nil k.io_seq
  if last == nil then ok k else give_back k k.io_seq last

unfoldable pub reclaim_completed_reqs : List IoWorker → Run (List IoWorker)
unfolding reclaim
reclaim_completed_reqs [] = ok []
reclaim_completed_reqs (k ∷ ks) = do k' ← reclaim k; ks' ← reclaim_completed_reqs ks; ok (k' ∷ ks')

-- The workers of the device and the turn among them. `by_sq` is CONFIG_NVMEV_IO_WORKER_BY_SQ.
pub record IoWorkers : Type 0 where
  pub by_sq : Bool
  pub workers : List IoWorker
  pub io_worker_turn : ℕ

unfoldable pub get_io_worker : IoWorkers → (sqid : ℕ) → Run ℕ
get_io_worker ws sqid =
    let own = do divisor (length ws.workers); ok (sub32 sqid 1 % length ws.workers)
    in if ws.by_sq then own else ok ws.io_worker_turn

unfoldable pub next_turn : IoWorkers → (turn : ℕ) → ℕ
next_turn ws turn = if u32 (turn + 1) == length ws.workers then 0 else u32 (turn + 1)

-- The turn goes on only where an entry was found: the code returns before otherwise.
unfoldable pub after_allocation : IoWorkers → (turn : ℕ) → Option ℕ → IoWorker → IoWorkers
unfolding next_turn
after_allocation ws turn none k = record ws { workers = set ws.workers turn k }
after_allocation ws turn (some entry) k = record ws {
  workers = set ws.workers turn k;
  io_worker_turn = next_turn ws turn;
}

-- __enqueue_io_req and schedule_internal_operation on the workers of the device.
unfoldable pub enqueue_request :
    IoWorkers → (sqid cqid sq_entry command_id nsecs_start local_clock : ℕ) → Result → Run IoWorkers
unfolding get_io_worker after_allocation
enqueue_request ws sqid cqid sq_entry command_id nsecs_start local_clock ret = do
  turn ← get_io_worker ws sqid
  k ← entry (get_elem? ws.workers turn)
  (e, k1) ← allocate_work_queue_entry k
  k2 ← enqueue_at (e, k1) sqid cqid sq_entry command_id nsecs_start local_clock ret
  ok (after_allocation ws turn e k2)

unfoldable pub enqueue_internal :
    IoWorkers
    → (sqid nsecs_target : ℕ) → (write_buffer : BufferRef) → (buffs_to_release local_clock : ℕ)
    → Run IoWorkers
unfolding get_io_worker after_allocation internal_at
enqueue_internal ws sqid nsecs_target write_buffer buffs_to_release local_clock = do
  turn ← get_io_worker ws sqid
  k ← entry (get_elem? ws.workers turn)
  (e, k1) ← allocate_work_queue_entry k
  k2 ← internal_at (e, k1) sqid nsecs_target write_buffer buffs_to_release local_clock
  ok (after_allocation ws turn e k2)

-- An entry that kzalloc cleared, with its links to its neighbours.
unfoldable pub free_entry : ℕ → IoWork
free_entry i = record {
  sqid = 0;
  cqid = 0;
  sq_entry = 0;
  command_id = 0;
  nsecs_start = 0;
  nsecs_target = 0;
  nsecs_enqueue = 0;
  is_copied = false;
  is_completed = false;
  status = 0;
  result0 = 0;
  result1 = 0;
  is_internal = false;
  write_buffer = none;
  buffs_to_release = 0;
  next = if i == (nr_max_parallel_io - 1) then nil else i + 1;
  prev = sub32 i 1;
}

-- NVMEV_IO_WORKER_INIT, for one worker.
unfoldable pub init_worker : (worker_id : ℕ) → IoWorker
unfolding free_entry
init_worker worker_id = record {
  work_queue = free_entry;
  free_seq = 0;
  free_seq_end = nr_max_parallel_io - 1;
  io_seq = nil;
  io_seq_end = nil;
  latest_nsecs = 0;
  id = worker_id;
}
