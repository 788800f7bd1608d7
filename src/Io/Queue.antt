-- ===== src/Io/Queue.antt =====
-- The work queue of an I/O worker of io.c: entries of one array, chained by their indices in the
-- order of their target times. A call of the dispatcher is one step: what the worker's thread writes
-- meanwhile comes between the calls.
pub mod Chain
pub mod Links
pub mod Order
pub mod Enqueue
use nvmevirt_pim.Base.{
  ℕ, zero, suc, ◌+◌, ◌-◌, ◌/◌, ◌%◌, ◌^◌, Bool, true, false, leb, not, ◌&&◌, ◌||◌, ◌==◌, Option,
  some, none, if◌then◌else◌, Run, ok, fault, out_of_fuel, ◌>>=◌, ◌>>◌, assert, u32,
}
use nvmevirt_pim.Zns.State.{BufferRef, Result}
use nvmevirt_pim.Conv.State.{update}
use nvmevirt_pim.Conv.Map.{at}

-- NR_MAX_PARALLEL_IO, and -1 in a variable of type `unsigned int`.
abbrev pub nr_max_parallel_io : ℕ
nr_max_parallel_io = 16384

abbrev pub nil : ℕ
nil = 4294967295

-- struct nvmev_io_work, but for the times that only statistics read. A pointer that is NULL is `none`.
pub record IoWork : Type 0 where
  pub sqid : ℕ
  pub cqid : ℕ
  pub sq_entry : ℕ
  pub command_id : ℕ
  pub nsecs_start : ℕ
  pub nsecs_target : ℕ
  pub nsecs_enqueue : ℕ
  pub is_copied : Bool
  pub is_completed : Bool
  pub status : ℕ
  pub result0 : ℕ
  pub result1 : ℕ
  pub is_internal : Bool
  pub write_buffer : Option BufferRef
  pub buffs_to_release : ℕ
  pub next : ℕ
  pub prev : ℕ

-- struct nvmev_io_worker, but for its thread.
pub record IoWorker : Type 0 where
  pub work_queue : ℕ → IoWork
  pub free_seq : ℕ
  pub free_seq_end : ℕ
  pub io_seq : ℕ
  pub io_seq_end : ℕ
  pub latest_nsecs : ℕ
  pub id : ℕ

-- work_queue[i], and writes to its links.
unfoldable pub work : IoWorker → ℕ → Run IoWork
work k i = at k.work_queue nr_max_parallel_io i

unfoldable pub put : IoWorker → ℕ → IoWork → IoWorker
unfolding update
put k i w = record k { work_queue = update k.work_queue i w }

unfoldable pub set_next : IoWorker → (i v : ℕ) → Run IoWorker
unfolding work put
set_next k i v = do w ← work k i; ok (put k i (record w { next = v }))

unfoldable pub set_prev : IoWorker → (i v : ℕ) → Run IoWorker
unfolding work put
set_prev k i v = do w ← work k i; ok (put k i (record w { prev = v }))

-- An entry behind which a new one goes: it is due already, or not after the new one.
unfoldable pub stays_before : IoWorker → (nsecs_target : ℕ) → IoWork → Bool
stays_before k nsecs_target w = leb w.nsecs_target k.latest_nsecs || leb w.nsecs_target nsecs_target

-- The loop of __insert_req_sorted.
unfoldable pub find_place : (fuel : ℕ) → IoWorker → (nsecs_target curr : ℕ) → Run ℕ
find_place zero k nsecs_target curr = fault out_of_fuel
find_place (suc fuel) k nsecs_target curr =
    let walked = do
      w ← work k curr
      let rest = find_place fuel k nsecs_target w.prev
      if stays_before k nsecs_target w then ok curr else rest
    in if curr == nil then ok curr else walked

-- The three ways to link the entry in.
unfoldable pub insert_head : (entry : ℕ) → IoWorker → Run IoWorker
unfolding set_next set_prev
insert_head entry k = do
  k1 ← set_prev k k.io_seq entry
  k2 ← set_next k1 entry k1.io_seq
  ok (record k2 { io_seq = entry })

unfoldable pub insert_tail : (entry curr : ℕ) → IoWorker → Run IoWorker
unfolding set_next set_prev
insert_tail entry curr k = do
  k1 ← set_prev k entry curr
  set_next (record k1 { io_seq_end = entry }) curr entry

unfoldable pub insert_between : (entry curr : ℕ) → IoWorker → Run IoWorker
unfolding set_next set_prev
insert_between entry curr k = do
  k1 ← set_prev k entry curr
  c ← work k1 curr
  k2 ← set_next k1 entry c.next
  e ← work k2 entry
  k3 ← set_prev k2 e.next entry
  set_next k3 curr entry

unfoldable pub link_entry : (entry curr : ℕ) → IoWorker → Run IoWorker
link_entry entry curr k =
    let inside = do
      w ← work k curr
      if w.next == nil then insert_tail entry curr k else insert_between entry curr k
    in if curr == nil then insert_head entry k else inside

unfoldable pub insert_req_sorted : (entry : ℕ) → IoWorker → (nsecs_target : ℕ) → Run IoWorker
unfolding find_place link_entry
insert_req_sorted entry k nsecs_target =
    let placed = do
      curr ← find_place (nr_max_parallel_io + 1) k nsecs_target k.io_seq_end
      link_entry entry curr k
    in if k.io_seq == nil then ok (record k { io_seq = entry; io_seq_end = entry }) else placed

-- __allocate_work_queue_entry for its worker: the entry, if there is one. The round of
-- io_worker_turn is left to the caller.
unfoldable pub allocate_work_queue_entry : IoWorker → Run (Option ℕ × IoWorker)
allocate_work_queue_entry k = do
  w ← work k k.free_seq
  let taken = do
    assert (not (leb nr_max_parallel_io w.next))
    ok (some k.free_seq, record k { free_seq = w.next })
  if leb nr_max_parallel_io w.next then ok (none, k) else taken

-- The part of __enqueue_io_req for the entry that was found.
unfoldable pub enqueue_at :
    Option ℕ × IoWorker
    → (sqid cqid sq_entry command_id nsecs_start local_clock : ℕ) → Result
    → Run IoWorker
enqueue_at (none, k) sqid cqid sq_entry command_id nsecs_start local_clock ret = ok k
enqueue_at (some entry, k) sqid cqid sq_entry command_id nsecs_start local_clock ret = do
  w ← work k entry
  insert_req_sorted entry
      (put k entry (record w {
        sqid = sqid;
        cqid = cqid;
        sq_entry = sq_entry;
        command_id = command_id;
        nsecs_start = nsecs_start;
        nsecs_enqueue = local_clock;
        nsecs_target = ret.nsecs_target;
        status = ret.status;
        result0 = u32 ret.result;
        result1 = u32 (ret.result / 2 ^ 32);
        is_completed = false;
        is_copied = false;
        prev = nil;
        next = nil;
        is_internal = false;
      }))
      ret.nsecs_target
