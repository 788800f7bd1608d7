-- ===== src/Io/Queue/Enqueue.antt =====
-- About the part of __enqueue_io_req of io.c for the entry that it got.
use nvmevirt_pim.Base.{
  ℕ, ◌≡◌, ◌≢◌, ◌<◌, ◌≤◌, refl, sym, ◌∙◌, ap, List, [], ◌∷◌, length, some, Returns, Ends-map,
  Ends-bind, normal, arith, subst,
}
use nvmevirt_pim.Zns.State.{Result}
use nvmevirt_pim.Io.Queue.{
  IoWork, IoWorker, nil, nr_max_parallel_io, work, put, stays_before, insert_req_sorted, enqueue_at,
}
use nvmevirt_pim.Io.Queue.Chain.{Chained, Fresh, inserted}
use nvmevirt_pim.Io.Queue.Links.{IsQueue, stays, work-ok}
use nvmevirt_pim.Io.Queue.Order.{Below, Ordered, insert_req_sorted-Inserted}

module _ (k : IoWorker) (entry : ℕ) (v : IoWork) where
  -- A write to an entry outside the queue leaves the entries of the queue.
  put-other : (x : ℕ) → entry ≢ x → (put k entry v).work_queue x ≡ k.work_queue x
  unfolding put
  put-other x e = ground arith

  put-own : (put k entry v).work_queue entry ≡ v
  unfolding put
  put-own = ground arith

  put-latest : (put k entry v).latest_nsecs ≡ k.latest_nsecs
  unfolding put
  put-latest = refl

  Chained-put :
      (a : ℕ) (xs : List ℕ)
      → Fresh entry xs
      → Chained k.work_queue a xs
      → Chained (put k entry v).work_queue a xs
  unfolding Chained Fresh
  Chained-put a [] f h = tt
  Chained-put a (x ∷ xs) (e, f) (hn, hp, h) = (
    ap (λ (w : IoWork). w.next) (put-other x e) ∙ hn,
    ap (λ (w : IoWork). w.prev) (put-other x e) ∙ hp,
    Chained-put x xs f h,
  )

  Ordered-put : (xs : List ℕ) → Fresh entry xs → Ordered k xs → Ordered (put k entry v) xs
  unfolding Ordered Below Fresh
  Ordered-put [] f o = tt
  Ordered-put (x ∷ []) f (b, o) = (tt, tt)
  Ordered-put (x ∷ y ∷ ys) (ex, (ey, f)) (b, o) =
      let sx = ap (λ (w : IoWork). w.nsecs_target) (put-other x ex) in
      let sy = ap (λ (w : IoWork). w.nsecs_target) (put-other y ey) in
      (omega (arith, b, sx, sy, put-latest), Ordered-put (y ∷ ys) (ey, f) o)

  IsQueue-put : (xs : List ℕ) → Fresh entry xs → IsQueue k xs → IsQueue (put k entry v) xs
  unfolding put
  IsQueue-put xs f q = record {
    chained = Chained-put nil xs f q.chained;
    distinct = q.distinct;
    seq = q.seq;
    seq_end = q.seq_end;
  }

  inserted-put :
      (t : ℕ) (xs : List ℕ)
      → Fresh entry xs
      → inserted (stays (put k entry v) t) entry xs ≡ inserted (stays k t) entry xs
  unfolding inserted Fresh put stays_before
  inserted-put t [] f = refl
  inserted-put t (x ∷ xs) (e, f) =
      let same : stays (put k entry v) t x ≡ stays k t x =
        ap (λ (w : IoWork). stays_before k t w) (put-other x e) in
      rw (same, inserted-put t xs f) refl

-- The queue with a request: its entries in order, the request among them with its own time.
pub record Enqueued (k k' : IoWorker) (xs : List ℕ) (entry t : ℕ) : Type 0 where
  pub queue : IsQueue k' (inserted (stays k t) entry xs)
  pub ordered : Ordered k' (inserted (stays k t) entry xs)
  pub own_target : (k'.work_queue entry).nsecs_target ≡ t

put_new-Enqueued :
    (k : IoWorker) (xs : List ℕ) (entry : ℕ) (v : IoWork)
    → IsQueue k xs
    → Ordered k xs
    → length xs ≤ nr_max_parallel_io
    → entry < nr_max_parallel_io
    → Fresh entry xs
    → v.next ≡ nil
    → v.prev ≡ nil
    → Returns
        (λ k'. Enqueued k k' xs entry v.nsecs_target)
        (insert_req_sorted entry (put k entry v) v.nsecs_target)
put_new-Enqueued k xs entry v q o len b f n p =
    let own = put-own k entry v in
    let target : ((put k entry v).work_queue entry).nsecs_target ≡ v.nsecs_target =
      ap (λ (w : IoWork). w.nsecs_target) own in
    Ends-map
      (insert_req_sorted-Inserted entry (put k entry v) v.nsecs_target xs
        (IsQueue-put k entry v xs f q) (Ordered-put k entry v xs f o) len b f
        (ap (λ (w : IoWork). w.next) own ∙ n) (ap (λ (w : IoWork). w.prev) own ∙ p) target)
      λ k' i. record {
        queue = subst (IsQueue k') (inserted-put k entry v v.nsecs_target xs f) i.queue;
        ordered = subst (Ordered k') (inserted-put k entry v v.nsecs_target xs f) i.ordered;
        own_target = i.same_target entry ∙ target;
      }

work-Returns : (k : IoWorker) (i : ℕ) → i < nr_max_parallel_io → Returns (λ w. Unit {0}) (work k i)
work-Returns k i h = subst (Returns (λ w. Unit {0})) (sym (work-ok k i h)) (normal tt)

-- For an entry outside of a work queue whose chain stands for a list of distinct entries,
-- ordered by their times as far as these are not over, of no more entries than the array has,
-- the part of __enqueue_io_req after the allocation returns. The queue then stands for the
-- list with this entry behind the last one that is due or not later than the request, the list
-- is ordered, and the time of the entry is the one of the result.
pub enqueue_at-Enqueued :
    (k : IoWorker) (xs : List ℕ) (entry sqid cqid sq_entry command_id nsecs_start local_clock : ℕ)
    (ret : Result)
    → IsQueue k xs
    → Ordered k xs
    → length xs ≤ nr_max_parallel_io
    → entry < nr_max_parallel_io
    → Fresh entry xs
    → Returns
        (λ k'. Enqueued k k' xs entry ret.nsecs_target)
        (enqueue_at (some entry, k) sqid cqid sq_entry command_id nsecs_start local_clock ret)
unfolding enqueue_at
enqueue_at-Enqueued k xs entry sqid cqid sq_entry command_id start clock ret q o len b f =
    Ends-bind (work-Returns k entry b) λ w _. put_new-Enqueued k xs entry _ q o len b f refl refl
