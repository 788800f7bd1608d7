-- ===== src/Io/Queue/Order.antt =====
-- About __insert_req_sorted of io.c: the order of the work queue.
use nvmevirt_pim.Base.{
  ℕ, ◌+◌, ◌≡◌, ◌<◌, ◌≤◌, refl, sym, ◌∙◌, max, List, [], ◌∷◌, length, false, ◌==◌, Bool-cases, inl,
  inr, ok, Returns, normal, Ends-map, Ends-if, ap, ◌>>=◌, arith, subst,
}
use nvmevirt_pim.Io.Queue.{
  IoWorker, nil, nr_max_parallel_io, stays_before, find_place, link_entry, insert_req_sorted,
}
use nvmevirt_pim.Io.Queue.Chain.{
  Chained, Fresh, Distinct, inserted, splice_point, Chained-inserted, Distinct-inserted, Fresh-nil,
  final-lt,
}
use nvmevirt_pim.Io.Queue.Links.{IsQueue, stays, link_entry-Linked, find_place-ok}

-- From the last entry to the first the times fall, but for those that are over.
unfoldable pub Below : IoWorker → ℕ → List ℕ → Type 0
Below k x [] = Unit {0}
Below k x (y ∷ ys) =
    (k.work_queue y).nsecs_target ≤ max (k.work_queue x).nsecs_target k.latest_nsecs

unfoldable pub Ordered : IoWorker → List ℕ → Type 0
unfolding Below
Ordered k [] = Unit {0}
Ordered k (x ∷ xs) = Below k x xs × Ordered k xs

Below-inserted :
    (k : IoWorker) (entry t x : ℕ) (xs : List ℕ)
    → (k.work_queue entry).nsecs_target ≡ t
    → stays k t x ≡ false
    → Below k x xs
    → Below k x (inserted (stays k t) entry xs)
unfolding Below inserted stays_before
Below-inserted k entry t x [] e s b = ground arith
Below-inserted k entry t x (y ∷ ys) e s b = elim (Bool-cases (stays k t y)) [
  | inl here ↦ rw here (ground arith)
  | inr there ↦ rw there b
]

Ordered-inserted :
    (k : IoWorker) (entry t : ℕ) (xs : List ℕ)
    → (k.work_queue entry).nsecs_target ≡ t
    → Ordered k xs
    → Ordered k (inserted (stays k t) entry xs)
unfolding Ordered Below inserted stays_before
Ordered-inserted k entry t [] e o = (tt, tt)
Ordered-inserted k entry t (x ∷ xs) e (b, o) = elim (Bool-cases (stays k t x)) [
  | inl here ↦ rw here (ground arith, (b, o))
  | inr there ↦
      rw there (Below-inserted k entry t x xs e there b, Ordered-inserted k entry t xs e o)
]

-- Only times count.
Ordered-frame :
    (k k' : IoWorker) (xs : List ℕ)
    → ((i : ℕ) → (k'.work_queue i).nsecs_target ≡ (k.work_queue i).nsecs_target)
    → k'.latest_nsecs ≡ k.latest_nsecs
    → Ordered k xs
    → Ordered k' xs
unfolding Ordered Below
Ordered-frame k k' [] s l o = tt
Ordered-frame k k' (x ∷ []) s l (b, o) = (tt, tt)
Ordered-frame k k' (x ∷ y ∷ ys) s l (b, o) =
    (omega (arith, b, s x, s y, l), Ordered-frame k k' (y ∷ ys) s l o)

-- What an insertion leaves.
pub record Inserted (k k' : IoWorker) (xs : List ℕ) : Type 0 where
  pub queue : IsQueue k' xs
  pub ordered : Ordered k' xs
  pub same_target : (i : ℕ) → (k'.work_queue i).nsecs_target ≡ (k.work_queue i).nsecs_target

-- Into a work queue whose chain stands for a list of distinct entries, ordered by their times
-- as far as these are not over, of no more entries than the array has, __insert_req_sorted
-- with the time of an unlinked new entry returns. The chain, with its first and last index,
-- then stands for the list with the new entry behind the last one that is due or not later,
-- the list is ordered again, and no time has changed.
pub insert_req_sorted-Inserted :
    (entry : ℕ) (k : IoWorker) (t : ℕ) (xs : List ℕ)
    → IsQueue k xs
    → Ordered k xs
    → length xs ≤ nr_max_parallel_io
    → entry < nr_max_parallel_io
    → Fresh entry xs
    → (k.work_queue entry).next ≡ nil
    → (k.work_queue entry).prev ≡ nil
    → (k.work_queue entry).nsecs_target ≡ t
    → Returns (λ k'. Inserted k k' (inserted (stays k t) entry xs)) (insert_req_sorted entry k t)
unfolding insert_req_sorted inserted Chained Distinct Fresh Ordered Below
insert_req_sorted-Inserted entry k t [] q o len b f n p e =
    Ends-if (k.io_seq == nil)
      (λ empty. normal (record {
        queue = record {
          chained = (n, p, tt);
          distinct = (b, tt, tt);
          seq = refl;
          seq_end = λ z. refl;
        };
        ordered = (tt, tt);
        same_target = λ i. refl;
      }))
      λ some_entry. absurd (ground (arith, q.seq))
insert_req_sorted-Inserted entry k t (x ∷ xs) q o len b f n p e =
    let (bx, fx, d) = q.distinct in
    let in_queue : k.io_seq < nr_max_parallel_io =
      subst (λ i. i < nr_max_parallel_io) (sym q.seq) (final-lt x xs bx d) in
    let at_end : k.io_seq_end ≡ x = q.seq_end (λ z. absurd (ground arith)) in
    let found : find_place (nr_max_parallel_io + 1) k t k.io_seq_end
        ≡ ok (splice_point (stays k t) (x ∷ xs)) =
      ap (find_place (nr_max_parallel_io + 1) k t) at_end
      ∙ find_place-ok (nr_max_parallel_io + 1) k t nil (x ∷ xs) (omega (arith, len)) q.distinct
          q.chained in
    Ends-if (k.io_seq == nil) (λ empty. absurd (ground arith))
      λ some_entry.
        subst
          (λ r.
            Returns (λ k'. Inserted k k' (inserted (stays k t) entry (x ∷ xs)))
              (r >>= λ curr. link_entry entry curr k))
          (sym found)
          (Ends-map (link_entry-Linked entry k t x xs q b f n p at_end) λ k' l. record {
            queue = record {
              chained =
                  Chained-inserted (stays k t) k.work_queue k'.work_queue entry nil (x ∷ xs)
                    l.spliced f (Fresh-nil (x ∷ xs) q.distinct) q.distinct q.chained;
              distinct = Distinct-inserted (stays k t) entry (x ∷ xs) b f q.distinct;
              seq = l.io_seq_is;
              seq_end = λ z. l.io_seq_end_is;
            };
            ordered =
                Ordered-frame k k' _ l.same_target l.same_latest
                  (Ordered-inserted k entry t (x ∷ xs) e o);
            same_target = l.same_target;
          })
