-- ===== src/Io/Queue/Links.antt =====
-- About __insert_req_sorted of io.c: how it finds the place and links the new entry in.
use nvmevirt_pim.Base.{
  ℕ, zero, suc, ◌≡◌, ◌≢◌, ◌<◌, refl, sym, ◌∙◌, List, [], ◌∷◌, length, Bool, true, false, ltb, ◌==◌,
  Bool-cases, inl, inr, ok, Returns, normal, Ends-map, Ends-if, arith, subst,
}
use nvmevirt_pim.Io.Queue.{
  IoWorker, nil, nr_max_parallel_io, work, put, set_next, set_prev, stays_before, find_place,
  insert_head, insert_tail, insert_between, link_entry,
}
use nvmevirt_pim.Io.Queue.Chain.{
  first, final, Chained, Fresh, Distinct, inserted, splice_point, behind, Spliced, Spliced-of_eq,
  Fresh-splice_point, Fresh-behind, splice_point-lt, behind-lt, next-splice_point, final-behind,
  final-inserted_head, final-inserted,
}

pub work-ok : (k : IoWorker) (i : ℕ) → i < nr_max_parallel_io → work k i ≡ ok (k.work_queue i)
unfolding work
work-ok k i h = ground arith

set_prev-ok :
    (k : IoWorker) (i v : ℕ)
    → i < nr_max_parallel_io
    → set_prev k i v ≡ ok (put k i (record (k.work_queue i) { prev = v }))
unfolding set_prev
set_prev-ok k i v h = rw (work-ok k i h) refl

set_next-ok :
    (k : IoWorker) (i v : ℕ)
    → i < nr_max_parallel_io
    → set_next k i v ≡ ok (put k i (record (k.work_queue i) { next = v }))
unfolding set_next
set_next-ok k i v h = rw (work-ok k i h) refl

-- The links of `k'` are those of `k` with the entry put between `c` and `n`; the first and the last
-- index and the times are as given.
pub record Linked (k k' : IoWorker) (entry n c io_seq io_seq_end : ℕ) : Type 0 where
  pub spliced : Spliced k.work_queue k'.work_queue entry n c
  pub same_target : (i : ℕ) → (k'.work_queue i).nsecs_target ≡ (k.work_queue i).nsecs_target
  pub same_latest : k'.latest_nsecs ≡ k.latest_nsecs
  pub io_seq_is : k'.io_seq ≡ io_seq
  pub io_seq_end_is : k'.io_seq_end ≡ io_seq_end

insert_head-Linked :
    (entry : ℕ) (k : IoWorker)
    → entry < nr_max_parallel_io
    → k.io_seq < nr_max_parallel_io
    → entry ≢ k.io_seq
    → (k.work_queue entry).prev ≡ nil
    → Returns (λ k'. Linked k k' entry k.io_seq nil entry k.io_seq_end) (insert_head entry k)
unfolding insert_head put
insert_head-Linked entry k b h d p =
    rw (set_prev-ok k k.io_seq entry h, set_next-ok _ entry k.io_seq b)
      (normal (record {
        spliced = record {
          own_next = ground arith;
          own_prev = ground arith;
          next_prev = λ z. ground arith;
          prev_next = λ z. absurd (z refl);
          other_prev = λ x e n. ground arith;
          other_next = λ x e c. ground arith;
        };
        same_target = λ i. ground arith;
        same_latest = refl;
        io_seq_is = refl;
        io_seq_end_is = refl;
      }))

insert_tail-Linked :
    (entry curr : ℕ) (k : IoWorker)
    → entry < nr_max_parallel_io
    → curr < nr_max_parallel_io
    → entry ≢ curr
    → (k.work_queue entry).next ≡ nil
    → Returns (λ k'. Linked k k' entry nil curr k.io_seq entry) (insert_tail entry curr k)
unfolding insert_tail put
insert_tail-Linked entry curr k b h d p =
    rw (set_prev-ok k entry curr b, set_next-ok _ curr entry h)
      (normal (record {
        spliced = record {
          own_next = ground arith;
          own_prev = ground arith;
          next_prev = λ z. absurd (z refl);
          prev_next = λ z. ground arith;
          other_prev = λ x e n. ground arith;
          other_next = λ x e c. ground arith;
        };
        same_target = λ i. ground arith;
        same_latest = refl;
        io_seq_is = refl;
        io_seq_end_is = refl;
      }))

insert_between-Linked :
    (entry curr n : ℕ) (k : IoWorker)
    → entry < nr_max_parallel_io
    → curr < nr_max_parallel_io
    → n < nr_max_parallel_io
    → entry ≢ curr
    → entry ≢ n
    → (k.work_queue curr).next ≡ n
    → Returns (λ k'. Linked k k' entry n curr k.io_seq k.io_seq_end) (insert_between entry curr k)
unfolding insert_between put
insert_between-Linked entry curr n k b h m d e q =
    let self : (entry == entry) ≡ true = ground arith in
    let in_n : ltb n nr_max_parallel_io ≡ true = ground arith in
    let in_curr : ltb curr nr_max_parallel_io ≡ true = ground arith in
    let away : (curr == entry) ≡ false = ground arith in
    rw (set_prev-ok k entry curr b, work-ok _ curr h, set_next-ok _ entry _ b, work-ok _ entry b)
      (rw (self, away, q, in_n, in_curr)
        (normal (record {
          spliced = record {
            own_next = ground arith;
            own_prev = ground arith;
            next_prev = λ z. ground arith;
            prev_next = λ z. ground arith;
            other_prev = λ x e n. ground arith;
            other_next = λ x e c. ground arith;
          };
          same_target = λ i. ground arith;
          same_latest = refl;
          io_seq_is = refl;
          io_seq_end_is = refl;
        })))

pub find_place-ok :
    (fuel : ℕ) (k : IoWorker) (t a : ℕ) (xs : List ℕ)
    → length xs < fuel
    → Distinct xs
    → Chained k.work_queue a xs
    → find_place fuel k t (first xs) ≡ ok (splice_point (λ i. stays_before k t (k.work_queue i)) xs)
unfolding find_place Distinct Chained splice_point
find_place-ok zero k t a xs f d h = absurd (omega arith)
find_place-ok (suc fuel) k t a [] f d h = refl
find_place-ok (suc fuel) k t a (x ∷ xs) f (b, fx, d) (hn, hp, h) =
    let here : (x == nil) ≡ false = ground arith in
    rw (here, work-ok k x b, hp, find_place-ok fuel k t x xs (omega arith) d h) (ground arith)

-- The entries of the queue, from the last to the first. Of an empty queue io_seq_end is not set.
pub record IsQueue (k : IoWorker) (xs : List ℕ) : Type 0 where
  pub chained : Chained k.work_queue nil xs
  pub distinct : Distinct xs
  pub seq : k.io_seq ≡ final nil xs
  pub seq_end : k.io_seq ≢ nil → k.io_seq_end ≡ first xs

-- The entries that stay before one of the time `t`.
abbrev pub stays : IoWorker → (t : ℕ) → ℕ → Bool
stays k t i = stays_before k t (k.work_queue i)

-- The entry goes before the last one.
link_entry-inside :
    (entry : ℕ) (k : IoWorker) (t x : ℕ) (xs : List ℕ)
    → k.io_seq ≡ final x xs
    → entry < nr_max_parallel_io
    → entry ≢ x
    → Fresh entry xs
    → x < nr_max_parallel_io
    → Fresh x xs
    → Distinct xs
    → Chained k.work_queue x xs
    → (k.work_queue entry).prev ≡ nil
    → k.io_seq_end ≡ x
    → Returns
        (λ k'.
          Linked k k' entry
            (behind (stays k t) x xs)
            (splice_point (stays k t) xs)
            (final x (inserted (stays k t) entry xs))
            x)
        (link_entry entry (splice_point (stays k t) xs) k)
unfolding link_entry
link_entry-inside entry k t x xs q b ex fe bx fx d h p e =
    let s = stays k t in
    let n_in : behind s x xs < nr_max_parallel_io = behind-lt s x xs bx d in
    let n_new : entry ≢ behind s x xs = Fresh-behind s entry x xs ex fe in
    Ends-if (splice_point s xs == nil)
      (λ none_stays.
        let at_nil : splice_point s xs ≡ nil = ground arith in
        let at_head : k.io_seq ≡ behind s x xs = q ∙ sym (final-behind s x xs d at_nil) in
        Ends-map
          (insert_head-Linked entry k b (subst (λ i. i < nr_max_parallel_io) (sym at_head) n_in)
            (λ z. n_new (z ∙ at_head)) p)
          λ k' l. record {
            spliced = Spliced-of_eq at_head (sym at_nil) l.spliced;
            same_target = l.same_target;
            same_latest = l.same_latest;
            io_seq_is = l.io_seq_is ∙ sym (final-inserted_head s entry x xs d at_nil);
            io_seq_end_is = l.io_seq_end_is ∙ e;
          })
      λ some_stays.
        let not_nil : splice_point s xs ≢ nil = λ z. absurd (ground arith) in
        let c_in : splice_point s xs < nr_max_parallel_io = splice_point-lt s xs d not_nil in
        let c_next : (k.work_queue (splice_point s xs)).next ≡ behind s x xs =
          next-splice_point s k.work_queue x xs h not_nil in
        let goes_on : ((k.work_queue (splice_point s xs)).next == nil) ≡ false = ground arith in
        let c_new : entry ≢ splice_point s xs =
          Fresh-splice_point s entry xs (λ z. absurd (ground arith)) fe in
        rw (work-ok k (splice_point s xs) c_in, goes_on)
          (Ends-map
            (insert_between-Linked entry (splice_point s xs) (behind s x xs) k b c_in n_in c_new
              n_new c_next)
            λ k' l. record {
              spliced = l.spliced;
              same_target = l.same_target;
              same_latest = l.same_latest;
              io_seq_is = l.io_seq_is ∙ q ∙ sym (final-inserted s entry x xs not_nil);
              io_seq_end_is = l.io_seq_end_is ∙ e;
            })

pub link_entry-Linked :
    (entry : ℕ) (k : IoWorker) (t x : ℕ) (xs : List ℕ)
    → IsQueue k (x ∷ xs)
    → entry < nr_max_parallel_io
    → Fresh entry (x ∷ xs)
    → (k.work_queue entry).next ≡ nil
    → (k.work_queue entry).prev ≡ nil
    → k.io_seq_end ≡ x
    → Returns
        (λ k'.
          Linked k k' entry
            (behind (stays k t) nil (x ∷ xs))
            (splice_point (stays k t) (x ∷ xs))
            (final nil (inserted (stays k t) entry (x ∷ xs)))
            (first (inserted (stays k t) entry (x ∷ xs))))
        (link_entry entry (splice_point (stays k t) (x ∷ xs)) k)
unfolding link_entry Distinct Fresh Chained splice_point behind inserted
link_entry-Linked entry k t x xs q b (ex, fe) n p e =
    let (bx, fx, d) = q.distinct in
    let (hn, hp, h) = q.chained in
    let x_nil : (x == nil) ≡ false = ground arith in
    let no_next : ((k.work_queue x).next == nil) ≡ true = ground arith in
    elim (Bool-cases (stays k t x)) [
      | inl here ↦
          rw (here, x_nil, work-ok k x bx, no_next)
            (Ends-map (insert_tail-Linked entry x k b bx ex n) λ k' l. record {
              spliced = l.spliced;
              same_target = l.same_target;
              same_latest = l.same_latest;
              io_seq_is = l.io_seq_is ∙ q.seq;
              io_seq_end_is = l.io_seq_end_is;
            })
      | inr there ↦ rw there (link_entry-inside entry k t x xs q.seq b ex fe bx fx d h p e)
    ]
