-- ===== src/Zns/Recv/Overruns.antt =====
-- About __prp_transfer_data of zns_mgmt_recv.c: a transfer that needs more than one page of the list.
use nvmevirt_pim.Base.{
  ℕ, zero, suc, ◌+◌, ◌-◌, ◌*◌, ◌%◌, ◌≤◌, ◌<◌, ◌≡◌, refl, Bool, true, false, ltb, leb, ◌==◌, ok,
  fault, undefined, arith, Bool-cases, inl, inr,
}
use nvmevirt_pim.Zns.Recv.{page_size, chunk_size, list_entry, next_prp, prp_walk, prp_transfer_data}
use nvmevirt_pim.Zns.Recv.Walk.{
  page_entries, in_page, chunk_size-pos, chunk_size-aligned, chunk_size-first, next-second,
  next-listed,
}

-- The pointers of the host are to starts of pages, but for prp1.
module _ (prp1 prp2 : ℕ) (prp_list : ℕ → ℕ) (aligned : prp2 % page_size ≡ 0)
    (pages : (i : ℕ) → prp_list i % page_size ≡ 0) where
  -- A step whose rest leaves the list.
  step-overruns :
      (fuel prp_offs i : ℕ) (have_list : Bool) (offset remaining paddr i' : ℕ) (have_list' : Bool)
      → 0 < remaining
      → next_prp prp1 prp2 prp_list (prp_offs + 1) i have_list remaining
        ≡ ok (paddr, i', have_list')
      → prp_walk fuel prp1 prp2 prp_list
          (prp_offs + 1)
          i'
          have_list'
          (offset + chunk_size paddr remaining)
          (remaining - chunk_size paddr remaining)
        ≡ fault undefined
      → prp_walk (suc fuel) prp1 prp2 prp_list prp_offs i have_list offset remaining
        ≡ fault undefined
  unfolding prp_walk
  step-overruns fuel prp_offs i have_list offset remaining paddr i' have_list' h e rest =
      let more : (remaining == 0) ≡ false = ground arith in rw (more, e, rest) refl

  past_list :
      (prp_offs remaining : ℕ)
      → 2 ≤ prp_offs
      → next_prp prp1 prp2 prp_list (prp_offs + 1) page_entries true remaining ≡ fault undefined
  unfolding next_prp list_entry
  past_list prp_offs remaining late =
      let not_first : (prp_offs + 1 == 1) ≡ false = ground arith in
      let not_second : (prp_offs + 1 == 2) ≡ false = ground arith in
      let outside : leb (prp2 % page_size + 8 * (page_entries + 1)) page_size ≡ false =
        ground arith in
      rw (not_first, not_second, outside) refl

  list-overruns :
      (fuel prp_offs i offset remaining : ℕ)
      → 2 ≤ prp_offs
      → remaining < fuel
      → i ≤ page_entries
      → page_size * page_entries < remaining + page_size * i
      → prp_walk fuel prp1 prp2 prp_list prp_offs i true offset remaining ≡ fault undefined
  unfolding prp_walk
  list-overruns zero prp_offs i offset remaining late h within over = absurd (omega arith)
  list-overruns (suc fuel) prp_offs i offset remaining late h within over =
      elim (Bool-cases (ltb i page_entries)) [
        | inl inside ↦
            let size = chunk_size-pos (prp_list i) remaining (omega arith) in
            let whole = chunk_size-aligned (prp_list i) remaining (pages i) in
            step-overruns fuel prp_offs i true offset remaining (prp_list i) (i + 1) true
              (omega arith)
              (next-listed prp1 prp2 prp_list aligned pages prp_offs i remaining late
                (ground arith))
              (list-overruns fuel (prp_offs + 1) (i + 1) _ _ (omega arith) (omega arith)
                (ground arith) (omega (arith, whole)))
        | inr at_end ↦
            let e : i ≡ page_entries = ground arith in
            let more : (remaining == 0) ≡ false = ground arith in
            rw (e, more, past_list prp_offs remaining late) refl
      ]

  second-overruns :
      (fuel offset remaining : ℕ)
      → remaining < fuel
      → page_size * page_entries < remaining
      → prp_walk fuel prp1 prp2 prp_list 1 0 false offset remaining ≡ fault undefined
  second-overruns zero offset remaining h over = absurd (omega arith)
  second-overruns (suc fuel) offset remaining h over =
      let size = chunk_size-pos (prp_list 0) remaining (omega arith) in
      let whole = chunk_size-aligned (prp_list 0) remaining (pages 0) in
      step-overruns fuel 1 0 false offset remaining (prp_list 0) 1 true (omega arith)
        (next-second prp1 prp2 prp_list aligned pages remaining (omega arith))
        (list-overruns fuel 2 1 _ _ (omega arith) (omega arith) (omega arith)
          (omega (arith, whole)))

  first-overruns :
      (fuel size : ℕ)
      → size < fuel
      → page_size + page_size * page_entries < prp1 % page_size + size
      → prp_walk fuel prp1 prp2 prp_list 0 0 false 0 size ≡ fault undefined
  first-overruns zero size h over = absurd (omega arith)
  first-overruns (suc fuel) size h over =
      let some_bytes = chunk_size-pos prp1 size (omega (arith, in_page prp1)) in
      let taken = chunk_size-first prp1 size in
      step-overruns fuel 0 0 false 0 size prp1 0 false (omega (arith, in_page prp1))
        (unfold next_prp in ground arith)
        (second-overruns fuel _ _ (omega arith) (omega (arith, taken, in_page prp1)))

  -- If prp2 and all pages of the list start a page, a transfer of more bytes than the first
  -- page from prp1 on and 512 further pages hold reads outside the page of the list that is
  -- mapped.
  pub prp_transfer_data-overruns :
      (size : ℕ)
      → page_size + page_size * page_entries < prp1 % page_size + size
      → prp_transfer_data prp1 prp2 prp_list size ≡ fault undefined
  unfolding prp_transfer_data
  prp_transfer_data-overruns size over = first-overruns (size + 1) size (omega arith) over
