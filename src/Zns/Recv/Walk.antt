-- ===== src/Zns/Recv/Walk.antt =====
-- About __prp_transfer_data of zns_mgmt_recv.c: the copies that it makes.
use nvmevirt_pim.Base.{
  ℕ, zero, suc, if◌then◌else◌, ◌+◌, ◌-◌, ◌%◌, ◌≤◌, ◌<◌, ◌≡◌, refl, Bool, true, false, ltb, ◌==◌,
  List, [], ◌∷◌, ok, arith, Returns, normal, Bool-cases, inl, inr, Ends-bind, Ends-if, min, ◌*◌,
}
use native.Mathlib.Nat.{mod-lt}
use nvmevirt_pim.Zns.Recv.{
  Chunk, page_size, chunk_size, list_entry, next_prp, prp_walk, prp_transfer_data,
}

-- The copies from the number `j` on: copy `j` goes to the page `page j`. They continue one another
-- from `offset` on, each stays in its page and moves a byte at least, and together they move
-- `remaining` bytes.
pub data Covers (page : ℕ → ℕ) : (j offset remaining : ℕ) → List Chunk → Type 0 where
  done : {j offset : ℕ} → Covers page j offset 0 []
  next :
      {j offset remaining : ℕ} {c : Chunk} {cs : List Chunk}
      → c.paddr ≡ page j
      → c.offset ≡ offset
      → 0 < c.io_size
      → c.io_size ≤ remaining
      → c.mem_offs ≡ c.paddr % page_size
      → c.mem_offs + c.io_size ≤ page_size
      → Covers page (j + 1) (offset + c.io_size) (remaining - c.io_size) cs
      → Covers page j offset remaining (c ∷ cs)

-- The pages of a transfer: prp1, then prp2, if that is enough, or the pages of the list.
abbrev pub host_page : (prp1 prp2 : ℕ) (prp_list : ℕ → ℕ) (size j : ℕ) → ℕ
host_page prp1 prp2 prp_list size j =
    if j == 0
    then prp1
    else if ltb (2 * page_size) (prp1 % page_size + size)
    then prp_list (j - 1)
    else prp2

host_page-listed :
    (prp1 prp2 : ℕ) (prp_list : ℕ → ℕ) (size l : ℕ)
    → 2 * page_size < prp1 % page_size + size
    → prp_list l ≡ host_page prp1 prp2 prp_list size (l + 1)
host_page-listed prp1 prp2 prp_list size l h =
    let later : (l + 1 == 0) ≡ false = ground arith in
    let long : ltb (2 * page_size) (prp1 % page_size + size) ≡ true = ground arith in
    let back : l + 1 - 1 ≡ l = omega arith in rw (later, long, back) refl

host_page-second :
    (prp1 prp2 : ℕ) (prp_list : ℕ → ℕ) (size : ℕ)
    → prp1 % page_size + size ≤ 2 * page_size
    → prp2 ≡ host_page prp1 prp2 prp_list size 1
host_page-second prp1 prp2 prp_list size h =
    let short : ltb (2 * page_size) (prp1 % page_size + size) ≡ false = ground arith in
    rw short refl

-- How many entries a page of a PRP list has.
abbrev pub page_entries : ℕ
page_entries = 512

pub in_page : (paddr : ℕ) → paddr % page_size < page_size
in_page paddr = let positive : 0 < page_size = omega arith in mod-lt paddr positive

module _ (paddr remaining : ℕ) (h : 0 < remaining) where
  pub chunk_size-pos : 0 < chunk_size paddr remaining
  unfolding chunk_size
  chunk_size-pos = ground (arith, in_page paddr)

  chunk_size-le : chunk_size paddr remaining ≤ remaining
  unfolding chunk_size
  chunk_size-le = ground (arith, in_page paddr)

  chunk_size-fits : paddr % page_size + chunk_size paddr remaining ≤ page_size
  unfolding chunk_size
  chunk_size-fits = ground (arith, in_page paddr)

-- The first page takes what it has behind its offset.
pub chunk_size-first :
    (paddr remaining : ℕ)
    → chunk_size paddr remaining ≡ min remaining (page_size - paddr % page_size)
unfolding chunk_size
chunk_size-first paddr remaining = ground (arith, in_page paddr)

-- A page from its start takes all that is left, up to its size.
pub chunk_size-aligned :
    (paddr remaining : ℕ)
    → paddr % page_size ≡ 0
    → chunk_size paddr remaining ≡ min remaining page_size
unfolding chunk_size
chunk_size-aligned paddr remaining e = ground arith

module _ (prp1 prp2 : ℕ) (prp_list : ℕ → ℕ) where
  -- A step of the loop, whose page is known.
  step-Covers :
      (page : ℕ → ℕ) (j fuel prp_offs prp2_offs : ℕ) (have_list : Bool)
      (offset remaining paddr prp2_offs' : ℕ) (have_list' : Bool)
      → 0 < remaining
      → paddr ≡ page j
      → next_prp prp1 prp2 prp_list (prp_offs + 1) prp2_offs have_list remaining
        ≡ ok (paddr, prp2_offs', have_list')
      → Returns
          (Covers page
            (j + 1)
            (offset + chunk_size paddr remaining)
            (remaining - chunk_size paddr remaining))
          (prp_walk fuel prp1 prp2 prp_list
            (prp_offs + 1)
            prp2_offs'
            have_list'
            (offset + chunk_size paddr remaining)
            (remaining - chunk_size paddr remaining))
      → Returns
          (Covers page j offset remaining)
          (prp_walk (suc fuel) prp1 prp2 prp_list prp_offs prp2_offs have_list offset remaining)
  unfolding prp_walk
  step-Covers page j fuel prp_offs prp2_offs have_list offset remaining paddr prp2_offs' have_list'
        h at e rest =
      Ends-if (remaining == 0) (λ zero_left. absurd (ground arith))
        λ _. rw e (
          Ends-bind rest λ cs covers. normal (
            next at refl (chunk_size-pos paddr remaining h) (chunk_size-le paddr remaining h) refl
              (chunk_size-fits paddr remaining h) covers))

  nothing-Covers :
      (page : ℕ → ℕ) (j fuel prp_offs prp2_offs : ℕ) (have_list : Bool) (offset remaining : ℕ)
      → remaining ≡ 0
      → Returns
          (Covers page j offset remaining)
          (prp_walk (suc fuel) prp1 prp2 prp_list prp_offs prp2_offs have_list offset remaining)
  unfolding prp_walk
  nothing-Covers page j fuel prp_offs prp2_offs have_list offset remaining e = rw e (normal done)

  -- prp2 starts a page, and so do the pages of the list.
  module _ (aligned : prp2 % page_size ≡ 0) (pages : (i : ℕ) → prp_list i % page_size ≡ 0) where
    listed : (i : ℕ) → i < page_entries → list_entry prp2 prp_list i ≡ ok (prp_list i)
    unfolding list_entry
    listed i h = ground arith

    pub next-second :
        (remaining : ℕ)
        → page_size < remaining
        → next_prp prp1 prp2 prp_list 2 0 false remaining ≡ ok (prp_list 0, 1, true)
    unfolding next_prp
    next-second remaining h =
        let long : ltb page_size remaining ≡ true = ground arith in
        rw (long, listed 0 (omega arith)) refl

    pub next-listed :
        (prp_offs i remaining : ℕ)
        → 2 ≤ prp_offs
        → i < page_entries
        → next_prp prp1 prp2 prp_list (prp_offs + 1) i true remaining ≡ ok (prp_list i, i + 1, true)
    unfolding next_prp
    next-listed prp_offs i remaining late h =
        let not_first : (prp_offs + 1 == 1) ≡ false = ground arith in
        let not_second : (prp_offs + 1 == 2) ≡ false = ground arith in
        rw (not_first, not_second, listed i h) refl

    -- Once the list is mapped, the walk goes on to the end, if the list's page has the entries.
    list-Covers :
        (page : ℕ → ℕ) (fuel prp_offs i offset remaining : ℕ)
        → ((l : ℕ) → prp_list l ≡ page (l + 1))
        → 2 ≤ prp_offs
        → remaining < fuel
        → remaining + page_size * i ≤ page_size * page_entries
        → Returns
            (Covers page (i + 1) offset remaining)
            (prp_walk fuel prp1 prp2 prp_list prp_offs i true offset remaining)
    list-Covers page zero prp_offs i offset remaining in_list late h room = absurd (omega arith)
    list-Covers page (suc fuel) prp_offs i offset zero in_list late h room =
        nothing-Covers page (i + 1) fuel prp_offs i true offset 0 refl
    list-Covers page (suc fuel) prp_offs i offset (suc r) in_list late h room =
        let size = chunk_size-pos (prp_list i) (suc r) (omega arith) in
        let whole = chunk_size-aligned (prp_list i) (suc r) (pages i) in
        step-Covers page (i + 1) fuel prp_offs i true offset (suc r) (prp_list i) (i + 1) true
          (omega arith) (in_list i) (next-listed prp_offs i (suc r) late (omega arith))
          (list-Covers page fuel (prp_offs + 1) (i + 1) _ _ in_list (omega arith) (omega arith)
            (omega (arith, whole)))

    second-Covers :
        (page : ℕ → ℕ) (fuel offset remaining : ℕ)
        → (page_size < remaining → (l : ℕ) → prp_list l ≡ page (l + 1))
        → (remaining ≤ page_size → prp2 ≡ page 1)
        → remaining < fuel
        → remaining ≤ page_size * page_entries
        → Returns
            (Covers page 1 offset remaining)
            (prp_walk fuel prp1 prp2 prp_list 1 0 false offset remaining)
    second-Covers page zero offset remaining in_list at_prp2 h room = absurd (omega arith)
    second-Covers page (suc fuel) offset zero in_list at_prp2 h room =
        nothing-Covers page 1 fuel 1 0 false offset 0 refl
    second-Covers page (suc zero) offset (suc r) in_list at_prp2 h room = absurd (omega arith)
    second-Covers page (suc (suc fuel)) offset (suc r) in_list at_prp2 h room =
        elim (Bool-cases (ltb page_size (suc r))) [
          | inl long ↦
              let size = chunk_size-pos (prp_list 0) (suc r) (omega arith) in
              let whole = chunk_size-aligned (prp_list 0) (suc r) (pages 0) in
              step-Covers page 1 (suc fuel) 1 0 false offset (suc r) (prp_list 0) 1 true
                (omega arith) (in_list (ground arith) 0) (next-second (suc r) (ground arith))
                (list-Covers page (suc fuel) 2 1 _ _ (in_list (ground arith)) (omega arith)
                  (omega arith) (omega (arith, whole)))
          | inr short ↦
              let whole = chunk_size-aligned prp2 (suc r) aligned in
              step-Covers page 1 (suc fuel) 1 0 false offset (suc r) prp2 0 false (omega arith)
                (at_prp2 (ground arith)) (unfold next_prp in ground arith)
                (nothing-Covers page 2 fuel 2 0 false _ _ (ground (arith, whole)))
        ]

    first-Covers :
        (fuel size : ℕ)
        → size < fuel
        → prp1 % page_size + size ≤ page_size + page_size * page_entries
        → Returns
            (Covers (host_page prp1 prp2 prp_list size) 0 0 size)
            (prp_walk fuel prp1 prp2 prp_list 0 0 false 0 size)
    first-Covers zero size h room = absurd (omega arith)
    first-Covers (suc fuel) zero h room = nothing-Covers _ 0 fuel 0 0 false 0 0 refl
    first-Covers (suc fuel) (suc n) h room =
        let page = host_page prp1 prp2 prp_list (suc n) in
        let some_bytes = chunk_size-pos prp1 (suc n) (omega arith) in
        let taken = chunk_size-first prp1 (suc n) in
        step-Covers page 0 fuel 0 0 false 0 (suc n) prp1 0 false (omega arith) refl
          (unfold next_prp in ground arith)
          (second-Covers page fuel _ _
            (λ long l.
              host_page-listed prp1 prp2 prp_list (suc n) l (omega (arith, taken, in_page prp1)))
            (λ short.
              host_page-second prp1 prp2 prp_list (suc n) (omega (arith, taken, in_page prp1)))
            (omega arith) (omega (arith, taken, in_page prp1)))

    -- A transfer returns, if prp2 and all pages of the list start a page, and its bytes fit
    -- the first page from prp1 on and 512 further pages. Its copies go to the page of prp1,
    -- then to that of prp2 if two pages are enough, and to the pages of the list one after the
    -- other if not. They move the bytes from 0 to `size` once and in order, at least one byte
    -- each, and each within one page of the host.
    pub prp_transfer_data-Covers :
        (size : ℕ)
        → prp1 % page_size + size ≤ page_size + page_size * page_entries
        → Returns
            (Covers (host_page prp1 prp2 prp_list size) 0 0 size)
            (prp_transfer_data prp1 prp2 prp_list size)
    unfolding prp_transfer_data
    prp_transfer_data-Covers size room = first-Covers (size + 1) size (omega arith) room
