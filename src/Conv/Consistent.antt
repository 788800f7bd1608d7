-- ===== src/Conv/Consistent.antt =====
-- The agreement of the tables maptbl and rmap with the states of the pages, and what the pure table
-- updates of conv_ftl.c do to it.
pub mod Frames
use nvmevirt_pim.Base.{
  ℕ, ◌+◌, ◌-◌, ◌<◌, ◌≤◌, ◌≡◌, ◌≢◌, refl, sym, ◌∙◌, ap, subst, ◌==◌, Bool, true, false, ltb, leb,
  ◌&&◌, if◌then◌else◌, Bool-cases, inl, inr, arith,
}
use nvmevirt_pim.Ssd.Params.{SsdParams}
use nvmevirt_pim.Ssd.Nand.{Ppa}
use nvmevirt_pim.Conv.State.{PageStatus, free, invalid, valid, ConvFtl, update}
use nvmevirt_pim.Conv.Map.{valid_ppa, mapped_ppa, page_index}
use nvmevirt_pim.Conv.Mark.{is_free, is_valid}

pub record Tables : Type 0 where
  pub maptbl : ℕ → Ppa
  pub rmap : ℕ → ℕ
  pub pages : ℕ → PageStatus

abbrev pub tables : {Q : Type 0} → ConvFtl Q → Tables
tables f = record { maptbl = f.maptbl; rmap = f.rmap; pages = f.pages }

pub is_free-eq : (s : PageStatus) → is_free s ≡ true → s ≡ free
unfolding is_free
is_free-eq free h = refl
is_free-eq invalid h = cc
is_free-eq valid h = cc

pub is_valid-eq : (s : PageStatus) → is_valid s ≡ true → s ≡ valid
unfolding is_valid
is_valid-eq free h = cc
is_valid-eq invalid h = cc
is_valid-eq valid h = refl

module _ (spp : SsdParams) where
  -- The physical page of a logical page, and whether it has one.
  abbrev pub home : Tables → ℕ → ℕ
  home t lpn = page_index spp (t.maptbl lpn)

  abbrev pub IsPresent : Tables → ℕ → Type 0
  IsPresent t lpn = mapped_ppa (t.maptbl lpn) ≡ true

  -- The physical page lies in the SSD, is valid, and has the logical page in rmap.
  pub record Entry (t : Tables) (lpn : ℕ) : Type 0 where
    pub in_range : valid_ppa spp (t.maptbl lpn) ≡ true
    pub back : t.rmap (home t lpn) ≡ lpn
    pub live : t.pages (home t lpn) ≡ valid

  -- Every logical page but `hole` that has a physical page has a good entry.
  abbrev pub ConsistentBut : (hole : ℕ) → Tables → Type 0
  ConsistentBut hole t = (lpn : ℕ) → lpn < spp.tt_pgs → lpn ≢ hole → IsPresent t lpn → Entry t lpn

  abbrev pub Consistent : Tables → Type 0
  Consistent t = (lpn : ℕ) → lpn < spp.tt_pgs → IsPresent t lpn → Entry t lpn

  -- Page `i` was written and no logical page is there any more.
  pub record Unused (t : Tables) (i : ℕ) : Type 0 where
    pub written : t.pages i ≢ free
    pub unmapped : (lpn : ℕ) → lpn < spp.tt_pgs → IsPresent t lpn → home t lpn ≢ i

  -- The logical page `lpn` gets the page `p`.
  abbrev pub remap : Tables → (lpn : ℕ) → Ppa → Tables
  remap t lpn p = record {
    maptbl = update t.maptbl lpn p;
    rmap = update t.rmap (page_index spp p) lpn;
    pages = update t.pages (page_index spp p) valid;
  }

  -- Page `i` is given up.
  abbrev pub forget : Tables → (i gone : ℕ) → Tables
  forget t i gone = record t { rmap = update t.rmap i gone; pages = update t.pages i invalid }

  abbrev pub erase : Tables → (first n : ℕ) → Tables
  erase t first n = record t {
    pages = λ i. if leb first i && ltb i (first + n) then free else t.pages i;
  }

  -- A valid page belongs to a logical page that has a physical page.
  abbrev pub Owned : Tables → Type 0
  Owned t = (i : ℕ) → t.pages i ≡ valid → IsPresent t (t.rmap i)

  pub remap-Owned :
      (t : Tables) (lpn : ℕ) (p : Ppa) → Owned t → mapped_ppa p ≡ true → Owned (remap t lpn p)
  unfolding update
  remap-Owned t lpn p o is_mapped i live = elim (Bool-cases (i == page_index spp p)) [
    | inl same ↦ ground arith
    | inr other ↦ elim (Bool-cases (t.rmap i == lpn)) [
      | inl mine ↦ ground arith
      | inr not_mine ↦ rw (other, not_mine) (o i (rw other at live))
    ]
  ]

  pub forget-Owned : (t : Tables) (i gone : ℕ) → Owned t → Owned (forget t i gone)
  unfolding update
  forget-Owned t i gone o j live = elim (Bool-cases (j == i)) [
    | inl same ↦ absurd (cc (rw same at live))
    | inr other ↦ rw other (o j (rw other at live))
  ]

  pub erase-Owned : (t : Tables) (first n : ℕ) → Owned t → Owned (erase t first n)
  erase-Owned t first n o i live = elim (Bool-cases (leb first i && ltb i (first + n))) [
    | inl inside ↦ absurd (cc (rw inside at live))
    | inr outside ↦ o i (rw outside at live)
  ]

  pub remap-Consistent :
      (t : Tables) (lpn : ℕ) (p : Ppa)
      → ConsistentBut lpn t
      → t.pages (page_index spp p) ≡ free
      → valid_ppa spp p ≡ true
      → Consistent (remap t lpn p)
  unfolding update
  remap-Consistent t lpn p c fresh inside n lt present = elim (Bool-cases (n == lpn)) [
    | inl same ↦ record { in_range = ground arith; back = ground arith; live = ground arith }
    | inr other ↦
        let e = c n lt (ground arith) (ground arith) in
        let apart : home t n ≢ page_index spp p = λ meet. cc (ap t.pages meet, e.live, fresh) in
        record { in_range = ground arith; back = ground arith; live = ground arith }
  ]

  pub forget-ConsistentBut :
      (t : Tables) (lpn gone : ℕ)
      → Consistent t
      → lpn < spp.tt_pgs
      → IsPresent t lpn
      → ConsistentBut lpn (forget t (home t lpn) gone)
  unfolding update
  forget-ConsistentBut t lpn gone c lt present n n_lt ne n_present =
      let e = c n n_lt n_present in
      let old = c lpn lt present in
      let apart : home t n ≢ home t lpn = λ same. ne (sym e.back ∙ ap t.rmap same ∙ old.back) in
      record { in_range = e.in_range; back = ground arith; live = ground arith }

  -- A moved page's old home is unused.
  pub remap-Unused_old :
      (t : Tables) (p : Ppa) (i : ℕ)
      → Consistent t
      → t.pages (page_index spp p) ≡ free
      → t.pages i ≡ valid
      → Unused (remap t (t.rmap i) p) i
  unfolding update
  remap-Unused_old t p i c fresh old =
      let apart : page_index spp p ≢ i = λ meet. cc (ap t.pages meet, old, fresh) in
      record {
        written = ground (arith, apart);
        unmapped = λ n lt present at_i. elim (Bool-cases (n == t.rmap i)) [
          | inl same ↦ apart (rw same at at_i)
          | inr other ↦
              let e = c n lt (rw other at present) in
              let there : home t n ≡ i = rw other at at_i in
              let mine : t.rmap i ≡ n = ap t.rmap (sym there) ∙ e.back in
              absurd (ground (arith, mine, other))
        ];
      }

  pub remap-Unused :
      (t : Tables) (lpn : ℕ) (p : Ppa) (i : ℕ)
      → t.pages (page_index spp p) ≡ free
      → Unused t i
      → Unused (remap t lpn p) i
  unfolding update
  remap-Unused t lpn p i fresh u =
      let apart : page_index spp p ≢ i = λ meet. u.written (ap t.pages (sym meet) ∙ fresh) in
      record {
        written = ground (arith, apart);
        unmapped = λ n lt present at_i. elim (Bool-cases (n == lpn)) [
          | inl same ↦ apart (rw same at at_i)
          | inr other ↦ u.unmapped n lt (rw other at present) (rw other at at_i)
        ];
      }

  pub erase-Consistent :
      (t : Tables) (first n : ℕ)
      → Consistent t
      → ((k : ℕ) → k < n → Unused t (first + k))
      → Consistent (erase t first n)
  erase-Consistent t first n c u lpn lt present =
      let e = c lpn lt present in
      let i = home t lpn in
      let outside : (leb first i && ltb i (first + n)) ≡ false =
        elim (Bool-cases (leb first i && ltb i (first + n))) [
          | inr out ↦ out
          | inl here ↦
              let le : first ≤ i = ground arith in
              let same : first + (i - first) ≡ i = omega arith in
              absurd ((u (i - first) (ground arith)).unmapped lpn lt present (sym same))
        ] in
      record { in_range = e.in_range; back = e.back; live = rw outside e.live }

  pub erase-Unused :
      (t : Tables) (first n i : ℕ)
      → Unused t i
      → ((k : ℕ) → k < n → first + k ≢ i)
      → Unused (erase t first n) i
  erase-Unused t first n i u apart =
      let outside : (leb first i && ltb i (first + n)) ≡ false =
        elim (Bool-cases (leb first i && ltb i (first + n))) [
          | inr out ↦ out
          | inl here ↦
              let le : first ≤ i = ground arith in
              let same : first + (i - first) ≡ i = omega arith in
              absurd (apart (i - first) (ground arith) same)
        ] in
      record { written = rw outside u.written; unmapped = u.unmapped }

  -- A page that is neither free nor valid is unused.
  pub invalid-Unused :
      (t : Tables) (i : ℕ) → Consistent t → t.pages i ≢ free → t.pages i ≢ valid → Unused t i
  invalid-Unused t i c nf nv = record {
    written = nf;
    unmapped = λ n lt present at_i. nv (ap t.pages (sym at_i) ∙ (c n lt present).live);
  }
