-- ===== src/Conv/Pointer/Rows.antt =====
-- The arithmetic of pages, one-shot pages and rows of one-shot pages.
use nvmevirt_pim.Base.{
  ℕ, ◌+◌, ◌*◌, ◌/◌, ◌%◌, ◌<◌, ◌≤◌, ◌≡◌, ◌≢◌, ◌⊎◌, sym, ◌∙◌, ap, ◌==◌, true, false, not, ltb, inl,
  inr, arith,
}
use native.Mathlib.Nat.{div-add-mod, mod-lt}

pub lt-cases : (a b : ℕ) → (a ≡ b) ⊎ ((a < b) ⊎ (b < a))
lt-cases a b = ground arith

pub no_less : (d a b r s : ℕ) → s < d → d * a + s ≡ d * b + r → a < b → Unit {0} × (1 ≤ 0)
no_less d a b r s lt e less = (tt, grind arith)

-- A quotient and a remainder are determined.
pub div_mod_unique : (n d q r : ℕ) → r < d → n ≡ d * q + r → (n / d ≡ q) × (n % d ≡ r)
div_mod_unique n d q r lt e =
    let split = div-add-mod n d in
    let small = mod-lt n {m = d} (omega arith) in
    let same : n / d ≡ q = elim (lt-cases (n / d) q) [
      | inl eq ↦ eq
      | inr (inl less) ↦
          absurd (omega (arith, (no_less d (n / d) q r (n % d) small (split ∙ e) less).1))
      | inr (inr more) ↦
          absurd (omega (arith, (no_less d q (n / d) (n % d) r lt (sym (split ∙ e)) more).1))
    ] in
    (same, omega (arith, ap (λ (t : ℕ). d * t) same))

pub lt-ltb : {a b : ℕ} → a < b → ltb a b ≡ true
lt-ltb h = ground arith

pub test_ne : (a b : ℕ) → not (a == b) ≡ true → a ≢ b
test_ne a b h = ground arith

pub test_eq : (a b : ℕ) → not (a == b) ≡ false → a ≡ b
test_eq a b h = ground arith

-- Whether the next number starts a new multiple of `d`.
pub stays : (n d q r : ℕ) → r < d → d * q + r ≡ n → (n + 1) % d ≢ 0 → r + 1 < d
stays n d q r lt e ne = elim (lt-cases (r + 1) d) [
  | inl full ↦
      let next : n + 1 ≡ d * (q + 1) + 0 = grind arith in
      absurd (ne (div_mod_unique (n + 1) d (q + 1) 0 (omega arith) next).1)
  | inr (inl less) ↦ less
  | inr (inr more) ↦ absurd (omega arith)
]

pub wraps : (n d q r : ℕ) → r < d → d * q + r ≡ n → (n + 1) % d ≡ 0 → r + 1 ≡ d
wraps n d q r lt e zero_rem = elim (lt-cases (r + 1) d) [
  | inl full ↦ full
  | inr (inl less) ↦
      let rem = (div_mod_unique (n + 1) d q (r + 1) less (omega arith)).1 in absurd (omega arith)
  | inr (inr more) ↦ absurd (omega arith)
]

pub quotient_lt : (n d q r m : ℕ) → d * q + r ≡ n → n < d * m → q < m
quotient_lt n d q r m e lt = elim (lt-cases q m) [
  | inl same ↦ absurd (omega (arith, ap (λ (t : ℕ). d * t) same))
  | inr (inl less) ↦ less
  | inr (inr more) ↦ absurd (grind arith)
]

pub below : (d q r m : ℕ) → r < d → q < m → d * q + r < d * m
below d q r m lt less = grind arith

pub not_last : (d q m : ℕ) → q < m → d * (q + 1) + 0 ≢ d * m → q + 1 < m
not_last d q m lt ne = elim (lt-cases (q + 1) m) [
  | inl same ↦ absurd (ne (omega (arith, ap (λ (t : ℕ). d * t) same)))
  | inr (inl less) ↦ less
  | inr (inr more) ↦ absurd (omega arith)
]

pub is_last : (d q m : ℕ) → 0 < d → q < m → d * (q + 1) + 0 ≡ d * m → q + 1 ≡ m
is_last d q m pos lt e = elim (lt-cases (q + 1) m) [
  | inl same ↦ same
  | inr (inl less) ↦ absurd (omega (arith, below d (q + 1) 0 m pos less))
  | inr (inr more) ↦ absurd (omega arith)
]

pub whole_line :
    (q luns nchs os m : ℕ)
    → q + 1 ≡ m
    → (((q + 1) * luns + 0) * nchs + 0) * os + 0 ≡ nchs * luns * (os * m)
whole_line q luns nchs os m e = rw e (grind arith)

-- The offset goes up by one also where a channel, or a channel and a LUN, begin again.
pub next_lun :
    (q luns lun nchs ch os r : ℕ)
    → ch + 1 ≡ nchs
    → r + 1 ≡ os
    → ((q * luns + (lun + 1)) * nchs + 0) * os + 0 ≡ ((q * luns + lun) * nchs + ch) * os + r + 1
next_lun q luns lun nchs ch os r a b = rw (← a, ← b) (grind arith)

pub next_wordline :
    (q luns lun nchs ch os r : ℕ)
    → ch + 1 ≡ nchs
    → lun + 1 ≡ luns
    → r + 1 ≡ os
    → (((q + 1) * luns + 0) * nchs + 0) * os + 0 ≡ ((q * luns + lun) * nchs + ch) * os + r + 1
next_wordline q luns lun nchs ch os r a b c = rw (← a, ← b, ← c) (grind arith)
