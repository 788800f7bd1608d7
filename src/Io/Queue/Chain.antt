-- ===== src/Io/Queue/Chain.antt =====
-- About chains of entries: a list of indices, from the last entry of the work queue to its first.
use nvmevirt_pim.Base.{
  ℕ, ◌≡◌, ◌≢◌, ◌<◌, refl, sym, ◌∙◌, List, [], ◌∷◌, Bool, if◌then◌else◌, Bool-cases, inl, inr, arith,
  subst,
}
use nvmevirt_pim.Io.Queue.{IoWork, nil, nr_max_parallel_io}

-- The first index of a list, and the last one: `nil` and `a` where there is none.
abbrev pub first : List ℕ → ℕ
first [] = nil
first (x ∷ xs) = x

abbrev pub final : ℕ → List ℕ → ℕ
final a [] = a
final a (x ∷ xs) = final x xs

-- The entries are chained, with `a` behind them.
unfoldable pub Chained : (ℕ → IoWork) → (a : ℕ) → List ℕ → Type 0
Chained w a [] = Unit {0}
Chained w a (x ∷ xs) = ((w x).next ≡ a) × ((w x).prev ≡ first xs) × Chained w x xs

-- `x` is none of the entries; and no entry occurs twice or is out of the array.
unfoldable pub Fresh : ℕ → List ℕ → Type 0
Fresh x [] = Unit {0}
Fresh x (y ∷ ys) = (x ≢ y) × Fresh x ys

unfoldable pub Distinct : List ℕ → Type 0
unfolding Fresh
Distinct [] = Unit {0}
Distinct (x ∷ xs) = (x < nr_max_parallel_io) × Fresh x xs × Distinct xs

pub Fresh-nil : (xs : List ℕ) → Distinct xs → Fresh nil xs
unfolding Fresh Distinct
Fresh-nil [] d = tt
Fresh-nil (x ∷ xs) (b, f, d) = (λ e. absurd (ground arith), Fresh-nil xs d)

pub final-lt :
    (a : ℕ) (xs : List ℕ) → a < nr_max_parallel_io → Distinct xs → final a xs < nr_max_parallel_io
unfolding Distinct
final-lt a [] h d = h
final-lt a (x ∷ xs) h (b, f, d) = final-lt x xs b d

-- What the links are after an insertion, for `n` behind the entry and `c` before it.
pub record Spliced (w w' : ℕ → IoWork) (entry n c : ℕ) : Type 0 where
  pub own_next : (w' entry).next ≡ n
  pub own_prev : (w' entry).prev ≡ c
  pub next_prev : n ≢ nil → (w' n).prev ≡ entry
  pub prev_next : c ≢ nil → (w' c).next ≡ entry
  pub other_prev : (x : ℕ) → x ≢ entry → x ≢ n → (w' x).prev ≡ (w x).prev
  pub other_next : (x : ℕ) → x ≢ entry → x ≢ c → (w' x).next ≡ (w x).next

pub Spliced-of_eq :
    {w w' : ℕ → IoWork} {entry n n' c c' : ℕ}
    → n ≡ n'
    → c ≡ c'
    → Spliced w w' entry n c
    → Spliced w w' entry n' c'
Spliced-of_eq {w} {w'} {entry} {n' = n'} {c = c} en ec s =
    subst (λ k. Spliced w w' entry n' k) ec (subst (λ k. Spliced w w' entry k c) en s)

module _ (stays : ℕ → Bool) where
  -- The entry is put behind the last of the entries that stay before it.
  unfoldable pub inserted : (entry : ℕ) → List ℕ → List ℕ
  inserted entry [] = entry ∷ []
  inserted entry (x ∷ xs) = if stays x then entry ∷ x ∷ xs else x ∷ inserted entry xs

  -- That last entry, and the one behind it.
  unfoldable pub splice_point : List ℕ → ℕ
  splice_point [] = nil
  splice_point (x ∷ xs) = if stays x then x else splice_point xs

  unfoldable pub behind : (a : ℕ) → List ℕ → ℕ
  behind a [] = a
  behind a (x ∷ xs) = if stays x then a else behind x xs

  pub Fresh-splice_point : (x : ℕ) (xs : List ℕ) → x ≢ nil → Fresh x xs → x ≢ splice_point xs
  unfolding Fresh splice_point
  Fresh-splice_point x [] n f = n
  Fresh-splice_point x (y ∷ ys) n (f, fs) = elim (Bool-cases (stays y)) [
    | inl here ↦ rw here f
    | inr there ↦ rw there (Fresh-splice_point x ys n fs)
  ]

  pub Fresh-behind : (x a : ℕ) (xs : List ℕ) → x ≢ a → Fresh x xs → x ≢ behind a xs
  unfolding Fresh behind
  Fresh-behind x a [] n f = n
  Fresh-behind x a (y ∷ ys) n (f, fs) = elim (Bool-cases (stays y)) [
    | inl here ↦ rw here n
    | inr there ↦ rw there (Fresh-behind x y ys f fs)
  ]

  pub splice_point-lt :
      (xs : List ℕ) → Distinct xs → splice_point xs ≢ nil → splice_point xs < nr_max_parallel_io
  unfolding Distinct splice_point
  splice_point-lt [] d n = absurd (n refl)
  splice_point-lt (x ∷ xs) (b, f, d) n = elim (Bool-cases (stays x)) [
    | inl here ↦ rw here b
    | inr there ↦ rw there (splice_point-lt xs d (λ e. n (rw there e)))
  ]

  pub behind-lt :
      (a : ℕ) (xs : List ℕ)
      → a < nr_max_parallel_io
      → Distinct xs
      → behind a xs < nr_max_parallel_io
  unfolding Distinct behind
  behind-lt a [] h d = h
  behind-lt a (x ∷ xs) h (b, f, d) = elim (Bool-cases (stays x)) [
    | inl here ↦ rw here h
    | inr there ↦ rw there (behind-lt x xs b d)
  ]

  -- Behind the place stands what its link says.
  pub next-splice_point :
      (w : ℕ → IoWork) (a : ℕ) (xs : List ℕ)
      → Chained w a xs
      → splice_point xs ≢ nil
      → (w (splice_point xs)).next ≡ behind a xs
  unfolding Chained splice_point behind
  next-splice_point w a [] h n = absurd (n refl)
  next-splice_point w a (x ∷ xs) (hn, hp, h) n = elim (Bool-cases (stays x)) [
    | inl here ↦ rw here hn
    | inr there ↦ rw there (next-splice_point w x xs h (λ e. n (rw there e)))
  ]

  -- Where no entry stays before it, the new entry is the first one; otherwise the first one stays.
  pub final-behind :
      (a : ℕ) (xs : List ℕ) → Distinct xs → splice_point xs ≡ nil → behind a xs ≡ final a xs
  unfolding Distinct splice_point behind
  final-behind a [] d e = refl
  final-behind a (x ∷ xs) (b, f, d) e = elim (Bool-cases (stays x)) [
    | inl here ↦ let at_x : x ≡ nil = sym (rw here refl) ∙ e in absurd (ground arith)
    | inr there ↦ rw there (final-behind x xs d (sym (rw there refl) ∙ e))
  ]

  pub final-inserted_head :
      (entry a : ℕ) (xs : List ℕ)
      → Distinct xs
      → splice_point xs ≡ nil
      → final a (inserted entry xs) ≡ entry
  unfolding Distinct splice_point inserted
  final-inserted_head entry a [] d e = refl
  final-inserted_head entry a (x ∷ xs) (b, f, d) e = elim (Bool-cases (stays x)) [
    | inl here ↦ let at_x : x ≡ nil = sym (rw here refl) ∙ e in absurd (ground arith)
    | inr there ↦ rw there (final-inserted_head entry x xs d (sym (rw there refl) ∙ e))
  ]

  pub final-inserted :
      (entry a : ℕ) (xs : List ℕ) → splice_point xs ≢ nil → final a (inserted entry xs) ≡ final a xs
  unfolding splice_point inserted
  final-inserted entry a [] n = absurd (n refl)
  final-inserted entry a (x ∷ xs) n = elim (Bool-cases (stays x)) [
    | inl here ↦ rw here refl
    | inr there ↦ rw there (final-inserted entry x xs (λ e. n (rw there e)))
  ]

  Fresh-inserted :
      (entry y : ℕ) (xs : List ℕ) → y ≢ entry → Fresh y xs → Fresh y (inserted entry xs)
  unfolding Fresh inserted
  Fresh-inserted entry y [] n f = (n, tt)
  Fresh-inserted entry y (x ∷ xs) n (yx, f) = elim (Bool-cases (stays x)) [
    | inl here ↦ rw here (n, (yx, f))
    | inr there ↦ rw there (yx, Fresh-inserted entry y xs n f)
  ]

  pub Distinct-inserted :
      (entry : ℕ) (xs : List ℕ)
      → entry < nr_max_parallel_io
      → Fresh entry xs
      → Distinct xs
      → Distinct (inserted entry xs)
  unfolding Fresh Distinct inserted
  Distinct-inserted entry [] h f d = (h, tt, tt)
  Distinct-inserted entry (x ∷ xs) h (ex, f) (b, fx, d) = elim (Bool-cases (stays x)) [
    | inl here ↦ rw here (h, (ex, f), (b, fx, d))
    | inr there ↦
        rw there
          (b, Fresh-inserted entry x xs (λ e. ex (sym e)) fx, Distinct-inserted entry xs h f d)
  ]

  module _ (w w' : ℕ → IoWork) (entry : ℕ) where
    -- Entries away from the place keep their links.
    Chained-frame :
        (n c a : ℕ) (xs : List ℕ)
        → Spliced w w' entry n c
        → Fresh entry xs
        → Fresh n xs
        → Fresh c xs
        → Chained w a xs
        → Chained w' a xs
    unfolding Chained Fresh
    Chained-frame n c a [] s fe fn fc h = tt
    Chained-frame n c a (x ∷ xs) s (e, fe) (n', fn) (c', fc) (hn, hp, h) = (
      s.other_next x (λ q. e (sym q)) (λ q. c' (sym q)) ∙ hn,
      s.other_prev x (λ q. e (sym q)) (λ q. n' (sym q)) ∙ hp,
      Chained-frame n c x xs s fe fn fc h,
    )

    Chained-here :
        (a x : ℕ) (xs : List ℕ)
        → Spliced w w' entry a x
        → Fresh entry (x ∷ xs)
        → Fresh a (x ∷ xs)
        → Distinct (x ∷ xs)
        → Chained w a (x ∷ xs)
        → Chained w' a (entry ∷ x ∷ xs)
    unfolding Chained Fresh Distinct
    Chained-here a x xs s (e, fe) (ax, fa) (b, fx, d) (hn, hp, h) = (
      s.own_next,
      s.own_prev,
      (
        s.prev_next (λ q. absurd (ground arith)),
        s.other_prev x (λ q. e (sym q)) (λ q. ax (sym q)) ∙ hp,
        Chained-frame a x x xs s fe fa fx h,
      ),
    )

    prev-inserted :
        (x : ℕ) (xs : List ℕ)
        → Spliced w w' entry (behind x xs) (splice_point xs)
        → x ≢ entry
        → x ≢ nil
        → Fresh x xs
        → Distinct xs
        → (w x).prev ≡ first xs
        → (w' x).prev ≡ first (inserted entry xs)
    unfolding Fresh Distinct inserted behind splice_point
    prev-inserted x [] s e n f d h = s.next_prev n
    prev-inserted x (y ∷ ys) s e n (xy, f) (b, fy, d) h = elim (Bool-cases (stays y)) [
      | inl here ↦
          let at_x : behind x (y ∷ ys) ≡ x = rw here refl in
          let s' : Spliced w w' entry x (splice_point (y ∷ ys)) = Spliced-of_eq at_x refl s in
          rw here (s'.next_prev n)
      | inr there ↦
          let later : behind x (y ∷ ys) ≡ behind y ys = rw there refl in
          let s' : Spliced w w' entry (behind y ys) (splice_point (y ∷ ys)) =
            Spliced-of_eq later refl s in
          rw there (s'.other_prev x e (Fresh-behind x y ys xy f) ∙ h)
    ]

    pub Chained-inserted :
        (a : ℕ) (xs : List ℕ)
        → Spliced w w' entry (behind a xs) (splice_point xs)
        → Fresh entry xs
        → Fresh a xs
        → Distinct xs
        → Chained w a xs
        → Chained w' a (inserted entry xs)
    unfolding Chained Fresh Distinct inserted behind splice_point
    Chained-inserted a [] s fe fa d h = (s.own_next, s.own_prev, tt)
    Chained-inserted a (x ∷ xs) s (e, fe) (ax, fa) (b, fx, d) (hn, hp, h) =
        let x_nil : x ≢ nil = λ q. absurd (ground arith) in
        elim (Bool-cases (stays x)) [
          | inl here ↦
              let eb : behind a (x ∷ xs) ≡ a = rw here refl in
              let ep : splice_point (x ∷ xs) ≡ x = rw here refl in
              rw here (
                Chained-here a x xs (Spliced-of_eq eb ep s) (e, fe) (ax, fa) (b, fx, d) (hn, hp, h))
          | inr there ↦
              let eb : behind a (x ∷ xs) ≡ behind x xs = rw there refl in
              let ep : splice_point (x ∷ xs) ≡ splice_point xs = rw there refl in
              let s' : Spliced w w' entry (behind x xs) (splice_point xs) = Spliced-of_eq eb ep s in
              rw there (
                s'.other_next x (λ q. e (sym q)) (Fresh-splice_point x xs x_nil fx) ∙ hn,
                prev-inserted x xs s' (λ q. e (sym q)) x_nil fx d hp,
                Chained-inserted x xs s' fe fx d h,
              )
        ]
