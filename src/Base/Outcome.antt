-- ===== src/Base/Outcome.antt =====
-- How a piece of kernel code ends.
use Prim.Native.Nat.{ℕ, zero, suc, ◌<◌}
use native.Mathlib.Omega.{arith}
use mathlib.Core.Path.{◌≡◌, refl, subst}
use nvmevirt_pim.Base.Tests.{if◌then◌else◌}
use mathlib.Core.Bool.{Bool, true, false}
use mathlib.Core.Option.{Option, none, some}

-- A failed NVMEV_ASSERT (BUG_ON); an access outside an array, a division by zero or a read of a
-- variable that was not set; the model's fuel running out.
pub data Fault : Type 0 where
  bug undefined out_of_fuel : Fault

pub data Run {ℓ} (A : Type ℓ) : Type ℓ where
  ok : A → Run A
  fault : Fault → Run A

infixl 5 ◌>>=◌ ◌>>◌
abbrev pub ◌>>=◌ {ℓ κ} : {A : Type ℓ} {B : Type κ} → Run A → (A → Run B) → Run B
fault e >>= next = fault e
ok a >>= next = next a

abbrev pub ◌>>◌ {ℓ} : {B : Type ℓ} → Run (Unit {0}) → Run B → Run B
m >> k = m >>= λ _. k

-- NVMEV_ASSERT.
abbrev pub assert : Bool → Run (Unit {0})
assert true = ok tt
assert false = fault bug

-- An array access.
abbrev pub entry {ℓ} : {A : Type ℓ} → Option A → Run A
entry (some a) = ok a
entry none = fault undefined

-- A division traps at the divisor 0.
abbrev pub divisor : ℕ → Run (Unit {0})
divisor zero = fault undefined
divisor (suc n) = ok tt

-- The ways to stop that the code has; and none at all.
pub data Stops : Fault → Type 0 where
  at_bug : Stops bug
  at_undefined : Stops undefined

pub data Never : Fault → Type 0 where

-- The run ends with a value that satisfies `P`, or at one of the faults `F`.
pub data Ends {ℓ κ} {A : Type ℓ} (F : Fault → Type 0) (P : A → Type κ) : Run A → Type (ℓ ⊔ κ) where
  stopped : {e : Fault} → F e → Ends F P (fault e)
  normal : {a : A} → P a → Ends F P (ok a)

-- The run does end: normally, with a value that satisfies `P`, or at a failed assertion or
-- undefined behaviour of the code. It never runs out of the model's fuel.
abbrev pub Ensures {ℓ κ} : {A : Type ℓ} → (A → Type κ) → Run A → Type (ℓ ⊔ κ)
Ensures = Ends Stops

-- The run ends normally, with a value that satisfies `P`.
abbrev pub Returns {ℓ κ} : {A : Type ℓ} → (A → Type κ) → Run A → Type (ℓ ⊔ κ)
Returns = Ends Never

module _ {ℓ} {A : Type ℓ} {F : Fault → Type 0} where
  pub Ends-if {κ} :
      {P : A → Type κ} {y n : Run A} (test : Bool)
      → (test ≡ true → Ends F P y)
      → (test ≡ false → Ends F P n)
      → Ends F P (if test then y else n)
  Ends-if false on_true on_false = on_false refl
  Ends-if true on_true on_false = on_true refl

  pub Ends-bind {κ ℓ' κ'} :
      {P : A → Type κ} {B : Type ℓ'} {Q : B → Type κ'} {m : Run A} {next : A → Run B}
      → Ends F P m
      → ((a : A) → P a → Ends F Q (next a))
      → Ends F Q (m >>= next)
  Ends-bind (stopped f) rest = stopped f
  Ends-bind (normal {a} p) rest = rest a p

  pub Ends-map {κ κ'} :
      {P : A → Type κ} {Q : A → Type κ'} {m : Run A}
      → Ends F P m
      → ((a : A) → P a → Q a)
      → Ends F Q m
  Ends-map (stopped f) weaker = stopped f
  Ends-map (normal {a} p) weaker = normal (weaker a p)

  pub Ends-value {κ} : {P : A → Type κ} {m : Run A} {a : A} → Ends F P m → m ≡ ok a → P a
  Ends-value (stopped f) e = absurd (cc e)
  Ends-value {P = P} (normal p) e = subst P (cc e) p

-- A bind on an array access, whose entry is kept with its equation.
pub Ensures-entry {ℓ ℓ' κ} :
    {A : Type ℓ} {B : Type ℓ'} {Q : B → Type κ} (o : Option A) {f : A → Run B}
    → ((a : A) → o ≡ some a → Ensures Q (f a))
    → Ensures Q (entry o >>= f)
Ensures-entry none k = stopped at_undefined
Ensures-entry (some a) k = k a refl

pub divisor-Ensures : (n : ℕ) → Ensures (λ _. Unit {0}) (divisor n)
divisor-Ensures zero = stopped at_undefined
divisor-Ensures (suc n) = normal tt

pub entry-Ensures {ℓ} : {A : Type ℓ} (o : Option A) → Ensures (λ a. o ≡ some a) (entry o)
entry-Ensures none = stopped at_undefined
entry-Ensures (some a) = normal refl

pub assert-Ensures : (b : Bool) → Ensures (λ _. b ≡ true) (assert b)
assert-Ensures true = normal refl
assert-Ensures false = stopped at_bug

pub Ensures-assert {ℓ κ} :
    {B : Type ℓ} {Q : B → Type κ} (b : Bool) {k : Run B}
    → (b ≡ true → Ensures Q k)
    → Ensures Q (assert b >> k)
Ensures-assert true h = h refl
Ensures-assert false h = stopped at_bug

-- A division in front of a run.
pub Ensures-divisor {ℓ κ} :
    {A : Type ℓ} {P : A → Type κ} (n : ℕ) {k : Run A}
    → (0 < n → Ensures P k)
    → Ensures P (divisor n >> k)
Ensures-divisor zero h = stopped at_undefined
Ensures-divisor (suc n) h = h (omega arith)

-- An assertion that holds, and a division by a number above 0, in front of a run.
module _ {ℓ κ} {A : Type ℓ} {F : Fault → Type 0} {P : A → Type κ} {k : Run A} where
  pub Ends-assert : (b : Bool) → b ≡ true → Ends F P k → Ends F P (assert b >> k)
  Ends-assert true h e = e
  Ends-assert false h e = absurd (cc h)

  pub Ends-divisor : (n : ℕ) → 0 < n → Ends F P k → Ends F P (divisor n >> k)
  Ends-divisor zero h e = absurd (omega arith)
  Ends-divisor (suc n) h e = e
