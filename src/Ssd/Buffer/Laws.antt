-- ===== src/Ssd/Buffer/Laws.antt =====
-- About buffer_allocate and buffer_release of ssd.c.
use nvmevirt_pim.Base.{
  ℕ, ◌+◌, ◌^◌, ◌≤◌, ◌<◌, ◌≡◌, ltb, leb, Returns, normal, Bool-cases, inl, inr, true, ◌⊎◌, ◌↔◌, u32,
  refl, arith,
}
use nvmevirt_pim.Ssd.Buffer.{Buffer, buffer_allocate, buffer_release}

-- The free space is at most the size, which a `size_t` holds.
pub record IsBuffer (b : Buffer) : Type 0 where
  pub within : b.remaining ≤ b.size
  pub word : b.size < 2 ^ 64

-- What buffer_allocate gives for `size` bytes of `b`: all of them if they are free, none otherwise.
-- The result is the number of bytes taken exactly if a `uint32_t` holds it: the buffer has lost
-- `taken` bytes all the same.
pub record Allocated (b : Buffer) (size : ℕ) (r : ℕ × Buffer) : Type 0 where
  pub taken : ℕ
  pub all_or_nothing :
      ((size ≤ b.remaining) × (taken ≡ size)) ⊎ ((b.remaining < size) × (taken ≡ 0))
  pub result : r.0 ≡ u32 taken
  pub accounted : r.1.remaining + taken ≡ b.remaining
  pub size_same : r.1.size ≡ b.size
  pub returned : (buffer_release r.1 taken).remaining ≡ b.remaining
  pub told : ((buffer_release r.1 r.0).remaining ≡ b.remaining) ↔ (taken < 2 ^ 32)

-- An allocation of at most the size of a buffer, whose free space is within its size and whose
-- size is below 2 ^ 64, returns. It takes all that was asked if that much is free and nothing
-- otherwise, what it takes is missing from the free space, and giving that back restores the
-- free space. The result is what was taken, cut to 32 bits, and giving back the result
-- restores the free space exactly if less than 2 ^ 32 bytes were taken.
pub buffer_allocate-Allocated :
    (b : Buffer) (size : ℕ)
    → IsBuffer b
    → size ≤ b.size
    → Returns (Allocated b size) (buffer_allocate b size)
unfolding buffer_allocate buffer_release
buffer_allocate-Allocated b size v h =
    let allowed : leb size b.size ≡ true = ground arith in
    rw allowed (elim (Bool-cases (ltb b.remaining size)) [
      | inl short ↦ rw short (
          normal (record {
            taken = 0;
            all_or_nothing = inr (ground arith, refl);
            result = refl;
            accounted = omega arith;
            size_same = refl;
            returned = ground arith;
            told = (λ e. omega arith, λ h. ground arith);
          }))
      | inr free ↦ rw free (
          normal (record {
            taken = size;
            all_or_nothing = inl (ground arith, refl);
            result = refl;
            accounted = ground arith;
            size_same = refl;
            returned = ground arith;
            told = (λ e. ground arith, λ h. ground arith);
          }))
    ])
