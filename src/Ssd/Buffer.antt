-- ===== src/Ssd/Buffer.antt =====
-- struct buffer of ssd.h and its operations in ssd.c. The spin lock makes each operation atomic,
-- so a run is a sequence of these steps.
pub mod Laws
use nvmevirt_pim.Base.{ℕ, ◌+◌, ◌-◌, ltb, leb, if◌then◌else◌, Run, ok, ◌>>◌, assert, u32, u64}

pub record Buffer : Type 0 where
  pub size : ℕ
  pub remaining : ℕ

unfoldable pub buffer_init : ℕ → Buffer
buffer_init size = record { size = size; remaining = size }

-- What is taken is the size, or 0; the result is that number cut to a `uint32_t`.
unfoldable pub buffer_allocate : Buffer → ℕ → Run (ℕ × Buffer)
buffer_allocate buf size = do
  assert (leb size buf.size)
  let taken : ℕ = if ltb buf.remaining size then 0 else size
  ok (u32 taken, record buf { remaining = buf.remaining - taken })

unfoldable pub buffer_release : Buffer → ℕ → Buffer
buffer_release buf size = record buf { remaining = u64 (buf.remaining + size) }

unfoldable pub buffer_refill : Buffer → Buffer
buffer_refill buf = record buf { remaining = buf.size }
