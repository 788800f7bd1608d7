-- ===== src/Ssd/Channel/Ends.antt =====
-- About chmodel_request of channel_model.c: its loop, its credits and its latency.
use nvmevirt_pim.Base.{
  ℕ, zero, suc, ◌+◌, ◌-◌, ◌/◌, ◌%◌, ◌≤◌, ◌<◌, ◌≡◌, ltb, leb, ◌==◌, if◌then◌else◌, Ensures, normal,
  stopped, at_bug, Ends-bind, Ends-if, divisor-Ensures, arith, u32, ◌^◌, ◌*◌, Ends-map, Bool-cases,
  inl, inr, sym, subst, u64, ap, ◌∙◌,
}
use native.Mathlib.Nat.{mod-lt, mod-eq_of_lt}
use nvmevirt_pim.Ssd.Channel.{
  nr_credit_entries, ChannelModel, Taken, advance_head, write_entry, take_credits, serve,
  chmodel_request, unit_xfer_credits, unit_time_interval,
}

in_ring : (n : ℕ) → n % nr_credit_entries < nr_credit_entries
in_ring n = let positive : 0 < nr_credit_entries = omega arith in mod-lt n positive

-- From `pos` on there are at most `fuel` slots up to the head, which is `pos` itself for a whole
-- turn.
record InReach (fuel head pos : ℕ) : Type 0 where
  head_in : head < nr_credit_entries
  pos_in : pos < nr_credit_entries
  turn : head ≤ pos → nr_credit_entries + head ≤ fuel + pos
  ahead : pos < head → head ≤ fuel + pos

-- What the loop leaves of the credits `a`: no slot has gained any, at most one slot of the ring
-- was taken per unit of delay, and what is not served was needed.
record Served (fuel : ℕ) (a : ℕ → ℕ) (delay remaining : ℕ) (t : Taken) : Type 0 where
  pos_in : t.pos < nr_credit_entries
  delay_within : t.delay < delay + fuel
  no_more : (i : ℕ) → t.credits i ≤ a i
  unserved_within : t.unserved ≤ remaining

write_entry-le : (a : ℕ → ℕ) (pos n i : ℕ) → write_entry a pos (a pos - n) i ≤ a i
unfolding write_entry
write_entry-le a pos n i = elim (Bool-cases (i == pos)) [
  | inl here ↦
      let e : i ≡ pos = ground arith in rw here (subst (λ j. a pos - n ≤ a j) (sym e) (omega arith))
  | inr there ↦ rw there (omega arith)
]

take_credits-ends :
    (fuel head : ℕ) (a : ℕ → ℕ) (pos delay remaining : ℕ)
    → InReach fuel head pos
    → Ensures (Served fuel a delay remaining) (take_credits fuel head a pos delay remaining)
unfolding take_credits
take_credits-ends zero head a pos delay remaining r = absurd (ground arith)
take_credits-ends (suc fuel) head a pos delay remaining r =
    let consumed : ℕ = if leb remaining (a pos) then remaining else a pos in
    let next_pos = (pos + 1) % nr_credit_entries in
    let last : Served (suc fuel) a delay remaining (record {
      credits = write_entry a pos (a pos - consumed);
      pos = pos;
      delay = delay;
      unserved = remaining - consumed;
    }) =
      record {
        pos_in = r.pos_in;
        delay_within = omega arith;
        no_more = write_entry-le a pos consumed;
        unserved_within = omega arith;
      } in
    Ends-if ((remaining - consumed) == 0) (λ _. normal last)
      λ _.
        Ends-if (next_pos == head) (λ _. normal last)
          λ other.
            Ends-map
              (take_credits-ends fuel head (write_entry a pos (a pos - consumed)) next_pos
                (delay + 1) (remaining - consumed)
                (record {
                  head_in = r.head_in;
                  pos_in = in_ring (pos + 1);
                  turn = λ h. ground arith;
                  ahead = λ h. ground arith;
                }))
              λ t s. record {
                pos_in = s.pos_in;
                delay_within = omega arith;
                no_more = λ i. omega (arith, s.no_more i, write_entry-le a pos consumed i);
                unserved_within = omega arith;
              }

-- The latency that one request can add: a `uint32_t`, and a turn of the ring.
abbrev pub max_latency : ℕ
max_latency = 2 ^ 32 + nr_credit_entries * unit_time_interval

-- What a request promises: it completes no earlier than it came and within `max_latency`, and
-- the ring is left with its head in range and no slot above the credits that `ch` had there.
pub record Scheduled (ch : ChannelModel) (request_time : ℕ) (r : ℕ × ChannelModel) : Type 0 where
  pub not_before : request_time ≤ r.0
  pub not_late : r.0 ≤ request_time + max_latency
  pub head_in : r.1.head < nr_credit_entries
  pub no_more : (i : ℕ) → r.1.avail_credits i ≤ ch.avail_credits i

-- The latency is below 2 ^ 64, and so is the completion time.
completion_exact :
    (request_time lat delay : ℕ)
    → request_time + max_latency < 2 ^ 64
    → delay < nr_credit_entries
    → u64 (request_time + u64 (u32 lat + delay * unit_time_interval))
      ≡ request_time + (u32 lat + delay * unit_time_interval)
completion_exact request_time lat delay w h =
    let two32 : 0 < 2 ^ 32 = omega arith in
    let word : u32 lat < 2 ^ 32 = mod-lt lat two32 in
    let inner : u64 (u32 lat + delay * unit_time_interval) ≡ u32 lat + delay * unit_time_interval =
      mod-eq_of_lt (omega arith) in
    ap (λ t. u64 (request_time + t)) inner ∙ mod-eq_of_lt (omega arith)

delay_left :
    (default_delay delay : ℕ)
    → delay < nr_credit_entries
    → (if ltb default_delay delay then delay - default_delay else 0) < nr_credit_entries
delay_left default_delay delay h = ground arith

module _ (ch : ChannelModel) (head_in : ch.head < nr_credit_entries) where
  whole_turn : (offs : ℕ) → InReach nr_credit_entries ch.head ((ch.head + offs) % nr_credit_entries)
  whole_turn offs = record {
    head_in = head_in;
    pos_in = in_ring (ch.head + offs);
    turn = λ h. omega (arith, head_in);
    ahead = λ h. omega (arith, head_in);
  }

  serve-Scheduled :
      (request_time offs units : ℕ)
      → request_time + max_latency < 2 ^ 64
      → Ensures (Scheduled ch request_time) (serve ch request_time offs units)
  unfolding serve
  serve-Scheduled request_time offs units w = Ends-bind (divisor-Ensures ch.max_credits) λ _ _.
      Ends-bind
        (take_credits-ends nr_credit_entries ch.head ch.avail_credits
          ((ch.head + offs) % nr_credit_entries) 0 _ (whole_turn offs))
        λ t s.
          let default_delay =
            u32 (u32 (units * unit_xfer_credits) + ch.command_credits) / ch.max_credits in
          let delay : ℕ = if ltb default_delay t.delay then t.delay - default_delay else 0 in
          let bound = delay_left default_delay t.delay s.delay_within in
          let exact = completion_exact request_time (ch.xfer_lat * units) delay w bound in
          let two32 : 0 < 2 ^ 32 = omega arith in
          let word = mod-lt (ch.xfer_lat * units) two32 in
          normal (record {
            not_before = subst (λ n. request_time ≤ n) (sym exact) (omega arith);
            not_late = subst (λ n. n ≤ request_time + max_latency) (sym exact) (omega arith);
            head_in = head_in;
            no_more = s.no_more;
          })

  unserved-Scheduled : (request_time : ℕ) → Scheduled ch request_time (request_time, ch)
  unserved-Scheduled request_time = record {
    not_before = omega arith;
    not_late = omega arith;
    head_in = head_in;
    no_more = λ i. omega arith;
  }

advance_head-in_ring :
    (ch : ChannelModel) (now : ℕ) → (advance_head ch now).head < nr_credit_entries
unfolding advance_head
advance_head-in_ring ch now = in_ring _

-- A request of the bandwidth model ends, if its time leaves room for the latency in 64 bits.
-- If it ends normally, it completes not before `request_time` and at most `max_latency` after
-- it, the head stays in the ring, and no slot has more credits than after the head was moved
-- to the current time.
pub chmodel_request-Scheduled :
    (ch : ChannelModel) (now request_time length : ℕ)
    → request_time + max_latency < 2 ^ 64
    → Ensures
        (Scheduled (advance_head ch now) request_time)
        (chmodel_request ch now request_time length)
unfolding chmodel_request
chmodel_request-Scheduled old now request_time length w =
    let ch = advance_head old now in
    let in_range = advance_head-in_ring old now in
    Ends-if (ltb nr_credit_entries ch.valid_len) (λ _. stopped at_bug)
      λ _.
        Ends-if (ltb request_time now) (λ _. normal (unserved-Scheduled ch in_range request_time))
          λ _.
            Ends-if
              (leb nr_credit_entries
                (u32 (request_time / unit_time_interval - now / unit_time_interval)))
              (λ _. normal (unserved-Scheduled ch in_range request_time))
              (λ _. serve-Scheduled ch in_range request_time _ _ w)

-- A request at any time ends.
pub chmodel_request-ends :
    (ch : ChannelModel) (now request_time length : ℕ)
    → Ensures (λ r. Unit {0}) (chmodel_request ch now request_time length)
unfolding chmodel_request serve
chmodel_request-ends old now request_time length =
    let ch = advance_head old now in
    let in_range = advance_head-in_ring old now in
    Ends-if (ltb nr_credit_entries ch.valid_len) (λ _. stopped at_bug)
      λ _.
        Ends-if (ltb request_time now) (λ _. normal tt)
          λ _.
            Ends-if
              (leb nr_credit_entries
                (u32 (request_time / unit_time_interval - now / unit_time_interval)))
              (λ _. normal tt)
              (λ _. Ends-bind (divisor-Ensures ch.max_credits) λ _ _.
                Ends-bind
                  (take_credits-ends nr_credit_entries ch.head ch.avail_credits _ 0 _
                    (whole_turn ch in_range _))
                  λ t _. normal tt)
