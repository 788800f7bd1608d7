-- ===== src/Ssd/Channel.antt =====
-- The bandwidth model of channel_model.c and channel_model.h: a ring of time slots with credits.
pub mod Ends
use nvmevirt_pim.Base.{
  ℕ, zero, suc, ◌+◌, ◌-◌, ◌*◌, ◌/◌, ◌%◌, ltb, leb, ◌==◌, ◌&&◌, if◌then◌else◌, Run, ok, fault, bug,
  out_of_fuel, ◌>>=◌, ◌>>◌, divisor, u8, u32, u64, sub64, div_round_up,
}
use nvmevirt_pim.Ssd.Config.{mb}

abbrev pub nr_credit_entries : ℕ
nr_credit_entries = 1024 * 96

abbrev pub unit_time_interval : ℕ
unit_time_interval = 4000

abbrev pub unit_xfer_size : ℕ
unit_xfer_size = 128

abbrev pub unit_xfer_credits : ℕ
unit_xfer_credits = 1

-- The array `avail_credits` is a function of the index, below NR_CREDIT_ENTRIES.
pub record ChannelModel : Type 0 where
  pub cur_time : ℕ
  pub head : ℕ
  pub valid_len : ℕ
  pub max_credits : ℕ
  pub command_credits : ℕ
  pub xfer_lat : ℕ
  pub avail_credits : ℕ → ℕ

-- MEMSET of `length` entries from `start`: the value is cut to a credit_t.
unfoldable pub memset : (ℕ → ℕ) → ℕ → ℕ → ℕ → ℕ → ℕ
memset a start value length i = if leb start i && ltb i (start + length) then u8 value else a i

unfoldable pub bandwidth_to_tx_time : ℕ → ℕ
bandwidth_to_tx_time bandwidth = unit_xfer_size * 1_000_000_000 / mb bandwidth

unfoldable pub bandwidth_to_max_credits : ℕ → ℕ
bandwidth_to_max_credits bandwidth =
    mb bandwidth * unit_time_interval / 1_000_000_000 / unit_xfer_size * unit_xfer_credits

-- What the memory held before is `a`.
unfoldable pub chmodel_init : (ℕ → ℕ) → ℕ → ChannelModel
unfolding bandwidth_to_tx_time bandwidth_to_max_credits memset
chmodel_init a bandwidth = record {
  cur_time = 0;
  head = 0;
  valid_len = 0;
  max_credits = u32 (bandwidth_to_max_credits bandwidth);
  command_credits = 0;
  xfer_lat = u32 (bandwidth_to_tx_time bandwidth);
  avail_credits = memset a 0 (u32 (bandwidth_to_max_credits bandwidth)) nr_credit_entries;
}

-- How far `head` moves: the slots that have passed, at most those in use.
unfoldable pub cur_time_offs : ChannelModel → ℕ → ℕ
cur_time_offs ch now =
    let offs = u32 (sub64 (now / unit_time_interval) (ch.cur_time / unit_time_interval)) in
    if ltb offs ch.valid_len then offs else ch.valid_len

-- The first half of chmodel_request: the slots that have passed are given back, and the head
-- moves to the current time.
unfoldable pub advance_head : ChannelModel → ℕ → ChannelModel
unfolding cur_time_offs memset
advance_head ch now =
    let offs = cur_time_offs ch now in
    let wrapped =
      memset (memset ch.avail_credits ch.head ch.max_credits (nr_credit_entries - ch.head)) 0
        ch.max_credits (offs - (nr_credit_entries - ch.head)) in
    let straight = memset ch.avail_credits ch.head ch.max_credits offs in
    record ch {
      avail_credits = if leb nr_credit_entries (ch.head + offs) then wrapped else straight;
      head = (ch.head + offs) % nr_credit_entries;
      cur_time = now;
      valid_len = ch.valid_len - offs;
    }

-- What the loop of chmodel_request leaves.
pub record Taken : Type 0 where
  pub credits : ℕ → ℕ
  pub pos : ℕ
  pub delay : ℕ
  pub unserved : ℕ

unfoldable pub write_entry : (ℕ → ℕ) → ℕ → ℕ → ℕ → ℕ
write_entry a pos v i = if i == pos then v else a i

-- The `while (1)` loop: takes credits slot by slot from `pos`, until none are needed or the next
-- slot is the head.
unfoldable pub take_credits : ℕ → (head : ℕ) → (ℕ → ℕ) → (pos delay remaining : ℕ) → Run Taken
unfolding write_entry
take_credits zero head a pos delay remaining = fault out_of_fuel
take_credits (suc fuel) head a pos delay remaining =
    let consumed : ℕ = if leb remaining (a pos) then remaining else a pos in
    let left = remaining - consumed in
    let b = write_entry a pos (a pos - consumed) in
    let next_pos = (pos + 1) % nr_credit_entries in
    let done : Run Taken = ok (record { credits = b; pos = pos; delay = delay; unserved = left }) in
    let rest = take_credits fuel head b next_pos (delay + 1) left in
    if left == 0 then done else if next_pos == head then done else rest

-- How many slots from the head are in use up to `pos`.
unfoldable pub used_length : ℕ → ℕ → ℕ
used_length head pos = if leb head pos then pos - head + 1 else nr_credit_entries - (head - pos - 1)

-- The part of chmodel_request for a time that the ring covers, `offs` slots ahead.
unfoldable pub serve : ChannelModel → ℕ → ℕ → ℕ → Run (ℕ × ChannelModel)
serve ch request_time offs units = do
  let pos = (ch.head + offs) % nr_credit_entries
  let needed = u32 (u32 (units * unit_xfer_credits) + ch.command_credits)
  divisor ch.max_credits
  let default_delay = needed / ch.max_credits
  t ← take_credits nr_credit_entries ch.head ch.avail_credits pos 0 needed
  let used = used_length ch.head t.pos
  let delay : ℕ = if ltb default_delay t.delay then t.delay - default_delay else 0
  let latency = u64 (u32 (ch.xfer_lat * units) + delay * unit_time_interval)
  let valid_len : ℕ = if ltb ch.valid_len used then used else ch.valid_len
  ok (u64 (request_time + latency), record ch { avail_credits = t.credits; valid_len = valid_len })

-- chmodel_request at the wall-clock time `now`.
unfoldable pub chmodel_request : ChannelModel → ℕ → ℕ → ℕ → Run (ℕ × ChannelModel)
unfolding advance_head
chmodel_request old now request_time length =
    let units = u32 (div_round_up length unit_xfer_size) in
    let ch = advance_head old now in
    let offs = u32 (request_time / unit_time_interval - now / unit_time_interval) in
    let served = serve ch request_time offs units in
    if ltb nr_credit_entries ch.valid_len
    then fault bug
    else if ltb request_time now
    then ok (request_time, ch)
    else if leb nr_credit_entries offs
    then ok (request_time, ch)
    else served
