-- ===== src/Zns/Write/Refused.antt =====
-- About __zns_write of zns_read_write.c: writes that are refused or put off.
use nvmevirt_pim.Base.{
  ℕ, ◌+◌, ◌*◌, ◌^◌, ◌<◌, ◌∙◌, ap, sym, ◌-◌, ◌%◌, ◌≤◌, ◌≡◌, ◌≢◌, inl, inr, refl, true, false, ltb,
  leb, ◌==◌, get_elem?, get_elem?-set, lt-of_get_elem?, some, Bool-cases, arith, Returns, normal,
  u32,
}
use nvmevirt_pim.Ssd.Buffer.{Buffer, buffer_allocate}
use nvmevirt_pim.Zns.Sc
use nvmevirt_pim.Zns.State.{
  ZoneDescriptor, ZnsFtl, Opcode, Request, Result, descriptor, get_buffer, set_buffer, zone_buffer,
  nr_lbas_from_rw_cmd,
}
use native.Mathlib.Nat.{add-zero, mod-eq_of_lt}
use nvmevirt_pim.Zns.Address.Laws.{lba_to_zone-zone_to_slba}
use nvmevirt_pim.Zns.Address.{lba_to_zone, check_boundary_error, zone_to_slba, lbas_per_zone}
use nvmevirt_pim.Zns.Write.{
  refused, admit, lba_to_byte, write_buffer_of, complete, place, decide_write, zns_write_plain,
}

admit-refuses :
    (z : ZnsFtl) (zid : ℕ) (d : ZoneDescriptor) (slba nr_lba : ℕ)
    → slba ≢ d.wp
    → (status : ℕ) × (admit z zid d slba nr_lba ≡ refused status z) × (status ≢ Sc.success)
unfolding admit
admit-refuses z zid d slba nr_lba h =
    let elsewhere : (slba == d.wp) ≡ false = ground arith in
    elim (Bool-cases ((lba_to_byte nr_lba % z.ssd.sp.write_unit_size) == 0)) [
      | inl aligned ↦ elim (Bool-cases (check_boundary_error z slba nr_lba)) [
        | inl inside ↦ (Sc.zns_invalid_write, rw (aligned, inside, elsewhere) refl, omega arith)
        | inr outside ↦ (Sc.zns_err_boundary, rw (aligned, outside) refl, omega arith)
      ]
      | inr unaligned ↦ (Sc.zns_invalid_write, rw unaligned refl, omega arith)
    ]

-- A write to an existing zone with a buffer of its own, with room for the bytes and no more
-- free space than its size, that does not start at the write pointer, returns with an error
-- status. The buffer has lost the bytes of the write, and no release of them is scheduled.
pub zns_write_plain-refused :
    (cpu_clock : ℕ → ℕ) (z : ZnsFtl) (req : Request) (ret : Result) (d : ZoneDescriptor)
    (b : Buffer)
    → get_elem? z.zone_descs (lba_to_zone z req.slba) ≡ some d
    → get_elem? z.zone_write_buffer (lba_to_zone z req.slba) ≡ some b
    → z.zp.zone_wb_size ≢ 0
    → req.opcode ≡ Opcode.write
    → lba_to_byte (nr_lbas_from_rw_cmd req) ≤ b.remaining
    → b.remaining ≤ b.size
    → req.slba ≢ d.wp
    → Returns
        (λ r.
          (r.done ≡ true)
          × (r.ret.status ≢ Sc.success)
          × (get_elem? r.ftl.zone_write_buffer (lba_to_zone z req.slba)
              ≡ some (record b { remaining = b.remaining - lba_to_byte (nr_lbas_from_rw_cmd req) }))
          × (r.ftl.scheduled ≡ z.scheduled))
        (zns_write_plain cpu_clock z req ret)
unfolding zns_write_plain descriptor place write_buffer_of get_buffer set_buffer buffer_allocate
    decide_write complete
zns_write_plain-refused cpu_clock z req ret d b at bat wb op free within h =
    let zid = lba_to_zone z req.slba in
    let bytes = lba_to_byte (nr_lbas_from_rw_cmd req) in
    let b' : Buffer = record b { remaining = b.remaining - bytes } in
    let own : (z.zp.zone_wb_size == 0) ≡ false = ground arith in
    let fits : leb bytes b.size ≡ true = ground arith in
    let room : ltb b.remaining bytes ≡ false = ground arith in
    let word : u32 bytes ≡ bytes = mod-eq_of_lt (omega arith) in
    let all : ltb bytes bytes ≡ false = ground arith in
    let (status, refusal, bad) =
      admit-refuses (set_buffer z (zone_buffer zid) b') zid d req.slba (nr_lbas_from_rw_cmd req)
        h in
    rw (at, op, own, bat, fits, room, word, all, refusal)
      (normal (
        refl,
        bad,
        ground (
          arith,
          get_elem?-set z.zone_write_buffer zid zid b'
              (lt-of_get_elem? z.zone_write_buffer zid bat),
        ),
        refl,
      ))

-- An append to an existing zone with a buffer of its own, which holds the bytes but has no
-- room for them, in a zone whose write pointer is at its end (below 2 ^ 32, and zones are not
-- empty), returns to be tried again, as an append that addresses the next zone.
pub append-moves_on :
    (cpu_clock : ℕ → ℕ) (z : ZnsFtl) (req : Request) (ret : Result) (d : ZoneDescriptor)
    (b : Buffer)
    → get_elem? z.zone_descs (lba_to_zone z req.slba) ≡ some d
    → get_elem? z.zone_write_buffer (lba_to_zone z req.slba) ≡ some b
    → z.zp.zone_wb_size ≢ 0
    → req.opcode ≡ Opcode.zone_append
    → b.remaining < lba_to_byte (nr_lbas_from_rw_cmd req)
    → lba_to_byte (nr_lbas_from_rw_cmd req) ≤ b.size
    → d.wp ≡ zone_to_slba z (lba_to_zone z req.slba + 1)
    → 0 < lbas_per_zone z
    → (lba_to_zone z req.slba + 1) * lbas_per_zone z < 2 ^ 32
    → Returns
        (λ r.
          (r.done ≡ false)
          × (r.req.opcode ≡ Opcode.zone_append)
          × (lba_to_zone z r.req.slba ≡ lba_to_zone z req.slba + 1))
        (zns_write_plain cpu_clock z req ret)
unfolding zns_write_plain descriptor place write_buffer_of get_buffer buffer_allocate
append-moves_on cpu_clock z req ret d b at bat wb op short within end pos w =
    let zid = lba_to_zone z req.slba in
    let bytes = lba_to_byte (nr_lbas_from_rw_cmd req) in
    let own : (z.zp.zone_wb_size == 0) ≡ false = ground arith in
    let fits : leb bytes b.size ≡ true = ground arith in
    let lack : ltb b.remaining bytes ≡ true = ground arith in
    let nothing : ltb 0 bytes ≡ true = ground arith in
    let next_zone : lba_to_zone z d.wp ≡ zid + 1 =
      ap (lba_to_zone z) (end ∙ sym (add-zero (zone_to_slba z (zid + 1))))
      ∙ lba_to_zone-zone_to_slba z (zid + 1) 0 pos w in
    rw (at, op, own, bat, fits, lack, nothing) (normal (refl, refl, next_zone))
