-- ===== src/Zns/Recv.antt =====
-- Reporting zones: zns_mgmt_recv.c. A page of the host's memory has 4096 bytes.
pub mod Walk
pub mod Overruns
pub mod Ends
use nvmevirt_pim.Base.{
  ℕ, zero, suc, ◌+◌, ◌-◌, ◌*◌, ◌/◌, ◌%◌, min, Bool, true, false, ltb, leb, ◌==◌, if◌then◌else◌, not,
  ◌||◌, List, [], ◌∷◌, take, drop, length, Run, ok, fault, undefined, out_of_fuel, ◌>>=◌, u32,
  sub64,
}
use nvmevirt_pim.Zns.Sc
use nvmevirt_pim.Zns.State.{ZoneDescriptor, ZnsFtl}
use nvmevirt_pim.Zns.Address.{lba_to_zone}

-- The fields of struct nvme_zone_mgmt_recv that the code reads; `partial` is the bit
-- zra_specific_features.
pub record RecvCmd : Type 0 where
  pub slba : ℕ
  pub nr_dw : ℕ
  pub zra : ℕ
  pub zra_specific_field : ℕ
  pub partial : Bool
  pub prp1 : ℕ
  pub prp2 : ℕ

pub record ZoneReport : Type 0 where
  pub nr_zones : ℕ
  pub zd : List ZoneDescriptor

-- One memcpy of a transfer: `io_size` bytes between the buffer at `offset` and the host's page
-- `paddr` at `mem_offs`.
pub record Chunk : Type 0 where
  pub paddr : ℕ
  pub mem_offs : ℕ
  pub offset : ℕ
  pub io_size : ℕ

abbrev pub page_size : ℕ
page_size = 4096

-- How many bytes go through the page at `paddr`.
unfoldable pub chunk_size : (paddr remaining : ℕ) → ℕ
chunk_size paddr remaining =
    let io_size = min remaining page_size in
    let mem_offs = paddr % page_size in
    if ltb page_size (io_size + mem_offs) then page_size - mem_offs else io_size

-- Entry `i` of the list at prp2. The code maps the page that prp2 points into, and no other: an
-- entry behind the end of that page is outside the mapping.
unfoldable pub list_entry : (prp2 : ℕ) (prp_list : ℕ → ℕ) (i : ℕ) → Run ℕ
list_entry prp2 prp_list i =
    if leb (prp2 % page_size + 8 * (i + 1)) page_size then ok (prp_list i) else fault undefined

-- Where the next page's address comes from: prp1, then prp2 or the list that prp2 points to
-- (`prp_list`), then the list. `have_list` tells that the list was mapped; otherwise the pointer
-- is NULL. The result is the address, the next index into the list, and `have_list`.
unfoldable pub next_prp :
    (prp1 prp2 : ℕ) (prp_list : ℕ → ℕ) (prp_offs prp2_offs : ℕ) (have_list : Bool) (remaining : ℕ)
    → Run (ℕ × ℕ × Bool)
unfolding list_entry
next_prp prp1 prp2 prp_list prp_offs prp2_offs have_list remaining =
    let listed : Run (ℕ × ℕ × Bool) = do
      paddr ← list_entry prp2 prp_list prp2_offs
      ok (paddr, prp2_offs + 1, true)
    in if prp_offs == 1
      then ok (prp1, prp2_offs, have_list)
      else if prp_offs == 2
      then if ltb page_size remaining then listed else ok (prp2, prp2_offs, have_list)
      else if have_list
      then listed
      else fault undefined

-- The loop of __prp_transfer_data, as the list of its copies.
unfoldable pub prp_walk :
    (fuel prp1 prp2 : ℕ) (prp_list : ℕ → ℕ) (prp_offs prp2_offs : ℕ) (have_list : Bool)
    (offset remaining : ℕ)
    → Run (List Chunk)
unfolding next_prp chunk_size
prp_walk zero prp1 prp2 prp_list prp_offs prp2_offs have_list offset remaining = fault out_of_fuel
prp_walk (suc fuel) prp1 prp2 prp_list prp_offs prp2_offs have_list offset remaining =
    let rest : Run (List Chunk) = do
      (paddr, prp2_offs', have_list') ←
          next_prp prp1 prp2 prp_list (prp_offs + 1) prp2_offs have_list remaining
      let size = chunk_size paddr remaining
      chunks ←
          prp_walk fuel prp1 prp2 prp_list (prp_offs + 1) prp2_offs' have_list' (offset + size)
            (remaining - size)
      ok (
          record { paddr = paddr; mem_offs = paddr % page_size; offset = offset; io_size = size }
          ∷ chunks)
    in if remaining == 0 then ok [] else rest

-- __prp_transfer_data.
unfoldable pub prp_transfer_data : (prp1 prp2 : ℕ) → (ℕ → ℕ) → ℕ → Run (List Chunk)
unfolding prp_walk
prp_transfer_data prp1 prp2 prp_list size = prp_walk (size + 1) prp1 prp2 prp_list 0 0 false 0 size

-- The bytes that the host asked for.
unfoldable pub bytes_transfer : RecvCmd → ℕ
bytes_transfer cmd = u32 (cmd.nr_dw + 1) * 4

-- How many zones the report holds; a zone_descriptor has 64 bytes.
unfoldable pub nr_zone_to_report : ZnsFtl → RecvCmd → ℕ
unfolding lba_to_zone bytes_transfer
nr_zone_to_report z cmd =
    let rest = sub64 z.zp.nr_zones (lba_to_zone z cmd.slba) in
    let asked = if cmd.partial then sub64 (bytes_transfer cmd / 64) 1 else rest in
    if ltb rest asked then rest else asked

-- __fill_zone_report. A copy past the end of zone_descs is undefined.
unfoldable pub fill_zone_report : ZnsFtl → RecvCmd → Run ZoneReport
unfolding nr_zone_to_report lba_to_zone
fill_zone_report z cmd =
    let start_zid = lba_to_zone z cmd.slba in
    let n = nr_zone_to_report z cmd in
    let report : ZoneReport = record { nr_zones = n; zd = take n (drop start_zid z.zone_descs) } in
    if leb (start_zid + n) (length z.zone_descs) then ok report else fault undefined

-- __check_zmgmt_rcv_option_supported.
unfoldable pub option_supported : ZnsFtl → RecvCmd → Bool
unfolding lba_to_zone
option_supported z cmd =
    if leb z.zp.nr_zones (lba_to_zone z cmd.slba)
    then false
    else if not (cmd.zra == 0)
    then false
    else cmd.zra_specific_field == 0

-- What kmalloc was asked for in __init_descriptor: sizeof(struct zone_report), which holds one
-- descriptor already, and a descriptor for each zone.
unfoldable pub report_buffer_size : ZnsFtl → ℕ
report_buffer_size z = 128 + 64 * z.zp.nr_zones

-- What zns_zmgmt_recv does: its status and, if it reports, the report and the copies to the host.
pub record Recv : Type 0 where
  pub status : ℕ
  pub report : List ZoneReport
  pub copies : List Chunk

-- A copy past the end of report_buffer is undefined.
unfoldable pub zns_zmgmt_recv : ZnsFtl → RecvCmd → (ℕ → ℕ) → Run Recv
unfolding option_supported fill_zone_report prp_transfer_data bytes_transfer report_buffer_size
zns_zmgmt_recv z cmd prp_list =
    let sent = prp_transfer_data cmd.prp1 cmd.prp2 prp_list (bytes_transfer cmd) in
    let answer : Run Recv = do
      report ← fill_zone_report z cmd
      copies ← if leb (bytes_transfer cmd) (report_buffer_size z) then sent else fault undefined
      ok (record { status = Sc.success; report = report ∷ []; copies = copies })
    in if option_supported z cmd
      then answer
      else ok (record { status = Sc.invalid_field; report = []; copies = [] })
