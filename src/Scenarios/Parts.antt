-- ===== src/Scenarios/Parts.antt =====
-- A small namespace of the page-mapping FTL, and its theorems applied to it.
use nvmevirt_pim.Base.{
  ℕ, ◌+◌, ◌*◌, ◌/◌, ◌%◌, ◌^◌, ◌==◌, ◌&&◌, not, Bool-cases, inl, inr, ◌<◌, ◌≡◌, refl, true, false,
  ltb, if◌then◌else◌, List, [], ◌∷◌, Option, some, none, ok, fault, ◌>>=◌, Ensures, Returns,
  Ends-value, arith,
}
use nvmevirt_pim.Ssd.Config.{SsdConfig, samsung_970pro, kb}
use nvmevirt_pim.Ssd.Params.{SsdParams, fill_params, ssd_init_params}
use nvmevirt_pim.Ssd.Nand.{Ppa}
use nvmevirt_pim.Ssd.Nand.Ops.{ssd_init}
use nvmevirt_pim.Zns.State.{Opcode, Request, Result}
use nvmevirt_pim.Conv.State.{
  Line, WritePointer, ConvFtl, VictimQueue, free, invalid, valid, unmapped_ppa,
}
use nvmevirt_pim.Conv.Geometry.{IsGeometry}
use nvmevirt_pim.Conv.Namespace.{ConvNamespace, init_parts, conv_init_namespace}
use nvmevirt_pim.Conv.Namespace.Parts.{AllMapped, has_page}
use nvmevirt_pim.Conv.Init.{conv_init_params, conv_init_ftl}
use nvmevirt_pim.Conv.Lines.{init_lines, get_next_free_line}
use nvmevirt_pim.Conv.Pointer.{prepare_write_pointer}
use nvmevirt_pim.Ssd.Channel.{chmodel_init}
use nvmevirt_pim.Ssd.Buffer.{buffer_init}
use nvmevirt_pim.Conv.Map.{mapped_ppa, valid_ppa, page_index}
use nvmevirt_pim.Conv.Pointer.{next_page}
use nvmevirt_pim.Conv.Pointer.Order.{Advances, next_page-Advances}
use nvmevirt_pim.Conv.Consistent.{Tables, remap, remap-Consistent, remap-Owned}
use nvmevirt_pim.Conv.Gc.{do_gc}
use nvmevirt_pim.Conv.Gc.Moves.{IsMapped, Preserves}
use nvmevirt_pim.Conv.Gc.Safe.{do_gc-Preserves}
use nvmevirt_pim.Conv.Write.{conv_write}
use nvmevirt_pim.Conv.Write.Covers.{WriteEnds, conv_write-WriteEnds}
use nvmevirt_pim.Conv.Command.{write_cmd, read_cmd, flush_cmd}
use nvmevirt_pim.Conv.Command.Keeps.{
  Submission, CommandEnds, conv_history, conv_history-CommandEnds,
}
use nvmevirt_pim.Conv.Command.Apart.{NoSharing, conv_history-NoSharing}
use nvmevirt_pim.Conv.Init.Starts.{conv_init_namespace-starts}

-- An SSD of two channels in two parts, with four blocks of eight pages in each of two LUNs.
abbrev config : SsdConfig
config = record samsung_970pro {
  nand_channels = 2;
  blks_per_pln = 4;
  flash_page_size = kb 8;
  oneshot_page_size = kb 16;
}

abbrev spp : SsdParams
unfolding fill_params
spp = fill_params config 1 4 (kb 32)

spp-IsGeometry : IsGeometry spp
unfolding spp
spp-IsGeometry = record {
  pl_pages = refl;
  lun_pages = refl;
  ch_pages = refl;
  lun_blks = refl;
  ch_blks = refl;
  blk_flashpgs = refl;
  flashpg_pos = omega arith;
  pls_pos = omega arith;
  xfer_pos = omega arith;
  oneshot_pos = omega arith;
  blk_oneshots = refl;
  line_pages = refl;
  secs_large = omega arith;
  pg_bits = omega arith;
  blk_bits = omega arith;
  lun_bits = omega arith;
  ch_bits = omega arith;
}

params : ssd_init_params config (kb 512) 2 ≡ ok spp
unfolding spp ssd_init_params
params = refl

-- A queue of victims that is a list with the lines of few valid pages in front.
enqueue : (ℕ → Line) → ℕ → List ℕ → List ℕ
enqueue lines id [] = id ∷ []
enqueue lines id (x ∷ xs) =
    if ltb (lines x).vpc (lines id).vpc then x ∷ enqueue lines id xs else id ∷ x ∷ xs

dequeue : ℕ → List ℕ → List ℕ
dequeue id [] = []
dequeue id (x ∷ xs) = elim (ltb id x) [
  | true ↦ x ∷ dequeue id xs
  | false ↦ elim (ltb x id) [ true ↦ x ∷ dequeue id xs | false ↦ xs ]
]

first_of : List ℕ → Option ℕ
first_of [] = none
first_of (x ∷ xs) = some x

rest_of : List ℕ → List ℕ
rest_of [] = []
rest_of (x ∷ xs) = xs

with_pos : (ℕ → Line) → ℕ → ℕ → Line
with_pos lines id i =
    if ltb i id then lines i else if ltb id i then lines i else record (lines i) { pos = 1 }

with_vpc : (ℕ → Line) → ℕ → ℕ → ℕ → Line
with_vpc lines vpc id i =
    if ltb i id then lines i else if ltb id i then lines i else record (lines i) { vpc = vpc }

abbrev list_queue : VictimQueue
list_queue = record {
  Queue = List ℕ;
  pqueue_init = λ n. [];
  pqueue_insert = λ q lines id. (enqueue lines id q, with_pos lines id);
  pqueue_change_priority = λ q lines pri id.
      let lowered = with_vpc lines pri id in (enqueue lowered id (dequeue id q), lowered);
  pqueue_peek = first_of;
  pqueue_pop = λ q lines. (rest_of q, lines);
}

abbrev clock : ℕ → ℕ
clock i = 1000 * (i + 1)

abbrev origin : WritePointer
origin = record { curline = 0; ch = 0; lun = 0; pg = 0; blk = 0; pl = 0 }

-- What allocated memory happens to hold.
abbrev raw : ConvFtl (List ℕ)
unfolding spp ssd_init
raw = record {
  ssd = ssd_init (λ _. 0) spp;
  cp = conv_init_params 107;
  maptbl = λ _. unmapped_ppa;
  rmap = λ _. 0;
  wp = origin;
  gc_wp = origin;
  lines = λ _. record { ipc = 0; vpc = 0; pos = 0 };
  free_line_list = [];
  victim_line_pq = [];
  full_line_list = [];
  tt_lines = 0;
  free_line_cnt = 0;
  victim_line_cnt = 0;
  full_line_cnt = 0;
  write_credits = 0;
  credits_to_refill = 0;
  pages = λ _. free;
  blocks = λ _. record { ipc = 0; vpc = 0; erase_cnt = 0 };
}

conv_init_namespace-starts_example :
    Ensures
      (λ ns. AllMapped spp ns.ftls × (ns.nr_parts ≡ 2) × ((n : ℕ) → has_page ns n ≡ false))
      (conv_init_namespace list_queue config 2 107 (λ _. raw) (λ _. 0) 1 (kb 512))
conv_init_namespace-starts_example =
    conv_init_namespace-starts list_queue config 2 107 (λ _. raw) (λ _. 0) 1 (kb 512) spp params

-- The namespace that the start leaves, with both instances empty.
abbrev drive : ConvNamespace (List ℕ)
unfolding conv_init_namespace conv_init_ftl init_parts init_lines prepare_write_pointer
    get_next_free_line ssd_init_params ssd_init spp
drive = elim (conv_init_namespace list_queue config 2 107 (λ _. raw) (λ _. 0) 1 (kb 512)) [
  | ok ns ↦ ns
  | fault _ ↦ record {
    id = 0;
    csi = 0;
    size = 0;
    nr_parts = 0;
    ftls = [];
    pcie = chmodel_init (λ _. 0) 0;
    write_buffer = buffer_init 0;
    clock_reads = 0;
    scheduled = [];
  }
]

starting : conv_init_namespace list_queue config 2 107 (λ _. raw) (λ _. 0) 1 (kb 512) ≡ ok drive
unfolding conv_init_namespace conv_init_ftl init_parts init_lines prepare_write_pointer
    get_next_free_line ssd_init_params ssd_init drive spp
starting = refl

drive-mapped : AllMapped spp drive.ftls
drive-mapped = (Ends-value conv_init_namespace-starts_example starting).0

drive-few : drive.nr_parts < 2 ^ 32
unfolding drive spp conv_init_namespace conv_init_ftl init_parts init_lines prepare_write_pointer
    get_next_free_line ssd_init_params ssd_init
drive-few = omega arith

in_blk : 3 < spp.pgs_per_blk
unfolding spp
in_blk = omega arith

in_chs : 0 < spp.nchs
unfolding spp
in_chs = omega arith

in_luns : 1 < spp.luns_per_ch
unfolding spp
in_luns = omega arith

abbrev request : (slba length : ℕ) → Request
request slba length = record {
  opcode = Opcode.write;
  slba = slba;
  length = length;
  fua = false;
  sq_id = 1;
  nsecs_start = 5000;
}

abbrev no_result : Result
no_result = record { status = 0; nsecs_target = 0; result = 0 }

abbrev stack_ppa : Ppa
stack_ppa = record { pg = 9; blk = 9; pl = 9; lun = 9; ch = 9; rsv = 9 }

-- Pages are written, some again, and read.
abbrev history : List Submission
history =
    record { cmd = write_cmd; req = request 0 31; stack_ppa = stack_ppa }
    ∷ record { cmd = write_cmd; req = request 8 15; stack_ppa = stack_ppa }
    ∷ record { cmd = read_cmd; req = request 4 20; stack_ppa = stack_ppa }
    ∷ record { cmd = flush_cmd 9000; req = request 0 0; stack_ppa = stack_ppa }
    ∷ []

conv_history-CommandEnds_example :
    Ensures (CommandEnds spp drive) (conv_history clock list_queue no_result history drive)
conv_history-CommandEnds_example =
    conv_history-CommandEnds clock list_queue spp spp-IsGeometry no_result history drive drive-few
      drive-mapped

conv_history-NoSharing_example : Ensures (NoSharing spp) (
    conv_init_namespace list_queue config 2 107 (λ _. raw) (λ _. 0) 1 (kb 512)
    >>= conv_history clock list_queue no_result history)
conv_history-NoSharing_example =
    conv_history-NoSharing clock list_queue config 2 107 (λ _. raw) (λ _. 0) 1 (kb 512) spp
      no_result history spp-IsGeometry (omega arith) params

conv_write-WriteEnds_example :
    Ensures
      (WriteEnds clock list_queue spp spp-IsGeometry drive (request 8 31))
      (conv_write clock list_queue drive stack_ppa (request 8 31) no_result)
conv_write-WriteEnds_example =
    conv_write-WriteEnds clock list_queue spp spp-IsGeometry drive stack_ppa (request 8 31)
      no_result drive-mapped

-- The last page of a one-shot page on the last channel and LUN.
next_page-Advances_example :
    Returns
      (Advances spp (record origin { pg = 3; lun = 1 }))
      (next_page spp (record origin { pg = 3; lun = 1 }))
next_page-Advances_example =
    next_page-Advances spp spp-IsGeometry (record origin { pg = 3; lun = 1 })
      (record { pg_lt = in_blk; ch_lt = in_chs; lun_lt = in_luns })

-- A line to collect: its pages are invalid but one, which logical page 5 has.
abbrev kept_ppa : Ppa
kept_ppa = record { pg = 3; blk = 2; pl = 0; lun = 1; ch = 0; rsv = 0 }

abbrev written : Tables
unfolding spp
written = record {
  maptbl = λ _. unmapped_ppa;
  rmap = λ _. 0;
  pages = λ i. if (i / 8 % 4) == 2 && not (i == 51) then invalid else free;
}

victim : ConvFtl (List ℕ)
unfolding raw written spp
victim =
    let t = remap spp written 5 kept_ppa in
    record raw {
      maptbl = t.maptbl;
      rmap = t.rmap;
      pages = t.pages;
      tt_lines = 4;
      victim_line_pq = 2 ∷ [];
      victim_line_cnt = 1;
      lines = λ i.
          if i == 2
          then record { ipc = 15; vpc = 1; pos = 1 }
          else record { ipc = 0; vpc = 0; pos = 0 };
      free_line_list = 3 ∷ [];
      free_line_cnt = 1;
      gc_wp = record origin { curline = 1; blk = 1 };
    }

kept_free : written.pages (page_index spp kept_ppa) ≡ free
unfolding written page_index spp
kept_free = refl

kept_inside : valid_ppa spp kept_ppa ≡ true
unfolding valid_ppa spp
kept_inside = refl

kept_mapped : mapped_ppa kept_ppa ≡ true
unfolding mapped_ppa
kept_mapped = refl

written-no_valid : (i : ℕ) → written.pages i ≡ valid → ⊥
unfolding written
written-no_valid i h = elim (Bool-cases ((i / 8 % 4) == 2 && not (i == 51))) [
  | inl e ↦ cc (rw e at h)
  | inr e ↦ cc (rw e at h)
]

no_ppa : mapped_ppa unmapped_ppa ≡ true → ⊥
unfolding mapped_ppa
no_ppa h = cc h

victim-IsMapped : IsMapped spp victim
unfolding victim written raw spp
victim-IsMapped = record {
  sp_same = refl;
  consistent =
      remap-Consistent spp written 5 kept_ppa (λ n lt ne h. absurd (no_ppa h)) kept_free
        kept_inside;
  owned =
      remap-Owned spp written 5 kept_ppa (λ i live. absurd (written-no_valid i live)) kept_mapped;
}

do_gc-Preserves_example :
    Ensures (λ r. Preserves spp victim r.1) (do_gc clock list_queue stack_ppa victim true)
do_gc-Preserves_example =
    do_gc-Preserves clock list_queue spp spp-IsGeometry stack_ppa victim true victim-IsMapped
