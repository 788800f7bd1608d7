-- ===== src/Ssd/Nand/Ops/Times.antt =====
-- The times of the LUNs, as the timing functions of ssd.c read and write them.
use nvmevirt_pim.Base.{
  ℕ, ◌≡◌, ◌≢◌, refl, sym, ◌∙◌, ap, ◌==◌, ◌⊎◌, inl, inr, Bool-cases, List, get_elem?, set,
  get_elem?-set, lt-of_get_elem?, Option, some, none, true, false, arith, Ensures, normal,
  Ensures-entry,
}
use nvmevirt_pim.Ssd.Nand.{Ppa, NandLun, SsdChannel, Ssd}
use nvmevirt_pim.Ssd.Nand.Ops.{set_lun_time}

unfoldable pub time_of : Option NandLun → Option ℕ
time_of none = none
time_of (some l) = some l.next_lun_avail_time

unfoldable pub lun_of : Option SsdChannel → (lun : ℕ) → Option ℕ
unfolding time_of
lun_of none lun = none
lun_of (some ch) lun = time_of (get_elem? ch.luns lun)

-- The time at which LUN `lun` of channel `ch` is free, if there is one.
unfoldable pub lun_time : Ssd → (ch lun : ℕ) → Option ℕ
unfolding lun_of
lun_time ssd ch lun = lun_of (get_elem? ssd.channels ch) lun

-- No LUN has another time, and the parameters are as before.
pub record SameTimes (ssd ssd' : Ssd) : Type 0 where
  pub sp_same : ssd'.sp ≡ ssd.sp
  pub times : (ch lun : ℕ) → lun_time ssd' ch lun ≡ lun_time ssd ch lun

-- The LUN of `ppa` alone has the time `t`.
pub record OneTime (ssd ssd' : Ssd) (ppa : Ppa) (t : ℕ) : Type 0 where
  pub sp_same : ssd'.sp ≡ ssd.sp
  pub own : lun_time ssd' ppa.ch ppa.lun ≡ some t
  pub others :
      (ch lun : ℕ) → (ch ≢ ppa.ch) ⊎ (lun ≢ ppa.lun) → lun_time ssd' ch lun ≡ lun_time ssd ch lun

-- A channel that is written keeps the times if its LUNs are the ones that were there.
pub lun_of-same :
    (chs : List SsdChannel) (c : ℕ) (v old : SsdChannel) (ch lun : ℕ)
    → get_elem? chs c ≡ some old
    → v.luns ≡ old.luns
    → lun_of (get_elem? (set chs c v) ch) lun ≡ lun_of (get_elem? chs ch) lun
unfolding lun_of
lun_of-same chs c v old ch lun at same =
    let written = get_elem?-set chs c ch v (lt-of_get_elem? chs c at) in
    elim (Bool-cases (c == ch)) [
      | inl here ↦
          let e : c ≡ ch = ground arith in
          let found : get_elem? chs ch ≡ some old = ap (get_elem? chs) (sym e) ∙ at in
          rw (written, here, found) (ap (λ (ls : List NandLun). time_of (get_elem? ls lun)) same)
      | inr there ↦ rw (written, there) refl
    ]

time_of-some : (o : Option NandLun) {t : ℕ} → time_of o ≡ some t → (l : NandLun) × (o ≡ some l)
unfolding time_of
time_of-some none e = absurd (ground arith)
time_of-some (some l) e = (l, refl)

module _ (chs : List SsdChannel) (c l : ℕ) (ch : SsdChannel) (old : NandLun) (n : NandLun)
    (at : get_elem? chs c ≡ some ch) (has : get_elem? ch.luns l ≡ some old) where
  -- A LUN that is written has its time, and no other LUN has another one.
  lun_of-own :
      lun_of (get_elem? (set chs c (record ch { luns = set ch.luns l n })) c) l
      ≡ some n.next_lun_avail_time
  unfolding lun_of time_of
  lun_of-own =
      let outer =
        get_elem?-set chs c c (record ch { luns = set ch.luns l n }) (lt-of_get_elem? chs c at) in
      let inner = get_elem?-set ch.luns l l n (lt-of_get_elem? ch.luns l has) in
      let self_c : (c == c) ≡ true = ground arith in
      let self_l : (l == l) ≡ true = ground arith in rw (outer, self_c, inner, self_l) refl

  lun_of-others :
      (c' l' : ℕ)
      → (c' ≢ c) ⊎ (l' ≢ l)
      → lun_of (get_elem? (set chs c (record ch { luns = set ch.luns l n })) c') l'
        ≡ lun_of (get_elem? chs c') l'
  unfolding lun_of time_of
  lun_of-others c' l' other =
      let outer =
        get_elem?-set chs c c' (record ch { luns = set ch.luns l n }) (lt-of_get_elem? chs c at) in
      let inner = get_elem?-set ch.luns l l' n (lt-of_get_elem? ch.luns l has) in
      elim (Bool-cases (c == c')) [
        | inl here ↦
            let e : c ≡ c' = ground arith in
            let found : get_elem? chs c' ≡ some ch = ap (get_elem? chs) (sym e) ∙ at in
            let away : (l == l') ≡ false = ground arith in rw (outer, here, found, inner, away) refl
        | inr there ↦ rw (outer, there) refl
      ]

pub set_lun_time-OneTime :
    (ssd : Ssd) (ppa : Ppa) (t old : ℕ)
    → lun_time ssd ppa.ch ppa.lun ≡ some old
    → Ensures (λ r. OneTime ssd r ppa t) (set_lun_time ssd ppa t)
unfolding set_lun_time lun_time lun_of
set_lun_time-OneTime ssd ppa t old at = Ensures-entry (get_elem? ssd.channels ppa.ch) λ ch e.
    let (l, has) =
      time_of-some (get_elem? ch.luns ppa.lun) (sym (ap (λ o. lun_of o ppa.lun) e) ∙ at) in
    let n : NandLun = record { next_lun_avail_time = t } in
    normal (record {
      sp_same = refl;
      own = lun_of-own ssd.channels ppa.ch ppa.lun ch l n e has;
      others = lun_of-others ssd.channels ppa.ch ppa.lun ch l n e has;
    })
