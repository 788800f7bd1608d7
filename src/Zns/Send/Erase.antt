-- ===== src/Zns/Send/Erase.antt =====
-- About __reset_zone of zns_mgmt_send.c: the storage.
use nvmevirt_pim.Base.{
  ℕ, ◌+◌, ◌*◌, ◌<◌, ◌≤◌, ◌^◌, ◌≡◌, refl, ap, ltb, ◌==◌, get_elem?, if◌then◌else◌, Bool-cases, inl,
  inr, u64, arith, Ensures, normal, Ends-bind, Ends-if, Ensures-entry,
}
use native.Mathlib.Nat.{mul-le-mul_right, mod-eq_of_lt}
use nvmevirt_pim.Zns.Sc
use nvmevirt_pim.Zns.State.{ZoneState, ZoneDescriptor, ZnsFtl, set_buffer}
use nvmevirt_pim.Zns.Resource.{open_zone, release_zone_resource}
use nvmevirt_pim.Zns.Address.{storage_offset}
use nvmevirt_pim.Zns.Send.{
  clear_storage, release_active, reset_zone, reset_with, reset_from, reset_zone_cmd,
}

-- The byte `o` of zone `i` is 0 in `after` if `i` is `zid`, and what it was in `before` otherwise.
pub Erased : (size zid : ℕ) (before after : ℕ → ℕ) → Type 0
Erased size zid before after =
    (i o : ℕ) → o < size → after (i * size + o) ≡ (if i == zid then 0 else before (i * size + o))

clear_storage-Erased :
    (storage : ℕ → ℕ) (size zid : ℕ)
    → zid * size < 2 ^ 64
    → Erased size zid storage (clear_storage storage (u64 (zid * size)) size)
unfolding Erased clear_storage
clear_storage-Erased storage size zid w i o h = rw (mod-eq_of_lt w) (elim (Bool-cases (ltb i zid)) [
  | inl below ↦
      let apart : (i + 1) * size ≤ zid * size = mul-le-mul_right size (ground arith) in grind arith
  | inr not_below ↦ elim (Bool-cases (ltb zid i)) [
    | inl above ↦
        let apart : (zid + 1) * size ≤ i * size = mul-le-mul_right size (ground arith) in
        grind arith
    | inr not_above ↦
        let same : i ≡ zid = ground arith in
        let start : i * size ≡ zid * size = ap (λ t. t * size) same in grind arith
  ]
])

-- The storage of a zone that is reset, from a state `y` with the storage and the layout of `z`.
module _ (z y : ZnsFtl) (zid : ℕ) (d : ZoneDescriptor) (zp : y.zp ≡ z.zp)
    (storage : y.storage ≡ z.storage) (w : zid * z.zp.zone_size < 2 ^ 64) where
  cleared : ℕ → ℕ
  cleared = clear_storage y.storage (storage_offset y zid) y.zp.zone_size

  cleared-Erased : Erased z.zp.zone_size zid z.storage cleared
  unfolding cleared storage_offset
  cleared-Erased = rw (zp, storage) (clear_storage-Erased z.storage z.zp.zone_size zid w)

  reset_zone-Erased :
      Ensures (λ x. Erased z.zp.zone_size zid z.storage x.storage) (reset_zone y zid d)
  unfolding reset_zone set_buffer cleared
  reset_zone-Erased =
      Ends-if (y.zp.zrwa_buffer_size == 0) (λ _. normal cleared-Erased)
        λ _. Ensures-entry (get_elem? y.zrwa_buffer zid) λ b _. normal cleared-Erased

  reset_with-Erased :
      Ensures
        (λ r. r.0 ≡ Sc.success → Erased z.zp.zone_size zid z.storage r.1.storage)
        (reset_with y zid d)
  unfolding reset_with
  reset_with-Erased = Ends-bind reset_zone-Erased λ x e. normal λ _. e

reset_from-Erased :
    (s : ZoneState) (z : ZnsFtl) (zid : ℕ) (d : ZoneDescriptor)
    → zid * z.zp.zone_size < 2 ^ 64
    → Ensures
        (λ r. r.0 ≡ Sc.success → Erased z.zp.zone_size zid z.storage r.1.storage)
        (reset_from s z zid d)
unfolding reset_from release_active
reset_from-Erased ZoneState.opened_impl z zid d w =
    reset_with-Erased z (release_active (release_zone_resource z open_zone) d) zid d (ground arith)
      (ground arith) w
reset_from-Erased ZoneState.opened_expl z zid d w =
    reset_with-Erased z (release_active (release_zone_resource z open_zone) d) zid d (ground arith)
      (ground arith) w
reset_from-Erased ZoneState.closed z zid d w =
    reset_with-Erased z (release_active z d) zid d (ground arith) (ground arith) w
reset_from-Erased ZoneState.full z zid d w = reset_with-Erased z z zid d refl refl w
reset_from-Erased ZoneState.empty z zid d w = reset_with-Erased z z zid d refl refl w
reset_from-Erased ZoneState.read_only z zid d w = normal λ e. absurd (omega (arith, e))
reset_from-Erased ZoneState.offline z zid d w = normal λ e. absurd (omega (arith, e))

-- A reset of a zone ends, if its storage starts below 2 ^ 64. If it ends normally with a
-- success, the bytes of the zone are 0 and those of all other zones are as before.
pub reset_zone_cmd-Erased :
    (z : ZnsFtl) (zid : ℕ)
    → zid * z.zp.zone_size < 2 ^ 64
    → Ensures
        (λ r. r.0 ≡ Sc.success → Erased z.zp.zone_size zid z.storage r.1.storage)
        (reset_zone_cmd z zid)
unfolding reset_zone_cmd
reset_zone_cmd-Erased z zid w =
    Ensures-entry (get_elem? z.zone_descs zid) λ d at. reset_from-Erased d.state z zid d w
