-- ===== src/Conv/Namespace/Parts.antt =====
-- The instances of a namespace: which logical pages have a physical page, and what reading and
-- writing back one instance does to that.
use nvmevirt_pim.Base.{
  ℕ, ◌/◌, ◌%◌, ◌<◌, ◌≡◌, refl, sym, ◌∙◌, ap, subst, ◌==◌, Bool, true, false, Bool-cases, inl, inr,
  if◌then◌else◌, List, length, get_elem?, set, lt-of_get_elem?, get_elem?-set, Option, some, none,
  Ensures, normal, Ensures-entry, arith,
}
use nvmevirt_pim.Ssd.Params.{SsdParams}
use nvmevirt_pim.Conv.State.{ConvFtl}
use nvmevirt_pim.Conv.Map.{mapped_ppa}
use nvmevirt_pim.Conv.Namespace.{ConvNamespace, part, set_part}
use nvmevirt_pim.Conv.Consistent.Frames.{Keeps, Keeps-trans}
use nvmevirt_pim.Conv.Gc.Moves.{IsMapped}
use nvmevirt_pim.Conv.Gc.Safe.{Keeps-Preserves}

module _ {Q : Type 0} where
  unfoldable pub part_holds : Option (ConvFtl Q) → (k : ℕ) → Bool
  part_holds none k = false
  part_holds (some f) k = mapped_ppa (f.maptbl k)

  -- Whether instance `i` has a physical page for its logical page `k`.
  unfoldable pub holds : List (ConvFtl Q) → (i k : ℕ) → Bool
  unfolding part_holds
  holds fs i k = part_holds (get_elem? fs i) k

  -- Whether logical page `n` of the namespace has a physical page.
  unfoldable pub has_page : ConvNamespace Q → (n : ℕ) → Bool
  unfolding holds
  has_page ns n = holds ns.ftls (n % ns.nr_parts) (n / ns.nr_parts)

  -- The tables of every instance agree.
  abbrev pub AllMapped : SsdParams → List (ConvFtl Q) → Type 0
  AllMapped spp fs = (i : ℕ) (f : ConvFtl Q) → get_elem? fs i ≡ some f → IsMapped spp f

  pub holds-set :
      (fs : List (ConvFtl Q)) (i j k : ℕ) (g : ConvFtl Q)
      → i < length fs
      → holds (set fs i g) j k ≡ (if i == j then mapped_ppa (g.maptbl k) else holds fs j k)
  unfolding holds
  holds-set fs i j k g lt =
      ap (λ (o : Option (ConvFtl Q)). part_holds o k) (get_elem?-set fs i j g lt)
      ∙ elim (Bool-cases (i == j)) [ inl e ↦ rw e | inr e ↦ rw e ]

  pub set-found :
      (fs : List (ConvFtl Q)) (i : ℕ) {g h : ConvFtl Q}
      → i < length fs
      → get_elem? (set fs i g) i ≡ some h
      → g ≡ h
  set-found fs i {g} {h} lt e =
      let same : (i == i) ≡ true = ground arith in cc (rw (get_elem?-set fs i i g lt, same) at e)

  pub AllMapped-set :
      (spp : SsdParams) (fs : List (ConvFtl Q)) (i : ℕ) (g : ConvFtl Q)
      → i < length fs
      → AllMapped spp fs
      → IsMapped spp g
      → AllMapped spp (set fs i g)
  AllMapped-set spp fs i g lt all m j f at_j = elim (Bool-cases (i == j)) [
    | inl e ↦
        let same : g ≡ f = cc (rw (get_elem?-set fs i j g lt, e) at at_j) in
        subst (IsMapped spp) same m
    | inr e ↦ all j f (rw (get_elem?-set fs i j g lt, e) at at_j)
  ]

  -- What `part` gives: an instance with the tables of the stored one.
  pub record IsPart (ns : ConvNamespace Q) (i : ℕ) (f : ConvFtl Q) : Type 0 where
    pub stored : ConvFtl Q
    pub found : get_elem? ns.ftls i ≡ some stored
    pub keeps : Keeps stored f

  pub part-ends : (ns : ConvNamespace Q) (i : ℕ) → Ensures (IsPart ns i) (part ns i)
  unfolding part
  part-ends ns i = Ensures-entry (get_elem? ns.ftls i) λ f found.
      normal (record {
        stored = f;
        found = found;
        keeps = record { tables_same = refl; sp_same = refl };
      })

  pub IsPart-IsMapped :
      (spp : SsdParams) (ns : ConvNamespace Q) (i : ℕ) (f : ConvFtl Q)
      → AllMapped spp ns.ftls
      → IsPart ns i f
      → IsMapped spp f
  IsPart-IsMapped spp ns i f all p =
      let q = Keeps-Preserves spp (all i p.stored p.found) p.keeps in q.mapped

  pub holds-found :
      (fs : List (ConvFtl Q)) (i k : ℕ) {f : ConvFtl Q}
      → get_elem? fs i ≡ some f
      → holds fs i k ≡ mapped_ppa (f.maptbl k)
  unfolding holds
  holds-found fs i k found = ap (λ (o : Option (ConvFtl Q)). part_holds o k) found

  -- The tables agree in `ms` as in `ns`, and the logical pages with a physical page are the same.
  pub record Same (spp : SsdParams) (ns ms : ConvNamespace Q) : Type 0 where
    pub sound : AllMapped spp ms.ftls
    pub parts : ms.nr_parts ≡ ns.nr_parts
    pub present : (n : ℕ) → has_page ms n ≡ has_page ns n

  pub Same-refl : (spp : SsdParams) (ns : ConvNamespace Q) → AllMapped spp ns.ftls → Same spp ns ns
  Same-refl spp ns all = record { sound = all; parts = refl; present = λ n. refl }

  pub Same-trans :
      {spp : SsdParams} {a b c : ConvNamespace Q} → Same spp a b → Same spp b c → Same spp a c
  Same-trans p q = record {
    sound = q.sound;
    parts = q.parts ∙ p.parts;
    present = λ n. q.present n ∙ p.present n;
  }

  -- Writing back an instance whose tables are as they were.
  pub set_part-Same :
      (spp : SsdParams) (ns : ConvNamespace Q) (i : ℕ) (f g : ConvFtl Q)
      → AllMapped spp ns.ftls
      → IsPart ns i f
      → Keeps f g
      → Same spp ns (set_part ns i g)
  unfolding set_part has_page
  set_part-Same spp ns i f g all p k =
      let lt = lt-of_get_elem? ns.ftls i p.found in
      let whole = Keeps-Preserves spp (all i p.stored p.found) (Keeps-trans p.keeps k) in
      record {
        sound = AllMapped-set spp ns.ftls i g lt all whole.mapped;
        parts = refl;
        present = λ n.
            let j = n % ns.nr_parts in
            let m = n / ns.nr_parts in
            holds-set ns.ftls i j m g lt ∙ elim (Bool-cases (i == j)) [
              | inr e ↦ rw e
              | inl e ↦
                  let here : i ≡ j = ground arith in
                  rw e (whole.present m ∙ sym (holds-found ns.ftls j m (rw here at p.found)))
            ];
      }
