-- ===== src/BTreeMap/Distinct.antt =====
-- The keys of a map are distinct, and what follows for searches of its entries.
use dragon_shift.Common.{
  ◌≡◌, refl, ap, ◌∙◌, inl, inr, Bool, false, Option, none, some, [], ◌∷◌, arith, Bool-cases,
  Option-cases,
}
use dragon_shift.BTreeMap.{
  Key, BTreeMap, get, insert_new, insert, update, map_values, retain, find_map,
}
use dragon_shift.BTreeMap.Laws.{beq_ne, beq_refl, get-update, get-insert_new, get-map_values}

module _ {ℓ κ} {K : Type ℓ} {V : Type κ} ⦃o : Key K⦄ where
  abbrev pub Distinct : BTreeMap K V → Type κ
  Distinct [] = Unit
  Distinct ((k, v) ∷ m) = (get k m ≡ none) × Distinct m

  get-update-none :
      (j k : K) (f : V → V) (m : BTreeMap K V) → get j m ≡ none → get j (update k f m) ≡ none
  get-update-none j k f m h = ground (arith, get-update k j f m)

  pub Distinct-update :
      (k : K) (f : V → V) (m : BTreeMap K V) → Distinct m → Distinct (update k f m)
  unfolding update
  Distinct-update k f [] d = tt
  Distinct-update k f ((j, w) ∷ m) d = elim (Bool-cases (o.beq j k)) [
    | inl e ↦ rw e (get-update-none j k f m d.0, Distinct-update k f m d.1)
    | inr e ↦ rw e (get-update-none j k f m d.0, Distinct-update k f m d.1)
  ]

  pub Distinct-map_values : (f : V → V) (m : BTreeMap K V) → Distinct m → Distinct (map_values f m)
  unfolding map_values
  Distinct-map_values f [] d = tt
  Distinct-map_values f ((j, w) ∷ m) d =
      (ground (arith, get-map_values j f m), Distinct-map_values f m d.1)

  -- A key that is not in the map is not its first key.
  pub get-cons_none :
      (k j : K) (w : V) (m : BTreeMap K V)
      → get k ((j, w) ∷ m) ≡ none
      → (o.beq k j ≡ false) × (get k m ≡ none)
  unfolding get
  get-cons_none k j w m h = ground (arith, o.beq_iff j k, o.beq_iff k j)

  Distinct-insert_new :
      (k : K) (v : V) (m : BTreeMap K V) → get k m ≡ none → Distinct m → Distinct (insert_new k v m)
  unfolding insert_new
  Distinct-insert_new k v [] h d = (h, tt)
  Distinct-insert_new k v ((j, w) ∷ m) h d = elim (Bool-cases (o.lt k j)) [
    | inl e ↦ rw e (h, d)
    | inr e ↦
        let (other, absent) = get-cons_none k j w m h in
        rw e (rw (get-insert_new k j v m absent, other) d.0, Distinct-insert_new k v m absent d.1)
  ]

  pub Distinct-insert : (k : K) (v : V) (m : BTreeMap K V) → Distinct m → Distinct (insert k v m)
  unfolding insert
  Distinct-insert k v m d = elim (Option-cases (get k m)) [
    | inl e ↦ rw e (Distinct-insert_new k v m e d)
    | inr (w, e) ↦ rw e (Distinct-update k (λ _. v) m d)
  ]

  get-retain-none :
      (k : K) (p : K → V → Bool) (m : BTreeMap K V) → get k m ≡ none → get k (retain p m) ≡ none
  unfolding get retain
  get-retain-none k p [] h = refl
  get-retain-none k p ((j, w) ∷ m) h = ground (arith, get-retain-none k p m)

  pub Distinct-retain : (p : K → V → Bool) (m : BTreeMap K V) → Distinct m → Distinct (retain p m)
  unfolding retain
  Distinct-retain p [] d = tt
  Distinct-retain p ((j, w) ∷ m) d = elim (Bool-cases (p j w)) [
    | inl e ↦ rw e (get-retain-none j p m d.0, Distinct-retain p m d.1)
    | inr e ↦ rw e (Distinct-retain p m d.1)
  ]

  -- What a search finds stands in the map.
  pub find_map_found {μ} :
      {B : Type μ} (f : K → V → Option B) (m : BTreeMap K V) {b : B}
      → Distinct m
      → find_map f m ≡ some b
      → (k : K) × (v : V) × (get k m ≡ some v) × (f k v ≡ some b)
  unfolding find_map get
  find_map_found f [] d h = cc
  find_map_found f ((j, w) ∷ m) d h = elim (Option-cases (f j w)) [
    | inr (c, e) ↦ (j, w, rw (beq_refl j), e ∙ (rw (e, find_map) at h))
    | inl e ↦
        let (k, v, found, hit) = find_map_found f m d.1 (rw (e, find_map) at h) in
        (k, v, rw (beq_ne j k (λ same. cc (ap (λ x. get x m) same, d.0, found))) found, hit)
  ]
