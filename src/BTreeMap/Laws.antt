-- ===== src/BTreeMap/Laws.antt =====
-- What lookups see after each write to a map, and which properties of all entries writes keep.
use mathlib.Core.Option
use mathlib.Core.Path.{subst₂}
use dragon_shift.Common.{
  ◌≡◌, ◌≢◌, refl, sym, subst, Option-cases, Bool, inl, inr, true, false, none, some, [], ◌∷◌, arith,
  if◌then◌else◌, Bool-cases, some_inj,
}
use dragon_shift.BTreeMap.{
  Key, BTreeMap, get, insert, contains_key, insert_new, remove, update, map_values, retain,
}

module _ {ℓ} {K : Type ℓ} ⦃o : Key K⦄ where
  pub beq_refl : (k : K) → o.beq k k ≡ true
  beq_refl k = (o.beq_iff k k).1 refl

  pub beq_ne : (j k : K) → j ≢ k → o.beq j k ≡ false
  beq_ne j k ne = elim (Bool-cases (o.beq j k)) [
    | inl e ↦ absurd (ne ((o.beq_iff j k).0 e))
    | inr e ↦ e
  ]

module _ {ℓ κ} {K : Type ℓ} {V : Type κ} ⦃o : Key K⦄ where
  pub get-update :
      (k j : K) (f : V → V) (m : BTreeMap K V)
      → get j (update k f m) ≡ (if o.beq k j then Option.map f (get j m) else get j m)
  unfolding get update
  get-update k j f [] = ground arith
  get-update k j f ((i, w) ∷ m) =
      ground (arith, o.beq_iff k j, o.beq_iff i k, o.beq_iff i j, get-update k j f m)

  pub get-insert_new :
      (k j : K) (v : V) (m : BTreeMap K V)
      → get k m ≡ none
      → get j (insert_new k v m) ≡ (if o.beq k j then some v else get j m)
  unfolding get insert_new
  get-insert_new k j v [] h = refl
  get-insert_new k j v ((i, w) ∷ m) h =
      ground (arith, o.beq_iff k j, o.beq_iff i k, o.beq_iff i j, get-insert_new k j v m)

  pub get-insert :
      (k j : K) (v : V) (m : BTreeMap K V)
      → get j (insert k v m) ≡ (if o.beq k j then some v else get j m)
  unfolding insert
  get-insert k j v m = elim (Option-cases (get k m)) [
    | inl e ↦ rw e (get-insert_new k j v m e)
    | inr (w, e) ↦ rw e (present w e)
  ]
    where
      present :
          (w : V)
          → get k m ≡ some w
          → get j (update k (λ _. v) m) ≡ (if o.beq k j then some v else get j m)
      present w e = elim (Bool-cases (o.beq k j)) [
        | inl same ↦ rw (get-update k j (λ _. v) m, same, ← (o.beq_iff k j).0 same, e)
        | inr other ↦ rw (get-update k j (λ _. v) m, other)
      ]

  pub get-insert_self : (k : K) (v : V) (m : BTreeMap K V) → get k (insert k v m) ≡ some v
  get-insert_self k v m = rw (get-insert k k v m, beq_refl k)

  pub get-insert_ne : (k j : K) (v : V) (m : BTreeMap K V) → k ≢ j → get j (insert k v m) ≡ get j m
  get-insert_ne k j v m ne = rw (get-insert k j v m, beq_ne k j ne)

  pub get-remove :
      (k j : K) (m : BTreeMap K V) → get j (remove k m) ≡ (if o.beq k j then none else get j m)
  unfolding get remove
  get-remove k j [] = ground arith
  get-remove k j ((i, w) ∷ m) =
      ground (arith, o.beq_iff k j, o.beq_iff i k, o.beq_iff i j, get-remove k j m)

  pub get-remove_self : (k : K) (m : BTreeMap K V) → get k (remove k m) ≡ none
  get-remove_self k m = rw (get-remove k k m, beq_refl k)

  pub get-remove_ne : (k j : K) (m : BTreeMap K V) → k ≢ j → get j (remove k m) ≡ get j m
  get-remove_ne k j m ne = rw (get-remove k j m, beq_ne k j ne)

  pub get-update_self :
      (k : K) (f : V → V) (m : BTreeMap K V) → get k (update k f m) ≡ Option.map f (get k m)
  get-update_self k f m = rw (get-update k k f m, beq_refl k)

  pub get-update_ne :
      (k j : K) (f : V → V) (m : BTreeMap K V) → k ≢ j → get j (update k f m) ≡ get j m
  get-update_ne k j f m ne = rw (get-update k j f m, beq_ne k j ne)

  pub get-map_values :
      (j : K) (f : V → V) (m : BTreeMap K V) → get j (map_values f m) ≡ Option.map f (get j m)
  unfolding get map_values
  get-map_values j f [] = refl
  get-map_values j f ((i, w) ∷ m) = ground (arith, get-map_values j f m)

-- A property of every entry of a map.
abbrev pub Entries {ℓ κ μ} : {K : Type ℓ} {V : Type κ} → (K → V → Type μ) → BTreeMap K V → Type μ
Entries P [] = Unit
Entries P ((k, v) ∷ m) = P k v × Entries P m

module _ {ℓ κ μ ν} {K : Type ℓ} {V : Type κ} (P : K → V → Type μ) (Q : K → V → Type ν) where
  pub Entries-map_values :
      (f : V → V) (m : BTreeMap K V)
      → ((k : K) (v : V) → P k v → Q k (f v))
      → Entries P m
      → Entries Q (map_values f m)
  unfolding map_values
  Entries-map_values f [] keep h = tt
  Entries-map_values f ((k, v) ∷ m) keep h = (keep k v h.0, Entries-map_values f m keep h.1)

module _ {ℓ κ μ} {K : Type ℓ} {V : Type κ} (P : K → V → Type μ) where
  pub Entries-retain : (p : K → V → Bool) (m : BTreeMap K V) → Entries P m → Entries P (retain p m)
  unfolding retain
  Entries-retain p [] h = tt
  Entries-retain p ((k, v) ∷ m) h = elim (Bool-cases (p k v)) [
    | inl e ↦ rw e (h.0, Entries-retain p m h.1)
    | inr e ↦ rw e (Entries-retain p m h.1)
  ]

module _ {ℓ κ μ} {K : Type ℓ} {V : Type κ} ⦃o : Key K⦄ (P : K → V → Type μ) where
  -- Only the entries of the key change.
  pub Entries-update :
      (k : K) (f : V → V) (m : BTreeMap K V)
      → ((v : V) → P k v → P k (f v))
      → Entries P m
      → Entries P (update k f m)
  unfolding update
  Entries-update k f [] keep h = tt
  Entries-update k f ((j, w) ∷ m) keep h = elim (Bool-cases (o.beq j k)) [
    | inl e ↦
        let same = (o.beq_iff j k).0 e in
        rw e (
          subst (λ x. P x (f w)) (sym same) (keep w (subst (λ x. P x w) same h.0)),
          Entries-update k f m keep h.1,
        )
    | inr e ↦ rw e (h.0, Entries-update k f m keep h.1)
  ]

  Entries-insert_new :
      (k : K) (v : V) (m : BTreeMap K V) → P k v → Entries P m → Entries P (insert_new k v m)
  unfolding insert_new
  Entries-insert_new k v [] p h = (p, tt)
  Entries-insert_new k v ((j, w) ∷ m) p h = elim (Bool-cases (o.lt k j)) [
    | inl e ↦ rw e (p, h)
    | inr e ↦ rw e (h.0, Entries-insert_new k v m p h.1)
  ]

  pub Entries-insert :
      (k : K) (v : V) (m : BTreeMap K V) → P k v → Entries P m → Entries P (insert k v m)
  unfolding insert
  Entries-insert k v m p h = elim (Bool-cases (contains_key k m)) [
    | inl e ↦ rw e (Entries-update k (λ _. v) m (λ w q. p) h)
    | inr e ↦ rw e (Entries-insert_new k v m p h)
  ]

  pub Entries-get : (k : K) (m : BTreeMap K V) {v : V} → Entries P m → get k m ≡ some v → P k v
  unfolding get
  Entries-get k [] h e = cc
  Entries-get k ((j, w) ∷ m) h e = elim (Bool-cases (o.beq j k)) [
    | inl hit ↦ subst₂ P ((o.beq_iff j k).0 hit) (some_inj (rw hit at e)) h.0
    | inr miss ↦ Entries-get k m h.1 (rw miss at e)
  ]
