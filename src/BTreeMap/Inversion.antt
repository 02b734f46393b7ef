-- ===== src/BTreeMap/Inversion.antt =====
-- From what a lookup finds after a write, what it found before.
use dragon_shift.Common.{◌≡◌, ◌≢◌, ◌⊎◌, inl, inr, some, some_inj, Bool-cases}
use dragon_shift.BTreeMap.{Key, BTreeMap, get, insert, remove}
use dragon_shift.BTreeMap.Laws.{get-insert, get-remove}

module _ {ℓ κ} {K : Type ℓ} {V : Type κ} ⦃o : Key K⦄ where
  pub get-remove-some :
      (k j : K) (m : BTreeMap K V) {v : V}
      → get j (remove k m) ≡ some v
      → (k ≢ j) × (get j m ≡ some v)
  get-remove-some k j m h = elim (Bool-cases (o.beq k j)) [
    | inl e ↦ cc (rw (get-remove k j m, e) at h)
    | inr e ↦ (λ same. cc ((o.beq_iff k j).1 same, e), rw (get-remove k j m, e) at h)
  ]

  pub get-insert-some :
      (k j : K) (v : V) (m : BTreeMap K V) {w : V}
      → get j (insert k v m) ≡ some w
      → ((k ≡ j) × (v ≡ w)) ⊎ ((k ≢ j) × (get j m ≡ some w))
  get-insert-some k j v m h = elim (Bool-cases (o.beq k j)) [
    | inl e ↦ inl ((o.beq_iff k j).0 e, some_inj (rw (get-insert k j v m, e) at h))
    | inr e ↦ inr (λ same. cc ((o.beq_iff k j).1 same, e), rw (get-insert k j v m, e) at h)
  ]
