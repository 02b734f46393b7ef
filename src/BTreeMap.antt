-- ===== src/BTreeMap.antt =====
-- `std::collections::BTreeMap`, as the list of its entries in the order of their keys.
pub mod Laws
pub mod Distinct
pub mod Inversion
use text.Mathlib.Text.{is_lt}
use Prim.Native.String.{compare}
use dragon_shift.Common.{
  Bool, true, false, ◌&&◌, ◌≡◌, ◌↔◌, Option, none, some, List, [], ◌∷◌, String, str_eq, eq_iff, map,
  if◌then◌else◌, is_some, any,
}

-- What a key type provides: `==`, which decides equality, and `<`.
pub record Key {ℓ} (K : Type ℓ) : Type ℓ where
  pub beq : K → K → Bool
  pub beq_iff : (j k : K) → (beq j k ≡ true) ↔ (j ≡ k)
  pub lt : K → K → Bool

-- Strings in the order of their bytes.
instance abbrev pub string_key : Key String
string_key = record { beq = str_eq; beq_iff = eq_iff; lt = λ s t. is_lt (compare s t) }

abbrev pub BTreeMap {ℓ κ} : Type ℓ → Type κ → Type (ℓ ⊔ κ)
BTreeMap K V = List (K × V)

module _ {ℓ κ} {K : Type ℓ} {V : Type κ} ⦃o : Key K⦄ where
  unfoldable pub get : K → BTreeMap K V → Option V
  get k [] = none
  get k ((j, v) ∷ m) = if o.beq j k then some v else get k m

  abbrev pub contains_key : K → BTreeMap K V → Bool
  contains_key k m = is_some (get k m)

  -- A write through `get_mut`: nothing happens to a key that is not there.
  unfoldable pub update : K → (V → V) → BTreeMap K V → BTreeMap K V
  update k f [] = []
  update k f ((j, w) ∷ m) = (if o.beq j k then (j, f w) else (j, w)) ∷ update k f m

  -- A new key goes before the first larger one.
  unfoldable pub insert_new : K → V → BTreeMap K V → BTreeMap K V
  insert_new k v [] = (k, v) ∷ []
  insert_new k v ((j, w) ∷ m) = if o.lt k j then (k, v) ∷ (j, w) ∷ m else (j, w) ∷ insert_new k v m

  unfoldable pub insert : K → V → BTreeMap K V → BTreeMap K V
  unfolding get update insert_new
  insert k v m = if contains_key k m then update k (λ _. v) m else insert_new k v m

  unfoldable pub remove : K → BTreeMap K V → BTreeMap K V
  remove k [] = []
  remove k ((j, w) ∷ m) = if o.beq j k then remove k m else (j, w) ∷ remove k m

-- These read no key.
module _ {ℓ κ} {K : Type ℓ} {V : Type κ} where
  unfoldable pub keys : BTreeMap K V → List K
  keys [] = []
  keys ((k, v) ∷ m) = k ∷ keys m

  unfoldable pub values : BTreeMap K V → List V
  values [] = []
  values ((k, v) ∷ m) = v ∷ values m

  -- A write through `values_mut`.
  unfoldable pub map_values : (V → V) → BTreeMap K V → BTreeMap K V
  map_values f [] = []
  map_values f ((k, v) ∷ m) = (k, f v) ∷ map_values f m

  unfoldable pub retain : (K → V → Bool) → BTreeMap K V → BTreeMap K V
  retain p [] = []
  retain p ((k, v) ∷ m) = if p k v then (k, v) ∷ retain p m else retain p m

  -- `iter().find_map`
  unfoldable pub find_map {μ} : {B : Type μ} → (K → V → Option B) → BTreeMap K V → Option B
  find_map f [] = none
  find_map f ((k, v) ∷ m) = elim (f k v) [ some b ↦ some b | none ↦ find_map f m ]
