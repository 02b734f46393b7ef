-- ===== src/Session/Handover/Places.antt =====
-- Places in the lists of ids, and where the rotation of Phase 2 takes the dragon of each place from.
use dragon_shift.Common.{
  ℕ, zero, suc, ◌-◌, ◌<◌, ◌≡◌, ◌≢◌, inl, inr, refl, sym, ap, ◌∙◌, String, none, some, List, [], ◌∷◌,
  arith, All, length, take, get_elem?, some_inj, Bool-cases, str_eq, eq_iff,
}
use dragon_shift.BTreeMap.{BTreeMap, string_key, get, keys}
use dragon_shift.BTreeMap.Distinct.{Distinct}
use dragon_shift.Session.Handover.{last_or, shifted}

-- The elements of a list are distinct.
abbrev pub NoDup : List String → Type 0
NoDup [] = Unit
NoDup (x ∷ xs) = All (λ y. y ≢ x) xs × NoDup xs

absent_keys :
    {V : Type 0} (k : String) (m : BTreeMap String V) → get k m ≡ none → All (λ y. y ≢ k) (keys m)
unfolding get keys
absent_keys k [] h = tt
absent_keys k ((j, v) ∷ m) h = elim (Bool-cases (str_eq j k)) [
  | inl e ↦ cc (rw e at h)
  | inr e ↦ (λ same. cc ((eq_iff j k).1 same, e), absent_keys k m (rw e at h))
]

pub keys-NoDup : {V : Type 0} (m : BTreeMap String V) → Distinct m → NoDup (keys m)
unfolding keys
keys-NoDup [] d = tt
keys-NoDup ((k, v) ∷ m) d = (absent_keys k m d.0, keys-NoDup m d.1)

pub get_elem?-lt : (i : ℕ) (xs : List String) {x : String} → get_elem? xs i ≡ some x → i < length xs
get_elem?-lt i [] e = cc
get_elem?-lt zero (y ∷ xs) e = omega arith
get_elem?-lt (suc i) (y ∷ xs) e = omega (arith, get_elem?-lt i xs e)

pub All-elem :
    (x y : String) (i : ℕ) (xs : List String)
    → All (λ z. z ≢ x) xs
    → get_elem? xs i ≡ some y
    → y ≢ x
All-elem x y i [] h e = cc
All-elem x y zero (z ∷ xs) h e = λ same. h.0 (some_inj e ∙ same)
All-elem x y (suc i) (z ∷ xs) h e = All-elem x y i xs h.1 e

All-last_or :
    (P : String → Type 0) (x : String) (xs : List String) → P x → All P xs → P (last_or x xs)
All-last_or P x [] p h = p
All-last_or P x (y ∷ ys) p h = All-last_or P y ys h.0 h.1

All-take : (P : String → Type 0) (n : ℕ) (xs : List String) → All P xs → All P (take n xs)
All-take P zero xs h = tt
All-take P (suc n) [] h = tt
All-take P (suc n) (x ∷ xs) h = (h.0, All-take P n xs h.1)

NoDup-take : (n : ℕ) (xs : List String) → NoDup xs → NoDup (take n xs)
NoDup-take zero xs h = tt
NoDup-take (suc n) [] h = tt
NoDup-take (suc n) (x ∷ xs) h = (All-take (λ y. y ≢ x) n xs h.0, NoDup-take n xs h.1)

take-ne-last :
    (x : String) (xs : List String)
    → NoDup (x ∷ xs)
    → All (λ y. y ≢ last_or x xs) (take (length xs) (x ∷ xs))
take-ne-last x [] h = tt
take-ne-last x (y ∷ ys) h =
    (λ e. All-last_or (λ z. z ≢ x) y ys h.0.0 h.0.1 (sym e), take-ne-last y ys h.1)

pub shifted-NoDup : (xs : List String) → NoDup xs → NoDup (shifted xs)
unfolding shifted
shifted-NoDup [] h = tt
shifted-NoDup (x ∷ xs) h = (take-ne-last x xs h, NoDup-take (length xs) (x ∷ xs) h)

get_elem?-take : (n i : ℕ) (xs : List String) → i < n → get_elem? (take n xs) i ≡ get_elem? xs i
get_elem?-take zero i xs h = absurd (omega arith)
get_elem?-take (suc n) i [] h = refl
get_elem?-take (suc n) zero (x ∷ xs) h = refl
get_elem?-take (suc n) (suc i) (x ∷ xs) h = get_elem?-take n i xs (omega arith)

-- The place of the list from which the rotation takes the dragon for the place `i`.
abbrev pub source_of : ℕ → ℕ → ℕ
source_of n zero = n - 1
source_of n (suc i) = i

get_elem?-last :
    (x : String) (xs : List String) → get_elem? (x ∷ xs) (length xs) ≡ some (last_or x xs)
get_elem?-last x [] = refl
get_elem?-last x (y ∷ ys) = get_elem?-last y ys

pub get_elem?-shifted :
    (i : ℕ) (xs : List String)
    → i < length xs
    → get_elem? (shifted xs) i ≡ get_elem? xs (source_of (length xs) i)
unfolding shifted
get_elem?-shifted i [] h = absurd (omega arith)
get_elem?-shifted zero (x ∷ xs) h =
    let e : length xs ≡ length (x ∷ xs) - 1 = omega arith in
    sym (get_elem?-last x xs) ∙ ap (get_elem? (x ∷ xs)) e
get_elem?-shifted (suc i) (x ∷ xs) h = get_elem?-take (length xs) i (x ∷ xs) (omega arith)

pub NoDup-inj :
    (i j : ℕ) (xs : List String) {x : String}
    → NoDup xs
    → get_elem? xs i ≡ some x
    → get_elem? xs j ≡ some x
    → i ≡ j
NoDup-inj i j [] h e f = cc
NoDup-inj zero zero (y ∷ xs) h e f = refl
NoDup-inj zero (suc j) (y ∷ xs) h e f = absurd (All-elem y _ j xs h.0 f (sym (some_inj e)))
NoDup-inj (suc i) zero (y ∷ xs) h e f = absurd (All-elem y _ i xs h.0 e (sym (some_inj f)))
NoDup-inj (suc i) (suc j) (y ∷ xs) h e f = ap suc (NoDup-inj i j xs h.1 e f)

pub source_of-ne : (n i : ℕ) → 1 < n → source_of n i ≢ i
source_of-ne n zero h = omega arith
source_of-ne n (suc i) h = omega arith

pub get_elem?-some :
    (i : ℕ) (xs : List String) → i < length xs → (x : String) × (get_elem? xs i ≡ some x)
get_elem?-some i [] h = absurd (omega arith)
get_elem?-some zero (x ∷ xs) h = (x, refl)
get_elem?-some (suc i) (x ∷ xs) h = get_elem?-some i xs (omega arith)

pub source_of-lt : (n i : ℕ) → i < n → source_of n i < n
source_of-lt n zero h = omega arith
source_of-lt n (suc i) h = omega arith
