-- ===== src/Server/Actions/Spelling.antt =====
-- What trimming and lower case come to: which texts `parse_player_action` takes for a word.
use dragon_shift.Common.{
  ℕ, ◌+◌, ◌≤◌, ◌≡◌, ◌⊎◌, inl, inr, refl, sym, ap, subst, ◌∙◌, Bool, true, false, String, List, [],
  ◌∷◌, ◌++◌, map, All, arith, Bool-cases, if_split, ◌&&◌, leb,
}
use Prim.Native.Char.{code}
use dragon_shift.Common.Text.{
  codes, is_whitespace, is_blank, lower_char, trim, trim_start, trim_end, to_ascii_lowercase,
}
use dragon_shift.Server.Actions.{folded}

abbrev pub IsWhite : ℕ → Type 0
IsWhite c = is_whitespace c ≡ true

abbrev pub IsBlack : ℕ → Type 0
IsBlack c = is_whitespace c ≡ false

-- A letter of a text for a letter of a word: itself or its capital.
abbrev pub IsLetterFor : ℕ → ℕ → Type 0
IsLetterFor c d = (97 ≤ d) × (d ≤ 122) × ((c ≡ d) ⊎ (c + 32 ≡ d))

abbrev pub AreLettersFor : List ℕ → List ℕ → Type 0
AreLettersFor [] [] = Unit
AreLettersFor (c ∷ cs) (d ∷ ds) = IsLetterFor c d × AreLettersFor cs ds
AreLettersFor _ _ = ⊥

-- The text is the word in small or capital letters, between white space.
pub record IsSpelling (word text : String) : Type 0 where
  pub before : List ℕ
  pub body : List ℕ
  pub after : List ℕ
  pub split : codes text ≡ before ++ (body ++ after)
  pub blank_before : All IsWhite before
  pub letters : AreLettersFor body (codes word)
  pub blank_after : All IsWhite after

abbrev pub IsPlain : String → Type 0
IsPlain word = All (λ d. (97 ≤ d) × (d ≤ 122)) (codes word)

letter_lower : (c d : ℕ) → (97 ≤ d) × (d ≤ 122) → lower_char c ≡ d → IsLetterFor c d
letter_lower c d (low, high) h = elim (Bool-cases (leb 65 c && leb c 90)) [
  | inl e ↦ (low, high, inr (rw e at h))
  | inr e ↦ (low, high, inl (rw e at h))
]

lower_letter : (c d : ℕ) → IsLetterFor c d → lower_char c ≡ d
lower_letter c d (low, high, inl h) = ground arith
lower_letter c d (low, high, inr h) = ground arith

letter-IsBlack : (c d : ℕ) → IsLetterFor c d → IsBlack c
letter-IsBlack c d (low, high, inl h) = ground arith
letter-IsBlack c d (low, high, inr h) = ground arith

letters_lower :
    (cs ds : List ℕ)
    → All (λ d. (97 ≤ d) × (d ≤ 122)) ds
    → map lower_char cs ≡ ds
    → AreLettersFor cs ds
letters_lower [] [] plain h = tt
letters_lower [] (d ∷ ds) plain h = absurd cc
letters_lower (c ∷ cs) [] plain h = absurd cc
letters_lower (c ∷ cs) (d ∷ ds) plain h =
    (letter_lower c d plain.0 cc, letters_lower cs ds plain.1 cc)

lower_letters : (cs ds : List ℕ) → AreLettersFor cs ds → map lower_char cs ≡ ds
lower_letters [] [] l = refl
lower_letters [] (d ∷ ds) l = elim l [ ]
lower_letters (c ∷ cs) [] l = elim l [ ]
lower_letters (c ∷ cs) (d ∷ ds) l = cc (lower_letter c d l.0, lower_letters cs ds l.1)

letters-IsBlack : (cs ds : List ℕ) → AreLettersFor cs ds → All IsBlack cs
letters-IsBlack [] [] l = tt
letters-IsBlack [] (d ∷ ds) l = elim l [ ]
letters-IsBlack (c ∷ cs) [] l = elim l [ ]
letters-IsBlack (c ∷ cs) (d ∷ ds) l = (letter-IsBlack c d l.0, letters-IsBlack cs ds l.1)

cons_inj : (x y : ℕ) (xs ys : List ℕ) → x ∷ xs ≡ y ∷ ys → (x ≡ y) × (xs ≡ ys)
cons_inj x y xs ys h = (cc, cc)

both : (a b : Bool) → (a && b) ≡ true → (a ≡ true) × (b ≡ true)
both true b h = (refl, h)
both false b h = absurd cc

blank_codes : (s : String) → is_blank s ≡ true → codes s ≡ []
blank_codes String.[] h = refl
blank_codes (String.◌∷◌ c s) h = absurd cc

-- What `trim_start` takes away.
trim_start_split :
    (s : String)
    → (before : List ℕ) × (codes s ≡ before ++ codes (trim_start s)) × All IsWhite before
unfolding trim_start
trim_start_split String.[] = ([], refl, tt)
trim_start_split (String.◌∷◌ c s) = elim (Bool-cases (is_whitespace (code c))) [
  | inl e ↦
      let (before, split, blank) = trim_start_split s in
      rw e (code c ∷ before, ap (λ xs. code c ∷ xs) split, (e, blank))
  | inr e ↦ rw e ([], refl, tt)
]

-- What `trim_end` takes away.
trim_end_split :
    (s : String) → (after : List ℕ) × (codes s ≡ codes (trim_end s) ++ after) × All IsWhite after
unfolding trim_end
trim_end_split String.[] = ([], refl, tt)
trim_end_split (String.◌∷◌ c s) =
    let (after, split, blank) = trim_end_split s in
    elim (Bool-cases (is_blank (trim_end s) && is_whitespace (code c))) [
      | inl e ↦
          let (empty, white) = both (is_blank (trim_end s)) (is_whitespace (code c)) e in
          rw e (
            code c ∷ after,
            ap (λ xs. code c ∷ xs)
                (split ∙ ap (λ xs. xs ++ after) (blank_codes (trim_end s) empty)),
            (white, blank),
          )
      | inr e ↦ rw e (after, ap (λ xs. code c ∷ xs) split, blank)
    ]

-- A text without white space stops `trim_start`.
trim_start_stops :
    (s : String) (before rest : List ℕ) (x : ℕ)
    → codes s ≡ before ++ (x ∷ rest)
    → All IsWhite before
    → IsBlack x
    → codes (trim_start s) ≡ x ∷ rest
unfolding trim_start
trim_start_stops String.[] [] rest x h blank black = absurd cc
trim_start_stops String.[] (b ∷ bs) rest x h blank black = absurd cc
trim_start_stops (String.◌∷◌ c s) [] rest x h blank black =
    rw (ap is_whitespace (cons_inj (code c) x (codes s) rest h).0 ∙ black) h
trim_start_stops (String.◌∷◌ c s) (b ∷ bs) rest x h blank black =
    let (same, tail) = cons_inj (code c) b (codes s) (bs ++ (x ∷ rest)) h in
    rw (ap is_whitespace same ∙ blank.0) (trim_start_stops s bs rest x tail blank.1 black)

white_or_black : (c : ℕ) → IsWhite c → IsBlack c → ⊥
white_or_black c white black = cc

trim_end_blank : (s : String) → All IsWhite (codes s) → trim_end s ≡ String.[]
unfolding trim_end
trim_end_blank String.[] blank = refl
trim_end_blank (String.◌∷◌ c s) blank = rw (trim_end_blank s blank.1, blank.0) refl

trim_end_stops :
    (s : String) (body after : List ℕ)
    → codes s ≡ body ++ after
    → All IsBlack body
    → All IsWhite after
    → codes (trim_end s) ≡ body
unfolding trim_end
trim_end_stops String.[] [] after h black blank = refl
trim_end_stops String.[] (b ∷ bs) after h black blank = absurd cc
trim_end_stops (String.◌∷◌ c s) [] after h black blank =
    ap codes (trim_end_blank (String.◌∷◌ c s) (subst (All IsWhite) (sym h) blank))
trim_end_stops (String.◌∷◌ c s) (b ∷ bs) after h black blank =
    let (same, tail) = cons_inj (code c) b (codes s) (bs ++ after) h in
    if_split (λ (r : String). codes r ≡ b ∷ bs) (is_blank (trim_end s) && is_whitespace (code c))
      (λ e.
        let white = (both (is_blank (trim_end s)) (is_whitespace (code c)) e).1 in
        absurd (white_or_black (code c) white (ap is_whitespace same ∙ black.0)))
      (λ e. cc (same, trim_end_stops s bs after tail black.1 blank))

pub folded-IsSpelling :
    (word text : String) → IsPlain word → folded text ≡ codes word → IsSpelling word text
unfolding folded trim to_ascii_lowercase
folded-IsSpelling word text plain h =
    let (before, split, white_before) = trim_start_split text in
    let (after, split_end, white_after) = trim_end_split (trim_start text) in
    record {
      before = before;
      body = codes (trim text);
      after = after;
      split = split ∙ ap (λ xs. before ++ xs) split_end;
      blank_before = white_before;
      letters = letters_lower (codes (trim text)) (codes word) plain h;
      blank_after = white_after;
    }

trim_lem :
    (text : String) (before body after : List ℕ)
    → codes text ≡ before ++ (body ++ after)
    → All IsWhite before
    → All IsBlack body
    → All IsWhite after
    → ¬ (body ≡ [])
    → codes (trim text) ≡ body
unfolding trim
trim_lem text before [] after h white black white_after some_body = absurd (some_body refl)
trim_lem text before (x ∷ xs) after h white black white_after some_body =
    trim_end_stops (trim_start text) (x ∷ xs) after
      (trim_start_stops text before (xs ++ after) x h white black.0) black white_after

pub IsSpelling-folded :
    (word text : String) → ¬ (codes word ≡ []) → IsSpelling word text → folded text ≡ codes word
unfolding folded to_ascii_lowercase
IsSpelling-folded word text some_word h =
    let lower = lower_letters h.body (codes word) h.letters in
    ap (map lower_char) (
      trim_lem text h.before h.body h.after h.split h.blank_before
        (letters-IsBlack h.body (codes word) h.letters) h.blank_after
        (λ e. some_word (sym lower ∙ ap (map lower_char) e)))
    ∙ lower
