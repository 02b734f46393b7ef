-- ===== src/Server/Actions/Folding.antt =====
-- What `parse_player_action` makes of texts that are trimmed and in lower case.
use dragon_shift.Common.{
  ℕ, ◌≡◌, inl, inr, refl, subst, ◌⊎◌, String, Bool, true, false, Option, none, some, List, [], ◌∷◌,
  arith, Bool-cases, if◌then◌else◌,
}
use dragon_shift.Common.Text.{codes, same_codes}
use dragon_shift.Protocol.{FoodType, PlayType}
use dragon_shift.Dragon.{PlayerAction, feed, play, sleep}
use dragon_shift.Server.Actions.{
  ActionPayload, folded, reads, food_word, play_word, parse_food, parse_play, parse_player_action,
}

same_codes-eq : (xs ys : List ℕ) → same_codes xs ys ≡ true → xs ≡ ys
same_codes-eq [] [] h = refl
same_codes-eq [] (y ∷ ys) h = absurd cc
same_codes-eq (x ∷ xs) [] h = absurd cc
same_codes-eq (x ∷ xs) (y ∷ ys) h = ground (arith, same_codes-eq xs ys)

-- A value that is there and folds to a word.
abbrev pub FoldsToWord : String → Option String → Type 0
FoldsToWord word none = ⊥
FoldsToWord word (some text) = folded text ≡ codes word

-- A payload's texts fold to the words of the action. The value of a sleep is free.
abbrev pub FoldsTo : ActionPayload → PlayerAction → Type 0
FoldsTo p sleep = folded p.action_type ≡ codes "sleep"
FoldsTo p (feed food) = (folded p.action_type ≡ codes "feed") × FoldsToWord (food_word food) p.value
FoldsTo p (play game) = (folded p.action_type ≡ codes "play") × FoldsToWord (play_word game) p.value

module _ {ℓ} {A : Type ℓ} where
  -- The branch that an answer came from.
  if_some :
      (b : Bool) (x a : A) (rest : Option A)
      → (if b then some x else rest) ≡ some a
      → ((b ≡ true) × (x ≡ a)) ⊎ (rest ≡ some a)
  if_some true x a rest h = inl (refl, cc)
  if_some false x a rest h = inr h

food_from_word :
    (value : String) (a : PlayerAction)
    → parse_food (some value) ≡ some a
    → (food : FoodType) × (feed food ≡ a) × (folded value ≡ codes (food_word food))
unfolding parse_food
food_from_word value a h =
    let text = folded value in
    elim (if_some (reads text "meat") (feed FoodType.meat) a _ h) [
      | inl (e, same) ↦ (FoodType.meat, same, same_codes-eq text _ e)
      | inr h2 ↦ elim (if_some (reads text "fruit") (feed FoodType.fruit) a _ h2) [
        | inl (e, same) ↦ (FoodType.fruit, same, same_codes-eq text _ e)
        | inr h3 ↦ elim (if_some (reads text "fish") (feed FoodType.fish) a none h3) [
          | inl (e, same) ↦ (FoodType.fish, same, same_codes-eq text _ e)
          | inr h4 ↦ absurd cc
        ]
      ]
    ]

play_from_word :
    (value : String) (a : PlayerAction)
    → parse_play (some value) ≡ some a
    → (game : PlayType) × (play game ≡ a) × (folded value ≡ codes (play_word game))
unfolding parse_play
play_from_word value a h =
    let text = folded value in
    elim (if_some (reads text "fetch") (play PlayType.fetch) a _ h) [
      | inl (e, same) ↦ (PlayType.fetch, same, same_codes-eq text _ e)
      | inr h2 ↦ elim (if_some (reads text "puzzle") (play PlayType.puzzle) a _ h2) [
        | inl (e, same) ↦ (PlayType.puzzle, same, same_codes-eq text _ e)
        | inr h3 ↦ elim (if_some (reads text "music") (play PlayType.music) a none h3) [
          | inl (e, same) ↦ (PlayType.music, same, same_codes-eq text _ e)
          | inr h4 ↦ absurd cc
        ]
      ]
    ]

food_said :
    (t : String) (value : Option String) (a : PlayerAction)
    → folded t ≡ codes "feed"
    → parse_food value ≡ some a
    → FoldsTo (record { action_type = t; value = value }) a
unfolding parse_food
food_said t none a e h = absurd cc
food_said t (some value) a e h =
    let (food, same, spelled) = food_from_word value a h in
    subst (λ x. FoldsTo (record { action_type = t; value = some value }) x) same (e, spelled)

play_said :
    (t : String) (value : Option String) (a : PlayerAction)
    → folded t ≡ codes "play"
    → parse_play value ≡ some a
    → FoldsTo (record { action_type = t; value = value }) a
unfolding parse_play
play_said t none a e h = absurd cc
play_said t (some value) a e h =
    let (game, same, spelled) = play_from_word value a h in
    subst (λ x. FoldsTo (record { action_type = t; value = some value }) x) same (e, spelled)

pub parsed-FoldsTo :
    (p : ActionPayload) (a : PlayerAction) → parse_player_action p ≡ some a → FoldsTo p a
unfolding parse_player_action
parsed-FoldsTo p a h =
    let text = folded p.action_type in
    elim (if_some (reads text "sleep") sleep a _ h) [
      | inl (e, same) ↦ subst (FoldsTo p) same (same_codes-eq text _ e)
      | inr h2 ↦ elim (Bool-cases (reads text "feed")) [
        | inl e ↦ food_said p.action_type p.value a (same_codes-eq text _ e) (if_true _ _ _ e h2)
        | inr unfed ↦ elim (Bool-cases (reads text "play")) [
          | inl e ↦
              play_said p.action_type p.value a (same_codes-eq text _ e)
                (if_true _ _ _ e (if_false _ _ _ unfed h2))
          | inr unplayed ↦ absurd (none_some a (if_false _ _ _ unplayed (if_false _ _ _ unfed h2)))
        ]
      ]
    ]
  where
    if_true :
        (b : Bool) (x y : Option PlayerAction)
        → b ≡ true
        → (if b then x else y) ≡ some a
        → x ≡ some a
    if_true true x y e h = h
    if_true false x y e h = absurd cc

    if_false :
        (b : Bool) (x y : Option PlayerAction)
        → b ≡ false
        → (if b then x else y) ≡ some a
        → y ≡ some a
    if_false false x y e h = h
    if_false true x y e h = absurd cc

    none_some : (a : PlayerAction) → none ≡ some a → ⊥
    none_some a e = cc

FoldsTo-parsed_feed :
    (t : String) (food : FoodType) (value : Option String)
    → folded t ≡ codes "feed"
    → FoldsToWord (food_word food) value
    → parse_player_action (record { action_type = t; value = value }) ≡ some (feed food)
unfolding parse_player_action parse_food
FoldsTo-parsed_feed t food none e h = absurd h
FoldsTo-parsed_feed t FoodType.meat (some v) e h = rw (e, h) refl
FoldsTo-parsed_feed t FoodType.fruit (some v) e h = rw (e, h) refl
FoldsTo-parsed_feed t FoodType.fish (some v) e h = rw (e, h) refl

FoldsTo-parsed_play :
    (t : String) (game : PlayType) (value : Option String)
    → folded t ≡ codes "play"
    → FoldsToWord (play_word game) value
    → parse_player_action (record { action_type = t; value = value }) ≡ some (play game)
unfolding parse_player_action parse_play
FoldsTo-parsed_play t game none e h = absurd h
FoldsTo-parsed_play t PlayType.fetch (some v) e h = rw (e, h) refl
FoldsTo-parsed_play t PlayType.puzzle (some v) e h = rw (e, h) refl
FoldsTo-parsed_play t PlayType.music (some v) e h = rw (e, h) refl

pub FoldsTo-parsed :
    (p : ActionPayload) (a : PlayerAction) → FoldsTo p a → parse_player_action p ≡ some a
unfolding parse_player_action
FoldsTo-parsed p sleep e = rw e refl
FoldsTo-parsed p (feed food) e = FoldsTo-parsed_feed p.action_type food p.value e.0 e.1
FoldsTo-parsed p (play game) e = FoldsTo-parsed_play p.action_type game p.value e.0 e.1
