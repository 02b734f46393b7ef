-- ===== src/Server/Actions/Words.antt =====
-- Which words `parse_player_action` of platform/app-server/src/helpers.rs takes for an action.
use dragon_shift.Common.{◌≡◌, ◌↔◌, refl, String, Option, none, some, [], arith}
use dragon_shift.Common.Text.{codes, trim, trim_start, trim_end, to_ascii_lowercase}
use dragon_shift.Protocol.{FoodType, PlayType}
use dragon_shift.Dragon.{PlayerAction, feed, play, sleep}
use dragon_shift.Server.Actions.Folding.{FoldsToWord, FoldsTo, parsed-FoldsTo, FoldsTo-parsed}
use dragon_shift.Server.Actions.Spelling.{IsSpelling, IsPlain, folded-IsSpelling, IsSpelling-folded}
use dragon_shift.Server.Actions.{ActionPayload, folded, print_player_action, parse_player_action}

-- A value that is there and spells a word.
abbrev pub Spells : String → Option String → Type 0
Spells word none = ⊥
Spells word (some text) = IsSpelling word text

-- A payload spells the action. The value of a sleep is free.
abbrev pub Says : ActionPayload → PlayerAction → Type 0
Says p sleep = IsSpelling "sleep" p.action_type
Says p (feed FoodType.meat) = IsSpelling "feed" p.action_type × Spells "meat" p.value
Says p (feed FoodType.fruit) = IsSpelling "feed" p.action_type × Spells "fruit" p.value
Says p (feed FoodType.fish) = IsSpelling "feed" p.action_type × Spells "fish" p.value
Says p (play PlayType.fetch) = IsSpelling "play" p.action_type × Spells "fetch" p.value
Says p (play PlayType.puzzle) = IsSpelling "play" p.action_type × Spells "puzzle" p.value
Says p (play PlayType.music) = IsSpelling "play" p.action_type × Spells "music" p.value

Spells-folds :
    (word : String) (value : Option String)
    → IsPlain word
    → ¬ (codes word ≡ [])
    → Spells word value ↔ FoldsToWord word value
Spells-folds word none plain some_word = (λ h. h, λ h. h)
Spells-folds word (some text) plain some_word =
    (IsSpelling-folded word text some_word, folded-IsSpelling word text plain)

Says_both :
    (first second text : String) (value : Option String)
    → IsPlain first × ¬ (codes first ≡ [])
    → IsPlain second × ¬ (codes second ≡ [])
    → (IsSpelling first text × Spells second value)
      ↔ ((folded text ≡ codes first) × FoldsToWord second value)
Says_both first second text value p q =
    let (to, from) = Spells-folds second value q.0 q.1 in
    (
      λ h. (IsSpelling-folded first text p.1 h.0, to h.1),
      λ h. (folded-IsSpelling first text p.0 h.0, from h.1),
    )

Says-folds : (p : ActionPayload) (a : PlayerAction) → Says p a ↔ FoldsTo p a
Says-folds p sleep = (
  IsSpelling-folded "sleep" p.action_type (λ e. cc),
  folded-IsSpelling "sleep" p.action_type (ground arith),
)
Says-folds p (feed FoodType.meat) =
    Says_both "feed" "meat" p.action_type p.value (ground arith) (ground arith)
Says-folds p (feed FoodType.fruit) =
    Says_both "feed" "fruit" p.action_type p.value (ground arith) (ground arith)
Says-folds p (feed FoodType.fish) =
    Says_both "feed" "fish" p.action_type p.value (ground arith) (ground arith)
Says-folds p (play PlayType.fetch) =
    Says_both "play" "fetch" p.action_type p.value (ground arith) (ground arith)
Says-folds p (play PlayType.puzzle) =
    Says_both "play" "puzzle" p.action_type p.value (ground arith) (ground arith)
Says-folds p (play PlayType.music) =
    Says_both "play" "music" p.action_type p.value (ground arith) (ground arith)

-- An action is parsed from a payload exactly when the payload's texts spell its words: letter by
-- letter, small or capital, with nothing but white space before and after. The type is "sleep",
-- "feed" or "play"; the value of a feeding is "meat", "fruit" or "fish", that of a play is "fetch",
-- "puzzle" or "music", and that of a sleep is free.
pub parse_player_action-Says :
    (p : ActionPayload) (a : PlayerAction) → (parse_player_action p ≡ some a) ↔ Says p a
parse_player_action-Says p a =
    let (says, folds) = Says-folds p a in
    (λ h. folds (parsed-FoldsTo p a h), λ h. FoldsTo-parsed p a (says h))

-- What the client's buttons send for an action is read as that action.
pub parse-print_player_action :
    (a : PlayerAction) → parse_player_action (print_player_action a) ≡ some a
unfolding folded trim trim_start trim_end to_ascii_lowercase
parse-print_player_action a = FoldsTo-parsed (print_player_action a) a (printed a)
  where
    printed : (a : PlayerAction) → FoldsTo (print_player_action a) a
    printed sleep = refl
    printed (feed FoodType.meat) = (refl, refl)
    printed (feed FoodType.fruit) = (refl, refl)
    printed (feed FoodType.fish) = (refl, refl)
    printed (play PlayType.fetch) = (refl, refl)
    printed (play PlayType.puzzle) = (refl, refl)
    printed (play PlayType.music) = (refl, refl)
