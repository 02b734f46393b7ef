-- ===== src/Server/Actions.antt =====
-- platform/app-server/src/helpers.rs: `parse_player_action`, the two words of a player's action.
pub mod Spelling
pub mod Folding
pub mod Words
use dragon_shift.Common.{ℕ, String, Bool, Option, none, some, List, if◌then◌else◌}
use dragon_shift.Common.Text.{trim, to_ascii_lowercase, codes, same_codes}
use dragon_shift.Protocol.{FoodType, PlayType}
use dragon_shift.Dragon.{PlayerAction, feed, play, sleep}

pub record ActionPayload : Type 0 where
  pub action_type : String
  pub value : Option String

-- A word as it is compared: trimmed, in lower case.
unfoldable pub folded : String → List ℕ
folded word = to_ascii_lowercase (trim word)

-- Whether a text that is trimmed and in lower case is the word.
abbrev pub reads : List ℕ → String → Bool
reads text word = same_codes text (codes word)

unfoldable pub parse_food : Option String → Option PlayerAction
parse_food none = none
parse_food (some value) =
    if reads (folded value) "meat"
    then some (feed FoodType.meat)
    else if reads (folded value) "fruit"
    then some (feed FoodType.fruit)
    else if reads (folded value) "fish"
    then some (feed FoodType.fish)
    else none

unfoldable pub parse_play : Option String → Option PlayerAction
parse_play none = none
parse_play (some value) =
    if reads (folded value) "fetch"
    then some (play PlayType.fetch)
    else if reads (folded value) "puzzle"
    then some (play PlayType.puzzle)
    else if reads (folded value) "music"
    then some (play PlayType.music)
    else none

unfoldable pub parse_player_action : ActionPayload → Option PlayerAction
parse_player_action payload =
    let action_type = folded payload.action_type in
    if reads action_type "sleep"
    then some sleep
    else if reads action_type "feed"
    then parse_food payload.value
    else if reads action_type "play"
    then parse_play payload.value
    else none

abbrev pub food_word : FoodType → String
food_word FoodType.meat = "meat"
food_word FoodType.fruit = "fruit"
food_word FoodType.fish = "fish"

abbrev pub play_word : PlayType → String
play_word PlayType.fetch = "fetch"
play_word PlayType.puzzle = "puzzle"
play_word PlayType.music = "music"

-- What the client's buttons send: platform/app-web/src/components/phase1_view.rs, and phase2_view.rs
-- with the same words.
abbrev pub print_player_action : PlayerAction → ActionPayload
print_player_action sleep = record { action_type = "sleep"; value = none }
print_player_action (feed food) = record { action_type = "feed"; value = some (food_word food) }
print_player_action (play game) = record { action_type = "play"; value = some (play_word game) }
