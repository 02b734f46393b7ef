-- ===== src/Session/Handover.antt =====
-- platform/crates/domain/src/lib.rs, what one team leaves to the next: `record_discovery_observation`,
-- `save_handover_tags`, `enter_phase2`, `enter_phase2_after_deadline` and their common body
-- `enter_phase2_with_missing_handover`.
pub mod Notes
pub mod Places
pub mod Rotation
use mathlib.Core.List.{reverse}
use dragon_shift.Common.{
  ℕ, ◌+◌, ◌-◌, String, Bool, true, false, not, ◌&&◌, ◌||◌, Option, none, some, List, [], ◌∷◌, ◌++◌,
  length, take, is_some, if◌then◌else◌, ltb, ◌==◌, str_eq,
}
use dragon_shift.BTreeMap.{BTreeMap, string_key, get, update, keys, values}
use dragon_shift.Protocol.{Phase, DragonAction, DragonEmotion}
use dragon_shift.Dragon.{SessionDragon}
use dragon_shift.Session.{
  SessionPlayer, WorkshopSession, missing_handover_tags, invalid_handover_tag_count, Result, ok,
  err, handover_tag_count, touch, on_ok, transition_to, dragon_of,
}

-- Pushes a text and keeps the last six, by the code's two reversals.
abbrev pub push_observation : String → List String → List String
push_observation text observations = reverse (take 6 (reverse (observations ++ text ∷ [])))

unfoldable pub record_discovery_observation :
    ℕ → String → String → WorkshopSession → WorkshopSession
record_discovery_observation now player_id text s = elim (dragon_of s.players player_id) [
  | none ↦ s
  | some dragon_id ↦ touch now (record s {
    dragons =
        update dragon_id
          (λ dragon. record dragon {
            discovery_observations = push_observation text dragon.discovery_observations;
          })
          s.dragons;
  })
]

unfoldable pub save_handover_tags :
    ℕ → String → List String → WorkshopSession → WorkshopSession × Result (Unit {0})
save_handover_tags now player_id tags s =
    if length tags == handover_tag_count
    then elim (dragon_of s.players player_id) [
      | none ↦ (s, ok tt)
      | some dragon_id ↦ (
        touch now (record s {
          dragons = update dragon_id (λ dragon. record dragon { handover_tags = tags }) s.dragons;
        }),
        ok tt,
      )
    ]
    else (s, err (invalid_handover_tag_count handover_tag_count (length tags)))

abbrev pub fallback_handover_tags : List String
fallback_handover_tags =
    "Auto handover: notes were not finished before the deadline."
    ∷ "Start with safe observations and watch how the dragon reacts."
    ∷ "Pay attention to food and play preferences — they stay the same." ∷ []

-- A dragon whose notes are too few.
abbrev pub lacks_tags : SessionDragon → Bool
lacks_tags dragon = ltb (length dragon.handover_tags) handover_tag_count

abbrev pub dragon_of_player : SessionPlayer → BTreeMap String SessionDragon → Option SessionDragon
dragon_of_player player dragons = elim player.current_dragon_id [
  | none ↦ none
  | some dragon_id ↦ get dragon_id dragons
]

-- What the loop does to the dragons for one player.
abbrev pub fill_for :
    Bool → SessionPlayer → BTreeMap String SessionDragon → BTreeMap String SessionDragon
fill_for allow_missing player dragons = elim player.current_dragon_id [
  | none ↦ dragons
  | some dragon_id ↦
      if not player.is_connected || allow_missing
      then update dragon_id
          (λ dragon.
            if lacks_tags dragon
            then record dragon { handover_tags = fallback_handover_tags }
            else dragon)
          dragons
      else dragons
]

-- The name of a player whose dragon the loop fills.
abbrev pub filled_name : Bool → SessionPlayer → BTreeMap String SessionDragon → List String
filled_name allow_missing player dragons = elim (dragon_of_player player dragons) [
  | none ↦ []
  | some dragon ↦
      if (not player.is_connected || allow_missing) && lacks_tags dragon
      then player.name ∷ []
      else []
]

-- The first loop, over the players: the dragons after it and the names that it collects.
unfoldable pub auto_fill :
    Bool
    → List SessionPlayer
    → BTreeMap String SessionDragon
    → BTreeMap String SessionDragon × List String
auto_fill allow_missing [] dragons = (dragons, [])
auto_fill allow_missing (player ∷ players) dragons =
    let (after, names) = auto_fill allow_missing players (fill_for allow_missing player dragons) in
    (after, filled_name allow_missing player dragons ++ names)

-- The names of the connected players whose dragons lack notes.
unfoldable pub missing_players :
    Bool → List SessionPlayer → BTreeMap String SessionDragon → List String
missing_players allow_missing [] dragons = []
missing_players allow_missing (player ∷ players) dragons =
    let rest = missing_players allow_missing players dragons in
    elim (dragon_of_player player dragons) [
      | none ↦ rest
      | some dragon ↦
          if player.is_connected && (not allow_missing && lacks_tags dragon)
          then player.name ∷ rest
          else rest
    ]

-- The last of a list that begins with `x`.
abbrev pub last_or : String → List String → String
last_or x [] = x
last_or x (y ∷ ys) = last_or y ys

-- The last of the ids first, the others after it in their order.
unfoldable pub shifted : List String → List String
shifted [] = []
shifted (id ∷ ids) = last_or id ids ∷ take (length ids) (id ∷ ids)

-- A dragon's new start in Phase 2.
unfoldable pub new_shift : String → SessionDragon → SessionDragon
new_shift greeting dragon = record dragon {
  hunger = 80;
  energy = 80;
  happiness = 80;
  food_tries = 0;
  play_tries = 0;
  action_cooldown = 0;
  sleep_shield_ticks = 0;
  phase2_ticks = 0;
  phase2_lowest_happiness = 100;
  wrong_food_count = 0;
  wrong_play_count = 0;
  wrong_sleep_count = 0;
  correct_sleep_count = 0;
  cooldown_violations = 0;
  total_actions = 0;
  correct_actions = 0;
  penalty_stacks = 0;
  penalty_decay_timer = 0;
  peak_penalty_stacks = 0;
  found_correct_food = false;
  found_correct_play = false;
  last_action = DragonAction.idle;
  last_emotion = DragonEmotion.neutral;
  speech = some greeting;
  speech_timer = 5;
}

-- The loop that hands the i-th of the shifted dragons to the i-th player; players past them keep
-- what they have.
unfoldable pub hand_over :
    List String
    → List String
    → BTreeMap String SessionPlayer
    → BTreeMap String SessionDragon
    → BTreeMap String SessionPlayer × BTreeMap String SessionDragon
hand_over [] dragon_ids players dragons = (players, dragons)
hand_over (player_id ∷ player_ids) [] players dragons = (players, dragons)
hand_over (player_id ∷ player_ids) (dragon_id ∷ dragon_ids) players dragons =
    hand_over player_ids dragon_ids
      (update player_id (λ player. record player { current_dragon_id = some dragon_id }) players)
      (update dragon_id
        (λ dragon. record (new_shift "Where am I? Who are you?" dragon) {
          current_owner_id = player_id;
        })
        dragons)

-- A single player keeps its dragon for the new shift.
unfoldable pub single_shift :
    List String
    → BTreeMap String SessionPlayer
    → BTreeMap String SessionDragon
    → BTreeMap String SessionDragon
single_shift [] players dragons = dragons
single_shift (player_id ∷ _) players dragons = elim (dragon_of players player_id) [
  | none ↦ dragons
  | some dragon_id ↦
      update dragon_id
        (new_shift "New shift, same dragon. Time to document and support your own handoff.") dragons
]

-- More than one player rotate their dragons.
unfoldable pub reassign :
    BTreeMap String SessionPlayer
    → BTreeMap String SessionDragon
    → BTreeMap String SessionPlayer × BTreeMap String SessionDragon
reassign players dragons =
    if ltb 1 (length (keys players))
    then hand_over (keys players) (shifted (keys dragons)) players dragons
    else (players, single_shift (keys players) players dragons)

-- The same after its transition.
unfoldable pub start_phase2 :
    ℕ → List String → WorkshopSession → WorkshopSession × Result (List String)
start_phase2 now names s =
    let (players, dragons) = reassign s.players s.dragons in
    (touch now (record s { players = players; dragons = dragons }), ok names)

-- The end of `enter_phase2_with_missing_handover`, for the players whose notes are missing.
unfoldable pub refuse_or_shift :
    ℕ → List String → List String → WorkshopSession → WorkshopSession × Result (List String)
refuse_or_shift now names (player ∷ players) s = (s, err (missing_handover_tags (player ∷ players)))
refuse_or_shift now names [] s = on_ok (transition_to now Phase.phase2 s) (start_phase2 now names)

-- On an error the notes that the first loop filled in stay.
unfoldable pub enter_phase2_with_missing_handover :
    ℕ → Bool → WorkshopSession → WorkshopSession × Result (List String)
enter_phase2_with_missing_handover now allow_missing s =
    let (filled, names) = auto_fill allow_missing (values s.players) s.dragons in
    refuse_or_shift now names (missing_players allow_missing (values s.players) filled)
      (record s { dragons = filled })

unfoldable pub enter_phase2 : ℕ → WorkshopSession → WorkshopSession × Result (List String)
unfolding enter_phase2_with_missing_handover
enter_phase2 now s = enter_phase2_with_missing_handover now false s

unfoldable pub enter_phase2_after_deadline :
    ℕ → WorkshopSession → WorkshopSession × Result (List String)
unfolding enter_phase2_with_missing_handover
enter_phase2_after_deadline now s = enter_phase2_with_missing_handover now true s
