-- ===== src/Session/Start.antt =====
-- platform/crates/domain/src/lib.rs, the start of a game and its reset: `assign_player_character`,
-- `begin_phase1` and `reset_to_lobby`. What `rand` draws for each dragon is an argument.
pub mod Hatching
use dragon_shift.Common.{
  ℕ, suc, String, Bool, true, false, none, some, List, [], ◌∷◌, map, filter_by, is_some, is_none,
  and_then, if◌then◌else◌, ◌==◌, str_eq,
}
use dragon_shift.Common.I32.{pos}
use dragon_shift.BTreeMap.{BTreeMap, string_key, get, insert, update, values, map_values, retain}
use dragon_shift.Protocol.{
  Phase, CharacterProfile, FoodType, PlayType, ActiveTime, DragonAction, DragonEmotion,
}
use dragon_shift.Dragon.{SessionDragon}
use dragon_shift.Session.Names.{random_dragon_name}
use dragon_shift.Session.{
  SessionPlayer, WorkshopSession, action_not_allowed, missing_selected_character, Result, ok, err,
  touch, on_ok, transition_to,
}

pub record Phase1Assignment : Type 0 where
  pub player_id : String
  pub dragon_id : String

-- What the random number generator gives for one dragon: a prefix and a suffix of its name, a coin,
-- a number below 3 for its food and its play, and a sleep rate of 1 or 2.
pub record Draws : Type 0 where
  pub prefix : ℕ
  pub suffix : ℕ
  pub coin : Bool
  pub food : ℕ
  pub play : ℕ
  pub rate : ℕ

abbrev pub random_active_time : Bool → ActiveTime
random_active_time coin = if coin then ActiveTime.day else ActiveTime.night

abbrev pub random_food_type : ℕ → FoodType
random_food_type n =
    if n == 0 then FoodType.meat else if n == 1 then FoodType.fruit else FoodType.fish

abbrev pub random_play_type : ℕ → PlayType
random_play_type n =
    if n == 0 then PlayType.fetch else if n == 1 then PlayType.puzzle else PlayType.music

unfoldable pub assign_player_character :
    ℕ → String → CharacterProfile → WorkshopSession → WorkshopSession × Result (Unit {0})
assign_player_character now player_id character s =
    if is_some (get player_id s.players)
    then (
      touch now (record s {
        players =
            update player_id
              (λ player. record player {
                character_id = some character.id;
                selected_character = some character;
                is_ready = true;
              })
              s.players;
      }),
      ok tt,
    )
    else (s, err action_not_allowed)

unfoldable pub new_dragon : Draws → Phase1Assignment → CharacterProfile → SessionDragon
new_dragon draws a character = record {
  id = a.dragon_id;
  name = random_dragon_name draws.prefix draws.suffix;
  original_owner_id = a.player_id;
  design_creator_account_id = character.creator_account_id;
  design_creator_name = character.creator_name;
  current_owner_id = a.player_id;
  creator_instructions = character.description;
  active_time = random_active_time draws.coin;
  favorite_food = random_food_type draws.food;
  favorite_play = random_play_type draws.play;
  sleep_rate = draws.rate;
  hunger = 80;
  energy = 80;
  happiness = 80;
  discovery_observations = [];
  handover_tags = [];
  last_action = DragonAction.idle;
  last_emotion = DragonEmotion.neutral;
  speech = some "Hello! I'm new here!";
  speech_timer = 5;
  action_cooldown = 0;
  sleep_shield_ticks = 0;
  food_tries = 0;
  play_tries = 0;
  high_happiness_ticks = 0;
  phase2_ticks = 0;
  phase2_lowest_happiness = 100;
  wrong_food_count = 0;
  wrong_play_count = 0;
  wrong_sleep_count = 0;
  correct_sleep_count = 0;
  cooldown_violations = 0;
  total_actions = 0;
  correct_actions = 0;
  penalty_stacks = 0;
  penalty_decay_timer = 0;
  peak_penalty_stacks = 0;
  found_correct_food = false;
  found_correct_play = false;
  judge_observation_score = none;
  judge_care_score = none;
  judge_feedback = none;
  judge_observation_feedback = none;
  judge_care_feedback = none;
}

-- The ids of the players, in the order of the map, who have selected no character.
unfoldable pub without_character : BTreeMap String SessionPlayer → List String
without_character players =
    map (λ (player : SessionPlayer). player.id)
      (filter_by (λ (player : SessionPlayer). is_none player.selected_character) (values players))

-- `score = 0; achievements.clear(); current_dragon_id = None`
abbrev pub cleared : SessionPlayer → SessionPlayer
cleared player = record player { score = pos 0; achievements = []; current_dragon_id = none }

-- The loop over the assignments; `draws i` is for the i-th of them. An unknown player is passed
-- over. A player without a character would be a panic: `begin_phase1` has refused that before.
unfoldable pub hatch :
    (ℕ → Draws)
    → List Phase1Assignment
    → BTreeMap String SessionPlayer
    → BTreeMap String SessionDragon
    → BTreeMap String SessionPlayer × BTreeMap String SessionDragon
hatch draws [] players dragons = (players, dragons)
hatch draws (a ∷ as') players dragons =
    elim (and_then (get a.player_id players) (λ player. player.selected_character)) [
      | none ↦ hatch (λ i. draws (suc i)) as' players dragons
      | some character ↦
          hatch (λ i. draws (suc i)) as'
            (update a.player_id (λ player. record player { current_dragon_id = some a.dragon_id })
              players)
            (insert a.dragon_id (new_dragon (draws 0) a character) dragons)
    ]

-- `begin_phase1` after its transition.
unfoldable pub start_phase1 :
    ℕ → (ℕ → Draws) → List Phase1Assignment → WorkshopSession → WorkshopSession × Result (Unit {0})
start_phase1 now draws assignments s =
    let (players, dragons) = hatch draws assignments (map_values cleared s.players) [] in
    (touch now (record s { time = 16; voting = none; players = players; dragons = dragons }), ok tt)

-- `begin_phase1`, for the players who lack a character.
unfoldable pub refuse_or_start :
    ℕ
    → (ℕ → Draws)
    → List Phase1Assignment
    → List String
    → WorkshopSession
    → WorkshopSession × Result (Unit {0})
refuse_or_start now draws assignments (id ∷ ids) s =
    (s, err (missing_selected_character (id ∷ ids)))
refuse_or_start now draws assignments [] s =
    on_ok (transition_to now Phase.phase1 s) (start_phase1 now draws assignments)

unfoldable pub begin_phase1 :
    ℕ → (ℕ → Draws) → List Phase1Assignment → WorkshopSession → WorkshopSession × Result (Unit {0})
begin_phase1 now draws assignments s =
    refuse_or_start now draws assignments (without_character s.players) s

unfoldable pub reset_to_lobby : ℕ → String → WorkshopSession → WorkshopSession × Result (Unit {0})
reset_to_lobby now host_player_id s = (
  touch now (record s {
    phase = Phase.lobby;
    time = 16;
    voting = none;
    dragons = [];
    players =
        update host_player_id
          (λ host. record (cleared host) { is_ready = is_some host.selected_character })
          (retain (λ id _. str_eq id host_player_id) s.players);
  }),
  ok tt,
)
