-- ===== src/Dragon.antt =====
-- platform/crates/domain/src/lib.rs, the dragons: `SessionDragon`, the dragon's half of
-- `apply_action` (`act`), and `is_daytime`, `tick_to_hour` and `ambient_emotion`. `Dragon/Tick` is
-- the dragon's half of `advance_tick`. An `i32` field that the code keeps at 0 or more is a number:
-- each subtraction there is clamped by `max(0)` or stands behind a test.
pub mod Tick
pub mod Frame
pub mod Invariant
pub mod Effects
pub mod Decay
pub mod Cooldown
use dragon_shift.Common.{
  ℕ, ◌+◌, ◌-◌, ◌*◌, ◌/◌, ◌%◌, min, String, Bool, true, false, not, ◌&&◌, ◌||◌, Option, none, some,
  List, [], ◌∷◌, ltb, leb, ◌==◌, if◌then◌else◌, is_none,
}
use dragon_shift.Common.I32.{ℤ}
use dragon_shift.Protocol.{
  FoodType, PlayType, DragonAction, DragonEmotion, ActiveTime, food_eq, play_eq, is_day_type,
}

pub record SessionDragon : Type 0 where
  pub id : String
  pub name : String
  pub original_owner_id : String
  pub design_creator_account_id : Option String
  pub design_creator_name : Option String
  pub current_owner_id : String
  pub creator_instructions : String
  pub active_time : ActiveTime
  pub favorite_food : FoodType
  pub favorite_play : PlayType
  pub sleep_rate : ℕ
  pub hunger : ℕ
  pub energy : ℕ
  pub happiness : ℕ
  pub discovery_observations : List String
  pub handover_tags : List String
  pub last_action : DragonAction
  pub last_emotion : DragonEmotion
  pub speech : Option String
  pub speech_timer : ℕ
  pub action_cooldown : ℕ
  pub sleep_shield_ticks : ℕ
  pub food_tries : ℕ
  pub play_tries : ℕ
  pub high_happiness_ticks : ℕ
  pub phase2_ticks : ℕ
  pub phase2_lowest_happiness : ℕ
  pub wrong_food_count : ℕ
  pub wrong_play_count : ℕ
  pub wrong_sleep_count : ℕ
  pub correct_sleep_count : ℕ
  pub cooldown_violations : ℕ
  pub total_actions : ℕ
  pub correct_actions : ℕ
  pub penalty_stacks : ℕ
  pub penalty_decay_timer : ℕ
  pub peak_penalty_stacks : ℕ
  pub found_correct_food : Bool
  pub found_correct_play : Bool
  pub judge_observation_score : Option ℤ
  pub judge_care_score : Option ℤ
  pub judge_feedback : Option String
  pub judge_observation_feedback : Option String
  pub judge_care_feedback : Option String

pub data PlayerAction : Type 0 where
  feed : FoodType → PlayerAction
  play : PlayType → PlayerAction
  sleep : PlayerAction

pub data ActionBlockReason : Type 0 where
  already_full too_hungry_to_play too_tired_to_play too_awake_to_sleep : ActionBlockReason

pub data ActionOutcome : Type 0 where
  applied : Option String → Bool → ActionOutcome
  blocked : ActionBlockReason → ActionOutcome
  cooldown_violation : ActionOutcome

-- `(12..36).contains(&tick)`
abbrev pub is_daytime : ℕ → Bool
is_daytime tick = leb 12 tick && ltb tick 36

abbrev pub tick_to_hour : ℕ → ℕ
tick_to_hour tick = tick % 48 / 2

unfoldable pub ambient_emotion : SessionDragon → DragonEmotion
ambient_emotion d =
    if ltb d.energy 15
    then DragonEmotion.sleepy
    else if ltb d.happiness 15 || ltb d.hunger 15
    then DragonEmotion.angry
    else if leb 90 d.happiness
    then DragonEmotion.happy
    else DragonEmotion.neutral

-- Awake in its inactive half of the cycle; also the right time for its sleep.
abbrev pub is_off_time : ActiveTime → Bool → Bool
is_off_time active is_day =
    (is_day_type active && not is_day) || (not (is_day_type active) && is_day)

-- `if penalty_stacks > peak { peak = penalty_stacks }`
abbrev pub peak_of : ℕ → ℕ → ℕ
peak_of stacks peak = if ltb peak stacks then stacks else peak

-- The penalty of the `wrong`-th wrong choice.
abbrev pub escalating_penalty : ℕ → ℕ
escalating_penalty wrong = 12 + min (wrong - 1) 3 * 3

-- The award of a correct choice: its own at the first try, else the speed learner's.
abbrev pub choice_award : String → ℕ → Bool → Bool → ℕ → Bool → Option String
choice_award own tries has_own found_other total has_speed_learner =
    let first = if tries == 1 && not has_own then some own else none in
    if is_none first && (found_other && (leb total 3 && not has_speed_learner))
    then some "speed_learner"
    else first

-- What an action that refuses or answers says.
abbrev pub reply : String → DragonEmotion → SessionDragon → SessionDragon
reply text emotion d = record d { speech = some text; speech_timer = 4; last_emotion = emotion }

unfoldable pub feed_correct : SessionDragon → SessionDragon
feed_correct d = record d {
  correct_actions = d.correct_actions + 1;
  found_correct_food = true;
  hunger = min (d.hunger + 40) 100;
  happiness = min (d.happiness + 20) 100;
  last_emotion = DragonEmotion.happy;
  speech = some "Mmm~!";
  penalty_stacks = d.penalty_stacks - 1;
}

unfoldable pub feed_wrong : SessionDragon → SessionDragon
feed_wrong d = record d {
  wrong_food_count = d.wrong_food_count + 1;
  hunger = min (d.hunger + 5) 100;
  happiness = d.happiness - escalating_penalty (d.wrong_food_count + 1);
  last_emotion = DragonEmotion.angry;
  speech = some "Bleh...";
  penalty_stacks = d.penalty_stacks + 1;
  peak_penalty_stacks = peak_of (d.penalty_stacks + 1) d.peak_penalty_stacks;
}

unfoldable pub apply_feed : Bool → Bool → FoodType → SessionDragon → SessionDragon × ActionOutcome
unfolding feed_correct feed_wrong
apply_feed has_master_chef has_speed_learner food d =
    if leb 95 d.hunger
    then (reply "*burp*... no more..." DragonEmotion.neutral d, blocked already_full)
    else let tried = record d {
      last_action = DragonAction.feed;
      action_cooldown = 2;
      sleep_shield_ticks = 0;
      food_tries = d.food_tries + 1;
      total_actions = d.total_actions + 1;
    } in
      let award =
        choice_award "master_chef" tried.food_tries has_master_chef tried.found_correct_play
          tried.total_actions has_speed_learner in
      if food_eq food d.favorite_food
      then (record (feed_correct tried) { speech_timer = 4 }, applied award true)
      else (record (feed_wrong tried) { speech_timer = 4 }, applied none false)

unfoldable pub play_correct : SessionDragon → SessionDragon
play_correct d = record d {
  correct_actions = d.correct_actions + 1;
  found_correct_play = true;
  energy = d.energy - 20;
  happiness = min (d.happiness + 30) 100;
  last_emotion = DragonEmotion.happy;
  speech = some "Wheee~!";
  penalty_stacks = d.penalty_stacks - 1;
}

unfoldable pub play_wrong : SessionDragon → SessionDragon
play_wrong d = record d {
  wrong_play_count = d.wrong_play_count + 1;
  energy = d.energy - 15;
  happiness = d.happiness - escalating_penalty (d.wrong_play_count + 1);
  last_emotion = DragonEmotion.angry;
  speech = some "Hmph.";
  penalty_stacks = d.penalty_stacks + 1;
  peak_penalty_stacks = peak_of (d.penalty_stacks + 1) d.peak_penalty_stacks;
}

unfoldable pub apply_play : Bool → Bool → PlayType → SessionDragon → SessionDragon × ActionOutcome
unfolding play_correct play_wrong
apply_play has_playful_spirit has_speed_learner game d =
    if ltb d.hunger 20
    then (reply "*grumble*..." DragonEmotion.angry d, blocked too_hungry_to_play)
    else if ltb d.energy 20
    then (reply "*yawn*..." DragonEmotion.sleepy d, blocked too_tired_to_play)
    else let tried = record d {
      last_action = DragonAction.play;
      action_cooldown = 2;
      sleep_shield_ticks = 0;
      play_tries = d.play_tries + 1;
      total_actions = d.total_actions + 1;
    } in
      let award =
        choice_award "playful_spirit" tried.play_tries has_playful_spirit tried.found_correct_food
          tried.total_actions has_speed_learner in
      if play_eq game d.favorite_play
      then (record (play_correct tried) { speech_timer = 4 }, applied award true)
      else (record (play_wrong tried) { speech_timer = 4 }, applied none false)

unfoldable pub sleep_correct : SessionDragon → SessionDragon
sleep_correct d = record d {
  correct_sleep_count = d.correct_sleep_count + 1;
  correct_actions = d.correct_actions + 1;
  happiness = min (d.happiness + 15) 100;
  penalty_stacks = d.penalty_stacks - 1;
}

unfoldable pub sleep_wrong : SessionDragon → SessionDragon
sleep_wrong d = record d {
  wrong_sleep_count = d.wrong_sleep_count + 1;
  penalty_stacks = d.penalty_stacks + 1;
  peak_penalty_stacks = peak_of (d.penalty_stacks + 1) d.peak_penalty_stacks;
}

unfoldable pub apply_sleep : Bool → SessionDragon → SessionDragon × ActionOutcome
unfolding sleep_correct sleep_wrong
apply_sleep current_is_day d =
    if leb 90 d.energy
    then (reply "...?!" DragonEmotion.angry d, blocked too_awake_to_sleep)
    else let tried = record d {
      last_action = DragonAction.sleep;
      action_cooldown = 2;
      total_actions = d.total_actions + 1;
      energy = min (d.energy + 50) 100;
    } in
      let is_correct_time = is_off_time d.active_time current_is_day in
      let slept = if is_correct_time then sleep_correct tried else sleep_wrong tried in
      (
        record slept {
          sleep_shield_ticks = 1;
          last_emotion = DragonEmotion.sleepy;
          speech = some "Zzz...";
          speech_timer = 5;
        },
        applied none is_correct_time,
      )

-- Which of the inline achievements the acting player has.
pub record Earned : Type 0 where
  pub master_chef : Bool
  pub playful_spirit : Bool
  pub speed_learner : Bool

unfoldable pub perform :
    Earned → Bool → PlayerAction → SessionDragon → SessionDragon × ActionOutcome
unfolding apply_feed apply_play apply_sleep
perform earned is_day (feed food) d = apply_feed earned.master_chef earned.speed_learner food d
perform earned is_day (play game) d = apply_play earned.playful_spirit earned.speed_learner game d
perform earned is_day sleep d = apply_sleep is_day d

-- An action on a dragon: it waits out its cooldown, or performs.
unfoldable pub act : Earned → Bool → PlayerAction → SessionDragon → SessionDragon × ActionOutcome
unfolding perform
act earned is_day action d =
    if ltb 0 d.action_cooldown
    then (record d { cooldown_violations = d.cooldown_violations + 1 }, cooldown_violation)
    else perform earned is_day action d
