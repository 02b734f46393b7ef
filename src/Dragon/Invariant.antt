-- ===== src/Dragon/Invariant.antt =====
-- The invariant of a dragon, with the lemmas of `act` and `tick_dragon`.
use dragon_shift.Common.{ℕ, ◌+◌, ◌≤◌, ◌<◌, ◌≡◌, Bool, true, arith, ltb, is_some}
use dragon_shift.Protocol.{Phase, DragonAction, FoodType, PlayType}
use dragon_shift.Dragon.{
  SessionDragon, PlayerAction, feed, play, sleep, Earned, apply_feed, apply_play, apply_sleep,
  perform, act,
}
use dragon_shift.Dragon.Tick.{
  shift_reaction, yawn, drain, sadden, forgive, fall_silent, cool_down, wake, count_tick, suffer,
  settle, tick_dragon,
}

pub record WellFormed (d : SessionDragon) : Type 0 where
  pub hunger_le : d.hunger ≤ 100
  pub energy_le : d.energy ≤ 100
  pub happiness_le : d.happiness ≤ 100
  pub lowest_le : d.phase2_lowest_happiness ≤ 100
  pub cooldown_le : d.action_cooldown ≤ 2
  pub shield_le : d.sleep_shield_ticks ≤ 1
  pub speech_timer_le : d.speech_timer ≤ 5
  pub decay_timer_lt : d.penalty_decay_timer < 6
  pub stacks_le_peak : d.penalty_stacks ≤ d.peak_penalty_stacks
  pub accounted :
      d.total_actions
      ≡ d.correct_actions + d.wrong_food_count + d.wrong_play_count + d.wrong_sleep_count
  pub slept_le : d.correct_sleep_count ≤ d.correct_actions
  pub peak_le :
      d.peak_penalty_stacks ≤ d.wrong_food_count + d.wrong_play_count + d.wrong_sleep_count
  pub food_found : d.found_correct_food ≡ true → d.correct_sleep_count < d.correct_actions
  pub play_found : d.found_correct_play ≡ true → d.correct_sleep_count < d.correct_actions
  pub speaking : is_some d.speech ≡ ltb 0 d.speech_timer
  pub shielded : 0 < d.sleep_shield_ticks → d.last_action ≡ DragonAction.sleep
  pub asleep : d.last_action ≡ DragonAction.sleep → 0 < d.sleep_shield_ticks

apply_feed-WellFormed :
    (chef quick : Bool) (food : FoodType) (d : SessionDragon)
    → WellFormed d
    → WellFormed (apply_feed chef quick food d).0
unfolding apply_feed
apply_feed-WellFormed chef quick food d h = ground arith

apply_play-WellFormed :
    (spirit quick : Bool) (game : PlayType) (d : SessionDragon)
    → WellFormed d
    → WellFormed (apply_play spirit quick game d).0
unfolding apply_play
apply_play-WellFormed spirit quick game d h = ground arith

apply_sleep-WellFormed :
    (is_day : Bool) (d : SessionDragon) → WellFormed d → WellFormed (apply_sleep is_day d).0
unfolding apply_sleep
apply_sleep-WellFormed is_day d h = ground arith

perform-WellFormed :
    (earned : Earned) (is_day : Bool) (action : PlayerAction) (d : SessionDragon)
    → WellFormed d
    → WellFormed (perform earned is_day action d).0
unfolding perform
perform-WellFormed earned is_day (feed food) d h =
    apply_feed-WellFormed earned.master_chef earned.speed_learner food d h
perform-WellFormed earned is_day (play game) d h =
    apply_play-WellFormed earned.playful_spirit earned.speed_learner game d h
perform-WellFormed earned is_day sleep d h = apply_sleep-WellFormed is_day d h

-- Every action of a player, performed, refused or made during a cooldown, keeps a dragon well
-- formed.
pub act-WellFormed :
    (earned : Earned) (is_day : Bool) (action : PlayerAction) (d : SessionDragon)
    → WellFormed d
    → WellFormed (act earned is_day action d).0
unfolding act
act-WellFormed earned is_day action d h =
    ground (arith, perform-WellFormed earned is_day action d h)

shift_reaction-WellFormed :
    (is_day was_day : Bool) (d : SessionDragon)
    → WellFormed d
    → WellFormed (shift_reaction is_day was_day d)
unfolding shift_reaction
shift_reaction-WellFormed is_day was_day d h = ground arith

yawn-WellFormed :
    (wrong_time : Bool) (time : ℕ) (d : SessionDragon)
    → WellFormed d
    → WellFormed (yawn wrong_time time d)
unfolding yawn
yawn-WellFormed wrong_time time d h = ground arith

drain-WellFormed :
    (wrong_time : Bool) (multiplier : ℕ) (d : SessionDragon)
    → WellFormed d
    → WellFormed (drain wrong_time multiplier d)
unfolding drain
drain-WellFormed wrong_time multiplier d h = ground arith

sadden-WellFormed :
    (wrong_time : Bool) (multiplier : ℕ) (d : SessionDragon)
    → WellFormed d
    → WellFormed (sadden wrong_time multiplier d)
unfolding sadden
sadden-WellFormed wrong_time multiplier d h = ground arith

forgive-WellFormed : (d : SessionDragon) → WellFormed d → WellFormed (forgive d)
unfolding forgive
forgive-WellFormed d h = ground arith

fall_silent-WellFormed : (d : SessionDragon) → WellFormed d → WellFormed (fall_silent d)
unfolding fall_silent
fall_silent-WellFormed d h = ground arith

cool_down-WellFormed : (d : SessionDragon) → WellFormed d → WellFormed (cool_down d)
unfolding cool_down
cool_down-WellFormed d h = ground arith

wake-WellFormed : (d : SessionDragon) → WellFormed d → WellFormed (wake d)
unfolding wake
wake-WellFormed d h = ground arith

count_tick-WellFormed :
    (phase : Phase) (d : SessionDragon) → WellFormed d → WellFormed (count_tick phase d)
unfolding count_tick
count_tick-WellFormed phase d h = ground arith

-- A tick of the clock keeps a dragon well formed.
pub tick_dragon-WellFormed :
    (phase : Phase) (time : ℕ) (d : SessionDragon)
    → WellFormed d
    → WellFormed (tick_dragon phase time d)
unfolding tick_dragon suffer settle
tick_dragon-WellFormed phase time d h = count_tick-WellFormed phase _ (
    wake-WellFormed _ (
      cool_down-WellFormed _ (
        fall_silent-WellFormed _ (
          forgive-WellFormed _ (
            sadden-WellFormed _ _ _ (
              drain-WellFormed _ _ _
                (yawn-WellFormed _ _ _ (shift_reaction-WellFormed _ _ _ h))))))))
