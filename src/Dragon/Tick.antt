-- ===== src/Dragon/Tick.antt =====
-- platform/crates/domain/src/lib.rs, `advance_tick`: what one tick of the 48-tick day does to one
-- dragon, stage by stage in the order of the loop's body.
use dragon_shift.Common.{
  ℕ, ◌+◌, ◌-◌, ◌*◌, ◌%◌, min, String, Bool, not, ◌&&◌, ◌||◌, none, some, List, [], ◌∷◌, ◌++◌, ltb,
  leb, ◌==◌, if◌then◌else◌, is_none,
}
use dragon_shift.Protocol.{Phase, DragonAction, DragonEmotion, phase_eq, is_sleep}
use dragon_shift.Dragon.{SessionDragon, is_daytime, is_off_time, ambient_emotion}

-- Day breaks or night falls: the tries start again, and a silent dragon reacts.
unfoldable pub shift_reaction : Bool → Bool → SessionDragon → SessionDragon
shift_reaction is_day was_day d =
    if (is_day && not was_day) || (not is_day && was_day)
    then (if d.speech_timer == 0
        then record d {
          food_tries = 0;
          play_tries = 0;
          speech = some (if is_day then "*blink*..." else "*stretch*...");
          speech_timer = 3;
        }
        else record d { food_tries = 0; play_tries = 0 })
    else d

-- A silent, unshielded dragon yawns every eighth tick of its inactive half.
unfoldable pub yawn : Bool → ℕ → SessionDragon → SessionDragon
yawn wrong_time time d =
    if wrong_time && (d.sleep_shield_ticks == 0 && (d.speech_timer == 0 && (time % 8 == 0)))
    then record d {
      speech = some "*yaaawn*...";
      speech_timer = 3;
      last_emotion = DragonEmotion.sleepy;
    }
    else d

-- Hunger and energy run down; the multiplier is 2 in Phase 2.
unfoldable pub drain : Bool → ℕ → SessionDragon → SessionDragon
drain wrong_time multiplier d = record d {
  hunger = d.hunger - multiplier;
  energy = d.energy - d.sleep_rate * (if wrong_time then 2 else 1) * multiplier;
}

abbrev pub happiness_decay : Bool → SessionDragon → ℕ
happiness_decay wrong_time d =
    1
    + (if ltb d.hunger 20 then 1 else 0)
    + (if ltb d.energy 20 then 1 else 0)
    + (if wrong_time && (d.sleep_shield_ticks == 0) then 1 else 0)
    + min d.penalty_stacks 4

unfoldable pub sadden : Bool → ℕ → SessionDragon → SessionDragon
sadden wrong_time multiplier d = record d {
  happiness = d.happiness - happiness_decay wrong_time d * multiplier;
}

-- One penalty stack goes every sixth tick.
unfoldable pub forgive : SessionDragon → SessionDragon
forgive d =
    if ltb 0 d.penalty_stacks
    then (if leb 6 (d.penalty_decay_timer + 1)
        then record d { penalty_stacks = d.penalty_stacks - 1; penalty_decay_timer = 0 }
        else record d { penalty_decay_timer = d.penalty_decay_timer + 1 })
    else record d { penalty_decay_timer = 0 }

unfoldable pub fall_silent : SessionDragon → SessionDragon
fall_silent d =
    if ltb 0 d.speech_timer
    then (if d.speech_timer - 1 == 0
        then record d {
          speech_timer = d.speech_timer - 1;
          speech = none;
          last_emotion = if is_sleep d.last_action then d.last_emotion else ambient_emotion d;
        }
        else record d { speech_timer = d.speech_timer - 1 })
    else d

-- The cooldown runs down by one if it stands above 0.
unfoldable pub cool_down : SessionDragon → SessionDragon
cool_down d = record d { action_cooldown = d.action_cooldown - 1 }

unfoldable pub wake : SessionDragon → SessionDragon
wake d =
    if ltb 0 d.sleep_shield_ticks
    then (if (d.sleep_shield_ticks - 1 == 0) && is_sleep d.last_action
        then record d {
          sleep_shield_ticks = d.sleep_shield_ticks - 1;
          last_action = DragonAction.idle;
          last_emotion = if is_none d.speech then ambient_emotion d else d.last_emotion;
        }
        else record d { sleep_shield_ticks = d.sleep_shield_ticks - 1 })
    else d

-- The counters of the phase.
unfoldable pub count_tick : Phase → SessionDragon → SessionDragon
count_tick phase d =
    if phase_eq phase Phase.phase1
    then record d {
      high_happiness_ticks = if leb 90 d.happiness then d.high_happiness_ticks + 1 else 0;
    }
    else record d {
      phase2_ticks = d.phase2_ticks + 1;
      phase2_lowest_happiness =
          if ltb d.happiness d.phase2_lowest_happiness
          then d.happiness
          else d.phase2_lowest_happiness;
    }

-- The achievements of the tick, from the dragon after all stages.
unfoldable pub tick_awards : Phase → SessionDragon → List String
tick_awards phase d =
    (if d.happiness == 0 then "rock_bottom" ∷ [] else [])
    ++ (if not (phase_eq phase Phase.phase1)
          && (leb 60 d.happiness && (leb 20 d.phase2_ticks && leb 60 d.phase2_lowest_happiness))
        then "steady_hand" ∷ []
        else [])

abbrev pub decay_multiplier : Phase → ℕ
decay_multiplier phase = if phase_eq phase Phase.phase2 then 2 else 1

-- The first half of the loop's body, up to the loss of happiness.
unfoldable pub suffer : Phase → ℕ → SessionDragon → SessionDragon
suffer phase time d =
    let is_day = is_daytime time in
    let was_day = is_daytime ((time + 47) % 48) in
    let wrong_time = is_off_time d.active_time is_day in
    let multiplier = decay_multiplier phase in
    sadden wrong_time multiplier
      (drain wrong_time multiplier (yawn wrong_time time (shift_reaction is_day was_day d)))

-- The second half: everything that runs out.
unfoldable pub settle : Phase → SessionDragon → SessionDragon
settle phase d = count_tick phase (wake (cool_down (fall_silent (forgive d))))

-- One tick of a dragon whose owner is connected, `time` being the new time.
unfoldable pub tick_dragon : Phase → ℕ → SessionDragon → SessionDragon
tick_dragon phase time d = settle phase (suffer phase time d)
