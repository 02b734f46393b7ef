-- ===== src/Examples/Dragons.antt =====
-- Tests of single dragons.
use dragon_shift.Common.{◌≡◌, refl, arith, true, false, some, ltb}
use dragon_shift.Protocol.{Phase, FoodType}
use dragon_shift.Dragon.{SessionDragon, feed, sleep, applied, Earned, act, perform, apply_feed}
use dragon_shift.Dragon.Tick.{tick_dragon}
use dragon_shift.Dragon.Invariant.{WellFormed, act-WellFormed, tick_dragon-WellFormed}
use dragon_shift.Dragon.Decay.{ticks, ticks-penalty}
use dragon_shift.Dragon.Cooldown.{is_violation, act-ticks-act}
use dragon_shift.Session.Start.{new_dragon}
use dragon_shift.Session.Names.{random_dragon_name}
use dragon_shift.Examples.{hatchling}

abbrev nothing_earned : Earned
nothing_earned = record { master_chef = false; playful_spirit = false; speed_learner = false }

hatchling-WellFormed : WellFormed hatchling
unfolding new_dragon random_dragon_name
hatchling-WellFormed = record {
  hunger_le = omega arith;
  energy_le = omega arith;
  happiness_le = omega arith;
  lowest_le = omega arith;
  cooldown_le = omega arith;
  shield_le = omega arith;
  speech_timer_le = omega arith;
  decay_timer_lt = omega arith;
  stacks_le_peak = omega arith;
  accounted = omega arith;
  slept_le = omega arith;
  peak_le = omega arith;
  food_found = λ h. cc;
  play_found = λ h. cc;
  speaking = refl;
  shielded = λ h. absurd (omega arith);
  asleep = λ h. cc;
}

act-WellFormed_example : WellFormed (act nothing_earned true (feed FoodType.meat) hatchling).0
act-WellFormed_example =
    act-WellFormed nothing_earned true (feed FoodType.meat) hatchling hatchling-WellFormed

tick_dragon-WellFormed_example : WellFormed (tick_dragon Phase.phase1 17 hatchling)
tick_dragon-WellFormed_example =
    tick_dragon-WellFormed Phase.phase1 17 hatchling hatchling-WellFormed

fed : (act nothing_earned true (feed FoodType.meat) hatchling).1 ≡ applied (some "master_chef") true
unfolding act perform apply_feed new_dragon
fed = refl

act-ticks-act_example :
    is_violation
      (act nothing_earned true sleep
        (ticks Phase.phase1 16 1 (act nothing_earned true (feed FoodType.meat) hatchling).0)).1
    ≡ ltb 1 2
act-ticks-act_example =
    act-ticks-act nothing_earned nothing_earned true true (feed FoodType.meat) sleep Phase.phase1 16
      1 hatchling (some "master_chef") true hatchling-WellFormed.happiness_le fed

-- A dragon after two wrong choices.
abbrev upset : SessionDragon
upset = record hatchling { penalty_stacks = 2; penalty_decay_timer = 3; peak_penalty_stacks = 2 }

ticks-penalty_example : (ticks Phase.phase2 0 9 upset).penalty_stacks ≡ 0
ticks-penalty_example = ticks-penalty Phase.phase2 0 9 upset (omega arith) (omega arith)
