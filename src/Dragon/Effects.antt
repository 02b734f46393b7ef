-- ===== src/Dragon/Effects.antt =====
-- What an action does to a dragon: which outcomes leave it alone, what a right and a wrong choice
-- cost, and when it may be asked again.
use dragon_shift.Common.{
  ◌+◌, ◌-◌, ◌≤◌, ◌<◌, ◌≡◌, Bool, true, false, arith, ltb, Bool-cases, inl, inr,
}
use dragon_shift.Protocol.{FoodType, PlayType}
use dragon_shift.Dragon.{
  SessionDragon, PlayerAction, feed, play, sleep, ActionOutcome, applied, blocked,
  cooldown_violation, Earned, apply_feed, apply_play, apply_sleep, perform, act,
}

-- The parts of a dragon that score the player's care.
pub record SameCare (d e : SessionDragon) : Type 0 where
  pub hunger : e.hunger ≡ d.hunger
  pub energy : e.energy ≡ d.energy
  pub happiness : e.happiness ≡ d.happiness
  pub total : e.total_actions ≡ d.total_actions
  pub correct : e.correct_actions ≡ d.correct_actions
  pub stacks : e.penalty_stacks ≡ d.penalty_stacks
  pub peak : e.peak_penalty_stacks ≡ d.peak_penalty_stacks
  pub food_tries : e.food_tries ≡ d.food_tries
  pub play_tries : e.play_tries ≡ d.play_tries
  pub cooldown : e.action_cooldown ≡ d.action_cooldown
  pub shield : e.sleep_shield_ticks ≡ d.sleep_shield_ticks
  pub last_action : e.last_action ≡ d.last_action

-- What an applied action leaves behind, by whether the choice was right.
pub record Applied (d e : SessionDragon) (right : Bool) : Type 0 where
  pub total : e.total_actions ≡ d.total_actions + 1
  pub cooldown : e.action_cooldown ≡ 2
  pub praised : right ≡ true → e.correct_actions ≡ d.correct_actions + 1
  pub glad : right ≡ true → d.happiness ≤ e.happiness
  pub forgiven : right ≡ true → e.penalty_stacks ≡ d.penalty_stacks - 1
  pub blamed : right ≡ false → e.correct_actions ≡ d.correct_actions
  pub sad : right ≡ false → e.happiness ≤ d.happiness
  pub at_most : d.happiness ≤ e.happiness + 21
  pub stacked : right ≡ false → e.penalty_stacks ≡ d.penalty_stacks + 1
  pub same_violations : e.cooldown_violations ≡ d.cooldown_violations

-- How the outcome of an action describes the dragon after it.
abbrev pub Describes : SessionDragon → SessionDragon → ActionOutcome → Type 0
Describes d e (applied award right) = Applied d e right
Describes d e (blocked reason) = SameCare d e × (e.cooldown_violations ≡ d.cooldown_violations)
Describes d e cooldown_violation =
    SameCare d e × (e.cooldown_violations ≡ d.cooldown_violations + 1) × (0 < d.action_cooldown)

apply_feed-Describes :
    (chef quick : Bool) (food : FoodType) (d : SessionDragon)
    → d.happiness ≤ 100
    → Describes d (apply_feed chef quick food d).0 (apply_feed chef quick food d).1
unfolding apply_feed
apply_feed-Describes chef quick food d h = ground arith

apply_play-Describes :
    (spirit quick : Bool) (game : PlayType) (d : SessionDragon)
    → d.happiness ≤ 100
    → Describes d (apply_play spirit quick game d).0 (apply_play spirit quick game d).1
unfolding apply_play
apply_play-Describes spirit quick game d h = ground arith

apply_sleep-Describes :
    (is_day : Bool) (d : SessionDragon)
    → d.happiness ≤ 100
    → Describes d (apply_sleep is_day d).0 (apply_sleep is_day d).1
unfolding apply_sleep
apply_sleep-Describes is_day d h = ground arith

perform-Describes :
    (earned : Earned) (is_day : Bool) (action : PlayerAction) (d : SessionDragon)
    → d.happiness ≤ 100
    → Describes d (perform earned is_day action d).0 (perform earned is_day action d).1
unfolding perform
perform-Describes earned is_day (feed food) d h =
    apply_feed-Describes earned.master_chef earned.speed_learner food d h
perform-Describes earned is_day (play game) d h =
    apply_play-Describes earned.playful_spirit earned.speed_learner game d h
perform-Describes earned is_day sleep d h = apply_sleep-Describes is_day d h

pub act-Describes :
    (earned : Earned) (is_day : Bool) (action : PlayerAction) (d : SessionDragon)
    → d.happiness ≤ 100
    → Describes d (act earned is_day action d).0 (act earned is_day action d).1
unfolding act
act-Describes earned is_day action d h = elim (Bool-cases (ltb 0 d.action_cooldown)) [
  | inl e ↦ rw e (ground arith)
  | inr e ↦ rw e (perform-Describes earned is_day action d h)
]
