-- ===== src/Dragon/Decay.antt =====
-- What time does to a dragon: how much a tick takes, and how long neglect and forgiveness last.
use dragon_shift.Common.{ℕ, zero, suc, ◌+◌, ◌-◌, ◌*◌, ◌%◌, ◌≤◌, ◌<◌, ◌≡◌, ◌⊎◌, Bool, arith, refl}
use dragon_shift.Protocol.{Phase}
use dragon_shift.Dragon.{SessionDragon, is_daytime, is_off_time}
use dragon_shift.Dragon.Tick.{
  tick_dragon, suffer, settle, shift_reaction, yawn, drain, sadden, forgive, fall_silent, cool_down,
  wake, count_tick, decay_multiplier, happiness_decay,
}

-- `n` ticks with no action between them, the clock standing at `time` before the first.
pub ticks : Phase → ℕ → ℕ → SessionDragon → SessionDragon
ticks phase time zero d = d
ticks phase time (suc n) d = ticks phase ((time + 1) % 48) n (tick_dragon phase ((time + 1) % 48) d)

-- The fields that only some stages of a tick touch.
record Kept (d e : SessionDragon) : Type 0 where
  happiness : e.happiness ≡ d.happiness
  stacks : e.penalty_stacks ≡ d.penalty_stacks
  timer : e.penalty_decay_timer ≡ d.penalty_decay_timer
  cooldown : e.action_cooldown ≡ d.action_cooldown

shift_reaction-Kept :
    (is_day was_day : Bool) (d : SessionDragon) → Kept d (shift_reaction is_day was_day d)
unfolding shift_reaction
shift_reaction-Kept is_day was_day d = ground arith

yawn-Kept : (wrong_time : Bool) (time : ℕ) (d : SessionDragon) → Kept d (yawn wrong_time time d)
unfolding yawn
yawn-Kept wrong_time time d = ground arith

fall_silent-Kept : (d : SessionDragon) → Kept d (fall_silent d)
unfolding fall_silent
fall_silent-Kept d = ground arith

wake-Kept : (d : SessionDragon) → Kept d (wake d)
unfolding wake
wake-Kept d = ground arith

count_tick-Kept : (phase : Phase) (d : SessionDragon) → Kept d (count_tick phase d)
unfolding count_tick
count_tick-Kept phase d = ground arith

happiness_decay_bounds :
    (wrong_time : Bool) (d : SessionDragon)
    → (1 ≤ happiness_decay wrong_time d) × (happiness_decay wrong_time d ≤ 8)
happiness_decay_bounds wrong_time d = ground arith

sub-mul_bounds : (h k m : ℕ) → 1 ≤ k → k ≤ 8 → (h - k * m ≤ h - m) × (h ≤ h - k * m + 8 * m)
sub-mul_bounds h k m p q = grind arith

-- What `sadden` takes.
sadden_bounds :
    (wrong_time : Bool) (multiplier : ℕ) (d : SessionDragon)
    → ((sadden wrong_time multiplier d).happiness ≤ d.happiness - multiplier)
      × (d.happiness ≤ (sadden wrong_time multiplier d).happiness + 8 * multiplier)
unfolding sadden
sadden_bounds wrong_time multiplier d =
    let (one, eight) = happiness_decay_bounds wrong_time d in
    sub-mul_bounds d.happiness (happiness_decay wrong_time d) multiplier one eight

-- What a tick does to the happiness, the penalties and the cooldown.
record Ticked (multiplier : ℕ) (d e : SessionDragon) : Type 0 where
  most : e.happiness ≤ d.happiness - multiplier
  least : d.happiness ≤ e.happiness + 8 * multiplier
  stacks : e.penalty_stacks ≡ (forgive d).penalty_stacks
  timer : e.penalty_decay_timer ≡ (forgive d).penalty_decay_timer
  cooldown : e.action_cooldown ≡ d.action_cooldown - 1

forgive_lem :
    (d e : SessionDragon)
    → e.penalty_stacks ≡ d.penalty_stacks
    → e.penalty_decay_timer ≡ d.penalty_decay_timer
    → ((forgive e).penalty_stacks ≡ (forgive d).penalty_stacks)
      × ((forgive e).penalty_decay_timer ≡ (forgive d).penalty_decay_timer)
      × ((forgive e).happiness ≡ e.happiness)
      × ((forgive e).action_cooldown ≡ e.action_cooldown)
unfolding forgive
forgive_lem d e s t = ground arith

suffer_lem :
    (phase : Phase) (time : ℕ) (d : SessionDragon)
    → let e = suffer phase time d in
      (e.happiness ≤ d.happiness - decay_multiplier phase)
      × (d.happiness ≤ e.happiness + 8 * decay_multiplier phase)
      × (e.penalty_stacks ≡ d.penalty_stacks)
      × (e.penalty_decay_timer ≡ d.penalty_decay_timer)
      × (e.action_cooldown ≡ d.action_cooldown)
unfolding suffer drain sadden
suffer_lem phase time d =
    let m = decay_multiplier phase in
    let is_day = is_daytime time in
    let wrong_time = is_off_time d.active_time is_day in
    let s = shift_reaction is_day (is_daytime ((time + 47) % 48)) d in
    let y = yawn wrong_time time s in
    omega (
      arith,
      shift_reaction-Kept is_day (is_daytime ((time + 47) % 48)) d,
      yawn-Kept wrong_time time s,
      sadden_bounds wrong_time m (drain wrong_time m y),
    )

settle_lem :
    (phase : Phase) (d : SessionDragon)
    → let e = settle phase d in
      (e.penalty_stacks ≡ (forgive d).penalty_stacks)
      × (e.penalty_decay_timer ≡ (forgive d).penalty_decay_timer)
      × (e.happiness ≡ d.happiness)
      × (e.action_cooldown ≡ d.action_cooldown - 1)
unfolding settle cool_down
settle_lem phase d =
    let f = fall_silent (forgive d) in
    let w = wake (cool_down f) in
    omega (
      arith,
      fall_silent-Kept (forgive d),
      wake-Kept (cool_down f),
      count_tick-Kept phase w,
      forgive_lem d d refl refl,
    )

tick_dragon_lem :
    (phase : Phase) (time : ℕ) (d : SessionDragon)
    → Ticked (decay_multiplier phase) d (tick_dragon phase time d)
unfolding tick_dragon
tick_dragon_lem phase time d =
    let e = suffer phase time d in
    let s = suffer_lem phase time d in omega (arith, s, settle_lem phase e, forgive_lem d e s.2 s.3)

-- A tick brings the last stack's forgiveness one tick nearer.
forgive_progress :
    (d : SessionDragon)
    → d.penalty_decay_timer < 6
    → let e = forgive d in
      (e.penalty_decay_timer < 6)
      × ((e.penalty_stacks ≡ 0)
          ⊎ (6 * e.penalty_stacks + d.penalty_decay_timer + 1
              ≤ 6 * d.penalty_stacks + e.penalty_decay_timer))
unfolding forgive
forgive_progress d lt = ground arith

-- A dragon whose decay timer is below 6 has no penalty stack left after `n` ticks without an action,
-- in any phase and at any time of day, where the timer and `n` together are at least 6 for each
-- stack.
pub ticks-penalty :
    (phase : Phase) (time n : ℕ) (d : SessionDragon)
    → d.penalty_decay_timer < 6
    → 6 * d.penalty_stacks ≤ d.penalty_decay_timer + n
    → (ticks phase time n d).penalty_stacks ≡ 0
unfolding ticks
ticks-penalty phase time zero d lt le = omega arith
ticks-penalty phase time (suc n) d lt le =
    let next = (time + 1) % 48 in
    let t = tick_dragon_lem phase next d in
    let f = forgive_progress d lt in
    ticks-penalty phase next n (tick_dragon phase next d) (omega (arith, t, f))
      (omega (arith, t, f))

-- The cooldown runs down by one a tick.
pub ticks-cooldown :
    (phase : Phase) (time n : ℕ) (d : SessionDragon)
    → (ticks phase time n d).action_cooldown ≡ d.action_cooldown - n
unfolding ticks
ticks-cooldown phase time zero d = omega arith
ticks-cooldown phase time (suc n) d =
    let next = (time + 1) % 48 in
    let e = tick_dragon phase next d in
    omega (arith, tick_dragon_lem phase next d, ticks-cooldown phase next n e)
