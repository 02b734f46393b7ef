-- ===== src/Dragon/Frame.antt =====
-- The fields of a dragon outside the game: who it is, whose it is, and its notes.
use dragon_shift.Common.{ℕ, ◌≡◌, ◌∙◌, Bool, arith}
use dragon_shift.Protocol.{Phase}
use dragon_shift.Dragon.{SessionDragon, PlayerAction, feed, play, sleep, Earned, perform, act}
use dragon_shift.Dragon.Tick.{
  shift_reaction, yawn, drain, sadden, forgive, fall_silent, cool_down, wake, count_tick, suffer,
  settle, tick_dragon,
}

pub record SameNotes (d e : SessionDragon) : Type 0 where
  pub id : e.id ≡ d.id
  pub creator : e.original_owner_id ≡ d.original_owner_id
  pub owner : e.current_owner_id ≡ d.current_owner_id
  pub observations : e.discovery_observations ≡ d.discovery_observations
  pub tags : e.handover_tags ≡ d.handover_tags

pub SameNotes-trans : (d e f : SessionDragon) → SameNotes d e → SameNotes e f → SameNotes d f
SameNotes-trans d e f h k = record {
  id = k.id ∙ h.id;
  creator = k.creator ∙ h.creator;
  owner = k.owner ∙ h.owner;
  observations = k.observations ∙ h.observations;
  tags = k.tags ∙ h.tags;
}

perform-SameNotes :
    (earned : Earned) (is_day : Bool) (action : PlayerAction) (d : SessionDragon)
    → SameNotes d (perform earned is_day action d).0
unfolding perform
perform-SameNotes earned is_day (feed food) d = ground arith
perform-SameNotes earned is_day (play game) d = ground arith
perform-SameNotes earned is_day sleep d = ground arith

pub act-SameNotes :
    (earned : Earned) (is_day : Bool) (action : PlayerAction) (d : SessionDragon)
    → SameNotes d (act earned is_day action d).0
unfolding act
act-SameNotes earned is_day action d = ground (arith, perform-SameNotes earned is_day action d)

shift_reaction-SameNotes :
    (is_day was_day : Bool) (d : SessionDragon) → SameNotes d (shift_reaction is_day was_day d)
unfolding shift_reaction
shift_reaction-SameNotes is_day was_day d = ground arith

yawn-SameNotes :
    (wrong_time : Bool) (time : ℕ) (d : SessionDragon) → SameNotes d (yawn wrong_time time d)
unfolding yawn
yawn-SameNotes wrong_time time d = ground arith

drain-SameNotes :
    (wrong_time : Bool) (multiplier : ℕ) (d : SessionDragon)
    → SameNotes d (drain wrong_time multiplier d)
unfolding drain
drain-SameNotes wrong_time multiplier d = ground arith

sadden-SameNotes :
    (wrong_time : Bool) (multiplier : ℕ) (d : SessionDragon)
    → SameNotes d (sadden wrong_time multiplier d)
unfolding sadden
sadden-SameNotes wrong_time multiplier d = ground arith

forgive-SameNotes : (d : SessionDragon) → SameNotes d (forgive d)
unfolding forgive
forgive-SameNotes d = ground arith

fall_silent-SameNotes : (d : SessionDragon) → SameNotes d (fall_silent d)
unfolding fall_silent
fall_silent-SameNotes d = ground arith

cool_down-SameNotes : (d : SessionDragon) → SameNotes d (cool_down d)
unfolding cool_down
cool_down-SameNotes d = ground arith

wake-SameNotes : (d : SessionDragon) → SameNotes d (wake d)
unfolding wake
wake-SameNotes d = ground arith

count_tick-SameNotes : (phase : Phase) (d : SessionDragon) → SameNotes d (count_tick phase d)
unfolding count_tick
count_tick-SameNotes phase d = ground arith

suffer-SameNotes :
    (phase : Phase) (time : ℕ) (d : SessionDragon) → SameNotes d (suffer phase time d)
unfolding suffer
suffer-SameNotes phase time d = SameNotes-trans d _ _ (shift_reaction-SameNotes _ _ d) (
    SameNotes-trans _ _ _ (yawn-SameNotes _ time _)
      (SameNotes-trans _ _ _ (drain-SameNotes _ _ _) (sadden-SameNotes _ _ _)))

settle-SameNotes : (phase : Phase) (d : SessionDragon) → SameNotes d (settle phase d)
unfolding settle
settle-SameNotes phase d = SameNotes-trans d _ _ (forgive-SameNotes d) (
    SameNotes-trans _ _ _ (fall_silent-SameNotes _) (
      SameNotes-trans _ _ _ (cool_down-SameNotes _)
        (SameNotes-trans _ _ _ (wake-SameNotes _) (count_tick-SameNotes phase _))))

-- A tick leaves a dragon's owners and notes alone.
pub tick_dragon-SameNotes :
    (phase : Phase) (time : ℕ) (d : SessionDragon) → SameNotes d (tick_dragon phase time d)
unfolding tick_dragon
tick_dragon-SameNotes phase time d =
    SameNotes-trans d _ _ (suffer-SameNotes phase time d) (settle-SameNotes phase _)
