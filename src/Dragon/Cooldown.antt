-- ===== src/Dragon/Cooldown.antt =====
-- How long a dragon that was tended waits for the next action.
use dragon_shift.Common.{
  ℕ, ◌-◌, ◌≤◌, ◌≡◌, Bool, true, false, arith, Option, ltb, Bool-cases, inl, inr, refl, subst, ◌∙◌,
  String,
}
use dragon_shift.Protocol.{Phase}
use dragon_shift.Dragon.{
  SessionDragon, PlayerAction, feed, play, sleep, ActionOutcome, applied, blocked,
  cooldown_violation, Earned, apply_feed, apply_play, apply_sleep, perform, act,
}
use dragon_shift.Dragon.Effects.{Describes, act-Describes}
use dragon_shift.Dragon.Decay.{ticks, ticks-cooldown}

abbrev pub is_violation : ActionOutcome → Bool
is_violation (applied award right) = false
is_violation (blocked reason) = false
is_violation cooldown_violation = true

perform_allows :
    (earned : Earned) (is_day : Bool) (action : PlayerAction) (d : SessionDragon)
    → is_violation (perform earned is_day action d).1 ≡ false
unfolding perform apply_feed apply_play apply_sleep
perform_allows earned is_day (feed food) d = ground arith
perform_allows earned is_day (play game) d = ground arith
perform_allows earned is_day sleep d = ground arith

-- An action is a violation exactly while the cooldown runs.
act_violation :
    (earned : Earned) (is_day : Bool) (action : PlayerAction) (d : SessionDragon)
    → is_violation (act earned is_day action d).1 ≡ ltb 0 d.action_cooldown
unfolding act
act_violation earned is_day action d = elim (Bool-cases (ltb 0 d.action_cooldown)) [
  | inl e ↦ rw e refl
  | inr e ↦ rw e (perform_allows earned is_day action d)
]

ltb_shift : (c n : ℕ) → c ≡ 2 - n → ltb 0 c ≡ ltb n 2
ltb_shift c n h = ground arith

-- After an action that was applied to a dragon of happiness at most 100 and `n` ticks, whatever
-- they and the next action are, that action is a cooldown violation exactly if `n` is below 2.
pub act-ticks-act :
    (first second : Earned) (day later : Bool) (action next : PlayerAction) (phase : Phase)
    (time n : ℕ) (d : SessionDragon) (award : Option String) (right : Bool)
    → d.happiness ≤ 100
    → (act first day action d).1 ≡ applied award right
    → is_violation (act second later next (ticks phase time n (act first day action d).0)).1
      ≡ ltb n 2
act-ticks-act first second day later action next phase time n d award right h e =
    let after = (act first day action d).0 in
    let told : Describes d after (applied award right) =
      subst (Describes d after) e (act-Describes first day action d h) in
    let left = ticks-cooldown phase time n after in
    act_violation second later next (ticks phase time n after)
    ∙ ltb_shift (ticks phase time n after).action_cooldown n (omega (arith, told, left))
