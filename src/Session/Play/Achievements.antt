-- ===== src/Session/Play/Achievements.antt =====
-- The achievements of the players under `apply_action`, `advance_tick` and
-- `award_phase_end_achievements`.
use dragon_shift.Common.{
  ℕ, ◌≡◌, ◌≢◌, sym, String, false, none, some, List, [], ◌∷◌, ◌++◌, All, any, Bool-cases,
  Option-cases, inl, inr, if_split, str_eq, eq_iff, leb, ◌&&◌,
}
use dragon_shift.BTreeMap.{BTreeMap, string_key, get, update}
use dragon_shift.BTreeMap.Laws.{Entries, Entries-update}
use dragon_shift.Dragon.{
  SessionDragon, PlayerAction, ActionOutcome, applied, blocked, cooldown_violation, act, is_daytime,
}
use dragon_shift.Session.{SessionPlayer, WorkshopSession, has_achievement, dragon_of}
use dragon_shift.Session.Handover.Places.{NoDup}
use dragon_shift.Session.Play.{
  award, earned_by, in_play, award_outcome, act_on, apply_action, award_each, award_all, run_tick,
  advance_tick, apply_awards, award_phase_end_achievements,
}

-- No player has an achievement twice.
abbrev pub EachOnce : BTreeMap String SessionPlayer → Type 0
EachOnce players = Entries (λ k (player : SessionPlayer). NoDup player.achievements) players

All-snoc :
    (P : String → Type 0) (x : String) (xs : List String) → All P xs → P x → All P (xs ++ x ∷ [])
All-snoc P x [] h p = (p, tt)
All-snoc P x (y ∷ ys) h p = (h.0, All-snoc P x ys h.1 p)

NoDup-snoc :
    (x : String) (xs : List String)
    → any (λ a. str_eq a x) xs ≡ false
    → NoDup xs
    → NoDup (xs ++ x ∷ [])
NoDup-snoc x [] h d = (tt, tt)
NoDup-snoc x (y ∷ ys) h d = elim (Bool-cases (str_eq y x)) [
  | inl e ↦ cc (rw e at h)
  | inr e ↦ (
    All-snoc (λ z. z ≢ y) x ys d.0 (λ same. cc ((eq_iff y x).1 (sym same), e)),
    NoDup-snoc x ys (rw e at h) d.1,
  )
]

award-NoDup :
    (name : String) (player : SessionPlayer)
    → NoDup player.achievements
    → NoDup (award name player).achievements
unfolding has_achievement
award-NoDup name player h =
    if_split (λ (p : SessionPlayer). NoDup p.achievements)
      (has_achievement name player.achievements) (λ _. h)
      (λ e. NoDup-snoc name player.achievements e h)

award-EachOnce :
    (id name : String) (players : BTreeMap String SessionPlayer)
    → EachOnce players
    → EachOnce (update id (award name) players)
award-EachOnce id name players h =
    Entries-update (λ k (player : SessionPlayer). NoDup player.achievements) id (award name) players
      (λ player d. award-NoDup name player d) h

award_outcome-EachOnce :
    (outcome : ActionOutcome) (dragon : SessionDragon) (id : String)
    (players : BTreeMap String SessionPlayer)
    → EachOnce players
    → EachOnce (award_outcome outcome dragon id players)
award_outcome-EachOnce (applied none right) dragon id players h =
    if_split EachOnce
      (dragon.found_correct_food && (dragon.found_correct_play && leb dragon.total_actions 3))
      (λ _. award-EachOnce id "speed_learner" players h) (λ _. h)
award_outcome-EachOnce (applied (some name) right) dragon id players h =
    let named = award-EachOnce id name players h in
    if_split EachOnce
      (dragon.found_correct_food && (dragon.found_correct_play && leb dragon.total_actions 3))
      (λ _. award-EachOnce id "speed_learner" _ named) (λ _. named)
award_outcome-EachOnce (blocked reason) dragon id players h = h
award_outcome-EachOnce cooldown_violation dragon id players h = h

award_each-EachOnce :
    (id : String) (names : List String) (players : BTreeMap String SessionPlayer)
    → EachOnce players
    → EachOnce (award_each id names players).0
unfolding award_each
award_each-EachOnce id [] players h = h
award_each-EachOnce id (name ∷ names) players h =
    award_each-EachOnce id names _ (award-EachOnce id name players h)

award_all-EachOnce :
    (awarded : List (String × List String)) (players : BTreeMap String SessionPlayer)
    → EachOnce players
    → EachOnce (award_all awarded players).0
unfolding award_all
award_all-EachOnce [] players h = h
award_all-EachOnce ((id, names) ∷ awarded) players h =
    award_all-EachOnce awarded _ (award_each-EachOnce id names players h)

apply_awards-EachOnce :
    (result : List (String × String)) (players : BTreeMap String SessionPlayer)
    → EachOnce players
    → EachOnce (apply_awards result players)
unfolding apply_awards
apply_awards-EachOnce [] players h = h
apply_awards-EachOnce ((id, name) ∷ result) players h =
    apply_awards-EachOnce result _ (award-EachOnce id name players h)

apply_action-EachOnce :
    (now : ℕ) (id : String) (action : PlayerAction) (s : WorkshopSession)
    → EachOnce s.players
    → EachOnce (apply_action now id action s).0.players
unfolding apply_action act_on
apply_action-EachOnce now id action s h = elim (Bool-cases (in_play s.phase)) [
  | inr e ↦ rw e h
  | inl e ↦ rw e (elim (Option-cases (dragon_of s.players id)) [
    | inl f ↦ rw f h
    | inr (dragon_id, f) ↦ rw f (elim (Option-cases (get dragon_id s.dragons)) [
      | inl g ↦ rw g h
      | inr (dragon, g) ↦
          let (after, outcome) = act (earned_by s id) (is_daytime s.time) action dragon in
          rw g (award_outcome-EachOnce outcome after id s.players h)
    ])
  ])
]

advance_tick-EachOnce :
    (now : ℕ) (s : WorkshopSession) → EachOnce s.players → EachOnce (advance_tick now s).0.players
unfolding advance_tick run_tick
advance_tick-EachOnce now s h =
    if_split (λ (x : WorkshopSession × List (String × String)). EachOnce x.0.players)
      (in_play s.phase) (λ _. award_all-EachOnce _ s.players h) (λ _. h)

-- If no player has an achievement twice, none has after an action, after a tick, or after the awards
-- at the end of Phase 2.
pub achievements_unique :
    (now : ℕ) (id : String) (action : PlayerAction) (s : WorkshopSession)
    → EachOnce s.players
    → EachOnce (apply_action now id action s).0.players
      × EachOnce (advance_tick now s).0.players
      × EachOnce (award_phase_end_achievements now s).0.players
achievements_unique now id action s h = (
  apply_action-EachOnce now id action s h,
  advance_tick-EachOnce now s h,
  unfold award_phase_end_achievements in apply_awards-EachOnce _ s.players h,
)
