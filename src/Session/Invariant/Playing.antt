-- ===== src/Session/Invariant/Playing.antt =====
-- The invariant and the game's own operations, and the judge's scores.
use dragon_shift.Common.{
  ℕ, ◌+◌, ◌%◌, ◌≡◌, inl, inr, refl, ◌&&◌, String, Option, none, some, List, [], ◌∷◌, arith, leb,
  Option-cases, Bool-cases, if_split,
}
use dragon_shift.Common.I32.{pos}
use dragon_shift.BTreeMap.{BTreeMap, string_key, get, values}
use dragon_shift.BTreeMap.Laws.{Entries-get}
use dragon_shift.Protocol.{Phase}
use dragon_shift.Dragon.{
  SessionDragon, PlayerAction, ActionOutcome, applied, blocked, cooldown_violation, is_daytime, act,
}
use dragon_shift.Dragon.Invariant.{WellFormed, act-WellFormed, tick_dragon-WellFormed}
use dragon_shift.Dragon.Tick.{tick_dragon}
use dragon_shift.Dragon.Frame.{SameNotes, act-SameNotes, tick_dragon-SameNotes}
use dragon_shift.Session.{SessionPlayer, WorkshopSession, dragon_of}
use dragon_shift.Session.Play.{
  award, in_play, earned_by, award_named, award_outcome, act_on, apply_action, is_tended,
  tick_dragons, award_each, award_all, run_tick, advance_tick, phase_end_result, apply_awards,
  award_phase_end_achievements,
}
use dragon_shift.Session.Voting.{Evaluation, judged, score_all, apply_judge_scores}
use dragon_shift.Session.Invariant.{
  DragonOk, PlayersOk, DragonsOk, IsValid, PlayersOk-update, PlayersOk-map_values, DragonsOk-update,
}

pub award-id : (name : String) (p : SessionPlayer) → (award name p).id ≡ p.id
award-id name p = ground arith

award_named-PlayersOk :
    (name : Option String) (id : String) (players : BTreeMap String SessionPlayer)
    → PlayersOk players
    → PlayersOk (award_named name id players)
award_named-PlayersOk none id players v = v
award_named-PlayersOk (some name) id players v =
    PlayersOk-update id (award name) players (award-id name) v

award_outcome-PlayersOk :
    (outcome : ActionOutcome) (d : SessionDragon) (id : String)
    (players : BTreeMap String SessionPlayer)
    → PlayersOk players
    → PlayersOk (award_outcome outcome d id players)
award_outcome-PlayersOk (applied name right) d id players v =
    let named = award_named-PlayersOk name id players v in
    if_split PlayersOk (d.found_correct_food && (d.found_correct_play && leb d.total_actions 3))
      (λ _. PlayersOk-update id _ _ (award-id "speed_learner") named) (λ _. named)
award_outcome-PlayersOk (blocked reason) d id players v = v
award_outcome-PlayersOk cooldown_violation d id players v = v

-- What keeps the notes and stays well formed stays in order.
DragonOk-SameNotes :
    (key : String) (d e : SessionDragon)
    → SameNotes d e
    → WellFormed e
    → DragonOk key d
    → DragonOk key e
DragonOk-SameNotes key d e same w h = record {
  keyed = cc (same.id, h.keyed);
  well_formed = w;
  observed = rw same.observations h.observed;
  noted = rw same.tags h.noted;
}

act_on-IsValid :
    (now : ℕ) (player : String) (action : PlayerAction) (id : String) (d : SessionDragon)
    (s : WorkshopSession)
    → get id s.dragons ≡ some d
    → IsValid s
    → IsValid (act_on now player action id d s).0
unfolding act_on
act_on-IsValid now player action id d s found v =
    let earned = earned_by s player in
    let day = is_daytime s.time in
    let before = Entries-get DragonOk id s.dragons v.1.1 found in
    let after = act earned day action d in
    (
      award_outcome-PlayersOk after.1 after.0 player s.players v.0,
      DragonsOk-update id _ s.dragons
          (λ _ _.
            DragonOk-SameNotes id d _ (act-SameNotes earned day action d)
              (act-WellFormed earned day action d before.well_formed) before)
          v.1,
      v.2,
    )

pub apply_action-IsValid :
    (now : ℕ) (player : String) (action : PlayerAction) (s : WorkshopSession)
    → IsValid s
    → IsValid (apply_action now player action s).0
unfolding apply_action
apply_action-IsValid now player action s v = elim (Bool-cases (in_play s.phase)) [
  | inr e ↦ rw e v
  | inl e ↦ rw e (elim (Option-cases (dragon_of s.players player)) [
    | inl f ↦ rw f v
    | inr (id, f) ↦ rw f (elim (Option-cases (get id s.dragons)) [
      | inl g ↦ rw g v
      | inr (d, g) ↦ rw g (act_on-IsValid now player action id d s g v)
    ])
  ])
]

tick_dragons-keys :
    (phase : Phase) (time : ℕ) (players : BTreeMap String SessionPlayer) (key : String)
    (dragons : BTreeMap String SessionDragon)
    → get key dragons ≡ none
    → get key (tick_dragons phase time players dragons).0 ≡ none
unfolding tick_dragons get
tick_dragons-keys phase time players key [] h = refl
tick_dragons-keys phase time players key ((id, d) ∷ m) h =
    ground (arith, tick_dragons-keys phase time players key m)

tick_dragons-DragonsOk :
    (phase : Phase) (time : ℕ) (players : BTreeMap String SessionPlayer)
    (dragons : BTreeMap String SessionDragon)
    → DragonsOk dragons
    → DragonsOk (tick_dragons phase time players dragons).0
unfolding tick_dragons
tick_dragons-DragonsOk phase time players [] v = (tt, tt)
tick_dragons-DragonsOk phase time players ((id, d) ∷ m) v =
    let rest = tick_dragons-DragonsOk phase time players m (v.0.1, v.1.1) in
    let fresh = tick_dragons-keys phase time players id m v.0.0 in
    let ticked =
      DragonOk-SameNotes id d (tick_dragon phase time d) (tick_dragon-SameNotes phase time d)
        (tick_dragon-WellFormed phase time d v.1.0.well_formed) v.1.0 in
    elim (Bool-cases (is_tended players d)) [
      | inl e ↦ rw e ((fresh, rest.0), (ticked, rest.1))
      | inr e ↦ rw e ((fresh, rest.0), (v.1.0, rest.1))
    ]

award_each-PlayersOk :
    (id : String) (names : List String) (players : BTreeMap String SessionPlayer)
    → PlayersOk players
    → PlayersOk (award_each id names players).0
unfolding award_each
award_each-PlayersOk id [] players v = v
award_each-PlayersOk id (name ∷ names) players v =
    award_each-PlayersOk id names _ (PlayersOk-update id (award name) players (award-id name) v)

award_all-PlayersOk :
    (awarded : List (String × List String)) (players : BTreeMap String SessionPlayer)
    → PlayersOk players
    → PlayersOk (award_all awarded players).0
unfolding award_all
award_all-PlayersOk [] players v = v
award_all-PlayersOk ((id, names) ∷ awarded) players v =
    award_all-PlayersOk awarded _ (award_each-PlayersOk id names players v)

pub advance_tick-IsValid :
    (now : ℕ) (s : WorkshopSession) → IsValid s → IsValid (advance_tick now s).0
unfolding advance_tick run_tick
advance_tick-IsValid now s v = elim (Bool-cases (in_play s.phase)) [
  | inr e ↦ rw e v
  | inl e ↦
      let time = (s.time + 1) % 48 in
      rw e (
        award_all-PlayersOk (tick_dragons s.phase time s.players s.dragons).1 s.players v.0,
        tick_dragons-DragonsOk s.phase time s.players s.dragons v.1,
        omega arith,
      )
]

apply_awards-PlayersOk :
    (result : List (String × String)) (players : BTreeMap String SessionPlayer)
    → PlayersOk players
    → PlayersOk (apply_awards result players)
unfolding apply_awards
apply_awards-PlayersOk [] players v = v
apply_awards-PlayersOk ((id, name) ∷ result) players v =
    apply_awards-PlayersOk result _ (PlayersOk-update id (award name) players (award-id name) v)

pub award_phase_end_achievements-IsValid :
    (now : ℕ) (s : WorkshopSession) → IsValid s → IsValid (award_phase_end_achievements now s).0
unfolding award_phase_end_achievements
award_phase_end_achievements-IsValid now s v =
    (apply_awards-PlayersOk (phase_end_result s.players (values s.dragons)) s.players v.0, v.1, v.2)

judged-DragonOk :
    (key : String) (e : Evaluation) (d : SessionDragon) → DragonOk key d → DragonOk key (judged e d)
judged-DragonOk key e d h = ground arith

score_all-IsValid :
    (es : List Evaluation) (players : BTreeMap String SessionPlayer)
    (dragons : BTreeMap String SessionDragon)
    → PlayersOk players
    → DragonsOk dragons
    → PlayersOk (score_all es players dragons).0 × DragonsOk (score_all es players dragons).1
unfolding score_all
score_all-IsValid [] players dragons p d = (p, d)
score_all-IsValid (e ∷ es) players dragons p d = elim (Option-cases (get e.dragon_id dragons)) [
  | inl none_there ↦ rw (none_there, score_all) (score_all-IsValid es players dragons p d)
  | inr (x, found) ↦
      rw (found, score_all)
        (score_all-IsValid es _ _
          (PlayersOk-update x.current_owner_id _ _ (λ q. refl)
            (PlayersOk-update x.original_owner_id _ players (λ q. refl) p))
          (DragonsOk-update e.dragon_id (judged e) dragons
            (λ y h. judged-DragonOk e.dragon_id e y h) d))
]

pub apply_judge_scores-IsValid :
    (now : ℕ) (es : List Evaluation) (s : WorkshopSession)
    → IsValid s
    → IsValid (apply_judge_scores now es s)
unfolding apply_judge_scores
apply_judge_scores-IsValid now es s v =
    let (p, d) =
      score_all-IsValid es _ s.dragons
        (PlayersOk-map_values (λ q. record q { score = pos 0 }) s.players (λ q. refl) v.0) v.1 in
    (p, d, v.2)
