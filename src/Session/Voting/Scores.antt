-- ===== src/Session/Voting/Scores.antt =====
-- What the judge's scores add up to for each player.
use dragon_shift.Common.{
  ℕ, ◌≡◌, refl, sym, ap, ◌∙◌, String, Option, none, some, List, [], ◌∷◌, ◌++◌, Option-cases, inl,
  inr, arith, if◌then◌else◌, str_eq, if_split,
}
use mathlib.Core.Option
use dragon_shift.Common.I32.{ℤ, pos, ◌+ℤ◌, wrap}
use dragon_shift.BTreeMap.{BTreeMap, string_key, get, update, map_values}
use dragon_shift.BTreeMap.Laws.{get-update, get-map_values}
use dragon_shift.Dragon.{SessionDragon}
use dragon_shift.Session.{SessionPlayer, WorkshopSession}
use dragon_shift.Session.Voting.{Evaluation, add_score, judged, score_all, apply_judge_scores}

-- The points that a dragon's evaluation is worth to a player: those of the observation to its maker,
-- those of the care to its keeper.
abbrev pub points_of_dragon : String → Evaluation → Option SessionDragon → List ℤ
points_of_dragon player_id e none = []
points_of_dragon player_id e (some dragon) =
    (if str_eq dragon.original_owner_id player_id then e.observation_score ∷ [] else [])
    ++ (if str_eq dragon.current_owner_id player_id then e.care_score ∷ [] else [])

-- The points of all evaluations, those of unknown dragons left out.
abbrev pub points : BTreeMap String SessionDragon → String → List Evaluation → List ℤ
points dragons player_id [] = []
points dragons player_id (e ∷ es) =
    points_of_dragon player_id e (get e.dragon_id dragons) ++ points dragons player_id es

-- A sum of 32-bit numbers.
abbrev pub total : ℤ → List ℤ → ℤ
total z [] = z
total z (x ∷ xs) = total (wrap (z +ℤ x)) xs

abbrev pub scored : ℤ → SessionPlayer → SessionPlayer
scored z player = record player { score = z }

total-append : (z : ℤ) (xs ys : List ℤ) → total z (xs ++ ys) ≡ total (total z xs) ys
total-append z [] ys = refl
total-append z (x ∷ xs) ys = total-append (wrap (z +ℤ x)) xs ys

-- The judge's words change nobody's points.
points_of_dragon-judged :
    (player_id : String) (e f : Evaluation) (o : Option SessionDragon)
    → points_of_dragon player_id e (Option.map (judged f) o) ≡ points_of_dragon player_id e o
points_of_dragon-judged player_id e f none = refl
points_of_dragon-judged player_id e f (some dragon) = refl

points-judged :
    (dragons : BTreeMap String SessionDragon) (player_id : String) (f : Evaluation)
    (es : List Evaluation)
    → points (update f.dragon_id (judged f) dragons) player_id es ≡ points dragons player_id es
points-judged dragons player_id f [] = refl
points-judged dragons player_id f (e ∷ es) =
    let here : points_of_dragon player_id e
          (get e.dragon_id (update f.dragon_id (judged f) dragons))
        ≡ points_of_dragon player_id e (get e.dragon_id dragons) =
      rw (get-update f.dragon_id e.dragon_id (judged f) dragons) (
        if_split
          (λ o.
            points_of_dragon player_id e o ≡ points_of_dragon player_id e (get e.dragon_id dragons))
          (str_eq f.dragon_id e.dragon_id)
          (λ _. points_of_dragon-judged player_id e f (get e.dragon_id dragons)) (λ _. refl)) in
    ap (λ x. x ++ points (update f.dragon_id (judged f) dragons) player_id es) here
    ∙ ap (λ x. points_of_dragon player_id e (get e.dragon_id dragons) ++ x)
        (points-judged dragons player_id f es)

-- What one evaluation adds to a player.
add_score-points :
    (e : Evaluation) (dragon : SessionDragon) (id : String)
    (players : BTreeMap String SessionPlayer) (player : SessionPlayer)
    → get id players ≡ some player
    → get id (
        update dragon.current_owner_id
          (add_score e.care_score)
          (update dragon.original_owner_id (add_score e.observation_score) players))
      ≡ some (scored (total player.score (points_of_dragon id e (some dragon))) player)
add_score-points e dragon id players player h =
    let made = update dragon.original_owner_id (add_score e.observation_score) players in
    rw
      (
        get-update dragon.current_owner_id id (add_score e.care_score) made,
        get-update dragon.original_owner_id id (add_score e.observation_score) players,
        h,
      )
      (ground arith)

score_all-points :
    (es : List Evaluation) (id : String) (players : BTreeMap String SessionPlayer)
    (dragons : BTreeMap String SessionDragon) (player : SessionPlayer)
    → get id players ≡ some player
    → get id (score_all es players dragons).0
      ≡ some (scored (total player.score (points dragons id es)) player)
unfolding score_all
score_all-points [] id players dragons player h = h
score_all-points (e ∷ es) id players dragons player h =
    elim (Option-cases (get e.dragon_id dragons)) [
      | inl absent ↦ rw (absent, score_all) (score_all-points es id players dragons player h)
      | inr (dragon, found) ↦
          let here = points_of_dragon id e (some dragon) in
          let one = add_score-points e dragon id players player h in
          let rest =
            score_all-points es id _ (update e.dragon_id (judged e) dragons)
              (scored (total player.score here) player) one in
          rw (found, score_all)
            (rest
              ∙ ap (λ xs. some (scored (total (total player.score here) xs) player))
                  (points-judged dragons id e es)
              ∙ ap (λ z. some (scored z player))
                  (sym (total-append player.score here (points dragons id es))))
    ]

-- After `apply_judge_scores` a player differs only in the score, which is the sum from 0, wrapped to
-- 32 bits, of the observation scores of the evaluated dragons that they made and the care scores of
-- those that they look after; evaluations of unknown dragons count nothing.
pub apply_judge_scores-points :
    (now : ℕ) (evaluations : List Evaluation) (id : String) (s : WorkshopSession)
    (player : SessionPlayer)
    → get id s.players ≡ some player
    → get id (apply_judge_scores now evaluations s).players
      ≡ some (scored (total (pos 0) (points s.dragons id evaluations)) player)
unfolding apply_judge_scores
apply_judge_scores-points now evaluations id s player h =
    score_all-points evaluations id (map_values (scored (pos 0)) s.players) s.dragons
      (scored (pos 0) player)
      (get-map_values id (scored (pos 0)) s.players ∙ ap (Option.map (scored (pos 0))) h)
