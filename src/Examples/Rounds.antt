-- ===== src/Examples/Rounds.antt =====
-- Tests of the start of a game and of its scores.
use dragon_shift.Common.{ℕ, ◌≡◌, refl, String, some, List, [], ◌∷◌}
use dragon_shift.Common.I32.{pos}
use dragon_shift.BTreeMap.{string_key, get}
use dragon_shift.Protocol.{Phase, FoodType}
use dragon_shift.Dragon.{feed}
use dragon_shift.Session.Play.{apply_action, advance_tick, award_phase_end_achievements}
use dragon_shift.Session.Play.Achievements.{EachOnce, achievements_unique}
use dragon_shift.Session.{SessionPlayer, WorkshopSession}
use dragon_shift.Session.Start.{Phase1Assignment}
use dragon_shift.Session.Voting.{Evaluation, apply_judge_scores}
use dragon_shift.Session.Voting.Scores.{points, total, scored, apply_judge_scores-points}
use dragon_shift.Examples.{joining, assignment, fresh}
use dragon_shift.Examples.Votes.{two_players, two_dragons}

abbrev in_lobby : WorkshopSession
in_lobby = record fresh { players = two_players }

abbrev assigned : List Phase1Assignment
assigned = assignment "ann" "dragon-ann" ∷ assignment "bob" "dragon-bob" ∷ []

bob_there : get "bob" in_lobby.players ≡ some (joining "bob" 2)
unfolding get
bob_there = refl

abbrev evaluation : String → ℕ → ℕ → Evaluation
evaluation dragon_id observation care = record {
  dragon_id = dragon_id;
  observation_score = pos observation;
  care_score = pos care;
  feedback = "";
  observation_feedback = "";
  care_feedback = "";
}

abbrev evaluations : List Evaluation
evaluations = evaluation "dragon-bob" 40 35 ∷ evaluation "dragon-cat" 9 9 ∷ []

abbrev at_review : WorkshopSession
at_review = record in_lobby { phase = Phase.judge; dragons = two_dragons }

apply_judge_scores-points_example :
    get "bob" (apply_judge_scores 9 evaluations at_review).players
    ≡ some (scored (total (pos 0) (points at_review.dragons "bob" evaluations)) (joining "bob" 2))
apply_judge_scores-points_example =
    apply_judge_scores-points 9 evaluations "bob" at_review (joining "bob" 2) bob_there

-- A day of Phase 1 in which one player has an achievement already.
abbrev proud : SessionPlayer
proud = record (joining "ann" 1) {
  current_dragon_id = some "dragon-ann";
  achievements = "master_chef" ∷ [];
}

abbrev playing : WorkshopSession
playing = record in_lobby {
  phase = Phase.phase1;
  players = ("ann", proud) ∷ [];
  dragons = two_dragons;
}

playing-EachOnce : EachOnce playing.players
playing-EachOnce = ((tt, tt), tt)

achievements_unique_example :
    EachOnce (apply_action 4 "ann" (feed FoodType.meat) playing).0.players
    × EachOnce (advance_tick 4 playing).0.players
    × EachOnce (award_phase_end_achievements 4 playing).0.players
achievements_unique_example =
    achievements_unique 4 "ann" (feed FoodType.meat) playing playing-EachOnce
