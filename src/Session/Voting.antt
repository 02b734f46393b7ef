-- ===== src/Session/Voting.antt =====
-- platform/crates/domain/src/lib.rs, the end of a workshop: `enter_judge`, `enter_voting`,
-- `submit_vote`, `reveal_voting_results`, `finalize_voting` and `apply_judge_scores`.
pub mod Ballots
pub mod Polling
pub mod Scores
use dragon_shift.Common.{
  ℕ, String, Bool, true, false, not, ◌&&◌, ◌||◌, Option, none, some, List, [], ◌∷◌, map, length,
  any, filter_by, is_some, is_none, is_some_and, if◌then◌else◌, ltb, str_eq,
}
use dragon_shift.Common.I32.{ℤ, pos, ◌+ℤ◌, wrap}
use dragon_shift.BTreeMap.{
  BTreeMap, string_key, get, contains_key, insert, update, values, map_values,
}
use dragon_shift.Protocol.{Phase}
use dragon_shift.Dragon.{SessionDragon}
use dragon_shift.Session.{
  SessionPlayer, VotingState, WorkshopSession, DomainError, voting_not_active, voting_closed,
  ineligible_voter, unknown_dragon, self_vote_forbidden, voting_reveal_not_ready,
  voting_results_not_revealed, Result, ok, err, touch, on_ok, transition_to,
}

unfoldable pub enter_judge : ℕ → WorkshopSession → WorkshopSession × Result (Unit {0})
enter_judge now s = on_ok (transition_to now Phase.judge s) (λ t. (touch now t, ok tt))

abbrev pub is_empty {ℓ} : {A : Type ℓ} → List A → Bool
is_empty [] = true
is_empty (_ ∷ _) = false

-- The players who have a dragon, if they are more than one.
unfoldable pub eligible_voters : BTreeMap String SessionPlayer → List String
eligible_voters players =
    let ids =
      map (λ (player : SessionPlayer). player.id)
        (filter_by (λ (player : SessionPlayer). is_some player.current_dragon_id)
          (values players)) in
    if ltb 1 (length ids) then ids else []

unfoldable pub open_voting : ℕ → WorkshopSession → WorkshopSession × Result Bool
open_voting now s =
    let voters = eligible_voters s.players in
    (
      touch now (record s {
        voting = some (record {
          eligible_player_ids = voters;
          votes_by_player_id = [];
          results_revealed = is_empty voters;
        });
      }),
      ok (is_empty voters),
    )

unfoldable pub enter_voting : ℕ → WorkshopSession → WorkshopSession × Result Bool
enter_voting now s = on_ok (transition_to now Phase.voting s) (open_voting now)

-- The guards of `submit_vote` in their order; `none` lets the vote pass.
unfoldable pub vote_error :
    VotingState → BTreeMap String SessionDragon → String → String → Option DomainError
vote_error voting dragons player_id dragon_id =
    if voting.results_revealed
    then some voting_closed
    else if not (any (λ id. str_eq id player_id) voting.eligible_player_ids)
    then some ineligible_voter
    else if not (contains_key dragon_id dragons)
    then some unknown_dragon
    else if is_some_and (get dragon_id dragons) (λ d. str_eq d.original_owner_id player_id)
    then some self_vote_forbidden
    else none

-- `submit_vote` after its guards.
unfoldable pub count_vote :
    ℕ
    → String
    → String
    → VotingState
    → Option DomainError
    → WorkshopSession
    → WorkshopSession × Result (Unit {0})
count_vote now player_id dragon_id voting (some e) s = (s, err e)
count_vote now player_id dragon_id voting none s = (
  touch now (record s {
    voting = some (record voting {
      votes_by_player_id = insert player_id dragon_id voting.votes_by_player_id;
    });
  }),
  ok tt,
)

-- `submit_vote`, for the vote that is on.
unfoldable pub cast_vote :
    ℕ → String → String → Option VotingState → WorkshopSession → WorkshopSession × Result (Unit {0})
cast_vote now player_id dragon_id none s = (s, err voting_not_active)
cast_vote now player_id dragon_id (some voting) s =
    count_vote now player_id dragon_id voting (vote_error voting s.dragons player_id dragon_id) s

unfoldable pub submit_vote :
    ℕ → String → String → WorkshopSession → WorkshopSession × Result (Unit {0})
unfolding cast_vote count_vote
submit_vote now player_id dragon_id s = cast_vote now player_id dragon_id s.voting s

unfoldable pub reveal_voting_results : ℕ → WorkshopSession → WorkshopSession × Result (Unit {0})
reveal_voting_results now s = elim s.voting [
  | none ↦ (s, err voting_not_active)
  | some voting ↦
      if not (is_empty voting.eligible_player_ids) && is_empty voting.votes_by_player_id
      then (s, err voting_reveal_not_ready)
      else (
        touch now (record s { voting = some (record voting { results_revealed = true }) }),
        ok tt,
      )
]

unfoldable pub finalize_voting : ℕ → WorkshopSession → WorkshopSession × Result (Unit {0})
finalize_voting now s =
    if is_some_and s.voting (λ voting. not voting.results_revealed)
    then (s, err voting_results_not_revealed)
    else on_ok (transition_to now Phase.end s) (λ t. (touch now t, ok tt))

pub record Evaluation : Type 0 where
  pub dragon_id : String
  pub observation_score : ℤ
  pub care_score : ℤ
  pub feedback : String
  pub observation_feedback : String
  pub care_feedback : String

-- `player.score += points`, on an i32 whose overflow wraps.
abbrev pub add_score : ℤ → SessionPlayer → SessionPlayer
add_score points player = record player { score = wrap (player.score +ℤ points) }

abbrev pub judged : Evaluation → SessionDragon → SessionDragon
judged e dragon = record dragon {
  judge_observation_score = some e.observation_score;
  judge_care_score = some e.care_score;
  judge_feedback = some e.feedback;
  judge_observation_feedback = some e.observation_feedback;
  judge_care_feedback = some e.care_feedback;
}

-- The loop over the evaluations; one of an unknown dragon is passed over.
unfoldable pub score_all :
    List Evaluation
    → BTreeMap String SessionPlayer
    → BTreeMap String SessionDragon
    → BTreeMap String SessionPlayer × BTreeMap String SessionDragon
score_all [] players dragons = (players, dragons)
score_all (e ∷ es) players dragons = elim (get e.dragon_id dragons) [
  | none ↦ score_all es players dragons
  | some dragon ↦
      score_all es
        (update dragon.current_owner_id (add_score e.care_score)
          (update dragon.original_owner_id (add_score e.observation_score) players))
        (update e.dragon_id (judged e) dragons)
]

unfoldable pub apply_judge_scores : ℕ → List Evaluation → WorkshopSession → WorkshopSession
apply_judge_scores now evaluations s =
    let (players, dragons) =
      score_all evaluations (map_values (λ player. record player { score = pos 0 }) s.players)
        s.dragons in
    touch now (record s { players = players; dragons = dragons })
