-- ===== src/Examples/Votes.antt =====
-- Tests of the handover and of the vote.
use mathlib.Core.Option
use dragon_shift.Common.{
  ◌≡◌, ◌≢◌, refl, sym, ap, subst, ◌∙◌, some_inj, ◌<◌, arith, String, true, false, Option, none,
  some, [], ◌∷◌, str_eq, length, get_elem?, if◌then◌else◌, zero, suc,
}
use dragon_shift.BTreeMap.{BTreeMap, string_key, get, keys, insert, update, insert_new}
use dragon_shift.BTreeMap.Distinct.{Distinct}
use dragon_shift.Protocol.{Phase}
use dragon_shift.Dragon.{SessionDragon}
use dragon_shift.Session.{SessionPlayer, VotingState, WorkshopSession, is_ok, dragon_of}
use dragon_shift.Session.Start.{new_dragon}
use dragon_shift.Session.Handover.{reassign, hand_over, shifted}
use dragon_shift.Session.Handover.Rotation.{Aligned, reassign_foreign}
use dragon_shift.Session.Voting.{submit_vote, cast_vote, count_vote, vote_error}
use dragon_shift.Session.Voting.Ballots.{Vote, submit_vote-Vote, submit_vote_replaces}
use dragon_shift.Session.Voting.Polling.{Votes, submit_all, choice, Poll, submit_all-choice}
use dragon_shift.Examples.{joining, hatchling, fresh}

abbrev pub two_players : BTreeMap String SessionPlayer
two_players = ("ann", joining "ann" 1) ∷ ("bob", joining "bob" 2) ∷ []

abbrev dragon_of_bob : SessionDragon
dragon_of_bob = record hatchling {
  id = "dragon-bob";
  original_owner_id = "bob";
  current_owner_id = "bob";
}

abbrev pub two_dragons : BTreeMap String SessionDragon
two_dragons = ("dragon-ann", hatchling) ∷ ("dragon-bob", dragon_of_bob) ∷ []

players-Distinct : Distinct two_players
unfolding get
players-Distinct = (refl, (refl, tt))

dragons-Distinct : Distinct two_dragons
unfolding get
dragons-Distinct = (refl, (refl, tt))

two : 1 < length (keys two_players)
unfolding keys
two = omega arith

as_many : length (keys two_dragons) ≡ length (keys two_players)
unfolding keys
as_many = refl

first_player : get_elem? (keys two_players) 0 ≡ some "ann"
unfolding keys
first_player = refl

two-Aligned : Aligned two_players two_dragons
unfolding keys get new_dragon
two-Aligned zero p d dragon ep ed found =
    let found_here : get "dragon-ann" two_dragons ≡ some dragon =
      subst (λ x. get x two_dragons ≡ some dragon) (sym (some_inj ed)) found in
    ap (λ (x : SessionDragon). x.original_owner_id) (sym (some_inj found_here)) ∙ some_inj ep
two-Aligned (suc zero) p d dragon ep ed found =
    let found_here : get "dragon-bob" two_dragons ≡ some dragon =
      subst (λ x. get x two_dragons ≡ some dragon) (sym (some_inj ed)) found in
    ap (λ (x : SessionDragon). x.original_owner_id) (sym (some_inj found_here)) ∙ some_inj ep
two-Aligned (suc (suc i)) p d dragon ep ed found = cc ep

changed_hands : dragon_of (reassign two_players two_dragons).0 "ann" ≡ some "dragon-bob"
unfolding reassign hand_over keys shifted update get dragon_of
changed_hands = refl

known_dragon : get "dragon-bob" two_dragons ≡ some dragon_of_bob
unfolding get
known_dragon = refl

reassign_foreign_example : dragon_of_bob.original_owner_id ≢ "ann"
reassign_foreign_example =
    reassign_foreign two_players two_dragons 0 "ann" "dragon-bob" dragon_of_bob players-Distinct
      dragons-Distinct two-Aligned two as_many first_player changed_hands known_dragon

abbrev empty_box : VotingState
empty_box = record {
  eligible_player_ids = "ann" ∷ "bob" ∷ [];
  votes_by_player_id = [];
  results_revealed = false;
}

abbrev at_vote : WorkshopSession
at_vote = record fresh {
  phase = Phase.voting;
  players = two_players;
  dragons = two_dragons;
  voting = some empty_box;
}

submit_vote-Vote_example :
    Vote "ann" "dragon-bob" at_vote empty_box (submit_vote 9 "ann" "dragon-bob" at_vote)
submit_vote-Vote_example = submit_vote-Vote 9 "ann" "dragon-bob" at_vote empty_box refl

abbrev one_vote : VotingState
one_vote = record empty_box { votes_by_player_id = ("ann", "dragon-bob") ∷ [] }

taken : is_ok (submit_vote 9 "ann" "dragon-bob" at_vote).1 ≡ true
unfolding submit_vote cast_vote count_vote vote_error get new_dragon
taken = refl

counted_vote : (submit_vote 9 "ann" "dragon-bob" at_vote).0.voting ≡ some one_vote
unfolding submit_vote cast_vote count_vote vote_error get insert insert_new new_dragon
counted_vote = refl

submit_vote_replaces_example :
    get "bob" one_vote.votes_by_player_id
    ≡ (if str_eq "ann" "bob" then some "dragon-bob" else get "bob" empty_box.votes_by_player_id)
submit_vote_replaces_example =
    submit_vote_replaces 9 "ann" "dragon-bob" "bob" at_vote empty_box one_vote refl taken
      counted_vote

-- Ann changes her mind, Bob tries his own dragon, and Cat is not on the list.
abbrev sent_votes : Votes
sent_votes =
    (10, "ann", "dragon-eve")
    ∷ (11, "bob", "dragon-ann")
    ∷ (12, "bob", "dragon-bob")
    ∷ (13, "ann", "dragon-bob")
    ∷ (14, "cat", "dragon-ann")
    ∷ []

submit_all-choice_example :
    Poll empty_box.eligible_player_ids two_dragons
      (λ voter.
        choice empty_box.eligible_player_ids two_dragons voter sent_votes
          (get voter empty_box.votes_by_player_id))
      (submit_all sent_votes at_vote)
submit_all-choice_example = submit_all-choice sent_votes at_vote empty_box refl refl

abbrev chosen : String → Option String
chosen voter = choice empty_box.eligible_player_ids two_dragons voter sent_votes none

choices :
    (chosen "ann" ≡ some "dragon-bob") × (chosen "bob" ≡ some "dragon-ann") × (chosen "cat" ≡ none)
unfolding get new_dragon
choices = (refl, refl, refl)
