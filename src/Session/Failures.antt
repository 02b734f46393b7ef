-- ===== src/Session/Failures.antt =====
-- What a method of `WorkshopSession` leaves where it returns an error.
use dragon_shift.Common.{
  ℕ, String, ◌≡◌, inl, inr, refl, true, not, ◌&&◌, Option, none, some, List, [], ◌∷◌, Bool-cases,
  Option-cases, is_some, is_some_and, if◌then◌else◌, length, ◌==◌,
}
use dragon_shift.BTreeMap.{string_key, get}
use dragon_shift.Protocol.{Phase, CharacterProfile}
use dragon_shift.Dragon.{PlayerAction}
use dragon_shift.Session.{
  WorkshopSession, Result, ok, err, DomainError, transition_to, can_transition, on_ok, dragon_of,
  touch, voting_not_active, voting_reveal_not_ready, handover_tag_count, VotingState,
}
use dragon_shift.Session.Start.{
  Phase1Assignment, Draws, begin_phase1, refuse_or_start, start_phase1, without_character,
  assign_player_character,
}
use dragon_shift.Session.Handover.{save_handover_tags}
use dragon_shift.Session.Play.{apply_action, act_on, in_play}
use dragon_shift.Session.Voting.{
  enter_voting, open_voting, submit_vote, cast_vote, count_vote, reveal_voting_results,
  finalize_voting, is_empty,
}

-- A method that has changed nothing where it fails.
abbrev pub UnchangedOnError {ℓ} :
    {A : Type ℓ} → WorkshopSession → WorkshopSession → Result A → Type 0
UnchangedOnError s t (ok a) = Unit
UnchangedOnError s t (err e) = t ≡ s

abbrev pub FailsClean {ℓ} : {A : Type ℓ} → WorkshopSession → WorkshopSession × Result A → Type 0
FailsClean s r = UnchangedOnError s r.0 r.1

pub transition_to-FailsClean :
    (now : ℕ) (next : Phase) (s : WorkshopSession) → FailsClean s (transition_to now next s)
unfolding transition_to
transition_to-FailsClean now next s = elim (Bool-cases (can_transition s.phase next)) [
  | inl e ↦ rw e tt
  | inr e ↦ rw e refl
]

on_ok-FailsClean {ℓ κ} :
    {A : Type ℓ} {B : Type κ} (s : WorkshopSession) (r : WorkshopSession × Result A)
    (f : WorkshopSession → WorkshopSession × Result B)
    → FailsClean s r
    → ((t : WorkshopSession) → FailsClean s (f t))
    → FailsClean s (on_ok r f)
on_ok-FailsClean s (t, ok a) f clean h = h t
on_ok-FailsClean s (t, err x) f clean h = clean

refuse_or_start-FailsClean :
    (now : ℕ) (draws : ℕ → Draws) (as' : List Phase1Assignment) (missing : List String)
    (s : WorkshopSession)
    → FailsClean s (refuse_or_start now draws as' missing s)
unfolding refuse_or_start start_phase1
refuse_or_start-FailsClean now draws as' (id ∷ ids) s = refl
refuse_or_start-FailsClean now draws as' [] s =
    on_ok-FailsClean s (transition_to now Phase.phase1 s) (start_phase1 now draws as')
      (transition_to-FailsClean now Phase.phase1 s) (λ t. tt)

pub begin_phase1-FailsClean :
    (now : ℕ) (draws : ℕ → Draws) (as' : List Phase1Assignment) (s : WorkshopSession)
    → FailsClean s (begin_phase1 now draws as' s)
unfolding begin_phase1
begin_phase1-FailsClean now draws as' s =
    refuse_or_start-FailsClean now draws as' (without_character s.players) s

pub assign_player_character-FailsClean :
    (now : ℕ) (id : String) (c : CharacterProfile) (s : WorkshopSession)
    → FailsClean s (assign_player_character now id c s)
unfolding assign_player_character
assign_player_character-FailsClean now id c s = elim (Bool-cases (is_some (get id s.players))) [
  | inl e ↦ rw e tt
  | inr e ↦ rw e refl
]

pub save_handover_tags-FailsClean :
    (now : ℕ) (id : String) (tags : List String) (s : WorkshopSession)
    → FailsClean s (save_handover_tags now id tags s)
unfolding save_handover_tags
save_handover_tags-FailsClean now id tags s =
    elim (Bool-cases (length tags == handover_tag_count)) [
      | inl e ↦ elim (Option-cases (dragon_of s.players id)) [
        | inl n ↦ rw (e, n, save_handover_tags) tt
        | inr (d, n) ↦ rw (e, n, save_handover_tags) tt
      ]
      | inr e ↦ rw e refl
    ]

pub apply_action-FailsClean :
    (now : ℕ) (id : String) (a : PlayerAction) (s : WorkshopSession)
    → FailsClean s (apply_action now id a s)
unfolding apply_action act_on
apply_action-FailsClean now id a s = elim (Bool-cases (in_play s.phase)) [
  | inl e ↦ elim (Option-cases (dragon_of s.players id)) [
    | inl n ↦ rw (e, n, apply_action) refl
    | inr (d, n) ↦ elim (Option-cases (get d s.dragons)) [
      | inl m ↦ rw (e, n, m, apply_action) refl
      | inr (x, m) ↦ rw (e, n, m, apply_action) tt
    ]
  ]
  | inr e ↦ rw e refl
]

pub enter_voting-FailsClean : (now : ℕ) (s : WorkshopSession) → FailsClean s (enter_voting now s)
unfolding enter_voting open_voting
enter_voting-FailsClean now s =
    on_ok-FailsClean s (transition_to now Phase.voting s) (open_voting now)
      (transition_to-FailsClean now Phase.voting s) (λ t. tt)

-- From Phase 2 the vote opens without an error.
pub enter_voting-phase2 :
    (now : ℕ) (s u : WorkshopSession) → s.phase ≡ Phase.phase2 → FailsClean u (enter_voting now s)
unfolding enter_voting open_voting transition_to can_transition
enter_voting-phase2 now s u at = rw at tt

count_vote-FailsClean :
    (now : ℕ) (p d : String) (v : VotingState) (o : Option DomainError) (s : WorkshopSession)
    → FailsClean s (count_vote now p d v o s)
unfolding count_vote
count_vote-FailsClean now p d v none s = tt
count_vote-FailsClean now p d v (some x) s = refl

cast_vote-FailsClean :
    (now : ℕ) (p d : String) (v : Option VotingState) (s : WorkshopSession)
    → FailsClean s (cast_vote now p d v s)
unfolding cast_vote
cast_vote-FailsClean now p d none s = refl
cast_vote-FailsClean now p d (some v) s = count_vote-FailsClean now p d v _ s

pub submit_vote-FailsClean :
    (now : ℕ) (p d : String) (s : WorkshopSession) → FailsClean s (submit_vote now p d s)
unfolding submit_vote
submit_vote-FailsClean now p d s = cast_vote-FailsClean now p d s.voting s

pub reveal_voting_results-FailsClean :
    (now : ℕ) (s : WorkshopSession) → FailsClean s (reveal_voting_results now s)
unfolding reveal_voting_results
reveal_voting_results-FailsClean now s =
    elim s.voting
      as (λ o.
        (FailsClean {A = Unit {0}} s (elim o [
          | none ↦ (s, err voting_not_active)
          | some voting ↦
              if not (is_empty voting.eligible_player_ids) && is_empty voting.votes_by_player_id
              then (s, err voting_reveal_not_ready)
              else (
                touch now (record s { voting = some (record voting { results_revealed = true }) }),
                ok tt,
              )
        ]))) [
          | none ↦ refl
          | some v ↦
              elim (Bool-cases
                (not (is_empty v.eligible_player_ids) && is_empty v.votes_by_player_id)) [
                  | inl e ↦ rw e refl
                  | inr e ↦ rw e tt
                ]
        ]

pub finalize_voting-FailsClean :
    (now : ℕ) (s : WorkshopSession) → FailsClean s (finalize_voting now s)
unfolding finalize_voting
finalize_voting-FailsClean now s =
    elim (Bool-cases (is_some_and s.voting (λ voting. not voting.results_revealed))) [
      | inl e ↦ rw e refl
      | inr e ↦ rw e (
          on_ok-FailsClean s (transition_to now Phase.end s) _
            (transition_to-FailsClean now Phase.end s) (λ t. tt))
    ]
