-- ===== src/Server/Stages.antt =====
-- platform/app-server/src/http.rs: what `workshop_command` does while it holds the lock of the
-- sessions for the commands of a handover, of Phase 2, of the vote and of a reset.
use dragon_shift.Common.{
  String, Bool, true, false, not, Option, none, some, List, [], ◌∷◌, length, and_then,
  if◌then◌else◌, ◌==◌,
}
use Prim.Native.String.{◌++◌ as str_append}
use dragon_shift.Common.Text.{trim, is_blank}
use dragon_shift.Common.I32.{ℤ}
use dragon_shift.BTreeMap.{BTreeMap, string_key, get}
use dragon_shift.Protocol.{Phase, phase_eq}
use dragon_shift.Session.{
  SessionPlayer, WorkshopSession, Result, DomainError, missing_handover_tags,
  invalid_handover_tag_count, voting_not_active, ineligible_voter, unknown_dragon,
  self_vote_forbidden, voting_closed, voting_reveal_not_ready, voting_results_not_revealed,
  transition_to, dragon_of,
}
use dragon_shift.Session.Clock.{remaining_phase_seconds}
use dragon_shift.Session.Start.{reset_to_lobby}
use dragon_shift.Session.Handover.{save_handover_tags, enter_phase2, enter_phase2_after_deadline}
use dragon_shift.Session.Play.{award_phase_end_achievements}
use dragon_shift.Session.Voting.{enter_voting, submit_vote, reveal_voting_results, finalize_voting}
use dragon_shift.Server.{
  CommandResponse, bad_request, conflict, WorkshopBroadcastDelta, dragon_patch, SessionArtifactKind,
  to_phase, tags_saved, game_ended, vote_cast, results_revealed, session_ended, Context, Outcome,
  is_host_of, refuse, new_artifact, accept, announce, attempt,
}
use dragon_shift.Server.Commands.{refusal}

unfoldable pub handle_start_handover : Context → WorkshopSession → Outcome
handle_start_handover c s =
    if not (is_host_of s c)
    then refuse (bad_request "Only the host can trigger handover.") s
    else if not (phase_eq s.phase Phase.phase1)
    then refuse (conflict "Handover can only begin during Phase 1.") s
    else attempt (transition_to c.now Phase.handover s) (refusal c)
        (λ t. announce c SessionArtifactKind.phase_changed (to_phase "handover") t)

-- The items of a payload that is a list, trimmed; none if one of them is no text or is empty.
unfoldable pub collect_tags : List (Option String) → Option (List String)
collect_tags [] = some []
collect_tags (none ∷ items) = none
collect_tags (some text ∷ items) =
    let rest = collect_tags items in
    if is_blank (trim text) then none else and_then rest λ tags. some (trim text ∷ tags)

abbrev pub tags_refusal : Context → DomainError → CommandResponse
tags_refusal c (invalid_handover_tag_count expected got) = bad_request (
    str_append "Exactly " (
      str_append (c.decimal expected)
        (str_append " handover notes are required (got " (str_append (c.decimal got) ")."))))
tags_refusal c error = conflict (c.error_text error)

abbrev pub tags_of : WorkshopSession → Option String → List String
tags_of s none = []
tags_of s (some dragon_id) = elim (get dragon_id s.dragons) [
  | none ↦ []
  | some dragon ↦ dragon.handover_tags
]

abbrev pub patch_of : Option String → Option WorkshopBroadcastDelta
patch_of none = none
patch_of (some dragon_id) = some (dragon_patch dragon_id)

abbrev pub save_tags : Context → WorkshopSession → Option (List String) → Outcome
save_tags c s none = refuse (bad_request "Handover notes must be sent as a list.") s
save_tags c s (some tags) =
    attempt (save_handover_tags c.now c.player_id tags s) (tags_refusal c) (λ t.
      let dragon_id = dragon_of t.players c.player_id in
      let saved_tags = tags_of t dragon_id in
      accept (patch_of dragon_id) false
        (new_artifact c SessionArtifactKind.handover_saved
          (tags_saved (length saved_tags) saved_tags) t)
        t)

unfoldable pub handle_submit_tags :
    Context → Option (List (Option String)) → WorkshopSession → Outcome
handle_submit_tags c payload s =
    if not (phase_eq s.phase Phase.handover)
    then refuse (conflict "Handover notes can only be saved during handover.") s
    else save_tags c s (and_then payload collect_tags)

-- `players.join(", ")`
abbrev pub join : List String → String
join [] = ""
join (name ∷ []) = name
join (name ∷ (next ∷ names)) = str_append name (str_append ", " (join (next ∷ names)))

abbrev pub phase2_refusal : Context → DomainError → CommandResponse
phase2_refusal c (missing_handover_tags players) =
    conflict (str_append "Still waiting on: " (str_append (join players) "."))
phase2_refusal c error = conflict (c.error_text error)

-- `session.remaining_phase_seconds(Utc::now()) == Some(0)`
abbrev pub is_overdue : Context → WorkshopSession → Bool
is_overdue c s = elim (remaining_phase_seconds c.now s) [ none ↦ false | some left ↦ left == 0 ]

unfoldable pub enter_phase2_when_due :
    Context → WorkshopSession → WorkshopSession × Result (List String)
enter_phase2_when_due c s =
    if is_overdue c s then enter_phase2_after_deadline c.now s else enter_phase2 c.now s

unfoldable pub handle_start_phase2 : Context → WorkshopSession → Outcome
handle_start_phase2 c s =
    if not (is_host_of s c)
    then refuse (bad_request "Only the host can begin Phase 2.") s
    else if not (phase_eq s.phase Phase.handover)
    then refuse (conflict "Phase 2 can only begin from handover.") s
    else attempt (enter_phase2_when_due c s) (phase2_refusal c)
        (λ t. announce c SessionArtifactKind.phase_changed (to_phase "phase2") t)

unfoldable pub handle_end_game : Context → WorkshopSession → Outcome
handle_end_game c s =
    if not (is_host_of s c)
    then refuse (bad_request "Only the host can end the workshop.") s
    else if not (phase_eq s.phase Phase.phase2)
    then refuse (conflict "Design voting can only begin from Phase 2.") s
    else attempt (enter_voting c.now (award_phase_end_achievements c.now s).0) (refusal c)
        (λ t. accept none true (new_artifact c SessionArtifactKind.action_processed game_ended t) t)

abbrev pub open_vote : Context → Bool → WorkshopSession → Outcome
open_vote c queue_judge s = attempt (enter_voting c.now s) (refusal c) (λ t.
    accept none queue_judge (new_artifact c SessionArtifactKind.phase_changed (to_phase "voting") t)
      t)

abbrev pub open_vote_from : Phase → Context → WorkshopSession → Outcome
open_vote_from Phase.phase2 c s = open_vote c true (award_phase_end_achievements c.now s).0
open_vote_from Phase.judge c s = open_vote c false s
open_vote_from _ c s =
    refuse (conflict "Design voting can only begin from Phase 2 or judge review.") s

unfoldable pub handle_start_voting : Context → WorkshopSession → Outcome
handle_start_voting c s =
    if not (is_host_of s c)
    then refuse (bad_request "Only the host can open the design vote.") s
    else open_vote_from s.phase c s

abbrev pub vote_refusal : Context → DomainError → CommandResponse
vote_refusal c voting_not_active = conflict "Voting is not active right now."
vote_refusal c ineligible_voter = conflict "Player is not eligible to vote."
vote_refusal c unknown_dragon = conflict "Unknown dragon selected for vote."
vote_refusal c self_vote_forbidden = conflict "You cannot vote for your own dragon."
vote_refusal c voting_closed = conflict "Voting is already closed."
vote_refusal c error = conflict (c.error_text error)

abbrev pub vote_for : Context → WorkshopSession → Option String → Outcome
vote_for c s none = refuse (bad_request "Vote payload is invalid.") s
vote_for c s (some dragon_id) =
    attempt (submit_vote c.now c.player_id dragon_id s) (vote_refusal c)
      (λ t. announce c SessionArtifactKind.vote_submitted (vote_cast dragon_id) t)

unfoldable pub handle_submit_vote : Context → Option String → WorkshopSession → Outcome
handle_submit_vote c payload s =
    if not (phase_eq s.phase Phase.voting)
    then refuse (conflict "Voting is not active right now.") s
    else vote_for c s payload

-- The scores of all players, for the artifact.
unfoldable pub scores_of : BTreeMap String SessionPlayer → BTreeMap String ℤ
scores_of [] = []
scores_of ((player_id, player) ∷ players) = (player_id, player.score) ∷ scores_of players

abbrev pub reveal_refusal : Context → DomainError → CommandResponse
reveal_refusal c voting_reveal_not_ready =
    conflict "Voting can only be finished after at least one eligible vote is submitted."
reveal_refusal c error = conflict (c.error_text error)

unfoldable pub handle_reveal_voting_results : Context → WorkshopSession → Outcome
handle_reveal_voting_results c s =
    if not (is_host_of s c)
    then refuse (bad_request "Only the host can reveal voting results.") s
    else if not (phase_eq s.phase Phase.voting)
    then refuse (conflict "Results can only be revealed during voting.") s
    else attempt (reveal_voting_results c.now s) (reveal_refusal c) (λ t.
      announce c SessionArtifactKind.voting_finalized (results_revealed (scores_of t.players)) t)

abbrev pub end_refusal : Context → DomainError → CommandResponse
end_refusal c voting_results_not_revealed =
    conflict "Session can only be ended after voting results are revealed."
end_refusal c error = conflict (c.error_text error)

unfoldable pub handle_end_session : Context → WorkshopSession → Outcome
handle_end_session c s =
    if not (is_host_of s c)
    then refuse (bad_request "Only the host can end the session.") s
    else if not (phase_eq s.phase Phase.voting)
    then refuse (conflict "Session can only be ended during voting.") s
    else attempt (finalize_voting c.now s) (end_refusal c) (λ t.
      announce c SessionArtifactKind.voting_finalized (session_ended (scores_of t.players)) t)

-- The artifact of a reset has step 0, which is the lobby's.
unfoldable pub handle_reset_game : Context → WorkshopSession → Outcome
handle_reset_game c s =
    if not (is_host_of s c)
    then refuse (bad_request "Only the host can reset the workshop.") s
    else attempt (reset_to_lobby c.now c.player_id s) (refusal c) (λ t.
      accept none false
        (record (new_artifact c SessionArtifactKind.session_reset (to_phase "lobby") t) {
          step = 0;
        })
        t)
