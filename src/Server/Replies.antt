-- ===== src/Server/Replies.antt =====
-- How each command of platform/app-server/src/http.rs, `workshop_command`, is answered, and what
-- the whole handler then leaves.
use dragon_shift.Common.{
  String, ◌≡◌, ◌≢◌, refl, sym, subst, false, not, ◌&&◌, Option, none, some, List, arith, if_split,
  is_none, and_then,
}
use dragon_shift.Common.Text.{trim, is_blank}
use dragon_shift.BTreeMap.{string_key}
use dragon_shift.Protocol.{Phase, SessionCommand, phase_eq}
use dragon_shift.Dragon.{PlayerAction, ActionOutcome}
use dragon_shift.Session.{WorkshopSession, Result, ok, err, DomainError, transition_to, dragon_of}
use dragon_shift.Session.Failures.{
  FailsClean, transition_to-FailsClean, begin_phase1-FailsClean, assign_player_character-FailsClean,
  save_handover_tags-FailsClean, apply_action-FailsClean, enter_voting-FailsClean,
  enter_voting-phase2, submit_vote-FailsClean, reveal_voting_results-FailsClean,
  finalize_voting-FailsClean,
}
use dragon_shift.Session.Start.{begin_phase1, assign_player_character, reset_to_lobby}
use dragon_shift.Session.Handover.{save_handover_tags}
use dragon_shift.Session.Play.{apply_action, award_phase_end_achievements}
use dragon_shift.Session.Voting.{enter_voting, submit_vote, reveal_voting_results, finalize_voting}
use dragon_shift.Server.{
  SessionArtifactKind, CharacterRecord, Context, is_host_of, refuse, to_phase,
  character_profile_with_sprite_references, announce, attempt,
}
use dragon_shift.Server.Actions.{ActionPayload, parse_player_action}
use dragon_shift.Server.Commands.{
  Payload, refusal, assignments_of, is_taken, account_of_player, is_starter_id, is_owned_by,
  choose_character, with_record, observe, observe_text, action_refusal, report_action, act_with,
  with_action, handle_start_phase1, handle_select_character, handle_submit_observation,
  handle_action,
}
use dragon_shift.Server.Stages.{
  tags_refusal, save_tags, collect_tags, phase2_refusal, enter_phase2_when_due, open_vote_from,
  vote_refusal, vote_for, reveal_refusal, end_refusal, handle_start_handover, handle_submit_tags,
  handle_start_phase2, handle_end_game, handle_start_voting, handle_submit_vote,
  handle_reveal_voting_results, handle_end_session, handle_reset_game,
}
use dragon_shift.Server.Handler.{
  Outside, Loaded, found, load_failed, select_loaded, preload_and_select, dispatch,
}
use dragon_shift.Server.Answers.{
  is_success, Answered, refused, accepted, attempt-Answered, guard-Answered,
}

tags_refusal_fails : (c : Context) (e : DomainError) → is_success (tags_refusal c e) ≡ false
tags_refusal_fails c e = ground arith

action_refusal_fails : (c : Context) (e : DomainError) → is_success (action_refusal c e) ≡ false
action_refusal_fails c e = ground arith

phase2_refusal_fails : (c : Context) (e : DomainError) → is_success (phase2_refusal c e) ≡ false
phase2_refusal_fails c e = ground arith

vote_refusal_fails : (c : Context) (e : DomainError) → is_success (vote_refusal c e) ≡ false
vote_refusal_fails c e = ground arith

reveal_refusal_fails : (c : Context) (e : DomainError) → is_success (reveal_refusal c e) ≡ false
reveal_refusal_fails c e = ground arith

end_refusal_fails : (c : Context) (e : DomainError) → is_success (end_refusal c e) ≡ false
end_refusal_fails c e = ground arith

phase_eq-phase2 : (p : Phase) → not (phase_eq p Phase.phase2) ≡ false → p ≡ Phase.phase2
phase_eq-phase2 p h = ground arith

module _ (c : Context) (s : WorkshopSession) where
  start_phase1-Answered : Answered c s (handle_start_phase1 c s)
  unfolding handle_start_phase1
  start_phase1-Answered = guard-Answered c s (not (is_host_of s c)) _ _ refl λ _.
      guard-Answered c s (not (phase_eq s.phase Phase.lobby)) _ _ refl λ _.
        attempt-Answered c s (begin_phase1 c.now c.draws (assignments_of s.players) s) (refusal c) _
          (λ e. refl) (begin_phase1-FailsClean c.now c.draws (assignments_of s.players) s)
          λ t. accepted _ _ _ _ refl refl refl

  choose_character-Answered :
      (id : String) (r : CharacterRecord) → Answered c s (choose_character c id r s)
  unfolding choose_character
  choose_character-Answered id r =
      guard-Answered c s
        (not (is_owned_by (account_of_player c s) r) && not (is_none r.owner_account_id)) _ _ refl
        λ _. guard-Answered c s (is_none r.owner_account_id && is_taken c id s) _ _ refl λ _.
          attempt-Answered c s
            (assign_player_character c.now c.player_id (character_profile_with_sprite_references r)
              s)
            (refusal c) _ (λ e. refl) (assign_player_character-FailsClean c.now c.player_id _ s)
            λ t. accepted _ _ _ _ refl refl refl

  with_record-Answered :
      (id : String) (r : Option CharacterRecord) → Answered c s (with_record c id s r)
  with_record-Answered id none = refused _ refl
  with_record-Answered id (some r) = choose_character-Answered id r

  select_loaded-Answered : (id : String) (r : Loaded) → Answered c s (select_loaded c id s r)
  unfolding handle_select_character
  select_loaded-Answered id (load_failed text) = refused _ refl
  select_loaded-Answered id (found r) =
      guard-Answered c s (is_starter_id id && is_taken c id s) _ _ refl
        λ _. with_record-Answered id r

  preload-Answered :
      (out : Outside) (id : Option String) → Answered c s (preload_and_select out c s id)
  preload-Answered out none = refused _ refl
  preload-Answered out (some id) =
      guard-Answered c s (is_blank (trim id)) _ _ refl
        λ _. select_loaded-Answered (trim id) (out.load_character (trim id))

  observe-Answered : (text : String) (d : Option String) → Answered c s (observe c text s d)
  observe-Answered text none = refused _ refl
  observe-Answered text (some d) = accepted _ _ _ _ refl refl refl

  observe_text-Answered : (text : Option String) → Answered c s (observe_text c s text)
  observe_text-Answered none = refused _ refl
  observe_text-Answered (some text) =
      guard-Answered c s (is_blank (trim text)) _ _ refl
        λ _. observe-Answered (trim text) (dragon_of s.players c.player_id)

  submit_observation-Answered :
      (text : Option String) → Answered c s (handle_submit_observation c text s)
  unfolding handle_submit_observation
  submit_observation-Answered text =
      guard-Answered c s (not (phase_eq s.phase Phase.phase1)) _ _ refl
        λ _. observe_text-Answered text

  report_action-Answered :
      (p : ActionPayload) (d : String) (r : WorkshopSession × Result ActionOutcome)
      → FailsClean s r
      → Answered c s (report_action c p d r)
  report_action-Answered p d (t, ok outcome) clean = accepted _ _ _ _ refl refl refl
  report_action-Answered p d (t, err e) clean =
      subst (λ x. Answered c s (refuse (action_refusal c e) x)) (sym clean)
        (refused (action_refusal c e) (action_refusal_fails c e))

  act_with-Answered :
      (p : ActionPayload) (a : PlayerAction) (d : Option String) → Answered c s (act_with c p a s d)
  act_with-Answered p a none = refused _ refl
  act_with-Answered p a (some d) =
      report_action-Answered p d (apply_action c.now c.player_id a s)
        (apply_action-FailsClean c.now c.player_id a s)

  with_action-Answered :
      (p : ActionPayload) (a : Option PlayerAction) → Answered c s (with_action c p s a)
  with_action-Answered p none = refused _ refl
  with_action-Answered p (some a) = act_with-Answered p a (dragon_of s.players c.player_id)

  action-Answered : (p : Option ActionPayload) → Answered c s (handle_action c p s)
  unfolding handle_action
  action-Answered none = refused _ refl
  action-Answered (some p) = with_action-Answered p (parse_player_action p)

  start_handover-Answered : Answered c s (handle_start_handover c s)
  unfolding handle_start_handover
  start_handover-Answered = guard-Answered c s (not (is_host_of s c)) _ _ refl λ _.
      guard-Answered c s (not (phase_eq s.phase Phase.phase1)) _ _ refl λ _.
        attempt-Answered c s (transition_to c.now Phase.handover s) (refusal c) _ (λ e. refl)
          (transition_to-FailsClean c.now Phase.handover s) λ t. accepted _ _ _ _ refl refl refl

  save_tags-Answered : (tags : Option (List String)) → Answered c s (save_tags c s tags)
  save_tags-Answered none = refused _ refl
  save_tags-Answered (some tags) =
      attempt-Answered c s (save_handover_tags c.now c.player_id tags s) (tags_refusal c) _
        (tags_refusal_fails c) (save_handover_tags-FailsClean c.now c.player_id tags s)
        λ t. accepted _ _ _ _ refl refl refl

  submit_tags-Answered :
      (p : Option (List (Option String))) → Answered c s (handle_submit_tags c p s)
  unfolding handle_submit_tags
  submit_tags-Answered p =
      guard-Answered c s (not (phase_eq s.phase Phase.handover)) _ _ refl
        λ _. save_tags-Answered (and_then p collect_tags)

  end_game-Answered : Answered c s (handle_end_game c s)
  unfolding handle_end_game award_phase_end_achievements
  end_game-Answered = guard-Answered c s (not (is_host_of s c)) _ _ refl λ _.
      guard-Answered c s (not (phase_eq s.phase Phase.phase2)) _ _ refl λ e.
        attempt-Answered c s (enter_voting c.now (award_phase_end_achievements c.now s).0)
          (refusal c) _ (λ e. refl)
          (enter_voting-phase2 c.now (award_phase_end_achievements c.now s).0 s
            (phase_eq-phase2 s.phase e))
          λ t. accepted _ _ _ _ refl refl refl

  open_vote_from-Answered : (p : Phase) → p ≡ s.phase → Answered c s (open_vote_from p c s)
  unfolding award_phase_end_achievements
  open_vote_from-Answered Phase.phase2 e =
      attempt-Answered c s (enter_voting c.now (award_phase_end_achievements c.now s).0) (refusal c)
        _ (λ e. refl) (enter_voting-phase2 c.now (award_phase_end_achievements c.now s).0 s (sym e))
        λ t. accepted _ _ _ _ refl refl refl
  open_vote_from-Answered Phase.judge e =
      attempt-Answered c s (enter_voting c.now s) (refusal c) _ (λ e. refl)
        (enter_voting-FailsClean c.now s) λ t. accepted _ _ _ _ refl refl refl
  open_vote_from-Answered Phase.lobby e = refused _ refl
  open_vote_from-Answered Phase.phase0 e = refused _ refl
  open_vote_from-Answered Phase.phase1 e = refused _ refl
  open_vote_from-Answered Phase.handover e = refused _ refl
  open_vote_from-Answered Phase.voting e = refused _ refl
  open_vote_from-Answered Phase.end e = refused _ refl

  start_voting-Answered : Answered c s (handle_start_voting c s)
  unfolding handle_start_voting
  start_voting-Answered =
      guard-Answered c s (not (is_host_of s c)) _ _ refl λ _. open_vote_from-Answered s.phase refl

  vote_for-Answered : (d : Option String) → Answered c s (vote_for c s d)
  vote_for-Answered none = refused _ refl
  vote_for-Answered (some d) =
      attempt-Answered c s (submit_vote c.now c.player_id d s) (vote_refusal c) _
        (vote_refusal_fails c) (submit_vote-FailsClean c.now c.player_id d s)
        λ t. accepted _ _ _ _ refl refl refl

  submit_vote-Answered : (d : Option String) → Answered c s (handle_submit_vote c d s)
  unfolding handle_submit_vote
  submit_vote-Answered d =
      guard-Answered c s (not (phase_eq s.phase Phase.voting)) _ _ refl λ _. vote_for-Answered d

  reveal_voting_results-Answered : Answered c s (handle_reveal_voting_results c s)
  unfolding handle_reveal_voting_results
  reveal_voting_results-Answered = guard-Answered c s (not (is_host_of s c)) _ _ refl λ _.
      guard-Answered c s (not (phase_eq s.phase Phase.voting)) _ _ refl λ _.
        attempt-Answered c s (reveal_voting_results c.now s) (reveal_refusal c) _
          (reveal_refusal_fails c) (reveal_voting_results-FailsClean c.now s)
          λ t. accepted _ _ _ _ refl refl refl

  end_session-Answered : Answered c s (handle_end_session c s)
  unfolding handle_end_session
  end_session-Answered = guard-Answered c s (not (is_host_of s c)) _ _ refl λ _.
      guard-Answered c s (not (phase_eq s.phase Phase.voting)) _ _ refl λ _.
        attempt-Answered c s (finalize_voting c.now s) (end_refusal c) _ (end_refusal_fails c)
          (finalize_voting-FailsClean c.now s) λ t. accepted _ _ _ _ refl refl refl

  reset_game-Answered : Answered c s (handle_reset_game c s)
  unfolding handle_reset_game reset_to_lobby
  reset_game-Answered =
      guard-Answered c s (not (is_host_of s c)) _ _ refl λ _. accepted _ _ _ _ refl refl refl

  -- A refused entry into Phase 2 leaves cached what the method made of the session.
  start_phase2-Answered : (t : WorkshopSession) × Answered c t (handle_start_phase2 c s)
  unfolding handle_start_phase2
  start_phase2-Answered =
      if_split (λ o. (t : WorkshopSession) × Answered c t o) (not (is_host_of s c))
        (λ _. (s, refused _ refl))
        (λ _.
          if_split (λ o. (t : WorkshopSession) × Answered c t o)
            (not (phase_eq s.phase Phase.handover)) (λ _. (s, refused _ refl))
            (λ _. attempted (enter_phase2_when_due c s)))
    where
      attempted :
          (r : WorkshopSession × Result (List String))
          → (t : WorkshopSession) × Answered c t (
              attempt r
                (phase2_refusal c)
                (λ t. announce c SessionArtifactKind.phase_changed (to_phase "phase2") t))
      attempted (t, ok names) = (s, accepted _ _ _ _ refl refl refl)
      attempted (t, err e) = (t, refused (phase2_refusal c e) (phase2_refusal_fails c e))

  -- Every command is answered; only the start of Phase 2 may be refused and leave a new session.
  pub dispatch-Answered :
      (out : Outside) (command : SessionCommand) (p : Payload)
      → (t : WorkshopSession) × Answered c t (dispatch out c command p s)
        × (command ≢ SessionCommand.start_phase2 → t ≡ s)
  unfolding dispatch
  dispatch-Answered out SessionCommand.start_phase2 p =
      let (t, h) = start_phase2-Answered in (t, h, λ no. absurd (no refl))
  dispatch-Answered out SessionCommand.start_phase1 p = (s, start_phase1-Answered, λ _. refl)
  dispatch-Answered out SessionCommand.select_character p =
      (s, preload-Answered out p.character_id, λ _. refl)
  dispatch-Answered out SessionCommand.submit_observation p =
      (s, submit_observation-Answered p.text, λ _. refl)
  dispatch-Answered out SessionCommand.action p = (s, action-Answered p.action, λ _. refl)
  dispatch-Answered out SessionCommand.start_handover p = (s, start_handover-Answered, λ _. refl)
  dispatch-Answered out SessionCommand.submit_tags p = (s, submit_tags-Answered p.tags, λ _. refl)
  dispatch-Answered out SessionCommand.end_game p = (s, end_game-Answered, λ _. refl)
  dispatch-Answered out SessionCommand.start_voting p = (s, start_voting-Answered, λ _. refl)
  dispatch-Answered out SessionCommand.submit_vote p = (s, submit_vote-Answered p.vote, λ _. refl)
  dispatch-Answered out SessionCommand.reveal_voting_results p =
      (s, reveal_voting_results-Answered, λ _. refl)
  dispatch-Answered out SessionCommand.end_session p = (s, end_session-Answered, λ _. refl)
  dispatch-Answered out SessionCommand.reset_game p = (s, reset_game-Answered, λ _. refl)
  dispatch-Answered out SessionCommand.join p = (s, refused _ refl, λ _. refl)
  dispatch-Answered out SessionCommand.leave_workshop p = (s, refused _ refl, λ _. refl)
