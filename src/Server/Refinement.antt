-- ===== src/Server/Refinement.antt =====
-- The commands of `workshop_command` in platform/app-server/src/http.rs as calls of the methods of
-- a session.
use dragon_shift.Common.{
  ℕ, String, ◌≡◌, refl, sym, subst, Bool, false, not, ◌&&◌, Option, none, some, List, [], ◌∷◌, map,
  if_split, if◌then◌else◌, is_none, and_then,
}
use dragon_shift.Common.Text.{trim, is_blank}
use dragon_shift.BTreeMap.{string_key}
use dragon_shift.Protocol.{Phase, SessionCommand, phase_eq}
use dragon_shift.Dragon.{PlayerAction, ActionOutcome}
use dragon_shift.Session.{WorkshopSession, Result, ok, err, DomainError, transition_to, dragon_of}
use dragon_shift.Session.Start.{begin_phase1, assign_player_character, reset_to_lobby}
use dragon_shift.Session.Handover.{save_handover_tags}
use dragon_shift.Session.Play.{apply_action, award_phase_end_achievements}
use dragon_shift.Session.Voting.{enter_voting, submit_vote, reveal_voting_results, finalize_voting}
use dragon_shift.Server.{
  CommandResponse, CharacterRecord, Context, Outcome, is_host_of, refuse,
  character_profile_with_sprite_references, attempt,
}
use dragon_shift.Server.Actions.{ActionPayload, parse_player_action}
use dragon_shift.Server.Commands.{
  Payload, refusal, assignments_of, is_taken, account_of_player, is_starter_id, is_owned_by,
  choose_character, with_record, observe, observe_text, report_action, act_with, with_action,
  handle_start_phase1, handle_select_character, handle_submit_observation, handle_action,
}
use dragon_shift.Server.Stages.{
  tags_refusal, save_tags, collect_tags, phase2_refusal, is_overdue, enter_phase2_when_due,
  open_vote_from, vote_refusal, vote_for, reveal_refusal, end_refusal, handle_start_handover,
  handle_submit_tags, handle_start_phase2, handle_end_game, handle_start_voting, handle_submit_vote,
  handle_reveal_voting_results, handle_end_session, handle_reset_game,
}
use dragon_shift.Server.Handler.{
  Outside, Loaded, found, load_failed, select_loaded, preload_and_select, dispatch,
}
use dragon_shift.Workshop.{
  Call, assigns_character, begins_phase1, begins_handover, observes, saves_tags, enters_phase2,
  enters_phase2_late, acts, awards, enters_voting, votes, reveals, finalizes, resets, exec, run,
}

-- A session that calls of methods, all at one time, make of another.
abbrev pub MadeBy : ℕ → WorkshopSession → WorkshopSession → Type 0
MadeBy now s t = (calls : List Call) × (t ≡ run s (map (λ (call : Call). (now, call)) calls))

module _ (c : Context) (s : WorkshopSession) where
  abbrev pub Made : Outcome → Type 0
  Made o = MadeBy c.now s o.session

  kept : MadeBy c.now s s
  unfolding run
  kept = ([], refl)

  -- One call.
  called : (call : Call) → MadeBy c.now s (exec c.now call s)
  unfolding run
  called call = (call ∷ [], refl)

  -- The achievements of the phase's end, then the vote.
  awarded_vote-Made : MadeBy c.now s (enter_voting c.now (award_phase_end_achievements c.now s).0).0
  unfolding run exec
  awarded_vote-Made = (awards ∷ enters_voting ∷ [], refl)

  guard-Made :
      (test : Bool) (r : CommandResponse) (rest : Outcome)
      → (test ≡ false → Made rest)
      → Made (if test then refuse r s else rest)
  guard-Made test r rest h = if_split (λ o. Made o) test (λ _. kept) h

  attempt-Made {ℓ} :
      {A : Type ℓ} (r : WorkshopSession × Result A) (refusal : DomainError → CommandResponse)
      (rest : WorkshopSession → Outcome)
      → MadeBy c.now s r.0
      → ((t : WorkshopSession) → (rest t).session ≡ t)
      → Made (attempt r refusal rest)
  attempt-Made (t, ok a) refusal rest h e = subst (MadeBy c.now s) (sym (e t)) h
  attempt-Made (t, err x) refusal rest h e = h

  start_phase1-Made : Made (handle_start_phase1 c s)
  unfolding handle_start_phase1 exec
  start_phase1-Made = guard-Made (not (is_host_of s c)) _ _ λ _.
      guard-Made (not (phase_eq s.phase Phase.lobby)) _ _ λ _.
        attempt-Made (begin_phase1 c.now c.draws (assignments_of s.players) s) (refusal c) _
          (called (begins_phase1 c.draws (assignments_of s.players))) (λ t. refl)

  choose_character-Made : (id : String) (r : CharacterRecord) → Made (choose_character c id r s)
  unfolding choose_character exec
  choose_character-Made id r =
      guard-Made (not (is_owned_by (account_of_player c s) r) && not (is_none r.owner_account_id)) _
        _
        λ _. guard-Made (is_none r.owner_account_id && is_taken c id s) _ _ λ _.
          attempt-Made
            (assign_player_character c.now c.player_id (character_profile_with_sprite_references r)
              s)
            (refusal c) _
            (called (assigns_character c.player_id (character_profile_with_sprite_references r)))
            (λ t. refl)

  with_record-Made : (id : String) (r : Option CharacterRecord) → Made (with_record c id s r)
  with_record-Made id none = kept
  with_record-Made id (some r) = choose_character-Made id r

  select_loaded-Made : (id : String) (r : Loaded) → Made (select_loaded c id s r)
  unfolding handle_select_character
  select_loaded-Made id (load_failed text) = kept
  select_loaded-Made id (found r) =
      guard-Made (is_starter_id id && is_taken c id s) _ _ λ _. with_record-Made id r

  preload-Made : (out : Outside) (id : Option String) → Made (preload_and_select out c s id)
  preload-Made out none = kept
  preload-Made out (some id) =
      guard-Made (is_blank (trim id)) _ _
        λ _. select_loaded-Made (trim id) (out.load_character (trim id))

  observe-Made : (text : String) (d : Option String) → Made (observe c text s d)
  unfolding exec
  observe-Made text none = kept
  observe-Made text (some d) = called (observes c.player_id text)

  observe_text-Made : (text : Option String) → Made (observe_text c s text)
  observe_text-Made none = kept
  observe_text-Made (some text) =
      guard-Made (is_blank (trim text)) _ _
        λ _. observe-Made (trim text) (dragon_of s.players c.player_id)

  submit_observation-Made : (text : Option String) → Made (handle_submit_observation c text s)
  unfolding handle_submit_observation
  submit_observation-Made text =
      guard-Made (not (phase_eq s.phase Phase.phase1)) _ _ λ _. observe_text-Made text

  report_action-Made :
      (p : ActionPayload) (d : String) (r : WorkshopSession × Result ActionOutcome)
      → MadeBy c.now s r.0
      → Made (report_action c p d r)
  report_action-Made p d (t, ok outcome) h = h
  report_action-Made p d (t, err e) h = h

  act_with-Made :
      (p : ActionPayload) (a : PlayerAction) (d : Option String) → Made (act_with c p a s d)
  unfolding exec
  act_with-Made p a none = kept
  act_with-Made p a (some d) =
      report_action-Made p d (apply_action c.now c.player_id a s) (called (acts c.player_id a))

  with_action-Made : (p : ActionPayload) (a : Option PlayerAction) → Made (with_action c p s a)
  with_action-Made p none = kept
  with_action-Made p (some a) = act_with-Made p a (dragon_of s.players c.player_id)

  action-Made : (p : Option ActionPayload) → Made (handle_action c p s)
  unfolding handle_action
  action-Made none = kept
  action-Made (some p) = with_action-Made p (parse_player_action p)

  start_handover-Made : Made (handle_start_handover c s)
  unfolding handle_start_handover exec
  start_handover-Made = guard-Made (not (is_host_of s c)) _ _ λ _.
      guard-Made (not (phase_eq s.phase Phase.phase1)) _ _ λ _.
        attempt-Made (transition_to c.now Phase.handover s) (refusal c) _ (called begins_handover)
          (λ t. refl)

  save_tags-Made : (tags : Option (List String)) → Made (save_tags c s tags)
  unfolding exec
  save_tags-Made none = kept
  save_tags-Made (some tags) =
      attempt-Made (save_handover_tags c.now c.player_id tags s) (tags_refusal c) _
        (called (saves_tags c.player_id tags)) (λ t. refl)

  submit_tags-Made : (p : Option (List (Option String))) → Made (handle_submit_tags c p s)
  unfolding handle_submit_tags
  submit_tags-Made p =
      guard-Made (not (phase_eq s.phase Phase.handover)) _ _
        λ _. save_tags-Made (and_then p collect_tags)

  end_game-Made : Made (handle_end_game c s)
  unfolding handle_end_game
  end_game-Made = guard-Made (not (is_host_of s c)) _ _ λ _.
      guard-Made (not (phase_eq s.phase Phase.phase2)) _ _ λ _.
        attempt-Made (enter_voting c.now (award_phase_end_achievements c.now s).0) (refusal c) _
          (awarded_vote-Made) (λ t. refl)

  open_vote_from-Made : (p : Phase) → Made (open_vote_from p c s)
  unfolding exec
  open_vote_from-Made Phase.phase2 =
      attempt-Made (enter_voting c.now (award_phase_end_achievements c.now s).0) (refusal c) _
        (awarded_vote-Made) (λ t. refl)
  open_vote_from-Made Phase.judge =
      attempt-Made (enter_voting c.now s) (refusal c) _ (called enters_voting) (λ t. refl)
  open_vote_from-Made Phase.lobby = kept
  open_vote_from-Made Phase.phase0 = kept
  open_vote_from-Made Phase.phase1 = kept
  open_vote_from-Made Phase.handover = kept
  open_vote_from-Made Phase.voting = kept
  open_vote_from-Made Phase.end = kept

  start_voting-Made : Made (handle_start_voting c s)
  unfolding handle_start_voting
  start_voting-Made = guard-Made (not (is_host_of s c)) _ _ λ _. open_vote_from-Made s.phase

  vote_for-Made : (d : Option String) → Made (vote_for c s d)
  unfolding exec
  vote_for-Made none = kept
  vote_for-Made (some d) =
      attempt-Made (submit_vote c.now c.player_id d s) (vote_refusal c) _
        (called (votes c.player_id d)) (λ t. refl)

  submit_vote-Made : (d : Option String) → Made (handle_submit_vote c d s)
  unfolding handle_submit_vote
  submit_vote-Made d = guard-Made (not (phase_eq s.phase Phase.voting)) _ _ λ _. vote_for-Made d

  reveal_voting_results-Made : Made (handle_reveal_voting_results c s)
  unfolding handle_reveal_voting_results exec
  reveal_voting_results-Made = guard-Made (not (is_host_of s c)) _ _ λ _.
      guard-Made (not (phase_eq s.phase Phase.voting)) _ _ λ _.
        attempt-Made (reveal_voting_results c.now s) (reveal_refusal c) _ (called reveals)
          (λ t. refl)

  end_session-Made : Made (handle_end_session c s)
  unfolding handle_end_session exec
  end_session-Made = guard-Made (not (is_host_of s c)) _ _ λ _.
      guard-Made (not (phase_eq s.phase Phase.voting)) _ _
        λ _. attempt-Made (finalize_voting c.now s) (end_refusal c) _ (called finalizes) (λ t. refl)

  reset_game-Made : Made (handle_reset_game c s)
  unfolding handle_reset_game exec
  reset_game-Made = guard-Made (not (is_host_of s c)) _ _ λ _.
      attempt-Made (reset_to_lobby c.now c.player_id s) (refusal c) _ (called (resets c.player_id))
        (λ t. refl)

  entered-Made : MadeBy c.now s (enter_phase2_when_due c s).0
  unfolding enter_phase2_when_due exec
  entered-Made =
      if_split (λ (r : WorkshopSession × Result (List String)). MadeBy c.now s r.0) (is_overdue c s)
        (λ _. called enters_phase2_late) (λ _. called enters_phase2)

  start_phase2-Made : Made (handle_start_phase2 c s)
  unfolding handle_start_phase2
  start_phase2-Made = guard-Made (not (is_host_of s c)) _ _ λ _.
      guard-Made (not (phase_eq s.phase Phase.handover)) _ _
        λ _. attempt-Made (enter_phase2_when_due c s) (phase2_refusal c) _ entered-Made (λ t. refl)

  pub dispatch-Made :
      (out : Outside) (command : SessionCommand) (p : Payload) → Made (dispatch out c command p s)
  unfolding dispatch
  dispatch-Made out SessionCommand.start_phase1 p = start_phase1-Made
  dispatch-Made out SessionCommand.select_character p = preload-Made out p.character_id
  dispatch-Made out SessionCommand.submit_observation p = submit_observation-Made p.text
  dispatch-Made out SessionCommand.action p = action-Made p.action
  dispatch-Made out SessionCommand.start_handover p = start_handover-Made
  dispatch-Made out SessionCommand.submit_tags p = submit_tags-Made p.tags
  dispatch-Made out SessionCommand.start_phase2 p = start_phase2-Made
  dispatch-Made out SessionCommand.end_game p = end_game-Made
  dispatch-Made out SessionCommand.start_voting p = start_voting-Made
  dispatch-Made out SessionCommand.submit_vote p = submit_vote-Made p.vote
  dispatch-Made out SessionCommand.reveal_voting_results p = reveal_voting_results-Made
  dispatch-Made out SessionCommand.end_session p = end_session-Made
  dispatch-Made out SessionCommand.reset_game p = reset_game-Made
  dispatch-Made out SessionCommand.join p = kept
  dispatch-Made out SessionCommand.leave_workshop p = kept
