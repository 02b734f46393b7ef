-- ===== src/Server/Hosting.antt =====
-- Who may move a workshop, by `workshop_command` of platform/app-server/src/http.rs.
use dragon_shift.Common.{
  String, ◌≡◌, refl, Bool, true, false, not, ◌&&◌, Option, none, some, List, if_split,
  if◌then◌else◌, is_none, and_then,
}
use dragon_shift.Common.Text.{trim, is_blank}
use dragon_shift.BTreeMap.{string_key}
use dragon_shift.Protocol.{Phase, SessionCommand, phase_eq}
use dragon_shift.Dragon.{PlayerAction, ActionOutcome}
use dragon_shift.Session.{WorkshopSession, Result, ok, err, DomainError, dragon_of}
use dragon_shift.Session.Start.{assign_player_character}
use dragon_shift.Session.Handover.{save_handover_tags}
use dragon_shift.Session.Play.{apply_action}
use dragon_shift.Session.Voting.{submit_vote}
use dragon_shift.Server.{
  CommandResponse, bad_request, CharacterRecord, Context, Outcome, SessionArtifactRecord,
  is_host_of, refuse, character_profile_with_sprite_references, attempt,
}
use dragon_shift.Server.Actions.{ActionPayload, parse_player_action}
use dragon_shift.Server.Commands.{
  Payload, refusal, is_taken, account_of_player, is_starter_id, is_owned_by, choose_character,
  with_record, observe, observe_text, report_action, act_with, with_action, handle_start_phase1,
  handle_select_character, handle_submit_observation, handle_action,
}
use dragon_shift.Server.Stages.{
  tags_refusal, save_tags, collect_tags, vote_refusal, vote_for, handle_start_handover,
  handle_submit_tags, handle_start_phase2, handle_end_game, handle_start_voting, handle_submit_vote,
  handle_reveal_voting_results, handle_end_session, handle_reset_game,
}
use dragon_shift.Server.Handler.{
  Outside, Loaded, found, load_failed, select_loaded, preload_and_select, dispatch,
}
use dragon_shift.Common.{Bool-cases, inl, inr, ap, ◌∙◌}
use dragon_shift.Server.Handler.{
  WriteFate, lease_lost, save_failed, saved, leave, persist_pair, workshop_command,
}
use dragon_shift.Server.{SessionArtifactRecord}
use dragon_shift.Workshop.Course.{
  assign_player_character-phase, record-phase, save_handover_tags-phase, apply_action-phase,
  submit_vote-phase,
}

-- The commands that only the host gives.
abbrev pub is_stage_command : SessionCommand → Bool
is_stage_command SessionCommand.start_phase1 = true
is_stage_command SessionCommand.start_handover = true
is_stage_command SessionCommand.start_phase2 = true
is_stage_command SessionCommand.end_game = true
is_stage_command SessionCommand.start_voting = true
is_stage_command SessionCommand.reveal_voting_results = true
is_stage_command SessionCommand.end_session = true
is_stage_command SessionCommand.reset_game = true
is_stage_command _ = false

module _ (c : Context) (s : WorkshopSession) where
  abbrev Stays : Outcome → Type 0
  Stays o = o.session.phase ≡ s.phase

  guard-Stays :
      (test : Bool) (r : CommandResponse) (rest : Outcome)
      → Stays rest
      → Stays (if test then refuse r s else rest)
  guard-Stays test r rest h = if_split (λ o. Stays o) test (λ _. refl) (λ _. h)

  attempt-Stays {ℓ} :
      {A : Type ℓ} (r : WorkshopSession × Result A) (refusal : DomainError → CommandResponse)
      (rest : WorkshopSession → Outcome)
      → r.0.phase ≡ s.phase
      → ((t : WorkshopSession) → (rest t).session ≡ t)
      → Stays (attempt r refusal rest)
  attempt-Stays (t, ok a) refusal rest h e = ap (λ x. x.phase) (e t) ∙ h
  attempt-Stays (t, err x) refusal rest h e = h

  choose_character-Stays : (id : String) (r : CharacterRecord) → Stays (choose_character c id r s)
  unfolding choose_character
  choose_character-Stays id r =
      guard-Stays (not (is_owned_by (account_of_player c s) r) && not (is_none r.owner_account_id))
        _ _
        (guard-Stays (is_none r.owner_account_id && is_taken c id s) _ _ (
          attempt-Stays
            (assign_player_character c.now c.player_id (character_profile_with_sprite_references r)
              s)
            (refusal c) _
            (assign_player_character-phase c.now c.player_id
              (character_profile_with_sprite_references r) s)
            (λ t. refl)))

  with_record-Stays : (id : String) (r : Option CharacterRecord) → Stays (with_record c id s r)
  with_record-Stays id none = refl
  with_record-Stays id (some r) = choose_character-Stays id r

  select_loaded-Stays : (id : String) (r : Loaded) → Stays (select_loaded c id s r)
  unfolding handle_select_character
  select_loaded-Stays id (load_failed text) = refl
  select_loaded-Stays id (found r) =
      guard-Stays (is_starter_id id && is_taken c id s) _ _ (with_record-Stays id r)

  preload-Stays : (out : Outside) (id : Option String) → Stays (preload_and_select out c s id)
  preload-Stays out none = refl
  preload-Stays out (some id) =
      guard-Stays (is_blank (trim id)) _ _
        (select_loaded-Stays (trim id) (out.load_character (trim id)))

  observe-Stays : (text : String) (d : Option String) → Stays (observe c text s d)
  observe-Stays text none = refl
  observe-Stays text (some d) = record-phase c.now c.player_id text s

  observe_text-Stays : (text : Option String) → Stays (observe_text c s text)
  observe_text-Stays none = refl
  observe_text-Stays (some text) =
      guard-Stays (is_blank (trim text)) _ _
        (observe-Stays (trim text) (dragon_of s.players c.player_id))

  submit_observation-Stays : (text : Option String) → Stays (handle_submit_observation c text s)
  unfolding handle_submit_observation
  submit_observation-Stays text =
      guard-Stays (not (phase_eq s.phase Phase.phase1)) _ _ (observe_text-Stays text)

  report_action-Stays :
      (p : ActionPayload) (d : String) (r : WorkshopSession × Result ActionOutcome)
      → r.0.phase ≡ s.phase
      → Stays (report_action c p d r)
  report_action-Stays p d (t, ok outcome) h = h
  report_action-Stays p d (t, err e) h = h

  act_with-Stays :
      (p : ActionPayload) (a : PlayerAction) (d : Option String) → Stays (act_with c p a s d)
  act_with-Stays p a none = refl
  act_with-Stays p a (some d) =
      report_action-Stays p d (apply_action c.now c.player_id a s)
        (apply_action-phase c.now c.player_id a s)

  with_action-Stays : (p : ActionPayload) (a : Option PlayerAction) → Stays (with_action c p s a)
  with_action-Stays p none = refl
  with_action-Stays p (some a) = act_with-Stays p a (dragon_of s.players c.player_id)

  action-Stays : (p : Option ActionPayload) → Stays (handle_action c p s)
  unfolding handle_action
  action-Stays none = refl
  action-Stays (some p) = with_action-Stays p (parse_player_action p)

  save_tags-Stays : (tags : Option (List String)) → Stays (save_tags c s tags)
  save_tags-Stays none = refl
  save_tags-Stays (some tags) =
      attempt-Stays (save_handover_tags c.now c.player_id tags s) (tags_refusal c) _
        (save_handover_tags-phase c.now c.player_id tags s) (λ t. refl)

  submit_tags-Stays : (p : Option (List (Option String))) → Stays (handle_submit_tags c p s)
  unfolding handle_submit_tags
  submit_tags-Stays p =
      guard-Stays (not (phase_eq s.phase Phase.handover)) _ _
        (save_tags-Stays (and_then p collect_tags))

  vote_for-Stays : (d : Option String) → Stays (vote_for c s d)
  vote_for-Stays none = refl
  vote_for-Stays (some d) =
      attempt-Stays (submit_vote c.now c.player_id d s) (vote_refusal c) _
        (submit_vote-phase c.now c.player_id d s) (λ t. refl)

  submit_vote-Stays : (d : Option String) → Stays (handle_submit_vote c d s)
  unfolding handle_submit_vote
  submit_vote-Stays d = guard-Stays (not (phase_eq s.phase Phase.voting)) _ _ (vote_for-Stays d)

  -- A command that is not the host's.
  others-Stays :
      (out : Outside) (command : SessionCommand) (p : Payload)
      → is_stage_command command ≡ false
      → Stays (dispatch out c command p s)
  unfolding dispatch
  others-Stays out SessionCommand.select_character p e = preload-Stays out p.character_id
  others-Stays out SessionCommand.submit_observation p e = submit_observation-Stays p.text
  others-Stays out SessionCommand.action p e = action-Stays p.action
  others-Stays out SessionCommand.submit_tags p e = submit_tags-Stays p.tags
  others-Stays out SessionCommand.submit_vote p e = submit_vote-Stays p.vote
  others-Stays out SessionCommand.join p e = refl
  others-Stays out SessionCommand.leave_workshop p e = refl
  others-Stays out SessionCommand.start_phase1 p e = absurd cc
  others-Stays out SessionCommand.start_handover p e = absurd cc
  others-Stays out SessionCommand.start_phase2 p e = absurd cc
  others-Stays out SessionCommand.end_game p e = absurd cc
  others-Stays out SessionCommand.start_voting p e = absurd cc
  others-Stays out SessionCommand.reveal_voting_results p e = absurd cc
  others-Stays out SessionCommand.end_session p e = absurd cc
  others-Stays out SessionCommand.reset_game p e = absurd cc

  not_host :
      (r : CommandResponse) (rest : Outcome)
      → is_host_of s c ≡ false
      → (if not (is_host_of s c) then refuse r s else rest) ≡ refuse r s
  not_host r rest h = ap (λ b. if not b then refuse r s else rest) h

  stage-refused :
      (out : Outside) (command : SessionCommand) (p : Payload)
      → is_host_of s c ≡ false
      → is_stage_command command ≡ true
      → (m : String) × (dispatch out c command p s ≡ refuse (bad_request m) s)
  unfolding dispatch handle_start_phase1 handle_start_handover handle_start_phase2 handle_end_game
      handle_start_voting handle_reveal_voting_results handle_end_session handle_reset_game
  stage-refused out SessionCommand.start_phase1 p h e =
      (_, not_host (bad_request "Only the host can start the workshop.") _ h)
  stage-refused out SessionCommand.start_handover p h e =
      (_, not_host (bad_request "Only the host can trigger handover.") _ h)
  stage-refused out SessionCommand.start_phase2 p h e =
      (_, not_host (bad_request "Only the host can begin Phase 2.") _ h)
  stage-refused out SessionCommand.end_game p h e =
      (_, not_host (bad_request "Only the host can end the workshop.") _ h)
  stage-refused out SessionCommand.start_voting p h e =
      (_, not_host (bad_request "Only the host can open the design vote.") _ h)
  stage-refused out SessionCommand.reveal_voting_results p h e =
      (_, not_host (bad_request "Only the host can reveal voting results.") _ h)
  stage-refused out SessionCommand.end_session p h e =
      (_, not_host (bad_request "Only the host can end the session.") _ h)
  stage-refused out SessionCommand.reset_game p h e =
      (_, not_host (bad_request "Only the host can reset the workshop.") _ h)
  stage-refused out SessionCommand.select_character p h e = absurd cc
  stage-refused out SessionCommand.submit_observation p h e = absurd cc
  stage-refused out SessionCommand.action p h e = absurd cc
  stage-refused out SessionCommand.submit_tags p h e = absurd cc
  stage-refused out SessionCommand.submit_vote p h e = absurd cc
  stage-refused out SessionCommand.join p h e = absurd cc
  stage-refused out SessionCommand.leave_workshop p h e = absurd cc

  cached-Stays :
      (fate : WriteFate) (o : Outcome) (session : Option WorkshopSession)
      (artifact : Option SessionArtifactRecord)
      → Stays o
      → (persist_pair fate s o session artifact).cached.phase ≡ s.phase
  unfolding persist_pair
  cached-Stays fate o none none h = h
  cached-Stays fate o none (some a) h = refl
  cached-Stays fate o (some t) none h = refl
  cached-Stays saved o (some t) (some a) h = h
  cached-Stays (lease_lost e) o (some t) (some a) h = refl
  cached-Stays (save_failed e) o (some t) (some a) h = refl

  persist_pair-refused :
      (fate : WriteFate) (o : Outcome) (r : CommandResponse)
      → o ≡ refuse r s
      → persist_pair fate s o o.session_to_persist o.artifact_to_append ≡ leave (refuse r s) none
  unfolding persist_pair
  persist_pair-refused fate o r e =
      ap (λ x. persist_pair fate s x x.session_to_persist x.artifact_to_append) e

-- A player who is not the host cannot move the workshop: whatever they send, its phase stays. Each
-- of the eight commands that start or end a stage, reveal the votes or reset the game is then
-- answered as a bad request, with the session left as it is and nothing stored or broadcast.
pub workshop_command_of_others :
    (out : Outside) (c : Context) (command : SessionCommand) (p : Payload) (fate : WriteFate)
    (s : WorkshopSession)
    → is_host_of s c ≡ false
    → let e = workshop_command out c command p fate s in
      (e.cached.phase ≡ s.phase)
      × (is_stage_command command ≡ true
          → (m : String) × (e ≡ leave (refuse (bad_request m) s) none))
unfolding workshop_command
workshop_command_of_others out c command p fate s h = elim (Bool-cases (is_stage_command command)) [
  | inl stage ↦
      let (m, e) = stage-refused c s out command p h stage in
      let all = persist_pair-refused c s fate (dispatch out c command p s) (bad_request m) e in
      (ap (λ x. x.cached.phase) all, λ _. (m, all))
  | inr other ↦ (
    cached-Stays c s fate (dispatch out c command p s) _ _ (others-Stays c s out command p other),
    λ stage. absurd cc,
  )
]
