-- ===== src/Server/Handler.antt =====
-- platform/app-server/src/http.rs, `workshop_command` as a whole once the session is locked: the
-- command's part, and what is persisted, put back, broadcast and queued after it.
use dragon_shift.Common.{String, Bool, true, false, Option, none, some, if◌then◌else◌}
use Prim.Native.String.{◌++◌ as str_append}
use dragon_shift.Common.Text.{trim, is_blank}
use dragon_shift.Protocol.{SessionCommand}
use dragon_shift.Session.{WorkshopSession}
use dragon_shift.Server.{
  CommandResponse, bad_request, internal_error, WorkshopBroadcastDelta, SessionArtifactRecord,
  CharacterRecord, Context, Outcome, refuse,
}
use dragon_shift.Server.Commands.{
  Payload, handle_start_phase1, handle_select_character, handle_submit_observation, handle_action,
}
use dragon_shift.Server.Stages.{
  handle_start_handover, handle_submit_tags, handle_start_phase2, handle_end_game,
  handle_start_voting, handle_submit_vote, handle_reveal_voting_results, handle_end_session,
  handle_reset_game,
}

-- What the handler calls outside: the store's `load_character`, which may fail with a text.
pub data Loaded : Type 0 where
  found : Option CharacterRecord → Loaded
  load_failed : String → Loaded

pub record Outside : Type 0 where
  pub load_character : String → Loaded

abbrev pub select_loaded : Context → String → WorkshopSession → Loaded → Outcome
select_loaded c id s (found r) = handle_select_character c id r s
select_loaded c id s (load_failed text) =
    refuse (internal_error (str_append "failed to load character: " text)) s

-- The character is loaded before the session is locked.
abbrev pub preload_and_select : Outside → Context → WorkshopSession → Option String → Outcome
preload_and_select out c s none = refuse (bad_request "Character selection payload is invalid.") s
preload_and_select out c s (some id) =
    if is_blank (trim id)
    then refuse (bad_request "Selected character was not found.") s
    else select_loaded c (trim id) s (out.load_character (trim id))

unfoldable pub dispatch : Outside → Context → SessionCommand → Payload → WorkshopSession → Outcome
dispatch out c SessionCommand.start_phase1 p s = handle_start_phase1 c s
dispatch out c SessionCommand.select_character p s = preload_and_select out c s p.character_id
dispatch out c SessionCommand.submit_observation p s = handle_submit_observation c p.text s
dispatch out c SessionCommand.action p s = handle_action c p.action s
dispatch out c SessionCommand.start_handover p s = handle_start_handover c s
dispatch out c SessionCommand.submit_tags p s = handle_submit_tags c p.tags s
dispatch out c SessionCommand.start_phase2 p s = handle_start_phase2 c s
dispatch out c SessionCommand.end_game p s = handle_end_game c s
dispatch out c SessionCommand.start_voting p s = handle_start_voting c s
dispatch out c SessionCommand.submit_vote p s = handle_submit_vote c p.vote s
dispatch out c SessionCommand.reveal_voting_results p s = handle_reveal_voting_results c s
dispatch out c SessionCommand.end_session p s = handle_end_session c s
dispatch out c SessionCommand.reset_game p s = handle_reset_game c s
dispatch out c _ p s = refuse (bad_request "Unsupported workshop command.") s

-- How the write ends: the lease on the session may have been lost, and the store may fail.
pub data WriteFate : Type 0 where
  lease_lost save_failed : String → WriteFate
  saved : WriteFate

-- What the handler leaves: the cached session, the answer, what the store was given, and what is
-- broadcast and queued. A broadcast without a delta marks the session as dirty.
pub record Effects : Type 0 where
  pub cached : WorkshopSession
  pub response : CommandResponse
  pub stored : Option (WorkshopSession × SessionArtifactRecord)
  pub broadcast : Option (Option WorkshopBroadcastDelta)
  pub judge_queued : Bool

-- The cached session is put back.
abbrev pub roll_back : WorkshopSession → String → Effects
roll_back before message = record {
  cached = before;
  response = internal_error message;
  stored = none;
  broadcast = none;
  judge_queued = false;
}

abbrev pub broadcast_of :
    Bool → Option WorkshopBroadcastDelta → Option (Option WorkshopBroadcastDelta)
broadcast_of true delta = some delta
broadcast_of false delta = none

abbrev pub leave : Outcome → Option (WorkshopSession × SessionArtifactRecord) → Effects
leave o stored = record {
  cached = o.session;
  response = o.response;
  stored = stored;
  broadcast = broadcast_of o.should_broadcast o.broadcast_delta;
  judge_queued = o.should_run_judge;
}

abbrev pub write :
    WriteFate → WorkshopSession → Outcome → WorkshopSession → SessionArtifactRecord → Effects
write (lease_lost text) before o session artifact =
    roll_back before (str_append "lost session lease before command persist: " text)
write (save_failed text) before o session artifact =
    roll_back before (str_append "failed to persist session command: " text)
write saved before o session artifact = leave o (some (session, artifact))

unfoldable pub persist_pair :
    WriteFate
    → WorkshopSession
    → Outcome
    → Option WorkshopSession
    → Option SessionArtifactRecord
    → Effects
persist_pair fate before o (some session) none =
    roll_back before "session command mutated state without an artifact"
persist_pair fate before o none (some artifact) =
    roll_back before "session command emitted an artifact without session state"
persist_pair fate before o (some session) (some artifact) = write fate before o session artifact
persist_pair fate before o none none = leave o none

unfoldable pub workshop_command :
    Outside → Context → SessionCommand → Payload → WriteFate → WorkshopSession → Effects
workshop_command out c command p fate s =
    let o = dispatch out c command p s in
    persist_pair fate s o o.session_to_persist o.artifact_to_append
