-- ===== src/Server.antt =====
-- platform/app-server/src, the HTTP handler `workshop_command` of http.rs with the functions of
-- helpers.rs that it calls, the end of a phase's time in ws.rs, the judge of llm.rs, and the records
-- of the other crates that they build. Decoding of JSON is
-- serde's: a command's payload comes decoded.
pub mod Actions
pub mod Commands
pub mod Stages
pub mod Handler
pub mod Answers
pub mod Replies
pub mod Writes
pub mod Refinement
pub mod Serving
pub mod Hosting
pub mod Assigning
pub mod Deadlines
pub mod Judging
use dragon_shift.Common.{
  ℕ, String, Bool, true, false, Option, none, some, List, is_some_and, str_eq,
}
use dragon_shift.Common.I32.{ℤ}
use dragon_shift.BTreeMap.{BTreeMap}
use dragon_shift.Protocol.{Phase, CharacterProfile, SpriteSet}
use dragon_shift.Session.{WorkshopSession, Result, ok, err, DomainError}
use dragon_shift.Session.Start.{Draws}
use Prim.Native.String.{◌++◌ as str_append}

-- What a command is answered with: a status and a message.
pub data CommandResponse : Type 0 where
  success : CommandResponse
  bad_request conflict internal_error : String → CommandResponse

pub data WorkshopBroadcastDelta : Type 0 where
  player_upsert : String → WorkshopBroadcastDelta
  dragon_patch : String → WorkshopBroadcastDelta
  player_and_dragon_patch : String → String → WorkshopBroadcastDelta

pub data SessionArtifactKind : Type 0 where
  session_created player_joined player_reconnected : SessionArtifactKind
  pet_profile_updated creator_instructions_recorded phase_changed : SessionArtifactKind
  discovery_observation_saved handover_saved handover_chain_compiled : SessionArtifactKind
  action_processed vote_submitted voting_finalized : SessionArtifactKind
  judge_bundle_generated session_reset player_left : SessionArtifactKind

-- The part of an action's payload that its outcome gives: hunger, energy, happiness and whether it
-- was correct, or why it was blocked; neither for a dragon that is not there.
pub data ActionReport : Type 0 where
  no_dragon : ActionReport
  was_applied : ℕ → ℕ → ℕ → Bool → ActionReport
  was_blocked : String → ActionReport

-- The JSON objects that the handler writes.
pub data ArtifactPayload : Type 0 where
  to_phase : String → ArtifactPayload
  character_chosen : String → ℕ → ArtifactPayload
  observation_saved : String → String → ArtifactPayload
  action_taken : String → List ℕ → Option (List ℕ) → ActionReport → ArtifactPayload
  tags_saved : ℕ → List String → ArtifactPayload
  game_ended : ArtifactPayload
  vote_cast : String → ArtifactPayload
  results_revealed : BTreeMap String ℤ → ArtifactPayload
  session_ended : BTreeMap String ℤ → ArtifactPayload
  auto_advanced : Phase → Phase → ArtifactPayload

pub record SessionArtifactRecord : Type 0 where
  pub id : String
  pub session_id : ℕ
  pub phase : Phase
  pub step : ℕ
  pub kind : SessionArtifactKind
  pub player_id : Option String
  pub created_at : String
  pub payload : ArtifactPayload

-- What the persistence crate stores of a character.
pub record CharacterRecord : Type 0 where
  pub id : String
  pub name : Option String
  pub description : String
  pub sprites : SpriteSet
  pub remaining_sprite_regenerations : ℕ  -- u8
  pub created_at : String
  pub updated_at : String
  pub owner_account_id : Option String

-- Who sends a command, and what the handler takes from the clock, from `rand` and from the
-- libraries: the player that the reconnect token names, the time, the draws of the dragons, the
-- artifact's random id and its timestamp, thiserror's text of an error, and the decimals of a number.
pub record Context : Type 0 where
  pub player_id : String
  pub now : ℕ
  pub draws : ℕ → Draws
  pub artifact_id : String
  pub created_at : String
  pub error_text : DomainError → String
  pub decimal : ℕ → String

-- What the handler has when it leaves the lock of the sessions: the cached session, which it has
-- changed in place, and the seven variables it goes on with. An early return goes on with nothing.
pub record Outcome : Type 0 where
  pub session : WorkshopSession
  pub response : CommandResponse
  pub should_broadcast : Bool
  pub should_run_judge : Bool
  pub broadcast_delta : Option WorkshopBroadcastDelta
  pub session_to_persist : Option WorkshopSession
  pub artifact_to_append : Option SessionArtifactRecord

abbrev pub phase_step : Phase → ℕ
phase_step Phase.lobby = 0
phase_step Phase.phase0 = 1
phase_step Phase.phase1 = 2
phase_step Phase.handover = 3
phase_step Phase.phase2 = 4
phase_step Phase.judge = 5
phase_step Phase.voting = 6
phase_step Phase.end = 7

unfoldable pub character_sprite_reference_set : String → SpriteSet
character_sprite_reference_set character_id =
    let base = str_append "/api/characters/" character_id in
    record {
      neutral = str_append base "/sprites/neutral";
      happy = str_append base "/sprites/happy";
      angry = str_append base "/sprites/angry";
      sleepy = str_append base "/sprites/sleepy";
    }

unfoldable pub character_profile_with_sprite_references : CharacterRecord → CharacterProfile
character_profile_with_sprite_references r = record {
  id = r.id;
  name = r.name;
  description = r.description;
  sprites = character_sprite_reference_set r.id;
  remaining_sprite_regenerations = r.remaining_sprite_regenerations;
  creator_account_id = r.owner_account_id;
  creator_name = none;
}

-- `session.host_player_id.as_deref() == Some(identity.player_id.as_str())`
abbrev pub is_host_of : WorkshopSession → Context → Bool
is_host_of s c = is_some_and s.host_player_id (λ id. str_eq id c.player_id)

-- An early return: nothing to persist, nothing to broadcast.
abbrev pub refuse : CommandResponse → WorkshopSession → Outcome
refuse response s = record {
  session = s;
  response = response;
  should_broadcast = false;
  should_run_judge = false;
  broadcast_delta = none;
  session_to_persist = none;
  artifact_to_append = none;
}

abbrev pub new_artifact :
    Context → SessionArtifactKind → ArtifactPayload → WorkshopSession → SessionArtifactRecord
new_artifact c kind payload s = record {
  id = c.artifact_id;
  session_id = s.id;
  phase = s.phase;
  step = phase_step s.phase;
  kind = kind;
  player_id = some c.player_id;
  created_at = c.created_at;
  payload = payload;
}

-- `successful_workshop_command`, with the session and the artifact that are to be saved.
abbrev pub accept :
    Option WorkshopBroadcastDelta → Bool → SessionArtifactRecord → WorkshopSession → Outcome
accept delta judge artifact s = record {
  session = s;
  response = success;
  should_broadcast = true;
  should_run_judge = judge;
  broadcast_delta = delta;
  session_to_persist = some s;
  artifact_to_append = some artifact;
}

-- A command that is answered by one artifact and no delta.
abbrev pub announce : Context → SessionArtifactKind → ArtifactPayload → WorkshopSession → Outcome
announce c kind payload s = accept none false (new_artifact c kind payload s) s

-- `if let Err(error) = session.method() { return refusal(error) }`, then the rest. A method that
-- fails leaves the cached session as it then is.
abbrev pub attempt {ℓ} :
    {A : Type ℓ}
    → WorkshopSession × Result A
    → (DomainError → CommandResponse)
    → (WorkshopSession → Outcome)
    → Outcome
attempt (s, ok a) refusal rest = rest s
attempt (s, err e) refusal rest = refuse (refusal e) s
