-- ===== src/Server/Commands.antt =====
-- platform/app-server/src/http.rs: what `workshop_command` does while it holds the lock of the
-- sessions for the commands of the players, and for the start.
use dragon_shift.Common.{
  ℕ, String, Bool, false, not, ◌&&◌, Option, none, some, List, map, any, is_none, is_some_and,
  and_then, if◌then◌else◌, str_eq,
}
use Prim.Native.String.{◌++◌ as str_append}
use text.Mathlib.Text.{starts_with}
use dragon_shift.Common.Text.{trim, is_blank}
use dragon_shift.BTreeMap.{BTreeMap, string_key, get, values, keys}
use dragon_shift.Protocol.{Phase, phase_eq}
use dragon_shift.Dragon.{
  SessionDragon, PlayerAction, ActionOutcome, applied, blocked, cooldown_violation,
  ActionBlockReason, already_full, too_hungry_to_play, too_tired_to_play, too_awake_to_sleep,
}
use dragon_shift.Session.{
  SessionPlayer, WorkshopSession, Result, ok, err, DomainError, action_not_allowed,
  dragon_not_assigned, dragon_of,
}
use dragon_shift.Session.Start.{Phase1Assignment, assign_player_character, begin_phase1}
use dragon_shift.Session.Handover.{record_discovery_observation}
use dragon_shift.Session.Play.{apply_action}
use dragon_shift.Server.{
  CommandResponse, bad_request, conflict, player_upsert, dragon_patch, player_and_dragon_patch,
  SessionArtifactKind, ActionReport, no_dragon, was_applied, was_blocked, to_phase,
  character_chosen, observation_saved, action_taken, CharacterRecord, Context, Outcome,
  character_profile_with_sprite_references, is_host_of, refuse, new_artifact, accept, announce,
  attempt,
}
use dragon_shift.Server.Actions.{ActionPayload, folded, parse_player_action}

-- What serde makes of a command's payload as the type that the command reads; none where the
-- payload is missing or is not of that type. Of a list of tags it keeps which of them are texts.
pub record Payload : Type 0 where
  pub character_id : Option String
  pub text : Option String
  pub action : Option ActionPayload
  pub tags : Option (List (Option String))
  pub vote : Option String

abbrev pub refusal : Context → DomainError → CommandResponse
refusal c error = conflict (c.error_text error)

-- Every player with the dragon that is named for them.
unfoldable pub assignments_of : BTreeMap String SessionPlayer → List Phase1Assignment
assignments_of players =
    map
      (λ (player_id : String). record {
        player_id = player_id;
        dragon_id = str_append "dragon_" player_id;
      })
      (keys players)

unfoldable pub handle_start_phase1 : Context → WorkshopSession → Outcome
handle_start_phase1 c s =
    if not (is_host_of s c)
    then refuse (bad_request "Only the host can start the workshop.") s
    else if not (phase_eq s.phase Phase.lobby)
    then refuse (conflict "Phase 1 can only start from the lobby.") s
    else attempt (begin_phase1 c.now c.draws (assignments_of s.players) s) (refusal c)
        (λ t. announce c SessionArtifactKind.phase_changed (to_phase "phase1") t)

-- Whether another player has the character.
abbrev pub is_taken : Context → String → WorkshopSession → Bool
is_taken c character_id s =
    any
      (λ (player : SessionPlayer).
        not (str_eq player.id c.player_id)
        && is_some_and player.character_id (λ id. str_eq id character_id))
      (values s.players)

-- The account of the player who sends the command.
abbrev pub account_of_player : Context → WorkshopSession → Option String
account_of_player c s = and_then (get c.player_id s.players) λ player. player.account_id

-- `player_account_id.is_some() && record.owner_account_id.as_deref() == player_account_id`
abbrev pub is_owned_by : Option String → CharacterRecord → Bool
is_owned_by account r =
    is_some_and account λ id. is_some_and r.owner_account_id (λ owner. str_eq owner id)

-- The command with the character that was found.
unfoldable pub choose_character : Context → String → CharacterRecord → WorkshopSession → Outcome
choose_character c character_id r s =
    if not (is_owned_by (account_of_player c s) r) && not (is_none r.owner_account_id)
    then refuse (bad_request "You do not own this character.") s
    else if is_none r.owner_account_id && is_taken c character_id s
    then refuse (bad_request "That starter is already taken in this workshop.") s
    else let character = character_profile_with_sprite_references r in
      attempt (assign_player_character c.now c.player_id character s) (refusal c) (λ t.
        accept (if phase_eq t.phase Phase.lobby then some (player_upsert c.player_id) else none)
          false
          (new_artifact c SessionArtifactKind.pet_profile_updated
            (character_chosen character.id character.remaining_sprite_regenerations) t)
          t)

abbrev pub with_record : Context → String → WorkshopSession → Option CharacterRecord → Outcome
with_record c character_id s none = refuse (bad_request "Selected character was not found.") s
with_record c character_id s (some r) = choose_character c character_id r s

abbrev pub is_starter_id : String → Bool
is_starter_id character_id = starts_with character_id "starter_"

-- The command once its id was trimmed and looked up.
unfoldable pub handle_select_character :
    Context → String → Option CharacterRecord → WorkshopSession → Outcome
handle_select_character c character_id loaded s =
    if is_starter_id character_id && is_taken c character_id s
    then refuse (bad_request "That starter is already taken in this workshop.") s
    else with_record c character_id s loaded

abbrev pub observe : Context → String → WorkshopSession → Option String → Outcome
observe c text s none = refuse (conflict "Player is not assigned to a dragon.") s
observe c text s (some dragon_id) =
    let t = record_discovery_observation c.now c.player_id text s in
    accept (some (dragon_patch dragon_id)) false
      (new_artifact c SessionArtifactKind.discovery_observation_saved
        (observation_saved dragon_id text) t)
      t

abbrev pub observe_text : Context → WorkshopSession → Option String → Outcome
observe_text c s none = refuse (bad_request "Observation payload is invalid.") s
observe_text c s (some text) =
    if is_blank (trim text)
    then refuse (bad_request "Observation text is required.") s
    else observe c (trim text) s (dragon_of s.players c.player_id)

unfoldable pub handle_submit_observation : Context → Option String → WorkshopSession → Outcome
handle_submit_observation c payload s =
    if not (phase_eq s.phase Phase.phase1)
    then refuse (conflict "Observations can only be saved during Phase 1.") s
    else observe_text c s payload

-- The value of an action for its artifact: trimmed, left out if empty, in lower case.
abbrev pub action_value : Option String → Option (List ℕ)
action_value none = none
action_value (some value) = if is_blank (trim value) then none else some (folded value)

abbrev pub reason_str : ActionBlockReason → String
reason_str already_full = "already_full"
reason_str too_hungry_to_play = "too_hungry_to_play"
reason_str too_tired_to_play = "too_tired_to_play"
reason_str too_awake_to_sleep = "too_awake_to_sleep"

abbrev pub report : Option SessionDragon → ActionOutcome → ActionReport
report none outcome = no_dragon
report (some dragon) (applied achievement was_correct) =
    was_applied dragon.hunger dragon.energy dragon.happiness was_correct
report (some dragon) (blocked reason) = was_blocked (reason_str reason)
report (some dragon) cooldown_violation = was_blocked "cooldown_violation"

abbrev pub action_refusal : Context → DomainError → CommandResponse
action_refusal c action_not_allowed = conflict "Action is not allowed right now."
action_refusal c dragon_not_assigned = conflict "Player is not assigned to a dragon."
action_refusal c error = conflict (c.error_text error)

-- The command after `apply_action`.
abbrev pub report_action :
    Context → ActionPayload → String → WorkshopSession × Result ActionOutcome → Outcome
report_action c payload dragon_id (t, err error) = refuse (action_refusal c error) t
report_action c payload dragon_id (t, ok outcome) =
    accept (some (player_and_dragon_patch c.player_id dragon_id)) false
      (new_artifact c SessionArtifactKind.action_processed
        (action_taken dragon_id (folded payload.action_type) (action_value payload.value)
          (report (get dragon_id t.dragons) outcome))
        t)
      t

abbrev pub act_with :
    Context → ActionPayload → PlayerAction → WorkshopSession → Option String → Outcome
act_with c payload action s none = refuse (conflict "Player is not assigned to a dragon.") s
act_with c payload action s (some dragon_id) =
    report_action c payload dragon_id (apply_action c.now c.player_id action s)

abbrev pub with_action : Context → ActionPayload → WorkshopSession → Option PlayerAction → Outcome
with_action c payload s none = refuse (bad_request "Action payload is invalid.") s
with_action c payload s (some action) =
    act_with c payload action s (dragon_of s.players c.player_id)

unfoldable pub handle_action : Context → Option ActionPayload → WorkshopSession → Outcome
handle_action c none s = refuse (bad_request "Action payload is invalid.") s
handle_action c (some payload) s = with_action c payload s (parse_player_action payload)
