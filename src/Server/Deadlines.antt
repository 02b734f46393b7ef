-- ===== src/Server/Deadlines.antt =====
-- platform/app-server/src/ws.rs, `advance_overdue_phase`: the server ends a phase whose time is up,
-- once the session is locked and cached.
pub mod Progress
use dragon_shift.Common.{ℕ, String, Bool, true, false, Option, none, some, if◌then◌else◌, ◌==◌}
use dragon_shift.Protocol.{Phase}
use dragon_shift.Session.{WorkshopSession, Result, ok, err, DomainError, transition_to}
use dragon_shift.Session.Clock.{remaining_phase_seconds}
use dragon_shift.Session.Handover.{enter_phase2_after_deadline}
use dragon_shift.Session.Play.{award_phase_end_achievements}
use dragon_shift.Session.Voting.{enter_voting}
use dragon_shift.Server.{SessionArtifactKind, auto_advanced, SessionArtifactRecord, phase_step}
use dragon_shift.Server.Handler.{WriteFate, lease_lost, save_failed, saved}

-- What the phase's match makes of the session.
pub data Advance : Type 0 where
  stays : Advance
  advanced : WorkshopSession → Advance
  failed : WorkshopSession → DomainError → Advance

abbrev pub settled {ℓ} : {A : Type ℓ} → WorkshopSession × Result A → Advance
settled (s, ok a) = advanced s
settled (s, err e) = failed s e

unfoldable pub advance_from : Phase → ℕ → WorkshopSession → Advance
advance_from Phase.phase1 now s = settled (transition_to now Phase.handover s)
advance_from Phase.handover now s = settled (enter_phase2_after_deadline now s)
advance_from Phase.phase2 now s = settled (enter_voting now (award_phase_end_achievements now s).0)
advance_from _ now s = stays

-- `session.remaining_phase_seconds(now) == Some(0)`
abbrev pub is_time_up : Option ℕ → Bool
is_time_up none = false
is_time_up (some left) = left == 0

abbrev pub auto_artifact : String → String → Phase → WorkshopSession → SessionArtifactRecord
auto_artifact id created_at from_phase s = record {
  id = id;
  session_id = s.id;
  phase = s.phase;
  step = phase_step s.phase;
  kind = SessionArtifactKind.phase_changed;
  player_id = none;
  created_at = created_at;
  payload = auto_advanced from_phase s.phase;
}

-- What the function leaves: the cached session, what was stored, for whom the judge is started, and
-- whether it returns an error.
pub record AdvanceEffects : Type 0 where
  pub cached : WorkshopSession
  pub stored : Option (WorkshopSession × SessionArtifactRecord)
  pub judge_for : Option String
  pub is_error : Bool

abbrev pub leaves : Bool → WorkshopSession → AdvanceEffects
leaves is_error s = record { cached = s; stored = none; judge_for = none; is_error = is_error }

-- The judge runs for the host, or else for the server.
abbrev pub judge_after : Phase → Option String → Option String
judge_after Phase.phase2 none = some "server"
judge_after Phase.phase2 (some host) = some host
judge_after _ host = none

abbrev pub store_advance :
    String → String → WriteFate → WorkshopSession → WorkshopSession → AdvanceEffects
store_advance id created_at (lease_lost text) before s = leaves true before
store_advance id created_at (save_failed text) before s = leaves true before
store_advance id created_at saved before s = record {
  cached = s;
  stored = some (s, auto_artifact id created_at before.phase s);
  judge_for = judge_after before.phase s.host_player_id;
  is_error = false;
}

unfoldable pub finish_advance :
    String → String → WriteFate → WorkshopSession → Advance → AdvanceEffects
finish_advance id created_at fate before stays = leaves false before
finish_advance id created_at fate before (failed s e) = leaves true s
finish_advance id created_at fate before (advanced s) = store_advance id created_at fate before s

unfoldable pub advance_overdue_phase :
    String → String → ℕ → WriteFate → WorkshopSession → AdvanceEffects
advance_overdue_phase id created_at now fate s =
    if is_time_up (remaining_phase_seconds now s)
    then finish_advance id created_at fate s (advance_from s.phase now s)
    else leaves false s
