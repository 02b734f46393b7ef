-- ===== src/Protocol/Settings.antt =====
-- platform/crates/protocol/src/lib.rs: `create_session_settings`, the table of phases that a client
-- is sent. The map has an entry for every phase, so it is a function of the phase here.
use dragon_shift.Common.{ℕ, String, List, [], ◌∷◌}
use dragon_shift.Common.I32.{ℤ, pos, scale, wrap}
use dragon_shift.Protocol.{Phase, SessionCommand, WorkshopCreateConfig}

pub record SessionPhaseSettings : Type 0 where
  pub step : ℕ
  pub label : String
  pub description : String
  pub duration_seconds : ℤ
  pub allowed_commands : List SessionCommand

-- `(minutes as i32) * 60`, which wraps.
abbrev pub seconds_of : ℕ → ℤ
seconds_of minutes = wrap (scale 60 (wrap (pos minutes)))

unfoldable pub create_session_settings : WorkshopCreateConfig → Phase → SessionPhaseSettings
create_session_settings config Phase.lobby = record {
  step = 0;
  label = "Lobby - Waiting Room";
  description =
      "Join the workshop, pick or create your character from the lobby, and wait for the host to begin discovery.";
  duration_seconds = pos 0;
  allowed_commands =
      SessionCommand.join ∷ SessionCommand.select_character ∷ SessionCommand.start_phase1
      ∷ SessionCommand.reset_game ∷ SessionCommand.leave_workshop ∷ [];
}
create_session_settings config Phase.phase0 = record {
  step = 1;
  label = "Phase 0 - Character Atelier";
  description = "Create or redraw a global character from the lobby before discovery begins.";
  duration_seconds = seconds_of config.phase0_minutes;
  allowed_commands =
      SessionCommand.select_character ∷ SessionCommand.start_phase1 ∷ SessionCommand.reset_game
      ∷ SessionCommand.leave_workshop ∷ [];
}
create_session_settings config Phase.phase1 = record {
  step = 2;
  label = "Phase 1 - Discovery";
  description = "Observe the pet, test assumptions, and discover what care patterns actually work.";
  duration_seconds = seconds_of config.phase1_minutes;
  allowed_commands =
      SessionCommand.action ∷ SessionCommand.submit_observation ∷ SessionCommand.start_handover
      ∷ SessionCommand.reset_game ∷ [];
}
create_session_settings config Phase.handover = record {
  step = 3;
  label = "Phase 2 - Handover";
  description = "Capture instructions and context so another teammate can inherit the pet.";
  duration_seconds = seconds_of config.phase2_minutes;
  allowed_commands =
      SessionCommand.submit_tags ∷ SessionCommand.start_phase2 ∷ SessionCommand.reset_game ∷ [];
}
create_session_settings config Phase.phase2 = record {
  step = 4;
  label = "Phase 2 - Shuffle & Care";
  description = "Take over a reassigned pet and apply what the previous teammate documented.";
  duration_seconds = seconds_of config.phase2_minutes;
  allowed_commands =
      SessionCommand.action ∷ SessionCommand.end_game ∷ SessionCommand.start_voting
      ∷ SessionCommand.reset_game ∷ [];
}
create_session_settings config Phase.judge = record {
  step = 5;
  label = "Judge Review";
  description = "Review the judge's mechanics evaluation before opening the anonymous design vote.";
  duration_seconds = pos 0;
  allowed_commands = SessionCommand.start_voting ∷ SessionCommand.reset_game ∷ [];
}
create_session_settings config Phase.voting = record {
  step = 6;
  label = "Phase 3 - Design Vote";
  description =
      "Vote for the most creative pet design and wait for the host to reveal the final standings.";
  duration_seconds = pos 0;
  allowed_commands =
      SessionCommand.submit_vote ∷ SessionCommand.reveal_voting_results ∷ SessionCommand.reset_game
      ∷ SessionCommand.end_session ∷ [];
}
create_session_settings config Phase.end = record {
  step = 7;
  label = "Final Leaderboard";
  description = "Reveal final scores, creator identities, and wrap up the workshop.";
  duration_seconds = pos 0;
  allowed_commands = SessionCommand.reset_game ∷ SessionCommand.leave_workshop ∷ [];
}
