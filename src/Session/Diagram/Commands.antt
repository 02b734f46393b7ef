-- ===== src/Session/Diagram/Commands.antt =====
-- The table of phases that clients are sent, against the diagram that the server enforces.
use dragon_shift.Protocol.{Phase, SessionCommand}
use dragon_shift.Session.Diagram.{
  Edge, start, finish_discovery, shuffle, review, skip_review, vote, close, restart,
}

-- The command by which the host takes an edge.
abbrev pub command_of : {p q : Phase} → Edge p q → SessionCommand
command_of start = SessionCommand.start_phase1
command_of finish_discovery = SessionCommand.start_handover
command_of shuffle = SessionCommand.start_phase2
command_of review = SessionCommand.end_game
command_of skip_review = SessionCommand.start_voting
command_of vote = SessionCommand.start_voting
command_of close = SessionCommand.end_session
command_of restart = SessionCommand.reset_game
