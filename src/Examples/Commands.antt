-- ===== src/Examples/Commands.antt =====
-- Tests of the server's commands, on a lobby of a host and a guest.
use dragon_shift.Common.{
  ℕ, ◌≡◌, ◌≢◌, ◌⊎◌, ◌↔◌, refl, String, true, none, some, List, [], ◌∷◌, arith,
}
use dragon_shift.BTreeMap.{string_key, get}
use dragon_shift.Protocol.{FoodType, SessionCommand}
use dragon_shift.Dragon.{feed, sleep}
use dragon_shift.Session.{WorkshopSession, new, DomainError}
use dragon_shift.Session.Invariant.{IsValid}
use dragon_shift.Workshop.{Call, run}
use dragon_shift.Server.{bad_request, Context, refuse}
use dragon_shift.Server.Actions.{ActionPayload, print_player_action, parse_player_action}
use dragon_shift.Server.Actions.Words.{Says, parse_player_action-Says, parse-print_player_action}
use dragon_shift.Server.Commands.{Payload}
use dragon_shift.Server.Handler.{
  Outside, found, WriteFate, saved, save_failed, leave, workshop_command,
}
use dragon_shift.Server.Writes.{Done, NotDone, workshop_command_all_or_nothing}
use dragon_shift.Server.Serving.{Request, serve, serve-IsValid}
use dragon_shift.Server.Hosting.{is_stage_command, workshop_command_of_others}
use dragon_shift.Examples.{joining, drawn, fresh}

abbrev lobby : WorkshopSession
lobby = record fresh {
  host_player_id = some "ann";
  players = ("ann", joining "ann" 1) ∷ ("bob", joining "bob" 2) ∷ [];
}

lobby-IsValid : IsValid lobby
unfolding new get
lobby-IsValid = (((refl, (refl, tt)), (refl, (refl, tt))), (tt, tt), omega arith)

abbrev sent_by : String → Context
sent_by player_id = record {
  player_id = player_id;
  now = 5;
  draws = drawn;
  artifact_id = "artifact_1";
  created_at = "today";
  error_text = λ (e : DomainError). "error";
  decimal = λ (n : ℕ). "3";
}

abbrev outside : Outside
outside = record { load_character = λ (id : String). found none }

abbrev nothing_sent : Payload
nothing_sent = record { character_id = none; text = none; action = none; tags = none; vote = none }

abbrev request : String → SessionCommand → WriteFate → Request
request player_id command fate = record {
  out = outside;
  context = sent_by player_id;
  command = command;
  payload = nothing_sent;
  fate = fate;
}

workshop_command_all_or_nothing_example :
    let e =
      workshop_command outside
        (sent_by "ann")
        SessionCommand.start_phase1
        nothing_sent
        (save_failed "disk full")
        lobby in
    Done (sent_by "ann") (save_failed "disk full") e
    ⊎ ((t : WorkshopSession) × NotDone t e
        × (SessionCommand.start_phase1 ≢ SessionCommand.start_phase2 → t ≡ lobby))
workshop_command_all_or_nothing_example =
    workshop_command_all_or_nothing outside (sent_by "ann") SessionCommand.start_phase1 nothing_sent
      (save_failed "disk full") lobby

abbrev served : List Request
served =
    request "bob" SessionCommand.start_phase1 saved
    ∷ request "ann" SessionCommand.start_phase1 (save_failed "disk full")
    ∷ request "ann" SessionCommand.start_phase1 saved
    ∷ request "ann" SessionCommand.start_handover saved
    ∷ []

serve-IsValid_example :
    ((calls : List (ℕ × Call)) × (serve lobby served ≡ run lobby calls))
    × IsValid (serve lobby served)
serve-IsValid_example = serve-IsValid lobby served lobby-IsValid

workshop_command_of_others_example :
    let e =
      workshop_command outside (sent_by "bob") SessionCommand.reset_game nothing_sent saved lobby in
    (e.cached.phase ≡ lobby.phase)
    × (is_stage_command SessionCommand.reset_game ≡ true
        → (m : String) × (e ≡ leave (refuse (bad_request m) lobby) none))
workshop_command_of_others_example =
    workshop_command_of_others outside (sent_by "bob") SessionCommand.reset_game nothing_sent saved
      lobby refl

abbrev shouted : ActionPayload
shouted = record { action_type = " FEED "; value = some "Meat" }

parse_player_action-Says_example :
    (parse_player_action shouted ≡ some (feed FoodType.meat)) ↔ Says shouted (feed FoodType.meat)
parse_player_action-Says_example = parse_player_action-Says shouted (feed FoodType.meat)

parse-print_player_action_example : parse_player_action (print_player_action sleep) ≡ some sleep
parse-print_player_action_example = parse-print_player_action sleep
