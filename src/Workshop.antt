-- ===== src/Workshop.antt =====
-- A workshop under any sequence of calls of `WorkshopSession`'s methods
-- (platform/crates/domain/src/lib.rs), each at its own reading of the clock.
pub mod Reach
pub mod Course
use dragon_shift.Common.{ℕ, String, Bool, true, false, List, [], ◌∷◌}
use dragon_shift.BTreeMap.{update}
use dragon_shift.Protocol.{Phase, CharacterProfile, WorkshopCreateConfig}
use dragon_shift.Dragon.{PlayerAction}
use dragon_shift.Session.{SessionPlayer, WorkshopSession, new, transition_to}
use dragon_shift.Session.Host.{add_player, reserve_host, ensure_host_assigned}
use dragon_shift.Session.Start.{
  Phase1Assignment, Draws, assign_player_character, begin_phase1, reset_to_lobby,
}
use dragon_shift.Session.Handover.{
  record_discovery_observation, save_handover_tags, enter_phase2, enter_phase2_after_deadline,
}
use dragon_shift.Session.Play.{apply_action, advance_tick, award_phase_end_achievements}
use dragon_shift.Session.Voting.{
  Evaluation, enter_judge, enter_voting, submit_vote, reveal_voting_results, finalize_voting,
  apply_judge_scores,
}

-- The calls of the methods that change a session.
pub data Call : Type 0 where
  adds_player : SessionPlayer → Call
  reserves_host : String → String → Call
  ensures_host : Bool → Call
  assigns_character : String → CharacterProfile → Call
  begins_phase1 : (ℕ → Draws) → List Phase1Assignment → Call
  begins_handover : Call
  observes : String → String → Call
  saves_tags : String → List String → Call
  enters_phase2 : Call
  enters_phase2_late : Call
  acts : String → PlayerAction → Call
  ticks : Call
  awards : Call
  enters_judge : Call
  scores : List Evaluation → Call
  enters_voting : Call
  votes : String → String → Call
  reveals : Call
  finalizes : Call
  resets : String → Call

unfoldable pub exec : ℕ → Call → WorkshopSession → WorkshopSession
exec now (adds_player player) s = add_player now player s
exec now (reserves_host account name) s = reserve_host now account name s
exec now (ensures_host prefer) s = (ensure_host_assigned prefer s).0
exec now (assigns_character id character) s = (assign_player_character now id character s).0
exec now (begins_phase1 draws assignments) s = (begin_phase1 now draws assignments s).0
exec now begins_handover s = (transition_to now Phase.handover s).0
exec now (observes id text) s = record_discovery_observation now id text s
exec now (saves_tags id tags) s = (save_handover_tags now id tags s).0
exec now enters_phase2 s = (enter_phase2 now s).0
exec now enters_phase2_late s = (enter_phase2_after_deadline now s).0
exec now (acts id action) s = (apply_action now id action s).0
exec now ticks s = (advance_tick now s).0
exec now awards s = (award_phase_end_achievements now s).0
exec now enters_judge s = (enter_judge now s).0
exec now (scores evaluations) s = apply_judge_scores now evaluations s
exec now enters_voting s = (enter_voting now s).0
exec now (votes player dragon) s = (submit_vote now player dragon s).0
exec now reveals s = (reveal_voting_results now s).0
exec now finalizes s = (finalize_voting now s).0
exec now (resets host) s = (reset_to_lobby now host s).0

unfoldable pub run : WorkshopSession → List (ℕ × Call) → WorkshopSession
run s [] = s
run s ((now, call) ∷ calls) = run (exec now call s) calls
