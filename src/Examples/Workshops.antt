-- ===== src/Examples/Workshops.antt =====
-- Tests of whole workshops.
use dragon_shift.Common.{◌≡◌, refl, true}
use dragon_shift.BTreeMap.{string_key, get, values, insert, insert_new, update, map_values}
use dragon_shift.Protocol.{Phase, default_config}
use dragon_shift.Dragon.{act}
use dragon_shift.Session.{
  new, is_ok, can_transition, transition_to, dragon_of, player_has_achievement, has_achievement,
}
use dragon_shift.Session.Host.{
  ensure_host_assigned, add_player, first_host, ensure_owner, keep_or_elect, staying_host, elect,
  reconcile_host_flags,
}
use dragon_shift.Session.Start.{
  begin_phase1, without_character, refuse_or_start, start_phase1, hatch, new_dragon,
}
use dragon_shift.Session.Names.{random_dragon_name}
use dragon_shift.Session.Play.{
  apply_action, act_on, advance_tick, run_tick, tick_dragons, award_all, award_each,
}
use dragon_shift.Dragon.Tick.{
  tick_awards, count_tick, wake, cool_down, fall_silent, forgive, sadden, drain, yawn,
  shift_reaction, tick_dragon, suffer, settle,
}
use dragon_shift.Session.Host.Seating.{Seated, ensure_host_assigned-Seated}
use dragon_shift.Session.Handover.{enter_phase2_after_deadline, save_handover_tags}
use dragon_shift.Session.Handover.Notes.{enter_phase2_after_deadline_ok}
use dragon_shift.Session.Diagram.{Moves, StepsAlong, transition_to-StepsAlong}
use dragon_shift.Session.Invariant.{IsValid}
use dragon_shift.Workshop.{enters_phase2_late, exec, run}
use dragon_shift.Workshop.Reach.{run-new-IsValid, run-IsValid}
use dragon_shift.Workshop.Course.{exec-Moves}
use dragon_shift.Examples.{opening, discovery, discovering, handing_over}

run-new-IsValid_example : IsValid (run (new 1 "123456" 0 default_config) opening)
run-new-IsValid_example = run-new-IsValid 1 "123456" 0 default_config opening

discovering-IsValid : IsValid discovering
discovering-IsValid = run-new-IsValid 1 "123456" 0 default_config opening

handing_over-IsValid : IsValid handing_over
handing_over-IsValid = run-IsValid discovering discovery discovering-IsValid

exec-Moves_example : Moves handing_over.phase (exec 8 enters_phase2_late handing_over).phase
exec-Moves_example = exec-Moves 8 enters_phase2_late handing_over handing_over-IsValid

transition_to-StepsAlong_example : StepsAlong 9 Phase.voting handing_over
transition_to-StepsAlong_example = transition_to-StepsAlong 9 Phase.voting handing_over

ensure_host_assigned-Seated_example :
    Seated discovering
      (ensure_host_assigned true discovering).0
      (ensure_host_assigned true discovering).1
ensure_host_assigned-Seated_example =
    ensure_host_assigned-Seated true discovering discovering-IsValid.0.0

in_handover : handing_over.phase ≡ Phase.handover
unfolding run exec new add_player first_host ensure_host_assigned ensure_owner keep_or_elect
    staying_host elect reconcile_host_flags map_values get insert insert_new update values
    begin_phase1 without_character refuse_or_start start_phase1 transition_to can_transition hatch
    new_dragon random_dragon_name apply_action dragon_of act_on act player_has_achievement
    has_achievement advance_tick run_tick tick_dragons tick_dragon suffer settle award_all
    award_each save_handover_tags tick_awards count_tick wake cool_down fall_silent forgive sadden
    drain yawn shift_reaction
in_handover = refl

enter_phase2_after_deadline_ok_example :
    (is_ok (enter_phase2_after_deadline 8 handing_over).1 ≡ true)
    × ((enter_phase2_after_deadline 8 handing_over).0.phase ≡ Phase.phase2)
enter_phase2_after_deadline_ok_example = enter_phase2_after_deadline_ok 8 handing_over in_handover
