-- ===== src/Workshop/Reach.antt =====
-- What holds of a workshop after any calls.
use dragon_shift.Common.{ℕ, String, List, [], ◌∷◌, arith, true, false}
use dragon_shift.Protocol.{Phase, WorkshopCreateConfig}
use dragon_shift.Session.{WorkshopSession, new}
use dragon_shift.Session.Handover.{enter_phase2, enter_phase2_after_deadline}
use dragon_shift.Session.Invariant.{
  IsValid, transition_to-IsValid, ensure_host_assigned-IsValid, add_player-IsValid,
  reserve_host-IsValid, enter_judge-IsValid, enter_voting-IsValid, submit_vote-IsValid,
  reveal_voting_results-IsValid, finalize_voting-IsValid,
}
use dragon_shift.Session.Invariant.Starting.{
  assign_player_character-IsValid, begin_phase1-IsValid, reset_to_lobby-IsValid,
}
use dragon_shift.Session.Invariant.Passing.{
  record_discovery_observation-IsValid, save_handover_tags-IsValid, enter_phase2-IsValid,
}
use dragon_shift.Session.Invariant.Playing.{
  apply_action-IsValid, advance_tick-IsValid, award_phase_end_achievements-IsValid,
  apply_judge_scores-IsValid,
}
use dragon_shift.Workshop.{
  Call, adds_player, reserves_host, ensures_host, assigns_character, begins_phase1, begins_handover,
  observes, saves_tags, enters_phase2, enters_phase2_late, acts, ticks, awards, enters_judge,
  scores, enters_voting, votes, reveals, finalizes, resets, exec, run,
}

pub exec-IsValid :
    (now : ℕ) (call : Call) (s : WorkshopSession) → IsValid s → IsValid (exec now call s)
unfolding exec enter_phase2 enter_phase2_after_deadline
exec-IsValid now (adds_player player) s v = add_player-IsValid now player s v
exec-IsValid now (reserves_host account name) s v = reserve_host-IsValid now account name s v
exec-IsValid now (ensures_host prefer) s v = ensure_host_assigned-IsValid prefer s v
exec-IsValid now (assigns_character id character) s v =
    assign_player_character-IsValid now id character s v
exec-IsValid now (begins_phase1 draws assignments) s v =
    begin_phase1-IsValid now draws assignments s v
exec-IsValid now begins_handover s v = transition_to-IsValid now Phase.handover s v
exec-IsValid now (observes id text) s v = record_discovery_observation-IsValid now id text s v
exec-IsValid now (saves_tags id tags) s v = save_handover_tags-IsValid now id tags s v
exec-IsValid now enters_phase2 s v = enter_phase2-IsValid now false s v
exec-IsValid now enters_phase2_late s v = enter_phase2-IsValid now true s v
exec-IsValid now (acts id action) s v = apply_action-IsValid now id action s v
exec-IsValid now ticks s v = advance_tick-IsValid now s v
exec-IsValid now awards s v = award_phase_end_achievements-IsValid now s v
exec-IsValid now enters_judge s v = enter_judge-IsValid now s v
exec-IsValid now (scores evaluations) s v = apply_judge_scores-IsValid now evaluations s v
exec-IsValid now enters_voting s v = enter_voting-IsValid now s v
exec-IsValid now (votes player dragon) s v = submit_vote-IsValid now player dragon s v
exec-IsValid now reveals s v = reveal_voting_results-IsValid now s v
exec-IsValid now finalizes s v = finalize_voting-IsValid now s v
exec-IsValid now (resets host) s v = reset_to_lobby-IsValid now host s v

pub run-IsValid :
    (s : WorkshopSession) (calls : List (ℕ × Call)) → IsValid s → IsValid (run s calls)
unfolding run
run-IsValid s [] v = v
run-IsValid s ((now, call) ∷ calls) v =
    run-IsValid (exec now call s) calls (exec-IsValid now call s v)

-- Whatever methods are called on a new workshop, in whatever order: its players and its dragons
-- keep distinct keys that are their ids; its clock stays within the day's 48 ticks; and every dragon
-- has at most six observations, has none or exactly three handover notes, and is well formed: its
-- meters are at most 100, its timers within their limits, its actions add up to the right and the
-- wrong ones, its penalty stacks are at most their peak and the peak at most the wrong choices, a
-- choice that was found was made, and it speaks and is shielded exactly while the timers say so.
pub run-new-IsValid :
    (id : ℕ) (code : String) (at : ℕ) (config : WorkshopCreateConfig) (calls : List (ℕ × Call))
    → IsValid (run (new id code at config) calls)
run-new-IsValid id code at config calls =
    run-IsValid (new id code at config) calls (unfold new in ((tt, tt), (tt, tt), omega arith))
