-- ===== src/Workshop/Course.antt =====
-- How a workshop's phase moves under any calls.
use dragon_shift.Common.{
  ℕ, ◌≡◌, inl, inr, refl, sym, subst, ◌∙◌, Bool, true, false, not, String, Option, none, some, List,
  [], ◌∷◌, arith, Bool-cases, if_split, is_some_and,
}
use dragon_shift.BTreeMap.{string_key, insert}
use dragon_shift.BTreeMap.Distinct.{Distinct}
use dragon_shift.Protocol.{Phase, CharacterProfile}
use dragon_shift.Dragon.{PlayerAction}
use dragon_shift.Session.{
  SessionPlayer, WorkshopSession, Result, ok, err, can_transition, transition_to, on_ok,
}
use dragon_shift.Session.Host.{
  reconcile_host_flags, assign_reserved_host_to_player, first_host, reseat, add_player,
  reserve_host, ensure_host_assigned,
}
use dragon_shift.Session.Host.Election.{ensure_host_assigned-Reseated}
use dragon_shift.Session.Start.{
  Phase1Assignment, Draws, assign_player_character, start_phase1, refuse_or_start, begin_phase1,
  reset_to_lobby,
}
use dragon_shift.Session.Handover.{
  record_discovery_observation, save_handover_tags, start_phase2, refuse_or_shift,
  enter_phase2_with_missing_handover, enter_phase2, enter_phase2_after_deadline,
}
use dragon_shift.Session.Play.{
  act_on, apply_action, run_tick, advance_tick, award_phase_end_achievements,
}
use dragon_shift.Session.Voting.{
  enter_judge, open_voting, enter_voting, submit_vote, reveal_voting_results, finalize_voting,
  apply_judge_scores,
}
use dragon_shift.Session.Diagram.{Moves, can_transition-Edge}
use dragon_shift.Session.Invariant.{IsValid, seated_player-IsValid}
use dragon_shift.Workshop.{
  Call, adds_player, reserves_host, ensures_host, assigns_character, begins_phase1, begins_handover,
  observes, saves_tags, enters_phase2, enters_phase2_late, acts, ticks, awards, enters_judge,
  scores, enters_voting, votes, reveals, finalizes, resets, exec,
}

pub transition_to-Moves :
    (now : ℕ) (next : Phase) (s : WorkshopSession)
    → Moves s.phase (transition_to now next s).0.phase
unfolding transition_to
transition_to-Moves now next s = elim (Bool-cases (can_transition s.phase next)) [
  | inl e ↦ rw e (inr (inl (can_transition-Edge s.phase next e)))
  | inr e ↦ rw e (inl refl)
]

on_ok-phase {ℓ κ} :
    {A : Type ℓ} {B : Type κ} (p : Phase) (r : WorkshopSession × Result A)
    (f : WorkshopSession → WorkshopSession × Result B)
    → ((t : WorkshopSession) → (f t).0.phase ≡ t.phase)
    → Moves p r.0.phase
    → Moves p (on_ok r f).0.phase
on_ok-phase p (s, ok a) f keep m = subst (Moves p) (sym (keep s)) m
on_ok-phase p (s, err e) f keep m = m

pub assign_player_character-phase :
    (now : ℕ) (id : String) (c : CharacterProfile) (s : WorkshopSession)
    → (assign_player_character now id c s).0.phase ≡ s.phase
unfolding assign_player_character
assign_player_character-phase now id c s = ground arith

pub record-phase :
    (now : ℕ) (id text : String) (s : WorkshopSession)
    → (record_discovery_observation now id text s).phase ≡ s.phase
unfolding record_discovery_observation
record-phase now id text s = ground arith

pub save_handover_tags-phase :
    (now : ℕ) (id : String) (tags : List String) (s : WorkshopSession)
    → (save_handover_tags now id tags s).0.phase ≡ s.phase
unfolding save_handover_tags
save_handover_tags-phase now id tags s = ground arith

pub apply_action-phase :
    (now : ℕ) (id : String) (a : PlayerAction) (s : WorkshopSession)
    → (apply_action now id a s).0.phase ≡ s.phase
unfolding apply_action act_on
apply_action-phase now id a s = ground arith

advance_tick-phase : (now : ℕ) (s : WorkshopSession) → (advance_tick now s).0.phase ≡ s.phase
unfolding advance_tick run_tick
advance_tick-phase now s = ground arith

pub submit_vote-phase :
    (now : ℕ) (p d : String) (s : WorkshopSession) → (submit_vote now p d s).0.phase ≡ s.phase
unfolding submit_vote
submit_vote-phase now p d s = ground arith

reveal-phase : (now : ℕ) (s : WorkshopSession) → (reveal_voting_results now s).0.phase ≡ s.phase
unfolding reveal_voting_results
reveal-phase now s = ground arith

first_host-phase : (p : SessionPlayer) (s : WorkshopSession) → (first_host p s).phase ≡ s.phase
unfolding first_host assign_reserved_host_to_player reconcile_host_flags
first_host-phase p s = ground arith

reseat-phase : (h : Option String) (s : WorkshopSession) → (reseat h s).phase ≡ s.phase
unfolding reseat assign_reserved_host_to_player reconcile_host_flags
reseat-phase none s = refl
reseat-phase (some id) s = ground arith

refuse_or_start-Moves :
    (now : ℕ) (draws : ℕ → Draws) (as' : List Phase1Assignment) (missing : List String)
    (s : WorkshopSession)
    → Moves s.phase (refuse_or_start now draws as' missing s).0.phase
unfolding refuse_or_start start_phase1
refuse_or_start-Moves now draws as' (id ∷ ids) s = inl refl
refuse_or_start-Moves now draws as' [] s =
    on_ok-phase s.phase (transition_to now Phase.phase1 s) (start_phase1 now draws as') (λ t. refl)
      (transition_to-Moves now Phase.phase1 s)

refuse_or_shift-Moves :
    (now : ℕ) (names missing : List String) (s : WorkshopSession)
    → Moves s.phase (refuse_or_shift now names missing s).0.phase
unfolding refuse_or_shift start_phase2
refuse_or_shift-Moves now names (p ∷ ps) s = inl refl
refuse_or_shift-Moves now names [] s =
    on_ok-phase s.phase (transition_to now Phase.phase2 s) (start_phase2 now names) (λ t. refl)
      (transition_to-Moves now Phase.phase2 s)

enter_phase2-Moves :
    (now : ℕ) (allow : Bool) (s : WorkshopSession)
    → Moves s.phase (enter_phase2_with_missing_handover now allow s).0.phase
unfolding enter_phase2_with_missing_handover
enter_phase2-Moves now allow s = refuse_or_shift-Moves now _ _ _

enter_judge-Moves : (now : ℕ) (s : WorkshopSession) → Moves s.phase (enter_judge now s).0.phase
unfolding enter_judge
enter_judge-Moves now s =
    on_ok-phase s.phase (transition_to now Phase.judge s) _ (λ t. refl)
      (transition_to-Moves now Phase.judge s)

enter_voting-Moves : (now : ℕ) (s : WorkshopSession) → Moves s.phase (enter_voting now s).0.phase
unfolding enter_voting open_voting
enter_voting-Moves now s =
    on_ok-phase s.phase (transition_to now Phase.voting s) (open_voting now) (λ t. refl)
      (transition_to-Moves now Phase.voting s)

finalize_voting-Moves :
    (now : ℕ) (s : WorkshopSession) → Moves s.phase (finalize_voting now s).0.phase
unfolding finalize_voting
finalize_voting-Moves now s =
    if_split (λ (r : WorkshopSession × Result (Unit {0})). Moves s.phase r.0.phase)
      (is_some_and s.voting (λ voting. not voting.results_revealed)) (λ _. inl refl)
      (λ _.
        on_ok-phase s.phase (transition_to now Phase.end s) _ (λ t. refl)
          (transition_to-Moves now Phase.end s))

ensure_host-phase :
    (prefer : Bool) (s : WorkshopSession)
    → Distinct s.players
    → (ensure_host_assigned prefer s).0.phase ≡ s.phase
ensure_host-phase prefer s d = (ensure_host_assigned-Reseated prefer s d).phase

-- On a valid workshop each call leaves the phase, moves it along an edge, or resets it to the lobby.
pub exec-Moves :
    (now : ℕ) (call : Call) (s : WorkshopSession)
    → IsValid s
    → Moves s.phase (exec now call s).phase
unfolding exec enter_phase2 enter_phase2_after_deadline begin_phase1 reset_to_lobby
    award_phase_end_achievements apply_judge_scores add_player reserve_host
exec-Moves now (adds_player p) s v =
    let t = record s { players = insert p.id p s.players } in
    inl (
      ensure_host-phase false (first_host p t) (seated_player-IsValid p s v).0.0
      ∙ first_host-phase p t)
exec-Moves now (reserves_host account name) s v = inl (reseat-phase s.host_player_id _)
exec-Moves now (ensures_host prefer) s v = inl (ensure_host-phase prefer s v.0.0)
exec-Moves now (assigns_character id c) s v = inl (assign_player_character-phase now id c s)
exec-Moves now (begins_phase1 draws as') s v = refuse_or_start-Moves now draws as' _ s
exec-Moves now begins_handover s v = transition_to-Moves now Phase.handover s
exec-Moves now (observes id text) s v = inl (record-phase now id text s)
exec-Moves now (saves_tags id tags) s v = inl (save_handover_tags-phase now id tags s)
exec-Moves now enters_phase2 s v = enter_phase2-Moves now false s
exec-Moves now enters_phase2_late s v = enter_phase2-Moves now true s
exec-Moves now (acts id action) s v = inl (apply_action-phase now id action s)
exec-Moves now ticks s v = inl (advance_tick-phase now s)
exec-Moves now awards s v = inl refl
exec-Moves now enters_judge s v = enter_judge-Moves now s
exec-Moves now (scores evaluations) s v = inl refl
exec-Moves now enters_voting s v = enter_voting-Moves now s
exec-Moves now (votes p d) s v = inl (submit_vote-phase now p d s)
exec-Moves now reveals s v = inl (reveal-phase now s)
exec-Moves now finalizes s v = finalize_voting-Moves now s
exec-Moves now (resets host) s v = inr (inr refl)
