-- ===== src/Session/Diagram.antt =====
-- The diagram of the phases, and how the methods of a session move along it.
pub mod Commands
use dragon_shift.Common.{
  ℕ, ◌≡◌, ◌≢◌, ◌↔◌, ◌⊎◌, inl, inr, refl, sym, ap, subst, ◌∙◌, Bool, true, false, not, ◌&&◌, String,
  Option, none, some, List, [], ◌∷◌, arith, Bool-cases, Option-cases, if_split, is_some,
  is_some_and, if◌then◌else◌, ltb, length, ◌==◌,
}
use dragon_shift.BTreeMap.{string_key, get, insert, keys, values}
use dragon_shift.Protocol.{Phase}
use dragon_shift.Dragon.{PlayerAction}
use dragon_shift.Session.{
  SessionPlayer, WorkshopSession, Result, ok, err, is_ok, invalid_session_transition,
  can_transition, transition_to, on_ok,
}
use dragon_shift.Session.Host.{
  zip_eq, account_of, reconcile_host_flags, assign_reserved_host_to_player, ensure_host_assigned,
  may_host_first, first_host, reseat, add_player, reserve_host,
}
use dragon_shift.BTreeMap.Distinct.{Distinct, Distinct-insert}
use dragon_shift.Session.Host.Election.{Reseated, assign-Reseated, ensure_host_assigned-Reseated}

-- The edges that hosts and deadlines take.
pub data Edge : Phase → Phase → Type 0 where
  start : Edge Phase.lobby Phase.phase1
  finish_discovery : Edge Phase.phase1 Phase.handover
  shuffle : Edge Phase.handover Phase.phase2
  review : Edge Phase.phase2 Phase.judge
  skip_review : Edge Phase.phase2 Phase.voting
  vote : Edge Phase.judge Phase.voting
  close : Edge Phase.voting Phase.end
  restart : Edge Phase.end Phase.lobby

-- One call's move: none, along an edge, or back to the lobby.
abbrev pub Moves : Phase → Phase → Type 0
Moves p q = (q ≡ p) ⊎ Edge p q ⊎ (q ≡ Phase.lobby)

pub can_transition-Edge : (p q : Phase) → can_transition p q ≡ true → Edge p q
unfolding can_transition
can_transition-Edge Phase.lobby Phase.phase1 h = start
can_transition-Edge Phase.phase1 Phase.handover h = finish_discovery
can_transition-Edge Phase.handover Phase.phase2 h = shuffle
can_transition-Edge Phase.phase2 Phase.judge h = review
can_transition-Edge Phase.phase2 Phase.voting h = skip_review
can_transition-Edge Phase.judge Phase.voting h = vote
can_transition-Edge Phase.voting Phase.end h = close
can_transition-Edge Phase.end Phase.lobby h = restart
can_transition-Edge _ _ h = cc

Edge-can_transition : {p q : Phase} → Edge p q → can_transition p q ≡ true
unfolding can_transition
Edge-can_transition start = refl
Edge-can_transition finish_discovery = refl
Edge-can_transition shuffle = refl
Edge-can_transition review = refl
Edge-can_transition skip_review = refl
Edge-can_transition vote = refl
Edge-can_transition close = refl
Edge-can_transition restart = refl

-- What `transition_to` answers and does.
pub record StepsAlong (now : ℕ) (next : Phase) (s : WorkshopSession) : Type 0 where
  pub allowed : Edge s.phase next ↔ (is_ok (transition_to now next s).1 ≡ true)
  pub moved :
      Edge s.phase next
      → ((transition_to now next s).0.phase ≡ next)
        × ((transition_to now next s).0.phase_started_at ≡ now)
        × ((transition_to now next s).0.warned_for_current_phase ≡ false)
  pub refused :
      ¬ Edge s.phase next
      → transition_to now next s ≡ (s, err (invalid_session_transition s.phase next))

-- A transition succeeds exactly along the edges of the diagram. It then starts the next phase's
-- clock with its warning unset; otherwise it names both phases in its error and changes nothing.
pub transition_to-StepsAlong :
    (now : ℕ) (next : Phase) (s : WorkshopSession) → StepsAlong now next s
unfolding transition_to
transition_to-StepsAlong now next s = elim (Bool-cases (can_transition s.phase next)) [
  | inl e ↦ record {
    allowed = (λ h. rw e, λ h. can_transition-Edge s.phase next e);
    moved = λ h. rw e (refl, refl, refl);
    refused = λ h. absurd (h (can_transition-Edge s.phase next e));
  }
  | inr e ↦ record {
    allowed = (λ h. cc (e, Edge-can_transition h), λ h. cc (rw e at h));
    moved = λ h. cc (e, Edge-can_transition h);
    refused = λ h. rw e;
  }
]
