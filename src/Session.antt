-- ===== src/Session.antt =====
-- platform/crates/domain/src/lib.rs, the workshop: `WorkshopSession`, its players, its errors and
-- the transitions between its phases. A method returns the new session, and its result if it has
-- one; what the code reads of the clock is the argument `now`, in nanoseconds, read once a call.
pub mod Host
pub mod Names
pub mod Start
pub mod Handover
pub mod Play
pub mod Voting
pub mod Clock
pub mod Invariant
pub mod Diagram
pub mod Failures
use dragon_shift.Common.{
  ℕ, ◌+◌, String, Bool, true, false, ◌&&◌, Option, none, some, List, [], ◌∷◌, any, is_some_and,
  and_then, if◌then◌else◌, ltb, str_eq,
}
use dragon_shift.Common.I32.{ℤ}
use dragon_shift.BTreeMap.{BTreeMap, string_key, get}
use dragon_shift.Protocol.{Phase, CharacterProfile, WorkshopCreateConfig}
use dragon_shift.Dragon.{SessionDragon}

pub record SessionPlayer : Type 0 where
  pub id : String
  pub name : String
  pub account_id : Option String
  pub character_id : Option String
  pub selected_character : Option CharacterProfile
  pub is_host : Bool
  pub is_connected : Bool
  pub is_ready : Bool
  pub score : ℤ
  pub current_dragon_id : Option String
  pub achievements : List String
  pub joined_at : ℕ

pub record VotingState : Type 0 where
  pub eligible_player_ids : List String
  pub votes_by_player_id : BTreeMap String String
  pub results_revealed : Bool

pub record WorkshopSession : Type 0 where
  pub id : ℕ
  pub code : String
  pub phase : Phase
  pub time : ℕ
  pub config : WorkshopCreateConfig
  pub phase_started_at : ℕ
  pub warned_for_current_phase : Bool
  pub owner_account_id : Option String
  pub reserved_host_account_id : Option String
  pub reserved_host_name : Option String
  pub host_player_id : Option String
  pub players : BTreeMap String SessionPlayer
  pub dragons : BTreeMap String SessionDragon
  pub voting : Option VotingState
  pub created_at : ℕ
  pub updated_at : ℕ
  pub state_revision : ℕ

pub data DomainError : Type 0 where
  invalid_session_transition : Phase → Phase → DomainError
  missing_handover_tags : List String → DomainError
  invalid_handover_tag_count : ℕ → ℕ → DomainError
  voting_not_active ineligible_voter unknown_dragon self_vote_forbidden : DomainError
  voting_closed voting_reveal_not_ready voting_results_not_revealed : DomainError
  sprite_regeneration_limit_reached action_not_allowed dragon_not_assigned : DomainError
  missing_selected_character : List String → DomainError

pub data Result {ℓ} (A : Type ℓ) : Type ℓ where
  ok : A → Result A
  err : DomainError → Result A

abbrev pub is_ok {ℓ} : {A : Type ℓ} → Result A → Bool
is_ok (ok _) = true
is_ok (err _) = false

-- The `?` after a method of `self`: an error leaves at once, with the session as it then is.
abbrev pub on_ok {ℓ κ} :
    {A : Type ℓ} {B : Type κ}
    → WorkshopSession × Result A
    → (WorkshopSession → WorkshopSession × Result B)
    → WorkshopSession × Result B
on_ok (s, ok a) f = f s
on_ok (s, err e) f = (s, err e)

abbrev pub handover_tag_count : ℕ
handover_tag_count = 3

unfoldable pub new : ℕ → String → ℕ → WorkshopCreateConfig → WorkshopSession
new id code created_at config = record {
  id = id;
  code = code;
  phase = Phase.lobby;
  time = 8;
  config = config;
  phase_started_at = created_at;
  warned_for_current_phase = false;
  owner_account_id = none;
  reserved_host_account_id = none;
  reserved_host_name = none;
  host_player_id = none;
  players = [];
  dragons = [];
  voting = none;
  created_at = created_at;
  updated_at = created_at;
  state_revision = 0;
}

abbrev pub u64_max : ℕ
u64_max = 18446744073709551615

-- `saturating_add(1)` on the revision.
abbrev pub touch : ℕ → WorkshopSession → WorkshopSession
touch now s = record s {
  updated_at = now;
  state_revision = if ltb s.state_revision u64_max then s.state_revision + 1 else u64_max;
}

unfoldable pub can_transition : Phase → Phase → Bool
can_transition Phase.lobby Phase.phase1 = true
can_transition Phase.phase1 Phase.handover = true
can_transition Phase.handover Phase.phase2 = true
can_transition Phase.phase2 Phase.judge = true
can_transition Phase.phase2 Phase.voting = true
can_transition Phase.judge Phase.voting = true
can_transition Phase.voting Phase.end = true
can_transition Phase.end Phase.lobby = true
can_transition _ _ = false

unfoldable pub transition_to : ℕ → Phase → WorkshopSession → WorkshopSession × Result (Unit {0})
transition_to now next s =
    if can_transition s.phase next
    then (
      touch now
          (record s { phase = next; phase_started_at = now; warned_for_current_phase = false }),
      ok tt,
    )
    else (s, err (invalid_session_transition s.phase next))

unfoldable pub has_achievement : String → List String → Bool
has_achievement achievement held = any (λ a. str_eq a achievement) held

unfoldable pub player_has_achievement : WorkshopSession → String → String → Bool
unfolding has_achievement
player_has_achievement s player_id achievement =
    is_some_and (get player_id s.players) λ player. has_achievement achievement player.achievements

-- `players.get(id).and_then(|player| player.current_dragon_id.clone())`
unfoldable pub dragon_of : BTreeMap String SessionPlayer → String → Option String
dragon_of players player_id = and_then (get player_id players) λ player. player.current_dragon_id
