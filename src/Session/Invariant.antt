-- ===== src/Session/Invariant.antt =====
-- The invariant of a workshop: its maps have distinct keys, the ids of their entries, its dragons
-- are well formed with notes of the right size, and its clock stands within the day. Here are the
-- lemmas of the operations on hosts, phases and votes; the children have the others.
pub mod Starting
pub mod Passing
pub mod Playing
use dragon_shift.Common.{
  ℕ, ◌+◌, ◌≤◌, ◌<◌, ◌≡◌, ◌⊎◌, inl, inr, refl, sym, subst, Bool, true, false, not, ◌&&◌, String,
  Option, none, some, List, [], length, arith, Bool-cases, Option-cases, if_split, is_some, is_none,
  is_some_and, if◌then◌else◌, str_eq,
}
use dragon_shift.BTreeMap.{BTreeMap, string_key, get, insert, update, map_values, retain}
use dragon_shift.BTreeMap.Laws.{Entries, Entries-insert, Entries-update, Entries-map_values}
use dragon_shift.BTreeMap.Distinct.{Distinct, Distinct-insert, Distinct-map_values, Distinct-update}
use dragon_shift.Protocol.{Phase}
use dragon_shift.Dragon.{SessionDragon}
use dragon_shift.Dragon.Invariant.{WellFormed}
use dragon_shift.Session.{
  SessionPlayer, VotingState, DomainError, WorkshopSession, Result, ok, err, touch, transition_to,
  on_ok,
}
use dragon_shift.Session.Host.{
  zip_eq, account_of, reconcile_host_flags, flagged, seat, assign_reserved_host_to_player,
  ensure_host_assigned, may_host_first, first_host, reseat, add_player, reserve_host,
}
use dragon_shift.Session.Host.Election.{Reseated, assign-Reseated, ensure_host_assigned-Reseated}
use dragon_shift.Session.Voting.{
  enter_judge, is_empty, open_voting, enter_voting, vote_error, submit_vote, reveal_voting_results,
  finalize_voting,
}

pub record DragonOk (key : String) (d : SessionDragon) : Type 0 where
  pub keyed : d.id ≡ key
  pub well_formed : WellFormed d
  pub observed : length d.discovery_observations ≤ 6
  pub noted : (length d.handover_tags ≡ 0) ⊎ (length d.handover_tags ≡ 3)

abbrev pub PlayerOk : String → SessionPlayer → Type 0
PlayerOk key player = player.id ≡ key

abbrev pub PlayersOk : BTreeMap String SessionPlayer → Type 0
PlayersOk m = Distinct m × Entries PlayerOk m

abbrev pub DragonsOk : BTreeMap String SessionDragon → Type 0
DragonsOk m = Distinct m × Entries DragonOk m

abbrev pub IsValid : WorkshopSession → Type 0
IsValid s = PlayersOk s.players × DragonsOk s.dragons × (s.time < 48)

-- A write to each or to one of the players that keeps their ids.
pub PlayersOk-map_values :
    (f : SessionPlayer → SessionPlayer) (m : BTreeMap String SessionPlayer)
    → ((p : SessionPlayer) → (f p).id ≡ p.id)
    → PlayersOk m
    → PlayersOk (map_values f m)
PlayersOk-map_values f m same v = (
  Distinct-map_values f m v.0,
  Entries-map_values PlayerOk PlayerOk f m (λ k p h. cc (same p)) v.1,
)

pub PlayersOk-update :
    (id : String) (f : SessionPlayer → SessionPlayer) (m : BTreeMap String SessionPlayer)
    → ((p : SessionPlayer) → (f p).id ≡ p.id)
    → PlayersOk m
    → PlayersOk (update id f m)
PlayersOk-update id f m same v =
    (Distinct-update id f m v.0, Entries-update PlayerOk id f m (λ p h. cc (same p)) v.1)

pub DragonsOk-update :
    (id : String) (f : SessionDragon → SessionDragon) (m : BTreeMap String SessionDragon)
    → ((d : SessionDragon) → DragonOk id d → DragonOk id (f d))
    → DragonsOk m
    → DragonsOk (update id f m)
DragonsOk-update id f m keep v =
    (Distinct-update id f m v.0, Entries-update DragonOk id f m keep v.1)

pub transition_to-IsValid :
    (now : ℕ) (next : Phase) (s : WorkshopSession)
    → IsValid s
    → IsValid (transition_to now next s).0
unfolding transition_to
transition_to-IsValid now next s v = ground arith

pub on_ok-IsValid {ℓ κ} :
    {A : Type ℓ} {B : Type κ} (r : WorkshopSession × Result A)
    (f : WorkshopSession → WorkshopSession × Result B)
    → ((t : WorkshopSession) → IsValid t → IsValid (f t).0)
    → IsValid r.0
    → IsValid (on_ok r f).0
on_ok-IsValid (s, ok a) f keep v = keep s v
on_ok-IsValid (s, err e) f keep v = v

-- Hosts.

Reseated-IsValid :
    (s t : WorkshopSession) (r : Option String) → Reseated s t r → IsValid s → IsValid t
Reseated-IsValid s t r h v = (
  subst PlayersOk (sym h.players) (PlayersOk-map_values (flagged r) s.players (λ p. refl) v.0),
  subst DragonsOk (sym h.dragons) v.1,
  subst (λ (x : ℕ). x < 48) (sym h.time) v.2,
)

assign-IsValid :
    (id : String) (s : WorkshopSession)
    → IsValid s
    → IsValid (assign_reserved_host_to_player id s).0
assign-IsValid id s v =
    elim (Bool-cases (zip_eq (account_of s.players id) s.reserved_host_account_id)) [
      | inl e ↦ Reseated-IsValid s _ _ (assign-Reseated id s e) v
      | inr e ↦ unfold assign_reserved_host_to_player in rw e v
    ]

pub ensure_host_assigned-IsValid :
    (prefer : Bool) (s : WorkshopSession) → IsValid s → IsValid (ensure_host_assigned prefer s).0
ensure_host_assigned-IsValid prefer s v =
    Reseated-IsValid s _ _ (ensure_host_assigned-Reseated prefer s v.0.0) v

first_host-IsValid :
    (p : SessionPlayer) (s : WorkshopSession) → IsValid s → IsValid (first_host p s)
unfolding first_host
first_host-IsValid p s v =
    if_split IsValid (zip_eq s.reserved_host_account_id (account_of s.players p.id))
      (λ _. assign-IsValid p.id s v)
      (λ _.
        if_split IsValid (may_host_first p s) {x = record s { host_player_id = some p.id }} (λ _. v)
          (λ _. v))

-- A new player's entry goes under its own id, before the host is chosen.
pub seated_player-IsValid :
    (p : SessionPlayer) (s : WorkshopSession)
    → IsValid s
    → IsValid (first_host p (record s { players = insert p.id p s.players }))
seated_player-IsValid p s v =
    first_host-IsValid p (record s { players = insert p.id p s.players })
      (
        (
          Distinct-insert p.id p s.players v.0.0,
          Entries-insert PlayerOk p.id p s.players refl v.0.1,
        ),
        v.1,
        v.2,
      )

pub add_player-IsValid :
    (now : ℕ) (p : SessionPlayer) (s : WorkshopSession) → IsValid s → IsValid (add_player now p s)
unfolding add_player
add_player-IsValid now p s v = ensure_host_assigned-IsValid false _ (seated_player-IsValid p s v)

reconcile-IsValid :
    (r : Option String) (s : WorkshopSession) → IsValid s → IsValid (reconcile_host_flags r s)
unfolding reconcile_host_flags
reconcile-IsValid r s v = (PlayersOk-map_values (flagged r) s.players (λ p. refl) v.0, v.1, v.2)

reseat-IsValid : (host : Option String) (s : WorkshopSession) → IsValid s → IsValid (reseat host s)
unfolding reseat
reseat-IsValid none s v = v
reseat-IsValid (some id) s v =
    if_split IsValid (zip_eq (account_of s.players id) s.reserved_host_account_id)
      (λ _. assign-IsValid id s v) (λ _. reconcile-IsValid (some id) s v)

pub reserve_host-IsValid :
    (now : ℕ) (account name : String) (s : WorkshopSession)
    → IsValid s
    → IsValid (reserve_host now account name s)
unfolding reserve_host
reserve_host-IsValid now account name s v =
    reseat-IsValid s.host_player_id
      (record s {
        owner_account_id = some account;
        reserved_host_account_id = some account;
        reserved_host_name = some name;
      })
      v

-- Votes.

pub enter_judge-IsValid :
    (now : ℕ) (s : WorkshopSession) → IsValid s → IsValid (enter_judge now s).0
unfolding enter_judge
enter_judge-IsValid now s v =
    on_ok-IsValid (transition_to now Phase.judge s) _ (λ t w. w)
      (transition_to-IsValid now Phase.judge s v)

pub enter_voting-IsValid :
    (now : ℕ) (s : WorkshopSession) → IsValid s → IsValid (enter_voting now s).0
unfolding enter_voting open_voting
enter_voting-IsValid now s v =
    on_ok-IsValid (transition_to now Phase.voting s) (open_voting now) (λ t w. w)
      (transition_to-IsValid now Phase.voting s v)

pub submit_vote-IsValid :
    (now : ℕ) (player dragon : String) (s : WorkshopSession)
    → IsValid s
    → IsValid (submit_vote now player dragon s).0
unfolding submit_vote
submit_vote-IsValid now player dragon s v = ground arith

pub reveal_voting_results-IsValid :
    (now : ℕ) (s : WorkshopSession) → IsValid s → IsValid (reveal_voting_results now s).0
unfolding reveal_voting_results
reveal_voting_results-IsValid now s v = ground arith

pub finalize_voting-IsValid :
    (now : ℕ) (s : WorkshopSession) → IsValid s → IsValid (finalize_voting now s).0
unfolding finalize_voting
finalize_voting-IsValid now s v =
    if_split (λ (r : WorkshopSession × Result (Unit {0})). IsValid r.0)
      (is_some_and s.voting (λ voting. not voting.results_revealed)) (λ _. v)
      (λ _.
        on_ok-IsValid (transition_to now Phase.end s) _ (λ t w. w)
          (transition_to-IsValid now Phase.end s v))
