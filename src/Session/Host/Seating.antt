-- ===== src/Session/Host/Seating.antt =====
-- The host and the players' flags after `ensure_host_assigned`, player by player.
use dragon_shift.Common.{
  ◌≡◌, ◌↔◌, refl, sym, ap, subst, Bool, true, String, Option, none, some, some_inj, str_eq, eq_iff,
  is_some_and,
}
use mathlib.Core.Option
use dragon_shift.BTreeMap.{string_key, get}
use dragon_shift.BTreeMap.Laws.{get-map_values}
use dragon_shift.BTreeMap.Distinct.{Distinct}
use dragon_shift.Session.{SessionPlayer, WorkshopSession}
use dragon_shift.Session.Host.{flagged, ensure_host_assigned}
use dragon_shift.Session.Host.Election.{ensure_host_assigned-Reseated}

-- A player before and after, under the host `r`: `is_host` says whether it is the host, and nothing
-- else of the player has changed.
abbrev pub SeenAs : Option String → Option SessionPlayer → Option SessionPlayer → Type 0
SeenAs r none after = after ≡ none
SeenAs r (some p) after =
    (q : SessionPlayer) × (after ≡ some q)
    × ((q.is_host ≡ true) ↔ (r ≡ some p.id))
    × (record q { is_host = p.is_host } ≡ p)

-- `t` is `s` with the host `r`, and no one else, flagged.
pub record Seated (s t : WorkshopSession) (r : Option String) : Type 0 where
  pub host : t.host_player_id ≡ r
  pub players : (key : String) → SeenAs r (get key s.players) (get key t.players)
  pub dragons : t.dragons ≡ s.dragons
  pub voting : t.voting ≡ s.voting
  pub phase : t.phase ≡ s.phase
  pub time : t.time ≡ s.time
  pub owner : t.owner_account_id ≡ s.owner_account_id

is_host_lem :
    (r : Option String) (id : String) → (is_some_and r (λ h. str_eq h id) ≡ true) ↔ (r ≡ some id)
is_host_lem none id = (λ h. cc, λ h. cc)
is_host_lem (some h) id = (λ e. ap some ((eq_iff h id).0 e), λ e. (eq_iff h id).1 (some_inj e))

flagged-SeenAs :
    (r : Option String) (o : Option SessionPlayer) → SeenAs r o (Option.map (flagged r) o)
flagged-SeenAs r none = refl
flagged-SeenAs r (some p) = (flagged r p, refl, is_host_lem r p.id, refl)

-- Whoever `ensure_host_assigned` returns is the host afterwards, no one if it returns none; the
-- players are those of before, unchanged but for their flags, and a player is flagged as host
-- exactly if the player's id is the host's; the call changes neither the dragons, the vote, the phase,
-- the time nor the owner. The keys of the players' map are distinct.
pub ensure_host_assigned-Seated :
    (prefer : Bool) (s : WorkshopSession)
    → Distinct s.players
    → Seated s (ensure_host_assigned prefer s).0 (ensure_host_assigned prefer s).1
ensure_host_assigned-Seated prefer s d =
    let h = ensure_host_assigned-Reseated prefer s d in
    let r = (ensure_host_assigned prefer s).1 in
    record {
      host = h.host;
      players = λ key.
          subst (λ m. SeenAs r (get key s.players) (get key m)) (sym h.players)
            (subst (SeenAs r (get key s.players)) (sym (get-map_values key (flagged r) s.players))
              (flagged-SeenAs r (get key s.players)));
      dragons = h.dragons;
      voting = h.voting;
      phase = h.phase;
      time = h.time;
      owner = h.owner;
    }
