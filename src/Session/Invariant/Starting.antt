-- ===== src/Session/Invariant/Starting.antt =====
-- The invariant and the operations that start a game or end it.
use dragon_shift.Common.{
  ℕ, suc, inl, inr, refl, String, List, [], ◌∷◌, arith, Option-cases, if_split, is_some, and_then,
}
use dragon_shift.BTreeMap.{BTreeMap, string_key, get, map_values}
use dragon_shift.BTreeMap.Laws.{Entries-insert, Entries-retain}
use dragon_shift.BTreeMap.Distinct.{Distinct-insert, Distinct-retain}
use dragon_shift.Protocol.{Phase, CharacterProfile}
use dragon_shift.Dragon.{SessionDragon}
use dragon_shift.Session.{SessionPlayer, WorkshopSession, Result, transition_to}
use dragon_shift.Session.Start.{
  Phase1Assignment, Draws, assign_player_character, new_dragon, without_character, cleared, hatch,
  start_phase1, refuse_or_start, begin_phase1, reset_to_lobby,
}
use dragon_shift.Session.Invariant.{
  DragonOk, PlayerOk, PlayersOk, DragonsOk, IsValid, PlayersOk-map_values, PlayersOk-update,
  transition_to-IsValid, on_ok-IsValid,
}

pub assign_player_character-IsValid :
    (now : ℕ) (id : String) (character : CharacterProfile) (s : WorkshopSession)
    → IsValid s
    → IsValid (assign_player_character now id character s).0
unfolding assign_player_character
assign_player_character-IsValid now id character s v =
    if_split (λ (r : WorkshopSession × Result (Unit {0})). IsValid r.0) (is_some (get id s.players))
      (λ _. (PlayersOk-update id _ s.players (λ p. refl) v.0, v.1, v.2)) (λ _. v)

-- A hatched dragon is well formed and has no notes yet.
pub new_dragon-DragonOk :
    (draws : Draws) (a : Phase1Assignment) (character : CharacterProfile)
    → DragonOk a.dragon_id (new_dragon draws a character)
unfolding new_dragon
new_dragon-DragonOk draws a character = ground arith

hatch-IsValid :
    (draws : ℕ → Draws) (as' : List Phase1Assignment) (players : BTreeMap String SessionPlayer)
    (dragons : BTreeMap String SessionDragon)
    → PlayersOk players
    → DragonsOk dragons
    → PlayersOk (hatch draws as' players dragons).0 × DragonsOk (hatch draws as' players dragons).1
unfolding hatch
hatch-IsValid draws [] players dragons p d = (p, d)
hatch-IsValid draws (a ∷ as') players dragons p d =
    elim (Option-cases (and_then (get a.player_id players) (λ player. player.selected_character))) [
      | inl e ↦ rw (e, hatch) (hatch-IsValid (λ i. draws (suc i)) as' players dragons p d)
      | inr (character, e) ↦
          rw (e, hatch)
            (hatch-IsValid (λ i. draws (suc i)) as' _ _
              (PlayersOk-update a.player_id _ players (λ q. refl) p)
              (
                Distinct-insert a.dragon_id (new_dragon (draws 0) a character) dragons d.0,
                Entries-insert DragonOk a.dragon_id (new_dragon (draws 0) a character) dragons
                    (new_dragon-DragonOk (draws 0) a character) d.1,
              ))
    ]

start_phase1-IsValid :
    (now : ℕ) (draws : ℕ → Draws) (as' : List Phase1Assignment) (s : WorkshopSession)
    → IsValid s
    → IsValid (start_phase1 now draws as' s).0
unfolding start_phase1
start_phase1-IsValid now draws as' s v =
    let (p, d) =
      hatch-IsValid draws as' (map_values cleared s.players) []
        (PlayersOk-map_values cleared s.players (λ q. refl) v.0) (tt, tt) in
    (p, d, omega arith)

refuse_or_start-IsValid :
    (now : ℕ) (draws : ℕ → Draws) (as' : List Phase1Assignment) (missing : List String)
    (s : WorkshopSession)
    → IsValid s
    → IsValid (refuse_or_start now draws as' missing s).0
unfolding refuse_or_start
refuse_or_start-IsValid now draws as' (id ∷ ids) s v = v
refuse_or_start-IsValid now draws as' [] s v =
    on_ok-IsValid (transition_to now Phase.phase1 s) (start_phase1 now draws as')
      (start_phase1-IsValid now draws as') (transition_to-IsValid now Phase.phase1 s v)

pub begin_phase1-IsValid :
    (now : ℕ) (draws : ℕ → Draws) (as' : List Phase1Assignment) (s : WorkshopSession)
    → IsValid s
    → IsValid (begin_phase1 now draws as' s).0
unfolding begin_phase1
begin_phase1-IsValid now draws as' s v =
    refuse_or_start-IsValid now draws as' (without_character s.players) s v

pub reset_to_lobby-IsValid :
    (now : ℕ) (host : String) (s : WorkshopSession)
    → IsValid s
    → IsValid (reset_to_lobby now host s).0
unfolding reset_to_lobby
reset_to_lobby-IsValid now host s v = (
  PlayersOk-update host _ _ (λ p. refl)
      (Distinct-retain _ s.players v.0.0, Entries-retain PlayerOk _ s.players v.0.1),
  (tt, tt),
  omega arith,
)
