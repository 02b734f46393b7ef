-- ===== src/Session/Play.antt =====
-- platform/crates/domain/src/lib.rs, the game itself: `apply_action`, `advance_tick` and
-- `award_phase_end_achievements`.
pub mod Achievements
use dragon_shift.Common.{
  ℕ, ◌+◌, ◌*◌, ◌%◌, String, Bool, ◌&&◌, ◌||◌, Option, none, some, List, [], ◌∷◌, ◌++◌, is_some_and,
  if◌then◌else◌, leb, ◌==◌,
}
use dragon_shift.BTreeMap.{BTreeMap, string_key, get, update, values}
use dragon_shift.Protocol.{Phase, phase_eq}
use dragon_shift.Dragon.{
  SessionDragon, PlayerAction, ActionOutcome, applied, blocked, cooldown_violation, Earned,
  is_daytime, act,
}
use dragon_shift.Dragon.Tick.{tick_dragon, tick_awards}
use dragon_shift.Session.{
  SessionPlayer, WorkshopSession, action_not_allowed, dragon_not_assigned, Result, ok, err, touch,
  has_achievement, player_has_achievement, dragon_of,
}

-- Pushes an achievement that the player does not have yet.
abbrev pub award : String → SessionPlayer → SessionPlayer
award achievement player =
    if has_achievement achievement player.achievements
    then player
    else record player { achievements = player.achievements ++ achievement ∷ [] }

abbrev pub in_play : Phase → Bool
in_play phase = phase_eq phase Phase.phase1 || phase_eq phase Phase.phase2

abbrev pub earned_by : WorkshopSession → String → Earned
earned_by s player_id = record {
  master_chef = player_has_achievement s player_id "master_chef";
  playful_spirit = player_has_achievement s player_id "playful_spirit";
  speed_learner = player_has_achievement s player_id "speed_learner";
}

abbrev pub award_named :
    Option String → String → BTreeMap String SessionPlayer → BTreeMap String SessionPlayer
award_named none player_id players = players
award_named (some name) player_id players = update player_id (award name) players

-- The awards that `apply_action` makes after the dragon's part.
abbrev pub award_outcome :
    ActionOutcome
    → SessionDragon
    → String
    → BTreeMap String SessionPlayer
    → BTreeMap String SessionPlayer
award_outcome (applied award_name right) dragon player_id players =
    let named = award_named award_name player_id players in
    if dragon.found_correct_food && (dragon.found_correct_play && leb dragon.total_actions 3)
    then update player_id (award "speed_learner") named
    else named
award_outcome (blocked reason) dragon player_id players = players
award_outcome cooldown_violation dragon player_id players = players

-- `apply_action` on the dragon that was found.
unfoldable pub act_on :
    ℕ
    → String
    → PlayerAction
    → String
    → SessionDragon
    → WorkshopSession
    → WorkshopSession × Result ActionOutcome
act_on now player_id action dragon_id dragon s =
    let (after, outcome) = act (earned_by s player_id) (is_daytime s.time) action dragon in
    (
      touch now (record s {
        dragons = update dragon_id (λ _. after) s.dragons;
        players = award_outcome outcome after player_id s.players;
      }),
      ok outcome,
    )

unfoldable pub apply_action :
    ℕ → String → PlayerAction → WorkshopSession → WorkshopSession × Result ActionOutcome
apply_action now player_id action s =
    if in_play s.phase
    then elim (dragon_of s.players player_id) [
      | none ↦ (s, err dragon_not_assigned)
      | some dragon_id ↦ elim (get dragon_id s.dragons) [
        | none ↦ (s, err dragon_not_assigned)
        | some dragon ↦ act_on now player_id action dragon_id dragon s
      ]
    ]
    else (s, err action_not_allowed)

-- A dragon lives on while its owner is there and connected.
abbrev pub is_tended : BTreeMap String SessionPlayer → SessionDragon → Bool
is_tended players dragon =
    is_some_and (get dragon.current_owner_id players) λ owner. owner.is_connected

-- The loop over the dragons: each tended one after the tick, and its achievements under its owner.
unfoldable pub tick_dragons :
    Phase
    → ℕ
    → BTreeMap String SessionPlayer
    → BTreeMap String SessionDragon
    → BTreeMap String SessionDragon × List (String × List String)
tick_dragons phase time players [] = ([], [])
tick_dragons phase time players ((id, dragon) ∷ dragons) =
    let (ticked, awarded) = tick_dragons phase time players dragons in
    if is_tended players dragon
    then (let after = tick_dragon phase time dragon in
        ((id, after) ∷ ticked, (after.current_owner_id, tick_awards phase after) ∷ awarded))
    else ((id, dragon) ∷ ticked, awarded)

-- Awards a list of achievements to one player, and collects those that were new.
unfoldable pub award_each :
    String
    → List String
    → BTreeMap String SessionPlayer
    → BTreeMap String SessionPlayer × List (String × String)
award_each player_id [] players = (players, [])
award_each player_id (name ∷ names) players =
    let (after, result) = award_each player_id names (update player_id (award name) players) in
    (
      after,
      elim (get player_id players) [
        | none ↦ result
        | some player ↦
            if has_achievement name player.achievements then result else (player_id, name) ∷ result
      ],
    )

unfoldable pub award_all :
    List (String × List String)
    → BTreeMap String SessionPlayer
    → BTreeMap String SessionPlayer × List (String × String)
award_all [] players = (players, [])
award_all ((player_id, names) ∷ awarded) players =
    let (after, first) = award_each player_id names players in
    let (last, rest) = award_all awarded after in (last, first ++ rest)

-- `advance_tick` in a phase of play, `time` being the new time.
unfoldable pub run_tick : ℕ → ℕ → WorkshopSession → WorkshopSession × List (String × String)
run_tick now time s =
    let (dragons, awarded) = tick_dragons s.phase time s.players s.dragons in
    let (players, result) = award_all awarded s.players in
    (touch now (record s { time = time; dragons = dragons; players = players }), result)

unfoldable pub advance_tick : ℕ → WorkshopSession → WorkshopSession × List (String × String)
advance_tick now s = if in_play s.phase then run_tick now ((s.time + 1) % 48) s else (s, [])

abbrev pub award_when : String → Bool → List String
award_when name test = if test then name ∷ [] else []

-- The achievements that a dragon's counters earn its owner at the end of Phase 2.
unfoldable pub phase_end_awards : SessionDragon → List String
phase_end_awards d =
    award_when "no_mistakes" (
      (d.wrong_food_count == 0)
      && ((d.wrong_play_count == 0)
          && ((d.wrong_sleep_count == 0)
              && ((d.found_correct_food || d.found_correct_play) && leb 5 d.total_actions))))
    ++ (award_when "zen_master" ((d.penalty_stacks == 0) && leb 8 d.total_actions)
        ++ (award_when "button_masher" (leb 5 d.cooldown_violations)
            ++ (award_when "restful_rhythm" (
                  leb 2 d.correct_sleep_count
                  && ((d.wrong_sleep_count == 0) && leb 5 d.total_actions))
                ++ (award_when "helicopter_parent" (leb 20 d.total_actions)
                    ++ (award_when "comeback_kid"
                          (leb d.phase2_lowest_happiness 15 && leb 70 d.happiness)
                        ++ (award_when "chaos_gremlin" (leb 4 d.peak_penalty_stacks)
                            ++ award_when "perfectionist" (
                                leb 10 d.total_actions
                                && leb (d.total_actions * 80) (d.correct_actions * 100))))))))

-- Those of them that the owner, as the map stands, does not have.
unfoldable pub new_awards :
    BTreeMap String SessionPlayer → String → List String → List (String × String)
new_awards players owner_id [] = []
new_awards players owner_id (name ∷ names) =
    let rest = new_awards players owner_id names in
    elim (get owner_id players) [
      | none ↦ rest
      | some player ↦
          if has_achievement name player.achievements then rest else (owner_id, name) ∷ rest
    ]

unfoldable pub phase_end_result :
    BTreeMap String SessionPlayer → List SessionDragon → List (String × String)
phase_end_result players [] = []
phase_end_result players (dragon ∷ dragons) =
    new_awards players dragon.current_owner_id (phase_end_awards dragon)
    ++ phase_end_result players dragons

unfoldable pub apply_awards :
    List (String × String) → BTreeMap String SessionPlayer → BTreeMap String SessionPlayer
apply_awards [] players = players
apply_awards ((player_id, name) ∷ result) players =
    apply_awards result (update player_id (award name) players)

unfoldable pub award_phase_end_achievements :
    ℕ → WorkshopSession → WorkshopSession × List (String × String)
award_phase_end_achievements now s =
    let result = phase_end_result s.players (values s.dragons) in
    (touch now (record s { players = apply_awards result s.players }), result)
