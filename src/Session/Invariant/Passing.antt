-- ===== src/Session/Invariant/Passing.antt =====
-- The invariant and the operations that hand dragons and notes on.
use mathlib.Core.List.{reverse, reverse-append}
use native.Mathlib.Omega.{arith}
use dragon_shift.Common.{
  ℕ, ◌≤◌, ◌≡◌, inl, inr, refl, ap, ◌∙◌, Bool, not, ◌||◌, String, List, [], ◌∷◌, ◌++◌, length, take,
  length-append, length-take, Option-cases, Bool-cases, if_split, ltb, ◌==◌,
}
use dragon_shift.BTreeMap.{BTreeMap, string_key, keys, values}
use dragon_shift.Protocol.{Phase}
use dragon_shift.Dragon.{SessionDragon}
use dragon_shift.Session.{SessionPlayer, WorkshopSession, transition_to, dragon_of}
use dragon_shift.Session.Handover.{
  push_observation, record_discovery_observation, save_handover_tags, lacks_tags,
  fallback_handover_tags, fill_for, auto_fill, missing_players, shifted, new_shift, hand_over,
  single_shift, reassign, start_phase2, refuse_or_shift, enter_phase2_with_missing_handover,
}
use dragon_shift.Session.Invariant.{
  DragonOk, PlayersOk, DragonsOk, IsValid, PlayersOk-update, DragonsOk-update,
  transition_to-IsValid, on_ok-IsValid,
}

pub length-reverse {ℓ} : {A : Type ℓ} (xs : List A) → length (reverse xs) ≡ length xs
length-reverse [] = refl
length-reverse (x ∷ xs) =
    ap length (reverse-append (x ∷ []) xs)
    ∙ omega (arith, length-append (reverse xs) (x ∷ []), length-reverse xs)

-- The list of observations never grows past six.
pub length-push_observation :
    (text : String) (xs : List String) → length (push_observation text xs) ≤ 6
length-push_observation text xs = omega (
  arith,
  length-reverse (take 6 (reverse (xs ++ text ∷ []))),
  length-take 6 (reverse (xs ++ text ∷ [])),
)

-- An observation of a player who has a dragon, or of one who has none.
pub record_discovery_observation-IsValid :
    (now : ℕ) (id text : String) (s : WorkshopSession)
    → IsValid s
    → IsValid (record_discovery_observation now id text s)
unfolding record_discovery_observation
record_discovery_observation-IsValid now id text s v =
    elim (Option-cases (dragon_of s.players id)) [
      | inl e ↦ rw (e, record_discovery_observation) v
      | inr (dragon, e) ↦
          rw (e, record_discovery_observation)
            (
              v.0,
              DragonsOk-update dragon _ s.dragons
                  (λ d h. record {
                    keyed = h.keyed;
                    well_formed = ground (arith, h.well_formed);
                    observed = length-push_observation text d.discovery_observations;
                    noted = h.noted;
                  })
                  v.1,
              v.2,
            )
    ]

with_tags-DragonOk :
    (key : String) (tags : List String) (d : SessionDragon)
    → length tags ≡ 3
    → DragonOk key d
    → DragonOk key (record d { handover_tags = tags })
with_tags-DragonOk key tags d e h = record {
  keyed = h.keyed;
  well_formed = ground (arith, h.well_formed);
  observed = h.observed;
  noted = inr e;
}

pub save_handover_tags-IsValid :
    (now : ℕ) (id : String) (tags : List String) (s : WorkshopSession)
    → IsValid s
    → IsValid (save_handover_tags now id tags s).0
unfolding save_handover_tags
save_handover_tags-IsValid now id tags s v = elim (Bool-cases (length tags == 3)) [
  | inr e ↦ rw e v
  | inl e ↦ rw e (elim (Option-cases (dragon_of s.players id)) [
    | inl f ↦ rw f v
    | inr (dragon, f) ↦ rw f (
      v.0,
      DragonsOk-update dragon _ s.dragons
          (λ d h. with_tags-DragonOk dragon tags d (ground (arith, e)) h) v.1,
      v.2,
    )
  ])
]

fill_for-DragonsOk :
    (allow : Bool) (player : SessionPlayer) (dragons : BTreeMap String SessionDragon)
    → DragonsOk dragons
    → DragonsOk (fill_for allow player dragons)
fill_for-DragonsOk allow player dragons v = elim (Option-cases player.current_dragon_id) [
  | inl e ↦ rw e v
  | inr (id, e) ↦ rw e (
      if_split DragonsOk (not player.is_connected || allow)
        (λ _.
          DragonsOk-update id _ dragons
            (λ d h.
              if_split (DragonOk id) (lacks_tags d)
                (λ _. with_tags-DragonOk id fallback_handover_tags d refl h) (λ _. h))
            v)
        (λ _. v))
]

auto_fill-DragonsOk :
    (allow : Bool) (players : List SessionPlayer) (dragons : BTreeMap String SessionDragon)
    → DragonsOk dragons
    → DragonsOk (auto_fill allow players dragons).0
unfolding auto_fill
auto_fill-DragonsOk allow [] dragons v = v
auto_fill-DragonsOk allow (p ∷ ps) dragons v =
    auto_fill-DragonsOk allow ps (fill_for allow p dragons) (fill_for-DragonsOk allow p dragons v)

-- A dragon starts its new shift well formed, whatever the old one did to it.
new_shift-DragonOk :
    (key greeting owner : String) (d : SessionDragon)
    → DragonOk key d
    → DragonOk key (record (new_shift greeting d) { current_owner_id = owner })
unfolding new_shift
new_shift-DragonOk key greeting owner d h = ground arith

hand_over-IsValid :
    (player_ids dragon_ids : List String) (players : BTreeMap String SessionPlayer)
    (dragons : BTreeMap String SessionDragon)
    → PlayersOk players
    → DragonsOk dragons
    → PlayersOk (hand_over player_ids dragon_ids players dragons).0
      × DragonsOk (hand_over player_ids dragon_ids players dragons).1
unfolding hand_over
hand_over-IsValid [] ds players dragons p d = (p, d)
hand_over-IsValid (i ∷ is) [] players dragons p d = (p, d)
hand_over-IsValid (i ∷ is) (j ∷ js) players dragons p d =
    hand_over-IsValid is js _ _ (PlayersOk-update i _ players (λ q. refl) p)
      (DragonsOk-update j _ dragons (λ e h. new_shift-DragonOk j _ i e h) d)

kept_shift-DragonOk :
    (key greeting : String) (d : SessionDragon)
    → DragonOk key d
    → DragonOk key (new_shift greeting d)
unfolding new_shift
kept_shift-DragonOk key greeting d h = ground arith

single_shift-DragonsOk :
    (ids : List String) (players : BTreeMap String SessionPlayer)
    (dragons : BTreeMap String SessionDragon)
    → DragonsOk dragons
    → DragonsOk (single_shift ids players dragons)
unfolding single_shift
single_shift-DragonsOk [] players dragons d = d
single_shift-DragonsOk (id ∷ ids) players dragons d = elim (Option-cases (dragon_of players id)) [
  | inl e ↦ rw (e, single_shift) d
  | inr (dragon, e) ↦
      rw (e, single_shift)
        (DragonsOk-update dragon _ dragons (λ x h. kept_shift-DragonOk dragon _ x h) d)
]

start_phase2-IsValid :
    (now : ℕ) (names : List String) (s : WorkshopSession)
    → IsValid s
    → IsValid (start_phase2 now names s).0
unfolding start_phase2 reassign
start_phase2-IsValid now names s v = elim (Bool-cases (ltb 1 (length (keys s.players)))) [
  | inl e ↦
      let (p, d) = hand_over-IsValid (keys s.players) (shifted (keys s.dragons)) _ _ v.0 v.1 in
      rw e (p, d, v.2)
  | inr e ↦ rw e (v.0, single_shift-DragonsOk (keys s.players) s.players s.dragons v.1, v.2)
]

refuse_or_shift-IsValid :
    (now : ℕ) (names missing : List String) (s : WorkshopSession)
    → IsValid s
    → IsValid (refuse_or_shift now names missing s).0
unfolding refuse_or_shift
refuse_or_shift-IsValid now names (p ∷ ps) s v = v
refuse_or_shift-IsValid now names [] s v =
    on_ok-IsValid (transition_to now Phase.phase2 s) (start_phase2 now names)
      (start_phase2-IsValid now names) (transition_to-IsValid now Phase.phase2 s v)

pub enter_phase2-IsValid :
    (now : ℕ) (allow : Bool) (s : WorkshopSession)
    → IsValid s
    → IsValid (enter_phase2_with_missing_handover now allow s).0
unfolding enter_phase2_with_missing_handover
enter_phase2-IsValid now allow s v =
    let filled = auto_fill allow (values s.players) s.dragons in
    refuse_or_shift-IsValid now filled.1 (missing_players allow (values s.players) filled.0)
      (record s { dragons = filled.0 })
      (v.0, auto_fill-DragonsOk allow (values s.players) s.dragons v.1, v.2)
