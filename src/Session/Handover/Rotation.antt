-- ===== src/Session/Handover/Rotation.antt =====
-- The rotation of Phase 2 (`enter_phase2_with_missing_handover`): who gets which dragon.
use mathlib.Core.Option
use mathlib.Core.Path.{subst₂}
use dragon_shift.Common.{
  ℕ, zero, suc, ◌<◌, ◌≡◌, ◌≢◌, refl, sym, ap, ◌∙◌, String, Option, none, some, List, [], ◌∷◌, arith,
  All, length, get_elem?, lt→ltb, some_inj, and_then,
}
use dragon_shift.BTreeMap.{BTreeMap, string_key, get, update, keys}
use dragon_shift.BTreeMap.Laws.{get-update_self, get-update_ne}
use dragon_shift.BTreeMap.Distinct.{Distinct}
use dragon_shift.Dragon.{SessionDragon}
use dragon_shift.Session.{SessionPlayer, dragon_of}
use dragon_shift.Session.Handover.{shifted, new_shift, hand_over, reassign}
use dragon_shift.Session.Handover.Places.{
  NoDup, keys-NoDup, get_elem?-lt, All-elem, shifted-NoDup, source_of, get_elem?-shifted, NoDup-inj,
  source_of-ne, get_elem?-some, source_of-lt,
}

-- What the loop leaves alone.
hand_over-other_dragon :
    (ps ds : List String) (players : BTreeMap String SessionPlayer)
    (dragons : BTreeMap String SessionDragon) (d : String)
    → All (λ y. y ≢ d) ds
    → get d (hand_over ps ds players dragons).1 ≡ get d dragons
unfolding hand_over
hand_over-other_dragon [] ds players dragons d h = refl
hand_over-other_dragon (p ∷ ps) [] players dragons d h = refl
hand_over-other_dragon (p ∷ ps) (x ∷ ds) players dragons d h =
    hand_over-other_dragon ps ds _ _ d h.1 ∙ get-update_ne x d _ dragons h.0

hand_over-other_player :
    (ps ds : List String) (players : BTreeMap String SessionPlayer)
    (dragons : BTreeMap String SessionDragon) (p : String)
    → All (λ y. y ≢ p) ps
    → get p (hand_over ps ds players dragons).0 ≡ get p players
unfolding hand_over
hand_over-other_player [] ds players dragons p h = refl
hand_over-other_player (x ∷ ps) [] players dragons p h = refl
hand_over-other_player (x ∷ ps) (d ∷ ds) players dragons p h =
    hand_over-other_player ps ds _ _ p h.1 ∙ get-update_ne x p _ players h.0

-- The dragon at a place of the list after the loop is that of the player at the same place.
abbrev pub handed : String → SessionDragon → SessionDragon
handed p dragon = record (new_shift "Where am I? Who are you?" dragon) { current_owner_id = p }

abbrev pub riding : String → SessionPlayer → SessionPlayer
riding d player = record player { current_dragon_id = some d }

hand_over-at :
    (i : ℕ) (ps ds : List String) (players : BTreeMap String SessionPlayer)
    (dragons : BTreeMap String SessionDragon) (p d : String)
    → NoDup ps
    → NoDup ds
    → get_elem? ps i ≡ some p
    → get_elem? ds i ≡ some d
    → (get d (hand_over ps ds players dragons).1 ≡ Option.map (handed p) (get d dragons))
      × (get p (hand_over ps ds players dragons).0 ≡ Option.map (riding d) (get p players))
unfolding hand_over
hand_over-at i [] ds players dragons p d np nd ep ed = cc
hand_over-at i (q ∷ ps) [] players dragons p d np nd ep ed = cc
hand_over-at zero (q ∷ ps) (x ∷ ds) players dragons p d np nd ep ed =
    subst₂
      (λ a b.
        (get b (hand_over ps ds first_players first_dragons).1
          ≡ Option.map (handed a) (get b dragons))
        × (get a (hand_over ps ds first_players first_dragons).0
            ≡ Option.map (riding b) (get a players)))
      (some_inj ep) (some_inj ed)
      (
        hand_over-other_dragon ps ds _ _ x nd.0 ∙ get-update_self x (handed q) dragons,
        hand_over-other_player ps ds _ _ q np.0 ∙ get-update_self q (riding x) players,
      )
  where
    first_players : BTreeMap String SessionPlayer
    first_players = update q (riding x) players

    first_dragons : BTreeMap String SessionDragon
    first_dragons = update x (handed q) dragons
hand_over-at (suc i) (q ∷ ps) (x ∷ ds) players dragons p d np nd ep ed =
    let (dragon, player) =
      hand_over-at i ps ds (update q (riding x) players) (update x (handed q) dragons) p d np.1 nd.1
        ep ed in
    (
      dragon
          ∙ ap (Option.map (handed p))
              (get-update_ne x d (handed q) dragons (λ e. All-elem x d i ds nd.0 ed (sym e))),
      player
          ∙ ap (Option.map (riding d))
              (get-update_ne q p (riding x) players (λ e. All-elem q p i ps np.0 ep (sym e))),
    )

pub reassign-at :
    (players : BTreeMap String SessionPlayer) (dragons : BTreeMap String SessionDragon) (i : ℕ)
    (p d : String)
    → Distinct players
    → Distinct dragons
    → 1 < length (keys players)
    → length (keys dragons) ≡ length (keys players)
    → get_elem? (keys players) i ≡ some p
    → get_elem? (keys dragons) (source_of (length (keys dragons)) i) ≡ some d
    → (get d (reassign players dragons).1 ≡ Option.map (handed p) (get d dragons))
      × (get p (reassign players dragons).0 ≡ Option.map (riding d) (get p players))
unfolding reassign
reassign-at players dragons i p d dp dd many same ep ed =
    rw (lt→ltb 1 (length (keys players)) many) (
      hand_over-at i (keys players) (shifted (keys dragons)) players dragons p d
        (keys-NoDup players dp) (shifted-NoDup (keys dragons) (keys-NoDup dragons dd)) ep
        (get_elem?-shifted i (keys dragons) (rw same (get_elem?-lt i (keys players) ep)) ∙ ed))

-- Every dragon was made by the player at its own place in the order of the ids, as it is where the
-- server names the dragons after their players.
abbrev pub Aligned : BTreeMap String SessionPlayer → BTreeMap String SessionDragon → Type 0
Aligned players dragons =
    (i : ℕ) (p d : String) (dragon : SessionDragon)
    → get_elem? (keys players) i ≡ some p
    → get_elem? (keys dragons) i ≡ some d
    → get d dragons ≡ some dragon
    → dragon.original_owner_id ≡ p

riding_same :
    (x d : String) (o : Option SessionPlayer)
    → and_then (Option.map (riding x) o) (λ (q : SessionPlayer). q.current_dragon_id) ≡ some d
    → x ≡ d
riding_same x d none h = cc
riding_same x d (some q) h = some_inj h

-- Where there are several players, as many dragons, and every dragon was made by the player at its
-- place, no player is handed the dragon that they made.
pub reassign_foreign :
    (players : BTreeMap String SessionPlayer) (dragons : BTreeMap String SessionDragon) (i : ℕ)
    (p d : String) (dragon : SessionDragon)
    → Distinct players
    → Distinct dragons
    → Aligned players dragons
    → 1 < length (keys players)
    → length (keys dragons) ≡ length (keys players)
    → get_elem? (keys players) i ≡ some p
    → dragon_of (reassign players dragons).0 p ≡ some d
    → get d dragons ≡ some dragon
    → dragon.original_owner_id ≢ p
unfolding dragon_of
reassign_foreign players dragons i p d dragon dp dd aligned many same ep has found own =
    let n = length (keys dragons) in
    let j = source_of n i in
    let i_lt = get_elem?-lt i (keys players) ep in
    let j_lt : j < n = source_of-lt n i (omega arith) in
    let (x, ex) = get_elem?-some j (keys dragons) j_lt in
    let (q, eq) = get_elem?-some j (keys players) (omega arith) in
    let rides = (reassign-at players dragons i p x dp dd many same ep ex).1 in
    let x_d = riding_same x d (get p players) (rw rides at has) in
    let made = aligned j q d dragon eq (ex ∙ ap some x_d) found in
    source_of-ne n i (omega arith)
      (NoDup-inj j i (keys players) (keys-NoDup players dp) (eq ∙ ap some (sym made ∙ own)) ep)
