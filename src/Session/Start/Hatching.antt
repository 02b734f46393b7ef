-- ===== src/Session/Start/Hatching.antt =====
-- What `begin_phase1` gives each player.
use mathlib.Core.Option
use dragon_shift.Common.{◌≡◌, ◌≢◌, String, some, List, [], ◌∷◌, All}
use dragon_shift.BTreeMap.{BTreeMap, string_key, get}
use dragon_shift.Protocol.{CharacterProfile}
use dragon_shift.Dragon.{SessionDragon}
use dragon_shift.Session.{SessionPlayer}
use dragon_shift.Session.Start.{Phase1Assignment, Draws, new_dragon}

-- An assignment of neither this player nor this dragon.
abbrev pub Avoids : String → String → Phase1Assignment → Type 0
Avoids player_id dragon_id a = (a.player_id ≢ player_id) × (a.dragon_id ≢ dragon_id)

-- No player and no dragon is assigned twice.
abbrev pub Apart : List Phase1Assignment → Type 0
Apart [] = Unit
Apart (a ∷ rest) = All (Avoids a.player_id a.dragon_id) rest × Apart rest

abbrev pub riding : String → SessionPlayer → SessionPlayer
riding dragon_id player = record player { current_dragon_id = some dragon_id }

-- What the loop makes of the assignment `a` with the draws `d`.
abbrev Hatched :
    BTreeMap String SessionPlayer × BTreeMap String SessionDragon
    → Draws
    → SessionPlayer
    → CharacterProfile
    → Phase1Assignment
    → Type 0
Hatched after d player c a =
    (get a.player_id after.0 ≡ some (riding a.dragon_id player))
    × (get a.dragon_id after.1 ≡ some (new_dragon d a c))
