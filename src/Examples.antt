-- ===== src/Examples.antt =====
-- A workshop of two players for the tests: they join, choose characters and play through both
-- phases. The children hold the tests.
pub mod Workshops
pub mod Dragons
pub mod Votes
pub mod Servers
pub mod Rounds
pub mod Commands
pub mod Replicas
pub mod Lists
pub mod Judges
use dragon_shift.Common.{ℕ, ◌≡◌, refl, String, Bool, true, false, none, some, List, [], ◌∷◌}
use dragon_shift.Common.I32.{pos}
use dragon_shift.Protocol.{Phase, FoodType, SpriteSet, CharacterProfile, default_config}
use dragon_shift.Dragon.{SessionDragon, PlayerAction, feed}
use dragon_shift.Session.{SessionPlayer, WorkshopSession, new}
use dragon_shift.Session.Start.{Phase1Assignment, Draws, new_dragon}
use dragon_shift.Workshop.{
  Call, adds_player, assigns_character, begins_phase1, begins_handover, saves_tags, enters_phase2,
  enters_phase2_late, acts, ticks, enters_voting, run,
}

abbrev pub sprites : SpriteSet
sprites = record { neutral = "n"; happy = "h"; angry = "a"; sleepy = "s" }

abbrev pub character : String → CharacterProfile
character id = record {
  id = id;
  name = none;
  description = "A small green dragon";
  sprites = sprites;
  remaining_sprite_regenerations = 2;
  creator_account_id = none;
  creator_name = none;
}

abbrev pub joining : String → ℕ → SessionPlayer
joining id at = record {
  id = id;
  name = id;
  account_id = none;
  character_id = none;
  selected_character = some (character id);
  is_host = false;
  is_connected = true;
  is_ready = false;
  score = pos 0;
  current_dragon_id = none;
  achievements = [];
  joined_at = at;
}

abbrev pub assignment : String → String → Phase1Assignment
assignment player_id dragon_id = record { player_id = player_id; dragon_id = dragon_id }

abbrev pub drawn : ℕ → Draws
drawn i = record { prefix = i; suffix = i; coin = true; food = 0; play = 1; rate = 1 }

abbrev pub hatchling : SessionDragon
hatchling = new_dragon (drawn 0) (assignment "ann" "dragon-ann") (character "ann")

abbrev pub fresh : WorkshopSession
fresh = new 1 "123456" 0 default_config

-- Up to the first day of Phase 1.
abbrev pub opening : List (ℕ × Call)
opening =
    (1, adds_player (joining "ann" 1))
    ∷ (2, adds_player (joining "bob" 2))
    ∷ (3, begins_phase1 drawn (assignment "ann" "dragon-ann" ∷ assignment "bob" "dragon-bob" ∷ []))
    ∷ []

abbrev pub discovering : WorkshopSession
discovering = run fresh opening

-- From there to the handover.
abbrev pub discovery : List (ℕ × Call)
discovery =
    (4, acts "ann" (feed FoodType.meat))
    ∷ (5, ticks)
    ∷ (6, begins_handover)
    ∷ (7, saves_tags "ann" ("a" ∷ "b" ∷ "c" ∷ []))
    ∷ []

abbrev pub handing_over : WorkshopSession
handing_over = run discovering discovery

abbrev pub voting_on : WorkshopSession
voting_on = run handing_over ((8, enters_phase2_late) ∷ (9, enters_voting) ∷ [])
