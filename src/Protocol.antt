-- ===== src/Protocol.antt =====
-- platform/crates/protocol/src/lib.rs: the data types that the server and its clients share, as far
-- as the session logic reads them. `Settings` holds the table of phases.
pub mod Settings
use dragon_shift.Common.{ℕ, String, Bool, true, false, Option}

pub data Phase : Type 0 where
  lobby phase0 phase1 handover phase2 judge voting end : Phase

pub data SessionCommand : Type 0 where
  join select_character submit_observation start_phase1 start_handover submit_tags : SessionCommand
  start_phase2 action end_game start_voting submit_vote reveal_voting_results : SessionCommand
  reset_game end_session leave_workshop : SessionCommand

pub data FoodType : Type 0 where
  meat fruit fish : FoodType

pub data PlayType : Type 0 where
  fetch puzzle music : PlayType

pub data DragonAction : Type 0 where
  feed play sleep idle : DragonAction

pub data DragonEmotion : Type 0 where
  happy angry sleepy neutral : DragonEmotion

pub data ActiveTime : Type 0 where
  day night : ActiveTime

pub record SpriteSet : Type 0 where
  pub neutral : String
  pub happy : String
  pub angry : String
  pub sleepy : String

pub record CharacterProfile : Type 0 where
  pub id : String
  pub name : Option String
  pub description : String
  pub sprites : SpriteSet
  pub remaining_sprite_regenerations : ℕ  -- u8
  pub creator_account_id : Option String
  pub creator_name : Option String

-- Minutes, each a u32.
pub record WorkshopCreateConfig : Type 0 where
  pub phase0_minutes : ℕ
  pub phase1_minutes : ℕ
  pub phase2_minutes : ℕ

abbrev pub default_config : WorkshopCreateConfig
default_config = record { phase0_minutes = 8; phase1_minutes = 8; phase2_minutes = 5 }

-- The derived `==` of the enums.
abbrev pub phase_eq : Phase → Phase → Bool
phase_eq Phase.lobby Phase.lobby = true
phase_eq Phase.phase0 Phase.phase0 = true
phase_eq Phase.phase1 Phase.phase1 = true
phase_eq Phase.handover Phase.handover = true
phase_eq Phase.phase2 Phase.phase2 = true
phase_eq Phase.judge Phase.judge = true
phase_eq Phase.voting Phase.voting = true
phase_eq Phase.end Phase.end = true
phase_eq _ _ = false

abbrev pub food_eq : FoodType → FoodType → Bool
food_eq FoodType.meat FoodType.meat = true
food_eq FoodType.fruit FoodType.fruit = true
food_eq FoodType.fish FoodType.fish = true
food_eq _ _ = false

abbrev pub play_eq : PlayType → PlayType → Bool
play_eq PlayType.fetch PlayType.fetch = true
play_eq PlayType.puzzle PlayType.puzzle = true
play_eq PlayType.music PlayType.music = true
play_eq _ _ = false

abbrev pub is_sleep : DragonAction → Bool
is_sleep DragonAction.sleep = true
is_sleep _ = false

abbrev pub is_day_type : ActiveTime → Bool
is_day_type ActiveTime.day = true
is_day_type ActiveTime.night = false
