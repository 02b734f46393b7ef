-- ===== src/Server/Assigning.antt =====
-- The dragons that the server names when it starts a game, by `workshop_command` of
-- platform/app-server/src/http.rs with `begin_phase1` of platform/crates/domain/src/lib.rs.
use Prim.Native.String.{◌++◌ as str_append}
use dragon_shift.Common.{String, [], ◌∷◌}
use dragon_shift.BTreeMap.{BTreeMap, string_key}
use dragon_shift.BTreeMap.Distinct.{Distinct}
use dragon_shift.Session.Start.{Phase1Assignment}

abbrev pub dragon_name : String → String
dragon_name player_id = str_append "dragon_" player_id

abbrev tail : String → String
tail String.[] = String.[]
tail (String.◌∷◌ c s) = s

-- A text without as many characters as the prefix has.
abbrev drop_like : String → String → String
drop_like String.[] s = s
drop_like (String.◌∷◌ c prefix) s = drop_like prefix (tail s)

-- The assignment of a player.
abbrev pub assigned : String → Phase1Assignment
assigned player_id = record { player_id = player_id; dragon_id = dragon_name player_id }
