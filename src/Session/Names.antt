-- ===== src/Session/Names.antt =====
-- platform/crates/domain/src/lib.rs, `random_dragon_name`: the two tables of its name.
use Prim.Native.String.{◌++◌ as str_append}
use dragon_shift.Common.{ℕ, String, none, some, List, [], ◌∷◌, get_elem?}

abbrev prefixes : List String
prefixes =
    "Ember" ∷ "Frost" ∷ "Shadow" ∷ "Storm" ∷ "Blaze" ∷ "Thorn" ∷ "Ivy" ∷ "Coral" ∷ "Ash" ∷ "Dusk"
    ∷ "Dawn" ∷ "Mist" ∷ "Flint" ∷ "Sage" ∷ "Onyx" ∷ "Pearl" ∷ "Rune" ∷ "Gale" ∷ "Cobalt" ∷ "Crimson"
    ∷ "Jade" ∷ "Amber" ∷ "Slate" ∷ "Breeze" ∷ "Cinder" ∷ "Spark" ∷ "Glimmer" ∷ "Dew" ∷ "Fern"
    ∷ "Vex" ∷ []

abbrev suffixes : List String
suffixes =
    "wing" ∷ "claw" ∷ "scale" ∷ "fang" ∷ "tail" ∷ "heart" ∷ "eye" ∷ "flame" ∷ "frost" ∷ "spark"
    ∷ "shade" ∷ "storm" ∷ "thorn" ∷ "bloom" ∷ "drift" ∷ []

-- An index past the table is a panic in the code; `random_range` gives none.
pick : List String → ℕ → String
pick table i = elim (get_elem? table i) [ none ↦ "" | some name ↦ name ]

-- The name of two drawn indices, below 30 and below 15.
unfoldable pub random_dragon_name : ℕ → ℕ → String
unfolding pick
random_dragon_name prefix suffix = str_append (pick prefixes prefix) (pick suffixes suffix)
