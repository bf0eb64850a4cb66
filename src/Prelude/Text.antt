-- ===== src/Prelude/Text.antt =====
-- Template literals: the parts of a text put together.
pub mod Splitting
use Prim.Native.Char.{Char, code}
use Prim.Native.String.{String, ◌++◌}
use streamerson.Prelude.Tests.{nat_eq, if◌then◌else◌}
use mathlib.Core.Option.{Option, none, some}
use mathlib.Core.Bool.{Bool, true, false, ◌&&◌, ◌||◌}
use mathlib.Core.List.{List, [], ◌∷◌}

unfoldable pub template : List String → String
template [] = ""
template (part ∷ parts) = part ++ template parts

-- How an optional text reads in a template literal, or as a property key.
abbrev pub shown : Option String → String
shown none = "undefined"
shown (some s) = s

unfoldable pub with_character : Char → List String → List String
with_character c [] = String.◌∷◌ c "" ∷ []
with_character c (part ∷ parts) = String.◌∷◌ c part ∷ parts

-- `s.split('.')`
unfoldable pub split_dots : String → List String
unfolding with_character
split_dots String.[] = "" ∷ []
split_dots (String.◌∷◌ c s) =
    let rest = split_dots s in if nat_eq (code c) 46 then "" ∷ rest else with_character c rest

starts_with : String → String → Bool
starts_with s String.[] = true
starts_with String.[] (String.◌∷◌ d t) = false
starts_with (String.◌∷◌ c s) (String.◌∷◌ d t) = nat_eq (code c) (code d) && starts_with s t

-- `s.includes(t)`
unfoldable pub includes : String → String → Bool
unfolding starts_with
includes String.[] t = starts_with "" t
includes (String.◌∷◌ c s) t = starts_with (String.◌∷◌ c s) t || includes s t
