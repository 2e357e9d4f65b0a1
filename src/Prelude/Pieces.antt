-- ===== src/Prelude/Pieces.antt =====
-- Texts cut at a character.
use Prim.Native.Nat.{ℕ}
use Prim.Native.Char.{code}
use Prim.Native.String.{String}
use mathlib.Core.Bool.{Bool, true, false, ◌&&◌}
use mathlib.Core.Option.{Option, none, some}
use ruflo_rust.Prelude.Tests.{nat_eq, ◌==◌, if◌then◌else◌}

-- `text.starts_with(prefix)`
abbrev pub starts_with : String → String → Bool
starts_with s String.[] = true
starts_with String.[] (String.◌∷◌ p ps) = false
starts_with (String.◌∷◌ c s) (String.◌∷◌ p ps) = code c == code p && starts_with s ps

-- `text.split_once(character)`
abbrev pub split_once : ℕ → String → Option (String × String)
split_once sep String.[] = none
split_once sep (String.◌∷◌ c s) =
    let rest = split_once sep s in
    if code c == sep
    then some ("", s)
    else elim rest [ none ↦ none | some p ↦ some (String.◌∷◌ c p.0, p.1) ]

-- The text before the first of a character, and the text after it; a text without it is all before.
abbrev pub before : ℕ → String → String
before sep s = elim (split_once sep s) [ none ↦ s | some p ↦ p.0 ]

abbrev pub after : ℕ → String → String
after sep s = elim (split_once sep s) [ none ↦ "" | some p ↦ p.1 ]

-- `text.ends_with(character)`
abbrev pub ends_with : ℕ → String → Bool
ends_with last String.[] = false
ends_with last (String.◌∷◌ c String.[]) = code c == last
ends_with last (String.◌∷◌ c (String.◌∷◌ d s)) = ends_with last (String.◌∷◌ d s)

abbrev without_last : String → String
without_last String.[] = ""
without_last (String.◌∷◌ c String.[]) = ""
without_last (String.◌∷◌ c (String.◌∷◌ d s)) = String.◌∷◌ c (without_last (String.◌∷◌ d s))

-- `&text[1..text.len() - 1]`, where the first and the last character are ASCII.
abbrev pub between : String → String
between String.[] = ""
between (String.◌∷◌ c s) = without_last s
