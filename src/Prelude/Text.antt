-- ===== src/Prelude/Text.antt =====
-- The text functions of the standard library that the sources call.
pub mod Digits
use Prim.Native.Nat.{ℕ, zero, suc, ◌/◌, ◌%◌}
use Prim.Native.Char.{code}
use Prim.Native.String.{String, ◌++◌, compare}
use Prim.Native.Nat.{Ordering}
use native.Mathlib.Omega.{arith}
use text.Mathlib.TextEquality.{eq_iff}
use ruflo_rust.Prelude.Lists.{contains}
use mathlib.Core.List.{List, [], ◌∷◌}
use mathlib.Core.Path.{◌≡◌, refl, ap, ◌∙◌}
use text.Mathlib.TextLemmas.{nil-append, cons-append}
use mathlib.Core.Bool.{Bool, true, ◌&&◌, ◌||◌}
use ruflo_rust.Prelude.Tests.{nat_eq, string_eq, leb, ◌==◌, if◌then◌else◌}

-- `char::is_whitespace`: the code points with the property White_Space.
abbrev pub is_whitespace : ℕ → Bool
is_whitespace c =
    (leb 9 c && leb c 13)
    || c == 32
    || c == 133
    || c == 160
    || c == 5760
    || (leb 8192 c && leb c 8202)
    || c == 8232
    || c == 8233
    || c == 8239
    || c == 8287
    || c == 12288

-- `text.trim().is_empty()`
unfoldable pub is_blank : String → Bool
is_blank String.[] = true
is_blank (String.◌∷◌ c s) = is_whitespace (code c) && is_blank s

digit : ℕ → String
digit zero = "0"
digit (suc zero) = "1"
digit (suc (suc zero)) = "2"
digit (suc (suc (suc zero))) = "3"
digit (suc (suc (suc (suc zero)))) = "4"
digit (suc (suc (suc (suc (suc zero))))) = "5"
digit (suc (suc (suc (suc (suc (suc zero)))))) = "6"
digit (suc (suc (suc (suc (suc (suc (suc zero))))))) = "7"
digit (suc (suc (suc (suc (suc (suc (suc (suc zero)))))))) = "8"
digit _ = "9"

decimal_go : ℕ → ℕ → String → String
unfolding digit
decimal_go zero n acc = acc
decimal_go (suc f) n acc =
    let more = decimal_go f (n / 10) (digit (n % 10) ++ acc) in
    if leb n 9 then digit n ++ acc else more

-- `{n}` in a format string: a 64-bit number has at most 20 digits.
pub decimal : ℕ → String
unfolding decimal_go
decimal n = decimal_go 20 n ""

-- `format!`: the pieces in order.
abbrev pub format : List String → String
format [] = ""
format (s ∷ rest) = s ++ format rest

decimal_test : decimal 18446744073709551615 ≡ "18446744073709551615"
unfolding decimal
decimal_test = refl

is_blank_test : is_blank " \t " ≡ true
unfolding is_blank
is_blank_test = refl

trim_start : String → String
trim_start String.[] = ""
trim_start (String.◌∷◌ c s) = if is_whitespace (code c) then trim_start s else String.◌∷◌ c s

trim_end : String → String
unfolding is_blank
trim_end String.[] = ""
trim_end (String.◌∷◌ c s) =
    let rest = trim_end s in if is_whitespace (code c) && rest == "" then "" else String.◌∷◌ c rest

-- `text.trim()`
unfoldable pub trim : String → String
unfolding trim_start trim_end
trim s = trim_end (trim_start s)

-- `text.split(separator)`: one piece more than there are separators.
unfoldable pub split : ℕ → String → List String
split sep String.[] = "" ∷ []
split sep (String.◌∷◌ c s) =
    let rest = split sep s in
    if code c == sep
    then "" ∷ rest
    else elim rest [ [] ↦ String.◌∷◌ c "" ∷ [] | piece ∷ pieces ↦ String.◌∷◌ c piece ∷ pieces ]

trim_test : trim " \ta b  " ≡ "a b"
unfolding trim
trim_test = refl

split_test : split 44 "a,,b" ≡ "a" ∷ "" ∷ "b" ∷ []
unfolding split
split_test = refl

-- `BTreeSet::insert` on a set kept in increasing order.
abbrev pub insert : String → List String → List String
insert s [] = s ∷ []
insert s (t ∷ ts) = elim (compare s t) [
  | Ordering.lt ↦ s ∷ t ∷ ts
  | Ordering.eq ↦ t ∷ ts
  | Ordering.gt ↦ t ∷ insert s ts
]

abbrev pub to_set : List String → List String
to_set [] = []
to_set (s ∷ ss) = insert s (to_set ss)

pub contains-insert :
    (s t : String) (l : List String) → contains t (insert s l) ≡ (s == t || contains t l)
contains-insert s t [] = ground arith
contains-insert s t (x ∷ l) =
    ground (arith, eq_iff s x, eq_iff s t, eq_iff x t, contains-insert s t l)

pub contains-to_set : (t : String) (l : List String) → contains t (to_set l) ≡ contains t l
contains-to_set t [] = refl
contains-to_set t (x ∷ l) = ground (arith, contains-insert x t (to_set l), contains-to_set t l)

-- `is_ascii_alphanumeric`, a dash or an underscore.
abbrev pub is_safe : ℕ → Bool
is_safe c =
    (leb 48 c && leb c 57)
    || (leb 65 c && leb c 90)
    || (leb 97 c && leb c 122)
    || c == 45
    || c == 95

-- `text.chars().all(test)`
abbrev pub all_chars : (ℕ → Bool) → String → Bool
all_chars p String.[] = true
all_chars p (String.◌∷◌ c s) = p (code c) && all_chars p s

pub all_chars-append :
    (p : ℕ → Bool) (s t : String) → all_chars p (s ++ t) ≡ (all_chars p s && all_chars p t)
all_chars-append p String.[] t = ap (all_chars p) (nil-append t)
all_chars-append p (String.◌∷◌ c s) t =
    ap (all_chars p) (cons-append c s t) ∙ ground (arith, all_chars-append p s t)
