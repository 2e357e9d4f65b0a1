-- ===== src/Settings/Keys.antt =====
-- `set` and `get` over the files, by keys with dots.
use Prim.Native.Char.{code}
use ruflo_rust.Prelude.{
  ℕ, String, ◌≡◌, refl, subst, sym, inl, inr, ◌||◌, some, none, List, [], ◌∷◌, any, Result, ok, err,
  arith, split, nat_eq, string_eq, ◌==◌, Bool-cases, Result-cases, Option-cases, false,
}
use ruflo_rust.Json.{Value, null, bool, num, str, obj, arr, field, end, put_field}
use ruflo_rust.Settings.{
  Files, Place, Env, Contents, Failure, refused, get, set_nested, find, load, set, write_to,
  write_atomic, target_of, put_child, child_of, container,
}
use ruflo_rust.Settings.Nested.{Apart, set_nested-get_parts, set_nested-get_parts_ne}

split-cons : (sep : ℕ) (s : String) → (p : String) × (ps : List String) × (split sep s ≡ p ∷ ps)
unfolding split
split-cons sep String.[] = ("", [], refl)
split-cons sep (String.◌∷◌ c s) = elim (Bool-cases (code c == sep)) [
  | inl cut ↦ ("", split sep s, rw cut refl)
  | inr same ↦ let (p, ps, e) = split-cons sep s in (String.◌∷◌ c p, ps, rw (same, e) refl)
]

-- The settings that a file with these contents gives.
abbrev pub read_as : Value → Contents → Value
read_as defaults none = defaults
read_as defaults (some v) = v

load-write_to :
    (defaults : Value) (c : Contents) (fs : Files)
    → load defaults (write_to (target_of (find fs)) c fs) ≡ read_as defaults c
unfolding load find
load-write_to defaults none fs = ground arith
load-write_to defaults (some v) fs = ground arith

set_ok :
    (cap : ℕ) (defaults : Value) (key : String) (value config : Value) (fs : Files)
    → set_nested cap (split 46 key) value (load defaults fs) ≡ ok config
    → (get config key ≡ some value)
      × ((other : String) (x : Value)
          → Apart (split 46 key) (split 46 other)
          → get (load defaults fs) other ≡ some x
          → get config other ≡ some x)
unfolding get
set_ok cap defaults key value config fs h =
    let (p, ps, e) = split-cons 46 key in
    (
      rw e (set_nested-get_parts cap p ps value (load defaults fs) config (rw (← e) h)),
      λ other x a g.
          set_nested-get_parts_ne cap (split 46 key) (split 46 other) value (load defaults fs)
            config x a h g,
    )

-- What stands after a `set`, by its answer: a document was written that has the value, and what is
-- loaded is what serde_json makes of its text.
abbrev pub Sets : Value → Env → String → Value → Files → Result Place Failure × Files → Type 0
Sets defaults env key value fs (ok place, fs') =
    (config : Value) × (load defaults fs' ≡ read_as defaults (env.reread config))
    × (get config key ≡ some value)
    × ((other : String) (x : Value)
        → Apart (split 46 key) (split 46 other)
        → get (load defaults fs) other ≡ some x
        → get config other ≡ some x)
Sets defaults env key value fs (err e, fs') = fs' ≡ fs

-- What `set` leaves, whatever its answer.
pub set_lem :
    (defaults : Value) (env : Env) (key : String) (value : Value) (fs : Files)
    → Sets defaults env key value fs (set defaults env key value fs)
unfolding set write_atomic
set_lem defaults env key value fs =
    let P = Sets defaults env key value fs in
    elim (Bool-cases (key == "" || any (λ part. part == "") (split 46 key))) [
      | inl bad ↦
          let e : set defaults env key value fs
              ≡ (err (refused "configuration key is invalid"), fs) =
            rw (set, bad) refl in
          subst P (sym e) refl
      | inr good ↦
          elim (Result-cases (set_nested env.capacity (split 46 key) value (load defaults fs))) [
            | inl (m, h) ↦
                let e : set defaults env key value fs ≡ (err m, fs) = rw (set, good, h) refl in
                subst P (sym e) refl
            | inr (config, h) ↦ elim (Option-cases env.fault) [
              | inr (m, f) ↦
                  let e : set defaults env key value fs ≡ (err (refused m), fs) =
                    rw (set, good, h, f) refl in
                  subst P (sym e) refl
              | inl f ↦
                  let place = target_of (find fs) in
                  let c = env.reread config in
                  let e : set defaults env key value fs ≡ (ok place, write_to place c fs) =
                    rw (set, good, h, f) refl in
                  let (there, others) = set_ok env.capacity defaults key value config fs h in
                  subst P (sym e) (config, load-write_to defaults c fs, there, others)
            ]
          ]
    ]

-- No array stands on the way to the value of a key.
abbrev pub Clear : List String → Value → Type 0
Clear [] v = Unit
Clear (part ∷ rest) (arr vs) = ⊥
Clear (part ∷ rest) v = Clear rest (container (child_of v part))

put_child-ok :
    (cap : ℕ) (v w : Value) (part : String) (rest : List String)
    → Clear (part ∷ rest) v
    → ((v' : Value) × (put_child cap v part w ≡ ok v')) × Clear rest (container (child_of v part))
unfolding put_child
put_child-ok cap null w part rest c = ((obj (field part w end), refl), c)
put_child-ok cap (bool b) w part rest c = ((obj (field part w end), refl), c)
put_child-ok cap (num n) w part rest c = ((obj (field part w end), refl), c)
put_child-ok cap (str s) w part rest c = ((obj (field part w end), refl), c)
put_child-ok cap (obj fs) w part rest c = ((obj (put_field part w fs), refl), c)
put_child-ok cap (arr vs) w part rest c = absurd c

set_nested-ok :
    (cap : ℕ) (parts : List String) (value current : Value)
    → Clear parts current
    → (config : Value) × (set_nested cap parts value current ≡ ok config)
unfolding set_nested
set_nested-ok cap [] value current c = (current, refl)
set_nested-ok cap (part ∷ []) value current c = (put_child-ok cap current value part [] c).0
set_nested-ok cap (part ∷ next ∷ rest) value current c =
    let ((_, first), below) = put_child-ok cap current null part (next ∷ rest) c in
    let (child, inside) =
      set_nested-ok cap (next ∷ rest) value (container (child_of current part)) below in
    let ((config, last), _) = put_child-ok cap current child part (next ∷ rest) c in
    (config, rw (set_nested, first, inside) last)

-- `set` succeeds where the key has no empty part, the write does not fail and no array stands on
-- the way to the value. When it succeeds, it has written a document in which the key has the value
-- that was asked for, and every other key whose path parts from that of the key has the value that
-- it had in the settings before; and the settings that are loaded afterwards are what serde_json
-- reads from the text of that document, or the defaults where it reads nothing. When `set` fails -
-- a key with an empty part, a part of an array that is no index, a failed write, or a panic on an
-- array that would be too long - the files are as they were.
pub set-get :
    (defaults : Value) (env : Env) (key : String) (value : Value) (fs : Files)
    → ((key == "" || any (λ part. part == "") (split 46 key)) ≡ false
        → env.fault ≡ none
        → Clear (split 46 key) (load defaults fs)
        → (place : Place) × ((set defaults env key value fs).0 ≡ ok place))
      × Sets defaults env key value fs (set defaults env key value fs)
unfolding set write_atomic
set-get defaults env key value fs = (
  λ good calm clear.
      let (config, h) = set_nested-ok env.capacity (split 46 key) value (load defaults fs) clear in
      (target_of (find fs), rw (set, good, h, calm) refl),
  set_lem defaults env key value fs,
)
