-- ===== src/Settings/Providers/Names.antt =====
-- The names of the providers in the settings.
use ruflo_rust.Prelude.{
  Bool-cases, ℕ, ◌+◌, ◌≤◌, String, ◌≡◌, refl, inl, inr, Bool, true, false, not, Option, none, some,
  List, [], ◌∷◌, any, find, retain, length, replace_first, count, Result, ok, err, ◌>>=◌, arith,
  bind-ok, sym, subst, split, string_eq, eq_iff, ◌==◌, nat_eq, Result-cases, Option-cases,
  count-append,
}
use ruflo_rust.Json.{
  Value, null, arr, to_list-from_list, obj, str, num, bool, array, get_key, field_of-put_field,
}
use ruflo_rust.Settings.{refused, Failure, Env, Place, Files, load, set, panicked}
use ruflo_rust.Settings.{get, get_parts, child_of, parse_usize}
use ruflo_rust.Settings.Keys.{read_as, Sets, set_lem}
use ruflo_rust.Settings.Providers.{
  listing, changed, is_mutation, Answer, is_named, name_of, new_provider, add_provider,
  remove_provider, enabled_as, switch_provider, configured, failed, change_all, saved_as, providers,
  aborted,
}

-- No two providers have one name.
abbrev pub IsUnique : List Value → Type 0
IsUnique ps = (name : String) → count (is_named name) ps ≤ 1

absent-count : (p : Value → Bool) (ps : List Value) → any p ps ≡ false → count p ps ≡ 0
absent-count p [] h = refl
absent-count p (x ∷ ps) h = ground (arith, absent-count p ps)

new_provider-name : (a b : String) (n : ℕ) → is_named b (new_provider a n) ≡ (a == b)
new_provider-name a b n = ground arith

add_provider-IsUnique :
    (add : Option String) (ps qs : List Value) (ms ns : List String)
    → IsUnique ps
    → add_provider add (ps, ms) ≡ ok (qs, ns)
    → IsUnique qs
unfolding add_provider
add_provider-IsUnique none ps qs ms ns u h name = ground (arith, u name)
add_provider-IsUnique (some a) ps qs ms ns u h name = ground (
  arith,
  u name,
  eq_iff a name,
  absent-count (is_named a) ps,
  count-append (is_named name) ps (new_provider a (length ps + 1) ∷ []),
)

count-retain : (p q : Value → Bool) (ps : List Value) → count p (retain q ps) ≤ count p ps
count-retain p q [] = omega arith
count-retain p q (x ∷ ps) = ground (arith, count-retain p q ps)

remove_provider-IsUnique :
    (remove : Option String) (ps qs : List Value) (ms ns : List String)
    → IsUnique ps
    → remove_provider remove (ps, ms) ≡ ok (qs, ns)
    → IsUnique qs
unfolding remove_provider
remove_provider-IsUnique none ps qs ms ns u h name = ground (arith, u name)
remove_provider-IsUnique (some a) ps qs ms ns u h name =
    ground (arith, u name, count-retain (is_named name) (λ p. not (is_named a p)) ps)

enabled_as-name :
    (flag : Bool) (name : String) (v : Value) → is_named name (enabled_as flag v) ≡ is_named name v
enabled_as-name flag name (obj fs) =
    rw (is_named, name_of, field_of-put_field "enabled" "name" (bool flag) fs) refl
enabled_as-name flag name _ = refl

count-replace_first :
    (p q : Value → Bool) (y x : Value) (ps : List Value)
    → find p ps ≡ some x
    → q y ≡ q x
    → count q (replace_first p y ps) ≡ count q ps
count-replace_first p q y x [] h e = refl
count-replace_first p q y x (z ∷ ps) h e = ground (arith, count-replace_first p q y x ps)

switch_provider-IsUnique :
    (flag : Bool) (switched : Option String) (ps qs : List Value) (ms ns : List String)
    → IsUnique ps
    → switch_provider flag switched (ps, ms) ≡ ok (qs, ns)
    → IsUnique qs
unfolding switch_provider
switch_provider-IsUnique flag none ps qs ms ns u h name = ground (arith, u name)
switch_provider-IsUnique flag (some a) ps qs ms ns u h name =
    elim (Option-cases (find (is_named a) ps)) [
      | inl e ↦ absurd (ground arith)
      | inr (p, e) ↦ ground (
        arith,
        u name,
        enabled_as-name flag name p,
        count-replace_first (is_named a) (is_named name) (enabled_as flag p) p ps,
      )
    ]

change_all-IsUnique :
    (add remove enable disable : Option String) (ps qs : List Value) (ns : List String)
    → IsUnique ps
    → change_all add remove enable disable (ps, []) ≡ ok (qs, ns)
    → IsUnique qs
unfolding change_all
change_all-IsUnique add remove enable disable ps qs ns u h =
    let (d, hd, h3) =
      bind-ok (add_provider add (ps, []) >>= remove_provider remove >>= switch_provider true enable)
        (switch_provider false disable) h in
    let (c, hc, h2) =
      bind-ok (add_provider add (ps, []) >>= remove_provider remove) (switch_provider true enable)
        hd in
    let (b, hb, h1) = bind-ok (add_provider add (ps, [])) (remove_provider remove) hc in
    let ub = add_provider-IsUnique add ps b.0 [] b.1 u hb in
    let uc = remove_provider-IsUnique remove b.0 c.0 b.1 c.1 ub h1 in
    let ud = switch_provider-IsUnique true enable c.0 d.0 c.1 d.1 uc h2 in
    switch_provider-IsUnique false disable d.0 qs d.1 ns ud h3

get_key-child_of : (v w : Value) → child_of v "providers" ≡ some w → get_key v "providers" ≡ some w
unfolding child_of parse_usize
get_key-child_of (obj fs) w h = h
get_key-child_of (arr vs) w h = cc
get_key-child_of null w h = cc
get_key-child_of (bool b) w h = cc
get_key-child_of (num n) w h = cc
get_key-child_of (str s) w h = cc

configured_after :
    (v : Value) (ps : List Value) → get v "providers" ≡ some (array ps) → configured v ≡ ps
unfolding get get_parts split
configured_after v ps h = elim (Option-cases (child_of v "providers")) [
  | inl e ↦ absurd (ground arith)
  | inr (w, e) ↦
      let same : w ≡ array ps = ground arith in
      rw (get_key-child_of v w e, same) (to_list-from_list ps)
]

-- What stands after a call, by its answer. A change that succeeds has written a document with the
-- answered list, and what is loaded is what serde_json makes of its text.
abbrev pub Changes : Value → Env → Files → Bool → Answer × Files → Type 0
Changes defaults env fs mutation (listing, fs') = (mutation ≡ false) × (fs' ≡ fs)
Changes defaults env fs mutation (aborted, fs') = (mutation ≡ true) × (fs' ≡ fs)
Changes defaults env fs mutation (changed r, fs') =
    (mutation ≡ true) × (elim r.failure as (λ _. Type 0) [
      | some e ↦ fs' ≡ fs
      | none ↦
          IsUnique r.providers
          × ((config : Value) × (load defaults fs' ≡ read_as defaults (env.reread config))
              × (configured config ≡ r.providers))
    ])

saved :
    (defaults : Value) (env : Env) (ps : List Value) (ms : List String) (fs : Files)
    (r : Result Place Failure × Files)
    → IsUnique ps
    → Sets defaults env "providers" (array ps) fs r
    → Changes defaults env fs true (saved_as ps ms r)
saved defaults env ps ms fs (err (refused e), fs') v same = (refl, same)
saved defaults env ps ms fs (err panicked, fs') v same = (refl, same)
saved defaults env ps ms fs (ok place, fs') v (config, read, there, rest) =
    (refl, (v, (config, read, configured_after config ps there)))

-- A call without an option is a listing and writes nothing; every other call is a change. Where no
-- two providers of the settings have one name, a change that succeeds answers a list in which no
-- two have, and has written a document with that list of providers; the settings that are loaded
-- afterwards are what serde_json reads from the text of that document. A change that fails leaves
-- the files as they were.
pub providers-IsUnique :
    (defaults : Value) (env : Env) (add remove enable disable : Option String) (fs : Files)
    → IsUnique (configured (load defaults fs))
    → Changes defaults env fs
        (is_mutation add remove enable disable)
        (providers defaults env add remove enable disable fs)
unfolding providers
providers-IsUnique defaults env add remove enable disable fs u =
    let asked = is_mutation add remove enable disable in
    let call = providers defaults env add remove enable disable fs in
    elim (Bool-cases asked) [
      | inr none_ ↦
          let e : call ≡ (listing, fs) = rw (providers, none_) refl in
          subst (Changes defaults env fs asked) (sym e) (none_, refl)
      | inl some_ ↦
          elim (Result-cases
            (change_all add remove enable disable (configured (load defaults fs), []))) [
              | inl (f, h) ↦
                  let e : call ≡ (changed (failed f), fs) = rw (providers, some_, h) refl in
                  subst (Changes defaults env fs asked) (sym e) (some_, refl)
              | inr ((ps, ms), h) ↦
                  let r = set defaults env "providers" (array ps) fs in
                  let e : call ≡ saved_as ps ms r = rw (providers, some_, h) refl in
                  let v =
                    change_all-IsUnique add remove enable disable (configured (load defaults fs)) ps
                      ms u h in
                  subst (Changes defaults env fs asked) (sym e) (
                    subst (λ b. Changes defaults env fs b (saved_as ps ms r)) (sym some_)
                      (saved defaults env ps ms fs r v
                        (set_lem defaults env "providers" (array ps) fs)))
            ]
    ]
