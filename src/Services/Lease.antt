-- ===== src/Services/Lease.antt =====
-- services/lease.rs: one holder of a workspace at a time, until the lease expires.
use ruflo_rust.Prelude.{
  ℕ, ◌+◌, ◌%◌, ◌^◌, ◌≤◌, ◌<◌, String, ◌≡◌, refl, Bool, true, false, not, ◌&&◌, Option, none, some,
  [], ◌∷◌, Result, ok, err, format, ltb, arith, string_eq, beq_self, ◌==◌, if◌then◌else◌,
}
use ruflo_rust.Json.{
  index-put_field, Value, Fields, null, str, num, pos_int, obj, object, as_str, as_u64, index,
  put_key, holds, put_field,
}
use ruflo_rust.Services.{after_write}

abbrev is_null : Value → Bool
is_null null = true
is_null _ = false

abbrev expiry : Value → ℕ
expiry v = elim (as_u64 (index v "expiresAt")) [ none ↦ 0 | some n ↦ n ]

abbrev holder_text : Value → String
holder_text v = elim (as_str (index v "holder")) [ none ↦ "?" | some t ↦ t ]

-- The test of `acquire` on the lease that is there.
abbrev is_leased : String → ℕ → Value → Bool
is_leased holder now existing =
    not (is_null existing) && ltb now (expiry existing) && not (holds existing "holder" holder)

abbrev pub new_lease : String → ℕ → ℕ → Value
new_lease holder now ttl = object (
    ("holder", str holder)
    ∷ ("acquiredAt", num (pos_int now))
    ∷ ("expiresAt", num (pos_int ((now + ttl) % 2 ^ 64)))
    ∷ [])

-- `locked` says whether the guard was given.
unfoldable pub acquire :
    Bool → Bool → ℕ → String → String → ℕ → Value → Option (Result Value String × Value)
acquire locked wrote now workspace holder ttl state =
    if not locked
    then some (err "workspace-leases lock contention", state)
    else if is_leased holder now (index state workspace)
    then some (
      err (
          format (
            "workspace `" ∷ workspace ∷ "` leased by " ∷ holder_text (index state workspace) ∷ [])),
      state,
    )
    else elim (put_key state workspace (new_lease holder now ttl)) [
      | none ↦ none
      | some state' ↦ some (ok (new_lease holder now ttl), after_write wrote state' state)
    ]

unfoldable pub release : Bool → String → String → Value → Option (Bool × Value)
release wrote workspace holder state =
    if holds (index state workspace) "holder" holder
    then elim (put_key state workspace null) [
      | none ↦ none
      | some state' ↦ some (true, after_write wrote state' state)
    ]
    else some (false, state)

leased_lem :
    (a b : String) (now ttl t : ℕ)
    → now + ttl < 2 ^ 64
    → (a == b) ≡ false
    → is_leased b t (new_lease a now ttl) ≡ ltb t (now + ttl)
leased_lem a b now ttl t fits ne = ground arith

-- A lease excludes every other holder until it expires, and no longer. Where the state holds a's
-- lease of a workspace, whose end fits in 64 bits, and locks are given and writes succeed: a call
-- of `acquire` by another holder b is refused before the expiry and changes nothing, and from then
-- on gives b the workspace; a `release` by b does nothing; and a `release` by a frees the
-- workspace.
pub acquire-held :
    (fs : Fields) (workspace a b : String) (now ttl t : ℕ)
    → index (obj fs) workspace ≡ new_lease a now ttl
    → now + ttl < 2 ^ 64
    → (a == b) ≡ false
    → (t < now + ttl
        → (e : String) × (acquire true true t workspace b ttl (obj fs) ≡ some (err e, obj fs)))
      × (now + ttl ≤ t
          → (s : Value) × (acquire true true t workspace b ttl (obj fs)
              ≡ some (ok (new_lease b t ttl), s))
            × (index s workspace ≡ new_lease b t ttl))
      × (release true workspace b (obj fs) ≡ some (false, obj fs))
      × ((s : Value) × (release true workspace a (obj fs) ≡ some (true, s))
          × (index s workspace ≡ null))
unfolding acquire release
acquire-held fs workspace a b now ttl t held fits ne =
    let test = leased_lem a b now ttl t fits ne in
    (
      λ early.
          let shut : ltb t (now + ttl) ≡ true = ground arith in
          (
            format ("workspace `" ∷ workspace ∷ "` leased by " ∷ a ∷ []),
            rw (acquire, held, test, shut) refl,
          ),
      λ late.
          let open_now : ltb t (now + ttl) ≡ false = ground arith in
          (
            obj (put_field workspace (new_lease b t ttl) fs),
            rw (acquire, held, test, open_now) refl,
            index-put_field workspace (new_lease b t ttl) fs,
          ),
      rw (release, held, ne) refl,
      (
        obj (put_field workspace null fs),
        rw (release, held, beq_self a) refl,
        index-put_field workspace null fs,
      ),
    )
