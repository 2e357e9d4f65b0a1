-- ===== src/Services/Pool.antt =====
-- services/bounded_pool.rs: slots of a pool, at most as many as the caller allows.
use ruflo_rust.Prelude.{
  inr, inl, Bool-cases, any, ℕ, ◌≤◌, ◌<◌, String, ◌≡◌, refl, ap, ◌∙◌, Bool, true, false, not,
  Option, none, some, List, [], ◌∷◌, ◌++◌, length, length-append, retain, Result, ok, err, format,
  decimal, ltb, leb, arith, string_eq, if◌then◌else◌,
}
use ruflo_rust.Json.{
  index-put_field, Value, Fields, null, str, num, pos_int, obj, object, array, as_array, index,
  put_key, holds, put_field, to_list-from_list,
}
use ruflo_rust.Services.{after_write}

-- `state[pool]["active"]`
abbrev pub active_of : Value → String → List Value
active_of state pool = elim (as_array (index (index state pool) "active")) [
  | none ↦ []
  | some l ↦ l
]

abbrev pub slot : String → ℕ → Value
slot id now = object (("id", str id) ∷ ("acquiredAt", num (pos_int now)) ∷ [])

abbrev pub pool_value : List Value → ℕ → Value
pool_value slots max = object (("active", array slots) ∷ ("max", num (pos_int max)) ∷ [])

-- `id` is the identifier that `unique_id` makes.
unfoldable pub acquire :
    Bool → Bool → String → ℕ → String → ℕ → Value → Option (Result Value String × Value)
acquire locked wrote id now pool max state =
    if not locked
    then some (err "bounded-pool lock contention", state)
    else if leb max (length (active_of state pool))
    then some (err (format ("pool `" ∷ pool ∷ "` at capacity (" ∷ decimal max ∷ ")" ∷ [])), state)
    else elim (put_key state pool (pool_value (active_of state pool ++ slot id now ∷ []) max)) [
      | none ↦ none
      | some state' ↦ some (ok (slot id now), after_write wrote state' state)
    ]

-- The slots that stay: every slot but the one of that identifier.
abbrev pub others : String → List Value → List Value
others id = retain (λ s. not (holds s "id" id))

-- The release, from the value of the pool.
abbrev pub release_from : Bool → String → String → Value → Value → Option (Bool × Value)
release_from wrote pool id state value = elim (put_key value "active" null) [
  | none ↦ none
  | some _ ↦ elim (as_array (index value "active")) [
    | none ↦ some (false, state)
    | some slots ↦
        if ltb (length (others id slots)) (length slots)
        then elim (put_key value "active" (array (others id slots))) [
          | none ↦ none
          | some p ↦ elim (put_key state pool p) [
            | none ↦ none
            | some state' ↦ some (true, after_write wrote state' state)
          ]
        ]
        else some (false, state)
  ]
]

-- `state[pool]["active"].as_array_mut()`: the indexing panics where the state or the pool is
-- neither an object nor null; the members that it puts where there are none are never written.
unfoldable pub release : Bool → Bool → String → String → Value → Option (Bool × Value)
release locked wrote pool id state =
    if not locked then some (false, state) else elim (put_key state pool null) [
      | none ↦ none
      | some _ ↦ release_from wrote pool id state (index state pool)
    ]

active_of-put_field :
    (pool : String) (slots : List Value) (max : ℕ) (fs : Fields)
    → active_of (obj (put_field pool (pool_value slots max) fs)) pool ≡ slots
active_of-put_field pool slots max fs =
    ap (λ v. elim (as_array (index v "active")) as (λ x. List Value) [ none ↦ [] | some l ↦ l ])
      (index-put_field pool (pool_value slots max) fs)
    ∙ to_list-from_list slots

-- The capacity bounds what the pool holds. On any state object, where the lock is given and the
-- write succeeds: a slot is granted exactly when the pool holds fewer than
-- the maximum, the granted slot is the last of the pool's slots and the others are as before, so
-- that the pool holds no more than the maximum; and a refusal changes nothing.
pub acquire_lem :
    (id : String) (now : ℕ) (pool : String) (max : ℕ) (fs : Fields)
    → (length (active_of (obj fs) pool) < max
        → (s : Value) × (acquire true true id now pool max (obj fs) ≡ some (ok (slot id now), s))
          × (active_of s pool ≡ active_of (obj fs) pool ++ slot id now ∷ [])
          × (length (active_of s pool) ≤ max))
      × (max ≤ length (active_of (obj fs) pool)
          → (e : String) × (acquire true true id now pool max (obj fs) ≡ some (err e, obj fs)))
unfolding acquire
acquire_lem id now pool max fs =
    let slots = active_of (obj fs) pool ++ slot id now ∷ [] in
    (
      λ room.
          let free : leb max (length (active_of (obj fs) pool)) ≡ false = ground arith in
          let after : active_of (obj (put_field pool (pool_value slots max) fs)) pool ≡ slots =
            active_of-put_field pool slots max fs in
          (
            obj (put_field pool (pool_value slots max) fs),
            rw (acquire, free) refl,
            after,
            rw after
                (omega (arith, room, length-append (active_of (obj fs) pool) (slot id now ∷ []))),
          ),
      λ full.
          let shut : leb max (length (active_of (obj fs) pool)) ≡ true = ground arith in
          (
            format ("pool `" ∷ pool ∷ "` at capacity (" ∷ decimal max ∷ ")" ∷ []),
            rw (acquire, shut) refl,
          ),
    )

others-shorter :
    (id : String) (slots : List Value)
    → (length (others id slots) ≤ length slots)
      × (ltb (length (others id slots)) (length slots) ≡ any (λ s. holds s "id" id) slots)
others-shorter id [] = (omega arith, refl)
others-shorter id (s ∷ slots) =
    let (le, lt) = others-shorter id slots in
    elim (Bool-cases (holds s "id" id)) [
      | inl h ↦ (ground arith, ground arith)
      | inr h ↦ (ground arith, ground arith)
    ]

-- A release gives back the slots of its identifier: where the pool stands as `acquire` writes it,
-- the lock is given and the write succeeds,
-- a release succeeds exactly when the pool holds such a slot, the pool then holds the other slots
-- in their order, and otherwise nothing changes.
pub release_lem :
    (pool id : String) (slots : List Value) (max : ℕ) (fs : Fields)
    → index (obj fs) pool ≡ pool_value slots max
    → (any (λ s. holds s "id" id) slots ≡ true
        → (s : Value) × (release true true pool id (obj fs) ≡ some (true, s))
          × (active_of s pool ≡ others id slots))
      × (any (λ s. holds s "id" id) slots ≡ false
          → release true true pool id (obj fs) ≡ some (false, obj fs))
unfolding release
release_lem pool id slots max fs held =
    let test = (others-shorter id slots).1 in
    let same = ap (λ v. release_from true pool id (obj fs) v) held in
    (
      λ has. (
        obj (put_field pool (pool_value (others id slots) max) fs),
        same ∙ rw (to_list-from_list slots, test, has) refl,
        active_of-put_field pool (others id slots) max fs,
      ),
      λ hasnt. same ∙ rw (to_list-from_list slots, test, hasnt) refl,
    )
