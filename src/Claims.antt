-- ===== src/Claims.antt =====
-- crates/ruflo-cli/src/services/claim_service.rs: claims of agents on issues, kept as a JSON array
-- in one state file. The file is a value of the model; `Env` says what the lock, the write and the
-- clock of services/mod.rs gave a call. `none` is a panic.
pub mod Changes
pub mod View
pub mod Entries
pub mod Transitions
pub mod Edits
pub mod Refinement
pub mod Safety
use ruflo_rust.Prelude.{
  ℕ, String, Bool, true, false, not, ◌||◌, Option, none, some, List, [], ◌∷◌, ◌++◌, find, retain,
  any, replace_first, Result, ok, err, format, string_eq, ◌==◌, if◌then◌else◌,
}
use ruflo_rust.Json.{
  Value, null, str, arr, obj, num, pos_int, object, array, as_str, as_array, index, put_key, holds,
  remove_field, to_list,
}
use ruflo_rust.Claims.Changes.{
  at, text_or, release_edit, handoff_edit, accept_edit, stealable_edit, steal_edit,
}

pub record Env : Type 0 where
  pub locked : Bool  -- `LockGuard::acquire` gave a guard
  pub written : Bool  -- `write_state` succeeded
  pub now : ℕ  -- `now_ms()`

abbrev pub Outcome : Type 0 → Type 0
Outcome A = Option (Result A String × Value)

-- `claims_array_mut`: what is no array counts as an empty one.
abbrev pub claims_of : Value → List Value
claims_of state = elim (as_array state) [ none ↦ [] | some claims ↦ claims ]

abbrev pub has_issue : String → Value → Bool
has_issue issue c = holds c "issueId" issue

abbrev pub is_busy : String → Bool
is_busy status = status == "active" || status == "handoff_pending"

abbrev contention : String
contention = "claim-service lock contention"

abbrev write_failed : String
write_failed = "failed to write claim-service state"

pub new_entry : String → String → String → ℕ → Value
new_entry issue agent kind now = object (
    ("issueId", str issue)
    ∷ ("claimant", object (("id", str agent) ∷ ("type", str kind) ∷ []))
    ∷ ("status", str "active")
    ∷ (
      "history",
      array (
          object (("event", str "claimed") ∷ at now ∷ ("by", str agent) ∷ ("type", str kind) ∷ [])
          ∷ []),
    )
    ∷ [])

-- The test of `claim` on the first entry of the issue.
abbrev pub is_taken : Option Value → Bool
is_taken none = false
is_taken (some existing) = is_busy (text_or existing "status" "")

abbrev taken_error : String → Option Value → String
taken_error issue none = ""
taken_error issue (some existing) =
    format
      ("issue `" ∷ issue ∷ "` already claimed (status: " ∷ text_or existing "status" "" ∷ ")" ∷ [])

unfoldable pub claim : Env → String → String → String → Value → Outcome Value
unfolding new_entry
claim env issue agent kind state =
    let claims = claims_of state in
    let entry = new_entry issue agent kind env.now in
    let kept = retain (λ c. not (has_issue issue c)) claims in
    some (
      if not env.locked
      then (err contention, state)
      else if is_taken (find (has_issue issue) claims)
      then (err (taken_error issue (find (has_issue issue) claims)), state)
      else if not env.written
      then (err write_failed, state)
      else (ok entry, array (kept ++ entry ∷ [])))

-- The frame that the other operations share: take the lock, find the first entry of the issue,
-- edit it in place, and write the array back. An edit panics, refuses, or gives the new entry.
unfoldable pub with_entry :
    Env → String → (Value → Option (Result Value String)) → Value → Outcome (Unit {0})
with_entry env issue edit state =
    let claims = claims_of state in
    if not env.locked then some (err contention, state) else elim (find (has_issue issue) claims) [
      | none ↦ some (err (format ("issue `" ∷ issue ∷ "` not found" ∷ [])), state)
      | some entry ↦ elim (edit entry) [
        | none ↦ none
        | some (err e) ↦ some (err e, state)
        | some (ok entry') ↦ some (
            if env.written
            then (ok tt, array (replace_first (has_issue issue) entry' claims))
            else (err write_failed, state))
      ]
    ]

unfoldable pub release : Env → String → String → Value → Outcome (Unit {0})
unfolding with_entry
release env issue agent = with_entry env issue (release_edit issue agent env.now)

unfoldable pub handoff : Env → String → String → String → String → Value → Outcome (Unit {0})
unfolding with_entry
handoff env issue from to reason = with_entry env issue (handoff_edit issue from to reason env.now)

unfoldable pub accept_handoff : Env → String → String → Value → Outcome (Unit {0})
unfolding with_entry
accept_handoff env issue agent = with_entry env issue (accept_edit issue agent env.now)

unfoldable pub mark_stealable : Env → String → String → Value → Outcome (Unit {0})
unfolding with_entry
mark_stealable env issue reason = with_entry env issue (stealable_edit reason env.now)

unfoldable pub steal : Env → String → String → String → Value → Outcome (Unit {0})
unfolding with_entry
steal env issue agent kind = with_entry env issue (steal_edit issue agent kind env.now)

-- The test on an agent type: a claim with no list of preferred types suits every type.
abbrev prefers : Option String → Value → Bool
prefers none c = true
prefers (some kind) c = elim (as_array (index c "preferredTypes")) [
  | none ↦ true
  | some kinds ↦ any (λ k. elim (as_str k) [ none ↦ false | some t ↦ t == kind ]) kinds
]

unfoldable pub stealable : Option String → Value → List Value
stealable preferred state =
    let claims : List Value = elim (as_array (index state "claims")) [
      | none ↦ []
      | some claims ↦ claims
    ] in
    retain (prefers preferred) (retain (λ c. holds c "status" "stealable") claims)

unfoldable pub load_status : Value → List Value
load_status state = claims_of state
