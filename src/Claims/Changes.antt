-- ===== src/Claims/Changes.antt =====
-- crates/ruflo-cli/src/services/claim_service.rs: what each operation writes in the entry of a
-- claim, its history included. `none` is a panic.
use ruflo_rust.Prelude.{
  ℕ, String, Bool, not, Option, none, some, [], ◌∷◌, ◌++◌, Result, ok, err, format, string_eq,
  if◌then◌else◌,
}
use ruflo_rust.Json.{
  Value, null, str, arr, obj, num, pos_int, object, array, as_str, index, put_key, holds,
  remove_field, to_list,
}

-- `unwrap_or` for a member that is a string.
abbrev pub text_or : Value → String → String → String
text_or v key default = elim (as_str (index v key)) [ none ↦ default | some t ↦ t ]

abbrev pub at : ℕ → String × Value
at now = ("at", num (pos_int now))

-- The new value of the member `history`, where there is one to write.
abbrev pub history_with : Value → Value → Option Value
history_with event null = some (array (event ∷ []))
history_with event (arr events) = some (array (to_list events ++ event ∷ []))
history_with event _ = none

unfoldable pub push_history : Value → Value → Option Value
push_history entry event = elim (history_with event (index entry "history")) [
  | none ↦ some entry
  | some history ↦ put_key entry "history" history
]

-- Writes within one entry, each of which may panic.
infixl 5 ◌>>=◌
abbrev pub ◌>>=◌ : {A B : Type 0} → Option A → (A → Option B) → Option B
none >>= f = none
some a >>= f = f a

abbrev pub done : Value → Option (Result Value String)
done entry = some (ok entry)

abbrev pub refuse : String → Option (Result Value String)
refuse e = some (err e)

abbrev pub held_by : String → Value → Bool
held_by agent entry = holds (index entry "claimant") "id" agent

unfoldable pub release_edit : String → String → ℕ → Value → Option (Result Value String)
unfolding push_history
release_edit issue agent now entry =
    if not (held_by agent entry)
    then refuse (format ("issue `" ∷ issue ∷ "` not claimed by `" ∷ agent ∷ "`" ∷ []))
    else do
      released ← put_key entry "status" (str "released")
      logged ←
          push_history released
            (object (("event", str "released") ∷ at now ∷ ("by", str agent) ∷ []))
      done logged

unfoldable pub handoff_edit :
    String → String → String → String → ℕ → Value → Option (Result Value String)
unfolding push_history
handoff_edit issue from to reason now entry =
    if not (held_by from entry)
    then refuse (format ("issue `" ∷ issue ∷ "` not claimed by `" ∷ from ∷ "`" ∷ []))
    else do
      marked ← put_key entry "status" (str "handoff_pending")
      aimed ← put_key marked "pendingHandoffTo" (str to)
      logged ← push_history aimed (
          object (
            ("event", str "handoff_requested")
            ∷ at now
            ∷ ("from", str from)
            ∷ ("to", str to)
            ∷ ("reason", str reason)
            ∷ []))
      done logged

-- `entry.as_object_mut()` and `remove`.
abbrev pub without_key : Value → String → Value
without_key (obj fs) key = obj (remove_field key fs)
without_key v key = v

unfoldable pub accept_edit : String → String → ℕ → Value → Option (Result Value String)
unfolding push_history
accept_edit issue agent now entry =
    let old = text_or (index entry "claimant") "id" "" in
    let kind = index (index entry "claimant") "type" in
    if not (holds entry "status" "handoff_pending")
    then refuse (format ("issue `" ∷ issue ∷ "` is not pending handoff" ∷ []))
    else if not (holds entry "pendingHandoffTo" agent)
    then refuse (format ("issue `" ∷ issue ∷ "` handoff is not intended for `" ∷ agent ∷ "`" ∷ []))
    else do
      moved ← put_key entry "claimant" (object (("id", str agent) ∷ ("type", kind) ∷ []))
      active ← put_key moved "status" (str "active")
      logged ← push_history (without_key active "pendingHandoffTo") (
          object (
            ("event", str "handoff_accepted")
            ∷ at now
            ∷ ("from", str old)
            ∷ ("to", str agent)
            ∷ []))
      done logged

unfoldable pub stealable_edit : String → ℕ → Value → Option (Result Value String)
unfolding push_history
stealable_edit reason now entry = do
  marked ← put_key entry "status" (str "stealable")
  logged ←
      push_history marked
        (object (("event", str "marked_stealable") ∷ at now ∷ ("reason", str reason) ∷ []))
  done logged

unfoldable pub steal_edit : String → String → String → ℕ → Value → Option (Result Value String)
unfolding push_history
steal_edit issue agent kind now entry =
    let old = text_or (index entry "claimant") "id" "" in
    if not (holds entry "status" "stealable")
    then refuse (
        format (
          "issue `"
          ∷ issue
          ∷ "` is not stealable (status: "
          ∷ text_or entry "status" "?"
          ∷ ")"
          ∷ []))
    else do
      moved ← put_key entry "claimant" (object (("id", str agent) ∷ ("type", str kind) ∷ []))
      stolen ← put_key moved "status" (str "stolen")
      logged ←
          push_history stolen
            (object (("event", str "stolen") ∷ at now ∷ ("from", str old) ∷ ("by", str agent) ∷ []))
      done logged
