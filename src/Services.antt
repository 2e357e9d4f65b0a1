-- ===== src/Services.antt =====
-- crates/ruflo-cli/src/services: the smaller services that keep a JSON state file each. As for the
-- claims, a state file is a value, the outcome `none` is a panic, and a write that fails leaves
-- the file as it was.
pub mod Lease
pub mod Pool
pub mod Queue
use ruflo_rust.Prelude.{
  refl, inr, inl, Option-cases, ◌≡◌, String, Bool, Option, none, some, List, [], ◌∷◌, ◌++◌,
  if◌then◌else◌,
}
use ruflo_rust.Json.{put_field, obj, Fields, Value, array, as_array, index, put_key}

-- The file after `write_state`, whose outcome these services ignore.
abbrev pub after_write : Bool → Value → Value → Value
after_write wrote new old = if wrote then new else old

-- `ensure_arr` on a member: the array that is there or, after a write of one, the empty array.
abbrev pub ensured : String → Value → Option (Value × List Value)
ensured key state = elim (as_array (index state key)) [
  | some q ↦ some (state, q)
  | none ↦ elim (put_key state key (array [])) [ none ↦ none | some s ↦ some (s, []) ]
]

-- `ensure_arr(&mut state, key).push(entry)`
unfoldable pub push_to : String → Value → Value → Option Value
push_to key entry state = elim (ensured key state) [
  | none ↦ none
  | some (s, q) ↦ put_key s key (array (q ++ entry ∷ []))
]

pub push_to-obj :
    (key : String) (entry : Value) (fs : Fields)
    → (gs : Fields) × (push_to key entry (obj fs) ≡ some (obj gs))
unfolding push_to
push_to-obj key entry fs = elim (Option-cases (as_array (index (obj fs) key))) [
  | inl e ↦ (
    put_field key (array (entry ∷ [])) (put_field key (array []) fs),
    rw (e, push_to, ensured) refl,
  )
  | inr (q, e) ↦ (put_field key (array (q ++ entry ∷ [])) fs, rw (e, push_to, ensured) refl)
]
