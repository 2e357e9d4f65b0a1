-- ===== src/Mcp/Arguments.antt =====
-- How a handler reads the arguments of a call.
use ruflo_rust.Prelude.{
  ℕ, String, Bool, true, false, Option, none, some, List, [], ◌∷◌, Result, ok, err, ◌>>=◌, format,
  is_blank, leb, all, if◌then◌else◌,
}
use ruflo_rust.Json.{Value, bool, num, str, arr, pos_int, get_key, as_str, as_u64, to_list}
use ruflo_rust.Types.{RufloError, invalid_input, upstream_adapter}

abbrev pub bad : List String → RufloError
bad pieces = invalid_input "tool.invalid_arguments" (format pieces)

unfoldable pub optional_string : Value → String → Result (Option String) RufloError
optional_string arguments field = elim (get_key arguments field) [
  | none ↦ ok none
  | some (str value) ↦ ok (some value)
  | some _ ↦ err (bad ("field `" ∷ field ∷ "` must be a string" ∷ []))
]

unfoldable pub required_string : Value → String → Result String RufloError
unfolding optional_string
required_string arguments field = optional_string arguments field >>= λ o. elim o [
  | some value ↦ ok value
  | none ↦ err (bad ("missing required string field `" ∷ field ∷ "`" ∷ []))
]

unfoldable pub optional_bool : Value → String → Result (Option Bool) RufloError
optional_bool arguments field = elim (get_key arguments field) [
  | none ↦ ok none
  | some (bool value) ↦ ok (some value)
  | some _ ↦ err (bad ("field `" ∷ field ∷ "` must be a boolean" ∷ []))
]

-- `usize` has 64 bits.
unfoldable pub optional_usize : Value → String → Result (Option ℕ) RufloError
optional_usize arguments field =
    let wrong = err (bad ("field `" ∷ field ∷ "` must be an unsigned integer" ∷ [])) in
    elim (get_key arguments field) [
      | none ↦ ok none
      | some (num (pos_int n)) ↦ ok (some n)
      | some _ ↦ wrong
    ]

is_string : Value → Bool
is_string v = elim (as_str v) [ none ↦ false | some _ ↦ true ]

module _ (to_string : Value → Result String String) where
  -- `serde_json::to_string` on a list of tags.
  unfoldable pub optional_tags : Value → Result (Option String) RufloError
  unfolding is_string
  optional_tags arguments = elim (get_key arguments "tags") [
    | none ↦ ok none
    | some (arr tags) ↦
        if all is_string (to_list tags)
        then elim (to_string (arr tags)) [
          | ok text ↦ ok (some text)
          | err e ↦ err (upstream_adapter (format ("memory.tags: " ∷ e ∷ [])))
        ]
        else err (bad ("field `tags` must contain only strings" ∷ []))
    | some _ ↦ err (bad ("field `tags` must be an array" ∷ []))
  ]

  unfoldable pub required_value_content : Value → String → Result String RufloError
  required_value_content arguments field = elim (get_key arguments field) [
    | none ↦ err (bad ("missing required field `" ∷ field ∷ "`" ∷ []))
    | some (str value) ↦
        if is_blank value
        then err (bad ("field `" ∷ field ∷ "` must not be empty" ∷ []))
        else ok value
    | some value ↦ elim (to_string value) [
      | ok text ↦ ok text
      | err e ↦ err (upstream_adapter (format ("memory.value: " ∷ e ∷ [])))
    ]
  ]

-- The number of milliseconds that the call sleeps, at most five seconds.
unfoldable pub maybe_sleep : Value → Result ℕ RufloError
maybe_sleep arguments = elim (get_key arguments "sleep_ms") [
  | none ↦ ok 0
  | some raw ↦ elim (as_u64 raw) [
    | none ↦ err (bad ("field `sleep_ms` must be an unsigned integer" ∷ []))
    | some ms ↦ ok (if leb ms 5000 then ms else 5000)
  ]
]
