-- ===== src/Hive.antt =====
-- crates/ruflo-cli/src/hive_mind.rs: the proposals of a hive and the votes on them, in the JSON
-- state of the hive. A command gives an exit code and the state file it leaves; `none` is a panic.
-- What it prints is not modelled.
pub mod Votes
use ruflo_rust.Prelude.{
  ℕ, ◌+◌, ◌*◌, String, Bool, true, false, not, ◌||◌, Option, none, some, List, [], ◌∷◌, ◌++◌,
  length, count, find, retain, replace_first, format, decimal, ltb, leb, string_eq, ◌==◌,
  if◌then◌else◌,
}
use ruflo_rust.Json.{
  Value, null, str, num, arr, obj, pos_int, object, array, as_str, as_array, index, put_key, holds,
}

abbrev pub entries_of : Value → String → List Value
entries_of v key = elim (as_array (index v key)) [ none ↦ [] | some vs ↦ vs ]

abbrev pub text_or : Value → String → String → String
text_or v key default = elim (as_str (index v key)) [ none ↦ default | some t ↦ t ]

abbrev or_else : Option String → String → String
or_else none d = d
or_else (some s) d = s

pub record HiveCommand : Type 0 where
  pub value : Option String
  pub strategy : Option String
  pub voter_id : Option String
  pub proposal_id : Option String
  pub vote : Option String

-- The write of the state, which may fail, decides the exit code and what the file holds.
abbrev written : Bool → Value → Value → ℕ × Value
written wrote hive hive' = if wrote then (0, hive') else (1, hive)

unfoldable pub propose : ℕ → ℕ → Bool → HiveCommand → Value → Option (ℕ × Value)
propose name_ms now wrote command hive = elim command.value [
  | none ↦ some (1, hive)
  | some value ↦
      elim (put_key hive "proposals" (
        array (
          entries_of hive "proposals"
          ++ object (
              ("id", str (format ("prop-" ∷ decimal name_ms ∷ [])))
              ∷ ("value", str value)
              ∷ ("status", str "open")
              ∷ ("strategy", str (or_else command.strategy (text_or hive "consensus" "raft")))
              ∷ ("proposer", str (or_else command.voter_id (text_or hive "queenId" "queen")))
              ∷ ("votes", array [])
              ∷ ("createdAt", num (pos_int now))
              ∷ [])
            ∷ []))) [ none ↦ none | some hive' ↦ some (written wrote hive hive') ]
]

abbrev pub is_accepted : String → ℕ → ℕ → Bool
is_accepted strategy accepts members =
    if strategy == "quorum" || strategy == "raft"
    then ltb members (accepts * 2)
    else if strategy == "byzantine"
    then leb (members * 2) (accepts * 3)
    else ltb members (accepts * 2)

abbrev pub is_rejected : String → ℕ → ℕ → Bool
is_rejected strategy rejects members =
    if strategy == "byzantine" then leb members (rejects * 3) else leb members (rejects * 2)

-- The status that the votes decide, if they do.
unfoldable pub decide : String → ℕ → ℕ → ℕ → Option String
decide strategy accepts rejects members =
    if is_accepted strategy accepts members
    then some "accepted"
    else if is_rejected strategy rejects members
    then some "rejected"
    else none

unfoldable pub votes_with : String → String → Value → List Value
votes_with voter vote p =
    retain (λ v. not (holds v "voter" voter)) (entries_of p "votes")
    ++ object (("voter", str voter) ∷ ("vote", str vote) ∷ []) ∷ []

-- The body of the loop, on the proposal that was found.
unfoldable pub cast_vote : String → String → ℕ → Value → Option Value
unfolding votes_with decide
cast_vote voter vote members p =
    let votes = votes_with voter vote p in
    elim (put_key p "votes" (array votes)) [
      | none ↦ none
      | some p' ↦
          elim (decide (text_or p' "strategy" "raft") (count (λ v. holds v "vote" "accept") votes)
            (count (λ v. holds v "vote" "reject") votes) members) [
              | none ↦ some p'
              | some status ↦ put_key p' "status" (str status)
            ]
    ]

-- The vote that a word names; `lower` is `str::to_lowercase`.
unfoldable pub read_vote : (String → String) → String → Option String
read_vote lower raw =
    if lower raw == "accept" || lower raw == "yes"
    then some "accept"
    else if lower raw == "reject" || lower raw == "no"
    then some "reject"
    else none

abbrev pub has_id : String → Value → Bool
has_id id p = holds p "id" id

-- `hive["proposals"].as_array_mut()` panics where the hive is neither an object nor null.
unfoldable pub vote : (String → String) → Bool → HiveCommand → Value → Option (ℕ × Value)
unfolding read_vote cast_vote
vote lower wrote command hive = elim command.proposal_id [
  | none ↦ some (1, hive)
  | some id ↦ elim command.vote [
    | none ↦ some (1, hive)
    | some raw ↦ elim (read_vote lower raw) [
      | none ↦ some (1, hive)
      | some choice ↦ elim (put_key hive "proposals" null) [
        | none ↦ none
        | some _ ↦ elim (find (has_id id) (entries_of hive "proposals")) [
          | none ↦ some (1, hive)
          | some p ↦
              elim (cast_vote (or_else command.voter_id "voter") choice
                (length (entries_of hive "workers") + 1) p) [
                  | none ↦ none
                  | some p' ↦
                      elim (put_key hive "proposals"
                        (array (replace_first (has_id id) p' (entries_of hive "proposals")))) [
                          | none ↦ none
                          | some hive' ↦ some (written wrote hive hive')
                        ]
                ]
        ]
      ]
    ]
  ]
]
