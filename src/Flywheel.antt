-- ===== src/Flywheel.antt =====
-- crates/ruflo-cli/src/flywheel_ledger.rs: the ledger of receipts and the champion. A file of JSON
-- lines is a list with `none` for a line that does not parse; what serde_json reads from a line
-- that it wrote is supplied with the receipt. The hash of a value's text and the seal (HMAC) of a
-- text are arguments: sha2 is not under this repository.
pub mod Recorded
pub mod Chain
pub mod Tampering
pub mod Promotion
use ruflo_rust.Prelude.{
  ℕ, zero, suc, String, Bool, true, false, not, ◌&&◌, Option, none, some, List, [], ◌∷◌, ◌++◌,
  Result, ok, err, format, decimal, if◌then◌else◌, leb, string_eq, ◌==◌,
}
use ruflo_rust.Json.{
  Value, null, bool, str, num, float, pos_int, object, array, as_str, index, put_key, holds,
}
use ruflo_rust.Services.{after_write, push_to}

-- The lines of a file that parse.
abbrev pub values : List (Option Value) → List Value
values [] = []
values (none ∷ ls) = values ls
values (some v ∷ ls) = v ∷ values ls

abbrev pub genesis : String
genesis = "0000000000000000000000000000000000000000000000000000000000000000"

abbrev pub text_or : Option String → String → String
text_or none default = default
text_or (some t) default = t

abbrev pub last : List Value → Option Value
last [] = none
last (v ∷ []) = some v
last (v ∷ w ∷ vs) = last (w ∷ vs)

abbrev pub hash_of_last : Option Value → String
hash_of_last none = genesis
hash_of_last (some v) = text_or (as_str (index v "hash")) genesis

-- A ledger that is missing or that has no entry starts from the zeros.
unfoldable pub chain_head : List (Option Value) → String
chain_head ls = hash_of_last (last (values ls))

-- How far an append comes: the file is not opened or nothing is written; the write stops inside the
-- text of the entry, between two characters; it stops before the end of the line; or it succeeds.
pub data Write : Type 0 where
  unopened torn unended done : Write

-- What the environment supplies to one receipt: the clock, the counter, what serde_json reads from
-- the line of a value (a float may come back as another one), and the fate of the two appends.
pub record Stamp : Type 0 where
  pub at : ℕ
  pub nonce : ℕ
  pub reread : Value → Option Value
  pub ledger_write : Write
  pub receipts_write : Write

-- The lines of a file, and whether the last one has no end yet.
pub record Log : Type 0 where
  pub lines : List (Option Value)
  pub is_open : Bool

abbrev pub no_lines : Log
no_lines = record { lines = []; is_open = false }

pub record Files : Type 0 where
  pub ledger : Log
  pub receipts : Log
  pub champion : Option Value  -- `none` where the file is missing or does not parse
  pub proof : Value
  pub transactions : Value

-- The lines that have an end, where the last one has none.
abbrev pub ended_lines : List (Option Value) → List (Option Value)
ended_lines [] = []
ended_lines (l ∷ []) = []
ended_lines (l ∷ m ∷ ls) = l ∷ ended_lines (m ∷ ls)

-- The append of a line that reads as `l`. On a line without an end the text goes on, and what is
-- on that line is then no JSON: two entries, or parts of them, on one line never are.
abbrev pub appended : Write → Option Value → Log → Log
appended unopened l log = log
appended torn l log = record {
  lines = (if log.is_open then ended_lines log.lines else log.lines) ++ none ∷ [];
  is_open = true;
}
appended unended l log = record {
  lines = if log.is_open then ended_lines log.lines ++ none ∷ [] else log.lines ++ l ∷ [];
  is_open = true;
}
appended done l log = record {
  lines = if log.is_open then ended_lines log.lines ++ none ∷ [] else log.lines ++ l ∷ [];
  is_open = false;
}

-- The part of an entry that its hash commits to.
abbrev pub body_json : Value → Value → Value → Value → Value → Value
body_json id event payload prev at =
    object
      (("id", id) ∷ ("event", event) ∷ ("payload", payload) ∷ ("prevHash", prev) ∷ ("at", at) ∷ [])

abbrev pub receipt_id : Stamp → String
receipt_id stamp = format ("rcpt-" ∷ decimal stamp.at ∷ "-" ∷ decimal stamp.nonce ∷ [])

-- The body as `verify_ledger` takes it from an entry.
abbrev pub body_of : Value → Value
body_of e =
    body_json (index e "id") (index e "event") (index e "payload") (index e "prevHash")
      (index e "at")

abbrev pub message : String → Value → String
message prev e = format (prev ∷ text_or (as_str (index e "bodyHash")) "" ∷ [])

module _ (digest : Value → String) (seal : String → String) where
  -- The entry that follows the hash `prev`.
  unfoldable pub receipt : Stamp → String → Value → String → Value
  receipt stamp event payload prev =
      let body_hash = digest (
        body_json (str (receipt_id stamp)) (str event) payload (str prev)
          (num (pos_int stamp.at))) in
      object (
        ("id", str (receipt_id stamp))
        ∷ ("event", str event)
        ∷ ("payload", payload)
        ∷ ("prevHash", str prev)
        ∷ ("bodyHash", str body_hash)
        ∷ ("signature", str (seal (format (prev ∷ body_hash ∷ []))))
        ∷ ("at", num (pos_int stamp.at))
        ∷ ("hash", str body_hash)
        ∷ [])

  unfoldable pub append_receipt : Stamp → String → Value → Files → Value × Files
  unfolding chain_head receipt
  append_receipt stamp event payload files =
      let entry = receipt stamp event payload (chain_head files.ledger.lines) in
      (
        entry,
        record files {
          ledger = appended stamp.ledger_write (stamp.reread entry) files.ledger;
          receipts = appended stamp.receipts_write (stamp.reread entry) files.receipts;
        },
      )

  -- The three tests of the loop's body.
  unfoldable pub verify_entry : String → Value → Bool
  verify_entry prev e =
      holds e "prevHash" prev
      && holds e "bodyHash" (digest (body_of e))
      && holds e "signature" (seal (message prev e))

  unfoldable pub verify_from : String → List Value → Bool
  unfolding verify_entry
  verify_from prev [] = true
  verify_from prev (e ∷ es) =
      let rest = verify_from (text_or (as_str (index e "hash")) prev) es in
      if verify_entry prev e then rest else false

  unfoldable pub verify_ledger : Files → List Value × Bool
  unfolding verify_from
  verify_ledger files = (values files.ledger.lines, verify_from genesis (values files.ledger.lines))

unfoldable pub read_champion : Files → Value
read_champion files = elim files.champion [
  | none ↦ object (("candidate", null) ∷ ("hash", str "") ∷ [])
  | some v ↦ v
]

abbrev pub take : ℕ → List Value → List Value
take zero vs = []
take (suc n) [] = []
take (suc n) (v ∷ vs) = v ∷ take n vs

abbrev pub reverse : List Value → List Value
reverse [] = []
reverse (v ∷ vs) = reverse vs ++ v ∷ []

-- The latest receipts first; a limit of 0 counts as 1.
unfoldable pub list_receipts : ℕ → Files → List Value
list_receipts limit files =
    take (if leb 1 limit then limit else 1) (reverse (values files.receipts.lines))
