-- ===== src/Flywheel/Chain.antt =====
-- Every history of receipts verifies.
use ruflo_rust.Prelude.{
  String, ◌≡◌, refl, true, ◌&&◌, Option, some, List, [], ◌∷◌, ◌++◌, arith, format, string_eq,
  beq_self,
}
use ruflo_rust.Json.{pos_int, num, Value, str, index, as_str}
use ruflo_rust.Flywheel.{
  ended_lines, Log, hash_of_last, receipt_id, body_json, Files, Stamp, values, genesis, text_or,
  last, receipt, append_receipt, verify_entry, verify_from,
}
use ruflo_rust.Flywheel.Recorded.{Event}

-- The hash that the next entry has to name, after the given entries.
abbrev pub head_after : String → List Value → String
head_after prev [] = prev
head_after prev (e ∷ es) = head_after (text_or (as_str (index e "hash")) prev) es

pub head_after-append :
    (prev : String) (es fs : List Value)
    → head_after prev (es ++ fs) ≡ head_after (head_after prev es) fs
head_after-append prev [] fs = refl
head_after-append prev (e ∷ es) fs =
    head_after-append (text_or (as_str (index e "hash")) prev) es fs

module _ (digest : Value → String) (seal : String → String) where
  pub verify_from-append :
      (prev : String) (es fs : List Value)
      → verify_from digest seal prev (es ++ fs)
        ≡ (verify_from digest seal prev es && verify_from digest seal (head_after prev es) fs)
  unfolding verify_from
  verify_from-append prev [] fs = refl
  verify_from-append prev (e ∷ es) fs =
      ground (arith, verify_from-append (text_or (as_str (index e "hash")) prev) es fs)

  pub receipt-verify_entry :
      (stamp : Stamp) (event : String) (payload : Value) (prev : String)
      → verify_entry digest seal prev (receipt digest seal stamp event payload prev) ≡ true
  unfolding verify_entry receipt
  receipt-verify_entry stamp event payload prev =
      let body =
        body_json (str (receipt_id stamp)) (str event) payload (str prev)
          (num (pos_int stamp.at)) in
      rw (beq_self prev, beq_self (digest body), beq_self (seal (format (prev ∷ digest body ∷ []))))
        refl

  -- What `append_receipt` keeps: the chain verifies, and its last hash is the one that
  -- `chain_head` reads.
  abbrev IsChained : List (Option Value) → Type 0
  IsChained ls =
      (verify_from digest seal genesis (values ls) ≡ true)
      × (head_after genesis (values ls) ≡ hash_of_last (last (values ls)))

  -- The same of the lines that have an end, where the last one has none.
  abbrev LogIsChained : Log → Type 0
  LogIsChained log = IsChained log.lines × (log.is_open ≡ true → IsChained (ended_lines log.lines))

  pub append_all : List Event → Files → Files
  unfolding append_receipt
  append_all [] files = files
  append_all (e ∷ es) files =
      append_all es ((append_receipt digest seal e.stamp e.event e.payload files).1)

  -- serde_json reads the entry of an event back as it was written, whatever entry it follows.
  abbrev pub KeepsEntry : Event → Type 0
  KeepsEntry e =
      (prev : String)
      → e.stamp.reread (receipt digest seal e.stamp e.event e.payload prev)
        ≡ some (receipt digest seal e.stamp e.event e.payload prev)
