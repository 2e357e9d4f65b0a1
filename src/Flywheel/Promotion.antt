-- ===== src/Flywheel/Promotion.antt =====
-- The promotion of a champion: compare with the champion that is expected, and swap.
use ruflo_rust.Prelude.{
  sym, subst, inr, inl, Bool-cases, ℕ, String, ◌≡◌, ◌≢◌, refl, Bool, true, not, Option, none, some,
  [], ◌∷◌, Result, ok, err, format, if◌then◌else◌, string_eq, eq_iff, ◌==◌, beq_self,
}
use ruflo_rust.Json.{obj, Fields, Value, bool, str, num, float, pos_int, object, index, as_str}
use ruflo_rust.Services.{push_to-obj, after_write, push_to}
use ruflo_rust.Flywheel.{Files, Stamp, text_or, append_receipt, read_champion}

-- What the environment supplies to one promotion: the clock at its two readings, the errors of the
-- two steps of the write of the champion, the stamp of the receipt, and for the proof its
-- identifier, its time and whether it is written.
pub record Attempt : Type 0 where
  pub body_ms : ℕ
  pub champion_ms : ℕ
  pub write_error : Option String
  pub rename_error : Option String
  pub stamp : Stamp
  pub proof_id : String
  pub proof_ms : ℕ
  pub proof_written : Bool
  pub transaction_written : Bool

-- `evolve_proof_v2::accept(candidate, 1.0, 0.5)`; `none` is a panic.
abbrev proof_of : Attempt → String → Value
proof_of a candidate = object (
    ("champion", str candidate)
    ∷ ("score", num (float "1.0"))
    ∷ ("threshold", num (float "0.5"))
    ∷ ("accepted", bool true)
    ∷ ("version", str a.proof_id)
    ∷ ("at", num (pos_int a.proof_ms))
    ∷ [])

abbrev accept : Attempt → String → Value → Option Value
accept a candidate state = elim (push_to "receipts" (proof_of a candidate) state) [
  | none ↦ none
  | some s ↦ some (after_write a.proof_written s state)
]

abbrev pub hash_of : Files → String
hash_of files = text_or (as_str (index (read_champion files) "hash")) ""

read_champion-some : (c : Value) (files : Files) → files.champion ≡ some c → read_champion files ≡ c
unfolding read_champion
read_champion-some c files h = rw h refl

module _ (digest : Value → String) (seal : String → String) where
  abbrev pub new_hash : Attempt → String → String → String
  new_hash a candidate current = digest (
      object (
        ("candidate", str candidate)
        ∷ ("promotedFrom", str current)
        ∷ ("at", num (pos_int a.body_ms))
        ∷ []))

  abbrev pub new_champion : Attempt → String → String → Value
  new_champion a candidate current = object (
      ("candidate", str candidate)
      ∷ ("hash", str (new_hash a candidate current))
      ∷ ("promotedFrom", str current)
      ∷ ("at", num (pos_int a.champion_ms))
      ∷ [])

  -- The files after the champion is in place: the receipt, the proof and the transaction.
  unfoldable pub record_promotion : Attempt → String → Value → Files → Option Files
  record_promotion a candidate champion files =
      let files' = (append_receipt digest seal a.stamp "promote" champion files).1 in
      elim (accept a candidate files'.proof) [
        | none ↦ none
        | some proof ↦ elim (push_to "transactions" champion files'.transactions) [
          | none ↦ none
          | some t ↦ some (record files' {
            proof = proof;
            transactions = after_write a.transaction_written t files'.transactions;
          })
        ]
      ]

  unfoldable pub promote : Attempt → String → String → Files → Option (Result Value String × Files)
  unfolding record_promotion
  promote a candidate expected files =
      let current = hash_of files in
      let champion = new_champion a candidate current in
      if not (current == expected)
      then some (
        err (
            format (
              "CAS mismatch: expected champion hash " ∷ expected ∷ " but current is " ∷ current
              ∷ [])),
        files,
      )
      else elim a.write_error [
        | some e ↦ some (err e, files)
        | none ↦ elim a.rename_error [
          | some e ↦ some (err e, files)
          | none ↦
              elim (record_promotion a candidate champion
                (record files { champion = some champion })) [
                  | none ↦ none
                  | some files' ↦ some (ok champion, files')
                ]
        ]
      ]

  -- On state files that hold objects nothing panics.
  record_promotion_lem :
      (a : Attempt) (candidate : String) (champion : Value) (files : Files) (ps ts : Fields)
      → files.proof ≡ obj ps
      → files.transactions ≡ obj ts
      → (files' : Files) × (record_promotion a candidate champion files ≡ some files')
        × (files'.champion ≡ files.champion)
  unfolding record_promotion append_receipt push_to
  record_promotion_lem a candidate champion files ps ts p t =
      let (gs, e) = push_to-obj "receipts" (proof_of a candidate) ps in
      let (hs, f) = push_to-obj "transactions" champion ts in
      let e' : push_to "receipts" (proof_of a candidate) files.proof ≡ some (obj gs) = rw p e in
      let f' : push_to "transactions" champion files.transactions ≡ some (obj hs) = rw t f in
      (
        record (append_receipt digest seal a.stamp "promote" champion files).1 {
          proof = after_write a.proof_written (obj gs) files.proof;
          transactions = after_write a.transaction_written (obj hs) files.transactions;
        },
        rw (e') (rw f' refl),
        refl,
      )

  promote-mismatch :
      (a : Attempt) (candidate expected : String) (files : Files)
      → hash_of files ≢ expected
      → (e : String) × (promote a candidate expected files ≡ some (err e, files))
  unfolding promote
  promote-mismatch a candidate expected files differ =
      elim (Bool-cases (hash_of files == expected)) [
        | inl same ↦ absurd (differ ((eq_iff (hash_of files) expected).0 same))
        | inr other ↦ (
          format (
              "CAS mismatch: expected champion hash "
              ∷ expected
              ∷ " but current is "
              ∷ hash_of files
              ∷ []),
          rw other refl,
        )
      ]

  promote-match :
      (a : Attempt) (candidate : String) (files files' : Files)
      → a.write_error ≡ none
      → a.rename_error ≡ none
      → let champion = new_champion a candidate (hash_of files) in
        record_promotion a candidate champion (record files { champion = some champion })
          ≡ some files'
        → promote a candidate (hash_of files) files ≡ some (ok champion, files')
  unfolding promote
  promote-match a candidate files files' w r e = rw (beq_self (hash_of files)) (simp (w, r, e) refl)

  -- Where the state files hold objects and the champion can be written, a promotion that expects
  -- the hash of the champion succeeds and puts the new champion in its place; a second promotion
  -- that expects the same hash then is refused and changes no file, unless the hash of the new
  -- champion is the old one.
  pub promote-promote :
      (a b : Attempt) (first second : String) (files : Files) (ps ts : Fields)
      → files.proof ≡ obj ps
      → files.transactions ≡ obj ts
      → a.write_error ≡ none
      → a.rename_error ≡ none
      → new_hash a first (hash_of files) ≢ hash_of files
      → let champion = new_champion a first (hash_of files) in
        (files' : Files) × (promote a first (hash_of files) files ≡ some (ok champion, files'))
        × (read_champion files' ≡ champion)
        × ((e : String) × (promote b second (hash_of files) files' ≡ some (err e, files')))
  promote-promote a b first second files ps ts p t w r differ =
      let champion = new_champion a first (hash_of files) in
      let (files', e, same) =
        record_promotion_lem a first champion (record files { champion = some champion }) ps ts p
          t in
      (
        files',
        promote-match a first files files' w r e,
        read_champion-some champion files' same,
        promote-mismatch b second (hash_of files) files' (
            subst (λ c. text_or (as_str (index c "hash")) "" ≢ hash_of files)
              (sym (read_champion-some champion files' same)) differ),
      )
