-- ===== src/Examples/Flywheel.antt =====
-- The ledger of receipts, with a hash and a seal that keep their argument.
use ruflo_rust.Prelude.{
  String, ◌≡◌, ◌≢◌, refl, true, false, none, some, List, [], ◌∷◌, arith, format, string_eq, eq_iff,
  err, ok,
}
use ruflo_rust.Json.{Value, end, str, obj, object, index, as_str}
use ruflo_rust.Flywheel.{
  Files, Stamp, text_or, genesis, receipt, verify_ledger, read_champion, no_lines, torn, done,
}
use ruflo_rust.Flywheel.Recorded.{Event}
use ruflo_rust.Flywheel.Tampering.{seal_of, changed-verify_ledger}
use ruflo_rust.Flywheel.Promotion.{Attempt, new_champion, hash_of, promote, promote-promote}

abbrev digest : Value → String
digest v = text_or (as_str (index v "payload")) (text_or (as_str (index v "candidate")) "")

abbrev seal : String → String
seal s = s

abbrev stamp : Stamp
stamp = record {
  at = 5;
  nonce = 1;
  reread = λ v. some v;
  ledger_write = done;
  receipts_write = done;
}

abbrev no_files : Files
no_files = record {
  ledger = no_lines;
  receipts = no_lines;
  champion = none;
  proof = obj end;
  transactions = obj end;
}

abbrev events : List Event
events =
    record { stamp = stamp; event = "e"; payload = str "one" }
    ∷ record { stamp = record stamp { ledger_write = torn }; event = "e"; payload = str "two" }
    ∷ record { stamp = stamp; event = "e"; payload = str "three" }
    ∷ record { stamp = stamp; event = "e"; payload = str "four" }
    ∷ []

abbrev honest : Value
honest = receipt digest seal stamp "e" (str "one") genesis

abbrev forged : Value
forged = object (
    ("id", index honest "id")
    ∷ ("event", str "e")
    ∷ ("payload", str "two")
    ∷ ("prevHash", str genesis)
    ∷ ("bodyHash", str "two")
    ∷ ("signature", index honest "signature")
    ∷ ("at", index honest "at")
    ∷ [])

abbrev with_ledger : Value → Files
with_ledger e = record no_files { ledger = record { lines = some e ∷ []; is_open = false } }

honest_verifies : (verify_ledger digest seal (with_ledger honest)).1 ≡ true
unfolding verify_ledger receipt
honest_verifies = refl

seals_differ : seal_of digest seal genesis forged ≢ seal_of digest seal genesis honest
unfolding receipt
seals_differ p =
    let wrong : false ≡ true =
      (eq_iff (format (genesis ∷ "two" ∷ [])) (format (genesis ∷ "one" ∷ []))).1 p in
    ground (arith, wrong)

changed-verify_ledger_example : (verify_ledger digest seal (with_ledger forged)).1 ≡ false
changed-verify_ledger_example =
    changed-verify_ledger digest seal [] [] honest forged (with_ledger honest) (with_ledger forged)
      refl refl honest_verifies refl seals_differ

abbrev attempt : Attempt
attempt = record {
  body_ms = 5;
  champion_ms = 6;
  write_error = none;
  rename_error = none;
  stamp = stamp;
  proof_id = "proof-1";
  proof_ms = 7;
  proof_written = true;
  transaction_written = true;
}

hash_is_new : ◌≢◌ {A = String} "a" ""
hash_is_new p = let wrong : false ≡ true = (eq_iff "a" "").1 p in ground (arith, wrong)

promote-promote_example :
    let champion = new_champion digest seal attempt "a" (hash_of no_files) in
    (files' : Files) × (promote digest seal attempt "a" (hash_of no_files) no_files
      ≡ some (ok champion, files'))
    × (read_champion files' ≡ champion)
    × ((e : String) × (promote digest seal attempt "b" (hash_of no_files) files'
          ≡ some (err e, files')))
unfolding read_champion
promote-promote_example =
    promote-promote digest seal attempt attempt "a" "b" no_files end end refl refl refl refl
      hash_is_new
