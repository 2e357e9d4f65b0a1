-- ===== src/Flywheel/Tampering.antt =====
-- A changed entry does not verify under its old signature.
use mathlib.Core.Option.{some-injective}
use ruflo_rust.Prelude.{
  if◌then◌else◌, ap, ◌∙◌, sym, String, ◌≡◌, ◌≢◌, refl, Bool, true, false, ◌&&◌, Option, none, some,
  List, [], ◌∷◌, ◌++◌, arith, format, string_eq, eq_iff, Bool-cases, inl, inr,
}
use ruflo_rust.Json.{Value, index, as_str, holds, is_text}
use ruflo_rust.Flywheel.{
  Files, values, genesis, text_or, body_of, message, verify_entry, verify_from, verify_ledger,
}
use ruflo_rust.Flywheel.Chain.{head_after, verify_from-append}

is_text-some : (o : Option String) (s : String) → is_text o s ≡ true → o ≡ some s
is_text-some none s h = cc
is_text-some (some t) s h = ground (arith, eq_iff t s)

cases_of : (a b c : Bool) → (a && (if b then c else false)) ≡ true → b ≡ true
cases_of a b c h = ground arith

and_false : (a : Bool) → (a && false) ≡ false
and_false a = ground arith

module _ (digest : Value → String) (seal : String → String) where
  -- The signature that the contents of an entry ask for.
  abbrev pub seal_of : String → Value → String
  seal_of prev e = seal (format (prev ∷ digest (body_of e) ∷ []))

  verify_entry-signature :
      (prev : String) (e : Value)
      → verify_entry digest seal prev e ≡ true
      → as_str (index e "signature") ≡ some (seal_of prev e)
  unfolding verify_entry
  verify_entry-signature prev e h =
      let hash =
        is_text-some (as_str (index e "bodyHash")) (digest (body_of e))
          (ground (arith, Bool-cases (holds e "bodyHash" (digest (body_of e))))) in
      let signed =
        is_text-some (as_str (index e "signature")) (seal (message prev e))
          (ground (arith, Bool-cases (holds e "signature" (seal (message prev e))))) in
      rw signed (rw hash refl)

  changed-verify_entry :
      (prev : String) (e e' : Value)
      → verify_entry digest seal prev e ≡ true
      → index e' "signature" ≡ index e "signature"
      → seal_of prev e' ≢ seal_of prev e
      → verify_entry digest seal prev e' ≡ false
  changed-verify_entry prev e e' h same differ =
      elim (Bool-cases (verify_entry digest seal prev e')) [
        | inr f ↦ f
        | inl t ↦
            let old = verify_entry-signature prev e h in
            let new = verify_entry-signature prev e' t in
            absurd (
              differ (
                some-injective (seal_of prev e') (seal_of prev e) (sym new ∙ ap as_str same ∙ old)))
      ]

  -- If the ledger verifies and one entry is replaced by one with the same signature, then the
  -- ledger no longer verifies, unless the seals of the two contents are equal, whatever else the
  -- new entry has.
  pub changed-verify_ledger :
      (before after : List Value) (e e' : Value) (files files' : Files)
      → values files.ledger.lines ≡ before ++ e ∷ after
      → values files'.ledger.lines ≡ before ++ e' ∷ after
      → (verify_ledger digest seal files).1 ≡ true
      → index e' "signature" ≡ index e "signature"
      → seal_of (head_after genesis before) e' ≢ seal_of (head_after genesis before) e
      → (verify_ledger digest seal files').1 ≡ false
  unfolding verify_ledger
  changed-verify_ledger before after e e' files files' at at' valid same differ =
      let prev = head_after genesis before in
      let split = verify_from-append digest seal genesis before (e ∷ after) in
      let entry : verify_entry digest seal prev e ≡ true =
        cases_of (verify_from digest seal genesis before) (verify_entry digest seal prev e)
          (verify_from digest seal (text_or (as_str (index e "hash")) prev) after)
          (sym split ∙ sym (ap (verify_from digest seal genesis) at) ∙ valid) in
      rw (at', verify_from-append digest seal genesis before (e' ∷ after))
        (rw (changed-verify_entry prev e e' entry same differ)
          (and_false (verify_from digest seal genesis before)))
