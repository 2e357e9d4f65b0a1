-- ===== src/Claims/Entries.antt =====
-- The frame `with_entry` that five of the operations share, seen through `view`.
use ruflo_rust.Prelude.{
  sym, ap, ◌∙◌, subst, String, Result, ok, err, ◌==◌, string_eq, find, Bool-cases, inl, inr, ◌&&◌,
  format, replace_first, find-some, find-replace_first, find-replace_first_ne, ◌≡◌, refl, true,
  false, Option, none, some, List, [], ◌∷◌, arith,
}
use ruflo_rust.Json.{
  is_text_ne, null, is_text, Value, Fields, obj, array, to_list-from_list, as_str, index, field_of,
}
use ruflo_rust.Claims.{Env, has_issue, claims_of, with_entry}
use ruflo_rust.Claims.View.{view_of, Claim, Edited, view}

pub has_issue_ne :
    (issue j : String)
    → (issue == j) ≡ false
    → (c : Value) → has_issue issue c ≡ true
    → has_issue j c ≡ false
has_issue_ne issue j ne c h = is_text_ne (as_str (index c "issueId")) issue j h ne

pub view-array : (vs : List Value) (j : String) → view (array vs) j ≡ view_of vs j
view-array vs j = ap (λ l. view_of l j) (to_list-from_list vs)

-- The entry that was edited is still of its issue.
edited-has_issue :
    (issue : String) (fs fs' : Fields)
    → field_of "issueId" fs' ≡ field_of "issueId" fs
    → has_issue issue (obj fs) ≡ true
    → has_issue issue (obj fs') ≡ true
edited-has_issue issue fs fs' e h =
    subst (λ x. is_text (as_str (elim x [ none ↦ null | some w ↦ w ])) issue ≡ true) (sym e) h

module _ (env : Env) (issue : String) (edit : Value → Option (Result Value String))
    (s : Value) where
  pub with_entry_missing :
      find (has_issue issue) (claims_of s) ≡ none
      → (e : String) × (with_entry env issue edit s ≡ some (err e, s))
  unfolding with_entry
  with_entry_missing h = elim (Bool-cases env.locked) [
    | inl l ↦ (format ("issue `" ∷ issue ∷ "` not found" ∷ []), ground arith)
    | inr l ↦ ("claim-service lock contention", ground arith)
  ]

  pub with_entry_refused :
      (c : Value) (e : String)
      → find (has_issue issue) (claims_of s) ≡ some c
      → edit c ≡ some (err e)
      → (e' : String) × (with_entry env issue edit s ≡ some (err e', s))
  unfolding with_entry
  with_entry_refused c e h r = elim (Bool-cases env.locked) [
    | inl l ↦ (e, ground arith)
    | inr l ↦ ("claim-service lock contention", ground arith)
  ]

  pub with_entry_failed :
      (fs : Fields) (c : Claim)
      → find (has_issue issue) (claims_of s) ≡ some (obj fs)
      → Edited edit fs c
      → (env.locked && env.written) ≡ false
      → (e : String) × (with_entry env issue edit s ≡ some (err e, s))
  unfolding with_entry
  with_entry_failed fs c h d f = elim (Bool-cases env.locked) [
    | inl l ↦ ("failed to write claim-service state", ground (arith, d.edited))
    | inr l ↦ ("claim-service lock contention", ground arith)
  ]

  pub with_entry-Edited :
      (fs : Fields) (c : Claim)
      → find (has_issue issue) (claims_of s) ≡ some (obj fs)
      → Edited edit fs c
      → (env.locked && env.written) ≡ true
      → (s' : Value) × (with_entry env issue edit s ≡ some (ok tt, s'))
        × (view s' issue ≡ some c)
        × ((j : String) → (issue == j) ≡ false → view s' j ≡ view s j)
  unfolding with_entry
  with_entry-Edited fs c h d g =
      let new = obj d.members in
      let vs = replace_first (has_issue issue) new (claims_of s) in
      let mine = find-some (has_issue issue) (obj fs) (claims_of s) h in
      let still = edited-has_issue issue fs d.members d.same_issue mine in
      let found = find-replace_first (has_issue issue) (obj fs) new (claims_of s) h still in
      (
        array vs,
        ground (arith, d.edited),
        view-array vs issue ∙ rw (found, view_of) (ap some d.viewed),
        λ j ne.
            view-array vs j
            ∙ rw
                (
                  find-replace_first_ne (has_issue issue) (has_issue j) new (claims_of s)
                      (has_issue_ne issue j ne) (has_issue_ne issue j ne new still),
                  view_of,
                )
                refl,
      )
