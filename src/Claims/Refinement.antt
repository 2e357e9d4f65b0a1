-- ===== src/Claims/Refinement.antt =====
-- The operations on the JSON file implement the transitions.
use ruflo_rust.Prelude.{
  find-retain_ne, beq_self, find-retain-not, find-append, ◌++◌, retain, ap, ◌∙◌, inr, inl,
  Option-cases, Bool-cases, find, String, ◌≡◌, refl, true, false, not, ◌&&◌, Option, none, some, [],
  ◌∷◌, arith, string_eq, ◌==◌, if◌then◌else◌,
}
use ruflo_rust.Json.{index, as_str, array, Value}
use ruflo_rust.Claims.{
  taken_error, is_taken, new_entry, claims_of, has_issue, ok, Env, claim, release, handoff,
  accept_handoff, mark_stealable, steal,
}
use ruflo_rust.Claims.Changes.{text_or}
use ruflo_rust.Claims.View.{view_of, view_of, stealable_Edited, claim_view, view}
use ruflo_rust.Claims.Entries.{has_issue_ne, view-array}
use ruflo_rust.Claims.Transitions.{
  Request, claimed_by, released_by, handed_off, accepted_by, left_stealable, stolen_by, forget,
  serve, busy, transition, Done, served, shown,
}
use ruflo_rust.Claims.Edits.{
  served-none, with_entry-Done, release_EditDone, handoff_EditDone, accept_EditDone, steal_EditDone,
}

taken_eq : (o : Option Value) → is_taken o ≡ busy (shown o)
taken_eq none = refl
taken_eq (some c) = elim (Option-cases (as_str (index c "status"))) [
  | inl e ↦ rw (e, is_taken, text_or) refl
  | inr (t, e) ↦ rw (e, is_taken, text_or) refl
]

module _ (env : Env) (issue agent kind : String) (s : Value) where
  claim_refused :
      is_taken (find (has_issue issue) (claims_of s)) ≡ true
      → Done issue none s (forget (claim env issue agent kind s))
  unfolding claim
  claim_refused b = elim (Bool-cases env.locked) [
    | inl l ↦ (taken_error issue (find (has_issue issue) (claims_of s)), rw (l, b) refl)
    | inr l ↦ ("claim-service lock contention", rw l refl)
  ]

  claim_failed :
      is_taken (find (has_issue issue) (claims_of s)) ≡ false
      → (env.locked && env.written) ≡ false
      → Done issue none s (forget (claim env issue agent kind s))
  unfolding claim
  claim_failed b g = elim (Bool-cases env.locked) [
    | inl l ↦
        let w : env.written ≡ false = ground arith in
        ("failed to write claim-service state", rw (l, b, w) refl)
    | inr l ↦ ("claim-service lock contention", rw l refl)
  ]

  claim_made :
      is_taken (find (has_issue issue) (claims_of s)) ≡ false
      → (env.locked && env.written) ≡ true
      → forget (claim env issue agent kind s)
        ≡ some (
          ok tt,
          array (
              retain (λ c. not (has_issue issue c)) (claims_of s)
              ++ new_entry issue agent kind env.now ∷ []),
        )
  unfolding claim
  claim_made b g =
      let l : env.locked ≡ true = ground arith in
      let w : env.written ≡ true = ground arith in rw (l, b, w) refl

  new_entry_issue : (j : String) → has_issue j (new_entry issue agent kind env.now) ≡ (issue == j)
  unfolding new_entry
  new_entry_issue j = refl

  new_entry_view :
      claim_view (new_entry issue agent kind env.now)
      ≡ record { holder = some agent; status = some "active"; target = none }
  unfolding new_entry
  new_entry_view = refl

  kept_only :
      (j : String)
      → (issue == j) ≡ false
      → (o : Option Value)
      → shown (elim o [
        | none ↦ find (has_issue j) (new_entry issue agent kind env.now ∷ [])
        | some c ↦ some c
      ])
        ≡ shown o
  kept_only j ne none = rw (new_entry_issue j, ne) refl
  kept_only j ne (some c) = refl

  -- A fresh claim takes the place of every entry of its issue.
  claim-Done :
      Done issue
        (served env (transition (claimed_by agent kind) (view s issue)))
        s
        (forget (claim env issue agent kind s))
  claim-Done =
      let claims = claims_of s in
      let entry = new_entry issue agent kind env.now in
      let kept = retain (λ c. not (has_issue issue c)) claims in
      let taken = taken_eq (find (has_issue issue) claims) in
      elim (Bool-cases (busy (view s issue))) [
        | inl b ↦ rw (b, served-none env) (claim_refused (taken ∙ b))
        | inr b ↦ elim (Bool-cases (env.locked && env.written)) [
          | inr g ↦ rw (b, g) (claim_failed (taken ∙ b) g)
          | inl g ↦
              rw (b, g)
                (
                  array (kept ++ entry ∷ []),
                  claim_made (taken ∙ b) g,
                  view-array (kept ++ entry ∷ []) issue
                      ∙ rw
                          (
                            find-append (has_issue issue) kept (entry ∷ []),
                            find-retain-not (has_issue issue) claims,
                            new_entry_issue issue,
                            beq_self issue,
                            view_of,
                          )
                          (ap some new_entry_view),
                  λ j ne.
                      view-array (kept ++ entry ∷ []) j
                      ∙ rw
                          (
                            find-append (has_issue j) kept (entry ∷ []),
                            find-retain_ne (has_issue issue) (has_issue j) claims
                                (has_issue_ne issue j ne),
                            view_of,
                            view,
                          )
                          (kept_only j ne (find (has_issue j) claims)),
                )
        ]
      ]

-- Every operation returns on every JSON file, however malformed, and does what `transition` says of
-- the claim on its issue: where the lock is held, the write succeeds and the transition is
-- accepted, the reply is a success, the issue has exactly the new claim and the claim on every
-- other issue is as before; otherwise the reply is an error and the file is unchanged.
pub serve_refines_transition :
    (env : Env) (issue : String) (r : Request) (s : Value)
    → Done issue
        (if env.locked && env.written then transition r (view s issue) else none)
        s
        (serve env issue r s)
unfolding release handoff accept_handoff mark_stealable steal
serve_refines_transition env issue (claimed_by agent kind) s = claim-Done env issue agent kind s
serve_refines_transition env issue (released_by agent) s =
    with_entry-Done env issue _ s (transition (released_by agent)) refl
      (λ fs. release_EditDone issue env.now fs agent)
serve_refines_transition env issue (handed_off from to reason) s =
    with_entry-Done env issue _ s (transition (handed_off from to reason)) refl
      (λ fs. handoff_EditDone issue env.now fs from to reason)
serve_refines_transition env issue (accepted_by agent) s =
    with_entry-Done env issue _ s (transition (accepted_by agent)) refl
      (λ fs. accept_EditDone issue env.now fs agent)
serve_refines_transition env issue (left_stealable reason) s =
    with_entry-Done env issue _ s (transition (left_stealable reason)) refl
      (λ fs. stealable_Edited issue env.now fs reason)
serve_refines_transition env issue (stolen_by agent kind) s =
    with_entry-Done env issue _ s (transition (stolen_by agent kind)) refl
      (λ fs. steal_EditDone issue env.now fs agent kind)
