-- ===== src/Claims/Edits.antt =====
-- The edits of one entry that the operations make carry out the transitions.
use ruflo_rust.Prelude.{
  ap, ◌∙◌, find-some, format, sym, inr, subst, inl, Option-cases, Bool-cases, find, Result, err, ℕ,
  String, ◌≡◌, refl, ◌&&◌, Option, none, some, [], ◌∷◌, arith, string_eq,
}
use ruflo_rust.Json.{holds, holds_obj, obj, Fields, Value}
use ruflo_rust.Claims.{claims_of, with_entry, has_issue, Env}
use ruflo_rust.Claims.Changes.{
  text_or, steal_edit, handoff_edit, accept_edit, held_by, release_edit,
}
use ruflo_rust.Claims.View.{
  release_Edited, handoff_Edited, accept_Edited, steal_Edited, Edited, Claim, claim_view, view,
}
use ruflo_rust.Claims.Entries.{
  with_entry_missing, with_entry_failed, with_entry_refused, with_entry-Edited,
}
use ruflo_rust.Claims.Transitions.{
  released_by, handed_off, accepted_by, stolen_by, transition, Done, served, shown,
}

-- What an edit of one entry has to do for a new claim, or for a refusal.
abbrev pub EditDone : (Value → Option (Result Value String)) → Fields → Option Claim → Type 0
EditDone edit fs none = (e : String) × (edit (obj fs) ≡ some (err e))
EditDone edit fs (some c) = Edited edit fs c

pub served-none : (env : Env) → served env none ≡ none
served-none env = ground arith

module _ (env : Env) (issue : String) (edit : Value → Option (Result Value String))
    (s : Value) where
  found_Done :
      (fs : Fields) (c : Option Claim)
      → find (has_issue issue) (claims_of s) ≡ some (obj fs)
      → EditDone edit fs c
      → Done issue (served env c) s (with_entry env issue edit s)
  found_Done fs none h d = elim (Bool-cases (env.locked && env.written)) [
    | inl g ↦ rw g (with_entry_refused env issue edit s (obj fs) d.0 h d.1)
    | inr g ↦ rw g (with_entry_refused env issue edit s (obj fs) d.0 h d.1)
  ]
  found_Done fs (some c) h d = elim (Bool-cases (env.locked && env.written)) [
    | inl g ↦ rw g (with_entry-Edited env issue edit s fs c h d g)
    | inr g ↦ rw g (with_entry_failed env issue edit s fs c h d g)
  ]

  pub with_entry-Done :
      (f : Option Claim → Option Claim)
      → f none ≡ none
      → ((fs : Fields) → EditDone edit fs (f (some (claim_view (obj fs)))))
      → Done issue (served env (f (view s issue))) s (with_entry env issue edit s)
  with_entry-Done f strict d = elim (Option-cases (find (has_issue issue) (claims_of s))) [
    | inl e ↦
        subst (λ c. Done issue c s (with_entry env issue edit s))
          (sym (ap (λ o. served env (f (shown o))) e ∙ ap (served env) strict ∙ served-none env))
          (with_entry_missing env issue edit s e)
    | inr (c, e) ↦
        let (fs, o) = holds_obj c "issueId" issue (find-some (has_issue issue) c (claims_of s) e) in
        let e' : find (has_issue issue) (claims_of s) ≡ some (obj fs) = e ∙ ap some o in
        subst (λ x. Done issue x s (with_entry env issue edit s))
          (sym (ap (λ o. served env (f (shown o))) e'))
          (found_Done fs (f (some (claim_view (obj fs)))) e' (d fs))
  ]

module _ (issue : String) (now : ℕ) (fs : Fields) where
  pub release_EditDone :
      (agent : String)
      → EditDone
          (release_edit issue agent now)
          fs
          (transition (released_by agent) (some (claim_view (obj fs))))
  unfolding release_edit
  release_EditDone agent = elim (Bool-cases (held_by agent (obj fs))) [
    | inl h ↦ rw h (release_Edited issue now fs agent h)
    | inr h ↦ rw h (format ("issue `" ∷ issue ∷ "` not claimed by `" ∷ agent ∷ "`" ∷ []), rw h refl)
  ]

  pub handoff_EditDone :
      (from to reason : String)
      → EditDone
          (handoff_edit issue from to reason now)
          fs
          (transition (handed_off from to reason) (some (claim_view (obj fs))))
  unfolding handoff_edit
  handoff_EditDone from to reason = elim (Bool-cases (held_by from (obj fs))) [
    | inl h ↦ rw h (handoff_Edited issue now fs from to reason h)
    | inr h ↦ rw h (format ("issue `" ∷ issue ∷ "` not claimed by `" ∷ from ∷ "`" ∷ []), rw h refl)
  ]

  pub accept_EditDone :
      (agent : String)
      → EditDone
          (accept_edit issue agent now)
          fs
          (transition (accepted_by agent) (some (claim_view (obj fs))))
  unfolding accept_edit
  accept_EditDone agent = elim (Bool-cases (holds (obj fs) "status" "handoff_pending")) [
    | inl h ↦ elim (Bool-cases (holds (obj fs) "pendingHandoffTo" agent)) [
      | inl t ↦ rw (h, t) (accept_Edited issue now fs agent h t)
      | inr t ↦
          rw (h, t)
            (
              format ("issue `" ∷ issue ∷ "` handoff is not intended for `" ∷ agent ∷ "`" ∷ []),
              rw (h, t) refl,
            )
    ]
    | inr h ↦ rw h (format ("issue `" ∷ issue ∷ "` is not pending handoff" ∷ []), rw h refl)
  ]

  pub steal_EditDone :
      (agent kind : String)
      → EditDone
          (steal_edit issue agent kind now)
          fs
          (transition (stolen_by agent kind) (some (claim_view (obj fs))))
  unfolding steal_edit
  steal_EditDone agent kind = elim (Bool-cases (holds (obj fs) "status" "stealable")) [
    | inl h ↦ rw h (steal_Edited issue now fs agent kind h)
    | inr h ↦ rw h (
      format (
          "issue `"
          ∷ issue
          ∷ "` is not stealable (status: "
          ∷ text_or (obj fs) "status" "?"
          ∷ ")"
          ∷ []),
      rw h refl,
    )
  ]
