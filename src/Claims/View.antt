-- ===== src/Claims/View.antt =====
-- What the operations read of a claim: its holder, its status and the target of a handoff.
use ruflo_rust.Prelude.{
  ap, ◌∙◌, inr, inl, ℕ, String, ◌≡◌, refl, true, false, Option, none, some, List, [], ◌∷◌, arith,
  string_eq, ◌==◌, find, Option-cases,
}
use ruflo_rust.Json.{
  remove_field, Value, Fields, obj, null, field_of, put_field, index, as_str, holds,
  field_of-put_field, field_of-remove_field,
}
use ruflo_rust.Claims.{str, object, ok, Result, claims_of, has_issue}
use ruflo_rust.Claims.Changes.{
  text_or, ◌>>=◌, done, stealable_edit, steal_edit, handoff_edit, accept_edit, at, held_by,
  release_edit, history_with, push_history,
}

pub record Claim : Type 0 where
  pub holder : Option String
  pub status : Option String
  pub target : Option String

abbrev pub claim_view : Value → Claim
claim_view c = record {
  holder = as_str (index (index c "claimant") "id");
  status = as_str (index c "status");
  target = as_str (index c "pendingHandoffTo");
}

-- The claim on an issue, if there is one.
abbrev pub view_of : List Value → String → Option Claim
view_of claims issue = elim (find (has_issue issue) claims) [
  | none ↦ none
  | some c ↦ some (claim_view c)
]

abbrev pub view : Value → String → Option Claim
view state = view_of (claims_of state)

-- An event goes to the member `history`, and every other member stays.
pub push_history_lem :
    (fs : Fields) (event : Value)
    → (fs' : Fields) × (push_history (obj fs) event ≡ some (obj fs'))
      × ((k : String) → ("history" == k) ≡ false → field_of k fs' ≡ field_of k fs)
unfolding push_history
push_history_lem fs event = elim (Option-cases (history_with event (index (obj fs) "history"))) [
  | inl e ↦ (fs, rw (e, push_history) refl, λ k ne. refl)
  | inr (h, e) ↦ (
    put_field "history" h fs,
    rw (e, push_history) refl,
    λ k ne. ground (arith, field_of-put_field "history" k h fs),
  )
]

-- An edit that succeeds on an object gives an object of the same issue.
pub record Edited (edit : Value → Option (Result Value String)) (fs : Fields) (c : Claim)
    : Type 0 where
  pub members : Fields
  pub edited : edit (obj fs) ≡ some (ok (obj members))
  pub same_issue : field_of "issueId" members ≡ field_of "issueId" fs
  pub viewed : claim_view (obj members) ≡ c

-- What `claim_view` makes of the three members that it reads.
abbrev shown : Option Value → Option Value → Option Value → Claim
shown claimant status target = record {
  holder = as_str (index (elim claimant [ none ↦ null | some c ↦ c ]) "id");
  status = as_str (elim status [ none ↦ null | some c ↦ c ]);
  target = as_str (elim target [ none ↦ null | some c ↦ c ]);
}

shown_by :
    (fs : Fields) {c st t : Option Value}
    → field_of "claimant" fs ≡ c
    → field_of "status" fs ≡ st
    → field_of "pendingHandoffTo" fs ≡ t
    → claim_view (obj fs) ≡ shown c st t
shown_by fs {c} {st} {t} hc hs ht =
    ap (λ x. shown x (field_of "status" fs) (field_of "pendingHandoffTo" fs)) hc
    ∙ ap (λ x. shown c x (field_of "pendingHandoffTo" fs)) hs
    ∙ ap (shown c st) ht

-- Edits end by an event: it is enough to look at the members that they wrote before.
Edited-by :
    (edit : Value → Option (Result Value String)) (fs base : Fields) (event : Value)
    → (c st t : Option Value) → edit (obj fs) ≡ (push_history (obj base) event >>= done)
    → field_of "issueId" base ≡ field_of "issueId" fs
    → field_of "claimant" base ≡ c
    → field_of "status" base ≡ st
    → field_of "pendingHandoffTo" base ≡ t
    → Edited edit fs (shown c st t)
Edited-by edit fs base event c st t e i hc hs ht =
    let (fs', pushed, same) = push_history_lem base event in
    record {
      members = fs';
      edited = e ∙ rw (pushed, ◌>>=◌) refl;
      same_issue = same "issueId" refl ∙ i;
      viewed =
          shown_by fs' (same "claimant" refl ∙ hc) (same "status" refl ∙ hs)
            (same "pendingHandoffTo" refl ∙ ht);
    }

ruleset member_laws = (field_of-put_field, field_of-remove_field)

module _ (issue : String) (now : ℕ) (fs : Fields) where
  pub release_Edited :
      (agent : String)
      → held_by agent (obj fs) ≡ true
      → Edited
          (release_edit issue agent now)
          fs
          (record (claim_view (obj fs)) { status = some "released" })
  unfolding release_edit
  release_Edited agent h =
      Edited-by _ fs (put_field "status" (str "released") fs)
        (object (("event", str "released") ∷ at now ∷ ("by", str agent) ∷ []))
        (field_of "claimant" fs) (some (str "released")) (field_of "pendingHandoffTo" fs)
        (rw (h, release_edit) refl) (simp member_laws) (simp member_laws) (simp member_laws)
        (simp member_laws)

  pub handoff_Edited :
      (from to reason : String)
      → held_by from (obj fs) ≡ true
      → Edited
          (handoff_edit issue from to reason now)
          fs
          (record (claim_view (obj fs)) { status = some "handoff_pending"; target = some to })
  unfolding handoff_edit
  handoff_Edited from to reason h =
      Edited-by _ fs
        (put_field "pendingHandoffTo" (str to) (put_field "status" (str "handoff_pending") fs))
        (object (
          ("event", str "handoff_requested")
          ∷ at now
          ∷ ("from", str from)
          ∷ ("to", str to)
          ∷ ("reason", str reason)
          ∷ []))
        (field_of "claimant" fs) (some (str "handoff_pending")) (some (str to))
        (rw (h, handoff_edit) refl) (simp member_laws) (simp member_laws) (simp member_laws)
        (simp member_laws)

  pub accept_Edited :
      (agent : String)
      → holds (obj fs) "status" "handoff_pending" ≡ true
      → holds (obj fs) "pendingHandoffTo" agent ≡ true
      → Edited
          (accept_edit issue agent now)
          fs
          (record { holder = some agent; status = some "active"; target = none })
  unfolding accept_edit
  accept_Edited agent h t =
      Edited-by _ fs
        (remove_field "pendingHandoffTo" (
          put_field "status" (str "active") (
            put_field "claimant"
              (object (("id", str agent) ∷ ("type", index (index (obj fs) "claimant") "type") ∷ []))
              fs)))
        (object (
          ("event", str "handoff_accepted")
          ∷ at now
          ∷ ("from", str (text_or (index (obj fs) "claimant") "id" ""))
          ∷ ("to", str agent)
          ∷ []))
        (some
          (object (("id", str agent) ∷ ("type", index (index (obj fs) "claimant") "type") ∷ [])))
        (some (str "active")) none (rw (h, t, accept_edit) refl) (simp member_laws)
        (simp member_laws) (simp member_laws) (simp member_laws)

  pub stealable_Edited :
      (reason : String)
      → Edited
          (stealable_edit reason now)
          fs
          (record (claim_view (obj fs)) { status = some "stealable" })
  unfolding stealable_edit
  stealable_Edited reason =
      Edited-by _ fs (put_field "status" (str "stealable") fs)
        (object (("event", str "marked_stealable") ∷ at now ∷ ("reason", str reason) ∷ []))
        (field_of "claimant" fs) (some (str "stealable")) (field_of "pendingHandoffTo" fs) refl
        (simp member_laws) (simp member_laws) (simp member_laws) (simp member_laws)

  pub steal_Edited :
      (agent kind : String)
      → holds (obj fs) "status" "stealable" ≡ true
      → Edited
          (steal_edit issue agent kind now)
          fs
          (record (claim_view (obj fs)) { holder = some agent; status = some "stolen" })
  unfolding steal_edit
  steal_Edited agent kind h =
      Edited-by _ fs
        (put_field "status" (str "stolen")
          (put_field "claimant" (object (("id", str agent) ∷ ("type", str kind) ∷ [])) fs))
        (object (
          ("event", str "stolen")
          ∷ at now
          ∷ ("from", str (text_or (index (obj fs) "claimant") "id" ""))
          ∷ ("by", str agent)
          ∷ []))
        (some (object (("id", str agent) ∷ ("type", str kind) ∷ []))) (some (str "stolen"))
        (field_of "pendingHandoffTo" fs) (rw (h, steal_edit) refl) (simp member_laws)
        (simp member_laws) (simp member_laws) (simp member_laws)
