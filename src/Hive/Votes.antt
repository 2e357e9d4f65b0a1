-- ===== src/Hive/Votes.antt =====
-- One vote for each voter, and what the votes decide.
use ruflo_rust.Prelude.{
  append-nil, ℕ, ◌+◌, ◌*◌, ◌<◌, String, ◌≡◌, refl, ◌∙◌, Bool, true, false, not, some, List, [], ◌∷◌,
  ◌++◌, count, retain, arith, string_eq, eq_iff, ◌==◌, beq_self, count-append, inl, inr, Bool-cases,
}
use ruflo_rust.Json.{is_text_ne, Value, str, object, as_str, index, holds}
use ruflo_rust.Hive.{decide, votes_with, entries_of, is_accepted, is_rejected}

accepted_majority :
    (strategy : String) (accepts members : ℕ)
    → 0 < members
    → is_accepted strategy accepts members ≡ true
    → members < accepts * 2
accepted_majority strategy accepts members h a = ground arith

-- The votes decide once every member has voted, whatever the strategy; and an acceptance always has
-- more than half of the members behind it.
decide_lem :
    (strategy : String) (accepts rejects members : ℕ)
    → 0 < members
    → (accepts + rejects ≡ members
        → (status : String) × (decide strategy accepts rejects members ≡ some status))
      × (decide strategy accepts rejects members ≡ some "accepted" → members < accepts * 2)
unfolding decide
decide_lem strategy accepts rejects members h = (
  λ all_voted. elim (Bool-cases (is_accepted strategy accepts members)) [
    | inl a ↦ ("accepted", rw a refl)
    | inr a ↦ ("rejected", ground arith)
  ],
  λ e. elim (Bool-cases (is_accepted strategy accepts members)) [
    | inl a ↦ accepted_majority strategy accepts members h a
    | inr a ↦ absurd (elim (Bool-cases (is_rejected strategy rejects members)) [
      | inl r ↦
          let clash : "rejected" ≡ "accepted" = ground arith in
          let wrong : false ≡ true = (eq_iff "rejected" "accepted").1 clash in ground (arith, wrong)
      | inr r ↦ ground arith
    ])
  ],
)

count-retain-not : (p : Value → Bool) (vs : List Value) → count p (retain (λ v. not (p v)) vs) ≡ 0
count-retain-not p [] = refl
count-retain-not p (v ∷ vs) = ground (arith, count-retain-not p vs)

retain-retain-not :
    (p q : Value → Bool) (vs : List Value)
    → ((v : Value) → p v ≡ true → q v ≡ false)
    → retain q (retain (λ v. not (p v)) vs) ≡ retain q vs
retain-retain-not p q [] h = refl
retain-retain-not p q (v ∷ vs) h = ground (arith, h v, retain-retain-not p q vs h)

retain-append :
    (q : Value → Bool) (vs ws : List Value) → retain q (vs ++ ws) ≡ retain q vs ++ retain q ws
retain-append q [] ws = refl
retain-append q (v ∷ vs) ws = ground (arith, retain-append q vs ws)

-- A vote leaves a proposal with exactly one vote of its voter, which is the vote just cast, at the
-- end of the list, and with the votes of every other voter as they were.
pub votes_with_lem :
    (voter choice : String) (p : Value)
    → (count (λ v. holds v "voter" voter) (votes_with voter choice p) ≡ 1)
      × ((front : List Value) × (new : Value) × (votes_with voter choice p ≡ front ++ new ∷ [])
          × (holds new "voter" voter ≡ true)
          × (holds new "vote" choice ≡ true))
      × ((other : String)
          → (voter == other) ≡ false
          → retain (λ v. holds v "voter" other) (votes_with voter choice p)
            ≡ retain (λ v. holds v "voter" other) (entries_of p "votes"))
unfolding votes_with
votes_with_lem voter choice p =
    let old = entries_of p "votes" in
    let cast = object (("voter", str voter) ∷ ("vote", str choice) ∷ []) in
    let new = cast ∷ [] in
    let mine : Value → Bool = λ v. holds v "voter" voter in
    let self = beq_self voter in
    (
      count-append mine (retain (λ v. not (mine v)) old) new
          ∙ rw (count-retain-not mine old, self) refl,
      (retain (λ v. not (mine v)) old, cast, refl, rw self refl, rw (beq_self choice) refl),
      λ other ne.
          retain-append (λ v. holds v "voter" other) (retain (λ v. not (mine v)) old) new
          ∙ rw
              (
                ne,
                retain-retain-not mine (λ v. holds v "voter" other) old
                    (λ v h. is_text_ne (as_str (index v "voter")) voter other h ne),
              )
              (append-nil (retain (λ v. holds v "voter" other) old)),
    )
