-- ===== src/Examples/Authorization.antt =====
-- Claims of users in a JSON policy, granted and checked: crates/ruflo-cli/src/claims.rs.
use ruflo_rust.Prelude.{
  String, ◌≡◌, refl, Bool, true, false, Option, none, some, [], ◌∷◌, ok, err, nat_eq, ◌==◌,
  string_eq,
}
use ruflo_rust.Json.{Value, Fields, obj}
use ruflo_rust.Authorization.{
  Policy, claims_at, fields_of, default_policy, check, check_claim, grant, load, load_merged,
  matches, non_empty, user_claims,
}
use ruflo_rust.Authorization.Revoking.{revoke, grant-revoke}
use ruflo_rust.Authorization.Granting.{grant-check}

abbrev is_granted : Option String → Option String → Policy → Bool
unfolding check check_claim non_empty matches load_merged user_claims
is_granted claim user policy = elim (check claim user policy) [ ok n ↦ n == 0 | err e ↦ false ]

abbrev after_grant : Policy
unfolding grant non_empty
after_grant = (grant none (some "deploy:prod") (some "ann") (some "operator") none).1

refused_before : is_granted (some "deploy:prod") (some "ann") none ≡ false
unfolding check check_claim non_empty matches load_merged user_claims
refused_before = refl

held_after : is_granted (some "deploy:prod") (some "ann") after_grant ≡ true
unfolding check check_claim non_empty matches load_merged user_claims grant
held_after = refl

bob_not : is_granted (some "deploy:prod") (some "bob") after_grant ≡ false
unfolding check check_claim non_empty matches load_merged user_claims grant
bob_not = refl

by_suffix : check_claim "agent:list" ("*:list" ∷ []) ≡ true
unfolding check_claim matches
by_suffix = refl

no_colon : check_claim "swarm" ("swarm:*" ∷ []) ≡ false
unfolding check_claim matches
no_colon = refl

grant-check_example :
    ((config : Value)
      → load none ≡ ok config
      → (policy' : Policy) × (grant none (some "deploy:prod") (some "ann") (some "operator") none
          ≡ (ok 0, policy'))
        × (check (some "deploy:prod") (some "ann") policy' ≡ ok 0))
    × ((e : String) → load none ≡ err e → check (some "deploy:prod") (some "ann") none ≡ ok 1)
unfolding non_empty
grant-check_example = grant-check "deploy:prod" "ann" (some "operator") none refl refl

nothing_to_revoke :
    (revoke none (some "task:list") (some "ann") none none).0
    ≡ err "Claim \"task:list\" not found on user \"ann\""
unfolding revoke non_empty
nothing_to_revoke = refl

grant-revoke_example :
    (policy' : Policy) × (fs : Fields) × (grant none (some "deploy:prod") (some "ann") none none
      ≡ (ok 0, policy'))
    × (revoke none (some "deploy:prod") (some "ann") none policy' ≡ (ok 0, some (ok (obj fs))))
    × (claims_at "ann" fs ≡ claims_at "ann" (fields_of default_policy))
unfolding non_empty
grant-revoke_example = grant-revoke "deploy:prod" "ann" none default_policy refl refl refl refl
