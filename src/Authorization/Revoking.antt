-- ===== src/Authorization/Revoking.antt =====
-- crates/ruflo-cli/src/claims.rs: `revoke`, and a claim that is granted to a user and revoked
-- again.
use ruflo_rust.Prelude.{
  ℕ, not, ◌||◌, format, if◌then◌else◌, String, ◌≡◌, refl, ◌∙◌, ap, Bool, true, false, Option, none,
  some, List, [], ◌∷◌, ◌++◌, any, Result, ok, err, arith, string_eq, beq_self,
}
use ruflo_rust.Json.{
  Value, Fields, str, obj, array, as_str, is_text, put_field, field_of-put_field, to_list-from_list,
}
use ruflo_rust.Authorization.{
  non_empty, grant, Policy, load, object_at, fields_of, ensure_object, claims_at, set_claims,
  both_absent, list_at, with_claim,
}

-- `position` and `remove`: the list without the first such claim, if it has one.
abbrev without_first : String → List Value → Option (List Value)
without_first claim [] = none
without_first claim (v ∷ vs) =
    let rest = without_first claim vs in
    if is_text (as_str v) claim
    then some vs
    else elim rest [ none ↦ none | some ws ↦ some (v ∷ ws) ]

-- The second part says whether a claim was removed.
abbrev revoke_user : String → Option String → Fields → Fields × Bool
revoke_user claim none fs = (fs, false)
revoke_user claim (some user) fs = elim (without_first claim (claims_at user fs)) [
  | none ↦ (fs, false)
  | some vs ↦ (set_claims user vs fs, true)
]

abbrev revoke_role : String → Option String → Fields → Fields × Bool
revoke_role claim none fs = (fs, false)
revoke_role claim (some role) fs =
    let roles = object_at "roles" fs in
    elim (without_first claim (list_at role roles)) [
      | none ↦ (fs, false)
      | some vs ↦ (put_field "roles" (obj (put_field role (array vs) roles)) fs, true)
    ]

-- The user is named in the message where there is one, else the role.
abbrev target_of : Option String → Option String → String
target_of (some user) role = format ("user \"" ∷ user ∷ "\"" ∷ [])
target_of none (some role) = format ("role \"" ∷ role ∷ "\"" ∷ [])
target_of none none = ""

unfoldable pub revoke :
    Option String
    → Option String
    → Option String
    → Option String
    → Policy
    → Result ℕ String × Policy
revoke fault claim user role policy = elim (non_empty claim) [
  | none ↦ (err "Claim is required", policy)
  | some c ↦
      if both_absent (non_empty user) (non_empty role)
      then (err "Either user or role is required", policy)
      else elim (load policy) [
        | err e ↦ (err (format ("Failed to revoke claim: " ∷ e ∷ [])), policy)
        | ok config ↦
            let (users_done, by_user) = revoke_user c (non_empty user) (fields_of config) in
            let (all_done, by_role) = revoke_role c (non_empty role) users_done in
            if not (by_user || by_role)
            then (
              err (
                  format (
                    "Claim \""
                    ∷ c
                    ∷ "\" not found on "
                    ∷ target_of (non_empty user) (non_empty role)
                    ∷ [])),
              policy,
            )
            else elim fault [
              | some e ↦ (err (format ("Failed to revoke claim: " ∷ e ∷ [])), policy)
              | none ↦ (ok 0, some (ok (obj all_done)))
            ]
      ]
]

object_at-put_field :
    (k : String) (inner fs : Fields) → object_at k (put_field k (obj inner) fs) ≡ inner
object_at-put_field k inner fs =
    rw (object_at, field_of-put_field k k (obj inner) fs, beq_self k) refl

claims_at-set_claims :
    (u : String) (vs : List Value) (fs : Fields) → claims_at u (set_claims u vs fs) ≡ vs
claims_at-set_claims u vs fs =
    let users = object_at "users" fs in
    let info = put_field "claims" (array vs) (object_at u users) in
    rw
      (
        object_at-put_field "users" (put_field u (obj info) users) fs,
        object_at-put_field u info users,
        list_at,
        field_of-put_field "claims" "claims" (array vs) (object_at u users),
      )
      (to_list-from_list vs)

object_at-ensure_object :
    (fs : Fields)
    → object_at "users" (ensure_object "roles" (ensure_object "users" fs)) ≡ object_at "users" fs
object_at-ensure_object fs =
    rw
      (
        object_at,
        field_of-put_field "roles" "users" (obj (object_at "roles" (ensure_object "users" fs)))
            (ensure_object "users" fs),
        field_of-put_field "users" "users" (obj (object_at "users" fs)) fs,
      )
      refl

without_first-append :
    (c : String) (vs : List Value)
    → any (λ v. is_text (as_str v) c) vs ≡ false
    → without_first c (vs ++ str c ∷ []) ≡ some vs
without_first-append c [] h = rw (beq_self c) refl
without_first-append c (v ∷ vs) h = ground (arith, h, without_first-append c vs)

-- The members that `grant` edits, with an object at `users` and at `roles`.
abbrev prepared : Value → Fields
prepared config = ensure_object "roles" (ensure_object "users" (fields_of config))

revoke_user-prepared :
    (c u : String) (config : Value)
    → any (λ v. is_text (as_str v) c) (claims_at u (fields_of config)) ≡ false
    → let base = prepared config in
      let now = with_claim c (claims_at u base) in
      without_first c (claims_at u (set_claims u now base)) ≡ some (claims_at u (fields_of config))
revoke_user-prepared c u config fresh =
    let base = prepared config in
    let before = claims_at u (fields_of config) in
    let same =
      ap (λ us. list_at "claims" (object_at u us)) (object_at-ensure_object (fields_of config)) in
    ap (without_first c) (claims_at-set_claims u (with_claim c (claims_at u base)) base)
    ∙ ap (λ vs. without_first c (with_claim c vs)) same
    ∙ rw (fresh) (without_first-append c before fresh)

non_empty-none : non_empty none ≡ none
unfolding non_empty
non_empty-none = refl

revoke-some :
    (c u : String) (fs : Fields) (vs : List Value)
    → non_empty (some c) ≡ some c
    → non_empty (some u) ≡ some u
    → without_first c (claims_at u fs) ≡ some vs
    → revoke none (some c) (some u) none (some (ok (obj fs)))
      ≡ (ok 0, some (ok (obj (set_claims u vs fs))))
unfolding revoke
revoke-some c u fs vs a b h = rw (revoke, a, b, non_empty-none) (rw (revoke_user, h) refl)

-- A claim that a user does not list is granted and revoked again: both return 0 when the policy can
-- be read, or there is none, and the writes succeed, and the user's own claims are then those of
-- before.
pub grant-revoke :
    (claim user : String) (policy : Policy) (config : Value)
    → non_empty (some claim) ≡ some claim
    → non_empty (some user) ≡ some user
    → load policy ≡ ok config
    → any (λ v. is_text (as_str v) claim) (claims_at user (fields_of config)) ≡ false
    → (policy' : Policy) × (fs : Fields) × (grant none (some claim) (some user) none policy
        ≡ (ok 0, policy'))
      × (revoke none (some claim) (some user) none policy' ≡ (ok 0, some (ok (obj fs))))
      × (claims_at user fs ≡ claims_at user (fields_of config))
unfolding grant
grant-revoke claim user policy config c u loaded fresh =
    let base = prepared config in
    let now = set_claims user (with_claim claim (claims_at user base)) base in
    let before = claims_at user (fields_of config) in
    (
      some (ok (obj now)),
      set_claims user before now,
      rw (grant, c, u) (rw (loaded) (rw (u, non_empty-none) refl)),
      revoke-some claim user now before c u (revoke_user-prepared claim user config fresh),
      claims_at-set_claims user before now,
    )
