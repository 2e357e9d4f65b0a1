-- ===== src/Authorization/Granting.antt =====
-- A claim that is granted to a user is held by that user.
use ruflo_rust.Prelude.{
  String, ◌≡◌, refl, ◌∙◌, inl, inr, Bool, true, ◌||◌, Option, none, some, List, [], ◌∷◌, ◌++◌, any,
  ok, err, arith, string_eq, eq_iff, ◌==◌, beq_self, Bool-cases,
}
use ruflo_rust.Json.{
  Value, Fields, str, obj, field, end, array, as_str, is_text, field_of, put_field,
  field_of-put_field, to_list-from_list,
}
use ruflo_rust.Authorization.{
  matches, check_claim, texts, with_claim, over, non_empty, check, grant, Policy, user_claims,
  load_merged, load, granted, object_at, list_at, fields_of, ensure_object, grant_role,
  default_policy, merged, list_of, role_claims,
}

field_of-over :
    (k : String) (dst src : Fields)
    → field_of k (over dst src) ≡ elim (field_of k src) [ none ↦ field_of k dst | some v ↦ some v ]
field_of-over k dst end = refl
field_of-over k dst (field j v src) =
    ground (arith, field_of-put_field j k v (over dst src), field_of-over k dst src)

any-append : (p : String → Bool) (xs ys : List String) → any p (xs ++ ys) ≡ (any p xs || any p ys)
any-append p [] ys = refl
any-append p (x ∷ xs) ys = ground (arith, any-append p xs ys)

matches_self : (c : String) → matches c c ≡ true
unfolding matches
matches_self c = rw (beq_self c) refl

or_true : (b : Bool) → (b || true) ≡ true
or_true b = ground arith

texts-append : (vs : List Value) (c : String) → any (matches c) (texts (vs ++ str c ∷ [])) ≡ true
texts-append [] c = rw (matches_self c) refl
texts-append (str t ∷ vs) c = rw (texts-append vs c) (or_true (matches c t))
texts-append (_ ∷ vs) c = texts-append vs c

texts-any :
    (vs : List Value) (c : String)
    → any (λ v. is_text (as_str v) c) vs ≡ true
    → any (matches c) (texts vs) ≡ true
texts-any [] c h = cc
texts-any (str t ∷ vs) c h = elim (Bool-cases (t == c)) [
  | inl same ↦ rw (← (eq_iff t c).0 same, matches_self t) refl
  | inr other ↦ rw (texts-any vs c (ground (arith, other, h))) (or_true (matches c t))
]
texts-any (_ ∷ vs) c h = texts-any vs c h

texts-with_claim : (c : String) (vs : List Value) → any (matches c) (texts (with_claim c vs)) ≡ true
texts-with_claim c vs = elim (Bool-cases (any (λ v. is_text (as_str v) c) vs)) [
  | inl there ↦ rw there (texts-any vs c there)
  | inr new ↦ rw new (texts-append vs c)
]

users_kept :
    (c : String) (role : Option String) (dst base users : Fields)
    → field_of "users" (over dst (grant_role c role (put_field "users" (obj users) base)))
      ≡ some (obj users)
users_kept c none dst base users =
    field_of-over "users" dst (put_field "users" (obj users) base)
    ∙ rw (field_of-put_field "users" "users" (obj users) base) refl
users_kept c (some r) dst base users =
    let fs = put_field "users" (obj users) base in
    let roles = object_at "roles" fs in
    let more = obj (put_field r (array (with_claim c (list_at r roles))) roles) in
    field_of-over "users" dst (put_field "roles" more fs)
    ∙ rw
        (
          field_of-put_field "roles" "users" more fs,
          field_of-put_field "users" "users" (obj users) base,
        )
        refl

middle :
    (p : String → Bool) (xs ys zs : List String) → any p ys ≡ true → any p (xs ++ ys ++ zs) ≡ true
middle p xs ys zs h =
    rw (any-append p (xs ++ ys) zs, any-append p xs ys, h, or_true (any p xs)) refl

held :
    (c u : String) (top users info : Fields) (vs : List Value)
    → field_of "users" top ≡ some (obj users)
    → field_of u users ≡ some (obj info)
    → field_of "claims" info ≡ some (array vs)
    → any (matches c) (texts vs) ≡ true
    → any (matches c) (user_claims (obj top) u) ≡ true
unfolding user_claims
held c u top users info vs a b d h =
    rw (a, b, d, to_list-from_list vs)
      (middle (matches c) (list_of (field_of "defaultClaims" top)) (texts vs)
        (role_claims (obj top) (field_of "role" info)) h)

granted-user_claims :
    (c u : String) (role : Option String) (config : Value)
    → any (matches c) (user_claims (merged default_policy (granted c (some u) role config)) u)
      ≡ true
granted-user_claims c u role config =
    let base = ensure_object "roles" (ensure_object "users" (fields_of config)) in
    let users = object_at "users" base in
    let info = object_at u users in
    let claims = with_claim c (list_at "claims" info) in
    let info' = put_field "claims" (array claims) info in
    held c u
      (over (fields_of default_policy)
        (grant_role c role (put_field "users" (obj (put_field u (obj info') users)) base)))
      (put_field u (obj info') users) info' claims
      (users_kept c role (fields_of default_policy) base (put_field u (obj info') users))
      (field_of-put_field u u (obj info') users ∙ rw (beq_self u) refl)
      (field_of-put_field "claims" "claims" (array claims) info)
      (texts-with_claim c (list_at "claims" info))

load_merged-err : (policy : Policy) (e : String) → load policy ≡ err e → load_merged policy ≡ err e
unfolding load_merged
load_merged-err none e h = cc
load_merged-err (some (ok v)) e h = cc
load_merged-err (some (err x)) e h = h

load_merged-ok : (v : Value) → load_merged (some (ok v)) ≡ ok (merged default_policy v)
unfolding load_merged
load_merged-ok v = refl

check-held :
    (claim user : String) (policy : Policy) (config : Value)
    → non_empty (some claim) ≡ some claim
    → non_empty (some user) ≡ some user
    → load_merged policy ≡ ok config
    → any (matches claim) (user_claims config user) ≡ true
    → check (some claim) (some user) policy ≡ ok 0
unfolding check check_claim user_claims
check-held claim user policy config c u m h = rw (check, c, m, u) (rw h refl)

-- A claim that is granted to a user, and perhaps to a role as well, is held by that user when it is
-- checked: where the policy can be read, or there is none, and the write succeeds, `grant` returns
-- 0 and `check` then returns 0, whatever the policy had. A policy that cannot be read denies every
-- claim.
pub grant-check :
    (claim user : String) (role : Option String) (policy : Policy)
    → non_empty (some claim) ≡ some claim
    → non_empty (some user) ≡ some user
    → ((config : Value)
        → load policy ≡ ok config
        → (policy' : Policy) × (grant none (some claim) (some user) role policy ≡ (ok 0, policy'))
          × (check (some claim) (some user) policy' ≡ ok 0))
      × ((e : String) → load policy ≡ err e → check (some claim) (some user) policy ≡ ok 1)
unfolding grant check check_claim
grant-check claim user role policy c u = (
  λ config e. (
    some (ok (granted claim (some user) (non_empty role) config)),
    rw (grant, c, u) (rw (e, u) refl),
    check-held claim user (some (ok (granted claim (some user) (non_empty role) config)))
        (merged default_policy (granted claim (some user) (non_empty role) config)) c u
        (load_merged-ok (granted claim (some user) (non_empty role) config))
        (granted-user_claims claim user (non_empty role) config),
  ),
  λ e f. rw (check, c) (rw (load_merged-err policy e f) refl),
)
